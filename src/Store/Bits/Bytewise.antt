-- ===== src/Store/Bits/Bytewise.antt =====
-- A bit of a byte that was written is read back, and the other bits stay: checked for every byte and
-- every pair of bits.
use redis_go.Base.{
  ℕ, zero, suc, ◌-◌, ◌^◌, ◌<◌, ◌≡◌, refl, Bool, true, false, not, ◌&&◌, arith, ◌==◌, if◌then◌else◌,
}
use redis_go.Store.Bits.{has_bit, write_bit}

-- The test holds at each of the first numbers, as many as the count says.
each : (ℕ → Bool) → ℕ → Bool
each test zero = true
each test (suc last) = if test last then each test last else false

at_each : (test : ℕ → Bool) {i : ℕ} (count : ℕ) → i < count → each test count ≡ true → test i ≡ true
unfolding each
at_each test zero h holds = absurd (omega arith)
at_each test {i = i} (suc last) h holds = ground (arith, at_each test {i = i} last)

abbrev same : Bool → Bool → Bool
same true b = b
same false b = not b

same_eq : (a b : Bool) → same a b ≡ true → a ≡ b
same_eq a b h = ground arith

-- the bit `j` of a byte whose bit `k` was written
abbrev expected : ℕ → ℕ → ℕ → Bool → Bool
expected b k j v = if k == j then v else has_bit b (2 ^ (7 - j))

abbrev checked : ℕ → ℕ → ℕ → Bool
checked b k j =
    same (has_bit (write_bit b (2 ^ (7 - k)) true) (2 ^ (7 - j))) (expected b k j true)
    && same (has_bit (write_bit b (2 ^ (7 - k)) false) (2 ^ (7 - j))) (expected b k j false)

table : each (λ b. each (λ k. each (checked b k) 8) 8) 256 ≡ true
unfolding each has_bit write_bit
table = refl

-- Writing the bit `k` of a byte, counted from the highest, changes that bit to `v` and no other.
pub has_bit-write_bit :
    (b k j : ℕ) (v : Bool)
    → b < 256
    → k < 8
    → j < 8
    → has_bit (write_bit b (2 ^ (7 - k)) v) (2 ^ (7 - j)) ≡ expected b k j v
has_bit-write_bit b k j v hb hk hj = both v (
    at_each (checked b k) 8 hj (
      at_each (λ i. each (checked b i) 8) 8 hk
        (at_each (λ c. each (λ i. each (checked c i) 8) 8) 256 hb table)))
  where
    both :
        (v : Bool)
        → checked b k j ≡ true
        → has_bit (write_bit b (2 ^ (7 - k)) v) (2 ^ (7 - j)) ≡ expected b k j v
    both true h = same_eq _ _ (ground arith)
    both false h = same_eq _ _ (ground arith)

zero_table : each (λ j. not (has_bit 0 (2 ^ (7 - j)))) 8 ≡ true
unfolding each has_bit
zero_table = refl

pub has_bit-zero : (j : ℕ) → j < 8 → has_bit 0 (2 ^ (7 - j)) ≡ false
has_bit-zero j h = ground (arith, at_each (λ i. not (has_bit 0 (2 ^ (7 - i)))) 8 h zero_table)
