-- ===== src/Store/Geo/Digits.antt =====
-- Numbers as lists of binary digits, lowest first, and the operations of the codes of places on them.
use Prim.Native.Nat.{bit_and, bit_or, bit_and-bitwise, bit_or-bitwise, digits, bitwise, min, max}
use redis_go.Base.{
  ℕ, zero, suc, ◌+◌, ◌*◌, ◌/◌, ◌%◌, ◌<◌, ◌≤◌, ◌≡◌, refl, ap, ◌∙◌, sym, Bool, true, false, ◌||◌,
  List, [], ◌∷◌, Option, none, some, arith, if◌then◌else◌,
}

module _ (z : ℕ → ℕ) (f : ℕ → ℕ → ℕ) where
  -- More steps than the first number needs change nothing.
  digits-enough : (n m a b : ℕ) → a ≤ n → a ≤ m → digits z f n a b ≡ digits z f m a b
  digits-enough zero zero a b p q = refl
  digits-enough zero (suc m) zero b p q = refl
  digits-enough zero (suc m) (suc a) b p q = absurd (omega arith)
  digits-enough (suc n) zero zero b p q = refl
  digits-enough (suc n) zero (suc a) b p q = absurd (omega arith)
  digits-enough (suc n) (suc m) zero b p q = refl
  digits-enough (suc n) (suc m) (suc a) b p q =
      ap (λ r. r * 2 + f (suc a % 2) (b % 2))
        (digits-enough n m (suc a / 2) (b / 2) (omega arith) (omega arith))

  bitwise-halves :
      (a b : ℕ)
      → z b ≡ z (b / 2) * 2 + f 0 (b % 2)
      → bitwise z f a b ≡ bitwise z f (a / 2) (b / 2) * 2 + f (a % 2) (b % 2)
  bitwise-halves zero b base = base
  bitwise-halves (suc a) b base =
      ap (λ r. r * 2 + f (suc a % 2) (b % 2))
        (digits-enough a (suc a / 2) (suc a / 2) (b / 2) (omega arith) (omega arith))

bit_and-halves : (a b : ℕ) → bit_and a b ≡ bit_and (a / 2) (b / 2) * 2 + min (a % 2) (b % 2)
bit_and-halves a b =
    bit_and-bitwise a b
    ∙ bitwise-halves (λ c. zero) min a b (omega arith)
    ∙ ap (λ r. r * 2 + min (a % 2) (b % 2)) (sym (bit_and-bitwise (a / 2) (b / 2)))

bit_or-halves : (a b : ℕ) → bit_or a b ≡ bit_or (a / 2) (b / 2) * 2 + max (a % 2) (b % 2)
bit_or-halves a b =
    bit_or-bitwise a b
    ∙ bitwise-halves (λ c. c) max a b (omega arith)
    ∙ ap (λ r. r * 2 + max (a % 2) (b % 2)) (sym (bit_or-bitwise (a / 2) (b / 2)))

pub half : (v d : ℕ) → d < 2 → (v * 2 + d) / 2 ≡ v
half v d h = omega arith

odd : (v d : ℕ) → d < 2 → (v * 2 + d) % 2 ≡ d
odd v d h = omega arith

bit_or-cons :
    (v w d e : ℕ) → d < 2 → e < 2 → bit_or (v * 2 + d) (w * 2 + e) ≡ bit_or v w * 2 + max d e
bit_or-cons v w d e hd he =
    bit_or-halves (v * 2 + d) (w * 2 + e)
    ∙ rw (half v d hd, half w e he, odd v d hd, odd w e he) refl

bit_and-cons :
    (v w d e : ℕ) → d < 2 → e < 2 → bit_and (v * 2 + d) (w * 2 + e) ≡ bit_and v w * 2 + min d e
bit_and-cons v w d e hd he =
    bit_and-halves (v * 2 + d) (w * 2 + e)
    ∙ rw (half v d hd, half w e he, odd v d hd, odd w e he) refl

-- A digit that is not known to be 0 has a Boolean.
abbrev pub Digits : Type 0
Digits = List (Option Bool)

abbrev pub digit : Option Bool → ℕ
digit none = 0
digit (some false) = 0
digit (some true) = 1

unfoldable pub value : Digits → ℕ
value [] = 0
value (d ∷ l) = value l * 2 + digit d

pub digit-small : (d : Option Bool) → digit d < 2
digit-small none = omega arith
digit-small (some false) = omega arith
digit-small (some true) = omega arith

abbrev or_digit : Option Bool → Option Bool → Option Bool
or_digit none d = d
or_digit (some a) none = some a
or_digit (some a) (some b) = some (a || b)

unfoldable pub or_list : Digits → Digits → Digits
or_list [] l = l
or_list (d ∷ k) [] = d ∷ k
or_list (d ∷ k) (e ∷ l) = or_digit d e ∷ or_list k l

digit-or : (d e : Option Bool) → digit (or_digit d e) ≡ max (digit d) (digit e)
digit-or none e = omega arith
digit-or (some false) none = refl
digit-or (some true) none = refl
digit-or (some false) (some false) = refl
digit-or (some false) (some true) = refl
digit-or (some true) (some false) = refl
digit-or (some true) (some true) = refl

bit_or-nil : (l : Digits) → bit_or (value l) 0 ≡ value l
unfolding value
bit_or-nil [] = refl
bit_or-nil (d ∷ l) =
    omega (arith, bit_or-cons (value l) 0 (digit d) 0 (digit-small d) (omega arith), bit_or-nil l)

pub value-or_list : (k l : Digits) → value (or_list k l) ≡ bit_or (value k) (value l)
unfolding value or_list
value-or_list [] l = sym (bit_or-bitwise 0 (value l))
value-or_list (d ∷ k) [] = sym (bit_or-nil (d ∷ k))
value-or_list (d ∷ k) (e ∷ l) = omega (
  arith,
  bit_or-cons (value k) (value l) (digit d) (digit e) (digit-small d) (digit-small e),
  value-or_list k l,
  digit-or d e,
)

bit_and-nil : (l : Digits) → bit_and (value l) 0 ≡ 0
unfolding value
bit_and-nil [] = refl
bit_and-nil (d ∷ l) =
    omega (arith, bit_and-cons (value l) 0 (digit d) 0 (digit-small d) (omega arith), bit_and-nil l)

-- The digits at which the mask has a 1.
unfoldable pub and_list : Digits → List Bool → Digits
and_list [] m = []
and_list (d ∷ l) [] = []
and_list (d ∷ l) (b ∷ m) = (if b then d else none) ∷ and_list l m

unfoldable pub mask_value : List Bool → ℕ
mask_value [] = 0
mask_value (b ∷ m) = mask_value m * 2 + (if b then 1 else 0)

pub value-and_list :
    (l : Digits) (m : List Bool) → value (and_list l m) ≡ bit_and (value l) (mask_value m)
unfolding value and_list mask_value
value-and_list [] m = sym (bit_and-bitwise 0 (mask_value m))
value-and_list (d ∷ l) [] = sym (bit_and-nil (d ∷ l))
value-and_list (d ∷ l) (true ∷ m) = omega (
  arith,
  bit_and-cons (value l) (mask_value m) (digit d) 1 (digit-small d) (omega arith),
  value-and_list l m,
  digit-small d,
)
value-and_list (d ∷ l) (false ∷ m) = omega (
  arith,
  bit_and-cons (value l) (mask_value m) (digit d) 0 (digit-small d) (omega arith),
  value-and_list l m,
)
