-- ===== src/Store/Geo/Codes.antt =====
-- `spread`, `interleave` and `compactInt64ToInt32` of app/store.go on lists of binary digits.
use Prim.Native.Nat.{bit_and, bit_or}
use native.Mathlib.Nat.{div-div-eq-div-mul, zero-div}
use redis_go.Base.{
  ℕ, zero, suc, ◌+◌, ◌*◌, ◌/◌, ◌%◌, ◌^◌, ◌<◌, ◌≤◌, ◌≡◌, refl, ap, ◌∙◌, sym, Bool, true, false, List,
  [], ◌∷◌, none, some, arith, length, ◌==◌,
}
use redis_go.Store.Geo.{shl, spread_step, spread, interleave, compact_step, compact}
use redis_go.Store.Geo.Digits.{
  Digits, digit, digit-small, value, or_list, value-or_list, and_list, mask_value, value-and_list,
  half,
}

unfoldable zeros : ℕ → Digits → Digits
zeros zero l = l
zeros (suc k) l = none ∷ zeros k l

value-zeros : (k : ℕ) (l : Digits) → value (zeros k l) ≡ value l * 2 ^ k
unfolding value zeros
value-zeros zero l = omega arith
value-zeros (suc k) l = grind (arith, value-zeros k l)

value-small : (l : Digits) → value l < 2 ^ length l
unfolding value
value-small [] = omega arith
value-small (d ∷ l) = grind (arith, value-small l, digit-small d)

-- The last digits fall away.
unfoldable behind : ℕ → Digits → Digits
behind zero l = l
behind (suc k) [] = []
behind (suc k) (d ∷ l) = behind k l

value-behind : (k : ℕ) (l : Digits) → value (behind k l) ≡ value l / 2 ^ k
unfolding value behind
value-behind zero l = omega arith
value-behind (suc k) [] = sym (zero-div (2 ^ suc k))
value-behind (suc k) (d ∷ l) =
    value-behind k l
    ∙ ap (λ r. r / 2 ^ k) (sym (half (value l) (digit d) (digit-small d)))
    ∙ div-div-eq-div-mul (value l * 2 + digit d) 2 (2 ^ k)
    ∙ ap (λ r. (value l * 2 + digit d) / r) (grind arith)

unfoldable bits : ℕ → ℕ → Digits
bits zero v = []
bits (suc n) v = some (v % 2 == 1) ∷ bits n (v / 2)

digit-last : (v : ℕ) → digit (some (v % 2 == 1)) ≡ v % 2
digit-last v = ground arith

value-bits : (n v : ℕ) → v < 2 ^ n → value (bits n v) ≡ v
unfolding value bits
value-bits zero v h = omega arith
value-bits (suc n) v h = omega (arith, value-bits n (v / 2) (grind (arith, h)), digit-last v)

-- The digits of a step of `spread`, and of one of `compact`.
abbrev spread_digits : ℕ → List Bool → Digits → Digits
spread_digits k m l = and_list (or_list l (zeros k l)) m

abbrev compact_digits : ℕ → List Bool → Digits → Digits
compact_digits k m l = and_list (or_list l (behind k l)) m

value-shl :
    (k : ℕ) (l : Digits) → 2 ^ length (zeros k l) ≤ 2 ^ 64 → value (zeros k l) ≡ shl (value l) k
value-shl k l short = omega (arith, value-zeros k l, value-small (zeros k l), short)

value-spread_digits :
    (k : ℕ) (m : List Bool) (l : Digits)
    → 2 ^ length (zeros k l) ≤ 2 ^ 64
    → value (spread_digits k m l) ≡ spread_step k (mask_value m) (value l)
unfolding spread_step
value-spread_digits k m l short =
    value-and_list (or_list l (zeros k l)) m
    ∙ ap (λ r. bit_and r (mask_value m))
        (value-or_list l (zeros k l) ∙ ap (bit_or (value l)) (value-shl k l short))

value-compact_digits :
    (k : ℕ) (m : List Bool) (l : Digits)
    → value (compact_digits k m l) ≡ compact_step k (mask_value m) (value l)
unfolding compact_step
value-compact_digits k m l =
    value-and_list (or_list l (behind k l)) m
    ∙ ap (λ r. bit_and r (mask_value m))
        (value-or_list l (behind k l) ∙ ap (bit_or (value l)) (value-behind k l))

ones : ℕ → List Bool → List Bool
ones zero m = m
ones (suc k) m = true ∷ ones k m

gap : ℕ → List Bool → List Bool
gap zero m = m
gap (suc k) m = false ∷ gap k m

-- So many blocks of `k` ones, with `k` zeros between them.
unfoldable comb : ℕ → ℕ → List Bool
unfolding ones gap
comb k zero = []
comb k (suc zero) = ones k []
comb k (suc (suc n)) = ones k (gap k (comb k (suc n)))

unfoldable spread_list : Digits → Digits
unfolding comb zeros or_list and_list
spread_list l = spread_digits 1 (comb 1 32) (
    spread_digits 2 (comb 2 16)
      (spread_digits 4 (comb 4 8) (spread_digits 8 (comb 8 4) (spread_digits 16 (comb 16 2) l))))

unfoldable compact_list : Digits → Digits
unfolding comb behind or_list and_list
compact_list l = compact_digits 16 (comb 32 1) (
    compact_digits 8 (comb 16 2) (
      compact_digits 4 (comb 8 4)
        (compact_digits 2 (comb 4 8) (compact_digits 1 (comb 2 16) (and_list l (comb 1 32))))))

spread_next :
    (k : ℕ) (m : List Bool) {mask v : ℕ} (l : Digits)
    → mask_value m ≡ mask
    → 2 ^ length (zeros k l) ≤ 2 ^ 64
    → value l ≡ v
    → value (spread_digits k m l) ≡ spread_step k mask v
spread_next k m {mask} {v} l masks short h =
    value-spread_digits k m l short
    ∙ ap (λ r. spread_step k r (value l)) masks
    ∙ ap (spread_step k mask) h

compact_next :
    (k : ℕ) (m : List Bool) {mask v : ℕ} (l : Digits)
    → mask_value m ≡ mask
    → value l ≡ v
    → value (compact_digits k m l) ≡ compact_step k mask v
compact_next k m {mask} {v} l masks h =
    value-compact_digits k m l
    ∙ ap (λ r. compact_step k r (value l)) masks
    ∙ ap (compact_step k mask) h

value-spread_list : (v : ℕ) → v < 2 ^ 32 → value (spread_list (bits 32 v)) ≡ spread v
unfolding spread spread_list comb mask_value zeros bits or_list and_list
value-spread_list v h =
    let l16 = spread_digits 16 (comb 16 2) (bits 32 v) in
    let l8 = spread_digits 8 (comb 8 4) l16 in
    let l4 = spread_digits 4 (comb 4 8) l8 in
    let l2 = spread_digits 2 (comb 2 16) l4 in
    spread_next 1 (comb 1 32) l2 refl (omega arith) (
      spread_next 2 (comb 2 16) l4 refl (omega arith) (
        spread_next 4 (comb 4 8) l8 refl (omega arith) (
          spread_next 8 (comb 8 4) l16 refl (omega arith)
            (spread_next 16 (comb 16 2) (bits 32 v) refl (omega arith) (value-bits 32 v h)))))

value-compact_list : (l : Digits) (v : ℕ) → value l ≡ v → value (compact_list l) ≡ compact v
unfolding compact compact_list comb mask_value
value-compact_list l v h = compact_next 16 (comb 32 1) _ refl (
    compact_next 8 (comb 16 2) _ refl (
      compact_next 4 (comb 8 4) _ refl (
        compact_next 2 (comb 4 8) _ refl (
          compact_next 1 (comb 2 16) _ refl
            (value-and_list l (comb 1 32) ∙ ap (λ r. bit_and r 0x5555555555555555) h)))))

compact_list-x :
    (x y : ℕ)
    → compact_list (or_list (spread_list (bits 32 x)) (zeros 1 (spread_list (bits 32 y))))
      ≡ bits 32 x
unfolding compact_list spread_list bits zeros or_list
compact_list-x x y = refl

compact_list-y :
    (x y : ℕ)
    → compact_list
        (behind 1 (or_list (spread_list (bits 32 x)) (zeros 1 (spread_list (bits 32 y)))))
      ≡ bits 32 y
unfolding compact_list spread_list bits zeros or_list behind
compact_list-y x y = refl

spread_list-short : (v : ℕ) → 2 ^ length (zeros 1 (spread_list (bits 32 v))) ≤ 2 ^ 64
unfolding spread_list bits zeros
spread_list-short v = omega arith

value-interleave :
    (x y : ℕ)
    → x < 2 ^ 32
    → y < 2 ^ 32
    → value (or_list (spread_list (bits 32 x)) (zeros 1 (spread_list (bits 32 y)))) ≡ interleave x y
unfolding interleave
value-interleave x y hx hy =
    value-or_list (spread_list (bits 32 x)) (zeros 1 (spread_list (bits 32 y)))
    ∙ ap (bit_or (value (spread_list (bits 32 x))))
        (value-shl 1 (spread_list (bits 32 y)) (spread_list-short y))
    ∙ ap (λ a. bit_or a (shl (value (spread_list (bits 32 y))) 1)) (value-spread_list x hx)
    ∙ ap (λ b. bit_or (spread x) (shl b 1)) (value-spread_list y hy)

-- For two numbers `x` and `y` below 2 ^ 32, the compaction of the interleaved code gives `x` back, and
-- the compaction of its half gives `y` back.
pub compact-interleave :
    (x y : ℕ)
    → x < 2 ^ 32
    → y < 2 ^ 32
    → (compact (interleave x y) ≡ x) × (compact (interleave x y / 2) ≡ y)
compact-interleave x y hx hy =
    let code = or_list (spread_list (bits 32 x)) (zeros 1 (spread_list (bits 32 y))) in
    (
      sym (value-compact_list code (interleave x y) (value-interleave x y hx hy))
          ∙ ap value (compact_list-x x y)
          ∙ value-bits 32 x hx,
      sym (
            value-compact_list (behind 1 code) (interleave x y / 2)
              (value-behind 1 code ∙ ap (λ r. r / 2) (value-interleave x y hx hy)))
          ∙ ap value (compact_list-y x y)
          ∙ value-bits 32 y hy,
    )
