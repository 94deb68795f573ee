-- ===== src/Store/Zsets/Search.antt =====
-- The binary search of app/store.go's sorted sets finds the number of entries below the one sought.
use native.Mathlib.Decide.{dec_lt}
use redis_go.Base.{
  ℕ, zero, suc, ◌+◌, ◌-◌, ◌/◌, ◌≤◌, ◌<◌, ◌≡◌, refl, Bool, true, false, List, [], ◌∷◌, arith, ltb,
  if◌then◌else◌, All, length, Bool-cases, inl, inr,
}
use redis_go.Store.{ZsetEntry}
use redis_go.Store.Zsets.{search_loop, sort_search, not_below, place_of, compare}
use redis_go.Store.Zsets.Order.{IsNumber, compare_trans}

search_loop-bound :
    (fuel b i j : ℕ) (test : ℕ → Bool)
    → ((k : ℕ) → k < b → test k ≡ false)
    → ((k : ℕ) → b ≤ k → test k ≡ true)
    → i ≤ b
    → b ≤ j
    → j - i < fuel
    → search_loop fuel test i j ≡ b
unfolding search_loop
search_loop-bound zero b i j test lo hi p q h = absurd (omega arith)
search_loop-bound (suc fuel) b i j test lo hi p q h = elim (Bool-cases (ltb i j)) [
  | inr e ↦ rw e (ground arith)
  | inl e ↦ elim (dec_lt ((i + j) / 2) b) [
    | yes below ↦
        rw (e, lo ((i + j) / 2) below)
          (search_loop-bound fuel b ((i + j) / 2 + 1) j test lo hi (omega arith) q (ground arith))
    | no above ↦
        rw (e, hi ((i + j) / 2) (omega arith))
          (search_loop-bound fuel b i ((i + j) / 2) test lo hi p (omega arith) (ground arith))
  ]
]

-- How many entries stand before the first that is not below the one given.
unfoldable pub count_below : ZsetEntry → List ZsetEntry → ℕ
count_below e [] = 0
count_below e (x ∷ xs) = let rest = count_below e xs in if compare x e then suc rest else 0

-- Each entry is below all that follow it, and its score is a number.
abbrev pub Ascending : List ZsetEntry → Type 0
Ascending [] = Unit
Ascending (x ∷ xs) =
    IsNumber x.score × (All (λ y. (compare x y ≡ true) × IsNumber y.score) xs × Ascending xs)

not_below-lt :
    (e : ZsetEntry) (xs : List ZsetEntry) (k : ℕ) → k < count_below e xs → not_below xs e k ≡ false
unfolding count_below not_below
not_below-lt e [] k h = absurd (omega arith)
not_below-lt e (x ∷ xs) zero h = ground arith
not_below-lt e (x ∷ xs) (suc k) h = ground (arith, not_below-lt e xs k)

-- Behind an entry that is not below `e` none is.
count_below_none :
    (e x : ZsetEntry) (xs : List ZsetEntry)
    → IsNumber e.score
    → IsNumber x.score
    → All (λ y. (compare x y ≡ true) × IsNumber y.score) xs
    → compare x e ≡ false
    → count_below e xs ≡ 0
unfolding count_below
count_below_none e x [] he hx all h = refl
count_below_none e x (y ∷ ys) he hx ((xy, hy), all) h = elim (Bool-cases (compare y e)) [
  | inl ye ↦ let xe : compare x e ≡ true = compare_trans x y e hx hy he xy ye in absurd (cc)
  | inr ye ↦ rw ye
]

not_below-ge :
    (e : ZsetEntry) (xs : List ZsetEntry) (k : ℕ)
    → IsNumber e.score
    → Ascending xs
    → count_below e xs ≤ k
    → not_below xs e k ≡ true
unfolding count_below not_below
not_below-ge e [] k he up h = refl
not_below-ge e (x ∷ xs) zero he up h = ground arith
not_below-ge e (x ∷ xs) (suc k) he (hx, (all, up)) h =
    not_below-ge e xs k he up (elim (Bool-cases (compare x e)) [
      | inl xe ↦ ground arith
      | inr xe ↦ omega (arith, count_below_none e x xs he hx all xe)
    ])

pub count_below_le : (e : ZsetEntry) (xs : List ZsetEntry) → count_below e xs ≤ length xs
unfolding count_below
count_below_le e [] = omega arith
count_below_le e (x ∷ xs) = ground (arith, count_below_le e xs)

-- In an ascending list, and for an entry whose score is a number, the place that the binary search
-- finds is the number of entries before the first that is not below it.
pub place_of-count_below :
    (e : ZsetEntry) (xs : List ZsetEntry)
    → IsNumber e.score
    → Ascending xs
    → place_of xs e ≡ count_below e xs
unfolding place_of sort_search
place_of-count_below e xs he up =
    search_loop-bound (suc (length xs)) (count_below e xs) 0 (length xs) (not_below xs e)
      (not_below-lt e xs) (λ k h. not_below-ge e xs k he up h) (omega arith) (count_below_le e xs)
      (omega arith)
