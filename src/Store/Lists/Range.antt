-- ===== src/Store/Lists/Range.antt =====
-- LRANGE against the positions that it names.
use redis_go.Base.{
  ℕ, zero, suc, ◌+◌, ◌-◌, ◌≡◌, refl, ap, ◌∙◌, sym, not, ◌||◌, List, [], ◌∷◌, none, some, arith, ltb,
  leb, ◌≤◌, ◌<◌, if◌then◌else◌, Bytes, length, take, drop, length-drop, Bool-cases, Option-cases,
  inl, inr,
}
use redis_go.Base.Int.{ℤ, pos, negsuc, ltb_ℤ, ◌+ℤ◌}
use redis_go.Base.Dict.{get}
use redis_go.Store.{Store, Outcome, done}
use redis_go.Store.Lists.{from_end, clamp_low, clamp_high, slice, range, lrange}

module _ {A : Type 0} where
  -- The elements whose positions, counted from `i`, lie from `lo` to `hi`.
  pub between : ℤ → ℤ → ℕ → List A → List A
  between lo hi i [] = []
  between lo hi i (x ∷ xs) =
      let rest = between lo hi (suc i) xs in
      if ltb_ℤ (pos i) lo || ltb_ℤ hi (pos i) then rest else x ∷ rest

  between_clamp :
      (lo hi : ℤ) (i : ℕ) (xs : List A) → between lo hi i xs ≡ between (clamp_low lo) hi i xs
  unfolding between
  between_clamp (pos a) hi i xs = refl
  between_clamp (negsuc a) hi i [] = refl
  between_clamp (negsuc a) hi i (x ∷ xs) = ground (arith, between_clamp (negsuc a) hi (suc i) xs)

  between_negative : (lo : ℤ) (h i : ℕ) (xs : List A) → between lo (negsuc h) i xs ≡ []
  unfolding between
  between_negative lo h i [] = refl
  between_negative lo h i (x ∷ xs) = ground (arith, between_negative lo h (suc i) xs)

  pub drop-nil : (n : ℕ) → drop {A = A} n [] ≡ []
  drop-nil zero = refl
  drop-nil (suc n) = refl

  take-nil : (n : ℕ) → take {A = A} n [] ≡ []
  take-nil zero = refl
  take-nil (suc n) = refl

  take_all : (n : ℕ) (xs : List A) → length xs ≤ n → take n xs ≡ xs
  take_all n [] h = take-nil n
  take_all zero (x ∷ xs) h = absurd (omega arith)
  take_all (suc n) (x ∷ xs) h = ap (λ r. x ∷ r) (take_all n xs (omega arith))

  -- past the low end nothing more is dropped
  between_from :
      (a h i : ℕ) (xs : List A) → a ≤ i → between (pos a) (pos h) i xs ≡ take (h + 1 - i) xs
  unfolding between
  between_from a h i [] le = sym (take-nil (h + 1 - i))
  between_from a h i (x ∷ xs) le = elim (Bool-cases (ltb h i)) [
    | inl past ↦
        let z : h + 1 - i ≡ 0 = ground arith in
        let z' : h + 1 - suc i ≡ 0 = ground arith in
        rw z (ground (arith, between_from a h (suc i) xs (omega arith), ap (λ n. take n xs) z'))
    | inr within ↦
        let z : h + 1 - i ≡ suc (h + 1 - suc i) = ground arith in
        rw z (ground (arith, between_from a h (suc i) xs (omega arith)))
  ]

  between_skip :
      (a h i : ℕ) (x : A) (xs : List A)
      → i < a
      → between (pos a) (pos h) i (x ∷ xs) ≡ between (pos a) (pos h) (suc i) xs
  unfolding between
  between_skip a h i x xs lt = ground arith

  between-drop :
      (a h i : ℕ) (xs : List A)
      → between (pos (a + i)) (pos h) i xs ≡ take (h + 1 - (a + i)) (drop a xs)
  between-drop zero h i xs =
      let z : 0 + i ≡ i = omega arith in rw z (between_from i h i xs (omega arith))
  between-drop (suc a) h i [] = unfold between in sym (take-nil (h + 1 - (suc a + i)))
  between-drop (suc a) h i (x ∷ xs) =
      let z : suc a + i ≡ a + suc i = omega arith in
      rw z (between_skip (a + suc i) h i x xs (omega arith) ∙ between-drop a h (suc i) xs)

  drop_all : (n : ℕ) (xs : List A) → length xs ≤ n → drop n xs ≡ []
  drop_all n [] h = drop-nil n
  drop_all zero (x ∷ xs) h = absurd (omega arith)
  drop_all (suc n) (x ∷ xs) h = drop_all n xs (omega arith)

  slice-done :
      (xs : List A) (low high : ℕ)
      → low ≤ high
      → high ≤ length xs
      → slice xs (pos low) (pos high) ≡ done (take (high - low) (drop low xs))
  unfolding slice
  slice-done xs low high h k = ground arith

  -- `LRange` once its bounds are counted from the front.
  abbrev clamped : List A → ℤ → ℤ → Outcome (List A)
  clamped xs lo hi =
      let low = clamp_low lo in
      let high = clamp_high (length xs) hi in
      if ltb_ℤ high low || not (ltb_ℤ low (pos (length xs)))
      then done []
      else slice xs low (high +ℤ pos 1)

  clamped-take :
      (xs : List A) (a h : ℕ) → clamped xs (pos a) (pos h) ≡ done (take (h + 1 - a) (drop a xs))
  unfolding ◌+ℤ◌
  clamped-take [] a h = rw (drop-nil a, take-nil (h + 1 - a)) (ground arith)
  clamped-take (x ∷ xs) a h = elim (Bool-cases (leb (suc (length xs)) a)) [
    | inl out ↦
        rw (drop_all a (x ∷ xs) (ground arith), take-nil (h + 1 - a))
          (elim (Bool-cases (leb (suc (length xs)) h)) [
            | inl long ↦ rw long (ground arith)
            | inr short ↦ rw short (ground arith)
          ])
    | inr inside ↦ elim (Bool-cases (leb (suc (length xs)) h)) [
      | inl long ↦
          rw (long, take_all (h + 1 - a) (drop a (x ∷ xs)) (ground (arith, length-drop a (x ∷ xs))))
            (ground (
              arith,
              slice-done (x ∷ xs) a (length xs + 1),
              take_all (length xs + 1 - a) (drop a (x ∷ xs)),
              length-drop a (x ∷ xs),
            ))
      | inr short ↦ elim (Bool-cases (ltb h a)) [
        | inl empty ↦ let z : h + 1 - a ≡ 0 = ground arith in rw (short, z) (ground arith)
        | inr full ↦ rw short (ground (arith, slice-done (x ∷ xs) a (h + 1)))
      ]
    ]
  ]

  clamped-front :
      (xs : List A) (a : ℕ) (hi : ℤ) → clamped xs (pos a) hi ≡ done (between (pos a) hi 0 xs)
  clamped-front xs a (pos h) =
      let z : a + 0 ≡ a = omega arith in
      let whole : between (pos a) (pos h) 0 xs ≡ take (h + 1 - a) (drop a xs) =
        (rw z at (between-drop a h 0 xs)) in
      clamped-take xs a h ∙ ap done (sym whole)
  clamped-front xs a (negsuc h) = rw (between_negative (pos a) h 0 xs) (ground arith)

  clamped-between : (xs : List A) (lo hi : ℤ) → clamped xs lo hi ≡ done (between lo hi 0 xs)
  clamped-between xs (pos a) hi = clamped-front xs a hi
  clamped-between xs (negsuc a) hi =
      clamped-front xs 0 hi ∙ ap done (sym (between_clamp (negsuc a) hi 0 xs))

  -- The elements whose positions lie in the range, where a negative bound counts from the end.
  pub range-between :
      (xs : List A) (start stop : ℤ)
      → range xs start stop
        ≡ done (between (from_end (length xs) start) (from_end (length xs) stop) 0 xs)
  unfolding range
  range-between xs start stop =
      clamped-between xs (from_end (length xs) start) (from_end (length xs) stop)

-- The list of a key, which a missing key has empty.
abbrev pub list_at : Bytes → Store → List Bytes
list_at key s = elim (get s.entries key) [ none ↦ [] | some e ↦ e.list ]

-- LRANGE, for every key and every pair of bounds, does not panic: it returns the elements of the key's
-- list whose positions lie from `start` to `stop`, where a negative bound counts from the end. A missing
-- key has no element; an entry that has expired counts like any other while it is in the store.
pub lrange-between :
    (key : Bytes) (start stop : ℤ) (s : Store)
    → lrange key start stop s
      ≡ done (
          between
            (from_end (length (list_at key s)) start)
            (from_end (length (list_at key s)) stop)
            0
            (list_at key s))
unfolding lrange
lrange-between key start stop s = elim (Option-cases (get s.entries key)) [
  | inl e ↦ rw (e, lrange, list_at) (unfold between in refl)
  | inr (e, h) ↦ rw (h, lrange, list_at) (range-between e.list start stop)
]
