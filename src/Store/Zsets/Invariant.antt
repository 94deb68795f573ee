-- ===== src/Store/Zsets/Invariant.antt =====
-- The sorted list and the scores of a sorted set agree, after every operation.
use redis_go.Base.{
  ℕ, suc, ◌+◌, ◌≡◌, refl, true, false, List, [], ◌∷◌, some, arith, ltb, Bytes, bytes_eq,
  bytes_eq_iff, All, length, Bool-cases, inl, inr,
}
use mathlib.Core.Path.{subst}
use redis_go.Base.Dict.{get}
use redis_go.Store.{ZsetEntry, Zset, done}
use redis_go.Store.Zsets.{place_of, delete_at, compare, entry_of, index_of}
use redis_go.Store.Zsets.Order.{IsNumber, compare_irrefl}
use redis_go.Store.Zsets.Search.{Ascending, count_below, place_of-count_below}
use redis_go.Store.Zsets.Members.{remove_name, find_score, Distinct}

-- The list ascends, names no member twice, and has the score of each member.
pub record IsConsistent (z : Zset) : Type 0 where
  pub ascending : Ascending z.sorted
  pub distinct : Distinct z.sorted
  pub scored : (m : Bytes) → find_score m z.sorted ≡ get z.scores m

delete_at-zero : (x : ZsetEntry) (xs : List ZsetEntry) → delete_at 0 (x ∷ xs) ≡ done xs
unfolding delete_at
delete_at-zero x xs = ground arith

delete_at-suc :
    (i : ℕ) (x : ZsetEntry) (xs ys : List ZsetEntry)
    → delete_at i xs ≡ done ys
    → delete_at (suc i) (x ∷ xs) ≡ done (x ∷ ys)
unfolding delete_at
delete_at-suc i x xs ys h = elim (Bool-cases (ltb i (length xs))) [
  | inl b ↦ let e : i + 1 ≡ suc i = omega arith in ground arith
  | inr b ↦ ground arith
]

-- What holds of all entries holds of the one that is found.
pub All-find_score :
    (P : ZsetEntry → Type 0) (m : Bytes) (old : ℕ) (xs : List ZsetEntry)
    → All P xs
    → find_score m xs ≡ some old
    → P (entry_of m old)
unfolding find_score
All-find_score P m old [] all h = absurd (cc)
All-find_score P m old (x ∷ xs) (px, all) h = elim (Bool-cases (bytes_eq x.name m)) [
  | inl b ↦
      let name : x.name ≡ m = (bytes_eq_iff x.name m).0 b in
      let score : x.score ≡ old = ground arith in
      subst (λ n. P (entry_of n old)) name (subst (λ s. P (entry_of x.name s)) score px)
  | inr b ↦ All-find_score P m old xs all (ground arith)
]

delete_at-count_below :
    (m : Bytes) (old : ℕ) (xs : List ZsetEntry)
    → Ascending xs
    → find_score m xs ≡ some old
    → delete_at (count_below (entry_of m old) xs) xs ≡ done (remove_name m xs)
unfolding count_below find_score remove_name
delete_at-count_below m old [] up h = absurd (cc)
delete_at-count_below m old (x ∷ xs) (hx, (all, up)) h = elim (Bool-cases (bytes_eq x.name m)) [
  | inl b ↦
      let name : x.name ≡ m = (bytes_eq_iff x.name m).0 b in
      let score : x.score ≡ old = ground arith in
      let low : compare x (entry_of m old) ≡ false =
        subst (λ n. compare x (entry_of n old) ≡ false) name
          (subst (λ s. compare x (entry_of x.name s) ≡ false) score (compare_irrefl x hx)) in
      rw (b, low) (delete_at-zero x xs)
  | inr b ↦
      let found : find_score m xs ≡ some old = ground arith in
      let low : compare x (entry_of m old) ≡ true =
        (All-find_score (λ y. (compare x y ≡ true) × IsNumber y.score) m old xs all found).0 in
      rw (b, low)
        (delete_at-suc (count_below (entry_of m old) xs) x xs (remove_name m xs)
          (delete_at-count_below m old xs up found))
]

pub find_score-IsNumber :
    (m : Bytes) (old : ℕ) (xs : List ZsetEntry)
    → Ascending xs
    → find_score m xs ≡ some old
    → IsNumber old
unfolding find_score
find_score-IsNumber m old [] up h = absurd (cc)
find_score-IsNumber m old (x ∷ xs) (hx, (all, up)) h = elim (Bool-cases (bytes_eq x.name m)) [
  | inl b ↦ let score : x.score ≡ old = ground arith in rw score at hx
  | inr b ↦ find_score-IsNumber m old xs up (ground arith)
]

-- The binary search for a member's entry finds it.
pub delete_at-remove_name :
    (m : Bytes) (old : ℕ) (xs : List ZsetEntry)
    → Ascending xs
    → find_score m xs ≡ some old
    → delete_at (place_of xs (entry_of m old)) xs ≡ done (remove_name m xs)
delete_at-remove_name m old xs up h =
    rw (place_of-count_below (entry_of m old) xs (find_score-IsNumber m old xs up h) up)
      (delete_at-count_below m old xs up h)

pub delete_at-index_of :
    (m : Bytes) (old : ℕ) (xs : List ZsetEntry)
    → find_score m xs ≡ some old
    → (i : ℕ) × (index_of m xs ≡ some i) × (delete_at i xs ≡ done (remove_name m xs))
unfolding find_score index_of remove_name
delete_at-index_of m old [] h = absurd (cc)
delete_at-index_of m old (x ∷ xs) h = elim (Bool-cases (bytes_eq x.name m)) [
  | inl b ↦ rw b (0, refl, delete_at-zero x xs)
  | inr b ↦
      let (i, e, d) = delete_at-index_of m old xs (ground arith) in
      rw b (suc i, rw e, delete_at-suc i x xs (remove_name m xs) d)
]
