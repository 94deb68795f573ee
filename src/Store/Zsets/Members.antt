-- ===== src/Store/Zsets/Members.antt =====
-- What an insertion and a deletion at the place of the binary search do to a sorted list of entries.
use redis_go.Base.{
  ℕ, ◌≡◌, refl, ap, true, List, [], ◌∷◌, Option, none, some, arith, if◌then◌else◌, Bytes, bytes_eq,
  bytes_eq_iff, All, Bool-cases, inl, inr,
}
use redis_go.Store.{ZsetEntry}
use redis_go.Store.Zsets.{place_of, insert_at, compare}
use redis_go.Store.Zsets.Order.{IsNumber, compare_trans, compare_total}
use redis_go.Store.Zsets.Search.{Ascending, count_below, place_of-count_below}

-- The entry in front of the first that is not below it.
unfoldable pub insert : ZsetEntry → List ZsetEntry → List ZsetEntry
insert e [] = e ∷ []
insert e (x ∷ xs) = let rest = insert e xs in if compare x e then x ∷ rest else e ∷ x ∷ xs

-- The list without the first entry of the name.
unfoldable pub remove_name : Bytes → List ZsetEntry → List ZsetEntry
remove_name m [] = []
remove_name m (x ∷ xs) = let rest = remove_name m xs in if bytes_eq x.name m then xs else x ∷ rest

-- The score of the first entry of the name.
unfoldable pub find_score : Bytes → List ZsetEntry → Option ℕ
find_score m [] = none
find_score m (x ∷ xs) = if bytes_eq x.name m then some x.score else find_score m xs

abbrev pub Distinct : List ZsetEntry → Type 0
Distinct [] = Unit
Distinct (x ∷ xs) = (find_score x.name xs ≡ none) × Distinct xs

insert_at-count_below :
    (e : ZsetEntry) (xs : List ZsetEntry) → insert_at (count_below e xs) e xs ≡ insert e xs
unfolding insert_at count_below insert
insert_at-count_below e [] = refl
insert_at-count_below e (x ∷ xs) = elim (Bool-cases (compare x e)) [
  | inl b ↦ rw b (ap (λ l. x ∷ l) (insert_at-count_below e xs))
  | inr b ↦ rw b
]

pub insert_at-insert :
    (e : ZsetEntry) (xs : List ZsetEntry)
    → IsNumber e.score
    → Ascending xs
    → insert_at (place_of xs e) e xs ≡ insert e xs
insert_at-insert e xs he up = rw (place_of-count_below e xs he up) (insert_at-count_below e xs)

All-insert :
    (P : ZsetEntry → Type 0) (e : ZsetEntry) (xs : List ZsetEntry)
    → P e
    → All P xs
    → All P (insert e xs)
unfolding insert
All-insert P e [] p all = (p, tt)
All-insert P e (x ∷ xs) p (px, all) = elim (Bool-cases (compare x e)) [
  | inl b ↦ rw b (px, All-insert P e xs p all)
  | inr b ↦ rw b (p, (px, all))
]

-- What is above `x` is above `e`, where `e` is below `x`.
All-above :
    (e x : ZsetEntry) (xs : List ZsetEntry)
    → IsNumber e.score
    → IsNumber x.score
    → compare e x ≡ true
    → All (λ y. (compare x y ≡ true) × IsNumber y.score) xs
    → All (λ y. (compare e y ≡ true) × IsNumber y.score) xs
All-above e x [] he hx ex all = tt
All-above e x (y ∷ ys) he hx ex ((xy, hy), all) =
    ((compare_trans e x y he hx hy ex xy, hy), All-above e x ys he hx ex all)

pub Ascending-insert :
    (e : ZsetEntry) (xs : List ZsetEntry)
    → IsNumber e.score
    → find_score e.name xs ≡ none
    → Ascending xs
    → Ascending (insert e xs)
unfolding insert find_score
Ascending-insert e [] he new up = (he, (tt, tt))
Ascending-insert e (x ∷ xs) he new (hx, (all, up)) = elim (Bool-cases (compare x e)) [
  | inl b ↦ rw b (hx, (All-insert _ e xs (b, he) all, Ascending-insert e xs he (ground arith) up))
  | inr b ↦
      let ex : compare e x ≡ true = compare_total x e hx he (ground arith) b in
      rw b (he, (((ex, hx), All-above e x xs he hx ex all), (hx, (all, up))))
]

pub find_score-insert :
    (e : ZsetEntry) (xs : List ZsetEntry) (m : Bytes)
    → find_score e.name xs ≡ none
    → find_score m (insert e xs) ≡ (if bytes_eq e.name m then some e.score else find_score m xs)
unfolding insert find_score
find_score-insert e [] m new = refl
find_score-insert e (x ∷ xs) m new = ground (
  arith,
  find_score-insert e xs m,
  bytes_eq_iff x.name m,
  bytes_eq_iff e.name m,
  bytes_eq_iff x.name e.name,
)

pub Distinct-insert :
    (e : ZsetEntry) (xs : List ZsetEntry)
    → find_score e.name xs ≡ none
    → Distinct xs
    → Distinct (insert e xs)
unfolding insert find_score
Distinct-insert e [] new d = (refl, tt)
Distinct-insert e (x ∷ xs) new (dx, d) = elim (Bool-cases (compare x e)) [
  | inl b ↦ rw b (
    ground (
      arith,
      find_score-insert e xs x.name,
      bytes_eq_iff e.name x.name,
      bytes_eq_iff x.name e.name,
    ),
    Distinct-insert e xs (ground arith) d,
  )
  | inr b ↦ rw b (new, (dx, d))
]

All-remove_name :
    (P : ZsetEntry → Type 0) (m : Bytes) (xs : List ZsetEntry) → All P xs → All P (remove_name m xs)
unfolding remove_name
All-remove_name P m [] all = tt
All-remove_name P m (x ∷ xs) (px, all) = elim (Bool-cases (bytes_eq x.name m)) [
  | inl b ↦ rw b all
  | inr b ↦ rw b (px, All-remove_name P m xs all)
]

pub Ascending-remove_name :
    (m : Bytes) (xs : List ZsetEntry) → Ascending xs → Ascending (remove_name m xs)
unfolding remove_name
Ascending-remove_name m [] up = tt
Ascending-remove_name m (x ∷ xs) (hx, (all, up)) = elim (Bool-cases (bytes_eq x.name m)) [
  | inl b ↦ rw b up
  | inr b ↦ rw b (hx, (All-remove_name _ m xs all, Ascending-remove_name m xs up))
]

pub find_score-remove_name :
    (m j : Bytes) (xs : List ZsetEntry)
    → Distinct xs
    → find_score j (remove_name m xs) ≡ (if bytes_eq m j then none else find_score j xs)
unfolding remove_name find_score
find_score-remove_name m j [] d = ground arith
find_score-remove_name m j (x ∷ xs) (dx, d) = ground (
  arith,
  find_score-remove_name m j xs d,
  bytes_eq_iff x.name m,
  bytes_eq_iff x.name j,
  bytes_eq_iff m j,
)

pub Distinct-remove_name :
    (m : Bytes) (xs : List ZsetEntry) → Distinct xs → Distinct (remove_name m xs)
unfolding remove_name
Distinct-remove_name m [] d = tt
Distinct-remove_name m (x ∷ xs) (dx, d) = elim (Bool-cases (bytes_eq x.name m)) [
  | inl b ↦ rw b d
  | inr b ↦ rw b (ground (arith, find_score-remove_name m x.name xs d), Distinct-remove_name m xs d)
]
