-- ===== src/Store/Zsets/Order.antt =====
-- `compare` is a strict order on entries whose scores are numbers.
use redis_go.Base.{
  ℕ, ◌≡◌, refl, true, false, ◌&&◌, ◌||◌, [], ◌∷◌, arith, ltb, ◌==◌, Bytes, bytes_eq,
}
use redis_go.Store.{ZsetEntry}
use redis_go.Store.Zsets.{is_nan, float_rank, float_eq, float_lt, bytes_lt, compare}

-- The score is no NaN.
abbrev pub IsNumber : ℕ → Type 0
IsNumber x = is_nan x ≡ false

pub bytes_lt_irrefl : (s : Bytes) → bytes_lt s s ≡ false
unfolding bytes_lt
bytes_lt_irrefl [] = refl
bytes_lt_irrefl (c ∷ s) = ground (arith, bytes_lt_irrefl s)

pub bytes_lt_trans :
    (s t u : Bytes) → bytes_lt s t ≡ true → bytes_lt t u ≡ true → bytes_lt s u ≡ true
unfolding bytes_lt
bytes_lt_trans [] [] u p q = cc
bytes_lt_trans [] (d ∷ t) [] p q = cc
bytes_lt_trans [] (d ∷ t) (e ∷ u) p q = refl
bytes_lt_trans (c ∷ s) [] u p q = cc
bytes_lt_trans (c ∷ s) (d ∷ t) [] p q = cc
bytes_lt_trans (c ∷ s) (d ∷ t) (e ∷ u) p q = ground (arith, bytes_lt_trans s t u)

pub bytes_lt_total :
    (s t : Bytes) → bytes_lt s t ≡ false → bytes_eq s t ≡ false → bytes_lt t s ≡ true
unfolding bytes_lt bytes_eq
bytes_lt_total [] [] p q = cc
bytes_lt_total [] (d ∷ t) p q = cc
bytes_lt_total (c ∷ s) [] p q = refl
bytes_lt_total (c ∷ s) (d ∷ t) p q = ground (arith, bytes_lt_total s t)

pub compare_irrefl : (a : ZsetEntry) → IsNumber a.score → compare a a ≡ false
unfolding compare float_eq float_lt
compare_irrefl a h = ground (arith, bytes_lt_irrefl a.name)

-- On numbers `compare` goes by the rank of the score, and by the name where the ranks are the same.
pub compare_rank :
    (a b : ZsetEntry)
    → IsNumber a.score
    → IsNumber b.score
    → compare a b ≡ (
        ltb (float_rank a.score) (float_rank b.score)
        || (float_rank a.score == float_rank b.score && bytes_lt a.name b.name))
compare_rank a b ha hb = by_rank (float_rank a.score) (float_rank b.score) refl refl
  where
    by_rank :
        (x y : ℕ)
        → float_rank a.score ≡ x
        → float_rank b.score ≡ y
        → compare a b ≡ (
            ltb (float_rank a.score) (float_rank b.score)
            || (float_rank a.score == float_rank b.score && bytes_lt a.name b.name))
    by_rank x y p q = unfold compare float_eq float_lt in rw (ha, hb, p, q) (ground arith)

pub compare_trans :
    (a b c : ZsetEntry)
    → IsNumber a.score
    → IsNumber b.score
    → IsNumber c.score
    → compare a b ≡ true
    → compare b c ≡ true
    → compare a c ≡ true
compare_trans a b c ha hb hc p q =
    ranks (float_rank a.score) (float_rank b.score) (float_rank c.score)
      (rw (compare_rank a b ha hb) at p) (rw (compare_rank b c hb hc) at q) (compare_rank a c ha hc)
  where
    ranks :
        (x y z : ℕ)
        → (ltb x y || (x == y && bytes_lt a.name b.name)) ≡ true
        → (ltb y z || (y == z && bytes_lt b.name c.name)) ≡ true
        → compare a c ≡ (ltb x z || (x == z && bytes_lt a.name c.name))
        → compare a c ≡ true
    ranks x y z p q e = ground (arith, bytes_lt_trans a.name b.name c.name)

-- Of two entries with other names one is below the other.
pub compare_total :
    (a b : ZsetEntry)
    → IsNumber a.score
    → IsNumber b.score
    → bytes_eq a.name b.name ≡ false
    → compare a b ≡ false
    → compare b a ≡ true
compare_total a b ha hb apart p =
    ranks (float_rank a.score) (float_rank b.score) (rw (compare_rank a b ha hb) at p)
      (compare_rank b a hb ha)
  where
    ranks :
        (x y : ℕ)
        → (ltb x y || (x == y && bytes_lt a.name b.name)) ≡ false
        → compare b a ≡ (ltb y x || (y == x && bytes_lt b.name a.name))
        → compare b a ≡ true
    ranks x y p e = ground (arith, bytes_lt_total a.name b.name)
