-- ===== src/Store/Zsets/Commands.antt =====
-- ZADD, ZREM and ZRANK on a store whose sorted sets are consistent.
use redis_go.Base.{
  ℕ, ◌≡◌, refl, ap, ◌∙◌, Bool, true, false, List, [], ◌∷◌, Option, none, some, arith, if◌then◌else◌,
  Bytes, bytes_eq, bytes_eq_iff, Bool-cases, Option-cases, inl, inr,
}
use redis_go.Base.Dict.{get, get-put}
use redis_go.Store.{
  Store, Entry, zero_entry, zset, ZsetEntry, Zset, Result, err, wrong_type, done, is_kind,
  mark_watchers,
}
use redis_go.Store.Zsets.{
  compare, entry_of, index_of, add_to_zset, store_zset, empty_zset, zadd, rank_in, zrank, with_zset,
}
use redis_go.Store.Zsets.Order.{IsNumber, compare_irrefl}
use redis_go.Store.Zsets.Search.{Ascending, count_below, place_of-count_below}
use redis_go.Store.Zsets.Members.{find_score}
use redis_go.Store.Zsets.Invariant.{IsConsistent, All-find_score, find_score-IsNumber}
use redis_go.Store.Zsets.Keeps.{add_to_zset-IsConsistent}
use mathlib.Core.Path.{subst}

-- A sorted set of the store is there and consistent; of entries of other kinds nothing is asked.
abbrev pub HasZset : Option Zset → Type 0
HasZset none = true ≡ false
HasZset (some z) = IsConsistent z

abbrev pub TakesZset : Bool → Option Zset → Type 0
TakesZset true o = HasZset o
TakesZset false o = Unit

abbrev pub HoldsZset : Option Entry → Type 0
HoldsZset none = Unit
HoldsZset (some e) = TakesZset (is_kind e.kind zset) e.zset

pub record ZsetsConsistent (s : Store) : Type 0 where
  pub at : (key : Bytes) → HoldsZset (get s.entries key)

empty_zset-IsConsistent : IsConsistent empty_zset
empty_zset-IsConsistent = record {
  ascending = tt;
  distinct = tt;
  scored = λ m. unfold find_score get in refl;
}

HoldsZset-if :
    (b : Bool) (x y : Option Entry) → HoldsZset x → HoldsZset y → HoldsZset (if b then x else y)
HoldsZset-if true x y hx hy = hx
HoldsZset-if false x y hx hy = hy

put-ZsetsConsistent :
    (key : Bytes) (e : Entry) (n : ℕ) (z : Zset) (s : Store)
    → is_kind e.kind zset ≡ true
    → IsConsistent z
    → ZsetsConsistent s
    → ZsetsConsistent (store_zset key e (n, z) s).1
unfolding store_zset mark_watchers
put-ZsetsConsistent key e n z s k c h = record {
  at = λ j. rw (get-put s.entries key j (record e { zset = some z })) (
      HoldsZset-if (bytes_eq key j) (some (record e { zset = some z })) (get s.entries j) (rw k c)
        (h.at j));
}

zadd-missing :
    (key member : Bytes) (score n : ℕ) (z : Zset) (s : Store)
    → get s.entries key ≡ none
    → add_to_zset member score empty_zset ≡ done (n, z)
    → zadd key score member s ≡ done (store_zset key (record zero_entry { kind = zset }) (n, z) s)
unfolding zadd
zadd-missing key member score n z s h e = rw (h, e, zadd) refl

zadd-present :
    (key member : Bytes) (score n : ℕ) (e : Entry) (z z' : Zset) (s : Store)
    → get s.entries key ≡ some e
    → is_kind e.kind zset ≡ true
    → e.zset ≡ some z
    → add_to_zset member score z ≡ done (n, z')
    → zadd key score member s ≡ done (store_zset key e (n, z') s)
unfolding zadd store_zset
zadd-present key member score n e z z' s h k hz a = rw (h, k, hz, a, zadd) refl

zadd_refused :
    (key member : Bytes) (score : ℕ) (e : Entry) (s : Store)
    → get s.entries key ≡ some e
    → is_kind e.kind zset ≡ false
    → zadd key score member s ≡ done (err wrong_type, s)
unfolding zadd
zadd_refused key member score e s h k = rw (h, k, zadd) refl

-- On a store whose sorted sets are consistent, ZADD of a number returns, whatever stands at the key, and
-- leaves every sorted set of the store consistent.
pub zadd-ZsetsConsistent :
    (key member : Bytes) (score : ℕ) (s : Store)
    → IsNumber score
    → ZsetsConsistent s
    → (r : Result ℕ) × (s' : Store) × (zadd key score member s ≡ done (r, s')) × ZsetsConsistent s'
zadd-ZsetsConsistent key member score s hs h = elim (Option-cases (get s.entries key)) [
  | inl new ↦
      let (n, z, e, c, _) =
        add_to_zset-IsConsistent member score empty_zset hs empty_zset-IsConsistent in
      (
        (store_zset key (record zero_entry { kind = zset }) (n, z) s).0,
        (store_zset key (record zero_entry { kind = zset }) (n, z) s).1,
        zadd-missing key member score n z s new e,
        put-ZsetsConsistent key (record zero_entry { kind = zset }) n z s refl c h,
      )
  | inr (e, here) ↦
      present e here (is_kind e.kind zset) refl e.zset refl (subst HoldsZset here (h.at key))
]
  where
    present :
        (e : Entry)
        → get s.entries key ≡ some e
        → (b : Bool) → is_kind e.kind zset ≡ b
        → (o : Option Zset) → e.zset ≡ o
        → TakesZset (is_kind e.kind zset) e.zset
        → (r : Result ℕ) × (s' : Store) × (zadd key score member s ≡ done (r, s'))
          × ZsetsConsistent s'
    present e here false k o hz takes =
        (err wrong_type, s, zadd_refused key member score e s here k, h)
    present e here true k none hz takes = absurd (let t = rw (k, hz) at takes in cc)
    present e here true k (some z) hz takes =
        let (n, z', a, c, _) = add_to_zset-IsConsistent member score z hs (rw (k, hz) at takes) in
        (
          (store_zset key e (n, z') s).0,
          (store_zset key e (n, z') s).1,
          zadd-present key member score n e z z' s here k hz a,
          put-ZsetsConsistent key e n z' s k c h,
        )

index_of-count_below :
    (m : Bytes) (score : ℕ) (xs : List ZsetEntry)
    → Ascending xs
    → find_score m xs ≡ some score
    → index_of m xs ≡ some (count_below (entry_of m score) xs)
unfolding index_of count_below find_score
index_of-count_below m score [] up h = absurd (cc)
index_of-count_below m score (x ∷ xs) (hx, (all, up)) h = elim (Bool-cases (bytes_eq x.name m)) [
  | inl b ↦
      let name : x.name ≡ m = (bytes_eq_iff x.name m).0 b in
      let same : x.score ≡ score = ground arith in
      let low : compare x (entry_of m score) ≡ false =
        subst (λ n. compare x (entry_of n score) ≡ false) name
          (subst (λ v. compare x (entry_of x.name v) ≡ false) same (compare_irrefl x hx)) in
      rw (b, low) refl
  | inr b ↦
      let found : find_score m xs ≡ some score = ground arith in
      let low : compare x (entry_of m score) ≡ true =
        (All-find_score (λ y. (compare x y ≡ true) × IsNumber y.score) m score xs all found).0 in
      rw (b, low, index_of-count_below m score xs up found) refl
]

index_of-missing : (m : Bytes) (xs : List ZsetEntry) → find_score m xs ≡ none → index_of m xs ≡ none
unfolding index_of find_score
index_of-missing m [] h = refl
index_of-missing m (x ∷ xs) h = ground (arith, index_of-missing m xs)

rank_in-index_of :
    (member : Bytes) (z : Zset) → IsConsistent z → rank_in member z ≡ index_of member z.sorted
unfolding rank_in
rank_in-index_of member z c = elim (Option-cases (get z.scores member)) [
  | inl new ↦ rw (new, index_of-missing member z.sorted (c.scored member ∙ new), rank_in) refl
  | inr (score, here) ↦
      let found : find_score member z.sorted ≡ some score = c.scored member ∙ here in
      rw
        (
          here,
          place_of-count_below (entry_of member score) z.sorted
              (find_score-IsNumber member score z.sorted c.ascending found) c.ascending,
          index_of-count_below member score z.sorted c.ascending found,
          rank_in,
        )
        refl
]

-- ZRANK of a consistent sorted set: the binary search gives the index at which the list has the member,
-- and a member that is missing has none.
pub zrank-index_of :
    (key member : Bytes) (e : Entry) (z : Zset) (s : Store)
    → get s.entries key ≡ some e
    → e.zset ≡ some z
    → IsConsistent z
    → zrank key member s ≡ done (index_of member z.sorted)
unfolding zrank with_zset
zrank-index_of key member e z s here hz c =
    rw (here, hz, zrank, with_zset) (ap done (rank_in-index_of member z c))
