-- ===== src/Store/Zsets.antt =====
-- `ZAdd`, `ZRank`, `ZRange`, `ZCard`, `ZScore` and `ZRem` of app/store.go: sorted sets.
pub mod Order
pub mod Search
pub mod Members
pub mod Invariant
pub mod Keeps
pub mod Commands
use redis_go.Base.{
  ℕ, zero, suc, ◌+◌, ◌-◌, ◌*◌, ◌/◌, ◌%◌, ◌^◌, Bool, true, false, not, ◌&&◌, ◌||◌, List, [], ◌∷◌,
  ◌++◌, map, Option, none, some, ltb, leb, ◌==◌, if◌then◌else◌, Bytes, bytes_eq, length, take, drop,
  get_elem?,
}
use redis_go.Base.Int.{ℤ}
use redis_go.Base.Dict.{Dict, get, put, remove}
use redis_go.Store.{
  Store, Entry, zero_entry, Kind, zset, Zset, ZsetEntry, Result, ok, err, wrong_type, Outcome, done,
  panic, ◌>>=◌, is_kind, put_entry, mark_watchers,
}
use redis_go.Store.Lists.{range}

-- IEEE 754 comparison on bit patterns. A pattern that is no NaN has a rank: the two zeros share one.
abbrev pub is_nan : ℕ → Bool
is_nan x = ltb 0x7FF0000000000000 (x % 2 ^ 63)

abbrev pub float_rank : ℕ → ℕ
float_rank x = if ltb x (2 ^ 63) then 2 ^ 63 + x else 2 ^ 63 - x % 2 ^ 63

unfoldable pub float_eq : ℕ → ℕ → Bool
float_eq x y = not (is_nan x) && not (is_nan y) && (float_rank x == float_rank y)

unfoldable pub float_lt : ℕ → ℕ → Bool
float_lt x y = not (is_nan x) && not (is_nan y) && ltb (float_rank x) (float_rank y)

-- `<` on strings, byte by byte.
unfoldable pub bytes_lt : Bytes → Bytes → Bool
bytes_lt [] [] = false
bytes_lt [] (d ∷ t) = true
bytes_lt (c ∷ s) [] = false
bytes_lt (c ∷ s) (d ∷ t) = ltb c d || (c == d && bytes_lt s t)

unfoldable pub compare : ZsetEntry → ZsetEntry → Bool
compare a b =
    if not (float_eq a.score b.score) then float_lt a.score b.score else bytes_lt a.name b.name

-- The loop of `sort.Search`: a test that turns true once on `0 … n` is searched by halving.
unfoldable pub search_loop : ℕ → (ℕ → Bool) → ℕ → ℕ → ℕ
search_loop zero test i j = i
search_loop (suc fuel) test i j =
    let h = (i + j) / 2 in
    let right = search_loop fuel test (h + 1) j in
    let left = search_loop fuel test i h in
    if ltb i j then (if not (test h) then right else left) else i

-- Each round makes `j - i` smaller.
unfoldable pub sort_search : ℕ → (ℕ → Bool) → ℕ
unfolding search_loop
sort_search n test = search_loop (suc n) test 0 n

-- `!compare(sorted[i], e)`
unfoldable pub not_below : List ZsetEntry → ZsetEntry → ℕ → Bool
not_below sorted e i = elim (get_elem? sorted i) [ none ↦ true | some x ↦ not (compare x e) ]

unfoldable pub place_of : List ZsetEntry → ZsetEntry → ℕ
place_of sorted e = sort_search (length sorted) (not_below sorted e)

-- `slices.Insert(s, i, e)` and `slices.Delete(s, i, i+1)`
unfoldable pub insert_at : ℕ → ZsetEntry → List ZsetEntry → List ZsetEntry
insert_at i e sorted = take i sorted ++ e ∷ drop i sorted

unfoldable pub delete_at : ℕ → List ZsetEntry → Outcome (List ZsetEntry)
delete_at i sorted =
    if ltb i (length sorted) then done (take i sorted ++ drop (i + 1) sorted) else panic

abbrev pub entry_of : Bytes → ℕ → ZsetEntry
entry_of name score = record { name = name; score = score }

unfoldable pub add_member : Bytes → ℕ → Zset → Zset
add_member member score z = record {
  scores = put z.scores member score;
  sorted = insert_at (place_of z.sorted (entry_of member score)) (entry_of member score) z.sorted;
}

unfoldable pub update_member_score : Bytes → ℕ → ℕ → Zset → Outcome Zset
update_member_score member old_score new_score z =
    if float_eq old_score new_score then done z else (do
      sorted ← delete_at (place_of z.sorted (entry_of member old_score)) z.sorted
      done (record {
        scores = put z.scores member new_score;
        sorted =
            insert_at (place_of sorted (entry_of member new_score)) (entry_of member new_score)
              sorted;
      }))

unfoldable pub add_to_zset : Bytes → ℕ → Zset → Outcome (ℕ × Zset)
add_to_zset member score z = elim (get z.scores member) [
  | none ↦ done (1, add_member member score z)
  | some old ↦ (do z' ← update_member_score member old score z; done (0, z'))
]

abbrev pub empty_zset : Zset
empty_zset = record { scores = []; sorted = [] }

unfoldable pub store_zset : Bytes → Entry → ℕ × Zset → Store → Result ℕ × Store
unfolding mark_watchers
store_zset key e (n, z) s = (ok n, put_entry (mark_watchers key s) key (record e { zset = some z }))

unfoldable pub zadd : Bytes → ℕ → Bytes → Store → Outcome (Result ℕ × Store)
zadd key score member s = elim (get s.entries key) [
  | none ↦ (do
    r ← add_to_zset member score empty_zset
    done (store_zset key (record zero_entry { kind = zset }) r s))
  | some e ↦ if not (is_kind e.kind zset) then done (err wrong_type, s) else elim e.zset [
    | none ↦ panic
    | some z ↦ (do r ← add_to_zset member score z; done (store_zset key e r s))
  ]
]

-- A command that reads a sorted set: a key of another kind has a nil pointer.
unfoldable pub with_zset {ℓ} : {A : Type ℓ} → Bytes → A → (Zset → A) → Store → Outcome A
with_zset key missing f s = elim (get s.entries key) [
  | none ↦ done missing
  | some e ↦ elim e.zset [ none ↦ panic | some z ↦ done (f z) ]
]

-- `none` is the -1 of a member that is missing.
unfoldable pub rank_in : Bytes → Zset → Option ℕ
rank_in member z = elim (get z.scores member) [
  | none ↦ none
  | some score ↦ some (place_of z.sorted (entry_of member score))
]

unfoldable pub zrank : Bytes → Bytes → Store → Outcome (Option ℕ)
unfolding with_zset
zrank key member s = with_zset key none (rank_in member) s

unfoldable pub zrange : Bytes → ℤ → ℤ → Store → Outcome (List Bytes)
unfolding with_zset
zrange key start stop s = do
  found ← with_zset key (done []) (λ z. range z.sorted start stop) s
  entries ← found
  done (map (λ (e : ZsetEntry). e.name) entries)

unfoldable pub zcard : Bytes → Store → Outcome ℕ
unfolding with_zset
zcard key s = with_zset key 0 (λ z. length z.sorted) s

-- The score, which `ZScore` prints.
unfoldable pub zscore : Bytes → Bytes → Store → Outcome (Option ℕ)
unfolding with_zset
zscore key member s = with_zset key none (λ z. get z.scores member) s

-- The first place of the name.
unfoldable pub index_of : Bytes → List ZsetEntry → Option ℕ
index_of member [] = none
index_of member (x ∷ xs) =
    let rest = index_of member xs in
    if bytes_eq x.name member then some 0 else elim rest [ none ↦ none | some i ↦ some (suc i) ]

unfoldable pub remove_member : Bytes → Zset → Outcome Zset
unfolding index_of
remove_member member z = do
  sorted ← delete_at (elim (index_of member z.sorted) [ none ↦ 0 | some i ↦ i ]) z.sorted
  done (record { scores = remove z.scores member; sorted = sorted })

unfoldable pub remove_from_entry : Bytes → Bytes → Entry → Store → Zset → Outcome (ℕ × Store)
remove_from_entry key member e s z = elim (get z.scores member) [
  | none ↦ done (0, s)
  | some score ↦ (do
    z' ← remove_member member z
    done (1, put_entry s key (record e { zset = some z' })))
]

unfoldable pub zrem : Bytes → Bytes → Store → Outcome (ℕ × Store)
zrem key member s = elim (get s.entries key) [
  | none ↦ done (0, s)
  | some e ↦ elim e.zset [ none ↦ panic | some z ↦ remove_from_entry key member e s z ]
]
