-- ===== src/Tests/Zsets.antt =====
-- Sorted sets on concrete scores: the bit patterns of 1.0 and 2.0.
use redis_go.Base.{
  ℕ, ◌≡◌, refl, [], ◌∷◌, some, none, arith, Bytes, codes, bytes_eq, bytes_eq_iff, if◌then◌else◌,
}
use redis_go.Base.Dict.{get, put, remove}
use redis_go.Store.{Store, Entry, zero_entry, new_store, put_entry, zset, Zset, Result, done}
use redis_go.Store.Zsets.{
  zadd, zrank, remove_member, index_of, place_of, entry_of, compare, float_eq, float_lt, bytes_lt,
  with_zset, rank_in, sort_search, search_loop, not_below,
}
use redis_go.Store.Zsets.Search.{Ascending}
use redis_go.Store.Zsets.Members.{find_score}
use redis_go.Store.Zsets.Invariant.{IsConsistent}
use redis_go.Store.Zsets.Keeps.{remove_member-IsConsistent}
use redis_go.Store.Zsets.Commands.{ZsetsConsistent, zadd-ZsetsConsistent, zrank-index_of}

abbrev one : ℕ
one = 0x3FF0000000000000

abbrev two : ℕ
two = 0x4000000000000000

abbrev a : Bytes
a = codes "a"

abbrev b : Bytes
b = codes "b"

abbrev pair : Zset
pair = record { scores = put (put [] a one) b two; sorted = entry_of a one ∷ entry_of b two ∷ [] }

abbrev key : Bytes
key = codes "k"

abbrev entry : Entry
entry = record zero_entry { kind = zset; zset = some pair }

abbrev holding : Store
holding = put_entry new_store key entry

second : zrank key b holding ≡ done (some 1)
unfolding zrank with_zset rank_in place_of sort_search search_loop not_below compare float_eq
    float_lt bytes_lt get put remove bytes_eq
second = refl

pair-Ascending : Ascending pair.sorted
pair-Ascending = (refl, (((unfold compare float_eq float_lt in refl, refl), tt), (refl, (tt, tt))))

pair-IsConsistent : IsConsistent pair
pair-IsConsistent = record {
  ascending = pair-Ascending;
  distinct = (unfold find_score bytes_eq in refl, (unfold find_score in refl, tt));
  scored = λ m.
      unfold find_score get put remove bytes_eq in
      ground (arith, bytes_eq_iff a m, bytes_eq_iff b m);
}

new_store-ZsetsConsistent : ZsetsConsistent new_store
new_store-ZsetsConsistent = record { at = λ j. unfold get in tt }

remove_member-IsConsistent_example :
    (z' : Zset) × (remove_member a pair ≡ done z')
    × IsConsistent z'
    × ((m : Bytes) → get z'.scores m ≡ (if bytes_eq a m then none else get pair.scores m))
remove_member-IsConsistent_example =
    remove_member-IsConsistent a one pair pair-IsConsistent (unfold get put remove bytes_eq in refl)

zadd-ZsetsConsistent_example :
    (r : Result ℕ) × (s' : Store) × (zadd key one a new_store ≡ done (r, s')) × ZsetsConsistent s'
zadd-ZsetsConsistent_example =
    zadd-ZsetsConsistent key a one new_store refl new_store-ZsetsConsistent

zrank-index_of_example : zrank key b holding ≡ done (index_of b pair.sorted)
zrank-index_of_example =
    zrank-index_of key b entry pair holding (unfold get put remove bytes_eq in refl) refl
      pair-IsConsistent
