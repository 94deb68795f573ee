-- ===== src/Tests/Lists.antt =====
-- Lists and waiting clients on concrete keys.
use redis_go.Base.{
  ℕ, ◌+◌, ◌≡◌, ◌≢◌, refl, [], ◌∷◌, ◌++◌, List, some, none, arith, Bytes, codes, bytes_eq, length,
  drop, if◌then◌else◌,
}
use mathlib.Core.List.{reverse}
use redis_go.Base.Int.{pos, negsuc, ◌+ℤ◌}
use redis_go.Base.Dict.{get, put, remove, get_or}
use redis_go.Store.{Store, Entry, zero_entry, new_store, put_entry, done, blocked}
use redis_go.Store.Lists.{
  rpush, push_loop, push_one, send, finish_push, enter_select, lpush, lpop, lrange, range, from_end,
  blpop, popped, waiting, wait_for, receive,
}
use redis_go.Store.Lists.Range.{list_at, between, lrange-between}
use redis_go.Store.Lists.Ends.{lpop-lpush, blpop_at_once}
use redis_go.Store.Lists.Waiting.{Ready, waiting_at, due, rpush_serves}
use redis_go.Store.Lists.Lost.{rpush_lost}

abbrev key : Bytes
key = codes "k"

abbrev other : Bytes
other = codes "j"

abbrev three : List Bytes
three = codes "a" ∷ codes "b" ∷ codes "c" ∷ []

abbrev entry_of : List Bytes → Entry
entry_of list = record zero_entry { list = list }

abbrev holding : List Bytes → Store
holding list = put_entry new_store key (entry_of list)

-- Two clients wait for the key.
abbrev crowded : Store
crowded = record new_store { waiters = put [] key (7 ∷ 8 ∷ []) }

crowded-Ready : Ready crowded.channels (waiting_at key crowded)
unfolding get_or get put remove bytes_eq
crowded-Ready = (refl, omega arith, (refl, tt, tt))

last_two : lrange key (negsuc 1) (negsuc 0) (holding three) ≡ done (codes "b" ∷ codes "c" ∷ [])
unfolding lrange range ◌+ℤ◌ get put remove bytes_eq
last_two = refl

lrange-between_example :
    lrange key (pos 1) (negsuc 0) (holding three)
    ≡ done (
        between
          (from_end (length (list_at key (holding three))) (pos 1))
          (from_end (length (list_at key (holding three))) (negsuc 0))
          0
          (list_at key (holding three)))
lrange-between_example = lrange-between key (pos 1) (negsuc 0) (holding three)

-- One client stands twice in the queue, and is in its select by the time of the RPUSH, or is not.
abbrev doubled : Store
doubled = record new_store { waiters = put [] key (0 ∷ 0 ∷ []) }

in_its_select : rpush key (codes "a" ∷ codes "b" ∷ []) (enter_select 0 doubled) ≢ blocked
unfolding rpush push_loop push_one send finish_push enter_select get_or get put remove bytes_eq
in_its_select = cc

before_its_select : rpush key (codes "a" ∷ codes "b" ∷ []) doubled ≡ blocked
unfolding rpush push_loop push_one send get_or get put remove bytes_eq
before_its_select = refl

rpush_serves_example :
    (s' : Store) × (rpush key three crowded ≡ done (length (list_at key crowded) + 3, s'))
    × ((j : Bytes)
        → list_at j s' ≡ (
            if bytes_eq key j
            then list_at key crowded ++ drop (length (waiting_at key crowded)) three
            else list_at j crowded))
    × ((j : Bytes)
        → waiting_at j s'
          ≡ (if bytes_eq key j then drop 3 (waiting_at key crowded) else waiting_at j crowded))
    × ((ch : ℕ) → s'.channels ch ≡ due key (waiting_at key crowded) three ch none)
    × (s'.behind ≡ crowded.behind)
rpush_serves_example = rpush_serves key three crowded crowded-Ready

lpop-lpush_example :
    (s' : Store) × (lpop other 3 (lpush other three (holding three)).1
      ≡ done (some (reverse three), s'))
    × ((j : Bytes)
        → get s'.entries j ≡ (
            if bytes_eq other j
            then some (record (get_or (holding three).entries other zero_entry) { expires_at = 0 })
            else get (holding three).entries j))
lpop-lpush_example = lpop-lpush other three (holding three)

blpop_at_once_example :
    (s' : Store) × (blpop (other ∷ key ∷ []) (holding three)
      ≡ popped (record { key = key; value = codes "a" }) s')
    × ((j : Bytes)
        → list_at j s'
          ≡ (if bytes_eq key j then codes "b" ∷ codes "c" ∷ [] else list_at j (holding three)))
unfolding bytes_eq get put remove
blpop_at_once_example =
    blpop_at_once (other ∷ []) [] key (codes "a") (codes "b" ∷ codes "c" ∷ []) (holding three)
      (unfold get put remove bytes_eq in (refl, tt)) (unfold get put remove in refl)

rpush_lost_example :
    (s1 s2 s3 : Store) × (blpop (key ∷ other ∷ []) new_store
      ≡ waiting 0 (wait_for (key ∷ other ∷ []) new_store).1)
    × (rpush key (codes "v" ∷ []) (wait_for (key ∷ other ∷ []) new_store).1 ≡ done (1, s1))
    × (receive 0 s1 ≡ some (record { key = key; value = codes "v" }, s2))
    × (rpush other (codes "w" ∷ []) s2 ≡ done (1, s3))
    × (list_at other s3 ≡ [])
    × (s3.channels 0 ≡ some (record { key = other; value = codes "w" }))
rpush_lost_example =
    rpush_lost key other (codes "v") (codes "w") new_store (unfold bytes_eq in refl)
      (unfold get_or get in (refl, refl, refl)) (unfold get in refl) refl
