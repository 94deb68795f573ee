-- ===== src/Tests/Watching.antt =====
-- Transactions that watch keys, and the sweeper, on concrete stores.
use redis_go.Base.{◌≡◌, refl, true, List, [], ◌∷◌, ◌++◌, arith, Bytes, codes}
use redis_go.Base.Dict.{put}
use redis_go.Store.{Store, zero_entry, zero_transaction, new_store, put_entry, string}
use redis_go.Store.Strings.{set, get_value}
use redis_go.Store.Lists.{rpush, lpush, lpop}
use redis_go.Store.Watching.{watch, check_dirty, unwatch}
use redis_go.Store.Watching.Marks.{check_dirty-watch}
use redis_go.Store.Watching.Unwatched.{store_after, check_dirty-unwatch, check_dirty-lists}
use redis_go.Store.Expiry.{Wake, ticked, cancelled, sweep}
use redis_go.Store.Expiry.Laws.{get_value-sweep}

abbrev key : Bytes
key = codes "k"

abbrev other : Bytes
other = codes "j"

-- Transactions 1 and 2 watch the key.
abbrev watched : Store
watched = record new_store {
  watchers = put [] key (1 ∷ 2 ∷ []);
  transactions = λ tx. record zero_transaction { watched = key ∷ [] };
}

-- The key has expired since 5.
abbrev expiring : Store
expiring =
    put_entry new_store key (record zero_entry { kind = string; value = codes "v"; expires_at = 5 })

check_dirty-watch_example :
    check_dirty 1 (set key (codes "v") 0 (watch 1 ((other ∷ []) ++ key ∷ []) new_store)) ≡ true
check_dirty-watch_example = check_dirty-watch 1 (other ∷ []) [] key (codes "v") 0 new_store

check_dirty-unwatch_example :
    check_dirty 2 (set key (codes "v") 0 (unwatch 1 watched)) ≡ check_dirty 2 watched
check_dirty-unwatch_example = check_dirty-unwatch 1 2 key (codes "v") 0 watched refl refl

check_dirty-lists_example :
    (check_dirty 1 (store_after watched (rpush key (codes "v" ∷ []) watched))
      ≡ check_dirty 1 watched)
    × (check_dirty 1 (lpush key (codes "v" ∷ []) watched).1 ≡ check_dirty 1 watched)
    × (check_dirty 1 (store_after watched (lpop key 1 watched)) ≡ check_dirty 1 watched)
check_dirty-lists_example = check_dirty-lists 1 1 key (codes "v" ∷ []) watched

abbrev wakes : List Wake
wakes = ticked 4 ∷ ticked 9 ∷ cancelled ∷ []

get_value-sweep_example : get_value key 10 (sweep wakes expiring) ≡ get_value key 10 expiring
get_value-sweep_example =
    get_value-sweep 10 wakes key expiring (omega arith, (omega arith, (tt, tt)))
