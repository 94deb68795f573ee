-- ===== src/Tests/Waking.antt =====
-- XREAD BLOCK, and the bounds of IDs, on concrete streams.
use redis_go.Base.{arith, true, ◌+◌, ◌≡◌, refl, List, [], ◌∷◌, some, none, Bytes, codes, bytes_eq}
use redis_go.Base.Dict.{get, put, remove}
use redis_go.Store.{done, StreamId}
use redis_go.Store.Streams.{id_string, read_after, less, parse_id}
use redis_go.Store.Streams.Block.{found, waiting, xread_block, wake}
use redis_go.Store.Streams.Bounds.{IsBounded, xadd-IsBounded}
use redis_go.Store.Streams.Order.{extended}
use redis_go.Store.Streams.Waking.{wake-xadd, wake-waiting}
use redis_go.Tests.Streams.{
  key, holding, added, entry_of, two_entries, two_entries-IsOrdered, xadd_runs, at,
}

wake-xadd_example :
    (ids : List (Bytes × StreamId)) × (xread_block ((key, codes "$") ∷ []) holding
      ≡ done (waiting ids holding.notify))
    × (wake holding.notify ids holding ≡ none)
    × (id : StreamId) × (codes "5-0" ≡ id_string id)
    × (wake holding.notify ids added
        ≡ some (
            done (
              found
                ((record { key = key; entries = (record { id = id; fields = [] }) ∷ [] }) ∷ []))))
wake-xadd_example =
    wake-xadd key (codes "5-*") [] 0 holding (entry_of two_entries) two_entries (codes "5-0") added
      (unfold get put remove bytes_eq in refl) refl refl two_entries-IsOrdered xadd_runs

wake-waiting_example :
    wake holding.notify ((codes "t", at 0 0) ∷ []) added
    ≡ some (done (waiting ((codes "t", at 0 0) ∷ []) (holding.notify + 1)))
wake-waiting_example =
    wake-waiting (codes "t") key (codes "5-*") (at 0 0) [] 0 holding (entry_of two_entries)
      two_entries (codes "5-0") added (unfold bytes_eq in refl)
      (unfold get put remove bytes_eq in refl) refl refl two_entries-IsOrdered
      (unfold read_after get put remove bytes_eq in refl) xadd_runs

xadd-IsBounded_example :
    (id : StreamId) × IsBounded id
    × (less two_entries.last_id id ≡ true)
    × (get added.entries key
        ≡ some (record (entry_of two_entries) { stream = some (extended two_entries id []) }))
    × (parse_id (codes "5-0") ≡ some id)
xadd-IsBounded_example =
    xadd-IsBounded key (codes "5-*") [] 0 holding (entry_of two_entries) two_entries (codes "5-0")
      added (unfold get put remove bytes_eq in refl) refl refl (omega arith)
      (record { ms = omega arith; seq = omega arith }) xadd_runs
