-- ===== src/Store/Streams/Block.antt =====
-- `XReadBlock` of app/store.go, cut at its select: the IDs behind which it reads, and the rounds.
use redis_go.Base.{
  ℕ, List, [], ◌∷◌, Option, none, some, ◌==◌, if◌then◌else◌, Bytes, codes, bytes_eq,
}
use redis_go.Base.Dict.{get}
use redis_go.Store.{Store, StreamId, Outcome, done, ◌>>=◌}
use redis_go.Store.Streams.{parse_id, last_id_of, collect_after, StreamResult}

-- The first loop. An ID that does not parse ends the call with no result, which is `none`.
unfoldable pub block_id : Bytes → Bytes → Store → Outcome (Option StreamId)
unfolding last_id_of
block_id key raw s =
    if bytes_eq raw (codes "$")
    then (do id ← last_id_of (get s.entries key); done (some id))
    else done (parse_id raw)

abbrev keep_id :
    Bytes → StreamId → Option (List (Bytes × StreamId)) → Option (List (Bytes × StreamId))
keep_id key id none = none
keep_id key id (some ids) = some ((key, id) ∷ ids)

unfoldable pub block_ids : List (Bytes × Bytes) → Store → Outcome (Option (List (Bytes × StreamId)))
unfolding block_id
block_ids [] s = done (some [])
block_ids ((key, raw) ∷ asked) s = do
  found ← block_id key raw s
  elim found [
    | none ↦ done none
    | some id ↦ (do ids ← block_ids asked s; done (keep_id key id ids))
  ]

-- A round of the second loop: the entries that are there, or the number of the channel to wait on.
pub data Xread : Type 0 where
  found : List StreamResult → Xread
  waiting : List (Bytes × StreamId) → ℕ → Xread

unfoldable pub block_round : List (Bytes × StreamId) → Store → Outcome Xread
block_round ids s = do
  out ← collect_after ids s
  done (elim out [ [] ↦ waiting ids s.notify | r ∷ rs ↦ found (r ∷ rs) ])

-- Up to the first select, where nothing comes between the IDs and the first round.
unfoldable pub xread_block : List (Bytes × Bytes) → Store → Outcome Xread
unfolding block_ids block_round
xread_block asked s = do
  ids ← block_ids asked s
  elim ids [ none ↦ done (found []) | some after ↦ block_round after s ]

-- `case <-ch`: possible once the channel with this number is closed. Another round follows.
unfoldable pub wake : ℕ → List (Bytes × StreamId) → Store → Option (Outcome Xread)
unfolding block_round
wake ch ids s = if s.notify == ch then none else some (block_round ids s)
