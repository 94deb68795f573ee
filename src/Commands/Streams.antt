-- ===== src/Commands/Streams.antt =====
-- The cases XADD, XRANGE and XREAD of app/handleCommands.go.
use redis_go.Base.{
  ℕ, ◌/◌, ◌%◌, not, ◌||◌, ◌==◌, Bool, true, false, List, [], ◌∷◌, Option, none, some, if◌then◌else◌,
  Bytes, codes, bytes_eq, length, take, drop,
}
use redis_go.Base.Int.{pos, negsuc}
use redis_go.Decimal.{parse_int}
use redis_go.Resp.Write.{bulk}
use redis_go.Resp.Write.Streams.{write_stream, write_xread}
use redis_go.Store.{Store, StreamId, ok, err, Outcome, done, ◌>>=◌}
use redis_go.Store.Streams as store
use redis_go.Store.Streams.{StreamResult}
use redis_go.Store.Streams.Block.{Xread, found, waiting, xread_block, wake}
use redis_go.Commands.Reply.{error_text, error_line, null_array, to_upper}
use redis_go.Commands.Progress.{Handled, replied, waiting_read}

-- The fields come in pairs; `now_ms` is the wall clock.
unfoldable pub xadd : List Bytes → ℕ → Store → Outcome (Bytes × Store)
unfolding error_line error_text
xadd (key ∷ id ∷ f ∷ v ∷ fields) now_ms s =
    if not (length fields % 2 == 0)
    then done (codes "-ERR wrong number of arguments for 'xadd' command\r\n", s)
    else (do
      (r, s') ← store.xadd key id (f ∷ v ∷ fields) now_ms s
      done (elim r [ err e ↦ error_line (error_text e) | ok text ↦ bulk text ], s'))
xadd _ now_ms s = done (codes "-ERR wrong number of arguments for 'xadd' command\r\n", s)

unfoldable pub xrange : List Bytes → Store → Outcome (Bytes × Store)
unfolding error_line error_text
xrange (key ∷ start ∷ stop ∷ []) s = do
  r ← store.xrange key start stop s
  done (elim r [ err e ↦ error_line (error_text e) | ok entries ↦ write_stream entries ], s)
xrange _ s = done (codes "-ERR wrong number of arguments for 'xrange' command\r\n", s)

-- What the loop over the options of XREAD finds: whether BLOCK was given, and what follows STREAMS.
pub data Options : Type 0 where
  syntax_error bad_timeout : Options
  streams : Bool → List Bytes → Options

abbrev pub is_duration : Bytes → Bool
is_duration raw = elim (parse_int raw) [
  | none ↦ false
  | some v ↦ elim v [ pos n ↦ true | negsuc n ↦ false ]
]

unfoldable pub scan_options : Bool → List Bytes → Options
unfolding to_upper
scan_options block [] = syntax_error
scan_options block (a ∷ []) =
    if bytes_eq (to_upper a) (codes "STREAMS") then streams block [] else syntax_error
scan_options block (a ∷ b ∷ rest) =
    let blocking = (if is_duration b then scan_options true rest else bad_timeout) in
    let other = scan_options block (b ∷ rest) in
    if bytes_eq (to_upper a) (codes "BLOCK")
    then blocking
    else if bytes_eq (to_upper a) (codes "STREAMS")
    then streams block (b ∷ rest)
    else other

unfoldable pub zip : List Bytes → List Bytes → List (Bytes × Bytes)
zip (k ∷ ks) (i ∷ is) = (k, i) ∷ zip ks is
zip _ _ = []

-- The first half of the arguments are the keys, the second their IDs.
unfoldable pub keys_with_ids : List Bytes → List (Bytes × Bytes)
unfolding zip
keys_with_ids args = let half = length args / 2 in zip (take half args) (drop half args)

unfoldable pub xread_reply : List StreamResult → Bytes
xread_reply [] = null_array
xread_reply (r ∷ rs) = write_xread (r ∷ rs)

unfoldable pub xread_step : Xread → Store → Handled Store
unfolding xread_reply
xread_step (found results) s = replied (xread_reply results) s
xread_step (waiting ids ch) s = waiting_read ids ch s

unfoldable pub xread_streams : Bool → List Bytes → Store → Outcome (Handled Store)
unfolding xread_step keys_with_ids
xread_streams block args s =
    if length args == 0 || not (length args % 2 == 0)
    then done (
        replied
          (codes
            "-ERR Unbalanced XREAD list of streams: for each stream key an ID or '$' must be specified.\r\n")
          s)
    else if block
    then (do r ← xread_block (keys_with_ids args) s; done (xread_step r s))
    else (do results ← store.xread (keys_with_ids args) s; done (replied (xread_reply results) s))

unfoldable pub xread : List Bytes → Store → Outcome (Handled Store)
unfolding xread_streams scan_options
xread args s = elim (scan_options false args) [
  | syntax_error ↦ done (replied (codes "-ERR syntax error\r\n") s)
  | bad_timeout ↦ done (replied (codes "-ERR timeout is not an integer or out of range\r\n") s)
  | streams block rest ↦ xread_streams block rest s
]

-- XREAD BLOCK behind its select: another round where the channel is closed, or the null array where the
-- time or the program is over.
unfoldable pub read_woken : List (Bytes × StreamId) → ℕ → Store → Option (Outcome (Handled Store))
unfolding xread_step
read_woken ids ch s = elim (wake ch ids s) [
  | none ↦ none
  | some round ↦ some (do r ← round; done (xread_step r s))
]
