-- ===== src/Commands/Strings.antt =====
-- The cases PING, ECHO, SET, GET, INCR, TYPE and KEYS of app/handleCommands.go, each on the arguments
-- behind the command's name.
use redis_go.Base.{
  ℕ, ◌+◌, ◌-◌, ◌*◌, ◌%◌, ◌^◌, not, List, [], ◌∷◌, none, some, ltb, if◌then◌else◌, Bytes, codes,
  bytes_eq,
}
use redis_go.Base.Int.{pos, negsuc}
use redis_go.Decimal.{parse_int}
use redis_go.Resp.Write.{bulk, bulk_string}
use redis_go.Store.{Store, Kind, untyped, string, stream, zset, ok, err, Outcome, done, panic}
use redis_go.Store.Strings as store
use redis_go.Commands.Reply.{
  error_text, error_line, simple_line, signed_integer, null_bulk, to_upper,
}

unfoldable pub echo : List Bytes → Store → Outcome (Bytes × Store)
echo (arg ∷ []) s = done (bulk arg, s)
echo _ s = done (codes "-ERR wrong number of arguments for 'echo' command\r\n", s)

-- `time.Now().Add(time.Duration(ms) * time.Millisecond)`: the product wraps around on an int64.
unfoldable pub instant_after : ℕ → ℕ → ℕ
instant_after now ms =
    let d = ms * 10 ^ 6 % 2 ^ 64 in if ltb d (2 ^ 63) then now + d else now - (2 ^ 64 - d)

unfoldable pub set_expiring : Bytes → Bytes → Bytes → ℕ → Store → Outcome (Bytes × Store)
unfolding instant_after
set_expiring key value ms now s = elim (parse_int ms) [
  | none ↦ done (codes "-ERR value is not an integer or out of range\r\n", s)
  | some v ↦ elim v [
    | negsuc n ↦ done (codes "-ERR value is not an integer or out of range\r\n", s)
    | pos n ↦ done (codes "+OK\r\n", store.set key value (instant_after now n) s)
  ]
]

unfoldable pub set : List Bytes → ℕ → Store → Outcome (Bytes × Store)
unfolding set_expiring to_upper
set [] now s = done (codes "-ERR wrong number of arguments for 'set' command\r\n", s)
set (key ∷ []) now s = done (codes "-ERR wrong number of arguments for 'set' command\r\n", s)
set (key ∷ value ∷ []) now s = done (codes "+OK\r\n", store.set key value 0 s)
set (key ∷ value ∷ px ∷ ms ∷ []) now s =
    if not (bytes_eq (to_upper px) (codes "PX"))
    then done (codes "-ERR syntax error\r\n", s)
    else set_expiring key value ms now s
set _ now s = done (codes "-ERR syntax error\r\n", s)

unfoldable pub get : List Bytes → ℕ → Store → Outcome (Bytes × Store)
get (key ∷ []) now s =
    done (elim (store.get_value key now s) [ none ↦ null_bulk | some value ↦ bulk value ], s)
get _ now s = done (codes "-ERR wrong number of arguments for 'get' command\r\n", s)

unfoldable pub incr : List Bytes → Store → Outcome (Bytes × Store)
unfolding error_line error_text signed_integer
incr (key ∷ []) s =
    let (r, s') = store.increment key s in
    done (elim r [ err e ↦ error_line (error_text e) | ok v ↦ signed_integer v ], s')
incr _ s = done (codes "-ERR wrong number of arguments for 'incr' command\r\n", s)

unfoldable pub kind_text : Kind → Bytes
kind_text untyped = []
kind_text string = codes "string"
kind_text stream = codes "stream"
kind_text zset = codes "zset"

unfoldable pub type : List Bytes → Store → Outcome (Bytes × Store)
unfolding kind_text simple_line
type (key ∷ []) s = done (
  elim (store.entry_type key s) [
    | none ↦ codes "+none\r\n"
    | some kind ↦ simple_line (kind_text kind)
  ],
  s,
)
type _ s = done (codes "-ERR wrong number of arguments for 'type' command\r\n", s)

-- `cmd[1]` is out of range where there is no pattern.
unfoldable pub keys : List Bytes → Store → Outcome (Bytes × Store)
keys [] s = panic
keys (pattern ∷ _) s = done (bulk_string (store.keys pattern s), s)
