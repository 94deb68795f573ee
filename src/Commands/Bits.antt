-- ===== src/Commands/Bits.antt =====
-- The cases SETBIT, GETBIT, STRLEN, BITCOUNT and BITOP of app/handleCommands.go.
use redis_go.Base.{ℕ, List, [], ◌∷◌, none, some, if◌then◌else◌, Bytes, codes, bytes_eq}
use redis_go.Base.Int.{pos}
use redis_go.Decimal.{parse_int, parse_uint}
use redis_go.Resp.Write.{integer}
use redis_go.Store.{Store, Result, ok, err, bit_value, bit_offset, Outcome, done, panic, ◌>>=◌}
use redis_go.Store.Strings as strings
use redis_go.Store.Bits as store
use redis_go.Commands.Reply.{error_text, error_line}

unfoldable pub number_reply : Result ℕ → Bytes
unfolding error_line error_text
number_reply (err e) = error_line (error_text e)
number_reply (ok n) = integer n

unfoldable pub setbit : List Bytes → ℕ → Store → Outcome (Bytes × Store)
unfolding number_reply error_line error_text
setbit (key ∷ offset ∷ value ∷ []) now s = elim (parse_uint offset) [
  | none ↦ done (error_line (error_text bit_offset), s)
  | some o ↦ elim (parse_int value) [
    | none ↦ done (error_line (error_text bit_value), s)
    | some v ↦ (do (old, s') ← store.set_bit key o v now s; done (number_reply old, s'))
  ]
]
setbit _ now s = done (codes "-ERR wrong number of arguments for 'setbit' command\r\n", s)

unfoldable pub getbit : List Bytes → ℕ → Store → Outcome (Bytes × Store)
unfolding number_reply error_line error_text
getbit (key ∷ offset ∷ []) now s = elim (parse_uint offset) [
  | none ↦ done (error_line (error_text bit_offset), s)
  | some o ↦ (do n ← store.get_bit key o now s; done (number_reply n, s))
]
getbit _ now s = done (codes "-ERR wrong number of arguments for 'getbit' command\r\n", s)

-- Any error of `Strlen` is written as that of a bit offset.
unfoldable pub strlen : List Bytes → ℕ → Store → Outcome (Bytes × Store)
unfolding error_line error_text
strlen (key ∷ []) now s = done (
  elim (strings.strlen key now s) [ err e ↦ error_line (error_text bit_offset) | ok n ↦ integer n ],
  s,
)
strlen _ now s = done (codes "-ERR wrong number of arguments for 'getbit' command\r\n", s)

-- With a start and no stop `cmd[3]` is out of range.
unfoldable pub bitcount : List Bytes → Store → Outcome (Bytes × Store)
unfolding error_line error_text
bitcount [] s = done (codes "-ERR wrong number of arguments for 'getbit' command\r\n", s)
bitcount (key ∷ []) s = do n ← store.count_bit key (pos 0) (pos 0) s; done (integer n, s)
bitcount (key ∷ start ∷ []) s = elim (parse_int start) [
  | none ↦ done (error_line (error_text bit_offset), s)
  | some a ↦ panic
]
bitcount (key ∷ start ∷ stop ∷ _) s = elim (parse_int start) [
  | none ↦ done (error_line (error_text bit_offset), s)
  | some a ↦ elim (parse_int stop) [
    | none ↦ done (error_line (error_text bit_offset), s)
    | some b ↦ (do n ← store.count_bit key a b s; done (integer n, s))
  ]
]

-- Another operation writes no reply.
unfoldable pub bitop : List Bytes → Store → Outcome (Bytes × Store)
bitop [] s = panic
bitop (op ∷ dest ∷ key1 ∷ key2 ∷ _) s =
    if bytes_eq op (codes "AND")
    then (let (n, s') = store.bit_op_and dest key1 key2 s in done (integer n, s'))
    else if bytes_eq op (codes "OR")
    then (let (n, s') = store.bit_op_or dest key1 key2 s in done (integer n, s'))
    else done ([], s)
bitop (op ∷ _) s =
    if bytes_eq op (codes "AND")
    then panic
    else if bytes_eq op (codes "OR")
    then panic
    else done ([], s)
