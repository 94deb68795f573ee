-- ===== src/Client/Loop.antt =====
-- The loop of `handleClient` from the bytes on: a command is read, and handled.
use redis_go.Base.{
  ℕ, ◌+◌, ◌/◌, ◌%◌, ◌≡◌, List, [], ◌∷◌, ◌++◌, arith, ltb, if◌then◌else◌, Bytes, codes,
}
use redis_go.Store.{Outcome, done, ◌>>=◌}
use redis_go.Resp.Reader.{
  Problem, empty_integer, invalid_integer, integer_overflow, invalid_multibulk_length,
  invalid_bulk_length, expected_dollar, expected_crlf, line_too_long, expected_line_terminator,
  ReadError, protocol, ok, err, read_command,
}
use redis_go.Resp.Reader.RoundTrip.{IsSendable, read_command-encode_raw}
use redis_go.Resp.Write.{crlf, encode_raw}
use redis_go.Commands.{Env}
use redis_go.Client.{handle}
use redis_go.Client.State.{Client, Node, Step}

-- `%c` of a byte: its code point, in UTF-8.
unfoldable pub char_of : ℕ → Bytes
char_of b = if ltb b 128 then b ∷ [] else (192 + b / 64) ∷ (128 + b % 64) ∷ []

-- The texts of `protoErr`. Those of the first three are never seen: a length that is no number has the
-- text of the length.
unfoldable pub problem_text : Problem → Bytes
unfolding char_of
problem_text empty_integer = codes "empty integer"
problem_text invalid_integer = codes "invalid integer"
problem_text integer_overflow = codes "integer overflow"
problem_text invalid_multibulk_length = codes "invalid multibulk length"
problem_text invalid_bulk_length = codes "invalid bulk length"
problem_text expected_crlf = codes "expected CRLF after bulk payload"
problem_text line_too_long = codes "line too long"
problem_text expected_line_terminator = codes "expected CLRF line terminator"
problem_text (expected_dollar b) = codes "expected '$', got '" ++ (char_of b ++ codes "'")

-- What is written before the connection is closed.
unfoldable pub farewell : ReadError → Bytes
unfolding problem_text
farewell (protocol p) = codes "-ERR Protocol error: " ++ (problem_text p ++ crlf)
farewell _ = []

-- A round: the connection is closed behind a last text, or a command was handled, and the bytes behind
-- it are still to be read.
pub data Turn : Type 0 where
  closed : Bytes → Turn
  took : Step → Bytes → Turn

unfoldable pub turn : Env → Bytes → (ℕ → ℕ) → Client → Node → Outcome Turn
unfolding farewell
turn env input clock c n = elim (read_command input) [
  | err e ↦ done (closed (farewell e))
  | ok (cmd, rest) ↦ (do step ← handle env cmd clock c n; done (took step rest))
]

-- A command within the protocol's limits, as `EncodeRaw` writes it, is handled as that command, and what
-- follows it is left for the next round.
pub turn-encode_raw :
    (env : Env) (cmd : List Bytes) (rest : Bytes) (clock : ℕ → ℕ) (c : Client) (n : Node)
    (step : Step)
    → IsSendable cmd
    → handle env cmd clock c n ≡ done step
    → turn env (encode_raw cmd ++ rest) clock c n ≡ done (took step rest)
unfolding turn
turn-encode_raw env cmd rest clock c n step fit run =
    ground (arith, read_command-encode_raw cmd rest fit, run)
