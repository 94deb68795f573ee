-- ===== src/Commands/Reply.antt =====
-- The texts that the handlers of app/handleCommands.go write, and how they read their arguments.
use redis_go.Base.{ℕ, ◌-◌, ◌&&◌, [], ◌∷◌, ◌++◌, leb, ◌==◌, if◌then◌else◌, Bytes, codes}
use redis_go.Base.Int.{ℤ}
use redis_go.Decimal.{format_int}
use redis_go.Resp.Write.{crlf}
use redis_go.Store.{
  Error, bit_value, not_integer, bit_offset, id_zero, invalid_id, wrong_type, id_too_small,
}

-- `err.Error()`
unfoldable pub error_text : Error → Bytes
error_text bit_value = codes "ERR bit is not an integer or out of range"
error_text not_integer = codes "ERR value is not an integer or out of range"
error_text bit_offset = codes "ERR bit offset is not an integer or out of range"
error_text id_zero = codes "ERR The ID specified in XADD must be greater than 0-0"
error_text invalid_id = codes "ERR Invalid stream ID specified as stream command argument"
error_text wrong_type = codes "WRONGTYPE Operation against a key holding the wrong kind of value"
error_text id_too_small =
    codes "ERR The ID specified in XADD is equal or smaller than the target stream top item"

-- `"-" + err.Error() + "\r\n"`
unfoldable pub error_line : Bytes → Bytes
error_line text = b'-' ∷ (text ++ crlf)

unfoldable pub simple_line : Bytes → Bytes
simple_line text = b'+' ∷ (text ++ crlf)

-- ":%d\r\n"
unfoldable pub signed_integer : ℤ → Bytes
signed_integer v = b':' ∷ (format_int v ++ crlf)

abbrev pub null_bulk : Bytes
null_bulk = codes "$-1\r\n"

abbrev pub null_array : Bytes
null_array = codes "*-1\r\n"

abbrev upper : ℕ → ℕ
upper c = if leb b'a' c && leb c b'z' then c - 32 else c

-- `strings.ToUpper`: ASCII letters, and the two other letters whose capitals are ASCII (the dotless i
-- and the long s), by their UTF-8. Letters whose capitals are not ASCII are left as they are.
unfoldable pub to_upper : Bytes → Bytes
to_upper [] = []
to_upper (c ∷ []) = upper c ∷ []
to_upper (c ∷ d ∷ s) =
    let dotless = b'I' ∷ to_upper s in
    let long = b'S' ∷ to_upper s in
    let one = upper c ∷ to_upper (d ∷ s) in
    if c == 0xC4 && d == 0xB1 then dotless else if c == 0xC5 && d == 0xBF then long else one
