-- ===== src/Resp/Write.antt =====
-- app/resp_write.go: what the server writes, as byte strings. `fmt.Fprintf(&b, …)` onto a builder is
-- an append.
pub mod Streams
use redis_go.Base.{ℕ, ◌≡◌, List, [], ◌∷◌, ◌++◌, Bytes, length, append_assoc, append-nil, sym, ◌∙◌}
use redis_go.Decimal.{format}

abbrev pub crlf : Bytes
crlf = 13 ∷ 10 ∷ []

-- "*%d\r\n"
unfoldable pub array_header : ℕ → Bytes
array_header n = b'*' ∷ (format n ++ crlf)

-- "$%d\r\n%s\r\n"
unfoldable pub bulk : Bytes → Bytes
bulk s = b'$' ∷ (format (length s) ++ (crlf ++ (s ++ crlf)))

-- ":%d\r\n" of a number that is not negative
unfoldable pub integer : ℕ → Bytes
integer n = b':' ∷ (format n ++ crlf)

-- The loops over a builder append one bulk string for each item.
unfoldable pub bulks_onto : Bytes → List Bytes → Bytes
bulks_onto b [] = b
bulks_onto b (s ∷ ss) = bulks_onto (b ++ bulk s) ss

unfoldable pub encode_raw : List Bytes → Bytes
encode_raw cmd = bulks_onto (array_header (length cmd)) cmd

unfoldable pub encode_command : List Bytes → Bytes
encode_command args = bulks_onto (array_header (length args)) args

unfoldable pub write_array : List Bytes → Bytes
write_array popped = bulks_onto (array_header (length popped)) popped

unfoldable pub bulk_string : List Bytes → Bytes
bulk_string args = bulks_onto (array_header (length args)) args

-- The items one after another, as the loop leaves them.
unfoldable pub bulks : List Bytes → Bytes
bulks [] = []
bulks (s ∷ ss) = bulk s ++ bulks ss

pub bulks_onto-bulks : (b : Bytes) (ss : List Bytes) → bulks_onto b ss ≡ b ++ bulks ss
unfolding bulks_onto bulks
bulks_onto-bulks b [] = sym (append-nil b)
bulks_onto-bulks b (s ∷ ss) = bulks_onto-bulks (b ++ bulk s) ss ∙ append_assoc b (bulk s) (bulks ss)
