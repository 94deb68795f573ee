-- ===== src/Resp/Reader.antt =====
-- app/resp/reader.go. The connection is the bytes still to be read, with the end of the input behind
-- them; each function returns what it read and the bytes that are left, or an error, after which the
-- program reads no more.
pub mod Lines
pub mod RoundTrip
pub mod Total
use redis_go.Base.{
  ℕ, zero, suc, ◌+◌, ◌-◌, ◌*◌, ◌^◌, ◌≡◌, refl, Bool, true, false, not, ◌&&◌, ◌||◌, List, [], ◌∷◌,
  ◌++◌, Option, none, some, ltb, leb, ◌==◌, if◌then◌else◌, Bytes, codes, length, take, drop,
  get_elem?,
}
use redis_go.Base.Int.{ℤ, pos, negsuc}
use redis_go.Decimal.{scan, negated}

abbrev pub max_line_length : ℕ
max_line_length = 64 * 1024

abbrev pub max_bulk_length : ℕ
max_bulk_length = 512 * 1024 * 1024

abbrev pub max_array_len : ℕ
max_array_len = 1024 * 1024

-- The messages of `protoErr`; one names the byte that was found.
pub data Problem : Type 0 where
  empty_integer invalid_integer integer_overflow : Problem
  invalid_multibulk_length invalid_bulk_length expected_crlf : Problem
  expected_dollar : ℕ → Problem
  line_too_long expected_line_terminator : Problem

-- `io.EOF`, `io.ErrUnexpectedEOF` and a `ProtocolError`, by its text; `out_of_fuel` is the model's own.
pub data ReadError : Type 0 where
  eof unexpected_eof out_of_fuel : ReadError
  protocol : Problem → ReadError

pub data Result {ℓ} (A : Type ℓ) : Type ℓ where
  ok : A → Result A
  err : ReadError → Result A

infixl 5 ◌>>=◌
abbrev pub ◌>>=◌ {ℓ κ} : {A : Type ℓ} {B : Type κ} → Result A → (A → Result B) → Result B
ok a >>= f = f a
err e >>= f = err e

-- `unexpectedEOF`
unfoldable pub unexpected : ReadError → ReadError
unexpected eof = unexpected_eof
unexpected e = e

-- `ReadByte`
unfoldable pub read_byte : Bytes → Result (ℕ × Bytes)
read_byte [] = err eof
read_byte (c ∷ s) = ok (c, s)

-- `ReadBytes('\n')`: the bytes up to and with the first line feed.
unfoldable pub read_bytes : Bytes → Result (Bytes × Bytes)
read_bytes [] = err eof
read_bytes (c ∷ s) =
    let more = (do (line, rest) ← read_bytes s; ok (c ∷ line, rest)) in
    if c == 10 then ok (c ∷ [], s) else more

-- `io.ReadFull` into a buffer of `n` bytes: an end of the input on the way is `ErrUnexpectedEOF`.
unfoldable pub read_full : ℕ → Bytes → Result (Bytes × Bytes)
read_full n s =
    if leb n (length s)
    then ok (take n s, drop n s)
    else if length s == 0
    then err eof
    else err unexpected_eof

abbrev on_error {ℓ} : {A : Type ℓ} → (ReadError → ReadError) → Result A → Result A
on_error f (ok a) = ok a
on_error f (err e) = err (f e)

abbrev pub is_byte : ℕ → Option ℕ → Bool
is_byte c none = false
is_byte c (some d) = d == c

-- The byte at `i` is `c`.
abbrev pub byte_is : Bytes → ℕ → ℕ → Bool
byte_is s i c = is_byte c (get_elem? s i)

unfoldable pub check_line : Bytes → Bytes → Result (Bytes × Bytes)
check_line line rest =
    if ltb max_line_length (length line)
    then err (protocol line_too_long)
    else if ltb (length line) 2 || not (byte_is line (length line - 2) 13)
    then err (protocol expected_line_terminator)
    else ok (take (length line - 2) line, rest)

unfoldable pub read_line : Bytes → Result (Bytes × Bytes)
unfolding read_bytes check_line unexpected
read_line s = do (line, rest) ← on_error unexpected (read_bytes s); check_line line rest

-- The loop of `parseInt`.
unfoldable pub parse_digits : Bytes → ℕ → Result ℕ
parse_digits [] n = ok n
parse_digits (c ∷ s) n =
    let m = n * 10 + (c - b'0') in
    if ltb c b'0' || ltb b'9' c
    then err (protocol invalid_integer)
    else if ltb max_bulk_length m
    then err (protocol integer_overflow)
    else parse_digits s m

unfoldable pub parse_int : Bytes → Result ℤ
unfolding parse_digits negated
parse_int [] = err (protocol empty_integer)
parse_int (c ∷ []) =
    if c == b'-' then err (protocol invalid_integer) else do n ← parse_digits (c ∷ []) 0; ok (pos n)
parse_int (c ∷ d ∷ s) =
    if c == b'-'
    then (do n ← parse_digits (d ∷ s) 0; ok (negated n))
    else do n ← parse_digits (c ∷ d ∷ s) 0; ok (pos n)

-- A length: refused where it is negative, above `limit` or no number, with the one problem.
unfoldable pub checked_length : Problem → ℕ → Result ℤ → Result ℕ
checked_length p limit (err e) = err (protocol p)
checked_length p limit (ok (negsuc n)) = err (protocol p)
checked_length p limit (ok (pos n)) = if ltb limit n then err (protocol p) else ok n

-- `n+2` bytes, the last two of them a CRLF.
unfoldable pub read_payload : ℕ → Bytes → Result (Bytes × Bytes)
unfolding read_full unexpected
read_payload n s = do
  (buf, rest) ← on_error unexpected (read_full (n + 2) s)
  if not (byte_is buf n 13) || not (byte_is buf (n + 1) 10)
      then err (protocol expected_crlf)
      else ok (take n buf, rest)

unfoldable pub read_bulk_string : Bytes → Result (Bytes × Bytes)
read_bulk_string s = do
  (line, rest) ← read_line s
  n ← checked_length invalid_bulk_length max_bulk_length (parse_int line)
  read_payload n rest

-- One round of the loop over the arguments.
unfoldable pub read_arg : Bytes → Result (Bytes × Bytes)
unfolding read_byte unexpected
read_arg s = do
  (b, rest) ← on_error unexpected (read_byte s)
  if b == b'$' then read_bulk_string rest else err (protocol (expected_dollar b))

unfoldable pub read_args : ℕ → Bytes → Result (List Bytes × Bytes)
read_args zero s = ok ([], s)
read_args (suc n) s = do
  (arg, rest) ← read_arg s
  (args, rest') ← read_args n rest
  ok (arg ∷ args, rest')

-- The empty list stands for the `nil` of an empty array.
unfoldable pub read_command_array : Bytes → Result (List Bytes × Bytes)
read_command_array s = do
  (line, rest) ← read_line s
  n ← checked_length invalid_multibulk_length max_array_len (parse_int line)
  read_args n rest

-- How many bytes the white space at the head of a text takes (`unicode.IsSpace` on UTF-8); 0 for none.
unfoldable pub space_width : Bytes → ℕ
space_width [] = 0
space_width (c ∷ []) = if (leb 9 c && leb c 13) || c == 32 then 1 else 0
space_width (c ∷ d ∷ []) =
    if (leb 9 c && leb c 13) || c == 32
    then 1
    else if c == 0xC2 && (d == 0x85 || d == 0xA0)
    then 2
    else 0
space_width (c ∷ d ∷ e ∷ s) =
    if (leb 9 c && leb c 13) || c == 32
    then 1
    else if c == 0xC2 && (d == 0x85 || d == 0xA0)
    then 2
    else if (c == 0xE1 && d == 0x9A && e == 0x80)
        || (c == 0xE2 && d == 0x80 && (leb 0x80 e && leb e 0x8A))
        || (c == 0xE2 && d == 0x80 && (e == 0xA8 || e == 0xA9 || e == 0xAF))
        || (c == 0xE2 && d == 0x81 && e == 0x9F)
        || (c == 0xE3 && d == 0x80 && e == 0x80)
    then 3
    else 0

abbrev pub close_field : Bytes → List Bytes → List Bytes
close_field [] out = out
close_field (c ∷ cur) out = out ++ (c ∷ cur) ∷ []

-- `bytes.Fields`: `skip` bytes of white space are still to be passed over, `cur` is the field begun.
unfoldable pub fields_loop : Bytes → ℕ → Bytes → List Bytes → List Bytes
unfolding space_width
fields_loop [] skip cur out = close_field cur out
fields_loop (c ∷ s) (suc skip) cur out = fields_loop s skip cur out
fields_loop (c ∷ s) zero cur out =
    let w = space_width (c ∷ s) in
    fields_loop s (w - 1) (if w == 0 then cur ++ c ∷ [] else [])
      (if w == 0 then out else close_field cur out)

unfoldable pub fields : Bytes → List Bytes
unfolding fields_loop
fields s = fields_loop s 0 [] []

-- The empty list stands for the `nil` of a blank line.
unfoldable pub read_inline_command : Bytes → Result (List Bytes × Bytes)
read_inline_command s = do (line, rest) ← read_line s; ok (fields line, rest)

-- One round of `ReadCommand`; the byte that is no `*` is unread.
unfoldable pub read_one : Bytes → Result (List Bytes × Bytes)
read_one s = do
  (b, rest) ← read_byte s
  if b == b'*' then read_command_array rest else read_inline_command s

-- The loop of `ReadCommand`: a round that read no argument is followed by the next.
unfoldable pub read_command_loop : ℕ → Bytes → Result (List Bytes × Bytes)
read_command_loop zero s = err out_of_fuel
read_command_loop (suc fuel) s = elim (read_one s) [
  | err e ↦ err e
  | ok (cmd, rest) ↦ elim cmd [
    | [] ↦ read_command_loop fuel rest
    | arg ∷ args ↦ ok (arg ∷ args, rest)
  ]
]

-- Every round reads a byte at least, so that the length of the input bounds the rounds.
unfoldable pub read_command : Bytes → Result (List Bytes × Bytes)
read_command s = read_command_loop (suc (length s)) s
