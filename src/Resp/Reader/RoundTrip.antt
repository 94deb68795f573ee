-- ===== src/Resp/Reader/RoundTrip.antt =====
-- Commands that were encoded are read back, one after the other.
use redis_go.Base.{
  ℕ, ◌≤◌, ◌≡◌, refl, ◌≢◌, List, [], ◌∷◌, ◌++◌, arith, Bytes, All, length, append_assoc,
}
use redis_go.Decimal.{format}
use redis_go.Resp.Write.{crlf, bulk, bulks, bulks_onto-bulks, array_header, encode_raw}
use redis_go.Resp.Reader.{
  ok, err, eof, max_bulk_length, max_array_len, read_byte, read_arg, read_args, read_command_array,
  read_one, read_command_loop, read_command, invalid_multibulk_length,
}
use redis_go.Resp.Reader.Lines.{read_bulk_string-append, read_line-format, checked_length-format}

-- What the protocol's limits allow: an argument of at most 512 MB.
abbrev pub Fits : Bytes → Type 0
Fits s = length s ≤ max_bulk_length

bulk-append :
    (s rest : Bytes)
    → bulk s ++ rest ≡ b'$' ∷ (format (length s) ++ (crlf ++ (s ++ (crlf ++ rest))))
unfolding bulk
bulk-append s rest = simp append_assoc

header-append :
    (n : ℕ) (rest : Bytes) → array_header n ++ rest ≡ b'*' ∷ (format n ++ (crlf ++ rest))
unfolding array_header
header-append n rest = simp append_assoc

read_arg-bulk : (s rest : Bytes) → Fits s → read_arg (bulk s ++ rest) ≡ ok (s, rest)
unfolding read_arg
read_arg-bulk s rest h = rw bulk-append (read_bulk_string-append s rest h)

read_args-bulks :
    (args : List Bytes) (rest : Bytes)
    → All Fits args
    → read_args (length args) (bulks args ++ rest) ≡ ok (args, rest)
unfolding read_args bulks
read_args-bulks [] rest h = refl
read_args-bulks (s ∷ args) rest (hs, h) =
    rw (append_assoc, read_arg-bulk s (bulks args ++ rest) hs, read_args-bulks args rest h)

read_one-encoded :
    (args : List Bytes) (rest : Bytes)
    → length args ≤ max_array_len
    → All Fits args
    → read_one (encode_raw args ++ rest) ≡ ok (args, rest)
unfolding read_one read_command_array read_byte encode_raw
read_one-encoded args rest n h =
    rw
      (
        bulks_onto-bulks,
        append_assoc,
        header-append (length args) (bulks args ++ rest),
        read_line-format (length args) (bulks args ++ rest) (omega arith),
        checked_length-format invalid_multibulk_length max_array_len (length args) n (omega arith),
      )
      (read_args-bulks args rest h)

-- What may be sent as an array: an argument at least, and no more than the limits allow.
pub record IsSendable (cmd : List Bytes) : Type 0 where
  pub not_empty : cmd ≢ []
  pub few : length cmd ≤ max_array_len
  pub fit : All Fits cmd

-- A command that `EncodeRaw` wrote is read back by `ReadCommand` whole, with all that follows it left
-- unread: any bytes in the arguments, up to the protocol's limits.
pub read_command-encode_raw :
    (cmd : List Bytes) (rest : Bytes)
    → IsSendable cmd
    → read_command (encode_raw cmd ++ rest) ≡ ok (cmd, rest)
unfolding read_command read_command_loop
read_command-encode_raw [] rest h = absurd (h.not_empty refl)
read_command-encode_raw (arg ∷ args) rest h =
    rw (read_one-encoded (arg ∷ args) rest h.few h.fit, read_command_loop)

-- At the end of the input the reader says so, with no error in the protocol.
pub read_command-nil : read_command [] ≡ err eof
unfolding read_command read_command_loop read_one read_byte
read_command-nil = refl
