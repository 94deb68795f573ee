-- ===== src/Tests/Resp.antt =====
-- The reader of app/resp/reader.go on concrete bytes.
use redis_go.Base.{◌≡◌, ◌≢◌, refl, List, [], ◌∷◌, ◌++◌, arith, Bytes, codes}
use redis_go.Resp.Write.{encode_raw}
use redis_go.Resp.Reader.{
  ok, err, out_of_fuel, read_command, read_command_loop, read_one, read_byte, read_command_array,
  read_inline_command, read_args, read_arg, read_bulk_string, read_payload, read_line, parse_int,
  checked_length, fields, protocol, invalid_bulk_length,
}
use redis_go.Resp.Reader.RoundTrip.{IsSendable, read_command-encode_raw}
use redis_go.Resp.Reader.Total.{read_command-terminates}

ping : read_command (codes "*1\r\n$4\r\nPING\r\nrest") ≡ ok (codes "PING" ∷ [], codes "rest")
unfolding read_command read_command_loop read_one read_byte read_command_array read_args read_arg
    read_bulk_string read_payload read_line parse_int checked_length
ping = refl

-- An empty array and a blank line are passed over.
inline : read_command (codes "*0\r\n\r\n GET  a\r\n") ≡ ok (codes "GET" ∷ codes "a" ∷ [], [])
unfolding read_command read_command_loop read_one read_byte read_command_array read_args read_line
    parse_int checked_length read_inline_command fields
inline = refl

negative_length : read_command (codes "*1\r\n$-1\r\n") ≡ err (protocol invalid_bulk_length)
unfolding read_command read_command_loop read_one read_byte read_command_array read_args read_arg
    read_bulk_string read_payload read_line parse_int checked_length
negative_length = refl

abbrev echo : List Bytes
echo = codes "ECHO" ∷ codes "\r\n*1" ∷ []

echo-IsSendable : IsSendable echo
echo-IsSendable = record { not_empty = cc; few = omega arith; fit = omega arith }

read_command-encode_raw_example : read_command (encode_raw echo ++ codes "*") ≡ ok (echo, codes "*")
read_command-encode_raw_example = read_command-encode_raw echo (codes "*") echo-IsSendable

read_command-terminates_example : read_command (codes "*0\r\n*0\r\n") ≢ err out_of_fuel
read_command-terminates_example = read_command-terminates (codes "*0\r\n*0\r\n")
