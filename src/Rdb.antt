-- ===== src/Rdb.antt =====
-- app/rdb/rdb.go: the lengths and the strings of a dump file. The file is the bytes still to be read.
pub mod RoundTrip
pub mod Load
use redis_go.Base.{
  ℕ, zero, suc, ◌+◌, ◌-◌, ◌*◌, ◌/◌, ◌%◌, ◌^◌, Bool, true, false, List, [], ◌∷◌, ltb, ◌==◌,
  if◌then◌else◌, Bytes,
}
use redis_go.Base.Int.{ℤ, pos, negsuc}
use redis_go.Decimal.{format_int}
use redis_go.Resp.Reader.{ReadError, Result as Read, ok as got, err as failed, read_byte, read_full}

-- The errors: those of package io, and the two of `fmt.Errorf`, with the number that they print.
pub data Error : Type 0 where
  read : ReadError → Error
  unsupported_encoding special_encoding : ℕ → Error

pub data Result {ℓ} (A : Type ℓ) : Type ℓ where
  ok : A → Result A
  err : Error → Result A

infixl 5 ◌>>=◌
abbrev pub ◌>>=◌ {ℓ κ} : {A : Type ℓ} {B : Type κ} → Result A → (A → Result B) → Result B
ok a >>= f = f a
err e >>= f = err e

abbrev pub lift {ℓ} : {A : Type ℓ} → Read A → Result A
lift (got a) = ok a
lift (failed e) = err (read e)

-- `(n, special)`
pub record Size : Type 0 where
  pub n : ℕ
  pub special : Bool

unfoldable pub big_endian : ℕ → Bytes → ℕ
big_endian acc [] = acc
big_endian acc (b ∷ buf) = big_endian (acc * 256 + b) buf

unfoldable pub little_endian : Bytes → ℕ
little_endian [] = 0
little_endian (b ∷ buf) = b + 256 * little_endian buf

-- A number of so many bits read as a signed one.
unfoldable pub signed : ℕ → ℕ → ℤ
signed bits x = if ltb x (2 ^ (bits - 1)) then pos x else negsuc (2 ^ bits - 1 - x)

unfoldable pub read_size_of : ℕ → Bytes → Result (Size × Bytes)
unfolding big_endian
read_size_of b s =
    let two = (do
      (next, rest) ← lift (read_byte s)
      ok (record { n = b % 64 * 256 + next; special = false }, rest)) in
    let five = (do
      (buf, rest) ← lift (read_full 4 s)
      ok (record { n = big_endian 0 buf; special = false }, rest)) in
    if b / 64 == 0
    then ok (record { n = b % 64; special = false }, s)
    else if b / 64 == 1
    then two
    else if b / 64 == 2
    then five
    else ok (record { n = b % 64; special = true }, s)

unfoldable pub read_size : Bytes → Result (Size × Bytes)
unfolding read_size_of
read_size s = do (b, rest) ← lift (read_byte s); read_size_of b rest

-- The numbers behind a special size. A file that ends within the two bytes gives an empty text and no
-- error, at the end of the file.
unfoldable pub read_number : ℕ → Bytes → Result (Bytes × Bytes)
unfolding little_endian signed
read_number n s =
    let one = (do (b, rest) ← lift (read_byte s); ok (format_int (signed 8 b), rest)) in
    let two : Result (Bytes × Bytes) = elim (read_full 2 s) [
      | failed e ↦ ok ([], [])
      | got (buf, rest) ↦ ok (format_int (signed 16 (little_endian buf)), rest)
    ] in
    let four = (do
      (buf, rest) ← lift (read_full 4 s)
      ok (format_int (signed 32 (little_endian buf)), rest)) in
    if n == 0
    then one
    else if n == 1
    then two
    else if n == 2
    then four
    else err (unsupported_encoding n)

unfoldable pub read_string : Bytes → Result (Bytes × Bytes)
unfolding read_number
read_string s = do
  (size, rest) ← read_size s
  if size.special then read_number size.n rest else lift (read_full size.n rest)

-- `readPlainSize` reads the number and returns 0.
unfoldable pub read_plain_size : Bytes → Result (ℕ × Bytes)
read_plain_size s = do
  (size, rest) ← read_size s
  if size.special then err (special_encoding size.n) else ok (0, rest)
