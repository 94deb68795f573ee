-- ===== src/Resp/Reader/Lines.antt =====
-- What `readLine`, `parseInt` and `readBulkString` return on what `fmt` wrote.
use redis_go.Base.{
  ℕ, suc, ◌+◌, ◌-◌, ◌*◌, ◌≤◌, ◌≡◌, refl, ◌≢◌, ap, List, [], ◌∷◌, ◌++◌, some, arith, Bytes, All,
  length, get_elem?, length-append, take-append, drop-append, append_assoc, All-append, sym,
}
use redis_go.Base.Int.{pos}
use redis_go.Decimal.{format, scan}
use redis_go.Decimal.RoundTrip.{IsDigit, format-IsDigit, format-ne-nil, scan-format, length-format}
use redis_go.Resp.Write.{crlf}
use redis_go.Resp.Reader.{
  ok, max_line_length, max_bulk_length, read_bytes, check_line, read_line, parse_digits, parse_int,
  checked_length, read_full, read_payload, read_bulk_string, byte_is, is_byte, Problem,
  invalid_bulk_length,
}

read_bytes-append :
    (line rest : Bytes)
    → All (λ c. c ≢ 10) line
    → read_bytes (line ++ 10 ∷ rest) ≡ ok (line ++ 10 ∷ [], rest)
unfolding read_bytes
read_bytes-append [] rest h = refl
read_bytes-append (c ∷ line) rest (hc, h) = ground (arith, read_bytes-append line rest h)

get_elem?-append {ℓ} :
    {A : Type ℓ} (xs ys : List A) (i : ℕ) → get_elem? (xs ++ ys) (length xs + i) ≡ get_elem? ys i
get_elem?-append [] ys i = ap (get_elem? ys) (omega arith)
get_elem?-append (x ∷ xs) ys i =
    let e : suc (length xs) + i ≡ suc (length xs + i) = omega arith in
    rw e (get_elem?-append xs ys i)

byte_is-append : (xs ys : Bytes) (i c : ℕ) → byte_is (xs ++ ys) (length xs + i) c ≡ byte_is ys i c
byte_is-append xs ys i c = ap (is_byte c) (get_elem?-append xs ys i)

-- at the end of the first part
byte_is_at : (xs ys : Bytes) (i c : ℕ) → i ≡ length xs → byte_is (xs ++ ys) i c ≡ byte_is ys 0 c
byte_is_at xs ys i c e =
    let e' : i ≡ length xs + 0 = omega arith in rw e' (byte_is-append xs ys 0 c)

check_line-append :
    (line rest : Bytes)
    → length line + 2 ≤ max_line_length
    → check_line (line ++ crlf) rest ≡ ok (line, rest)
unfolding check_line
check_line-append line rest h =
    let e : length (line ++ crlf) - 2 ≡ length line = omega (arith, length-append line crlf) in
    rw (e, byte_is_at line crlf (length line) 13 refl, take-append)
      (ground (arith, length-append line crlf))

-- A line without a line feed is read up to its CRLF.
pub read_line-append :
    (line rest : Bytes)
    → All (λ c. c ≢ 10) line
    → length line + 2 ≤ max_line_length
    → read_line (line ++ (crlf ++ rest)) ≡ ok (line, rest)
unfolding read_line
read_line-append line rest h fits =
    let e : line ++ (13 ∷ 10 ∷ rest) ≡ (line ++ 13 ∷ []) ++ (10 ∷ rest) =
      sym (append_assoc line (13 ∷ []) (10 ∷ rest)) in
    let all : All (λ c. c ≢ 10) (line ++ 13 ∷ []) =
      All-append (λ c. c ≢ 10) line (13 ∷ []) h (omega arith) in
    rw (e, read_bytes-append (line ++ 13 ∷ []) rest all, append_assoc)
      (check_line-append line rest fits)

IsDigit-lacks_lf : (s : Bytes) → All IsDigit s → All (λ c. c ≢ 10) s
IsDigit-lacks_lf [] h = tt
IsDigit-lacks_lf (c ∷ s) (hc, h) = (omega arith, IsDigit-lacks_lf s h)

-- The header of an array or of a bulk string.
pub read_line-format :
    (n : ℕ) (rest : Bytes)
    → n ≤ max_bulk_length
    → read_line (format n ++ (crlf ++ rest)) ≡ ok (format n, rest)
read_line-format n rest h =
    read_line-append (format n) rest (IsDigit-lacks_lf (format n) (format-IsDigit n))
      (omega (arith, length-format 9 n (omega arith)))

parse_digits-scan :
    (s : Bytes) (n m : ℕ) → scan max_bulk_length s n ≡ some m → parse_digits s n ≡ ok m
unfolding scan parse_digits
parse_digits-scan [] n m h = ground arith
parse_digits-scan (c ∷ s) n m h = ground (arith, parse_digits-scan s (n * 10 + (c - b'0')) m)

parse_int-digits :
    (s : Bytes) (m : ℕ)
    → s ≢ []
    → All IsDigit s
    → parse_digits s 0 ≡ ok m
    → parse_int s ≡ ok (pos m)
unfolding parse_int
parse_int-digits [] m ne h p = absurd (ne refl)
parse_int-digits (c ∷ []) m ne h p = ground arith
parse_int-digits (c ∷ d ∷ s) m ne h p = ground arith

pub parse_int-format : (n : ℕ) → n ≤ max_bulk_length → parse_int (format n) ≡ ok (pos n)
parse_int-format n h =
    parse_int-digits (format n) n (format-ne-nil n) (format-IsDigit n)
      (parse_digits-scan (format n) 0 n (scan-format max_bulk_length n h))

pub read_full-append : (s rest : Bytes) → read_full (length s) (s ++ rest) ≡ ok (s, rest)
unfolding read_full
read_full-append s rest = rw (take-append, drop-append) (ground (arith, length-append s rest))

pub read_payload-append :
    (s rest : Bytes) → read_payload (length s) (s ++ (crlf ++ rest)) ≡ ok (s, rest)
unfolding read_payload
read_payload-append s rest =
    let e : s ++ (13 ∷ 10 ∷ rest) ≡ (s ++ crlf) ++ rest = sym (append_assoc s crlf rest) in
    let n : length s + 2 ≡ length (s ++ crlf) = omega (arith, length-append s crlf) in
    rw (
      e,
      n,
      read_full-append (s ++ crlf) rest,
      take-append,
      byte_is_at s crlf (length s) 13 refl,
      byte_is-append s crlf 1 10,
    )

pub checked_length-format :
    (p : Problem) (limit n : ℕ)
    → n ≤ limit
    → limit ≤ max_bulk_length
    → checked_length p limit (parse_int (format n)) ≡ ok n
unfolding checked_length
checked_length-format p limit n h fits = rw (parse_int-format n (omega arith)) (ground arith)

-- A bulk string is read as it was written, whatever bytes it holds.
pub read_bulk_string-append :
    (s rest : Bytes)
    → length s ≤ max_bulk_length
    → read_bulk_string (format (length s) ++ (crlf ++ (s ++ (crlf ++ rest)))) ≡ ok (s, rest)
unfolding read_bulk_string
read_bulk_string-append s rest h =
    rw
      (
        read_line-format (length s) (s ++ (crlf ++ rest)) h,
        checked_length-format invalid_bulk_length max_bulk_length (length s) h (omega arith),
      )
      (read_payload-append s rest)
