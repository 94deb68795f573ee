-- ===== src/Rdb/RoundTrip.antt =====
-- A string that was written in the dump format is read back.
use redis_go.Base.{
  ℕ, ◌+◌, ◌*◌, ◌/◌, ◌%◌, ◌^◌, ◌<◌, ◌≡◌, refl, false, [], ◌∷◌, ◌++◌, arith, ltb, if◌then◌else◌,
  Bytes, length, Bool-cases, inl, inr,
}
use redis_go.Resp.Reader.{read_byte, read_full}
use redis_go.Resp.Reader.Lines.{read_full-append}
use redis_go.Rdb.{ok, big_endian, read_size_of, read_size, read_string}

-- The length encoding of the format: six bits, fourteen bits, or four bytes, the highest first.
abbrev pub put_size : ℕ → Bytes
put_size n =
    if ltb n 64
    then n ∷ []
    else if ltb n (2 ^ 14)
    then (64 + n / 256) ∷ n % 256 ∷ []
    else 128 ∷ n / 2 ^ 24 ∷ n / 2 ^ 16 % 256 ∷ n / 2 ^ 8 % 256 ∷ n % 256 ∷ []

read_size-six :
    (n : ℕ) (rest : Bytes)
    → n < 64
    → read_size (n ∷ rest) ≡ ok (record { n = n; special = false }, rest)
unfolding read_size read_size_of read_byte
read_size-six n rest h =
    let e : n / 64 ≡ 0 = omega arith in let r : n % 64 ≡ n = omega arith in rw (e, r) refl

read_size-fourteen :
    (n : ℕ) (rest : Bytes)
    → n < 2 ^ 14
    → read_size ((64 + n / 256) ∷ n % 256 ∷ rest) ≡ ok (record { n = n; special = false }, rest)
unfolding read_size read_size_of read_byte
read_size-fourteen n rest h =
    let e : (64 + n / 256) / 64 ≡ 1 = omega arith in
    let r : (64 + n / 256) % 64 * 256 + n % 256 ≡ n = omega arith in rw (e, r) refl

read_size-bytes :
    (n : ℕ) (rest : Bytes)
    → n < 2 ^ 32
    → read_size (128 ∷ n / 2 ^ 24 ∷ n / 2 ^ 16 % 256 ∷ n / 2 ^ 8 % 256 ∷ n % 256 ∷ rest)
      ≡ ok (record { n = n; special = false }, rest)
unfolding read_size read_size_of read_byte read_full big_endian
read_size-bytes n rest h =
    let r : ((n / 2 ^ 24 * 256 + n / 2 ^ 16 % 256) * 256 + n / 2 ^ 8 % 256) * 256 + n % 256 ≡ n =
      omega arith in
    ground arith

pub read_size-put_size :
    (n : ℕ) (rest : Bytes)
    → n < 2 ^ 32
    → read_size (put_size n ++ rest) ≡ ok (record { n = n; special = false }, rest)
read_size-put_size n rest h = elim (Bool-cases (ltb n 64)) [
  | inl six ↦ rw six (read_size-six n rest (ground arith))
  | inr more ↦ elim (Bool-cases (ltb n (2 ^ 14))) [
    | inl fourteen ↦ rw (more, fourteen) (read_size-fourteen n rest (ground arith))
    | inr long ↦ rw (more, long) (read_size-bytes n rest h)
  ]
]

-- A text shorter than 4 GiB, behind its length in the shortest of the three forms, is read back whole,
-- and the bytes behind it are left.
pub read_string-put_size :
    (s rest : Bytes)
    → length s < 2 ^ 32
    → read_string (put_size (length s) ++ (s ++ rest)) ≡ ok (s, rest)
unfolding read_string
read_string-put_size s rest h =
    rw (read_size-put_size (length s) (s ++ rest) h, read_full-append s rest, read_string) refl
