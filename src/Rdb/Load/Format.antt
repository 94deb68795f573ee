-- ===== src/Rdb/Load/Format.antt =====
-- The dump format that `Load` of app/rdb/rdb.go reads, as it is written.
use redis_go.Base.{
  ℕ, zero, suc, ◌+◌, ◌-◌, ◌*◌, ◌/◌, ◌%◌, ◌^◌, ◌<◌, ◌≡◌, refl, ap, List, [], ◌∷◌, ◌++◌, append_assoc,
  arith, Bytes, codes, length,
}
use redis_go.Base.Int.{ℤ, pos, negsuc}
use redis_go.Decimal.{format_int}
use redis_go.Resp.Reader.{ok as got, read_byte, read_full}
use redis_go.Resp.Reader.Lines.{read_full-append}
use redis_go.Rdb.{
  ok, signed, little_endian, read_string, read_size, read_size_of, read_number, read_plain_size,
}
use redis_go.Rdb.RoundTrip.{put_size, read_size-put_size, read_string-put_size}
use redis_go.Rdb.Load.{unix_epoch}

-- So many bytes of a number, the lowest first.
abbrev pub put_little_endian : ℕ → ℕ → Bytes
put_little_endian zero n = []
put_little_endian (suc k) n = n % 256 ∷ put_little_endian k (n / 256)

abbrev limit : ℕ → ℕ
limit zero = 1
limit (suc k) = limit k * 256

pub little_endian-put : (k n : ℕ) → n < limit k → little_endian (put_little_endian k n) ≡ n
unfolding little_endian
little_endian-put zero n h = omega arith
little_endian-put (suc k) n h = omega (arith, little_endian-put k (n / 256) (omega arith))

length-put_little_endian : (k n : ℕ) → length (put_little_endian k n) ≡ k
length-put_little_endian zero n = refl
length-put_little_endian (suc k) n = ap suc (length-put_little_endian k (n / 256))

pub read_full-put :
    (k n : ℕ) (rest : Bytes)
    → read_full k (put_little_endian k n ++ rest) ≡ got (put_little_endian k n, rest)
read_full-put k n rest =
    rw (length-put_little_endian k n) at (read_full-append (put_little_endian k n) rest)

-- When a key expires: never, at a millisecond, or at a second, counted from 1970.
pub data Expiry : Type 0 where
  never : Expiry
  at_milli at_second : ℕ → Expiry

-- A string of the format: its bytes, or a number in one, two or four bytes.
pub data Text : Type 0 where
  plain : Bytes → Text
  tiny short word : ℤ → Text

abbrev pub text : Text → Bytes
text (plain s) = s
text (tiny z) = format_int z
text (short z) = format_int z
text (word z) = format_int z

pub record Item : Type 0 where
  pub key : Text
  pub value : Text
  pub expiry : Expiry

-- What stands between the header and the end mark: a field about the file, the index of a database, the
-- sizes of its tables, or a key with its value.
pub data Section : Type 0 where
  aux : Text → Text → Section
  select : ℕ → Section
  sizes : ℕ → ℕ → Section
  item : Item → Section

abbrev pub instant : Expiry → ℤ
instant never = pos 0
instant (at_milli ms) = pos (unix_epoch + ms * 10 ^ 6)
instant (at_second sec) = pos (unix_epoch + sec * 10 ^ 9)

abbrev pub put_expiry : Expiry → Bytes
put_expiry never = []
put_expiry (at_milli ms) = 0xFC ∷ put_little_endian 8 ms
put_expiry (at_second sec) = 0xFD ∷ put_little_endian 4 sec

abbrev pub put_string : Bytes → Bytes
put_string s = put_size (length s) ++ s

-- Two's complement in so many bits.
abbrev pub twos : ℕ → ℤ → ℕ
twos n (pos i) = i
twos n (negsuc i) = 2 ^ n - 1 - i

abbrev pub put_text : Text → Bytes
put_text (plain s) = put_string s
put_text (tiny z) = 0xC0 ∷ put_little_endian 1 (twos 8 z)
put_text (short z) = 0xC1 ∷ put_little_endian 2 (twos 16 z)
put_text (word z) = 0xC2 ∷ put_little_endian 4 (twos 32 z)

abbrev pub put_pair : Text → Text → Bytes
put_pair key value = 0 ∷ (put_text key ++ put_text value)

abbrev pub put_section : Section → Bytes
put_section (aux name value) = 0xFA ∷ (put_text name ++ put_text value)
put_section (select i) = 0xFE ∷ put_size i
put_section (sizes keys expiring) = 0xFB ∷ (put_size keys ++ put_size expiring)
put_section (item x) = put_expiry x.expiry ++ put_pair x.key x.value

unfoldable pub put_sections : List Section → Bytes
put_sections [] = 0xFF ∷ []
put_sections (x ∷ xs) = put_section x ++ put_sections xs

-- The header with its version, the sections, and the end mark.
unfoldable pub dump : Bytes → List Section → Bytes
dump version xs = (codes "REDIS" ++ version) ++ put_sections xs

abbrev pub FitsExpiry : Expiry → Type 0
FitsExpiry never = Unit
FitsExpiry (at_milli ms) = ms < 2 ^ 63
FitsExpiry (at_second sec) = sec < 2 ^ 32

-- The numbers of so many bits and a sign.
abbrev pub FitsBits : ℕ → ℤ → Type 0
FitsBits n (pos i) = i < 2 ^ n
FitsBits n (negsuc i) = i < 2 ^ n

-- The lengths that four bytes hold, and the numbers and the instants that their fields hold.
abbrev pub FitsText : Text → Type 0
FitsText (plain s) = length s < 2 ^ 32
FitsText (tiny z) = FitsBits 7 z
FitsText (short z) = FitsBits 15 z
FitsText (word z) = FitsBits 31 z

abbrev pub Fits : Section → Type 0
Fits (aux name value) = FitsText name × FitsText value
Fits (select i) = i < 2 ^ 32
Fits (sizes keys expiring) = (keys < 2 ^ 32) × (expiring < 2 ^ 32)
Fits (item x) = FitsText x.key × FitsText x.value × FitsExpiry x.expiry

signed-twos_8 : (z : ℤ) → FitsBits 7 z → signed 8 (twos 8 z) ≡ z
unfolding signed
signed-twos_8 (pos i) h = ground arith
signed-twos_8 (negsuc i) h = ground arith

signed-twos_16 : (z : ℤ) → FitsBits 15 z → signed 16 (twos 16 z) ≡ z
unfolding signed
signed-twos_16 (pos i) h = ground arith
signed-twos_16 (negsuc i) h = ground arith

signed-twos_32 : (z : ℤ) → FitsBits 31 z → signed 32 (twos 32 z) ≡ z
unfolding signed
signed-twos_32 (pos i) h = ground arith
signed-twos_32 (negsuc i) h = ground arith

twos-lt : (n : ℕ) (z : ℤ) → FitsBits n z → twos (suc n) z < 2 ^ suc n
twos-lt n (pos i) h = grind (arith, h)
twos-lt n (negsuc i) h = grind (arith, h)

pub read_string-put_text :
    (t : Text) (rest : Bytes) → FitsText t → read_string (put_text t ++ rest) ≡ ok (text t, rest)
unfolding read_string read_size read_size_of read_byte read_number
read_string-put_text (plain s) rest h =
    rw (append_assoc (put_size (length s)) s rest) (read_string-put_size s rest h)
read_string-put_text (tiny z) rest h =
    let r : twos 8 z % 256 ≡ twos 8 z = omega (arith, twos-lt 7 z h) in
    rw (r, signed-twos_8 z h) refl
read_string-put_text (short z) rest h =
    rw
      (
        read_full-put 2 (twos 16 z) rest,
        little_endian-put 2 (twos 16 z) (twos-lt 15 z h),
        signed-twos_16 z h,
      )
      refl
read_string-put_text (word z) rest h =
    rw
      (
        read_full-put 4 (twos 32 z) rest,
        little_endian-put 4 (twos 32 z) (twos-lt 31 z h),
        signed-twos_32 z h,
      )
      refl

pub read_plain_size-put_size :
    (n : ℕ) (rest : Bytes) → n < 2 ^ 32 → read_plain_size (put_size n ++ rest) ≡ ok (0, rest)
unfolding read_plain_size
read_plain_size-put_size n rest h = rw (read_size-put_size n rest h, read_plain_size) refl
