-- ===== src/Decimal/RoundTrip.antt =====
-- What the decimal parsers return on what the printers wrote.
use native.Mathlib.Nat.{pow-suc}
use redis_go.Base.{
  ℕ, zero, suc, ◌+◌, ◌/◌, ◌%◌, ◌^◌, ◌≤◌, ◌<◌, ◌≡◌, refl, ◌≢◌, [], ◌∷◌, some, arith, Bytes, All,
  length,
}
use redis_go.Base.Int.{ℤ, pos, negsuc}
use redis_go.Decimal.{max_u64, digits, format, format_int, scan, parse_uint, parse_int}

abbrev pub IsDigit : ℕ → Type 0
IsDigit c = (b'0' ≤ c) × (c ≤ b'9')

scan-digits :
    (limit fuel n : ℕ) (out : Bytes)
    → n < fuel
    → n ≤ limit
    → scan limit (digits fuel n out) 0 ≡ scan limit out n
unfolding digits scan
scan-digits limit zero n out h fits = absurd (omega arith)
scan-digits limit (suc fuel) n out h fits =
    ground (arith, scan-digits limit fuel (n / 10) ((b'0' + n % 10) ∷ out))

digits-ne-nil : (fuel n : ℕ) (out : Bytes) → out ≢ [] → digits fuel n out ≢ []
unfolding digits
digits-ne-nil zero n out h = h
digits-ne-nil (suc fuel) n out h =
    ground (arith, digits-ne-nil fuel (n / 10) ((b'0' + n % 10) ∷ out))

pub format-ne-nil : (n : ℕ) → format n ≢ []
unfolding format
format-ne-nil n = ground (arith, digits-ne-nil n (n / 10) ((b'0' + n % 10) ∷ []))

pub scan-format : (limit n : ℕ) → n ≤ limit → scan limit (format n) 0 ≡ some n
unfolding format scan
scan-format limit n fits = scan-digits limit (suc n) n [] (omega arith) fits

digits-IsDigit : (fuel n : ℕ) (out : Bytes) → All IsDigit out → All IsDigit (digits fuel n out)
unfolding digits
digits-IsDigit zero n out h = h
digits-IsDigit (suc fuel) n out h =
    ground (arith, digits-IsDigit fuel (n / 10) ((b'0' + n % 10) ∷ out))

-- A print holds digits alone.
pub format-IsDigit : (n : ℕ) → All IsDigit (format n)
unfolding format
format-IsDigit n = digits-IsDigit (suc n) n [] tt

length-digits :
    (k fuel n : ℕ) (out : Bytes) → n < 10 ^ suc k → length (digits fuel n out) ≤ suc k + length out
unfolding digits
length-digits k zero n out h = omega arith
length-digits zero (suc fuel) n out h = ground arith
length-digits (suc k) (suc fuel) n out h =
    ground (arith, pow-suc 10 (suc k), length-digits k fuel (n / 10) ((b'0' + n % 10) ∷ out))

-- A number below 10^k takes at most k digits.
pub length-format : (k n : ℕ) → n < 10 ^ suc k → length (format n) ≤ suc k
unfolding format
length-format k n h = omega (arith, length-digits k (suc n) n [] h)

parse_uint-scan : (s : Bytes) → s ≢ [] → parse_uint s ≡ scan max_u64 s 0
unfolding parse_uint
parse_uint-scan [] h = absurd (h refl)
parse_uint-scan (c ∷ s) h = refl

pub parse_uint-format : (n : ℕ) → n ≤ max_u64 → parse_uint (format n) ≡ some n
parse_uint-format n h =
    ground (arith, parse_uint-scan (format n) (format-ne-nil n), scan-format max_u64 n h)

-- The range of int64.
abbrev pub IsInt64 : ℤ → Type 0
IsInt64 (pos n) = n < 2 ^ 63
IsInt64 (negsuc n) = n < 2 ^ 63

parse_int-digits :
    (s : Bytes) (n : ℕ)
    → s ≢ []
    → All IsDigit s
    → parse_uint s ≡ some n
    → n < 2 ^ 63
    → parse_int s ≡ some (pos n)
unfolding parse_int
parse_int-digits [] n ne h p fits = absurd (ne refl)
parse_int-digits (c ∷ s) n ne h p fits = ground arith

-- Every int64 is read back from its print.
pub parse_int-format_int : (v : ℤ) → IsInt64 v → parse_int (format_int v) ≡ some v
unfolding format_int
parse_int-format_int (pos n) h =
    parse_int-digits (format n) n (format-ne-nil n) (format-IsDigit n)
      (parse_uint-format n (omega arith)) h
parse_int-format_int (negsuc n) h = unfold parse_int in ground (arith, parse_uint-format (suc n))
