-- ===== src/Decimal.antt =====
-- The decimal numbers of `strconv` and `fmt`, as the program uses them: `%d` and `FormatInt`, and
-- `ParseUint`, `ParseInt` and `Atoi` in base 10.
pub mod RoundTrip
use redis_go.Base.{
  ℕ, zero, suc, ◌+◌, ◌-◌, ◌*◌, ◌/◌, ◌%◌, ◌^◌, ◌≡◌, refl, Bool, ◌||◌, List, [], ◌∷◌, Option, none,
  some, ltb, ◌==◌, if◌then◌else◌, Bytes, codes,
}
use redis_go.Base.Int.{ℤ, pos, negsuc}

abbrev pub max_u64 : ℕ
max_u64 = 2 ^ 64 - 1

-- The digits of `n` before `out`, the last digit first. A number has fewer digits than fuel.
pub digits : ℕ → ℕ → Bytes → Bytes
digits zero n out = out
digits (suc fuel) n out =
    let rest = digits fuel (n / 10) ((b'0' + n % 10) ∷ out) in
    if ltb n 10 then (b'0' + n) ∷ out else rest

-- `%d` of a number that is not negative.
unfoldable pub format : ℕ → Bytes
unfolding digits
format n = digits (suc n) n []

-- `strconv.FormatInt(v, 10)`.
unfoldable pub format_int : ℤ → Bytes
unfolding format
format_int (pos n) = format n
format_int (negsuc n) = b'-' ∷ format (suc n)

-- Digits read onto `n`, refused above `limit` and at a byte that is no digit.
unfoldable pub scan : ℕ → Bytes → ℕ → Option ℕ
scan limit [] n = some n
scan limit (c ∷ s) n =
    let m = n * 10 + (c - b'0') in
    if ltb c b'0' || ltb b'9' c then none else if ltb limit m then none else scan limit s m

-- `strconv.ParseUint(s, 10, 64)`; the error is `none`.
unfoldable pub parse_uint : Bytes → Option ℕ
unfolding scan
parse_uint [] = none
parse_uint (c ∷ s) = scan max_u64 (c ∷ s) 0

unfoldable pub negated : ℕ → ℤ
negated zero = pos 0
negated (suc n) = negsuc n

-- The range of int64: up to 2^63 - 1, and down to -2^63.
unfoldable pub in_int64 : Bool → Option ℕ → Option ℤ
unfolding negated
in_int64 negative none = none
in_int64 Bool.false (some n) = if ltb n (2 ^ 63) then some (pos n) else none
in_int64 Bool.true (some n) = if ltb (2 ^ 63) n then none else some (negated n)

-- `strconv.ParseInt(s, 10, 64)`, and `strconv.Atoi` where `int` has 64 bits.
unfoldable pub parse_int : Bytes → Option ℤ
unfolding parse_uint in_int64
parse_int [] = none
parse_int (c ∷ s) =
    if c == b'+'
    then in_int64 Bool.false (parse_uint s)
    else if c == b'-'
    then in_int64 Bool.true (parse_uint s)
    else in_int64 Bool.false (parse_uint (c ∷ s))

-- The number passes the limit before a byte that is no digit is met.
unfoldable pub passes : ℕ → Bytes → ℕ → Bool
passes limit [] n = Bool.false
passes limit (c ∷ s) n =
    let m = n * 10 + (c - b'0') in
    if ltb c b'0' || ltb b'9' c
    then Bool.false
    else if ltb limit m
    then Bool.true
    else passes limit s m

-- The value that `ParseInt` returns beside an error: the nearest int64 of a number out of range, and 0
-- of a text that is no number.
unfoldable pub clamped : Bool → Bytes → ℤ
unfolding passes parse_uint
clamped negative s =
    let nearest = (if negative then negsuc (2 ^ 63 - 1) else pos (2 ^ 63 - 1)) in
    elim (parse_uint s) [ none ↦ if passes max_u64 s 0 then nearest else pos 0 | some n ↦ nearest ]

-- `n, _ := strconv.Atoi(s)`
unfoldable pub int_value : Bytes → ℤ
unfolding parse_int clamped
int_value s = elim (parse_int s) [
  | some v ↦ v
  | none ↦ elim s [
    | [] ↦ pos 0
    | c ∷ t ↦
        if c == b'+'
        then clamped Bool.false t
        else if c == b'-'
        then clamped Bool.true t
        else clamped Bool.false (c ∷ t)
  ]
]

format_max : format max_u64 ≡ codes "18446744073709551615"
unfolding format
format_max = refl

parse_int_min : parse_int (codes "-9223372036854775808") ≡ some (negsuc 9223372036854775807)
unfolding parse_int
parse_int_min = refl

parse_int_too_large : parse_int (codes "9223372036854775808") ≡ none
unfolding parse_int
parse_int_too_large = refl

int_value_max : int_value (codes "99999999999999999999x") ≡ pos (2 ^ 63 - 1)
unfolding int_value
int_value_max = refl

int_value_min : int_value (codes "-9223372036854775809") ≡ negsuc (2 ^ 63 - 1)
unfolding int_value
int_value_min = refl

int_value_none : int_value (codes "12x") ≡ pos 0
unfolding int_value
int_value_none = refl
