-- ===== src/Resp/Reader/Total.antt =====
-- `ReadCommand` always comes to an end: no input uses up the rounds that its length allows.
use redis_go.Base.{
  ℕ, zero, suc, ◌+◌, ◌-◌, ◌≤◌, ◌<◌, ◌≡◌, ◌≢◌, List, [], ◌∷◌, not, ◌||◌, arith, ltb, leb, ◌==◌,
  if◌then◌else◌, Bytes, length, length-drop, take, Bool-cases, inl, inr,
}
use redis_go.Base.Int.{ℤ, pos, negsuc}
use redis_go.Resp.Reader.{
  Problem, invalid_bulk_length, invalid_multibulk_length, expected_dollar, expected_crlf, eof,
  unexpected_eof, protocol, on_error, byte_is, parse_int, max_line_length, max_bulk_length,
  max_array_len, Result, ok, err, out_of_fuel, unexpected, read_byte, read_bytes, read_full,
  check_line, read_line, read_payload, read_bulk_string, read_arg, read_args, read_command_array,
  read_inline_command, read_one, read_command_loop, read_command, checked_length, ◌>>=◌,
}

-- A step that reads at least `n` bytes, or fails with an error of the program's own.
abbrev Reads {ℓ} : {A : Type ℓ} → ℕ → Bytes → Result (A × Bytes) → Type 0
Reads n s (ok (a, rest)) = length rest + n ≤ length s
Reads n s (err e) = e ≢ out_of_fuel

module _ {ℓ κ} {A : Type ℓ} {B : Type κ} where
  Reads-bind :
      (n : ℕ) (s : Bytes) (m : Result (A × Bytes)) (f : A × Bytes → Result (B × Bytes))
      → Reads n s m
      → ((a : A) (rest : Bytes) → Reads 0 rest (f (a, rest)))
      → Reads n s (m >>= f)
  Reads-bind n s (err e) f h k = h
  Reads-bind n s (ok (a, rest)) f h k = widen (f (a, rest)) (k a rest)
    where
      widen : (r : Result (B × Bytes)) → Reads 0 rest r → Reads n s r
      widen (err e) q = q
      widen (ok (b, left)) q = omega arith

module _ {κ} {B : Type κ} where
  Reads-checked :
      (p : Problem) (limit : ℕ) (r : Result ℤ) (s : Bytes) (f : ℕ → Result (B × Bytes))
      → ((n : ℕ) → Reads 0 s (f n))
      → Reads 0 s (checked_length p limit r >>= f)
  unfolding checked_length
  Reads-checked p limit (err e) s f k = cc
  Reads-checked p limit (ok (negsuc m)) s f k = cc
  Reads-checked p limit (ok (pos m)) s f k = elim (Bool-cases (ltb limit m)) [
    | inl e ↦ rw e (cc)
    | inr e ↦ rw e (k m)
  ]

Reads-unexpected :
    {A : Type 0} (n : ℕ) (s : Bytes) (m : Result (A × Bytes))
    → Reads n s m
    → Reads n s (on_error unexpected m)
unfolding unexpected
Reads-unexpected n s (ok (a, rest)) h = h
Reads-unexpected n s (err eof) h = cc
Reads-unexpected n s (err unexpected_eof) h = cc
Reads-unexpected n s (err out_of_fuel) h = h
Reads-unexpected n s (err (protocol p)) h = cc

read_byte-Reads : (s : Bytes) → Reads 1 s (read_byte s)
unfolding read_byte
read_byte-Reads [] = cc
read_byte-Reads (c ∷ s) = omega arith

keep_byte :
    (c : ℕ) (s : Bytes) (r : Result (Bytes × Bytes))
    → Reads 1 s r
    → Reads 1 (c ∷ s) (do (line, rest) ← r; ok (c ∷ line, rest))
keep_byte c s (ok (line, rest)) h = omega arith
keep_byte c s (err e) h = h

read_bytes-Reads : (s : Bytes) → Reads 1 s (read_bytes s)
unfolding read_bytes
read_bytes-Reads [] = cc
read_bytes-Reads (c ∷ s) = elim (Bool-cases (c == 10)) [
  | inl e ↦ rw e (omega arith)
  | inr e ↦ rw e (keep_byte c s (read_bytes s) (read_bytes-Reads s))
]

read_full-Reads : (n : ℕ) (s : Bytes) → Reads 0 s (read_full n s)
unfolding read_full
read_full-Reads n s = elim (Bool-cases (leb n (length s))) [
  | inl e ↦ rw e (omega (arith, length-drop n s))
  | inr e ↦ elim (Bool-cases (length s == 0)) [ inl z ↦ rw (e, z) (cc) | inr z ↦ rw (e, z) (cc) ]
]

check_line-Reads : (line rest : Bytes) → Reads 0 rest (check_line line rest)
unfolding check_line
check_line-Reads line rest = elim (Bool-cases (ltb max_line_length (length line))) [
  | inl e ↦ rw e (cc)
  | inr e ↦ elim (Bool-cases (ltb (length line) 2 || not (byte_is line (length line - 2) 13))) [
    | inl z ↦ rw (e, z) (cc)
    | inr z ↦ rw (e, z) (omega arith)
  ]
]

read_line-Reads : (s : Bytes) → Reads 1 s (read_line s)
unfolding read_line
read_line-Reads s =
    Reads-bind 1 s (on_error unexpected (read_bytes s)) _
      (Reads-unexpected 1 s (read_bytes s) (read_bytes-Reads s)) check_line-Reads

check_payload : ℕ → Bytes → Bytes → Result (Bytes × Bytes)
check_payload n buf rest =
    if not (byte_is buf n 13) || not (byte_is buf (n + 1) 10)
    then err (protocol expected_crlf)
    else ok (take n buf, rest)

check_payload-Reads : (n : ℕ) (buf rest : Bytes) → Reads 0 rest (check_payload n buf rest)
unfolding check_payload
check_payload-Reads n buf rest =
    elim (Bool-cases (not (byte_is buf n 13) || not (byte_is buf (n + 1) 10))) [
      | inl z ↦ rw z (cc)
      | inr z ↦ rw z (omega arith)
    ]

read_payload-Reads : (n : ℕ) (s : Bytes) → Reads 0 s (read_payload n s)
unfolding read_payload check_payload
read_payload-Reads n s =
    Reads-bind 0 s (on_error unexpected (read_full (n + 2) s)) _
      (Reads-unexpected 0 s (read_full (n + 2) s) (read_full-Reads (n + 2) s))
      (check_payload-Reads n)

-- a line read, and a length checked, before the rest
after_length :
    {A : Type 0} (p : Problem) (limit : ℕ) (s : Bytes) (f : ℕ → Bytes → Result (A × Bytes))
    → ((n : ℕ) (rest : Bytes) → Reads 0 rest (f n rest))
    → Reads 1 s
        (do (line, rest) ← read_line s; n ← checked_length p limit (parse_int line); f n rest)
after_length p limit s f k =
    Reads-bind 1 s (read_line s) _ (read_line-Reads s)
      λ line rest. Reads-checked p limit (parse_int line) rest (λ n. f n rest) (λ n. k n rest)

weaken : {A : Type 0} (s : Bytes) (r : Result (A × Bytes)) → Reads 1 s r → Reads 0 s r
weaken s (ok (a, rest)) h = omega arith
weaken s (err e) h = h

read_bulk_string-Reads : (s : Bytes) → Reads 1 s (read_bulk_string s)
unfolding read_bulk_string
read_bulk_string-Reads s =
    after_length invalid_bulk_length max_bulk_length s read_payload read_payload-Reads

abbrev after_dollar : ℕ → Bytes → Result (Bytes × Bytes)
after_dollar b rest =
    if b == b'$' then read_bulk_string rest else err (protocol (expected_dollar b))

after_dollar-Reads : (b : ℕ) (rest : Bytes) → Reads 0 rest (after_dollar b rest)
after_dollar-Reads b rest = elim (Bool-cases (b == b'$')) [
  | inl e ↦ rw e (weaken rest (read_bulk_string rest) (read_bulk_string-Reads rest))
  | inr e ↦ rw e (cc)
]

read_arg-Reads : (s : Bytes) → Reads 1 s (read_arg s)
unfolding read_arg
read_arg-Reads s =
    Reads-bind 1 s (on_error unexpected (read_byte s)) _
      (Reads-unexpected 1 s (read_byte s) (read_byte-Reads s)) after_dollar-Reads

read_args-Reads : (n : ℕ) (s : Bytes) → Reads 0 s (read_args n s)
unfolding read_args
read_args-Reads zero s = omega arith
read_args-Reads (suc n) s =
    Reads-bind 0 s (read_arg s) _ (weaken s (read_arg s) (read_arg-Reads s)) λ arg rest.
      Reads-bind 0 rest (read_args n rest) _ (read_args-Reads n rest) λ args left. omega arith

read_inline_command-Reads : (s : Bytes) → Reads 1 s (read_inline_command s)
unfolding read_inline_command
read_inline_command-Reads s =
    Reads-bind 1 s (read_line s) _ (read_line-Reads s) λ line rest. omega arith

read_command_array-Reads : (s : Bytes) → Reads 1 s (read_command_array s)
unfolding read_command_array
read_command_array-Reads s =
    after_length invalid_multibulk_length max_array_len s read_args read_args-Reads

one_more :
    {A : Type 0} (c : ℕ) (s : Bytes) (r : Result (A × Bytes)) → Reads 1 s r → Reads 1 (c ∷ s) r
one_more c s (ok (a, rest)) h = omega arith
one_more c s (err e) h = h

read_one-Reads : (s : Bytes) → Reads 1 s (read_one s)
unfolding read_one read_byte
read_one-Reads [] = cc
read_one-Reads (c ∷ s) = elim (Bool-cases (c == b'*')) [
  | inl e ↦ rw e (one_more c s (read_command_array s) (read_command_array-Reads s))
  | inr e ↦ rw e (read_inline_command-Reads (c ∷ s))
]

-- One round fails with an error of the program's own, or reads a byte at least.
abbrev LoopEnds : ℕ → Result (List Bytes × Bytes) → Type 0
LoopEnds fuel r =
    elim r [
      | err e ↦ err e
      | ok (cmd, rest) ↦ elim cmd [
        | [] ↦ read_command_loop fuel rest
        | arg ∷ args ↦ ok (arg ∷ args, rest)
      ]
    ]
    ≢ err out_of_fuel

LoopEnds-step :
    (fuel : ℕ) (s : Bytes) (r : Result (List Bytes × Bytes))
    → Reads 1 s r
    → ((rest : Bytes) → length rest < length s → read_command_loop fuel rest ≢ err out_of_fuel)
    → LoopEnds fuel r
LoopEnds-step fuel s (err e) h k = λ q. h (cc)
LoopEnds-step fuel s (ok ([], rest)) h k = k rest (omega arith)
LoopEnds-step fuel s (ok (arg ∷ args, rest)) h k = λ q. cc

read_command_loop-ends :
    (fuel : ℕ) (s : Bytes) → length s < fuel → read_command_loop fuel s ≢ err out_of_fuel
unfolding read_command_loop
read_command_loop-ends zero s h = absurd (omega arith)
read_command_loop-ends (suc fuel) s h =
    LoopEnds-step fuel s (read_one s) (read_one-Reads s)
      λ rest lt. read_command_loop-ends fuel rest (omega arith)

-- On every input the reader comes to an end within the rounds that the input's length allows: with a
-- command, or with an error that the program itself reports.
pub read_command-terminates : (s : Bytes) → read_command s ≢ err out_of_fuel
unfolding read_command
read_command-terminates s = read_command_loop-ends (suc (length s)) s (omega arith)

less_left :
    {A : Type 0} (s t : Bytes) (r : Result (A × Bytes))
    → length t ≤ length s
    → Reads 1 t r
    → Reads 1 s r
less_left s t (ok (a, rest)) le h = omega arith
less_left s t (err e) le h = h

LoopReads-step :
    (fuel : ℕ) (s : Bytes) (r : Result (List Bytes × Bytes))
    → Reads 1 s r
    → ((rest : Bytes) → length rest < length s → Reads 1 rest (read_command_loop fuel rest))
    → Reads 1 s (elim r [
      | err e ↦ err e
      | ok (cmd, rest) ↦ elim cmd [
        | [] ↦ read_command_loop fuel rest
        | arg ∷ args ↦ ok (arg ∷ args, rest)
      ]
    ])
LoopReads-step fuel s (err e) h k = h
LoopReads-step fuel s (ok ([], rest)) h k =
    less_left s rest (read_command_loop fuel rest) (omega arith) (k rest (omega arith))
LoopReads-step fuel s (ok (arg ∷ args, rest)) h k = h

read_command_loop-Reads :
    (fuel : ℕ) (s : Bytes) → length s < fuel → Reads 1 s (read_command_loop fuel s)
unfolding read_command_loop
read_command_loop-Reads zero s h = absurd (omega arith)
read_command_loop-Reads (suc fuel) s h =
    LoopReads-step fuel s (read_one s) (read_one-Reads s)
      λ rest lt. read_command_loop-Reads fuel rest (omega arith)

-- A command that was read took a byte at least.
pub read_command-consumes :
    (s rest : Bytes) (cmd : List Bytes) → read_command s ≡ ok (cmd, rest) → length rest < length s
unfolding read_command
read_command-consumes s rest cmd e =
    let h : Reads 1 s (read_command_loop (suc (length s)) s) =
      read_command_loop-Reads (suc (length s)) s (omega arith) in
    omega (arith, (rw e at h))
