-- ===== src/Rdb/Load/Total.antt =====
-- `Load` comes to an end on every file.
use redis_go.Base.{
  ℕ, zero, suc, ◌/◌, ◌≤◌, ◌<◌, ◌≡◌, ◌≢◌, refl, Bool, true, false, not, [], ◌∷◌, arith, leb, ◌==◌,
  if◌then◌else◌, Bytes, codes, bytes_eq, length, length-drop, take, Bool-cases, inl, inr,
}
use redis_go.Base.Int.{ℤ, pos}
use redis_go.Decimal.{format_int}
use redis_go.Resp.Reader.{Result as Read, ok as got, err as failed, read_byte, read_full}
use redis_go.Rdb.{
  Result, ok, err, lift, ◌>>=◌, little_endian, signed, read_size_of, read_size, read_number,
  read_string, read_plain_size,
}
use redis_go.Rdb.Load.{
  Place, aux_name, aux_value, db_index, db_size, expires_size, expiry_ms, expiry_sec, key,
  value_for, Ending, header, not_an_rdb_file, out_of_fuel, reading, Round, stop, next, reading_at,
  load_aux, load_sizes, load_pair, load_op, load_round, load_loop, load,
}

-- What is left is no longer than the file.
abbrev Shrinks {ℓ} : {A : Type ℓ} → Bytes → Result (A × Bytes) → Type 0
Shrinks s (ok (a, rest)) = length rest ≤ length s
Shrinks s (err e) = Unit

module _ {ℓ κ} {A : Type ℓ} {B : Type κ} where
  Shrinks-bind :
      (s : Bytes) (m : Result (A × Bytes)) (f : A × Bytes → Result (B × Bytes))
      → Shrinks s m
      → ((a : A) (rest : Bytes) → Shrinks rest (f (a, rest)))
      → Shrinks s (m >>= f)
  Shrinks-bind s (err e) f h k = tt
  Shrinks-bind s (ok (a, rest)) f h k = widen (f (a, rest)) (k a rest)
    where
      widen : (r : Result (B × Bytes)) → Shrinks rest r → Shrinks s r
      widen (err e) q = tt
      widen (ok (b, left)) q = omega arith

read_byte-Shrinks : (s : Bytes) → Shrinks s (lift (read_byte s))
unfolding read_byte
read_byte-Shrinks [] = tt
read_byte-Shrinks (c ∷ s) = omega arith

read_full-Shrinks : (n : ℕ) (s : Bytes) → Shrinks s (lift (read_full n s))
unfolding read_full
read_full-Shrinks n s = elim (Bool-cases (leb n (length s))) [
  | inl e ↦ rw e (omega (arith, length-drop n s))
  | inr e ↦ elim (Bool-cases (length s == 0)) [ inl z ↦ rw (e, z) tt | inr z ↦ rw (e, z) tt ]
]

if-Shrinks :
    {A : Type 0} (s : Bytes) (b : Bool) (x y : Result (A × Bytes))
    → Shrinks s x
    → Shrinks s y
    → Shrinks s (if b then x else y)
if-Shrinks s true x y hx hy = hx
if-Shrinks s false x y hx hy = hy

read_size_of-Shrinks : (b : ℕ) (s : Bytes) → Shrinks s (read_size_of b s)
unfolding read_size_of
read_size_of-Shrinks b s = if-Shrinks s (b / 64 == 0) _ _ (omega arith) (
    if-Shrinks s (b / 64 == 1) _ _
      (Shrinks-bind s (lift (read_byte s)) _ (read_byte-Shrinks s) (λ a rest. omega arith))
      (if-Shrinks s (b / 64 == 2) _ _
        (Shrinks-bind s (lift (read_full 4 s)) _ (read_full-Shrinks 4 s) (λ a rest. omega arith))
        (omega arith)))

read_size-Shrinks : (s : Bytes) → Shrinks s (read_size s)
unfolding read_size
read_size-Shrinks s =
    Shrinks-bind s (lift (read_byte s)) _ (read_byte-Shrinks s)
      (λ b rest. read_size_of-Shrinks b rest)

read_number-Shrinks : (n : ℕ) (s : Bytes) → Shrinks s (read_number n s)
unfolding read_number
read_number-Shrinks n s =
    if-Shrinks s (n == 0) _ _
      (Shrinks-bind s (lift (read_byte s)) _ (read_byte-Shrinks s) (λ b rest. omega arith))
      (if-Shrinks s (n == 1) _ _ (two (read_full 2 s) (read_full-Shrinks 2 s)) (
        if-Shrinks s (n == 2) _ _
          (Shrinks-bind s (lift (read_full 4 s)) _ (read_full-Shrinks 4 s) (λ b rest. omega arith))
          tt))
  where
    two :
        (r : Read (Bytes × Bytes))
        → Shrinks s (lift r)
        → Shrinks s (elim r as (λ x. Result (Bytes × Bytes)) [
          | failed e ↦ ok ([], [])
          | got (buf, rest) ↦ ok (format_int (signed 16 (little_endian buf)), rest)
        ])
    two (failed e) h = omega arith
    two (got (buf, rest)) h = h

read_string-Shrinks : (s : Bytes) → Shrinks s (read_string s)
unfolding read_string
read_string-Shrinks s = Shrinks-bind s (read_size s) _ (read_size-Shrinks s) λ size rest.
    if-Shrinks rest size.special _ _ (read_number-Shrinks size.n rest)
      (read_full-Shrinks size.n rest)

read_plain_size-Shrinks : (s : Bytes) → Shrinks s (read_plain_size s)
unfolding read_plain_size
read_plain_size-Shrinks s =
    Shrinks-bind s (read_size s) _ (read_size-Shrinks s)
      λ size rest. if-Shrinks rest size.special _ _ tt (omega arith)

module _ {S : Type 0} (set : Bytes → Bytes → ℤ → S → S) where
  -- The round goes on with a file no longer than this, or ends as the program does.
  abbrev Ends : Bytes → Round S → Type 0
  Ends s (stop e t) = e ≢ out_of_fuel
  Ends s (next expires rest t) = length rest ≤ length s

  reading_at-Ends :
      {A : Type 0} (s : Bytes) (place : Place) (r : Result (A × Bytes)) (t : S)
      (f : A × Bytes → Round S)
      → Shrinks s r
      → ((a : A) (rest : Bytes) → length rest ≤ length s → Ends s (f (a, rest)))
      → Ends s (reading_at set place r t f)
  unfolding reading_at
  reading_at-Ends s place (err e) t f h k = cc
  reading_at-Ends s place (ok (a, rest)) t f h k = k a rest h

  widen :
      (s r : Bytes) {A : Type 0} (m : Result (A × Bytes))
      → length r ≤ length s
      → Shrinks r m
      → Shrinks s m
  widen s r (err e) h k = tt
  widen s r (ok (a, rest)) h k = omega arith

  if-Ends :
      (s : Bytes) (b : Bool) (x y : Round S) → Ends s x → Ends s y → Ends s (if b then x else y)
  if-Ends s true x y hx hy = hx
  if-Ends s false x y hx hy = hy

  twice :
      {A B : Type 0} (s : Bytes) (p : Place) (q : A → Place) (read : Bytes → Result (A × Bytes))
      (again : Bytes → Result (B × Bytes)) (t : S) (f : A → B × Bytes → Round S)
      → ((r : Bytes) → Shrinks r (read r))
      → ((r : Bytes) → Shrinks r (again r))
      → ((a : A) (b : B) (rest : Bytes) → length rest ≤ length s → Ends s (f a (b, rest)))
      → Ends s (reading_at set p (read s) t λ a. reading_at set (q a.0) (again a.1) t (f a.0))
  twice s p q read again t f h k done = reading_at-Ends s p (read s) t _ (h s) λ a rest le.
      reading_at-Ends s (q a) (again rest) t (f a) (widen s rest (again rest) le (k rest))
        (λ b left le'. done a b left le')

  load_op-Ends : (op : ℕ) (expires : ℤ) (s : Bytes) (t : S) → Ends s (load_op set op expires s t)
  unfolding load_op load_aux load_sizes load_pair
  load_op-Ends op expires s t =
      if-Ends s (op == 0xFA) _ _
        (twice s aux_name (λ n. aux_value) read_string read_string t (λ n v. next expires v.1 t)
          read_string-Shrinks read_string-Shrinks (λ a b rest h. h))
        (if-Ends s (op == 0xFE) _ _
          (reading_at-Ends s db_index (read_plain_size s) t _ (read_plain_size-Shrinks s)
            (λ a rest h. h))
          (if-Ends s (op == 0xFB) _ _
            (twice s db_size (λ n. expires_size) read_plain_size read_plain_size t
              (λ n v. next expires v.1 t) read_plain_size-Shrinks read_plain_size-Shrinks
              (λ a b rest h. h))
            (if-Ends s (op == 0xFC) _ _
              (reading_at-Ends s expiry_ms (lift (read_full 8 s)) t _ (read_full-Shrinks 8 s)
                (λ a rest h. h))
              (if-Ends s (op == 0xFD) _ _
                (reading_at-Ends s expiry_sec (lift (read_full 4 s)) t _ (read_full-Shrinks 4 s)
                  (λ a rest h. h))
                (if-Ends s (op == 0) _ _
                  (twice s key (λ k. value_for k) read_string read_string t
                    (λ k v. next (pos 0) v.1 (set k v.0 expires t)) read_string-Shrinks
                    read_string-Shrinks (λ a b rest h. h))
                  (if-Ends s (op == 0xFF) _ _ (cc) (cc)))))))

  load_round-Ends :
      (expires : ℤ) (s : Bytes) (t : S)
      → Ends s (load_round set expires s t)
        × ((e : ℤ) (rest : Bytes) (t' : S)
            → load_round set expires s t ≡ next e rest t'
            → length rest < length s)
  unfolding load_round reading_at read_byte
  load_round-Ends expires [] t = (cc, λ e rest t' h. cc)
  load_round-Ends expires (op ∷ s) t = (
    grown (load_op set op expires s t) (load_op-Ends op expires s t),
    λ e rest t' h. shorter (load_op set op expires s t) e rest t' (load_op-Ends op expires s t) h,
  )
    where
      grown : (r : Round S) → Ends s r → Ends (op ∷ s) r
      grown (stop e t') h = h
      grown (next e rest t') h = omega arith

      shorter :
          (r : Round S) (e : ℤ) (rest : Bytes) (t' : S)
          → Ends s r
          → r ≡ next e rest t'
          → length rest < suc (length s)
      shorter (stop e' u) e rest t' h k = cc
      shorter (next e' rest' u) e rest t' h k = ground arith

  load_loop-ends :
      (fuel : ℕ) (expires : ℤ) (s : Bytes) (t : S)
      → length s < fuel
      → (load_loop set fuel expires s t).1 ≢ out_of_fuel
  unfolding load_loop
  load_loop-ends zero expires s t h = absurd (omega arith)
  load_loop-ends (suc fuel) expires s t h =
      go (load_round set expires s t) (load_round-Ends expires s t).0 λ e rest t' k.
        load_loop-ends fuel e rest t' (omega (arith, (load_round-Ends expires s t).1 e rest t' k))
    where
      go :
          (r : Round S)
          → Ends s r
          → ((e : ℤ) (rest : Bytes) (t' : S)
              → r ≡ next e rest t'
              → (load_loop set fuel e rest t').1 ≢ out_of_fuel)
          → (elim r as (λ x. S × Ending) [
            | stop e s' ↦ (s', e)
            | next expires' rest s' ↦ load_loop set fuel expires' rest s'
          ]).1
            ≢ out_of_fuel
      go (stop e t') h k = h
      go (next e rest t') h k = k e rest t' refl

  -- Loading comes to an end on every file: the rounds that its length allows are enough.
  pub load-terminates : (file : Bytes) (t : S) → (load set file t).1 ≢ out_of_fuel
  unfolding load
  load-terminates file t = by_header (lift (read_full 9 file))
    where
      by_header :
          (r : Result (Bytes × Bytes))
          → (elim r as (λ x. S × Ending) [
            | err e ↦ (t, reading header e)
            | ok (hdr, rest) ↦
                if not (bytes_eq (take 5 hdr) (codes "REDIS"))
                then (t, not_an_rdb_file)
                else load_loop set (suc (length rest)) (pos 0) rest t
          ]).1
            ≢ out_of_fuel
      by_header (err e) = cc
      by_header (ok (hdr, rest)) = elim (Bool-cases (bytes_eq (take 5 hdr) (codes "REDIS"))) [
        | inl e ↦ rw e (load_loop-ends (suc (length rest)) (pos 0) rest t (omega arith))
        | inr e ↦ rw e (cc)
      ]
