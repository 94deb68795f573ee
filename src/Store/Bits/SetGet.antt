-- ===== src/Store/Bits/SetGet.antt =====
-- GETBIT after SETBIT.
use redis_go.Base.{
  ℕ, zero, suc, ◌+◌, ◌-◌, ◌%◌, ◌≤◌, ◌<◌, ◌≡◌, refl, ap, ◌∙◌, Bool, true, false, [], ◌∷◌, ◌++◌,
  Option, none, some, arith, leb, ◌==◌, ==_iff, if◌then◌else◌, Bytes, All, length, length-append,
  length-replicate, replicate, set, Bool-cases, inl, inr, bytes_eq_refl,
}
use redis_go.Base.Int.{pos}
use redis_go.Base.Dict.{get-put}
use redis_go.Store.{
  Store, Entry, zero_entry, string, ok, expired, is_kind, done, ◌>>=◌, put_entry, mark_watchers,
}
use redis_go.Store.Bits.{
  byte_at, byte_index, mask, has_bit, bit_of, write_bit, grow, at, put_at, read_bit, store_bit,
  set_bit, get_bit, max_bit_offset, entry_for_bits,
}
use redis_go.Store.Bits.Bytewise.{has_bit-write_bit, has_bit-zero}

abbrev pub AreBytes : Bytes → Type 0
AreBytes = All (λ c. c < 256)

-- The bit at an offset; what lies past the end is zero.
abbrev pub bit_at : ℕ → Bytes → Bool
bit_at offset buf = has_bit (byte_at buf (byte_index offset)) (mask offset)

byte_at-replicate : (n j : ℕ) → byte_at (replicate n 0) j ≡ 0
unfolding byte_at
byte_at-replicate zero j = refl
byte_at-replicate (suc n) zero = refl
byte_at-replicate (suc n) (suc j) = byte_at-replicate n j

byte_at-padded : (s : Bytes) (n j : ℕ) → byte_at (s ++ replicate n 0) j ≡ byte_at s j
unfolding byte_at
byte_at-padded [] n j = byte_at-replicate n j
byte_at-padded (c ∷ s) n zero = refl
byte_at-padded (c ∷ s) n (suc j) = byte_at-padded s n j

byte_at-grow : (i : ℕ) (buf : Bytes) (j : ℕ) → byte_at (grow i buf) j ≡ byte_at buf j
unfolding grow
byte_at-grow i buf j = ground (arith, byte_at-padded buf (i + 1 - length buf) j)

lt-length-grow : (i : ℕ) (buf : Bytes) → i < length (grow i buf)
unfolding grow
lt-length-grow i buf = elim (Bool-cases (leb (length buf) i)) [
  | inl short ↦ rw short (
      ground (
        arith,
        length-append buf (replicate (i + 1 - length buf) 0),
        length-replicate {A = ℕ} (i + 1 - length buf) 0,
      ))
  | inr long ↦ rw long (ground arith)
]

byte_at-set :
    (s : Bytes) (i j v : ℕ)
    → i < length s
    → byte_at (set s i v) j ≡ (if i == j then v else byte_at s j)
unfolding byte_at
byte_at-set [] i j v h = absurd (omega arith)
byte_at-set (c ∷ s) zero zero v h = ground arith
byte_at-set (c ∷ s) zero (suc j) v h = ground arith
byte_at-set (c ∷ s) (suc i) zero v h = ground arith
byte_at-set (c ∷ s) (suc i) (suc j) v h = ground (arith, byte_at-set s i j v)

byte_at-lt : (s : Bytes) (i : ℕ) → AreBytes s → byte_at s i < 256
unfolding byte_at
byte_at-lt [] i h = omega arith
byte_at-lt (c ∷ s) zero (hc, h) = hc
byte_at-lt (c ∷ s) (suc i) (hc, h) = byte_at-lt s i h

at-byte_at : (s : Bytes) (i : ℕ) → i < length s → at s i ≡ done (byte_at s i)
unfolding at byte_at
at-byte_at [] i h = absurd (omega arith)
at-byte_at (c ∷ s) zero h = refl
at-byte_at (c ∷ s) (suc i) h = at-byte_at s i (omega arith)

put_at-set : (s : Bytes) (i c : ℕ) → i < length s → put_at s i c ≡ done (set s i c)
unfolding put_at
put_at-set s i c h = ground arith

-- The buffer in which a bit was written.
unfoldable pub written : ℕ → Bool → Bytes → Bytes
written offset value buf =
    let i = byte_index offset in
    let grown = grow i buf in set grown i (write_bit (byte_at grown i) (mask offset) value)

byte_at-written :
    (o : ℕ) (v : Bool) (buf : Bytes) (j : ℕ)
    → byte_at (written o v buf) j ≡ (
        if byte_index o == j
        then write_bit (byte_at buf (byte_index o)) (mask o) v
        else byte_at buf j)
unfolding written
byte_at-written o v buf j =
    let i : ℕ = byte_index o in
    byte_at-set (grow i buf) i j (write_bit (byte_at (grow i buf) i) (mask o) v)
      (lt-length-grow i buf)
    ∙ rw (byte_at-grow i buf i, byte_at-grow i buf j)

-- Writing a bit of a buffer changes the bit at that offset and no other, whether the buffer grows or not.
bit_at-written :
    (o p : ℕ) (v : Bool) (buf : Bytes)
    → AreBytes buf
    → bit_at p (written o v buf) ≡ (if o == p then v else bit_at p buf)
bit_at-written o p v buf h =
    ap (λ b. has_bit b (mask p)) (byte_at-written o v buf (byte_index p))
    ∙ elim (Bool-cases (byte_index o == byte_index p)) [
      | inl e ↦
          let i : byte_index o ≡ byte_index p = (==_iff (byte_index o) (byte_index p)).0 e in
          rw (e, i)
            (has_bit-write_bit (byte_at buf (byte_index p)) (o % 8) (p % 8) v
                (byte_at-lt buf (byte_index p) h) (omega arith) (omega arith)
              ∙ ground arith)
      | inr e ↦ rw e (ground arith)
    ]

pub byte_at_past : (s : Bytes) (i : ℕ) → length s ≤ i → byte_at s i ≡ 0
unfolding byte_at
byte_at_past [] i h = refl
byte_at_past (c ∷ s) zero h = absurd (omega arith)
byte_at_past (c ∷ s) (suc i) h = byte_at_past s i (omega arith)

pub read_bit-bit_at : (p : ℕ) (buf : Bytes) → read_bit p buf ≡ done (bit_of (bit_at p buf))
unfolding read_bit
read_bit-bit_at p buf = elim (Bool-cases (leb (length buf) (byte_index p))) [
  | inl past ↦
      rw (past, byte_at_past buf (byte_index p) (ground arith), has_bit-zero (p % 8) (omega arith))
        refl
  | inr within ↦ rw (within, at-byte_at buf (byte_index p) (ground arith)) refl
]

-- The string that the bit commands work on, empty for a key that is missing or has expired.
abbrev pub text_of : Option Entry → Bytes
text_of none = []
text_of (some e) = e.value

abbrev pub bits_at : Bytes → ℕ → Store → Bytes
bits_at key now s = text_of (entry_for_bits key now s)

abbrev pub TakesBits : Option Entry → Type 0
TakesBits none = Unit
TakesBits (some e) = is_kind e.kind string ≡ true

old_bit :
    (o : ℕ) (buf : Bytes)
    → has_bit (byte_at (grow (byte_index o) buf) (byte_index o)) (mask o) ≡ bit_at o buf
old_bit o buf = ap (λ b. has_bit b (mask o)) (byte_at-grow (byte_index o) buf (byte_index o))

abbrev pub after_bit : Bytes → ℕ → Bool → Entry → Store → Store
after_bit key o v e s =
    put_entry (mark_watchers key s) key (record e { kind = string; value = written o v e.value })

-- The buffer is long enough by then: neither index is out of range.
pub store_bit-done :
    (key : Bytes) (o : ℕ) (v : Bool) (e : Entry) (s : Store)
    → store_bit key o v e s ≡ done (ok (bit_of (bit_at o e.value)), after_bit key o v e s)
unfolding store_bit written
store_bit-done key o v e s =
    let i : ℕ = byte_index o in
    let grown : Bytes = grow i e.value in
    let long : i < length grown = lt-length-grow i e.value in
    rw
      (
        at-byte_at grown i long,
        put_at-set grown i (write_bit (byte_at grown i) (mask o) v) long,
        old_bit o e.value,
      )
      refl

reads :
    (key : Bytes) (o p now : ℕ) (v : Bool) (e : Entry) (s : Store)
    → p ≤ max_bit_offset
    → expired now e ≡ false
    → get_bit key p now (after_bit key o v e s)
      ≡ (do n ← read_bit p (written o v e.value); done (ok n))
unfolding get_bit entry_for_bits mark_watchers
reads key o p now v e s fits fresh = ground (
  arith,
  get-put s.entries key key (record e { kind = string; value = written o v e.value }),
  bytes_eq_refl key,
)

-- what GETBIT reads of the entry that SETBIT stored
get_bit-after_bit :
    (key : Bytes) (o p now : ℕ) (v : Bool) (e : Entry) (s : Store)
    → p ≤ max_bit_offset
    → expired now e ≡ false
    → AreBytes e.value
    → get_bit key p now (after_bit key o v e s)
      ≡ done (ok (bit_of (if o == p then v else bit_at p e.value)))
get_bit-after_bit key o p now v e s fits fresh h =
    reads key o p now v e s fits fresh
    ∙ rw (read_bit-bit_at p (written o v e.value))
        (ap (λ b. done (ok (bit_of b))) (bit_at-written o p v e.value h))

set_bit-missing :
    (key : Bytes) (o now : ℕ) (v : Bool) (s : Store)
    → o ≤ max_bit_offset
    → entry_for_bits key now s ≡ none
    → set_bit key o (pos (bit_of v)) now s ≡ store_bit key o v zero_entry s
unfolding set_bit
set_bit-missing key o now true s fits h = unfold bit_of in ground arith
set_bit-missing key o now false s fits h = unfold bit_of in ground arith

set_bit-present :
    (key : Bytes) (o now : ℕ) (v : Bool) (s : Store) (e : Entry)
    → o ≤ max_bit_offset
    → entry_for_bits key now s ≡ some e
    → is_kind e.kind string ≡ true
    → set_bit key o (pos (bit_of v)) now s ≡ store_bit key o v e s
unfolding set_bit
set_bit-present key o now true s e fits h k = unfold bit_of in ground arith
set_bit-present key o now false s e fits h k = unfold bit_of in ground arith

fresh_entry :
    (key : Bytes) (now : ℕ) (s : Store) (e : Entry)
    → entry_for_bits key now s ≡ some e
    → expired now e ≡ false
unfolding entry_for_bits
fresh_entry key now s e h = ground arith

-- SETBIT of a string of bytes, or of a key that is missing or expired, does not panic: the reply is the
-- bit that stood at the offset, and then GETBIT reads the new bit there and at every other offset the bit
-- that stood there, up to the largest offset and whether or not the string grows.
pub get_bit-set_bit :
    (key : Bytes) (o p now : ℕ) (v : Bool) (s : Store)
    → o ≤ max_bit_offset
    → p ≤ max_bit_offset
    → TakesBits (entry_for_bits key now s)
    → AreBytes (bits_at key now s)
    → (s' : Store) × (set_bit key o (pos (bit_of v)) now s
        ≡ done (ok (bit_of (bit_at o (bits_at key now s))), s'))
      × (get_bit key p now s'
          ≡ done (ok (bit_of (if o == p then v else bit_at p (bits_at key now s)))))
get_bit-set_bit key o p now v s ho hp takes bytes = by_entry (entry_for_bits key now s) refl
  where
    by_entry :
        (found : Option Entry)
        → entry_for_bits key now s ≡ found
        → (s' : Store) × (set_bit key o (pos (bit_of v)) now s
            ≡ done (ok (bit_of (bit_at o (bits_at key now s))), s'))
          × (get_bit key p now s'
              ≡ done (ok (bit_of (if o == p then v else bit_at p (bits_at key now s)))))
    by_entry none h = rw h (
      after_bit key o v zero_entry s,
      set_bit-missing key o now v s ho h ∙ store_bit-done key o v zero_entry s,
      get_bit-after_bit key o p now v zero_entry s hp (unfold expired in refl) tt,
    )
    by_entry (some e) h = rw h (
      after_bit key o v e s,
      set_bit-present key o now v s e ho h (rw h at takes) ∙ store_bit-done key o v e s,
      get_bit-after_bit key o p now v e s hp (fresh_entry key now s e h) (rw h at bytes),
    )
