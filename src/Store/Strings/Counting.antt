-- ===== src/Store/Strings/Counting.antt =====
-- INCR counts.
use native.Mathlib.Nat.{add-zero}
use redis_go.Base.{
  ℕ, zero, suc, ◌+◌, ◌^◌, ◌<◌, ◌≡◌, refl, ◌∙◌, none, some, arith, if◌then◌else◌, Bytes, bytes_eq,
  bytes_eq_refl,
}
use redis_go.Base.Int.{ℤ, pos}
use redis_go.Decimal.{format, format_int, parse_int}
use redis_go.Decimal.RoundTrip.{parse_int-format_int}
use redis_go.Base.Dict.{get, get-put}
use redis_go.Store.{Store, Entry, zero_entry, string, ok}
use redis_go.Store.Strings.{get_value, increment, increment_int64}

-- INCR of a string that is the number `v`: the reply is the next int64 (the number after 2^63 - 1 is
-- -2^63), the key's text is that number and the rest of its entry stays, and no other key changes.
pub increment_number :
    (s : Store) (key j : Bytes) (e : Entry) (v : ℤ)
    → get s.entries key ≡ some e
    → e.kind ≡ string
    → parse_int e.value ≡ some v
    → ((increment key s).0 ≡ ok (increment_int64 v))
      × (get (increment key s).1.entries j ≡ (
          if bytes_eq key j
          then some (record e { value = format_int (increment_int64 v) })
          else get s.entries j))
unfolding increment
increment_number s key j e v here text number = ground (
  arith,
  get-put s.entries key j (record e { kind = string; value = format_int (increment_int64 v) }),
)

pub increments : ℕ → Bytes → Store → Store
increments zero key s = s
increments (suc n) key s = increments n key (increment key s).1

-- The key holds the number `m` for ever.
abbrev Counts : Store → Bytes → ℕ → Type 0
Counts s key m = get s.entries key ≡ some (record zero_entry { kind = string; value = format m })

Counts-increment :
    (s : Store) (key : Bytes) (m : ℕ)
    → suc m < 2 ^ 63
    → Counts s key m
    → Counts (increment key s).1 key (suc m)
unfolding increment_int64 format_int
Counts-increment s key m fits h =
    (increment_number s key key (record zero_entry { kind = string; value = format m }) (pos m) h
      refl (parse_int-format_int (pos m) (omega arith))).1
    ∙ ground (arith, bytes_eq_refl key)

Counts-increments :
    (n : ℕ) (s : Store) (key : Bytes) (m : ℕ)
    → m + n < 2 ^ 63
    → Counts s key m
    → Counts (increments n key s) key (m + n)
unfolding increments
Counts-increments zero s key m fits h = rw add-zero h
Counts-increments (suc n) s key m fits h =
    let e : m + suc n ≡ suc m + n = omega arith in
    rw e (
      Counts-increments n (increment key s).1 key (suc m) (omega arith)
        (Counts-increment s key m (omega arith) h))

Counts-initially :
    (s : Store) (key : Bytes) → get s.entries key ≡ none → Counts (increment key s).1 key 1
unfolding increment format_int
Counts-initially s key h = ground (
  arith,
  bytes_eq_refl key,
  get-put s.entries key key (record zero_entry { kind = string; value = format 1 }),
)

-- After `n + 1` INCRs of a key that was missing, GET returns the text of `n + 1`, while that is below
-- 2^63.
pub get_value-increments :
    (s : Store) (key : Bytes) (n now : ℕ)
    → get s.entries key ≡ none
    → 1 + n < 2 ^ 63
    → get_value key now (increments (suc n) key s) ≡ some (format (1 + n))
unfolding get_value increments
get_value-increments s key n now missing fits =
    ground
      (arith, Counts-increments n (increment key s).1 key 1 fits (Counts-initially s key missing))
