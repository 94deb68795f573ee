-- ===== src/Store/Expiry/Laws.antt =====
-- What the sweeper leaves, and that GET does not see it.
use redis_go.Base.{
  ℕ, ◌≡◌, refl, ◌∙◌, ◌≤◌, List, All, Bool, false, ◌||◌, [], ◌∷◌, Option, some, none, arith,
  if◌then◌else◌, Bytes, bytes_eq, bytes_eq_iff, bytes_eq_refl, Bool-cases, inl, inr,
}
use mathlib.Core.Path.{subst}
use redis_go.Base.Dict.{Dict, get, get-remove}
use redis_go.Store.{Store, Entry, expired}
use redis_go.Store.Strings.{get_value}
use redis_go.Store.Expiry.{evict_one, evict_loop, evict_expired, Wake, ticked, cancelled, sweep}

-- An entry that has not expired.
abbrev pub live : ℕ → Option Entry → Option Entry
live now none = none
live now (some e) = if expired now e then none else some e

abbrev has_key : Dict Entry → Bytes → Bool
has_key [] j = false
has_key ((k, e) ∷ rest) j = bytes_eq k j || has_key rest j

live-live : (now : ℕ) (o : Option Entry) → live now (live now o) ≡ live now o
live-live now none = refl
live-live now (some e) = ground arith

evict_one_same :
    (now : ℕ) (k : Bytes) (s : Store)
    → get (evict_one now k s).entries k ≡ live now (get s.entries k)
unfolding evict_one
evict_one_same now k s = ground (arith, get-remove s.entries k k, bytes_eq_refl k)

evict_one_elsewhere :
    (now : ℕ) (k j : Bytes) (s : Store)
    → bytes_eq k j ≡ false
    → get (evict_one now k s).entries j ≡ get s.entries j
unfolding evict_one
evict_one_elsewhere now k j s h = ground (arith, get-remove s.entries k j)

evict_one-live :
    (now : ℕ) (k j : Bytes) (s : Store)
    → get (evict_one now k s).entries j
      ≡ (if bytes_eq k j then live now (get s.entries j) else get s.entries j)
evict_one-live now k j s = elim (Bool-cases (bytes_eq k j)) [
  | inl same ↦ rw same (
      subst (λ i. get (evict_one now k s).entries i ≡ live now (get s.entries i))
        ((bytes_eq_iff k j).0 same) (evict_one_same now k s))
  | inr apart ↦ rw apart (evict_one_elsewhere now k j s apart)
]

evict_loop-live :
    (now : ℕ) (keys : Dict Entry) (j : Bytes) (s : Store)
    → get (evict_loop now keys s).entries j
      ≡ (if has_key keys j then live now (get s.entries j) else get s.entries j)
unfolding evict_loop
evict_loop-live now [] j s = refl
evict_loop-live now ((k, e) ∷ rest) j s = ground (
  arith,
  evict_loop-live now rest j (evict_one now k s),
  evict_one-live now k j s,
  live-live now (get s.entries j),
)

get-no_key : (m : Dict Entry) (j : Bytes) → has_key m j ≡ false → get m j ≡ none
unfolding get
get-no_key [] j h = refl
get-no_key ((k, e) ∷ rest) j h = ground (arith, get-no_key rest j)

-- After the sweeper ran, every key has the entry that it had, if that had not expired, and none
-- otherwise.
pub get-evict_expired :
    (now : ℕ) (j : Bytes) (s : Store)
    → get (evict_expired now s).entries j ≡ live now (get s.entries j)
unfolding evict_expired
get-evict_expired now j s =
    ground (arith, evict_loop-live now s.entries j s, get-no_key s.entries j)

get_value-evict_expired :
    (now later : ℕ) (j : Bytes) (s : Store)
    → now ≤ later
    → get_value j later (evict_expired now s) ≡ get_value j later s
unfolding get_value
get_value-evict_expired now later j s le = ground (arith, get-evict_expired now j s)

-- The sweeper reads no instant behind this one.
abbrev pub IsBefore : ℕ → Wake → Type 0
IsBefore later (ticked now) = now ≤ later
IsBefore later cancelled = Unit

-- The sweeper is not seen by GET: whatever ticks it met, and wherever it was cancelled, at any time from
-- its last run on, GET returns of every key what it would have returned had the sweeper never run.
pub get_value-sweep :
    (later : ℕ) (wakes : List Wake) (j : Bytes) (s : Store)
    → All (IsBefore later) wakes
    → get_value j later (sweep wakes s) ≡ get_value j later s
unfolding sweep
get_value-sweep later [] j s h = refl
get_value-sweep later (ticked now ∷ rest) j s (le, h) =
    get_value-sweep later rest j (evict_expired now s) h ∙ get_value-evict_expired now later j s le
get_value-sweep later (cancelled ∷ rest) j s h = refl
