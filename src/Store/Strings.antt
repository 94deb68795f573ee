-- ===== src/Store/Strings.antt =====
-- `Set`, `Get`, `EntryType`, `Strlen`, `Increment` and `Keys` of app/store.go.
pub mod Laws
pub mod Counting
use redis_go.Base.{
  ℕ, zero, suc, ◌+◌, ◌-◌, ◌^◌, Bool, true, false, not, List, [], ◌∷◌, map, Option, none, some, ltb,
  ◌==◌, if◌then◌else◌, Bytes, length,
}
use redis_go.Base.Int.{ℤ, pos, negsuc}
use redis_go.Base.Dict.{Dict, get}
use redis_go.Decimal.{format_int, parse_int}
use redis_go.Store.{
  Store, Entry, zero_entry, Kind, string, Result, ok, err, wrong_type, not_integer, is_kind,
  expired, put_entry, mark_watchers,
}

unfoldable pub set : Bytes → Bytes → ℕ → Store → Store
unfolding mark_watchers
set key value expires_at s =
    put_entry (mark_watchers key s) key
      (record zero_entry { kind = string; value = value; expires_at = expires_at })

-- `Get` at the time `now`; `none` is `("", false)`.
unfoldable pub get_value : Bytes → ℕ → Store → Option Bytes
unfolding expired
get_value key now s = elim (get s.entries key) [
  | none ↦ none
  | some e ↦ if expired now e then none else some e.value
]

unfoldable pub entry_type : Bytes → Store → Option Kind
entry_type key s = elim (get s.entries key) [ none ↦ none | some e ↦ some e.kind ]

unfoldable pub strlen : Bytes → ℕ → Store → Result ℕ
unfolding expired
strlen key now s = elim (get s.entries key) [
  | none ↦ ok 0
  | some e ↦
      if expired now e
      then ok 0
      else if not (is_kind e.kind string)
      then err wrong_type
      else ok (length e.value)
]

-- `v++` on an int64.
unfoldable pub increment_int64 : ℤ → ℤ
increment_int64 (pos n) = if suc n == 2 ^ 63 then negsuc (2 ^ 63 - 1) else pos (suc n)
increment_int64 (negsuc zero) = pos 0
increment_int64 (negsuc (suc n)) = negsuc n

unfoldable pub store_count : Bytes → Entry → ℤ → Store → Result ℤ × Store
unfolding mark_watchers
store_count key e v s =
    (ok v, mark_watchers key (put_entry s key (record e { kind = string; value = format_int v })))

unfoldable pub increment : Bytes → Store → Result ℤ × Store
unfolding increment_int64 store_count
increment key s = elim (get s.entries key) [
  | none ↦ store_count key zero_entry (increment_int64 (pos 0)) s
  | some e ↦ if not (is_kind e.kind string) then (err wrong_type, s) else elim (parse_int e.value) [
    | none ↦ (err not_integer, s)
    | some v ↦ store_count key e (increment_int64 v) s
  ]
]

-- The pattern is not read: every key is listed.
unfoldable pub keys : Bytes → Store → List Bytes
keys pattern s = map (λ p. p.0) s.entries
