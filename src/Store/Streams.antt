-- ===== src/Store/Streams.antt =====
-- `XAdd`, `XRange`, `XRead` and `XReadBlock` of app/store.go, with the stream IDs.
pub mod Ids
pub mod Order
pub mod Reading
pub mod Block
pub mod Waking
pub mod Bounds
use redis_go.Base.{
  ℕ, zero, suc, ◌+◌, ◌-◌, ◌*◌, ◌/◌, ◌%◌, ◌^◌, Bool, true, false, not, ◌&&◌, ◌||◌, List, [], ◌∷◌,
  ◌++◌, Option, none, some, ltb, leb, ◌==◌, if◌then◌else◌, Bytes, codes, bytes_eq, length,
}
use redis_go.Base.Dict.{Dict, get}
use redis_go.Decimal.{format, parse_uint, max_u64}
use redis_go.Store.{
  Store, Entry, zero_entry, Kind, stream, Stream, StreamId, StreamEntry, Error, invalid_id, id_zero,
  id_too_small, wrong_type, Result, ok, err, Outcome, done, panic, ◌>>=◌, is_kind, put_entry,
}

unfoldable pub less : StreamId → StreamId → Bool
less a b = if not (a.ms == b.ms) then ltb a.ms b.ms else ltb a.seq b.seq

unfoldable pub is_valid_stream_id : StreamId → StreamId → Bool
is_valid_stream_id last new =
    if ltb new.ms last.ms
    then false
    else if new.ms == last.ms
    then not (leb new.seq last.seq)
    else true

-- `StreamID.String`
unfoldable pub id_string : StreamId → Bytes
id_string id = format id.ms ++ (b'-' ∷ format id.seq)

-- `strings.Cut(s, "-")`
unfoldable pub cut_dash : Bytes → Option (Bytes × Bytes)
cut_dash [] = none
cut_dash (c ∷ s) =
    let rest = cut_dash s in
    if c == b'-' then some ([], s) else elim rest [ none ↦ none | some (a, b) ↦ some (c ∷ a, b) ]

abbrev pub make_id : Option ℕ → Option ℕ → Option StreamId
make_id (some ms) (some seq) = some (record { ms = ms; seq = seq })
make_id _ _ = none

-- `parseID`; its one error is `ErrInvalidID`.
unfoldable pub parse_id : Bytes → Option StreamId
unfolding cut_dash
parse_id s = elim (cut_dash s) [
  | none ↦ none
  | some (ms, seq) ↦ make_id (parse_uint ms) (parse_uint seq)
]

-- `last.Seq + 1` on a uint64.
unfoldable pub next_seq : ℕ → StreamId → ℕ
next_seq ms last = if ms == last.ms then (last.seq + 1) % 2 ^ 64 else if ms == 0 then 1 else 0

-- `strings.HasSuffix(rawID, "-*")`
unfoldable pub has_suffix_dash_star : Bytes → Bool
has_suffix_dash_star [] = false
has_suffix_dash_star (c ∷ s) = bytes_eq (c ∷ s) (codes "-*") || has_suffix_dash_star s

unfoldable pub auto_seq : StreamId → Option ℕ → Option StreamId
auto_seq last none = none
auto_seq last (some ms) = some (record { ms = ms; seq = next_seq ms last })

-- The part of `raw` before its dash, or the whole.
abbrev pub before_dash : Bytes → Bytes
before_dash raw = elim (cut_dash raw) [ none ↦ raw | some (a, b) ↦ a ]

-- The ID that `XADD` asks for, at the wall clock `now_ms`; `none` is `ErrInvalidID`.
unfoldable pub new_id : ℕ → StreamId → Bytes → Option StreamId
unfolding has_suffix_dash_star auto_seq next_seq
new_id now_ms last raw =
    if bytes_eq raw (codes "*")
    then auto_seq last (some (if ltb now_ms last.ms then last.ms else now_ms))
    else if has_suffix_dash_star raw
    then auto_seq last (parse_uint (before_dash raw))
    else parse_id raw

abbrev pub is_zero_id : StreamId → Bool
is_zero_id id = id.ms == 0 && id.seq == 0

-- The entry is appended, and whoever waits in `XReadBlock` is woken.
unfoldable pub append_entry : Bytes → Entry → Stream → StreamId → List Bytes → Store → Store
append_entry key e st id fields s = record s {
  entries =
      (put_entry s key (record e {
        stream = some (record {
          entries = st.entries ++ (record { id = id; fields = fields }) ∷ [];
          last_id = id;
        });
      })).entries;
  notify = s.notify + 1;
}

unfoldable pub add_checked :
    Bytes → Entry → Stream → Option StreamId → List Bytes → Store → Result Bytes × Store
unfolding is_valid_stream_id append_entry
add_checked key e st none fields s = (err invalid_id, s)
add_checked key e st (some id) fields s =
    if is_zero_id id
    then (err id_zero, s)
    else if not (is_valid_stream_id st.last_id id)
    then (err id_too_small, s)
    else (ok (id_string id), append_entry key e st id fields s)

abbrev pub empty_stream : Stream
empty_stream = record { entries = []; last_id = record { ms = 0; seq = 0 } }

-- A nil `stream` pointer is a panic.
unfoldable pub add_to_entry :
    Bytes → Bytes → List Bytes → ℕ → Entry → Store → Outcome (Result Bytes × Store)
unfolding add_checked
add_to_entry key raw fields now_ms e s = elim e.stream [
  | none ↦ panic
  | some st ↦ done (add_checked key e st (new_id now_ms st.last_id raw) fields s)
]

unfoldable pub xadd : Bytes → Bytes → List Bytes → ℕ → Store → Outcome (Result Bytes × Store)
unfolding add_to_entry
xadd key raw fields now_ms s = elim (get s.entries key) [
  | none ↦
      add_to_entry key raw fields now_ms
        (record zero_entry { kind = stream; stream = some empty_stream }) s
  | some e ↦
      if not (is_kind e.kind stream)
      then done (err wrong_type, s)
      else add_to_entry key raw fields now_ms e s
]

-- The two loops of `Filter`: the entries before `start` are passed over, and those up to `stop` taken.
unfoldable pub take_until : StreamId → List StreamEntry → List StreamEntry
take_until stop [] = []
take_until stop (x ∷ xs) = let rest = take_until stop xs in if less stop x.id then [] else x ∷ rest

unfoldable pub skip_before : StreamId → List StreamEntry → List StreamEntry
skip_before start [] = []
skip_before start (x ∷ xs) =
    let rest = skip_before start xs in if less x.id start then rest else x ∷ xs

unfoldable pub filter_entries : StreamId → StreamId → Stream → List StreamEntry
filter_entries start stop st = take_until stop (skip_before start st.entries)

abbrev pub start_id : Bytes → Option StreamId
start_id raw = if bytes_eq raw (codes "-") then some (record { ms = 0; seq = 0 }) else parse_id raw

abbrev pub end_id : Bytes → Option StreamId
end_id raw =
    if bytes_eq raw (codes "+") then some (record { ms = max_u64; seq = max_u64 }) else parse_id raw

unfoldable pub range_of_entry :
    StreamId → StreamId → Option Entry → Outcome (Result (List StreamEntry))
range_of_entry start stop none = done (ok [])
range_of_entry start stop (some e) =
    if not (is_kind e.kind stream)
    then done (err wrong_type)
    else elim e.stream [ none ↦ panic | some st ↦ done (ok (filter_entries start stop st)) ]

unfoldable pub xrange : Bytes → Bytes → Bytes → Store → Outcome (Result (List StreamEntry))
unfolding range_of_entry
xrange key start stop s = elim (start_id start) [
  | none ↦ done (err invalid_id)
  | some a ↦ elim (end_id stop) [
    | none ↦ done (err invalid_id)
    | some b ↦ range_of_entry a b (get s.entries key)
  ]
]

-- The loop of `readAfterLocked`.
unfoldable pub entries_after : StreamId → List StreamEntry → List StreamEntry
entries_after after [] = []
entries_after after (x ∷ xs) =
    let rest = entries_after after xs in if not (less after x.id) then rest else x ∷ xs

unfoldable pub read_after : Bytes → StreamId → Store → Outcome (List StreamEntry)
unfolding entries_after
read_after key after s = elim (get s.entries key) [
  | none ↦ done []
  | some e ↦
      if not (is_kind e.kind stream)
      then done []
      else elim e.stream [ none ↦ panic | some st ↦ done (entries_after after st.entries) ]
]

pub record StreamResult : Type 0 where
  pub key : Bytes
  pub entries : List StreamEntry

-- `$` is the last ID of the stream; a key with no stream leaves the zero ID.
unfoldable pub last_id_of : Option Entry → Outcome StreamId
last_id_of none = done (record { ms = 0; seq = 0 })
last_id_of (some e) =
    if not (is_kind e.kind stream)
    then done (record { ms = 0; seq = 0 })
    else elim e.stream [ none ↦ panic | some st ↦ done st.last_id ]

-- The ID behind which a key is read. An ID that does not parse makes `XRead` unlock the mutex, which is
-- only locked for reading: the runtime ends the process.
unfoldable pub after_id : Bytes → Bytes → Store → Outcome StreamId
unfolding last_id_of
after_id key raw s =
    if bytes_eq raw (codes "$")
    then last_id_of (get s.entries key)
    else elim (parse_id raw) [ none ↦ panic | some id ↦ done id ]

unfoldable pub after_ids : List (Bytes × Bytes) → Store → Outcome (List (Bytes × StreamId))
after_ids [] s = done []
after_ids ((key, raw) ∷ asked) s = do
  id ← after_id key raw s
  ids ← after_ids asked s
  done ((key, id) ∷ ids)

-- The second loop of `XRead`, which is also one round of `XReadBlock`: the keys with no entry are left
-- out.
unfoldable pub collect_after : List (Bytes × StreamId) → Store → Outcome (List StreamResult)
collect_after [] s = done []
collect_after ((key, after) ∷ asked) s = do
  found ← read_after key after s
  results ← collect_after asked s
  done (elim found [ [] ↦ results | x ∷ xs ↦ (record { key = key; entries = x ∷ xs }) ∷ results ])

-- `XRead` on the keys, each with its ID.
unfoldable pub xread : List (Bytes × Bytes) → Store → Outcome (List StreamResult)
xread asked s = do ids ← after_ids asked s; collect_after ids s
