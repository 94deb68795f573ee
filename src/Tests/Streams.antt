-- ===== src/Tests/Streams.antt =====
-- Streams on concrete IDs.
use redis_go.Base.{ℕ, ◌≡◌, refl, [], ◌∷◌, some, true, Bytes, codes, bytes_eq, if◌then◌else◌}
use redis_go.Base.Dict.{get, put, remove}
use redis_go.Store.{
  Store, Entry, zero_entry, new_store, put_entry, done, ok, err, id_too_small, Stream, StreamId,
  stream,
}
use redis_go.Store.Streams.{
  xadd, less, parse_id, id_string, new_id, append_entry, empty_stream, read_after, filter_entries,
  cut_dash,
}
use redis_go.Decimal.{format, parse_uint}
use redis_go.Store.Streams.Order.{StreamsOrdered, IsOrdered, xadd-StreamsOrdered}
use redis_go.Store.Streams.Reading.{select, is_within, filter_entries-select, xadd-read_after}

abbrev pub key : Bytes
key = codes "s"

abbrev pub at : ℕ → ℕ → StreamId
at ms seq = record { ms = ms; seq = seq }

abbrev pub two_entries : Stream
two_entries = record {
  entries =
      (record { id = at 1 1; fields = [] })
      ∷ (record { id = at 1 2; fields = codes "f" ∷ [] })
      ∷ [];
  last_id = at 1 2;
}

pub two_entries-IsOrdered : IsOrdered two_entries
unfolding less
two_entries-IsOrdered = record { ordered = ((refl, tt), (tt, tt)); last = (refl, (refl, tt)) }

abbrev pub entry_of : Stream → Entry
entry_of st = record zero_entry { kind = stream; stream = some st }

abbrev pub holding : Store
holding = put_entry new_store key (entry_of two_entries)

abbrev pub added : Store
added = append_entry key (entry_of two_entries) two_entries (at 5 0) [] holding

pub xadd_runs : xadd key (codes "5-*") [] 0 holding ≡ done (ok (codes "5-0"), added)
unfolding xadd new_id cut_dash parse_uint id_string format get put remove bytes_eq
xadd_runs = refl

too_small : xadd key (codes "1-2") [] 0 holding ≡ done (err id_too_small, holding)
unfolding xadd new_id parse_id parse_uint get put remove bytes_eq
too_small = refl

new_store-StreamsOrdered : StreamsOrdered new_store
unfolding get
new_store-StreamsOrdered = record { at_key = λ k e st here has. absurd (cc) }

first_added : (s' : Store) × (xadd key (codes "1-1") [] 0 new_store ≡ done (ok (codes "1-1"), s'))
unfolding xadd new_id parse_id parse_uint id_string format get put remove bytes_eq
first_added = (
  append_entry key (record zero_entry { kind = stream; stream = some empty_stream }) empty_stream
      (at 1 1) [] new_store,
  refl,
)

xadd-StreamsOrdered_example : StreamsOrdered first_added.0
xadd-StreamsOrdered_example =
    xadd-StreamsOrdered key (codes "1-1") [] 0 new_store (ok (codes "1-1")) first_added.0
      new_store-StreamsOrdered first_added.1

filter_entries-select_example :
    filter_entries (at 1 2) (at 9 0) two_entries
    ≡ select (is_within (at 1 2) (at 9 0)) two_entries.entries
filter_entries-select_example =
    filter_entries-select (at 1 2) (at 9 0) two_entries two_entries-IsOrdered

xadd-read_after_example :
    (id : StreamId) × (codes "5-0" ≡ id_string id)
    × (less two_entries.last_id id ≡ true)
    × (read_after key two_entries.last_id added ≡ done ((record { id = id; fields = [] }) ∷ []))
    × ((j : Bytes)
        → get added.entries j
          ≡ (if bytes_eq key j then get added.entries key else get holding.entries j))
xadd-read_after_example =
    xadd-read_after key (codes "5-*") [] 0 holding (entry_of two_entries) two_entries (codes "5-0")
      added (unfold get put remove bytes_eq in refl) refl refl two_entries-IsOrdered xadd_runs
