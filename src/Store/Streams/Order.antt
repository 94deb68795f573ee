-- ===== src/Store/Streams/Order.antt =====
-- The entries of a stream stand in the order of their IDs, and a range of IDs is read exactly.
use redis_go.Base.{
  ℕ, ◌≡◌, ◌∙◌, sym, true, false, List, [], ◌∷◌, ◌++◌, Option, none, some, arith, Bytes, bytes_eq,
  All, All-append, Bool-cases, Option-cases, inl, inr,
}
use redis_go.Base.Dict.{get, get-put}
use redis_go.Store.{
  Store, Entry, Stream, StreamId, StreamEntry, Result, Outcome, done, panic, blocked, stream,
  zero_entry, is_kind,
}
use redis_go.Store.Streams.{
  less, is_valid_stream_id, append_entry, add_checked, add_to_entry, xadd, empty_stream, new_id,
  is_zero_id,
}
use redis_go.Store.Streams.Ids.{is_valid_stream_id-less, le_less_trans, less_irrefl, less_asymm}

abbrev pub Above : StreamId → StreamEntry → Type 0
Above id y = less id y.id ≡ true

abbrev pub AtMost : StreamId → StreamEntry → Type 0
AtMost id y = less id y.id ≡ false

-- Each entry has a smaller ID than all that follow it.
abbrev pub Ordered : List StreamEntry → Type 0
Ordered [] = Unit
Ordered (x ∷ xs) = All (Above x.id) xs × Ordered xs

pub record IsOrdered (st : Stream) : Type 0 where
  pub ordered : Ordered st.entries
  pub last : All (AtMost st.last_id) st.entries

AtMost-less :
    (last id : StreamId) (xs : List StreamEntry)
    → less last id ≡ true
    → All (AtMost last) xs
    → All (AtMost id) xs
AtMost-less last id [] lt h = tt
AtMost-less last id (x ∷ xs) lt (hx, h) =
    (less_asymm x.id id (le_less_trans x.id last id hx lt), AtMost-less last id xs lt h)

Above-append :
    (x : StreamEntry) (xs : List StreamEntry) (new : StreamEntry)
    → All (Above x.id) xs
    → less x.id new.id ≡ true
    → All (Above x.id) (xs ++ new ∷ [])
Above-append x xs new h lt = All-append (Above x.id) xs (new ∷ []) h (lt, tt)

Ordered-append :
    (last : StreamId) (xs : List StreamEntry) (new : StreamEntry)
    → less last new.id ≡ true
    → All (AtMost last) xs
    → Ordered xs
    → Ordered (xs ++ new ∷ [])
Ordered-append last [] new lt h o = (tt, tt)
Ordered-append last (x ∷ xs) new lt (hx, h) (above, o) = (
  Above-append x xs new above (le_less_trans x.id last new.id hx lt),
  Ordered-append last xs new lt h o,
)

abbrev pub extended : Stream → StreamId → List Bytes → Stream
extended st id fields = record {
  entries = st.entries ++ (record { id = id; fields = fields }) ∷ [];
  last_id = id;
}

IsOrdered-extended :
    (st : Stream) (id : StreamId) (fields : List Bytes)
    → less st.last_id id ≡ true
    → IsOrdered st
    → IsOrdered (extended st id fields)
IsOrdered-extended st id fields lt h = record {
  ordered =
      Ordered-append st.last_id st.entries (record { id = id; fields = fields }) lt h.last
        h.ordered;
  last =
      All-append (AtMost id) st.entries _ (AtMost-less st.last_id id st.entries lt h.last)
        (less_irrefl id, tt);
}

-- Every stream of the store is in order.
pub record StreamsOrdered (s : Store) : Type 0 where
  pub at_key :
      (k : Bytes) (e : Entry) (st : Stream)
      → get s.entries k ≡ some e
      → e.stream ≡ some st
      → IsOrdered st

append_entry-StreamsOrdered :
    (key : Bytes) (e : Entry) (st : Stream) (id : StreamId) (fields : List Bytes) (s : Store)
    → less st.last_id id ≡ true
    → IsOrdered st
    → StreamsOrdered s
    → StreamsOrdered (append_entry key e st id fields s)
unfolding append_entry
append_entry-StreamsOrdered key e st id fields s lt h all = record {
  at_key = λ k x xst here has. elim (Bool-cases (bytes_eq key k)) [
    | inl same ↦
        let e' : xst ≡ extended st id fields =
          ground
            (arith, get-put s.entries key k (record e { stream = some (extended st id fields) })) in
        rw e' (IsOrdered-extended st id fields lt h)
    | inr other ↦
        all.at_key k x xst
          (ground
            (arith, get-put s.entries key k (record e { stream = some (extended st id fields) })))
          has
  ];
}

add_checked-StreamsOrdered :
    (key : Bytes) (e : Entry) (st : Stream) (id : Option StreamId) (fields : List Bytes) (s : Store)
    → IsOrdered st
    → StreamsOrdered s
    → StreamsOrdered (add_checked key e st id fields s).1
unfolding add_checked
add_checked-StreamsOrdered key e st none fields s h all = all
add_checked-StreamsOrdered key e st (some id) fields s h all = elim (Bool-cases (is_zero_id id)) [
  | inl z ↦ rw z all
  | inr z ↦ elim (Bool-cases (is_valid_stream_id st.last_id id)) [
    | inl valid ↦
        rw (z, valid)
          (append_entry-StreamsOrdered key e st id fields s
            (sym (is_valid_stream_id-less st.last_id id) ∙ valid) h all)
    | inr small ↦ rw (z, small) all
  ]
]

-- The store that a call leaves, where it returns.
abbrev Leaves : {A : Type 0} → (Store → Type 0) → Outcome (A × Store) → Type 0
Leaves P (done (r, s)) = P s
Leaves P panic = Unit
Leaves P blocked = Unit

add_to_entry-StreamsOrdered :
    (key raw : Bytes) (fields : List Bytes) (now : ℕ) (e : Entry) (s : Store)
    → ((st : Stream) → e.stream ≡ some st → IsOrdered st)
    → StreamsOrdered s
    → Leaves StreamsOrdered (add_to_entry key raw fields now e s)
unfolding add_to_entry
add_to_entry-StreamsOrdered key raw fields now e s h all = elim (Option-cases e.stream) [
  | inl nil ↦ rw (nil, add_to_entry) tt
  | inr (st, here) ↦
      rw (here, add_to_entry)
        (add_checked-StreamsOrdered key e st (new_id now st.last_id raw) fields s (h st here) all)
]

IsOrdered-empty : (st : Stream) → some empty_stream ≡ some st → IsOrdered st
IsOrdered-empty st e =
    let e' : empty_stream ≡ st = cc in rw (← e') (record { ordered = tt; last = tt })

xadd-Leaves :
    (key raw : Bytes) (fields : List Bytes) (now : ℕ) (s : Store)
    → StreamsOrdered s
    → Leaves StreamsOrdered (xadd key raw fields now s)
unfolding xadd
xadd-Leaves key raw fields now s all = elim (Option-cases (get s.entries key)) [
  | inl missing ↦
      rw (missing, xadd)
        (add_to_entry-StreamsOrdered key raw fields now
          (record zero_entry { kind = stream; stream = some empty_stream }) s IsOrdered-empty all)
  | inr (e, here) ↦ elim (Bool-cases (is_kind e.kind stream)) [
    | inl is ↦
        rw (here, xadd, is)
          (add_to_entry-StreamsOrdered key raw fields now e s
            (λ st has. all.at_key key e st here has) all)
    | inr other ↦ rw (here, xadd, other) all
  ]
]

-- XADD keeps every stream in order, whatever ID is asked for and whatever the clock says: the IDs of
-- the entries rise, and none is above the stream's last ID.
pub xadd-StreamsOrdered :
    (key raw : Bytes) (fields : List Bytes) (now : ℕ) (s : Store) (r : Result Bytes) (s' : Store)
    → StreamsOrdered s
    → xadd key raw fields now s ≡ done (r, s')
    → StreamsOrdered s'
xadd-StreamsOrdered key raw fields now s r s' all run =
    rw run at (xadd-Leaves key raw fields now s all)
