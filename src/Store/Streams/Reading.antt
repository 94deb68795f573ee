-- ===== src/Store/Streams/Reading.antt =====
-- XRANGE and XREAD read exactly the entries that their IDs name.
use redis_go.Base.{
  ℕ, ◌≡◌, refl, ap, ◌∙◌, sym, Bool, true, false, not, ◌&&◌, List, [], ◌∷◌, ◌++◌, Option, none, some,
  arith, if◌then◌else◌, Bytes, bytes_eq, bytes_eq_iff, bytes_eq_refl, All, Bool-cases, inl, inr,
}
use redis_go.Base.Dict.{get, get-put}
use redis_go.Store.{Store, Entry, Stream, StreamId, StreamEntry, Result, ok, done, stream, is_kind}
use redis_go.Store.Streams.{
  less, take_until, skip_before, filter_entries, entries_after, append_entry, add_checked,
  add_to_entry, xadd, new_id, id_string, read_after,
}
use redis_go.Store.Streams.Ids.{is_valid_stream_id-less, less_trans, le_less_trans, less_asymm}
use redis_go.Store.Streams.Order.{Ordered, IsOrdered, Above, AtMost, extended}

-- The entries that a test picks, in their order.
pub select : (StreamEntry → Bool) → List StreamEntry → List StreamEntry
select p [] = []
select p (x ∷ xs) = let rest = select p xs in if p x then x ∷ rest else rest

select_every :
    (p : StreamEntry → Bool) (xs : List StreamEntry) → All (λ x. p x ≡ true) xs → select p xs ≡ xs
unfolding select
select_every p [] h = refl
select_every p (x ∷ xs) (hx, h) = ground (arith, select_every p xs h)

select_none :
    (p : StreamEntry → Bool) (xs : List StreamEntry) → All (λ x. p x ≡ false) xs → select p xs ≡ []
unfolding select
select_none p [] h = refl
select_none p (x ∷ xs) (hx, h) = ground (arith, select_none p xs h)

abbrev pub is_after : StreamId → StreamEntry → Bool
is_after id x = less id x.id

abbrev pub is_within : StreamId → StreamId → StreamEntry → Bool
is_within start stop x = not (less x.id start) && not (less stop x.id)

Above-after :
    (after id : StreamId) (xs : List StreamEntry)
    → less after id ≡ true
    → All (Above id) xs
    → All (λ x. is_after after x ≡ true) xs
Above-after after id [] lt h = tt
Above-after after id (x ∷ xs) lt (hx, h) =
    (less_trans after id x.id lt hx, Above-after after id xs lt h)

entries_after-select :
    (after : StreamId) (xs : List StreamEntry)
    → Ordered xs
    → entries_after after xs ≡ select (is_after after) xs
unfolding entries_after select
entries_after-select after [] o = refl
entries_after-select after (x ∷ xs) (above, o) = elim (Bool-cases (less after x.id)) [
  | inl lt ↦ rw (lt, select_every (is_after after) xs (Above-after after x.id xs lt above))
  | inr le ↦ rw le (entries_after-select after xs o)
]

Above-outside :
    (start stop id : StreamId) (xs : List StreamEntry)
    → less stop id ≡ true
    → All (Above id) xs
    → All (λ x. is_within start stop x ≡ false) xs
Above-outside start stop id [] lt h = tt
Above-outside start stop id (x ∷ xs) lt (hx, h) =
    (ground (arith, less_trans stop id x.id lt hx), Above-outside start stop id xs lt h)

take_until-select :
    (start stop : StreamId) (xs : List StreamEntry)
    → All (λ x. less x.id start ≡ false) xs
    → Ordered xs
    → take_until stop xs ≡ select (is_within start stop) xs
unfolding take_until select
take_until-select start stop [] h o = refl
take_until-select start stop (x ∷ xs) (hx, h) (above, o) = elim (Bool-cases (less stop x.id)) [
  | inl past ↦
      ground
        (arith, select_none (is_within start stop) xs (Above-outside start stop x.id xs past above))
  | inr within ↦ ground (arith, take_until-select start stop xs h o)
]

Above-not_before :
    (start id : StreamId) (xs : List StreamEntry)
    → less id start ≡ false
    → All (Above id) xs
    → All (λ x. less x.id start ≡ false) xs
Above-not_before start id [] h a = tt
Above-not_before start id (x ∷ xs) h (ax, a) =
    (less_asymm start x.id (le_less_trans start id x.id h ax), Above-not_before start id xs h a)

filter-select :
    (start stop : StreamId) (xs : List StreamEntry)
    → Ordered xs
    → take_until stop (skip_before start xs) ≡ select (is_within start stop) xs
unfolding skip_before
filter-select start stop [] o = take_until-select start stop [] tt tt
filter-select start stop (x ∷ xs) (above, o) = elim (Bool-cases (less x.id start)) [
  | inl before ↦ rw before (filter-select start stop xs o ∙ unfold select in ground arith)
  | inr from ↦ rw from (
      take_until-select start stop (x ∷ xs) (from, Above-not_before start x.id xs from above)
        (above, o))
]

-- `Filter` on a stream in order: the entries whose IDs lie from `start` to `stop`, and no other.
pub filter_entries-select :
    (start stop : StreamId) (st : Stream)
    → IsOrdered st
    → filter_entries start stop st ≡ select (is_within start stop) st.entries
unfolding filter_entries
filter_entries-select start stop st h = filter-select start stop st.entries h.ordered

-- Reading a stream behind an ID: the entries above that ID, and no other.
pub read_after-select :
    (key : Bytes) (after : StreamId) (s : Store) (e : Entry) (st : Stream)
    → get s.entries key ≡ some e
    → is_kind e.kind stream ≡ true
    → e.stream ≡ some st
    → IsOrdered st
    → read_after key after s ≡ done (select (is_after after) st.entries)
unfolding read_after
read_after-select key after s e st here kind has h =
    ground (arith, entries_after-select after st.entries h.ordered)

pub entries_after_skip :
    (after : StreamId) (xs ys : List StreamEntry)
    → All (AtMost after) xs
    → entries_after after (xs ++ ys) ≡ entries_after after ys
unfolding entries_after
entries_after_skip after [] ys h = refl
entries_after_skip after (x ∷ xs) ys (hx, h) = rw hx (entries_after_skip after xs ys h)

-- what a success of the checks says of the ID
pub add_checked_ok :
    (key : Bytes) (e : Entry) (st : Stream) (id : Option StreamId) (fields : List Bytes) (s : Store)
    (text : Bytes) (s' : Store)
    → add_checked key e st id fields s ≡ (ok text, s')
    → (new : StreamId) × (id ≡ some new)
      × (less st.last_id new ≡ true)
      × (text ≡ id_string new)
      × (s' ≡ append_entry key e st new fields s)
unfolding add_checked
add_checked_ok key e st none fields s text s' h =
    absurd (cc (ap (λ (p : Result Bytes × Store). p.0) h))
add_checked_ok key e st (some new) fields s text s' h =
    (new, refl, ground (arith, is_valid_stream_id-less st.last_id new), ground arith, ground arith)

pub xadd_to_stream :
    (key raw : Bytes) (fields : List Bytes) (now : ℕ) (s : Store) (e : Entry) (st : Stream)
    → get s.entries key ≡ some e
    → is_kind e.kind stream ≡ true
    → e.stream ≡ some st
    → xadd key raw fields now s ≡ done (add_checked key e st (new_id now st.last_id raw) fields s)
xadd_to_stream key raw fields now s e st here kind has =
    unfold xadd add_to_entry in rw (here, xadd, kind, has, add_to_entry)

pub done-injective {ℓ} : {A : Type ℓ} {a b : A} → done a ≡ done b → a ≡ b
done-injective h = cc

read_after-append_entry :
    (key : Bytes) (e : Entry) (st : Stream) (id : StreamId) (fields : List Bytes) (s : Store)
    → is_kind e.kind stream ≡ true
    → less st.last_id id ≡ true
    → IsOrdered st
    → read_after key st.last_id (append_entry key e st id fields s)
      ≡ done ((record { id = id; fields = fields }) ∷ [])
unfolding read_after append_entry
read_after-append_entry key e st id fields s kind lt h =
    let new : StreamEntry = record { id = id; fields = fields } in
    let last : entries_after st.last_id (new ∷ []) ≡ new ∷ [] =
      (unfold entries_after in ground arith) in
    ground (
      arith,
      bytes_eq_refl key,
      get-put s.entries key key (record e { stream = some (extended st id fields) }),
      entries_after_skip st.last_id st.entries (new ∷ []) h.last,
      last,
    )

get-append_entry :
    (key j : Bytes) (e : Entry) (st : Stream) (id : StreamId) (fields : List Bytes) (s : Store)
    → bytes_eq key j ≡ false
    → get (append_entry key e st id fields s).entries j ≡ get s.entries j
unfolding append_entry
get-append_entry key j e st id fields s h =
    ground (arith, get-put s.entries key j (record e { stream = some (extended st id fields) }))

-- A successful XADD to a stream in order: the reply is the text of an ID above the last one, the entry
-- is what a read behind that last ID returns, and the entries of other keys stay.
pub xadd-read_after :
    (key raw : Bytes) (fields : List Bytes) (now : ℕ) (s : Store) (e : Entry) (st : Stream)
    (text : Bytes) (s' : Store)
    → get s.entries key ≡ some e
    → is_kind e.kind stream ≡ true
    → e.stream ≡ some st
    → IsOrdered st
    → xadd key raw fields now s ≡ done (ok text, s')
    → (id : StreamId) × (text ≡ id_string id)
      × (less st.last_id id ≡ true)
      × (read_after key st.last_id s' ≡ done ((record { id = id; fields = fields }) ∷ []))
      × ((j : Bytes)
          → get s'.entries j ≡ (if bytes_eq key j then get s'.entries key else get s.entries j))
xadd-read_after key raw fields now s e st text s' here kind has h run =
    let checked : add_checked key e st (new_id now st.last_id raw) fields s ≡ (ok text, s') =
      done-injective (sym (xadd_to_stream key raw fields now s e st here kind has) ∙ run) in
    let (id, asked, lt, is_text, after) =
      add_checked_ok key e st (new_id now st.last_id raw) fields s text s' checked in
    (
      id,
      is_text,
      lt,
      rw after (read_after-append_entry key e st id fields s kind lt h),
      λ j. elim (Bool-cases (bytes_eq key j)) [
        | inl same ↦ rw same (ap (get s'.entries) (sym ((bytes_eq_iff key j).0 same)))
        | inr other ↦ rw (other, after) (get-append_entry key j e st id fields s other)
      ],
    )
