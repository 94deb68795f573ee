-- ===== src/Store/Streams/Bounds.antt =====
-- The parts of stream IDs are 64-bit numbers, so that an ID is read back from its text.
use redis_go.Base.{
  ℕ, ◌+◌, ◌-◌, ◌*◌, ◌≤◌, ◌≡◌, refl, ◌∙◌, sym, true, List, [], ◌∷◌, Option, none, some, arith, ltb,
  ◌||◌, if◌then◌else◌, Bytes, codes, bytes_eq, Bool-cases, Option-cases, inl, inr, bytes_eq_refl,
}
use redis_go.Base.Dict.{get, get-put}
use redis_go.Decimal.{scan, parse_uint, max_u64}
use redis_go.Store.{Store, Entry, Stream, StreamId, ok, done, stream, is_kind}
use redis_go.Store.Streams.{
  less, xadd, new_id, auto_seq, next_seq, make_id, parse_id, cut_dash, has_suffix_dash_star,
  before_dash, append_entry,
}
use redis_go.Store.Streams.Ids.{parse_id-id_string}
use redis_go.Store.Streams.Order.{extended}
use redis_go.Store.Streams.Reading.{add_checked_ok, xadd_to_stream, done-injective}

pub record IsBounded (id : StreamId) : Type 0 where
  pub ms : id.ms ≤ max_u64
  pub seq : id.seq ≤ max_u64

scan_le : (limit : ℕ) (s : Bytes) (n m : ℕ) → n ≤ limit → scan limit s n ≡ some m → m ≤ limit
unfolding scan
scan_le limit [] n m h run = ground (arith, run)
scan_le limit (c ∷ s) n m h run = elim (Bool-cases (ltb c b'0' || ltb b'9' c)) [
  | inl odd ↦ absurd (ground (arith, odd, run))
  | inr digit ↦ elim (Bool-cases (ltb limit (n * 10 + (c - b'0')))) [
    | inl big ↦ absurd (ground (arith, digit, big, run))
    | inr fits ↦
        scan_le limit s (n * 10 + (c - b'0')) m (ground (arith, fits))
          (ground (arith, digit, fits, run))
  ]
]

parse_uint_le : (s : Bytes) (n : ℕ) → parse_uint s ≡ some n → n ≤ max_u64
unfolding parse_uint
parse_uint_le [] n h = absurd (ground (arith, h))
parse_uint_le (c ∷ s) n h = scan_le max_u64 (c ∷ s) 0 n (omega arith) h

make_id-IsBounded :
    (ms seq : Option ℕ) (id : StreamId)
    → ((n : ℕ) → ms ≡ some n → n ≤ max_u64)
    → ((n : ℕ) → seq ≡ some n → n ≤ max_u64)
    → make_id ms seq ≡ some id
    → IsBounded id
make_id-IsBounded none seq id hm hs h = absurd (ground (arith, h))
make_id-IsBounded (some ms) none id hm hs h = absurd (ground (arith, h))
make_id-IsBounded (some ms) (some seq) id hm hs h =
    let same : (record { ms = ms; seq = seq }) ≡ id = cc in
    rw⁻¹ same (record { ms = hm ms refl; seq = hs seq refl })

parse_id_cut :
    (raw a b : Bytes)
    → cut_dash raw ≡ some (a, b)
    → parse_id raw ≡ make_id (parse_uint a) (parse_uint b)
unfolding parse_id
parse_id_cut raw a b found = ground (arith, found)

parse_id-IsBounded : (raw : Bytes) (id : StreamId) → parse_id raw ≡ some id → IsBounded id
unfolding parse_id
parse_id-IsBounded raw id h = elim (Option-cases (cut_dash raw)) [
  | inl missing ↦ absurd (ground (arith, missing, h))
  | inr ((a, b), found) ↦
      make_id-IsBounded (parse_uint a) (parse_uint b) id (parse_uint_le a) (parse_uint_le b)
        (sym (parse_id_cut raw a b found) ∙ h)
]

next_seq_le : (ms : ℕ) (last : StreamId) → next_seq ms last ≤ max_u64
unfolding next_seq
next_seq_le ms last = ground arith

auto_seq-IsBounded :
    (last id : StreamId) (ms : Option ℕ)
    → ((n : ℕ) → ms ≡ some n → n ≤ max_u64)
    → auto_seq last ms ≡ some id
    → IsBounded id
unfolding auto_seq
auto_seq-IsBounded last id none hm h = absurd (ground (arith, h))
auto_seq-IsBounded last id (some ms) hm h =
    let same : (record { ms = ms; seq = next_seq ms last }) ≡ id = cc in
    rw⁻¹ same (record { ms = hm ms refl; seq = next_seq_le ms last })

new_id-IsBounded :
    (now : ℕ) (last id : StreamId) (raw : Bytes)
    → now ≤ max_u64
    → IsBounded last
    → new_id now last raw ≡ some id
    → IsBounded id
unfolding new_id
new_id-IsBounded now last id raw hn hl h = elim (Bool-cases (bytes_eq raw (codes "*"))) [
  | inl star ↦
      auto_seq-IsBounded last id (some (if ltb now last.ms then last.ms else now))
        (λ n e. ground (arith, hl.ms, e)) (ground (arith, star, h))
  | inr no_star ↦ elim (Bool-cases (has_suffix_dash_star raw)) [
    | inl dash ↦
        auto_seq-IsBounded last id (parse_uint (before_dash raw)) (parse_uint_le (before_dash raw))
          (ground (arith, no_star, dash, h))
    | inr whole ↦ parse_id-IsBounded raw id (ground (arith, no_star, whole, h))
  ]
]

get-append_entry :
    (key : Bytes) (e : Entry) (st : Stream) (id : StreamId) (fields : List Bytes) (s : Store)
    → get (append_entry key e st id fields s).entries key
      ≡ some (record e { stream = some (extended st id fields) })
unfolding append_entry
get-append_entry key e st id fields s =
    get-put s.entries key key (record e { stream = some (extended st id fields) })
    ∙ ground (arith, bytes_eq_refl key)

-- A successful XADD to a stream whose last ID has 64-bit parts, at a time that a uint64 holds, whatever ID
-- is asked for: the new last ID has 64-bit parts too, is above the old one, and is what its text, which
-- XADD replies, is read back as.
pub xadd-IsBounded :
    (key raw : Bytes) (fields : List Bytes) (now : ℕ) (s : Store) (e : Entry) (st : Stream)
    (text : Bytes) (s' : Store)
    → get s.entries key ≡ some e
    → is_kind e.kind stream ≡ true
    → e.stream ≡ some st
    → now ≤ max_u64
    → IsBounded st.last_id
    → xadd key raw fields now s ≡ done (ok text, s')
    → (id : StreamId) × IsBounded id
      × (less st.last_id id ≡ true)
      × (get s'.entries key ≡ some (record e { stream = some (extended st id fields) }))
      × (parse_id text ≡ some id)
xadd-IsBounded key raw fields now s e st text s' here kind has hn hl run =
    let (id, asked, lt, is_text, after) =
      add_checked_ok key e st (new_id now st.last_id raw) fields s text s'
        (done-injective (sym (xadd_to_stream key raw fields now s e st here kind has) ∙ run)) in
    let bounded = new_id-IsBounded now st.last_id id raw hn hl asked in
    (
      id,
      bounded,
      lt,
      rw after (get-append_entry key e st id fields s),
      rw is_text (parse_id-id_string id bounded.ms bounded.seq),
    )
