-- ===== src/Store/Streams/Ids.antt =====
-- The order of stream IDs, and their text.
use redis_go.Base.{◌≤◌, ◌≡◌, true, false, [], ◌∷◌, ◌++◌, some, arith, Bytes, All}
use redis_go.Decimal.{format, max_u64}
use redis_go.Decimal.RoundTrip.{IsDigit, format-IsDigit, parse_uint-format}
use redis_go.Store.{StreamId}
use redis_go.Store.Streams.{less, is_valid_stream_id, cut_dash, parse_id, id_string}

-- `isValidStreamId` accepts the IDs that `less` puts behind the last one.
pub is_valid_stream_id-less : (last new : StreamId) → is_valid_stream_id last new ≡ less last new
unfolding is_valid_stream_id less
is_valid_stream_id-less last new = ground arith

pub less_irrefl : (a : StreamId) → less a a ≡ false
unfolding less
less_irrefl a = ground arith

pub less_trans : (a b c : StreamId) → less a b ≡ true → less b c ≡ true → less a c ≡ true
unfolding less
less_trans a b c p q = ground arith

-- at most `b`, and `b` below `c`
pub le_less_trans : (a b c : StreamId) → less b a ≡ false → less b c ≡ true → less a c ≡ true
unfolding less
le_less_trans a b c p q = ground arith

pub less_asymm : (a b : StreamId) → less a b ≡ true → less b a ≡ false
unfolding less
less_asymm a b p = ground arith

-- below `b`, which is at most `c`
pub less_le_trans : (a b c : StreamId) → less a b ≡ true → less c b ≡ false → less a c ≡ true
unfolding less
less_le_trans a b c p q = ground arith

pub le_trans_ids : (a b c : StreamId) → less b a ≡ false → less c b ≡ false → less c a ≡ false
unfolding less
le_trans_ids a b c p q = ground arith

cut_dash-append : (a b : Bytes) → All IsDigit a → cut_dash (a ++ (b'-' ∷ b)) ≡ some (a, b)
unfolding cut_dash
cut_dash-append [] b h = ground arith
cut_dash-append (c ∷ a) b (hc, h) = ground (arith, cut_dash-append a b h)

-- An ID whose parts are 64-bit numbers is read back from its text.
pub parse_id-id_string :
    (id : StreamId) → id.ms ≤ max_u64 → id.seq ≤ max_u64 → parse_id (id_string id) ≡ some id
unfolding parse_id id_string
parse_id-id_string id hm hs = ground (
  arith,
  cut_dash-append (format id.ms) (format id.seq) (format-IsDigit id.ms),
  parse_uint-format id.ms hm,
  parse_uint-format id.seq hs,
)
