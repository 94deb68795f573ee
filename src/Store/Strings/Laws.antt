-- ===== src/Store/Strings/Laws.antt =====
-- What a client reads after it wrote a string.
use redis_go.Base.{ℕ, ◌≡◌, not, ◌&&◌, none, some, arith, ltb, ◌==◌, if◌then◌else◌, Bytes, bytes_eq}
use redis_go.Base.Dict.{get-put}
use redis_go.Store.{Store, zero_entry, string}
use redis_go.Store.Strings.{set, get_value}

-- After SET of `k` until `t` (0 is for ever), GET of `k` returns the value up to the instant `t` and
-- nothing after it, and GET of any other key returns what it returned before.
pub get_value-set :
    (k j value : Bytes) (t now : ℕ) (s : Store)
    → get_value j now (set k value t s) ≡ (
        if bytes_eq k j
        then (if not (t == 0) && ltb t now then none else some value)
        else get_value j now s)
unfolding get_value set
get_value-set k j value t now s = ground (
  arith,
  get-put s.entries k j (record zero_entry { kind = string; value = value; expires_at = t }),
)
