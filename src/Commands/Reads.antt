-- ===== src/Commands/Reads.antt =====
-- The handlers that only read leave the store as it is.
use redis_go.Base.{ℕ, Option, none, some, ◌≡◌, refl, List, [], ◌∷◌, Bytes}
use redis_go.Base.Floats.{Floats}
use redis_go.Base.Int.{pos}
use redis_go.Decimal.{int_value, parse_int, parse_uint}
use redis_go.Store.{Store, Outcome, done, panic, blocked, ◌>>=◌}
use redis_go.Store.Streams as streams
use redis_go.Store.Zsets as zsets
use redis_go.Store.Lists as lists
use redis_go.Store.Bits as bits
use redis_go.Store.Geo.{geo_exists, geo_dist, geo_search}
use redis_go.Commands.Strings
use redis_go.Commands.Lists
use redis_go.Commands.Streams
use redis_go.Commands.Zsets
use redis_go.Commands.Bits
use redis_go.Commands.Geo

-- Whatever the outcome, where the store is returned it is the one that was given.
abbrev pub Keeps : Store → Outcome (Bytes × Store) → Type 0
Keeps s (done (reply, s')) = s' ≡ s
Keeps s _ = Unit

Keeps-bind :
    {A : Type 0} (o : Outcome A) (f : A → Bytes) (s : Store) → Keeps s (do a ← o; done (f a, s))
Keeps-bind (done a) f s = refl
Keeps-bind panic f s = tt
Keeps-bind blocked f s = tt

Keeps-found :
    {A : Type 0} (o : Option A) (x : Outcome (Bytes × Store)) (f : A → Outcome (Bytes × Store))
    (s : Store)
    → Keeps s x
    → ((a : A) → Keeps s (f a))
    → Keeps s (elim o [ none ↦ x | some a ↦ f a ])
Keeps-found none x f s h k = h
Keeps-found (some a) x f s h k = k a

pub echo-Keeps : (args : List Bytes) (s : Store) → Keeps s (Strings.echo args s)
unfolding Strings.echo
echo-Keeps [] s = refl
echo-Keeps (a ∷ []) s = refl
echo-Keeps (a ∷ b ∷ rest) s = refl

pub get-Keeps : (args : List Bytes) (now : ℕ) (s : Store) → Keeps s (Strings.get args now s)
unfolding Strings.get
get-Keeps [] now s = refl
get-Keeps (a ∷ []) now s = refl
get-Keeps (a ∷ b ∷ rest) now s = refl

pub type-Keeps : (args : List Bytes) (s : Store) → Keeps s (Strings.type args s)
unfolding Strings.type
type-Keeps [] s = refl
type-Keeps (a ∷ []) s = refl
type-Keeps (a ∷ b ∷ rest) s = refl

pub keys-Keeps : (args : List Bytes) (s : Store) → Keeps s (Strings.keys args s)
unfolding Strings.keys
keys-Keeps [] s = tt
keys-Keeps (a ∷ rest) s = refl

pub llen-Keeps : (args : List Bytes) (s : Store) → Keeps s (Lists.llen args s)
unfolding Lists.llen
llen-Keeps [] s = refl
llen-Keeps (a ∷ []) s = refl
llen-Keeps (a ∷ b ∷ rest) s = refl

pub lrange-Keeps : (args : List Bytes) (s : Store) → Keeps s (Lists.lrange args s)
unfolding Lists.lrange
lrange-Keeps [] s = refl
lrange-Keeps (a ∷ []) s = refl
lrange-Keeps (a ∷ b ∷ []) s = refl
lrange-Keeps (a ∷ b ∷ c ∷ []) s =
    Keeps-found (parse_int b) _ _ s refl
      λ v. Keeps-found (parse_int c) _ _ s refl λ u. Keeps-bind (lists.lrange a v u s) _ s
lrange-Keeps (a ∷ b ∷ c ∷ d ∷ rest) s = refl

pub xrange-Keeps : (args : List Bytes) (s : Store) → Keeps s (Streams.xrange args s)
unfolding Streams.xrange
xrange-Keeps [] s = refl
xrange-Keeps (a ∷ []) s = refl
xrange-Keeps (a ∷ b ∷ []) s = refl
xrange-Keeps (a ∷ b ∷ c ∷ []) s = Keeps-bind (streams.xrange a b c s) _ s
xrange-Keeps (a ∷ b ∷ c ∷ d ∷ rest) s = refl

pub zrank-Keeps : (args : List Bytes) (s : Store) → Keeps s (Zsets.zrank args s)
unfolding Zsets.zrank
zrank-Keeps [] s = refl
zrank-Keeps (a ∷ []) s = refl
zrank-Keeps (a ∷ b ∷ rest) s = Keeps-bind (zsets.zrank a b s) _ s

pub zrange-Keeps : (args : List Bytes) (s : Store) → Keeps s (Zsets.zrange args s)
unfolding Zsets.zrange
zrange-Keeps [] s = refl
zrange-Keeps (a ∷ []) s = refl
zrange-Keeps (a ∷ b ∷ []) s = refl
zrange-Keeps (a ∷ b ∷ c ∷ rest) s = Keeps-bind (zsets.zrange a (int_value b) (int_value c) s) _ s

pub zcard-Keeps : (args : List Bytes) (s : Store) → Keeps s (Zsets.zcard args s)
unfolding Zsets.zcard
zcard-Keeps [] s = tt
zcard-Keeps (a ∷ rest) s = Keeps-bind (zsets.zcard a s) _ s

pub zscore-Keeps :
    (floats : Floats) (args : List Bytes) (s : Store) → Keeps s (Zsets.zscore floats args s)
unfolding Zsets.zscore
zscore-Keeps floats [] s = refl
zscore-Keeps floats (a ∷ []) s = refl
zscore-Keeps floats (a ∷ b ∷ rest) s = Keeps-bind (zsets.zscore a b s) _ s

pub getbit-Keeps : (args : List Bytes) (now : ℕ) (s : Store) → Keeps s (Bits.getbit args now s)
unfolding Bits.getbit
getbit-Keeps [] now s = refl
getbit-Keeps (a ∷ []) now s = refl
getbit-Keeps (a ∷ b ∷ []) now s =
    Keeps-found (parse_uint b) _ _ s refl λ o. Keeps-bind (bits.get_bit a o now s) _ s
getbit-Keeps (a ∷ b ∷ c ∷ rest) now s = refl

pub strlen-Keeps : (args : List Bytes) (now : ℕ) (s : Store) → Keeps s (Bits.strlen args now s)
unfolding Bits.strlen
strlen-Keeps [] now s = refl
strlen-Keeps (a ∷ []) now s = refl
strlen-Keeps (a ∷ b ∷ rest) now s = refl

pub bitcount-Keeps : (args : List Bytes) (s : Store) → Keeps s (Bits.bitcount args s)
unfolding Bits.bitcount
bitcount-Keeps [] s = refl
bitcount-Keeps (a ∷ []) s = Keeps-bind (bits.count_bit a (pos 0) (pos 0) s) _ s
bitcount-Keeps (a ∷ b ∷ []) s = Keeps-found (parse_int b) _ _ s refl λ v. tt
bitcount-Keeps (a ∷ b ∷ c ∷ rest) s =
    Keeps-found (parse_int b) _ _ s refl
      λ v. Keeps-found (parse_int c) _ _ s refl λ u. Keeps-bind (bits.count_bit a v u s) _ s

module _ (floats : Floats) where
  pub geopos-Keeps :
      (args : List Bytes) (now : ℕ) (s : Store) → Keeps s (Geo.geopos floats args now s)
  unfolding Geo.geopos
  geopos-Keeps [] now s = refl
  geopos-Keeps (a ∷ []) now s = refl
  geopos-Keeps (a ∷ b ∷ rest) now s = Keeps-bind (geo_exists floats a (b ∷ rest) now s) _ s

  pub geodist-Keeps : (args : List Bytes) (s : Store) → Keeps s (Geo.geodist floats args s)
  unfolding Geo.geodist
  geodist-Keeps [] s = refl
  geodist-Keeps (a ∷ []) s = refl
  geodist-Keeps (a ∷ b ∷ []) s = refl
  geodist-Keeps (a ∷ b ∷ c ∷ rest) s = Keeps-bind (geo_dist floats a b c s) _ s

  pub geosearch-Keeps : (args : List Bytes) (s : Store) → Keeps s (Geo.geosearch floats args s)
  unfolding Geo.geosearch
  geosearch-Keeps (a ∷ b ∷ c ∷ d ∷ e ∷ f ∷ g ∷ rest) s =
      Keeps-bind (geo_search floats a _ _ _ s) _ s
  geosearch-Keeps [] s = refl
  geosearch-Keeps (a ∷ []) s = refl
  geosearch-Keeps (a ∷ b ∷ []) s = refl
  geosearch-Keeps (a ∷ b ∷ c ∷ []) s = refl
  geosearch-Keeps (a ∷ b ∷ c ∷ d ∷ []) s = refl
  geosearch-Keeps (a ∷ b ∷ c ∷ d ∷ e ∷ []) s = refl
  geosearch-Keeps (a ∷ b ∷ c ∷ d ∷ e ∷ f ∷ []) s = refl
