-- ===== src/Commands/Answers.antt =====
-- The commands that reply whatever their arguments are: they neither panic nor block, and never wait.
pub mod Typed
use redis_go.Base.{
  ℕ, ◌≡◌, refl, Bool, true, false, not, ◌==◌, ◌%◌, List, [], ◌∷◌, Bool-cases, inl, inr, Option,
  none, some, arith, ltb, if◌then◌else◌, Bytes, bytes_eq, codes, length,
}
use redis_go.Base.Dict.{get}
use redis_go.Base.Int.{ℤ, pos, negsuc}
use redis_go.Decimal.{parse_int, parse_uint}
use redis_go.Store.{
  Store, Entry, zero_entry, Kind, untyped, string, zset, Stream, StreamId, Zset, invalid_id, ok,
  stream, Outcome, done, panic, blocked, ◌>>=◌, is_kind, err, wrong_type, bit_offset, bit_value,
}
use redis_go.Store.Strings as strings
use redis_go.Store.Streams as streams
use redis_go.Store.Kinds.{IsTyped, IsBacked, Backed}
use redis_go.Commands.{
  World, Env, Command, on_store, milli_of, run, command_of, handle_commands, ping, echo, set, incr,
  type, lpush, llen, lrange, xadd, xrange, info, config, setbit, getbit, strlen, unknown, rpush,
  lpop, blpop, xread, keys, zadd, zrank, zrange, zcard, zscore, zrem, bitcount, bitop, geoadd,
  geopos, geodist, geosearch, acl,
}
use redis_go.Commands.Progress.{Handled, replied}
use redis_go.Commands.Reply.{to_upper, error_line, error_text}
use redis_go.Store.Lists as lists
use redis_go.Store.Bits as bits
use redis_go.Store.Bits.SetGet.{store_bit-done, read_bit-bit_at}
use redis_go.Store.Lists.Range.{lrange-between}
use redis_go.Commands.Strings
use redis_go.Commands.Lists
use redis_go.Commands.Streams
use redis_go.Commands.Bits

abbrev pub IsDone {ℓ} : {A : Type ℓ} → Outcome A → Type 0
IsDone (done a) = Unit
IsDone panic = ⊥
IsDone blocked = ⊥

module _ {ℓ} {A : Type ℓ} where
  pub IsDone-elim {κ} :
      {B : Type κ} (o : Option B) (x : Outcome A) (f : B → Outcome A)
      → IsDone x
      → ((b : B) → IsDone (f b))
      → IsDone (elim o [ none ↦ x | some b ↦ f b ])
  IsDone-elim none x f hx hf = hx
  IsDone-elim (some b) x f hx hf = hf b

  pub IsDone-if : (b : Bool) (x y : Outcome A) → IsDone x → IsDone y → IsDone (if b then x else y)
  IsDone-if true x y hx hy = hx
  IsDone-if false x y hx hy = hy

  pub IsDone-bind {κ} :
      {B : Type κ} (o : Outcome B) (f : B → A) → IsDone o → IsDone (do b ← o; done (f b))
  IsDone-bind (done b) f h = tt
  IsDone-bind panic f h = h
  IsDone-bind blocked f h = h

  IsDone-sign :
      (v : ℤ) (f g : ℕ → Outcome A)
      → ((n : ℕ) → IsDone (f n))
      → ((n : ℕ) → IsDone (g n))
      → IsDone (elim v [ negsuc n ↦ f n | pos n ↦ g n ])
  IsDone-sign (negsuc n) f g hf hg = hf n
  IsDone-sign (pos n) f g hf hg = hg n

-- What a handler has done, the case of the switch has replied.
abbrev pub Replies : Outcome (Handled World) → Type 0
Replies o = (reply : Bytes) × ((w : World) × (o ≡ done (replied reply w)))

pub Replies-on_store : (w : World) (o : Outcome (Bytes × Store)) → IsDone o → Replies (on_store w o)
Replies-on_store w (done (reply, s)) h = (reply, (record w { store = s }, refl))
Replies-on_store w panic h = elim h [ ]
Replies-on_store w blocked h = elim h [ ]

abbrev not_a_number : Bytes
not_a_number = codes "-ERR value is not an integer or out of range\r\n"

module _ (s : Store) where
  pub set-IsDone : (args : List Bytes) (now : ℕ) → IsDone (Strings.set args now s)
  unfolding Strings.set Strings.set_expiring
  set-IsDone [] now = tt
  set-IsDone (a ∷ []) now = tt
  set-IsDone (a ∷ b ∷ []) now = tt
  set-IsDone (a ∷ b ∷ c ∷ []) now = tt
  set-IsDone (a ∷ b ∷ c ∷ d ∷ []) now =
      IsDone-if (not (bytes_eq (to_upper c) (codes "PX"))) (done (codes "-ERR syntax error\r\n", s))
        (Strings.set_expiring a b d now s) tt
        (IsDone-elim (parse_int d)
          (done (codes "-ERR value is not an integer or out of range\r\n", s)) _ tt
          λ v.
            IsDone-sign v (λ n. done (codes "-ERR value is not an integer or out of range\r\n", s))
              (λ n. done (codes "+OK\r\n", strings.set a b (Strings.instant_after now n) s))
              (λ n. tt) (λ n. tt))
  set-IsDone (a ∷ b ∷ c ∷ d ∷ e ∷ rest) now = tt

  pub echo-IsDone : (args : List Bytes) → IsDone (Strings.echo args s)
  unfolding Strings.echo
  echo-IsDone [] = tt
  echo-IsDone (a ∷ []) = tt
  echo-IsDone (a ∷ b ∷ rest) = tt

  pub get-IsDone : (args : List Bytes) (now : ℕ) → IsDone (Strings.get args now s)
  unfolding Strings.get
  get-IsDone [] now = tt
  get-IsDone (a ∷ []) now = tt
  get-IsDone (a ∷ b ∷ rest) now = tt

  pub incr-IsDone : (args : List Bytes) → IsDone (Strings.incr args s)
  unfolding Strings.incr
  incr-IsDone [] = tt
  incr-IsDone (a ∷ []) = tt
  incr-IsDone (a ∷ b ∷ rest) = tt

  pub type-IsDone : (args : List Bytes) → IsDone (Strings.type args s)
  unfolding Strings.type
  type-IsDone [] = tt
  type-IsDone (a ∷ []) = tt
  type-IsDone (a ∷ b ∷ rest) = tt

  pub lpush-IsDone : (args : List Bytes) → IsDone (Lists.lpush args s)
  unfolding Lists.lpush
  lpush-IsDone [] = tt
  lpush-IsDone (a ∷ []) = tt
  lpush-IsDone (a ∷ b ∷ rest) = tt

  pub llen-IsDone : (args : List Bytes) → IsDone (Lists.llen args s)
  unfolding Lists.llen
  llen-IsDone [] = tt
  llen-IsDone (a ∷ []) = tt
  llen-IsDone (a ∷ b ∷ rest) = tt

  pub lrange-IsDone : (args : List Bytes) → IsDone (Lists.lrange args s)
  unfolding Lists.lrange
  lrange-IsDone [] = tt
  lrange-IsDone (a ∷ []) = tt
  lrange-IsDone (a ∷ b ∷ []) = tt
  lrange-IsDone (a ∷ b ∷ c ∷ []) = IsDone-elim (parse_int b) (done (not_a_number, s)) _ tt λ v.
      IsDone-elim (parse_int c) (done (not_a_number, s))
        (λ u. (do xs ← lists.lrange a v u s; done (Lists.write_slice xs, s))) tt
        λ u. rw (lrange-between a v u s) tt
  lrange-IsDone (a ∷ b ∷ c ∷ d ∷ rest) = tt

  store_bit-IsDone :
      (key : Bytes) (o : ℕ) (v : Bool) (e : Entry) → IsDone (bits.store_bit key o v e s)
  store_bit-IsDone key o v e = rw (store_bit-done key o v e s) tt

  set_bit-IsDone : (key : Bytes) (o now : ℕ) (v : ℤ) → IsDone (bits.set_bit key o v now s)
  unfolding bits.set_bit
  set_bit-IsDone key o now v = IsDone-elim (bits.bit_value_of v) (done (err bit_value, s)) _ tt λ b.
      IsDone-if (ltb bits.max_bit_offset o) (done (err bit_offset, s)) _ tt (
        IsDone-elim (bits.entry_for_bits key now s) (bits.store_bit key o b zero_entry s) _
          (store_bit-IsDone key o b zero_entry)
          λ e.
            IsDone-if (not (is_kind e.kind string)) (done (err wrong_type, s))
              (bits.store_bit key o b e s) tt (store_bit-IsDone key o b e))

  get_bit-IsDone : (key : Bytes) (o now : ℕ) → IsDone (bits.get_bit key o now s)
  unfolding bits.get_bit
  get_bit-IsDone key o now = IsDone-if (ltb bits.max_bit_offset o) (done (err bit_offset)) _ tt (
      IsDone-elim (bits.entry_for_bits key now s) (done (ok 0)) _ tt λ e.
        IsDone-if (not (is_kind e.kind string)) (done (err wrong_type))
          (do n ← bits.read_bit o e.value; done (ok n)) tt (rw (read_bit-bit_at o e.value) tt))

  pub setbit-IsDone : (args : List Bytes) (now : ℕ) → IsDone (Bits.setbit args now s)
  unfolding Bits.setbit
  setbit-IsDone [] now = tt
  setbit-IsDone (a ∷ []) now = tt
  setbit-IsDone (a ∷ b ∷ []) now = tt
  setbit-IsDone (a ∷ b ∷ c ∷ []) now =
      IsDone-elim (parse_uint b) (done (error_line (error_text bit_offset), s)) _ tt λ o.
        IsDone-elim (parse_int c) (done (error_line (error_text bit_value), s)) _ tt
          λ v. IsDone-bind (bits.set_bit a o v now s) _ (set_bit-IsDone a o now v)
  setbit-IsDone (a ∷ b ∷ c ∷ d ∷ rest) now = tt

  pub getbit-IsDone : (args : List Bytes) (now : ℕ) → IsDone (Bits.getbit args now s)
  unfolding Bits.getbit
  getbit-IsDone [] now = tt
  getbit-IsDone (a ∷ []) now = tt
  getbit-IsDone (a ∷ b ∷ []) now =
      IsDone-elim (parse_uint b) (done (error_line (error_text bit_offset), s)) _ tt
        λ o. IsDone-bind (bits.get_bit a o now s) _ (get_bit-IsDone a o now)
  getbit-IsDone (a ∷ b ∷ c ∷ rest) now = tt

  pub strlen-IsDone : (args : List Bytes) (now : ℕ) → IsDone (Bits.strlen args now s)
  unfolding Bits.strlen
  strlen-IsDone [] now = tt
  strlen-IsDone (a ∷ []) now = tt
  strlen-IsDone (a ∷ b ∷ rest) now = tt
