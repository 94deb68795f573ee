-- ===== src/Commands/Kinds.antt =====
-- The cases of `handleCommands` that write leave each entry with the pointer that its kind promises.
pub mod Every
use Prim.Native.Nat.{bit_and, bit_or}
use redis_go.Resp.Write.{bulk}
use redis_go.Base.{
  ℕ, refl, sym, Bool, true, false, not, ◌==◌, ◌%◌, List, [], ◌∷◌, Option, none, some, if◌then◌else◌,
  Bytes, bytes_eq, codes, length,
}
use mathlib.Core.Path.{subst}
use redis_go.Base.Dict.{Dict}
use redis_go.Base.Floats.{Floats}
use redis_go.Base.Int.{ℤ, pos, negsuc}
use redis_go.Decimal.{parse_int, parse_uint}
use redis_go.Server.{User}
use redis_go.Store.{Store, Outcome, done, panic, blocked}
use redis_go.Store.Strings as strings
use redis_go.Store.Lists as lists
use redis_go.Store.Streams as streams
use redis_go.Store.Zsets as zsets
use redis_go.Store.Bits as bits
use redis_go.Store.Kinds.{
  IsTyped, Leaves, left, panicked, was_blocked, Leaves-if, Leaves-elim, Leaves-then, Leaves-after,
  Leaves-reply,
}
use redis_go.Store.Kinds.Operations.{
  set-IsTyped, increment-IsTyped, rpush-IsTyped, lpush-IsTyped, lpop-IsTyped, xadd-IsTyped,
  zadd-IsTyped, zrem-IsTyped, set_bit-IsTyped, bit_op-IsTyped, BlpopLeaves, blpop-IsTyped,
  geo_add-IsTyped,
}
use redis_go.Commands.{
  World, Env, Command, on_store, on_users, on_waiting, milli_of, run, command_of, handle_commands,
  ping, echo, set, incr, type, rpush, lpush, llen, lrange, lpop, blpop, xadd, xrange, xread, info,
  keys, config, zadd, zrank, zrange, zcard, zscore, zrem, setbit, getbit, strlen, bitcount, bitop,
  geoadd, geopos, geodist, geosearch, acl, unknown,
}
use redis_go.Commands.Durable.{Unchanged, world_of, run-Settled}
use redis_go.Commands.Progress.{Handled, replied, waiting_pop}
use redis_go.Commands.Reply.{null_bulk, to_upper}
use redis_go.Commands.Strings
use redis_go.Commands.Lists
use redis_go.Commands.Streams
use redis_go.Commands.Zsets
use redis_go.Commands.Bits
use redis_go.Commands.Geo

module _ (s : Store) (h : IsTyped s.entries) where
  set_expiring-Leaves :
      (key value ms : Bytes) (now : ℕ) → Leaves (Strings.set_expiring key value ms now s)
  unfolding Strings.set_expiring
  set_expiring-Leaves key value ms now = Leaves-elim (parse_int ms) _ _ (left h) λ v fine.
      elim v
        as (λ (x : ℤ). Leaves (elim x [
          | negsuc n ↦ done (codes "-ERR value is not an integer or out of range\r\n", s)
          | pos n ↦ done (codes "+OK\r\n", strings.set key value (Strings.instant_after now n) s)
        ])) [
          | negsuc n ↦ left h
          | pos n ↦ left (set-IsTyped s h key value (Strings.instant_after now n))
        ]

  pub set-Leaves : (args : List Bytes) (now : ℕ) → Leaves (Strings.set args now s)
  unfolding Strings.set
  set-Leaves [] now = left h
  set-Leaves (a ∷ []) now = left h
  set-Leaves (a ∷ b ∷ []) now = left (set-IsTyped s h a b 0)
  set-Leaves (a ∷ b ∷ c ∷ []) now = left h
  set-Leaves (a ∷ b ∷ c ∷ d ∷ []) now =
      Leaves-if (not (bytes_eq (to_upper c) (codes "PX"))) _ _ (left h)
        (set_expiring-Leaves a b d now)
  set-Leaves (a ∷ b ∷ c ∷ d ∷ e ∷ rest) now = left h

  pub incr-Leaves : (args : List Bytes) → Leaves (Strings.incr args s)
  unfolding Strings.incr
  incr-Leaves [] = left h
  incr-Leaves (a ∷ []) = Leaves-reply (strings.increment a s) _ (increment-IsTyped s h a)
  incr-Leaves (a ∷ b ∷ rest) = left h

  pub rpush-Leaves : (args : List Bytes) → Leaves (Lists.rpush args s)
  unfolding Lists.rpush
  rpush-Leaves [] = left h
  rpush-Leaves (a ∷ []) = left h
  rpush-Leaves (a ∷ b ∷ rest) =
      Leaves-then (lists.rpush a (b ∷ rest) s) _ (rpush-IsTyped s h a (b ∷ rest)) λ r s'. refl

  pub lpush-Leaves : (args : List Bytes) → Leaves (Lists.lpush args s)
  unfolding Lists.lpush
  lpush-Leaves [] = left h
  lpush-Leaves (a ∷ []) = left h
  lpush-Leaves (a ∷ b ∷ rest) =
      Leaves-reply (lists.lpush a (b ∷ rest) s) _ (lpush-IsTyped s h a (b ∷ rest))

  pub xadd-Leaves : (args : List Bytes) (now : ℕ) → Leaves (Streams.xadd args now s)
  unfolding Streams.xadd
  xadd-Leaves [] now = left h
  xadd-Leaves (a ∷ []) now = left h
  xadd-Leaves (a ∷ b ∷ []) now = left h
  xadd-Leaves (a ∷ b ∷ c ∷ []) now = left h
  xadd-Leaves (a ∷ b ∷ c ∷ d ∷ rest) now = Leaves-if (not (length rest % 2 == 0)) _ _ (left h) (
      Leaves-then (streams.xadd a b (c ∷ d ∷ rest) now s) _
        (xadd-IsTyped s h a b (c ∷ d ∷ rest) now) λ r s'. refl)

  pub zrem-Leaves : (args : List Bytes) → Leaves (Zsets.zrem args s)
  unfolding Zsets.zrem
  zrem-Leaves [] = left h
  zrem-Leaves (a ∷ []) = left h
  zrem-Leaves (a ∷ b ∷ rest) = Leaves-then (zsets.zrem a b s) _ (zrem-IsTyped s h a b) λ r s'. refl

  pub setbit-Leaves : (args : List Bytes) (now : ℕ) → Leaves (Bits.setbit args now s)
  unfolding Bits.setbit
  setbit-Leaves [] now = left h
  setbit-Leaves (a ∷ []) now = left h
  setbit-Leaves (a ∷ b ∷ []) now = left h
  setbit-Leaves (a ∷ b ∷ c ∷ []) now = Leaves-elim (parse_uint b) _ _ (left h) λ o fine.
      Leaves-elim (parse_int c) _ _ (left h) λ v good.
        Leaves-then (bits.set_bit a o v now s) _ (set_bit-IsTyped s h a o v now) λ r s'. refl
  setbit-Leaves (a ∷ b ∷ c ∷ d ∷ rest) now = left h

  popped_one :
      (ans : Option (List Bytes)) (s' : Store)
      → IsTyped s'.entries
      → Leaves (elim ans [
        | none ↦ done (null_bulk, s')
        | some found ↦ elim found [ [] ↦ panic | v ∷ _ ↦ done (bulk v, s') ]
      ])
  popped_one none s' h' = left h'
  popped_one (some []) s' h' = panicked
  popped_one (some (v ∷ rest)) s' h' = left h'

  no_keys :
      (op : Bytes)
      → Leaves {A = Bytes} (
          if bytes_eq op (codes "AND")
          then panic
          else if bytes_eq op (codes "OR")
          then panic
          else done ([], s))
  no_keys op =
      Leaves-if (bytes_eq op (codes "AND")) panic _ panicked
        (Leaves-if (bytes_eq op (codes "OR")) panic (done ([], s)) panicked (left h))

  lpop_one-Leaves : (key : Bytes) → Leaves (Lists.lpop_one key s)
  unfolding Lists.lpop_one
  lpop_one-Leaves key = Leaves-after (lists.lpop key 1 s) _ (lpop-IsTyped s h key 1) popped_one

  lpop_count-Leaves : (key : Bytes) (n : ℕ) → Leaves (Lists.lpop_count key n s)
  unfolding Lists.lpop_count
  lpop_count-Leaves key n = Leaves-then (lists.lpop key n s) _ (lpop-IsTyped s h key n) λ r s'. refl

  pub lpop-Leaves : (args : List Bytes) → Leaves (Lists.lpop args s)
  unfolding Lists.lpop
  lpop-Leaves [] = left h
  lpop-Leaves (a ∷ []) = lpop_one-Leaves a
  lpop-Leaves (a ∷ b ∷ rest) = Leaves-elim (parse_int b) _ _ (left h) λ v fine.
      elim v
        as (λ (x : ℤ). Leaves {A = Bytes} (elim x [
          | negsuc n ↦ done (codes "-ERR value is out of range, must be positive\r\n", s)
          | pos n ↦ Lists.lpop_count a n s
        ])) [ negsuc n ↦ left h | pos n ↦ lpop_count-Leaves a n ]

  pub bitop-Leaves : (args : List Bytes) → Leaves (Bits.bitop args s)
  unfolding Bits.bitop bits.bit_op_and bits.bit_op_or
  bitop-Leaves [] = panicked
  bitop-Leaves (a ∷ []) = no_keys a
  bitop-Leaves (a ∷ b ∷ []) = no_keys a
  bitop-Leaves (a ∷ b ∷ c ∷ []) = no_keys a
  bitop-Leaves (a ∷ b ∷ c ∷ d ∷ rest) =
      Leaves-if (bytes_eq a (codes "AND")) _ _
        (Leaves-reply (bits.bit_op_and b c d s) _ (bit_op-IsTyped s h bit_and b c d))
        (Leaves-if (bytes_eq a (codes "OR")) _ (done ([], s))
          (Leaves-reply (bits.bit_op_or b c d s) _ (bit_op-IsTyped s h bit_or b c d)) (left h))

  module _ (floats : Floats) where
    pub zadd-Leaves : (args : List Bytes) → Leaves (Zsets.zadd floats args s)
    unfolding Zsets.zadd
    zadd-Leaves [] = left h
    zadd-Leaves (a ∷ []) = left h
    zadd-Leaves (a ∷ b ∷ []) = left h
    zadd-Leaves (a ∷ b ∷ c ∷ rest) =
        Leaves-then (zsets.zadd a _ c s) _ (zadd-IsTyped s h a _ c) λ r s'. refl

    pub geoadd-Leaves : (args : List Bytes) → Leaves (Geo.geoadd floats args s)
    unfolding Geo.geoadd
    geoadd-Leaves [] = left h
    geoadd-Leaves (a ∷ []) = left h
    geoadd-Leaves (a ∷ b ∷ []) = left h
    geoadd-Leaves (a ∷ b ∷ c ∷ []) = left h
    geoadd-Leaves (a ∷ b ∷ c ∷ d ∷ rest) =
        Leaves-then _ _ (geo_add-IsTyped s h floats a _ _ d) λ r s'. refl
