-- ===== src/Commands/Kinds/Every.antt =====
-- `handleCommands` leaves each entry with the pointer that its kind promises, whatever the command.
use redis_go.Base.{ℕ, sym, Bool, true, false, List, [], ◌∷◌, if◌then◌else◌, Bytes}
use mathlib.Core.Path.{subst}
use redis_go.Base.Dict.{Dict}
use redis_go.Base.Floats.{Floats}
use redis_go.Server.{User}
use redis_go.Store.{Store, Outcome, done, panic, blocked}
use redis_go.Store.Lists as lists
use redis_go.Store.Kinds.{IsTyped, Leaves, left, panicked, was_blocked}
use redis_go.Store.Kinds.Operations.{BlpopLeaves, blpop-IsTyped}
use redis_go.Commands.{
  World, Env, Command, on_store, on_users, on_waiting, milli_of, run, command_of, handle_commands,
  ping, echo, set, incr, type, rpush, lpush, llen, lrange, lpop, blpop, xadd, xrange, xread, info,
  keys, config, zadd, zrank, zrange, zcard, zscore, zrem, setbit, getbit, strlen, bitcount, bitop,
  geoadd, geopos, geodist, geosearch, acl, unknown,
}
use redis_go.Commands.Durable.{Unchanged, world_of, run-Settled}
use redis_go.Commands.Progress.{Handled, replied, waiting_pop}
use redis_go.Commands.Lists
use redis_go.Commands.Kinds.{
  set-Leaves, incr-Leaves, rpush-Leaves, lpush-Leaves, xadd-Leaves, zrem-Leaves, setbit-Leaves,
  lpop-Leaves, bitop-Leaves, zadd-Leaves, geoadd-Leaves,
}

-- What `handleCommands` leaves, also where it waits.
abbrev pub Keeps : Outcome (Handled World) → Type 0
Keeps (done r) = IsTyped (world_of r).store.entries
Keeps panic = Unit
Keeps blocked = Unit

Keeps-on_store : (w : World) (o : Outcome (Bytes × Store)) → Leaves o → Keeps (on_store w o)
Keeps-on_store w o (left h) = h
Keeps-on_store w o panicked = tt
Keeps-on_store w o was_blocked = tt

Keeps-Unchanged :
    (w : World) (o : Outcome (Handled World)) → IsTyped w.store.entries → Unchanged w o → Keeps o
Keeps-Unchanged w (done r) h same = subst (λ (v : World). IsTyped v.store.entries) (sym same) h
Keeps-Unchanged w panic h same = tt
Keeps-Unchanged w blocked h same = tt

Keeps-on_users :
    (w : World) (o : Outcome (Bytes × Dict User)) → IsTyped w.store.entries → Keeps (on_users w o)
Keeps-on_users w (done (reply, users)) h = h
Keeps-on_users w panic h = tt
Keeps-on_users w blocked h = tt

module _ (w : World) (h : IsTyped w.store.entries) where
  Keeps-blpop_keys :
      (keys : List Bytes) → Keeps (on_waiting w (done (Lists.blpop_keys keys w.store)))
  unfolding Lists.blpop_keys
  Keeps-blpop_keys names =
      elim (lists.blpop names w.store)
          as (λ (r : lists.Blpop).
            BlpopLeaves w.store h r
            → Keeps (
                on_waiting w (
                  done (elim r [
                    | lists.popped p s' ↦ replied (Lists.popped_reply p) s'
                    | lists.waiting ch s' ↦ waiting_pop names ch s'
                  ])))) [ lists.popped p s' ↦ λ r. r | lists.waiting ch s' ↦ λ r. r ]
        (blpop-IsTyped w.store h names)

  Keeps-if :
      (b : Bool) (x y : Outcome (Handled Store))
      → Keeps (on_waiting w x)
      → Keeps (on_waiting w y)
      → Keeps (on_waiting w (if b then x else y))
  Keeps-if true x y hx hy = hx
  Keeps-if false x y hx hy = hy

  Keeps-blpop :
      (floats : Floats) (args : List Bytes) → Keeps (on_waiting w (Lists.blpop floats args w.store))
  unfolding Lists.blpop
  Keeps-blpop floats [] = h
  Keeps-blpop floats (a ∷ []) = h
  Keeps-blpop floats (a ∷ b ∷ rest) =
      Keeps-if (Lists.bad_timeout floats (Lists.split_last b rest).1) _ _ h
        (Keeps-blpop_keys (a ∷ (Lists.split_last b rest).0))

  module _ (env : Env) (name : Bytes) (args : List Bytes) (now : ℕ) where
    same :
        (c : Command) → Unchanged w (run env c name args now w) → Keeps (run env c name args now w)
    same c u = Keeps-Unchanged w (run env c name args now w) h u

    run-IsTyped : (c : Command) → Keeps (run env c name args now w)
    unfolding run
    run-IsTyped set = Keeps-on_store w _ (set-Leaves w.store h args now)
    run-IsTyped incr = Keeps-on_store w _ (incr-Leaves w.store h args)
    run-IsTyped rpush = Keeps-on_store w _ (rpush-Leaves w.store h args)
    run-IsTyped lpush = Keeps-on_store w _ (lpush-Leaves w.store h args)
    run-IsTyped lpop = Keeps-on_store w _ (lpop-Leaves w.store h args)
    run-IsTyped blpop = Keeps-blpop env.floats args
    run-IsTyped xadd = Keeps-on_store w _ (xadd-Leaves w.store h args (milli_of now))
    run-IsTyped zadd = Keeps-on_store w _ (zadd-Leaves w.store h env.floats args)
    run-IsTyped zrem = Keeps-on_store w _ (zrem-Leaves w.store h args)
    run-IsTyped setbit = Keeps-on_store w _ (setbit-Leaves w.store h args now)
    run-IsTyped bitop = Keeps-on_store w _ (bitop-Leaves w.store h args)
    run-IsTyped geoadd = Keeps-on_store w _ (geoadd-Leaves w.store h env.floats args)
    run-IsTyped acl = Keeps-on_users w _ h
    run-IsTyped ping = same ping (run-Settled env name args w ping tt now)
    run-IsTyped echo = same echo (run-Settled env name args w echo tt now)
    run-IsTyped Command.get = same Command.get (run-Settled env name args w Command.get tt now)
    run-IsTyped type = same type (run-Settled env name args w type tt now)
    run-IsTyped llen = same llen (run-Settled env name args w llen tt now)
    run-IsTyped lrange = same lrange (run-Settled env name args w lrange tt now)
    run-IsTyped xrange = same xrange (run-Settled env name args w xrange tt now)
    run-IsTyped xread = same xread (run-Settled env name args w xread tt now)
    run-IsTyped info = same info (run-Settled env name args w info tt now)
    run-IsTyped keys = same keys (run-Settled env name args w keys tt now)
    run-IsTyped config = same config (run-Settled env name args w config tt now)
    run-IsTyped zrank = same zrank (run-Settled env name args w zrank tt now)
    run-IsTyped zrange = same zrange (run-Settled env name args w zrange tt now)
    run-IsTyped zcard = same zcard (run-Settled env name args w zcard tt now)
    run-IsTyped zscore = same zscore (run-Settled env name args w zscore tt now)
    run-IsTyped getbit = same getbit (run-Settled env name args w getbit tt now)
    run-IsTyped strlen = same strlen (run-Settled env name args w strlen tt now)
    run-IsTyped bitcount = same bitcount (run-Settled env name args w bitcount tt now)
    run-IsTyped geopos = same geopos (run-Settled env name args w geopos tt now)
    run-IsTyped geodist = same geodist (run-Settled env name args w geodist tt now)
    run-IsTyped geosearch = same geosearch (run-Settled env name args w geosearch tt now)
    run-IsTyped unknown = same unknown (run-Settled env name args w unknown tt now)

-- In the store each entry of kind stream has a stream, and each of kind zset a sorted set. Then this is so
-- behind any command, at any time: `handleCommands` leaves such a store where it has replied, and where it
-- waits. A panic, and a call that is blocked, leave no store.
pub handle_commands-IsTyped :
    (env : Env) (cmd : List Bytes) (now : ℕ) (w : World)
    → IsTyped w.store.entries
    → Keeps (handle_commands env cmd now w)
unfolding handle_commands
handle_commands-IsTyped env [] now w h = h
handle_commands-IsTyped env (name ∷ args) now w h =
    run-IsTyped w h env name args now (command_of name)
