-- ===== src/Commands.antt =====
-- app/handleCommands.go: `handleCommands` runs one command and writes its reply. The children have the
-- cases, by the part of the store that they call.
pub mod Reply
pub mod Progress
pub mod Strings
pub mod Lists
pub mod Streams
pub mod Zsets
pub mod Bits
pub mod Admin
pub mod Geo
pub mod Cases
pub mod Expiring
pub mod Reads
pub mod Durable
pub mod Kinds
pub mod Answers
use redis_go.Base.{ℕ, ◌-◌, ◌*◌, ◌/◌, ◌^◌, List, [], ◌∷◌, ◌++◌, Bytes, codes}
use redis_go.Base.Dict.{Dict, get_or}
use redis_go.Base.Floats.{Floats}
use redis_go.Config.{Config}
use redis_go.Rdb.Load.{unix_epoch}
use redis_go.Server.{User}
use redis_go.Store.{Store, Outcome, done, ◌>>=◌}
use redis_go.Commands.Reply.{to_upper}
use redis_go.Commands.Progress.{Handled, replied, waiting_pop, waiting_read}
use redis_go.Commands.Strings
use redis_go.Commands.Lists
use redis_go.Commands.Streams
use redis_go.Commands.Zsets
use redis_go.Commands.Bits
use redis_go.Commands.Geo
use redis_go.Commands.Admin

-- What a handler may change: the store, and the users of `srv.acl`.
pub record World : Type 0 where
  pub store : Store
  pub users : Dict User

-- What it only reads: `srv.cfg` and the replication ID, with the float64 operations and the hexadecimal
-- SHA-256 of a text.
pub record Env : Type 0 where
  pub floats : Floats
  pub digest : Bytes → Bytes
  pub config : Config
  pub replication_id : Bytes

-- The cases of the switch.
pub data Command : Type 0 where
  ping echo set get incr type rpush lpush llen lrange lpop blpop xadd xrange xread : Command
  info keys config zadd zrank zrange zcard zscore zrem : Command
  setbit getbit strlen bitcount bitop geoadd geopos geodist geosearch acl unknown : Command

abbrev pub command_table : Dict Command
command_table =
    (codes "PING", ping)
    ∷ (codes "ECHO", echo)
    ∷ (codes "SET", set)
    ∷ (codes "GET", get)
    ∷ (codes "INCR", incr)
    ∷ (codes "TYPE", type)
    ∷ (codes "RPUSH", rpush)
    ∷ (codes "LPUSH", lpush)
    ∷ (codes "LLEN", llen)
    ∷ (codes "LRANGE", lrange)
    ∷ (codes "LPOP", lpop)
    ∷ (codes "BLPOP", blpop)
    ∷ (codes "XADD", xadd)
    ∷ (codes "XRANGE", xrange)
    ∷ (codes "XREAD", xread)
    ∷ (codes "INFO", info)
    ∷ (codes "KEYS", keys)
    ∷ (codes "CONFIG", config)
    ∷ (codes "ZADD", zadd)
    ∷ (codes "ZRANK", zrank)
    ∷ (codes "ZRANGE", zrange)
    ∷ (codes "ZCARD", zcard)
    ∷ (codes "ZSCORE", zscore)
    ∷ (codes "ZREM", zrem)
    ∷ (codes "SETBIT", setbit)
    ∷ (codes "GETBIT", getbit)
    ∷ (codes "STRLEN", strlen)
    ∷ (codes "BITCOUNT", bitcount)
    ∷ (codes "BITOP", bitop)
    ∷ (codes "GEOADD", geoadd)
    ∷ (codes "GEOPOS", geopos)
    ∷ (codes "GEODIST", geodist)
    ∷ (codes "GEOSEARCH", geosearch)
    ∷ (codes "ACL", acl)
    ∷ []

unfoldable pub command_of : Bytes → Command
unfolding get_or to_upper
command_of name = get_or command_table (to_upper name) unknown

-- The result of a handler on the store, in the world that holds it.
abbrev pub on_store : World → Outcome (Bytes × Store) → Outcome (Handled World)
on_store w o = do (reply, s) ← o; done (replied reply (record w { store = s }))

abbrev pub with_store : World → Handled Store → Handled World
with_store w (replied reply s) = replied reply (record w { store = s })
with_store w (waiting_pop asked ch s) = waiting_pop asked ch (record w { store = s })
with_store w (waiting_read ids ch s) = waiting_read ids ch (record w { store = s })

abbrev pub on_waiting : World → Outcome (Handled Store) → Outcome (Handled World)
on_waiting w o = do h ← o; done (with_store w h)

abbrev pub on_users : World → Outcome (Bytes × Dict User) → Outcome (Handled World)
on_users w o = do (reply, users) ← o; done (replied reply (record w { users = users }))

-- `UnixMilli` of an instant.
abbrev pub milli_of : ℕ → ℕ
milli_of now = (now - unix_epoch) / 10 ^ 6

module _ (env : Env) where
  -- One case of the switch, on the name as it was given and the arguments behind it, at the time `now`.
  unfoldable pub run : Command → Bytes → List Bytes → ℕ → World → Outcome (Handled World)
  run ping name args now w = done (replied (codes "+PONG\r\n") w)
  run echo name args now w = on_store w (Strings.echo args w.store)
  run set name args now w = on_store w (Strings.set args now w.store)
  run get name args now w = on_store w (Strings.get args now w.store)
  run incr name args now w = on_store w (Strings.incr args w.store)
  run type name args now w = on_store w (Strings.type args w.store)
  run rpush name args now w = on_store w (Lists.rpush args w.store)
  run lpush name args now w = on_store w (Lists.lpush args w.store)
  run llen name args now w = on_store w (Lists.llen args w.store)
  run lrange name args now w = on_store w (Lists.lrange args w.store)
  run lpop name args now w = on_store w (Lists.lpop args w.store)
  run blpop name args now w = on_waiting w (Lists.blpop env.floats args w.store)
  run xadd name args now w = on_store w (Streams.xadd args (milli_of now) w.store)
  run xrange name args now w = on_store w (Streams.xrange args w.store)
  run xread name args now w = on_waiting w (Streams.xread args w.store)
  run info name args now w = done (replied (Admin.info env.config env.replication_id) w)
  run keys name args now w = on_store w (Strings.keys args w.store)
  run config name args now w = done (replied (Admin.config env.config args) w)
  run zadd name args now w = on_store w (Zsets.zadd env.floats args w.store)
  run zrank name args now w = on_store w (Zsets.zrank args w.store)
  run zrange name args now w = on_store w (Zsets.zrange args w.store)
  run zcard name args now w = on_store w (Zsets.zcard args w.store)
  run zscore name args now w = on_store w (Zsets.zscore env.floats args w.store)
  run zrem name args now w = on_store w (Zsets.zrem args w.store)
  run setbit name args now w = on_store w (Bits.setbit args now w.store)
  run getbit name args now w = on_store w (Bits.getbit args now w.store)
  run strlen name args now w = on_store w (Bits.strlen args now w.store)
  run bitcount name args now w = on_store w (Bits.bitcount args w.store)
  run bitop name args now w = on_store w (Bits.bitop args w.store)
  run geoadd name args now w = on_store w (Geo.geoadd env.floats args w.store)
  run geopos name args now w = on_store w (Geo.geopos env.floats args now w.store)
  run geodist name args now w = on_store w (Geo.geodist env.floats args w.store)
  run geosearch name args now w = on_store w (Geo.geosearch env.floats args w.store)
  run acl name args now w = on_users w (Admin.acl env.digest args w.users)
  run unknown name args now w =
      done (replied (codes "-ERR unknown command '" ++ (name ++ codes "'\r\n")) w)

  unfoldable pub handle_commands : List Bytes → ℕ → World → Outcome (Handled World)
  unfolding run command_of
  handle_commands [] now w = done (replied [] w)
  handle_commands (name ∷ args) now w = run (command_of name) name args now w
