-- ===== src/Commands/Admin.antt =====
-- The cases INFO, CONFIG and ACL of app/handleCommands.go, and the part of `server` that they read.
use redis_go.Base.{List, [], ◌∷◌, ◌++◌, none, some, if◌then◌else◌, Bytes, codes, bytes_eq, length}
use redis_go.Base.Dict.{Dict, get}
use redis_go.Config.{Config}
use redis_go.Resp.Write.{array_header, bulk, bulks_onto, bulk_string}
use redis_go.Replication.{fold, equal_fold}
use redis_go.Server.{User, default, set_user}
use redis_go.Store.{Outcome, done, panic, ◌>>=◌}
use redis_go.Commands.Reply.{to_upper}

-- `role` of app/replication.go
unfoldable pub role : Config → Bytes
role cfg = if cfg.is_replica then codes "slave" else codes "master"

-- The offset is written as 0 whatever it is.
unfoldable pub info : Config → Bytes → Bytes
unfolding role
info cfg replication_id = bulk (
    codes "# Replication\r\nrole:"
    ++ (role cfg
        ++ (codes "\r\nmaster_replid:" ++ (replication_id ++ codes "\r\nmaster_repl_offset:0"))))

-- Another parameter has no reply.
unfoldable pub config_get : Config → Bytes → Bytes
config_get cfg v =
    if bytes_eq v (codes "dir")
    then bulk_string (codes "dir" ∷ cfg.dir ∷ [])
    else if bytes_eq v (codes "dbfilename")
    then bulk_string (codes "dbfilename" ∷ cfg.db_filename ∷ [])
    else if bytes_eq v (codes "appenddirname")
    then bulk_string (codes "appenddirname" ∷ cfg.append_dirname ∷ [])
    else if bytes_eq v (codes "appendonly")
    then bulk_string
        (codes "appendonly" ∷ (if cfg.append_only then codes "yes" else codes "no") ∷ [])
    else if bytes_eq v (codes "appendfilename")
    then bulk_string (codes "appendfilename" ∷ cfg.append_filename ∷ [])
    else if bytes_eq v (codes "appendfsync")
    then bulk_string (codes "appendfsync" ∷ cfg.append_fsync ∷ [])
    else []

unfoldable pub config : Config → List Bytes → Bytes
unfolding config_get fold
config cfg (sub ∷ v ∷ _) = if equal_fold sub (codes "GET") then config_get cfg v else []
config cfg _ = codes "-ERR invalid number of arguments for 'config'\r\n"

unfoldable pub user_reply : User → Bytes
user_reply u =
    bulks_onto
      (bulks_onto (codes "*4\r\n$5\r\nflags\r\n" ++ array_header (length u.flags)) u.flags
        ++ (codes "$9\r\npasswords\r\n" ++ array_header (length u.passwords)))
      u.passwords

-- `srv.getUser("default")`, whose fields are read: a panic where there is none.
unfoldable pub default_user : Dict User → Outcome User
default_user users = elim (get users default) [ none ↦ panic | some u ↦ done u ]

module _ (digest : Bytes → Bytes) where
  -- Whatever name is given, the default user is the one that is set. `cmd[3]` may be out of range.
  unfoldable pub acl_setuser : List Bytes → Dict User → Outcome (Bytes × Dict User)
  acl_setuser (name ∷ rule ∷ _) users = do
    users' ← set_user digest default rule users
    done (codes "+OK\r\n", users')
  acl_setuser _ users = panic

  unfoldable pub acl : List Bytes → Dict User → Outcome (Bytes × Dict User)
  unfolding acl_setuser default_user user_reply to_upper
  acl [] users = panic
  acl (sub ∷ rest) users =
      if bytes_eq (to_upper sub) (codes "WHOAMI")
      then (do u ← default_user users; done (bulk u.name, users))
      else if bytes_eq (to_upper sub) (codes "GETUSER")
      then (do u ← default_user users; done (user_reply u, users))
      else if bytes_eq (to_upper sub) (codes "SETUSER")
      then acl_setuser rest users
      else done ([], users)
