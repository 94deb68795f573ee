-- ===== src/Tests/Restarting.antt =====
-- Starts of the program on a disk that is empty, and on the disk that a run leaves.
use redis_go.Base.{◌≡◌, refl, some, none, List, [], ◌∷◌, ◌++◌, arith, Bytes, codes, bytes_eq, All}
use redis_go.Base.Dict.{get, put, remove, get_or}
use redis_go.Decimal.{format}
use redis_go.Resp.Reader.RoundTrip.{IsSendable}
use redis_go.Resp.Write.{bulk}
use redis_go.Server.{new_acl}
use redis_go.Store.{new_store, done, mark_watchers, mark_all}
use redis_go.Store.Strings as store
use redis_go.Commands.{World, handle_commands, command_of, run}
use redis_go.Commands.Durable.{IsDurable}
use redis_go.Commands.Reply.{to_upper}
use redis_go.Commands.Strings as commands
use redis_go.Client.{handle, in_mode, dispatch, run_verb, run_command, go_on, record_write}
use redis_go.Client.State.{Node, ready, has_name}
use redis_go.Client.Logged.{Serving, stop, serve, IsPlain}
use redis_go.Main.Start.{Disk, listening, new_node, loaded, start}
use redis_go.Main.Restart.{IsNamed, incr_path, first_disk, disk_with}
use redis_go.Main.Lasting.{start-Serving}
use redis_go.Main.Safe.{start-IsSafe}
use redis_go.Commands.Progress.{replied}
use redis_go.Tests.Client.{env, user_one, user_two}

-- A stand-in for the joining of paths.
abbrev join : Bytes → Bytes → Bytes
join a b = a ++ b'/' ∷ b

abbrev no_files : Disk
no_files path = none

abbrev new_world : World
new_world = record { store = new_store; users = new_acl }

abbrev begun : Node
begun = new_node new_world (some [])

abbrev set_cmd : List Bytes
set_cmd = codes "Set" ∷ codes "k" ∷ codes "v" ∷ []

abbrev get_cmd : List Bytes
get_cmd = codes "GET" ∷ codes "k" ∷ []

abbrev cmds : List (List Bytes)
cmds = set_cmd ∷ get_cmd ∷ []

abbrev written : Node
written = record_write set_cmd (record begun {
  world = record new_world { store = store.set (codes "k") (codes "v") 0 new_store };
})

set_run :
    handle env set_cmd (λ k. 7) user_one begun ≡ done (ready (codes "+OK\r\n") user_one written)
unfolding handle in_mode dispatch run_verb run_command go_on handle_commands command_of run
    commands.set to_upper bytes_eq get_or get has_name
set_run = refl

get_run :
    handle env get_cmd (λ k. 7) user_two written
    ≡ done (ready (codes "$1\r\nv\r\n") user_two written)
unfolding handle in_mode dispatch run_verb run_command go_on handle_commands command_of run
    commands.get to_upper bytes_eq get_or get put remove has_name record_write store.set
    store.get_value mark_watchers mark_all bulk format
get_run = refl

user_one-IsPlain : IsPlain user_one begun
user_one-IsPlain = record { has_user = refl; inactive = refl; subscribed = refl }

user_two-IsPlain : IsPlain user_two written
unfolding record_write store.set mark_watchers mark_all to_upper has_name bytes_eq get_or get
user_two-IsPlain = record { has_user = refl; inactive = refl; subscribed = refl }

cmds_run : Serving env begun cmds written
unfolding get_or to_upper bytes_eq get
cmds_run =
    serve (λ k. 7) user_one user_one (codes "+OK\r\n") user_one-IsPlain refl set_run
      (serve (λ k. 7) user_two user_two (codes "$1\r\nv\r\n") user_two-IsPlain refl get_run stop)

cmds-IsSendable : All IsSendable cmds
cmds-IsSendable = (
  record { not_empty = cc; few = omega arith; fit = omega arith },
  (record { not_empty = cc; few = omega arith; fit = omega arith }, tt),
)

cmds-IsDurable : All IsDurable cmds
unfolding command_of to_upper get_or get bytes_eq
cmds-IsDurable = (tt, (tt, tt))

names-IsNamed : IsNamed env join
unfolding bytes_eq
names-IsNamed = record {
  manifest_incr = refl;
  manifest_dump = refl;
  incr_dump = refl;
  printable = (refl, (refl, (refl, (refl, tt))));
}

start-Serving_example :
    (start env join (λ k. 3) no_files
      ≡ listening begun (first_disk env join no_files) (some (incr_path env join)))
    × ((content : Bytes) × (written.aof ≡ some content)
        × (start env join (λ k. 9) (disk_with env join content no_files)
            ≡ listening
                (new_node written.world (some content))
                (disk_with env join content no_files)
                (some (incr_path env join))))
start-Serving_example =
    start-Serving env join (λ k. 3) (λ k. 9) no_files new_store written cmds refl names-IsNamed
      (record { manifest = refl; incr = refl }) (unfold loaded bytes_eq in refl) cmds-IsSendable
      cmds-IsDurable cmds_run

first_start :
    start env join (λ k. 3) no_files
    ≡ listening begun (first_disk env join no_files) (some (incr_path env join))
first_start =
    (start-Serving env join (λ k. 3) (λ k. 9) no_files new_store written cmds refl names-IsNamed
      (record { manifest = refl; incr = refl }) (unfold loaded bytes_eq in refl) cmds-IsSendable
      cmds-IsDurable cmds_run).0

abbrev entry : List Bytes
entry = codes "log" ∷ codes "1-1" ∷ codes "f" ∷ codes "v" ∷ []

start-IsSafe_example :
    (reply : Bytes) × ((w : World) × (handle_commands env (codes "xadd" ∷ entry) 12 written.world
        ≡ done (replied reply w)))
start-IsSafe_example =
    start-IsSafe env join (λ k. 3) no_files (first_disk env join no_files)
      (some (incr_path env join)) begun written cmds (codes "xadd") entry 12 first_start cmds_run
      (unfold command_of to_upper get_or get bytes_eq in tt)
