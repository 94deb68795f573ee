-- ===== src/Tests/Serving.antt =====
-- What many connections write, through a restart, to a replica, and in an EXEC.
use redis_go.Base.{
  All, some, leb, none, ℕ, ◌+◌, ◌*◌, ◌^◌, ◌≡◌, refl, true, false, ltb, if◌then◌else◌, List, [], ◌∷◌,
  ◌++◌, map, arith, Bytes, codes, bytes_eq,
}
use redis_go.Base.Int.{pos}
use redis_go.Base.Dict.{get, put, remove, get_or}
use redis_go.Decimal.{parse_int, format}
use redis_go.Config.{Flags, Config, parse_flags, start_config, with_master, check_fsync, cut_space}
use redis_go.Config.Accepted.{Follows, is_policy, parse_flags-Follows}
use redis_go.Resp.Reader.{eof}
use redis_go.Resp.Reader.RoundTrip.{IsSendable}
use redis_go.Resp.Write.{integer, bulk, encode_command}
use redis_go.Replication.{fold, count_acked, Follower, add, new_replica_set}
use redis_go.Store.{zero_transaction, done, mark_watchers, mark_all}
use redis_go.Store.Strings as store
use redis_go.Commands.{World, handle_commands, command_of, run}
use redis_go.Commands.Expiring.{handle_commands-expires}
use redis_go.Commands.Progress.{replied}
use redis_go.Commands.Reply.{null_bulk, to_upper}
use redis_go.Commands.Strings as commands
use redis_go.Client.{handle, in_mode, dispatch, run_verb, run_command, go_on, record_write}
use redis_go.Client.State.{Client, Counting, counting, Node, ready, has_name}
use redis_go.Client.Transactions.{exec, with_transaction}
use redis_go.Client.Logged.{Serving, stop, serve, IsPlain}
use redis_go.Client.Session.{Session}
use redis_go.Client.Joining.{HasNoLineFeed, joined, answers, handshake_cmds}
use redis_go.Client.Joining.Applied.{with_replica}
use redis_go.Main.Start.{Replaying, running, replay_command}
use redis_go.Main.Replica.{start_replication-with_replica}
use redis_go.Commands.Durable.{IsDurable}
use redis_go.Replication.Handshake.{start_replication, followed}
use redis_go.Client.Replicas.{replconf, wait_woken}
use redis_go.Client.Waiting.{wait_woken-replconf}
use redis_go.Client.Unlogged.{Keeps, exec-Keeps}
use redis_go.Tests.Client.{env, config, node, user_one, user_two}

abbrev set_cmd : List Bytes
set_cmd = codes "set" ∷ codes "k" ∷ codes "v" ∷ []

abbrev get_cmd : List Bytes
get_cmd = codes "GET" ∷ codes "k" ∷ []

abbrev cmds : List (List Bytes)
cmds = set_cmd ∷ get_cmd ∷ []

set_cmd-IsSendable : IsSendable set_cmd
set_cmd-IsSendable = record { not_empty = cc; few = omega arith; fit = omega arith }

get_cmd-IsSendable : IsSendable get_cmd
get_cmd-IsSendable = record { not_empty = cc; few = omega arith; fit = omega arith }

-- A replica on the connection 4.
abbrev leader : Node
leader = record node {
  replicas = record new_replica_set { replicas = (record { conn = 4; acc_offset = pos 0 }) ∷ [] };
}

abbrev written : Node
written = record_write set_cmd (record leader {
  world = record leader.world { store = store.set (codes "k") (codes "v") 0 leader.world.store };
})

set_run :
    handle env set_cmd (λ k. 7) user_one leader ≡ done (ready (codes "+OK\r\n") user_one written)
unfolding handle in_mode dispatch run_verb run_command go_on handle_commands command_of run
    commands.set to_upper bytes_eq get_or get has_name
set_run = refl

get_run :
    handle env get_cmd (λ k. 7) user_two written
    ≡ done (ready (codes "$1\r\nv\r\n") user_two written)
unfolding handle in_mode dispatch run_verb run_command go_on handle_commands command_of run
    commands.get to_upper bytes_eq get_or get put remove has_name record_write store.set
    store.get_value mark_watchers mark_all bulk format
get_run = refl

user_one-IsPlain : IsPlain user_one leader
user_one-IsPlain = record { has_user = refl; inactive = refl; subscribed = refl }

user_two-IsPlain : IsPlain user_two written
unfolding record_write store.set mark_watchers mark_all to_upper has_name bytes_eq get_or get
user_two-IsPlain = record { has_user = refl; inactive = refl; subscribed = refl }

cmds_run : Serving env leader cmds written
unfolding get_or to_upper bytes_eq get
cmds_run =
    serve (λ k. 7) user_one user_one (codes "+OK\r\n") user_one-IsPlain refl set_run
      (serve (λ k. 7) user_two user_two (codes "$1\r\nv\r\n") user_two-IsPlain refl get_run stop)

abbrev user_four : Client
user_four = record user_one { conn = 4 }

user_four-IsPlain : IsPlain user_four node
user_four-IsPlain = record { has_user = refl; inactive = refl; subscribed = refl }

id-HasNoLineFeed : HasNoLineFeed env.replication_id
id-HasNoLineFeed = (refl, (refl, tt))

joined_run : Serving env (with_replica user_four node) cmds written
unfolding add
joined_run = cmds_run

abbrev replica_config : Config
replica_config = record config { port = pos 6380; is_replica = true }

cmds-IsDurable : All IsDurable cmds
unfolding command_of to_upper get_or get bytes_eq
cmds-IsDurable = (tt, (tt, tt))

start_replication-with_replica_example :
    Session env user_four node
      (handshake_cmds (pos 6380))
      (answers env.replication_id)
      user_four
      (with_replica user_four node)
    × ((g : Follower Replaying) × (start_replication
            (replay_command (record env { config = replica_config }) (λ k. 5))
            (pos 6380)
            (joined (answers env.replication_id) ++ written.replicas.written 4)
            (running 0 node.world)
          ≡ (joined (map encode_command (handshake_cmds (pos 6380))), followed g eof))
        × ((k : ℕ) × (g.state ≡ running k written.world))
        × (g.offset ≡ written.replicas.offset))
start_replication-with_replica_example =
    start_replication-with_replica env replica_config (λ k. 5) user_four node written cmds
      user_four-IsPlain id-HasNoLineFeed (set_cmd-IsSendable, (get_cmd-IsSendable, tt))
      cmds-IsDurable refl refl refl joined_run

abbrev in_exec : Node
in_exec = with_transaction user_one node (record zero_transaction { active = true; queued = cmds })

exec-Keeps_example : Keeps in_exec (exec env (λ k. 7) user_one in_exec)
exec-Keeps_example = exec-Keeps env (λ k. 7) user_one in_exec

handle_commands-expires_example :
    (w' : World) × (handle_commands env
        (codes "set" ∷ codes "k" ∷ codes "v" ∷ codes "px" ∷ codes "250" ∷ [])
        5
        node.world
      ≡ done (replied (codes "+OK\r\n") w'))
    × (handle_commands env (codes "Get" ∷ codes "k" ∷ []) 9 w'
        ≡ done (replied (if ltb (5 + 250 * 10 ^ 6) 9 then null_bulk else bulk (codes "v")) w'))
handle_commands-expires_example =
    handle_commands-expires env (codes "set") (codes "px") (codes "Get") (codes "k") (codes "v")
      (codes "250") 250 5 9 node.world (unfold to_upper in refl) (unfold to_upper in refl)
      (unfold to_upper in refl) (unfold parse_int in refl) (omega arith) (omega arith)

-- A stand-in for the joining of paths.
abbrev join : Bytes → Bytes → Bytes
join a b = a ++ b'/' ∷ b

abbrev flags : Flags
flags = record {
  port = pos 6380;
  replica_of = codes "localhost 6379";
  dir = codes ".";
  db_filename = [];
  append_only = codes "no";
  append_dirname = codes "aof";
  append_filename = codes "file";
  append_fsync = codes "everysec";
}

abbrev accepted : Config
accepted = record {
  port = pos 6380;
  is_replica = true;
  master_host = codes "localhost";
  master_port = codes "6379";
  dir = codes ".";
  db_filename = [];
  append_only = false;
  aof_dir = codes "./aof";
  append_filename = codes "file";
  append_fsync = codes "everysec";
  append_dirname = codes "aof";
}

parse_flags-Follows_example :
    Follows flags.replica_of accepted
    × (accepted.append_fsync ≡ flags.append_fsync)
    × (is_policy accepted.append_fsync ≡ true)
parse_flags-Follows_example =
    parse_flags-Follows join flags accepted
      (unfold parse_flags start_config with_master check_fsync cut_space bytes_eq in refl)

abbrev replica : Client
replica = record user_two { conn = 4 }

abbrev waiting : Counting
waiting = record { wanted = 1; target = pos 100; count = 0; ack_ch = 0 }

wait_woken-replconf_example :
    (n' : Node) × (replconf (codes "ack" ∷ codes "120" ∷ []) replica leader ≡ ready [] replica n')
    × (wait_woken waiting user_one leader ≡ none)
    × (wait_woken waiting user_one n'
        ≡ some (
            let k = count_acked (pos 100) leader.replicas.replicas + 1 in
            if leb 1 k
            then ready (integer k) user_one n'
            else counting (record waiting { count = k; ack_ch = 1 }) user_one n'))
wait_woken-replconf_example =
    wait_woken-replconf (codes "ack") (codes "120") [] (pos 120) (pos 0) replica user_one leader
      waiting (unfold fold bytes_eq in refl) (unfold parse_int in refl) refl refl refl refl
