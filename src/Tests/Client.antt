-- ===== src/Tests/Client.antt =====
-- Connections on concrete commands.
use redis_go.Base.{
  if◌then◌else◌, ◌≡◌, refl, true, false, List, [], ◌∷◌, ◌++◌, some, arith, Bytes, codes, bytes_eq,
  length, All, replicate,
}
use redis_go.Base.Int.{pos}
use redis_go.Base.Dict.{Dict, get, get_or}
use redis_go.Base.Floats.{Floats}
use redis_go.Config.{Config}
use redis_go.Decimal.{format}
use redis_go.Store.{new_store, done}
use redis_go.Server.{new_acl, User, check_password, default}
use redis_go.Replication.{new_replica_set}
use redis_go.Resp.Write.{array_header}
use redis_go.Commands.{Env}
use redis_go.Commands.Reply.{to_upper}
use redis_go.Client.{new_client, handle, in_mode, dispatch, run_verb}
use redis_go.Client.State.{Client, Node, ready, has_name}
use redis_go.Client.Session.{Session, stop, round}
use redis_go.Client.Transactions.{run_queue}
use redis_go.Client.Channels.{auth, log_in}
use redis_go.Client.Gate.{IsStranger, IsError, Session-IsError}
use redis_go.Client.Login.{handle-new_client}
use redis_go.Client.Queueing.{Session-run_queue}
use redis_go.Client.Watched.{SameData, handle-SameData}

-- Operations that no run here uses.
abbrev pub floats : Floats
floats = record {
  parse = λ s. (0, false);
  format = λ x. format x;
  format_six = λ x. format x;
  add = λ x y. x;
  sub = λ x y. x;
  mul = λ x y. x;
  div = λ x y. x;
  sqrt = λ x. x;
  sin = λ x. x;
  cos = λ x. x;
  asin = λ x. x;
  of_uint = λ x. x;
  to_uint32 = λ x. x;
  to_uint64 = λ x. x;
}

abbrev pub config : Config
config = record {
  port = pos 6379;
  is_replica = false;
  master_host = [];
  master_port = [];
  dir = codes ".";
  db_filename = [];
  append_only = true;
  aof_dir = codes "./aof";
  append_filename = codes "file";
  append_fsync = codes "always";
  append_dirname = codes "aof";
}

-- A digest, for the sake of the runs: the text with a mark before it.
abbrev mark : Bytes → Bytes
mark pw = codes "#" ++ pw

abbrev pub env : Env
env = record { floats = floats; digest = mark; config = config; replication_id = codes "0a" }

abbrev users : Dict User
users = (default, record { name = default; flags = []; passwords = codes "#pw" ∷ [] }) ∷ []

abbrev pub node : Node
node = record {
  world = record { store = new_store; users = users };
  pubsub = record { channels = []; written = λ conn. [] };
  replicas = new_replica_set;
  aof = some [];
}

abbrev stranger : Client
stranger = record { conn = 1; tx = 1; has_sub = false; subscribed = []; has_user = false }

abbrev pub user_one : Client
user_one = record stranger { has_user = true }

abbrev pub user_two : Client
user_two = record user_one { conn = 2; tx = 2 }

stranger-IsStranger : IsStranger stranger node
stranger-IsStranger = record { has_user = refl; subscribed = refl; inactive = refl }

abbrev attempts : List (List Bytes)
attempts = (codes "get" ∷ codes "k" ∷ []) ∷ (codes "Auth" ∷ codes "guess" ∷ []) ∷ []

abbrev denials : List Bytes
denials =
    codes "-NOAUTH Authentication required.\r\n"
    ∷ codes "-WRONGPASS invalid username-password pair or user is disabled.\r\n"
    ∷ []

attempts_run : Session env stranger node attempts denials stranger node
unfolding handle in_mode dispatch run_verb auth log_in check_password to_upper bytes_eq get get_or
    has_name
attempts_run = round (λ k. 0) refl (round (λ k. 0) refl stop)

Session-IsError_example :
    (replies : List Bytes) × Session env stranger node attempts replies stranger node
    × All IsError replies
Session-IsError_example =
    Session-IsError env (λ k. 0) stranger node attempts stranger-IsStranger
      (unfold to_upper bytes_eq check_password get in (refl, (refl, tt)))

abbrev queued : List (List Bytes)
queued = (codes "set" ∷ codes "k" ∷ codes "v" ∷ []) ∷ (codes "GET" ∷ codes "k" ∷ []) ∷ []

Session-run_queue_example :
    (n' : Node) × Session env user_one node
      ((codes "multi" ∷ []) ∷ queued)
      (codes "+OK\r\n" ∷ replicate (length queued) (codes "+QUEUED\r\n"))
      user_one
      n'
    × (handle env (codes "Exec" ∷ []) (λ k. 7) user_one n'
        ≡ run_queue env queued (λ k. 7) (array_header (length queued)) user_one node)
Session-run_queue_example =
    Session-run_queue env (λ k. 7) (codes "multi") (codes "Exec") [] [] queued user_one node refl
      refl refl (unfold to_upper in refl) (unfold to_upper in refl)
      (unfold to_upper has_name bytes_eq in (refl, (refl, tt)))

handle-SameData_example :
    (n1 n2 n3 n4 : Node) × (handle env
        (codes "watch" ∷ codes "a" ∷ codes "k" ∷ [])
        (λ k. 7)
        user_one
        node
      ≡ done (ready (codes "+OK\r\n") user_one n1))
    × (handle env (codes "multi" ∷ []) (λ k. 7) user_one n1
        ≡ done (ready (codes "+OK\r\n") user_one n2))
    × (handle env (codes "set" ∷ codes "k" ∷ codes "v" ∷ []) (λ k. 7) user_two n2
        ≡ done (ready (codes "+OK\r\n") user_two n3))
    × (handle env (codes "exec" ∷ []) (λ k. 7) user_one n3
        ≡ done (ready (codes "*-1\r\n") user_one n4))
    × SameData n4 n3
handle-SameData_example =
    handle-SameData env (λ k. 7) (codes "watch") (codes "multi") (codes "set") (codes "exec")
      (codes "a" ∷ []) [] (codes "k") (codes "v") user_one user_two node (unfold to_upper in refl)
      (unfold to_upper in refl) (unfold to_upper in refl) (unfold to_upper in refl) refl refl refl
      refl refl refl (omega arith)

abbrev fresh : Node
fresh = record node { world = record node.world { users = new_acl } }

handle-new_client_example :
    (n' : Node) × (handle env
        (codes "acl" ∷ codes "setuser" ∷ codes "bob" ∷ codes ">pw" ∷ [])
        (λ k. 7)
        user_one
        fresh
      ≡ done (ready (codes "+OK\r\n") user_one n'))
    × ((new_client 3 3 fresh).has_user ≡ true)
    × ((new_client 3 3 n').has_user ≡ false)
    × (handle env (codes "auth" ∷ codes "guess" ∷ []) (λ k. 7) (new_client 3 3 n') n'
        ≡ done (
            if bytes_eq (mark (codes "pw")) (mark (codes "guess"))
            then ready (codes "+OK\r\n") (record (new_client 3 3 n') { has_user = true }) n'
            else ready
                (codes "-WRONGPASS invalid username-password pair or user is disabled.\r\n")
                (new_client 3 3 n')
                n'))
handle-new_client_example =
    handle-new_client env (λ k. 7) (codes "acl") (codes "setuser") (codes "bob") (codes "auth")
      (codes "pw") (codes "guess") user_one fresh 3 3 (unfold to_upper in refl)
      (unfold to_upper in refl) (unfold to_upper in refl) refl
      (record { has_user = refl; inactive = refl; subscribed = refl }) refl
