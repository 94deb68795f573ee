-- ===== src/Main/Start.antt =====
-- The start of `main` of app/main.go: from the configuration and the disk to the state in which the
-- program listens. The disk is what its files hold; an error of the operating system other than that
-- a file is not there is left out.
use redis_go.Base.{
  ℕ, suc, List, [], ◌++◌, Option, none, some, if◌then◌else◌, Bytes, codes, bytes_eq,
}
use redis_go.Base.Floats.{Floats}
use redis_go.Config.{Config}
use redis_go.Resp.Reader.{ReadError}
use redis_go.Rdb.Load as rdb
use redis_go.Server.{new_acl}
use redis_go.Pubsub.{new_pubsub}
use redis_go.Replication.{new_replica_set}
use redis_go.Aof.{Ending, finished, failed, replay}
use redis_go.Store.{Store, Outcome, done, new_store}
use redis_go.Commands.{World, Env, handle_commands}
use redis_go.Commands.Progress.{Handled, replied}
use redis_go.Client.State.{Node}
use redis_go.Main.{incr_file_name_from_manifest, new_manifest, set_at}

-- What a path names; `none` where there is no file.
abbrev pub Disk : Type 0
Disk = Bytes → Option Bytes

-- `os.WriteFile`
unfoldable pub write_file : Bytes → Bytes → Disk → Disk
write_file path content d other = if bytes_eq path other then some content else d other

-- `os.OpenFile` with `O_CREATE`: a file that is there is left as it is.
unfoldable pub open_file : Bytes → Disk → Disk
unfolding write_file
open_file path d = elim (d path) [ none ↦ write_file path [] d | some content ↦ d ]

-- What is read from a file that is open.
abbrev pub content_of : Option Bytes → Bytes
content_of none = []
content_of (some content) = content

-- `newServer`, but for its replicas, its subscribers and its users.
abbrev pub new_env : Floats → (Bytes → Bytes) → Config → Env
new_env floats digest cfg = record {
  floats = floats;
  digest = digest;
  config = cfg;
  replication_id = codes "8371b4fb1155b71f4a04d3e1bc3e18c4a990aeeb";
}

-- `handleCommands` during the replay, when it is called for the so many-th time: it goes on from a state,
-- or has come to a command at which it waits, is blocked or panics.
pub data Replaying : Type 0 where
  running : ℕ → World → Replaying
  held : Outcome (Handled World) → Replaying

pub data Started : Type 0 where
  -- The program listens, with its append-only file at the path.
  listening : Node → Disk → Option Bytes → Started
  bad_dump : rdb.Ending → Started
  bad_manifest : Started
  bad_aof : ReadError → Started
  held : Outcome (Handled World) → Started

-- The program's shared parts when it begins to listen.
abbrev pub new_node : World → Option Bytes → Node
new_node w aof = record { world = w; pubsub = new_pubsub; replicas = new_replica_set; aof = aof }

module _ (env : Env) where
  unfoldable pub after_command : ℕ → Outcome (Handled World) → Replaying
  after_command k (done (replied reply w)) = running (suc k) w
  after_command k other = held other

  unfoldable pub replay_command : (ℕ → ℕ) → List Bytes → Replaying → Replaying
  unfolding after_command
  replay_command clock cmd (running k w) = after_command k (handle_commands env cmd (clock k) w)
  replay_command clock cmd (held o) = held o

  unfoldable pub replayed : Disk → Bytes → Bytes → Replaying × Ending → Started
  replayed d path content (running k w, finished) =
      listening (new_node w (some content)) d (some path)
  replayed d path content (running k w, failed e) = bad_aof e
  replayed d path content (held o, ending) = held o

  -- The file is opened for the program's own records, and then read from its start.
  unfoldable pub replay_file : (ℕ → ℕ) → Bytes → Disk → World → Started
  unfolding open_file replayed replay_command
  replay_file clock path d w =
      let d' = open_file path d in
      let content = content_of (d' path) in
      replayed d' path content (replay (replay_command clock) (some content) (running 0 w))

  -- `filepath.Join`
  module _ (join : Bytes → Bytes → Bytes) where
    abbrev pub manifest_path : Bytes
    manifest_path = join env.config.aof_dir (env.config.append_filename ++ codes ".manifest")

    abbrev pub first_incr : Bytes
    first_incr = env.config.append_filename ++ codes ".1.incr.aof"

    unfoldable pub name_read : (ℕ → ℕ) → Disk → World → Option Bytes → Started
    unfolding replay_file
    name_read clock d w none = bad_manifest
    name_read clock d w (some name) = replay_file clock (join env.config.aof_dir name) d w

    unfoldable pub manifest_read : (ℕ → ℕ) → Disk → World → Option Bytes → Started
    unfolding name_read write_file
    manifest_read clock d w none =
        replay_file clock (join env.config.aof_dir first_incr)
          (write_file manifest_path (new_manifest first_incr) d) w
    manifest_read clock d w (some manifest) =
        name_read clock d w (incr_file_name_from_manifest manifest)

    unfoldable pub open_aof : (ℕ → ℕ) → Disk → World → Started
    unfolding manifest_read
    open_aof clock d w = manifest_read clock d w (d manifest_path)

    -- `LoadRDBFile`; where there is no dump the store stays empty.
    unfoldable pub load_rdb_file : Option Bytes → Store → Store × rdb.Ending
    load_rdb_file none s = (s, rdb.finished)
    load_rdb_file (some file) s = rdb.load set_at file s

    abbrev pub dump_path : Bytes
    dump_path = join env.config.dir env.config.db_filename

    unfoldable pub loaded : Disk → Store × rdb.Ending
    unfolding load_rdb_file
    loaded d =
        if bytes_eq env.config.db_filename []
        then (new_store, rdb.finished)
        else load_rdb_file (d dump_path) new_store

    unfoldable pub start_aof : (ℕ → ℕ) → Disk → Store × rdb.Ending → Started
    unfolding open_aof
    start_aof clock d (s, rdb.finished) =
        let w : World = record { store = s; users = new_acl } in
        let opened = open_aof clock d w in
        if env.config.append_only then opened else listening (new_node w none) d none
    start_aof clock d (s, ending) = bad_dump ending

    unfoldable pub start : (ℕ → ℕ) → Disk → Started
    unfolding loaded start_aof
    start clock d = start_aof clock d (loaded d)
