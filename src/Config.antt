-- ===== src/Config.antt =====
-- `config` and `parseFlags` of app/config.go. The flags are given as package flag has parsed them.
pub mod Accepted
use redis_go.Base.{
  Bool, false, true, ◌||◌, [], ◌∷◌, Option, none, some, ◌==◌, if◌then◌else◌, Bytes, codes, bytes_eq,
}
use redis_go.Base.Int.{ℤ}

pub record Flags : Type 0 where
  pub port : ℤ
  pub replica_of : Bytes
  pub dir : Bytes
  pub db_filename : Bytes
  pub append_only : Bytes
  pub append_dirname : Bytes
  pub append_filename : Bytes
  pub append_fsync : Bytes

pub record Config : Type 0 where
  pub port : ℤ
  pub is_replica : Bool
  pub master_host : Bytes
  pub master_port : Bytes
  pub dir : Bytes
  pub db_filename : Bytes
  pub append_only : Bool
  pub aof_dir : Bytes
  pub append_filename : Bytes
  pub append_fsync : Bytes
  pub append_dirname : Bytes

pub data FlagError : Type 0 where
  bad_replicaof bad_appendfsync : FlagError

pub data Parsed : Type 0 where
  parsed : Config → Parsed
  refused : FlagError → Parsed

-- `strings.Cut(s, " ")`
unfoldable pub cut_space : Bytes → Option (Bytes × Bytes)
cut_space [] = none
cut_space (c ∷ s) =
    let rest = cut_space s in
    if c == b' ' then some ([], s) else elim rest [ none ↦ none | some (a, b) ↦ some (c ∷ a, b) ]

unfoldable pub with_master : Bytes → Config → Parsed
unfolding cut_space
with_master [] cfg = parsed cfg
with_master (c ∷ s) cfg = elim (cut_space (c ∷ s)) [
  | none ↦ refused bad_replicaof
  | some (host, port) ↦
      parsed (record cfg { is_replica = true; master_host = host; master_port = port })
]

unfoldable pub check_fsync : Config → Parsed
check_fsync cfg =
    if bytes_eq cfg.append_fsync (codes "always")
      || (bytes_eq cfg.append_fsync (codes "everysec") || bytes_eq cfg.append_fsync (codes "no"))
    then parsed cfg
    else refused bad_appendfsync

-- `join` is `filepath.Join`.
module _ (join : Bytes → Bytes → Bytes) where
  unfoldable pub start_config : Flags → Config
  start_config f = record {
    port = f.port;
    is_replica = false;
    master_host = [];
    master_port = [];
    dir = f.dir;
    db_filename = f.db_filename;
    append_only = bytes_eq f.append_only (codes "yes");
    aof_dir = join f.dir f.append_dirname;
    append_filename = f.append_filename;
    append_fsync = f.append_fsync;
    append_dirname = f.append_dirname;
  }

  unfoldable pub parse_flags : Flags → Parsed
  unfolding start_config with_master check_fsync
  parse_flags f = elim (with_master f.replica_of (start_config f)) [
    | refused e ↦ refused e
    | parsed cfg ↦ check_fsync cfg
  ]
