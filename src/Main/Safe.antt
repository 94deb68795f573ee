-- ===== src/Main/Safe.antt =====
-- What holds of the store whatever the files that the program is started from.
use redis_go.Base.{
  ℕ, zero, suc, ◌≡◌, true, false, List, [], ◌∷◌, Option, none, some, Bytes, if◌then◌else◌, bytes_eq,
  length,
}
use mathlib.Core.Path.{subst}
use redis_go.Base.Dict.{get}
use redis_go.Base.Int.{ℤ, pos, negsuc}
use redis_go.Resp.Reader.{
  ReadError, Result, eof, unexpected_eof, out_of_fuel, protocol, ok, err, read_command,
}
use redis_go.Rdb.Load as rdb
use redis_go.Rdb.Load.Keeps.{load-Keeps}
use redis_go.Server.{new_acl}
use redis_go.Aof.{Ending, finished, failed, replay, replay_loop}
use redis_go.Store.{Store, new_store, Outcome, done, panic, blocked}
use redis_go.Store.Kinds.{IsTyped}
use redis_go.Store.Kinds.Operations.{set-IsTyped}
use redis_go.Commands.{World, Env, handle_commands, command_of}
use redis_go.Commands.Kinds.Every as kinds
use redis_go.Commands.Kinds.Every.{handle_commands-IsTyped}
use redis_go.Commands.Answers.Typed.{IsSafe, handle_commands-IsSafe}
use redis_go.Commands.Progress.{Handled, replied, waiting_pop, waiting_read}
use redis_go.Client.State.{Node}
use redis_go.Client.Logged.{Serving, stop, serve}
use redis_go.Client.Replayed.{Ran, handle-Ran}
use redis_go.Main.{set_at, new_manifest, incr_file_name_from_manifest}
use redis_go.Main.Start.{
  Disk, Replaying, running, held, Started, listening, new_node, after_command, replay_command,
  replayed, replay_file, name_read, manifest_read, open_aof, open_file, write_file, load_rdb_file,
  loaded, start_aof, start, content_of, first_incr, manifest_path, dump_path,
}

set_at-IsTyped :
    (key value : Bytes) (t : ℤ) (s : Store)
    → IsTyped s.entries
    → IsTyped (set_at key value t s).entries
unfolding set_at
set_at-IsTyped key value (pos t) s h = set-IsTyped s h key value t
set_at-IsTyped key value (negsuc t) s h = set-IsTyped s h key value 1

-- What a start of the program leaves, where it listens.
abbrev IsTypedStart : Started → Type 0
IsTypedStart (listening n d path) = IsTyped n.world.store.entries
IsTypedStart _ = Unit

abbrev IsTypedReplay : Replaying → Type 0
IsTypedReplay (running k w) = IsTyped w.store.entries
IsTypedReplay (held o) = Unit

module _ {S : Type 0} (apply : List Bytes → S → S) (P : S → Type 0)
    (kept : (cmd : List Bytes) (s : S) → P s → P (apply cmd s)) where
  ended :
      (e : ReadError) (s : S)
      → P s
      → (let out : S × Ending = (elim e [ eof ↦ (s, finished) | other ↦ (s, failed other) ]) in
          P out.0)
  ended eof s h = h
  ended unexpected_eof s h = h
  ended out_of_fuel s h = h
  ended (protocol p) s h = h

  replay_loop-kept : (fuel : ℕ) (file : Bytes) (s : S) → P s → P (replay_loop apply fuel file s).0
  unfolding replay_loop
  replay_loop-kept zero file s h = h
  replay_loop-kept (suc fuel) file s h =
      elim (read_command file)
        as (λ (r : Result (List Bytes × Bytes)).
          let out : S × Ending = (elim r [
            | err e ↦ elim e [ eof ↦ (s, finished) | other ↦ (s, failed other) ]
            | ok (cmd, rest) ↦ replay_loop apply fuel rest (apply cmd s)
          ]) in
          P out.0) [
            | err e ↦ ended e s h
            | ok (cmd, rest) ↦ replay_loop-kept fuel rest (apply cmd s) (kept cmd s h)
          ]

module _ (env : Env) (clock : ℕ → ℕ) where
  after_command-IsTyped :
      (k : ℕ) (o : Outcome (Handled World)) → kinds.Keeps o → IsTypedReplay (after_command env k o)
  unfolding after_command
  after_command-IsTyped k (done (replied reply w)) h = h
  after_command-IsTyped k (done (waiting_pop keys ch w)) h = tt
  after_command-IsTyped k (done (waiting_read ids ch w)) h = tt
  after_command-IsTyped k panic h = tt
  after_command-IsTyped k blocked h = tt

  replay_command-IsTyped :
      (cmd : List Bytes) (r : Replaying)
      → IsTypedReplay r
      → IsTypedReplay (replay_command env clock cmd r)
  unfolding replay_command
  replay_command-IsTyped cmd (running k w) h =
      after_command-IsTyped k (handle_commands env cmd (clock k) w)
        (handle_commands-IsTyped env cmd (clock k) w h)
  replay_command-IsTyped cmd (held o) h = tt

  replayed-IsTyped :
      (d : Disk) (path content : Bytes) (r : Replaying) (e : Ending)
      → IsTypedReplay r
      → IsTypedStart (replayed env d path content (r, e))
  unfolding replayed
  replayed-IsTyped d path content (running k w) finished h = h
  replayed-IsTyped d path content (running k w) (failed e) h = tt
  replayed-IsTyped d path content (held o) e h = tt

  replay_file-IsTyped :
      (path : Bytes) (d : Disk) (w : World)
      → IsTyped w.store.entries
      → IsTypedStart (replay_file env clock path d w)
  unfolding replay_file replay
  replay_file-IsTyped path d w h =
      let d' = open_file path d in
      let content = content_of (d' path) in
      let run =
        replay_loop (replay_command env clock) (suc (length content)) content (running 0 w) in
      replayed-IsTyped d' path content run.0 run.1 (
        replay_loop-kept (replay_command env clock) IsTypedReplay replay_command-IsTyped
          (suc (length content)) content (running 0 w) h)

  module _ (join : Bytes → Bytes → Bytes) where
    name_read-IsTyped :
        (d : Disk) (w : World) (name : Option Bytes)
        → IsTyped w.store.entries
        → IsTypedStart (name_read env join clock d w name)
    unfolding name_read
    name_read-IsTyped d w none h = tt
    name_read-IsTyped d w (some name) h = replay_file-IsTyped (join env.config.aof_dir name) d w h

    manifest_read-IsTyped :
        (d : Disk) (w : World) (manifest : Option Bytes)
        → IsTyped w.store.entries
        → IsTypedStart (manifest_read env join clock d w manifest)
    unfolding manifest_read
    manifest_read-IsTyped d w none h =
        replay_file-IsTyped (join env.config.aof_dir (first_incr env join))
          (write_file (manifest_path env join) (new_manifest (first_incr env join)) d) w h
    manifest_read-IsTyped d w (some manifest) h =
        name_read-IsTyped d w (incr_file_name_from_manifest manifest) h

    new_store-IsTyped : IsTyped new_store.entries
    unfolding get
    new_store-IsTyped = record { at = λ key. tt }

    load_rdb_file-IsTyped :
        (file : Option Bytes) → IsTyped (load_rdb_file env join file new_store).0.entries
    unfolding load_rdb_file
    load_rdb_file-IsTyped none = new_store-IsTyped
    load_rdb_file-IsTyped (some file) =
        load-Keeps set_at (λ s. IsTyped s.entries) set_at-IsTyped file new_store new_store-IsTyped

    loaded-IsTyped : (d : Disk) → IsTyped (loaded env join d).0.entries
    unfolding loaded
    loaded-IsTyped d =
        elim (bytes_eq env.config.db_filename [])
          as (λ b.
            IsTyped
              (if b
                then (new_store, rdb.finished)
                else load_rdb_file env join (d (dump_path env join)) new_store).0.entries) [
                  | true ↦ new_store-IsTyped
                  | false ↦ load_rdb_file-IsTyped (d (dump_path env join))
                ]

    start_aof-IsTyped :
        (d : Disk) (s : Store) (e : rdb.Ending)
        → IsTyped s.entries
        → IsTypedStart (start_aof env join clock d (s, e))
    unfolding start_aof open_aof
    start_aof-IsTyped d s rdb.finished h =
        let w : World = record { store = s; users = new_acl } in
        elim env.config.append_only
          as (λ b.
            IsTypedStart
              (if b then open_aof env join clock d w else listening (new_node w none) d none)) [
                | true ↦ manifest_read-IsTyped d w (d (manifest_path env join)) h
                | false ↦ h
              ]
    start_aof-IsTyped d s rdb.not_an_rdb_file h = tt
    start_aof-IsTyped d s rdb.out_of_fuel h = tt
    start_aof-IsTyped d s (rdb.unsupported_opcode op) h = tt
    start_aof-IsTyped d s (rdb.reading place e) h = tt

    start-IsTyped : (d : Disk) → IsTypedStart (start env join clock d)
    unfolding start
    start-IsTyped d =
        start_aof-IsTyped d (loaded env join d).0 (loaded env join d).1 (loaded-IsTyped d)

Serving-IsTyped :
    (env : Env) (n n' : Node) (cmds : List (List Bytes))
    → Serving env n cmds n'
    → IsTyped n.world.store.entries
    → IsTyped n'.world.store.entries
Serving-IsTyped env n n' cmds stop h = h
Serving-IsTyped env n n' cmds
      (serve {n' = middle} {cmd = cmd} {cmds = more} clock c c' reply plain ordinary run rest) h =
    let ran : handle_commands env cmd (clock 0) n.world ≡ done (replied reply middle.world) =
      subst (Ran env cmd (clock 0) n) run (handle-Ran env cmd clock c n plain ordinary) in
    Serving-IsTyped env middle n' more rest
      (subst kinds.Keeps ran (handle_commands-IsTyped env cmd (clock 0) n.world h))

-- The program is started on any disk, with any dump and any append-only file, and comes to listen. Then
-- connections that are let in, outside transactions and with no subscription, send commands that
-- `handleClient` leaves to `handleCommands`, in any order, each answered at once. Behind them PING, ECHO,
-- SET, GET, INCR, TYPE, LPUSH, LLEN, LRANGE, XADD, XRANGE, INFO, CONFIG, SETBIT, GETBIT, STRLEN, and a
-- name that is no command's, come to a reply, which may be empty, whatever their arguments are and at any
-- time: they do not panic, do not block and do not wait.
pub start-IsSafe :
    (env : Env) (join : Bytes → Bytes → Bytes) (clock : ℕ → ℕ) (d d' : Disk) (path : Option Bytes)
    (n n' : Node) (cmds : List (List Bytes)) (name : Bytes) (args : List Bytes) (now : ℕ)
    → start env join clock d ≡ listening n d' path
    → Serving env n cmds n'
    → IsSafe (command_of name)
    → (reply : Bytes) × ((w : World) × (handle_commands env (name ∷ args) now n'.world
          ≡ done (replied reply w)))
start-IsSafe env join clock d d' path n n' cmds name args now begun run safe =
    handle_commands-IsSafe env name args now n'.world
      (Serving-IsTyped env n n' cmds run
        (subst IsTypedStart begun (start-IsTyped env clock join d)))
      safe
