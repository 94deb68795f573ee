-- ===== src/Main/Lasting.antt =====
-- What a restart brings back.
use redis_go.Base.{ℕ, suc, ◌≡◌, refl, ap, ◌∙◌, sym, true, List, [], some, Bytes, All}
use redis_go.Rdb.Load as rdb
use redis_go.Server.{new_acl}
use redis_go.Aof.{replay, finished}
use redis_go.Aof.Replay.{encoded, append_all-encoded}
use redis_go.Resp.Reader.RoundTrip.{IsSendable}
use redis_go.Store.{Store, done}
use redis_go.Commands.{World, Env, handle_commands}
use redis_go.Commands.Durable.{IsDurable}
use redis_go.Commands.Progress.{replied}
use redis_go.Client.State.{Node}
use redis_go.Client.Logged.{Serving, writes, Serving-writes, Serving-replay}
use redis_go.Client.Replayed.{apply_all-writes}
use redis_go.Main.Start.{
  Disk, running, listening, new_node, replay_command, after_command, loaded, start,
}
use redis_go.Main.Restart.{
  IsNamed, IsFresh, incr_path, first_disk, disk_with, start-open_aof, open_aof_new, open_aof_again,
  loaded_same, disk_with-dump,
}

pub replay_command_applied :
    (env : Env) (clock : ℕ → ℕ) (cmd : List Bytes) (k : ℕ) (w w' : World) (reply : Bytes)
    → ((now : ℕ) → handle_commands env cmd now w ≡ done (replied reply w'))
    → replay_command env clock cmd (running k w) ≡ running (suc k) w'
unfolding replay_command after_command
replay_command_applied env clock cmd k w w' reply ran = ap (after_command env k) (ran (clock k))

-- The append-only file is switched on, the names of the manifest, of this file and of the dump lead to
-- three files, and the name for the file is printable ASCII. The disk has neither a manifest nor such a
-- file, and the dump, if there is one, loads. Then the program listens with the store of the dump and an
-- empty append-only file. Connections that are let in, outside transactions and with no subscription,
-- send commands that `handleClient` leaves to `handleCommands`, in any order, each answered at once and
-- within the protocol's limits; each only reads, or is written down and does the same at any time. When
-- the program is started again, at whatever time, on the disk with what was appended, it listens with the
-- store and the users that it had, and with that file.
pub start-Serving :
    (env : Env) (join : Bytes → Bytes → Bytes) (clock later : ℕ → ℕ) (d : Disk) (s : Store)
    (n : Node) (cmds : List (List Bytes))
    → env.config.append_only ≡ true
    → IsNamed env join
    → IsFresh env join d
    → loaded env join d ≡ (s, rdb.finished)
    → All IsSendable cmds
    → All IsDurable cmds
    → Serving env (new_node (record { store = s; users = new_acl }) (some [])) cmds n
    → (start env join clock d
        ≡ listening
            (new_node (record { store = s; users = new_acl }) (some []))
            (first_disk env join d)
            (some (incr_path env join)))
      × ((content : Bytes) × (n.aof ≡ some content)
          × (start env join later (disk_with env join content d)
              ≡ listening
                  (new_node n.world (some content))
                  (disk_with env join content d)
                  (some (incr_path env join))))
start-Serving env join clock later d s n cmds on named fresh load fit durable run =
    let w : World = record { store = s; users = new_acl } in
    let content = encoded (writes cmds) in
    let file : n.aof ≡ some content =
      (Serving-writes env (new_node w (some [])) n cmds run).0
      ∙ append_all-encoded (writes cmds) [] in
    let (k, applied) =
      apply_all-writes env env.config (replay_command env later) running
        (λ cmd i v v' reply write. replay_command_applied env later cmd i v v' reply)
        (new_node w (some [])) n cmds 0 run durable in
    (
      start-open_aof env join clock d s on load ∙ open_aof_new env join clock d w named fresh,
      (
        content,
        file,
        start-open_aof env join later (disk_with env join content d) s on (
              loaded_same env join d (disk_with env join content d)
                (disk_with-dump env join content d named)
              ∙ load)
            ∙ open_aof_again env join later content d k w n.world named (
                ap (λ f. replay (replay_command env later) f (running 0 w)) (sym file)
                ∙ Serving-replay (replay_command env later) env (new_node w (some [])) n cmds
                    (running 0 w) fit refl run
                ∙ ap (λ r. (r, finished)) applied),
      ),
    )
