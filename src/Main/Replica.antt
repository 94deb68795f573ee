-- ===== src/Main/Replica.antt =====
-- A replica and its leader, each with `handleCommands` on a store of its own.
use redis_go.Base.{ℕ, ◌≡◌, refl, ◌∙◌, true, List, [], ◌∷◌, ◌++◌, map, Bytes, All, if◌then◌else◌}
use redis_go.Base.Int.{pos}
use redis_go.Aof.Replay.{apply_all}
use redis_go.Config.{Config}
use redis_go.Resp.Reader.{eof}
use redis_go.Resp.Reader.RoundTrip.{IsSendable}
use redis_go.Resp.Write.{encode_command}
use redis_go.Replication.{Follower, is_get_ack}
use redis_go.Replication.Following.{on_conn, apply_writes}
use redis_go.Replication.Handshake.{start_replication, followed}
use redis_go.Commands.{Env}
use redis_go.Commands.Durable.{IsDurable}
use redis_go.Client.State.{Client, Node}
use redis_go.Client.Session.{Session}
use redis_go.Client.Logged.{IsPlain, Serving, writes, is_write}
use redis_go.Client.Replayed.{apply_all-writes}
use redis_go.Client.Spelling.{is_get_ack-is_write}
use redis_go.Client.Joining.{HasNoLineFeed, joined, answers, handshake_cmds}
use redis_go.Client.Joining.Applied.{with_replica, start_replication-Serving}
use redis_go.Main.Start.{Replaying, running, replay_command}
use redis_go.Main.Lasting.{replay_command_applied}

module _ {S : Type 0} (apply : List Bytes → S → S) where
  -- What a replica does with a command.
  abbrev apply_one : List Bytes → S → S
  apply_one cmd s = if is_get_ack cmd then s else apply cmd s

  apply_writes-apply_all :
      (cmds : List (List Bytes)) (s : S) → apply_writes apply cmds s ≡ apply_all apply_one cmds s
  unfolding apply_writes apply_all
  apply_writes-apply_all [] s = refl
  apply_writes-apply_all (cmd ∷ cmds) s = apply_writes-apply_all cmds (apply_one cmd s)

  apply_one-is_write :
      (cmd : List Bytes) (s : S) → is_write cmd ≡ true → apply_one cmd s ≡ apply cmd s
  apply_one-is_write cmd s h = rw (is_get_ack-is_write cmd h) refl

-- The state of the replica is the leader's.
module _ (env : Env) (cfg : Config) (clock : ℕ → ℕ) (n n' : Node) (cmds : List (List Bytes)) where
  abbrev pub replica_apply : List Bytes → Replaying → Replaying
  replica_apply = replay_command (record env { config = cfg }) clock

  apply_writes-Serving :
      Serving env n cmds n'
      → All IsDurable cmds
      → (k : ℕ) × (apply_writes replica_apply (writes cmds) (running 0 n.world)
          ≡ running k n'.world)
  apply_writes-Serving run durable =
      let (k, e) =
        apply_all-writes env cfg (apply_one replica_apply) running
          (λ cmd i v v' reply write ran.
            apply_one-is_write replica_apply cmd (running i v) write
            ∙ replay_command_applied (record env { config = cfg }) clock cmd i v v' reply ran)
          n n' cmds 0 run durable in
      (k, apply_writes-apply_all replica_apply (writes cmds) (running 0 n.world) ∙ e)

-- The leader has propagated nothing, and a connection that is let in, outside a transaction and with no
-- subscription is no replica yet, and nothing was propagated to it; the identifier has no line feed. Sent
-- by a replica on this connection, the four commands of the handshake are each answered, and the
-- connection joins the replicas. Then connections that are let in, outside transactions and with no
-- subscription, send commands that `handleClient` leaves to `handleCommands`, in any order, each answered
-- at once and within the protocol's limits; each only reads, or is propagated and does the same at any
-- time. The replica, whatever its own configuration and clock, begins with the store and the users that
-- the leader had when it joined. When it has read the answers and what was propagated to it, it has
-- written the four commands, it has the leader's store, users and offset, and it meets the end of the
-- stream between two commands.
pub start_replication-with_replica :
    (env : Env) (cfg : Config) (clock : ℕ → ℕ) (c : Client) (n n' : Node) (cmds : List (List Bytes))
    → IsPlain c n
    → HasNoLineFeed env.replication_id
    → All IsSendable cmds
    → All IsDurable cmds
    → on_conn c.conn n.replicas.replicas ≡ 0
    → n.replicas.written c.conn ≡ []
    → n.replicas.offset ≡ pos 0
    → Serving env (with_replica c n) cmds n'
    → Session env c n (handshake_cmds cfg.port) (answers env.replication_id) c (with_replica c n)
      × ((g : Follower Replaying) × (start_replication
              (replay_command (record env { config = cfg }) clock)
              cfg.port
              (joined (answers env.replication_id) ++ n'.replicas.written c.conn)
              (running 0 n.world)
            ≡ (joined (map encode_command (handshake_cmds cfg.port)), followed g eof))
          × ((k : ℕ) × (g.state ≡ running k n'.world))
          × (g.offset ≡ n'.replicas.offset))
start_replication-with_replica env cfg clock c n n' cmds plain line fit durable apart fresh start
      run =
    let (session, (g, stream, state, offset)) =
      start_replication-Serving (replay_command (record env { config = cfg }) clock) env c n n' cmds
        cfg.port (running 0 n.world) plain line fit apart fresh start run in
    let (k, same) = apply_writes-Serving env cfg clock (with_replica c n) n' cmds run durable in
    (session, (g, stream, (k, state ∙ same), offset))
