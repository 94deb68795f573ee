-- ===== src/Client/Joining/Applied.antt =====
-- A replica from its first byte on: its handshake with the leader, and the commands it applies then.
use redis_go.Base.{
  ℕ, ◌+◌, ◌≡◌, refl, ap, ◌∙◌, sym, Bool, List, [], ◌∷◌, ◌++◌, map, arith, ◌==◌, Bytes, All,
}
use redis_go.Base.Int.{ℤ, pos}
use redis_go.Resp.Reader.{ReadError, eof}
use redis_go.Resp.Reader.RoundTrip.{IsSendable}
use redis_go.Resp.Write.{encode_command}
use redis_go.Replication.{Replica, Follower, add, follow}
use redis_go.Replication.Following.{on_conn, apply_writes}
use redis_go.Replication.Handshake.{
  Link, linked, start_replication, follow_link, followed, handshake,
}
use redis_go.Commands.{Env}
use redis_go.Client.State.{Client, Node}
use redis_go.Client.Session.{Session}
use redis_go.Client.Logged.{IsPlain, Serving, writes, Serving-follow}
use redis_go.Client.Joining.{
  HasNoLineFeed, joined, answers, handshake_cmds, handshake-answers, Session-handshake,
}

on_conn-append :
    (conn : ℕ) (replicas : List Replica) (r : Replica)
    → r.conn == conn ≡ Bool.true
    → on_conn conn (replicas ++ r ∷ []) ≡ on_conn conn replicas + 1
on_conn-append conn [] r h = rw h refl
on_conn-append conn (q ∷ replicas) r h = ground (arith, on_conn-append conn replicas r h)

-- The leader's shared parts, when the connection has become a replica.
abbrev pub with_replica : Client → Node → Node
with_replica c n = record n { replicas = add c.conn n.replicas }

start_replication-linked :
    {S : Type 0} (apply : List Bytes → S → S) (port : ℤ) (input out stream : Bytes) (s : S)
    (g : Follower S)
    → handshake port input ≡ (out, linked stream)
    → follow apply stream (record { state = s; answered = []; offset = pos 0 }) ≡ (g, eof)
    → start_replication apply port input s ≡ (out, followed g eof)
unfolding start_replication follow_link
start_replication-linked apply port input out stream s g h e =
    ap (λ (r : Bytes × Link). (r.0, follow_link apply (r.1) s)) h
    ∙ ap (λ (r : Follower _ × ReadError). (out, followed (r.0) (r.1))) e

-- The leader has propagated nothing, and a connection that is let in, outside a transaction and with no
-- subscription is no replica yet, and nothing was propagated to it; the identifier has no line feed. Sent
-- by a replica on this connection, the four commands of the handshake are each answered, and the
-- connection joins the replicas. Then connections that are let in, outside transactions and with no
-- subscription, send commands that `handleClient` leaves to `handleCommands`, in any order, each answered
-- at once and within the protocol's limits. From the answers to its handshake and what was propagated to
-- it, the replica that reads them has written these four commands; it applies the write commands that
-- were answered, but for requests for an acknowledgement, each once and in their order, comes to the
-- leader's offset, and meets the end of the stream between two commands.
pub start_replication-Serving :
    {S : Type 0} (apply : List Bytes → S → S) (env : Env) (c : Client) (n n' : Node)
    (cmds : List (List Bytes)) (port : ℤ) (s : S)
    → IsPlain c n
    → HasNoLineFeed env.replication_id
    → All IsSendable cmds
    → on_conn c.conn n.replicas.replicas ≡ 0
    → n.replicas.written c.conn ≡ []
    → n.replicas.offset ≡ pos 0
    → Serving env (with_replica c n) cmds n'
    → Session env c n (handshake_cmds port) (answers env.replication_id) c (with_replica c n)
      × ((g : Follower S) × (start_replication apply port
              (joined (answers env.replication_id) ++ n'.replicas.written c.conn)
              s
            ≡ (joined (map encode_command (handshake_cmds port)), followed g eof))
          × (g.state ≡ apply_writes apply (writes cmds) s)
          × (g.offset ≡ n'.replicas.offset))
unfolding add
start_replication-Serving apply env c n n' cmds port s plain id_line fit apart fresh start run =
    let once =
      on_conn-append c.conn n.replicas.replicas (record { conn = c.conn; acc_offset = pos 0 })
        (ground arith)
      ∙ ap (λ k. k + 1) apart in
    let (g, stream, state, offset) =
      Serving-follow apply env (with_replica c n) n' cmds c.conn
        (record { state = s; answered = []; offset = pos 0 }) fit once fresh (sym start) run in
    (
      Session-handshake env (λ k. 0) c n plain port,
      (
        g,
        start_replication-linked apply port _ _ (n'.replicas.written c.conn) s g
            (handshake-answers port env.replication_id (n'.replicas.written c.conn) id_line) stream,
        state,
        offset,
      ),
    )
