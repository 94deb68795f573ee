-- ===== src/Replication/Following.antt =====
-- A replica that reads what the leader wrote to it applies the leader's commands and comes to the
-- leader's offset.
use redis_go.Base.{
  ℕ, zero, suc, ◌+◌, ◌<◌, ◌≡◌, refl, ap, ◌∙◌, sym, List, [], ◌∷◌, ◌++◌, append_assoc, append-nil,
  arith, ◌==◌, if◌then◌else◌, Bytes, All, length,
}
use redis_go.Resp.Write.{encode_raw, encode_command}
use redis_go.Resp.Reader.{eof}
use redis_go.Resp.Reader.RoundTrip.{IsSendable, read_command-encode_raw, read_command-nil}
use redis_go.Aof.Replay.{encoded, length-encoded}
use redis_go.Replication.{
  Replica, ReplicaSet, write_to, broadcast, propagate, Follower, follow_one, follow_loop, follow,
  is_get_ack,
}

encode_command-encode_raw : (cmd : List Bytes) → encode_command cmd ≡ encode_raw cmd
unfolding encode_command encode_raw
encode_command-encode_raw cmd = refl

unfoldable pub propagate_all : List (List Bytes) → ReplicaSet → ReplicaSet
propagate_all [] r = r
propagate_all (cmd ∷ cmds) r = propagate_all cmds (propagate cmd r)

-- How many replicas are on the connection.
abbrev pub on_conn : ℕ → List Replica → ℕ
on_conn conn [] = 0
on_conn conn (r ∷ rest) = (if r.conn == conn then 1 else 0) + on_conn conn rest

broadcast-none :
    (conn : ℕ) (replicas : List Replica) (payload : Bytes) (written : ℕ → Bytes)
    → on_conn conn replicas ≡ 0
    → broadcast replicas payload written conn ≡ written conn
unfolding broadcast write_to
broadcast-none conn [] payload written h = refl
broadcast-none conn (r ∷ rest) payload written h =
    ground (arith, broadcast-none conn rest payload (write_to r.conn payload written))

broadcast-one :
    (conn : ℕ) (replicas : List Replica) (payload : Bytes) (written : ℕ → Bytes)
    → on_conn conn replicas ≡ 1
    → broadcast replicas payload written conn ≡ written conn ++ payload
unfolding broadcast write_to
broadcast-one conn [] payload written h = absurd (omega arith)
broadcast-one conn (r ∷ rest) payload written h = ground (
  arith,
  broadcast-one conn rest payload (write_to r.conn payload written),
  broadcast-none conn rest payload (write_to r.conn payload written),
)

written-propagate_all :
    (conn : ℕ) (cmds : List (List Bytes)) (r : ReplicaSet)
    → on_conn conn r.replicas ≡ 1
    → (propagate_all cmds r).written conn ≡ r.written conn ++ encoded cmds
unfolding propagate_all propagate encoded
written-propagate_all conn [] r h = sym (append-nil (r.written conn))
written-propagate_all conn (cmd ∷ cmds) r h =
    written-propagate_all conn cmds (propagate cmd r) h
    ∙ ap (λ s. s ++ encoded cmds) (broadcast-one conn r.replicas (encode_command cmd) r.written h)
    ∙ append_assoc (r.written conn) (encode_command cmd) (encoded cmds)
    ∙ ap (λ s. r.written conn ++ (s ++ encoded cmds)) (encode_command-encode_raw cmd)

module _ {S : Type 0} (apply : List Bytes → S → S) where
  -- The commands but for the leader's requests for an acknowledgement, which are not applied.
  unfoldable pub apply_writes : List (List Bytes) → S → S
  apply_writes [] s = s
  apply_writes (cmd ∷ cmds) s = apply_writes cmds (if is_get_ack cmd then s else apply cmd s)

  pub follow_all : List (List Bytes) → Follower S → Follower S
  follow_all [] f = f
  follow_all (cmd ∷ cmds) f = follow_all cmds (follow_one apply cmd f)

  follow_loop-encoded :
      (cmds : List (List Bytes)) (fuel : ℕ) (f : Follower S)
      → length cmds < fuel
      → All IsSendable cmds
      → follow_loop apply fuel (encoded cmds) f ≡ (follow_all cmds f, eof)
  unfolding follow_loop encoded follow_all
  follow_loop-encoded cmds zero f h fit = absurd (omega arith)
  follow_loop-encoded [] (suc fuel) f h fit = rw (read_command-nil, follow_loop)
  follow_loop-encoded (cmd ∷ cmds) (suc fuel) f h (fit, more) =
      rw (read_command-encode_raw cmd (encoded cmds) fit, follow_loop)
        (follow_loop-encoded cmds fuel (follow_one apply cmd f) (omega arith) more)

  offset-follow_all :
      (cmds : List (List Bytes)) (f : Follower S) (r : ReplicaSet)
      → f.offset ≡ r.offset
      → (follow_all cmds f).offset ≡ (propagate_all cmds r).offset
  unfolding follow_all follow_one propagate_all propagate
  offset-follow_all [] f r e = e
  offset-follow_all (cmd ∷ cmds) f r e =
      offset-follow_all cmds (follow_one apply cmd f) (propagate cmd r) (ground arith)

  state-follow_all :
      (cmds : List (List Bytes)) (f : Follower S)
      → (follow_all cmds f).state ≡ apply_writes cmds f.state
  unfolding follow_all follow_one apply_writes
  state-follow_all [] f = refl
  state-follow_all (cmd ∷ cmds) f =
      state-follow_all cmds (follow_one apply cmd f) ∙ ap (apply_writes cmds) (ground arith)

  -- A replica that the leader has once, to which nothing was written yet and whose offset is the
  -- leader's, reads what the leader then propagates, commands and requests for an acknowledgement within
  -- the protocol's limits: it applies the commands, each once and in their order, comes to the leader's
  -- offset, and meets the end of the stream between two commands.
  pub follow-propagate_all :
      (cmds : List (List Bytes)) (conn : ℕ) (r : ReplicaSet) (f : Follower S)
      → All IsSendable cmds
      → on_conn conn r.replicas ≡ 1
      → r.written conn ≡ []
      → f.offset ≡ r.offset
      → (g : Follower S) × (follow apply ((propagate_all cmds r).written conn) f ≡ (g, eof))
        × (g.state ≡ apply_writes cmds f.state)
        × (g.offset ≡ (propagate_all cmds r).offset)
  unfolding follow
  follow-propagate_all cmds conn r f fit once fresh e =
      let stream : (propagate_all cmds r).written conn ≡ encoded cmds =
        written-propagate_all conn cmds r once ∙ ap (λ s. s ++ encoded cmds) fresh in
      (
        follow_all cmds f,
        rw stream (
            follow_loop-encoded cmds (suc (length (encoded cmds))) f
              (omega (arith, length-encoded cmds)) fit),
        state-follow_all cmds f,
        offset-follow_all cmds f r e,
      )
