-- ===== src/Client/Logged.antt =====
-- What reaches the append-only file and the replicas, while any connections send commands.
use redis_go.Base.{
  ℕ, ◌≡◌, refl, ap, ◌∙◌, Bool, true, false, List, [], ◌∷◌, arith, Option, some, Bytes, All,
  if◌then◌else◌, Bool-cases, inl, inr,
}
use mathlib.Core.Path.{subst}
use redis_go.Base.Dict.{get_or}
use redis_go.Store.{Outcome, done, panic, blocked}
use redis_go.Aof.{replay, finished}
use redis_go.Aof.Replay.{append_all, apply_all, replay-append_all}
use redis_go.Resp.Reader.{eof}
use redis_go.Resp.Reader.RoundTrip.{IsSendable}
use redis_go.Replication.{ReplicaSet, Follower, follow}
use redis_go.Replication.Following.{propagate_all, apply_writes, on_conn, follow-propagate_all}
use redis_go.Commands.{World, Env, handle_commands}
use redis_go.Commands.Progress.{Handled, replied, waiting_pop, waiting_read}
use redis_go.Commands.Reply.{to_upper}
use redis_go.Client.{
  other, verb_table, handle, dispatch, run_verb, run_command, go_on, record_write, write_commands,
}
use redis_go.Client.State.{Client, Node, Step, ready, has_name}
use redis_go.Client.Paths.{handle_plain}
use redis_go.Client.Transactions.{transaction_of}

-- The connection is let in, outside a transaction, and has no subscription.
pub record IsPlain (c : Client) (n : Node) : Type 0 where
  pub has_user : c.has_user ≡ true
  pub inactive : (transaction_of c n).active ≡ false
  pub subscribed : c.subscribed ≡ []

-- A command that `handleClient` leaves to `handleCommands`.
abbrev pub IsOrdinary : List Bytes → Type 0
IsOrdinary [] = ⊥
IsOrdinary (word ∷ args) = get_or verb_table (to_upper word) other ≡ other

-- Commands of any connections, one behind the other, each answered at once.
pub data Serving (env : Env) : Node → List (List Bytes) → Node → Type 0 where
  stop : {n : Node} → Serving env n [] n
  serve :
      {n n' n'' : Node} {cmd : List Bytes} {cmds : List (List Bytes)} (clock : ℕ → ℕ)
      (c c' : Client) (reply : Bytes)
      → IsPlain c n
      → IsOrdinary cmd
      → handle env cmd clock c n ≡ done (ready reply c' n')
      → Serving env n' cmds n''
      → Serving env n (cmd ∷ cmds) n''

abbrev pub is_write : List Bytes → Bool
is_write [] = false
is_write (word ∷ args) = has_name write_commands (to_upper word)

-- The write commands among them.
abbrev pub writes : List (List Bytes) → List (List Bytes)
writes [] = []
writes (cmd ∷ cmds) = let rest = writes cmds in if is_write cmd then cmd ∷ rest else rest

-- The connection answered and went on, the node has the effects of one command.
abbrev Answered : List Bytes → Node → Outcome Step → Type 0
Answered cmd n (done (ready reply c' n')) =
    (n'.aof ≡ append_all (writes (cmd ∷ [])) n.aof)
    × (n'.replicas ≡ propagate_all (writes (cmd ∷ [])) n.replicas)
Answered cmd n _ = Unit

record_write-Answered :
    (cmd : List Bytes) (reply : Bytes) (c : Client) (n : Node) (w : World)
    → Answered cmd n (done (ready reply c (record_write cmd (record n { world = w }))))
unfolding record_write append_all propagate_all
record_write-Answered [] reply c n w = (refl, refl)
record_write-Answered (word ∷ args) reply c n w =
    elim (Bool-cases (has_name write_commands (to_upper word))) [
      | inl write ↦ rw write (refl, refl)
      | inr only_read ↦ rw only_read (refl, refl)
    ]

run_command-Answered :
    (env : Env) (cmd : List Bytes) (clock : ℕ → ℕ) (c : Client) (n : Node)
    (o : Outcome (Handled World))
    → handle_commands env cmd (clock 0) n.world ≡ o
    → Answered cmd n (run_command env cmd clock c n)
unfolding run_command go_on
run_command-Answered env cmd clock c n (done (replied reply w)) h =
    rw h (record_write-Answered cmd reply c n w)
run_command-Answered env cmd clock c n (done (waiting_pop keys ch w)) h = rw h tt
run_command-Answered env cmd clock c n (done (waiting_read ids ch w)) h = rw h tt
run_command-Answered env cmd clock c n panic h = rw h tt
run_command-Answered env cmd clock c n blocked h = rw h tt

pub dispatch-other :
    (env : Env) (name : Bytes) (cmd args : List Bytes) (clock : ℕ → ℕ) (c : Client) (n : Node)
    → get_or verb_table name other ≡ other
    → dispatch env name cmd args clock c n ≡ run_command env cmd clock c n
unfolding dispatch run_verb
dispatch-other env name cmd args clock c n h = rw h refl

handle-Answered :
    (env : Env) (cmd : List Bytes) (clock : ℕ → ℕ) (c : Client) (n : Node)
    → IsPlain c n
    → IsOrdinary cmd
    → Answered cmd n (handle env cmd clock c n)
handle-Answered env [] clock c n plain ordinary = elim ordinary [ ]
handle-Answered env (word ∷ args) clock c n plain ordinary =
    rw
      (
        handle_plain env clock c n word args plain.has_user plain.inactive plain.subscribed,
        dispatch-other env (to_upper word) (word ∷ args) args clock c n ordinary,
      )
      (run_command-Answered env (word ∷ args) clock c n _ refl)

writes-cons :
    (cmd : List Bytes) (cmds : List (List Bytes)) (aof : Option Bytes)
    → append_all (writes cmds) (append_all (writes (cmd ∷ [])) aof)
      ≡ append_all (writes (cmd ∷ cmds)) aof
unfolding append_all
writes-cons cmd cmds aof = ground arith

propagate-cons :
    (cmd : List Bytes) (cmds : List (List Bytes)) (r : ReplicaSet)
    → propagate_all (writes cmds) (propagate_all (writes (cmd ∷ [])) r)
      ≡ propagate_all (writes (cmd ∷ cmds)) r
unfolding propagate_all
propagate-cons cmd cmds r = ground arith

-- Connections that are let in, outside transactions and with no subscription, send commands that
-- `handleClient` leaves to `handleCommands`, in any order, each answered at once: the write commands among
-- them, and no other, are appended to the file and sent to the replicas, in the order of the answers.
pub Serving-writes :
    (env : Env) (n n' : Node) (cmds : List (List Bytes))
    → Serving env n cmds n'
    → (n'.aof ≡ append_all (writes cmds) n.aof)
      × (n'.replicas ≡ propagate_all (writes cmds) n.replicas)
unfolding append_all propagate_all
Serving-writes env n n' cmds stop = (refl, refl)
Serving-writes env n n' cmds
      (serve {n' = next} {cmd = cmd} {cmds = more} clock c c' reply plain ordinary run rest) =
    let (logged, sent) = Serving-writes env next n' more rest in
    let both : Answered cmd n (done (ready reply c' next)) =
      subst (Answered cmd n) run (handle-Answered env cmd clock c n plain ordinary) in
    (
      logged ∙ (ap (append_all (writes more)) (both.0) ∙ writes-cons cmd more n.aof),
      sent ∙ (ap (propagate_all (writes more)) (both.1) ∙ propagate-cons cmd more n.replicas),
    )

All-writes : (P : List Bytes → Type 0) (cmds : List (List Bytes)) → All P cmds → All P (writes cmds)
All-writes P [] h = tt
All-writes P (cmd ∷ cmds) (hc, h) = elim (Bool-cases (is_write cmd)) [
  | inl write ↦ rw write (hc, All-writes P cmds h)
  | inr only_read ↦ rw only_read (All-writes P cmds h)
]

-- With an append-only file that is empty, connections that are let in, outside transactions and with no
-- subscription, send commands that `handleClient` leaves to `handleCommands`, in any order, each answered
-- at once and within the protocol's limits; then the program is started again. The replay comes to the
-- end of the file, and applies the write commands that were answered, all of them, in their order, and no
-- others.
pub Serving-replay :
    {S : Type 0} (apply : List Bytes → S → S) (env : Env) (n n' : Node) (cmds : List (List Bytes))
    (s : S)
    → All IsSendable cmds
    → n.aof ≡ some []
    → Serving env n cmds n'
    → replay apply n'.aof s ≡ (apply_all apply (writes cmds) s, finished)
Serving-replay apply env n n' cmds s fit new run =
    rw ((Serving-writes env n n' cmds run).0, new)
      (replay-append_all apply (writes cmds) s (All-writes IsSendable cmds fit))

-- With a replica to which nothing was written yet, on a connection of its own, and whose offset is the
-- leader's, connections that are let in, outside transactions and with no subscription, send commands that
-- `handleClient` leaves to `handleCommands`, in any order, each answered at once and within the protocol's
-- limits. Reading what was written to it, the replica applies the write commands that were answered, but
-- for requests for an acknowledgement, each once and in their order, comes to the leader's offset, and
-- meets the end of the stream between two commands.
pub Serving-follow :
    {S : Type 0} (apply : List Bytes → S → S) (env : Env) (n n' : Node) (cmds : List (List Bytes))
    (conn : ℕ) (f : Follower S)
    → All IsSendable cmds
    → on_conn conn n.replicas.replicas ≡ 1
    → n.replicas.written conn ≡ []
    → f.offset ≡ n.replicas.offset
    → Serving env n cmds n'
    → (g : Follower S) × (follow apply (n'.replicas.written conn) f ≡ (g, eof))
      × (g.state ≡ apply_writes apply (writes cmds) f.state)
      × (g.offset ≡ n'.replicas.offset)
Serving-follow apply env n n' cmds conn f fit once fresh same run =
    rw ((Serving-writes env n n' cmds run).1) (
      follow-propagate_all apply (writes cmds) conn n.replicas f (All-writes IsSendable cmds fit)
        once fresh same)
