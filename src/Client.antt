-- ===== src/Client.antt =====
-- app/client.go: the loop of `handleClient`, as a step on each command that it reads.
pub mod State
pub mod Transactions
pub mod Channels
pub mod Replicas
pub mod Session
pub mod Paths
pub mod Watched
pub mod Logged
pub mod Unlogged
pub mod Login
pub mod Waiting
pub mod Joining
pub mod Written
pub mod Spelling
pub mod Replayed
pub mod Loop
pub mod Queueing
pub mod Gate
use redis_go.Base.{
  ℕ, Bool, not, ◌&&◌, List, [], ◌∷◌, ◌++◌, Option, none, some, if◌then◌else◌, Bytes, codes,
  bytes_eq,
}
use redis_go.Base.Dict.{Dict, get_or}
use redis_go.Aof.{append}
use redis_go.Resp.Write.{encode_raw}
use redis_go.Replication.{propagate, remove}
use redis_go.Server.{default_if_no_pass}
use redis_go.Store.{Store, StreamId, zero_transaction, Outcome, done, ◌>>=◌}
use redis_go.Commands.{World, Env, handle_commands}
use redis_go.Commands.Reply.{to_upper}
use redis_go.Commands.Lists.{pop_received, pop_cancelled}
use redis_go.Commands.Streams.{read_woken}
use redis_go.Commands.Progress.{Handled, replied, waiting_pop, waiting_read}
use redis_go.Client.State.{
  Client, Node, After, command, queue, Step, ready, popping, reading, has_name,
}
use redis_go.Client.Transactions
use redis_go.Client.Transactions.{transaction_of, enqueue}
use redis_go.Client.Channels
use redis_go.Client.Channels.{subscriber_ping, refused_in_mode}
use redis_go.Client.Replicas

-- The cases of the switch; all other names go to `handleCommands`.
pub data Verb : Type 0 where
  multi exec discard watch unwatch psync replconf wait : Verb
  subscribe publish unsubscribe auth other : Verb

abbrev pub verb_table : Dict Verb
verb_table =
    (codes "MULTI", multi)
    ∷ (codes "EXEC", exec)
    ∷ (codes "DISCARD", discard)
    ∷ (codes "WATCH", watch)
    ∷ (codes "UNWATCH", unwatch)
    ∷ (codes "PSYNC", psync)
    ∷ (codes "REPLCONF", replconf)
    ∷ (codes "WAIT", wait)
    ∷ (codes "SUBSCRIBE", subscribe)
    ∷ (codes "PUBLISH", publish)
    ∷ (codes "UNSUBSCRIBE", unsubscribe)
    ∷ (codes "AUTH", auth)
    ∷ []

-- `writeCommands` of app/replication.go
abbrev pub write_commands : List Bytes
write_commands =
    codes "SET"
    ∷ codes "INCR"
    ∷ codes "RPUSH"
    ∷ codes "LPUSH"
    ∷ codes "LPOP"
    ∷ codes "BLPOP"
    ∷ codes "XADD"
    ∷ codes "ZADD"
    ∷ []

-- `subscribeCommands`
abbrev pub subscribe_commands : List Bytes
subscribe_commands =
    codes "SUBSCRIBE"
    ∷ codes "UNSUBSCRIBE"
    ∷ codes "PSUBSCRIBE"
    ∷ codes "PUNSUBSCRIBE"
    ∷ codes "QUIT"
    ∷ []

-- The commands that an active transaction does not queue.
abbrev pub control_commands : List Bytes
control_commands = codes "MULTI" ∷ codes "EXEC" ∷ codes "DISCARD" ∷ codes "WATCH" ∷ []

-- A new connection, with a transaction at an address that no other has.
unfoldable pub new_client : ℕ → ℕ → Node → Client
unfolding default_if_no_pass
new_client conn tx n = record {
  conn = conn;
  tx = tx;
  has_sub = Bool.false;
  subscribed = [];
  has_user = elim (default_if_no_pass n.world.users) [ none ↦ Bool.false | some u ↦ Bool.true ];
}

abbrev pub is_empty : List Bytes → Bool
is_empty [] = Bool.true
is_empty (name ∷ names) = Bool.false

-- Behind a command that wrote its reply: a write goes to the replicas and to the file.
unfoldable pub record_write : List Bytes → Node → Node
unfolding has_name to_upper
record_write [] n = n
record_write (name ∷ args) n =
    if has_name write_commands (to_upper name)
    then record n {
      replicas = propagate (name ∷ args) n.replicas;
      aof = append (encode_raw (name ∷ args)) n.aof;
    }
    else n

module _ (env : Env) where
  -- The reply of the command, or of the part of an EXEC, that was waiting has come.
  unfoldable pub go_on : After → (ℕ → ℕ) → Bytes → Client → Node → Outcome Step
  unfolding record_write
  go_on (command cmd) clock written c n = done (ready written c (record_write cmd n))
  go_on (queue cmds) clock written c n = Transactions.run_queue env cmds clock written c n

  unfoldable pub run_command : List Bytes → (ℕ → ℕ) → Client → Node → Outcome Step
  unfolding go_on
  run_command cmd clock c n = do
    h ← handle_commands env cmd (clock 0) n.world
    elim h [
      | replied reply w ↦ go_on (command cmd) clock reply c (record n { world = w })
      | waiting_pop keys ch w ↦ done (popping keys ch [] (command cmd) c (record n { world = w }))
      | waiting_read ids ch w ↦ done (reading ids ch [] (command cmd) c (record n { world = w }))
    ]

  unfoldable pub run_verb : Verb → List Bytes → List Bytes → (ℕ → ℕ) → Client → Node → Outcome Step
  unfolding run_command
  run_verb multi cmd args clock c n = done (Transactions.multi c n)
  run_verb exec cmd args clock c n = Transactions.exec env clock c n
  run_verb discard cmd args clock c n = done (Transactions.discard c n)
  run_verb watch cmd args clock c n = done (Transactions.watch args c n)
  run_verb unwatch cmd args clock c n = done (Transactions.unwatch c n)
  run_verb psync cmd args clock c n = done (Replicas.psync env.replication_id c n)
  run_verb replconf cmd args clock c n = done (Replicas.replconf args c n)
  run_verb wait cmd args clock c n = done (Replicas.wait_for args c n)
  run_verb subscribe cmd args clock c n = done (Channels.subscribe args c n)
  run_verb publish cmd args clock c n = done (Channels.publish args c n)
  run_verb unsubscribe cmd args clock c n = Channels.unsubscribe_loop args [] c n
  run_verb auth cmd args clock c n = done (Channels.auth env.digest args c n)
  run_verb other cmd args clock c n = run_command cmd clock c n

  -- The switch, on a command with its name in capitals.
  unfoldable pub dispatch : Bytes → List Bytes → List Bytes → (ℕ → ℕ) → Client → Node → Outcome Step
  unfolding run_verb get_or
  dispatch name cmd args clock c n = run_verb (get_or verb_table name other) cmd args clock c n

  -- The mode of a connection with subscriptions: few commands pass.
  unfoldable pub in_mode : Bytes → List Bytes → List Bytes → (ℕ → ℕ) → Client → Node → Outcome Step
  unfolding dispatch subscriber_ping refused_in_mode has_name
  in_mode name cmd args clock c n =
      if is_empty c.subscribed
      then dispatch name cmd args clock c n
      else if bytes_eq name (codes "PING")
      then done (ready (subscriber_ping args) c n)
      else if not (has_name subscribe_commands name)
      then done (ready (refused_in_mode name) c n)
      else dispatch name cmd args clock c n

  -- A round of the loop, on a command that was read; `ReadCommand` returns none that is empty.
  unfoldable pub handle : List Bytes → (ℕ → ℕ) → Client → Node → Outcome Step
  unfolding in_mode enqueue has_name to_upper
  handle [] clock c n = Outcome.panic
  handle (word ∷ args) clock c n =
      let name = to_upper word in
      if not c.has_user && not (bytes_eq name (codes "AUTH"))
      then done (ready (codes "-NOAUTH Authentication required.\r\n") c n)
      else if (transaction_of c n).active && not (has_name control_commands name)
      then done (enqueue (word ∷ args) c n)
      else in_mode name (word ∷ args) args clock c n

  -- BLPOP behind its select: its channel has a value, or the wait was cancelled.
  unfoldable pub resume_pop : ℕ → Bytes → After → (ℕ → ℕ) → Client → Node → Option (Outcome Step)
  unfolding go_on pop_received
  resume_pop ch written after clock c n = elim (pop_received ch n.world.store) [
    | none ↦ none
    | some (reply, s) ↦ some (go_on after clock (written ++ reply) c (Transactions.with_store n s))
  ]

  unfoldable pub cancel_pop :
      List Bytes → ℕ → Bytes → After → (ℕ → ℕ) → Client → Node → Outcome Step
  unfolding go_on pop_cancelled
  cancel_pop keys ch written after clock c n = do
    (reply, s) ← pop_cancelled keys ch n.world.store
    go_on after clock (written ++ reply) c (Transactions.with_store n s)

  -- XREAD BLOCK behind its select: the store's channel was closed, or the wait is over.
  unfoldable pub resume_read :
      List (Bytes × StreamId) → ℕ → Bytes → After → (ℕ → ℕ) → Client → Node → Option (Outcome Step)
  unfolding go_on read_woken
  resume_read ids ch written after clock c n = elim (read_woken ids ch n.world.store) [
    | none ↦ none
    | some round ↦ some (do
      h ← round
      elim h [
        | replied reply s ↦ go_on after clock (written ++ reply) c (Transactions.with_store n s)
        | waiting_pop keys ch' s ↦
            done (popping keys ch' written after c (Transactions.with_store n s))
        | waiting_read ids' ch' s ↦
            done (reading ids' ch' written after c (Transactions.with_store n s))
      ])
  ]

  unfoldable pub cancel_read : Bytes → After → (ℕ → ℕ) → Client → Node → Outcome Step
  unfolding go_on
  cancel_read written after clock c n = go_on after clock (written ++ codes "*-1\r\n") c n

-- The connection is closed: it leaves the replicas, and nothing else.
unfoldable pub close : Client → Node → Node
close c n = record n { replicas = remove c.conn n.replicas }
