-- ===== src/Client/Unlogged.antt =====
-- The commands of an EXEC reach neither the append-only file nor the replicas.
use redis_go.Base.{Bool-cases, inl, inr, ℕ, ◌≡◌, refl, List, [], ◌∷◌, ◌++◌, Bytes, length}
use redis_go.Store.{Outcome, done, panic, blocked}
use redis_go.Store.Watching.{check_dirty}
use redis_go.Resp.Write.{array_header}
use redis_go.Commands.{World, Env, handle_commands}
use redis_go.Commands.Progress.{Handled, replied, waiting_pop, waiting_read}
use redis_go.Client.State.{Client, Node, Step, ready, popping, reading, counting}
use redis_go.Client.Transactions.{transaction_of, run_queue, exec, take_transaction}

-- The two nodes agree on the file, the replicas and the channels.
pub record SameLogs (a b : Node) : Type 0 where
  pub aof : a.aof ≡ b.aof
  pub replicas : a.replicas ≡ b.replicas
  pub pubsub : a.pubsub ≡ b.pubsub

-- Whether it is ready or waits, the step has the logs of the node.
abbrev pub StepKeeps : Node → Step → Type 0
StepKeeps n (ready written c n') = SameLogs n' n
StepKeeps n (popping keys ch written after c n') = SameLogs n' n
StepKeeps n (reading ids ch written after c n') = SameLogs n' n
StepKeeps n (counting w c n') = SameLogs n' n

abbrev pub Keeps : Node → Outcome Step → Type 0
Keeps n (done step) = StepKeeps n step
Keeps n _ = Unit

after_first :
    (env : Env) (cmd : List Bytes) (cmds : List (List Bytes)) (clock : ℕ → ℕ) (written : Bytes)
    (c : Client) (m n : Node) (o : Outcome (Handled World))
    → SameLogs n m
    → handle_commands env cmd (clock (length cmds)) n.world ≡ o
    → ((reply : Bytes) (w : World)
        → Keeps m (run_queue env cmds clock (written ++ reply) c (record n { world = w })))
    → Keeps m (run_queue env (cmd ∷ cmds) clock written c n)
unfolding run_queue
after_first env cmd cmds clock written c m n (done (replied reply w)) k h rest = rw h (rest reply w)
after_first env cmd cmds clock written c m n (done (waiting_pop keys ch w)) k h rest =
    rw h (record { aof = k.aof; replicas = k.replicas; pubsub = k.pubsub })
after_first env cmd cmds clock written c m n (done (waiting_read ids ch w)) k h rest =
    rw h (record { aof = k.aof; replicas = k.replicas; pubsub = k.pubsub })
after_first env cmd cmds clock written c m n panic k h rest = rw h tt
after_first env cmd cmds clock written c m n blocked k h rest = rw h tt

run_queue-Keeps :
    (env : Env) (cmds : List (List Bytes)) (clock : ℕ → ℕ) (written : Bytes) (c : Client)
    (m n : Node)
    → SameLogs n m
    → Keeps m (run_queue env cmds clock written c n)
unfolding run_queue
run_queue-Keeps env [] clock written c m n k = k
run_queue-Keeps env (cmd ∷ cmds) clock written c m n k =
    after_first env cmd cmds clock written c m n
      (handle_commands env cmd (clock (length cmds)) n.world) k refl
      λ reply w.
        run_queue-Keeps env cmds clock (written ++ reply) c m (record n { world = w })
          (record { aof = k.aof; replicas = k.replicas; pubsub = k.pubsub })

take_transaction-SameLogs : (c : Client) (n : Node) → SameLogs (take_transaction c n) n
unfolding take_transaction
take_transaction-SameLogs c n = record { aof = refl; replicas = refl; pubsub = refl }

-- EXEC, whatever its commands write to the store, and whether they are run, refused or made to wait,
-- leaves the append-only file, the replicas and the channels as they were.
pub exec-Keeps : (env : Env) (clock : ℕ → ℕ) (c : Client) (n : Node) → Keeps n (exec env clock c n)
unfolding exec
exec-Keeps env clock c n = elim (Bool-cases (transaction_of c n).active) [
  | inl active ↦ elim (Bool-cases (check_dirty c.tx n.world.store)) [
    | inl dirty ↦ rw (active, dirty) (take_transaction-SameLogs c n)
    | inr clean ↦
        rw (active, clean)
          (run_queue-Keeps env (transaction_of c n).queued clock
            (array_header (length (transaction_of c n).queued)) c n (take_transaction c n)
            (take_transaction-SameLogs c n))
  ]
  | inr idle ↦ rw idle (record { aof = refl; replicas = refl; pubsub = refl })
]
