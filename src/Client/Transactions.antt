-- ===== src/Client/Transactions.antt =====
-- The cases MULTI, EXEC, DISCARD, WATCH and UNWATCH of `handleClient`, and the commands that it queues.
use redis_go.Base.{ℕ, true, not, List, [], ◌∷◌, ◌++◌, if◌then◌else◌, Bytes, codes, length}
use redis_go.Store.{Store, Transaction, zero_transaction, update, Outcome, done, ◌>>=◌}
use redis_go.Store.Watching as store
use redis_go.Resp.Write.{array_header}
use redis_go.Commands.{Env, handle_commands}
use redis_go.Commands.Progress.{replied, waiting_pop, waiting_read}
use redis_go.Client.State.{Client, Node, queue, Step, ready, popping, reading}

abbrev pub transaction_of : Client → Node → Transaction
transaction_of c n = n.world.store.transactions c.tx

abbrev pub with_store : Node → Store → Node
with_store n s = record n { world = record n.world { store = s } }

abbrev pub with_transaction : Client → Node → Transaction → Node
with_transaction c n tx =
    with_store n (record n.world.store { transactions = update n.world.store.transactions c.tx tx })

-- `tx.queued = append(tx.queued, cmd)`
unfoldable pub enqueue : List Bytes → Client → Node → Step
enqueue cmd c n = ready (codes "+QUEUED\r\n") c (
    with_transaction c n
      (record (transaction_of c n) { queued = (transaction_of c n).queued ++ cmd ∷ [] }))

unfoldable pub multi : Client → Node → Step
multi c n =
    if (transaction_of c n).active
    then ready (codes "-ERR MULTI calls can not be nested\r\n") c n
    else ready (codes "+OK\r\n") c
        (with_transaction c n (record (transaction_of c n) { active = true }))

unfoldable pub discard : Client → Node → Step
discard c n =
    if not (transaction_of c n).active
    then ready (codes "-ERR DISCARD without MULTI\r\n") c n
    else ready (codes "+OK\r\n") c (with_transaction c n zero_transaction)

unfoldable pub watch : List Bytes → Client → Node → Step
watch [] c n = ready (codes "-ERR wrong number of arguments for 'watch' command\r\n") c n
watch (key ∷ keys) c n =
    if (transaction_of c n).active
    then ready (codes "-ERR WATCH inside MULTI is not allowed\r\n") c n
    else ready (codes "+OK\r\n") c (with_store n (store.watch c.tx (key ∷ keys) n.world.store))

unfoldable pub unwatch : Client → Node → Step
unwatch c n = ready (codes "+OK\r\n") c (with_store n (store.unwatch c.tx n.world.store))

-- EXEC up to its loop: the transaction is read, taken out of the watchers' queues and made anew.
unfoldable pub take_transaction : Client → Node → Node
take_transaction c n =
    let n' : Node = with_store n (store.unwatch c.tx n.world.store) in
    with_transaction c n' zero_transaction

module _ (env : Env) where
  -- The loop over the queued commands, behind what was written; `clock k` is the time when `k` commands
  -- are left. A command that waits keeps the rest of the queue waiting.
  unfoldable pub run_queue : List (List Bytes) → (ℕ → ℕ) → Bytes → Client → Node → Outcome Step
  run_queue [] clock written c n = done (ready written c n)
  run_queue (cmd ∷ cmds) clock written c n = do
    h ← handle_commands env cmd (clock (length cmds)) n.world
    elim h [
      | replied reply w ↦ run_queue cmds clock (written ++ reply) c (record n { world = w })
      | waiting_pop keys ch w ↦
          done (popping keys ch written (queue cmds) c (record n { world = w }))
      | waiting_read ids ch w ↦
          done (reading ids ch written (queue cmds) c (record n { world = w }))
    ]

  unfoldable pub exec : (ℕ → ℕ) → Client → Node → Outcome Step
  unfolding take_transaction run_queue
  exec clock c n =
      let tx = transaction_of c n in
      if not tx.active
      then done (ready (codes "-ERR EXEC without MULTI\r\n") c n)
      else if store.check_dirty c.tx n.world.store
      then done (ready (codes "*-1\r\n") c (take_transaction c n))
      else run_queue tx.queued clock (array_header (length tx.queued)) c (take_transaction c n)
