-- ===== src/Client/Queueing.antt =====
-- A transaction of one connection: what MULTI, the commands behind it and EXEC come to.
use redis_go.Base.{
  ℕ, not, ◌≡◌, refl, ap, ◌∙◌, Bool, true, false, List, [], ◌∷◌, ◌++◌, arith, bytes_eq, Bytes, codes,
  append_assoc, append-nil, replicate, length, All,
}
use mathlib.Core.Path.{fun_ext}
use redis_go.Store.{Store, Transaction, zero_transaction, update, done}
use redis_go.Store.Watching as store
use redis_go.Resp.Write.{array_header}
use redis_go.Commands.{Env}
use redis_go.Commands.Reply.{to_upper}
use redis_go.Client.{handle, control_commands}
use redis_go.Client.State.{Client, Node, ready, has_name}
use redis_go.Client.Session.{Session, stop, round}
use redis_go.Client.Paths.{
  handle_plain, handle_control, handle_queued, dispatch-exec, dispatch-multi,
}
use redis_go.Client.Transactions.{
  transaction_of, with_transaction, enqueue, multi, exec, run_queue, take_transaction,
}

-- A command that an active transaction queues.
abbrev pub is_queued : List Bytes → Bool
is_queued [] = false
is_queued (word ∷ args) = not (has_name control_commands (to_upper word))

-- The transaction of a connection that has sent MULTI and these commands, and watches nothing.
abbrev queueing : List (List Bytes) → Transaction
queueing cmds = record { active = true; queued = cmds; watched = []; dirty = false }

transaction_of-with_transaction :
    (c : Client) (n : Node) (tx : Transaction) → transaction_of c (with_transaction c n tx) ≡ tx
transaction_of-with_transaction c n tx = ground arith

update_same : (f : ℕ → Transaction) (i : ℕ) → update f i (f i) ≡ f
update_same f i = fun_ext (λ j. ground arith)

update_again :
    (f : ℕ → Transaction) (i : ℕ) (a b : Transaction) → update (update f i a) i b ≡ update f i b
update_again f i a b = fun_ext (λ j. ground arith)

with_transaction_again :
    (c : Client) (n : Node) (a b : Transaction)
    → with_transaction c (with_transaction c n a) b ≡ with_transaction c n b
with_transaction_again c n a b = rw (update_again n.world.store.transactions c.tx a b) refl

with_transaction_same :
    (c : Client) (n : Node) (tx : Transaction)
    → transaction_of c n ≡ tx
    → with_transaction c n tx ≡ n
with_transaction_same c n tx same =
    rw⁻¹ same (rw (update_same n.world.store.transactions c.tx) refl)

enqueue_active :
    (cmd : List Bytes) (q : List (List Bytes)) (c : Client) (n : Node)
    → transaction_of c n ≡ queueing q
    → enqueue cmd c n
      ≡ ready (codes "+QUEUED\r\n") c (with_transaction c n (queueing (q ++ cmd ∷ [])))
unfolding enqueue
enqueue_active cmd q c n h = rw h refl

enqueue-queueing :
    (cmd : List Bytes) (q : List (List Bytes)) (c : Client) (n : Node)
    → enqueue cmd c (with_transaction c n (queueing q))
      ≡ ready (codes "+QUEUED\r\n") c (with_transaction c n (queueing (q ++ cmd ∷ [])))
enqueue-queueing cmd q c n =
    enqueue_active cmd q c (with_transaction c n (queueing q))
      (transaction_of-with_transaction c n (queueing q))
    ∙ ap (ready (codes "+QUEUED\r\n") c) (with_transaction_again c n (queueing q) _)

Session-enqueue :
    (env : Env) (clock : ℕ → ℕ) (cmds q : List (List Bytes)) (c : Client) (n : Node)
    → c.has_user ≡ true
    → All (λ cmd. is_queued cmd ≡ true) cmds
    → Session env c
        (with_transaction c n (queueing q))
        cmds
        (replicate (length cmds) (codes "+QUEUED\r\n"))
        c
        (with_transaction c n (queueing (q ++ cmds)))
Session-enqueue env clock [] q c n user h = rw (append-nil q) stop
Session-enqueue env clock ([] ∷ cmds) q c n user (bad, h) = absurd (ground (arith, bad))
Session-enqueue env clock ((word ∷ args) ∷ cmds) q c n user (ok, h) =
    round clock
      (handle_queued env clock c (with_transaction c n (queueing q)) word args user
          (ap (λ (tx : Transaction). tx.active) (transaction_of-with_transaction c n (queueing q)))
          (ground (arith, ok))
        ∙ ap done (enqueue-queueing (word ∷ args) q c n))
      (rw⁻¹ (append_assoc q ((word ∷ args) ∷ []) cmds)
        (Session-enqueue env clock cmds (q ++ (word ∷ args) ∷ []) c n user h))

unwatch_nothing : (tx : ℕ) (s : Store) → (s.transactions tx).watched ≡ [] → store.unwatch tx s ≡ s
unfolding store.unwatch store.unwatch_loop
unwatch_nothing tx s h = rw h refl

take_unwatched :
    (c : Client) (n : Node)
    → (transaction_of c n).watched ≡ []
    → take_transaction c n ≡ with_transaction c n zero_transaction
unfolding take_transaction
take_unwatched c n h = rw (unwatch_nothing c.tx n.world.store h) refl

take-queueing :
    (c : Client) (n : Node) (q : List (List Bytes))
    → transaction_of c n ≡ zero_transaction
    → take_transaction c (with_transaction c n (queueing q)) ≡ n
take-queueing c n q fresh =
    take_unwatched c (with_transaction c n (queueing q))
      (ap (λ (tx : Transaction). tx.watched) (transaction_of-with_transaction c n (queueing q)))
    ∙ (with_transaction_again c n (queueing q) zero_transaction
        ∙ with_transaction_same c n zero_transaction fresh)

not_dirty :
    (q : List (List Bytes)) (c : Client) (n : Node)
    → transaction_of c n ≡ queueing q
    → store.check_dirty c.tx n.world.store ≡ false
unfolding store.check_dirty
not_dirty q c n h = ap (λ (tx : Transaction). tx.dirty) h

exec_active :
    (env : Env) (clock : ℕ → ℕ) (q : List (List Bytes)) (c : Client) (n : Node)
    → transaction_of c n ≡ queueing q
    → exec env clock c n ≡ run_queue env q clock (array_header (length q)) c (take_transaction c n)
unfolding exec
exec_active env clock q c n h = rw (h, not_dirty q c n h) refl

exec-queueing :
    (env : Env) (clock : ℕ → ℕ) (q : List (List Bytes)) (c : Client) (n : Node)
    → transaction_of c n ≡ zero_transaction
    → exec env clock c (with_transaction c n (queueing q))
      ≡ run_queue env q clock (array_header (length q)) c n
exec-queueing env clock q c n fresh =
    exec_active env clock q c (with_transaction c n (queueing q))
      (transaction_of-with_transaction c n (queueing q))
    ∙ ap (run_queue env q clock (array_header (length q)) c) (take-queueing c n q fresh)

multi_fresh :
    (c : Client) (n : Node)
    → transaction_of c n ≡ zero_transaction
    → multi c n ≡ ready (codes "+OK\r\n") c (with_transaction c n (queueing []))
unfolding multi
multi_fresh c n h = rw h refl

-- A connection with a user and no subscription, whose transaction is that of a new connection (not begun,
-- not marked, with nothing queued or watched), sends MULTI, commands that the transaction does not handle
-- itself, and EXEC, under any spelling. MULTI is answered by OK and every
-- command by QUEUED; EXEC then does what the commands, run one behind the other behind the header of an
-- array of as many replies, would have done before MULTI.
pub Session-run_queue :
    (env : Env) (clock : ℕ → ℕ) (multi_word exec_word : Bytes) (multi_args exec_args : List Bytes)
    (cmds : List (List Bytes)) (c : Client) (n : Node)
    → c.has_user ≡ true
    → c.subscribed ≡ []
    → transaction_of c n ≡ zero_transaction
    → to_upper multi_word ≡ codes "MULTI"
    → to_upper exec_word ≡ codes "EXEC"
    → All (λ cmd. is_queued cmd ≡ true) cmds
    → (n' : Node) × Session env c n
        ((multi_word ∷ multi_args) ∷ cmds)
        (codes "+OK\r\n" ∷ replicate (length cmds) (codes "+QUEUED\r\n"))
        c
        n'
      × (handle env (exec_word ∷ exec_args) clock c n'
          ≡ run_queue env cmds clock (array_header (length cmds)) c n)
unfolding bytes_eq has_name
Session-run_queue env clock multi_word exec_word multi_args exec_args cmds c n user sub fresh
      is_multi is_exec h =
    (
      with_transaction c n (queueing cmds),
      round clock
          (handle_plain env clock c n multi_word multi_args user
              (ap (λ (tx : Transaction). tx.active) fresh) sub
            ∙ (rw is_multi (dispatch-multi env clock c n (multi_word ∷ multi_args) multi_args)
                ∙ ap done (multi_fresh c n fresh)))
          (Session-enqueue env clock cmds [] c n user h),
      handle_control env clock c (with_transaction c n (queueing cmds)) exec_word exec_args user
            (rw is_exec refl) sub
          ∙ (rw is_exec (
                dispatch-exec env clock c (with_transaction c n (queueing cmds))
                  (exec_word ∷ exec_args) exec_args)
              ∙ exec-queueing env clock cmds c n fresh),
    )
