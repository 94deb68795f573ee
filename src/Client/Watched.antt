-- ===== src/Client/Watched.antt =====
-- A transaction whose key another connection writes: WATCH, MULTI, the other's SET, and EXEC.
use redis_go.Base.{
  ℕ, ◌≡◌, ◌≢◌, refl, ap, ◌∙◌, true, false, List, [], ◌∷◌, ◌++◌, arith, Bytes, codes, bytes_eq,
}
use redis_go.Base.Dict.{get_or}
use redis_go.Store.{Store, Transaction, update, done, mark_all, mark_watchers}
use redis_go.Store.Strings.{set}
use redis_go.Store.Watching as store
use redis_go.Store.Watching.Marks.{is_watching, is_watching_now, check_dirty-set}
use redis_go.Commands.{World, Env, handle_commands}
use redis_go.Commands.Progress.{replied}
use redis_go.Commands.Cases.{handle_commands-set}
use redis_go.Commands.Reply.{to_upper}
use redis_go.Commands.Strings as commands
use redis_go.Client.{handle, dispatch, run_verb, run_command, go_on, record_write}
use redis_go.Client.State.{Client, Node, ready, has_name}
use redis_go.Client.Paths.{
  handle_plain, handle_control, dispatch-exec, dispatch-multi, dispatch-watch,
}
use redis_go.Client.Transactions.{
  transaction_of, with_transaction, with_store, multi, watch, exec, take_transaction,
}

active-watch :
    (tx j : ℕ) (keys : List Bytes) (s : Store)
    → ((store.watch tx keys s).transactions j).active ≡ (s.transactions j).active
unfolding store.watch store.watch_one
active-watch tx j [] s = refl
active-watch tx j (key ∷ keys) s = active-watch tx j keys (store.watch_one tx key s) ∙ ground arith

active-mark_all :
    (queue : List ℕ) (txs : ℕ → Transaction) (j : ℕ)
    → (mark_all queue txs j).active ≡ (txs j).active
unfolding mark_all
active-mark_all [] txs j = refl
active-mark_all (w ∷ queue) txs j =
    active-mark_all queue (update txs w (record (txs w) { dirty = true })) j ∙ ground arith

active-set :
    (key value : Bytes) (t j : ℕ) (s : Store)
    → ((set key value t s).transactions j).active ≡ (s.transactions j).active
unfolding set mark_watchers
active-set key value t j s = active-mark_all (get_or s.watchers key []) s.transactions j

entries-unwatch_loop :
    (tx : ℕ) (keys : List Bytes) (s : Store) → (store.unwatch_loop tx keys s).entries ≡ s.entries
unfolding store.unwatch_loop
entries-unwatch_loop tx [] s = refl
entries-unwatch_loop tx (key ∷ keys) s = entries-unwatch_loop tx keys _

-- What only the transactions and the watchers of two nodes can differ in.
pub record SameData (a b : Node) : Type 0 where
  pub entries : a.world.store.entries ≡ b.world.store.entries
  pub users : a.world.users ≡ b.world.users
  pub pubsub : a.pubsub ≡ b.pubsub
  pub replicas : a.replicas ≡ b.replicas
  pub aof : a.aof ≡ b.aof

take_transaction-SameData : (c : Client) (n : Node) → SameData (take_transaction c n) n
unfolding take_transaction store.unwatch
take_transaction-SameData c n = record {
  entries = entries-unwatch_loop c.tx (transaction_of c n).watched n.world.store;
  users = refl;
  pubsub = refl;
  replicas = refl;
  aof = refl;
}

watch_keys :
    (before after : List Bytes) (key : Bytes) (c : Client) (n : Node)
    → (transaction_of c n).active ≡ false
    → watch (before ++ key ∷ after) c n
      ≡ ready
          (codes "+OK\r\n")
          c
          (with_store n (store.watch c.tx (before ++ key ∷ after) n.world.store))
unfolding watch
watch_keys [] after key c n h = simp h
watch_keys (k ∷ before) after key c n h = simp h

multi_inactive :
    (c : Client) (n : Node)
    → (transaction_of c n).active ≡ false
    → multi c n
      ≡ ready
          (codes "+OK\r\n")
          c
          (with_transaction c n (record (transaction_of c n) { active = true }))
unfolding multi
multi_inactive c n h = rw h refl

exec_dirty :
    (env : Env) (clock : ℕ → ℕ) (c : Client) (n : Node)
    → (transaction_of c n).active ≡ true
    → store.check_dirty c.tx n.world.store ≡ true
    → exec env clock c n ≡ done (ready (codes "*-1\r\n") c (take_transaction c n))
unfolding exec
exec_dirty env clock c n active dirty = rw (active, dirty) refl

pub run_command_replied :
    (env : Env) (clock : ℕ → ℕ) (cmd : List Bytes) (c : Client) (n : Node) (reply : Bytes)
    (w : World)
    → handle_commands env cmd (clock 0) n.world ≡ done (replied reply w)
    → run_command env cmd clock c n
      ≡ done (ready reply c (record_write cmd (record n { world = w })))
unfolding run_command go_on
run_command_replied env clock cmd c n reply w h = rw h refl

dispatch-set :
    (env : Env) (clock : ℕ → ℕ) (word key value : Bytes) (c : Client) (n : Node)
    → to_upper word ≡ codes "SET"
    → dispatch env (codes "SET") (word ∷ key ∷ value ∷ []) (key ∷ value ∷ []) clock c n
      ≡ done (
          ready
            (codes "+OK\r\n")
            c
            (record_write (word ∷ key ∷ value ∷ []) (with_store n (set key value 0 n.world.store))))
unfolding dispatch run_verb commands.set bytes_eq get_or
dispatch-set env clock word key value c n h =
    run_command_replied env clock (word ∷ key ∷ value ∷ []) c n _ _
      (handle_commands-set env word (key ∷ value ∷ []) (clock 0) n.world h)

world-record_write : (cmd : List Bytes) (n : Node) → (record_write cmd n).world ≡ n.world
unfolding record_write
world-record_write [] n = refl
world-record_write (word ∷ args) n = ground arith

-- Two connections are let in, outside transactions and with no subscription. The first watches keys, and
-- begins a transaction; then the second sets one of the keys. Each of these is answered by OK, under any
-- spelling. The EXEC of the first is refused, by a null array, and leaves the data, the users, the
-- channels, the replicas and the file as the second left them.
pub handle-SameData :
    (env : Env) (clock : ℕ → ℕ) (watch_word multi_word set_word exec_word : Bytes)
    (before after : List Bytes) (key value : Bytes) (a b : Client) (n : Node)
    → to_upper watch_word ≡ codes "WATCH"
    → to_upper multi_word ≡ codes "MULTI"
    → to_upper set_word ≡ codes "SET"
    → to_upper exec_word ≡ codes "EXEC"
    → a.has_user ≡ true
    → a.subscribed ≡ []
    → b.has_user ≡ true
    → b.subscribed ≡ []
    → (transaction_of a n).active ≡ false
    → (transaction_of b n).active ≡ false
    → a.tx ≢ b.tx
    → (n1 n2 n3 n4 : Node) × (handle env (watch_word ∷ (before ++ key ∷ after)) clock a n
        ≡ done (ready (codes "+OK\r\n") a n1))
      × (handle env (multi_word ∷ []) clock a n1 ≡ done (ready (codes "+OK\r\n") a n2))
      × (handle env (set_word ∷ key ∷ value ∷ []) clock b n2 ≡ done (ready (codes "+OK\r\n") b n3))
      × (handle env (exec_word ∷ []) clock a n3 ≡ done (ready (codes "*-1\r\n") a n4))
      × SameData n4 n3
unfolding bytes_eq has_name
handle-SameData env clock watch_word multi_word set_word exec_word before after key value a b n
      is_watch is_multi is_set is_exec a_user a_sub b_user b_sub a_inactive b_inactive distinct =
    let keys = before ++ key ∷ after in
    let n1 = with_store n (store.watch a.tx keys n.world.store) in
    let n2 = with_transaction a n1 (record (transaction_of a n1) { active = true }) in
    let n3 =
      record_write (set_word ∷ key ∷ value ∷ []) (with_store n2 (set key value 0 n2.world.store)) in
    let still : (transaction_of a n1).active ≡ false =
      active-watch a.tx a.tx keys n.world.store ∙ a_inactive in
    let b_still : (transaction_of b n2).active ≡ false =
      ground (arith, distinct, active-watch a.tx b.tx keys n.world.store) in
    let cmd = set_word ∷ key ∷ value ∷ [] in
    let s3 = set key value 0 n2.world.store in
    let same = world-record_write cmd (with_store n2 s3) in
    let watching : is_watching a.tx key n2.world.store ≡ true =
      is_watching_now a.tx before after key n.world.store in
    let active : (transaction_of a n3).active ≡ true =
      ap (λ (w : World). (w.store.transactions a.tx).active) same
      ∙ (active-set key value 0 a.tx n2.world.store ∙ ground arith) in
    let dirty : store.check_dirty a.tx n3.world.store ≡ true =
      ap (λ (w : World). store.check_dirty a.tx w.store) same
      ∙ (check_dirty-set a.tx key value 0 n2.world.store ∙ rw watching refl) in
    (
      n1,
      n2,
      n3,
      take_transaction a n3,
      handle_plain env clock a n watch_word keys a_user a_inactive a_sub
          ∙ (rw is_watch (dispatch-watch env clock a n (watch_word ∷ keys) keys)
              ∙ ap done (watch_keys before after key a n a_inactive)),
      handle_plain env clock a n1 multi_word [] a_user still a_sub
          ∙ (rw is_multi (dispatch-multi env clock a n1 (multi_word ∷ []) [])
              ∙ ap done (multi_inactive a n1 still)),
      handle_plain env clock b n2 set_word (key ∷ value ∷ []) b_user b_still b_sub
          ∙ rw is_set (dispatch-set env clock set_word key value b n2 is_set),
      handle_control env clock a n3 exec_word [] a_user (rw is_exec refl) a_sub
          ∙ (rw is_exec (dispatch-exec env clock a n3 (exec_word ∷ []) [])
              ∙ exec_dirty env clock a n3 active dirty),
      take_transaction-SameData a n3,
    )
