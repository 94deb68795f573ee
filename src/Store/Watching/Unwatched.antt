-- ===== src/Store/Watching/Unwatched.antt =====
-- What `Unwatch` does to other transactions, and the writes that mark nothing.
use redis_go.Base.{
  ℕ, ◌≡◌, refl, ap, ◌∙◌, false, not, List, [], ◌∷◌, arith, ◌==◌, if◌then◌else◌, Bytes,
  bytes_eq_refl,
}
use redis_go.Base.Dict.{Dict, put, get_or, remove, get-put, get-remove}
use redis_go.Store.{Store, Transaction, Outcome, done, panic, blocked, ◌>>=◌}
use redis_go.Store.Strings.{set}
use redis_go.Store.Lists.{rpush, push_loop, start_push, finish_push, Pushing, lpush, lpop}
use redis_go.Store.Watching.{check_dirty, clear_queue, unwatch, unwatch_loop}
use redis_go.Store.Watching.Marks.{contains, is_watching, check_dirty-set}

abbrev queue_at : Dict (List ℕ) → Bytes → List ℕ
queue_at m k = get_or m k []

queue_at-clear_queue :
    (tx : ℕ) (k : Bytes) (queue : List ℕ) (m : Dict (List ℕ))
    → queue_at m k ≡ []
    → queue_at (clear_queue tx k queue m) k ≡ []
unfolding clear_queue get_or
queue_at-clear_queue tx k [] m h = h
queue_at-clear_queue tx k (w ∷ queue) m h =
    queue_at-clear_queue tx k queue (if not (w == tx) then remove m k else put m k [])
      (ground (arith, get-remove m k k, get-put m k k [], bytes_eq_refl k))

clear_queue_empties :
    (tx : ℕ) (k : Bytes) (m : Dict (List ℕ)) → queue_at (clear_queue tx k (queue_at m k) m) k ≡ []
clear_queue_empties tx k m = first (queue_at m k) refl
  where
    first : (queue : List ℕ) → queue_at m k ≡ queue → queue_at (clear_queue tx k queue m) k ≡ []
    first [] e = unfold clear_queue in e
    first (w ∷ queue) e =
        unfold clear_queue in
        queue_at-clear_queue tx k queue (if not (w == tx) then remove m k else put m k [])
          (unfold get_or in ground (arith, get-remove m k k, get-put m k k [], bytes_eq_refl k))

-- UNWATCH of a transaction that watches one key empties the queue of that key: a SET of the key then
-- marks no other transaction either, though that may have asked to watch the key.
pub check_dirty-unwatch :
    (tx other : ℕ) (key value : Bytes) (t : ℕ) (s : Store)
    → (s.transactions tx).watched ≡ key ∷ []
    → (tx == other) ≡ false
    → check_dirty other (set key value t (unwatch tx s)) ≡ check_dirty other s
check_dirty-unwatch tx other key value t s alone apart =
    check_dirty-set other key value t (unwatch tx s) ∙ rw (emptied, same)
  where
    emptied : is_watching other key (unwatch tx s) ≡ false
    emptied =
        unfold unwatch unwatch_loop in
        rw (alone, unwatch_loop)
          (ap (λ q. contains q other) (clear_queue_empties tx key s.watchers))

    same : check_dirty other (unwatch tx s) ≡ check_dirty other s
    same = unfold unwatch unwatch_loop check_dirty in rw (alone, unwatch_loop) (ground arith)

-- The store after a call, or as it was where the call does not return.
abbrev pub store_after {ℓ} : {A : Type ℓ} → Store → Outcome (A × Store) → Store
store_after s (done (r, s')) = s'
store_after s panic = s
store_after s blocked = s

rpush-transactions :
    (key : Bytes) (values : List Bytes) (s : Store) (o : Outcome Pushing)
    → (store_after s (do p ← o; done (finish_push key s p))).transactions ≡ s.transactions
unfolding finish_push
rpush-transactions key values s (done p) = refl
rpush-transactions key values s panic = refl
rpush-transactions key values s blocked = refl

-- RPUSH, LPUSH and LPOP mark no transaction, whoever watches their key: a transaction that watches a
-- list is not marked when the list changes.
pub check_dirty-lists :
    (tx n : ℕ) (key : Bytes) (values : List Bytes) (s : Store)
    → (check_dirty tx (store_after s (rpush key values s)) ≡ check_dirty tx s)
      × (check_dirty tx (lpush key values s).1 ≡ check_dirty tx s)
      × (check_dirty tx (store_after s (lpop key n s)) ≡ check_dirty tx s)
unfolding check_dirty rpush lpush lpop
check_dirty-lists tx n key values s = (
  ap (λ (txs : ℕ → Transaction). (txs tx).dirty)
      (rpush-transactions key values s (push_loop key values (start_push key s))),
  refl,
  ground arith,
)
