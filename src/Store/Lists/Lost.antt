-- ===== src/Store/Lists/Lost.antt =====
-- A client that waits on two keys keeps its place in the second queue.
use redis_go.Base.{
  ℕ, ◌+◌, ◌≡◌, ap, ◌∙◌, List, [], ◌∷◌, ◌++◌, Option, none, some, arith, if◌then◌else◌, false, Bytes,
  bytes_eq, length, drop, bytes_eq_refl, bytes_eq_iff,
}
use redis_go.Base.Dict.{Dict, put, get_or, get-put}
use redis_go.Store.{Store, done, update, Popped}
use redis_go.Store.Lists.{rpush, blpop, waiting, wait_for, join_queues, receive}
use redis_go.Store.Lists.Ends.{blpop_waits}
use redis_go.Store.Lists.Range.{list_at}
use redis_go.Store.Lists.Waiting.{Ready, due, waiting_at, rpush_serves}

queue_at-put :
    (m : Dict (List ℕ)) (k j : Bytes) (q : List ℕ)
    → get_or (put m k q) j [] ≡ (if bytes_eq k j then q else get_or m j [])
unfolding get_or
queue_at-put m k j q = ground (arith, get-put m k j q)

-- a client joins two queues where nobody waits
waiting_at-wait_for :
    (k j : Bytes) (s : Store)
    → bytes_eq k j ≡ false
    → (waiting_at k s ≡ []) × (waiting_at j s ≡ [])
    → (waiting_at k (wait_for (k ∷ j ∷ []) s).1 ≡ s.next_channel ∷ [])
      × (waiting_at j (wait_for (k ∷ j ∷ []) s).1 ≡ s.next_channel ∷ [])
unfolding wait_for join_queues
waiting_at-wait_for k j s apart (wk, wj) =
    let ch = s.next_channel ∷ [] in
    let m = put s.waiters k (waiting_at k s ++ ch) in
    let back : bytes_eq j k ≡ false = ground (arith, bytes_eq_iff k j, bytes_eq_iff j k) in
    (
      ground (
        arith,
        queue_at-put m j k (get_or m j [] ++ ch),
        queue_at-put s.waiters k k (waiting_at k s ++ ch),
        bytes_eq_refl k,
      ),
      ground (
        arith,
        queue_at-put m j j (get_or m j [] ++ ch),
        queue_at-put s.waiters k j (waiting_at k s ++ ch),
        bytes_eq_refl j,
      ),
    )

Ready-single :
    (channels : ℕ → Option Popped) (ch : ℕ) (queue : List ℕ)
    → queue ≡ ch ∷ []
    → channels ch ≡ none
    → Ready channels queue
Ready-single channels ch queue e free = rw e (free, tt, tt)

due_one :
    (key v : Bytes) (ch : ℕ) (queue : List ℕ) (old : Option Popped)
    → queue ≡ ch ∷ []
    → due key queue (v ∷ []) ch old ≡ some (record { key = key; value = v })
due_one key v ch queue old e = rw e (ground arith)

-- two keys with one client in both queues
served_twice :
    (k j v w : Bytes) (ch : ℕ) (s : Store)
    → bytes_eq k j ≡ false
    → (list_at k s ≡ []) × (list_at j s ≡ [])
    → (waiting_at k s ≡ ch ∷ []) × (waiting_at j s ≡ ch ∷ [])
    → s.channels ch ≡ none
    → s.behind ch ≡ none
    → (s1 s2 s3 : Store) × (rpush k (v ∷ []) s ≡ done (1, s1))
      × (receive ch s1 ≡ some (record { key = k; value = v }, s2))
      × (rpush j (w ∷ []) s2 ≡ done (1, s3))
      × (list_at j s3 ≡ [])
      × (s3.channels ch ≡ some (record { key = j; value = w }))
served_twice k j v w ch s apart (no_k, no_j) (wk, wj) free nothing =
    let (s1, run1, l1, q1, c1, b1) =
      rpush_serves k (v ∷ []) s (Ready-single s.channels ch (waiting_at k s) wk free) in
    let s2 : Store = record s1 {
      channels = update s1.channels ch (s1.behind ch);
      behind = update s1.behind ch none;
      in_select = update s1.in_select ch false;
    } in
    let wj2 : waiting_at j s2 ≡ ch ∷ [] = ground (arith, q1 j) in
    let empty : s1.behind ch ≡ none = rw b1 nothing in
    let free2 : s2.channels ch ≡ none = ground arith in
    let (s3, run3, l3, q3, c3, b3) =
      rpush_serves j (w ∷ []) s2 (Ready-single s2.channels ch (waiting_at j s2) wj2 free2) in
    let no_j2 : list_at j s2 ≡ [] = ground (arith, l1 j) in
    (
      s1,
      s2,
      s3,
      run1
          ∙ ap (λ (l : List Bytes). done (length l + 1, s1)) no_k
          ∙ ap (λ n. done (n, s1)) (omega arith),
      unfold receive in ground (arith, c1 ch, due_one k v ch (waiting_at k s) (s.channels ch) wk),
      run3
          ∙ ap (λ (l : List Bytes). done (length l + 1, s3)) no_j2
          ∙ ap (λ n. done (n, s3)) (omega arith),
      ground (arith, l3 j, bytes_eq_refl j, ap (λ (q : List ℕ). drop (length q) (w ∷ [])) wj2),
      c3 ch ∙ due_one j w ch (waiting_at j s2) (s2.channels ch) wj2,
    )

-- A client that waits on two keys is served by the first, and stays in the queue of the second: the
-- next RPUSH of the second key goes to the channel that nobody reads any more, so that the value is
-- in no list, though the reply counts it.
pub rpush_lost :
    (k j v w : Bytes) (s : Store)
    → bytes_eq k j ≡ false
    → (list_at j s ≡ []) × (waiting_at k s ≡ []) × (waiting_at j s ≡ [])
    → list_at k s ≡ []
    → s.channels s.next_channel ≡ none
    → (s1 s2 s3 : Store) × (blpop (k ∷ j ∷ []) s
        ≡ waiting s.next_channel (wait_for (k ∷ j ∷ []) s).1)
      × (rpush k (v ∷ []) (wait_for (k ∷ j ∷ []) s).1 ≡ done (1, s1))
      × (receive s.next_channel s1 ≡ some (record { key = k; value = v }, s2))
      × (rpush j (w ∷ []) s2 ≡ done (1, s3))
      × (list_at j s3 ≡ [])
      × (s3.channels s.next_channel ≡ some (record { key = j; value = w }))
unfolding wait_for
rpush_lost k j v w s apart (no_j, wk, wj) no_k free =
    let (s1, s2, s3, m0, m1, m2, m3, m4) =
      served_twice k j v w s.next_channel (wait_for (k ∷ j ∷ []) s).1 apart
        (unfold wait_for in (no_k, no_j)) (waiting_at-wait_for k j s apart (wk, wj))
        (unfold wait_for in free) (unfold wait_for in ground arith) in
    (s1, s2, s3, blpop_waits (k ∷ j ∷ []) s (no_k, (no_j, tt)), m0, m1, m2, m3, m4)
