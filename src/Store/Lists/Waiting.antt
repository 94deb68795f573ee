-- ===== src/Store/Lists/Waiting.antt =====
-- Clients that wait for an element are served in the order in which they came.
use redis_go.Base.{
  ℕ, ◌+◌, ◌≡◌, ◌≢◌, refl, ◌∙◌, sym, List, [], ◌∷◌, ◌++◌, append-nil, Option, none, some, arith,
  ◌==◌, if◌then◌else◌, Bytes, bytes_eq, All, length, drop, Bool-cases, inl, inr, length-append,
  ==_iff,
}
use redis_go.Base.Dict.{get_or, get-put}
use redis_go.Store.{Store, zero_entry, done, update, Popped}
use redis_go.Store.Lists.{Pushing, push_one, push_loop, start_push, finish_push, rpush}
use redis_go.Store.Lists.Ends.{push_loop_alone, list_at-or}
use redis_go.Store.Lists.Range.{list_at}

-- No channel stands twice in the queue, and each is empty.
abbrev pub Ready : (ℕ → Option Popped) → List ℕ → Type 0
Ready channels [] = Unit
Ready channels (ch ∷ queue) =
    (channels ch ≡ none) × All (λ other. other ≢ ch) queue × Ready channels queue

-- The value that is behind the place of `ch` in the queue: what the channel is due.
abbrev pub due : Bytes → List ℕ → List Bytes → ℕ → Option Popped → Option Popped
due key [] values ch old = old
due key (c ∷ queue) [] ch old = old
due key (c ∷ queue) (v ∷ values) ch old =
    if c == ch then some (record { key = key; value = v }) else due key queue values ch old

Ready-update :
    (channels : ℕ → Option Popped) (c : ℕ) (p : Option Popped) (queue : List ℕ)
    → All (λ other. other ≢ c) queue
    → Ready channels queue
    → Ready (update channels c p) queue
Ready-update channels c p [] h r = tt
Ready-update channels c p (ch ∷ queue) (hc, h) (r0, r1, r2) =
    (ground arith, r1, Ready-update channels c p queue h r2)

push_one_waiting :
    (key v : Bytes) (p : Pushing) (c : ℕ) (queue : List ℕ)
    → p.queue ≡ c ∷ queue
    → p.channels c ≡ none
    → push_one key v p
      ≡ done (record p {
        queue = queue;
        channels = update p.channels c (some (record { key = key; value = v }));
        handed = p.handed + 1;
      })
unfolding push_one
push_one_waiting key v p c queue e h = ground arith

due_elsewhere :
    (key : Bytes) (queue : List ℕ) (values : List Bytes) (ch : ℕ) (old : Option Popped)
    → All (λ other. other ≢ ch) queue
    → due key queue values ch old ≡ old
due_elsewhere key [] values ch old h = refl
due_elsewhere key (c ∷ queue) [] ch old h = refl
due_elsewhere key (c ∷ queue) (v ∷ values) ch old (hc, h) =
    ground (arith, due_elsewhere key queue values ch old h)

due_first :
    (key v : Bytes) (c : ℕ) (queue : List ℕ) (values : List Bytes) (ch : ℕ) (old : Option Popped)
    → All (λ other. other ≢ c) queue
    → due key queue values ch (if c == ch then some (record { key = key; value = v }) else old)
      ≡ due key (c ∷ queue) (v ∷ values) ch old
due_first key v c queue values ch old h = elim (Bool-cases (c == ch)) [
  | inl e ↦
      let same : c ≡ ch = (==_iff c ch).0 e in
      rw e (due_elsewhere key queue values ch _ (rw same at h))
  | inr e ↦ rw e refl
]

abbrev Served : Bytes → List ℕ → List Bytes → Pushing → Pushing → Type 0
Served key queue values p p' =
    (p'.queue ≡ drop (length values) queue)
    × (p'.list ≡ p.list ++ drop (length queue) values)
    × (length p'.list + p'.handed ≡ length p.list + p.handed + length values)
    × ((ch : ℕ) → p'.channels ch ≡ due key queue values ch (p.channels ch))
    × (p'.behind ≡ p.behind)

push_loop_serves :
    (key : Bytes) (values : List Bytes) (queue : List ℕ) (p : Pushing)
    → p.queue ≡ queue
    → Ready p.channels queue
    → (p' : Pushing) × (push_loop key values p ≡ done p') × Served key queue values p p'
push_loop_serves key [] [] p e r =
    (p, unfold push_loop in refl, (e, sym (append-nil p.list), omega arith, λ ch. refl, refl))
push_loop_serves key [] (c ∷ queue) p e r =
    (p, unfold push_loop in refl, (e, sym (append-nil p.list), omega arith, λ ch. refl, refl))
push_loop_serves key (v ∷ values) [] p e r = (
  record p { list = p.list ++ v ∷ values },
  push_loop_alone key (v ∷ values) p e,
  (e, refl, omega (arith, length-append p.list (v ∷ values)), λ ch. refl, refl),
)
push_loop_serves key (v ∷ values) (c ∷ queue) p e (free, apart, r) =
    let p1 : Pushing = record p {
      queue = queue;
      channels = update p.channels c (some (record { key = key; value = v }));
      handed = p.handed + 1;
    } in
    let (p', run, (q, l, n, chs, same)) =
      push_loop_serves key values queue p1 refl
        (Ready-update p.channels c (some (record { key = key; value = v })) queue apart r) in
    (
      p',
      step p1 p' (push_one_waiting key v p c queue e free) run,
      (
        q,
        l,
        omega arith,
        λ ch. chs ch ∙ due_first key v c queue values ch (p.channels ch) apart,
        same,
      ),
    )
  where
    step :
        (p1 p' : Pushing)
        → push_one key v p ≡ done p1
        → push_loop key values p1 ≡ done p'
        → push_loop key (v ∷ values) p ≡ done p'
    step p1 p' one more = unfold push_loop in rw one more

abbrev pub waiting_at : Bytes → Store → List ℕ
waiting_at key s = get_or s.waiters key []

list_at-finish_push :
    (key j : Bytes) (s : Store) (p : Pushing)
    → list_at j (finish_push key s p).1 ≡ (if bytes_eq key j then p.list else list_at j s)
unfolding finish_push
list_at-finish_push key j s p =
    ground
      (arith, get-put s.entries key j (record (get_or s.entries key zero_entry) { list = p.list }))

waiting_at-finish_push :
    (key j : Bytes) (s : Store) (p : Pushing)
    → waiting_at j (finish_push key s p).1 ≡ (if bytes_eq key j then p.queue else waiting_at j s)
unfolding finish_push get_or
waiting_at-finish_push key j s p = ground (arith, get-put s.waiters key j p.queue)

-- RPUSH where clients wait for the key, each with its own empty channel: the values go to them in the
-- order in which they came, one to each; the values that are left go behind the list, and the clients
-- that are left still wait. The reply counts the list and every value, and no other list, queue or
-- channel changes.
pub rpush_serves :
    (key : Bytes) (values : List Bytes) (s : Store)
    → Ready s.channels (waiting_at key s)
    → (s' : Store) × (rpush key values s ≡ done (length (list_at key s) + length values, s'))
      × ((j : Bytes)
          → list_at j s' ≡ (
              if bytes_eq key j
              then list_at key s ++ drop (length (waiting_at key s)) values
              else list_at j s))
      × ((j : Bytes)
          → waiting_at j s'
            ≡ (if bytes_eq key j then drop (length values) (waiting_at key s) else waiting_at j s))
      × ((ch : ℕ) → s'.channels ch ≡ due key (waiting_at key s) values ch (s.channels ch))
      × (s'.behind ≡ s.behind)
rpush_serves key values s ready =
    let (p', run, (q, l, n, chs, same)) =
      push_loop_serves key values (waiting_at key s) (start_push key s) refl ready in
    (
      (finish_push key s p').1,
      unfold rpush finish_push in rw run (ground (arith, n, list_at-or key s)),
      λ j. ground (arith, list_at-finish_push key j s p', l, list_at-or key s),
      λ j. ground (arith, waiting_at-finish_push key j s p', q),
      unfold finish_push in chs,
      unfold finish_push in same,
    )
