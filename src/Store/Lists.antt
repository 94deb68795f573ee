-- ===== src/Store/Lists.antt =====
-- `RPush`, `LPush`, `LRange`, `LLen`, `LPop` and `BLpop` of app/store.go, with the queues of clients
-- that wait for an element.
pub mod Range
pub mod Ends
pub mod Waiting
pub mod Lost
use redis_go.Base.{
  ℕ, zero, suc, ◌+◌, ◌-◌, ◌≡◌, Bool, true, false, not, ◌||◌, List, [], ◌∷◌, ◌++◌, Option, none,
  some, ltb, leb, ◌==◌, if◌then◌else◌, Bytes, length, take, drop,
}
use redis_go.Base.Int.{ℤ, pos, negsuc, ◌+ℤ◌, ltb_ℤ}
use redis_go.Base.Dict.{Dict, get, put, remove, get_or}
use redis_go.Store.{
  Store, Entry, zero_entry, Popped, Outcome, done, panic, blocked, ◌>>=◌, update, put_entry,
}

-- The variables of the loop of `RPush`: the queue of `key`, the channels, `e.list` and `handed`.
pub record Pushing : Type 0 where
  pub queue : List ℕ
  pub channels : ℕ → Option Popped
  pub behind : ℕ → Option Popped
  pub in_select : ℕ → Bool
  pub list : List Bytes
  pub handed : ℕ

-- `ch <- popped{key, v}`: the value goes to the client where it is in its select, else into the buffer of
-- capacity one. Behind a value that was handed over the buffer is still empty; a full one makes the
-- sender wait.
unfoldable pub send : ℕ → Popped → Pushing → Outcome Pushing
send ch v p = elim (p.channels ch) [
  | none ↦ done (record p { channels = update p.channels ch (some v) })
  | some _ ↦ elim (p.behind ch) [
    | none ↦
        if p.in_select ch then done (record p { behind = update p.behind ch (some v) }) else blocked
    | some _ ↦ blocked
  ]
]

-- One value: to the first client that waits, or else to the end of the list.
unfoldable pub push_one : Bytes → Bytes → Pushing → Outcome Pushing
unfolding send
push_one key v p = elim p.queue [
  | [] ↦ done (record p { list = p.list ++ v ∷ [] })
  | ch ∷ queue ↦ do
    p' ← send ch (record { key = key; value = v }) p
    done (record p' { queue = queue; handed = p.handed + 1 })
]

unfoldable pub push_loop : Bytes → List Bytes → Pushing → Outcome Pushing
push_loop key [] p = done p
push_loop key (v ∷ values) p = do p' ← push_one key v p; push_loop key values p'

abbrev pub start_push : Bytes → Store → Pushing
start_push key s = record {
  queue = get_or s.waiters key [];
  channels = s.channels;
  behind = s.behind;
  in_select = s.in_select;
  list = (get_or s.entries key zero_entry).list;
  handed = 0;
}

unfoldable pub finish_push : Bytes → Store → Pushing → ℕ × Store
finish_push key s p = (
  length p.list + p.handed,
  record s {
    entries = put s.entries key (record (get_or s.entries key zero_entry) { list = p.list });
    waiters = put s.waiters key p.queue;
    channels = p.channels;
    behind = p.behind;
  },
)

unfoldable pub rpush : Bytes → List Bytes → Store → Outcome (ℕ × Store)
rpush key values s = do p ← push_loop key values (start_push key s); done (finish_push key s p)

unfoldable pub push_front : List Bytes → List Bytes → List Bytes
push_front [] list = list
push_front (v ∷ values) list = push_front values (v ∷ list)

unfoldable pub lpush : Bytes → List Bytes → Store → ℕ × Store
unfolding push_front
lpush key values s =
    let e = get_or s.entries key zero_entry in
    let list = push_front values e.list in
    (length list, put_entry s key (record e { list = list; expires_at = 0 }))

-- `start += n` for a negative index.
unfoldable pub from_end : ℕ → ℤ → ℤ
from_end n (pos i) = pos i
from_end n (negsuc i) = pos n +ℤ negsuc i

-- A start below the list is clamped to its first element, a stop above it to its last, which is -1
-- where the list is empty.
abbrev pub clamp_low : ℤ → ℤ
clamp_low (pos i) = pos i
clamp_low (negsuc i) = pos 0

abbrev pub last_index : ℕ → ℤ
last_index zero = negsuc 0
last_index (suc n) = pos n

abbrev pub clamp_high : ℕ → ℤ → ℤ
clamp_high n (pos i) = if leb n i then last_index n else pos i
clamp_high n (negsuc i) = negsuc i

-- `xs[low:high]` panics where a bound is out of range. A slice may reach up to its capacity, which is
-- no part of the model: here a bound above the length is out of range.
unfoldable pub slice {ℓ} : {A : Type ℓ} → List A → ℤ → ℤ → Outcome (List A)
slice xs (pos low) (pos high) =
    if ltb high low || ltb (length xs) high then panic else done (take (high - low) (drop low xs))
slice xs _ _ = panic

unfoldable pub range {ℓ} : {A : Type ℓ} → List A → ℤ → ℤ → Outcome (List A)
unfolding from_end slice
range xs start stop =
    let n = length xs in
    let low = clamp_low (from_end n start) in
    let high = clamp_high n (from_end n stop) in
    if ltb_ℤ high low || not (ltb_ℤ low (pos n)) then done [] else slice xs low (high +ℤ pos 1)

unfoldable pub lrange : Bytes → ℤ → ℤ → Store → Outcome (List Bytes)
lrange key start stop s = elim (get s.entries key) [
  | none ↦ done []
  | some e ↦ range e.list start stop
]

unfoldable pub llen : Bytes → Store → ℕ
llen key s = elim (get s.entries key) [ none ↦ 0 | some e ↦ length e.list ]

-- `e.list[n:]` is out of range where `n` passes the length. The list may be left empty: the key stays.
unfoldable pub lpop : Bytes → ℕ → Store → Outcome (Option (List Bytes) × Store)
lpop key n s = elim (get s.entries key) [
  | none ↦ done (none, s)
  | some e ↦
      if ltb (length e.list) n
      then panic
      else done (some (take n e.list), put_entry s key (record e { list = drop n e.list }))
]

-- What is left of a key after its first element was taken: an empty list is deleted.
unfoldable pub after_pop : Bytes → Entry → List Bytes → Store → Store
after_pop key e [] s = record s { entries = remove s.entries key }
after_pop key e (v ∷ rest) s = put_entry s key (record e { list = v ∷ rest })

-- The first loop of `BLpop`: the first key that has an element gives it up.
unfoldable pub pop_first : List Bytes → Store → Option (Popped × Store)
unfolding after_pop
pop_first [] s = none
pop_first (k ∷ keys) s =
    let rest = pop_first keys s in
    elim (get_or s.entries k zero_entry).list [
      | [] ↦ rest
      | v ∷ list ↦
          some (record { key = k; value = v }, after_pop k (get_or s.entries k zero_entry) list s)
    ]

-- The second loop: the channel joins the queue of every key.
unfoldable pub join_queues : List Bytes → ℕ → Dict (List ℕ) → Dict (List ℕ)
join_queues [] ch waiters = waiters
join_queues (k ∷ keys) ch waiters =
    join_queues keys ch (put waiters k (get_or waiters k [] ++ ch ∷ []))

unfoldable pub wait_for : List Bytes → Store → ℕ × Store
unfolding join_queues
wait_for keys s = (
  s.next_channel,
  record s {
    waiters = join_queues keys s.next_channel s.waiters;
    behind = update s.behind s.next_channel none;
    in_select = update s.in_select s.next_channel false;
    next_channel = s.next_channel + 1;
  },
)

-- `BLpop` up to its `select`: an element, or the channel that it waits on.
pub data Blpop : Type 0 where
  popped : Popped → Store → Blpop
  waiting : ℕ → Store → Blpop

unfoldable pub blpop : List Bytes → Store → Blpop
unfolding pop_first wait_for
blpop keys s = elim (pop_first keys s) [
  | some (p, s') ↦ popped p s'
  | none ↦ waiting (wait_for keys s).0 (wait_for keys s).1
]

-- The client comes to its select: where there is a value, it receives it at once.
unfoldable pub enter_select : ℕ → Store → Store
enter_select ch s = elim (s.channels ch) [
  | none ↦ record s { in_select = update s.in_select ch true }
  | some _ ↦ s
]

-- `case v := <-ch`: possible where there is a value. What the buffer holds behind it stays there.
unfoldable pub receive : ℕ → Store → Option (Popped × Store)
receive ch s = elim (s.channels ch) [
  | none ↦ none
  | some p ↦ some (
    p,
    record s {
      channels = update s.channels ch (s.behind ch);
      behind = update s.behind ch none;
      in_select = update s.in_select ch false;
    },
  )
]

-- The first place of `ch` in a queue is cut out; `none` where it is not there.
unfoldable pub cut_out : ℕ → List ℕ → Option (List ℕ)
cut_out ch [] = none
cut_out ch (w ∷ queue) =
    let rest = cut_out ch queue in
    if w == ch then some queue else elim rest [ none ↦ none | some q ↦ some (w ∷ q) ]

-- `removeWaiter`: the queues without the channel, and whether it stood in any.
unfoldable pub remove_waiter : List Bytes → ℕ → Bool → Dict (List ℕ) → Bool × Dict (List ℕ)
remove_waiter [] ch found waiters = (found, waiters)
remove_waiter (key ∷ keys) ch found waiters =
    let cut = cut_out ch (get_or waiters key []) in
    remove_waiter keys ch (elim cut [ none ↦ found | some _ ↦ true ])
      (elim cut [ none ↦ waiters | some queue ↦ put waiters key queue ])

-- `cancelWait` after a timeout: a value that was sent in the meantime is still received.
unfoldable pub cancel_wait : List Bytes → ℕ → Store → Outcome (Option Popped × Store)
unfolding remove_waiter receive
cancel_wait keys ch s =
    let (still_waiting, waiters) = remove_waiter keys ch false s.waiters in
    let s' = record s { waiters = waiters; in_select = update s.in_select ch false } in
    if still_waiting
    then done (none, s')
    else elim (receive ch s') [ none ↦ blocked | some (p, s'') ↦ done (some p, s'') ]
