-- ===== src/Store/Watching/Marks.antt =====
-- A write marks the transactions that watch its key, and no other.
use redis_go.Base.{
  ℕ, ◌≡◌, refl, ◌∙◌, Bool, true, false, ◌&&◌, ◌||◌, List, [], ◌∷◌, ◌++◌, arith, ◌==◌, Bytes,
  bytes_eq, bytes_eq_iff, bytes_eq_refl,
}
use redis_go.Base.Dict.{get_or, get-put}
use redis_go.Store.{Store, Transaction, update, mark_all, mark_watchers}
use redis_go.Store.Strings.{set}
use redis_go.Store.Watching.{watch, watch_one, check_dirty}

-- The transaction stands in the queue.
abbrev pub contains : List ℕ → ℕ → Bool
contains [] tx = false
contains (w ∷ queue) tx = w == tx || contains queue tx

abbrev pub is_watching : ℕ → Bytes → Store → Bool
is_watching tx key s = contains (get_or s.watchers key []) tx

dirty-mark_all :
    (queue : List ℕ) (txs : ℕ → Transaction) (tx : ℕ)
    → (mark_all queue txs tx).dirty ≡ (contains queue tx || (txs tx).dirty)
unfolding mark_all
dirty-mark_all [] txs tx = refl
dirty-mark_all (w ∷ queue) txs tx =
    ground (arith, dirty-mark_all queue (update txs w (record (txs w) { dirty = true })) tx)

-- SET marks the transactions that watch its key; the others keep the mark that they had.
pub check_dirty-set :
    (tx : ℕ) (key value : Bytes) (t : ℕ) (s : Store)
    → check_dirty tx (set key value t s) ≡ (is_watching tx key s || check_dirty tx s)
unfolding check_dirty set mark_watchers
check_dirty-set tx key value t s = dirty-mark_all (get_or s.watchers key []) s.transactions tx

contains-append :
    (queue more : List ℕ) (tx : ℕ)
    → contains (queue ++ more) tx ≡ (contains queue tx || contains more tx)
contains-append [] more tx = refl
contains-append (w ∷ queue) more tx = ground (arith, contains-append queue more tx)

is_watching-watch_one :
    (tx x : ℕ) (key j : Bytes) (s : Store)
    → is_watching x j (watch_one tx key s) ≡ (bytes_eq key j && tx == x || is_watching x j s)
unfolding watch_one get_or
is_watching-watch_one tx x key j s = ground (
  arith,
  bytes_eq_iff key j,
  get-put s.watchers key j (get_or s.watchers key [] ++ tx ∷ []),
  contains-append (get_or s.watchers key []) (tx ∷ []) x,
)

is_watching-watch :
    (tx : ℕ) (keys : List Bytes) (j : Bytes) (s : Store)
    → is_watching tx j s ≡ true
    → is_watching tx j (watch tx keys s) ≡ true
unfolding watch
is_watching-watch tx [] j s h = h
is_watching-watch tx (key ∷ keys) j s h =
    is_watching-watch tx keys j (watch_one tx key s)
      (is_watching-watch_one tx tx key j s ∙ rw h (ground arith))

pub is_watching_now :
    (tx : ℕ) (before after : List Bytes) (key : Bytes) (s : Store)
    → is_watching tx key (watch tx (before ++ key ∷ after) s) ≡ true
unfolding watch
is_watching_now tx [] after key s =
    is_watching-watch tx after key (watch_one tx key s)
      (is_watching-watch_one tx tx key key s ∙ ground (arith, bytes_eq_refl key))
is_watching_now tx (k ∷ before) after key s = is_watching_now tx before after key (watch_one tx k s)

-- A transaction that watches a key, among any others, is marked by the next SET of that key.
pub check_dirty-watch :
    (tx : ℕ) (before after : List Bytes) (key value : Bytes) (t : ℕ) (s : Store)
    → check_dirty tx (set key value t (watch tx (before ++ key ∷ after) s)) ≡ true
check_dirty-watch tx before after key value t s =
    rw (check_dirty-set, is_watching_now tx before after key s)
