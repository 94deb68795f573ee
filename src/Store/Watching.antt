-- ===== src/Store/Watching.antt =====
-- `Watch`, `Unwatch` and `CheckDirty` of app/store.go: the keys that a transaction watches.
pub mod Marks
pub mod Unwatched
use redis_go.Base.{ℕ, Bool, false, not, List, [], ◌∷◌, ◌++◌, ◌==◌, if◌then◌else◌, Bytes}
use redis_go.Base.Dict.{Dict, put, remove, get_or}
use redis_go.Store.{Store, Transaction, update}

unfoldable pub watch_one : ℕ → Bytes → Store → Store
watch_one tx key s = record s {
  watchers = put s.watchers key (get_or s.watchers key [] ++ tx ∷ []);
  transactions =
      update s.transactions tx
        (record (s.transactions tx) { watched = (s.transactions tx).watched ++ key ∷ [] });
}

unfoldable pub watch : ℕ → List Bytes → Store → Store
watch tx [] s = s
watch tx (key ∷ keys) s = watch tx keys (watch_one tx key s)

unfoldable pub check_dirty : ℕ → Store → Bool
check_dirty tx s = (s.transactions tx).dirty

-- The inner loop of `Unwatch`, as it stands: another transaction deletes the whole queue, the
-- transaction itself makes it empty.
unfoldable pub clear_queue : ℕ → Bytes → List ℕ → Dict (List ℕ) → Dict (List ℕ)
clear_queue tx k [] watchers = watchers
clear_queue tx k (w ∷ queue) watchers =
    clear_queue tx k queue (if not (w == tx) then remove watchers k else put watchers k [])

unfoldable pub unwatch_loop : ℕ → List Bytes → Store → Store
unfolding clear_queue
unwatch_loop tx [] s = s
unwatch_loop tx (k ∷ keys) s = unwatch_loop tx keys (record s {
  watchers = clear_queue tx k (get_or s.watchers k []) s.watchers;
  transactions =
      update s.transactions tx (record (s.transactions tx) { watched = []; dirty = false });
})

unfoldable pub unwatch : ℕ → Store → Store
unfolding unwatch_loop
unwatch tx s = unwatch_loop tx (s.transactions tx).watched s
