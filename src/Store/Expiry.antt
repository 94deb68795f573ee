-- ===== src/Store/Expiry.antt =====
-- `startSweeper` and `evictExpired` of app/store.go.
pub mod Laws
use redis_go.Base.{ℕ, List, [], ◌∷◌, none, some, if◌then◌else◌, Bytes}
use redis_go.Base.Dict.{Dict, get, remove}
use redis_go.Store.{Store, Entry, expired, mark_watchers}

unfoldable pub evict_one : ℕ → Bytes → Store → Store
unfolding expired mark_watchers
evict_one now k s = elim (get s.entries k) [
  | none ↦ s
  | some e ↦
      if expired now e
      then (let s' = mark_watchers k s in record s' { entries = remove s'.entries k })
      else s
]

unfoldable pub evict_loop : ℕ → Dict Entry → Store → Store
unfolding evict_one
evict_loop now [] s = s
evict_loop now ((k, e) ∷ rest) s = evict_loop now rest (evict_one now k s)

-- The loop ranges over the map from which it deletes.
unfoldable pub evict_expired : ℕ → Store → Store
unfolding evict_loop
evict_expired now s = evict_loop now s.entries s

-- What the sweeper's `select` meets: the ticker, at the instant that `evictExpired` reads, or the end of
-- the context.
pub data Wake : Type 0 where
  ticked : ℕ → Wake
  cancelled : Wake

unfoldable pub sweep : List Wake → Store → Store
unfolding evict_expired
sweep [] s = s
sweep (ticked now ∷ rest) s = sweep rest (evict_expired now s)
sweep (cancelled ∷ rest) s = s
