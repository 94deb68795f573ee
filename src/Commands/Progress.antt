-- ===== src/Commands/Progress.antt =====
-- How a call of `handleCommands` goes on: it has written its reply, or it waits in a select.
use redis_go.Base.{ℕ, List, Bytes}
use redis_go.Store.{StreamId}

pub data Handled {ℓ} (S : Type ℓ) : Type ℓ where
  replied : Bytes → S → Handled S
  -- BLPOP on its keys, with its channel.
  waiting_pop : List Bytes → ℕ → S → Handled S
  -- XREAD BLOCK behind its IDs, on the channel with the number.
  waiting_read : List (Bytes × StreamId) → ℕ → S → Handled S
