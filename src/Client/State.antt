-- ===== src/Client/State.antt =====
-- What `handleClient` of app/client.go works on: its own variables and the program's shared parts.
use redis_go.Base.{ℕ, Bool, false, ◌||◌, List, [], ◌∷◌, Bytes, bytes_eq, Option}
use redis_go.Base.Int.{ℤ}
use redis_go.Store.{StreamId}
use redis_go.Commands.{World}
use redis_go.Pubsub.{Pubsub}
use redis_go.Replication.{ReplicaSet}

-- The connection stands for its number; `tx` is the address of the transaction, in the heap that the
-- store holds. `subscribed` is a set, and `has_sub` says that `sub` is not nil: the subscriber has the
-- connection's number. Of `currentUser` only matters whether it is nil.
pub record Client : Type 0 where
  pub conn : ℕ
  pub tx : ℕ
  pub has_sub : Bool
  pub subscribed : List Bytes
  pub has_user : Bool

-- `db` and the users, the channels, the replicas, and the append-only file.
pub record Node : Type 0 where
  pub world : World
  pub pubsub : Pubsub
  pub replicas : ReplicaSet
  pub aof : Option Bytes

-- What is left to do when a command that waits has its reply: the commands of an EXEC behind it, or the
-- propagation of the command itself.
pub data After : Type 0 where
  command : List Bytes → After
  queue : List (List Bytes) → After

-- The variables of WAIT at its select: how many replicas it wants, at which offset, how many it counted
-- last, and the number of the channel that the next acknowledgement closes.
pub record Counting : Type 0 where
  pub wanted : ℕ
  pub target : ℤ
  pub count : ℕ
  pub ack_ch : ℕ

-- A round of the loop of `handleClient`. It is ready for the next command, having written a reply, or it
-- waits in a select: BLPOP on a channel, XREAD BLOCK on the store's channel, WAIT on the replicas'.
pub data Step : Type 0 where
  ready : Bytes → Client → Node → Step
  popping : List Bytes → ℕ → Bytes → After → Client → Node → Step
  reading : List (Bytes × StreamId) → ℕ → Bytes → After → Client → Node → Step
  counting : Counting → Client → Node → Step

-- `contains` on a set of names.
unfoldable pub has_name : List Bytes → Bytes → Bool
has_name [] name = false
has_name (n ∷ names) name = bytes_eq n name || has_name names name
