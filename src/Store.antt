-- ===== src/Store.antt =====
-- app/store.go: the keyspace. This file has its data; each family of operations is a module below.
-- A method of `*store` is a function from the store to the new store and its results. The mutex is
-- held from a method's first read to its last write, so that a method is one step; the few methods that
-- do not hold it are taken as if they did.
pub mod Strings
pub mod Lists
pub mod Streams
pub mod Watching
pub mod Bits
pub mod Zsets
pub mod Geo
pub mod Expiry
pub mod Kinds
use redis_go.Base.{
  ℕ, zero, suc, ◌+◌, Bool, true, false, not, ◌&&◌, List, [], ◌∷◌, Option, none, some, ltb, ◌==◌,
  if◌then◌else◌, Bytes,
}
use redis_go.Base.Dict.{Dict, get, put, get_or}

-- The texts of the `Err…` variables.
pub data Error : Type 0 where
  bit_value not_integer bit_offset id_zero invalid_id wrong_type id_too_small : Error

-- `(value, error)`
pub data Result {ℓ} (A : Type ℓ) : Type ℓ where
  ok : A → Result A
  err : Error → Result A

-- How a call ends: it returns, it panics (an index out of range or a nil pointer, which ends the
-- process, since nothing recovers), or it waits for ever on a channel with the mutex held.
pub data Outcome {ℓ} (A : Type ℓ) : Type ℓ where
  done : A → Outcome A
  panic blocked : Outcome A

infixl 5 ◌>>=◌
abbrev pub ◌>>=◌ {ℓ κ} : {A : Type ℓ} {B : Type κ} → Outcome A → (A → Outcome B) → Outcome B
done a >>= f = f a
panic >>= f = panic
blocked >>= f = blocked

-- `entry.kind`: the lists are stored with the empty text.
pub data Kind : Type 0 where
  untyped string stream zset : Kind

pub record StreamId : Type 0 where
  pub ms : ℕ
  pub seq : ℕ

pub record StreamEntry : Type 0 where
  pub id : StreamId
  pub fields : List Bytes

pub record Stream : Type 0 where
  pub entries : List StreamEntry
  pub last_id : StreamId

-- A `float64` score is its IEEE 754 bit pattern, a number below 2^64.
pub record ZsetEntry : Type 0 where
  pub name : Bytes
  pub score : ℕ

pub record Zset : Type 0 where
  pub scores : Dict ℕ
  pub sorted : List ZsetEntry

-- A `time.Time` is its nanoseconds since the zero time. The pointers `stream` and `zset` of an entry
-- are not shared between keys: `none` is nil.
pub record Entry : Type 0 where
  pub kind : Kind
  pub value : Bytes
  pub list : List Bytes
  pub stream : Option Stream
  pub expires_at : ℕ
  pub zset : Option Zset

abbrev pub zero_entry : Entry
zero_entry = record {
  kind = untyped;
  value = [];
  list = [];
  stream = none;
  expires_at = 0;
  zset = none;
}

pub record Popped : Type 0 where
  pub key : Bytes
  pub value : Bytes

-- `transaction` of app/client.go: the store holds pointers to it.
pub record Transaction : Type 0 where
  pub active : Bool
  pub queued : List (List Bytes)
  pub watched : List Bytes
  pub dirty : Bool

abbrev pub zero_transaction : Transaction
zero_transaction = record { active = false; queued = []; watched = []; dirty = false }

-- Pointers to transactions and channels are numbers; `transactions` and `channels` are the heap that
-- they point into. For a channel of capacity one, `channels` has the value that its client gets next, which
-- is in the buffer or was handed to a client in its select; `behind` has what the buffer holds behind a
-- value that was handed over, and `in_select` says whether the client has come to its select. `notify` counts the channels that
-- were closed and made anew.
pub record Store : Type 0 where
  pub entries : Dict Entry
  pub waiters : Dict (List ℕ)
  pub notify : ℕ
  pub watchers : Dict (List ℕ)
  pub transactions : ℕ → Transaction
  pub channels : ℕ → Option Popped
  pub behind : ℕ → Option Popped
  pub in_select : ℕ → Bool
  pub next_channel : ℕ

abbrev pub new_store : Store
new_store = record {
  entries = [];
  waiters = [];
  notify = 0;
  watchers = [];
  transactions = λ tx. zero_transaction;
  channels = λ ch. none;
  behind = λ ch. none;
  in_select = λ ch. false;
  next_channel = 0;
}

abbrev pub update {ℓ} : {A : Type ℓ} → (ℕ → A) → ℕ → A → ℕ → A
update f i a j = if i == j then a else f j

abbrev pub is_kind : Kind → Kind → Bool
is_kind untyped untyped = true
is_kind string string = true
is_kind stream stream = true
is_kind zset zset = true
is_kind _ _ = false

-- `!t.IsZero() && now.After(t)`
unfoldable pub expired : ℕ → Entry → Bool
expired now e = not (e.expires_at == 0) && ltb e.expires_at now

abbrev pub put_entry : Store → Bytes → Entry → Store
put_entry s key e = record s { entries = put s.entries key e }

-- The loop of `markWatchersLocked`.
unfoldable pub mark_all : List ℕ → (ℕ → Transaction) → ℕ → Transaction
mark_all [] txs = txs
mark_all (tx ∷ rest) txs = mark_all rest (update txs tx (record (txs tx) { dirty = true }))

unfoldable pub mark_watchers : Bytes → Store → Store
mark_watchers key s = record s { transactions = mark_all (get_or s.watchers key []) s.transactions }
