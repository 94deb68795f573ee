-- ===== src/Aof.antt =====
-- app/aof.go: the append-only file. The file is its bytes; `Sync` changes none of them, and an `*AOF`
-- that is nil (the file is switched off) is `none`.
pub mod Replay
use redis_go.Base.{ℕ, zero, suc, Option, none, some, List, [], ◌∷◌, ◌++◌, Bytes, length}
use redis_go.Resp.Reader.{ReadError, eof, out_of_fuel, Result, ok, err, read_command}

unfoldable pub append : Bytes → Option Bytes → Option Bytes
append raw none = none
append raw (some file) = some (file ++ raw)

-- How a replay ends: at the end of the file, or with the error that ends the process at start-up.
pub data Ending : Type 0 where
  finished : Ending
  failed : ReadError → Ending

module _ {ℓ} {S : Type ℓ} (apply : List Bytes → S → S) where
  unfoldable pub replay_loop : ℕ → Bytes → S → S × Ending
  replay_loop zero file s = (s, failed out_of_fuel)
  replay_loop (suc fuel) file s = elim (read_command file) [
    | err e ↦ elim e [ eof ↦ (s, finished) | other ↦ (s, failed other) ]
    | ok (cmd, rest) ↦ replay_loop fuel rest (apply cmd s)
  ]

  -- A command takes a byte at least, so that the file's length bounds the rounds.
  unfoldable pub replay : Option Bytes → S → S × Ending
  unfolding replay_loop
  replay none s = (s, finished)
  replay (some file) s = replay_loop (suc (length file)) file s
