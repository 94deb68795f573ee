-- ===== src/Base/Floats.antt =====
-- The float64 operations that the program uses, on IEEE 754 bit patterns: those of the processor, of
-- package math, and the texts of strconv. They are a parameter of the definitions that use them.
use Prim.Native.Nat.{ℕ}
use mathlib.Core.Bool.{Bool}
use package.redis_go.Base.Strings.{Bytes}

pub record Floats : Type 0 where
  -- `strconv.ParseFloat(s, 64)`: the value, also beside an error, and whether there was none.
  pub parse : Bytes → ℕ × Bool
  -- `strconv.FormatFloat(x, 'f', -1, 64)`, and `%f`.
  pub format : ℕ → Bytes
  pub format_six : ℕ → Bytes
  pub add : ℕ → ℕ → ℕ
  pub sub : ℕ → ℕ → ℕ
  pub mul : ℕ → ℕ → ℕ
  pub div : ℕ → ℕ → ℕ
  pub sqrt : ℕ → ℕ
  pub sin : ℕ → ℕ
  pub cos : ℕ → ℕ
  pub asin : ℕ → ℕ
  -- The conversions from and to unsigned integers.
  pub of_uint : ℕ → ℕ
  pub to_uint32 : ℕ → ℕ
  pub to_uint64 : ℕ → ℕ
