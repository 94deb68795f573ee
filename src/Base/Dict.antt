-- ===== src/Base/Dict.antt =====
-- Go's `map[string]V`: an association list behind its laws. Iteration (`range m`) goes through the
-- entries in the order of the list; Go leaves that order open.
use mathlib.Core.Path.{◌≡◌}
use mathlib.Core.Option.{Option, none, some}
use mathlib.Core.List.{List, [], ◌∷◌}
use native.Mathlib.Omega.{arith}
use package.redis_go.Base.Tests.{if◌then◌else◌}
use package.redis_go.Base.Strings.{Bytes, bytes_eq, bytes_eq_iff}

abbrev pub Dict {ℓ} : Type ℓ → Type ℓ
Dict V = List (Bytes × V)

module _ {ℓ} {V : Type ℓ} where
  unfoldable pub get : Dict V → Bytes → Option V
  get [] k = none
  get ((j, v) ∷ m) k = if bytes_eq j k then some v else get m k

  unfoldable pub remove : Dict V → Bytes → Dict V
  remove [] k = []
  remove ((j, v) ∷ m) k = let rest = remove m k in if bytes_eq j k then rest else (j, v) ∷ rest

  unfoldable pub put : Dict V → Bytes → V → Dict V
  unfolding remove
  put m k v = (k, v) ∷ remove m k

  -- `m[k]`, with the zero value of the type where the key is missing.
  unfoldable pub get_or : Dict V → Bytes → V → V
  unfolding get
  get_or m k d = elim (get m k) [ none ↦ d | some v ↦ v ]

  pub get-remove :
      (m : Dict V) (k j : Bytes) → get (remove m k) j ≡ (if bytes_eq k j then none else get m j)
  unfolding get remove
  get-remove [] k j = ground arith
  get-remove ((i, v) ∷ m) k j =
      ground (arith, get-remove m k j, bytes_eq_iff i k, bytes_eq_iff i j, bytes_eq_iff k j)

  pub get-put :
      (m : Dict V) (k j : Bytes) (v : V)
      → get (put m k v) j ≡ (if bytes_eq k j then some v else get m j)
  unfolding get put
  get-put m k j v = ground (arith, get-remove m k j)

pub ruleset dict_laws = (get-remove, get-put)
