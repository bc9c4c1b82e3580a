-- ===== src/Base/Unique.antt =====
-- Dictionaries that hold each key once, as Python's do.

use slurm_manager.Base.Text.{Text}
use slurm_manager.Base.Dict.{Dict, lookup, insert, erase, lookup-insert, lookup-erase}
use mathlib.Core.Path.{◌≡◌, refl}
use mathlib.Core.Option.{none, some}
use mathlib.Core.List.{[], ◌∷◌}
use native.Mathlib.Omega.{arith}

module _ {ℓ} {V : Type ℓ} where
  abbrev pub Unique : Dict V → Type ℓ
  Unique [] = Unit
  Unique ((k, v) ∷ d) = (lookup k d ≡ none) × Unique d

  pub insert-Unique : (k : Text) (v : V) (d : Dict V) → Unique d → Unique (insert k v d)
  unfolding insert lookup
  insert-Unique k v [] u = (refl, tt)
  insert-Unique k v ((j, w) ∷ d) u = ground (arith, insert-Unique k v d u.1, lookup-insert j k v d)

  pub erase-Unique : (k : Text) (d : Dict V) → Unique d → Unique (erase k d)
  unfolding erase
  erase-Unique k [] u = tt
  erase-Unique k ((j, w) ∷ d) u = ground (arith, erase-Unique k d u.1, lookup-erase j k d)

  -- The entries behind the first are found as before.
  pub lookup-tail :
      (i k : Text) (v w : V) (d : Dict V)
      → lookup k d ≡ none
      → lookup i d ≡ some w
      → lookup i ((k, v) ∷ d) ≡ some w
  unfolding lookup
  lookup-tail i k v w d missing e = ground arith

  pub lookup-head : (k : Text) (v : V) (d : Dict V) → lookup k ((k, v) ∷ d) ≡ some v
  unfolding lookup
  lookup-head k v d = ground arith
