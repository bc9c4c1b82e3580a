-- ===== src/Base/Dict.antt =====
-- Python's `dict` with text keys, as an association list in insertion order.
use slurm_manager.Base.Tests.{if◌then◌else◌, is_some}
use slurm_manager.Base.Text.{Text, dec_text}
use mathlib.Core.Bool.{Bool, true, false}
use mathlib.Core.Path.{◌≡◌, refl}
use mathlib.Core.Logic.{ite, ◌≢◌}
use mathlib.Core.Option.{Option, none, some}
use mathlib.Core.List.{List, [], ◌∷◌}
use native.Mathlib.Omega.{arith}

abbrev pub Dict {ℓ} : Type ℓ → Type ℓ
Dict V = List (Text × V)

module _ {ℓ} {V : Type ℓ} where
  -- `d.get(k)`
  unfoldable pub lookup : Text → Dict V → Option V
  lookup k [] = none
  lookup k ((j, v) ∷ d) = ite (dec_text k j) (some v) (lookup k d)

  -- `d[k] = v`: an old key keeps its place.
  unfoldable pub insert : Text → V → Dict V → Dict V
  insert k v [] = (k, v) ∷ []
  insert k v ((j, w) ∷ d) = ite (dec_text k j) ((k, v) ∷ d) ((j, w) ∷ insert k v d)

  -- `d.pop(k, None)`
  unfoldable pub erase : Text → Dict V → Dict V
  erase k [] = []
  erase k ((j, w) ∷ d) = ite (dec_text k j) (erase k d) ((j, w) ∷ erase k d)

  pub lookup-nil : (k : Text) → lookup k [] ≡ none
  unfolding lookup
  lookup-nil k = refl

  pub insert-ne-nil : (k : Text) (v : V) (d : Dict V) → insert k v d ≢ []
  unfolding insert
  insert-ne-nil k v [] = λ e. cc
  insert-ne-nil k v ((j, w) ∷ d) = ground arith

  pub lookup-insert :
      (j k : Text) (v : V) (d : Dict V)
      → lookup j (insert k v d) ≡ ite (dec_text j k) (some v) (lookup j d)
  unfolding lookup insert
  lookup-insert j k v [] = refl
  lookup-insert j k v ((i, w) ∷ d) = ground (arith, lookup-insert j k v d)

  pub insert-lookup : (k : Text) (v : V) (d : Dict V) → lookup k d ≡ some v → insert k v d ≡ d
  unfolding lookup insert
  insert-lookup k v [] e = ground arith
  insert-lookup k v ((i, w) ∷ d) e = ground (arith, insert-lookup k v d)

  pub lookup-erase :
      (j k : Text) (d : Dict V) → lookup j (erase k d) ≡ ite (dec_text j k) none (lookup j d)
  unfolding lookup erase
  lookup-erase j k [] = ground arith
  lookup-erase j k ((i, w) ∷ d) = ground (arith, lookup-erase j k d)

-- A dictionary of dictionaries: `m[t][i]`.
module _ {ℓ} {V : Type ℓ} where
  abbrev pub entry_of : Text → Option (Dict V) → Option V
  entry_of i none = none
  entry_of i (some d) = lookup i d

  abbrev pub find : Text → Text → Dict (Dict V) → Option V
  find t i m = entry_of i (lookup t m)

  -- `m.get(t, {})`
  abbrev pub entries : Option (Dict V) → Dict V
  entries none = []
  entries (some d) = d

  pub find-insert :
      (t i s : Text) (d : Dict V) (m : Dict (Dict V))
      → find t i (insert s d m) ≡ ite (dec_text t s) (lookup i d) (find t i m)
  find-insert t i s d m = ground (arith, lookup-insert t s d m)

  pub find-erase :
      (t i s : Text) (m : Dict (Dict V))
      → find t i (erase s m) ≡ ite (dec_text t s) none (find t i m)
  find-erase t i s m = ground (arith, lookup-erase t s m)

  pub lookup-entries :
      (i t : Text) (m : Dict (Dict V)) → lookup i (entries (lookup t m)) ≡ find t i m
  unfolding lookup
  lookup-entries i t m = ground arith

  abbrev pub values : Dict V → List V
  values [] = []
  values ((k, v) ∷ d) = v ∷ values d

  abbrev pub keys : Dict V → List Text
  keys [] = []
  keys ((k, v) ∷ d) = k ∷ keys d

-- `j in ks`
abbrev pub has : Text → List Text → Bool
has j [] = false
has j (k ∷ ks) = ite (dec_text j k) true (has j ks)

module _ {ℓ} {V : Type ℓ} where
  -- `for k in ks: d.pop(k, None)`
  unfoldable pub erase_all : List Text → Dict V → Dict V
  erase_all [] d = d
  erase_all (k ∷ ks) d = erase_all ks (erase k d)

  pub lookup-erase_all :
      (j : Text) (ks : List Text) (d : Dict V)
      → lookup j (erase_all ks d) ≡ (if has j ks then none else lookup j d)
  unfolding erase_all
  lookup-erase_all j [] d = refl
  lookup-erase_all j (k ∷ ks) d =
      ground (arith, lookup-erase_all j ks (erase k d), lookup-erase j k d)

  pub has-keys : (j : Text) (d : Dict V) → has j (keys d) ≡ is_some (lookup j d)
  unfolding lookup
  has-keys j [] = refl
  has-keys j ((k, v) ∷ d) = ground (arith, has-keys j d)
