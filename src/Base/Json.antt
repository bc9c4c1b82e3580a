-- ===== src/Base/Json.antt =====
-- JSON values as `json.loads` returns them, numbers being integers. A dictionary is the list of its
-- entries.
use slurm_manager.Base.Tests.{◌==◌}
use slurm_manager.Base.Text.{Text, dec_text}
use Prim.Native.Nat.{ℕ}
use mathlib.Core.Bool.{Bool, true, false, not}
use mathlib.Core.Logic.{ite}
use mathlib.Core.Option.{Option, none, some}
use mathlib.Core.List.{[], ◌∷◌}

-- `negsuc n` is the number -(n + 1).
mutual
  pub data Value : Type 0 where
    null : Value
    boolean : Bool → Value
    num : ℕ → Value
    negsuc : ℕ → Value
    str : Text → Value
    array : Items → Value
    object : Fields → Value

  pub data Items : Type 0 where
    nil : Items
    cons : Value → Items → Items

  pub data Fields : Type 0 where
    end : Fields
    field : Text → Value → Fields → Fields

-- `d.get(k)`
unfoldable pub get : Text → Fields → Option Value
get k end = none
get k (field j v d) = ite (dec_text k j) (some v) (get k d)

-- `d.get(k)` where an absent key counts as None.
abbrev pub get_or_null : Option Value → Value
get_or_null none = null
get_or_null (some v) = v

-- `bool(v)`
unfoldable pub truthy : Value → Bool
truthy null = false
truthy (boolean b) = b
truthy (num n) = not (n == 0)
truthy (negsuc n) = true
truthy (str []) = false
truthy (str (c ∷ s)) = true
truthy (array nil) = false
truthy (array (cons v vs)) = true
truthy (object end) = false
truthy (object (field k v d)) = true

-- `v == n`: True is 1 and False is 0.
unfoldable pub is_number : ℕ → Value → Bool
is_number n null = false
is_number n (boolean true) = n == 1
is_number n (boolean false) = n == 0
is_number n (num m) = m == n
is_number n (negsuc m) = false
is_number n (str s) = false
is_number n (array vs) = false
is_number n (object d) = false
