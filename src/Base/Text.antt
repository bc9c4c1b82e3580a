-- ===== src/Base/Text.antt =====
-- Python's `str` as a list of code points: equality, `strip` and `split`.
use Prim.Native.Nat.{ℕ}
use Prim.Native.Char.{code}
use Prim.Native.String.{String}
use mathlib.Core.Path.{◌≡◌, refl}
use mathlib.Core.Bool.{Bool, false, ◌&&◌, ◌||◌}
use mathlib.Core.Option.{Option, none, some}
use mathlib.Core.List.{List, [], ◌∷◌, ◌++◌, reverse}
use native.Mathlib.Decide.{ℕ_discrete}
use native.Mathlib.Omega.{arith}
use slurm_manager.Base.Tests.{leb, ◌==◌, if◌then◌else◌}

abbrev pub Text : Type 0
Text = List ℕ

-- The text of a literal.
abbrev pub codes : String → Text
codes String.[] = []
codes (String.◌∷◌ c s) = code c ∷ codes s

dec_cons : (x y : ℕ) (xs ys : Text) → Dec (x ≡ y) → Dec (xs ≡ ys) → Dec (x ∷ xs ≡ y ∷ ys)
dec_cons x y xs ys (yes p) (yes q) = yes (cc)
dec_cons x y xs ys (yes p) (no q) = no (λ e. ground arith)
dec_cons x y xs ys (no p) d = no (λ e. ground arith)

-- `s == t`
unfoldable pub dec_text : Discrete Text
unfolding dec_cons ℕ_discrete
dec_text [] [] = yes refl
dec_text [] (y ∷ ys) = no (λ e. cc)
dec_text (x ∷ xs) [] = no (λ e. cc)
dec_text (x ∷ xs) (y ∷ ys) = dec_cons x y xs ys (ℕ_discrete x y) (dec_text xs ys)

-- The code points that `str.strip` removes.
pub is_space : ℕ → Bool
is_space c =
    (leb 9 c && leb c 13)
    || (leb 28 c && leb c 32)
    || c == 0x85
    || c == 0xa0
    || c == 0x1680
    || (leb 0x2000 c && leb c 0x200a)
    || c == 0x2028
    || c == 0x2029
    || c == 0x202f
    || c == 0x205f
    || c == 0x3000

pub strip_left : Text → Text
strip_left [] = []
strip_left (c ∷ s) = let rest = strip_left s in if is_space c then rest else c ∷ s

-- `s.strip()`
unfoldable pub strip : Text → Text
unfolding is_space strip_left
strip s = reverse (strip_left (reverse (strip_left s)))

-- `s.split(sep, 1)`: the part before the first separator, and what follows it if there is one.
unfoldable pub split_once : ℕ → Text → Text × Option Text
split_once sep [] = ([], none)
split_once sep (c ∷ s) =
    let (a, b) = split_once sep s in if c == sep then ([], some s) else (c ∷ a, b)

-- The separator does not occur.
abbrev pub Free : ℕ → Text → Type 0
Free sep [] = Unit
Free sep (c ∷ s) = ((c == sep) ≡ false) × Free sep s

pub split_once-append :
    (sep : ℕ) (a b : Text) → Free sep a → split_once sep (a ++ sep ∷ b) ≡ (a, some b)
unfolding split_once
split_once-append sep [] b h = ground arith
split_once-append sep (c ∷ a) b h = ground (arith, split_once-append sep a b h.1)

pub split_once-Free : (sep : ℕ) (a : Text) → Free sep a → split_once sep a ≡ (a, none)
unfolding split_once
split_once-Free sep [] h = refl
split_once-Free sep (c ∷ a) h = ground (arith, split_once-Free sep a h.1)
