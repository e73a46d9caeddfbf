-- ===== src/Base/Strings.antt =====
-- Texts as lists of UTF-16 code units, with JavaScript's `===` on them and on optional texts.
use galachain_sdk.Base.Tests.{◌==◌}
use Prim.Native.Nat.{ℕ}
use Prim.Native.Char.{code}
use Prim.Native.String.{String}
use mathlib.Core.Path.{◌≡◌, refl}
use mathlib.Core.Logic.{◌↔◌}
use mathlib.Core.Bool.{Bool, true, false, ◌&&◌}
use mathlib.Core.Option.{Option, none, some}
use mathlib.Core.List.{List, [], ◌∷◌}
use native.Mathlib.Omega.{arith}

abbrev pub Text : Type 0
Text = List ℕ

-- A literal of the source.
abbrev pub text : String → Text
text String.[] = []
text (String.◌∷◌ c s) = code c ∷ text s

unfoldable pub eqb : Text → Text → Bool
eqb [] [] = true
eqb [] (y ∷ ys) = false
eqb (x ∷ xs) [] = false
eqb (x ∷ xs) (y ∷ ys) = x == y && eqb xs ys

pub eqb_iff : (s t : Text) → (eqb s t ≡ true) ↔ (s ≡ t)
unfolding eqb
eqb_iff [] [] = ((λ _. refl), λ _. refl)
eqb_iff [] (y ∷ ys) = ((λ h. cc), λ h. cc)
eqb_iff (x ∷ xs) [] = ((λ h. cc), λ h. cc)
eqb_iff (x ∷ xs) (y ∷ ys) =
    ((λ h. ground (arith, eqb_iff xs ys)), λ h. ground (arith, eqb_iff xs ys))

pub eqb_self : (s : Text) → eqb s s ≡ true
eqb_self s = (eqb_iff s s).1 refl

-- `===` on `string | undefined`.
unfoldable pub opt_eqb : Option Text → Option Text → Bool
opt_eqb none none = true
opt_eqb none (some t) = false
opt_eqb (some s) none = false
opt_eqb (some s) (some t) = eqb s t
