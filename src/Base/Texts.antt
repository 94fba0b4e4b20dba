-- ===== src/Base/Texts.antt =====
-- Go strings that the program walks: their bytes.
use Prim.Native.Nat.{ℕ}
use Prim.Native.Char.{code}
use Prim.Native.String.{String}
use mathlib.Core.Path.{◌≡◌}
use mathlib.Core.Logic.{◌↔◌}
use mathlib.Core.Bool.{Bool, true, false, ◌&&◌}
use mathlib.Core.List.{List, [], ◌∷◌}
use native.Mathlib.Omega.{arith}
use proxmox_api_go.Base.Tests.{Eq, nat_eqb, nat_eqb_iff}

abbrev pub Text : Type 0
Text = List ℕ

-- The code points of a literal, which are its bytes where it is ASCII.
abbrev pub codes : String → Text
codes String.[] = []
codes (String.◌∷◌ c s) = code c ∷ codes s

abbrev pub text_eqb : Text → Text → Bool
text_eqb [] [] = true
text_eqb (a ∷ s) (b ∷ t) = nat_eqb a b && text_eqb s t
text_eqb _ _ = false

pub text_eqb_iff : (s t : Text) → (text_eqb s t ≡ true) ↔ (s ≡ t)
text_eqb_iff [] [] = ground arith
text_eqb_iff (a ∷ s) (b ∷ t) = ground (arith, text_eqb_iff s t, nat_eqb_iff a b)
text_eqb_iff [] (b ∷ t) = ground arith
text_eqb_iff (a ∷ s) [] = ground arith

instance abbrev pub text_eq : Eq Text
text_eq = record { same = text_eqb; same_iff = text_eqb_iff }
