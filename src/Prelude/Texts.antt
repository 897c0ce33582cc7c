-- ===== src/Prelude/Texts.antt =====
-- Texts as lists of bytes, with the tests of std::string that the program uses.
use Prim.Native.Char.{code}
use Prim.Native.String.{String}
use Prim.Native.Nat.{ℕ}
use mathlib.Core.Path.{◌≡◌, refl}
use mathlib.Core.Logic.{◌↔◌}
use mathlib.Core.Bool.{Bool, true, false, ◌&&◌, ◌||◌}
use mathlib.Core.List.{List, [], ◌∷◌}
use native.Mathlib.Omega.{arith}
use osrm_backend.Prelude.Tests.{◌==◌}

-- The bytes of an ASCII text.
abbrev pub codes : String → List ℕ
codes String.[] = []
codes (String.◌∷◌ c s) = code c ∷ codes s

-- `a == b` of two std::string.
abbrev pub text_eq : List ℕ → List ℕ → Bool
text_eq [] [] = true
text_eq [] (d ∷ b) = false
text_eq (c ∷ a) [] = false
text_eq (c ∷ a) (d ∷ b) = c == d && text_eq a b

-- `s` begins with `sub`.
abbrev pub starts_with : List ℕ → List ℕ → Bool
starts_with s [] = true
starts_with [] (c ∷ sub) = false
starts_with (d ∷ s) (c ∷ sub) = d == c && starts_with s sub

-- `s.find(sub) != std::string::npos`.
abbrev pub contains : List ℕ → List ℕ → Bool
contains [] sub = starts_with [] sub
contains (c ∷ s) sub = starts_with (c ∷ s) sub || contains s sub

pub text_eq_iff : (a b : List ℕ) → (text_eq a b ≡ true) ↔ (a ≡ b)
text_eq_iff [] [] = ((λ _. refl), (λ _. refl))
text_eq_iff [] (d ∷ b) = ((λ e. cc), (λ e. cc))
text_eq_iff (c ∷ a) [] = ((λ e. cc), (λ e. cc))
text_eq_iff (c ∷ a) (d ∷ b) =
    let (f, g) = text_eq_iff a b in ((λ e. ground (arith, f)), (λ e. ground (arith, g)))
