-- ===== src/Base/Texts.antt =====
-- Texts are lists of code points. Here are equality, and what the program uses of Go's `strings`.
use Prim.Native.Char.{code}
use Prim.Native.Nat.{ℕ}
use Prim.Native.String.{String}
use mathlib.Core.Path.{◌≡◌, refl, ap₂}
use mathlib.Core.Logic.{◌↔◌}
use mathlib.Core.Bool.{Bool, true, false, ◌&&◌, ◌||◌}
use mathlib.Core.List.{List, [], ◌∷◌}
use native.Mathlib.Omega.{arith}
use pspxy.Base.Tests.{eqb, leb, ltb}

abbrev pub Text : Type 0
Text = List ℕ

abbrev pub codes : String → Text
codes String.[] = []
codes (String.◌∷◌ c s) = code c ∷ codes s

infix 50 ◌==◌
unfoldable pub ◌==◌ : Text → Text → Bool
[] == [] = true
[] == (y ∷ t) = false
(x ∷ s) == [] = false
(x ∷ s) == (y ∷ t) = eqb x y && (s == t)

pub eq_iff : (s t : Text) → ((s == t) ≡ true) ↔ (s ≡ t)
unfolding ◌==◌
eq_iff [] [] = (λ _. refl, λ _. refl)
eq_iff [] (y ∷ t) = (λ h. cc, λ h. cc)
eq_iff (x ∷ s) [] = (λ h. cc, λ h. cc)
eq_iff (x ∷ s) (y ∷ t) = ground (arith, eq_iff s t)

pub eq_refl : (s : Text) → (s == s) ≡ true
eq_refl s = (eq_iff s s).1 refl

-- unicode.IsSpace
unfoldable pub is_space : ℕ → Bool
is_space c =
    (leb 9 c && leb c 13)
    || eqb c 32
    || eqb c 0x85
    || eqb c 0xA0
    || eqb c 0x1680
    || (leb 0x2000 c && leb c 0x200a)
    || eqb c 0x2028
    || eqb c 0x2029
    || eqb c 0x202f
    || eqb c 0x205f
    || eqb c 0x3000

-- Go's `<` on strings: the order of UTF-8 is that of the code points.
unfoldable pub less_text : Text → Text → Bool
less_text [] [] = false
less_text [] (y ∷ t) = true
less_text (x ∷ s) [] = false
less_text (x ∷ s) (y ∷ t) = let rest = less_text s t in ltb x y || (eqb x y && rest)

pub less_text-asym : (s t : Text) → less_text s t ≡ true → less_text t s ≡ false
unfolding less_text
less_text-asym [] [] h = cc
less_text-asym [] (y ∷ t) h = refl
less_text-asym (x ∷ s) [] h = cc
less_text-asym (x ∷ s) (y ∷ t) h = ground (arith, less_text-asym s t)

pub less_text-chain :
    (s t r : Text) → less_text t s ≡ false → less_text r t ≡ false → less_text r s ≡ false
unfolding less_text
less_text-chain [] [] r h k = k
less_text-chain [] (y ∷ t) [] h k = refl
less_text-chain [] (y ∷ t) (z ∷ r) h k = refl
less_text-chain (x ∷ s) [] r h k = cc
less_text-chain (x ∷ s) (y ∷ t) [] h k = cc
less_text-chain (x ∷ s) (y ∷ t) (z ∷ r) h k = ground (arith, less_text-chain s t r)

-- Of two texts that differ one is less.
pub less_text-total : (s t : Text) → less_text s t ≡ false → less_text t s ≡ false → s ≡ t
unfolding less_text
less_text-total [] [] h g = refl
less_text-total [] (y ∷ t) h g = cc
less_text-total (x ∷ s) [] h g = cc
less_text-total (x ∷ s) (y ∷ t) h g =
    let head : x ≡ y = ground arith in
    let tail : s ≡ t = less_text-total s t (ground arith) (ground arith) in ap₂ ◌∷◌ head tail
