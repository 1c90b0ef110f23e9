-- ===== src/Base/Text/Laws.antt =====
-- Laws of the operations on texts.
use Prim.Native.Nat.{ℕ}
use Prim.Native.Char.{Char, code}
use Prim.Native.String.{String, [], ◌∷◌}
use mathlib.Core.Path.{◌≡◌, refl, sym, ap}
use mathlib.Core.Bool.{false, ◌||◌}
use mathlib.Core.List.{List}
use native.Mathlib.Omega.{arith}
use ips.Base.Text.{◌<>◌, contains_char, split, join}

-- A text with no `c` is one part.
pub split-none : (c : ℕ) (s : String) → contains_char c s ≡ false → split c s ≡ List.◌∷◌ s List.[]
unfolding split contains_char
split-none c [] h = refl
split-none c (d ∷ s) h = ground (arith, split-none c s)

-- A text splits at its first separator.
pub split-at :
    (c : ℕ) (d : Char) (s t : String)
    → code d ≡ c
    → contains_char c s ≡ false
    → split c (s <> d ∷ t) ≡ List.◌∷◌ s (split c t)
unfolding split contains_char
split-at c d [] t e h = ground arith
split-at c d (x ∷ s) t e h = (ground (arith, split-at c d s t e))

pub contains-append :
    (c : ℕ) (s t : String) → contains_char c (s <> t) ≡ (contains_char c s || contains_char c t)
unfolding contains_char
contains-append c [] t = refl
contains-append c (d ∷ s) t = (ground (arith, contains-append c s t))

pub <>_assoc : (s t u : String) → (s <> t) <> u ≡ s <> (t <> u)
<>_assoc [] t u = refl
<>_assoc (d ∷ s) t u = cc (<>_assoc s t u)

pub <>_nil : (s : String) → s <> [] ≡ s
<>_nil [] = refl
<>_nil (d ∷ s) = cc (<>_nil s)

-- Each text behind a newline.
unfoldable pub newlined : List String → String
newlined List.[] = ""
newlined (List.◌∷◌ t ts) = "\n" <> (t <> newlined ts)

pub join-newlined : (t : String) (ts : List String) → join "\n" (List.◌∷◌ t ts) ≡ t <> newlined ts
unfolding join newlined
join-newlined t List.[] = sym (<>_nil t)
join-newlined t (List.◌∷◌ u ts) = ap (λ r. t <> ("\n" <> r)) (join-newlined u ts)
