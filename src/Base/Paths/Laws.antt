-- ===== src/Base/Paths/Laws.antt =====
-- The extension of a path is what stands behind its last dot.
use Prim.Native.String.{String, [], ◌∷◌}
use Prim.Native.Char.{Char, code}
use mathlib.Core.Path.{◌≡◌, refl, ap, ◌∙◌}
use mathlib.Core.Logic.{inl, inr}
use mathlib.Core.Bool.{true, false}
use mathlib.Core.Option.{Option, none, some}
use mathlib.Core.List.{List}
use native.Mathlib.Omega.{arith}
use text.Mathlib.Text.{◌==◌}
use text.Mathlib.TextEquality.{eq_iff}
use ips.Base.Tests.{nat_eq, Bool-cases}
use ips.Base.Text.{◌<>◌, contains_char, split, grow}
use ips.Base.Text.Laws.{contains-append}
use ips.Base.Paths.{last_named, file_name, rsplit_dot, extension}

-- The last of the parts is `p` with the text `t` behind it, for some `p`.
abbrev LastEnds : String → List String → Type 0
LastEnds t List.[] = ⊥
LastEnds t (List.◌∷◌ p List.[]) = (q : String) × (p ≡ q <> t)
LastEnds t (List.◌∷◌ p (List.◌∷◌ r ps)) = LastEnds t (List.◌∷◌ r ps)

grow-LastEnds : (t : String) (d : Char) (ps : List String) → LastEnds t ps → LastEnds t (grow d ps)
grow-LastEnds t d List.[] h = absurd h
grow-LastEnds t d (List.◌∷◌ p List.[]) (q, e) = (d ∷ q, ap (λ s. d ∷ s) e)
grow-LastEnds t d (List.◌∷◌ p (List.◌∷◌ r ps)) h = h

cons-LastEnds : (t p : String) (ps : List String) → LastEnds t ps → LastEnds t (List.◌∷◌ p ps)
cons-LastEnds t p List.[] h = absurd h
cons-LastEnds t p (List.◌∷◌ r ps) h = h

-- The archive suffix, and what it rules out.
abbrev pub tar_gz : String
tar_gz = ".tar.gz"

split-LastEnds : (s : String) → LastEnds tar_gz (split b'/' (s <> tar_gz))
unfolding split
split-LastEnds [] = ([], refl)
split-LastEnds (d ∷ s) = elim (Bool-cases (nat_eq (code d) b'/')) [
  | inl e ↦ rw e (cons-LastEnds tar_gz [] (split b'/' (s <> tar_gz)) (split-LastEnds s))
  | inr e ↦ rw e (grow-LastEnds tar_gz d (split b'/' (s <> tar_gz)) (split-LastEnds s))
]

contains_t : (q t : String) → contains_char b't' t ≡ true → contains_char b't' (q <> t) ≡ true
contains_t q t h = contains-append b't' q t ∙ ground (arith, h)

-- A text that holds a `t` is none without.
differs :
    (s k : String) → contains_char b't' s ≡ true → contains_char b't' k ≡ false → (s == k) ≡ false
differs s k h g = ground (arith, eq_iff s k, λ (e : s ≡ k). ap (contains_char b't') e)

last_named-LastEnds :
    (ps : List String) (o : Option String)
    → LastEnds tar_gz ps
    → (q : String) × (last_named ps o ≡ some (q <> tar_gz))
unfolding last_named contains_char
last_named-LastEnds List.[] o h = absurd h
last_named-LastEnds (List.◌∷◌ p List.[]) o (q, e) = (
  q,
  rw e (
      rw
        (
          differs (q <> tar_gz) "" (contains_t q tar_gz refl) refl,
          differs (q <> tar_gz) "." (contains_t q tar_gz refl) refl,
        )
        refl),
)
last_named-LastEnds (List.◌∷◌ p (List.◌∷◌ r ps)) o h = last_named-LastEnds (List.◌∷◌ r ps) _ h

rsplit_dot-tar_gz : (q : String) → rsplit_dot (q <> tar_gz) ≡ some (q <> ".tar", "gz")
unfolding rsplit_dot
rsplit_dot-tar_gz [] = refl
rsplit_dot-tar_gz (d ∷ q) = rw (rsplit_dot-tar_gz q) refl

-- The extension of every path that ends in `.tar.gz` is `gz`.
pub extension-tar_gz : (s : String) → extension (s <> tar_gz) ≡ some "gz"
unfolding extension file_name contains_char
extension-tar_gz s =
    let (q, e) = last_named-LastEnds (split b'/' (s <> tar_gz)) none (split-LastEnds s) in
    rw e (
      rw (differs (q <> tar_gz) ".." (contains_t q tar_gz refl) refl) (
        rw (rsplit_dot-tar_gz q)
          (rw (differs (q <> ".tar") "" (contains_t q ".tar" refl) refl) refl)))
