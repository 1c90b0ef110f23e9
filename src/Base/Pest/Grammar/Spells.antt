-- ===== src/Base/Pest/Grammar/Spells.antt =====
-- The pairs of an atomic rule, by the texts that it reads.
use Prim.Native.String.{String}
use mathlib.Core.Logic.{inl, inr}
use mathlib.Core.Option.{Option, none, some}
use ips.Base.Tests.{Option-cases}
use ips.Base.Text.Replace.{strip_prefix}
use ips.Base.Pest.{Pairs, pair, nil, cons}
use ips.Base.Pest.Grammar.{Expression, Match, lit, alt, atomic}
use ips.Base.Pest.Grammar.Yields.{Yields}

-- Which texts an expression reads.
abbrev pub HoldsText : {R : Type 0} → (String → Type 0) → Option (Match R) → Type 0
HoldsText T none = Unit
HoldsText T (some m) = T m.text

pub record Spells {R : Type 0} (a : Expression R) (T : String → Type 0) : Type 0 where
  pub spells : (s : String) → HoldsText T (a s)

module _ {R : Type 0} {T : String → Type 0} where
  pub lit-Spells : (t : String) → T t → Spells {R = R} (lit t) T
  unfolding lit
  lit-Spells t h = record {
    spells = λ s. elim (Option-cases (strip_prefix s t)) [
      | inl e ↦ rw (lit, e) tt
      | inr (r, e) ↦ rw (lit, e) h
    ];
  }

  pub alt-Spells : {a b : Expression R} → Spells a T → Spells b T → Spells (alt a b) T
  unfolding alt
  alt-Spells {a} {b} h k = record {
    spells = λ s. elim (Option-cases (a s)) [
      | inl e ↦ rw (alt, e) (k.spells s)
      | inr (n, e) ↦ rw (alt, e) (rw e at (h.spells s))
    ];
  }

  pub atomic-Yields_text :
      {a : Expression R} {P : Pairs R → Type 0} (r : R)
      → Spells a T
      → ((t : String) → T t → P (cons (pair r t nil) nil))
      → Yields (atomic r a) P
  unfolding atomic
  atomic-Yields_text {a} r h f = record {
    yields = λ s. elim (Option-cases (a s)) [
      | inl e ↦ rw (atomic, e) tt
      | inr (m, e) ↦ rw (atomic, e) (f m.text (rw e at (h.spells s)))
    ];
  }
