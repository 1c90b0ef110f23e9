-- ===== src/Base/Pest/Grammar/Yields.antt =====
-- Which pairs an expression gives, whatever it reads.
use Prim.Native.Nat.{ℕ}
use Prim.Native.Char.{code}
use Prim.Native.String.{String, [], ◌∷◌}
use mathlib.Core.Path.{◌≡◌, refl}
use mathlib.Core.Logic.{inl, inr}
use mathlib.Core.Bool.{Bool}
use mathlib.Core.Option.{Option, none, some}
use ips.Base.Tests.{Option-cases, Bool-cases}
use ips.Base.Text.Replace.{strip_prefix}
use ips.Base.Pest.{Pairs, pair, nil, cons}
use ips.Base.Pest.Grammar.{
  Expression, Match, append, behind, lit, char_if, seq, alt, not_ahead, opt, star, many, eoi, rule,
  atomic,
}

-- What a match holds where there is one.
abbrev pub Holds : {R : Type 0} → (Pairs R → Type 0) → Option (Match R) → Type 0
Holds P none = Unit
Holds P (some m) = P m.pairs

pub record Yields {R : Type 0} (a : Expression R) (P : Pairs R → Type 0) : Type 0 where
  pub yields : (s : String) → Holds P (a s)

-- No pairs.
abbrev pub IsNil : {R : Type 0} → Pairs R → Type 0
IsNil ps = ps ≡ nil

Holds-behind :
    {R : Type 0} {P Q : Pairs R → Type 0} (S : Pairs R → Type 0) (m : Match R)
    (o : Option (Match R))
    → P m.pairs
    → Holds Q o
    → ((ps qs : Pairs R) → P ps → Q qs → S (append ps qs))
    → Holds S (behind m o)
Holds-behind S m none h k f = tt
Holds-behind S m (some n) h k f = f m.pairs n.pairs h k

Holds-imp :
    {R : Type 0} {P Q : Pairs R → Type 0} (o : Option (Match R))
    → ((ps : Pairs R) → P ps → Q ps)
    → Holds P o
    → Holds Q o
Holds-imp none f h = tt
Holds-imp (some m) f h = f m.pairs h

star-Holds :
    {R : Type 0} {P Q : Pairs R → Type 0} (a : Expression R)
    → Yields a P
    → Q nil
    → ((ps qs : Pairs R) → P ps → Q qs → Q (append ps qs))
    → (x s : String) → Holds Q (star x a s)
unfolding star
star-Holds a h n f [] s = n
star-Holds {Q} a h n f (d ∷ x) s = elim (Option-cases (a s)) [
  | inl e ↦ rw (star, e) n
  | inr (m, e) ↦
      rw (star, e) (Holds-behind Q m _ (rw e at (h.yields s)) (star-Holds a h n f x m.rest) f)
]

module _ {R : Type 0} where
  pub lit-Yields : (t : String) → Yields {R = R} (lit t) IsNil
  unfolding lit
  lit-Yields t = record {
    yields = λ s. elim (Option-cases (strip_prefix s t)) [
      | inl e ↦ rw (lit, e) tt
      | inr (r, e) ↦ rw (lit, e) refl
    ];
  }

  pub char_if-Yields : (test : ℕ → Bool) → Yields {R = R} (char_if test) IsNil
  unfolding char_if
  char_if-Yields test = record {
    yields = elim [
      | [] ↦ tt
      | d ∷ s ↦ elim (Bool-cases (test (code d))) [ inl e ↦ rw e refl | inr e ↦ rw e tt ]
    ];
  }

  pub eoi-Yields : (P : Pairs R → Type 0) (r : R) → P (cons (pair r "" nil) nil) → Yields (eoi r) P
  unfolding eoi
  eoi-Yields P r h = record { yields = elim [ [] ↦ h | d ∷ s ↦ tt ] }

  pub Yields-imp :
      {a : Expression R} {P Q : Pairs R → Type 0}
      → ((ps : Pairs R) → P ps → Q ps)
      → Yields a P
      → Yields a Q
  Yields-imp {a} {P} {Q} f h = record { yields = λ s. Holds-imp (a s) f (h.yields s) }

  module _ {P Q : Pairs R → Type 0} where
    pub seq-Yields :
        {a b : Expression R} (S : Pairs R → Type 0)
        → Yields a P
        → Yields b Q
        → ((ps qs : Pairs R) → P ps → Q qs → S (append ps qs))
        → Yields (seq a b) S
    unfolding seq
    seq-Yields {a} {b} S h k f = record {
      yields = λ s. elim (Option-cases (a s)) [
        | inl e ↦ rw (seq, e) tt
        | inr (m, e) ↦ rw (seq, e) (Holds-behind S m _ (rw e at (h.yields s)) (k.yields m.rest) f)
      ];
    }

    pub rule-Yields :
        {a : Expression R} (r : R)
        → Yields a P
        → ((t : String) (ps : Pairs R) → P ps → Q (cons (pair r t ps) nil))
        → Yields (rule r a) Q
    unfolding rule
    rule-Yields {a} r h f = record {
      yields = λ s. elim (Option-cases (a s)) [
        | inl e ↦ rw (rule, e) tt
        | inr (m, e) ↦ rw (rule, e) (f m.text m.pairs (rw e at (h.yields s)))
      ];
    }

  module _ {P : Pairs R → Type 0} where
    pub alt-Yields : {a b : Expression R} → Yields a P → Yields b P → Yields (alt a b) P
    unfolding alt
    alt-Yields {a} {b} h k = record {
      yields = λ s. elim (Option-cases (a s)) [
        | inl e ↦ rw (alt, e) (k.yields s)
        | inr (m, e) ↦ rw (alt, e) (rw e at (h.yields s))
      ];
    }

    pub opt-Yields : {a : Expression R} → P nil → Yields a P → Yields (opt a) P
    unfolding opt
    opt-Yields {a} n h = record {
      yields = λ s. elim (Option-cases (a s)) [
        | inl e ↦ rw (opt, e) n
        | inr (m, e) ↦ rw (opt, e) (rw e at (h.yields s))
      ];
    }

    pub not_ahead-Yields : (a : Expression R) → P nil → Yields (not_ahead a) P
    unfolding not_ahead
    not_ahead-Yields a n = record {
      yields = λ s. elim (Option-cases (a s)) [
        | inl e ↦ rw (not_ahead, e) n
        | inr (m, e) ↦ rw (not_ahead, e) tt
      ];
    }

    -- An atomic rule gives its own pair, whatever stands in it.
    pub atomic-Yields :
        (a : Expression R) (r : R)
        → ((t : String) → P (cons (pair r t nil) nil))
        → Yields (atomic r a) P
    unfolding atomic
    atomic-Yields a r f = record {
      yields = λ s. elim (Option-cases (a s)) [
        | inl e ↦ rw (atomic, e) tt
        | inr (m, e) ↦ rw (atomic, e) (f m.text)
      ];
    }

    pub rule-Yields_any :
        (a : Expression R) (r : R)
        → ((t : String) (ps : Pairs R) → P (cons (pair r t ps) nil))
        → Yields (rule r a) P
    unfolding rule
    rule-Yields_any a r f = record {
      yields = λ s. elim (Option-cases (a s)) [
        | inl e ↦ rw (rule, e) tt
        | inr (m, e) ↦ rw (rule, e) (f m.text m.pairs)
      ];
    }

  pub many-Yields :
      {a : Expression R} {P : Pairs R → Type 0} (Q : Pairs R → Type 0)
      → Yields a P
      → Q nil
      → ((ps qs : Pairs R) → P ps → Q qs → Q (append ps qs))
      → Yields (many a) Q
  unfolding many
  many-Yields {a} Q h n f = record { yields = λ s. star-Holds a h n f s s }
