-- ===== src/Base/Pest/Grammar/Silent.antt =====
-- Which pairs come out where blanks and comments are passed over.
use mathlib.Core.Path.{◌≡◌, refl}
use ips.Base.Pest.{Pairs, nil, cons}
use ips.Base.Pest.Grammar.{newline, Expression, append, seq, many, skip, then_, repeat}
use ips.Base.Pest.Grammar.Yields.{
  Yields, IsNil, lit-Yields, seq-Yields, alt-Yields, opt-Yields, many-Yields,
}

pub append-nil : {R : Type 0} (ps : Pairs R) → append ps nil ≡ ps
append-nil nil = refl
append-nil (cons p ps) = cc (append-nil ps)

append-IsNil : {R : Type 0} (ps qs : Pairs R) → IsNil ps → IsNil qs → IsNil (append ps qs)
append-IsNil ps qs h k = rw (h, k) refl

module _ {R : Type 0} where
  pub seq-IsNil : {a b : Expression R} → Yields a IsNil → Yields b IsNil → Yields (seq a b) IsNil
  seq-IsNil h k = seq-Yields IsNil h k append-IsNil

  pub newline-IsNil : Yields {R = R} newline IsNil
  unfolding newline
  newline-IsNil = record {
    yields =
        (alt-Yields (lit-Yields "\n") (alt-Yields (lit-Yields "\r\n") (lit-Yields "\r"))).yields;
  }

  pub many-IsNil : {a : Expression R} → Yields a IsNil → Yields (many a) IsNil
  many-IsNil h = many-Yields IsNil h refl append-IsNil

module _ {R : Type 0} {ws co : Expression R} (w : Yields ws IsNil) (c : Yields co IsNil) where
  skip-IsNil : Yields (skip ws co) IsNil
  unfolding skip
  skip-IsNil = record {
    yields = (seq-IsNil (many-IsNil w) (many-IsNil (seq-IsNil c (many-IsNil w)))).yields;
  }

  -- What is passed over adds no pair.
  skip_before-Yields :
      {P : Pairs R → Type 0} {a : Expression R} → Yields a P → Yields (seq (skip ws co) a) P
  skip_before-Yields {P} h = seq-Yields P skip-IsNil h (λ ps qs e k. rw e k)

  pub then_-Yields :
      {P Q : Pairs R → Type 0} {a b : Expression R} (S : Pairs R → Type 0)
      → Yields a P
      → Yields b Q
      → ((ps qs : Pairs R) → P ps → Q qs → S (append ps qs))
      → Yields (then_ ws co a b) S
  unfolding then_
  then_-Yields S h k f = record { yields = (seq-Yields S h (skip_before-Yields k) f).yields }

  pub repeat-Yields :
      {a : Expression R} {P : Pairs R → Type 0} (Q : Pairs R → Type 0)
      → Yields a P
      → Q nil
      → ((ps qs : Pairs R) → P ps → Q qs → Q (append ps qs))
      → Yields (repeat ws co a) Q
  unfolding repeat
  repeat-Yields Q h n f = record {
    yields = (opt-Yields n (seq-Yields Q h (many-Yields Q (skip_before-Yields h) n f) f)).yields;
  }
