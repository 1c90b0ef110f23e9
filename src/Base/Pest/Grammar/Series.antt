-- ===== src/Base/Pest/Grammar/Series.antt =====
-- A repetition with something between, and what follows it, as one list of what is read.
use Prim.Native.String.{String, [], ◌∷◌}
use mathlib.Core.Path.{◌≡◌, refl, subst}
use mathlib.Core.Bool.{false}
use ips.Base.Text.{◌<>◌}
use ips.Base.Text.Laws.{<>_assoc}
use ips.Base.Pest.{Pairs, nil}
use ips.Base.Pest.Grammar.{Expression, at_end, append, seq, skip, then_, repeat}
use ips.Base.Pest.Grammar.Laws.{
  Reads, Fails, Repeats, seq-Reads, seq-Fails_behind, Repeats-stop, Repeats-step,
}
use ips.Base.Pest.Grammar.Skipping.{then_-Reads, repeat-Reads, repeat-Reads_none}

abbrev pub NotEmpty : String → Type 0
NotEmpty t = at_end t ≡ false

pub NotEmpty-append : (s t : String) → NotEmpty t → NotEmpty (s <> t)
NotEmpty-append [] t h = h
NotEmpty-append (d ∷ s) t h = refl

pub Repeats-more :
    {R : Type 0} {a : Expression R} {ps qs : Pairs R} (t : String) {u rest : String}
    → NotEmpty t
    → Reads a t ps (u <> rest)
    → Repeats a u qs rest
    → Repeats a (t <> u) (append ps qs) rest
Repeats-more [] n h k = cc
Repeats-more (d ∷ t) n h k = Repeats-step h k

module _ {R : Type 0} (whitespace comment a : Expression R) where
  -- Something passed over and an `a`, over and over, where `rest` stands behind.
  pub data Series (rest : String) : String → Pairs R → Type 0 where
    stop : Series rest "" nil
    more :
        {g t u : String} {ps qs : Pairs R}
        → NotEmpty (g <> t)
        → Reads (skip whitespace comment) g nil (t <> (u <> rest))
        → Reads a t ps (u <> rest)
        → Series rest u qs
        → Series rest (g <> (t <> u)) (append ps qs)

module _ {R : Type 0} {whitespace comment a : Expression R} where
  pub Series-Repeats :
      {f s t : String} {ps : Pairs R}
      → Reads (skip whitespace comment) f nil s
      → Fails a s
      → Series whitespace comment a (f <> s) t ps
      → Repeats (seq (skip whitespace comment) a) t ps (f <> s)
  Series-Repeats l n stop = Repeats-stop (seq-Fails_behind a l n)
  Series-Repeats {f} {s} l n (more {g} {t} {u} {ps} {qs} e h k ss) =
      subst (λ x. Repeats (seq (skip whitespace comment) a) x (append ps qs) (f <> s))
        (<>_assoc g t u) (Repeats-more (g <> t) e (seq-Reads a h k) (Series-Repeats {f = f} l n ss))

  -- The series, what is passed over behind it, and the next part.
  pub Series-then :
      {b : Expression R} {f t u rest : String} {ps qs : Pairs R}
      → Reads (skip whitespace comment) f nil (u <> rest)
      → Reads (skip whitespace comment) "" nil (u <> rest)
      → Fails a (u <> rest)
      → Reads b u qs rest
      → Series whitespace comment a (f <> (u <> rest)) t ps
      → Reads
          (seq (skip whitespace comment) (then_ whitespace comment (repeat whitespace comment a) b))
          (t <> (f <> u))
          (append ps qs)
          rest
  Series-then l z n k stop =
      seq-Reads _ l (then_-Reads whitespace comment (repeat-Reads_none whitespace comment n) z k)
  Series-then {b} {f} {u = v} {rest} {qs = rs} l z n k (more {g} {t} {u} {ps} {qs} e h i ss) =
      rw (<>_assoc g (t <> u) (f <> v)) (
        seq-Reads _ {ps = nil}
          (rw (<>_assoc (t <> u) (f <> v) rest, <>_assoc t u _, <>_assoc f v rest) h)
          (then_-Reads whitespace comment
            (repeat-Reads whitespace comment i (Series-Repeats {f = f} l n ss)) l k))
