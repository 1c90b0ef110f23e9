-- ===== src/Base/Pest/Grammar/Skipping.antt =====
-- What is read where blanks and comments are passed over between the parts.
use Prim.Native.String.{String}
use mathlib.Core.Path.{refl}
use ips.Base.Text.{◌<>◌}
use ips.Base.Text.Laws.{<>_assoc}
use ips.Base.Pest.{Pairs, nil}
use ips.Base.Pest.Grammar.{Expression, append, seq, many, skip, then_, repeat}
use ips.Base.Pest.Grammar.Laws.{
  Reads, Fails, Repeats, seq-Reads, seq-Fails, seq-Fails_behind, opt-Reads, opt-Reads_none,
  many-Reads,
}

module _ {R : Type 0} (whitespace comment : Expression R) where
  pub skip-Reads :
      {g c s : String}
      → Reads (many whitespace) g nil (c <> s)
      → Reads (many (seq comment (many whitespace))) c nil s
      → Reads (skip whitespace comment) (g <> c) nil s
  unfolding skip
  skip-Reads h k = record { reads = (seq-Reads _ h k).reads }

  pub then_-Reads :
      {a b : Expression R} {ps qs : Pairs R} {t g u rest : String}
      → Reads a t ps (g <> (u <> rest))
      → Reads (skip whitespace comment) g nil (u <> rest)
      → Reads b u qs rest
      → Reads (then_ whitespace comment a b) (t <> (g <> u)) (append ps qs) rest
  unfolding then_
  then_-Reads {t} {g} {u} {rest} h l k = record {
    reads =
        rw (then_, <>_assoc t (g <> u) rest, <>_assoc g u rest, h.reads, seq, l.reads, k.reads)
          refl;
  }

  -- The same, where what is passed over is read with the second part.
  pub then_-Reads_together :
      {a : Expression R} (b : Expression R) {ps qs : Pairs R} {t u rest : String}
      → Reads a t ps (u <> rest)
      → Reads (seq (skip whitespace comment) b) u qs rest
      → Reads (then_ whitespace comment a b) (t <> u) (append ps qs) rest
  unfolding then_
  then_-Reads_together b h k = record { reads = (seq-Reads _ h k).reads }

  pub then_-Fails :
      {a : Expression R} (b : Expression R) {s : String}
      → Fails a s
      → Fails (then_ whitespace comment a b) s
  unfolding then_
  then_-Fails b h = record { fails = (seq-Fails _ h).fails }

  -- What stands behind the first part and what is passed over is not what the second part is.
  pub then_-Fails_behind :
      {a b : Expression R} {ps : Pairs R} {t g s : String}
      → Reads a t ps (g <> s)
      → Reads (skip whitespace comment) g nil s
      → Fails b s
      → Fails (then_ whitespace comment a b) (t <> (g <> s))
  unfolding then_
  then_-Fails_behind h l k = record {
    fails = (seq-Fails_behind _ h (seq-Fails_behind _ l k)).fails;
  }

  pub repeat-Reads :
      {a : Expression R} {ps qs : Pairs R} {t u rest : String}
      → Reads a t ps (u <> rest)
      → Repeats (seq (skip whitespace comment) a) u qs rest
      → Reads (repeat whitespace comment a) (t <> u) (append ps qs) rest
  unfolding repeat
  repeat-Reads h k = record { reads = (opt-Reads (seq-Reads _ h (many-Reads k))).reads }

  pub repeat-Reads_none :
      {a : Expression R} {s : String} → Fails a s → Reads (repeat whitespace comment a) "" nil s
  unfolding repeat
  repeat-Reads_none h = record { reads = (opt-Reads_none (seq-Fails _ h)).reads }
