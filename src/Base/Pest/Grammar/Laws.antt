-- ===== src/Base/Pest/Grammar/Laws.antt =====
-- What an expression reads, put together from what its parts read.
use Prim.Native.Nat.{ℕ}
use Prim.Native.Char.{Char, code}
use Prim.Native.String.{String, [], ◌∷◌}
use mathlib.Core.Path.{◌≡◌, refl, sym}
use mathlib.Core.Bool.{Bool, true, false}
use mathlib.Core.Option.{none, some}
use native.Mathlib.Omega.{arith}
use ips.Base.Text.{◌<>◌}
use ips.Base.Text.Laws.{<>_assoc}
use ips.Base.Text.Replace.{strip_prefix}
use ips.Base.Pest.{Pairs, pair, nil, cons}
use ips.Base.Pest.Grammar.{
  Expression, Match, append, nothing, join_matches, lit, char_if, seq, alt, not_ahead, opt, star,
  many, eoi, rule, atomic,
}

-- `a` reads the text `t` off the front, with these pairs, where `rest` stands behind it.
pub record Reads {R : Type 0} (a : Expression R) (t : String) (ps : Pairs R) (rest : String)
    : Type 0 where
  pub reads : a (t <> rest) ≡ some (record { text = t; pairs = ps; rest = rest })

pub record Fails {R : Type 0} (a : Expression R) (s : String) : Type 0 where
  pub fails : a s ≡ none

-- `a` over and over, with any characters that are enough.
pub record Repeats {R : Type 0} (a : Expression R) (t : String) (ps : Pairs R) (rest : String)
    : Type 0 where
  pub repeats :
      (x : String)
      → star (x <> (t <> rest)) a (t <> rest) ≡ some (record { text = t; pairs = ps; rest = rest })

strip_prefix-append : (t s : String) → strip_prefix (t <> s) t ≡ some s
unfolding strip_prefix
strip_prefix-append [] s = refl
strip_prefix-append (d ∷ t) s = ground (arith, strip_prefix-append t s)

star-stop :
    {R : Type 0} (a : Expression R) (x s : String) → a s ≡ none → star x a s ≡ some (nothing s)
unfolding star
star-stop a [] s h = refl
star-stop a (d ∷ x) s h = rw (star, h) refl

-- Any characters and one more are enough for a match of one character or more and what is behind.
star-step :
    {R : Type 0} (a : Expression R) (d : Char) (t u rest : String) {m n : Match R} (x : String)
    → a (d ∷ (t <> (u <> rest))) ≡ some m
    → m.rest ≡ u <> rest
    → ((y : String) → star (y <> (u <> rest)) a (u <> rest) ≡ some n)
    → star (x <> (d ∷ (t <> (u <> rest)))) a (d ∷ (t <> (u <> rest))) ≡ some (join_matches m n)
unfolding star
star-step a d t u rest [] h e k = rw (star, h, e, k t) refl
star-step a d t u rest (c ∷ x) h e k =
    rw (star, h, e, sym (<>_assoc x (d ∷ t) (u <> rest)), k (x <> (d ∷ t))) refl

module _ {R : Type 0} where
  pub lit-Reads : (t rest : String) → Reads (lit {R = R} t) t nil rest
  unfolding lit
  lit-Reads t rest = record { reads = rw (lit, strip_prefix-append t rest) refl }

  pub lit-Fails : (t s : String) → strip_prefix s t ≡ none → Fails (lit {R = R} t) s
  unfolding lit
  lit-Fails t s h = record { fails = rw (lit, h) refl }

  pub char_if-Reads :
      (test : ℕ → Bool) (d : Char) (rest : String)
      → test (code d) ≡ true
      → Reads (char_if {R = R} test) (d ∷ []) nil rest
  unfolding char_if
  char_if-Reads test d rest h = record { reads = rw h refl }

  pub char_if-Fails :
      (test : ℕ → Bool) (d : Char) (s : String)
      → test (code d) ≡ false
      → Fails (char_if {R = R} test) (d ∷ s)
  unfolding char_if
  char_if-Fails test d s h = record { fails = rw h refl }

  pub eoi-Reads : (r : R) → Reads (eoi r) "" (cons (pair r "" nil) nil) ""
  unfolding eoi
  eoi-Reads r = record { reads = refl }

  module _ {a : Expression R} (b : Expression R) where
    pub seq-Reads :
        {ps qs : Pairs R} {t u rest : String}
        → Reads a t ps (u <> rest)
        → Reads b u qs rest
        → Reads (seq a b) (t <> u) (append ps qs) rest
    unfolding seq
    seq-Reads {t} {u} {rest} h k = record {
      reads = rw (seq, <>_assoc t u rest, h.reads, k.reads) refl;
    }

    pub seq-Fails : {s : String} → Fails a s → Fails (seq a b) s
    unfolding seq
    seq-Fails {s} h = record { fails = rw (seq, h.fails) refl }

    pub seq-Fails_behind :
        {ps : Pairs R} {t s : String} → Reads a t ps s → Fails b s → Fails (seq a b) (t <> s)
    unfolding seq
    seq-Fails_behind h k = record { fails = rw (seq, h.reads, k.fails) refl }

    pub alt-Reads : {ps : Pairs R} {t rest : String} → Reads a t ps rest → Reads (alt a b) t ps rest
    unfolding alt
    alt-Reads h = record { reads = rw (alt, h.reads) refl }

    pub alt-Reads_second :
        {ps : Pairs R} {t rest : String}
        → Fails a (t <> rest)
        → Reads b t ps rest
        → Reads (alt a b) t ps rest
    unfolding alt
    alt-Reads_second h k = record { reads = rw (alt, h.fails, k.reads) refl }

    pub alt-Fails : {s : String} → Fails a s → Fails b s → Fails (alt a b) s
    unfolding alt
    alt-Fails h k = record { fails = rw (alt, h.fails, k.fails) refl }

  module _ {a : Expression R} where
    pub not_ahead-Reads : {s : String} → Fails a s → Reads (not_ahead a) "" nil s
    unfolding not_ahead
    not_ahead-Reads h = record { reads = rw (not_ahead, h.fails) refl }

    pub not_ahead-Fails :
        {ps : Pairs R} {t s : String} → Reads a t ps s → Fails (not_ahead a) (t <> s)
    unfolding not_ahead
    not_ahead-Fails h = record { fails = rw (not_ahead, h.reads) refl }

    pub opt-Reads : {ps : Pairs R} {t rest : String} → Reads a t ps rest → Reads (opt a) t ps rest
    unfolding opt
    opt-Reads h = record { reads = rw (opt, h.reads) refl }

    pub opt-Reads_none : {s : String} → Fails a s → Reads (opt a) "" nil s
    unfolding opt
    opt-Reads_none h = record { reads = rw (opt, h.fails) refl }

    pub Repeats-stop : {s : String} → Fails a s → Repeats a "" nil s
    Repeats-stop {s} h = record { repeats = λ x. star-stop a (x <> s) s h.fails }

    pub Repeats-step :
        {ps qs : Pairs R} {d : Char} {t u rest : String}
        → Reads a (d ∷ t) ps (u <> rest)
        → Repeats a u qs rest
        → Repeats a (d ∷ (t <> u)) (append ps qs) rest
    Repeats-step {d} {t} {u} {rest} h k = record {
      repeats = λ x. rw (<>_assoc t u rest) (star-step a d t u rest x h.reads refl k.repeats);
    }

    pub many-Reads :
        {ps : Pairs R} {t rest : String} → Repeats a t ps rest → Reads (many a) t ps rest
    unfolding many
    many-Reads h = record { reads = h.repeats "" }

    pub rule-Reads :
        (r : R) {ps : Pairs R} {t rest : String}
        → Reads a t ps rest
        → Reads (rule r a) t (cons (pair r t ps) nil) rest
    unfolding rule
    rule-Reads r h = record { reads = rw (rule, h.reads) refl }

    pub rule-Fails : (r : R) {s : String} → Fails a s → Fails (rule r a) s
    unfolding rule
    rule-Fails r h = record { fails = rw (rule, h.fails) refl }

    pub atomic-Reads :
        (r : R) {ps : Pairs R} {t rest : String}
        → Reads a t ps rest
        → Reads (atomic r a) t (cons (pair r t nil) nil) rest
    unfolding atomic
    atomic-Reads r h = record { reads = rw (atomic, h.reads) refl }

    pub atomic-Fails : (r : R) {s : String} → Fails a s → Fails (atomic r a) s
    unfolding atomic
    atomic-Fails r h = record { fails = rw (atomic, h.fails) refl }
