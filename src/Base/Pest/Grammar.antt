-- ===== src/Base/Pest/Grammar.antt =====
-- What the grammars of the crate `pest` are written with, by the crate's book: an expression reads a
-- text from the front, an alternative is taken only where those before it fail, and a repetition
-- takes all it can.
pub mod Laws
pub mod Skipping
pub mod Series
pub mod Yields
pub mod Silent
pub mod Spells
pub mod Characters
use Prim.Native.Nat.{ℕ}
use Prim.Native.Char.{code}
use Prim.Native.String.{String, [], ◌∷◌}
use mathlib.Core.Bool.{Bool, true, false}
use mathlib.Core.Option.{Option, none, some}
use ips.Base.Tests.{if◌then◌else◌}
use ips.Base.Text.{◌<>◌}
use ips.Base.Text.Replace.{strip_prefix}
use ips.Base.Pest.{Pairs, pair, nil, cons}

-- What an expression matched, the pairs of the rules in it, and what is left to read.
pub record Match (R : Type 0) : Type 0 where
  pub text : String
  pub pairs : Pairs R
  pub rest : String

abbrev pub Expression : Type 0 → Type 0
Expression R = String → Option (Match R)

abbrev pub append : {R : Type 0} → Pairs R → Pairs R → Pairs R
append nil qs = qs
append (cons p ps) qs = cons p (append ps qs)

abbrev pub nothing : {R : Type 0} → String → Match R
nothing s = record { text = ""; pairs = nil; rest = s }

abbrev pub join_matches : {R : Type 0} → Match R → Match R → Match R
join_matches m n = record { text = m.text <> n.text; pairs = append m.pairs n.pairs; rest = n.rest }

-- What is matched behind a match, joined to it.
abbrev pub behind : {R : Type 0} → Match R → Option (Match R) → Option (Match R)
behind m none = none
behind m (some n) = some (join_matches m n)

-- A text in quotes.
unfoldable pub lit : {R : Type 0} → String → Expression R
unfolding strip_prefix
lit t s = elim (strip_prefix s t) [
  | none ↦ none
  | some rest ↦ some (record { text = t; pairs = nil; rest = rest })
]

-- `ANY` and the classes of characters.
unfoldable pub char_if : {R : Type 0} → (ℕ → Bool) → Expression R
char_if test [] = none
char_if test (d ∷ s) =
    if test (code d) then some (record { text = d ∷ []; pairs = nil; rest = s }) else none

-- `a ~ b` inside an atomic rule.
unfoldable pub seq : {R : Type 0} → Expression R → Expression R → Expression R
seq a b s = elim (a s) [ none ↦ none | some m ↦ behind m (b m.rest) ]

-- `a | b`.
unfoldable pub alt : {R : Type 0} → Expression R → Expression R → Expression R
alt a b s = elim (a s) [ none ↦ b s | some m ↦ some m ]

-- `!a`.
unfoldable pub not_ahead : {R : Type 0} → Expression R → Expression R
not_ahead a s = elim (a s) [ none ↦ some (nothing s) | some m ↦ none ]

-- `a?`.
unfoldable pub opt : {R : Type 0} → Expression R → Expression R
opt a s = elim (a s) [ none ↦ some (nothing s) | some m ↦ some m ]

-- The characters of the first text bound the repetitions: no grammar here repeats what may match
-- the empty text.
unfoldable pub star : {R : Type 0} → String → Expression R → Expression R
star [] a s = some (nothing s)
star (d ∷ fuel) a s = elim (a s) [
  | none ↦ some (nothing s)
  | some m ↦ behind m (star fuel a m.rest)
]

-- `a*` inside an atomic rule.
unfoldable pub many : {R : Type 0} → Expression R → Expression R
unfolding star
many a s = star s a s

-- `SOI`, at the start of the input only; the grammars have it nowhere else.
abbrev pub soi : {R : Type 0} → Expression R
soi s = some (nothing s)

-- Nothing is left to read.
abbrev pub at_end : String → Bool
at_end [] = true
at_end (d ∷ s) = false

-- `EOI`, whose rule is `r`.
unfoldable pub eoi : {R : Type 0} → R → Expression R
eoi r [] = some (record { text = ""; pairs = cons (pair r "" nil) nil; rest = "" })
eoi r (d ∷ s) = none

-- A rule in braces: its pair holds those of the rules in it.
abbrev pub as_pair : {R : Type 0} → R → Option (Match R) → Option (Match R)
as_pair r none = none
as_pair r (some m) = some (record m { pairs = cons (pair r m.text m.pairs) nil })

unfoldable pub rule : {R : Type 0} → R → Expression R → Expression R
rule r a s = as_pair r (a s)

-- An atomic rule, with `@`: no pair comes from the rules in it.
abbrev pub as_token : {R : Type 0} → R → Option (Match R) → Option (Match R)
as_token r none = none
as_token r (some m) = some (record m { pairs = cons (pair r m.text nil) nil })

unfoldable pub atomic : {R : Type 0} → R → Expression R → Expression R
atomic r a s = as_token r (a s)

-- `NEWLINE`.
unfoldable pub newline : {R : Type 0} → Expression R
unfolding alt lit
newline s = alt (lit "\n") (alt (lit "\r\n") (lit "\r")) s

-- The rule `COMMENT` of a grammar that has none.
abbrev pub never : {R : Type 0} → Expression R
never s = none

-- Between the parts of a rule that is not atomic, blanks and comments are passed over.
module _ {R : Type 0} (whitespace comment : Expression R) where
  unfoldable pub skip : Expression R
  unfolding seq many
  skip s = seq (many whitespace) (many (seq comment (many whitespace))) s

  -- `a ~ b`.
  unfoldable pub then_ : Expression R → Expression R → Expression R
  unfolding skip seq
  then_ a b s = seq a (seq skip b) s

  -- `a*`.
  unfoldable pub repeat : Expression R → Expression R
  unfolding skip seq many opt
  repeat a s = opt (seq a (many (seq skip a))) s
