-- ===== src/Specfile/Macros/Expansion.antt =====
-- What a script becomes, and what fails.
use ips.Base.{
  ℕ, suc, String, ◌≡◌, refl, sym, ap, ◌∙◌, false, Option, none, some, List, [], ◌∷◌, map, All,
  nat_eq, arith, Option-cases, inl, inr,
}
use ips.Base.Outcome.{Outcome, ok, err, panic, ◌>>=◌}
use ips.Base.Pest.{Pair, Pairs, pair, nil, cons}
use ips.Base.Table.{lookup}
use ips.Base.Text.{◌<>◌, trim_end, lines, join}
use ips.Base.Text.Laws.{<>_assoc, <>_nil, newlined, join-newlined}
use ips.Specfile.Macros.{
  MacroParser, MacroParserError, does_not_exist, Rule, get_variable, read_macro, read_inner,
  replace_line, replace_lines, parse,
}

-- A piece of a line as macro.pest reads it: a text, a macro with its parameters, or a function or an
-- optional macro, which has a rule of its own.
pub data Piece : Type 0 where
  plain : (t : String) → Piece
  macro_call : (t key : String) → List String → Piece
  unsupported : (t : String) → Pairs Rule → Piece

-- The pairs of the crate `pest` for these.
abbrev parameter_pairs : List String → Pairs Rule
parameter_pairs [] = nil
parameter_pairs (p ∷ ps) = cons (pair Rule.macro_parameter p nil) (parameter_pairs ps)

abbrev piece_pair : Piece → Pair Rule
piece_pair (plain t) = pair Rule.text t nil
piece_pair (macro_call t key ps) =
    pair Rule.text_with_macros t
      (cons (pair Rule.spec_macro t (cons (pair Rule.macro_name key nil) (parameter_pairs ps))) nil)
piece_pair (unsupported t inner) = pair Rule.text_with_macros t (cons (pair Rule.other t inner) nil)

abbrev piece_pairs : List Piece → Pairs Rule
piece_pairs [] = cons (pair Rule.eoi "" nil) nil
piece_pairs (p ∷ ps) = cons (piece_pair p) (piece_pairs ps)

abbrev pub line_pairs : String → List Piece → Pairs Rule
line_pairs line ps = cons (pair Rule.file line (piece_pairs ps)) nil

-- Why a piece cannot be replaced.
pub data Failure : Type 0 where
  missing : (key : String) → Failure
  no_arm : Failure

abbrev value_or_missing : String → Option String → Option Failure
value_or_missing key none = some (missing key)
value_or_missing key (some v) = none

abbrev pub failure_of : MacroParser → Piece → Option Failure
failure_of self (plain t) = none
failure_of self (macro_call t key ps) = value_or_missing key (lookup key self.macros)
failure_of self (unsupported t inner) = some no_arm

abbrev or_later : Option Failure → Option Failure → Option Failure
or_later none later = later
or_later (some f) later = some f

-- The first failure among the pieces.
unfoldable pub first_failure : MacroParser → List Piece → Option Failure
first_failure self [] = none
first_failure self (p ∷ ps) = or_later (failure_of self p) (first_failure self ps)

abbrev text_or_empty : Option String → String
text_or_empty none = ""
text_or_empty (some v) = v

-- What a piece becomes: a text with a blank behind it, and a macro's value.
abbrev pub replaced : MacroParser → Piece → String
replaced self (plain t) = t <> " "
replaced self (macro_call t key ps) = text_or_empty (lookup key self.macros)
replaced self (unsupported t inner) = ""

unfoldable pub replaced_all : MacroParser → List Piece → String
replaced_all self [] = ""
replaced_all self (p ∷ ps) = replaced self p <> replaced_all self ps

-- The outcome of a failure, and of none.
abbrev pub failed : {E A : Type 0} → Failure → Outcome (MacroParserError E) A
failed (missing key) = err (does_not_exist key)
failed no_arm = panic

abbrev pub unless : {E A : Type 0} → Option Failure → A → Outcome (MacroParserError E) A
unless none a = ok a
unless (some f) a = failed f

unless-map :
    {E : Type 0} (o : Option Failure) (a : String) (f : String → String)
    → ((unless {E = E} o a >>= λ x. ok x) >>= λ r. ok (f r)) ≡ unless o (f a)
unless-map none a f = refl
unless-map (some (missing key)) a f = refl
unless-map (some no_arm) a f = refl

unless-bind :
    {E : Type 0} (o later : Option Failure) (a b : String)
    (k : String → Outcome (MacroParserError E) String)
    → k a ≡ unless later b
    → (unless {E = E} o a >>= k) ≡ unless (or_later o later) b
unless-bind none later a b k h = h
unless-bind (some (missing key)) later a b k h = refl
unless-bind (some no_arm) later a b k h = refl

not_first : (i : ℕ) → nat_eq (suc i) 0 ≡ false
not_first i = ground arith

module _ {E : Type 0} (self : MacroParser) where
  get_variable-none :
      (key : String)
      → lookup key self.macros ≡ none
      → get_variable {E = E} self key ≡ err (does_not_exist key)
  unfolding get_variable
  get_variable-none key e = rw e refl

  get_variable-some :
      (key v : String) → lookup key self.macros ≡ some v → get_variable {E = E} self key ≡ ok v
  unfolding get_variable
  get_variable-some key v e = rw e refl

  parameters_skipped :
      (acc : String) (ps : List String) → read_macro {E = E} self acc (parameter_pairs ps) ≡ ok acc
  unfolding read_macro
  parameters_skipped acc [] = refl
  parameters_skipped acc (p ∷ ps) = parameters_skipped acc ps

  read_inner-pieces :
      (acc : String) (ps : List Piece)
      → read_inner {E = E} self acc (piece_pairs ps)
        ≡ unless (first_failure self ps) (acc <> replaced_all self ps)
  unfolding read_inner first_failure replaced_all
  read_inner-pieces acc [] = rw (<>_nil acc) refl
  read_inner-pieces acc (plain t ∷ ps) =
      read_inner-pieces (acc <> (t <> " ")) ps
      ∙ rw (<>_assoc acc (t <> " ") (replaced_all self ps)) refl
  read_inner-pieces acc (macro_call t key qs ∷ ps) = elim (Option-cases (lookup key self.macros)) [
    | inl e ↦ rw (get_variable-none key e, e) refl
    | inr u ↦
        let (v, e) = u in
        rw (get_variable-some key v e, e)
          (rw (parameters_skipped (acc <> v) qs)
            (read_inner-pieces (acc <> v) ps ∙ rw (<>_assoc acc v (replaced_all self ps)) refl))
  ]
  read_inner-pieces acc (unsupported t inner ∷ ps) = refl

  module _ (parser : String → Outcome E (Pairs Rule)) (pieces : String → List Piece) where
    -- The parser finds the pieces of a line.
    abbrev pub Finds : String → Type 0
    Finds line = parser line ≡ ok (line_pairs line (pieces line))

    -- What a line becomes, without the blanks at its end.
    abbrev pub replaced_line : String → String
    replaced_line line = trim_end (replaced_all self (pieces line))

    unfoldable pub first_in_lines : List String → Option Failure
    first_in_lines [] = none
    first_in_lines (l ∷ ls) = or_later (first_failure self (pieces l)) (first_in_lines ls)

    replace_line-pieces :
        (line : String)
        → Finds line
        → replace_line parser self line
          ≡ unless (first_failure self (pieces line)) (replaced_line line)
    unfolding replace_line
    replace_line-pieces line h = rw h (
        rw (read_inner-pieces "" (pieces line)) (
          unless-map (first_failure self (pieces line)) (replaced_all self (pieces line)) trim_end))

    replace_lines-newlined :
        (i : ℕ) (ls : List String) (acc : String)
        → All Finds ls
        → replace_lines parser self (suc i) ls acc
          ≡ unless (first_in_lines ls) (acc <> newlined (map replaced_line ls))
    unfolding replace_lines first_in_lines newlined
    replace_lines-newlined i [] acc h = rw (<>_nil acc) refl
    replace_lines-newlined i (l ∷ ls) acc (h, hs) = rw (replace_line-pieces l h) (
        unless-bind (first_failure self (pieces l)) (first_in_lines ls) (replaced_line l) _ _ (
          rw (not_first i) (
            replace_lines-newlined (suc i) ls ((acc <> "\n") <> replaced_line l) hs
            ∙ ap (λ t. unless (first_in_lines ls) t)
                (<>_assoc (acc <> "\n") (replaced_line l) (newlined (map replaced_line ls))
                  ∙ <>_assoc acc "\n" (replaced_line l <> newlined (map replaced_line ls))))))

    replace_lines-join :
        (ls : List String)
        → All Finds ls
        → replace_lines parser self 0 ls ""
          ≡ unless (first_in_lines ls) (join "\n" (map replaced_line ls))
    unfolding replace_lines first_in_lines join
    replace_lines-join [] h = refl
    replace_lines-join (l ∷ ls) (h, hs) = rw (replace_line-pieces l h) (
        unless-bind (first_failure self (pieces l)) (first_in_lines ls) (replaced_line l) _ _ (
          replace_lines-newlined 0 ls (replaced_line l) hs
          ∙ ap (λ t. unless (first_in_lines ls) t)
              (sym (join-newlined (replaced_line l) (map replaced_line ls)))))

    -- Where the parser finds the pieces of each line of a script, the script becomes its lines with each
    -- piece replaced, trimmed at the end and joined by newlines, if no piece fails. A text keeps a blank
    -- behind it. Otherwise the first piece that fails decides: a macro that is not defined is an error
    -- that names it, and a function or an optional macro is a panic.
    pub parse-pieces :
        (raw : String)
        → All Finds (lines raw)
        → parse parser self raw
          ≡ unless (first_in_lines (lines raw)) (join "\n" (map replaced_line (lines raw)))
    unfolding parse
    parse-pieces raw h = replace_lines-join (lines raw) h
