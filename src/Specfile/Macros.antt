-- ===== src/Specfile/Macros.antt =====
-- specfile/src/macros.rs: the expansion of macros in a script. What the code prints of a macro's
-- parameters is left out.
pub mod Expansion
use ips.Base.{ℕ, suc, String, Option, none, some, List, [], ◌∷◌, nat_eq, if◌then◌else◌}
use ips.Base.Outcome.{Outcome, ok, err, panic, map_err, ◌>>=◌}
use ips.Base.Pest.{Pairs, pair, nil, cons}
use ips.Base.Table.{Table, lookup, contains_key}
use ips.Base.Text.{◌<>◌, trim_end, lines}

pub record MacroParser : Type 0 where
  pub macros : Table String

-- `Macro`, which nothing uses.
pub record Macro : Type 0 where
  pub name : String
  pub parameters : List String

-- The error of `macros.rs`, or that of the generated parser.
pub data MacroParserError (E : Type 0) : Type 0 where
  does_not_exist : (macro_name : String) → MacroParserError E
  no_match : E → MacroParserError E

-- The rules of macro.pest that the walk tells apart; `other` is each other rule.
pub data Rule : Type 0 where
  file text_with_macros spec_macro macro_name macro_parameter text eoi other : Rule

module _ {E : Type 0} where
  -- `self.macros[macro_name]`, which panics where there is no such key.
  abbrev index_or_panic : Option String → Outcome (MacroParserError E) String
  index_or_panic none = panic
  index_or_panic (some v) = ok v

  -- `MacroParser::get_variable`.
  unfoldable pub get_variable : MacroParser → String → Outcome (MacroParserError E) String
  unfolding contains_key
  get_variable self key =
      if contains_key key self.macros
      then index_or_panic (lookup key self.macros)
      else err (does_not_exist key)

  -- The loop over the pairs of a macro.
  unfoldable pub read_macro :
      MacroParser → String → Pairs Rule → Outcome (MacroParserError E) String
  unfolding get_variable
  read_macro self replaced_line nil = ok replaced_line
  read_macro self replaced_line (cons (pair Rule.macro_name key inner) rest) = do
    v ← get_variable self key
    read_macro self (replaced_line <> v) rest
  read_macro self replaced_line (cons (pair Rule.macro_parameter t inner) rest) =
      read_macro self replaced_line rest
  read_macro self replaced_line (cons (pair _ t inner) rest) = panic

  -- The loop over the pairs of a text with macros.
  unfoldable pub read_with_macros :
      MacroParser → String → Pairs Rule → Outcome (MacroParserError E) String
  unfolding read_macro
  read_with_macros self replaced_line nil = ok replaced_line
  read_with_macros self replaced_line (cons (pair Rule.spec_macro t inner) rest) = do
    line ← read_macro self replaced_line inner
    read_with_macros self line rest
  read_with_macros self replaced_line (cons (pair _ t inner) rest) = panic

  -- The loop over the inner pairs of a line.
  unfoldable pub read_inner :
      MacroParser → String → Pairs Rule → Outcome (MacroParserError E) String
  unfolding read_with_macros
  read_inner self replaced_line nil = ok replaced_line
  read_inner self replaced_line (cons (pair Rule.text_with_macros t inner) rest) = do
    line ← read_with_macros self replaced_line inner
    read_inner self line rest
  read_inner self replaced_line (cons (pair Rule.eoi t inner) rest) =
      read_inner self replaced_line rest
  read_inner self replaced_line (cons (pair Rule.text t inner) rest) =
      read_inner self (replaced_line <> (t <> " ")) rest
  read_inner self replaced_line (cons (pair _ t inner) rest) = panic

  -- The loop over the pairs of a line.
  unfoldable pub read_line : MacroParser → String → Pairs Rule → Outcome (MacroParserError E) String
  unfolding read_inner
  read_line self replaced_line nil = ok replaced_line
  read_line self replaced_line (cons (pair r t inner) rest) = do
    line ← read_inner self replaced_line inner
    read_line self line rest

  module _ (parser : String → Outcome E (Pairs Rule)) where
    -- One line: `parser` is the parser that `pest` generates from macro.pest.
    unfoldable pub replace_line : MacroParser → String → Outcome (MacroParserError E) String
    unfolding read_line
    replace_line self line = do
      pairs ← map_err no_match (parser line)
      replaced_line ← read_line self "" pairs
      ok (trim_end replaced_line)

    -- The loop over the lines.
    unfoldable pub replace_lines :
        MacroParser → ℕ → List String → String → Outcome (MacroParserError E) String
    unfolding replace_line
    replace_lines self i [] return_string = ok return_string
    replace_lines self i (line ∷ rest) return_string = do
      replaced_line ← replace_line self line
      replace_lines self (suc i) rest (
          if nat_eq i 0
          then return_string <> replaced_line
          else (return_string <> "\n") <> replaced_line)

    -- `MacroParser::parse`.
    unfoldable pub parse : MacroParser → String → Outcome (MacroParserError E) String
    unfolding replace_lines lines
    parse self raw_string = replace_lines self 0 (lines raw_string) ""
