-- ===== src/Userland/Makefile/Parse.antt =====
-- userland/src/lib.rs: the walk over the pairs that makefile.pest yields.
pub mod Statements
use ips.Base.{String, Bool, true, false, Option, none, some, List, [], ◌∷◌, ◌++◌}
use ips.Base.Outcome.{Outcome, ok, err, panic, map_err, ◌>>=◌}
use ips.Base.Pest.{Pairs, pair, nil, cons}
use ips.Base.Table.{Table, lookup, insert}
use ips.Userland.Makefile.{
  VariableMode, add, set, MakefileVariable, default_variable, Makefile, default,
}

-- The rules of makefile.pest that the walk tells apart; `other` is each other rule.
pub data Rule : Type 0 where
  makefile variable variable_name variable_set variable_add variable_value : Rule
  comment_string include target define define_value eoi other : Rule

abbrev push_value : MakefileVariable → String → MakefileVariable
push_value var text = record var { values = var.values ++ text ∷ [] }

-- What `Add` starts from: the variable of that name, where there is one.
abbrev existing_or : Option MakefileVariable → MakefileVariable → MakefileVariable
existing_or none var = var
existing_or (some old) var = old

-- The arm for a value, by the mode so far.
unfoldable pub take_value :
    VariableMode → Option MakefileVariable → MakefileVariable → String → MakefileVariable
take_value add old var text = push_value (existing_or old var) text
take_value set old var text = push_value var text

-- The loop of `parse_variable`.
unfoldable pub read_variable :
    Table MakefileVariable
    → String
    → MakefileVariable
    → Pairs Rule
    → Outcome ⊥ (String × MakefileVariable)
unfolding take_value
read_variable t name var nil = ok (name, var)
read_variable t name var (cons (pair Rule.variable_name text inner) rest) =
    read_variable t text var rest
read_variable t name var (cons (pair Rule.variable_set text inner) rest) =
    read_variable t name (record var { mode = set }) rest
read_variable t name var (cons (pair Rule.variable_add text inner) rest) =
    read_variable t name (record var { mode = add }) rest
read_variable t name var (cons (pair Rule.variable_value text inner) rest) =
    read_variable t name (take_value var.mode (lookup name t) var text) rest
read_variable t name var (cons (pair _ text inner) rest) = panic

-- `parse_variable`.
unfoldable pub parse_variable : Pairs Rule → Makefile → Outcome ⊥ Makefile
unfolding read_variable
parse_variable pairs m = do
  var ← read_variable m.variables "" default_variable pairs
  ok (record m { variables = insert var.0 var.1 m.variables })

-- The loop of `parse_define`.
unfoldable pub read_define :
    String → MakefileVariable → Pairs Rule → Outcome ⊥ (String × MakefileVariable)
read_define name var nil = ok (name, var)
read_define name var (cons (pair Rule.variable_name text inner) rest) = read_define text var rest
read_define name var (cons (pair Rule.define_value text inner) rest) =
    read_define name (push_value var text) rest
read_define name var (cons (pair _ text inner) rest) = panic

-- `parse_define`.
unfoldable pub parse_define : Pairs Rule → Makefile → Outcome ⊥ Makefile
unfolding read_define
parse_define pairs m = do
  var ← read_define "" default_variable pairs
  ok (record m { variables = insert var.0 var.1 m.variables })

-- `parse_include`.
unfoldable pub parse_include : Pairs Rule → Makefile → Outcome ⊥ Makefile
parse_include nil m = ok m
parse_include (cons (pair Rule.variable_value text inner) rest) m =
    parse_include rest (record m { includes = m.includes ++ text ∷ [] })
parse_include (cons (pair _ text inner) rest) m = panic

-- `parse_makefile`.
unfoldable pub parse_makefile : Pairs Rule → Makefile → Outcome ⊥ Makefile
unfolding parse_variable parse_include parse_define
parse_makefile nil m = ok m
parse_makefile (cons (pair Rule.variable text inner) rest) m = do
  m' ← parse_variable inner m
  parse_makefile rest m'
parse_makefile (cons (pair Rule.comment_string text inner) rest) m = parse_makefile rest m
parse_makefile (cons (pair Rule.include text inner) rest) m = do
  m' ← parse_include inner m
  parse_makefile rest m'
parse_makefile (cons (pair Rule.target text inner) rest) m = parse_makefile rest m
parse_makefile (cons (pair Rule.define text inner) rest) m = do
  m' ← parse_define inner m
  parse_makefile rest m'
parse_makefile (cons (pair Rule.eoi text inner) rest) m = parse_makefile rest m
parse_makefile (cons (pair _ text inner) rest) m = panic

-- The loop of `parse_string`.
unfoldable pub parse_pairs : Pairs Rule → Makefile → Outcome ⊥ Makefile
unfolding parse_makefile
parse_pairs nil m = ok m
parse_pairs (cons (pair Rule.makefile text inner) rest) m = do
  m' ← parse_makefile inner m
  parse_pairs rest m'
parse_pairs (cons (pair _ text inner) rest) m = panic

module _ {E : Type 0} (parse : String → Outcome E (Pairs Rule)) where
  -- `parse_string`; `parse` is the parser that `pest` generates from makefile.pest.
  unfoldable pub parse_string : String → Outcome E Makefile
  unfolding parse_pairs
  parse_string content = do
    pairs ← parse content
    map_err (λ e. absurd e) (parse_pairs pairs default)
