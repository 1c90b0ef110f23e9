-- ===== src/Userland/Makefile/Parse/Statements.antt =====
-- What the statements of a makefile leave in it.
use ips.Base.{
  String, ◌≡◌, refl, Option, none, some, List, [], ◌∷◌, ◌++◌, arith, ◌==◌, append_assoc, append-nil,
  ◌∙◌, sym, ap, if◌then◌else◌,
}
use ips.Base.Outcome.{Outcome, ok}
use ips.Base.Pest.{Pair, Pairs, pair, nil, cons}
use ips.Base.Table.{lookup, insert, lookup-insert, lookup-empty}
use ips.Userland.Makefile.{set, MakefileVariable, Makefile, default}
use ips.Userland.Makefile.Parse.{Rule, parse_makefile, parse_string}

-- A statement as makefile.pest reads it, with the text of the whole. The rules `variable_set` and
-- `variable_add` are silent, so `=` and `+=` leave no pair: both are `assign`.
pub data Statement : Type 0 where
  assign : (text name : String) → Option String → Statement
  definition : (text name value : String) → Statement
  include : (text path : String) → Statement
  target : (text : String) → Pairs Rule → Statement

abbrev pub value_pairs : Option String → Pairs Rule
value_pairs none = nil
value_pairs (some v) = cons (pair Rule.variable_value v nil) nil

abbrev pub statement_pair : Statement → Pair Rule
statement_pair (assign text name value) =
    pair Rule.variable text (cons (pair Rule.variable_name name nil) (value_pairs value))
statement_pair (definition text name value) =
    pair Rule.define text
      (cons (pair Rule.variable_name name nil) (cons (pair Rule.define_value value nil) nil))
statement_pair (include text path) =
    pair Rule.include text (cons (pair Rule.variable_value path nil) nil)
statement_pair (target text inner) = pair Rule.target text inner

-- The pairs of a makefile, and those of the whole text.
abbrev pub statement_pairs : List Statement → Pairs Rule
statement_pairs [] = cons (pair Rule.eoi "" nil) nil
statement_pairs (s ∷ ss) = cons (statement_pair s) (statement_pairs ss)

abbrev pub file_pairs : String → List Statement → Pairs Rule
file_pairs text ss = cons (pair Rule.makefile text (statement_pairs ss)) nil

-- The values of a variable that a statement gives to the name `k`.
abbrev values_of : Option String → List String
values_of none = []
values_of (some v) = v ∷ []

abbrev given : String → Statement → Option (List String)
given k (assign text name value) = if name == k then some (values_of value) else none
given k (definition text name value) = if name == k then some (value ∷ []) else none
given k (include text path) = none
given k (target text inner) = none

-- The values that the last statement about `k` gives it.
unfoldable pub last_given : String → List Statement → Option (List String)
last_given k [] = none
last_given k (s ∷ ss) = elim (last_given k ss) [ some vs ↦ some vs | none ↦ given k s ]

unfoldable pub included : List Statement → List String
included [] = []
included (include text path ∷ ss) = path ∷ included ss
included (s ∷ ss) = included ss

-- A variable that sets these values.
abbrev pub setting : Option (List String) → Option MakefileVariable
setting none = none
setting (some vs) = some (record { key = ""; values = vs; mode = set })

abbrev pub setting_or : Option (List String) → Option MakefileVariable → Option MakefileVariable
setting_or none o = o
setting_or (some vs) o = some (record { key = ""; values = vs; mode = set })

-- What running the statements from a makefile gives.
abbrev Runs : List Statement → Makefile → Makefile → Type 0
Runs ss m m' =
    (parse_makefile (statement_pairs ss) m ≡ ok m')
    × (m'.includes ≡ m.includes ++ included ss)
    × ((k : String) → lookup k m'.variables ≡ setting_or (last_given k ss) (lookup k m.variables))

setting_step :
    (k : String) (a b : Option (List String)) (o : Option MakefileVariable)
    → setting_or a (setting_or b o) ≡ setting_or (elim a [ some vs ↦ some vs | none ↦ b ]) o
setting_step k none b o = refl
setting_step k (some vs) b o = refl

-- The makefile behind one statement.
abbrev after : Statement → Makefile → Makefile
after (assign text name value) m = record m {
  variables = insert name (record { key = ""; values = values_of value; mode = set }) m.variables;
}
after (definition text name value) m = record m {
  variables = insert name (record { key = ""; values = value ∷ []; mode = set }) m.variables;
}
after (include text path) m = record m { includes = m.includes ++ path ∷ [] }
after (target text inner) m = m

parse-after :
    (s : Statement) (rest : Pairs Rule) (m : Makefile)
    → parse_makefile (cons (statement_pair s) rest) m ≡ parse_makefile rest (after s m)
unfolding parse_makefile
parse-after (assign text name none) rest m = refl
parse-after (assign text name (some v)) rest m = refl
parse-after (definition text name value) rest m = refl
parse-after (include text path) rest m = refl
parse-after (target text inner) rest m = refl

lookup-after :
    (s : Statement) (m : Makefile) (k : String)
    → lookup k (after s m).variables ≡ setting_or (given k s) (lookup k m.variables)
lookup-after (assign text name value) m k = ground (
  arith,
  lookup-insert name k (record { key = ""; values = values_of value; mode = set }) m.variables,
)
lookup-after (definition text name value) m k =
    ground (
      arith,
      lookup-insert name k (record { key = ""; values = value ∷ []; mode = set }) m.variables,
    )
lookup-after (include text path) m k = refl
lookup-after (target text inner) m k = refl

included-after :
    (s : Statement) (ss : List Statement) (m : Makefile)
    → (after s m).includes ++ included ss ≡ m.includes ++ included (s ∷ ss)
unfolding included
included-after (include text path) ss m = append_assoc m.includes (path ∷ []) (included ss)
included-after _ ss m = refl

runs : (ss : List Statement) (m : Makefile) → (m' : Makefile) × Runs ss m m'
unfolding last_given included parse_makefile
runs [] m = (m, (refl, sym (append-nil m.includes), λ k. refl))
runs (s ∷ ss) m =
    let (m', (r, i, l)) = runs ss (after s m) in
    (
      m',
      (
        parse-after s (statement_pairs ss) m ∙ r,
        i ∙ included-after s ss m,
        λ k.
            l k
            ∙ ap (setting_or (last_given k ss)) (lookup-after s m k)
            ∙ setting_step k (last_given k ss) (given k s) (lookup k m.variables),
      ),
    )

setting_or-none : (o : Option (List String)) → setting_or o none ≡ setting o
setting_or-none none = refl
setting_or-none (some vs) = refl

module _ {E : Type 0} (parse : String → Outcome E (Pairs Rule)) where
  -- Where the parser finds the statements `ss` in a text, a makefile is returned: its includes are
  -- those of the text in order, and each variable sets the values of the last statement about it,
  -- whether that was written with `=`, `+=` or `define`.
  pub parse_string-statements :
      (content text : String) (ss : List Statement)
      → parse content ≡ ok (file_pairs text ss)
      → (m : Makefile) × (parse_string parse content ≡ ok m)
        × (m.includes ≡ included ss)
        × ((k : String) → lookup k m.variables ≡ setting (last_given k ss))
  unfolding parse_string
  parse_string-statements content text ss h =
      let (m, (r, i, l)) = runs ss default in
      (m, rw (h, r), i, λ k. l k ∙ rw (lookup-empty, setting_or-none))
