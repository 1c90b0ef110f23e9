-- ===== src/Userland/Makefile/Grammar/Total.antt =====
-- Whatever the text, the walk takes all the pairs that the grammar of makefiles gives for it.
use ips.Base.{
  ℕ, String, Bool, true, ◌≡◌, refl, Option, none, some, ◌⊎◌, inl, inr, Option-cases, List, [], ◌∷◌,
  ◌++◌,
}
use ips.Base.Outcome.{ok, err}
use ips.Base.Table.{lookup}
use ips.Base.Pest.{Pairs, pair, nil, cons}
use ips.Base.Pest.Grammar.{Expression, append, never, char_if, many, soi, eoi, newline}
use ips.Base.Pest.Grammar.Yields.{
  Yields, Yields-imp, IsNil, lit-Yields, char_if-Yields, eoi-Yields, rule-Yields, rule-Yields_any,
  alt-Yields, opt-Yields, not_ahead-Yields, atomic-Yields,
}
use ips.Base.Pest.Grammar.Silent.{then_-Yields, repeat-Yields, newline-IsNil, append-nil}
use ips.Userland.Makefile.{Makefile}
use ips.Userland.Makefile.Parse.{Rule, parse_string}
use ips.Userland.Makefile.Parse.Statements.{
  Statement, assign, definition, value_pairs, statement_pair, statement_pairs, file_pairs,
  last_given, included, setting, parse_string-statements,
}
use ips.Userland.Makefile.Parse.Statements as Statements
use ips.Userland.Makefile.Grammar.{
  whitespace, then, repeated, comment_character, comment_string, variable_value_character,
  variable_value, variable_set, variable_add, target, include, define_end_keyword,
  define_value_character, define_value, is_name_char, variable_name, variable, define, statement,
  makefile, parse_with,
}

whitespace-IsNil : Yields whitespace IsNil
unfolding whitespace
whitespace-IsNil = record { yields = (alt-Yields (lit-Yields " ") (lit-Yields "\t")).yields }

never-IsNil : Yields {R = Rule} never IsNil
never-IsNil = record { yields = λ s. tt }

-- Two parts of which the first gives no pair.
after-IsNil :
    {a b : Expression Rule} {P : Pairs Rule → Type 0}
    → Yields a IsNil
    → Yields b P
    → Yields (then a b) P
after-IsNil {P} h k = then_-Yields whitespace-IsNil never-IsNil P h k (λ ps qs e q. rw e q)

before-IsNil :
    {a b : Expression Rule} {P : Pairs Rule → Type 0}
    → Yields a P
    → Yields b IsNil
    → Yields (then a b) P
before-IsNil {P} h k =
    then_-Yields whitespace-IsNil never-IsNil P h k (λ ps qs q e. rw (e, append-nil ps) q)

comment-IsNil : Yields comment_string IsNil
unfolding comment_string comment_character
comment-IsNil = after-IsNil (lit-Yields "#") (
    after-IsNil
      (repeat-Yields whitespace-IsNil never-IsNil IsNil
        (after-IsNil (not_ahead-Yields newline refl) (char_if-Yields (λ c. true))) refl
        (λ ps qs e q. rw (e, q) refl))
      newline-IsNil)

-- One pair of a rule.
abbrev TokenPairs : Rule → Pairs Rule → Type 0
TokenPairs r ps = (t : String) × (ps ≡ cons (pair r t nil) nil)

value-Yields : Yields variable_value (TokenPairs Rule.variable_value)
unfolding variable_value
value-Yields = atomic-Yields (many variable_value_character) Rule.variable_value (λ t. (t, refl))

define_value-Yields : Yields define_value (TokenPairs Rule.define_value)
unfolding define_value
define_value-Yields = atomic-Yields (many define_value_character) Rule.define_value (λ t. (t, refl))

end-IsNil : Yields define_end_keyword IsNil
unfolding define_end_keyword
end-IsNil = after-IsNil newline-IsNil (lit-Yields "endef")

-- Statements in a row.
abbrev statements_onto : List Statement → Pairs Rule → Pairs Rule
statements_onto [] qs = qs
statements_onto (s ∷ ss) qs = cons (statement_pair s) (statements_onto ss qs)

abbrev StatementsPairs : Pairs Rule → Type 0
StatementsPairs ps = (ss : List Statement) × (ps ≡ statements_onto ss nil)

abbrev OptionPairs : Pairs Rule → Type 0
OptionPairs ps = (o : Option String) × (ps ≡ value_pairs o)

abbrev AssignPairs : Pairs Rule → Type 0
AssignPairs ps =
    (name : String) × (o : Option String) × (ps
      ≡ cons (pair Rule.variable_name name nil) (value_pairs o))

abbrev DefinePairs : Pairs Rule → Type 0
DefinePairs ps =
    (name value : String) × (ps
      ≡ cons (pair Rule.variable_name name nil) (cons (pair Rule.define_value value nil) nil))

target-Yields : Yields target StatementsPairs
unfolding target
target-Yields = rule-Yields_any _ Rule.target (λ t ps. (Statements.target t ps ∷ [], refl))

include-Yields : Yields include StatementsPairs
unfolding include
include-Yields =
    rule-Yields Rule.include (after-IsNil (lit-Yields "include") value-Yields)
      (λ t ps h. let (v, e) = h in (Statements.include t v ∷ [], rw e refl))

module _ (uppercase : ℕ → Bool) where
  name-Yields : Yields (variable_name uppercase) (TokenPairs Rule.variable_name)
  unfolding variable_name
  name-Yields =
      atomic-Yields (many (char_if (is_name_char uppercase))) Rule.variable_name (λ t. (t, refl))

  variable-Yields : Yields (variable uppercase) StatementsPairs
  unfolding variable variable_set variable_add
  variable-Yields =
      rule-Yields Rule.variable
        (then_-Yields whitespace-IsNil never-IsNil AssignPairs name-Yields
          (after-IsNil {P = OptionPairs} (alt-Yields (lit-Yields "=") (lit-Yields "+=")) (
            opt-Yields (none, refl)
              (Yields-imp (λ ps h. let (t, e) = h in (some t, e)) value-Yields)))
          (λ ps qs h k. let (n, e) = h in let (o, q) = k in (n, o, rw (e, q) refl)))
        (λ t ps h. let (n, o, e) = h in (assign t n o ∷ [], rw e refl))

  define-Yields : Yields (define uppercase) StatementsPairs
  unfolding define variable_set
  define-Yields =
      rule-Yields Rule.define
        (after-IsNil (lit-Yields "define") (
          then_-Yields whitespace-IsNil never-IsNil DefinePairs name-Yields
            (after-IsNil (lit-Yields "=")
              (after-IsNil newline-IsNil (before-IsNil define_value-Yields end-IsNil)))
            (λ ps qs h k. let (n, e) = h in let (v, q) = k in (n, v, rw (e, q) refl))))
        (λ t ps h. let (n, v, e) = h in (definition t n v ∷ [], rw e refl))

  statement-Yields : Yields (statement uppercase) StatementsPairs
  unfolding statement
  statement-Yields = alt-Yields (Yields-imp (λ ps e. ([], e)) newline-IsNil) (
      alt-Yields (Yields-imp (λ ps e. ([], e)) comment-IsNil) (
        alt-Yields define-Yields
          (alt-Yields variable-Yields (alt-Yields include-Yields target-Yields))))

  statements_onto-append :
      (ss us : List Statement) (qs : Pairs Rule)
      → append (statements_onto ss nil) (statements_onto us qs) ≡ statements_onto (ss ++ us) qs
  statements_onto-append [] us qs = refl
  statements_onto-append (s ∷ ss) us qs = cc (statements_onto-append ss us qs)

  statements_onto-behind :
      (ss us : List Statement)
      → append (statements_onto ss nil) (statement_pairs us) ≡ statement_pairs (ss ++ us)
  statements_onto-behind [] us = refl
  statements_onto-behind (s ∷ ss) us = cc (statements_onto-behind ss us)

  abbrev AllPairs : Pairs Rule → Type 0
  AllPairs ps = (ss : List Statement) × (ps ≡ statement_pairs ss)

  join-AllPairs : (ps qs : Pairs Rule) → StatementsPairs ps → AllPairs qs → AllPairs (append ps qs)
  join-AllPairs ps qs (ss, e) (us, q) = (ss ++ us, rw (e, q) (statements_onto-behind ss us))

  behind-Yields : Yields (then (repeated (statement uppercase)) (eoi Rule.eoi)) AllPairs
  behind-Yields =
      then_-Yields whitespace-IsNil never-IsNil AllPairs
        (repeat-Yields whitespace-IsNil never-IsNil StatementsPairs statement-Yields ([], refl)
          (λ ps qs h k.
            let (ss, e) = h in
            let (us, q) = k in (ss ++ us, rw (e, q) (statements_onto-append ss us nil))))
        (eoi-Yields AllPairs Rule.eoi ([], refl)) join-AllPairs

  soi-IsNil : Yields {R = Rule} soi IsNil
  soi-IsNil = record { yields = λ s. refl }

  makefile-Yields :
      Yields
        (makefile uppercase)
        (λ ps. (t : String) × (ss : List Statement) × (ps ≡ file_pairs t ss))
  unfolding makefile
  makefile-Yields =
      rule-Yields Rule.makefile
        (after-IsNil soi-IsNil (
          then_-Yields whitespace-IsNil never-IsNil AllPairs statement-Yields behind-Yields
            join-AllPairs))
        (λ t ps h. let (ss, e) = h in (t, ss, rw e refl))

  module _ {E : Type 0} (no_match : String → E) where
    -- On every text the parser of the makefiles either finds no match, and that is the error, or a
    -- makefile is returned, never a panic: for some statements its includes are theirs in order, and
    -- each variable sets the values of the last of them about it.
    pub parse_string-makefile :
        (content : String)
        → (parse_string (parse_with uppercase no_match) content ≡ err (no_match content))
          ⊎ ((ss : List Statement) × (m : Makefile) × (parse_string
                  (parse_with uppercase no_match)
                  content
                ≡ ok m)
              × (m.includes ≡ included ss)
              × ((k : String) → lookup k m.variables ≡ setting (last_given k ss)))
    unfolding parse_with parse_string
    parse_string-makefile content = elim (Option-cases (makefile uppercase content)) [
      | inl e ↦ inl (rw (parse_with, e) refl)
      | inr (m, e) ↦
          let (t, ss, q) = rw e at (makefile-Yields.yields content) in
          let (r, h, i, l) =
            parse_string-statements (parse_with uppercase no_match) content t ss
              (rw (parse_with, e, q) refl) in
          inr (ss, r, h, i, l)
    ]
