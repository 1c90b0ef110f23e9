-- ===== src/Userland/Makefile/Grammar/Lines.antt =====
-- The lines of a makefile as the grammar reads them, one lemma for each kind.
use Prim.Native.Char.{Char, code}
use ips.Base.{ℕ, String, Bool, true, false, ◌≡◌, refl, List, [], ◌∷◌, nat_eq, arith, some}
use ips.Base.Text.{◌<>◌}
use ips.Base.Text.Replace.{strip_prefix}
use ips.Base.Pest.{nil, cons}
use ips.Base.Pest.Grammar.{
  never, lit, char_if, seq, alt, not_ahead, many, newline, atomic, then_, rule,
}
use ips.Base.Pest.Grammar.Laws.{
  Reads, Fails, lit-Reads, char_if-Fails, opt-Reads, rule-Reads, rule-Fails,
}
use ips.Base.Pest.Grammar.Skipping.{then_-Reads, then_-Fails, then_-Fails_behind}
use ips.Base.Pest.Grammar.Characters.{all_chars}
use ips.Userland.Makefile.Parse.{Rule}
use ips.Userland.Makefile.Parse.Statements.{Statement, assign, definition, statement_pair}
use ips.Userland.Makefile.Parse.Statements as Statements
use ips.Userland.Makefile.Grammar.{
  whitespace, variable_set, variable_add, variable_name, variable, include, target, target_name,
  target_character, define, is_name_char, comment_string, statement,
}
use ips.Userland.Makefile.Grammar.Written.{
  Blank, space, tab, blanks_text, Operator, sets, adds, operator_text, WrittenVariable,
  WrittenInclude, variable_text, include_text, solid, valid_value, valid_name,
}
use ips.Userland.Makefile.Grammar.Words.{
  skip-blanks, at_newline, value-Reads, value-solid, AsciiUppercase, not_name, name-not, name-Reads,
}

operator-Reads :
    (o : Operator) (s : String) → Reads (alt variable_set variable_add) (operator_text o) nil s
unfolding variable_set variable_add alt lit strip_prefix
operator-Reads sets s = record { reads = refl }
operator-Reads adds s = record { reads = refl }

operator-solid : (o : Operator) (s r : String) → solid ((operator_text o <> s) <> r) ≡ true
operator-solid sets s r = refl
operator-solid adds s r = refl

include-operator : (s : String) → Fails (alt variable_set variable_add) ("include" <> s)
unfolding variable_set variable_add alt lit strip_prefix
include-operator s = record { fails = refl }

pub include-Reads :
    (i : WrittenInclude) (s : String)
    → valid_value i.path ≡ true
    → at_newline s ≡ true
    → Reads include
        (include_text i)
        (cons (statement_pair (Statements.include (include_text i) i.path)) nil)
        s
unfolding include
include-Reads i s v e = rule-Reads Rule.include (
    then_-Reads whitespace never (lit-Reads "include" _)
      (skip-blanks i.blanks _ (value-solid i.path s (ground arith) e))
      (value-Reads i.path s (ground arith) e))

-- Where the first characters differ.
abbrev Differs : String → Char → Type 0
Differs String.[] d = ⊥
Differs (String.◌∷◌ c t) d = nat_eq (code d) (code c) ≡ false

lit_head :
    (t : String) (d : Char) (s : String) → Differs t d → Fails {R = Rule} (lit t) (String.◌∷◌ d s)
unfolding lit strip_prefix
lit_head String.[] d s h = absurd h
lit_head (String.◌∷◌ c t) d s h = record { fails = ground arith }

module _ (uppercase : ℕ → Bool) (ascii : AsciiUppercase uppercase) where
  abbrev pub NoName : String → Type 0
  NoName s = Fails {R = Rule} (char_if (is_name_char uppercase)) s

  operator-NoName : (o : Operator) (s r : String) → NoName ((operator_text o <> s) <> r)
  operator-NoName sets s r = char_if-Fails _ _ _ (not_name uppercase ascii 61 refl refl)
  operator-NoName adds s r = char_if-Fails _ _ _ (not_name uppercase ascii 43 refl refl)

  pub blanks-NoName : (bs : List Blank) (s : String) → NoName s → NoName (blanks_text bs <> s)
  blanks-NoName [] s h = h
  blanks-NoName (space ∷ bs) s h = char_if-Fails _ _ _ (not_name uppercase ascii 32 refl refl)
  blanks-NoName (tab ∷ bs) s h = char_if-Fails _ _ _ (not_name uppercase ascii 9 refl refl)

  pub variable-Reads :
      (v : WrittenVariable) (s : String)
      → valid_name uppercase v.name ≡ true
      → valid_value v.value ≡ true
      → at_newline s ≡ true
      → Reads
          (variable uppercase)
          (variable_text v)
          (cons (statement_pair (assign (variable_text v) v.name (some v.value))) nil)
          s
  unfolding variable
  variable-Reads v s n h e = rule-Reads Rule.variable (
      then_-Reads whitespace never
        (name-Reads uppercase ascii v.name _ (ground arith)
          (blanks-NoName v.before _ (operator-NoName v.operator _ s)))
        (skip-blanks v.before _ (operator-solid v.operator _ s))
        (then_-Reads whitespace never (operator-Reads v.operator _)
          (skip-blanks v.behind _ (value-solid v.value s (ground arith) e))
          (opt-Reads (value-Reads v.value s (ground arith) e))))

  -- What is no variable, and what a name is not the start of.
  pub include-variable : (s : String) → Fails (variable uppercase) ("include" <> s)
  unfolding variable all_chars
  include-variable s = rule-Fails Rule.variable (
      then_-Fails_behind whitespace never {t = ""} {g = ""}
        (name-Reads uppercase ascii "" ("include" <> s) refl
          (char_if-Fails (is_name_char uppercase) _ _ (not_name uppercase ascii 105 refl refl)))
        (skip-blanks [] _ refl) (then_-Fails whitespace never _ (include-operator s)))

  pub name-newline :
      (n s : String) → valid_name uppercase n ≡ true → Fails {R = Rule} newline (n <> s)
  unfolding newline alt lit strip_prefix
  name-newline String.[] s h = cc
  name-newline (String.◌∷◌ d n) s h = record {
    fails = ground (
      arith,
      name-not uppercase ascii 10 (code d) refl refl,
      name-not uppercase ascii 13 (code d) refl refl,
    );
  }

  pub name-comment : (n s : String) → valid_name uppercase n ≡ true → Fails comment_string (n <> s)
  unfolding comment_string
  name-comment String.[] s h = cc
  name-comment (String.◌∷◌ d n) s h =
      then_-Fails whitespace never _
        (lit_head "#" d (n <> s) (name-not uppercase ascii 35 (code d) refl refl (ground arith)))

  pub name-define :
      (n s : String) → valid_name uppercase n ≡ true → Fails (define uppercase) (n <> s)
  unfolding define
  name-define String.[] s h = cc
  name-define (String.◌∷◌ d n) s h = rule-Fails Rule.define (
      then_-Fails whitespace never _ (
        lit_head "define" d (n <> s)
          (name-not uppercase ascii 100 (code d) refl refl (ground arith))))

  pub statement-Fails : Fails (statement uppercase) ""
  unfolding statement comment_string define variable variable_set variable_add include target
      target_name target_character variable_name then_ seq rule atomic many alt not_ahead newline
      lit strip_prefix char_if
  statement-Fails = record { fails = refl }
