-- ===== src/Userland/Makefile/Grammar/Bodies.antt =====
-- The grammar reads each line of a written makefile as the statement that it is.
use ips.Base.{ℕ, String, Bool, true, false, ◌≡◌, refl, List, [], ◌∷◌, arith, is_empty, Option}
use ips.Base.Text.{◌<>◌}
use ips.Base.Text.Laws.{<>_assoc}
use ips.Base.Text.Replace.{strip_prefix}
use ips.Base.Pest.{Pairs, pair, nil, cons}
use ips.Base.Pest.Grammar.{append, lit, seq, alt, newline, rule, then_}
use ips.Base.Pest.Grammar.Laws.{Reads, Fails, alt-Reads, alt-Reads_second}
use ips.Base.Pest.Grammar.Series.{NotEmpty}
use ips.Userland.Makefile.Parse.{Rule}
use ips.Userland.Makefile.Parse.Statements.{
  Statement, assign, definition, statement_pair, statement_pairs, file_pairs, last_given, included,
  setting, parse_string-statements,
}
use ips.Userland.Makefile.Parse.Statements as Statements
use ips.Userland.Makefile.Grammar.{comment_string, define, statement}
use ips.Userland.Makefile.Grammar.Written.{
  Blank, blanks_text, Body, empty, comment, variable, include, body_text, Line, lines_text,
  WrittenMakefile, print, variable_text, include_text, define_text, value_text, add_statement,
  statements_of, solid, newline_next, valid_name, valid_body, valid_lines, valid,
}
use ips.Userland.Makefile.Grammar.Written as Written
use ips.Userland.Makefile.Grammar.Words.{one_newline, at_newline, AsciiUppercase, name-solid}
use ips.Userland.Makefile.Grammar.Lines.{
  include-Reads, variable-Reads, include-variable, name-newline, name-comment, name-define,
}
use ips.Userland.Makefile.Grammar.Defines.{define-Reads}
use ips.Userland.Makefile.Grammar.Comments.{comment-Reads}

abbrev pub body_pairs : Body → Pairs Rule
body_pairs empty = nil
body_pairs (comment t) = nil
body_pairs (variable v) =
    cons (statement_pair (assign (variable_text v) v.name (Option.some v.value))) nil
body_pairs (include i) = cons (statement_pair (Statements.include (include_text i) i.path)) nil
body_pairs (Written.define d) =
    cons (statement_pair (definition (define_text d) d.name (value_text d))) nil

abbrev pub lines_pairs : List Line → Pairs Rule
lines_pairs [] = nil
lines_pairs (l ∷ ls) = append (body_pairs l.body) (lines_pairs ls)

-- What stands behind a line that has no newline of its own.
next-at_newline :
    (ls : List Line) (bs : List Blank)
    → newline_next ls bs ≡ true
    → at_newline (lines_text ls <> (blanks_text bs <> "")) ≡ true
next-at_newline [] [] h = refl
next-at_newline [] (b ∷ bs) h = cc
next-at_newline (l ∷ ls) bs h = from l.blanks l.body (lines_text ls) h
  where
    from :
        (cs : List Blank) (b : Body) (t : String)
        → elim b [ empty ↦ is_empty cs | _ ↦ false ] ≡ true
        → at_newline ((blanks_text cs <> (body_text b <> t)) <> (blanks_text bs <> "")) ≡ true
    from [] empty t h = refl
    from (c ∷ cs) empty t h = cc
    from cs (comment u) t h = cc
    from cs (variable v) t h = cc
    from cs (include i) t h = cc
    from cs (Written.define d) t h = cc

start-newline : (s : String) → Fails {R = Rule} newline ("#" <> s)
unfolding newline alt lit strip_prefix
start-newline s = record { fails = refl }

-- An include or a define is none of the alternatives before it.
include-define : (uppercase : ℕ → Bool) (s : String) → Fails (define uppercase) ("include" <> s)
unfolding define rule then_ seq lit strip_prefix
include-define uppercase s = record { fails = refl }

define-newline : (s : String) → Fails {R = Rule} newline ("define" <> s)
unfolding newline alt lit strip_prefix
define-newline s = record { fails = refl }

define-comment : (s : String) → Fails comment_string ("define" <> s)
unfolding comment_string then_ seq lit strip_prefix
define-comment s = record { fails = refl }

include-newline : (s : String) → Fails {R = Rule} newline ("include" <> s)
unfolding newline alt lit strip_prefix
include-newline s = record { fails = refl }

include-comment : (s : String) → Fails comment_string ("include" <> s)
unfolding comment_string then_ seq lit strip_prefix
include-comment s = record { fails = refl }

abbrev pub the_end : Pairs Rule
the_end = cons (pair Rule.eoi "" nil) nil

add_statement-pairs :
    (b : Body) (ps : Pairs Rule) (ss : List Statement)
    → append ps the_end ≡ statement_pairs ss
    → append (append (body_pairs b) ps) the_end ≡ statement_pairs (add_statement b ss)
add_statement-pairs empty ps ss h = h
add_statement-pairs (comment t) ps ss h = h
add_statement-pairs (variable v) ps ss h = cc
add_statement-pairs (include i) ps ss h = cc
add_statement-pairs (Written.define d) ps ss h = cc

pub statements_of-pairs :
    (ls : List Line) → append (lines_pairs ls) the_end ≡ statement_pairs (statements_of ls)
statements_of-pairs [] = refl
statements_of-pairs (l ∷ ls) =
    add_statement-pairs l.body (lines_pairs ls) (statements_of ls) (statements_of-pairs ls)

pub body-statement_pairs :
    (b : Body) (ss : List Statement)
    → append (body_pairs b) (statement_pairs ss) ≡ statement_pairs (add_statement b ss)
body-statement_pairs empty ss = refl
body-statement_pairs (comment t) ss = refl
body-statement_pairs (variable v) ss = refl
body-statement_pairs (include i) ss = refl
body-statement_pairs (Written.define d) ss = refl

module _ (uppercase : ℕ → Bool) (ascii : AsciiUppercase uppercase) where
  pub body-solid :
      (b : Body) (ls : List Line) (bs : List Blank) (s : String)
      → valid_body uppercase b ls bs ≡ true
      → solid (body_text b <> s) ≡ true
  unfolding valid_body
  body-solid empty ls bs s h = refl
  body-solid (comment t) ls bs s h = refl
  body-solid (variable v) ls bs s h =
      rw (<>_assoc v.name _ s) (name-solid uppercase ascii v.name _ (ground arith))
  body-solid (include i) ls bs s h = refl
  body-solid (Written.define d) ls bs s h = refl

  pub body-NotEmpty :
      (b : Body) (ls : List Line) (bs : List Blank)
      → valid_body uppercase b ls bs ≡ true
      → NotEmpty (body_text b)
  unfolding valid_body
  body-NotEmpty empty ls bs h = refl
  body-NotEmpty (comment t) ls bs h = refl
  body-NotEmpty (variable v) ls bs h = from v.name _ (ground arith)
    where
      from : (n s : String) → valid_name uppercase n ≡ true → NotEmpty (n <> s)
      from String.[] s h = cc
      from (String.◌∷◌ d n) s h = refl
  body-NotEmpty (include i) ls bs h = refl
  body-NotEmpty (Written.define d) ls bs h = refl

  pub body-Reads :
      (b : Body) (ls : List Line) (bs : List Blank)
      → valid_body uppercase b ls bs ≡ true
      → Reads
          (statement uppercase)
          (body_text b)
          (body_pairs b)
          (lines_text ls <> (blanks_text bs <> ""))
  unfolding valid_body statement
  body-Reads empty ls bs h = alt-Reads _ (one_newline _)
  body-Reads (comment t) ls bs h =
      alt-Reads_second _ (start-newline _) (alt-Reads _ (comment-Reads t _ h))
  body-Reads (variable v) ls bs h =
      let n : valid_name uppercase v.name ≡ true = ground arith in
      let r = lines_text ls <> (blanks_text bs <> "") in
      let a : Fails {R = Rule} newline (variable_text v <> r) =
        rw (<>_assoc v.name _ r) (name-newline uppercase ascii v.name _ n) in
      let c : Fails comment_string (variable_text v <> r) =
        rw (<>_assoc v.name _ r) (name-comment uppercase ascii v.name _ n) in
      let d : Fails (define uppercase) (variable_text v <> r) =
        rw (<>_assoc v.name _ r) (name-define uppercase ascii v.name _ n) in
      alt-Reads_second _ a (
        alt-Reads_second _ c (
          alt-Reads_second _ d (
            alt-Reads _ (
              variable-Reads uppercase ascii v _ n (ground arith)
                (next-at_newline ls bs (ground arith))))))
  body-Reads (include i) ls bs h = alt-Reads_second _ (include-newline _) (
      alt-Reads_second _ (include-comment _) (
        alt-Reads_second _ (include-define uppercase _) (
          alt-Reads_second _ (include-variable uppercase ascii _) (
            alt-Reads _
              (include-Reads i _ (ground arith) (next-at_newline ls bs (ground arith)))))))
  body-Reads (Written.define d) ls bs h = alt-Reads_second _ (define-newline _) (
      alt-Reads_second _ (define-comment _) (
        alt-Reads _
          (define-Reads uppercase ascii d _ (ground arith) (ground arith) (ground arith))))
