-- ===== src/Userland/Makefile/Grammar/RoundTrip.antt =====
-- The grammar reads a written makefile as its lines, and the makefile is what they state.
use ips.Base.{ℕ, String, Bool, true, ◌≡◌, refl, sym, List, [], ◌∷◌, arith}
use ips.Base.Outcome.{ok}
use ips.Base.Table.{lookup}
use ips.Base.Text.{◌<>◌}
use ips.Base.Text.Laws.{<>_assoc, <>_nil}
use ips.Base.Pest.{nil}
use ips.Base.Pest.Grammar.{never, eoi, soi}
use ips.Base.Pest.Grammar.Laws.{Reads, eoi-Reads, rule-Reads}
use ips.Base.Pest.Grammar.Skipping.{then_-Reads, then_-Reads_together}
use ips.Base.Pest.Grammar.Series.{NotEmpty-append, Series, Series-then, stop, more}
use ips.Userland.Makefile.{Makefile}
use ips.Userland.Makefile.Parse.{Rule, parse_string}
use ips.Userland.Makefile.Parse.Statements.{
  Statement, statement_pairs, file_pairs, last_given, included, setting, parse_string-statements,
}
use ips.Userland.Makefile.Grammar.{whitespace, statement, makefile, parse_with, then, repeated}
use ips.Userland.Makefile.Grammar.Written.{
  Blank, blanks_text, body_text, Line, lines_text, WrittenMakefile, print, statements_of,
  valid_lines, valid,
}
use ips.Userland.Makefile.Grammar.Words.{skip-blanks, AsciiUppercase}
use ips.Userland.Makefile.Grammar.Lines.{statement-Fails}
use ips.Userland.Makefile.Grammar.Bodies.{
  lines_pairs, statements_of-pairs, body-statement_pairs, body-solid, body-NotEmpty, body-Reads,
}

soi-Reads : (s : String) → Reads {R = Rule} soi "" nil s
soi-Reads s = record { reads = refl }

print-splits :
    (m : WrittenMakefile)
    → print m
      ≡ blanks_text m.first.blanks
        <> (body_text m.first.body <> (lines_text m.lines <> (blanks_text m.blanks <> "")))
unfolding print
print-splits m =
    rw
      (
        <>_assoc (blanks_text m.first.blanks) (body_text m.first.body <> lines_text m.lines)
            (blanks_text m.blanks),
        <>_assoc (body_text m.first.body) (lines_text m.lines) (blanks_text m.blanks),
        <>_nil (blanks_text m.blanks),
      )
      refl

abbrev pub written_statements : WrittenMakefile → List Statement
written_statements m = statements_of (m.first ∷ m.lines)

module _ (uppercase : ℕ → Bool) (ascii : AsciiUppercase uppercase) where
  lines-Series :
      (ls : List Line) (bs : List Blank)
      → valid_lines uppercase ls bs ≡ true
      → Series whitespace never
          (statement uppercase)
          (blanks_text bs <> "")
          (lines_text ls)
          (lines_pairs ls)
  unfolding valid_lines
  lines-Series [] bs v = stop
  lines-Series (l ∷ ls) bs v =
      more
        (NotEmpty-append (blanks_text l.blanks) _
          (body-NotEmpty uppercase ascii l.body ls bs (ground arith)))
        (skip-blanks l.blanks _ (body-solid uppercase ascii l.body ls bs _ (ground arith)))
        (body-Reads uppercase ascii l.body ls bs (ground arith)) (lines-Series ls bs (ground arith))

  first-Reads :
      (l : Line) (ls : List Line) (bs : List Blank)
      → valid_lines uppercase (l ∷ ls) bs ≡ true
      → Reads
          (then (statement uppercase) (then (repeated (statement uppercase)) (eoi Rule.eoi)))
          (body_text l.body <> (lines_text ls <> (blanks_text bs <> "")))
          (statement_pairs (statements_of (l ∷ ls)))
          ""
  unfolding valid_lines
  first-Reads l ls bs v = rw (sym (body-statement_pairs l.body (statements_of ls))) (
      then_-Reads_together whitespace never _
        (rw (<>_nil (lines_text ls <> (blanks_text bs <> "")))
          (body-Reads uppercase ascii l.body ls bs (ground arith)))
        (rw (statements_of-pairs ls) at (
          Series-then (skip-blanks bs _ refl) (skip-blanks [] _ refl)
            (statement-Fails uppercase ascii) (eoi-Reads Rule.eoi)
            (lines-Series ls bs (ground arith)))))

  makefile-Reads :
      (m : WrittenMakefile)
      → valid uppercase m ≡ true
      → Reads (makefile uppercase) (print m) (file_pairs (print m) (written_statements m)) ""
  unfolding valid valid_lines makefile
  makefile-Reads m v = rw (print-splits m) (
      rule-Reads Rule.makefile (
        then_-Reads whitespace never (soi-Reads _)
          (skip-blanks m.first.blanks _ (
            rw (<>_assoc (body_text m.first.body) _ "")
              (body-solid uppercase ascii m.first.body m.lines m.blanks _ (ground arith))))
          (first-Reads m.first m.lines m.blanks (ground arith))))

  module _ {E : Type 0} (no_match : String → E) where
    parse_with-makefile :
        (m : WrittenMakefile)
        → valid uppercase m ≡ true
        → parse_with uppercase no_match (print m) ≡ ok (file_pairs (print m) (written_statements m))
    unfolding parse_with
    parse_with-makefile m v =
        rw (parse_with, rw (<>_nil (print m)) at (makefile-Reads m v).reads) refl

    -- Where the uppercase characters of ASCII are A to Z, a valid written makefile, of empty lines,
    -- comments, variables, includes and defines, is parsed: its includes are those of its lines in
    -- order, and each variable sets the values of the last line about it.
    pub makefile-print :
        (m : WrittenMakefile)
        → valid uppercase m ≡ true
        → (r : Makefile) × (parse_string (parse_with uppercase no_match) (print m) ≡ ok r)
          × (r.includes ≡ included (written_statements m))
          × ((k : String) → lookup k r.variables ≡ setting (last_given k (written_statements m)))
    makefile-print m v =
        parse_string-statements (parse_with uppercase no_match) (print m) (print m)
          (written_statements m) (parse_with-makefile m v)
