-- ===== src/Userland/Makefile/Grammar/Defines.antt =====
-- A define as the grammar reads it: its value ends before the first line that starts with `endef`.
use Prim.Native.Char.{Char, code}
use ips.Base.{ℕ, String, Bool, true, false, not, ◌≡◌, refl, none, List, [], ◌∷◌, arith}
use ips.Base.Text.{◌<>◌, starts_with}
use ips.Base.Text.Laws.{<>_assoc}
use ips.Base.Text.Replace.{strip_prefix}
use ips.Base.Pest.{pair, nil, cons}
use ips.Base.Pest.Grammar.{never, lit, char_if, seq, alt, not_ahead, newline}
use ips.Base.Pest.Grammar.Laws.{
  Reads, Fails, Repeats, Repeats-stop, Repeats-step, many-Reads, lit-Reads, rule-Reads,
  atomic-Reads, char_if-Fails, char_if-Reads, seq-Reads, seq-Fails_behind, lit-Fails,
  not_ahead-Reads,
}
use ips.Base.Pest.Grammar.Skipping.{then_-Reads}
use ips.Base.Pest.Grammar.Characters.{all_chars, Repeats-chars_then}
use ips.Userland.Makefile.Parse.{Rule}
use ips.Userland.Makefile.Parse.Statements.{definition, statement_pair}
use ips.Userland.Makefile.Grammar.{
  whitespace, variable_set, define_value_character, define_value, define_end_inside,
  define_end_keyword, define, is_name_char,
}
use ips.Userland.Makefile.Grammar.Written.{
  WrittenDefine, more_lines, value_text, define_text, not_newline, solid, valid_value, valid_more,
  valid_name,
}
use ips.Userland.Makefile.Grammar.Words.{
  skip-blanks, one_newline, AsciiUppercase, not_name, name-Reads, name-solid,
}
use ips.Userland.Makefile.Grammar.Lines.{blanks-NoName}

one_define_character :
    (d : Char) (s : String)
    → not_newline (code d) ≡ true
    → Reads define_value_character (String.◌∷◌ d "") nil s
unfolding define_value_character define_end_inside newline not_ahead char_if seq alt lit
    strip_prefix
one_define_character d s h = record { reads = ground arith }

inner_newline :
    (s : String) → strip_prefix s "endef" ≡ none → Reads define_value_character "\n" nil s
unfolding define_value_character define_end_inside
inner_newline s h =
    seq-Reads _ (not_ahead-Reads (seq-Fails_behind _ (one_newline s) (lit-Fails "endef" s h)))
      (char_if-Reads (λ c. true) "\n" s refl)

last_newline : (s : String) → Fails define_value_character ("\nendef" <> s)
unfolding define_value_character define_end_inside newline not_ahead char_if seq alt lit
    strip_prefix
last_newline s = record { fails = refl }

-- A newline is in no pattern of plain characters.
not_prefix :
    (p l r : String)
    → all_chars not_newline p ≡ true
    → starts_with l p ≡ false
    → strip_prefix (l <> ("\n" <> r)) p ≡ none
unfolding all_chars starts_with strip_prefix
not_prefix String.[] String.[] r h n = cc
not_prefix String.[] (String.◌∷◌ d l) r h n = cc
not_prefix (String.◌∷◌ c p) String.[] r h n = ground arith
not_prefix (String.◌∷◌ c p) (String.◌∷◌ d l) r h n = ground (arith, not_prefix p l r)

line-not_end :
    (l : String) (ls : List String) (s : String)
    → not (starts_with l "endef") ≡ true
    → strip_prefix ((l <> more_lines ls) <> ("\nendef" <> s)) "endef" ≡ none
unfolding all_chars
line-not_end l [] s h =
    rw (<>_assoc l "" ("\nendef" <> s)) (not_prefix "endef" l ("endef" <> s) refl (ground arith))
line-not_end l (k ∷ ks) s h =
    rw (<>_assoc l (more_lines (k ∷ ks)) ("\nendef" <> s))
      (not_prefix "endef" l ((k <> more_lines ks) <> ("\nendef" <> s)) refl (ground arith))

more-Repeats :
    (ls : List String) (s : String)
    → valid_more ls ≡ true
    → Repeats define_value_character (more_lines ls) nil ("\nendef" <> s)
unfolding valid_more
more-Repeats [] s v = Repeats-stop (last_newline s)
more-Repeats (l ∷ ls) s v = Repeats-step (inner_newline _ (line-not_end l ls s (ground arith))) (
    Repeats-chars_then not_newline one_define_character l (ground arith)
      (more-Repeats ls s (ground arith)))

define_value-Reads :
    (d : WrittenDefine) (s : String)
    → valid_value d.line ≡ true
    → valid_more d.lines ≡ true
    → Reads define_value
        (value_text d)
        (cons (pair Rule.define_value (value_text d) nil) nil)
        ("\nendef" <> s)
unfolding define_value
define_value-Reads d s v h = atomic-Reads Rule.define_value (
    many-Reads (
      Repeats-chars_then not_newline one_define_character d.line (ground arith)
        (more-Repeats d.lines s h)))

end-Reads : (s : String) → Reads define_end_keyword "\nendef" nil s
unfolding define_end_keyword
end-Reads s =
    then_-Reads whitespace never {g = ""} (one_newline _) (skip-blanks [] _ refl)
      (lit-Reads "endef" s)

-- The value starts with no blank, so that none is passed over.
value_text-solid :
    (l : String) (ls : List String) (s : String)
    → solid l ≡ true
    → solid (((l <> more_lines ls) <> "\nendef") <> s) ≡ true
value_text-solid String.[] [] s h = refl
value_text-solid String.[] (k ∷ ks) s h = refl
value_text-solid (String.◌∷◌ d l) ls s h = h

pub define-Reads :
    (uppercase : ℕ → Bool) (ascii : AsciiUppercase uppercase) (d : WrittenDefine) (s : String)
    → valid_name uppercase d.name ≡ true
    → valid_value d.line ≡ true
    → valid_more d.lines ≡ true
    → Reads
        (define uppercase)
        (define_text d)
        (cons (statement_pair (definition (define_text d) d.name (value_text d))) nil)
        s
unfolding define variable_set
define-Reads uppercase ascii d s n v h = rule-Reads Rule.define (
    then_-Reads whitespace never (lit-Reads "define" _)
      (skip-blanks d.blanks _ (rw (<>_assoc d.name _ s) (name-solid uppercase ascii d.name _ n)))
      (then_-Reads whitespace never
        (name-Reads uppercase ascii d.name _ (ground arith) (
          blanks-NoName uppercase ascii d.before _
            (char_if-Fails (is_name_char uppercase) _ _ (not_name uppercase ascii 61 refl refl))))
        (skip-blanks d.before _ refl)
        (then_-Reads whitespace never (lit-Reads "=" _) (skip-blanks d.behind _ refl) (
          then_-Reads whitespace never {g = ""} (one_newline _)
            (skip-blanks [] _ (value_text-solid d.line d.lines s (ground arith)))
            (then_-Reads whitespace never {g = ""} (define_value-Reads d s v h)
              (skip-blanks [] _ refl) (end-Reads s))))))
