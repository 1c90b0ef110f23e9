-- ===== src/Userland/Makefile/Grammar/Comments.antt =====
-- A comment as the grammar reads it, although the rule is not atomic: blanks are passed over between
-- its characters.
use Prim.Native.Char.{Char, code}
use text.Mathlib.TextEquality.{Char-path}
use ips.Base.{
  String, true, ◌≡◌, refl, sym, subst, ap, ◌∙◌, ◌++◌, inl, inr, Bool-cases, List, [], ◌∷◌, nat_eq,
  arith,
}
use ips.Base.Text.{◌<>◌}
use ips.Base.Text.Laws.{<>_assoc, <>_nil}
use ips.Base.Text.Replace.{strip_prefix}
use ips.Base.Pest.{nil}
use ips.Base.Pest.Grammar.{never, lit, alt, newline}
use ips.Base.Pest.Grammar.Laws.{
  Reads, Fails, lit-Reads, char_if-Reads, not_ahead-Reads, not_ahead-Fails,
}
use ips.Base.Pest.Grammar.Skipping.{then_-Reads, then_-Reads_together, then_-Fails}
use ips.Base.Pest.Grammar.Series.{NotEmpty-append, Series, Series-then, stop, more}
use ips.Base.Pest.Grammar.Characters.{all_chars, all_chars-head, all_chars-tail}
use ips.Userland.Makefile.Parse.{Rule}
use ips.Userland.Makefile.Grammar.{whitespace, comment_character, comment_string}
use ips.Userland.Makefile.Grammar.Written.{
  Blank, space, tab, blank_text, blanks_text, not_newline, solid,
}
use ips.Userland.Makefile.Grammar.Words.{skip-blanks, one_newline, nat_eq-eq}

other-Fails :
    (d : Char) (s : String)
    → not_newline (code d) ≡ true
    → Fails {R = Rule} newline (String.◌∷◌ d s)
unfolding newline alt lit strip_prefix
other-Fails d s h = record { fails = ground arith }

one_comment_character :
    (d : Char) (s : String)
    → not_newline (code d) ≡ true
    → solid (String.◌∷◌ d s) ≡ true
    → Reads comment_character (String.◌∷◌ d "") nil s
unfolding comment_character
one_comment_character d s h b =
    then_-Reads whitespace never {t = ""} {g = ""} (not_ahead-Reads (other-Fails d s h))
      (skip-blanks [] _ b) (char_if-Reads (λ c. true) d s refl)

newline-Fails : (s : String) → Fails comment_character ("\n" <> s)
unfolding comment_character
newline-Fails s = then_-Fails whitespace never _ (not_ahead-Fails (one_newline s))

-- The text as characters with blanks before them, and the blanks behind the last one.
record Spread (t s : String) : Type 0 where
  characters : String
  trailing : List Blank
  splits : t ≡ characters <> blanks_text trailing
  series :
      Series whitespace never comment_character (blanks_text trailing <> ("\n" <> s)) characters nil

blanks_text-append :
    (bs : List Blank) (b : Blank) (t : String)
    → blanks_text (bs ++ b ∷ []) <> t ≡ blanks_text bs <> (blank_text b <> t)
blanks_text-append [] b t = rw (<>_nil (blank_text b)) refl
blanks_text-append (c ∷ bs) b t =
    rw
      (
        <>_assoc (blank_text c) (blanks_text (bs ++ b ∷ [])) t,
        <>_assoc (blank_text c) (blanks_text bs) (blank_text b <> t),
        blanks_text-append bs b t,
      )
      refl

-- The blanks `bs` stand before the rest of the text.
spread :
    (bs : List Blank) (t s : String)
    → all_chars not_newline t ≡ true
    → Spread (blanks_text bs <> t) s
spread bs String.[] s h = record {
  characters = "";
  trailing = bs;
  splits = <>_nil (blanks_text bs);
  series = stop;
}
spread bs (String.◌∷◌ d t) s h = elim (Bool-cases (nat_eq (code d) 32)) [
  | inl e ↦
      subst (λ x. Spread x s)
        (blanks_text-append bs space t
          ∙ ap (λ c. blanks_text bs <> String.◌∷◌ c t)
              (sym (Char-path d " " (nat_eq-eq (code d) 32 e))))
        (spread (bs ++ space ∷ []) t s (all_chars-tail not_newline d t h))
  | inr n ↦ elim (Bool-cases (nat_eq (code d) 9)) [
    | inl e ↦
        subst (λ x. Spread x s)
          (blanks_text-append bs tab t
            ∙ ap (λ c. blanks_text bs <> String.◌∷◌ c t)
                (sym (Char-path d "\t" (nat_eq-eq (code d) 9 e))))
          (spread (bs ++ tab ∷ []) t s (all_chars-tail not_newline d t h))
    | inr m ↦
        let r = spread [] t s (all_chars-tail not_newline d t h) in
        record {
          characters = blanks_text bs <> String.◌∷◌ d r.characters;
          trailing = r.trailing;
          splits =
              rw
                (
                  <>_assoc (blanks_text bs) (String.◌∷◌ d r.characters) (blanks_text r.trailing),
                  sym r.splits,
                )
                refl;
          series =
              more (NotEmpty-append (blanks_text bs) _ refl)
                (skip-blanks bs _ (ground (arith, n, m)))
                (one_comment_character d _ (all_chars-head not_newline d t h)
                  (ground (arith, n, m)))
                r.series;
        }
  ]
]

pub comment-Reads :
    (t s : String)
    → all_chars not_newline t ≡ true
    → Reads comment_string ("#" <> (t <> "\n")) nil s
unfolding comment_string
comment-Reads t s h =
    let r = spread [] t s h in
    rw (r.splits, <>_assoc r.characters (blanks_text r.trailing) "\n")
      (then_-Reads_together whitespace never _ (lit-Reads "#" _) (
        Series-then (skip-blanks r.trailing _ refl) (skip-blanks [] _ refl) (newline-Fails s)
          (one_newline s) r.series))
