-- ===== src/Actions/Manifest/Grammar/Gaps.antt =====
-- What the grammar passes over between two parts is a gap, if the next part is solid.
use Prim.Native.Char.{Char, code}
use ips.Base.{String, true, ◌≡◌, refl, List, [], ◌∷◌, arith}
use ips.Base.Text.{◌<>◌}
use ips.Base.Text.Replace.{strip_prefix}
use ips.Base.Pest.{nil}
use ips.Base.Pest.Grammar.{lit, char_if, seq, alt, not_ahead, many, newline, skip}
use ips.Base.Pest.Grammar.Laws.{
  Reads, Fails, Repeats, Repeats-stop, Repeats-step, many-Reads, seq-Reads, seq-Fails, lit-Reads,
}
use ips.Base.Pest.Grammar.Skipping.{skip-Reads}
use ips.Base.Pest.Grammar.Characters.{all_chars, Repeats-chars}
use ips.Actions.Manifest.{Rule}
use ips.Actions.Manifest.Grammar.{whitespace, comment, comment_character}
use ips.Actions.Manifest.Grammar.Written.{
  Blank, space, tab, continued, Comment, Gap, blanks_text, comments_text, gap_text,
}
use ips.Actions.Manifest.Grammar.Valid.{solid, not_newline, valid_comments, valid_gap}

whitespace-Fails : (s : String) → solid s ≡ true → Fails whitespace s
unfolding whitespace alt seq lit strip_prefix
whitespace-Fails String.[] h = record { fails = refl }
whitespace-Fails (String.◌∷◌ d s) h = record { fails = ground arith }

comment-Fails : (s : String) → solid s ≡ true → Fails comment s
unfolding comment seq lit strip_prefix
comment-Fails String.[] h = record { fails = refl }
comment-Fails (String.◌∷◌ d s) h = record { fails = ground arith }

-- One lemma for each blank, whose text starts with a character of its own.
one_space : (r : String) → Reads whitespace " " nil r
unfolding whitespace alt seq lit strip_prefix
one_space r = record { reads = refl }

one_tab : (r : String) → Reads whitespace "\t" nil r
unfolding whitespace alt seq lit strip_prefix
one_tab r = record { reads = refl }

one_continued : (r : String) → Reads whitespace "\\\n" nil r
unfolding whitespace newline alt seq lit strip_prefix
one_continued r = record { reads = refl }

whitespace-Repeats :
    (bs : List Blank) (s : String) → Fails whitespace s → Repeats whitespace (blanks_text bs) nil s
whitespace-Repeats [] s h = Repeats-stop h
whitespace-Repeats (space ∷ bs) s h =
    Repeats-step (one_space (blanks_text bs <> s)) (whitespace-Repeats bs s h)
whitespace-Repeats (tab ∷ bs) s h =
    Repeats-step (one_tab (blanks_text bs <> s)) (whitespace-Repeats bs s h)
whitespace-Repeats (continued ∷ bs) s h =
    Repeats-step (one_continued (blanks_text bs <> s)) (whitespace-Repeats bs s h)

one_comment_character :
    (d : Char) (s : String)
    → not_newline (code d) ≡ true
    → Reads comment_character (String.◌∷◌ d "") nil s
unfolding comment_character newline not_ahead char_if seq alt lit strip_prefix
one_comment_character d s h = record { reads = ground arith }

pub one_newline : (s : String) → Reads {R = Rule} newline "\n" nil s
unfolding newline alt lit strip_prefix
one_newline s = record { reads = refl }

comment_character-Fails : (s : String) → Fails comment_character ("\n" <> s)
unfolding comment_character newline not_ahead seq alt lit strip_prefix
comment_character-Fails s = record { fails = refl }

comment-Reads :
    (t s : String) → all_chars not_newline t ≡ true → Reads comment ("#" <> (t <> "\n")) nil s
unfolding comment
comment-Reads t s h = seq-Reads _ (lit-Reads "#" _) (
    seq-Reads _
      (many-Reads (Repeats-chars not_newline one_comment_character t h (comment_character-Fails s)))
      (one_newline s))

-- No blank stands before a comment or behind the last one.
comments-whitespace :
    (cs : List Comment) (s : String) → solid s ≡ true → Fails whitespace (comments_text cs <> s)
unfolding whitespace alt seq lit strip_prefix
comments-whitespace [] s h = whitespace-Fails s h
comments-whitespace (c ∷ cs) s h = record { fails = refl }

comments-Repeats :
    (cs : List Comment) (s : String)
    → valid_comments cs ≡ true
    → solid s ≡ true
    → Repeats (seq comment (many whitespace)) (comments_text cs) nil s
unfolding valid_comments
comments-Repeats [] s v h = Repeats-stop (seq-Fails _ (comment-Fails s h))
comments-Repeats (c ∷ cs) s v h =
    Repeats-step
      (seq-Reads _ (comment-Reads c.text _ (ground arith))
        (many-Reads (whitespace-Repeats c.blanks _ (comments-whitespace cs s h))))
      (comments-Repeats cs s (ground arith) h)

-- A gap before a solid text is passed over as a whole.
pub skip-gap :
    (g : Gap) (s : String)
    → valid_gap g ≡ true
    → solid s ≡ true
    → Reads (skip whitespace comment) (gap_text g) nil s
skip-gap g s v h =
    skip-Reads whitespace comment
      (many-Reads (whitespace-Repeats g.blanks _ (comments-whitespace g.comments s h)))
      (many-Reads (comments-Repeats g.comments s v h))
