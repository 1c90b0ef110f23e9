-- ===== src/Actions/Manifest/Grammar/Behind.antt =====
-- What stands behind a value ends it, and is no key: further properties, blanks or a newline.
use ips.Base.{String, Bool, true, ◌≡◌, refl, List, [], ◌∷◌}
use ips.Base.Text.{◌<>◌}
use ips.Base.Text.Laws.{<>_assoc, <>_nil}
use ips.Base.Text.Replace.{strip_prefix}
use ips.Base.Pest.{nil}
use ips.Base.Pest.Grammar.{lit, char_if, seq, not_ahead, alt, at_end, newline, skip, eoi}
use ips.Base.Pest.Grammar.Laws.{Reads, Fails}
use ips.Base.Pest.Grammar.Series.{NotEmpty}
use ips.Actions.Manifest.{Rule}
use ips.Actions.Manifest.Tokens.{end_pairs}
use ips.Actions.Manifest.Grammar.{whitespace, comment, unicode_character}
use ips.Actions.Manifest.Grammar.Written.{
  Blank, space, tab, continued, Gap, spaced, blank_text, blanks_text, comments_text, gap_text,
  WrittenProperty, property_text, property_gap, properties_text, Ending, lf, crlf, end_of_input,
  ending_text, ends_input,
}
use ips.Actions.Manifest.Grammar.Valid.{solid, valid_comments}
use ips.Actions.Manifest.Grammar.Gaps.{skip-gap}
use ips.Actions.Manifest.Grammar.Words.{NoKey, Ends}

-- The end of the input is where it is said to be.
abbrev pub ends_at : Ending → String → Bool
ends_at end_of_input s = at_end s
ends_at _ s = true

-- A value may end here, and no key starts here.
pub record Follows (s : String) : Type 0 where
  pub ends : Ends s
  pub no_key : NoKey s

blank-Follows : (b : Blank) (s : String) → Follows (blank_text b <> s)
unfolding unicode_character whitespace newline char_if not_ahead seq alt lit strip_prefix
blank-Follows space s = record { ends = record { fails = refl }; no_key = record { fails = refl } }
blank-Follows tab s = record { ends = record { fails = refl }; no_key = record { fails = refl } }
blank-Follows continued s = record {
  ends = record { fails = refl };
  no_key = record { fails = refl };
}

pub spaced-NotEmpty : (b : Blank) (g : Gap) (t : String) → NotEmpty (gap_text (spaced b g) <> t)
spaced-NotEmpty space g t = refl
spaced-NotEmpty tab g t = refl
spaced-NotEmpty continued g t = refl

pub ending-Follows : (e : Ending) (r : String) → ends_at e r ≡ true → Follows (ending_text e <> r)
unfolding unicode_character whitespace newline char_if not_ahead seq alt lit strip_prefix
ending-Follows lf r h = record { ends = record { fails = refl }; no_key = record { fails = refl } }
ending-Follows crlf r h = record {
  ends = record { fails = refl };
  no_key = record { fails = refl };
}
ending-Follows end_of_input String.[] h = record {
  ends = record { fails = refl };
  no_key = record { fails = refl };
}
ending-Follows end_of_input (String.◌∷◌ d r) h = cc

pub ending-solid :
    (e : Ending) (r : String) → ends_at e r ≡ true → solid (ending_text e <> r) ≡ true
ending-solid lf r h = refl
ending-solid crlf r h = refl
ending-solid end_of_input String.[] h = refl
ending-solid end_of_input (String.◌∷◌ d r) h = cc

pub ending-Reads :
    (e : Ending) (r : String)
    → ends_at e r ≡ true
    → Reads (alt newline (eoi Rule.eoi)) (ending_text e) (end_pairs (ends_input e)) r
unfolding newline alt lit strip_prefix eoi
ending-Reads lf r h = record { reads = refl }
ending-Reads crlf r h = record { reads = refl }
ending-Reads end_of_input String.[] h = record { reads = refl }
ending-Reads end_of_input (String.◌∷◌ d r) h = cc

-- Blanks and the ending.
pub blanks-Follows :
    (bs : List Blank) (e : Ending) (r : String)
    → ends_at e r ≡ true
    → Follows (blanks_text bs <> (ending_text e <> r))
blanks-Follows [] e r h = ending-Follows e r h
blanks-Follows (b ∷ bs) e r h =
    rw (<>_assoc (blank_text b) (blanks_text bs) (ending_text e <> r)) (blank-Follows b _)

pub spaced-Follows : (b : Blank) (g : Gap) (s : String) → Follows (gap_text (spaced b g) <> s)
spaced-Follows b g s =
    rw
      (
        <>_assoc (blanks_text (b ∷ g.blanks)) (comments_text g.comments) _,
        <>_assoc (blank_text b) (blanks_text g.blanks) _,
      )
      (blank-Follows b _)

pub properties-Follows :
    (ps : List WrittenProperty) (s : String) → Follows s → Follows (properties_text ps <> s)
properties-Follows [] s h = h
properties-Follows (p ∷ ps) s h =
    rw (<>_assoc (property_gap p) (property_text p <> properties_text ps) s)
      (spaced-Follows p.space p.gap _)

pub behind-Follows :
    (ps : List WrittenProperty) (bs : List Blank) (e : Ending) (r : String)
    → ends_at e r ≡ true
    → Follows (properties_text ps <> (blanks_text bs <> (ending_text e <> r)))
behind-Follows ps bs e r h = properties-Follows ps _ (blanks-Follows bs e r h)

pub blanks-skip :
    (bs : List Blank) (s : String)
    → solid s ≡ true
    → Reads (skip whitespace comment) (blanks_text bs) nil s
unfolding valid_comments
blanks-skip bs s h =
    rw (<>_nil (blanks_text bs)) at (skip-gap (record { blanks = bs; comments = [] }) s refl h)

pub ending-no_equals :
    (e : Ending) (r : String) → ends_at e r ≡ true → Fails {R = Rule} (lit "=") (ending_text e <> r)
unfolding lit strip_prefix
ending-no_equals lf r h = record { fails = refl }
ending-no_equals crlf r h = record { fails = refl }
ending-no_equals end_of_input String.[] h = record { fails = refl }
ending-no_equals end_of_input (String.◌∷◌ d r) h = cc
