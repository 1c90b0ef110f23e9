-- ===== src/Actions/Manifest/Grammar/Properties.antt =====
-- Properties as the grammar reads them, and what may stand behind one.
use ips.Base.{String, true, ◌≡◌, refl, [], ◌∷◌, arith}
use ips.Base.Text.{◌<>◌}
use ips.Base.Pest.{Pairs, nil}
use ips.Base.Pest.Grammar.{char_if}
use ips.Base.Pest.Grammar.Laws.{Reads, lit-Reads, atomic-Reads, rule-Reads}
use ips.Base.Pest.Grammar.Skipping.{then_-Reads}
use ips.Base.Pest.Grammar.Characters.{all_chars}
use ips.Actions.Manifest.{Rule}
use ips.Actions.Manifest.Tokens.{property_pairs}
use ips.Actions.Manifest.Grammar.{whitespace, comment, property_value, property}
use ips.Actions.Manifest.Grammar.Written.{
  Value, quoted, bare, value_text, WrittenProperty, property_text, raw_property,
}
use ips.Actions.Manifest.Grammar.Valid.{solid, is_plain, valid_value, valid_property}
use ips.Actions.Manifest.Grammar.Gaps.{skip-gap}
use ips.Actions.Manifest.Grammar.Words.{Ends, gap-NoKey, key-Reads, value-Reads}

pub value-solid :
    (v : Value) (s : String) → valid_value is_plain v ≡ true → solid (value_text v <> s) ≡ true
unfolding valid_value all_chars
value-solid (quoted t) s h = refl
value-solid (bare String.[]) s h = cc
value-solid (bare (String.◌∷◌ d t)) s h = ground arith

abbrev pub one_property : WrittenProperty → Pairs Rule
one_property p = property_pairs (raw_property p ∷ []) nil

pub property-Reads :
    (p : WrittenProperty) (s : String)
    → valid_property p ≡ true
    → Ends s
    → Reads property (property_text p) (one_property p) s
unfolding valid_property property property_value char_if
property-Reads p s h e = rule-Reads Rule.property (
    then_-Reads whitespace comment
      (key-Reads p.key _ (ground arith) (gap-NoKey p.before _ (record { fails = refl })))
      (skip-gap p.before _ (ground arith) refl)
      (then_-Reads whitespace comment (lit-Reads "=" _)
        (skip-gap p.behind _ (ground arith) (value-solid p.value s (ground arith)))
        (atomic-Reads Rule.property_value (value-Reads p.value s (ground arith) e))))
