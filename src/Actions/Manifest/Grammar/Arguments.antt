-- ===== src/Actions/Manifest/Grammar/Arguments.antt =====
-- The properties of a line or a transform, one behind the other.
use ips.Base.{String, true, ◌≡◌, refl, List, [], ◌∷◌, map, arith}
use ips.Base.Text.{◌<>◌}
use ips.Base.Text.Laws.{<>_assoc}
use ips.Base.Pest.{Pairs, nil}
use ips.Base.Pest.Grammar.{append, skip}
use ips.Base.Pest.Grammar.Laws.{Reads}
use ips.Base.Pest.Grammar.Series.{Series, stop, more}
use ips.Actions.Manifest.{Rule}
use ips.Actions.Manifest.Tokens.{property_pairs}
use ips.Actions.Manifest.Grammar.{whitespace, comment, property}
use ips.Actions.Manifest.Grammar.Written.{
  spaced, WrittenProperty, property_text, property_gap, properties_text, raw_property,
}
use ips.Actions.Manifest.Grammar.Valid.{valid_property, valid_properties}
use ips.Actions.Manifest.Grammar.Gaps.{skip-gap}
use ips.Actions.Manifest.Grammar.Words.{key-solid}
use ips.Actions.Manifest.Grammar.Properties.{property-Reads}
use ips.Actions.Manifest.Grammar.Behind.{Follows, spaced-NotEmpty, properties-Follows}

pub append-property_pairs :
    (ps : List WrittenProperty) (qs : Pairs Rule)
    → append (property_pairs (map raw_property ps) nil) qs ≡ property_pairs (map raw_property ps) qs
append-property_pairs [] qs = refl
append-property_pairs (p ∷ ps) qs = cc (append-property_pairs ps qs)

pub gap-skip :
    (p : WrittenProperty) (s : String)
    → valid_property p ≡ true
    → Reads (skip whitespace comment) (property_gap p) nil (property_text p <> s)
unfolding valid_property
gap-skip p s v =
    skip-gap (spaced p.space p.gap) _ (ground arith)
      (rw (<>_assoc p.key _ s) (key-solid p.key _ (ground arith)))

pub properties-Series :
    (s : String)
    → Follows s
    → (ps : List WrittenProperty) → valid_properties ps ≡ true
    → Series whitespace comment property s
        (properties_text ps)
        (property_pairs (map raw_property ps) nil)
unfolding valid_properties
properties-Series s h [] v = stop
properties-Series s h (p ∷ ps) v =
    more (spaced-NotEmpty p.space p.gap _) (gap-skip p _ (ground arith))
      (property-Reads p _ (ground arith) (properties-Follows ps s h).ends)
      (properties-Series s h ps (ground arith))
