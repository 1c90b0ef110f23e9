-- ===== src/Actions/Manifest/Grammar/Transforms.antt =====
-- A transform as the grammar reads it.
use Prim.Native.Char.{Char, code}
use ips.Base.{String, true, not, ◌≡◌, refl, List, [], ◌∷◌, map, is_empty, arith}
use ips.Base.Text.{◌<>◌}
use ips.Base.Text.Laws.{<>_assoc}
use ips.Base.Text.Replace.{strip_prefix}
use ips.Base.Pest.{pair, nil, cons}
use ips.Base.Pest.Grammar.{
  lit, char_if, not_ahead, seq, alt, star, many, skip, newline, atomic, rule, then_,
}
use ips.Base.Pest.Grammar.Laws.{
  Reads, Fails, many-Reads, seq-Reads, lit-Reads, atomic-Reads, rule-Reads,
}
use ips.Base.Pest.Grammar.Skipping.{then_-Reads, then_-Reads_together}
use ips.Base.Pest.Grammar.Characters.{all_chars, Repeats-chars}
use ips.Base.Pest.Grammar.Series.{Series-then}
use ips.Actions.Manifest.{Rule}
use ips.Actions.Manifest.Tokens.{property_pairs}
use ips.Actions.Manifest.Grammar.{
  whitespace, comment, property, property_name, transform_character, transform_action, transform,
  then, repeated,
}
use ips.Actions.Manifest.Grammar.Written.{
  spaced, gap_text, name_text, WrittenProperty, property_text, property_gap, properties_text,
  raw_property, WrittenTransform, transform_text, transform_pairs,
}
use ips.Actions.Manifest.Grammar.Valid.{solid, not_greater, valid_properties, valid_transform}
use ips.Actions.Manifest.Grammar.Gaps.{skip-gap}
use ips.Actions.Manifest.Grammar.Words.{name-Reads, name-key, key-solid}
use ips.Actions.Manifest.Grammar.Properties.{property-Reads}
use ips.Actions.Manifest.Grammar.Behind.{spaced-Follows, properties-Follows, blanks-skip}
use ips.Actions.Manifest.Grammar.Arguments.{append-property_pairs, gap-skip, properties-Series}

one_transform_character :
    (d : Char) (s : String)
    → not_greater (code d) ≡ true
    → Reads transform_character (String.◌∷◌ d "") nil s
unfolding transform_character not_ahead char_if seq lit strip_prefix
one_transform_character d s h = record { reads = ground arith }

transform_character-Fails : (s : String) → Fails transform_character (">" <> s)
unfolding transform_character not_ahead seq lit strip_prefix
transform_character-Fails s = record { fails = refl }

transform_action-Reads :
    (t s : String)
    → all_chars not_greater t ≡ true
    → Reads transform_action t (cons (pair Rule.other t nil) nil) (">" <> s)
unfolding transform_action
transform_action-Reads t s h = atomic-Reads Rule.other (
    many-Reads
      (Repeats-chars not_greater one_transform_character t h (transform_character-Fails s)))

-- The first character of an arrow could be a key, but no `=` follows it.
arrow-Fails : (s : String) → Fails property ("->" <> s)
unfolding property property_name whitespace comment rule atomic then_ seq skip many star alt char_if
    lit newline strip_prefix
arrow-Fails s = record { fails = refl }

text-solid : (t s : String) → solid t ≡ true → solid ((t <> ">") <> s) ≡ true
text-solid String.[] s h = refl
text-solid (String.◌∷◌ d t) s h = h

-- What is done, behind the properties.
abbrev done_text : WrittenTransform → String
done_text t = "->" <> (gap_text t.behind <> (t.text <> ">"))

done-Reads :
    (t : WrittenTransform) (r : String)
    → valid_transform t ≡ true
    → Reads
        (then (lit "->") (then transform_action (lit ">")))
        (done_text t)
        (cons (pair Rule.other t.text nil) nil)
        r
unfolding valid_transform
done-Reads t r v =
    then_-Reads whitespace comment (lit-Reads "->" _)
      (skip-gap t.behind _ (ground arith) (text-solid t.text r (ground arith)))
      (then_-Reads whitespace comment (transform_action-Reads t.text r (ground arith))
        (blanks-skip [] _ refl) (lit-Reads ">" r))

-- What stands behind the name, its first property read apart.
properties-Reads :
    (t : WrittenTransform) (ps : List WrittenProperty) (r : String)
    → valid_transform t ≡ true
    → not (is_empty ps) ≡ true
    → valid_properties ps ≡ true
    → Reads
        (seq (skip whitespace comment) (
          then property
            (then (repeated property) (then (lit "->") (then transform_action (lit ">"))))))
        (properties_text ps <> (gap_text (spaced t.space t.before) <> done_text t))
        (property_pairs (map raw_property ps) (cons (pair Rule.other t.text nil) nil))
        r
unfolding valid_transform valid_properties
properties-Reads t [] r v n w = cc
properties-Reads t (p ∷ ps) r v n w =
    let rest_text = gap_text (spaced t.space t.before) <> done_text t in
    rw
      (
        <>_assoc (property_gap p) (property_text p <> properties_text ps) rest_text,
        <>_assoc (property_text p) (properties_text ps) rest_text,
      )
      (seq-Reads _ {ps = nil}
        (rw (<>_assoc (property_text p) (properties_text ps <> rest_text) r)
          (gap-skip p _ (ground arith)))
        (then_-Reads_together whitespace comment _
          (property-Reads p _ (ground arith) (
            rw
              (
                <>_assoc (properties_text ps) rest_text r,
                <>_assoc (gap_text (spaced t.space t.before)) (done_text t) r,
              )
              (properties-Follows ps _ (spaced-Follows t.space t.before _)).ends))
          (rw (append-property_pairs ps (cons (pair Rule.other t.text nil) nil)) at (
            Series-then (skip-gap (spaced t.space t.before) _ (ground arith) refl)
              (blanks-skip [] _ refl) (arrow-Fails _) (done-Reads t r v)
              (properties-Series _ (spaced-Follows t.space t.before _) ps (ground arith))))))

pub transform-Reads :
    (t : WrittenTransform) (r : String)
    → valid_transform t ≡ true
    → Reads transform
        (transform_text t)
        (cons (pair Rule.transform (transform_text t) (transform_pairs t)) nil)
        r
unfolding valid_transform transform
transform-Reads t r v = rule-Reads Rule.transform (
    then_-Reads whitespace comment (lit-Reads "<transform " _)
      (skip-gap t.gap _ (ground arith)
        (rw (<>_assoc (name_text t.name) _ r) (key-solid (name_text t.name) _ (name-key t.name))))
      (then_-Reads_together whitespace comment _ (name-Reads t.name _)
        (properties-Reads t t.props r v (ground arith) (ground arith))))
