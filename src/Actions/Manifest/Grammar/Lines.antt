-- ===== src/Actions/Manifest/Grammar/Lines.antt =====
-- An action as the grammar reads it: its name, a payload or none, properties and the end of the line.
use ips.Base.{String, true, ◌≡◌, refl, none, some, Option, List, [], ◌∷◌, map, arith}
use ips.Base.Text.{◌<>◌}
use ips.Base.Text.Laws.{<>_assoc}
use ips.Base.Pest.{pair, nil, cons}
use ips.Base.Pest.Grammar.{seq, alt, newline, skip, eoi}
use ips.Base.Pest.Grammar.Laws.{Reads, alt-Reads, alt-Reads_second, atomic-Reads, rule-Reads}
use ips.Base.Pest.Grammar.Skipping.{then_-Reads, then_-Reads_together}
use ips.Base.Pest.Grammar.Series.{Series-then}
use ips.Actions.Manifest.{Rule}
use ips.Actions.Manifest.Tokens.{property_pairs, end_pairs, line_pairs}
use ips.Actions.Manifest.Grammar.{
  whitespace, comment, action_name, payload, property, action, then, repeated,
}
use ips.Actions.Manifest.Grammar.Written.{
  Blank, spaced, blanks_text, gap_text, Name, name_text, Value, value_text, WrittenProperty,
  WrittenPayload, property_text, property_gap, properties_text, payload_text, raw_property,
  raw_payload, Ending, ending_text, ends_input, WrittenAction, action_text,
}
use ips.Actions.Manifest.Grammar.Valid.{
  is_payload_char, valid_value, valid_property, valid_properties, valid_argument, valid_action,
}
use ips.Actions.Manifest.Grammar.Gaps.{skip-gap}
use ips.Actions.Manifest.Grammar.Words.{key-no_equals, name-Reads, value-Reads, payload-valid}
use ips.Actions.Manifest.Grammar.Payloads.{NoEquals, NoKey-property, payload-Fails}
use ips.Actions.Manifest.Grammar.Properties.{property-Reads, value-solid}
use ips.Actions.Manifest.Grammar.Arguments.{append-property_pairs, gap-skip, properties-Series}
use ips.Actions.Manifest.Grammar.Behind.{
  blanks-Follows, ends_at, ending-Follows, ending-solid, ending-Reads, ending-no_equals,
  behind-Follows, blanks-skip,
}

module _ (bs : List Blank) (e : Ending) (r : String) (h : ends_at e r ≡ true) where
  abbrev line_end : List WrittenProperty → String
  line_end ps = properties_text ps <> (blanks_text bs <> ending_text e)

  -- What stands behind the first argument.
  arguments-Reads :
      (ps : List WrittenProperty)
      → valid_properties ps ≡ true
      → Reads
          (seq (skip whitespace comment) (then (repeated property) (alt newline (eoi Rule.eoi))))
          (line_end ps)
          (property_pairs (map raw_property ps) (end_pairs (ends_input e)))
          r
  arguments-Reads ps v = rw (append-property_pairs ps (end_pairs (ends_input e))) at (
      Series-then (blanks-skip bs _ (ending-solid e r h)) (blanks-skip [] _ (ending-solid e r h))
        (NoKey-property _ (ending-Follows e r h).no_key) (ending-Reads e r h)
        (properties-Series _ (blanks-Follows bs e r h) ps v))

  behind-NoEquals :
      (ps : List WrittenProperty)
      → valid_properties ps ≡ true
      → NoEquals (properties_text ps <> (blanks_text bs <> (ending_text e <> r)))
  unfolding valid_properties valid_property
  behind-NoEquals [] v = record {
    gap = blanks_text bs;
    behind = ending_text e <> r;
    splits = refl;
    skips = blanks-skip bs _ (ending-solid e r h);
    fails = ending-no_equals e r h;
  }
  behind-NoEquals (p ∷ ps) v = record {
    gap = property_gap p;
    behind = property_text p <> (properties_text ps <> (blanks_text bs <> (ending_text e <> r)));
    splits =
        rw
          (
            <>_assoc (property_gap p) (property_text p <> properties_text ps) _,
            <>_assoc (property_text p) (properties_text ps) _,
          )
          refl;
    skips = gap-skip p _ (ground arith);
    fails =
        rw (<>_assoc p.key _ (properties_text ps <> (blanks_text bs <> (ending_text e <> r))))
          (key-no_equals p.key _ (ground arith));
  }

  line_end-splits :
      (ps : List WrittenProperty)
      → line_end ps <> r ≡ properties_text ps <> (blanks_text bs <> (ending_text e <> r))
  line_end-splits ps =
      rw
        (
          <>_assoc (properties_text ps) (blanks_text bs <> ending_text e) r,
          <>_assoc (blanks_text bs) (ending_text e) r,
        )
        refl

  payload-Reads :
      (v : Value) (ps : List WrittenProperty)
      → valid_value is_payload_char v ≡ true
      → valid_properties ps ≡ true
      → Reads
          (alt property payload)
          (value_text v)
          (cons (pair Rule.payload (value_text v) nil) nil)
          (line_end ps <> r)
  unfolding payload
  payload-Reads v ps w k = rw (line_end-splits ps) (
      alt-Reads_second _
        (payload-Fails v _ w (behind-Follows ps bs e r h).no_key (behind-NoEquals ps k))
        (atomic-Reads Rule.payload
          (value-Reads v _ (payload-valid v w) (behind-Follows ps bs e r h).ends)))

  parts-Reads :
      (n : Name) (o : Option WrittenPayload) (ps : List WrittenProperty)
      → valid_argument o ps ≡ true
      → valid_properties ps ≡ true
      → Reads
          (then action_name
            (then (alt property payload) (then (repeated property) (alt newline (eoi Rule.eoi)))))
          (name_text n <> (payload_text o <> line_end ps))
          (line_pairs (name_text n) (raw_payload o) (map raw_property ps) (ends_input e))
          r
  unfolding valid_argument valid_properties
  parts-Reads n none [] v w = cc
  parts-Reads n none (p ∷ ps) v w =
      rw
        (
          <>_assoc (property_gap p) (property_text p <> properties_text ps) _,
          <>_assoc (property_text p) (properties_text ps) _,
        )
        (then_-Reads whitespace comment (name-Reads n _)
          (rw (<>_assoc (property_text p) (line_end ps) r) (gap-skip p _ (ground arith)))
          (then_-Reads_together whitespace comment _
            (alt-Reads _ (
              property-Reads p _ (ground arith)
                (rw (line_end-splits ps) (behind-Follows ps bs e r h).ends)))
            (arguments-Reads ps (ground arith))))
  parts-Reads n (some q) ps v w =
      rw (<>_assoc (gap_text (spaced q.space q.gap)) (value_text q.value) _) (
        then_-Reads whitespace comment (name-Reads n _)
          (skip-gap (spaced q.space q.gap) _ (ground arith) (
            rw (<>_assoc (value_text q.value) (line_end ps) r)
              (value-solid q.value _ (payload-valid q.value (ground arith)))))
          (then_-Reads_together whitespace comment _ (payload-Reads q.value ps (ground arith) w)
            (arguments-Reads ps w)))

pub action-Reads :
    (a : WrittenAction) (r : String)
    → valid_action a ≡ true
    → ends_at a.ending r ≡ true
    → Reads action
        (action_text a)
        (cons
          (pair Rule.action (action_text a) (
            line_pairs
              (name_text a.name)
              (raw_payload a.payload)
              (map raw_property a.props)
              (ends_input a.ending)))
          nil)
        r
unfolding action valid_action
action-Reads a r v h =
    rule-Reads Rule.action
      (parts-Reads a.blanks a.ending r h a.name a.payload a.props (ground arith) (ground arith))
