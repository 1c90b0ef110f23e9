-- ===== src/Actions/Manifest/Grammar/RoundTrip.antt =====
-- The grammar reads a written manifest as its lines, and the manifest is what they state.
use ips.Base.{String, true, ◌≡◌, refl, sym, List, [], ◌∷◌, arith}
use ips.Base.Outcome.{ok}
use ips.Base.Text.{◌<>◌}
use ips.Base.Text.Laws.{<>_assoc, <>_nil}
use ips.Base.Text.Replace.{strip_prefix}
use ips.Base.Pest.{Pairs, pair, nil, cons}
use ips.Base.Pest.Grammar.{append, lit, seq, alt, newline, atomic, rule, eoi, soi, then_}
use ips.Base.Pest.Grammar.Laws.{
  Reads, Fails, alt-Reads, alt-Reads_second, eoi-Reads, rule-Reads, rule-Fails,
}
use ips.Base.Pest.Grammar.Skipping.{then_-Fails, then_-Reads, then_-Reads_together}
use ips.Base.Pest.Grammar.Series.{NotEmpty, NotEmpty-append, Series, Series-then, stop, more}
use ips.Actions.Manifest.{Rule, new, no_error, parse_string, add_all}
use ips.Actions.Manifest.Tokens.{Item, line_pairs, item_pairs, actions, parse_string-items}
use ips.Actions.Manifest.Grammar.{
  whitespace, comment, action_name, action, transform, item, manifest, parse_with, then, repeated,
}
use ips.Actions.Manifest.Grammar.Written.{
  Gap, gap_text, name_text, WrittenAction, action_text, raw_action, transform_text, transform_pairs,
  Ending, lf, crlf, end_of_input, Body, empty, body_text, Line, lines_text, add_item, raw_items,
  WrittenManifest, print,
}
use ips.Actions.Manifest.Grammar.Valid.{
  solid, valid_comments, nothing_behind, valid_body, valid_lines, valid,
}
use ips.Actions.Manifest.Grammar.Gaps.{one_newline, skip-gap}
use ips.Actions.Manifest.Grammar.Words.{
  name-key, key-solid, key-NotEmpty, key-no_newline, key-no_transform,
}
use ips.Actions.Manifest.Grammar.Behind.{ends_at, blanks-skip}
use ips.Actions.Manifest.Grammar.Lines.{action-Reads}
use ips.Actions.Manifest.Grammar.Transforms.{transform-Reads}

abbrev body_pairs : Body → Pairs Rule
body_pairs empty = nil
body_pairs (Body.action a) =
    let l = raw_action a in
    cons (pair Rule.action (action_text a) (line_pairs l.name l.payload l.props l.at_eoi)) nil
body_pairs (Body.transform t) =
    cons (pair Rule.transform (transform_text t) (transform_pairs t)) nil

abbrev lines_pairs : List Line → Pairs Rule
lines_pairs [] = nil
lines_pairs (l ∷ ls) = append (body_pairs l.body) (lines_pairs ls)

body-solid : (b : Body) (s : String) → solid (body_text b <> s) ≡ true
body-solid empty s = refl
body-solid (Body.action a) s =
    rw (<>_assoc (name_text a.name) _ s) (key-solid (name_text a.name) _ (name-key a.name))
body-solid (Body.transform t) s = refl

body-NotEmpty : (b : Body) → NotEmpty (body_text b)
body-NotEmpty empty = refl
body-NotEmpty (Body.action a) = key-NotEmpty (name_text a.name) _ (name-key a.name)
body-NotEmpty (Body.transform t) = refl

-- A line's last newline is where the valid lines have it.
ends-here :
    (e : Ending) (ls : List Line) (g : Gap)
    → nothing_behind e ls g ≡ true
    → ends_at e (lines_text ls <> (gap_text g <> "")) ≡ true
ends-here lf ls g h = refl
ends-here crlf ls g h = refl
ends-here end_of_input [] g h = rw (<>_nil (gap_text g)) h
ends-here end_of_input (l ∷ ls) g h = cc

action-newline : (a : WrittenAction) (s : String) → Fails {R = Rule} newline (action_text a <> s)
action-newline a s =
    rw (<>_assoc (name_text a.name) _ s) (key-no_newline (name_text a.name) _ (name-key a.name))

action-transform : (a : WrittenAction) (s : String) → Fails transform (action_text a <> s)
unfolding transform
action-transform a s = rw (<>_assoc (name_text a.name) _ s) (
    rule-Fails Rule.transform
      (then_-Fails whitespace comment _ (key-no_transform (name_text a.name) _ (name-key a.name))))

less-newline : (s : String) → Fails {R = Rule} newline ("<" <> s)
unfolding newline alt lit strip_prefix
less-newline s = record { fails = refl }

item-Fails : Fails item ""
unfolding item action transform action_name rule atomic then_ seq alt newline lit strip_prefix
item-Fails = record { fails = refl }

body-Reads :
    (b : Body) (ls : List Line) (g : Gap)
    → valid_body b ls g ≡ true
    → Reads item (body_text b) (body_pairs b) (lines_text ls <> (gap_text g <> ""))
unfolding valid_body item
body-Reads empty ls g v = alt-Reads _ (one_newline _)
body-Reads (Body.action a) ls g v = alt-Reads_second _ (action-newline a _) (
    alt-Reads_second _ (action-transform a _)
      (action-Reads a _ (ground arith) (ends-here a.ending ls g (ground arith))))
body-Reads (Body.transform t) ls g v =
    alt-Reads_second _ (less-newline _) (alt-Reads _ (transform-Reads t _ v))

lines-Series :
    (ls : List Line) (g : Gap)
    → valid_lines ls g ≡ true
    → Series whitespace comment item (gap_text g <> "") (lines_text ls) (lines_pairs ls)
unfolding valid_lines
lines-Series [] g v = stop
lines-Series (l ∷ ls) g v =
    more (NotEmpty-append (gap_text l.gap) _ (body-NotEmpty l.body))
      (skip-gap l.gap _ (ground arith) (body-solid l.body _))
      (body-Reads l.body ls g (ground arith)) (lines-Series ls g (ground arith))

valid-gap : (ls : List Line) (g : Gap) → valid_lines ls g ≡ true → valid_comments g.comments ≡ true
unfolding valid_lines
valid-gap [] g v = v
valid-gap (l ∷ ls) g v = valid-gap ls g (ground arith)

abbrev the_end : Pairs Rule
the_end = cons (pair Rule.eoi "" nil) nil

body-item_pairs :
    (b : Body) (is : List Item) → append (body_pairs b) (item_pairs is) ≡ item_pairs (add_item b is)
body-item_pairs empty is = refl
body-item_pairs (Body.action a) is = refl
body-item_pairs (Body.transform t) is = refl

add_item-pairs :
    (b : Body) (ps : Pairs Rule) (is : List Item)
    → append ps the_end ≡ item_pairs is
    → append (append (body_pairs b) ps) the_end ≡ item_pairs (add_item b is)
add_item-pairs empty ps is h = h
add_item-pairs (Body.action a) ps is h = cc
add_item-pairs (Body.transform t) ps is h = cc

raw_items-pairs : (ls : List Line) → append (lines_pairs ls) the_end ≡ item_pairs (raw_items ls)
raw_items-pairs [] = refl
raw_items-pairs (l ∷ ls) =
    add_item-pairs l.body (lines_pairs ls) (raw_items ls) (raw_items-pairs ls)

abbrev pub written_items : WrittenManifest → List Item
written_items m = raw_items (m.first ∷ m.lines)

first-Reads :
    (l : Line) (ls : List Line) (g : Gap)
    → valid_lines (l ∷ ls) g ≡ true
    → Reads
        (then item (then (repeated item) (eoi Rule.eoi)))
        (body_text l.body <> (lines_text ls <> (gap_text g <> "")))
        (item_pairs (raw_items (l ∷ ls)))
        ""
unfolding valid_lines
first-Reads l ls g v = rw (sym (body-item_pairs l.body (raw_items ls))) (
    then_-Reads_together whitespace comment _
      (rw (<>_nil (lines_text ls <> (gap_text g <> ""))) (body-Reads l.body ls g (ground arith)))
      (rw (raw_items-pairs ls) at (
        Series-then (skip-gap g _ (valid-gap ls g (ground arith)) refl) (blanks-skip [] _ refl)
          item-Fails (eoi-Reads Rule.eoi) (lines-Series ls g (ground arith)))))

print-splits :
    (m : WrittenManifest)
    → print m
      ≡ gap_text m.first.gap
        <> (body_text m.first.body <> (lines_text m.lines <> (gap_text m.gap <> "")))
unfolding print
print-splits m =
    rw
      (
        <>_assoc (gap_text m.first.gap) (body_text m.first.body <> lines_text m.lines)
            (gap_text m.gap),
        <>_assoc (body_text m.first.body) (lines_text m.lines) (gap_text m.gap),
        <>_nil (gap_text m.gap),
      )
      refl

soi-Reads : (s : String) → Reads {R = Rule} soi "" nil s
soi-Reads s = record { reads = refl }

manifest-Reads :
    (m : WrittenManifest)
    → valid m ≡ true
    → Reads manifest
        (print m)
        (cons (pair Rule.manifest (print m) (item_pairs (written_items m))) nil)
        ""
unfolding valid valid_lines manifest
manifest-Reads m v = rw (print-splits m) (
    rule-Reads Rule.manifest (
      then_-Reads whitespace comment (soi-Reads _)
        (skip-gap m.first.gap _ (ground arith)
          (rw (<>_assoc (body_text m.first.body) _ "") (body-solid m.first.body _)))
        (first-Reads m.first m.lines m.gap (ground arith))))

parse_with-print :
    {E : Type 0} (no_match : String → E) (m : WrittenManifest)
    → valid m ≡ true
    → parse_with no_match (print m)
      ≡ ok (cons (pair Rule.manifest (print m) (item_pairs (written_items m))) nil)
unfolding parse_with
parse_with-print no_match m v =
    rw (parse_with, rw (<>_nil (print m)) at (manifest-Reads m v).reads) refl

-- A valid written manifest, with any blanks, continued lines and comments between its parts, is
-- parsed, and the result is that of adding the actions of its lines in their order to the empty
-- manifest.
pub parse_string-print :
    {E : Type 0} (no_match : String → E) (m : WrittenManifest)
    → valid m ≡ true
    → parse_string (parse_with no_match) (print m)
      ≡ no_error (add_all (actions (written_items m)) new)
parse_string-print no_match m v =
    parse_string-items (parse_with no_match) (print m) (print m) (written_items m)
      (parse_with-print no_match m v)
