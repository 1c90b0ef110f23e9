-- ===== src/Actions/Manifest/Tokens.antt =====
-- The walk over the pairs of a well-formed manifest gives the actions that its lines state.
use ips.Base.{
  String, Bool, true, false, ◌≡◌, refl, Option, none, some, List, [], ◌∷◌, ◌++◌, map, arith,
  append_assoc, append-nil, ◌∙◌,
}
use ips.Base.Outcome.{Outcome, ok, >>=-cong, >>=-ok}
use ips.Base.Pest.{Pairs, pair, nil, cons}
use ips.Base.Text.{strip_quotes}
use ips.Actions.Action.{Property, Action, default, get_action_kind}
use ips.Actions.Manifest.{
  Manifest, new, Rule, read_property, read_action, read_manifest, read_pairs, no_error,
  parse_string, add_action, add_all,
}

-- A property as manifest.pest reads it, with the text of the whole.
pub record RawProperty : Type 0 where
  pub text : String
  pub key : String
  pub value : String

-- One line of a manifest: its text, the name, a payload or none, and properties. The last line of a
-- manifest may end at the end of the file.
pub record ActionLine : Type 0 where
  pub text : String
  pub name : String
  pub payload : Option String
  pub props : List RawProperty
  pub at_eoi : Bool

-- A transform has inner pairs that the walk does not look at.
pub data Item : Type 0 where
  line : ActionLine → Item
  transform : String → Pairs Rule → Item

-- The pairs of the crate `pest` for these.
abbrev pub property_pairs : List RawProperty → Pairs Rule → Pairs Rule
property_pairs [] rest = rest
property_pairs (p ∷ ps) rest =
    cons
      (pair Rule.property p.text (
        cons (pair Rule.property_name p.key nil) (cons (pair Rule.property_value p.value nil) nil)))
      (property_pairs ps rest)

abbrev pub payload_pairs : Option String → Pairs Rule → Pairs Rule
payload_pairs none rest = rest
payload_pairs (some text) rest = cons (pair Rule.payload text nil) rest

abbrev pub end_pairs : Bool → Pairs Rule
end_pairs true = cons (pair Rule.eoi "" nil) nil
end_pairs false = nil

abbrev pub line_pairs : String → Option String → List RawProperty → Bool → Pairs Rule
line_pairs name payload props at_eoi =
    cons (pair Rule.action_name name nil)
      (payload_pairs payload (property_pairs props (end_pairs at_eoi)))

abbrev pub item_pairs : List Item → Pairs Rule
item_pairs [] = cons (pair Rule.eoi "" nil) nil
item_pairs (line l ∷ is) =
    cons (pair Rule.action l.text (line_pairs l.name l.payload l.props l.at_eoi)) (item_pairs is)
item_pairs (transform text inner ∷ is) = cons (pair Rule.transform text inner) (item_pairs is)

-- The action that a line states.
abbrev stated_property : RawProperty → Property
stated_property p = record { key = p.key; value = strip_quotes p.value }

abbrev text_of : Option String → String
text_of none = ""
text_of (some text) = text

abbrev stated_action : String → Option String → List RawProperty → Action
stated_action name payload props = record default {
  kind = get_action_kind name;
  payload_string = text_of payload;
  properties = map stated_property props;
}

abbrev pub stated : ActionLine → Action
stated l = stated_action l.name l.payload l.props

-- The transforms are passed over.
abbrev pub actions : List Item → List Action
actions [] = []
actions (line l ∷ is) = stated l ∷ actions is
actions (transform text inner ∷ is) = actions is

read-properties :
    (ps : List RawProperty) (act : Action) (b : Bool)
    → read_action act (property_pairs ps (end_pairs b))
      ≡ ok (record act { properties = act.properties ++ map stated_property ps })
unfolding read_action read_property
read-properties [] act true = ground (arith, append-nil act.properties)
read-properties [] act false = ground (arith, append-nil act.properties)
read-properties (p ∷ ps) act b =
    read-properties ps (record act { properties = act.properties ++ stated_property p ∷ [] }) b
    ∙ rw (append_assoc act.properties (stated_property p ∷ []) (map stated_property ps))

read_action-line :
    (n : String) (o : Option String) (ps : List RawProperty) (b : Bool)
    → read_action default (line_pairs n o ps b) ≡ ok (stated_action n o ps)
unfolding read_action
read_action-line n none ps b = read-properties ps (stated_action n none []) b
read_action-line n (some t) ps b = read-properties ps (stated_action n (some t) []) b

read_manifest-items :
    (is : List Item) (m : Manifest) → read_manifest m (item_pairs is) ≡ add_all (actions is) m
unfolding read_manifest add_all
read_manifest-items [] m = refl
read_manifest-items (line l ∷ is) m = rw (read_action-line l.name l.payload l.props l.at_eoi) (
    >>=-cong (add_action (stated l) m) (λ m'. read_manifest m' (item_pairs is))
      (λ m'. add_all (actions is) m') (λ m'. read_manifest-items is m'))
read_manifest-items (transform text inner ∷ is) m = read_manifest-items is m

module _ {E : Type 0} (parse : String → Outcome E (Pairs Rule)) where
  -- Where the parser finds the lines and transforms `is` in a text, the manifest is what adding the
  -- stated actions in order gives.
  pub parse_string-items :
      (content text : String) (is : List Item)
      → parse content ≡ ok (cons (pair Rule.manifest text (item_pairs is)) nil)
      → parse_string parse content ≡ no_error (add_all (actions is) new)
  unfolding parse_string read_pairs
  parse_string-items content text is h =
      rw (h, read_manifest-items is new, >>=-ok (add_all (actions is) new))
