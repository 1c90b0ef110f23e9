-- ===== src/Actions/Manifest/Grammar/Written.antt =====
-- Manifests as a file has them: names, keys and values, with all that may stand between them.
use ips.Base.{String, Bool, true, false, Option, none, some, List, [], ◌∷◌, map}
use ips.Base.Text.{◌<>◌}
use ips.Base.Pest.{Pairs, pair, nil, cons}
use ips.Actions.Manifest.{Rule}
use ips.Actions.Manifest.Tokens.{RawProperty, ActionLine, Item, property_pairs}

-- A space, a tab, or a backslash at the end of a line.
pub data Blank : Type 0 where
  space tab continued : Blank

-- A comment up to the end of its line, and the blanks behind it.
pub record Comment : Type 0 where
  pub text : String
  pub blanks : List Blank

-- What may stand between two parts.
pub record Gap : Type 0 where
  pub blanks : List Blank
  pub comments : List Comment

abbrev pub blank_text : Blank → String
blank_text space = " "
blank_text tab = "\t"
blank_text continued = "\\\n"

abbrev pub blanks_text : List Blank → String
blanks_text [] = ""
blanks_text (b ∷ bs) = blank_text b <> blanks_text bs

abbrev pub comments_text : List Comment → String
comments_text [] = ""
comments_text (c ∷ cs) = ("#" <> (c.text <> "\n") <> blanks_text c.blanks) <> comments_text cs

abbrev pub gap_text : Gap → String
gap_text g = blanks_text g.blanks <> comments_text g.comments

-- A gap that starts with a blank.
abbrev pub spaced : Blank → Gap → Gap
spaced b g = record g { blanks = b ∷ g.blanks }

-- The actions' names.
pub data Name : Type 0 where
  set depend dir file license hardlink link driver group user legacy : Name

abbrev pub name_text : Name → String
name_text set = "set"
name_text depend = "depend"
name_text dir = "dir"
name_text file = "file"
name_text license = "license"
name_text hardlink = "hardlink"
name_text link = "link"
name_text driver = "driver"
name_text group = "group"
name_text user = "user"
name_text legacy = "legacy"

-- A value is in quotes or not.
pub data Value : Type 0 where
  quoted bare : String → Value

abbrev pub value_text : Value → String
value_text (quoted t) = "\"" <> (t <> "\"")
value_text (bare t) = t

pub record WrittenProperty : Type 0 where
  pub space : Blank
  pub gap : Gap
  pub key : String
  pub before : Gap
  pub behind : Gap
  pub value : Value

pub record WrittenPayload : Type 0 where
  pub space : Blank
  pub gap : Gap
  pub value : Value

pub data Ending : Type 0 where
  lf crlf end_of_input : Ending

pub record WrittenAction : Type 0 where
  pub name : Name
  pub payload : Option WrittenPayload
  pub props : List WrittenProperty
  pub blanks : List Blank
  pub ending : Ending

pub record WrittenTransform : Type 0 where
  pub gap : Gap
  pub name : Name
  pub props : List WrittenProperty
  pub space : Blank
  pub before : Gap
  pub behind : Gap
  pub text : String

-- An empty line ends in a newline, with no carriage return. A transform is followed by one.
pub data Body : Type 0 where
  empty : Body
  action : WrittenAction → Body
  transform : WrittenTransform → Body

pub record Line : Type 0 where
  pub gap : Gap
  pub body : Body

-- A manifest has at least one line; empty ones count.
pub record WrittenManifest : Type 0 where
  pub first : Line
  pub lines : List Line
  pub gap : Gap

-- The texts.
abbrev pub property_text : WrittenProperty → String
property_text p = p.key <> (gap_text p.before <> ("=" <> (gap_text p.behind <> value_text p.value)))

abbrev pub property_gap : WrittenProperty → String
property_gap p = gap_text (spaced p.space p.gap)

abbrev pub properties_text : List WrittenProperty → String
properties_text [] = ""
properties_text (p ∷ ps) = property_gap p <> (property_text p <> properties_text ps)

abbrev pub payload_text : Option WrittenPayload → String
payload_text none = ""
payload_text (some p) = gap_text (spaced p.space p.gap) <> value_text p.value

abbrev pub ending_text : Ending → String
ending_text lf = "\n"
ending_text crlf = "\r\n"
ending_text end_of_input = ""

abbrev pub action_text : WrittenAction → String
action_text a =
    name_text a.name
    <> (payload_text a.payload
        <> (properties_text a.props <> (blanks_text a.blanks <> ending_text a.ending)))

abbrev pub transform_text : WrittenTransform → String
transform_text t =
    "<transform "
    <> (gap_text t.gap
        <> (name_text t.name
            <> (properties_text t.props
                <> (gap_text (spaced t.space t.before)
                    <> ("->" <> (gap_text t.behind <> (t.text <> ">")))))))

abbrev pub body_text : Body → String
body_text (transform t) = transform_text t
body_text empty = "\n"
body_text (action a) = action_text a

abbrev pub lines_text : List Line → String
lines_text [] = ""
lines_text (l ∷ ls) = gap_text l.gap <> (body_text l.body <> lines_text ls)

unfoldable pub print : WrittenManifest → String
print m = lines_text (m.first ∷ m.lines) <> gap_text m.gap

-- What the walk over the pairs finds.
abbrev pub raw_property : WrittenProperty → RawProperty
raw_property p = record { text = property_text p; key = p.key; value = value_text p.value }

abbrev pub raw_payload : Option WrittenPayload → Option String
raw_payload none = none
raw_payload (some p) = some (value_text p.value)

abbrev pub ends_input : Ending → Bool
ends_input end_of_input = true
ends_input _ = false

abbrev pub raw_action : WrittenAction → ActionLine
raw_action a = record {
  text = action_text a;
  name = name_text a.name;
  payload = raw_payload a.payload;
  props = map raw_property a.props;
  at_eoi = ends_input a.ending;
}

abbrev pub transform_pairs : WrittenTransform → Pairs Rule
transform_pairs t =
    cons (pair Rule.action_name (name_text t.name) nil)
      (property_pairs (map raw_property t.props) (cons (pair Rule.other t.text nil) nil))

abbrev pub add_item : Body → List Item → List Item
add_item empty is = is
add_item (action a) is = Item.line (raw_action a) ∷ is
add_item (transform t) is = Item.transform (transform_text t) (transform_pairs t) ∷ is

abbrev pub raw_items : List Line → List Item
raw_items [] = []
raw_items (l ∷ ls) = add_item l.body (raw_items ls)
