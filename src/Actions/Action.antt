-- ===== src/Actions/Action.antt =====
-- The parsed form that all actions share, and the text helpers at the end of the source.
pub mod Split
pub mod Values
use ips.Base.{
  String, Bool, true, false, Option, none, some, List, [], ◌∷◌, ◌++◌, ◌==◌, ◌||◌, suc, ◌+◌,
  if◌then◌else◌,
}
use ips.Base.Outcome.{Outcome, ok, err, panic, ◌>>=◌}
use ips.Base.Text.{
  ◌<>◌, is_empty_str, contains_char, find_char, split_off, split, strip_quotes, starts_with, trim,
}
use ips.Base.Text.Case.{to_lowercase}
use ips.Base.Table.{Table}
use ips.Payload
use ips.Payload.{Payload}

pub record Property : Type 0 where
  pub key : String
  pub value : String

pub record Facet : Type 0 where
  pub name : String
  pub value : String

pub data ActionKind : Type 0 where
  attr dir file dependency user group driver license link legacy : ActionKind
  unknown : (action : String) → ActionKind
  transform : ActionKind

pub record Action : Type 0 where
  pub kind : ActionKind
  pub payload : Payload
  pub payload_string : String
  pub properties : List Property
  pub facets : Table Facet

-- `Action::new`.
abbrev pub new : ActionKind → Action
new kind = record {
  kind = kind;
  payload = Payload.default;
  payload_string = "";
  properties = [];
  facets = [];
}

-- `Action::default()`, with the default kind.
abbrev pub default : Action
default = new (unknown "")

-- `get_action_kind`.
unfoldable pub get_action_kind : String → ActionKind
get_action_kind act =
    if act == "set"
    then attr
    else if act == "depend"
    then dependency
    else if act == "dir"
    then dir
    else if act == "file"
    then file
    else if act == "license"
    then license
    else if act == "hardlink"
    then link
    else if act == "link"
    then link
    else if act == "driver"
    then driver
    else if act == "group"
    then group
    else if act == "user"
    then user
    else if act == "legacy"
    then legacy
    else if act == "<transform"
    then transform
    else unknown act

unfoldable pub is_facet : String → Bool
is_facet s = starts_with s "facet."

-- `get_facet_key`.
unfoldable pub get_facet_key : String → String
get_facet_key s = elim (find_char b'.' s) [ none ↦ s | some i ↦ split_off (suc i) s ]

-- `v[0]` and `v[1]`, which panic where there is no such part.
abbrev first_two : List String → Outcome ⊥ (String × String)
first_two (k ∷ v ∷ rest) = ok (k, strip_quotes v)
first_two _ = panic

-- `split_property`.
unfoldable pub split_property : String → Outcome ⊥ (String × String)
split_property s = if contains_char b'=' s then first_two (split b'=' s) else ok (s, "")

pub data ActionError : Type 0 where
  not_boolean_value : String → ActionError

-- `string_to_bool`.
unfoldable pub string_to_bool : String → Outcome ActionError Bool
string_to_bool orig =
    let word = to_lowercase (trim orig) in
    if word == "true"
    then ok true
    else if word == "false"
    then ok false
    else if word == "t"
    then ok true
    else if word == "f"
    then ok false
    else err (not_boolean_value orig)

-- What `match string_to_bool(..) { Ok(b) => b, _ => false }` gives.
abbrev pub or_false {ℓ} : {E : Type ℓ} → Outcome E Bool → Bool
or_false (ok b) = b
or_false _ = false

-- The start of most conversions: the payload text, where there is one, is one more property.
unfoldable pub properties_with_payload : Action → Outcome ⊥ (List Property)
properties_with_payload act = if is_empty_str act.payload_string then ok act.properties else do
  p_str ← split_property act.payload_string
  ok (act.properties ++ record { key = p_str.0; value = p_str.1 } ∷ [])
