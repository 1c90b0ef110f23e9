-- ===== src/Tests/Conversions.antt =====
-- Actions and their conversions on concrete inputs.
use ips.Base.{String, ◌≡◌, ◌↔◌, ◌⊎◌, refl, true, false, some, List, [], ◌∷◌}
use ips.Base.Outcome.{ok, panic}
use ips.Base.Text.{contains_char, strip_quotes, starts_with, find_char, split_off, trim}
use ips.Base.Text.Case.{to_lowercase}
use ips.Base.Table.{Table, lookup, insert}
use ips.Digest.{Digest, from_str}
use ips.Actions.Action.{
  Property, Facet, Action, dir, file, new, is_facet, get_facet_key, string_to_bool,
  properties_with_payload, split_property,
}
use ips.Actions.Facet.{add_facet}
use ips.Actions.Facet.Changes.{
  added, removed, changed_all, left_by_all, lookup-changed_all, IsNamed,
}
use ips.Actions.Dir.Named.{dir_changed_all, from_action-IsNamed}
use ips.Actions.Dir
use ips.Actions.Dir.Fields as DirFields
use ips.Actions.Action.Split.{NoEquals, split_property_lem}
use ips.Actions.Attr
use ips.Actions.Attr.Fields as AttrFields
use ips.Actions.Dependency
use ips.Actions.Dependency.Fields as DependencyFields
use ips.Actions.File
use ips.Actions.File.{
  File, Building, from_action, set_properties, set_property, set_file, set_other, is_digest_key,
  start, get_original_path,
}
use ips.Actions.File.Fields.{IsRead, file_from_action, original_path}
use ips.Actions.File.Digests.{
  BadPayload, SomeRejected, digest_values, parse_digests, file_from_action-panic,
}

abbrev property : String → String → Property
property k v = record { key = k; value = v }

abbrev locale : Facet
locale = record { name = "locale"; value = "de" }

abbrev docs : Facet
docs = record { name = "doc"; value = "true" }

abbrev one_facet : Table Facet
one_facet = ("doc", docs) ∷ []

-- dir path=usr group=bin path=opt facet.doc=true name=x value=a value=b type=require
abbrev busy_action : Action
busy_action = record (new dir) {
  payload_string = "owner=root";
  properties =
      property "path" "usr"
      ∷ property "group" "bin"
      ∷ property "path" "opt"
      ∷ property "facet.doc" "true"
      ∷ property "name" "x"
      ∷ property "value" "a"
      ∷ property "value" "b"
      ∷ property "type" "require"
      ∷ [];
}

dir_from_action_example :
    (ps : List Property) × (d : Dir.Dir) × (properties_with_payload busy_action ≡ ok ps)
    × (Dir.from_action busy_action ≡ ok d)
    × DirFields.IsRead ps d
dir_from_action_example = DirFields.dir_from_action busy_action

dep_from_action_example :
    (ps : List Property) × (d : Dependency.Dependency) × (properties_with_payload busy_action
      ≡ ok ps)
    × (Dependency.from_action busy_action ≡ ok d)
    × DependencyFields.IsRead ps d
dep_from_action_example = DependencyFields.dep_from_action busy_action

path-NoEquals : NoEquals "path"
unfolding contains_char
path-NoEquals = refl

usr-NoEquals : NoEquals "\"usr\""
unfolding contains_char
usr-NoEquals = refl

attr_from_action_example :
    (ps : List Property) × (attr : Attr.Attr) × (properties_with_payload busy_action ≡ ok ps)
    × (Attr.from_action busy_action ≡ ok attr)
    × AttrFields.IsRead ps attr
attr_from_action_example = AttrFields.attr_from_action busy_action

split_property_lem_example :
    (split_property "path" ≡ ok ("path", ""))
    × (split_property "path=\"usr\"" ≡ ok ("path", strip_quotes "\"usr\""))
    × (split_property "path=\"usr\"=lib" ≡ ok ("path", strip_quotes "\"usr\""))
split_property_lem_example = split_property_lem "path" "\"usr\"" "lib" path-NoEquals usr-NoEquals

-- file usr/bin/ls path=bin/ls overlay=true chash=abc facet.doc=true
abbrev file_action : Action
file_action = record (new file) {
  payload_string = "usr/bin/ls";
  properties =
      property "path" "bin/ls"
      ∷ property "overlay" "true"
      ∷ property "chash" "abc"
      ∷ property "facet.doc" "true"
      ∷ [];
}

abbrev file_made : File
file_made = record File.default {
  path = "bin/ls";
  overlay = true;
  properties = property "original-path" "usr/bin/ls" ∷ [];
  facets = ("doc", docs) ∷ [];
}

file_made-from : File.from_action file_action ≡ ok file_made
unfolding from_action start set_properties set_property set_file set_other is_digest_key from_str
    contains_char is_facet get_facet_key string_to_bool add_facet insert lookup starts_with
    find_char split_off to_lowercase trim strip_quotes
file_made-from = refl

file_action-slash :
    (contains_char b'/' file_action.payload_string ≡ true)
    × (contains_char b'=' file_action.payload_string ≡ false)
unfolding contains_char
file_action-slash = (refl, refl)

original_path_example : get_original_path file_made ≡ some (strip_quotes "usr/bin/ls")
original_path_example =
    original_path file_action file_made file_action-slash.0 file_action-slash.1 file_made-from

file_from_action_example :
    (b : Building) × (ds : List Digest) × (start file_action ≡ ok b)
    × (parse_digests (digest_values b.props) ≡ ok ds)
    × IsRead b ds file_made
file_from_action_example = file_from_action file_action file_made file_made-from

file_from_action-panic_example : (from_action file_action ≡ panic) ↔ (
    BadPayload file_action.payload_string
    ⊎ ((b : Building) × (start file_action ≡ ok b) × SomeRejected (digest_values b.props)))
file_from_action-panic_example = file_from_action-panic file_action

lookup-changed_all_example :
    lookup "locale" (changed_all (added locale ∷ removed docs ∷ []) one_facet)
    ≡ left_by_all "locale" (added locale ∷ removed docs ∷ []) (lookup "locale" one_facet)
lookup-changed_all_example =
    lookup-changed_all (added locale ∷ removed docs ∷ []) one_facet "locale"

abbrev facet_action : Action
facet_action = record (new dir) { properties = property "facet.doc" "true" ∷ [] }

abbrev facet_dir : Dir.Dir
facet_dir = record Dir.default { facets = ("doc", docs) ∷ [] }

facet_dir-from : Dir.from_action facet_action ≡ ok facet_dir
unfolding Dir.from_action Dir.set_property properties_with_payload is_facet get_facet_key add_facet
    insert lookup starts_with find_char split_off Dir.add_facet
facet_dir-from = refl

from_action-IsNamed_example :
    IsNamed (dir_changed_all (added locale ∷ removed docs ∷ []) facet_dir).facets
from_action-IsNamed_example =
    from_action-IsNamed facet_action facet_dir (added locale ∷ removed docs ∷ []) facet_dir-from
