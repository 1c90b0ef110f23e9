-- ===== src/Actions/File.antt =====
-- `File` and `From<Action> for File`.
pub mod Digests
pub mod Fields
use ips.Base.{
  Bytes, String, Bool, true, false, Option, none, some, List, [], ◌∷◌, ◌++◌, ◌==◌, ◌||◌, not,
  is_empty, if◌then◌else◌,
}
use ips.Base.Outcome.{Outcome, ok, err, panic, map_err, unwrap, ◌>>=◌}
use ips.Base.Table.{Table}
use ips.Base.Text.{is_empty_str, contains_char, strip_quotes}
use ips.Digest.{Digest, Hashes, from_str}
use ips.Payload.{Payload, PayloadError, ObjectCrate, compute_payload}
use ips.Actions.Action.{Property, Facet, Action, is_facet, split_property, string_to_bool, or_false}
use ips.Actions.Facet

pub record File : Type 0 where
  pub payload : Option Payload
  pub path : String
  pub group : String
  pub owner : String
  pub mode : String
  pub preserve : Bool
  pub overlay : Bool
  pub original_name : String
  pub revert_tag : String
  pub sys_attr : String
  pub properties : List Property
  pub facets : Table Facet

-- `File::default()`.
abbrev pub default : File
default = record {
  payload = none;
  path = "";
  group = "";
  owner = "";
  mode = "";
  preserve = false;
  overlay = false;
  original_name = "";
  revert_tag = "";
  sys_attr = "";
  properties = [];
  facets = [];
}

pub data FileError (IoError : Type 0) : Type 0 where
  payload_error : PayloadError IoError → FileError IoError
  file_path_is_no_string : FileError IoError

module _ (object : ObjectCrate) (hashes : Hashes) {IoError : Type 0}
    (read : String → Outcome IoError Bytes) where
  -- `File::read_from_path`; `none` is a path that is no UTF-8 text.
  unfoldable pub read_from_path : Option String → Outcome (FileError IoError) File
  read_from_path none = err file_path_is_no_string
  read_from_path (some path) = do
    payload ← map_err payload_error (compute_payload object hashes read path)
    ok (record default { path = path; payload = some payload })

-- The loop of `get_original_path`.
unfoldable pub find_original_path : List Property → Option String
find_original_path [] = none
find_original_path (p ∷ ps) =
    if p.key == "original-path" then some p.value else find_original_path ps

-- `File::get_original_path`.
unfoldable pub get_original_path : File → Option String
unfolding find_original_path
get_original_path f = find_original_path f.properties

-- `impl FacetedAction for File`.
unfoldable pub add_facet : Facet → File → File × Bool
unfolding Facet.add_facet
add_facet f d =
    (record d { facets = (Facet.add_facet f d.facets).0 }, (Facet.add_facet f d.facets).1)

unfoldable pub remove_facet : Facet → File → File × Bool
unfolding Facet.remove_facet
remove_facet f d =
    (record d { facets = (Facet.remove_facet f d.facets).0 }, (Facet.remove_facet f d.facets).1)

-- The variables of `File::from`: `file`, `p` and `props`.
pub record Building : Type 0 where
  pub file : File
  pub payload : Payload
  pub props : List Property

abbrev push_property : File → String → String → File
push_property file key value = record file {
  properties = file.properties ++ record { key = key; value = value } ∷ [];
}

-- The statements on the payload text, before the loop.
unfoldable pub start : Action → Outcome ⊥ Building
start act =
    let b : Building = record { file = default; payload = act.payload; props = act.properties } in
    if is_empty_str act.payload_string
    then ok b
    else if contains_char b'/' act.payload_string
    then (if contains_char b'=' act.payload_string
        then (do
          p_str ← split_property act.payload_string
          ok (record b {
            props = act.properties ++ record { key = p_str.0; value = p_str.1 } ∷ [];
          }))
        else ok (record b {
          file = push_property default "original-path" (strip_quotes act.payload_string);
        }))
    else (do
      digest ← unwrap (from_str act.payload_string)
      ok (record b { payload = record act.payload { primary_identifier = digest } }))

abbrev push_digest : Payload → Digest → Payload
push_digest p d = record p { additional_identifiers = p.additional_identifiers ++ d ∷ [] }

-- The keys of the arm `"chash" | "pkg.content-hash"`.
unfoldable pub is_digest_key : String → Bool
is_digest_key k = k == "chash" || k == "pkg.content-hash"

-- The last arm of the `match` on a property's key.
unfoldable pub set_other : File → Property → File
unfolding add_facet Facet.from_key_value
set_other file prop =
    if is_facet prop.key
    then (add_facet (Facet.from_key_value prop.key prop.value) file).0
    else push_property file prop.key prop.value

-- The arms that set the file alone.
unfoldable pub set_file : File → Property → File
set_file file prop =
    if prop.key == "path"
    then record file { path = prop.value }
    else if prop.key == "owner"
    then record file { owner = prop.value }
    else if prop.key == "group"
    then record file { group = prop.value }
    else if prop.key == "mode"
    then record file { mode = prop.value }
    else if prop.key == "revert-tag"
    then record file { revert_tag = prop.value }
    else if prop.key == "original_name"
    then record file { original_name = prop.value }
    else if prop.key == "sysattr"
    then record file { sys_attr = prop.value }
    else if prop.key == "overlay"
    then record file { overlay = or_false (string_to_bool prop.value) }
    else if prop.key == "preserve"
    then record file { preserve = or_false (string_to_bool prop.value) }
    else if is_digest_key prop.key
    then file
    else set_other file prop

-- The `match`: no key of another arm is a digest key, so the arm for those comes first here.
unfoldable pub set_property : File → Payload → Property → Outcome ⊥ (File × Payload)
set_property file p prop =
    if is_digest_key prop.key
    then (do digest ← unwrap (from_str prop.value); ok (file, push_digest p digest))
    else ok (set_file file prop, p)

-- The loop over the properties.
unfoldable pub set_properties : File → Payload → List Property → Outcome ⊥ (File × Payload)
set_properties file p [] = ok (file, p)
set_properties file p (prop ∷ props) = do s ← set_property file p prop; set_properties s.0 s.1 props

-- The test on the primary hash, behind the loop.
unfoldable pub finish : File → Payload → File
finish file p =
    if is_empty_str p.primary_identifier.hash
    then record file { payload = none }
    else record file { payload = some p }

-- `File::from`.
unfoldable pub from_action : Action → Outcome ⊥ File
unfolding finish
from_action act = do b ← start act; s ← set_properties b.file b.payload b.props; ok (finish s.0 s.1)
