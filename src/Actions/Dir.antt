-- ===== src/Actions/Dir.antt =====
-- `Dir` and `From<Action> for Dir`.
pub mod Fields
pub mod Named
use ips.Base.{String, Bool, List, [], foldl, ◌==◌, if◌then◌else◌}
use ips.Base.Outcome.{Outcome, ok, err, panic, ◌>>=◌}
use ips.Base.Table.{Table}
use ips.Actions.Action.{Property, Facet, Action, is_facet, properties_with_payload}
use ips.Actions.Facet

pub record Dir : Type 0 where
  pub path : String
  pub group : String
  pub owner : String
  pub mode : String
  pub revert_tag : String
  pub salvage_from : String
  pub facets : Table Facet

-- `Dir::default()`.
abbrev pub default : Dir
default = record {
  path = "";
  group = "";
  owner = "";
  mode = "";
  revert_tag = "";
  salvage_from = "";
  facets = [];
}

-- `impl FacetedAction for Dir`.
unfoldable pub add_facet : Facet → Dir → Dir × Bool
unfolding Facet.add_facet
add_facet f d =
    (record d { facets = (Facet.add_facet f d.facets).0 }, (Facet.add_facet f d.facets).1)

unfoldable pub remove_facet : Facet → Dir → Dir × Bool
unfolding Facet.remove_facet
remove_facet f d =
    (record d { facets = (Facet.remove_facet f d.facets).0 }, (Facet.remove_facet f d.facets).1)

-- The `match` on a property's key.
unfoldable pub set_property : Dir → Property → Dir
unfolding add_facet Facet.from_key_value
set_property dir prop =
    if prop.key == "path"
    then record dir { path = prop.value }
    else if prop.key == "owner"
    then record dir { owner = prop.value }
    else if prop.key == "group"
    then record dir { group = prop.value }
    else if prop.key == "mode"
    then record dir { mode = prop.value }
    else if prop.key == "revert-tag"
    then record dir { revert_tag = prop.value }
    else if prop.key == "salvage-from"
    then record dir { salvage_from = prop.value }
    else if is_facet prop.key
    then (add_facet (Facet.from_key_value prop.key prop.value) dir).0
    else dir

-- `Dir::from`.
unfoldable pub from_action : Action → Outcome ⊥ Dir
from_action act = do props ← properties_with_payload act; ok (foldl set_property default props)
