-- ===== src/Actions/Dependency.antt =====
-- `Dependency` and `From<Action> for Dependency`.
pub mod Fields
use ips.Base.{String, Bool, List, [], ◌∷◌, ◌++◌, foldl, ◌==◌, if◌then◌else◌}
use ips.Base.Outcome.{Outcome, ok, ◌>>=◌}
use ips.Base.Table.{Table}
use ips.Actions.Action.{Property, Facet, Action, is_facet, properties_with_payload}
use ips.Actions.Facet

pub record Dependency : Type 0 where
  pub fmri : String
  pub dependency_type : String
  pub predicate : String
  pub root_image : String
  pub optional : List Property
  pub facets : Table Facet

-- `Dependency::default()`.
abbrev pub default : Dependency
default = record {
  fmri = "";
  dependency_type = "";
  predicate = "";
  root_image = "";
  optional = [];
  facets = [];
}

-- `impl FacetedAction for Dependency`.
unfoldable pub add_facet : Facet → Dependency → Dependency × Bool
unfolding Facet.add_facet
add_facet f d =
    (record d { facets = (Facet.add_facet f d.facets).0 }, (Facet.add_facet f d.facets).1)

unfoldable pub remove_facet : Facet → Dependency → Dependency × Bool
unfolding Facet.remove_facet
remove_facet f d =
    (record d { facets = (Facet.remove_facet f d.facets).0 }, (Facet.remove_facet f d.facets).1)

-- The `match` on a property's key.
unfoldable pub set_property : Dependency → Property → Dependency
unfolding add_facet Facet.from_key_value
set_property dep prop =
    if prop.key == "fmri"
    then record dep { fmri = prop.value }
    else if prop.key == "type"
    then record dep { dependency_type = prop.value }
    else if prop.key == "predicate"
    then record dep { predicate = prop.value }
    else if prop.key == "root-image"
    then record dep { root_image = prop.value }
    else if is_facet prop.key
    then (add_facet (Facet.from_key_value prop.key prop.value) dep).0
    else record dep { optional = dep.optional ++ prop ∷ [] }

-- `Dependency::from`.
unfoldable pub from_action : Action → Outcome ⊥ Dependency
from_action act = do props ← properties_with_payload act; ok (foldl set_property default props)
