-- ===== src/Actions/Facet.antt =====
-- `Facet` and the trait `FacetedAction`, over the table that each faceted action keeps.
pub mod Laws
pub mod Values
pub mod Changes
use ips.Base.{String, Bool, true, false, Option, none, some, not, ◌&&◌, ◌==◌}
use ips.Base.Table.{Table, lookup, insert, remove, is_some}
use ips.Actions.Action.{Facet, Action, get_facet_key}

-- `Facet::from_key_value`.
unfoldable pub from_key_value : String → String → Facet
from_key_value key value = record { name = get_facet_key key; value = value }

-- `==` on facets, which is derived.
unfoldable pub facet_eq : Facet → Facet → Bool
facet_eq f g = f.name == g.name && f.value == g.value

-- `removed == Some(facet)`.
abbrev pub is_removed : Facet → Option Facet → Bool
is_removed f none = false
is_removed f (some g) = facet_eq g f

-- The body of each `add_facet`: the new table, and whether the name was free.
unfoldable pub add_facet : Facet → Table Facet → Table Facet × Bool
add_facet f t = (insert f.name f t, not (is_some (lookup f.name t)))

-- The body of each `remove_facet`: the new table, and whether this very facet was there.
unfoldable pub remove_facet : Facet → Table Facet → Table Facet × Bool
unfolding facet_eq
remove_facet f t = (remove f.name t, is_removed f (lookup f.name t))

-- `impl FacetedAction for Action`.
unfoldable pub action_add_facet : Facet → Action → Action × Bool
unfolding add_facet
action_add_facet f a = (record a { facets = (add_facet f a.facets).0 }, (add_facet f a.facets).1)

unfoldable pub action_remove_facet : Facet → Action → Action × Bool
unfolding remove_facet
action_remove_facet f a =
    (record a { facets = (remove_facet f a.facets).0 }, (remove_facet f a.facets).1)
