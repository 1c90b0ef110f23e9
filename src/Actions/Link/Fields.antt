-- ===== src/Actions/Link/Fields.antt =====
-- What `Link::from` puts into each field of a `Link`.
use ips.Base.{String, Bool, ◌≡◌, refl, none, some, List, foldl, arith, ◌==◌, if◌then◌else◌}
use ips.Base.Outcome.{ok}
use ips.Base.Table.{lookup, lookup-insert, lookup-empty}
use ips.Actions.Action.{Property, Action, properties_with_payload}
use ips.Actions.Action.Split.{properties_with_payload_total}
use ips.Actions.Action.Values.{
  last_value, value_of, property_of, foldl-last_value, foldl-property_of, by_key,
}
use ips.Actions.Link.{Link, default, set_property, from_action}
use ips.Base.{◌||◌}

sets_path :
    (link : Link) (p : Property)
    → (set_property link p).path ≡ (if p.key == "path" then p.value else link.path)
unfolding set_property
sets_path link = by_key "path" _ (λ v. refl) (λ p h. ground arith)

sets_target :
    (link : Link) (p : Property)
    → (set_property link p).target ≡ (if p.key == "target" then p.value else link.target)
unfolding set_property
sets_target link = by_key "target" _ (λ v. refl) (λ p h. ground arith)

-- The keys that have a field of their own.
unfoldable pub is_named : String → Bool
is_named k = k == "path" || k == "target"

sets_properties :
    (link : Link) (p : Property) (j : String)
    → lookup j (set_property link p).properties ≡ (
        if is_named p.key
        then lookup j link.properties
        else if p.key == j
        then some p
        else lookup j link.properties)
unfolding set_property is_named
sets_properties link p j = ground (arith, lookup-insert p.key j p link.properties)

-- The `Link` that the properties `ps` describe.
pub record IsRead (ps : List Property) (link : Link) : Type 0 where
  pub path : link.path ≡ value_of "path" ps
  pub target : link.target ≡ value_of "target" ps
  pub properties :
      (j : String)
      → lookup j link.properties ≡ (if is_named j then none else property_of j (last_value j ps))

foldl-IsRead : (ps : List Property) → IsRead ps (foldl set_property default ps)
foldl-IsRead ps = record {
  path = foldl-last_value set_property (λ link. link.path) "path" sets_path ps default;
  target = foldl-last_value set_property (λ link. link.target) "target" sets_target ps default;
  properties = λ j.
      foldl-property_of set_property (λ link. link.properties) is_named sets_properties ps default j
        (lookup-empty j);
}

-- Every action converts to a `Link` with the last values of `path` and `target`, and under
-- each other key the property with its last value.
pub link_from_action :
    (act : Action)
    → (ps : List Property) × (link : Link) × (properties_with_payload act ≡ ok ps)
      × (from_action act ≡ ok link)
      × IsRead ps link
unfolding from_action
link_from_action act =
    let (ps, e) = properties_with_payload_total act in
    (ps, foldl set_property default ps, e, rw e, foldl-IsRead ps)
