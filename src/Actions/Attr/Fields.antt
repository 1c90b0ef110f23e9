-- ===== src/Actions/Attr/Fields.antt =====
-- What `Attr::from` puts into each field of an `Attr`.
use ips.Base.{
  String, Bool, ◌≡◌, refl, none, some, List, [], ◌∷◌, ◌++◌, foldl, arith, ◌==◌, if◌then◌else◌,
}
use ips.Base.Outcome.{ok}
use ips.Base.Table.{lookup, lookup-insert, lookup-empty}
use ips.Actions.Action.{Property, Action, properties_with_payload}
use ips.Actions.Action.Split.{properties_with_payload_total}
use ips.Actions.Action.Values.{
  last_value, value_of, all_values, property_of, foldl-last_value, foldl-all_values,
  foldl-property_of, by_key,
}
use ips.Actions.Attr.{Attr, default, set_property, from_action}
use ips.Base.{◌||◌}

sets_key :
    (attr : Attr) (p : Property)
    → (set_property attr p).key ≡ (if p.key == "name" then p.value else attr.key)
unfolding set_property
sets_key attr = by_key "name" _ (λ v. refl) (λ p h. ground arith)

-- The keys that have a field of their own.
unfoldable pub is_named : String → Bool
is_named k = k == "name" || k == "value"

sets_values :
    (attr : Attr) (p : Property)
    → (set_property attr p).values
      ≡ (if p.key == "value" then attr.values ++ p.value ∷ [] else attr.values)
unfolding set_property
sets_values attr =
    by_key "value"
      (λ p.
        (set_property attr p).values
        ≡ (if p.key == "value" then attr.values ++ p.value ∷ [] else attr.values))
      (λ v. refl) (λ p h. ground arith)

sets_properties :
    (attr : Attr) (p : Property) (j : String)
    → lookup j (set_property attr p).properties ≡ (
        if is_named p.key
        then lookup j attr.properties
        else if p.key == j
        then some p
        else lookup j attr.properties)
unfolding set_property is_named
sets_properties attr p j = ground (arith, lookup-insert p.key j p attr.properties)

-- The `Attr` that the properties `ps` describe.
pub record IsRead (ps : List Property) (attr : Attr) : Type 0 where
  pub key : attr.key ≡ value_of "name" ps
  pub values : attr.values ≡ all_values "value" ps
  pub properties :
      (j : String)
      → lookup j attr.properties ≡ (if is_named j then none else property_of j (last_value j ps))

foldl-IsRead : (ps : List Property) → IsRead ps (foldl set_property default ps)
foldl-IsRead ps = record {
  key = foldl-last_value set_property (λ attr. attr.key) "name" sets_key ps default;
  values = foldl-all_values set_property (λ attr. attr.values) "value" sets_values ps default;
  properties = λ j.
      foldl-property_of set_property (λ attr. attr.properties) is_named sets_properties ps default j
        (lookup-empty j);
}

-- Every action converts to an `Attr` with the last `name`, all values in order, and under each other
-- key the property with its last value.
pub attr_from_action :
    (act : Action)
    → (ps : List Property) × (attr : Attr) × (properties_with_payload act ≡ ok ps)
      × (from_action act ≡ ok attr)
      × IsRead ps attr
unfolding from_action
attr_from_action act =
    let (ps, e) = properties_with_payload_total act in
    (ps, foldl set_property default ps, e, rw e, foldl-IsRead ps)
