-- ===== src/Actions/License/Fields.antt =====
-- What `License::from` puts into each field of a `License`.
use ips.Base.{
  String, false, ◌≡◌, refl, none, some, List, [], ◌∷◌, foldl, arith, ◌==◌, eq_iff, ◌∙◌,
  if◌then◌else◌,
}
use ips.Base.Outcome.{ok}
use ips.Base.Table.{lookup, lookup-insert, lookup-empty}
use ips.Actions.Action.{Property, Action}
use ips.Actions.Action.Values.{last_value, property_of, foldl-property_of}
use ips.Actions.License.{License, with_payload, set_property, from_action}

sets_properties :
    (license : License) (p : Property) (j : String)
    → lookup j (set_property license p).properties
      ≡ (if p.key == j then some p else lookup j license.properties)
unfolding set_property
sets_properties license p j = lookup-insert p.key j p license.properties

payload-kept : (ps : List Property) (l : License) → (foldl set_property l ps).payload ≡ l.payload
unfolding set_property
payload-kept [] l = refl
payload-kept (p ∷ ps) l = payload-kept ps (set_property l p)

payload-with_payload : (text : String) → (with_payload text).payload ≡ text
payload-with_payload text = ground (arith, eq_iff text "")

starts_empty : (text j : String) → lookup j (with_payload text).properties ≡ none
starts_empty text j = ground (arith, lookup-empty {V = Property} j)

-- Every action converts to a `License` that keeps the payload text as it stands, and under each key the
-- property with its last value.
pub license_from_action :
    (act : Action)
    → (license : License) × (from_action act ≡ ok license)
      × (license.payload ≡ act.payload_string)
      × ((j : String) → lookup j license.properties ≡ property_of j (last_value j act.properties))
unfolding from_action
license_from_action act = (
  _,
  refl,
  payload-kept act.properties (with_payload act.payload_string)
      ∙ payload-with_payload act.payload_string,
  λ j.
      foldl-property_of set_property (λ l. l.properties) (λ k. false) sets_properties act.properties
        (with_payload act.payload_string) j (starts_empty act.payload_string j),
)
