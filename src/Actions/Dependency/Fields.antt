-- ===== src/Actions/Dependency/Fields.antt =====
-- What `Dependency::from` puts into each field of a `Dependency`.
use ips.Base.{
  String, Bool, false, ◌≡◌, refl, List, [], ◌∷◌, ◌++◌, foldl, arith, ◌==◌, if◌then◌else◌,
}
use ips.Base.Outcome.{ok}
use ips.Base.Table.{lookup, lookup-empty}
use ips.Actions.Action.{Property, Action, is_facet, properties_with_payload}
use ips.Actions.Action.Split.{properties_with_payload_total}
use ips.Actions.Action.Values.{
  last_value, value_of, rest_of, foldl-last_value, foldl-rest_of, by_key,
}
use ips.Actions.Facet.Values.{facet_of, facet_key, faceted, facet-ne, faceted-eq, foldl-last_facet}
use ips.Base.Text.{starts_with}
use ips.Actions.Dependency.{Dependency, default, set_property, from_action}
use ips.Base.{◌||◌}

sets_fmri :
    (dep : Dependency) (p : Property)
    → (set_property dep p).fmri ≡ (if p.key == "fmri" then p.value else dep.fmri)
unfolding set_property
sets_fmri dep = by_key "fmri" _ (λ v. refl) (λ p h. ground arith)

sets_dependency_type :
    (dep : Dependency) (p : Property)
    → (set_property dep p).dependency_type
      ≡ (if p.key == "type" then p.value else dep.dependency_type)
unfolding set_property
sets_dependency_type dep = by_key "type" _ (λ v. refl) (λ p h. ground arith)

sets_predicate :
    (dep : Dependency) (p : Property)
    → (set_property dep p).predicate ≡ (if p.key == "predicate" then p.value else dep.predicate)
unfolding set_property
sets_predicate dep = by_key "predicate" _ (λ v. refl) (λ p h. ground arith)

sets_root_image :
    (dep : Dependency) (p : Property)
    → (set_property dep p).root_image ≡ (if p.key == "root-image" then p.value else dep.root_image)
unfolding set_property
sets_root_image dep = by_key "root-image" _ (λ v. refl) (λ p h. ground arith)

-- The keys that have a field of their own.
unfoldable pub is_named : String → Bool
is_named k = k == "fmri" || k == "type" || k == "predicate" || k == "root-image" || is_facet k

sets_optional :
    (dep : Dependency) (p : Property)
    → (set_property dep p).optional
      ≡ (if is_named p.key then dep.optional else dep.optional ++ p ∷ [])
unfolding set_property is_named
sets_optional dep p = ground arith

-- None of the other keys begins with `facet.`.
keys_plain :
    ((is_facet "fmri" ≡ false)
      × (is_facet "type" ≡ false)
      × (is_facet "predicate" ≡ false)
      × (is_facet "root-image" ≡ false))
unfolding is_facet starts_with
keys_plain = (refl, refl, refl, refl)

sets_facets :
    (dep : Dependency) (p : Property) (n : String)
    → lookup n (set_property dep p).facets ≡ faceted p dep.facets n
unfolding set_property
sets_facets dep p n = ground (
  arith,
  faceted-eq p dep.facets n,
  facet-ne p.key "fmri" keys_plain.0,
  facet-ne p.key "type" keys_plain.1,
  facet-ne p.key "predicate" keys_plain.2,
  facet-ne p.key "root-image" keys_plain.3,
)

-- The `Dependency` that the properties `ps` describe.
pub record IsRead (ps : List Property) (dep : Dependency) : Type 0 where
  pub fmri : dep.fmri ≡ value_of "fmri" ps
  pub dependency_type : dep.dependency_type ≡ value_of "type" ps
  pub predicate : dep.predicate ≡ value_of "predicate" ps
  pub root_image : dep.root_image ≡ value_of "root-image" ps
  pub optional : dep.optional ≡ rest_of is_named ps
  pub facet : (n : String) → lookup n dep.facets ≡ facet_of n (last_value (facet_key n) ps)

foldl-IsRead : (ps : List Property) → IsRead ps (foldl set_property default ps)
foldl-IsRead ps = record {
  fmri = foldl-last_value set_property (λ dep. dep.fmri) "fmri" sets_fmri ps default;
  dependency_type =
      foldl-last_value set_property (λ dep. dep.dependency_type) "type" sets_dependency_type ps
        default;
  predicate =
      foldl-last_value set_property (λ dep. dep.predicate) "predicate" sets_predicate ps default;
  root_image =
      foldl-last_value set_property (λ dep. dep.root_image) "root-image" sets_root_image ps default;
  optional = foldl-rest_of set_property (λ dep. dep.optional) is_named sets_optional ps default;
  facet = λ n.
      foldl-last_facet set_property (λ dep. dep.facets) sets_facets ps default n (lookup-empty n);
}

-- Every action converts to a `Dependency` with the last value of each key that has a field, the last
-- value of each facet, and all other properties in order.
pub dep_from_action :
    (act : Action)
    → (ps : List Property) × (dep : Dependency) × (properties_with_payload act ≡ ok ps)
      × (from_action act ≡ ok dep)
      × IsRead ps dep
unfolding from_action
dep_from_action act =
    let (ps, e) = properties_with_payload_total act in
    (ps, foldl set_property default ps, e, rw e, foldl-IsRead ps)
