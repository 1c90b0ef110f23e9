-- ===== src/Actions/Dir/Fields.antt =====
-- What `Dir::from` puts into each field of a `Dir`.
use ips.Base.{String, false, ◌≡◌, refl, List, foldl, arith, ◌==◌, if◌then◌else◌}
use ips.Base.Outcome.{ok}
use ips.Base.Table.{lookup, lookup-empty}
use ips.Actions.Action.{Property, Action, is_facet, properties_with_payload}
use ips.Actions.Action.Split.{properties_with_payload_total}
use ips.Actions.Action.Values.{last_value, value_of, foldl-last_value, by_key}
use ips.Actions.Facet.Values.{facet_of, facet_key, faceted, facet-ne, faceted-eq, foldl-last_facet}
use ips.Base.Text.{starts_with}
use ips.Actions.Dir.{Dir, default, set_property, from_action}

sets_path :
    (dir : Dir) (p : Property)
    → (set_property dir p).path ≡ (if p.key == "path" then p.value else dir.path)
unfolding set_property
sets_path dir = by_key "path" _ (λ v. refl) (λ p h. ground arith)

sets_owner :
    (dir : Dir) (p : Property)
    → (set_property dir p).owner ≡ (if p.key == "owner" then p.value else dir.owner)
unfolding set_property
sets_owner dir = by_key "owner" _ (λ v. refl) (λ p h. ground arith)

sets_group :
    (dir : Dir) (p : Property)
    → (set_property dir p).group ≡ (if p.key == "group" then p.value else dir.group)
unfolding set_property
sets_group dir = by_key "group" _ (λ v. refl) (λ p h. ground arith)

sets_mode :
    (dir : Dir) (p : Property)
    → (set_property dir p).mode ≡ (if p.key == "mode" then p.value else dir.mode)
unfolding set_property
sets_mode dir = by_key "mode" _ (λ v. refl) (λ p h. ground arith)

sets_revert_tag :
    (dir : Dir) (p : Property)
    → (set_property dir p).revert_tag ≡ (if p.key == "revert-tag" then p.value else dir.revert_tag)
unfolding set_property
sets_revert_tag dir = by_key "revert-tag" _ (λ v. refl) (λ p h. ground arith)

sets_salvage_from :
    (dir : Dir) (p : Property)
    → (set_property dir p).salvage_from
      ≡ (if p.key == "salvage-from" then p.value else dir.salvage_from)
unfolding set_property
sets_salvage_from dir = by_key "salvage-from" _ (λ v. refl) (λ p h. ground arith)

-- None of the other keys begins with `facet.`.
keys_plain :
    ((is_facet "path" ≡ false)
      × (is_facet "owner" ≡ false)
      × (is_facet "group" ≡ false)
      × (is_facet "mode" ≡ false)
      × (is_facet "revert-tag" ≡ false)
      × (is_facet "salvage-from" ≡ false))
unfolding is_facet starts_with
keys_plain = (refl, refl, refl, refl, refl, refl)

sets_facets :
    (dir : Dir) (p : Property) (n : String)
    → lookup n (set_property dir p).facets ≡ faceted p dir.facets n
unfolding set_property
sets_facets dir p n = ground (
  arith,
  faceted-eq p dir.facets n,
  facet-ne p.key "path" keys_plain.0,
  facet-ne p.key "owner" keys_plain.1,
  facet-ne p.key "group" keys_plain.2,
  facet-ne p.key "mode" keys_plain.3,
  facet-ne p.key "revert-tag" keys_plain.4,
  facet-ne p.key "salvage-from" keys_plain.5,
)

-- The `Dir` that the properties `ps` describe.
pub record IsRead (ps : List Property) (dir : Dir) : Type 0 where
  pub path : dir.path ≡ value_of "path" ps
  pub owner : dir.owner ≡ value_of "owner" ps
  pub group : dir.group ≡ value_of "group" ps
  pub mode : dir.mode ≡ value_of "mode" ps
  pub revert_tag : dir.revert_tag ≡ value_of "revert-tag" ps
  pub salvage_from : dir.salvage_from ≡ value_of "salvage-from" ps
  pub facet : (n : String) → lookup n dir.facets ≡ facet_of n (last_value (facet_key n) ps)

foldl-IsRead : (ps : List Property) → IsRead ps (foldl set_property default ps)
foldl-IsRead ps = record {
  path = foldl-last_value set_property (λ dir. dir.path) "path" sets_path ps default;
  owner = foldl-last_value set_property (λ dir. dir.owner) "owner" sets_owner ps default;
  group = foldl-last_value set_property (λ dir. dir.group) "group" sets_group ps default;
  mode = foldl-last_value set_property (λ dir. dir.mode) "mode" sets_mode ps default;
  revert_tag =
      foldl-last_value set_property (λ dir. dir.revert_tag) "revert-tag" sets_revert_tag ps default;
  salvage_from =
      foldl-last_value set_property (λ dir. dir.salvage_from) "salvage-from" sets_salvage_from ps
        default;
  facet = λ n.
      foldl-last_facet set_property (λ dir. dir.facets) sets_facets ps default n (lookup-empty n);
}

-- Every action converts to a `Dir`: each field and each facet has the last value that the properties,
-- with the one from the payload text behind them, give it.
pub dir_from_action :
    (act : Action)
    → (ps : List Property) × (dir : Dir) × (properties_with_payload act ≡ ok ps)
      × (from_action act ≡ ok dir)
      × IsRead ps dir
unfolding from_action
dir_from_action act =
    let (ps, e) = properties_with_payload_total act in
    (ps, foldl set_property default ps, e, rw e, foldl-IsRead ps)
