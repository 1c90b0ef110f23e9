-- ===== src/Actions/File/Fields/Setters.antt =====
-- What each arm of the `match` in `File::from` sets.
use ips.Base.{
  String, Bool, true, false, ◌≡◌, refl, [], ◌∷◌, ◌++◌, arith, ◌==◌, ◌||◌, Bool-cases, inl, inr, ap,
  ◌∙◌, if◌then◌else◌,
}
use ips.Base.Table.{lookup}
use ips.Base.Text.{starts_with}
use ips.Actions.Action.{Property, is_facet, string_to_bool, or_false}
use ips.Actions.Action.Values.{by_key}
use ips.Actions.Facet.Values.{faceted, facet-ne, faceted-eq}
use ips.Actions.File.{File, set_file, set_other, is_digest_key}

-- The last arm sets the properties or the facets.
set_other_shape :
    (f : File) (p : Property)
    → set_other f p
      ≡ record f { properties = (set_other f p).properties; facets = (set_other f p).facets }
unfolding set_other
set_other_shape f p = ground arith

pub sets_path :
    (f : File) (p : Property) → (set_file f p).path ≡ (if p.key == "path" then p.value else f.path)
unfolding set_file
sets_path f = by_key "path" _ (λ v. refl) (λ p h. ground (arith, set_other_shape f p))

pub sets_owner :
    (f : File) (p : Property)
    → (set_file f p).owner ≡ (if p.key == "owner" then p.value else f.owner)
unfolding set_file
sets_owner f = by_key "owner" _ (λ v. refl) (λ p h. ground (arith, set_other_shape f p))

pub sets_group :
    (f : File) (p : Property)
    → (set_file f p).group ≡ (if p.key == "group" then p.value else f.group)
unfolding set_file
sets_group f = by_key "group" _ (λ v. refl) (λ p h. ground (arith, set_other_shape f p))

pub sets_mode :
    (f : File) (p : Property) → (set_file f p).mode ≡ (if p.key == "mode" then p.value else f.mode)
unfolding set_file
sets_mode f = by_key "mode" _ (λ v. refl) (λ p h. ground (arith, set_other_shape f p))

pub sets_revert_tag :
    (f : File) (p : Property)
    → (set_file f p).revert_tag ≡ (if p.key == "revert-tag" then p.value else f.revert_tag)
unfolding set_file
sets_revert_tag f = by_key "revert-tag" _ (λ v. refl) (λ p h. ground (arith, set_other_shape f p))

pub sets_original_name :
    (f : File) (p : Property)
    → (set_file f p).original_name ≡ (if p.key == "original_name" then p.value else f.original_name)
unfolding set_file
sets_original_name f =
    by_key "original_name" _ (λ v. refl) (λ p h. ground (arith, set_other_shape f p))

pub sets_sys_attr :
    (f : File) (p : Property)
    → (set_file f p).sys_attr ≡ (if p.key == "sysattr" then p.value else f.sys_attr)
unfolding set_file
sets_sys_attr f = by_key "sysattr" _ (λ v. refl) (λ p h. ground (arith, set_other_shape f p))

pub sets_overlay :
    (f : File) (p : Property)
    → (set_file f p).overlay
      ≡ (if p.key == "overlay" then or_false (string_to_bool p.value) else f.overlay)
unfolding set_file
sets_overlay f =
    by_key "overlay"
      (λ p.
        (set_file f p).overlay
        ≡ (if p.key == "overlay" then or_false (string_to_bool p.value) else f.overlay))
      (λ v. refl) (λ p h. ground (arith, set_other_shape f p))

pub sets_preserve :
    (f : File) (p : Property)
    → (set_file f p).preserve
      ≡ (if p.key == "preserve" then or_false (string_to_bool p.value) else f.preserve)
unfolding set_file
sets_preserve f =
    by_key "preserve"
      (λ p.
        (set_file f p).preserve
        ≡ (if p.key == "preserve" then or_false (string_to_bool p.value) else f.preserve))
      (λ v. refl) (λ p h. ground (arith, set_other_shape f p))

-- The keys with an arm of their own.
unfoldable pub is_own : String → Bool
unfolding is_digest_key
is_own k =
    k == "path"
    || k == "owner"
    || k == "group"
    || k == "mode"
    || k == "revert-tag"
    || k == "original_name"
    || k == "sysattr"
    || k == "overlay"
    || k == "preserve"
    || is_digest_key k

own_properties :
    (f : File) (p : Property) → is_own p.key ≡ true → (set_file f p).properties ≡ f.properties
unfolding set_file is_own
own_properties f p h = ground (arith, h)

own_facets : (f : File) (p : Property) → is_own p.key ≡ true → (set_file f p).facets ≡ f.facets
unfolding set_file is_own
own_facets f p h = ground (arith, h)

not_own : (f : File) (p : Property) → is_own p.key ≡ false → set_file f p ≡ set_other f p
unfolding set_file is_own
not_own f p h = ground (arith, h)

-- None of the keys begins with `facet.`.
keys_plain :
    ((is_facet "path" ≡ false)
      × (is_facet "owner" ≡ false)
      × (is_facet "group" ≡ false)
      × (is_facet "mode" ≡ false)
      × (is_facet "revert-tag" ≡ false)
      × (is_facet "original_name" ≡ false)
      × (is_facet "sysattr" ≡ false)
      × (is_facet "overlay" ≡ false)
      × (is_facet "preserve" ≡ false)
      × (is_facet "chash" ≡ false)
      × (is_facet "pkg.content-hash" ≡ false))
unfolding is_facet starts_with
keys_plain = (refl, refl, refl, refl, refl, refl, refl, refl, refl, refl, refl)

facet_not_own : (k : String) → is_facet k ≡ true → is_own k ≡ false
unfolding is_own
facet_not_own k h = ground (
  arith,
  facet-ne k "path" keys_plain.0,
  facet-ne k "owner" keys_plain.1,
  facet-ne k "group" keys_plain.2,
  facet-ne k "mode" keys_plain.3,
  facet-ne k "revert-tag" keys_plain.4,
  facet-ne k "original_name" keys_plain.5,
  facet-ne k "sysattr" keys_plain.6,
  facet-ne k "overlay" keys_plain.7,
  facet-ne k "preserve" keys_plain.8,
  facet-ne k "chash" keys_plain.9,
  facet-ne k "pkg.content-hash" keys_plain.10,
)

-- The properties that the file does not keep as they are.
unfoldable pub is_named : String → Bool
is_named k = is_own k || is_facet k

pub sets_properties :
    (f : File) (p : Property)
    → (set_file f p).properties ≡ (if is_named p.key then f.properties else f.properties ++ p ∷ [])
unfolding is_named set_other
sets_properties f p = elim (Bool-cases (is_own p.key)) [
  | inl e ↦ rw e (own_properties f p e)
  | inr e ↦ rw (e, not_own f p e) (ground arith)
]

pub sets_facets :
    (f : File) (p : Property) (n : String) → lookup n (set_file f p).facets ≡ faceted p f.facets n
unfolding set_other
sets_facets f p n = elim (Bool-cases (is_own p.key)) [
  | inl e ↦
      ap (lookup n) (own_facets f p e)
      ∙ ground (arith, faceted-eq p f.facets n, facet_not_own p.key, e)
  | inr e ↦ rw (not_own f p e) (ground (arith, faceted-eq p f.facets n))
]
