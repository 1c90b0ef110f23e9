-- ===== src/Actions/Facet/Values.antt =====
-- A loop over properties that adds the facets among them leaves the last value of each facet.
use ips.Base.{
  String, true, false, Option, none, some, List, [], ◌∷◌, foldl, ◌≡◌, refl, ap, ◌∙◌, arith, ◌==◌,
  ◌&&◌, eq_iff, if◌then◌else◌,
}
use ips.Base.Table.{Table, lookup, insert, lookup-insert}
use ips.Base.Text.{◌<>◌}
use ips.Actions.Action.{Property, Facet, is_facet, get_facet_key}
use ips.Actions.Action.Values.{last_value}
use ips.Actions.Facet.{from_key_value}
use ips.Actions.Facet.Laws.{is_facet_iff, get_facet_key-facet}

-- The key under which a manifest gives the facet `n`.
abbrev pub facet_key : String → String
facet_key n = "facet." <> n

-- The facet `n` with a value that may be there.
abbrev pub facet_of : String → Option String → Option Facet
facet_of n none = none
facet_of n (some v) = some (record { name = n; value = v })

abbrev facet_or : String → Option String → Option Facet → Option Facet
facet_or n none o = o
facet_or n (some v) o = some (record { name = n; value = v })

facet_or-none : (n : String) (v : Option String) → facet_or n v none ≡ facet_of n v
facet_or-none n none = refl
facet_or-none n (some v) = refl

-- A key that is no facet's is no key that is one.
pub facet-ne : (k lit : String) → is_facet lit ≡ false → is_facet k ≡ true → (k == lit) ≡ false
facet-ne k lit h e = ground (arith, eq_iff k lit, λ (p : k ≡ lit). ap is_facet p)

pub facet_key-eq : (k n : String) → (k == facet_key n) ≡ (is_facet k && get_facet_key k == n)
facet_key-eq k n = ground (
  arith,
  eq_iff k (facet_key n),
  eq_iff (get_facet_key k) n,
  is_facet_iff k,
  is_facet_iff (facet_key n),
  get_facet_key-facet n,
  λ (p : k ≡ facet_key n). ap get_facet_key p,
  λ (p : k ≡ facet_key n). ap is_facet p,
  λ (p : get_facet_key k ≡ n). ap facet_key p,
)

-- What a body does to the table.
abbrev pub faceted : Property → Table Facet → String → Option Facet
faceted p t n =
    if p.key == facet_key n then some (record { name = n; value = p.value }) else lookup n t

module _ {ℓ} {S : Type ℓ} (step : S → Property → S) (facets : S → Table Facet)
    (adds : (s : S) (p : Property) (n : String)
      → lookup n (facets (step s p)) ≡ faceted p (facets s) n) where
  foldl-facet_or :
      (ps : List Property) (s : S) (n : String)
      → lookup n (facets (foldl step s ps))
        ≡ facet_or n (last_value (facet_key n) ps) (lookup n (facets s))
  unfolding last_value
  foldl-facet_or [] s n = refl
  foldl-facet_or (p ∷ ps) s n = ground (arith, foldl-facet_or ps (step s p) n, adds s p n)

  pub foldl-last_facet :
      (ps : List Property) (s : S) (n : String)
      → lookup n (facets s) ≡ none
      → lookup n (facets (foldl step s ps)) ≡ facet_of n (last_value (facet_key n) ps)
  foldl-last_facet ps s n h =
      foldl-facet_or ps s n ∙ rw h (facet_or-none n (last_value (facet_key n) ps))

-- The same, by the tests that the code makes.
pub faceted-eq :
    (p : Property) (t : Table Facet) (n : String)
    → faceted p t n ≡ (
        if is_facet p.key
        then lookup n (insert (from_key_value p.key p.value).name (from_key_value p.key p.value) t)
        else lookup n t)
unfolding from_key_value
faceted-eq p t n = ground (
  arith,
  facet_key-eq p.key n,
  eq_iff (get_facet_key p.key) n,
  lookup-insert (get_facet_key p.key) n (from_key_value p.key p.value) t,
)
