-- ===== src/Actions/Action/Values.antt =====
-- The last value that a list of properties gives to a key: what a conversion has to find.
use ips.Base.Table.{Table, lookup}
use ips.Base.{
  Option-cases, append-nil, append_assoc, ap, ◌∙◌, String, Bool, true, false, ◌≡◌, refl, Option,
  none, some, List, [], ◌∷◌, ◌++◌, foldl, arith, ◌==◌, eq_iff, subst, sym, inl, inr, Bool-cases,
  if◌then◌else◌,
}
use ips.Actions.Action.{Property}

abbrev pub or_else {ℓ} : {A : Type ℓ} → Option A → A → A
or_else none d = d
or_else (some a) d = a

-- The value of the last property with the key `k`.
unfoldable pub last_value : String → List Property → Option String
last_value k [] = none
last_value k (p ∷ ps) = elim (last_value k ps) [
  | some v ↦ some v
  | none ↦ if p.key == k then some p.value else none
]

-- The values of all properties with the key `k`, in order.
unfoldable pub all_values : String → List Property → List String
all_values k [] = []
all_values k (p ∷ ps) = if p.key == k then p.value ∷ all_values k ps else all_values k ps

-- A loop over properties whose body sets a field by the key `k`, and by no other, leaves the last
-- value of that key there.
module _ {ℓ} {S : Type ℓ} (step : S → Property → S) (field : S → String) (k : String)
    (sets : (s : S) (p : Property)
      → field (step s p) ≡ (if p.key == k then p.value else field s)) where
  pub foldl-last_value :
      (ps : List Property) (s : S) → field (foldl step s ps) ≡ or_else (last_value k ps) (field s)
  unfolding last_value
  foldl-last_value [] s = refl
  foldl-last_value (p ∷ ps) s = ground (arith, foldl-last_value ps (step s p), sets s p)

-- To prove a statement about a property, prove it where the key is `k` and where it is not.
pub by_key {ℓ} :
    (k : String) (P : Property → Type ℓ)
    → ((v : String) → P (record { key = k; value = v }))
    → ((p : Property) → (p.key == k) ≡ false → P p)
    → (p : Property) → P p
by_key k P at_key elsewhere p = elim (Bool-cases (p.key == k)) [
  | inl e ↦
      subst (λ j. P (record { key = j; value = p.value })) (sym ((eq_iff p.key k).0 e))
        (at_key p.value)
  | inr e ↦ elsewhere p e
]

-- That value, or the empty text that a field has by default.
abbrev pub value_of : String → List Property → String
value_of k ps = or_else (last_value k ps) ""

-- The properties whose key is not among those that a test names, in order.
unfoldable pub rest_of : (String → Bool) → List Property → List Property
rest_of named [] = []
rest_of named (p ∷ ps) = if named p.key then rest_of named ps else p ∷ rest_of named ps

-- Such a loop over a list of values appends the values of the key.
module _ {ℓ} {S : Type ℓ} (step : S → Property → S) (field : S → List String) (k : String)
    (sets : (s : S) (p : Property)
      → field (step s p) ≡ (if p.key == k then field s ++ p.value ∷ [] else field s)) where
  pub foldl-all_values :
      (ps : List Property) (s : S) → field (foldl step s ps) ≡ field s ++ all_values k ps
  unfolding all_values
  foldl-all_values [] s = sym (append-nil (field s))
  foldl-all_values (p ∷ ps) s = ground (
    arith,
    foldl-all_values ps (step s p),
    sets s p,
    append_assoc (field s) (p.value ∷ []) (all_values k ps),
  )

-- A loop whose body keeps the properties with no named key appends those.
module _ {ℓ} {S : Type ℓ} (step : S → Property → S) (field : S → List Property)
    (named : String → Bool)
    (sets : (s : S) (p : Property)
      → field (step s p) ≡ (if named p.key then field s else field s ++ p ∷ [])) where
  pub foldl-rest_of :
      (ps : List Property) (s : S) → field (foldl step s ps) ≡ field s ++ rest_of named ps
  unfolding rest_of
  foldl-rest_of [] s = sym (append-nil (field s))
  foldl-rest_of (p ∷ ps) s = ground (
    arith,
    foldl-rest_of ps (step s p),
    sets s p,
    append_assoc (field s) (p ∷ []) (rest_of named ps),
  )

-- The property that a table holds under a key, by the last value of that key.
abbrev pub property_of : String → Option String → Option Property
property_of k none = none
property_of k (some v) = some (record { key = k; value = v })

abbrev property_or : String → Option String → Option Property → Option Property
property_or k none o = o
property_or k (some v) o = some (record { key = k; value = v })

property_or-none : (k : String) (o : Option String) → property_or k o none ≡ property_of k o
property_or-none k none = refl
property_or-none k (some v) = refl

-- A loop whose body puts the properties with no named key into a table.
module _ {ℓ} {S : Type ℓ} (step : S → Property → S) (table : S → Table Property)
    (named : String → Bool)
    (sets : (s : S) (p : Property) (j : String)
      → lookup j (table (step s p)) ≡ (
          if named p.key
          then lookup j (table s)
          else if p.key == j
          then some p
          else lookup j (table s))) where
  foldl-property_or :
      (ps : List Property) (s : S) (j : String)
      → lookup j (table (foldl step s ps)) ≡ (
          if named j
          then lookup j (table s)
          else property_or j (last_value j ps) (lookup j (table s)))
  unfolding last_value
  foldl-property_or [] s j = ground arith
  foldl-property_or (p ∷ ps) s j = ground (
    arith,
    foldl-property_or ps (step s p) j,
    sets s p j,
    eq_iff p.key j,
    λ (e : p.key ≡ j). ap named e,
  )

  pub foldl-property_of :
      (ps : List Property) (s : S) (j : String)
      → lookup j (table s) ≡ none
      → lookup j (table (foldl step s ps))
        ≡ (if named j then none else property_of j (last_value j ps))
  foldl-property_of ps s j h =
      foldl-property_or ps s j ∙ rw (h, property_or-none j (last_value j ps))

-- The same for a field that is read from the value by `f`.
abbrev pub read_or {ℓ} : {B : Type ℓ} → (String → B) → Option String → B → B
read_or f none d = d
read_or f (some v) d = f v

module _ {ℓ κ} {S : Type ℓ} {B : Type κ} (step : S → Property → S) (field : S → B) (f : String → B)
    (k : String)
    (sets : (s : S) (p : Property)
      → field (step s p) ≡ (if p.key == k then f p.value else field s)) where
  pub foldl-read_or :
      (ps : List Property) (s : S) → field (foldl step s ps) ≡ read_or f (last_value k ps) (field s)
  unfolding last_value
  foldl-read_or [] s = refl
  foldl-read_or (p ∷ ps) s = elim (Option-cases (last_value k ps)) [
    | inl e ↦ foldl-read_or ps (step s p) ∙ rw e (sets s p ∙ read_if (p.key == k) p.value (field s))
    | inr e ↦ foldl-read_or ps (step s p) ∙ rw e.1
  ]
    where
      read_if :
          (b : Bool) (v : String) (d : B)
          → (if b then f v else d) ≡ read_or f (if b then some v else none) d
      read_if true v d = refl
      read_if false v d = refl
