-- ===== src/Actions/Action/Split.antt =====
-- `split_property` and the property that a payload text adds.
use Prim.Native.Char.{code}
use Prim.Native.String.{[], ◌∷◌}
use ips.Base.{
  ℕ, String, ◌≡◌, refl, ◌∙◌, true, false, List, ◌++◌, arith, Bool-cases, nat_eq, inl, inr,
}
use ips.Base.Outcome.{ok}
use ips.Base.Text.{◌<>◌, contains_char, split, strip_quotes, is_empty_str}
use ips.Base.Text.Laws.{split-none, split-at, contains-append}
use ips.Actions.Action.{Property, Action, split_property, first_two, properties_with_payload}

abbrev pub NoEquals : String → Type 0
NoEquals s = contains_char b'=' s ≡ false

contains_here : (c : ℕ) (a b : String) → contains_char c b ≡ true → contains_char c (a <> b) ≡ true
contains_here c a b h = contains-append c a b ∙ ground (arith, h)

split-pair :
    (k v : String)
    → NoEquals k
    → split_property (k <> "=" <> v) ≡ first_two (List.◌∷◌ k (split b'=' v))
unfolding split_property contains_char
split-pair k v h = rw (contains_here b'=' k ("=" <> v) refl, split-at b'=' "=" k v refl h)

-- Where `k` and `v` hold no `=`, the text `k` is a key with an empty value, `k=v` is a key and its value
-- less the quotes and backslashes, and what stands behind a second `=` is dropped.
pub split_property_lem :
    (k v rest : String)
    → NoEquals k
    → NoEquals v
    → (split_property k ≡ ok (k, ""))
      × (split_property (k <> "=" <> v) ≡ ok (k, strip_quotes v))
      × (split_property (k <> "=" <> v <> "=" <> rest) ≡ ok (k, strip_quotes v))
unfolding split_property
split_property_lem k v rest hk hv = (
  rw hk,
  split-pair k v hk ∙ rw (split-none b'=' v hv),
  split-pair k (v <> "=" <> rest) hk ∙ rw (split-at b'=' "=" v rest refl hv),
)

split_one : (c : ℕ) (s : String) → (a : String) × (ps : List String) × (split c s ≡ List.◌∷◌ a ps)
unfolding split
split_one c [] = ([], List.[], refl)
split_one c (d ∷ s) =
    let (a, ps, q) = split_one c s in
    elim (Bool-cases (nat_eq (code d) c)) [
      | inl e ↦ ([], List.◌∷◌ a ps, ground (arith, q))
      | inr e ↦ (d ∷ a, ps, ground (arith, q))
    ]

-- A text that holds a separator has two parts at least.
split_two :
    (c : ℕ) (s : String)
    → contains_char c s ≡ true
    → (a : String) × (b : String) × (ps : List String) × (split c s ≡ List.◌∷◌ a (List.◌∷◌ b ps))
unfolding split contains_char
split_two c [] h = cc
split_two c (d ∷ s) h = elim (Bool-cases (nat_eq (code d) c)) [
  | inl e ↦ let (a, ps, q) = split_one c s in ([], a, ps, ground (arith, q))
  | inr e ↦ let (a, b, ps, q) = split_two c s (ground arith) in (d ∷ a, b, ps, ground (arith, q))
]

pub split_property_total : (s : String) → (kv : String × String) × (split_property s ≡ ok kv)
unfolding split_property
split_property_total s = elim (Bool-cases (contains_char b'=' s)) [
  | inl e ↦ let (a, b, ps, q) = split_two b'=' s e in ((a, strip_quotes b), rw (e, q))
  | inr e ↦ ((s, ""), rw e)
]

-- The properties are always found.
pub properties_with_payload_total :
    (act : Action) → (ps : List Property) × (properties_with_payload act ≡ ok ps)
unfolding properties_with_payload
properties_with_payload_total act = elim (Bool-cases (is_empty_str act.payload_string)) [
  | inl e ↦ (act.properties, rw e)
  | inr e ↦
      let (kv, q) = split_property_total act.payload_string in
      (act.properties ++ List.◌∷◌ (record { key = kv.0; value = kv.1 }) List.[], rw (e, q))
]

-- `replace` leaves no quote and no backslash, and nothing to do a second time.
pub strip_quotes_lem :
    (s : String)
    → (contains_char 34 (strip_quotes s) ≡ false)
      × (contains_char 92 (strip_quotes s) ≡ false)
      × (strip_quotes (strip_quotes s) ≡ strip_quotes s)
unfolding strip_quotes contains_char
strip_quotes_lem [] = (refl, refl, refl)
strip_quotes_lem (d ∷ s) = ground (arith, strip_quotes_lem s)
