-- ===== src/Actions/Manifest.antt =====
-- `Manifest`: adding actions, and the walk over the pairs that the grammar yields.
pub mod Grammar
pub mod Order
pub mod Panics
pub mod Tokens
use ips.Base.{String, List, [], ◌∷◌, ◌++◌}
use ips.Base.Outcome.{Outcome, ok, err, panic, map_err, ◌>>=◌}
use ips.Base.Pest.{Pairs, pair, nil, cons}
use ips.Base.Text.{strip_quotes}
use ips.Actions.Action.{
  Property, Action, default, ActionKind, attr, dir, file, dependency, user, group, driver, license,
  link, legacy, unknown, get_action_kind,
}
use ips.Actions.Dir
use ips.Actions.Dir.{Dir}
use ips.Actions.File
use ips.Actions.File.{File}
use ips.Actions.Dependency
use ips.Actions.Dependency.{Dependency}
use ips.Actions.Attr
use ips.Actions.Attr.{Attr}
use ips.Actions.License
use ips.Actions.License.{License}
use ips.Actions.Link
use ips.Actions.Link.{Link}

pub record Manifest : Type 0 where
  pub attributes : List Attr
  pub directories : List Dir
  pub files : List File
  pub dependencies : List Dependency
  pub licenses : List License
  pub links : List Link

-- `Manifest::new`.
abbrev pub new : Manifest
new = record {
  attributes = [];
  directories = [];
  files = [];
  dependencies = [];
  licenses = [];
  links = [];
}

-- `Manifest::add_file`.
unfoldable pub add_file : File → Manifest → Manifest
add_file f m = record m { files = m.files ++ f ∷ [] }

-- The `match act.kind`.
unfoldable pub add_kind : ActionKind → Action → Manifest → Outcome ⊥ Manifest
add_kind attr act m = do
  a ← Attr.from_action act
  ok (record m { attributes = m.attributes ++ a ∷ [] })
add_kind dir act m = do
  d ← Dir.from_action act
  ok (record m { directories = m.directories ++ d ∷ [] })
add_kind file act m = do f ← File.from_action act; ok (record m { files = m.files ++ f ∷ [] })
add_kind dependency act m = do
  d ← Dependency.from_action act
  ok (record m { dependencies = m.dependencies ++ d ∷ [] })
add_kind user act m = panic
add_kind group act m = panic
add_kind driver act m = panic
add_kind license act m = do
  l ← License.from_action act
  ok (record m { licenses = m.licenses ++ l ∷ [] })
add_kind link act m = do l ← Link.from_action act; ok (record m { links = m.links ++ l ∷ [] })
add_kind legacy act m = panic
add_kind ActionKind.transform act m = panic
add_kind (unknown action) act m = panic

-- `Manifest::add_action`.
unfoldable pub add_action : Action → Manifest → Outcome ⊥ Manifest
unfolding add_kind
add_action act m = add_kind act.kind act m

-- The rules of manifest.pest that the walk tells apart; `other` is each other rule.
pub data Rule : Type 0 where
  manifest action action_name payload property property_name property_value transform eoi : Rule
  whitespace other : Rule

-- The loop over a property's pairs.
unfoldable pub read_property : Property → Pairs Rule → Outcome ⊥ Property
read_property p nil = ok p
read_property p (cons (pair Rule.property_name text inner) rest) =
    read_property (record p { key = text }) rest
read_property p (cons (pair Rule.property_value text inner) rest) =
    read_property (record p { value = strip_quotes text }) rest
read_property p (cons (pair _ text inner) rest) = panic

-- The loop over an action's pairs.
unfoldable pub read_action : Action → Pairs Rule → Outcome ⊥ Action
read_action act nil = ok act
read_action act (cons (pair Rule.action_name text inner) rest) =
    read_action (record act { kind = get_action_kind text }) rest
read_action act (cons (pair Rule.payload text inner) rest) =
    read_action (record act { payload_string = text }) rest
read_action act (cons (pair Rule.property text inner) rest) = do
  p ← read_property (record { key = ""; value = "" }) inner
  read_action (record act { properties = act.properties ++ p ∷ [] }) rest
read_action act (cons (pair Rule.eoi text inner) rest) = read_action act rest
read_action act (cons (pair _ text inner) rest) = panic

-- The loop over a manifest's pairs.
unfoldable pub read_manifest : Manifest → Pairs Rule → Outcome ⊥ Manifest
read_manifest m nil = ok m
read_manifest m (cons (pair Rule.action text inner) rest) = do
  act ← read_action default inner
  m' ← add_action act m
  read_manifest m' rest
read_manifest m (cons (pair Rule.eoi text inner) rest) = read_manifest m rest
read_manifest m (cons (pair Rule.transform text inner) rest) = read_manifest m rest
read_manifest m (cons (pair _ text inner) rest) = panic

-- The loop over the outermost pairs.
unfoldable pub read_pairs : Manifest → Pairs Rule → Outcome ⊥ Manifest
read_pairs m nil = ok m
read_pairs m (cons (pair Rule.manifest text inner) rest) = do
  m' ← read_manifest m inner
  read_pairs m' rest
read_pairs m (cons (pair Rule.whitespace text inner) rest) = read_pairs m rest
read_pairs m (cons (pair _ text inner) rest) = panic

-- No error comes from the walk; it returns or panics.
abbrev pub no_error {ℓ κ} : {E : Type ℓ} {A : Type κ} → Outcome ⊥ A → Outcome E A
no_error o = map_err (λ e. absurd e) o

module _ {E : Type 0} (parse : String → Outcome E (Pairs Rule)) where
  -- `Manifest::parse_string`; `parse` is the parser that `pest` generates from manifest.pest.
  unfoldable pub parse_string : String → Outcome E Manifest
  parse_string content = do pairs ← parse content; no_error (read_pairs new pairs)

  -- `Manifest::parse_file`; `read` is the file system.
  unfoldable pub parse_file : (String → Outcome E String) → String → Outcome E Manifest
  unfolding parse_string
  parse_file read path = do content ← read path; parse_string content

-- Actions added one after another, as the walk does.
unfoldable pub add_all : List Action → Manifest → Outcome ⊥ Manifest
add_all [] m = ok m
add_all (act ∷ acts) m = do m' ← add_action act m; add_all acts m'
