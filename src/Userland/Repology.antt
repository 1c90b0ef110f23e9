-- ===== src/Userland/Repology.antt =====
-- userland/src/repology.rs: the newest version that Repology knows of a package.
pub mod Newest
use ips.Base.{String, Bool, true, false, Option, none, some, List, [], ◌∷◌, map, if◌then◌else◌}
use ips.Base.Text.{◌<>◌}
use ips.Base.Outcome.{Outcome, ok, err, panic, ◌>>=◌}

pub record Package : Type 0 where
  pub repo : String
  pub name : Option String
  pub version : String
  pub sub_repo : Option String
  pub orig_version : Option String
  pub status : Option String
  pub summary : Option String
  pub family : Option String
  pub categories : Option (List String)
  pub licenses : Option (List String)
  pub maintainers : Option (List String)
  pub www : Option (List String)
  pub downloads : Option (List String)

-- `BASE_URL`.
abbrev pub base_url : String
base_url = "https://repology.org/api/v1/"

-- `project`; `get` parses the address, asks for it and reads the JSON of the answer.
unfoldable pub project :
    {E : Type 0} → (String → Outcome E (List Package)) → String → Outcome E (List Package)
project get name = get (base_url <> "/project/" <> name)

-- The crate `semver`: its parser, `Version::new(0, 0, 1)`, the order as `<=`, and `to_string`.
pub record Semver : Type 1 where
  pub Version : Type 0
  pub parse : String → Option Version
  pub first_version : Version
  pub le : Version → Version → Bool
  pub to_string : Version → String

-- `last`.
unfoldable pub last : {A : Type 0} → List A → Option A
last [] = none
last (x ∷ xs) = elim (last xs) [ none ↦ some x | some y ↦ some y ]

module _ (semver : Semver) where
  open semver use {Version, parse, first_version, le, to_string}

  -- `sort`, which is stable: each element goes before the first that is not less.
  unfoldable pub insert_sorted : Version → List Version → List Version
  insert_sorted v [] = v ∷ []
  insert_sorted v (w ∷ ws) =
      let rest = insert_sorted v ws in if le v w then v ∷ w ∷ ws else w ∷ rest

  unfoldable pub sort : List Version → List Version
  unfolding insert_sorted
  sort [] = []
  sort (v ∷ vs) = insert_sorted v (sort vs)

  abbrev pub or_first_version : Option Version → Version
  or_first_version none = first_version
  or_first_version (some v) = v

  -- The closure over the packages, which returns no error.
  unfoldable pub version_of : Package → Version
  version_of p = or_first_version (parse p.version)

  -- `last().unwrap().to_string()`.
  abbrev pub text_or_panic : {E : Type 0} → Option Version → Outcome E String
  text_or_panic none = panic
  text_or_panic (some v) = ok (to_string v)

  module _ {E : Type 0} (project : String → Outcome E (List Package)) where
    -- `find_newest_version`; `project` is the request.
    unfoldable pub find_newest_version : String → Outcome E String
    unfolding sort last
    find_newest_version pkg = do
      pkgs ← project pkg
      text_or_panic (last (sort (map version_of pkgs)))
