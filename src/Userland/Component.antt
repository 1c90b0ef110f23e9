-- ===== src/Userland/Component.antt =====
-- userland/src/component.rs: what a makefile says of its component.
pub mod Sources
use Prim.Native.Nat.{ℕ}
use ips.Base.{String, Bool, Option, none, some, List, [], ◌∷◌, map, ◌==◌, if◌then◌else◌}
use ips.Base.Outcome.{Outcome, ok, err, panic, map_err, ok_or, ◌>>=◌}
use ips.Base.Table.{Table, lookup}
use ips.Userland.Makefile.{Makefile, MakefileVariable}
use ips.Userland.Makefile.Resolve.{get_first_value}

pub data BuildStyle : Type 0 where
  configure cmake make meson custom : BuildStyle

pub data ComponentOptionPlatform : Type 0 where
  all intel sparc arm : ComponentOptionPlatform

pub record ComponentOption : Type 0 where
  pub platform : ComponentOptionPlatform
  pub opt : String

-- A stack that runs out aborts the program, as a panic does.
abbrev pub or_abort {ℓ κ} : {E : Type ℓ} {A : Type κ} → Option (Outcome ⊥ A) → Outcome E A
or_abort none = panic
or_abort (some o) = map_err (λ e. absurd e) o

-- The crates `semver` and `url`, and `parse` into an `i32`.
pub record Parsers : Type 1 where
  pub Version : Type 0
  pub parse_version : String → Option Version
  pub Url : Type 0
  pub parse_url : String → Option Url
  pub I32 : Type 0
  pub parse_i32 : String → Option I32
  pub zero_i32 : I32

pub data ComponentError : Type 0 where
  missing_version bad_version bad_url no_source : ComponentError

module _ (parsers : Parsers) where
  open parsers use {Version, parse_version, Url, parse_url, I32, parse_i32, zero_i32}

  pub data Source : Type 0 where
    git_source : (url : Url) → Source
    archive_source : (version : Version) (hash : Option String) (url : Url) → Source

  pub record Component : Type 0 where
    pub version : Version
    pub revision : Option I32
    pub sources : Table Source
    pub options : List ComponentOption
    pub build_style : BuildStyle

  -- The options, as they stand in the variable.
  abbrev pub options_of : Option MakefileVariable → List ComponentOption
  options_of none = []
  options_of (some opts) = map (λ v. record { platform = all; opt = v }) opts.values

  abbrev pub style_of : Option String → BuildStyle
  style_of none = configure
  style_of (some s) =
      if s == "justmake"
      then make
      else if s == "cmake"
      then cmake
      else if s == "meson"
      then meson
      else if s == "custom"
      then custom
      else configure

  abbrev revision_or_zero : Option I32 → I32
  revision_or_zero none = zero_i32
  revision_or_zero (some n) = n

  abbrev pub revision_of : Option String → Option I32
  revision_of none = none
  revision_of (some s) = some (revision_or_zero (parse_i32 s))

  abbrev or_error {ℓ} : {A : Type ℓ} → ComponentError → Option A → Outcome ComponentError A
  or_error e none = err e
  or_error e (some a) = ok a

  -- The `if let` chain that chooses the source.
  unfoldable pub source_of :
      Version
      → Option String
      → Option String
      → Option String
      → Option String
      → Outcome ComponentError (String × Source)
  source_of ver (some name) (some url) git hash = do
    u ← or_error bad_url (parse_url url)
    ok (name, archive_source ver hash u)
  source_of ver (some name) none (some url) hash = do
    u ← or_error bad_url (parse_url url)
    ok (name, git_source u)
  source_of ver name archive git hash = err no_source

  -- `Component::new_from_makefile`, over the way to read a variable's first value.
  unfoldable pub new_with :
      (String → Outcome ComponentError (Option String))
      → Makefile
      → Outcome ComponentError Component
  unfolding source_of
  new_with get m = do
    let opts = options_of (lookup "CONFIGURE_OPTIONS" m.variables)
    version ← get "COMPONENT_VERSION"
    text ← or_error missing_version version
    ver ← or_error bad_version (parse_version text)
    revision ← get "COMPONENT_REVISION"
    component_src ← get "COMPONENT_SRC"
    archive_url ← get "COMPONENT_ARCHIVE_URL"
    git_url ← get "GIT_URL"
    archive_hash ← get "COMPONENT_ARCHIVE_HASH"
    style ← get "BUILD_STYLE"
    src ← source_of ver component_src archive_url git_url archive_hash
    ok (record {
      version = ver;
      revision = revision_of revision;
      sources = src ∷ [];
      options = opts;
      build_style = style_of style;
    })

  module _ (captures : String → List String) (fuel : ℕ) where
    -- `Component::new_from_makefile`.
    unfoldable pub new_from_makefile : Makefile → Outcome ComponentError Component
    unfolding new_with get_first_value
    new_from_makefile m = new_with (λ name. or_abort (get_first_value captures fuel m name)) m
