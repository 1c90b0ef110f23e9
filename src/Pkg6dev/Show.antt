-- ===== src/Pkg6dev/Show.antt =====
-- pkg6dev/src/main.rs: `show_component_info` and `main`. A stack that runs out aborts, as a panic does.
pub mod Lines
use ips.Base.{ℕ, String, Option, none, some, List}
use ips.Base.Outcome.{Outcome, ok, err, panic, map_err}
use ips.Base.Pest.{Pairs}
use ips.Base.Text.{◌<>◌}
use ips.Base.Text.Replace.{replace}
use ips.Userland.Makefile.{Makefile}
use ips.Userland.Makefile.Parse as Parse
use ips.Userland.Makefile.Include as Include
use ips.Userland.Makefile.Include.{parse_single_file, parse_all}
use ips.Userland.Makefile.Resolve.{get, get_first_value}
use ips.Userland.Component.{Parsers, Component, ComponentError, new_from_makefile, or_abort}
use ips.Userland.Repology.{Semver, Package, find_newest_version}
use ips.Base.Paths.{join_path}
use ips.Pkg6dev.Printing.{Output, Printing, ◌>>=◌, ◌>>◌, pure, lift, println}

pub data ShowError (E : Type 0) : Type 0 where
  makefile_error : E → ShowError E
  component_error : ComponentError → ShowError E

-- The indentation of the further lines of a value.
abbrev pub indented : String → String
indented var = replace "\n" "\n\t" var

abbrev pub value_or_abort : {E A : Type 0} → Option A → Outcome E A
value_or_abort none = panic
value_or_abort (some a) = ok a

abbrev made : {E A : Type 0} → Option (Outcome E A × String) → Outcome E A
made none = panic
made (some (o, cwd)) = o

abbrev pub text_or_empty : Option String → String
text_or_empty none = ""
text_or_empty (some t) = t

-- A value that is printed with its further lines indented, if it is set.
abbrev pub show_line : {E : Type 0} → String → Option String → Printing (ShowError E) (Unit {0})
show_line label none = pure tt
show_line label (some var) = println (label <> indented var)

-- The last value, whose lines stay as they are.
abbrev pub show_plain : {E : Type 0} → String → Option String → Printing (ShowError E) (Unit {0})
show_plain label none = pure tt
show_plain label (some var) = println (label <> var)

-- What the command uses: the crates behind a component, the captures of the makefile's variables and the
-- bound on the stack, the system and the parser of makefiles, the order of versions and the request to
-- Repology, and the `Debug` texts.
pub record Tools (E NetError : Type 0) : Type 1 where
  pub parsers : Parsers
  pub captures : String → List String
  pub fuel : ℕ
  pub system : Include.System E
  pub parser : String → Outcome E (Pairs Parse.Rule)
  pub semver : Semver
  pub project : String → Outcome NetError (List Package)
  pub debug_component : Component parsers → String
  pub debug_error : NetError → String

module _ {E NetError : Type 0} (tools : Tools E NetError) where
  open tools use {
    parsers, captures, fuel, system, parser, semver, project, debug_component, debug_error,
  }

  -- The makefile with those that it includes.
  abbrev pub read_makefile : String → String → Outcome E Makefile
  read_makefile path cwd =
      made (Include.◌>>=◌ (parse_single_file system parser path) (parse_all system parser fuel) cwd)

  abbrev pub show_variable : Makefile → String → String → Printing (ShowError E) (Unit {0})
  show_variable makefile variable label = do
    var ← lift (value_or_abort (get captures fuel makefile variable))
    show_line label var

  -- The `if let` on the name: the first of its values, or no text.
  abbrev pub show_name : Makefile → Option String → Printing (ShowError E) String
  show_name makefile none = pure ""
  show_name makefile (some var) = do
    println ("Name: " <> indented var)
    first ← lift (or_abort (get_first_value captures fuel makefile "COMPONENT_NAME"))
    pure (text_or_empty first)

  -- The `if` on the newest version, whose error is only printed.
  abbrev pub latest_line : Outcome NetError String → Printing (ShowError E) (Unit {0})
  latest_line (ok latest_version) = println ("Latest Version: " <> latest_version)
  latest_line (err e) = println ("Error: Could not get latest version info: " <> debug_error e)
  latest_line panic = lift panic

  abbrev pub show_version : String → Option String → Printing (ShowError E) (Unit {0})
  show_version name none = pure tt
  show_version name (some var) = do
    println ("Version: " <> indented var)
    latest_line (find_newest_version semver project name)

  -- What is shown of a makefile that was read.
  unfoldable pub show_makefile : Makefile → Printing (ShowError E) (Unit {0})
  unfolding find_newest_version
  show_makefile makefile = do
    component ← lift (map_err component_error (new_from_makefile parsers captures fuel makefile))
    name_var ← lift (value_or_abort (get captures fuel makefile "COMPONENT_NAME"))
    name ← show_name makefile name_var
    version_var ← lift (value_or_abort (get captures fuel makefile "COMPONENT_VERSION"))
    show_version name version_var
    show_variable makefile "BUILD_BITS" "Build bits: "
    show_variable makefile "COMPONENT_BUILD_ACTION" "Build action: "
    show_variable makefile "COMPONENT_PROJECT_URL" "Project URl: "
    show_variable makefile "COMPONENT_ARCHIVE_URL" "Source URl: "
    show_variable makefile "COMPONENT_ARCHIVE_HASH" "Source Archive File Hash: "
    show_variable makefile "REQUIRED_PACKAGES" "Dependencies:\n\t"
    install_var ← lift (value_or_abort (get captures fuel makefile "COMPONENT_INSTALL_ACTION"))
    show_plain "Install Action:\n\t" install_var
    println ("Component: " <> debug_component component)

  -- `show_component_info`.
  unfoldable pub show_component_info : String → String → Printing (ShowError E) (Unit {0})
  unfolding show_makefile join_path
  show_component_info component_path cwd = do
    makefile ←
        lift (map_err makefile_error (read_makefile (join_path component_path "Makefile") cwd))
    show_makefile makefile
