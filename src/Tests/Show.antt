-- ===== src/Tests/Show.antt =====
-- What is shown of a component, on a concrete input.
use ips.Base.{
  true, String, ◌≡◌, ◌≢◌, refl, Option, none, some, List, [], ◌∷◌, ◌++◌, All, ◌==◌, if◌then◌else◌,
}
use ips.Base.Outcome.{Outcome, ok, err, panic}
use ips.Base.Pest.{Pairs}
use ips.Base.Table.{lookup, insert}
use ips.Base.Paths.{join_path}
use ips.Userland.Makefile.{Makefile, MakefileVariable, set, merge, get_includes, vars_to_string}
use ips.Userland.Makefile.Resolve.{
  get, get_first_value, resolve_values, resolve_captures, get_variable,
}
use ips.Userland.Makefile.Parse.{Rule, parse_string, parse_makefile, parse_variable}
use ips.Userland.Makefile.Parse.Statements.{Statement, assign, file_pairs}
use ips.Userland.Makefile.Include.{
  System, parse_all, parse_single_file, parse_included_makefiles, merge_each,
}
use ips.Userland.Component.{
  Parsers, Component, configure, archive_source, source_of, new_with, new_from_makefile,
}
use ips.Userland.Repology.{Semver, Package, find_newest_version}
use ips.Pkg6dev.Show.{Tools, read_makefile, show_component_info}
use ips.Pkg6dev.Show.Lines.{looked_up, shown, asked_name, show_component_info-lines}

abbrev text_parsers : Parsers
text_parsers = record {
  Version = String;
  parse_version = λ s. some s;
  Url = String;
  parse_url = λ s. some s;
  I32 = String;
  parse_i32 = λ s. some s;
  zero_i32 = "0";
}

-- Versions that are texts, kept in the order that they come in.
abbrev texts_semver : Semver
texts_semver = record {
  Version = String;
  parse = λ s. some s;
  first_version = "0";
  le = λ v w. true;
  to_string = λ v. v;
}

-- A request that fails.
abbrev offline : String → Outcome String (List Package)
offline name = err "offline"

-- The only reference is that of a variable to itself.
abbrev loop_captures : String → List String
loop_captures value = if value == "$(LOOP)" then "$(LOOP)" ∷ [] else []

abbrev statements : List Statement
statements =
    assign "" "COMPONENT_NAME" (some "tar")
    ∷ assign "" "COMPONENT_VERSION" (some "1")
    ∷ assign "" "COMPONENT_SRC" (some "tar-1")
    ∷ assign "" "COMPONENT_ARCHIVE_URL" (some "tar.gz")
    ∷ assign "" "LOOP" (some "$(LOOP)")
    ∷ []

abbrev small_parser : String → Outcome String (Pairs Rule)
small_parser content = ok (file_pairs content statements)

abbrev small_system : System String
small_system = record {
  read_to_string = λ cwd path. if path == "tar/Makefile" then ok "" else err path;
  parent = λ path. some "/";
  enter = λ cwd dir. ok dir;
  canonicalize = λ cwd name. ok name;
}

abbrev held : String → String → String × MakefileVariable
held key value = (key, record { key = ""; values = value ∷ []; mode = set })

abbrev tar_makefile : Makefile
tar_makefile = record {
  path = "";
  variables =
      held "COMPONENT_NAME" "tar"
      ∷ held "COMPONENT_VERSION" "1"
      ∷ held "COMPONENT_SRC" "tar-1"
      ∷ held "COMPONENT_ARCHIVE_URL" "tar.gz"
      ∷ held "LOOP" "$(LOOP)"
      ∷ [];
  includes = [];
}

abbrev tar : Component text_parsers
tar = record {
  version = "1";
  revision = none;
  sources = ("tar-1", archive_source "1" none "tar.gz") ∷ [];
  options = [];
  build_style = configure;
}

abbrev component_text : Component text_parsers → String
component_text c = c.version

abbrev error_text : String → String
error_text e = e

abbrev small_tools : Tools String String
small_tools = record {
  parsers = text_parsers;
  captures = loop_captures;
  fuel = 1;
  system = small_system;
  parser = small_parser;
  semver = texts_semver;
  project = offline;
  debug_component = component_text;
  debug_error = error_text;
}

abbrev joined : Option MakefileVariable → Option String
joined none = none
joined (some var) = some (vars_to_string var.values)

abbrev value_of : String → Option String
value_of k = joined (lookup k tar_makefile.variables)

-- The variables that are looked up resolve, though `LOOP` does not.
looked_up-resolve : All (λ k. get loop_captures 1 tar_makefile k ≡ some (value_of k)) looked_up
unfolding get get_variable resolve_values resolve_captures lookup
looked_up-resolve = (refl, (refl, (refl, (refl, (refl, (refl, (refl, (refl, (refl, tt)))))))))

tar-read : read_makefile small_tools (join_path "tar" "Makefile") "/" ≡ ok tar_makefile
unfolding join_path parse_all merge_each parse_included_makefiles get_includes parse_single_file
    parse_string parse_makefile parse_variable insert merge
tar-read = refl

tar-described : new_from_makefile text_parsers loop_captures 1 tar_makefile ≡ ok tar
unfolding new_from_makefile new_with source_of lookup get_first_value resolve_values
    resolve_captures
tar-described = refl

tar-named : get_first_value loop_captures 1 tar_makefile "COMPONENT_NAME" ≡ some (ok (some "tar"))
unfolding get_first_value lookup resolve_values resolve_captures
tar-named = refl

offline-answers :
    find_newest_version texts_semver offline
      (asked_name small_tools (value_of "COMPONENT_NAME") (some "tar"))
    ≢ panic
unfolding find_newest_version
offline-answers h = cc

show_component_info-lines_example :
    show_component_info small_tools "tar" "/" (record { printed = []; written = [] }) ≡ (
      ok tt,
      record {
        printed =
            []
            ++ shown small_tools value_of
                (find_newest_version texts_semver offline
                  (asked_name small_tools (value_of "COMPONENT_NAME") (some "tar")))
                tar;
        written = [];
      },
    )
show_component_info-lines_example =
    show_component_info-lines small_tools tar_makefile value_of looked_up-resolve "tar" "/" tar
      (some "tar") (record { printed = []; written = [] }) tar-read tar-described tar-named
      offline-answers
