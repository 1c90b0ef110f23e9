-- ===== src/Tests/Components.antt =====
-- A component from a makefile on a concrete input.
use ips.Base.{String, ◌≡◌, refl, some, none, Option, [], ◌∷◌, ◌==◌, if◌then◌else◌}
use ips.Base.Outcome.{Outcome, ok}
use ips.Base.Table.{lookup}
use ips.Userland.Makefile.{default}
use ips.Userland.Component.{
  Parsers, ComponentError, Component, configure, archive_source, Source, source_of, new_with,
}
use ips.Userland.Component.Sources.{Comes, new_with-Comes}

-- Parsers that keep the text.
abbrev text_parsers : Parsers
text_parsers = record {
  Version = String;
  parse_version = λ s. some s;
  Url = String;
  parse_url = λ s. some s;
  I32 = String;
  parse_i32 = λ s. some s;
  zero_i32 = "0";
}

-- The variables of a component with an archive.
abbrev archive_values : String → Outcome ComponentError (Option String)
archive_values name =
    if name == "COMPONENT_VERSION"
    then ok (some "1.2.3")
    else if name == "COMPONENT_SRC"
    then ok (some "tar-1.2.3")
    else if name == "COMPONENT_ARCHIVE_URL"
    then ok (some "https://example.org/tar.gz")
    else ok none

abbrev tar : Component text_parsers
tar = record {
  version = "1.2.3";
  revision = none;
  sources = ("tar-1.2.3", archive_source "1.2.3" none "https://example.org/tar.gz") ∷ [];
  options = [];
  build_style = configure;
}

new_with-tar : new_with text_parsers archive_values default ≡ ok tar
unfolding new_with source_of lookup
new_with-tar = refl

new_with-Comes_example :
    (text : String) × (src : Option String) × (archive : Option String) × (git : Option String)
    × (hash : Option String) × (name : String) × (s : Source text_parsers) × (archive_values
          "COMPONENT_VERSION"
        ≡ ok (some text))
    × (text_parsers.parse_version text ≡ some tar.version)
    × (archive_values "COMPONENT_SRC" ≡ ok src)
    × (archive_values "COMPONENT_ARCHIVE_URL" ≡ ok archive)
    × (archive_values "GIT_URL" ≡ ok git)
    × (archive_values "COMPONENT_ARCHIVE_HASH" ≡ ok hash)
    × (tar.sources ≡ (name, s) ∷ [])
    × Comes text_parsers tar.version src archive git hash name s
new_with-Comes_example = new_with-Comes text_parsers archive_values default tar new_with-tar
