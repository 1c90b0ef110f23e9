-- ===== src/Specfile.antt =====
-- specfile/src/lib.rs: the walk over the pairs of a spec file.
pub mod Entries
pub mod Sections
pub mod Assignments
pub mod Scripts
pub mod Steps
pub mod Stated
pub mod Kept
pub mod Macros
use ips.Base.{ℕ, ◌+◌, String, List, [], ◌∷◌, ◌++◌, ◌==◌, nat_eq, if◌then◌else◌, ◌%◌, ◌^◌}
use ips.Base.Outcome.{Outcome, ok, err, panic, map_err, ◌>>=◌}
use ips.Base.Pest.{Pairs, pair, nil, cons}
use ips.Base.Table.{Table, insert}
use ips.Base.Text.{◌<>◌, trim_end}

pub record SpecFile : Type 0 where
  pub name : String
  pub version : String
  pub release : String
  pub summary : String
  pub license : String
  pub sources : List String
  pub variables : Table String
  pub description : String
  pub prep_script : String
  pub build_script : String
  pub install_script : String
  pub files : List String
  pub changelog : String

-- `SpecFile::default()`.
abbrev pub default : SpecFile
default = record {
  name = "";
  version = "";
  release = "";
  summary = "";
  license = "";
  sources = [];
  variables = [];
  description = "";
  prep_script = "";
  build_script = "";
  install_script = "";
  files = [];
  changelog = "";
}

pub data KnownVariableControl : Type 0 where
  name version release summary license none : KnownVariableControl

-- `append_newline_string`; the `i32` is its bit pattern.
unfoldable pub append_newline_string : String → ℕ → String
append_newline_string s section_line = if nat_eq section_line 0 then s else "\n" <> s

-- `section_line += 1`, which wraps in a release build.
abbrev pub next_line : ℕ → ℕ
next_line section_line = (section_line + 1) % 2 ^ 32

-- The rules of specfile.pest that the walk tells apart; `other` is each other rule.
pub data Rule : Type 0 where
  variable variable_name variable_text section section_name section_line section_text : Rule
  eoi other : Rule

-- The `match` on a variable's name.
unfoldable pub control_of : String → KnownVariableControl
control_of s =
    if s == "Name"
    then name
    else if s == "Version"
    then version
    else if s == "Release"
    then release
    else if s == "Summary"
    then summary
    else if s == "License"
    then license
    else none

-- `var_name_tmp`, which only the last arm sets.
abbrev pub name_tmp_of : KnownVariableControl → String → String → String
name_tmp_of none text tmp = text
name_tmp_of _ text tmp = tmp

-- The `match` on `var_control`.
abbrev pub store_text : KnownVariableControl → String → String → SpecFile → SpecFile
store_text name tmp text spec = record spec { name = text }
store_text version tmp text spec = record spec { version = text }
store_text release tmp text spec = record spec { release = text }
store_text summary tmp text spec = record spec { summary = text }
store_text license tmp text spec = record spec { license = text }
store_text none tmp text spec = record spec { variables = insert tmp text spec.variables }

-- The loop over a variable's pairs.
unfoldable pub read_variable : KnownVariableControl → String → SpecFile → Pairs Rule → SpecFile
read_variable control tmp spec nil = spec
read_variable control tmp spec (cons (pair Rule.variable_name text inner) rest) =
    read_variable (control_of text) (name_tmp_of (control_of text) text tmp) spec rest
read_variable control tmp spec (cons (pair Rule.variable_text text inner) rest) =
    read_variable control tmp (store_text control tmp text spec) rest
read_variable control tmp spec (cons (pair _ text inner) rest) = read_variable control tmp spec rest

-- The `match` on a section's name, for one text of it.
unfoldable pub push_text : String → String → SpecFile × ℕ → Outcome ⊥ (SpecFile × ℕ)
push_text section_name_tmp text (spec, n) =
    let t = append_newline_string text n in
    if section_name_tmp == "description"
    then ok (record spec { description = spec.description <> t }, next_line n)
    else if section_name_tmp == "prep"
    then ok (record spec { prep_script = spec.prep_script <> t }, next_line n)
    else if section_name_tmp == "build"
    then ok (record spec { build_script = spec.build_script <> t }, next_line n)
    else if section_name_tmp == "files"
    then ok (record spec { files = spec.files ++ trim_end text ∷ [] }, n)
    else if section_name_tmp == "install"
    then ok (record spec { install_script = spec.install_script <> t }, next_line n)
    else if section_name_tmp == "changelog"
    then ok (record spec { changelog = spec.changelog <> t }, next_line n)
    else panic

-- The loop over a line's pairs; a comment is passed over.
unfoldable pub read_line : String → SpecFile × ℕ → Pairs Rule → Outcome ⊥ (SpecFile × ℕ)
read_line section_name_tmp s nil = ok s
read_line section_name_tmp s (cons (pair Rule.section_text text inner) rest) = do
  s' ← push_text section_name_tmp text s
  read_line section_name_tmp s' rest
read_line section_name_tmp s (cons (pair _ text inner) rest) = read_line section_name_tmp s rest

-- The loop over a section's pairs.
unfoldable pub read_section : String → SpecFile × ℕ → Pairs Rule → Outcome ⊥ SpecFile
unfolding read_line
read_section section_name_tmp s nil = ok s.0
read_section section_name_tmp s (cons (pair Rule.section_name text inner) rest) =
    read_section text s rest
read_section section_name_tmp s (cons (pair Rule.section_line text inner) rest) = do
  s' ← read_line section_name_tmp s inner
  read_section section_name_tmp s' rest
read_section section_name_tmp s (cons (pair _ text inner) rest) = panic

-- The loop over the pairs of the file.
unfoldable pub read_pairs : SpecFile → Pairs Rule → Outcome ⊥ SpecFile
unfolding read_section
read_pairs spec nil = ok spec
read_pairs spec (cons (pair Rule.variable text inner) rest) =
    read_pairs (read_variable none "" spec inner) rest
read_pairs spec (cons (pair Rule.section text inner) rest) = do
  spec' ← read_section "" (spec, 0) inner
  read_pairs spec' rest
read_pairs spec (cons (pair Rule.eoi text inner) rest) = read_pairs spec rest
read_pairs spec (cons (pair _ text inner) rest) = panic

module _ {E : Type 0} (parser : String → Outcome E (Pairs Rule)) where
  -- `parse`; `parser` is the parser that `pest` generates from specfile.pest.
  unfoldable pub parse : String → Outcome E SpecFile
  unfolding read_pairs
  parse file_contents = do
    pairs ← parser file_contents
    map_err (λ e. absurd e) (read_pairs default pairs)
