-- ===== src/Specfile/Entries.antt =====
-- The entries of a spec file, the pairs of them, and what they state.
use ips.Base.{
  ◌<◌, String, Bool, false, ◌≡◌, List, [], ◌∷◌, ◌++◌, some, ◌⊎◌, ◌≢◌, ◌||◌, ◌^◌, ◌==◌,
  if◌then◌else◌, length,
}
use ips.Base.Table.{lookup}
use ips.Base.Pest.{Pair, Pairs, pair, nil, cons}
use ips.Base.Text.{◌<>◌, trim_end, join}
use ips.Specfile.{SpecFile, Rule}

-- A line of a section: a text or a comment. The rule `section_line` spans the newline too, so the line
-- has a text of its own, `whole`; that of `section_text` and of `comment_line` ends before the newline.
pub data Line : Type 0 where
  text_line : (whole text : String) → Line
  comment : (whole text : String) → Line

-- The variables whose value spans lines or is empty have rules of their own, which the walk has no arm
-- for.
pub data Entry : Type 0 where
  assignment : (text key value : String) → Entry
  section_entry : (text title : String) → List Line → Entry
  other_variable : (text : String) → Pairs Rule → Entry

-- The pairs of the crate `pest` for these.
abbrev pub line_pairs : List Line → Pairs Rule
line_pairs [] = nil
line_pairs (text_line w t ∷ ls) =
    cons (pair Rule.section_line w (cons (pair Rule.section_text t nil) nil)) (line_pairs ls)
line_pairs (comment w t ∷ ls) =
    cons (pair Rule.section_line w (cons (pair Rule.other t nil) nil)) (line_pairs ls)

abbrev pub entry_pair : Entry → Pair Rule
entry_pair (assignment text key value) =
    pair Rule.variable text
      (cons (pair Rule.variable_name key nil) (cons (pair Rule.variable_text value nil) nil))
entry_pair (section_entry text title ls) =
    pair Rule.section text (cons (pair Rule.section_name title nil) (line_pairs ls))
entry_pair (other_variable text inner) = pair Rule.other text inner

abbrev pub entry_pairs : List Entry → Pairs Rule
entry_pairs [] = cons (pair Rule.eoi "" nil) nil
entry_pairs (e ∷ es) = cons (entry_pair e) (entry_pairs es)

-- The texts of a section, without the comments.
abbrev pub texts : List Line → List String
texts [] = []
texts (text_line w t ∷ ls) = t ∷ texts ls
texts (comment w t ∷ ls) = texts ls

-- The sections that are kept as one text.
pub data Script : Type 0 where
  description prep build install changelog : Script

abbrev pub title_of : Script → String
title_of description = "description"
title_of prep = "prep"
title_of build = "build"
title_of install = "install"
title_of changelog = "changelog"

abbrev pub script : Script → SpecFile → String
script description spec = spec.description
script prep spec = spec.prep_script
script build spec = spec.build_script
script install spec = spec.install_script
script changelog spec = spec.changelog

-- What one entry states of the text of the sections with the title `k`: its lines joined.
abbrev pub given_script : String → Entry → String
given_script k (section_entry text title ls) = if title == k then join "\n" (texts ls) else ""
given_script k _ = ""

abbrev pub trimmed : List String → List String
trimmed [] = []
trimmed (t ∷ ts) = trim_end t ∷ trimmed ts

-- Its lines, without the blanks at their ends, if it is a section "files".
abbrev pub given_files : Entry → List String
given_files (section_entry text title ls) = if title == "files" then trimmed (texts ls) else []
given_files _ = []

-- The value that it assigns to `k`, or else `d`.
abbrev pub assigned {ℓ} : {A : Type ℓ} → (String → A) → String → Entry → A → A
assigned f k (assignment text key value) d = if key == k then f value else d
assigned f k _ d = d

-- The text of all sections with the title `k`, one straight behind the other.
unfoldable pub stated_script : String → List Entry → String
stated_script k [] = ""
stated_script k (e ∷ es) = given_script k e <> stated_script k es

unfoldable pub stated_files : List Entry → List String
stated_files [] = []
stated_files (e ∷ es) = given_files e ++ stated_files es

-- The value of the last assignment to `k`, and `d` where there is none.
unfoldable pub last_assigned {ℓ} : {A : Type ℓ} → (String → A) → String → List Entry → A → A
last_assigned f k [] d = d
last_assigned f k (e ∷ es) d = last_assigned f k es (assigned f k e d)

-- The variables that have a field.
unfoldable pub is_known : String → Bool
is_known k = k == "Name" || k == "Version" || k == "Release" || k == "Summary" || k == "License"

abbrev itself : String → String
itself v = v

-- The spec file `after` is `before` with what the entries state.
pub record Adds (es : List Entry) (before after : SpecFile) : Type 0 where
  pub name_field : after.name ≡ last_assigned itself "Name" es before.name
  pub version_field : after.version ≡ last_assigned itself "Version" es before.version
  pub release_field : after.release ≡ last_assigned itself "Release" es before.release
  pub summary_field : after.summary ≡ last_assigned itself "Summary" es before.summary
  pub license_field : after.license ≡ last_assigned itself "License" es before.license
  pub variable_table :
      (k : String)
      → lookup k after.variables ≡ (
          if is_known k
          then lookup k before.variables
          else last_assigned some k es (lookup k before.variables))
  pub scripts : (s : Script) → script s after ≡ script s before <> stated_script (title_of s) es
  pub file_lines : after.files ≡ before.files ++ stated_files es
  pub no_sources : after.sources ≡ before.sources

-- The same for one entry.
pub record AddsOne (e : Entry) (before after : SpecFile) : Type 0 where
  pub name_field : after.name ≡ assigned itself "Name" e before.name
  pub version_field : after.version ≡ assigned itself "Version" e before.version
  pub release_field : after.release ≡ assigned itself "Release" e before.release
  pub summary_field : after.summary ≡ assigned itself "Summary" e before.summary
  pub license_field : after.license ≡ assigned itself "License" e before.license
  pub variable_table :
      (k : String)
      → lookup k after.variables ≡ (
          if is_known k
          then lookup k before.variables
          else assigned some k e (lookup k before.variables))
  pub scripts : (s : Script) → script s after ≡ script s before <> given_script (title_of s) e
  pub file_lines : after.files ≡ before.files ++ given_files e
  pub no_sources : after.sources ≡ before.sources

-- A title that the `match` has no arm for.
abbrev pub IsUnknown : String → Type 0
IsUnknown k =
    ((k == "description") ≡ false)
    × ((k == "prep") ≡ false)
    × ((k == "build") ≡ false)
    × ((k == "files") ≡ false)
    × ((k == "install") ≡ false)
    × ((k == "changelog") ≡ false)

-- An entry that the walk has no arm for: a section of an unknown title with some text, or a variable
-- whose value spans lines or is empty.
abbrev pub IsFatal : Entry → Type 0
IsFatal (assignment text key value) = ⊥
IsFatal (section_entry text title ls) = IsUnknown title × (texts ls ≢ [])
IsFatal (other_variable text inner) = Unit

abbrev pub SomeFatal : List Entry → Type 0
SomeFatal [] = ⊥
SomeFatal (e ∷ es) = IsFatal e ⊎ SomeFatal es

-- The count of a section's lines fits its counter, an `i32`.
abbrev pub IsShort : Entry → Type 0
IsShort (section_entry text title ls) = length (texts ls) < 2 ^ 31
IsShort _ = Unit
