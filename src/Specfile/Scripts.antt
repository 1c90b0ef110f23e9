-- ===== src/Specfile/Scripts.antt =====
-- What a section changes of a spec file, and what it leaves.
use ips.Base.{
  String, Bool, true, false, ◌≡◌, refl, sym, List, [], ◌++◌, ◌==◌, if◌then◌else◌, append-nil,
}
use ips.Base.Text.{◌<>◌}
use ips.Base.Text.Laws.{<>_nil}
use ips.Specfile.{SpecFile}
use ips.Specfile.Entries.{
  Script, description, prep, build, install, changelog, title_of, script, IsUnknown,
}
use ips.Specfile.Sections.{put}

pub script-put :
    (s j : Script) (t : String) (spec : SpecFile)
    → script s (put j t spec) ≡ script s spec <> (if title_of j == title_of s then t else "")
script-put description description t spec = refl
script-put description prep t spec = sym (<>_nil (script description spec))
script-put description build t spec = sym (<>_nil (script description spec))
script-put description install t spec = sym (<>_nil (script description spec))
script-put description changelog t spec = sym (<>_nil (script description spec))
script-put prep description t spec = sym (<>_nil (script prep spec))
script-put prep prep t spec = refl
script-put prep build t spec = sym (<>_nil (script prep spec))
script-put prep install t spec = sym (<>_nil (script prep spec))
script-put prep changelog t spec = sym (<>_nil (script prep spec))
script-put build description t spec = sym (<>_nil (script build spec))
script-put build prep t spec = sym (<>_nil (script build spec))
script-put build build t spec = refl
script-put build install t spec = sym (<>_nil (script build spec))
script-put build changelog t spec = sym (<>_nil (script build spec))
script-put install description t spec = sym (<>_nil (script install spec))
script-put install prep t spec = sym (<>_nil (script install spec))
script-put install build t spec = sym (<>_nil (script install spec))
script-put install install t spec = refl
script-put install changelog t spec = sym (<>_nil (script install spec))
script-put changelog description t spec = sym (<>_nil (script changelog spec))
script-put changelog prep t spec = sym (<>_nil (script changelog spec))
script-put changelog build t spec = sym (<>_nil (script changelog spec))
script-put changelog install t spec = sym (<>_nil (script changelog spec))
script-put changelog changelog t spec = refl

-- What no section changes.
abbrev pub SameFields : SpecFile → SpecFile → Type 0
SameFields before after =
    (after.name ≡ before.name)
    × (after.version ≡ before.version)
    × (after.release ≡ before.release)
    × (after.summary ≡ before.summary)
    × (after.license ≡ before.license)
    × (after.variables ≡ before.variables)
    × (after.sources ≡ before.sources)

pub same_fields : (before : SpecFile) → SameFields before before
same_fields before = (refl, refl, refl, refl, refl, refl, refl)

pub put-SameFields : (j : Script) (t : String) (spec : SpecFile) → SameFields spec (put j t spec)
put-SameFields description t spec = same_fields spec
put-SameFields prep t spec = same_fields spec
put-SameFields build t spec = same_fields spec
put-SameFields install t spec = same_fields spec
put-SameFields changelog t spec = same_fields spec

pub files-put : (j : Script) (t : String) (spec : SpecFile) → (put j t spec).files ≡ spec.files
files-put description t spec = refl
files-put prep t spec = refl
files-put build t spec = refl
files-put install t spec = refl
files-put changelog t spec = refl

pub not_files : (s : Script) → (title_of s == "files") ≡ false
not_files description = refl
not_files prep = refl
not_files build = refl
not_files install = refl
not_files changelog = refl

pub not_title : (s : Script) → ("files" == title_of s) ≡ false
not_title description = refl
not_title prep = refl
not_title build = refl
not_title install = refl
not_title changelog = refl

pub known_title : (s : Script) → ¬ IsUnknown (title_of s)
known_title description h = cc
known_title prep h = cc
known_title build h = cc
known_title install h = cc
known_title changelog h = cc

pub script-files :
    (s : Script) (spec : SpecFile) (fs : List String)
    → script s (record spec { files = fs }) ≡ script s spec
script-files description spec fs = refl
script-files prep spec fs = refl
script-files build spec fs = refl
script-files install spec fs = refl
script-files changelog spec fs = refl

pub script_quiet :
    (s : Script) (spec : SpecFile) (b : Bool)
    → script s spec ≡ script s spec <> (if b then "" else "")
script_quiet s spec true = sym (<>_nil (script s spec))
script_quiet s spec false = sym (<>_nil (script s spec))

pub files_quiet : (fs : List String) (b : Bool) → fs ≡ fs ++ (if b then [] else [])
files_quiet fs true = sym (append-nil fs)
files_quiet fs false = sym (append-nil fs)

pub unchanged : (spec : SpecFile) (fs : List String) → SameFields spec (record spec { files = fs })
unchanged spec fs = same_fields spec
