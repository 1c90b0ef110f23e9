-- ===== src/Specfile/Steps.antt =====
-- What one entry of a spec file does to the walk.
use ips.Base.{
  String, ◌≡◌, refl, sym, ap, subst, ◌∙◌, List, ◌++◌, ◌⊎◌, inl, inr, ◌==◌, arith, append-nil,
}
use ips.Base.Outcome.{panic}
use ips.Base.Pest.{Pairs, cons}
use ips.Base.Table.{lookup}
use ips.Base.Text.{◌<>◌, join}
use ips.Base.Text.Laws.{<>_nil}
use ips.Specfile.{SpecFile, Rule, read_variable, read_pairs}
use ips.Specfile.Entries.{
  Line, Entry, assignment, section_entry, other_variable, entry_pair, texts, trimmed, Script,
  title_of, script, given_script, given_files, AddsOne, IsUnknown, IsFatal, IsShort,
}
use ips.Specfile.Assignments.{stored, stored-AddsOne}
use ips.Specfile.Sections.{
  put, read_section-join, read_section-files, read_section-IsUnknown, title_cases,
}
use ips.Specfile.Scripts.{
  SameFields, put-SameFields, unchanged, script-put, files-put, not_files, not_title, known_title,
  script-files, script_quiet, files_quiet,
}

-- What one entry does to the walk: it adds what it states, or it panics and is fatal.
abbrev pub Steps : Entry → SpecFile → Type 0
Steps e before =
    ((after : SpecFile) × AddsOne e before after
      × ¬ IsFatal e
      × ((rest : Pairs Rule)
          → read_pairs before (cons (entry_pair e) rest) ≡ read_pairs after rest))
    ⊎ (IsFatal e × ((rest : Pairs Rule) → read_pairs before (cons (entry_pair e) rest) ≡ panic))

section-AddsOne :
    (text title : String) (ls : List Line) (before after : SpecFile)
    → SameFields before after
    → ((s : Script)
        → script s after
          ≡ script s before <> given_script (title_of s) (section_entry text title ls))
    → after.files ≡ before.files ++ given_files (section_entry text title ls)
    → AddsOne (section_entry text title ls) before after
section-AddsOne text title ls before after same scripts files = record {
  name_field = same.0;
  version_field = same.1;
  release_field = same.2;
  summary_field = same.3;
  license_field = same.4;
  variable_table = λ k. ap (lookup k) same.5 ∙ ground arith;
  scripts = scripts;
  file_lines = files;
  no_sources = same.6;
}

script-Steps :
    (text : String) (s : Script) (ls : List Line) (spec : SpecFile)
    → IsShort (section_entry text (title_of s) ls)
    → Steps (section_entry text (title_of s) ls) spec
unfolding read_pairs
script-Steps text s ls spec h =
    let t = join "\n" (texts ls) in
    inl (
      put s t spec,
      section-AddsOne text (title_of s) ls spec (put s t spec) (put-SameFields s t spec)
          (λ k. script-put k s t spec)
          (files-put s t spec ∙ rw (not_files s) (sym (append-nil spec.files))),
      (λ f. known_title s f.0),
      λ rest. rw (read_section-join s ls spec (omega arith)) refl,
    )

files-Steps :
    (text : String) (ls : List Line) (spec : SpecFile) → Steps (section_entry text "files" ls) spec
unfolding read_pairs
files-Steps text ls spec =
    let after = record spec { files = spec.files ++ trimmed (texts ls) } in
    inl (
      after,
      section-AddsOne text "files" ls spec after (unchanged spec after.files)
          (λ s.
            script-files s spec after.files ∙ sym (<>_nil (script s spec)) ∙ rw (not_title s) refl)
          refl,
      (λ f. let q = f.0.3 in cc),
      λ rest. rw (read_section-files ls spec 0) refl,
    )

unknown-Steps :
    (text title : String) (ls : List Line) (spec : SpecFile)
    → IsUnknown title
    → Steps (section_entry text title ls) spec
unfolding read_pairs join
unknown-Steps text title ls spec h = elim (read_section-IsUnknown title ls spec 0 h) [
  | inl t ↦ inl (
    spec,
    section-AddsOne text title ls spec spec (unchanged spec spec.files)
        (λ s. rw t.0 (script_quiet s spec (title == title_of s)))
        (rw t.0 (files_quiet spec.files (title == "files"))),
    (λ f. f.1 t.0),
    λ rest. rw t.1 refl,
  )
  | inr t ↦ inr ((h, t.0), λ rest. rw t.1 refl)
]

pub entry-Steps : (e : Entry) (spec : SpecFile) → IsShort e → Steps e spec
unfolding read_pairs read_variable
entry-Steps (assignment text key value) spec h =
    inl (stored key value spec, stored-AddsOne text key value spec, (λ f. f), λ rest. refl)
entry-Steps (section_entry text title ls) spec h = elim (title_cases title) [
  | inl t ↦
      let (s, e) = t in
      subst (λ k. Steps (section_entry text k ls) spec) (sym e) (script-Steps text s ls spec h)
  | inr o ↦ elim o [
    | inl e ↦ subst (λ k. Steps (section_entry text k ls) spec) (sym e) (files-Steps text ls spec)
    | inr u ↦ unknown-Steps text title ls spec u
  ]
]
entry-Steps (other_variable text inner) spec h = inr (tt, λ rest. refl)
