-- ===== src/Specfile/Assignments.antt =====
-- What an assignment of a spec file does: the `match` on the name of the variable.
use ips.Base.{
  String, true, false, ◌≡◌, refl, sym, ap, subst, ◌∙◌, ◌⊎◌, inl, inr, Option, some, ◌==◌,
  if◌then◌else◌, arith, append-nil, eq_iff, Bool-cases,
}
use ips.Base.Table.{Table, lookup, insert, lookup-insert}
use ips.Base.Text.Laws.{<>_nil}
use ips.Specfile.{
  SpecFile, KnownVariableControl, name, version, release, summary, license, none, control_of,
  name_tmp_of, store_text,
}
use ips.Specfile.Entries.{
  assignment, Script, description, prep, build, install, changelog, script, assigned, is_known,
  AddsOne,
}

-- The variables that have a field, each with its name.
abbrev IsField : KnownVariableControl → Type 0
IsField none = ⊥
IsField _ = Unit

abbrev literal : KnownVariableControl → String
literal name = "Name"
literal version = "Version"
literal release = "Release"
literal summary = "Summary"
literal license = "License"
literal none = ""

by_control :
    (P : KnownVariableControl → Type 0)
    → P name
    → P version
    → P release
    → P summary
    → P license
    → (c : KnownVariableControl) → IsField c
    → P c
by_control P n v r s l name h = n
by_control P n v r s l version h = v
by_control P n v r s l release h = r
by_control P n v r s l summary h = s
by_control P n v r s l license h = l
by_control P n v r s l none h = absurd h

control_of-literal :
    (c : KnownVariableControl)
    → IsField c
    → (control_of (literal c) ≡ c) × (is_known (literal c) ≡ true)
unfolding control_of is_known
control_of-literal name h = (refl, refl)
control_of-literal version h = (refl, refl)
control_of-literal release h = (refl, refl)
control_of-literal summary h = (refl, refl)
control_of-literal license h = (refl, refl)
control_of-literal none h = absurd h

-- What no variable changes.
script-store_text :
    (s : Script) (c : KnownVariableControl) (tmp v : String) (spec : SpecFile)
    → script s (store_text c tmp v spec) ≡ script s spec
script-store_text description name tmp v spec = refl
script-store_text description _ tmp v spec = refl
script-store_text prep name tmp v spec = refl
script-store_text prep _ tmp v spec = refl
script-store_text build name tmp v spec = refl
script-store_text build _ tmp v spec = refl
script-store_text install name tmp v spec = refl
script-store_text install _ tmp v spec = refl
script-store_text changelog name tmp v spec = refl
script-store_text changelog _ tmp v spec = refl

files-store_text :
    (c : KnownVariableControl) (tmp v : String) (spec : SpecFile)
    → ((store_text c tmp v spec).files ≡ spec.files)
      × ((store_text c tmp v spec).sources ≡ spec.sources)
files-store_text name tmp v spec = (refl, refl)
files-store_text _ tmp v spec = (refl, refl)

known_table :
    (text key value k : String) (d : Option String)
    → is_known key ≡ true
    → d ≡ (if is_known k then d else assigned some k (assignment text key value) d)
known_table text key value k d h = ground (arith, eq_iff key k, λ (e : key ≡ k). ap is_known e)

known-AddsOne :
    (c : KnownVariableControl) (text tmp value : String) (spec : SpecFile)
    → IsField c
    → AddsOne (assignment text (literal c) value) spec (store_text c tmp value spec)
known-AddsOne c text tmp value spec h = record {
  name_field =
      by_control
        (λ c.
          (store_text c tmp value spec).name ≡ (if literal c == "Name" then value else spec.name))
        refl refl refl refl refl c h;
  version_field =
      by_control
        (λ c.
          (store_text c tmp value spec).version
          ≡ (if literal c == "Version" then value else spec.version))
        refl refl refl refl refl c h;
  release_field =
      by_control
        (λ c.
          (store_text c tmp value spec).release
          ≡ (if literal c == "Release" then value else spec.release))
        refl refl refl refl refl c h;
  summary_field =
      by_control
        (λ c.
          (store_text c tmp value spec).summary
          ≡ (if literal c == "Summary" then value else spec.summary))
        refl refl refl refl refl c h;
  license_field =
      by_control
        (λ c.
          (store_text c tmp value spec).license
          ≡ (if literal c == "License" then value else spec.license))
        refl refl refl refl refl c h;
  variable_table = λ k.
      by_control (λ c. lookup k (store_text c tmp value spec).variables ≡ lookup k spec.variables)
        refl refl refl refl refl c h
      ∙ known_table text (literal c) value k (lookup k spec.variables) (control_of-literal c h).1;
  scripts = λ s. script-store_text s c tmp value spec ∙ sym (<>_nil (script s spec));
  file_lines = (files-store_text c tmp value spec).0 ∙ sym (append-nil spec.files);
  no_sources = (files-store_text c tmp value spec).1;
}

-- A name that has no field.
record IsOther (key : String) : Type 0 where
  not_name : (key == "Name") ≡ false
  not_version : (key == "Version") ≡ false
  not_release : (key == "Release") ≡ false
  not_summary : (key == "Summary") ≡ false
  not_license : (key == "License") ≡ false

control_of-IsOther : (key : String) → IsOther key → (control_of key ≡ none) × (is_known key ≡ false)
unfolding control_of is_known
control_of-IsOther key o =
    rw (o.not_name, o.not_version, o.not_release, o.not_summary, o.not_license) (refl, refl)

other_table :
    (text key value k : String) (t : Table String)
    → is_known key ≡ false
    → lookup k (insert key value t) ≡ (
        if is_known k then lookup k t else assigned some k (assignment text key value) (lookup k t))
other_table text key value k t h =
    ground (arith, lookup-insert key k value t, eq_iff key k, λ (e : key ≡ k). ap is_known e)

other-AddsOne :
    (text key value : String) (spec : SpecFile)
    → IsOther key
    → AddsOne (assignment text key value) spec (store_text none key value spec)
other-AddsOne text key value spec o = record {
  name_field = rw o.not_name refl;
  version_field = rw o.not_version refl;
  release_field = rw o.not_release refl;
  summary_field = rw o.not_summary refl;
  license_field = rw o.not_license refl;
  variable_table = λ k. other_table text key value k spec.variables (control_of-IsOther key o).1;
  scripts = λ s. script-store_text s none key value spec ∙ sym (<>_nil (script s spec));
  file_lines = sym (append-nil spec.files);
  no_sources = refl;
}

key_cases :
    (key : String) → ((c : KnownVariableControl) × IsField c × (key ≡ literal c)) ⊎ IsOther key
key_cases key = elim (Bool-cases (key == "Name")) [
  | inl e ↦ inl (name, tt, (eq_iff key "Name").0 e)
  | inr a ↦ elim (Bool-cases (key == "Version")) [
    | inl e ↦ inl (version, tt, (eq_iff key "Version").0 e)
    | inr b ↦ elim (Bool-cases (key == "Release")) [
      | inl e ↦ inl (release, tt, (eq_iff key "Release").0 e)
      | inr c ↦ elim (Bool-cases (key == "Summary")) [
        | inl e ↦ inl (summary, tt, (eq_iff key "Summary").0 e)
        | inr d ↦ elim (Bool-cases (key == "License")) [
          | inl e ↦ inl (license, tt, (eq_iff key "License").0 e)
          | inr f ↦ inr (record {
            not_name = a;
            not_version = b;
            not_release = c;
            not_summary = d;
            not_license = f;
          })
        ]
      ]
    ]
  ]
]

-- The spec file behind an assignment.
abbrev pub stored : String → String → SpecFile → SpecFile
stored key value spec = store_text (control_of key) (name_tmp_of (control_of key) key "") value spec

pub stored-AddsOne :
    (text key value : String) (spec : SpecFile)
    → AddsOne (assignment text key value) spec (stored key value spec)
stored-AddsOne text key value spec = elim (key_cases key) [
  | inl t ↦
      let (c, h, e) = t in
      subst (λ k. AddsOne (assignment text k value) spec (stored k value spec)) (sym e)
        (subst
          (λ d.
            AddsOne (assignment text (literal c) value) spec
              (store_text d (name_tmp_of d (literal c) "") value spec))
          (sym (control_of-literal c h).0)
          (known-AddsOne c text (name_tmp_of c (literal c) "") value spec h))
  | inr o ↦
      subst
        (λ d.
          AddsOne (assignment text key value) spec (store_text d (name_tmp_of d key "") value spec))
        (sym (control_of-IsOther key o).0) (other-AddsOne text key value spec o)
]
