-- ===== src/Specfile/Stated.antt =====
-- A parsed spec file holds what its entries state.
use ips.Base.{
  String, ◌≡◌, ◌↔◌, refl, sym, ap, ◌∙◌, List, [], ◌∷◌, ◌++◌, ◌⊎◌, inl, inr, All, arith,
  append_assoc, append-nil,
}
use ips.Base.Outcome.{Outcome, ok, panic}
use ips.Base.Pest.{Pairs}
use ips.Base.Text.{◌<>◌}
use ips.Base.Text.Laws.{<>_assoc, <>_nil}
use ips.Specfile.{SpecFile, default, Rule, read_pairs, parse}
use ips.Specfile.Entries.{
  Entry, entry_pairs, title_of, script, given_script, given_files, stated_script, stated_files,
  last_assigned, Adds, AddsOne, SomeFatal, IsShort,
}
use ips.Specfile.Steps.{entry-Steps}

Adds-nil : (spec : SpecFile) → Adds [] spec spec
unfolding last_assigned stated_script stated_files
Adds-nil spec = record {
  name_field = refl;
  version_field = refl;
  release_field = refl;
  summary_field = refl;
  license_field = refl;
  variable_table = λ k. ground arith;
  scripts = λ s. sym (<>_nil (script s spec));
  file_lines = sym (append-nil spec.files);
  no_sources = refl;
}

Adds-cons :
    (e : Entry) (es : List Entry) (a b c : SpecFile)
    → AddsOne e a b
    → Adds es b c
    → Adds (e ∷ es) a c
unfolding last_assigned stated_script stated_files
Adds-cons e es a b c one rest = record {
  name_field = rest.name_field ∙ ap (last_assigned (λ v. v) "Name" es) one.name_field;
  version_field = rest.version_field ∙ ap (last_assigned (λ v. v) "Version" es) one.version_field;
  release_field = rest.release_field ∙ ap (last_assigned (λ v. v) "Release" es) one.release_field;
  summary_field = rest.summary_field ∙ ap (last_assigned (λ v. v) "Summary" es) one.summary_field;
  license_field = rest.license_field ∙ ap (last_assigned (λ v. v) "License" es) one.license_field;
  variable_table = λ k. ground (arith, rest.variable_table k, one.variable_table k);
  scripts = λ s.
      rest.scripts s
      ∙ ap (λ t. t <> stated_script (title_of s) es) (one.scripts s)
      ∙ <>_assoc (script s a) (given_script (title_of s) e) (stated_script (title_of s) es);
  file_lines =
      rest.file_lines
      ∙ ap (λ t. t ++ stated_files es) one.file_lines
      ∙ append_assoc a.files (given_files e) (stated_files es);
  no_sources = rest.no_sources ∙ one.no_sources;
}

-- The whole walk: it adds what the entries state, or it panics and one of them is fatal.
abbrev Walks : List Entry → SpecFile → Type 0
Walks es before =
    ((after : SpecFile) × Adds es before after
      × ¬ SomeFatal es
      × (read_pairs before (entry_pairs es) ≡ ok after))
    ⊎ (SomeFatal es × (read_pairs before (entry_pairs es) ≡ panic))

walks : (es : List Entry) (spec : SpecFile) → All IsShort es → Walks es spec
walks [] spec h = inl (spec, Adds-nil spec, (λ f. f), unfold read_pairs in refl)
walks (e ∷ es) spec (h, hs) = elim (entry-Steps e spec h) [
  | inl t ↦
      let (mid, one, safe, step) = t in
      elim (walks es mid hs) [
        | inl u ↦
            let (after, adds, clear, r) = u in
            inl (
              after,
              Adds-cons e es spec mid after one adds,
              (elim [ inl f ↦ safe f | inr f ↦ clear f ]),
              step (entry_pairs es) ∙ r,
            )
        | inr u ↦ let (f, r) = u in inr (inr f, step (entry_pairs es) ∙ r)
      ]
  | inr t ↦ let (f, step) = t in inr (inl f, step (entry_pairs es))
]

module _ {E : Type 0} (parser : String → Outcome E (Pairs Rule)) where
  -- Where the parser finds the entries `es` in a text, none of them fatal and each section with fewer than
  -- 2 ^ 31 lines of text, the spec file is returned that holds what they state: in each field the last value
  -- assigned to its name, in each script the sections of its title, each with its lines joined by newlines
  -- and straight behind the one before, all lines of the sections "files", the last values of the other
  -- variables, and no sources.
  pub parse-Adds :
      (content : String) (es : List Entry)
      → parser content ≡ ok (entry_pairs es)
      → All IsShort es
      → ¬ SomeFatal es
      → (spec : SpecFile) × (parse parser content ≡ ok spec) × Adds es default spec
  unfolding parse
  parse-Adds content es h short safe = elim (walks es default short) [
    | inl t ↦ let (spec, adds, clear, r) = t in (spec, rw (h, r) refl, adds)
    | inr t ↦ absurd (safe t.0)
  ]

  -- Where the parser finds the entries `es` in a text, each section with fewer than 2 ^ 31
  -- lines of text, `parse` panics exactly when one of them is fatal: a variable whose value spans lines or
  -- is empty, or a section of an unknown title with some text.
  pub parse-panic :
      (content : String) (es : List Entry)
      → parser content ≡ ok (entry_pairs es)
      → All IsShort es
      → (parse parser content ≡ panic) ↔ SomeFatal es
  unfolding parse
  parse-panic content es h short = elim (walks es default short) [
    | inl t ↦ let (spec, adds, clear, r) = t in rw (h, r) ((λ q. cc), (λ f. absurd (clear f)))
    | inr t ↦ let (f, r) = t in rw (h, r) ((λ q. f), (λ q. refl))
  ]
