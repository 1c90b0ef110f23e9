-- ===== src/Specfile/Sections.antt =====
-- The loop over the lines of a section.
use ips.Base.{
  ℕ, suc, ◌+◌, ◌<◌, ◌^◌, String, ◌≡◌, ◌≢◌, refl, sym, ap, ◌∙◌, List, [], ◌∷◌, ◌++◌, ◌⊎◌, inl, inr,
  ◌==◌, length, arith, append_assoc, append-nil, eq_iff, Bool-cases,
}
use ips.Base.Outcome.{ok, panic}
use ips.Base.Text.{◌<>◌, trim_end, join}
use ips.Base.Text.Laws.{<>_assoc, <>_nil, newlined, join-newlined}
use ips.Specfile.{SpecFile, append_newline_string, next_line, push_text, read_section}
use ips.Specfile.Entries.{
  Line, text_line, comment, line_pairs, texts, trimmed, Script, description, prep, build, install,
  changelog, title_of, IsUnknown,
}

-- The spec file with a text behind that of a script.
abbrev pub put : Script → String → SpecFile → SpecFile
put description t spec = record spec { description = spec.description <> t }
put prep t spec = record spec { prep_script = spec.prep_script <> t }
put build t spec = record spec { build_script = spec.build_script <> t }
put install t spec = record spec { install_script = spec.install_script <> t }
put changelog t spec = record spec { changelog = spec.changelog <> t }

put-nil : (s : Script) (spec : SpecFile) → put s "" spec ≡ spec
put-nil description spec = ap (λ t. record spec { description = t }) (<>_nil spec.description)
put-nil prep spec = ap (λ t. record spec { prep_script = t }) (<>_nil spec.prep_script)
put-nil build spec = ap (λ t. record spec { build_script = t }) (<>_nil spec.build_script)
put-nil install spec = ap (λ t. record spec { install_script = t }) (<>_nil spec.install_script)
put-nil changelog spec = ap (λ t. record spec { changelog = t }) (<>_nil spec.changelog)

put-put :
    (s : Script) (a b : String) (spec : SpecFile) → put s b (put s a spec) ≡ put s (a <> b) spec
put-put description a b spec =
    ap (λ t. record spec { description = t }) (<>_assoc spec.description a b)
put-put prep a b spec = ap (λ t. record spec { prep_script = t }) (<>_assoc spec.prep_script a b)
put-put build a b spec = ap (λ t. record spec { build_script = t }) (<>_assoc spec.build_script a b)
put-put install a b spec =
    ap (λ t. record spec { install_script = t }) (<>_assoc spec.install_script a b)
put-put changelog a b spec = ap (λ t. record spec { changelog = t }) (<>_assoc spec.changelog a b)

push_text-title_of :
    (s : Script) (t : String) (spec : SpecFile) (n : ℕ)
    → push_text (title_of s) t (spec, n) ≡ ok (put s (append_newline_string t n) spec, next_line n)
unfolding push_text
push_text-title_of description t spec n = refl
push_text-title_of _ t spec n = refl

-- The texts with the newlines that the counter, from `n` on, puts before them.
joined : ℕ → List String → String
joined n [] = ""
joined n (t ∷ ts) = append_newline_string t n <> joined (next_line n) ts

read_section-joined :
    (s : Script) (ls : List Line) (spec : SpecFile) (n : ℕ)
    → read_section (title_of s) (spec, n) (line_pairs ls) ≡ ok (put s (joined n (texts ls)) spec)
unfolding read_section joined
read_section-joined s [] spec n = rw (put-nil s spec)
read_section-joined s (text_line w t ∷ ls) spec n = rw (push_text-title_of s t spec n) (
    read_section-joined s ls (put s (append_newline_string t n) spec) (next_line n)
    ∙ ap ok (put-put s (append_newline_string t n) (joined (next_line n) (texts ls)) spec))
read_section-joined s (comment w t ∷ ls) spec n = read_section-joined s ls spec n

joined-newlined :
    (n : ℕ) (ts : List String) → n + suc (length ts) < 2 ^ 32 → joined (suc n) ts ≡ newlined ts
unfolding joined newlined append_newline_string
joined-newlined n [] h = refl
joined-newlined n (t ∷ ts) h =
    let first : append_newline_string t (suc n) ≡ "\n" <> t = ground arith in
    let next : next_line (suc n) ≡ suc (suc n) = omega arith in
    ap (λ a. a <> joined (next_line (suc n)) ts) first
    ∙ ap (λ m. "\n" <> (t <> joined m ts)) next
    ∙ ap (λ r. "\n" <> (t <> r)) (joined-newlined (suc n) ts (omega arith))

joined-join : (ts : List String) → length ts < 2 ^ 32 → joined 0 ts ≡ join "\n" ts
unfolding joined join append_newline_string
joined-join [] h = refl
joined-join (t ∷ ts) h =
    ap (λ r. t <> r) (joined-newlined 0 ts (omega arith)) ∙ sym (join-newlined t ts)

-- A section that is kept as one text appends its lines, joined.
pub read_section-join :
    (s : Script) (ls : List Line) (spec : SpecFile)
    → length (texts ls) < 2 ^ 32
    → read_section (title_of s) (spec, 0) (line_pairs ls) ≡ ok (put s (join "\n" (texts ls)) spec)
read_section-join s ls spec h =
    read_section-joined s ls spec 0 ∙ ap (λ t. ok (put s t spec)) (joined-join (texts ls) h)

pub read_section-files :
    (ls : List Line) (spec : SpecFile) (n : ℕ)
    → read_section "files" (spec, n) (line_pairs ls)
      ≡ ok (record spec { files = spec.files ++ trimmed (texts ls) })
unfolding read_section push_text
read_section-files [] spec n =
    ap (λ t. ok (record spec { files = t })) (sym (append-nil spec.files))
read_section-files (text_line w t ∷ ls) spec n =
    read_section-files ls (record spec { files = spec.files ++ trim_end t ∷ [] }) n
    ∙ ap (λ t. ok (record spec { files = t }))
        (append_assoc spec.files (trim_end t ∷ []) (trimmed (texts ls)))
read_section-files (comment w t ∷ ls) spec n = read_section-files ls spec n

-- A section of an unknown title changes nothing if it has no text, and panics if it has one.
pub read_section-IsUnknown :
    (k : String) (ls : List Line) (spec : SpecFile) (n : ℕ)
    → IsUnknown k
    → ((texts ls ≡ []) × (read_section k (spec, n) (line_pairs ls) ≡ ok spec))
      ⊎ ((texts ls ≢ []) × (read_section k (spec, n) (line_pairs ls) ≡ panic))
unfolding read_section push_text
read_section-IsUnknown k [] spec n h = inl (refl, refl)
read_section-IsUnknown k (text_line w t ∷ ls) spec n h = inr ((λ e. cc), ground arith)
read_section-IsUnknown k (comment w t ∷ ls) spec n h = read_section-IsUnknown k ls spec n h

pub title_cases : (k : String) → ((s : Script) × (k ≡ title_of s)) ⊎ ((k ≡ "files") ⊎ IsUnknown k)
title_cases k = elim (Bool-cases (k == "description")) [
  | inl e ↦ inl (description, (eq_iff k "description").0 e)
  | inr a ↦ elim (Bool-cases (k == "prep")) [
    | inl e ↦ inl (prep, (eq_iff k "prep").0 e)
    | inr b ↦ elim (Bool-cases (k == "build")) [
      | inl e ↦ inl (build, (eq_iff k "build").0 e)
      | inr c ↦ elim (Bool-cases (k == "files")) [
        | inl e ↦ inr (inl ((eq_iff k "files").0 e))
        | inr d ↦ elim (Bool-cases (k == "install")) [
          | inl e ↦ inl (install, (eq_iff k "install").0 e)
          | inr f ↦ elim (Bool-cases (k == "changelog")) [
            | inl e ↦ inl (changelog, (eq_iff k "changelog").0 e)
            | inr g ↦ inr (inr (a, b, c, d, f, g))
          ]
        ]
      ]
    ]
  ]
]
