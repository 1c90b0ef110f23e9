-- ===== src/Specfile/Kept.antt =====
-- What the walk over a spec file leaves as it is.
use ips.Base.{ℕ, String, Bool, true, false, ◌≡◌, refl, subst, ◌∙◌, List, [], ◌==◌, if◌then◌else◌}
use ips.Base.Outcome.{Outcome, ok, err, panic, map_err, ◌>>=◌}
use ips.Base.Pest.{Pairs, pair, nil, cons}
use ips.Specfile.{
  SpecFile, default, KnownVariableControl, name, version, release, summary, license, none, Rule,
  control_of, name_tmp_of, store_text, read_variable, push_text, read_line, read_section,
  read_pairs, parse,
}

-- Where it returns, the sources are `xs`.
abbrev Leaves : {E A : Type 0} → (A → SpecFile) → List String → Outcome E A → Type 0
Leaves spec_of xs (ok a) = (spec_of a).sources ≡ xs
Leaves spec_of xs (err e) = Unit {0}
Leaves spec_of xs panic = Unit {0}

module _ {A : Type 0} (spec_of : A → SpecFile) (xs : List String) where
  Leaves-bind :
      {E B : Type 0} (of_first : B → SpecFile) (m : Outcome E B) (f : B → Outcome E A)
      → Leaves of_first xs m
      → ((b : B) → (of_first b).sources ≡ xs → Leaves spec_of xs (f b))
      → Leaves spec_of xs (m >>= f)
  Leaves-bind of_first (ok b) f h k = k b h
  Leaves-bind of_first (err e) f h k = tt
  Leaves-bind of_first panic f h k = tt

store_text-sources :
    (control : KnownVariableControl) (tmp text : String) (spec : SpecFile)
    → (store_text control tmp text spec).sources ≡ spec.sources
store_text-sources name tmp text spec = refl
store_text-sources version tmp text spec = refl
store_text-sources release tmp text spec = refl
store_text-sources summary tmp text spec = refl
store_text-sources license tmp text spec = refl
store_text-sources none tmp text spec = refl

read_variable-sources :
    (control : KnownVariableControl) (tmp : String) (spec : SpecFile) (ps : Pairs Rule)
    → (read_variable control tmp spec ps).sources ≡ spec.sources
unfolding read_variable
read_variable-sources control tmp spec nil = refl
read_variable-sources control tmp spec (cons (pair Rule.variable_name text inner) rest) =
    read_variable-sources (control_of text) (name_tmp_of (control_of text) text tmp) spec rest
read_variable-sources control tmp spec (cons (pair Rule.variable_text text inner) rest) =
    read_variable-sources control tmp (store_text control tmp text spec) rest
    ∙ store_text-sources control tmp text spec
read_variable-sources control tmp spec (cons (pair _ text inner) rest) =
    read_variable-sources control tmp spec rest

module _ (xs : List String) where
  Leaves-if :
      (b : Bool) (m n : Outcome ⊥ (SpecFile × ℕ))
      → Leaves (λ t. t.0) xs m
      → Leaves (λ t. t.0) xs n
      → Leaves (λ t. t.0) xs (if b then m else n)
  Leaves-if true m n p q = p
  Leaves-if false m n p q = q

  push_text-Leaves :
      (title text : String) (s : SpecFile × ℕ)
      → s.0.sources ≡ xs
      → Leaves (λ t. t.0) xs (push_text title text s)
  unfolding push_text
  push_text-Leaves title text s h = Leaves-if (title == "description") _ _ h (
      Leaves-if (title == "prep") _ _ h (
        Leaves-if (title == "build") _ _ h (
          Leaves-if (title == "files") _ _ h
            (Leaves-if (title == "install") _ _ h (Leaves-if (title == "changelog") _ _ h tt)))))

  read_line-Leaves :
      (title : String) (s : SpecFile × ℕ) (ps : Pairs Rule)
      → s.0.sources ≡ xs
      → Leaves (λ t. t.0) xs (read_line title s ps)
  unfolding read_line
  read_line-Leaves title s nil h = h
  read_line-Leaves title s (cons (pair Rule.section_text text inner) rest) h =
      Leaves-bind (λ t. t.0) xs (λ t. t.0) _ _ (push_text-Leaves title text s h)
        λ s' h'. read_line-Leaves title s' rest h'
  read_line-Leaves title s (cons (pair _ text inner) rest) h = read_line-Leaves title s rest h

  read_section-Leaves :
      (title : String) (s : SpecFile × ℕ) (ps : Pairs Rule)
      → s.0.sources ≡ xs
      → Leaves (λ t. t) xs (read_section title s ps)
  unfolding read_section
  read_section-Leaves title s nil h = h
  read_section-Leaves title s (cons (pair Rule.section_name text inner) rest) h =
      read_section-Leaves text s rest h
  read_section-Leaves title s (cons (pair Rule.section_line text inner) rest) h =
      Leaves-bind (λ t. t) xs (λ t. t.0) _ _ (read_line-Leaves title s inner h)
        λ s' h'. read_section-Leaves title s' rest h'
  read_section-Leaves title s (cons (pair _ text inner) rest) h = tt

  read_pairs-Leaves :
      (spec : SpecFile) (ps : Pairs Rule)
      → spec.sources ≡ xs
      → Leaves (λ t. t) xs (read_pairs spec ps)
  unfolding read_pairs
  read_pairs-Leaves spec nil h = h
  read_pairs-Leaves spec (cons (pair Rule.variable text inner) rest) h =
      read_pairs-Leaves (read_variable none "" spec inner) rest
        (read_variable-sources none "" spec inner ∙ h)
  read_pairs-Leaves spec (cons (pair Rule.section text inner) rest) h =
      Leaves-bind (λ t. t) xs (λ t. t) _ _ (read_section-Leaves "" (spec, 0) inner h)
        λ s' h'. read_pairs-Leaves s' rest h'
  read_pairs-Leaves spec (cons (pair Rule.eoi text inner) rest) h = read_pairs-Leaves spec rest h
  read_pairs-Leaves spec (cons (pair _ text inner) rest) h = tt

map_err-Leaves :
    {E F : Type 0} (f : E → F) (xs : List String) (m : Outcome E SpecFile)
    → Leaves (λ t. t) xs m
    → Leaves (λ t. t) xs (map_err f m)
map_err-Leaves f xs (ok s) h = h
map_err-Leaves f xs (err e) h = tt
map_err-Leaves f xs panic h = tt

module _ {E : Type 0} (parser : String → Outcome E (Pairs Rule)) where
  parse-Leaves : (content : String) → Leaves (λ t. t) [] (parse parser content)
  unfolding parse
  parse-Leaves content = outcome (parser content)
    where
      outcome :
          (m : Outcome E (Pairs Rule))
          → Leaves (λ t. t) [] (m >>= λ pairs. map_err (λ e. absurd e) (read_pairs default pairs))
      outcome (ok pairs) =
          map_err-Leaves (λ e. absurd e) [] (read_pairs default pairs)
            (read_pairs-Leaves [] default pairs refl)
      outcome (err e) = tt
      outcome panic = tt

  -- A parsed spec file has no sources, whatever pairs the parser yields.
  pub parse-sources :
      (content : String) {spec : SpecFile} → parse parser content ≡ ok spec → spec.sources ≡ []
  parse-sources content h = subst (Leaves (λ t. t) []) h (parse-Leaves content)
