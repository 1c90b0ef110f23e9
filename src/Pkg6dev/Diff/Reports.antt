-- ===== src/Pkg6dev/Diff/Reports.antt =====
-- How `diff_component` ends, and what it prints and writes.
use ips.Base.{
  String, ◌≡◌, refl, sym, ◌∙◌, ap, Option, List, [], ◌∷◌, ◌++◌, map, append_assoc, append-nil, ◌⊎◌,
  inl, inr, Bool, false, none, some, keep, ◌==◌, Option-cases,
}
use ips.Base.Outcome.{Outcome, ok, err, panic, map_err, ◌>>=◌}
use ips.Base.Pest.{Pairs}
use ips.Base.Table.{Table}
use ips.Base.Paths.{join_path, extension}
use ips.Actions.Manifest as Manifests
use ips.Actions.Manifest.{Manifest}
use ips.Base.Text.{◌<>◌}
use ips.Actions.File.{File}
use ips.Pkg6dev.Comparison.{keep-cong}
use ips.Pkg6dev.{find_files_missing_in_manifests, find_removed_files}
use ips.Pkg6dev.Printing.{Output, Printing, ◌>>◌, print_each}
use ips.Pkg6dev.Diff.{
  Disk, DiffError, io_error, action_error, readable, is_manifest, parsed, parse_files,
  manifest_files, missing_line, removed_line, replacements_of, write_missing, diff_component,
}

print_each_lem :
    {E A : Type 0} (line_of : A → String) (xs : List A) (out : Output)
    → print_each {E = E} line_of xs out
      ≡ (ok tt, record out { printed = out.printed ++ map line_of xs })
unfolding print_each
print_each_lem line_of [] out =
    ap (λ t. (ok tt, record out { printed = t })) (sym (append-nil out.printed))
print_each_lem line_of (a ∷ xs) out =
    print_each_lem line_of xs _
    ∙ ap (λ t. (ok tt, record out { printed = t }))
        (append_assoc out.printed (line_of a ∷ []) (map line_of xs))

print_both :
    {E A B : Type 0} (line_of : A → String) (other_line : B → String) (xs : List A) (ys : List B)
    (rest : Printing E (Unit {0})) (out : Output)
    → (print_each line_of xs >> (print_each other_line ys >> rest)) out
      ≡ rest (record out { printed = out.printed ++ (map line_of xs ++ map other_line ys) })
print_both {E} line_of other_line xs ys rest out = rw (print_each_lem {E = E} line_of xs out) (
    rw
      (print_each_lem {E = E} other_line ys
        (record out { printed = out.printed ++ map line_of xs }))
      (ap (λ t. rest (record out { printed = t }))
        (append_assoc out.printed (map line_of xs) (map other_line ys))))

abbrev pub sample_path : String → String
sample_path component_path = join_path component_path "manifests/sample-manifest.p5m"

-- The first of the answers that is an error or a panic, or else that there is none.
unfoldable pub first_stop : {E A : Type 0} → List (Outcome E A) → Outcome E (Unit {0})
first_stop [] = ok tt
first_stop (ok a ∷ answers) = first_stop answers
first_stop (err e ∷ answers) = err e
first_stop (panic ∷ answers) = panic

unfoldable pub values : {E A : Type 0} → List (Outcome E A) → List A
values [] = []
values (ok a ∷ answers) = a ∷ values answers
values (_ ∷ answers) = values answers

abbrev has_p5m : Option String → Bool
has_p5m none = false
has_p5m (some e) = e == "p5m"

-- The paths in the entries that can be read.
abbrev paths_in : {E : Type 0} → List (E ⊎ String) → List String
paths_in [] = []
paths_in (inl e ∷ entries) = paths_in entries
paths_in (inr path ∷ entries) = path ∷ paths_in entries

-- Those of them that name a manifest.
unfoldable pub p5m_paths : {E : Type 0} → List (E ⊎ String) → List String
unfolding extension
p5m_paths entries = keep (λ path. has_p5m (extension path)) (paths_in entries)

readable-paths_in : {E : Type 0} (entries : List (E ⊎ String)) → readable entries ≡ paths_in entries
unfolding readable
readable-paths_in [] = refl
readable-paths_in (inl e ∷ entries) = readable-paths_in entries
readable-paths_in (inr path ∷ entries) = ap (λ t. path ∷ t) (readable-paths_in entries)

is_manifest-has_p5m : (path : String) → is_manifest path ≡ has_p5m (extension path)
unfolding is_manifest
is_manifest-has_p5m path = elim (Option-cases (extension path)) [
  | inl e ↦ rw e refl
  | inr (x, e) ↦ rw e refl
]

manifest_files-p5m_paths :
    {E : Type 0} (entries : List (E ⊎ String)) → manifest_files entries ≡ p5m_paths entries
unfolding manifest_files p5m_paths
manifest_files-p5m_paths entries =
    ap (keep is_manifest) (readable-paths_in entries)
    ∙ keep-cong is_manifest (λ path. has_p5m (extension path)) (paths_in entries)
        is_manifest-has_p5m

Outcome-cases :
    {E A : Type 0} (o : Outcome E A)
    → ((a : A) × (o ≡ ok a)) ⊎ (((e : E) × (o ≡ err e)) ⊎ (o ≡ panic))
Outcome-cases (ok a) = inl (a, refl)
Outcome-cases (err e) = inr (inl (e, refl))
Outcome-cases panic = inr (inr refl)

>>=-values :
    {E A : Type 0} (o : Outcome E (Unit {0})) (a : A) (rest : List A)
    → ((o >>= λ _. ok rest) >>= λ xs. ok (a ∷ xs)) ≡ (o >>= λ _. ok (a ∷ rest))
>>=-values (ok _) a rest = refl
>>=-values (err e) a rest = refl
>>=-values panic a rest = refl

parse_files-first_stop :
    {E : Type 0} (parse : String → Outcome E Manifest) (paths : List String)
    → parse_files parse paths
      ≡ (first_stop (map parse paths) >>= λ _. ok (values (map parse paths)))
unfolding parse_files first_stop values
parse_files-first_stop parse [] = refl
parse_files-first_stop parse (path ∷ paths) = elim (Outcome-cases (parse path)) [
  | inl (m, e) ↦
      rw (e, parse_files-first_stop parse paths)
        (>>=-values (first_stop (map parse paths)) m (values (map parse paths)))
  | inr (inl (x, e)) ↦ rw e refl
  | inr (inr e) ↦ rw e refl
]

module _ {IoError ActionError : Type 0} (disk : Disk IoError ActionError)
    (parser : String → Outcome ActionError (Pairs Manifests.Rule)) (component_path : String)
    (replacements : Option (Table String)) (output_manifest : Option String) (out : Output) where
  abbrev Ending : Type 0
  Ending = Outcome (DiffError IoError ActionError) (Unit {0}) × Output

  -- The lines for the files that are missing in the manifests, then those for the files that were removed.
  abbrev pub report : Manifest → List Manifest → List String
  report sample manifests =
      map (λ f. "file " <> (f.path <> " is missing in the manifests"))
        (find_files_missing_in_manifests sample manifests replacements)
      ++ map (λ f. "file path=" <> (f.path <> " has been removed from the sample-manifest"))
          (find_removed_files (λ path. disk.exists (join_path component_path path)) sample manifests
            replacements)

  -- The end after the report: with no path for it, nothing is written.
  abbrev pub saved : Option String → List String → List String → Ending
  saved none printed lines =
      (ok tt, record { printed = out.printed ++ printed; written = out.written })
  saved (some path) printed lines = (
    map_err io_error (disk.write path lines),
    record { printed = out.printed ++ printed; written = out.written ++ (path, lines) ∷ [] },
  )

  -- The end by what reading the manifests and the sample manifest gave.
  abbrev pub compared :
      Outcome ActionError (Unit {0}) → List Manifest → Outcome ActionError Manifest → Ending
  compared panic manifests sample = (panic, out)
  compared (ok _) manifests panic = (panic, out)
  compared (err _) manifests panic = (panic, out)
  compared (ok _) manifests (err e) = (err (action_error e), out)
  compared (err _) manifests (err e) = (err (action_error e), out)
  compared (err _) manifests (ok sample) = (panic, out)
  compared (ok _) manifests (ok sample) = saved output_manifest (report sample manifests) (
      map (λ f. "file path=" <> f.path)
        (find_files_missing_in_manifests sample manifests replacements))

  -- The end by what reading the directory gave.
  abbrev pub ending : Outcome IoError (List (IoError ⊎ String)) → Ending
  ending (err e) = (err (io_error e), out)
  ending panic = (panic, out)
  ending (ok entries) =
      let answers = map (parsed disk parser) (p5m_paths entries) in
      compared (first_stop answers) (values answers)
        (parsed disk parser (sample_path component_path))

module _ {IoError ActionError : Type 0} (disk : Disk IoError ActionError)
    (parser : String → Outcome ActionError (Pairs Manifests.Rule)) (component_path : String)
    (replacements : Option (List String)) (output_manifest : Option String) (out : Output) where
  write_missing-saved :
      (o : Option String) (missing : List File) (printed : List String)
      → write_missing disk parser o missing (record out { printed = out.printed ++ printed })
        ≡ saved disk parser component_path
            (replacements_of replacements)
            output_manifest
            out
            o
            printed
            (map (λ f. "file path=" <> f.path) missing)
  write_missing-saved none missing printed = refl
  write_missing-saved (some path) missing printed = refl

  reported :
      {entries : List (IoError ⊎ String)} {manifests : List Manifest} {sample : Manifest}
      → disk.read_dir component_path ≡ ok entries
      → parse_files (parsed disk parser) (manifest_files entries) ≡ ok manifests
      → parsed disk parser (sample_path component_path) ≡ ok sample
      → diff_component disk parser component_path replacements output_manifest out
        ≡ compared disk parser component_path
            (replacements_of replacements)
            output_manifest
            out
            (ok tt)
            manifests
            (ok sample)
  unfolding diff_component
  reported e f g =
      rw (e, f, g)
        (print_both missing_line removed_line _ _ (write_missing disk parser output_manifest _) out
          ∙ write_missing-saved output_manifest _ _)

  rewritten :
      {s : Outcome ActionError (Unit {0})} (vs : List Manifest) {m : Outcome ActionError Manifest}
      {sample : Manifest}
      → s ≡ ok tt
      → m ≡ ok sample
      → compared disk parser component_path
          (replacements_of replacements)
          output_manifest
          out
          s
          vs
          m
        ≡ compared disk parser component_path
            (replacements_of replacements)
            output_manifest
            out
            (ok tt)
            vs
            (ok sample)
  rewritten vs q r = rw (q, r) refl

  from_directory :
      (entries : List (IoError ⊎ String))
      → disk.read_dir component_path ≡ ok entries
      → diff_component disk parser component_path replacements output_manifest out
        ≡ ending disk parser component_path
            (replacements_of replacements)
            output_manifest
            out
            (ok entries)
  unfolding diff_component
  from_directory entries e =
      let paths = p5m_paths entries in
      let p : parse_files (parsed disk parser) (manifest_files entries) ≡ (
          first_stop (map (parsed disk parser) paths) >>= λ _.
          ok (values (map (parsed disk parser) paths))) =
        rw (manifest_files-p5m_paths entries) (parse_files-first_stop (parsed disk parser) paths) in
      elim (Outcome-cases (first_stop (map (parsed disk parser) paths))) [
        | inr (inr q) ↦ rw (e, p, q) refl
        | inr (inl (x, q)) ↦
            elim (Outcome-cases (parsed disk parser (sample_path component_path))) [
              | inl (sample, r) ↦ rw (e, p, q, r) refl
              | inr (inl (y, r)) ↦ rw (e, p, q, r) refl
              | inr (inr r) ↦ rw (e, p, q, r) refl
            ]
        | inl (_, q) ↦ elim (Outcome-cases (parsed disk parser (sample_path component_path))) [
          | inl (sample, r) ↦
              reported e (rw (p, q) refl) r
              ∙ sym (rewritten (values (map (parsed disk parser) paths)) q r)
          | inr (inl (y, r)) ↦ rw (e, p, q, r) refl
          | inr (inr r) ↦ rw (e, p, q, r) refl
        ]
      ]

module _ {IoError ActionError : Type 0} (disk : Disk IoError ActionError)
    (parser : String → Outcome ActionError (Pairs Manifests.Rule)) where
  -- `diff_component` is determined in all cases by the answers of the disk and the parser. A directory
  -- that cannot be read is an error. Of the entries that can be read, those with the extension `p5m` are
  -- parsed in order up to the first that fails, then the sample manifest is, whose error is returned. Only
  -- then a manifest that could not be parsed is a panic; one whose parsing panics is so at once. Else a
  -- line is printed for each file that is missing in the manifests, then one for each that was removed,
  -- and if an output manifest is given, it is written with the path of each missing file, and its result
  -- is returned. In all other cases nothing is printed or written.
  pub diff_component-ending :
      (component_path : String) (replacements : Option (List String))
      (output_manifest : Option String) (out : Output)
      → diff_component disk parser component_path replacements output_manifest out
        ≡ ending disk parser component_path
            (replacements_of replacements)
            output_manifest
            out
            (disk.read_dir component_path)
  unfolding diff_component
  diff_component-ending component_path replacements output_manifest out =
      elim (Outcome-cases (disk.read_dir component_path)) [
        | inl (entries, e) ↦
            from_directory disk parser component_path replacements output_manifest out entries e
            ∙ ap
                (ending disk parser component_path (replacements_of replacements) output_manifest
                  out)
                (sym e)
        | inr (inl (x, e)) ↦ rw e refl
        | inr (inr e) ↦ rw e refl
      ]
