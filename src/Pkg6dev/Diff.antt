-- ===== src/Pkg6dev/Diff.antt =====
-- pkg6dev/src/main.rs: `diff_component`. The output manifest's file is opened and written as one step.
pub mod Reports
use ips.Base.{
  String, Bool, false, Option, none, some, ◌⊎◌, inl, inr, List, [], ◌∷◌, ◌++◌, map, keep, ◌==◌,
}
use ips.Base.Outcome as Outcomes
use ips.Base.Outcome.{Outcome, ok, err, panic, map_err, unwrap}
use ips.Base.Pest.{Pairs}
use ips.Base.Table.{Table}
use ips.Base.Text.{◌<>◌}
use ips.Base.Paths.{join_path, extension}
use ips.Actions.File.{File}
use ips.Actions.Manifest as Manifests
use ips.Actions.Manifest.{Manifest, parse_file}
use ips.Pkg6dev.{parse_tripplet_replacements, find_files_missing_in_manifests, find_removed_files}
use ips.Pkg6dev.Printing.{Output, Printing, ◌>>=◌, ◌>>◌, pure, lift, print_each}

-- `filter_map(Result::ok)`.
unfoldable pub readable : {E : Type 0} → List (E ⊎ String) → List String
readable [] = []
readable (inl e ∷ entries) = readable entries
readable (inr path ∷ entries) = path ∷ readable entries

abbrev is_manifest_extension : Option String → Bool
is_manifest_extension none = false
is_manifest_extension (some e) = e == "p5m"

-- The test of the filter on the entries.
unfoldable pub is_manifest : String → Bool
unfolding extension
is_manifest path = is_manifest_extension (extension path)

-- `manifest_files`.
unfoldable pub manifest_files : {E : Type 0} → List (E ⊎ String) → List String
unfolding readable is_manifest
manifest_files entries = keep is_manifest (readable entries)

-- The `collect` into a `Result`, up to the first error.
unfoldable pub parse_files :
    {E : Type 0} → (String → Outcome E Manifest) → List String → Outcome E (List Manifest)
parse_files parse [] = ok []
parse_files parse (path ∷ paths) =
    let rest = parse_files parse paths in
    Outcomes.◌>>=◌ (parse path) λ m. Outcomes.◌>>=◌ rest λ ms. ok (m ∷ ms)

-- A `Result` kept as a value; a panic unwinds.
abbrev pub settled : {E F A : Type 0} → Outcome E A → Outcome F (Outcome E A)
settled (ok a) = ok (ok a)
settled (err e) = ok (err e)
settled panic = panic

abbrev pub missing_line : File → String
missing_line f = "file " <> (f.path <> " is missing in the manifests")

abbrev pub removed_line : File → String
removed_line f = "file path=" <> (f.path <> " has been removed from the sample-manifest")

abbrev pub action_line : File → String
action_line f = "file path=" <> f.path

abbrev pub replacements_of : Option (List String) → Option (Table String)
replacements_of none = none
replacements_of (some replacements) = some (parse_tripplet_replacements replacements)

pub data DiffError (IoError ActionError : Type 0) : Type 0 where
  io_error : IoError → DiffError IoError ActionError
  action_error : ActionError → DiffError IoError ActionError

-- What the operating system answers: the entries of a directory, the text of a file, whether a path
-- exists, and how writing a file ends.
pub record Disk (IoError ActionError : Type 0) : Type 0 where
  pub read_dir : String → Outcome IoError (List (IoError ⊎ String))
  pub read_to_string : String → Outcome ActionError String
  pub exists : String → Bool
  pub write : String → List String → Outcome IoError (Unit {0})

module _ {IoError ActionError : Type 0} (disk : Disk IoError ActionError)
    (parser : String → Outcome ActionError (Pairs Manifests.Rule)) where
  abbrev pub parsed : String → Outcome ActionError Manifest
  parsed path = parse_file parser disk.read_to_string path

  abbrev pub write_lines :
      String → List String → Printing (DiffError IoError ActionError) (Unit {0})
  write_lines path lines out = (
    map_err io_error (disk.write path lines),
    record out { written = out.written ++ (path, lines) ∷ [] },
  )

  abbrev pub write_missing :
      Option String → List File → Printing (DiffError IoError ActionError) (Unit {0})
  write_missing none missing_files = pure tt
  write_missing (some path) missing_files = write_lines path (map action_line missing_files)

  abbrev pub removed_below : String → Manifest → List Manifest → Option (Table String) → List File
  removed_below component_path =
      find_removed_files (λ path. disk.exists (join_path component_path path))

  -- `diff_component`.
  unfoldable pub diff_component :
      String
      → Option (List String)
      → Option String
      → Printing (DiffError IoError ActionError) (Unit {0})
  unfolding manifest_files parse_files print_each join_path
  diff_component component_path replacement_texts output_manifest = do
    let replacements = replacements_of replacement_texts
    files ← lift (map_err io_error (disk.read_dir component_path))
    manifests_res ← lift (settled (parse_files parsed (manifest_files files)))
    sample_manifest ←
        lift
          (map_err action_error (parsed (join_path component_path "manifests/sample-manifest.p5m")))
    manifests ← lift (unwrap manifests_res)
    let missing_files = find_files_missing_in_manifests sample_manifest manifests replacements
    print_each missing_line missing_files
    print_each removed_line (removed_below component_path sample_manifest manifests replacements)
    write_missing output_manifest missing_files
