-- ===== src/Pkg6dev/Comparison.antt =====
-- Which files the comparisons report.
use ips.Base.{
  String, Bool, true, false, ◌≡◌, refl, Option, none, some, List, [], ◌∷◌, ◌++◌, foldl, keep, any,
  arith, append_assoc, append-nil, not, ◌&&◌, ◌==◌, if◌then◌else◌, ◌∙◌, sym,
}
use ips.Base.Table.{Table, lookup, contains_key, lookup-insert}
use ips.Actions.File.{File, get_original_path}
use ips.Actions.Manifest.{Manifest}
use ips.Pkg6dev.{
  replace_func, make_file_map, insert_file, path_or, all_files, is_missing, push_missing,
  find_files_missing_in_manifests, is_removed, push_removed, find_removed_files,
}

-- The path that a file is compared by: its original path, or its path where it has none.
abbrev pub compared_path : File → String
compared_path f = path_or (get_original_path f) f.path

-- Some of the files is compared by this path.
unfoldable pub is_among : String → List File → Bool
is_among path files = any (λ g. compared_path g == path) files

contains_key-insert_file :
    (k : String) (f : File) (t : Table File)
    → contains_key k (insert_file t f) ≡ (if compared_path f == k then true else contains_key k t)
unfolding contains_key
contains_key-insert_file k f t = ground (arith, lookup-insert (compared_path f) k f t)

contains_key-foldl :
    (k : String) (files : List File) (t : Table File)
    → contains_key k (foldl insert_file t files)
      ≡ (if contains_key k t then true else is_among k files)
unfolding is_among
contains_key-foldl k [] t = ground arith
contains_key-foldl k (f ∷ files) t =
    ground (arith, contains_key-foldl k files (insert_file t f), contains_key-insert_file k f t)

contains_key-make_file_map :
    (k : String) (files : List File) → contains_key k (make_file_map files) ≡ is_among k files
unfolding make_file_map contains_key lookup
contains_key-make_file_map k files = contains_key-foldl k files []

-- Pushing the files that pass a test, one after another, behind those that are there.
push_missing-keep :
    (f_map : Table File) (replacements : Option (Table String)) (files missing : List File)
    → push_missing f_map replacements files missing
      ≡ missing ++ keep (λ f. is_missing f_map replacements f (get_original_path f)) files
unfolding push_missing
push_missing-keep f_map replacements [] missing = sym (append-nil missing)
push_missing-keep f_map replacements (f ∷ files) missing = ground (
  arith,
  push_missing-keep f_map replacements files missing,
  push_missing-keep f_map replacements files (missing ++ f ∷ []),
  append_assoc missing (f ∷ [])
      (keep (λ f. is_missing f_map replacements f (get_original_path f)) files),
)

push_removed-keep :
    (exists : String → Bool) (f_map : Table File) (replacements : Option (Table String))
    (files removed : List File)
    → push_removed exists f_map replacements files removed
      ≡ removed ++ keep (λ f. is_removed exists f_map replacements f (get_original_path f)) files
unfolding push_removed
push_removed-keep exists f_map replacements [] removed = sym (append-nil removed)
push_removed-keep exists f_map replacements (f ∷ files) removed = ground (
  arith,
  push_removed-keep exists f_map replacements files removed,
  push_removed-keep exists f_map replacements files (removed ++ f ∷ []),
  append_assoc removed (f ∷ [])
      (keep (λ f. is_removed exists f_map replacements f (get_original_path f)) files),
)

pub keep-cong :
    {A : Type 0} (p q : A → Bool) (xs : List A) → ((x : A) → p x ≡ q x) → keep p xs ≡ keep q xs
keep-cong p q [] h = refl
keep-cong p q (x ∷ xs) h = rw (h x, keep-cong p q xs h)

is_missing-make_file_map :
    (files : List File) (replacements : Option (Table String)) (f : File) (o : Option String)
    → is_missing (make_file_map files) replacements f o
      ≡ not (is_among (replace_func (path_or o f.path) replacements) files)
is_missing-make_file_map files replacements f none = rw contains_key-make_file_map refl
is_missing-make_file_map files replacements f (some path) = rw contains_key-make_file_map refl

-- Whether the original path, where there is one, exists below the component.
abbrev pub is_there : (String → Bool) → Option String → Bool
is_there exists none = false
is_there exists (some path) = exists path

is_removed-make_file_map :
    (exists : String → Bool) (files : List File) (replacements : Option (Table String)) (f : File)
    (o : Option String)
    → is_removed exists (make_file_map files) replacements f o ≡ (
        not (is_among (replace_func (path_or o f.path) replacements) files)
        && not (is_there exists o))
is_removed-make_file_map exists files replacements f none =
    ground (arith, contains_key-make_file_map (replace_func f.path replacements) files)
is_removed-make_file_map exists files replacements f (some path) =
    ground (arith, contains_key-make_file_map (replace_func path replacements) files)

-- Reported as missing are, in order, the files of the sample manifest whose path, with the
-- replacements made, no file of the manifests is compared by.
pub find_files_missing_in_manifests-keep :
    (sample : Manifest) (manifests : List Manifest) (replacements : Option (Table String))
    → find_files_missing_in_manifests sample manifests replacements
      ≡ keep
          (λ f. not (is_among (replace_func (compared_path f) replacements) (all_files manifests)))
          sample.files
unfolding find_files_missing_in_manifests
find_files_missing_in_manifests-keep sample manifests replacements =
    push_missing-keep (make_file_map (all_files manifests)) replacements sample.files []
    ∙ keep-cong _ _ sample.files
        (λ f. is_missing-make_file_map (all_files manifests) replacements f (get_original_path f))

-- Reported as removed are, in order, the files of the manifests whose path, with the replacements made,
-- no file of the sample manifest is compared by, less those whose original path exists below the
-- component.
pub find_removed_files-keep :
    (exists : String → Bool) (sample : Manifest) (manifests : List Manifest)
    (replacements : Option (Table String))
    → find_removed_files exists sample manifests replacements
      ≡ keep
          (λ f.
            not (is_among (replace_func (compared_path f) replacements) sample.files)
            && not (is_there exists (get_original_path f)))
          (all_files manifests)
unfolding find_removed_files
find_removed_files-keep exists sample manifests replacements =
    push_removed-keep exists (make_file_map sample.files) replacements (all_files manifests) []
    ∙ keep-cong _ _ (all_files manifests)
        (λ f. is_removed-make_file_map exists sample.files replacements f (get_original_path f))
