-- ===== src/Pkg6dev.antt =====
-- pkg6dev/src/main.rs: the comparison of a component's manifests with its sample manifest.
pub mod Comparison
pub mod Replacements
pub mod Printing
pub mod Diff
pub mod Show
pub mod Main
use ips.Base.{
  String, Bool, true, false, Option, none, some, List, [], ◌∷◌, ◌++◌, map, foldl, not, ◌&&◌,
  if◌then◌else◌,
}
use ips.Base.Table.{Table, insert, contains_key}
use ips.Base.Text.{◌<>◌, split_once}
use ips.Base.Text.Replace.{replace}
use ips.Actions.File.{File, get_original_path}
use ips.Actions.Manifest.{Manifest}

-- The closure of `parse_tripplet_replacements`: a text with no colon gives two empty texts.
abbrev pub pair_or_empty : Option (String × String) → String × String
pair_or_empty none = ("", "")
pair_or_empty (some p) = p

unfoldable pub replacement_of : String → String × String
replacement_of text = pair_or_empty (split_once b':' text)

abbrev insert_pair : Table String → String × String → Table String
insert_pair t (from, to) = insert from to t

-- `parse_tripplet_replacements`.
unfoldable pub parse_tripplet_replacements : List String → Table String
unfolding replacement_of
parse_tripplet_replacements replacements = foldl insert_pair [] (map replacement_of replacements)

-- The body of the loop of `replace_func`; in the first round the text so far is the original.
abbrev replace_pair : String → String × String → String
replace_pair text (from, to) = replace ("$(" <> from <> ")") to text

-- `replace_func`.
unfoldable pub replace_func : String → Option (Table String) → String
replace_func orig none = orig
replace_func orig (some replacements) = foldl replace_pair orig replacements

-- The key of a file in the map of `make_file_map`.
abbrev path_or : Option String → String → String
path_or none path = path
path_or (some path) other = path

abbrev insert_file : Table File → File → Table File
insert_file t f = insert (path_or (get_original_path f) f.path) f t

-- `make_file_map`.
unfoldable pub make_file_map : List File → Table File
make_file_map files = foldl insert_file [] files

-- `flat_map(|m| m.files.clone())`.
unfoldable pub all_files : List Manifest → List File
all_files [] = []
all_files (m ∷ ms) = m.files ++ all_files ms

-- The `match` of `find_files_missing_in_manifests`: whether the file is pushed.
abbrev pub is_missing : Table File → Option (Table String) → File → Option String → Bool
is_missing f_map replacements f (some path) =
    not (contains_key (replace_func path replacements) f_map)
is_missing f_map replacements f none = not (contains_key (replace_func f.path replacements) f_map)

-- The loop of `find_files_missing_in_manifests`.
unfoldable pub push_missing : Table File → Option (Table String) → List File → List File → List File
push_missing f_map replacements [] missing = missing
push_missing f_map replacements (f ∷ files) missing =
    push_missing f_map replacements files
      (if is_missing f_map replacements f (get_original_path f) then missing ++ f ∷ [] else missing)

-- `find_files_missing_in_manifests`.
unfoldable pub find_files_missing_in_manifests :
    Manifest → List Manifest → Option (Table String) → List File
unfolding push_missing make_file_map all_files
find_files_missing_in_manifests sample_manifest manifests replacements =
    push_missing (make_file_map (all_files manifests)) replacements sample_manifest.files []

-- Whether a path exists below the component, as the file system answers.
module _ (exists : String → Bool) where
  -- The `match` of `find_removed_files`: whether the file is pushed.
  abbrev pub is_removed : Table File → Option (Table String) → File → Option String → Bool
  is_removed f_map replacements f (some path) =
      not (contains_key (replace_func path replacements) f_map) && not (exists path)
  is_removed f_map replacements f none = not (contains_key (replace_func f.path replacements) f_map)

  -- The loop of `find_removed_files`.
  unfoldable pub push_removed :
      Table File → Option (Table String) → List File → List File → List File
  push_removed f_map replacements [] removed = removed
  push_removed f_map replacements (f ∷ files) removed =
      push_removed f_map replacements files (
        if is_removed f_map replacements f (get_original_path f)
        then removed ++ f ∷ []
        else removed)

  -- `find_removed_files`.
  unfoldable pub find_removed_files : Manifest → List Manifest → Option (Table String) → List File
  unfolding push_removed make_file_map all_files
  find_removed_files sample_manifest manifests replacements =
      push_removed (make_file_map sample_manifest.files) replacements (all_files manifests) []
