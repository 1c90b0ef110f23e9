-- ===== src/Tests/Comparisons.antt =====
-- The comparison of manifests on concrete inputs.
use ips.Base.{String, Bool, false, ◌≡◌, Option, some, [], ◌∷◌, keep, not, ◌&&◌}
use ips.Base.Table.{Table}
use ips.Actions.File.{File, default, get_original_path}
use ips.Actions.Manifest.{Manifest}
use ips.Actions.Manifest as Manifests
use ips.Pkg6dev.{replace_func, all_files, find_files_missing_in_manifests, find_removed_files}
use ips.Pkg6dev.Comparison.{
  compared_path, is_among, is_there, find_files_missing_in_manifests-keep, find_removed_files-keep,
}

abbrev file_at : String → File
file_at path = record default { path = path }

abbrev sample : Manifest
sample = record Manifests.new { files = file_at "usr/lib/amd64/a" ∷ file_at "usr/bin/b" ∷ [] }

abbrev written : Manifest
written = record Manifests.new { files = file_at "usr/lib/$(MACH64)/a" ∷ [] }

abbrev mach64 : Option (Table String)
mach64 = some (("MACH64", "amd64") ∷ [])

abbrev nothing_exists : String → Bool
nothing_exists path = false

find_files_missing_in_manifests-keep_example :
    find_files_missing_in_manifests sample (written ∷ []) mach64
    ≡ keep
        (λ f. not (is_among (replace_func (compared_path f) mach64) (all_files (written ∷ []))))
        sample.files
find_files_missing_in_manifests-keep_example =
    find_files_missing_in_manifests-keep sample (written ∷ []) mach64

find_removed_files-keep_example :
    find_removed_files nothing_exists sample (written ∷ []) mach64
    ≡ keep
        (λ f.
          not (is_among (replace_func (compared_path f) mach64) sample.files)
          && not (is_there nothing_exists (get_original_path f)))
        (all_files (written ∷ []))
find_removed_files-keep_example =
    find_removed_files-keep nothing_exists sample (written ∷ []) mach64
