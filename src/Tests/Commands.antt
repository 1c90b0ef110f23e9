-- ===== src/Tests/Commands.antt =====
-- The command `diff_component` on concrete inputs.
use ips.Base.{String, ◌≡◌, refl, inl, inr, false, none, some, [], ◌∷◌, ◌==◌, if◌then◌else◌}
use ips.Base.Outcome.{Outcome, ok, err, panic}
use ips.Base.Pest.{Pairs, pair, nil, cons}
use ips.Actions.Action.{get_action_kind}
use ips.Actions.File
use ips.Actions.Manifest.{Manifest}
use ips.Actions.Manifest as Manifests
use ips.Base.Table.{contains_key, lookup, insert}
use ips.Base.Text.{strip_quotes}
use ips.Pkg6dev as Pkg6dev
use ips.Pkg6dev.Printing.{Output}
use ips.Pkg6dev.Diff.{Disk, replacements_of, diff_component}
use ips.Pkg6dev.Diff.Reports.{ending, diff_component-ending}

abbrev silent : Output
silent = record { printed = []; written = [] }

abbrev file_item : String → Pairs Manifests.Rule
file_item path =
    cons
      (pair Manifests.Rule.manifest "" (
        cons
          (pair Manifests.Rule.action "" (
            cons (pair Manifests.Rule.action_name "file" nil) (
              cons
                (pair Manifests.Rule.property "" (
                  cons (pair Manifests.Rule.property_name "path" nil)
                    (cons (pair Manifests.Rule.property_value path nil) nil)))
                nil)))
          nil))
      nil

-- A parser for two manifests and one text that is none.
abbrev manifest_parser : String → Outcome String (Pairs Manifests.Rule)
manifest_parser content =
    if content == "bad"
    then err "bad"
    else if content == "sample"
    then ok (file_item "usr/bin/b")
    else ok (file_item "usr/bin/a")

abbrev disk_with : String → Disk String String
disk_with content = record {
  read_dir = λ path. ok (inr "tar/a.p5m" ∷ inl "gone" ∷ inr "tar/Makefile" ∷ []);
  read_to_string = λ path. if path == "tar/a.p5m" then ok content else ok "sample";
  exists = λ path. false;
  write = λ path lines. ok tt;
}

abbrev small_disk : Disk String String
small_disk = disk_with "a"

diff_component-ending_example :
    diff_component small_disk manifest_parser "tar" none (some "out.p5m") silent
    ≡ ending small_disk manifest_parser "tar"
        (replacements_of none)
        (some "out.p5m")
        silent
        (small_disk.read_dir "tar")
diff_component-ending_example =
    diff_component-ending small_disk manifest_parser "tar" none (some "out.p5m") silent

-- The sample has the file `usr/bin/b`, the only manifest has `usr/bin/a`.
tar-reported : diff_component small_disk manifest_parser "tar" none (some "out.p5m") silent ≡ (
  ok tt,
  record {
    printed =
        "file usr/bin/b is missing in the manifests"
        ∷ "file path=usr/bin/a has been removed from the sample-manifest" ∷ [];
    written = ("out.p5m", "file path=usr/bin/b" ∷ []) ∷ [];
  },
)
unfolding diff_component Manifests.parse_file Manifests.read_pairs Manifests.read_manifest
    Manifests.read_action Manifests.read_property Manifests.add_action get_action_kind
    File.from_action File.start File.set_properties File.set_property File.is_digest_key
    File.set_file File.get_original_path Pkg6dev.find_files_missing_in_manifests
    Pkg6dev.find_removed_files contains_key lookup insert strip_quotes Pkg6dev.replace_func
tar-reported = refl

abbrev bad_disk : Disk String String
bad_disk = disk_with "bad"

-- A manifest that cannot be parsed.
tar-panics : diff_component bad_disk manifest_parser "tar" none none silent ≡ (panic, silent)
unfolding diff_component Manifests.parse_file Manifests.read_pairs Manifests.read_manifest
    Manifests.read_action Manifests.read_property Manifests.add_action get_action_kind
    File.from_action File.start File.set_properties File.set_property File.is_digest_key
tar-panics = refl
