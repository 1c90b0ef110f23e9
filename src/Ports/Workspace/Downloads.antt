-- ===== src/Ports/Workspace/Downloads.antt =====
-- Every step of a build but `get_sources` downloads nothing.
use ips.Base.{Bytes, String, not, refl, Option, none, some, List, [], ◌∷◌}
use ips.Base.Outcome.{ok}
use ips.Base.Text.{contains_str}
use ips.Base.Paths.{extension, join_path}
use ips.Digest.{Hashes}
use ips.Payload.{ObjectCrate}
use ips.Actions.Manifest.{Manifest, add_file}
use ips.Ports.System.{System, Status, made_dir, wrote, ran, printed}
use ips.Ports.Workspace.{
  Workspace, new, init_root, unpack_all_sources, unpack_source, build, add_files, package_files,
  check_status, unpack_with, create_dir_all, filtered_env, path_lookup_error, write_file,
  run_command, workspace_at,
}
use ips.Ports.Sources.{Source}
use ips.Ports.Quiet.{
  downloads, Quiet, Quiet-pure, Quiet-fail, Quiet-ask, Quiet-act, Quiet-if, Quiet-say, Quiet-bind,
  set_current_dir-Quiet,
}

module _ (system : System) where
  pub create_dir_all-Quiet : (path : String) → Quiet (create_dir_all system path)
  unfolding downloads
  create_dir_all-Quiet path = Quiet-act _ (made_dir path) _ refl

  pub init_root-Quiet : (ws : Workspace) → Quiet (init_root system ws)
  unfolding init_root
  init_root-Quiet ws = Quiet-bind _ _ (create_dir_all-Quiet ws.root) λ _.
      Quiet-bind _ _ (create_dir_all-Quiet ws.build_dir) λ _.
        Quiet-bind _ _ (create_dir_all-Quiet ws.source_dir) λ _. create_dir_all-Quiet ws.proto_dir

  pub new-Quiet : (root : String) → Quiet (new system root)
  unfolding new
  new-Quiet root =
      Quiet-bind _ _ (Quiet-ask _ _)
        λ dir. Quiet-bind _ _ (init_root-Quiet (workspace_at dir)) λ _. Quiet-pure _

  pub write_file-Quiet : (path : String) (content : Bytes) → Quiet (write_file system path content)
  unfolding downloads
  write_file-Quiet path content = Quiet-act _ (wrote path content) _ refl

  pub check_status-Quiet :
      (command : String) (status : Status system.I32) → Quiet (check_status system command status)
  check_status-Quiet command status = Quiet-if (not status.success) (Quiet-fail _) (Quiet-pure tt)

  pub run_command-Quiet :
      (program : String) (args : List String) (env : Option (List (String × String)))
      → Quiet (run_command system program args env)
  unfolding downloads
  run_command-Quiet program args env = Quiet-act _ (ran program args env) _ refl

  pub unpack_with-Quiet :
      (ws : Workspace) (src : Source system) (ext : Option String)
      → Quiet (unpack_with system ws src ext)
  unpack_with-Quiet ws src none = Quiet-fail _
  unpack_with-Quiet ws src (some ext) =
      Quiet-if (not (contains_str ext "tar")) (Quiet-fail _)
        (Quiet-bind _ _ (run_command-Quiet _ _ _) (check_status-Quiet "tar"))

  pub unpack_all_sources-Quiet :
      (ws : Workspace) (sources : List (Source system))
      → Quiet (unpack_all_sources system ws sources)
  unfolding unpack_all_sources unpack_source
  unpack_all_sources-Quiet ws [] = Quiet-pure tt
  unpack_all_sources-Quiet ws (src ∷ sources) =
      Quiet-bind _ _ (unpack_with-Quiet ws src (extension src.local_name))
        λ _. unpack_all_sources-Quiet ws sources

  pub build-Quiet : (ws : Workspace) (build_script : String) → Quiet (build system ws build_script)
  unfolding build
  build-Quiet ws build_script = Quiet-bind _ _ (write_file-Quiet _ _) λ _.
      Quiet-bind _ _ (Quiet-ask path_lookup_error (λ w. system.which w "bash")) λ bash.
        Quiet-bind (λ w. (ok (system.vars w), w)) _ (record { at = λ w. refl })
          λ vars.
            Quiet-bind _ _
              (run_command-Quiet bash ("-ex" ∷ join_path ws.build_dir "build_script.sh" ∷ [])
                (some (filtered_env vars)))
              (check_status-Quiet "build_script")

  module _ (object : ObjectCrate) (hashes : Hashes) where
    pub add_files-Quiet :
        (m : Manifest) (files : List String) → Quiet (add_files system object hashes m files)
    unfolding add_files
    add_files-Quiet m [] = Quiet-pure m
    add_files-Quiet m (f ∷ files) =
        Quiet-bind _ _ (Quiet-ask _ _) λ file. add_files-Quiet (add_file file m) files

    pub package_files-Quiet :
        (ws : Workspace) (file_list : List String)
        → Quiet (package_files system object hashes ws file_list)
    unfolding package_files downloads
    package_files-Quiet ws file_list = Quiet-bind _ _ (Quiet-ask _ _) λ cwd.
        Quiet-bind _ _ (set_current_dir-Quiet system _ _) λ _.
          Quiet-bind _ _ (add_files-Quiet _ file_list)
            λ m. Quiet-bind _ _ (set_current_dir-Quiet system _ cwd) λ _. Quiet-say (printed m) refl
