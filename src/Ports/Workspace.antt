-- ===== src/Ports/Workspace.antt =====
-- ports/src/workspace.rs: the directories of a build and its steps. Each path is a text here, so
-- `to_str` gives a value and the errors for a path that is none do not arise. The writes to a file that
-- has just been created are one event.
pub mod Steps
pub mod Packaging
pub mod Downloads
pub mod Traces
use ips.Base.{
  Bytes, String, Bool, true, false, Option, none, some, not, List, [], ◌∷◌, foldl, ◌++◌, keep, ◌||◌,
  ◌==◌, if◌then◌else◌,
}
use ips.Base.Outcome.{Outcome, ok, err, map_err}
use ips.Base.Table.{Table, insert}
use ips.Base.Text.{◌<>◌, is_empty_str, starts_with, contains_str, drop_first}
use ips.Base.Paths.{join_path, extension}
use ips.Digest.{Hashes}
use ips.Payload.{ObjectCrate}
use ips.Actions.File.{FileError, File, read_from_path}
use ips.Actions.Manifest as Manifests
use ips.Actions.Manifest.{Manifest, add_file}
use ips.Ports.Sources as Sources
use ips.Ports.Sources.{Source, SourceError}
use ips.Ports.System.{
  System, Status, Event, made_dir, fetched, wrote, ran, printed, World, Run, ◌>>=◌, ◌>>◌, pure,
  fail, ask, act, say, set_current_dir,
}

abbrev default_workspace_root : String
default_workspace_root = "~/.ports/wks"

abbrev default_arch : String
default_arch = "i386"

abbrev default_tar : String
default_tar = "gtar"

abbrev default_shebang : String
default_shebang = "#!/usr/bin/env bash"

pub record Workspace : Type 0 where
  pub root : String
  pub source_dir : String
  pub build_dir : String
  pub proto_dir : String

-- The directories below an expanded root.
abbrev pub workspace_at : String → Workspace
workspace_at root = record {
  root = root;
  build_dir = join_path (join_path root "build") default_arch;
  source_dir = join_path root "sources";
  proto_dir = join_path (join_path root "build") "proto";
}

-- `expand_source_path`, `get_proto_dir`, `get_build_dir` and `get_macros`.
unfoldable pub expand_source_path : Workspace → String → String
expand_source_path ws fname = join_path ws.source_dir fname

unfoldable pub get_proto_dir : Workspace → String
get_proto_dir ws = ws.proto_dir

unfoldable pub get_build_dir : Workspace → String
get_build_dir ws = ws.build_dir

unfoldable pub get_macros : Workspace → Table String
get_macros ws =
    ("proto_dir", ws.proto_dir) ∷ ("build_dir", ws.build_dir) ∷ ("source_dir", ws.source_dir) ∷ []

-- The test of the filter in `build`.
unfoldable pub is_kept : String → Bool
is_kept k = k == "TERM" || k == "TZ" || k == "LANG" || k == "PATH"

abbrev pub insert_var : Table String → String × String → Table String
insert_var t (k, v) = insert k v t

-- `filtered_env`.
unfoldable pub filtered_env : List (String × String) → Table String
unfolding is_kept
filtered_env vars = foldl insert_var [] (keep (λ kv. is_kept kv.0) vars)

-- The path of a listed file below the proto directory.
unfoldable pub relative : String → String
unfolding starts_with drop_first
relative f = if starts_with f "/" then drop_first f else f

module _ (system : System) where
  open system use {IoError, I32}

  pub data WorkspaceError : Type 0 where
    non_zero_command_exit_code : (command : String) (code : I32) → WorkspaceError
    unextractable_source : Source system → WorkspaceError
    invalid_status_code : WorkspaceError
    source_has_no_extension : Source system → WorkspaceError
    io_error : IoError → WorkspaceError
    variable_lookup_error : String → WorkspaceError
    source_error : SourceError system → WorkspaceError
    reqwest_error : system.HttpError → WorkspaceError
    unrunable_script : String → WorkspaceError
    path_lookup_error : system.WhichError → WorkspaceError
    ips_action_error : FileError IoError → WorkspaceError

  abbrev pub WorkspaceRun : Type 0 → Type 0
  WorkspaceRun A = Run WorkspaceError A

  abbrev pub create_dir_all : String → WorkspaceRun (Unit {0})
  create_dir_all path = act io_error (made_dir path) (λ w. system.make_dir w path)

  -- `init_root`.
  unfoldable pub init_root : Workspace → WorkspaceRun (Unit {0})
  init_root ws = do
    create_dir_all ws.root
    create_dir_all ws.build_dir
    create_dir_all ws.source_dir
    create_dir_all ws.proto_dir

  -- `Workspace::new`.
  unfoldable pub new : String → WorkspaceRun Workspace
  unfolding init_root
  new root = do
    expanded ←
        ask variable_lookup_error
          (λ w. system.expand w (if is_empty_str root then default_workspace_root else root))
    init_root (workspace_at expanded)
    pure (workspace_at expanded)

  abbrev pub write_file : String → Bytes → WorkspaceRun (Unit {0})
  write_file path content = act io_error (wrote path content) (λ w. system.write w path content)

  -- The request and the file, for a source.
  abbrev pub fetch_source : Source system → WorkspaceRun (Source system)
  fetch_source src_struct = do
    let url = system.url_text src_struct.url
    bytes ← act reqwest_error (fetched url) (λ w. system.fetch w url)
    write_file src_struct.local_name bytes
    pure src_struct

  -- The body of the loop of `get_sources`.
  unfoldable pub get_source : Workspace → String → WorkspaceRun (Source system)
  get_source ws src = do
    src_struct ← ask source_error (λ w. Sources.new system src ws.source_dir)
    fetch_source src_struct

  -- `get_sources`.
  unfoldable pub get_sources : Workspace → List String → WorkspaceRun (List (Source system))
  unfolding get_source
  get_sources ws [] = pure []
  get_sources ws (src ∷ sources) = do
    s ← get_source ws src
    rest ← get_sources ws sources
    pure (s ∷ rest)

  -- The end of a process: `code` of a status that is no success, or the error for none.
  abbrev pub exit_error : String → Option I32 → WorkspaceError
  exit_error command none = invalid_status_code
  exit_error command (some code) = non_zero_command_exit_code command code

  abbrev pub check_status : String → Status I32 → WorkspaceRun (Unit {0})
  check_status command status =
      if not status.success then fail (exit_error command status.code) else pure tt

  abbrev pub run_command :
      String → List String → Option (List (String × String)) → WorkspaceRun (Status I32)
  run_command program args env =
      act io_error (ran program args env) (λ w. system.run w program args env)

  -- The `match` on the extension.
  abbrev pub unpack_with : Workspace → Source system → Option String → WorkspaceRun (Unit {0})
  unpack_with ws src none = fail (unextractable_source src)
  unpack_with ws src (some ext) =
      if not (contains_str ext "tar") then fail (unextractable_source src) else (do
        status ←
            run_command default_tar
              ("-C" ∷ ws.build_dir ∷ "-xaf" ∷ src.local_name ∷ "--strip-components=1" ∷ []) none
        check_status "tar" status)

  -- `unpack_source`.
  unfoldable pub unpack_source : Workspace → Source system → WorkspaceRun (Unit {0})
  unfolding extension contains_str
  unpack_source ws src = unpack_with ws src (extension src.local_name)

  -- `unpack_all_sources`.
  unfoldable pub unpack_all_sources : Workspace → List (Source system) → WorkspaceRun (Unit {0})
  unfolding unpack_source
  unpack_all_sources ws [] = pure tt
  unpack_all_sources ws (src ∷ sources) = do unpack_source ws src; unpack_all_sources ws sources

  -- What `build` writes.
  abbrev pub script_text : String → Bytes
  script_text build_script = system.bytes_of (default_shebang <> ("\n" <> (build_script <> "\n")))

  -- `build`.
  unfoldable pub build : Workspace → String → WorkspaceRun (Unit {0})
  unfolding filtered_env
  build ws build_script = do
    let path = join_path ws.build_dir "build_script.sh"
    write_file path (script_text build_script)
    bash ← ask path_lookup_error (λ w. system.which w "bash")
    vars ← λ w. (ok (system.vars w), w)
    status ← run_command bash ("-ex" ∷ path ∷ []) (some (filtered_env vars))
    check_status "build_script" status

  module _ (object : ObjectCrate) (hashes : Hashes) where
    -- The loop of `package`.
    unfoldable pub add_files : Manifest → List String → WorkspaceRun Manifest
    unfolding relative
    add_files m [] = pure m
    add_files m (f ∷ files) = do
      file ←
          ask ips_action_error
            (λ w. read_from_path object hashes (system.read w) (some (relative f)))
      add_files (add_file file m) files

    -- `package`.
    unfoldable pub package_files : Workspace → List String → WorkspaceRun (Unit {0})
    unfolding add_files
    package_files ws file_list = do
      cwd ← ask io_error system.current_dir
      set_current_dir system io_error ws.proto_dir
      m ← add_files Manifests.new file_list
      set_current_dir system io_error cwd
      say (printed m)
