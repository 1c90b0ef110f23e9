-- ===== src/Ports/Workspace/Traces.antt =====
-- The events that each step of a build adds, where it returns.
use ips.Base.{
  String, Bytes, ◌≡◌, refl, sym, ap, ◌∙◌, some, List, [], ◌∷◌, ◌++◌, not, if◌then◌else◌, map,
  append-nil,
}
use ips.Base.Outcome.{Outcome, ok, map_err, >>=-eq-ok}
use ips.Base.Text.{is_empty_str}
use ips.Digest.{Hashes}
use ips.Payload.{ObjectCrate, compute_payload}
use ips.Actions.File.{payload_error, File, read_from_path}
use ips.Actions.Manifest as Manifests
use ips.Actions.Manifest.{Manifest, add_file}
use ips.Ports.System.{
  System, Status, Event, made_dir, wrote, ran, entered, printed, pure, set_current_dir,
}
use ips.Ports.Workspace.{
  Workspace, workspace_at, WorkspaceError, io_error, path_lookup_error, variable_lookup_error,
  default_workspace_root, ips_action_error, init_root, new, create_dir_all, write_file, run_command,
  check_status, filtered_env, script_text, build, relative, add_files, package_files,
}
use ips.Ports.Workspace.Steps.{script_path}
use ips.Ports.After.{
  ok_inj, After, After-ask, After-act, After-fail, After-pure, After-if, After-bind, After-then,
  After-answer, After-say, After-enter,
}

-- The directories of a workspace, in the order in which they are made.
abbrev pub made : Workspace → List Event
made ws =
    made_dir ws.root ∷ made_dir ws.build_dir ∷ made_dir ws.source_dir ∷ made_dir ws.proto_dir ∷ []

module _ (system : System) where
  create_dir_all-After :
      (Post : Unit {0} → List Event → Type 0) (path : String)
      → Post tt (made_dir path ∷ [])
      → After (create_dir_all system path) Post
  create_dir_all-After Post path h = After-act Post _ (made_dir path) _ (λ u. h)

  init_root-After :
      (Post : Unit {0} → List Event → Type 0) (ws : Workspace)
      → Post tt (made ws)
      → After (init_root system ws) Post
  unfolding init_root
  init_root-After Post ws h = After-bind _ _ _ (
      create_dir_all-After _ ws.root (
        After-bind _ _ _ (
          create_dir_all-After _ ws.build_dir (
            After-bind _ _ _
              (create_dir_all-After _ ws.source_dir (create_dir_all-After _ ws.proto_dir h))))))

  pub new-After :
      (Post : Workspace → List Event → Type 0) (root : String)
      → ((dir : String) → Post (workspace_at dir) (made (workspace_at dir)))
      → After (new system root) Post
  unfolding new
  new-After Post root h =
      After-answer Post variable_lookup_error
        (λ w. system.expand w (if is_empty_str root then default_workspace_root else root)) _
        (λ w dir q.
          After-then Post (init_root system (workspace_at dir)) (pure (workspace_at dir))
            (init_root-After _ (workspace_at dir) (After-pure _ _ (h dir))))

  check_status-After :
      (Post : Unit {0} → List Event → Type 0) (command : String) (status : Status system.I32)
      → Post tt []
      → After (check_status system command status) Post
  check_status-After Post command status h =
      After-if Post (not status.success) _ _ (After-fail Post _) (After-pure Post tt h)

  read_vars-After :
      (Post : List (String × String) → List Event → Type 0)
      → ((vars : List (String × String)) → Post vars [])
      → After {E = WorkspaceError system} (λ w. (ok (system.vars w), w)) Post
  read_vars-After Post h =
      After-ask Post {X = ⊥} (λ e. absurd e) (λ w. ok (system.vars w)) (λ w a q. h a)

  -- The script is written and then run.
  abbrev pub scripted_run : Workspace → String → String → List (String × String) → List Event
  scripted_run ws script bash vars =
      wrote (script_path system ws) (script_text system script)
      ∷ ran bash ("-ex" ∷ script_path system ws ∷ []) (some (filtered_env vars))
      ∷ []

  pub build-After :
      (Post : Unit {0} → List Event → Type 0) (ws : Workspace) (script : String)
      → ((bash : String) (vars : List (String × String))
          → Post tt (scripted_run ws script bash vars))
      → After (build system ws script) Post
  unfolding build
  build-After Post ws script h =
      After-then Post (write_file system (script_path system ws) (script_text system script)) _ (
        After-act _ io_error (wrote _ _) (λ w. system.write w _ _)
          (λ u.
            After-answer _ path_lookup_error (λ w. system.which w "bash") _
              (λ w bash q.
                After-bind _ (λ w. (ok (system.vars w), w)) _
                  (read_vars-After _ (λ vars.
                    After-bind _
                      (run_command system bash ("-ex" ∷ script_path system ws ∷ [])
                        (some (filtered_env vars)))
                      _
                      (After-act _ io_error (ran _ _ _) (λ w. system.run w _ _ _)
                        (λ status. check_status-After _ "build_script" status (h bash vars))))))))

-- The paths of a manifest's files.
abbrev pub paths : Manifest → List String
paths m = map (λ (f : File). f.path) m.files

paths-append :
    (files : List File) (file : File) (rest : List String)
    → map (λ (f : File). f.path) (files ++ file ∷ []) ++ rest
      ≡ map (λ (f : File). f.path) files ++ file.path ∷ rest
paths-append [] file rest = refl
paths-append (f ∷ files) file rest = ap (λ t. f.path ∷ t) (paths-append files file rest)

-- The proto directory is entered, left again, and the manifest is printed.
abbrev pub packaged_run : Workspace → String → Manifest → List Event
packaged_run ws home m = entered ws.proto_dir ∷ entered home ∷ printed m ∷ []

module _ (system : System) (object : ObjectCrate) (hashes : Hashes) where
  read_from_path-path :
      (read : String → Outcome system.IoError Bytes) (path : String) (file : File)
      → read_from_path object hashes read (some path) ≡ ok file
      → file.path ≡ path
  unfolding read_from_path
  read_from_path-path read path file h =
      let (payload, e, q) =
        >>=-eq-ok (map_err payload_error (compute_payload object hashes read path)) _ h in
      sym (ap (λ (f : File). f.path) (ok_inj q))

  paths-add_file :
      (file : File) (m : Manifest) (rest : List String)
      → paths (add_file file m) ++ rest ≡ paths m ++ file.path ∷ rest
  unfolding add_file
  paths-add_file file m rest = paths-append m.files file rest

  add_files-After :
      (Post : Manifest → List Event → Type 0) (m : Manifest) (files : List String)
      → ((n : Manifest) → paths n ≡ paths m ++ map relative files → Post n [])
      → After (add_files system object hashes m files) Post
  unfolding add_files
  add_files-After Post m [] h = After-pure Post m (h m (sym (append-nil (paths m))))
  add_files-After Post m (f ∷ files) h =
      After-answer Post ips_action_error
        (λ w. read_from_path object hashes (system.read w) (some (relative f))) _
        (λ w file q. add_files-After Post (add_file file m) files (λ n e. h n (
          e
          ∙ paths-add_file file m (map relative files)
          ∙ ap (λ p. paths m ++ p ∷ map relative files)
              (read_from_path-path (system.read w) (relative f) file q))))

  pub package_files-After :
      (Post : Unit {0} → List Event → Type 0) (ws : Workspace) (file_list : List String)
      → ((home : String) (m : Manifest)
          → paths m ≡ map relative file_list
          → Post tt (packaged_run ws home m))
      → After (package_files system object hashes ws file_list) Post
  unfolding package_files
  package_files-After Post ws file_list h =
      After-answer Post io_error system.current_dir _ (λ w home q.
        After-then _ (set_current_dir system io_error ws.proto_dir) _ (
          After-enter _ system io_error ws.proto_dir (
            After-bind _ (add_files system object hashes Manifests.new file_list) _ (
              add_files-After _ Manifests.new file_list (λ m e.
                After-then _ (set_current_dir system io_error home) _
                  (After-enter _ system io_error home (After-say _ (printed m) (h home m e))))))))
