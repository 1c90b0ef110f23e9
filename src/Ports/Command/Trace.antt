-- ===== src/Ports/Command/Trace.antt =====
-- What a build that succeeds has done, step by step.
use ips.Base.{String, ◌≡◌, refl, sym, ap, subst, ◌∙◌, List, [], ◌++◌, map, append-nil}
use ips.Base.Outcome.{Outcome, ok, err, panic, map_err}
use ips.Base.Pest.{Pairs}
use ips.Digest.{Hashes}
use ips.Payload.{ObjectCrate}
use ips.Actions.Manifest.{Manifest}
use ips.Specfile as Specfiles
use ips.Specfile.{SpecFile}
use ips.Specfile.Kept.{parse-sources}
use ips.Specfile.Macros as Macros
use ips.Ports.System.{System, Event, World, Run, pure}
use ips.Ports.After.{
  resume-After, map_err-eq-ok, err_ok, panic_ok, ok_inj, After, After-pure, After-bind, After-then,
  After-answer,
}
use ips.Ports.Sources.{Source}
use ips.Ports.Workspace.{
  Workspace, workspace_at, new, get_sources, unpack_all_sources, build, relative,
}
use ips.Ports.Workspace.Traces.{
  made, scripted_run, packaged_run, paths, new-After, build-After, package_files-After,
}
use ips.Ports.Command.{
  CommandError, wrapped, within, macro_map, run_spec, run_package_command, workspace_error,
  macro_error, spec_error, read_error,
}

module _ {E F A : Type 0} (Post : A → List Event → Type 0) where
  wrapped-After :
      (wrap : E → F) (t : Outcome E A × World) (w last : World) (a : A)
      → ((b : A) (mid : World)
          → t ≡ (ok b, mid)
          → (es : List Event) × (mid.events ≡ w.events ++ es) × Post b es)
      → wrapped wrap t ≡ (ok a, last)
      → (es : List Event) × (last.events ≡ w.events ++ es) × Post a es
  wrapped-After wrap (ok b, mid) w last a h q =
      let (es, e, post) = h b mid refl in
      (
        es,
        ap (λ (t : Outcome F A × World). t.1.events) (sym q) ∙ e,
        subst (λ a. Post a es) (ok_inj (ap (λ t. t.0) q)) post,
      )
  wrapped-After wrap (err x, mid) w last a h q = absurd (err_ok (ap (λ t. t.0) q))
  wrapped-After wrap (panic, mid) w last a h q = absurd (panic_ok (ap (λ t. t.0) q))

  After-within : (wrap : E → F) (m : Run E A) → After m Post → After (within wrap m) Post
  After-within wrap m h = record {
    at = λ w last a q. wrapped-After wrap (m w) w last a (λ b mid. h.at w mid b) q;
  }

-- All events of a build: the directories of the workspace are made, the build script is written and run,
-- and the files are packaged.
abbrev pub built :
    (system : System)
    → String
    → String
    → String
    → List (String × String)
    → String
    → Manifest
    → List Event
built system dir script bash vars home m =
    made (workspace_at dir)
    ++ (scripted_run system (workspace_at dir) script bash vars
        ++ packaged_run (workspace_at dir) home m)

module _ (system : System) (object : ObjectCrate) (hashes : Hashes) {SpecError MacroError : Type 0}
    (spec_parser : String → Outcome SpecError (Pairs Specfiles.Rule))
    (macro_parser : String → Outcome MacroError (Pairs Macros.Rule)) where
  -- The events are those of a build of this spec file.
  pub record Builds (spec : SpecFile) (es : List Event) : Type 0 where
    pub dir : String
    pub script : String
    pub bash : String
    pub vars : List (String × String)
    pub home : String
    pub manifest : Manifest
    pub expanded :
        Macros.parse macro_parser
          (record { macros = macro_map (workspace_at dir) })
          spec.build_script
        ≡ ok script
    pub listed : paths manifest ≡ map relative spec.files
    pub events : es ≡ built system dir script bash vars home manifest

  none_fetched :
      (Post : List (Source system) → List Event → Type 0) (ws : Workspace) (sources : List String)
      → sources ≡ []
      → Post [] []
      → After {E = CommandError system SpecError MacroError}
          (within workspace_error (get_sources system ws sources))
          Post
  unfolding get_sources
  none_fetched Post ws sources h p =
      subst
        (λ l.
          After {E = CommandError system SpecError MacroError}
            (within workspace_error (get_sources system ws l)) Post)
        (sym h) (After-pure Post [] p)

  run_spec-After :
      (Post : Unit {0} → List Event → Type 0) (spec : SpecFile)
      → spec.sources ≡ []
      → ((es : List Event) → Builds spec es → Post tt es)
      → After (run_spec system object hashes spec_parser macro_parser spec) Post
  unfolding run_spec unpack_all_sources
  run_spec-After Post spec h k =
      (After-bind _ (within workspace_error (new system "")) _ (
        After-within _ workspace_error _ (
          new-After system _ "" (λ dir.
            After-bind _
              (within workspace_error (get_sources system (workspace_at dir) spec.sources)) _
              (none_fetched _ (workspace_at dir) spec.sources h (
                After-then _ (pure tt) _ (
                  After-pure _ tt (
                    After-answer _ macro_error
                      (λ w.
                        Macros.parse macro_parser (record { macros = macro_map (workspace_at dir) })
                          spec.build_script)
                      _
                      (λ w script e.
                        After-then _
                          (within workspace_error (build system (workspace_at dir) script)) _
                          (After-within _ workspace_error _ (
                            build-After system _ (workspace_at dir) script (λ bash vars.
                              After-within _ workspace_error _ (
                                package_files-After system object hashes _ (workspace_at dir)
                                  spec.files
                                  (λ home m q. k _ (record {
                                    dir = dir;
                                    script = script;
                                    bash = bash;
                                    vars = vars;
                                    home = home;
                                    manifest = m;
                                    expanded = e;
                                    listed = q;
                                    events = refl;
                                  })))))))))))))))

  -- Where the command succeeds, the spec file was read and parsed, and all that the command did is a build of
  -- it, in this order: it made the directories of one workspace, wrote the script that the macros of this
  -- workspace make of the build script, ran it, entered the proto directory and left it, and printed a
  -- manifest that lists the files of the spec file, each without a slash in front.
  pub run_package_command-Builds :
      (spec_file target : String) (w last : World)
      → run_package_command system object hashes spec_parser macro_parser spec_file target w
        ≡ (ok tt, last)
      → (content : String) × (spec : SpecFile) × (es : List Event) × (system.read_to_string w
            spec_file
          ≡ ok content)
        × (Specfiles.parse spec_parser content ≡ ok spec)
        × (last.events ≡ w.events ++ es)
        × Builds spec es
  unfolding run_package_command
  run_package_command-Builds spec_file target w last h =
      let (es, e, (content, spec, r, p, b)) =
        resume-After
          (λ (u : Unit {0}) es.
            (content : String) × (spec : SpecFile) × (system.read_to_string w spec_file
              ≡ ok content)
            × (Specfiles.parse spec_parser content ≡ ok spec)
            × Builds spec es)
          _ w last (map_err read_error (system.read_to_string w spec_file), w) tt
          (λ mid content q. (
            [],
            ap
                  (λ (t : Outcome (CommandError system SpecError MacroError) String × World).
                    t.1.events)
                  (sym q)
                ∙ sym (append-nil w.events),
            After-answer _ spec_error (λ v. Specfiles.parse spec_parser content) _
                (λ v spec p. run_spec-After _ spec (parse-sources spec_parser content p) (λ es b.
                  (content, spec, map_err-eq-ok read_error _ content (ap (λ t. t.0) q), p, b))),
          ))
          h in
      (content, spec, es, r, p, e, b)
