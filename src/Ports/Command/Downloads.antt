-- ===== src/Ports/Command/Downloads.antt =====
-- What the command downloads.
use ips.Base.{String, ◌≡◌, refl, Option, none, some, List, []}
use ips.Base.Outcome.{Outcome, ok, err, panic}
use ips.Base.Pest.{Pairs}
use ips.Digest.{Hashes}
use ips.Payload.{ObjectCrate}
use ips.Specfile as Specfiles
use ips.Specfile.{SpecFile}
use ips.Specfile.Macros as Macros
use ips.Ports.System.{System, printed_config, World, Run, ◌>>=◌, ask}
use ips.Ports.Workspace.{get_sources}
use ips.Specfile.Kept.{parse-sources}
use ips.Ports.Command as Command
use ips.Ports.Command.{
  CommandRun, wrapped, within, run_spec, run_package_command, main, Cli, Commands, package_command,
  print_config, CommandError, workspace_error, macro_error, spec_error, read_error, macro_map,
}
use ips.Ports.Quiet.{downloads, Quiet, Quiet-pure, Quiet-ask, Quiet-say, Quiet-bind}
use ips.Ports.Workspace.Downloads.{
  new-Quiet, unpack_all_sources-Quiet, build-Quiet, package_files-Quiet,
}

wrapped-at :
    {E F A : Type 0} (wrap : E → F) (t : Outcome E A × World) (es : List String)
    → downloads t.1.events ≡ es
    → downloads (wrapped wrap t).1.events ≡ es
wrapped-at wrap (ok a, w) es e = e
wrapped-at wrap (err x, w) es e = e
wrapped-at wrap (panic, w) es e = e

Quiet-within : {E F A : Type 0} (wrap : E → F) (m : Run E A) → Quiet m → Quiet (within wrap m)
Quiet-within wrap m q = record { at = λ w. wrapped-at wrap (m w) (downloads w.events) (q.at w) }

module _ (system : System) (object : ObjectCrate) (hashes : Hashes) {SpecError MacroError : Type 0}
    (spec_parser : String → Outcome SpecError (Pairs Specfiles.Rule))
    (macro_parser : String → Outcome MacroError (Pairs Macros.Rule)) where
  run_spec-Quiet :
      (spec : SpecFile)
      → spec.sources ≡ []
      → Quiet (run_spec system object hashes spec_parser macro_parser spec)
  unfolding run_spec get_sources
  run_spec-Quiet spec h = rw h (
      Quiet-bind _ _ (Quiet-within workspace_error _ (new-Quiet system "")) λ ws.
        Quiet-bind _ _ (Quiet-pure []) λ downloaded.
          Quiet-bind _ _
            (Quiet-within workspace_error _ (unpack_all_sources-Quiet system ws downloaded))
            λ _.
              Quiet-bind _ _
                (Quiet-ask macro_error (λ w.
                  Macros.parse macro_parser (record { macros = macro_map ws }) spec.build_script))
                λ build_script.
                  Quiet-bind _ _
                    (Quiet-within workspace_error _ (build-Quiet system ws build_script))
                    λ _.
                      Quiet-within workspace_error _
                        (package_files-Quiet system object hashes ws spec.files))

  spec-Quiet :
      (m : Outcome SpecError SpecFile)
      → ((spec : SpecFile) → m ≡ ok spec → spec.sources ≡ [])
      → (w : World)
      → downloads
          ((ask spec_error (λ _. m) >>= run_spec system object hashes spec_parser macro_parser)
            w).1.events
        ≡ downloads w.events
  spec-Quiet (ok spec) h w = (run_spec-Quiet spec (h spec refl)).at w
  spec-Quiet (err e) h w = refl
  spec-Quiet panic h w = refl

  run_package_command-Quiet :
      (spec_file target : String)
      → Quiet (run_package_command system object hashes spec_parser macro_parser spec_file target)
  unfolding run_package_command
  run_package_command-Quiet spec_file target =
      Quiet-bind _ _ (Quiet-ask read_error (λ w. system.read_to_string w spec_file)) λ content.
        record {
          at =
              spec-Quiet (Specfiles.parse spec_parser content)
                (λ spec. parse-sources spec_parser content);
        }

  command-Quiet :
      (command : Commands)
      → Quiet (Command.run_command system object hashes spec_parser macro_parser command)
  command-Quiet (package_command target specfile) = run_package_command-Quiet specfile target

  print_config-Quiet :
      (config : Option String)
      → Quiet (print_config system object hashes spec_parser macro_parser config)
  unfolding downloads
  print_config-Quiet none = Quiet-pure tt
  print_config-Quiet (some c) = Quiet-say (printed_config c) refl

  -- The command downloads nothing, whatever the spec file says and however the command ends: no source
  -- of the spec file reaches the workspace.
  pub main-downloads :
      (cli : Cli) (w : World)
      → downloads (main system object hashes spec_parser macro_parser cli w).1.events
        ≡ downloads w.events
  unfolding main
  main-downloads cli w =
      (Quiet-bind _ _ (print_config-Quiet cli.config) λ _. command-Quiet cli.command).at w
