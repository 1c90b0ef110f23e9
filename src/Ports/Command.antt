-- ===== src/Ports/Command.antt =====
-- ports/src/main.rs: the command `package`. The target directory is not used, as in the source.
pub mod Downloads
pub mod Fetching
pub mod Trace
use ips.Base.{ℕ, Bool, String, Option, none, some, List, [], ◌∷◌, foldl, nat_eq, if◌then◌else◌}
use ips.Base.Outcome.{Outcome, ok, err, panic}
use ips.Base.Pest.{Pairs}
use ips.Base.Table.{Table, insert}
use ips.Digest.{Hashes}
use ips.Payload.{ObjectCrate}
use ips.Specfile
use ips.Specfile.{SpecFile}
use ips.Specfile.Macros as Macros
use ips.Specfile.Macros.{MacroParserError}
use ips.Ports.System.{System, World, Run, ◌>>=◌, ◌>>◌, pure, ask, say, printed_config}
use ips.Ports.Workspace.{
  Workspace, WorkspaceError, new, get_sources, unpack_all_sources, get_macros, build, package_files,
}

pub data Verbose : Type 0 where
  off some_output on debug : Verbose

-- The `match cli.verbose`.
unfoldable pub verbose_of : ℕ → Verbose
verbose_of n =
    if nat_eq n 0 then off else if nat_eq n 1 then some_output else if nat_eq n 2 then on else debug

pub data Commands : Type 0 where
  package_command : (target specfile : String) → Commands

pub record Cli : Type 0 where
  pub command : Commands
  pub config : Option String
  pub verbose : ℕ

-- What `anyhow` holds: the error of the part that failed.
pub data CommandError (system : System) (SpecError MacroError : Type 0) : Type 0 where
  read_error : system.IoError → CommandError system SpecError MacroError
  spec_error : SpecError → CommandError system SpecError MacroError
  workspace_error : WorkspaceError system → CommandError system SpecError MacroError
  macro_error : MacroParserError MacroError → CommandError system SpecError MacroError

abbrev pub wrapped : {E F A : Type 0} → (E → F) → Outcome E A × World → Outcome F A × World
wrapped wrap (ok a, w) = (ok a, w)
wrapped wrap (err e, w) = (err (wrap e), w)
wrapped wrap (panic, w) = (panic, w)

-- `?` on a step of the workspace.
abbrev pub within : {E F A : Type 0} → (E → F) → Run E A → Run F A
within wrap m w = wrapped wrap (m w)

abbrev insert_macro : Table String → String × String → Table String
insert_macro t (k, v) = insert k v t

-- `macro_map`.
unfoldable pub macro_map : Workspace → Table String
unfolding get_macros insert
macro_map ws = foldl insert_macro [] (get_macros ws)

module _ (system : System) (object : ObjectCrate) (hashes : Hashes) {SpecError MacroError : Type 0}
    (spec_parser : String → Outcome SpecError (Pairs Specfile.Rule))
    (macro_parser : String → Outcome MacroError (Pairs Macros.Rule)) where
  abbrev pub CommandRun : Type 0 → Type 0
  CommandRun A = Run (CommandError system SpecError MacroError) A

  -- The steps behind the parsed spec file.
  unfoldable pub run_spec : SpecFile → CommandRun (Unit {0})
  unfolding macro_map
  run_spec spec = do
    ws ← within workspace_error (new system "")
    downloaded ← within workspace_error (get_sources system ws spec.sources)
    within workspace_error (unpack_all_sources system ws downloaded)
    build_script ←
        ask macro_error
          (λ w. Macros.parse macro_parser (record { macros = macro_map ws }) spec.build_script)
    within workspace_error (build system ws build_script)
    within workspace_error (package_files system object hashes ws spec.files)

  -- `run_package_command`.
  unfoldable pub run_package_command : String → String → CommandRun (Unit {0})
  unfolding run_spec
  run_package_command spec_file target = do
    content_string ← ask read_error (λ w. system.read_to_string w spec_file)
    spec ← ask spec_error (λ w. Specfile.parse spec_parser content_string)
    run_spec spec

  abbrev pub print_config : Option String → CommandRun (Unit {0})
  print_config none = pure tt
  print_config (some c) = say (printed_config c)

  abbrev pub run_command : Commands → CommandRun (Unit {0})
  run_command (package_command target specfile) = run_package_command specfile target

  -- `main` behind the command line's parser.
  unfoldable pub main : Cli → CommandRun (Unit {0})
  unfolding run_package_command
  main cli = do print_config cli.config; run_command cli.command
