-- ===== src/Pkg6dev/Main.antt =====
-- pkg6dev/src/main.rs: the commands and `main`.
use ips.Base.{String, Option, List}
use ips.Base.Outcome.{Outcome, ok, err, panic}
use ips.Base.Pest.{Pairs}
use ips.Actions.Manifest as Manifests
use ips.Pkg6dev.Printing.{Output, Printing}
use ips.Pkg6dev.Diff.{Disk, DiffError, diff_component}
use ips.Pkg6dev.Show.{Tools, ShowError, show_component_info}

pub data Commands : Type 0 where
  diff_component_command :
      (component : String) (replacements : Option (List String)) (output_manifest : Option String)
      → Commands
  show_component_command : (component : String) → Commands

-- What `anyhow` holds: the error of the command that ran.
pub data AppError (IoError ActionError E : Type 0) : Type 0 where
  diff_error : DiffError IoError ActionError → AppError IoError ActionError E
  show_error : ShowError E → AppError IoError ActionError E

abbrev held :
    {E F : Type 0} → (E → F) → Outcome E (Unit {0}) × Output → Outcome F (Unit {0}) × Output
held wrap (ok u, out) = (ok u, out)
held wrap (err e, out) = (err (wrap e), out)
held wrap (panic, out) = (panic, out)

module _ {IoError ActionError : Type 0} (disk : Disk IoError ActionError)
    (manifest_parser : String → Outcome ActionError (Pairs Manifests.Rule)) {E NetError : Type 0}
    (tools : Tools E NetError) where
  -- `main` behind the command line's parser.
  unfoldable pub main :
      Commands → (cwd : String) → Printing (AppError IoError ActionError E) (Unit {0})
  unfolding diff_component show_component_info
  main (diff_component_command component replacements output_manifest) cwd out =
      held diff_error
        (diff_component disk manifest_parser component replacements output_manifest out)
  main (show_component_command component) cwd out =
      held show_error (show_component_info tools component cwd out)
