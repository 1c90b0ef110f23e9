-- ===== src/Tests/Builds.antt =====
-- The steps of `ports` on concrete inputs.
use Prim.Native.Nat.{ℕ}
use ips.Base.{
  Bytes, String, ◌≡◌, refl, Bool, true, none, some, List, [], ◌∷◌, ◌++◌, map, ◌==◌, ◌||◌,
  if◌then◌else◌,
}
use ips.Base.Outcome.{Outcome, ok, err}
use ips.Base.Pest.{Pairs}
use ips.Base.Table.{lookup}
use ips.Base.Text.{◌<>◌}
use ips.Base.Paths.{join_path}
use ips.Base.Paths.Laws.{tar_gz}
use ips.Digest.{Hashes}
use ips.Payload.{ObjectCrate}
use ips.Specfile.{SpecFile}
use ips.Actions.Manifest as Manifests
use ips.Specfile as Specfiles
use ips.Specfile.Entries.{assignment, section_entry, text_line, entry_pairs}
use ips.Specfile.Macros as Macros
use ips.Ports.Sources as Sources
use ips.Ports.Sources.{Source}
use ips.Ports.System.{made_dir, entered, printed, Event, System, World, ran, fetched, wrote, log}
use ips.Ports.Workspace.{
  new, unpack_all_sources, get_sources, WorkspaceError, Workspace, unextractable_source,
  unpack_source, build, package_files,
}
use ips.Ports.Workspace.Steps.{
  last_value, build_result, script_path, scripted, script_env, unpack_source-tar_gz, build-env,
}
use ips.Ports.Workspace.Packaging.{inside, packaged, read_files, package_files-packaged}
use ips.Ports.Command.{run_package_command, Cli, package_command, main}
use ips.Ports.Command.Fetching.{Stands, url_of, get_sources-downloads}
use ips.Ports.Quiet.{downloads}
use ips.Ports.Command.Trace.{Builds, run_package_command-Builds}
use ips.Ports.Command.Downloads.{main-downloads}

-- A system whose paths are texts, that answers each question.
abbrev small_system : System
small_system = record {
  IoError = String;
  I32 = ℕ;
  read_to_string = λ w path. ok "";
  read = λ w path. if path == "lib/libz.so" then ok (127 ∷ []) else err path;
  make_dir = λ w path. ok tt;
  write = λ w path content. ok tt;
  run = λ w program args env. ok (record { success = true; code = some 0 });
  vars = λ w. ("TERM", "vt100") ∷ ("HOME", "/root") ∷ [];
  current_dir = λ w. ok w.cwd;
  enter = λ w path. ok path;
  Url = String;
  UrlError = String;
  parse_url = λ s. ok s;
  url_path = λ u. u;
  url_text = λ u. u;
  HttpError = String;
  fetch = λ w url. ok [];
  expand = λ w path. ok "/wks";
  WhichError = String;
  which = λ w name. ok "/usr/bin/bash";
  bytes_of = λ s. [];
}

abbrev home : World
home = record { cwd = "/home"; events = [] }

abbrev wks : Workspace
wks = record {
  root = "/wks";
  source_dir = "/wks/sources";
  build_dir = "/wks/build/i386";
  proto_dir = "/wks/build/proto";
}

abbrev zlib_source : Source small_system
zlib_source = record {
  url = "https://zlib.net/zlib.tar.gz";
  local_name = "/wks/sources/zlib" <> tar_gz;
}

unpack_source-tar_gz_example :
    unpack_source small_system wks zlib_source home ≡ (err (unextractable_source zlib_source), home)
unpack_source-tar_gz_example =
    unpack_source-tar_gz small_system wks zlib_source "/wks/sources/zlib" refl home

abbrev started : World
started = scripted small_system wks "make" home

build-env_example :
    (build small_system wks "make" home ≡ (
      build_result small_system (record { success = true; code = some 0 }),
      log
          (ran "/usr/bin/bash"
            ("-ex" ∷ script_path small_system wks ∷ [])
            (some (script_env small_system wks "make" home)))
          started,
    ))
    × ((k : String)
        → lookup k (script_env small_system wks "make" home) ≡ (
            if k == "TERM" || k == "TZ" || k == "LANG" || k == "PATH"
            then last_value k (small_system.vars started) none
            else none))
build-env_example = build-env small_system wks "make" "/usr/bin/bash" home refl refl refl

abbrev no_hashes : Hashes
no_hashes = record {
  sha2_256 = λ b. "";
  sha2_512_trunc256 = λ b. "";
  sha2_512 = λ b. "";
  sha3_256 = λ b. "";
  sha3_512 = λ b. "";
}

abbrev no_objects : ObjectCrate
no_objects = record {
  File = Bytes;
  parse = λ b. none;
  is_64 = λ f. true;
  Architecture = Bool;
  architecture = λ f. true;
  is_x86_64 = λ a. a;
  is_i386 = λ a. a;
  is_aarch64 = λ a. a;
  is_arm = λ a. a;
}

package_files-packaged_example :
    package_files small_system no_objects no_hashes wks ("/lib/libz.so" ∷ []) home
    ≡ packaged small_system no_objects no_hashes "/home" "/home"
        (inside small_system no_objects no_hashes wks "/wks/build/proto" home)
        (read_files small_system no_objects no_hashes
          (inside small_system no_objects no_hashes wks "/wks/build/proto" home)
          ("/lib/libz.so" ∷ []))
package_files-packaged_example =
    package_files-packaged small_system no_objects no_hashes wks ("/lib/libz.so" ∷ []) "/home"
      "/wks/build/proto" "/home" home refl refl refl

abbrev spec_parser : String → Outcome String (Pairs Specfiles.Rule)
spec_parser content = ok (
    entry_pairs (
      assignment "Name: zlib" "Name" "zlib"
      ∷ assignment "Source: u" "Source" "https://zlib.net/zlib.tar.gz"
      ∷ section_entry "%build\nmake\n" "build" (text_line "make\n" "make" ∷ [])
      ∷ []))

abbrev macro_parser : String → Outcome String (Pairs Macros.Rule)
macro_parser line = ok Pairs.nil

abbrev command_line : Cli
command_line = record { command = package_command "i386" "zlib.spec"; config = none; verbose = 0 }

main-downloads_example :
    downloads
      (main small_system no_objects no_hashes spec_parser macro_parser command_line home).1.events
    ≡ downloads home.events
main-downloads_example =
    main-downloads small_system no_objects no_hashes spec_parser macro_parser command_line home

abbrev answered : Outcome (WorkspaceError small_system) (List (Source small_system)) × World
answered = (
  ok (zlib_source ∷ []),
  record {
    cwd = "/home";
    events = fetched "https://zlib.net/zlib.tar.gz" ∷ wrote "/wks/sources/zlib.tar.gz" [] ∷ [];
  },
)

get_sources-answered :
    get_sources small_system wks ("https://zlib.net/zlib.tar.gz" ∷ []) home ≡ answered
unfolding get_sources Sources.new
get_sources-answered = refl

get_sources-downloads_example :
    Stands small_system wks ("https://zlib.net/zlib.tar.gz" ∷ []) (zlib_source ∷ [])
    × (downloads answered.1.events
        ≡ downloads home.events ++ map (url_of small_system) (zlib_source ∷ []))
get_sources-downloads_example =
    get_sources-downloads small_system wks ("https://zlib.net/zlib.tar.gz" ∷ []) (zlib_source ∷ [])
      home answered.1 get_sources-answered

abbrev after_build : World
after_build = record {
  cwd = "/home";
  events =
      made_dir "/wks"
      ∷ made_dir "/wks/build/i386"
      ∷ made_dir "/wks/sources"
      ∷ made_dir "/wks/build/proto"
      ∷ wrote "/wks/build/i386/build_script.sh" []
      ∷ ran "/usr/bin/bash" ("-ex" ∷ "/wks/build/i386/build_script.sh" ∷ [])
          (some (("TERM", "vt100") ∷ []))
      ∷ entered "/wks/build/proto"
      ∷ entered "/home"
      ∷ printed Manifests.new
      ∷ [];
}

build-succeeds :
    run_package_command small_system no_objects no_hashes spec_parser macro_parser "zlib.spec"
      "i386" home
    ≡ (ok tt, after_build)
unfolding run_package_command Specfiles.parse Specfiles.push_text new get_sources
    Specfiles.read_variable Specfiles.control_of unpack_all_sources Macros.parse
    Specfiles.append_newline_string build package_files join_path
build-succeeds = refl

run_package_command-Builds_example :
    (content : String) × (spec : SpecFile) × (es : List Event) × (small_system.read_to_string home
        "zlib.spec"
      ≡ ok content)
    × (Specfiles.parse spec_parser content ≡ ok spec)
    × (after_build.events ≡ home.events ++ es)
    × Builds small_system no_objects no_hashes spec_parser macro_parser spec es
run_package_command-Builds_example =
    run_package_command-Builds small_system no_objects no_hashes spec_parser macro_parser
      "zlib.spec" "i386" home after_build build-succeeds
