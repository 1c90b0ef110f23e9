-- ===== src/Lib.antt =====
-- The Image Packaging System in Rust: package manifests, digests, payloads and images, the makefiles of
-- the userland build, and building packages from spec files.
--
-- The crate `libips` reads package manifests. `libips/src/actions/mod.rs` turns the text of a manifest
-- into actions and each action into a record of its kind; `libips/src/digest/mod.rs` reads, prints and
-- computes the digests that file actions carry, `libips/src/payload/mod.rs` records what a file on disk
-- holds, and `libips/src/image` opens images. The crate `userland` reads the makefiles of components:
-- `userland/src/lib.rs` parses them, follows their includes, merges them and resolves nested variables,
-- and `userland/src/component.rs` makes a component of the variables; `userland/src/repology.rs` asks for
-- the newest version of a package. `pkg6dev/src/main.rs` compares the manifests of a component with the
-- sample manifest of its build, and shows what a component's makefile says. The crate `specfile` reads
-- spec files and expands macros in their scripts, and `ports` builds a package from one: it prepares a
-- workspace, fetches and unpacks sources, runs the build script, and makes a manifest of the files.
--
-- - Base: what all parts share. Outcome is a Rust call that returns `Ok`, returns `Err` or panics, with
--   `?` as `>>=`; Table is `HashMap<String, V>` as an association list, whose order of entries stands for
--   the order of iteration that Rust leaves open; Text is `String` with `split`, `trim`, `replace`,
--   `find` and the like, on characters; Paths is what the program uses of `std::path`, on texts; Pest is
--   the tree of pairs that the parsers of `pest` yield, and Pest.Grammar what its grammars are written
--   with: an expression takes a text to a match or none, and each repetition has the text as its bound,
--   which is enough since what is repeated takes a character at least; Laws, Skipping and Series say what
--   is read, Yields, Silent and Spells which pairs come out.
-- - Digest: `libips/src/digest/mod.rs`. The functions of `sha2` and `sha3` are the parameter `Hashes`.
--   Parsing is about `from_str` and `Display`, Hashing about `from_bytes`.
-- - Payload: `libips/src/payload/mod.rs`. The crate `object` is the parameter `ObjectCrate`, reading a
--   file is the parameter `read`. Elf is about `compute_payload` and `is_elf`.
-- - Actions: `libips/src/actions/mod.rs`. Action holds the parsed form and the text helpers; Facet the
--   trait `FacetedAction`; Dir, File, Dependency, Attr, License and Link one `impl From<Action>` each, as
--   `from_action`, with what it puts into each field in a child Fields; Manifest holds `add_action` and
--   `parse_string`, which take any parser as `parse`; Tokens says which pairs stand for the lines of a
--   manifest. Manifest.Grammar is `libips/src/actions/manifest.pest`, a definition for each rule that
--   gives a pair or is used by one, and `parse_with` its parser; Written and Valid are manifests as a
--   file has them, with the blanks, continued lines and comments between the parts, Gaps, Words,
--   Payloads, Properties, Behind, Arguments, Lines and Transforms say how each part is read, up to
--   RoundTrip; Shapes and Total are about the pairs for any text.
-- - Userland.Makefile: `userland/src/lib.rs`. Merge is about `merge`, Resolve about `get` and nested
--   variables, Parse about the walk over the pairs of a parser, Include about `parse_all` over the
--   working directory. Grammar is `userland/src/makefile.pest`, with `parse_with` its parser and the
--   property of Unicode that `UPPERCASE` stands for as `uppercase`; Written is a makefile as a file has
--   it, Words, Lines, Defines, Comments and Bodies say how its parts are read, up to RoundTrip, and Total
--   is about the pairs for any text. The captures of the crate `regex` and the file system are
--   parameters.
-- - Userland.Component: `userland/src/component.rs`. The parsers of `semver`, `url` and `i32` are
--   parameters.
-- - Userland.Repology: `userland/src/repology.rs`. `project` makes the address, and the request is the
--   parameter `get`; the crate `semver` is a parameter too, and the stable sort of the standard library
--   is written out as insertion. Newest is about the result.
-- - Pkg6dev: `pkg6dev/src/main.rs`. Pkg6dev itself holds the comparison of manifests; Comparison says
--   which files it reports, Replacements what the command line's replacements mean. Printing is a
--   computation over the lines printed and the files written so far; Diff is `diff_component`, Show is
--   `show_component_info`, and Main runs one of them. The file system, the parsers, the request and the
--   `Debug` texts are parameters.
-- - Specfile: `specfile/src/lib.rs`, with `specfile/src/macros.rs` in Macros. The walks take the pairs
--   that the generated parsers yield; Entries says what an entry of a spec file states and which pairs
--   stand for it, Sections, Assignments, Scripts and Steps follow the walk over one entry, Stated over
--   the file, and Kept is about what the walk leaves alone. Macros.Expansion is about what a script
--   becomes.
-- - Image: `libips/src/image`. Opening a file and reading an image from JSON are parameters.
-- - Ports: the crate `ports`. System is the state, a working directory and the events so far, and the
--   record of what the operating system, the network and the crates answer in each state; Sources,
--   Workspace and Command are `ports/src/sources.rs`, `ports/src/workspace.rs` and `ports/src/main.rs`.
--   Quiet is about computations that download nothing, After about the events that a computation adds
--   where it returns; Workspace.Steps, Workspace.Packaging and Workspace.Traces are about the steps of a
--   build, Command.Downloads and Command.Fetching about what is downloaded, Command.Trace about a whole
--   build.
-- - Tests: the theorems at work on concrete inputs.
--
-- `Manifest::parse_string`, `File::from` and the rest of `libips` end on every input. `Makefile::get` and
-- `Makefile::parse_all` call themselves without a bound: here they spend fuel, one unit for each nested
-- call, and `none` says that it ran out. Each nested call of `get` is for a name that the variable is
-- made of, and each nested call of `parse_all` for an included file, so fuel above the depth of that
-- nesting is enough; a cycle has no such depth.
--
-- Errors keep what tells them apart where the source has an error type of its own; the context that
-- `anyhow` adds to an error is left out. Paths are texts, so the errors for a path that is no text do not
-- arise. A process is started and waited for in one step, and the writes to a file that was just created
-- are one step. Serialization, `Diff` and `Debug` are derived and left out, and so are the command line
-- parsers of `clap`. `pkg6depotd`, `pkg6repo` and `crates/pkg6` print one line each and are not modelled,
-- and the grammars `specfile/src/specfile.pest` and `specfile/src/macro.pest` are known by the pairs that
-- their parsers yield.
pub mod Base
pub mod Digest
pub mod Payload
pub mod Actions
pub mod Userland
pub mod Pkg6dev
pub mod Specfile
pub mod Image
pub mod Ports
pub mod Tests
