-- ===== src/Userland/Makefile/Include.antt =====
-- userland/src/lib.rs: `parse_single_file`, `parse_included_makefiles` and `parse_all`.
-- `parse_all` calls itself on the included makefiles without a bound; here each call spends fuel, and
-- `none` is a stack that has run out. The state is the working directory, which the code changes.
pub mod Nesting
use Prim.Native.Nat.{ℕ, zero, suc}
use ips.Base.{String, Option, none, some, List, [], ◌∷◌, if◌then◌else◌}
use ips.Base.Outcome.{Outcome, ok, err, panic}
use ips.Base.Pest.{Pairs}
use ips.Userland.Makefile.{Makefile, default, merge, get_includes, has_includes}
use ips.Userland.Makefile.Parse.{Rule, parse_string}

-- A computation that may run out of stack, and may fail, over the working directory.
abbrev pub Run : Type 0 → Type 0 → Type 0
Run E A = String → Option (Outcome E A × String)

infixl 5 ◌>>=◌
abbrev pub ◌>>=◌ : {E A B : Type 0} → Run E A → (A → Run E B) → Run E B
◌>>=◌ m f cwd = elim (m cwd) [
  | none ↦ none
  | some (ok a, cwd') ↦ f a cwd'
  | some (err e, cwd') ↦ some (err e, cwd')
  | some (panic, cwd') ↦ some (panic, cwd')
]

abbrev pub pure : {E A : Type 0} → A → Run E A
pure a cwd = some (ok a, cwd)

abbrev pub lift : {E A : Type 0} → Outcome E A → Run E A
lift o cwd = some (o, cwd)

-- What the operating system and `std::path` answer: the contents of a file, the parent of a path,
-- whether a directory can be entered from another, and the path that a name stands for in it.
pub record System (E : Type 0) : Type 0 where
  pub read_to_string : (cwd path : String) → Outcome E String
  pub parent : String → Option String
  pub enter : (cwd dir : String) → Outcome E String
  pub canonicalize : (cwd name : String) → Outcome E String

abbrev entered : {E : Type 0} → String → Outcome E String → Outcome E (Unit {0}) × String
entered cwd (ok dir) = (ok tt, dir)
entered cwd (err e) = (err e, cwd)
entered cwd panic = (panic, cwd)

module _ {E : Type 0} (system : System E) (parse : String → Outcome E (Pairs Rule)) where
  -- `env::set_current_dir`.
  unfoldable pub set_current_dir : String → Run E (Unit {0})
  set_current_dir dir cwd = some (entered cwd (system.enter cwd dir))

  -- `Makefile::parse_single_file`.
  unfoldable pub parse_single_file : String → Run E Makefile
  parse_single_file path = do
    content ← λ cwd. lift (system.read_to_string cwd path) cwd
    m ← lift (parse_string parse content)
    pure (record m { path = path })

  -- The loop of `parse_included_makefiles`.
  unfoldable pub parse_each : List String → Run E (List Makefile)
  unfolding parse_single_file
  parse_each [] = pure []
  parse_each (incl ∷ includes) = do
    path ← λ cwd. lift (system.canonicalize cwd incl) cwd
    m ← parse_single_file path
    ms ← parse_each includes
    pure (m ∷ ms)

  abbrev directory : Option String → String
  directory none = "/"
  directory (some d) = d

  abbrev parse_includes : Makefile → Option (List String) → Run E (List Makefile)
  parse_includes m none = pure []
  parse_includes m (some includes) = do
    entered ← set_current_dir (directory (system.parent m.path))
    parse_each includes

  -- `Makefile::parse_included_makefiles`.
  unfoldable pub parse_included_makefiles : Makefile → Run E (List Makefile)
  unfolding set_current_dir parse_each
  parse_included_makefiles m = parse_includes m (get_includes m)

  -- The loop of `parse_all`, over the way to parse a nested makefile.
  unfoldable pub merge_each :
      (Makefile → Run E Makefile) → List Makefile → Makefile → Run E Makefile
  merge_each nested [] final = pure final
  merge_each nested (incl ∷ includes) final = do
    m ← if has_includes incl then nested incl else pure incl
    merge_each nested includes (merge final m)

  -- `Makefile::parse_all`.
  unfoldable pub parse_all : ℕ → Makefile → Run E Makefile
  parse_all zero m cwd = none
  parse_all (suc fuel) m cwd =
      (do
        includes ← parse_included_makefiles m
        final ← merge_each (parse_all fuel) includes default
        pure (merge final m))
        cwd
