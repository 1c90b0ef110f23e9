-- ===== src/Base/Paths.antt =====
-- What the program uses of `std::path`, for paths that are texts, as on Unix.
pub mod Laws
use Prim.Native.String.{String, [], ◌∷◌}
use Prim.Native.Char.{code}
use mathlib.Core.Bool.{Bool, true, false, ◌||◌, ◌&&◌}
use mathlib.Core.Option.{Option, none, some}
use mathlib.Core.List.{List}
use text.Mathlib.Text.{◌==◌}
use ips.Base.Tests.{nat_eq, if◌then◌else◌}
use ips.Base.Text.{◌<>◌, is_empty_str, starts_with, split}

-- Whether a path ends in a slash, or is empty.
unfoldable pub needs_no_slash : String → Bool
needs_no_slash [] = true
needs_no_slash (d ∷ []) = nat_eq (code d) b'/'
needs_no_slash (d ∷ e ∷ s) = needs_no_slash (e ∷ s)

-- `join`: an absolute path stands for itself.
unfoldable pub join_path : String → String → String
unfolding starts_with needs_no_slash
join_path base name =
    if starts_with name "/"
    then name
    else if needs_no_slash base
    then base <> name
    else base <> ("/" <> name)

-- The last of the components, of which empty ones and single dots are none; `o` if there is no other.
unfoldable pub last_named : List String → Option String → Option String
last_named List.[] o = o
last_named (List.◌∷◌ p ps) o = last_named ps (if is_empty_str p || p == "." then o else some p)

abbrev pub not_parent : Option String → Option String
not_parent none = none
not_parent (some p) = if p == ".." then none else some p

-- `file_name`.
unfoldable pub file_name : String → Option String
unfolding last_named split
file_name path = not_parent (last_named (split b'/' path) none)

-- The parts before and behind the last dot.
unfoldable pub rsplit_dot : String → Option (String × String)
rsplit_dot [] = none
rsplit_dot (d ∷ s) = elim (rsplit_dot s) [
  | some (a, b) ↦ some (d ∷ a, b)
  | none ↦ if nat_eq (code d) b'.' then some ([], s) else none
]

-- A name that only starts with a dot has no extension.
abbrev pub behind_dot : Option (String × String) → Option String
behind_dot none = none
behind_dot (some (a, b)) = if is_empty_str a then none else some b

abbrev pub extension_of_name : Option String → Option String
extension_of_name none = none
extension_of_name (some n) = behind_dot (rsplit_dot n)

-- `extension`.
unfoldable pub extension : String → Option String
unfolding file_name rsplit_dot
extension path = extension_of_name (file_name path)
