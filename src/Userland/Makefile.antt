-- ===== src/Userland/Makefile.antt =====
-- userland/src/lib.rs: the makefile, its variables, and merging one makefile into another.
pub mod Merge
pub mod Resolve
pub mod Parse
pub mod Grammar
pub mod Include
use ips.Base.{
  String, Bool, Option, none, some, List, [], ◌∷◌, ◌++◌, foldl, is_empty, not, if◌then◌else◌,
}
use ips.Base.Table.{Table, lookup, insert}
use ips.Base.Text.{join}

pub data VariableMode : Type 0 where
  add set : VariableMode

pub record MakefileVariable : Type 0 where
  pub key : String
  pub values : List String
  pub mode : VariableMode

-- `MakefileVariable::default()`.
abbrev pub default_variable : MakefileVariable
default_variable = record { key = ""; values = []; mode = set }

pub record Makefile : Type 0 where
  pub path : String
  pub variables : Table MakefileVariable
  pub includes : List String

-- `Makefile::default()`.
abbrev pub default : Makefile
default = record { path = ""; variables = []; includes = [] }

-- What the arm `VariableMode::Add` inserts.
abbrev pub appended : Option MakefileVariable → MakefileVariable → MakefileVariable
appended none var = var
appended (some v) var = record v { values = v.values ++ var.values; mode = var.mode }

-- The body of the loop of `merge`.
unfoldable pub merge_variable :
    Table MakefileVariable → String × MakefileVariable → Table MakefileVariable
merge_variable t (key, var) = elim var.mode [
  | add ↦ insert key (appended (lookup key t) var) t
  | set ↦ insert key var t
]

-- `Makefile::merge`, which returns no error.
unfoldable pub merge : Makefile → Makefile → Makefile
unfolding merge_variable
merge self other = record self { variables = foldl merge_variable self.variables other.variables }

-- `Makefile::get_includes`.
unfoldable pub get_includes : Makefile → Option (List String)
get_includes m = if not (is_empty m.includes) then some m.includes else none

-- `Makefile::has_includes`.
unfoldable pub has_includes : Makefile → Bool
has_includes m = not (is_empty m.includes)

-- `vars_to_string`.
unfoldable pub vars_to_string : List String → String
vars_to_string [] = ""
vars_to_string (v ∷ []) = v
vars_to_string (v ∷ w ∷ vs) = join "\n" (v ∷ w ∷ vs)
