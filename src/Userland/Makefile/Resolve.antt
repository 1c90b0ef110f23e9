-- ===== src/Userland/Makefile/Resolve.antt =====
-- userland/src/lib.rs: `get`, `resolve_nested_variables` and `get_first_value_of_variable_by_name`.
-- The two first call each other without a bound; here each call of `get` spends fuel, and `none`
-- on the outside is a stack that has run out.
pub mod Depth
use Prim.Native.Nat.{ℕ, zero, suc}
use ips.Base.{String, Option, none, some, List, [], ◌∷◌}
use ips.Base.Outcome.{Outcome, ok, panic}
use ips.Base.Table.{lookup}
use ips.Base.Text.Replace.{replace, replace_first, remove_char}
use ips.Userland.Makefile.{Makefile, MakefileVariable, vars_to_string}

-- The chain of calls, for what may run out.
infixl 5 ◌>>=◌
abbrev pub ◌>>=◌ {ℓ κ} : {A : Type ℓ} {B : Type κ} → Option A → (A → Option B) → Option B
none >>= f = none
some a >>= f = f a

-- The name inside `$(..)`.
unfoldable pub nested_name : String → String
nested_name nested = remove_char b')' (replace "$(" "" nested)

-- The text of a value after one capture.
abbrev pub substitute : String → String → Option String → String
substitute nested text none = text
substitute nested text (some resolved) = replace_first nested resolved text

-- The loop over the captures of one value, over any way to look a name up.
unfoldable pub resolve_captures :
    (String → Option (Option String)) → List String → String → Option String
resolve_captures get [] text = some text
resolve_captures get (nested ∷ more) text = do
  resolved ← get (nested_name nested)
  resolve_captures get more (substitute nested text resolved)

-- `captures_iter`: the crate `regex` on the pattern `\$\(.+?\)`, all matches from left to right.
module _ (captures : String → List String) where
  -- The loop over the values.
  unfoldable pub resolve_values :
      (String → Option (Option String)) → List String → Option (List String)
  resolve_values get [] = some []
  resolve_values get (v ∷ vs) = do
    r ← resolve_captures get (captures v) v
    rs ← resolve_values get vs
    some (r ∷ rs)

  -- The body of `get`, on the variable that it finds.
  unfoldable pub get_variable :
      (String → Option (Option String)) → Option MakefileVariable → Option (Option String)
  get_variable get none = some none
  get_variable get (some var) = do
    vars ← resolve_values get var.values
    some (some (vars_to_string vars))

  -- `Makefile::get`.
  unfoldable pub get : ℕ → Makefile → String → Option (Option String)
  get zero m name = none
  get (suc fuel) m name = get_variable (get fuel m) (lookup name m.variables)

  -- `Makefile::resolve_nested_variables`.
  unfoldable pub resolve_nested_variables : ℕ → Makefile → MakefileVariable → Option (List String)
  resolve_nested_variables fuel m var = resolve_values (get fuel m) var.values

  -- `first().unwrap()`.
  abbrev pub first_or_panic : List String → Outcome ⊥ (Option String)
  first_or_panic [] = panic
  first_or_panic (v ∷ vs) = ok (some v)

  abbrev pub first_of_variable :
      ℕ → Makefile → Option MakefileVariable → Option (Outcome ⊥ (Option String))
  first_of_variable fuel m none = some (ok none)
  first_of_variable fuel m (some var) = do
    vars ← resolve_nested_variables fuel m var
    some (first_or_panic vars)

  -- `get_first_value_of_variable_by_name`.
  unfoldable pub get_first_value : ℕ → Makefile → String → Option (Outcome ⊥ (Option String))
  unfolding resolve_nested_variables
  get_first_value fuel m name = first_of_variable fuel m (lookup name m.variables)
