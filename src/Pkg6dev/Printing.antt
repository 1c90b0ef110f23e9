-- ===== src/Pkg6dev/Printing.antt =====
-- pkg6dev/src/main.rs: what its commands print and write while they run.
pub mod Lines
use ips.Base.{String, List, [], ◌∷◌, ◌++◌}
use ips.Base.Outcome.{Outcome, ok, err, panic}

-- The lines printed so far, and the lines of each file that was written, attempts that failed included.
pub record Output : Type 0 where
  pub printed : List String
  pub written : List (String × List String)

abbrev pub Printing : Type 0 → Type 0 → Type 0
Printing E A = Output → Outcome E A × Output

abbrev pub resume :
    {E A B : Type 0} → (A → Printing E B) → Outcome E A × Output → Outcome E B × Output
resume f (ok a, out) = f a out
resume f (err e, out) = (err e, out)
resume f (panic, out) = (panic, out)

infixl 5 ◌>>=◌
abbrev pub ◌>>=◌ : {E A B : Type 0} → Printing E A → (A → Printing E B) → Printing E B
◌>>=◌ m f out = resume f (m out)

infixl 5 ◌>>◌
abbrev pub ◌>>◌ : {E A B : Type 0} → Printing E A → Printing E B → Printing E B
m >> n = m >>= λ _. n

abbrev pub pure : {E A : Type 0} → A → Printing E A
pure a out = (ok a, out)

abbrev pub lift : {E A : Type 0} → Outcome E A → Printing E A
lift o out = (o, out)

abbrev pub add_line : String → Output → Output
add_line line out = record out { printed = out.printed ++ line ∷ [] }

-- `println!`.
abbrev pub println : {E : Type 0} → String → Printing E (Unit {0})
println line out = (ok tt, add_line line out)

-- A loop that prints a line for each element.
unfoldable pub print_each : {E A : Type 0} → (A → String) → List A → Printing E (Unit {0})
print_each line_of [] = pure tt
print_each line_of (a ∷ xs) = do println (line_of a); print_each line_of xs
