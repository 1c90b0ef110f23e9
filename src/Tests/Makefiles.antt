-- ===== src/Tests/Makefiles.antt =====
-- Makefiles on concrete inputs.
use Prim.Native.Nat.{ℕ, ◌<◌}
use mathlib.Core.List.{Memᴰ}
use ips.Base.{
  arith, eq_iff, String, ◌≡◌, ◌≢◌, refl, some, none, Option, List, [], ◌∷◌, ◌==◌, if◌then◌else◌,
  All, Bool-cases, inl, inr, subst, sym, ◌∙◌,
}
use ips.Base.Outcome.{Outcome, ok, err}
use ips.Base.Pest.{Pairs}
use ips.Base.Table.{lookup, insert, IsMap}
use ips.Base.Text.Replace.{replace, remove_char}
use ips.Userland.Makefile.{
  add, set, VariableMode, MakefileVariable, Makefile, default, merge, get_includes, has_includes,
}
use ips.Userland.Makefile.Merge.{override, SetThenAdd, lookup-merge, merge_regroup}
use ips.Userland.Makefile.Resolve.{nested_name, get}
use ips.Userland.Makefile.Resolve.Depth.{IsRanked, IsCyclic, get_total, get_cyclic}
use ips.Userland.Makefile.Parse.{Rule, parse_string, parse_makefile, parse_variable}
use ips.Userland.Makefile.Parse.Statements.{Statement, assign, include, file_pairs}
use ips.Userland.Makefile.Include.{
  System, parse_all, parse_included_makefiles, parse_each, parse_single_file, merge_each,
  set_current_dir,
}
use ips.Userland.Makefile.Include.Nesting.{IsNested, parse_all-Ends, parse_all-own}

abbrev holds : VariableMode → String → MakefileVariable
holds mode value = record { key = ""; values = value ∷ []; mode = mode }

abbrev with_a : VariableMode → String → Makefile
with_a mode value = record default { variables = ("A", holds mode value) ∷ [] }

with_a-IsMap : (mode : VariableMode) (value : String) → IsMap (with_a mode value).variables
unfolding lookup
with_a-IsMap mode value = (refl, tt)

lookup-with_a :
    (mode : VariableMode) (value : String)
    → lookup "A" (with_a mode value).variables ≡ some (holds mode value)
unfolding lookup
lookup-with_a mode value = refl

lookup-merge_example :
    lookup "A" (merge (with_a set "1") (with_a add "2")).variables
    ≡ override (lookup "A" (with_a set "1").variables) (lookup "A" (with_a add "2").variables)
lookup-merge_example = lookup-merge (with_a set "1") (with_a add "2") "A" (with_a-IsMap add "2")

adds_twice :
    ¬ SetThenAdd (lookup "A" (with_a add "2").variables) (lookup "A" (with_a add "3").variables)
unfolding lookup
adds_twice (e, q) = cc

merge_regroup_example :
    lookup "A" (merge (merge (with_a set "1") (with_a add "2")) (with_a add "3")).variables
    ≡ lookup "A" (merge (with_a set "1") (merge (with_a add "2") (with_a add "3"))).variables
merge_regroup_example =
    merge_regroup (with_a set "1") (with_a add "2") (with_a add "3") "A" (with_a-IsMap add "2")
      (with_a-IsMap add "3") adds_twice

-- Captures for the texts below, which hold `$(A)` or nothing.
abbrev small_captures : String → List String
small_captures v = if v == "$(A)" then "$(A)" ∷ [] else []

-- B = $(A), and A = 1.
abbrev b_of_a : Makefile
b_of_a = record default { variables = ("B", holds set "$(A)") ∷ ("A", holds set "1") ∷ [] }

abbrev b_last : String → ℕ
b_last k = if k == "B" then 1 else 0

nested_name-a : nested_name "$(A)" ≡ "A"
unfolding nested_name replace remove_char
nested_name-a = refl

-- What the rank of the name `k` asks of the variable `var`.
abbrev RankedAt : String → MakefileVariable → Type 0
RankedAt k var =
    All (λ v. All (λ c. b_last (nested_name c) < b_last k) (small_captures v)) var.values

some_inj : (a b : MakefileVariable) → ◌≡◌ {A = Option MakefileVariable} (some a) (some b) → a ≡ b
some_inj a b h = cc

b-RankedAt : RankedAt "B" (holds set "$(A)")
b-RankedAt = ((rw nested_name-a (omega arith), tt), tt)

b_of_a-IsRanked : IsRanked small_captures b_of_a b_last
unfolding lookup
b_of_a-IsRanked k var h = elim (Bool-cases ("B" == k)) [
  | inl e ↦
      subst (λ j. RankedAt j var) ((eq_iff "B" k).0 e)
        (subst (RankedAt "B") (some_inj (holds set "$(A)") var (ground arith)) b-RankedAt)
  | inr e ↦ elim (Bool-cases ("A" == k)) [
    | inl q ↦ subst (RankedAt k) (some_inj (holds set "1") var (ground arith)) (tt, tt)
    | inr q ↦ absurd (ground arith)
  ]
]

get_total_example : (o : Option String) × (get small_captures 2 b_of_a "B" ≡ some o)
get_total_example = get_total small_captures b_of_a b_last b_of_a-IsRanked 2 "B" (omega arith)

-- A = $(A).
abbrev a_of_a : Makefile
a_of_a = with_a set "$(A)"

a_of_a-IsCyclic : IsCyclic small_captures a_of_a (λ k. k ≡ "A")
a_of_a-IsCyclic k h = (
  holds set "$(A)",
  "$(A)",
  "$(A)",
  rw h (lookup-with_a set "$(A)"),
  Memᴰ.head refl,
  Memᴰ.head refl,
  nested_name-a,
)

get_cyclic_example : get small_captures 1000 a_of_a "A" ≡ none
get_cyclic_example = get_cyclic small_captures a_of_a (λ k. k ≡ "A") a_of_a-IsCyclic 1000 "A" refl

abbrev statements : List Statement
statements =
    assign "A=1\n" "A" (some "1")
    ∷ include "include x.mk\n" "x.mk"
    ∷ assign "A+=2\n" "A" (some "2")
    ∷ []

abbrev main_text : String
main_text = "A=1\ninclude x.mk\nA+=2\n"

-- A parser for two texts.
abbrev small_parse : String → Outcome String (Pairs Rule)
small_parse content =
    if content == main_text
    then ok (file_pairs content statements)
    else ok (file_pairs content (assign "B=3\n" "B" (some "3") ∷ []))

-- One directory, with one file beside the main one.
abbrev small_system : System String
small_system = record {
  read_to_string = λ cwd path. if path == "/x.mk" then ok "B=3\n" else err path;
  parent = λ path. some "/";
  enter = λ cwd dir. ok dir;
  canonicalize = λ cwd name. ok "/x.mk";
}

abbrev main_makefile : Makefile
main_makefile = record {
  path = "/Makefile";
  variables = ("A", holds set "2") ∷ [];
  includes = "x.mk" ∷ [];
}

abbrev x_makefile : Makefile
x_makefile = record { path = "/x.mk"; variables = ("B", holds set "3") ∷ []; includes = [] }

included-x :
    (cwd : String)
    → parse_included_makefiles small_system small_parse main_makefile cwd
      ≡ some (ok (x_makefile ∷ []), "/")
unfolding parse_included_makefiles get_includes set_current_dir parse_each parse_single_file
    parse_string parse_makefile parse_variable insert
included-x cwd = refl

main_makefile-IsNested : IsNested small_system small_parse 1 main_makefile
unfolding has_includes
main_makefile-IsNested cwd cwd' is h =
    subst (All (IsNested small_system small_parse 0))
      (list_of (x_makefile ∷ []) is (sym (included-x cwd) ∙ h)) (refl, tt)
  where
    list_of :
        (a b : List Makefile) {d d' : String}
        → ◌≡◌ {A = Option (Outcome String (List Makefile) × String)}
            (some (ok a, d))
            (some (ok b, d'))
        → a ≡ b
    list_of a b h = ground (arith, h)

parse_all-Ends_example : parse_all small_system small_parse 2 main_makefile "/" ≢ none
parse_all-Ends_example =
    parse_all-Ends small_system small_parse 1 2 main_makefile main_makefile-IsNested (omega arith)
      "/"

abbrev whole : Makefile
whole = record default { variables = ("B", holds set "3") ∷ ("A", holds set "2") ∷ [] }

parse_all-whole : parse_all small_system small_parse 2 main_makefile "/" ≡ some (ok whole, "/")
unfolding parse_all merge_each parse_included_makefiles get_includes set_current_dir parse_each
    parse_single_file parse_string parse_makefile parse_variable insert has_includes merge
parse_all-whole = refl

main_makefile-IsMap : IsMap main_makefile.variables
unfolding lookup
main_makefile-IsMap = (refl, tt)

parse_all-own_example : lookup "A" whole.variables ≡ some (holds set "2")
parse_all-own_example =
    parse_all-own small_system small_parse 2 main_makefile whole "/" "/" "A" (holds set "2")
      main_makefile-IsMap (lookup-with_a set "2") refl parse_all-whole
