-- ===== src/Userland/Makefile/Resolve/Depth.antt =====
-- When resolving a variable ends, and when it never does.
use Prim.Native.Nat.{ℕ, zero, suc, ◌<◌}
use mathlib.Core.List.{Memᴰ}
use ips.Base.{
  String, ◌≡◌, refl, Option, none, some, List, [], ◌∷◌, arith, All, All-map, Option-cases, inl, inr,
}
use ips.Base.Table.{lookup}
use ips.Userland.Makefile.{Makefile, MakefileVariable, vars_to_string}
use ips.Userland.Makefile.Resolve.{
  nested_name, substitute, resolve_captures, resolve_values, get_variable, get,
}

-- Looking a name up gives an answer.
abbrev Answers : (String → Option (Option String)) → String → Type 0
Answers g n = (o : Option String) × (g n ≡ some o)

resolve_captures-total :
    (g : String → Option (Option String)) (cs : List String) (text : String)
    → All (λ c. Answers g (nested_name c)) cs
    → (r : String) × (resolve_captures g cs text ≡ some r)
unfolding resolve_captures
resolve_captures-total g [] text h = (text, refl)
resolve_captures-total g (c ∷ cs) text ((o, e), h) =
    let (r, q) = resolve_captures-total g cs (substitute c text o) h in (r, rw e q)

resolve_captures-none :
    (g : String → Option (Option String)) (cs : List String) (text c : String)
    → Memᴰ c cs
    → g (nested_name c) ≡ none
    → resolve_captures g cs text ≡ none
unfolding resolve_captures
resolve_captures-none g [] text c m e = elim m [ ]
resolve_captures-none g (d ∷ cs) text c (Memᴰ.head q) e = rw (← q, e)
resolve_captures-none g (d ∷ cs) text c (Memᴰ.tail m) e = elim (Option-cases (g (nested_name d))) [
  | inl q ↦ rw q
  | inr t ↦ let (o, q) = t in rw q (resolve_captures-none g cs (substitute d text o) c m e)
]

module _ (captures : String → List String) where
  resolve_values-total :
      (g : String → Option (Option String)) (vs : List String)
      → All (λ v. All (λ c. Answers g (nested_name c)) (captures v)) vs
      → (rs : List String) × (resolve_values captures g vs ≡ some rs)
  unfolding resolve_values
  resolve_values-total g [] h = ([], refl)
  resolve_values-total g (v ∷ vs) (a, h) =
      let (r, e) = resolve_captures-total g (captures v) v a in
      let (rs, q) = resolve_values-total g vs h in (r ∷ rs, rw (e, q))

  resolve_values-none :
      (g : String → Option (Option String)) (vs : List String) (v c : String)
      → Memᴰ v vs
      → Memᴰ c (captures v)
      → g (nested_name c) ≡ none
      → resolve_values captures g vs ≡ none
  unfolding resolve_values
  resolve_values-none g [] v c m n e = elim m [ ]
  resolve_values-none g (w ∷ vs) v c (Memᴰ.head q) n e =
      rw (← q) (rw (resolve_captures-none g (captures v) v c n e))
  resolve_values-none g (w ∷ vs) v c (Memᴰ.tail m) n e =
      elim (Option-cases (resolve_captures g (captures w) w)) [
        | inl q ↦ rw q
        | inr t ↦ let (r, q) = t in rw (q, resolve_values-none g vs v c m n e)
      ]

  -- Every variable is made only of variables of a smaller rank.
  abbrev pub IsRanked : Makefile → (String → ℕ) → Type 0
  IsRanked m rank =
      (k : String) (var : MakefileVariable)
      → lookup k m.variables ≡ some var
      → All (λ v. All (λ c. rank (nested_name c) < rank k) (captures v)) var.values

  -- Among the names in `Cyclic`, each is made of another of them.
  abbrev pub IsCyclic : Makefile → (String → Type 0) → Type 0
  IsCyclic m Cyclic =
      (k : String)
      → Cyclic k
      → (var : MakefileVariable) × (v : String) × (c : String) × (lookup k m.variables ≡ some var)
        × Memᴰ v var.values
        × Memᴰ c (captures v)
        × Cyclic (nested_name c)

  module _ (m : Makefile) (rank : String → ℕ) (ranked : IsRanked m rank) where
    below :
        (fuel : ℕ) (k : String) (var : MakefileVariable)
        → ((j : String) → rank j < fuel → Answers (get captures fuel m) j)
        → rank k < suc fuel
        → lookup k m.variables ≡ some var
        → All
            (λ v. All (λ c. Answers (get captures fuel m) (nested_name c)) (captures v))
            var.values
    below fuel k var ih h e =
        All-map (λ v. All (λ c. rank (nested_name c) < rank k) (captures v))
          (λ v. All (λ c. Answers (get captures fuel m) (nested_name c)) (captures v)) var.values
          (λ v.
            All-map (λ c. rank (nested_name c) < rank k)
              (λ c. Answers (get captures fuel m) (nested_name c)) (captures v)
              (λ c r. ih (nested_name c) (omega arith)))
          (ranked k var e)

    -- Where the variables can be ranked, fuel above the rank of a name suffices for an answer.
    pub get_total :
        (fuel : ℕ) (k : String)
        → rank k < fuel
        → (o : Option String) × (get captures fuel m k ≡ some o)
    unfolding get get_variable
    get_total zero k h = elim h [ ]
    get_total (suc fuel) k h = elim (Option-cases (lookup k m.variables)) [
      | inl e ↦ (none, rw e)
      | inr t ↦
          let (var, e) = t in
          let (rs, q) =
            resolve_values-total (get captures fuel m) var.values
              (below fuel k var (get_total fuel) h e) in
          (some (vars_to_string rs), rw e (rw q))
    ]

  -- A name on a cycle, such as a variable that names itself, gets no answer from any fuel: the calls
  -- of the source never end.
  pub get_cyclic :
      (m : Makefile) (Cyclic : String → Type 0)
      → IsCyclic m Cyclic
      → (fuel : ℕ) (k : String) → Cyclic k
      → get captures fuel m k ≡ none
  unfolding get get_variable
  get_cyclic m Cyclic cyc zero k h = refl
  get_cyclic m Cyclic cyc (suc fuel) k h =
      let (var, v, c, e, mv, mc, h') = cyc k h in
      rw e (
        rw (
          resolve_values-none (get captures fuel m) var.values v c mv mc
            (get_cyclic m Cyclic cyc fuel (nested_name c) h')))
