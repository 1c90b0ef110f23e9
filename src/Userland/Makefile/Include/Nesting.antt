-- ===== src/Userland/Makefile/Include/Nesting.antt =====
-- When `parse_all` ends, and what it makes of a makefile's own variables.
use Prim.Native.Nat.{ℕ, zero, suc, ◌<◌}
use ips.Base.{
  String, Bool, true, false, ◌≡◌, ◌≢◌, refl, Option, none, some, List, [], ◌∷◌, arith, All, All-map,
  ap, ◌∙◌, if◌then◌else◌,
}
use ips.Base.Outcome.{Outcome, ok, err, panic}
use ips.Base.Pest.{Pairs}
use ips.Base.Table.{lookup, IsMap}
use ips.Userland.Makefile.{
  Makefile, MakefileVariable, set, default, merge, get_includes, has_includes,
}
use ips.Userland.Makefile.Merge.{lookup-merge}
use ips.Userland.Makefile.Parse.{Rule}
use ips.Userland.Makefile.Include.{
  Run, ◌>>=◌, pure, System, parse_included_makefiles, merge_each, parse_all, parse_each,
  parse_single_file, parse_includes, directory, set_current_dir,
}
use ips.Userland.Makefile.Parse.{parse_string}

-- A computation that does not run out, from any directory.
abbrev Ends : {E A : Type 0} → Run E A → Type 0
Ends m = (cwd : String) → m cwd ≢ none

-- What a computation returns, if it returns, satisfies `P`.
abbrev Returns : {E A : Type 0} → Run E A → (A → Type 0) → Type 0
Returns {A} m P = (cwd cwd' : String) (a : A) → m cwd ≡ some (ok a, cwd') → P a

bind-Ends :
    {E A B : Type 0} (m : Run E A) (f : A → Run E B) (P : A → Type 0)
    → Ends m
    → Returns m P
    → ((a : A) → P a → Ends (f a))
    → Ends (m >>= f)
bind-Ends {E} {A} {B} m f P em rm ef cwd = go (m cwd) refl
  where
    go :
        (o : Option (Outcome E A × String))
        → m cwd ≡ o
        → ◌≢◌ {A = Option (Outcome E B × String)}
            (elim o [
              | none ↦ none
              | some (ok a, cwd') ↦ f a cwd'
              | some (err e, cwd') ↦ some (err e, cwd')
              | some (panic, cwd') ↦ some (panic, cwd')
            ])
            none
    go none q = absurd (em cwd q)
    go (some (ok a, cwd')) q = ef a (rm cwd cwd' a q) cwd'
    go (some (err e, cwd')) q = λ h. cc
    go (some (panic, cwd')) q = λ h. cc

then-Ends :
    {E A B : Type 0} (m : Run E A) (f : A → Run E B)
    → Ends m
    → ((a : A) → Ends (f a))
    → Ends (m >>= f)
then-Ends m f em ef = bind-Ends m f (λ a. Unit {0}) em (λ cwd cwd' a h. tt) (λ a u. ef a)

pure_inj :
    {E A : Type 0} (a b : A) {d d' : String}
    → ◌≡◌ {A = Option (Outcome E A × String)} (some (ok b, d)) (some (ok a, d'))
    → a ≡ b
pure_inj a b h = ground (arith, h)

bind-inv :
    {E A B : Type 0} (m : Run E A) (f : A → Run E B) (cwd cwd' : String) (b : B)
    → (m >>= f) cwd ≡ some (ok b, cwd')
    → (a : A) × (cwd'' : String) × (m cwd ≡ some (ok a, cwd'')) × (f a cwd'' ≡ some (ok b, cwd'))
bind-inv {E} {A} {B} m f cwd cwd' b h = go (m cwd) refl h
  where
    go :
        (o : Option (Outcome E A × String))
        → m cwd ≡ o
        → ◌≡◌ {A = Option (Outcome E B × String)}
            (elim o [
              | none ↦ none
              | some (ok a, cwd') ↦ f a cwd'
              | some (err e, cwd') ↦ some (err e, cwd')
              | some (panic, cwd') ↦ some (panic, cwd')
            ])
            (some (ok b, cwd'))
        → (a : A) × (cwd'' : String) × (m cwd ≡ some (ok a, cwd''))
          × (f a cwd'' ≡ some (ok b, cwd'))
    go none q h = cc
    go (some (ok a, cwd'')) q h = (a, cwd'', q, h)
    go (some (err e, cwd'')) q h = cc
    go (some (panic, cwd'')) q h = cc

module _ {E : Type 0} (system : System E) (parse : String → Outcome E (Pairs Rule)) where
  parse_each-Ends : (is : List String) → Ends (parse_each system parse is)
  unfolding parse_each
  parse_each-Ends [] = λ cwd h. cc
  parse_each-Ends (i ∷ is) =
      then-Ends (λ cwd. some (system.canonicalize cwd i, cwd)) _ (λ cwd h. cc)
        λ path.
          then-Ends (parse_single_file system parse path) _ (single path)
            λ m. then-Ends (parse_each system parse is) _ (parse_each-Ends is) (λ ms cwd h. cc)
    where
      single : (path : String) → Ends (parse_single_file system parse path)
      single path =
          then-Ends (λ cwd. some (system.read_to_string cwd path, cwd)) _ (λ cwd h. cc)
            λ content.
              then-Ends (λ cwd. some (parse_string parse content, cwd)) _ (λ cwd h. cc)
                (λ m cwd h. cc)

  included-Ends : (m : Makefile) → Ends (parse_included_makefiles system parse m)
  unfolding parse_included_makefiles
  included-Ends m = go (get_includes m)
    where
      go : (o : Option (List String)) → Ends (parse_includes system parse m o)
      go none = λ cwd h. cc
      go (some is) =
          then-Ends (set_current_dir system parse (directory system parse (system.parent m.path))) _
            (λ cwd h. cc) (λ e. parse_each-Ends is)

  -- The makefile includes others to the depth `n` at most.
  abbrev pub IsNested : ℕ → Makefile → Type 0
  IsNested zero m = has_includes m ≡ false
  IsNested (suc n) m = Returns (parse_included_makefiles system parse m) (All (IsNested n))

  merge_each-Ends :
      (nested : Makefile → Run E Makefile) (is : List Makefile) (final : Makefile)
      → All (λ i. Ends (nested i)) is
      → Ends (merge_each system parse nested is final)
  unfolding merge_each
  merge_each-Ends nested [] final h = λ cwd q. cc
  merge_each-Ends nested (i ∷ is) final (e, h) =
      then-Ends (if has_includes i then nested i else pure i) _ (choice (has_includes i))
        (λ m. merge_each-Ends nested is (merge final m) h)
    where
      choice : (b : Bool) → Ends (if b then nested i else pure i)
      choice true = e
      choice false = λ cwd q. cc

  none_included :
      (m : Makefile) → has_includes m ≡ false → parse_included_makefiles system parse m ≡ pure []
  unfolding parse_included_makefiles has_includes get_includes
  none_included m h = rw h

  -- For a makefile whose includes nest to the depth `n` at most, `parse_all` with any fuel above `n` does
  -- not run out, from any working directory.
  pub parse_all-Ends :
      (n fuel : ℕ) (m : Makefile) → IsNested n m → n < fuel → Ends (parse_all system parse fuel m)
  unfolding parse_all merge_each
  parse_all-Ends n zero m h l = elim l [ ]
  parse_all-Ends zero (suc fuel) m h l = rw (none_included m h) (λ cwd q. cc)
  parse_all-Ends (suc n) (suc fuel) m h l =
      bind-Ends (parse_included_makefiles system parse m) _ (All (IsNested n)) (included-Ends m) h
        λ is a.
          then-Ends (merge_each system parse (parse_all system parse fuel) is default) _
            (merge_each-Ends (parse_all system parse fuel) is default (
              All-map (IsNested n) (λ i. Ends (parse_all system parse fuel i)) is
                (λ i k. parse_all-Ends n fuel i k (omega arith)) a))
            (λ final cwd q. cc)

  -- The result is some makefile made of the included ones, with the makefile itself merged in last.
  parse_all-merge :
      (fuel : ℕ) (m r : Makefile) (cwd cwd' : String)
      → parse_all system parse fuel m cwd ≡ some (ok r, cwd')
      → (base : Makefile) × (r ≡ merge base m)
  unfolding parse_all
  parse_all-merge zero m r cwd cwd' h = cc
  parse_all-merge (suc fuel) m r cwd cwd' h =
      let (is, c, q, h') = bind-inv (parse_included_makefiles system parse m) _ cwd cwd' r h in
      let (final, d, q', h'') =
        bind-inv (merge_each system parse (parse_all system parse fuel) is default) _ c cwd' r h' in
      (final, pure_inj r (merge final m) h'')

  -- Where `parse_all` returns a makefile, each variable that the makefile itself sets is the same in it,
  -- whatever was included, provided the makefile's own table holds each key once.
  pub parse_all-own :
      (fuel : ℕ) (m r : Makefile) (cwd cwd' k : String) (v : MakefileVariable)
      → IsMap m.variables
      → lookup k m.variables ≡ some v
      → v.mode ≡ set
      → parse_all system parse fuel m cwd ≡ some (ok r, cwd')
      → lookup k r.variables ≡ some v
  parse_all-own fuel m r cwd cwd' k v im e s h =
      let (base, q) = parse_all-merge fuel m r cwd cwd' h in
      ap (λ (x : Makefile). lookup k x.variables) q
      ∙ lookup-merge base m k im
      ∙ ground (arith, e, s)
