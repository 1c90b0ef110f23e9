-- ===== src/Base/Text/Replace/Lines.antt =====
-- Replacing newlines puts a text's lines together anew.
use Prim.Native.Nat.{ℕ}
use Prim.Native.Char.{Char, code}
use Prim.Native.String.{String, [], ◌∷◌}
use mathlib.Core.Path.{◌≡◌, refl, sym, ap, ◌∙◌}
use mathlib.Core.Logic.{◌≢◌, inl, inr}
use mathlib.Core.Bool.{true, false}
use mathlib.Core.List.{List}
use ips.Base.Tests.{Bool-cases, nat_eq}
use ips.Base.Text.{◌<>◌, split, grow, join, starts_with}
use ips.Base.Text.Replace.{char_count, replace_skip, replace}

grow-NotEmpty : (d : Char) (parts : List String) → grow d parts ≢ List.[]
grow-NotEmpty d List.[] h = cc
grow-NotEmpty d (List.◌∷◌ p ps) h = cc

split-NotEmpty : (c : ℕ) (s : String) → split c s ≢ List.[]
unfolding split
split-NotEmpty c [] h = cc
split-NotEmpty c (d ∷ s) h = elim (Bool-cases (nat_eq (code d) c)) [
  | inl e ↦ let q = rw e at h in cc
  | inr e ↦ grow-NotEmpty d (split c s) (rw e at h)
]

join-grow :
    (sep : String) (d : Char) (parts : List String)
    → parts ≢ List.[]
    → join sep (grow d parts) ≡ d ∷ join sep parts
unfolding join
join-grow sep d List.[] h = absurd (h refl)
join-grow sep d (List.◌∷◌ p List.[]) h = refl
join-grow sep d (List.◌∷◌ p (List.◌∷◌ q ps)) h = refl

join-cons :
    (sep : String) (parts : List String)
    → parts ≢ List.[]
    → join sep (List.◌∷◌ "" parts) ≡ sep <> join sep parts
unfolding join
join-cons sep List.[] h = absurd (h refl)
join-cons sep (List.◌∷◌ q ps) h = refl

starts_with-newline : (d : Char) (s : String) → starts_with (d ∷ s) "\n" ≡ nat_eq (code d) 10
unfolding starts_with
starts_with-newline d s = elim (Bool-cases (nat_eq (code d) 10)) [
  | inl e ↦ rw e refl
  | inr e ↦ rw e refl
]

replaced :
    (to : String) (d : Char) (s : String)
    → starts_with (d ∷ s) "\n" ≡ true
    → replace_skip "\n" to 0 (d ∷ s) ≡ to <> replace_skip "\n" to 0 s
unfolding replace_skip char_count
replaced to d s h = rw (replace_skip, h) refl

kept :
    (to : String) (d : Char) (s : String)
    → starts_with (d ∷ s) "\n" ≡ false
    → replace_skip "\n" to 0 (d ∷ s) ≡ d ∷ replace_skip "\n" to 0 s
unfolding replace_skip
kept to d s h = rw (replace_skip, h) refl

replace_skip-newline : (to s : String) → replace_skip "\n" to 0 s ≡ join to (split 10 s)
unfolding replace_skip split join
replace_skip-newline to [] = refl
replace_skip-newline to (d ∷ s) = elim (Bool-cases (nat_eq (code d) 10)) [
  | inl e ↦
      replaced to d s (starts_with-newline d s ∙ e)
      ∙ ap (λ t. to <> t) (replace_skip-newline to s)
      ∙ rw e (sym (join-cons to (split 10 s) (split-NotEmpty 10 s)))
  | inr e ↦
      kept to d s (starts_with-newline d s ∙ e)
      ∙ ap (λ t. d ∷ t) (replace_skip-newline to s)
      ∙ rw e (sym (join-grow to d (split 10 s) (split-NotEmpty 10 s)))
]

-- A text with its newlines replaced is its lines, joined by what replaces them.
pub replace-newline : (to s : String) → replace "\n" to s ≡ join to (split 10 s)
unfolding replace
replace-newline to s = replace_skip-newline to s
