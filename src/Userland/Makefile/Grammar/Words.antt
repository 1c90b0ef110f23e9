-- ===== src/Userland/Makefile/Grammar/Words.antt =====
-- Blanks, names and values as the grammar of makefiles reads them.
use Prim.Native.Char.{Char, code}
use ips.Base.{
  ℕ, String, Bool, true, false, ◌&&◌, ◌||◌, ◌≡◌, refl, sym, subst, ◌∙◌, inl, inr, Bool-cases, List,
  [], ◌∷◌, nat_eq, leb, arith,
}
use ips.Base.Text.{◌<>◌}
use ips.Base.Text.Laws.{<>_nil}
use ips.Base.Text.Replace.{strip_prefix}
use ips.Base.Pest.{pair, nil, cons}
use ips.Base.Pest.Grammar.{never, lit, char_if, seq, alt, not_ahead, newline, skip}
use ips.Base.Pest.Grammar.Laws.{
  Reads, Fails, Repeats, Repeats-stop, Repeats-step, many-Reads, seq-Fails, char_if-Reads,
  atomic-Reads,
}
use ips.Base.Pest.Grammar.Skipping.{skip-Reads}
use ips.Base.Pest.Grammar.Characters.{all_chars, Repeats-chars}
use ips.Userland.Makefile.Parse.{Rule}
use ips.Userland.Makefile.Grammar.{
  whitespace, variable_value_character, variable_value, variable_name, is_name_char,
}
use ips.Userland.Makefile.Grammar.Written.{
  Blank, space, tab, blanks_text, not_newline, solid, valid_name,
}

whitespace-Fails : (s : String) → solid s ≡ true → Fails whitespace s
unfolding whitespace alt lit strip_prefix
whitespace-Fails String.[] h = record { fails = refl }
whitespace-Fails (String.◌∷◌ d s) h = record { fails = ground arith }

one_space : (r : String) → Reads whitespace " " nil r
unfolding whitespace alt lit strip_prefix
one_space r = record { reads = refl }

one_tab : (r : String) → Reads whitespace "\t" nil r
unfolding whitespace alt lit strip_prefix
one_tab r = record { reads = refl }

whitespace-Repeats :
    (bs : List Blank) (s : String) → solid s ≡ true → Repeats whitespace (blanks_text bs) nil s
whitespace-Repeats [] s h = Repeats-stop (whitespace-Fails s h)
whitespace-Repeats (space ∷ bs) s h = Repeats-step (one_space _) (whitespace-Repeats bs s h)
whitespace-Repeats (tab ∷ bs) s h = Repeats-step (one_tab _) (whitespace-Repeats bs s h)

-- Blanks before a solid text are passed over.
pub skip-blanks :
    (bs : List Blank) (s : String)
    → solid s ≡ true
    → Reads (skip whitespace never) (blanks_text bs) nil s
skip-blanks bs s h = rw (<>_nil (blanks_text bs)) at (
    skip-Reads whitespace never {c = ""} (many-Reads (whitespace-Repeats bs s h))
      (many-Reads (Repeats-stop (seq-Fails _ (record { fails = refl })))))

pub one_newline : (s : String) → Reads {R = Rule} newline "\n" nil s
unfolding newline alt lit strip_prefix
one_newline s = record { reads = refl }

one_value_character :
    (d : Char) (s : String)
    → not_newline (code d) ≡ true
    → Reads variable_value_character (String.◌∷◌ d "") nil s
unfolding variable_value_character newline not_ahead char_if seq alt lit strip_prefix
one_value_character d s h = record { reads = ground arith }

-- A value ends at a newline and at the end of the text.
abbrev pub at_newline : String → Bool
at_newline String.[] = true
at_newline (String.◌∷◌ d s) = nat_eq (code d) 10

value_end : (s : String) → at_newline s ≡ true → Fails variable_value_character s
unfolding variable_value_character newline not_ahead char_if seq alt lit strip_prefix
value_end String.[] h = record { fails = refl }
value_end (String.◌∷◌ d s) h = record { fails = ground arith }

pub value-Reads :
    (v s : String)
    → all_chars not_newline v ≡ true
    → at_newline s ≡ true
    → Reads variable_value v (cons (pair Rule.variable_value v nil) nil) s
unfolding variable_value
value-Reads v s h e =
    atomic-Reads Rule.variable_value
      (many-Reads (Repeats-chars not_newline one_value_character v h (value_end s e)))

pub value-solid : (v s : String) → solid v ≡ true → at_newline s ≡ true → solid (v <> s) ≡ true
value-solid String.[] String.[] h e = refl
value-solid String.[] (String.◌∷◌ d s) h e = ground arith
value-solid (String.◌∷◌ d v) s h e = h

pub nat_eq-eq : (a b : ℕ) → nat_eq a b ≡ true → a ≡ b
nat_eq-eq a b h = ground arith

true-false : ¬ (◌≡◌ {A = Bool} true false)
true-false h = cc

-- What `UPPERCASE` is on the characters of ASCII.
abbrev pub AsciiUppercase : (ℕ → Bool) → Type 0
AsciiUppercase uppercase = (c : ℕ) → leb c 127 ≡ true → uppercase c ≡ (leb 65 c && leb c 90)

module _ (uppercase : ℕ → Bool) (ascii : AsciiUppercase uppercase) where
  -- A character of a name is none of the other characters that the rules tell apart.
  pub not_name :
      (k : ℕ)
      → leb k 127 ≡ true
      → (leb 65 k && leb k 90 || leb 48 k && leb k 57 || nat_eq k 95 || nat_eq k 46) ≡ false
      → is_name_char uppercase k ≡ false
  not_name k h f = rw (ascii k h) f

  pub name-not :
      (k : ℕ) (c : ℕ)
      → leb k 127 ≡ true
      → (leb 65 k && leb k 90 || leb 48 k && leb k 57 || nat_eq k 95 || nat_eq k 46) ≡ false
      → is_name_char uppercase c ≡ true
      → nat_eq c k ≡ false
  name-not k c h f e = elim (Bool-cases (nat_eq c k)) [
    | inl q ↦
        let r : is_name_char uppercase k ≡ true =
          subst (λ x. is_name_char uppercase x ≡ true) (nat_eq-eq c k q) e in
        absurd (true-false (sym r ∙ not_name k h f))
    | inr q ↦ q
  ]

  pub name-Reads :
      (n s : String)
      → all_chars (is_name_char uppercase) n ≡ true
      → Fails {R = Rule} (char_if (is_name_char uppercase)) s
      → Reads (variable_name uppercase) n (cons (pair Rule.variable_name n nil) nil) s
  unfolding variable_name
  name-Reads n s h e = atomic-Reads Rule.variable_name (
      many-Reads (
        Repeats-chars (is_name_char uppercase) (λ d r. char_if-Reads (is_name_char uppercase) d r) n
          h e))

  pub name-solid : (n s : String) → valid_name uppercase n ≡ true → solid (n <> s) ≡ true
  name-solid String.[] s h = cc
  name-solid (String.◌∷◌ d n) s h =
      ground (arith, name-not 32 (code d) refl refl, name-not 9 (code d) refl refl)
