-- ===== src/Actions/Manifest/Grammar/Payloads.antt =====
-- A payload is not taken for a property: behind the part that could be a key there is no `=`.
use Prim.Native.Char.{Char, code}
use ips.Base.{String, true, ◌≡◌, refl, subst, ap, inl, inr, [], arith, Bool-cases}
use ips.Base.Text.{◌<>◌}
use ips.Base.Text.Replace.{strip_prefix}
use ips.Base.Pest.{nil}
use ips.Base.Pest.Grammar.{lit, char_if, skip}
use ips.Base.Pest.Grammar.Laws.{
  Reads, Fails, Repeats, Repeats-stop, Repeats-step, many-Reads, seq-Reads, seq-Fails,
  char_if-Reads, char_if-Fails, atomic-Reads, atomic-Fails, rule-Fails,
}
use ips.Base.Pest.Grammar.Skipping.{then_-Fails, then_-Fails_behind}
use ips.Base.Pest.Grammar.Characters.{all_chars, all_chars-head, all_chars-tail}
use ips.Actions.Manifest.{Rule}
use ips.Actions.Manifest.Grammar.{whitespace, comment, property_name, property, is_name_char}
use ips.Actions.Manifest.Grammar.Written.{Value, quoted, bare, value_text}
use ips.Actions.Manifest.Grammar.Valid.{valid_comments, is_payload_char, valid_value}
use ips.Actions.Manifest.Grammar.Gaps.{skip-gap}
use ips.Actions.Manifest.Grammar.Words.{NoKey}

-- What is passed over here is not followed by `=`.
pub record NoEquals (s : String) : Type 0 where
  pub gap : String
  pub behind : String
  pub splits : s ≡ gap <> behind
  pub skips : Reads (skip whitespace comment) gap nil behind
  pub fails : Fails {R = Rule} (lit "=") behind

-- The characters of a key that a text starts with.
record Stem (s : String) : Type 0 where
  stem : String
  behind : String
  splits : s ≡ stem <> behind
  repeats : Repeats {R = Rule} (char_if is_name_char) stem nil behind
  no_equals : NoEquals behind

here-NoEquals :
    (d : Char) (s : String) → is_payload_char (code d) ≡ true → NoEquals (String.◌∷◌ d s)
unfolding lit strip_prefix valid_comments
here-NoEquals d s h = record {
  gap = "";
  behind = String.◌∷◌ d s;
  splits = refl;
  skips = skip-gap (record { blanks = []; comments = [] }) (String.◌∷◌ d s) refl (ground arith);
  fails = record { fails = ground arith };
}

text-Stem :
    (t r : String) → all_chars is_payload_char t ≡ true → NoKey r → NoEquals r → Stem (t <> r)
text-Stem String.[] r h n e = record {
  stem = "";
  behind = r;
  splits = refl;
  repeats = Repeats-stop n;
  no_equals = e;
}
text-Stem (String.◌∷◌ d t) r h n e = elim (Bool-cases (is_name_char (code d))) [
  | inl y ↦
      let s = text-Stem t r (all_chars-tail is_payload_char d t h) n e in
      record {
        stem = String.◌∷◌ d s.stem;
        behind = s.behind;
        splits = ap (λ x. String.◌∷◌ d x) s.splits;
        repeats = Repeats-step (char_if-Reads is_name_char d _ y) s.repeats;
        no_equals = s.no_equals;
      }
  | inr f ↦ record {
    stem = "";
    behind = String.◌∷◌ d (t <> r);
    splits = refl;
    repeats = Repeats-stop (char_if-Fails is_name_char d (t <> r) f);
    no_equals = here-NoEquals d (t <> r) (all_chars-head is_payload_char d t h);
  }
]

pub NoKey-property : (s : String) → NoKey s → Fails property s
unfolding property property_name
NoKey-property s n =
    rule-Fails Rule.property
      (then_-Fails whitespace comment _ (atomic-Fails Rule.property_name (seq-Fails _ n)))

Stem-Fails :
    (d : Char) (s : String)
    → is_name_char (code d) ≡ true
    → Stem s
    → Fails property (String.◌∷◌ d s)
unfolding property property_name
Stem-Fails d s y t =
    let e = t.no_equals in
    let r =
      subst (λ b. Repeats {R = Rule} (char_if is_name_char) t.stem nil b) e.splits t.repeats in
    rw (t.splits, e.splits)
      (rule-Fails Rule.property (
        then_-Fails_behind whitespace comment
          (atomic-Reads Rule.property_name
            (seq-Reads _ (char_if-Reads is_name_char d _ y) (many-Reads r)))
          e.skips (then_-Fails whitespace comment _ e.fails)))

pub payload-Fails :
    (v : Value) (r : String)
    → valid_value is_payload_char v ≡ true
    → NoKey r
    → NoEquals r
    → Fails property (value_text v <> r)
unfolding valid_value char_if
payload-Fails (quoted t) r h n e = NoKey-property _ (record { fails = refl })
payload-Fails (bare String.[]) r h n e = cc
payload-Fails (bare (String.◌∷◌ d t)) r h n e = elim (Bool-cases (is_name_char (code d))) [
  | inl y ↦
      Stem-Fails d (t <> r) y
        (text-Stem t r (all_chars-tail is_payload_char d t (ground arith)) n e)
  | inr f ↦ NoKey-property _ (char_if-Fails is_name_char d (t <> r) f)
]
