-- ===== src/Actions/Manifest/Grammar/Words.antt =====
-- Names, keys and values as the grammar reads them.
use Prim.Native.Char.{Char, code}
use ips.Base.{ℕ, String, true, ◌≡◌, refl, List, [], ◌∷◌, arith}
use ips.Base.Text.{◌<>◌}
use ips.Base.Text.Laws.{<>_assoc}
use ips.Base.Text.Replace.{strip_prefix}
use ips.Base.Pest.{pair, nil, cons}
use ips.Base.Pest.Grammar.{lit, char_if, seq, alt, not_ahead, newline, atomic}
use ips.Base.Pest.Grammar.Laws.{
  Reads, Fails, many-Reads, seq-Reads, lit-Reads, alt-Reads, alt-Reads_second, char_if-Reads,
  atomic-Reads,
}
use ips.Base.Pest.Grammar.Characters.{
  all_chars, Repeats-chars, all_chars_mono, all_chars-head, all_chars-tail,
}
use ips.Base.Pest.Grammar.Series.{NotEmpty}
use ips.Actions.Manifest.{Rule}
use ips.Actions.Manifest.Grammar.{
  whitespace, action_name, property_name, is_name_char, quoted_string, quoted_character,
  unicode_character, value,
}
use ips.Actions.Manifest.Grammar.Written.{
  Blank, space, tab, continued, Comment, Gap, blanks_text, comments_text, gap_text, Name, set,
  depend, dir, file, license, hardlink, link, driver, group, user, legacy, name_text, Value, quoted,
  bare, value_text,
}
use ips.Actions.Manifest.Grammar.Valid.{
  solid, not_quote, is_plain, is_payload_char, valid_value, valid_key, starts_bare,
}

pub name-Reads :
    (n : Name) (s : String)
    → Reads action_name (name_text n) (cons (pair Rule.action_name (name_text n) nil) nil) s
unfolding action_name atomic alt lit strip_prefix
name-Reads set s = record { reads = refl }
name-Reads depend s = record { reads = refl }
name-Reads dir s = record { reads = refl }
name-Reads file s = record { reads = refl }
name-Reads license s = record { reads = refl }
name-Reads hardlink s = record { reads = refl }
name-Reads link s = record { reads = refl }
name-Reads driver s = record { reads = refl }
name-Reads group s = record { reads = refl }
name-Reads user s = record { reads = refl }
name-Reads legacy s = record { reads = refl }

-- A name could be a key.
pub name-key : (n : Name) → valid_key (name_text n) ≡ true
unfolding valid_key all_chars
name-key set = refl
name-key depend = refl
name-key dir = refl
name-key file = refl
name-key license = refl
name-key hardlink = refl
name-key link = refl
name-key driver = refl
name-key group = refl
name-key user = refl
name-key legacy = refl

-- What a key does not start with.
pub key-solid : (key s : String) → valid_key key ≡ true → solid (key <> s) ≡ true
unfolding valid_key all_chars
key-solid String.[] s h = cc
key-solid (String.◌∷◌ d t) s h = ground arith

pub key-NotEmpty : (key s : String) → valid_key key ≡ true → NotEmpty (key <> s)
unfolding valid_key all_chars
key-NotEmpty String.[] s h = cc
key-NotEmpty (String.◌∷◌ d t) s h = refl

pub key-no_equals : (key s : String) → valid_key key ≡ true → Fails {R = Rule} (lit "=") (key <> s)
unfolding valid_key all_chars lit strip_prefix
key-no_equals String.[] s h = cc
key-no_equals (String.◌∷◌ d t) s h = record { fails = ground arith }

pub key-no_newline : (key s : String) → valid_key key ≡ true → Fails {R = Rule} newline (key <> s)
unfolding valid_key all_chars newline alt lit strip_prefix
key-no_newline String.[] s h = cc
key-no_newline (String.◌∷◌ d t) s h = record { fails = ground arith }

-- Nor is it the start of a transform.
pub key-no_transform :
    (key s : String) → valid_key key ≡ true → Fails {R = Rule} (lit "<transform ") (key <> s)
unfolding valid_key all_chars lit strip_prefix
key-no_transform String.[] s h = cc
key-no_transform (String.◌∷◌ d t) s h = record { fails = ground arith }

-- No character of a key stands at the start.
abbrev pub NoKey : String → Type 0
NoKey s = Fails {R = Rule} (char_if is_name_char) s

comments-NoKey : (cs : List Comment) (s : String) → NoKey s → NoKey (comments_text cs <> s)
unfolding char_if
comments-NoKey [] s h = h
comments-NoKey (c ∷ cs) s h = record { fails = refl }

pub blanks-NoKey : (bs : List Blank) (s : String) → NoKey s → NoKey (blanks_text bs <> s)
unfolding char_if
blanks-NoKey [] s h = h
blanks-NoKey (space ∷ bs) s h = record { fails = refl }
blanks-NoKey (tab ∷ bs) s h = record { fails = refl }
blanks-NoKey (continued ∷ bs) s h = record { fails = refl }

pub gap-NoKey : (g : Gap) (s : String) → NoKey s → NoKey (gap_text g <> s)
gap-NoKey g s h =
    rw (<>_assoc (blanks_text g.blanks) (comments_text g.comments) s)
      (blanks-NoKey g.blanks _ (comments-NoKey g.comments s h))

pub key-Reads :
    (key s : String)
    → valid_key key ≡ true
    → NoKey s
    → Reads property_name key (cons (pair Rule.property_name key nil) nil) s
unfolding valid_key property_name
key-Reads String.[] s v h = cc
key-Reads (String.◌∷◌ d t) s v h = atomic-Reads Rule.property_name (
    seq-Reads _ (char_if-Reads is_name_char d _ (all_chars-head is_name_char d t (ground arith))) (
      many-Reads (
        Repeats-chars is_name_char (λ e r. char_if-Reads is_name_char e r) t
          (all_chars-tail is_name_char d t (ground arith)) h)))

one_unicode_character :
    (d : Char) (s : String)
    → is_plain (code d) ≡ true
    → Reads unicode_character (String.◌∷◌ d "") nil s
unfolding unicode_character whitespace newline not_ahead char_if seq alt lit strip_prefix
one_unicode_character d s h = record { reads = ground arith }

one_quoted_character :
    (d : Char) (s : String)
    → not_quote (code d) ≡ true
    → Reads quoted_character (String.◌∷◌ d "") nil s
unfolding quoted_character not_ahead char_if seq lit strip_prefix
one_quoted_character d s h = record { reads = ground arith }

quoted_character-Fails : (s : String) → Fails quoted_character ("\"" <> s)
unfolding quoted_character not_ahead seq lit strip_prefix
quoted_character-Fails s = record { fails = refl }

quoted-Reads :
    (t s : String) → all_chars not_quote t ≡ true → Reads quoted_string ("\"" <> (t <> "\"")) nil s
unfolding quoted_string
quoted-Reads t s h = seq-Reads _ (lit-Reads "\"" _) (
    seq-Reads _
      (many-Reads (Repeats-chars not_quote one_quoted_character t h (quoted_character-Fails s)))
      (lit-Reads "\"" s))

quoted-Fails :
    (d : Char) (s : String) → starts_bare (code d) ≡ true → Fails quoted_string (String.◌∷◌ d s)
unfolding quoted_string seq lit strip_prefix
quoted-Fails d s h = record { fails = ground arith }

-- Where a value not in quotes may end.
abbrev pub Ends : String → Type 0
Ends s = Fails unicode_character s

pub value-Reads :
    (v : Value) (s : String)
    → valid_value is_plain v ≡ true
    → Ends s
    → Reads value (value_text v) nil s
unfolding value valid_value
value-Reads (quoted t) s h e = alt-Reads _ (quoted-Reads t s h)
value-Reads (bare String.[]) s h e = cc
value-Reads (bare (String.◌∷◌ d t)) s h e = alt-Reads_second _ (quoted-Fails d _ (ground arith)) (
    seq-Reads _ (one_unicode_character d _ (all_chars-head is_plain d t (ground arith))) (
      many-Reads (
        Repeats-chars is_plain one_unicode_character t (all_chars-tail is_plain d t (ground arith))
          e)))

is_payload_char-is_plain : (c : ℕ) → is_payload_char c ≡ true → is_plain c ≡ true
is_payload_char-is_plain c h = ground arith

pub payload-valid :
    (v : Value) → valid_value is_payload_char v ≡ true → valid_value is_plain v ≡ true
unfolding valid_value
payload-valid (quoted t) h = h
payload-valid (bare t) h =
    ground (arith, all_chars_mono is_payload_char is_plain is_payload_char-is_plain t)
