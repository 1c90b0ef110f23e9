-- ===== src/Actions/Manifest/Grammar/Valid.antt =====
-- Which written manifests are valid: each part ends where the grammar sees its end.
use Prim.Native.Char.{code}
use ips.Base.{
  ℕ, String, Bool, true, false, not, ◌&&◌, ◌||◌, Option, none, some, List, [], ◌∷◌, nat_eq,
  is_empty,
}
use ips.Base.Pest.Grammar.{at_end}
use ips.Base.Pest.Grammar.Characters.{all_chars}
use ips.Actions.Manifest.Grammar.{is_name_char}
use ips.Actions.Manifest.Grammar.Written.{
  Comment, Gap, Value, quoted, bare, WrittenProperty, WrittenPayload, Ending, end_of_input,
  WrittenAction, WrittenTransform, Body, empty, action, transform, Line, WrittenManifest, gap_text,
}

abbrev pub not_newline : ℕ → Bool
not_newline c = not (nat_eq c 10 || nat_eq c 13)

abbrev pub not_quote : ℕ → Bool
not_quote c = not (nat_eq c 34)

-- No blank, newline or backslash.
abbrev pub is_plain : ℕ → Bool
is_plain c = not_newline c && not (nat_eq c 32 || nat_eq c 9 || nat_eq c 92)

-- A payload that is no property: also no `=` and no `#`.
abbrev pub is_payload_char : ℕ → Bool
is_payload_char c = is_plain c && not (nat_eq c 61 || nat_eq c 35)

-- The first character of a text that is not empty.
abbrev pub head_is : (ℕ → Bool) → String → Bool
head_is test String.[] = false
head_is test (String.◌∷◌ d s) = test (code d)

-- No quote, which would start a value in quotes, and no `#`, which would start a comment.
abbrev pub starts_bare : ℕ → Bool
starts_bare c = not (nat_eq c 34 || nat_eq c 35)

-- No blank, no backslash and no `#` is at the start.
abbrev pub solid : String → Bool
solid String.[] = true
solid (String.◌∷◌ d s) =
    not (nat_eq (code d) 32 || nat_eq (code d) 9 || nat_eq (code d) 92 || nat_eq (code d) 35)

unfoldable pub valid_comments : List Comment → Bool
unfolding all_chars
valid_comments [] = true
valid_comments (c ∷ cs) = all_chars not_newline c.text && valid_comments cs

abbrev pub valid_gap : Gap → Bool
valid_gap g = valid_comments g.comments

-- The test of the characters of a value not in quotes.
unfoldable pub valid_value : (ℕ → Bool) → Value → Bool
unfolding all_chars
valid_value test (quoted t) = all_chars not_quote t
valid_value test (bare t) = head_is starts_bare t && all_chars test t

unfoldable pub valid_key : String → Bool
unfolding all_chars
valid_key key = head_is is_name_char key && all_chars is_name_char key

unfoldable pub valid_property : WrittenProperty → Bool
unfolding valid_comments valid_key valid_value
valid_property p =
    valid_gap p.gap
    && valid_key p.key
    && valid_gap p.before
    && valid_gap p.behind
    && valid_value is_plain p.value

unfoldable pub valid_properties : List WrittenProperty → Bool
unfolding valid_property
valid_properties [] = true
valid_properties (p ∷ ps) = valid_property p && valid_properties ps

-- A payload or a property follows the name.
unfoldable pub valid_argument : Option WrittenPayload → List WrittenProperty → Bool
unfolding valid_comments valid_value
valid_argument none [] = false
valid_argument none (p ∷ ps) = true
valid_argument (some p) ps = valid_gap p.gap && valid_value is_payload_char p.value

unfoldable pub valid_action : WrittenAction → Bool
unfolding valid_argument valid_properties
valid_action a = valid_argument a.payload a.props && valid_properties a.props

abbrev pub not_greater : ℕ → Bool
not_greater c = not (nat_eq c 62)

-- What a transform does is no blank and no comment, and ends at the first `>`.
unfoldable pub valid_transform : WrittenTransform → Bool
unfolding valid_properties valid_comments all_chars
valid_transform t =
    valid_gap t.gap
    && not (is_empty t.props)
    && valid_properties t.props
    && valid_gap t.before
    && valid_gap t.behind
    && solid t.text
    && all_chars not_greater t.text

-- Only the last line may end at the end of the input, with nothing behind it.
abbrev pub nothing_behind : Ending → List Line → Gap → Bool
nothing_behind end_of_input [] g = at_end (gap_text g)
nothing_behind end_of_input (l ∷ ls) g = false
nothing_behind _ ls g = true

unfoldable pub valid_body : Body → List Line → Gap → Bool
unfolding valid_action valid_transform
valid_body (transform t) ls g = valid_transform t
valid_body empty ls g = true
valid_body (action a) ls g = valid_action a && nothing_behind a.ending ls g

unfoldable pub valid_lines : List Line → Gap → Bool
unfolding valid_body valid_comments
valid_lines [] g = valid_gap g
valid_lines (l ∷ ls) g = valid_gap l.gap && valid_body l.body ls g && valid_lines ls g

unfoldable pub valid : WrittenManifest → Bool
unfolding valid_lines
valid m = valid_lines (m.first ∷ m.lines) m.gap
