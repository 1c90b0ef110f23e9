-- ===== src/Actions/Manifest/Grammar.antt =====
-- The rules of manifest.pest, each under its name.
pub mod Written
pub mod Valid
pub mod Gaps
pub mod Words
pub mod Payloads
pub mod Properties
pub mod Behind
pub mod Arguments
pub mod Lines
pub mod Transforms
pub mod RoundTrip
pub mod Shapes
pub mod Total
use ips.Base.{ℕ, String, Bool, true, none, some, ◌||◌, ◌&&◌, nat_eq, leb}
use ips.Base.Outcome.{Outcome, ok, err}
use ips.Base.Pest.{Pairs}
use ips.Base.Pest.Grammar.{
  Expression, Match, lit, char_if, seq, alt, not_ahead, many, soi, eoi, rule, atomic, newline,
  then_, repeat,
}
use ips.Actions.Manifest.{Rule, Manifest, parse_string}

-- `ANY`.
abbrev pub any : Expression Rule
any = char_if (λ c. true)

-- The atomic rules `action_set` to `action_legacy` give no pair inside `action_name`.
unfoldable pub action_name : Expression Rule
unfolding lit alt atomic
action_name = atomic Rule.action_name (
    alt (lit "set") (
      alt (lit "depend") (
        alt (lit "dir") (
          alt (lit "file") (
            alt (lit "license") (
              alt (lit "hardlink") (
                alt (lit "link")
                  (alt (lit "driver") (alt (lit "group") (alt (lit "user") (lit "legacy")))))))))))

-- `quoted_character` and `quoted_string`, in the atomic `property_value`.
unfoldable pub quoted_character : Expression Rule
unfolding lit char_if not_ahead seq
quoted_character = seq (not_ahead (lit "\"")) any

unfoldable pub quoted_string : Expression Rule
unfolding quoted_character many
quoted_string = seq (lit "\"") (seq (many quoted_character) (lit "\""))

unfoldable pub comment_character : Expression Rule
unfolding newline not_ahead char_if seq
comment_character = seq (not_ahead newline) any

-- `COMMENT`.
unfoldable pub comment : Expression Rule
unfolding comment_character lit many
comment = seq (lit "#") (seq (many comment_character) newline)

unfoldable pub transform_character : Expression Rule
unfolding lit char_if not_ahead seq
transform_character = seq (not_ahead (lit ">")) any

-- `WHITESPACE`.
unfoldable pub whitespace : Expression Rule
unfolding lit newline seq alt
whitespace = alt (seq (lit "\\") newline) (alt (lit " ") (lit "\t"))

unfoldable pub unicode_character : Expression Rule
unfolding whitespace
unicode_character = seq (not_ahead (alt whitespace newline)) any

-- `ASCII_ALPHANUMERIC | "." | "_" | "-" | "/"`.
abbrev pub is_name_char : ℕ → Bool
is_name_char c =
    leb 48 c && leb c 57
    || leb 65 c && leb c 90
    || leb 97 c && leb c 122
    || nat_eq c 46
    || nat_eq c 95
    || nat_eq c 45
    || nat_eq c 47

-- `e+` is `e ~ e*`.
unfoldable pub property_name : Expression Rule
unfolding char_if seq many atomic
property_name = atomic Rule.property_name (seq (char_if is_name_char) (many (char_if is_name_char)))

unfoldable pub value : Expression Rule
unfolding quoted_string unicode_character
value = alt quoted_string (seq unicode_character (many unicode_character))

unfoldable pub property_value : Expression Rule
unfolding value
property_value = atomic Rule.property_value value

unfoldable pub payload : Expression Rule
unfolding value
payload = atomic Rule.payload value

-- `a ~ b` and `a*` of this grammar.
abbrev pub then : Expression Rule → Expression Rule → Expression Rule
then = then_ whitespace comment

abbrev pub repeated : Expression Rule → Expression Rule
repeated = repeat whitespace comment

unfoldable pub property : Expression Rule
unfolding property_name property_value then_ rule
property = rule Rule.property (then property_name (then (lit "=") property_value))

unfoldable pub transform_action : Expression Rule
unfolding transform_character
transform_action = atomic Rule.other (many transform_character)

unfoldable pub transform : Expression Rule
unfolding property transform_action action_name repeat
transform = rule Rule.transform (
    then (lit "<transform ") (
      then action_name (
        then property
          (then (repeated property) (then (lit "->") (then transform_action (lit ">")))))))

unfoldable pub action : Expression Rule
unfolding property payload action_name repeat
action = rule Rule.action (
    then action_name
      (then (alt property payload) (then (repeated property) (alt newline (eoi Rule.eoi)))))

unfoldable pub item : Expression Rule
unfolding transform action
item = alt newline (alt transform action)

unfoldable pub manifest : Expression Rule
unfolding item
manifest = rule Rule.manifest (then soi (then item (then (repeated item) (eoi Rule.eoi))))

-- The parser that `pest` generates; `no_match` is its error.
unfoldable pub parse_with : {E : Type 0} → (String → E) → String → Outcome E (Pairs Rule)
unfolding manifest
parse_with no_match content = elim (manifest content) [
  | none ↦ err (no_match content)
  | some m ↦ ok m.pairs
]
