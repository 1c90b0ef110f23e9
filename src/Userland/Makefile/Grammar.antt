-- ===== src/Userland/Makefile/Grammar.antt =====
-- The rules of makefile.pest, each under its name.
pub mod Total
pub mod Written
pub mod Words
pub mod Lines
pub mod Defines
pub mod Comments
pub mod Bodies
pub mod RoundTrip
use ips.Base.{ℕ, String, Bool, true, none, some, ◌||◌, ◌&&◌, nat_eq, leb}
use ips.Base.Outcome.{Outcome, ok, err}
use ips.Base.Pest.{Pairs}
use ips.Base.Pest.Grammar.{
  Expression, Match, never, lit, char_if, seq, alt, not_ahead, opt, many, soi, eoi, rule, atomic,
  newline, then_, repeat,
}
use ips.Userland.Makefile.Parse.{Rule}

-- `ANY`.
abbrev pub any : Expression Rule
any = char_if (λ c. true)

-- `WHITESPACE`; the grammar has no `COMMENT`.
unfoldable pub whitespace : Expression Rule
unfolding lit alt
whitespace = alt (lit " ") (lit "\t")

-- `a ~ b` and `a*` of this grammar.
abbrev pub then : Expression Rule → Expression Rule → Expression Rule
then = then_ whitespace never

abbrev pub repeated : Expression Rule → Expression Rule
repeated = repeat whitespace never

-- `comment_string` and `comment_character` are silent, and not atomic.
unfoldable pub comment_character : Expression Rule
unfolding newline not_ahead char_if then_
comment_character = then (not_ahead newline) any

unfoldable pub comment_string : Expression Rule
unfolding comment_character lit repeat
comment_string = then (lit "#") (then (repeated comment_character) newline)

-- `variable_value_character` and `variable_value`.
unfoldable pub variable_value_character : Expression Rule
unfolding newline not_ahead char_if seq
variable_value_character = seq (not_ahead newline) any

unfoldable pub variable_value : Expression Rule
unfolding variable_value_character many atomic
variable_value = atomic Rule.variable_value (many variable_value_character)

-- `variable_set` and `variable_add` are silent.
unfoldable pub variable_set : Expression Rule
unfolding lit
variable_set = lit "="

unfoldable pub variable_add : Expression Rule
unfolding lit
variable_add = lit "+="

unfoldable pub target_character : Expression Rule
unfolding lit not_ahead char_if then_ rule
target_character = rule Rule.other (then (not_ahead (lit ":")) any)

unfoldable pub target_name : Expression Rule
unfolding target_character repeat
target_name = rule Rule.other (then target_character (repeated target_character))

unfoldable pub target : Expression Rule
unfolding target_name variable_value
target = rule Rule.target (then target_name (then (lit ":") variable_value))

unfoldable pub include : Expression Rule
unfolding variable_value lit then_ rule
include = rule Rule.include (then (lit "include") variable_value)

-- `define_end_keyword`, which is not atomic, and what it is inside the atomic `define_value`.
unfoldable pub define_end_keyword : Expression Rule
unfolding newline lit then_
define_end_keyword = then newline (lit "endef")

unfoldable pub define_end_inside : Expression Rule
unfolding newline lit seq
define_end_inside = seq newline (lit "endef")

unfoldable pub define_value_character : Expression Rule
unfolding define_end_inside not_ahead char_if
define_value_character = seq (not_ahead define_end_inside) any

unfoldable pub define_value : Expression Rule
unfolding define_value_character many atomic
define_value = atomic Rule.define_value (many define_value_character)

-- `uppercase` is the property of Unicode that `UPPERCASE` stands for.
module _ (uppercase : ℕ → Bool) where
  -- `variable_name_character`.
  abbrev pub is_name_char : ℕ → Bool
  is_name_char c = uppercase c || leb 48 c && leb c 57 || nat_eq c 95 || nat_eq c 46

  unfoldable pub variable_name : Expression Rule
  unfolding char_if many atomic
  variable_name = atomic Rule.variable_name (many (char_if is_name_char))

  unfoldable pub variable : Expression Rule
  unfolding variable_name variable_set variable_add variable_value opt alt then_ rule
  variable =
      rule Rule.variable
        (then variable_name (then (alt variable_set variable_add) (opt variable_value)))

  -- `define_keyword` is silent.
  unfoldable pub define : Expression Rule
  unfolding variable_name variable_set newline define_value define_end_keyword lit rule
  define = rule Rule.define (
      then (lit "define") (
        then variable_name
          (then variable_set (then newline (then define_value define_end_keyword)))))

  unfoldable pub statement : Expression Rule
  unfolding comment_string define variable include target
  statement = alt newline (alt comment_string (alt define (alt variable (alt include target))))

  unfoldable pub makefile : Expression Rule
  unfolding statement eoi
  makefile =
      rule Rule.makefile (then soi (then statement (then (repeated statement) (eoi Rule.eoi))))

  -- The parser that `pest` generates; `no_match` is its error.
  unfoldable pub parse_with : {E : Type 0} → (String → E) → String → Outcome E (Pairs Rule)
  unfolding makefile
  parse_with no_match content = elim (makefile content) [
    | none ↦ err (no_match content)
    | some m ↦ ok m.pairs
  ]
