-- ===== src/Userland/Makefile/Grammar/Written.antt =====
-- Makefiles as a file has them: empty lines, comments, variables, includes and defines.
use Prim.Native.Char.{code}
use ips.Base.{ℕ, String, Bool, true, false, not, ◌&&◌, ◌||◌, some, List, [], ◌∷◌, nat_eq, is_empty}
use ips.Base.Text.{◌<>◌, starts_with}
use ips.Base.Pest.Grammar.Characters.{all_chars}
use ips.Userland.Makefile.Parse.Statements.{Statement, assign, definition}
use ips.Userland.Makefile.Parse.Statements as Statements
use ips.Userland.Makefile.Grammar.{is_name_char}

pub data Blank : Type 0 where
  space tab : Blank

abbrev pub blank_text : Blank → String
blank_text space = " "
blank_text tab = "\t"

abbrev pub blanks_text : List Blank → String
blanks_text [] = ""
blanks_text (b ∷ bs) = blank_text b <> blanks_text bs

pub data Operator : Type 0 where
  sets adds : Operator

abbrev pub operator_text : Operator → String
operator_text sets = "="
operator_text adds = "+="

pub record WrittenVariable : Type 0 where
  pub name : String
  pub before : List Blank
  pub operator : Operator
  pub behind : List Blank
  pub value : String

pub record WrittenInclude : Type 0 where
  pub blanks : List Blank
  pub path : String

-- The value is one line or more, each next one behind a newline.
pub record WrittenDefine : Type 0 where
  pub blanks : List Blank
  pub name : String
  pub before : List Blank
  pub behind : List Blank
  pub line : String
  pub lines : List String

-- An empty line is its newline; a variable or an include is the line without it.
pub data Body : Type 0 where
  empty : Body
  comment : String → Body
  variable : WrittenVariable → Body
  include : WrittenInclude → Body
  define : WrittenDefine → Body

pub record Line : Type 0 where
  pub blanks : List Blank
  pub body : Body

pub record WrittenMakefile : Type 0 where
  pub first : Line
  pub lines : List Line
  pub blanks : List Blank

abbrev pub variable_text : WrittenVariable → String
variable_text v =
    v.name
    <> (blanks_text v.before <> (operator_text v.operator <> (blanks_text v.behind <> v.value)))

abbrev pub include_text : WrittenInclude → String
include_text i = "include" <> (blanks_text i.blanks <> i.path)

abbrev pub more_lines : List String → String
more_lines [] = ""
more_lines (l ∷ ls) = "\n" <> (l <> more_lines ls)

abbrev pub value_text : WrittenDefine → String
value_text d = d.line <> more_lines d.lines

abbrev pub define_text : WrittenDefine → String
define_text d =
    "define"
    <> (blanks_text d.blanks
        <> (d.name
            <> (blanks_text d.before
                <> ("=" <> (blanks_text d.behind <> ("\n" <> (value_text d <> "\nendef")))))))

abbrev pub body_text : Body → String
body_text empty = "\n"
body_text (comment t) = "#" <> (t <> "\n")
body_text (variable v) = variable_text v
body_text (include i) = include_text i
body_text (define d) = define_text d

abbrev pub lines_text : List Line → String
lines_text [] = ""
lines_text (l ∷ ls) = blanks_text l.blanks <> (body_text l.body <> lines_text ls)

unfoldable pub print : WrittenMakefile → String
print m = lines_text (m.first ∷ m.lines) <> blanks_text m.blanks

-- The statements of the lines.
abbrev pub add_statement : Body → List Statement → List Statement
add_statement empty ss = ss
add_statement (comment t) ss = ss
add_statement (variable v) ss = assign (variable_text v) v.name (some v.value) ∷ ss
add_statement (include i) ss = Statements.include (include_text i) i.path ∷ ss
add_statement (define d) ss = definition (define_text d) d.name (value_text d) ∷ ss

abbrev pub statements_of : List Line → List Statement
statements_of [] = []
statements_of (l ∷ ls) = add_statement l.body (statements_of ls)

-- Which written makefiles are valid.
abbrev pub not_newline : ℕ → Bool
not_newline c = not (nat_eq c 10 || nat_eq c 13)

-- No blank is at the start.
abbrev pub solid : String → Bool
solid String.[] = true
solid (String.◌∷◌ d s) = not (nat_eq (code d) 32 || nat_eq (code d) 9)

abbrev pub valid_value : String → Bool
valid_value v = solid v && all_chars not_newline v

-- No further line of a define is its end.
unfoldable pub valid_more : List String → Bool
unfolding all_chars starts_with
valid_more [] = true
valid_more (l ∷ ls) = all_chars not_newline l && not (starts_with l "endef") && valid_more ls

-- An empty line follows, or the end.
abbrev pub newline_next : List Line → List Blank → Bool
newline_next [] bs = is_empty bs
newline_next (l ∷ ls) bs = elim l.body [ empty ↦ is_empty l.blanks | _ ↦ false ]

module _ (uppercase : ℕ → Bool) where
  abbrev pub head_is_name : String → Bool
  head_is_name String.[] = false
  head_is_name (String.◌∷◌ d s) = is_name_char uppercase (code d)

  abbrev pub valid_name : String → Bool
  valid_name n = head_is_name n && all_chars (is_name_char uppercase) n

  unfoldable pub valid_body : Body → List Line → List Blank → Bool
  unfolding all_chars valid_more
  valid_body empty ls bs = true
  valid_body (comment t) ls bs = all_chars not_newline t
  valid_body (variable v) ls bs = valid_name v.name && valid_value v.value && newline_next ls bs
  valid_body (include i) ls bs = valid_value i.path && newline_next ls bs
  valid_body (define d) ls bs = valid_name d.name && valid_value d.line && valid_more d.lines

  unfoldable pub valid_lines : List Line → List Blank → Bool
  unfolding valid_body
  valid_lines [] bs = true
  valid_lines (l ∷ ls) bs = valid_body l.body ls bs && valid_lines ls bs

  unfoldable pub valid : WrittenMakefile → Bool
  unfolding valid_lines
  valid m = valid_lines (m.first ∷ m.lines) m.blanks
