-- ===== src/Tests/MakefileGrammars.antt =====
-- The grammar of makefiles on concrete texts.
use ips.Base.{ℕ, String, Bool, ◌≡◌, refl, ◌⊎◌, ◌&&◌, leb, List, [], ◌∷◌}
use ips.Base.Outcome.{ok, err}
use ips.Base.Table.{lookup}
use ips.Userland.Makefile.{Makefile, default}
use ips.Userland.Makefile.Parse.{parse_string}
use ips.Userland.Makefile.Parse.Statements.{Statement, included, last_given, setting}
use ips.Userland.Makefile.Grammar.{whitespace, parse_with}
use ips.Userland.Makefile.Grammar.Words.{AsciiUppercase}
use ips.Userland.Makefile.Grammar.Written.{
  space, tab, sets, adds, WrittenVariable, WrittenInclude, WrittenDefine, Body, empty, comment,
  variable, include, define, Line, WrittenMakefile, print, valid,
}
use ips.Userland.Makefile.Grammar.RoundTrip.{written_statements, makefile-print}
use ips.Userland.Makefile.Grammar.Total.{parse_string-makefile}

abbrev ascii_uppercase : ℕ → Bool
ascii_uppercase c = leb 65 c && leb c 90

ascii : AsciiUppercase ascii_uppercase
ascii c h = refl

abbrev same : String → String
same content = content

abbrev line_of : Body → Line
line_of body = record { blanks = []; body = body }

abbrev name_is : WrittenVariable
name_is = record {
  name = "COMPONENT_NAME";
  before = [];
  operator = sets;
  behind = space ∷ tab ∷ [];
  value = "nginx web";
}

abbrev options_are : WrittenVariable
options_are = record {
  name = "OPTIONS.32";
  before = space ∷ [];
  operator = adds;
  behind = space ∷ [];
  value = "--with=a";
}

abbrev rules : WrittenInclude
rules = record { blanks = space ∷ []; path = "../make-rules/ips.mk" }

abbrev steps : WrittenDefine
steps = record {
  blanks = space ∷ [];
  name = "STEPS";
  before = space ∷ [];
  behind = [];
  line = "first";
  lines = "\tend" ∷ "" ∷ [];
}

abbrev written : WrittenMakefile
written = record {
  first = line_of (comment "  all of it ");
  lines =
      line_of empty
      ∷ line_of (variable name_is)
      ∷ line_of empty
      ∷ line_of (define steps)
      ∷ line_of empty
      ∷ record { blanks = tab ∷ []; body = variable options_are }
      ∷ line_of empty
      ∷ line_of (include rules)
      ∷ [];
  blanks = [];
}

written_text :
    print written
    ≡ "#  all of it \n\nCOMPONENT_NAME= \tnginx web\ndefine STEPS =\nfirst\n\tend\n\nendef\n\tOPTIONS.32 += --with=a\ninclude ../make-rules/ips.mk"
unfolding print
written_text = refl

makefile-print_example :
    (r : Makefile) × (parse_string (parse_with ascii_uppercase same) (print written) ≡ ok r)
    × (r.includes ≡ included (written_statements written))
    × ((k : String) → lookup k r.variables ≡ setting (last_given k (written_statements written)))
unfolding valid
makefile-print_example = makefile-print ascii_uppercase ascii same written refl

-- A line that is no statement is the start of a target, whose name goes on over the next lines.
abbrev lost_text : String
lost_text = "foo = bar\nA=1\nall: x\n"

parse_string-lost : parse_string (parse_with ascii_uppercase same) lost_text ≡ ok default
unfolding parse_string parse_with whitespace
parse_string-lost = refl

parse_string-makefile_example :
    (parse_string (parse_with ascii_uppercase same) lost_text ≡ err (same lost_text))
    ⊎ ((ss : List Statement) × (m : Makefile) × (parse_string
            (parse_with ascii_uppercase same)
            lost_text
          ≡ ok m)
        × (m.includes ≡ included ss)
        × ((k : String) → lookup k m.variables ≡ setting (last_given k ss)))
parse_string-makefile_example = parse_string-makefile ascii_uppercase same lost_text

-- Without a colon behind it the whole text is refused.
parse_string-refused :
    parse_string (parse_with ascii_uppercase same) "ifdef B\nA=1\nendif\n"
    ≡ err "ifdef B\nA=1\nendif\n"
unfolding parse_string parse_with whitespace
parse_string-refused = refl
