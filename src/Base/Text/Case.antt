-- ===== src/Base/Text/Case.antt =====
-- `to_lowercase`, for ASCII. The program compares the result only with the words "true", "false",
-- "t" and "f", and no other character becomes one of their letters.
use Prim.Native.Char.{Char, code}
use Prim.Native.String.{String, [], ◌∷◌}
use ips.Base.Tests.{nat_eq, if◌then◌else◌}

unfoldable pub lower_char : Char → Char
lower_char c =
    if nat_eq (code c) b'A'
    then "a"
    else if nat_eq (code c) b'B'
    then "b"
    else if nat_eq (code c) b'C'
    then "c"
    else if nat_eq (code c) b'D'
    then "d"
    else if nat_eq (code c) b'E'
    then "e"
    else if nat_eq (code c) b'F'
    then "f"
    else if nat_eq (code c) b'G'
    then "g"
    else if nat_eq (code c) b'H'
    then "h"
    else if nat_eq (code c) b'I'
    then "i"
    else if nat_eq (code c) b'J'
    then "j"
    else if nat_eq (code c) b'K'
    then "k"
    else if nat_eq (code c) b'L'
    then "l"
    else if nat_eq (code c) b'M'
    then "m"
    else if nat_eq (code c) b'N'
    then "n"
    else if nat_eq (code c) b'O'
    then "o"
    else if nat_eq (code c) b'P'
    then "p"
    else if nat_eq (code c) b'Q'
    then "q"
    else if nat_eq (code c) b'R'
    then "r"
    else if nat_eq (code c) b'S'
    then "s"
    else if nat_eq (code c) b'T'
    then "t"
    else if nat_eq (code c) b'U'
    then "u"
    else if nat_eq (code c) b'V'
    then "v"
    else if nat_eq (code c) b'W'
    then "w"
    else if nat_eq (code c) b'X'
    then "x"
    else if nat_eq (code c) b'Y'
    then "y"
    else if nat_eq (code c) b'Z'
    then "z"
    else c

unfoldable pub to_lowercase : String → String
unfolding lower_char
to_lowercase [] = []
to_lowercase (d ∷ s) = lower_char d ∷ to_lowercase s
