-- ===== src/Base/Text.antt =====
-- What the program uses of Rust's `str`, over the characters of a text.
pub mod Laws
pub mod Case
pub mod Replace
use Prim.Native.Nat.{ℕ, zero, suc}
use Prim.Native.Char.{Char, code}
use Prim.Native.String.{String, [], ◌∷◌}
use mathlib.Core.Bool.{Bool, true, false, not, ◌&&◌, ◌||◌}
use mathlib.Core.Option
use mathlib.Core.Option.{Option, none, some}
use mathlib.Core.List
use mathlib.Core.List.{List}
use text.Mathlib.Text.{◌==◌}
use ips.Base.Tests.{nat_eq, leb, if◌then◌else◌}

-- Texts end to end; `List` keeps the plain operator.
infixr 67 ◌<>◌
abbrev pub ◌<>◌ : String → String → String
[] <> t = t
(d ∷ s) <> t = d ∷ (s <> t)

-- `is_empty`.
abbrev pub is_empty_str : String → Bool
is_empty_str s = s == ""

-- `contains(c)` for a character.
unfoldable pub contains_char : ℕ → String → Bool
contains_char c [] = false
contains_char c (d ∷ s) = nat_eq (code d) c || contains_char c s

-- `find(c)`, the position counted in characters; it is used only to cut at that place again.
unfoldable pub find_char : ℕ → String → Option ℕ
find_char c [] = none
find_char c (d ∷ s) = if nat_eq (code d) c then some 0 else Option.map suc (find_char c s)

-- `split_off(n)`: the part from position `n` on, counted in characters.
unfoldable pub split_off : ℕ → String → String
split_off zero s = s
split_off (suc n) [] = []
split_off (suc n) (d ∷ s) = split_off n s

-- The first part grows by a character.
abbrev pub grow : Char → List String → List String
grow d List.[] = List.◌∷◌ (d ∷ []) List.[]
grow d (List.◌∷◌ p ps) = List.◌∷◌ (d ∷ p) ps

-- `split(c).collect()`: never empty.
unfoldable pub split : ℕ → String → List String
split c [] = List.◌∷◌ [] List.[]
split c (d ∷ s) = if nat_eq (code d) c then List.◌∷◌ [] (split c s) else grow d (split c s)

-- `split_once(c)`: the parts before and behind the first `c`.
abbrev pub grow_first : Char → String × String → String × String
grow_first d (a, b) = (d ∷ a, b)

unfoldable pub split_once : ℕ → String → Option (String × String)
split_once c [] = none
split_once c (d ∷ s) =
    if nat_eq (code d) c then some ([], s) else Option.map (grow_first d) (split_once c s)

-- The test of `replace(['\"', '\\'], "")`.
abbrev pub is_quote : ℕ → Bool
is_quote c = nat_eq c 34 || nat_eq c 92

-- `replace(['\"', '\\'], "")`.
unfoldable pub strip_quotes : String → String
strip_quotes [] = []
strip_quotes (d ∷ s) = if is_quote (code d) then strip_quotes s else d ∷ strip_quotes s

-- `starts_with(p)`.
unfoldable pub starts_with : String → String → Bool
starts_with s [] = true
starts_with [] (p ∷ ps) = false
starts_with (d ∷ s) (p ∷ ps) = nat_eq (code d) (code p) && starts_with s ps

-- `char::is_whitespace`: the Unicode property White_Space.
unfoldable pub is_whitespace : ℕ → Bool
is_whitespace c =
    leb 9 c && leb c 13
    || nat_eq c 32
    || nat_eq c 0x85
    || nat_eq c 0xa0
    || nat_eq c 0x1680
    || leb 0x2000 c && leb c 0x200a
    || nat_eq c 0x2028
    || nat_eq c 0x2029
    || nat_eq c 0x202f
    || nat_eq c 0x205f
    || nat_eq c 0x3000

-- `trim_start`, `trim_end`, `trim`.
unfoldable pub trim_start : String → String
trim_start [] = []
trim_start (d ∷ s) = if is_whitespace (code d) then trim_start s else d ∷ s

unfoldable pub trim_end : String → String
trim_end [] = []
trim_end (d ∷ s) =
    if is_empty_str (trim_end s) && is_whitespace (code d) then [] else d ∷ trim_end s

unfoldable pub trim : String → String
unfolding trim_start trim_end is_whitespace
trim s = trim_end (trim_start s)

-- `join(sep)` of a `Vec<String>`.
unfoldable pub join : String → List String → String
join sep List.[] = ""
join sep (List.◌∷◌ p List.[]) = p
join sep (List.◌∷◌ p (List.◌∷◌ q ps)) = p <> sep <> join sep (List.◌∷◌ q ps)

-- A text without one carriage return at its end.
unfoldable pub strip_cr : String → String
strip_cr [] = []
strip_cr (d ∷ []) = if nat_eq (code d) 13 then [] else d ∷ []
strip_cr (d ∷ e ∷ s) = d ∷ strip_cr (e ∷ s)

-- The parts between newlines as lines: the last is one only if it is not empty.
unfoldable pub lines_of : List String → List String
unfolding strip_cr
lines_of List.[] = List.[]
lines_of (List.◌∷◌ p List.[]) = if is_empty_str p then List.[] else List.◌∷◌ p List.[]
lines_of (List.◌∷◌ p (List.◌∷◌ q ps)) = List.◌∷◌ (strip_cr p) (lines_of (List.◌∷◌ q ps))

-- `lines`.
unfoldable pub lines : String → List String
unfolding lines_of split
lines s = lines_of (split 10 s)

-- `contains(p)` for a text.
unfoldable pub contains_str : String → String → Bool
unfolding starts_with
contains_str [] p = starts_with [] p
contains_str (d ∷ s) p = starts_with (d ∷ s) p || contains_str s p

-- `remove(0)` of a text that is not empty.
unfoldable pub drop_first : String → String
drop_first [] = []
drop_first (d ∷ s) = s
