-- ===== src/Base/Text/Replace.antt =====
-- `replace`, `replacen` and `strip_prefix`. The patterns of the program are never empty.
pub mod Lines
use Prim.Native.Nat.{ℕ, zero, suc, ◌-◌}
use Prim.Native.Char.{code}
use Prim.Native.String.{String, [], ◌∷◌}
use mathlib.Core.Bool.{true, false}
use mathlib.Core.Option.{Option, none, some}
use ips.Base.Tests.{nat_eq, if◌then◌else◌}
use ips.Base.Text.{◌<>◌, starts_with}

-- `strip_prefix(p)`.
unfoldable pub strip_prefix : String → String → Option String
strip_prefix s [] = some s
strip_prefix [] (p ∷ ps) = none
strip_prefix (d ∷ s) (p ∷ ps) = if nat_eq (code d) (code p) then strip_prefix s ps else none

-- `replacen(from, to, 1)`: the first place where `from` stands, if there is one.
unfoldable pub replace_first : String → String → String → String
unfolding strip_prefix
replace_first from to [] = []
replace_first from to (d ∷ s) = elim (strip_prefix (d ∷ s) from) [
  | some rest ↦ to <> rest
  | none ↦ d ∷ replace_first from to s
]

-- `chars().count()`.
unfoldable pub char_count : String → ℕ
char_count [] = 0
char_count (d ∷ s) = suc (char_count s)

-- The scan of `replace`; `skip` characters belong to a place that is replaced already.
unfoldable pub replace_skip : String → String → ℕ → String → String
unfolding starts_with char_count
replace_skip from to skip [] = []
replace_skip from to (suc skip) (d ∷ s) = replace_skip from to skip s
replace_skip from to zero (d ∷ s) = elim (starts_with (d ∷ s) from) [
  | true ↦ to <> replace_skip from to (char_count from - 1) s
  | false ↦ d ∷ replace_skip from to zero s
]

-- `replace(from, to)`.
unfoldable pub replace : String → String → String → String
unfolding replace_skip
replace from to s = replace_skip from to zero s

-- `replace(c, "")` for a character.
unfoldable pub remove_char : ℕ → String → String
remove_char c [] = []
remove_char c (d ∷ s) = if nat_eq (code d) c then remove_char c s else d ∷ remove_char c s
