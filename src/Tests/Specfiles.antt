-- ===== src/Tests/Specfiles.antt =====
-- Spec files and their macros on concrete inputs.
use ips.Base.{String, ◌≡◌, refl, ◌↔◌, List, [], ◌∷◌, map, All, arith, inl, inr, ◌==◌, if◌then◌else◌}
use ips.Base.Outcome.{Outcome, ok, panic}
use ips.Base.Pest.{Pairs, pair}
use ips.Base.Text.{lines, join}
use ips.Specfile as Specfiles
use ips.Specfile.{SpecFile, default}
use ips.Specfile.Entries.{
  Entry, assignment, section_entry, text_line, comment, other_variable, entry_pairs, Adds, IsShort,
  SomeFatal,
}
use ips.Specfile.Stated.{parse-Adds, parse-panic}
use ips.Specfile.Macros as Macros
use ips.Specfile.Macros.{MacroParser}
use ips.Specfile.Macros.Expansion.{
  Piece, plain, macro_call, line_pairs, first_in_lines, replaced_line, unless, parse-pieces,
}

-- A name, a variable, two sections of the build script and a list of files.
abbrev small_entries : List Entry
small_entries =
    assignment "Name: zlib" "Name" "zlib"
    ∷ assignment "Prefix: /usr" "Prefix" "/usr"
    ∷ section_entry "%build\nmake\n# twice\nmake test\n" "build" (
        text_line "make\n" "make"
        ∷ comment "# twice\n" "# twice"
        ∷ text_line "make test\n" "make test"
        ∷ [])
    ∷ section_entry "%build\nls\n" "build" (text_line "ls\n" "ls" ∷ [])
    ∷ section_entry "%files\n/lib/libz.so \n" "files"
        (text_line "/lib/libz.so \n" "/lib/libz.so " ∷ [])
    ∷ []

abbrev small_text : String
small_text =
    "Name: zlib\nPrefix: /usr\n%build\nmake\n# twice\nmake test\n\n%build\nls\n\n%files\n/lib/libz.so \n"

abbrev small_parser : String → Outcome String (Pairs Specfiles.Rule)
small_parser content = ok (entry_pairs small_entries)

small_entries-IsShort : All IsShort small_entries
small_entries-IsShort = (tt, (tt, (omega arith, (omega arith, (omega arith, tt)))))

small_entries-safe : ¬ SomeFatal small_entries
small_entries-safe = elim [
  | inl f ↦ f
  | inr (inl f) ↦ f
  | inr (inr (inl f)) ↦ cc
  | inr (inr (inr (inl f))) ↦ cc
  | inr (inr (inr (inr (inl f)))) ↦ cc
  | inr (inr (inr (inr (inr f)))) ↦ f
]

parse-Adds_example :
    (spec : SpecFile) × (Specfiles.parse small_parser small_text ≡ ok spec)
    × Adds small_entries default spec
parse-Adds_example =
    parse-Adds small_parser small_text small_entries refl small_entries-IsShort small_entries-safe

abbrev fatal_entries : List Entry
fatal_entries =
    section_entry "%check\n# later\n" "check" (comment "# later\n" "# later" ∷ [])
    ∷ section_entry "%check\nmake test\n" "check" (text_line "make test\n" "make test" ∷ [])
    ∷ other_variable "Summary:"
        (Pairs.cons (pair Specfiles.Rule.variable_name "Summary" Pairs.nil) Pairs.nil)
    ∷ []

abbrev fatal_text : String
fatal_text = "%check\n# later\n\n%check\nmake test\n\nSummary:\n"

abbrev fatal_parser : String → Outcome String (Pairs Specfiles.Rule)
fatal_parser content = ok (entry_pairs fatal_entries)

parse-panic_example : (Specfiles.parse fatal_parser fatal_text ≡ panic) ↔ SomeFatal fatal_entries
parse-panic_example =
    parse-panic fatal_parser fatal_text fatal_entries refl (omega arith, (omega arith, (tt, tt)))

abbrev small_macros : MacroParser
small_macros = record { macros = ("proto_dir", "/wks/proto") ∷ [] }

abbrev pieces_of : String → List Piece
pieces_of line =
    if line == "make"
    then plain "make" ∷ []
    else plain "cd" ∷ macro_call "%{proto_dir}" "proto_dir" [] ∷ []

abbrev macro_parser : String → Outcome String (Pairs Macros.Rule)
macro_parser line = ok (line_pairs line (pieces_of line))

abbrev script : String
script = "cd %{proto_dir}\nmake"

every_line :
    (ls : List String) → All (λ line. macro_parser line ≡ ok (line_pairs line (pieces_of line))) ls
every_line [] = tt
every_line (l ∷ ls) = (refl, every_line ls)

parse-pieces_example :
    Macros.parse macro_parser small_macros script
    ≡ unless
        (first_in_lines small_macros macro_parser pieces_of (lines script))
        (join "\n" (map (replaced_line small_macros macro_parser pieces_of) (lines script)))
parse-pieces_example =
    parse-pieces small_macros macro_parser pieces_of script (every_line (lines script))
