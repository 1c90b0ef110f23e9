-- ===== src/Pkg6dev/Replacements.antt =====
-- What the command line's replacements mean.
use Prim.Native.String.{[], ◌∷◌}
use ips.Base.{
  String, false, ◌≡◌, refl, Option, none, some, List, map, foldl, arith, ◌==◌, if◌then◌else◌, ◌∙◌,
  ap,
}
use ips.Base.Table.{Table, lookup, insert, lookup-insert, lookup-empty}
use ips.Base.Text.{◌<>◌, contains_char, split_once}
use ips.Pkg6dev.{insert_pair, replacement_of, parse_tripplet_replacements}

-- The value of the last pair with the key `k`, behind the value `o`.
abbrev pub last_of : String → List (String × String) → Option String → Option String
last_of k List.[] o = o
last_of k (List.◌∷◌ (from, to) ps) o = last_of k ps (if from == k then some to else o)

lookup-foldl :
    (k : String) (ps : List (String × String)) (t : Table String)
    → lookup k (foldl insert_pair t ps) ≡ last_of k ps (lookup k t)
lookup-foldl k List.[] t = refl
lookup-foldl k (List.◌∷◌ (from, to) ps) t =
    lookup-foldl k ps (insert from to t) ∙ ap (last_of k ps) (lookup-insert from k to t)

-- Each name is replaced by what the last replacement of that name says.
pub lookup-parse_tripplet_replacements :
    (k : String) (replacements : List String)
    → lookup k (parse_tripplet_replacements replacements)
      ≡ last_of k (map replacement_of replacements) none
unfolding parse_tripplet_replacements
lookup-parse_tripplet_replacements k replacements =
    lookup-foldl k (map replacement_of replacements) List.[]
    ∙ ap (last_of k (map replacement_of replacements)) (lookup-empty k)

split_once-at :
    (a b : String) → contains_char b':' a ≡ false → split_once b':' (a <> ":" <> b) ≡ some (a, b)
unfolding split_once contains_char
split_once-at [] b h = refl
split_once-at (d ∷ a) b h = ground (arith, split_once-at a b)

split_once-none : (a : String) → contains_char b':' a ≡ false → split_once b':' a ≡ none
unfolding split_once contains_char
split_once-none [] h = refl
split_once-none (d ∷ a) h = ground (arith, split_once-none a)

-- Where `from` holds no colon, `from:to` replaces `from` by all that stands behind the first colon, and
-- the text `from` alone replaces the empty name by nothing.
pub replacement_of_lem :
    (from to : String)
    → contains_char b':' from ≡ false
    → (replacement_of (from <> ":" <> to) ≡ (from, to)) × (replacement_of from ≡ ("", ""))
unfolding replacement_of
replacement_of_lem from to h = (rw (split_once-at from to h) refl, rw (split_once-none from h) refl)
