-- ===== src/Base/Pest/Grammar/Characters.antt =====
-- A repetition of something that reads one character.
use Prim.Native.Nat.{ℕ}
use Prim.Native.Char.{Char, code}
use Prim.Native.String.{String, [], ◌∷◌}
use mathlib.Core.Path.{◌≡◌, refl, subst}
use mathlib.Core.Bool.{Bool, true, ◌&&◌}
use native.Mathlib.Omega.{arith}
use ips.Base.Text.{◌<>◌}
use ips.Base.Text.Laws.{<>_nil}
use ips.Base.Pest.{Pairs, nil}
use ips.Base.Pest.Grammar.{Expression}
use ips.Base.Pest.Grammar.Laws.{Reads, Fails, Repeats, Repeats-stop, Repeats-step}

unfoldable pub all_chars : (ℕ → Bool) → String → Bool
all_chars test [] = true
all_chars test (d ∷ s) = test (code d) && all_chars test s

pub all_chars-head :
    (test : ℕ → Bool) (d : Char) (s : String) → all_chars test (d ∷ s) ≡ true → test (code d) ≡ true
unfolding all_chars
all_chars-head test d s h = ground arith

pub all_chars-tail :
    (test : ℕ → Bool) (d : Char) (s : String)
    → all_chars test (d ∷ s) ≡ true
    → all_chars test s ≡ true
unfolding all_chars
all_chars-tail test d s h = ground arith

-- Characters, and what is read behind them.
pub Repeats-chars_then :
    {R : Type 0} {a : Expression R} {qs : Pairs R} (test : ℕ → Bool)
    → ((d : Char) (s : String) → test (code d) ≡ true → Reads a (d ∷ "") nil s)
    → (t : String) {u rest : String} → all_chars test t ≡ true
    → Repeats a u qs rest
    → Repeats a (t <> u) qs rest
Repeats-chars_then test one [] h k = k
Repeats-chars_then test one (d ∷ t) {u} {rest} h k =
    Repeats-step (one d ((t <> u) <> rest) (all_chars-head test d t h))
      (Repeats-chars_then test one t (all_chars-tail test d t h) k)

pub Repeats-chars :
    {R : Type 0} {a : Expression R} (test : ℕ → Bool)
    → ((d : Char) (s : String) → test (code d) ≡ true → Reads a (d ∷ "") nil s)
    → (t : String) {rest : String} → all_chars test t ≡ true
    → Fails a rest
    → Repeats a t nil rest
Repeats-chars {R} {a} test one t {rest} h n =
    subst (λ x. Repeats a x nil rest) (<>_nil t) (Repeats-chars_then test one t h (Repeats-stop n))

pub all_chars_mono :
    (test wider : ℕ → Bool)
    → ((c : ℕ) → test c ≡ true → wider c ≡ true)
    → (t : String) → all_chars test t ≡ true
    → all_chars wider t ≡ true
unfolding all_chars
all_chars_mono test wider f [] h = refl
all_chars_mono test wider f (d ∷ t) h =
    rw (f (code d) (all_chars-head test d t h))
      (all_chars_mono test wider f t (all_chars-tail test d t h))
