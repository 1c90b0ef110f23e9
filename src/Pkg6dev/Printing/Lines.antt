-- ===== src/Pkg6dev/Printing/Lines.antt =====
-- Computations that return a value and print known lines.
use ips.Base.{String, ◌≡◌, refl, sym, ◌∙◌, ap, List, [], ◌∷◌, ◌++◌, append_assoc, append-nil}
use ips.Base.Outcome.{ok}
use ips.Pkg6dev.Printing.{Output, Printing, ◌>>=◌, ◌>>◌, println, pure}

-- Printing these lines and returning this value.
pub record Prints {E A : Type 0} (m : Printing E A) (a : A) (lines : List String) : Type 0 where
  pub at : (out : Output) → m out ≡ (ok a, record out { printed = out.printed ++ lines })

module _ {E : Type 0} where
  pub Prints-bind :
      {A B : Type 0} (m : Printing E A) (f : A → Printing E B) (a : A) (b : B) (xs ys : List String)
      → Prints m a xs
      → Prints (f a) b ys
      → Prints (m >>= f) b (xs ++ ys)
  Prints-bind m f a b xs ys p q = record {
    at = λ out.
        rw (p.at out)
          (q.at _ ∙ ap (λ t. (ok b, record out { printed = t })) (append_assoc out.printed xs ys));
  }

  pub Prints-then :
      (m n : Printing E (Unit {0})) (xs ys : List String)
      → Prints m tt xs
      → Prints n tt ys
      → Prints (m >> n) tt (xs ++ ys)
  Prints-then m n xs ys p q = Prints-bind m (λ _. n) tt tt xs ys p q

  pub Prints-pure : {A : Type 0} (a : A) → Prints {E = E} (pure a) a []
  Prints-pure a = record {
    at = λ out. ap (λ t. (ok a, record out { printed = t })) (sym (append-nil out.printed));
  }

  pub Prints-line : (line : String) → Prints {E = E} (println line) tt (line ∷ [])
  Prints-line line = record { at = λ out. refl }
