-- ===== src/Ports/Quiet.antt =====
-- Which computations download nothing.
use ips.Base.{
  append-nil, String, Bool, true, false, ◌≡◌, refl, ap, ◌∙◌, List, [], ◌∷◌, ◌++◌, if◌then◌else◌,
}
use ips.Base.Outcome.{Outcome, ok, err, panic}
use ips.Ports.System.{
  resume, System, Event, fetched, entered, World, Run, ◌>>=◌, pure, fail, ask, act, say,
  set_current_dir, moved,
}

-- The URLs that were fetched.
unfoldable pub downloads : List Event → List String
downloads [] = []
downloads (fetched url ∷ es) = url ∷ downloads es
downloads (e ∷ es) = downloads es

abbrev pub NoFetch : Event → Type 0
NoFetch e = downloads (e ∷ []) ≡ []

pub downloads-append : (es ds : List Event) → downloads (es ++ ds) ≡ downloads es ++ downloads ds
unfolding downloads
downloads-append [] ds = refl
downloads-append (fetched url ∷ es) ds = ap (λ t. url ∷ t) (downloads-append es ds)
downloads-append (e ∷ es) ds = downloads-append es ds

-- A computation that fetches nothing, however it ends.
pub record Quiet {E A : Type 0} (m : Run E A) : Type 0 where
  pub at : (w : World) → downloads (m w).1.events ≡ downloads w.events

module _ {E A : Type 0} where
  pub Quiet-pure : (a : A) → Quiet (pure {E = E} a)
  Quiet-pure a = record { at = λ w. refl }

  pub Quiet-fail : (e : E) → Quiet (fail {A = A} e)
  Quiet-fail e = record { at = λ w. refl }

  pub Quiet-ask :
      {X : Type 0} (wrap : X → E) (answer : World → Outcome X A) → Quiet (ask wrap answer)
  Quiet-ask wrap answer = record { at = λ w. refl }

  pub Quiet-act :
      {X : Type 0} (wrap : X → E) (e : Event) (answer : World → Outcome X A)
      → NoFetch e
      → Quiet (act wrap e answer)
  Quiet-act wrap e answer h = record {
    at = λ w.
        downloads-append w.events (e ∷ [])
        ∙ ap (λ t. downloads w.events ++ t) h
        ∙ append-nil (downloads w.events);
  }

  pub Quiet-if : (b : Bool) {m n : Run E A} → Quiet m → Quiet n → Quiet (if b then m else n)
  Quiet-if true q r = q
  Quiet-if false q r = r

pub Quiet-say : {E : Type 0} (e : Event) → NoFetch e → Quiet (say {E = E} e)
Quiet-say e h = record {
  at = λ w.
      downloads-append w.events (e ∷ [])
      ∙ ap (λ t. downloads w.events ++ t) h
      ∙ append-nil (downloads w.events);
}

pub resume-at :
    {E A B : Type 0} (f : A → Run E B) (t : Outcome E A × World) (es : List String)
    → ((a : A) → Quiet (f a))
    → downloads t.1.events ≡ es
    → downloads (resume f t).1.events ≡ es
resume-at f (ok a, w) es h e = (h a).at w ∙ e
resume-at f (err x, w) es h e = e
resume-at f (panic, w) es h e = e

pub Quiet-bind :
    {E A B : Type 0} (m : Run E A) (f : A → Run E B)
    → Quiet m
    → ((a : A) → Quiet (f a))
    → Quiet (m >>= f)
Quiet-bind m f q r = record { at = λ w. resume-at f (m w) (downloads w.events) r (q.at w) }

module _ (system : System) where
  pub moved-at :
      {X : Type 0} (E : Type 0) (wrap : X → E) (path : String) (w : World) (t : Outcome X String)
      → downloads (moved wrap path w t).1.events ≡ downloads w.events
  unfolding downloads
  moved-at E wrap path w (ok dir) = (Quiet-say {E = E} (entered path) refl).at w
  moved-at E wrap path w (err x) = (Quiet-say {E = E} (entered path) refl).at w
  moved-at E wrap path w panic = (Quiet-say {E = E} (entered path) refl).at w

  pub set_current_dir-Quiet :
      {E : Type 0} (wrap : system.IoError → E) (path : String)
      → Quiet (set_current_dir system wrap path)
  set_current_dir-Quiet wrap path = record {
    at = λ w. moved-at _ wrap path w (system.enter w path);
  }
