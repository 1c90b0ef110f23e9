-- ===== src/Ports/After.antt =====
-- What a computation of `ports` adds to the events where it returns.
use ips.Base.{
  String, Bool, true, false, ◌≡◌, refl, sym, ap, ◌∙◌, subst, List, [], ◌∷◌, ◌++◌, append_assoc,
  append-nil, if◌then◌else◌,
}
use ips.Base.Outcome.{Outcome, ok, err, panic, map_err}
use ips.Ports.System.{
  System, Event, entered, World, Run, resume, ◌>>=◌, ◌>>◌, pure, fail, ask, act, say, log,
  set_current_dir, moved,
}

-- Wherever it returns, the value and the events that it adds satisfy `Post`.
pub record After {E A : Type 0} (m : Run E A) (Post : A → List Event → Type 0) : Type 0 where
  pub at :
      (w last : World) (a : A)
      → m w ≡ (ok a, last)
      → (es : List Event) × (last.events ≡ w.events ++ es) × Post a es

pub err_ok : {E A : Type 0} {e : E} {a : A} → ◌≡◌ {A = Outcome E A} (err e) (ok a) → ⊥
err_ok h = cc

pub panic_ok : {E A : Type 0} {a : A} → ◌≡◌ {A = Outcome E A} panic (ok a) → ⊥
panic_ok h = cc

pub ok_inj : {E A : Type 0} {a b : A} → ◌≡◌ {A = Outcome E A} (ok a) (ok b) → a ≡ b
ok_inj h = cc

pub map_err-eq-ok :
    {E F A : Type 0} (f : E → F) (o : Outcome E A) (a : A) → map_err f o ≡ ok a → o ≡ ok a
map_err-eq-ok f (ok b) a h = cc
map_err-eq-ok f (err e) a h = cc
map_err-eq-ok f panic a h = cc

module _ {E A : Type 0} (Post : A → List Event → Type 0) where
  answered :
      (o : Outcome E A) (w v last : World) (a : A) (es : List Event)
      → v.events ≡ w.events ++ es
      → ((a : A) → Post a es)
      → ◌≡◌ {A = Outcome E A × World} (o, v) (ok a, last)
      → (ds : List Event) × (last.events ≡ w.events ++ ds) × Post a ds
  answered (ok b) w v last a es e h q =
      (es, ap (λ (t : Outcome E A × World). t.1.events) (sym q) ∙ e, h a)
  answered (err x) w v last a es e h q = absurd (err_ok (ap (λ t. t.0) q))
  answered panic w v last a es e h q = absurd (panic_ok (ap (λ t. t.0) q))

  asked :
      {X : Type 0} (wrap : X → E) (o : Outcome X A) (w last : World) (a : A)
      → ((b : A) → o ≡ ok b → Post b [])
      → ◌≡◌ {A = Outcome E A × World} (map_err wrap o, w) (ok a, last)
      → (ds : List Event) × (last.events ≡ w.events ++ ds) × Post a ds
  asked wrap (ok b) w last a h q = (
    [],
    ap (λ (t : Outcome E A × World). t.1.events) (sym q) ∙ sym (append-nil w.events),
    subst (λ b. Post b []) (ok_inj (ap (λ t. t.0) q)) (h b refl),
  )
  asked wrap (err x) w last a h q = absurd (err_ok (ap (λ t. t.0) q))
  asked wrap panic w last a h q = absurd (panic_ok (ap (λ t. t.0) q))

  pub After-ask :
      {X : Type 0} (wrap : X → E) (answer : World → Outcome X A)
      → ((w : World) (a : A) → answer w ≡ ok a → Post a [])
      → After (ask wrap answer) Post
  After-ask wrap answer h = record { at = λ w last a q. asked wrap (answer w) w last a (h w) q }

  pub After-act :
      {X : Type 0} (wrap : X → E) (e : Event) (answer : World → Outcome X A)
      → ((a : A) → Post a (e ∷ []))
      → After (act wrap e answer) Post
  After-act wrap e answer h = record {
    at = λ w last a q. answered (map_err wrap (answer w)) w (log e w) last a (e ∷ []) refl h q;
  }

  pub After-fail : (e : E) → After (fail e) Post
  After-fail e = record { at = λ w last a q. absurd (err_ok (ap (λ t. t.0) q)) }

  pub After-pure : (a : A) → Post a [] → After {E = E} (pure a) Post
  After-pure a h = record {
    at = λ w last b q. (
      [],
      ap (λ (t : Outcome E A × World). t.1.events) (sym q) ∙ sym (append-nil w.events),
      subst (λ b. Post b []) (ok_inj (ap (λ t. t.0) q)) h,
    );
  }

  pub After-if :
      (b : Bool) (m n : Run E A) → After m Post → After n Post → After (if b then m else n) Post
  After-if true m n p q = p
  After-if false m n p q = q

  pub resume-After :
      {B : Type 0} (f : B → Run E A) (w last : World) (t : Outcome E B × World) (a : A)
      → ((mid : World) (b : B)
          → t ≡ (ok b, mid)
          → (es : List Event) × (mid.events ≡ w.events ++ es)
            × After (f b) (λ a ds. Post a (es ++ ds)))
      → resume f t ≡ (ok a, last)
      → (es : List Event) × (last.events ≡ w.events ++ es) × Post a es
  resume-After f w last (ok b, mid) a h q =
      let (es, e, rest) = h mid b refl in
      let (ds, d, post) = rest.at mid last a q in
      (es ++ ds, d ∙ ap (λ t. t ++ ds) e ∙ append_assoc w.events es ds, post)
  resume-After f w last (err x, mid) a h q = absurd (err_ok (ap (λ t. t.0) q))
  resume-After f w last (panic, mid) a h q = absurd (panic_ok (ap (λ t. t.0) q))

  pub After-bind :
      {B : Type 0} (m : Run E B) (f : B → Run E A)
      → After m (λ b es. After (f b) (λ a ds. Post a (es ++ ds)))
      → After (m >>= f) Post
  After-bind m f h = record {
    at = λ w last a q. resume-After f w last (m w) a (λ mid b. h.at w mid b) q;
  }

module _ {E A : Type 0} (Post : A → List Event → Type 0) where
  pub After-then :
      {B : Type 0} (m : Run E B) (n : Run E A)
      → After m (λ b es. After n (λ a ds. Post a (es ++ ds)))
      → After (m >> n) Post
  After-then m n h = After-bind Post m (λ b. n) h

  -- A step that asks, and what follows on its answer.
  pub After-answer :
      {X B : Type 0} (wrap : X → E) (answer : World → Outcome X B) (f : B → Run E A)
      → ((w : World) (b : B) → answer w ≡ ok b → After (f b) Post)
      → After (ask wrap answer >>= f) Post
  After-answer wrap answer f h = After-bind Post (ask wrap answer) f (After-ask _ wrap answer h)

module _ {E : Type 0} (Post : Unit {0} → List Event → Type 0) where
  pub After-say : (e : Event) → Post tt (e ∷ []) → After {E = E} (say e) Post
  After-say e h = record {
    at = λ w last a q. (e ∷ [], ap (λ (t : Outcome E (Unit {0}) × World). t.1.events) (sym q), h);
  }

  moved-After :
      {X : Type 0} (wrap : X → E) (path : String) (w last : World) (o : Outcome X String)
      (a : Unit {0})
      → Post tt (entered path ∷ [])
      → moved wrap path w o ≡ (ok a, last)
      → (es : List Event) × (last.events ≡ w.events ++ es) × Post a es
  moved-After wrap path w last (ok dir) a h q =
      (entered path ∷ [], ap (λ (t : Outcome E (Unit {0}) × World). t.1.events) (sym q), h)
  moved-After wrap path w last (err x) a h q = absurd (err_ok (ap (λ t. t.0) q))
  moved-After wrap path w last panic a h q = absurd (panic_ok (ap (λ t. t.0) q))

  pub After-enter :
      (system : System) (wrap : system.IoError → E) (path : String)
      → Post tt (entered path ∷ [])
      → After (set_current_dir system wrap path) Post
  After-enter system wrap path h = record {
    at = λ w last a q. moved-After wrap path w last (system.enter w path) a h q;
  }
