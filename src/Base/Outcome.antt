-- ===== src/Base/Outcome.antt =====
-- How a Rust call ends: it returns `Ok`, it returns `Err`, or it panics.
use mathlib.Core.Path.{◌≡◌, refl}
use mathlib.Core.Logic.{◌↔◌, ◌⊎◌, inl, inr}
use native.Mathlib.Omega.{arith}

pub data Outcome {ℓ κ} (E : Type ℓ) (A : Type κ) : Type (ℓ ⊔ κ) where
  ok : A → Outcome E A
  err : E → Outcome E A
  panic : Outcome E A

infixl 5 ◌>>=◌
-- The operator `?`; a panic unwinds in the same way.
abbrev pub ◌>>=◌ {ℓ κ μ} :
    {E : Type ℓ} {A : Type κ} {B : Type μ} → Outcome E A → (A → Outcome E B) → Outcome E B
ok a >>= f = f a
err e >>= f = err e
panic >>= f = panic

-- `map_err`.
abbrev pub map_err {ℓ κ μ} :
    {E : Type ℓ} {F : Type κ} {A : Type μ} → (E → F) → Outcome E A → Outcome F A
map_err f (ok a) = ok a
map_err f (err e) = err (f e)
map_err f panic = panic

-- `unwrap` on a `Result`: the error becomes a panic.
abbrev pub unwrap {ℓ κ μ} : {E : Type ℓ} {F : Type κ} {A : Type μ} → Outcome E A → Outcome F A
unwrap (ok a) = ok a
unwrap (err e) = panic
unwrap panic = panic

-- `unwrap_or`, which passes a panic on.
abbrev pub ok_or {ℓ κ μ} : {E : Type ℓ} {F : Type κ} {A : Type μ} → A → Outcome E A → Outcome F A
ok_or d (ok a) = ok a
ok_or d (err e) = ok d
ok_or d panic = panic

-- A chain that returns has a first part that returns, and the rest returns what the chain does.
pub >>=-eq-ok {ℓ κ μ} :
    {Failure : Type ℓ} {First : Type κ} {Last : Type μ} (part : Outcome Failure First)
    (rest : First → Outcome Failure Last) {last : Last}
    → ◌>>=◌ part rest ≡ ok last
    → (first : First) × (part ≡ ok first) × (rest first ≡ ok last)
>>=-eq-ok panic rest h = cc
>>=-eq-ok (err e) rest h = cc
>>=-eq-ok (ok first) rest h = (first, refl, h)

>>=-panic_ok {ℓ κ μ} :
    {E : Type ℓ} {A : Type κ} {B : Type μ} (f : A → Outcome E B) {a b : A}
    → ◌≡◌ {A = Outcome E A} (ok a) (ok b)
    → f b ≡ panic
    → f a ≡ panic
>>=-panic_ok f e h = ground (arith, e, h)

-- A chain panics where its first part does, or where the rest does.
pub >>=-panic_iff {ℓ κ μ} :
    {E : Type ℓ} {A : Type κ} {B : Type μ} (m : Outcome E A) (f : A → Outcome E B)
    → ((m >>= f) ≡ panic) ↔ ((m ≡ panic) ⊎ ((a : A) × (m ≡ ok a) × (f a ≡ panic)))
>>=-panic_iff (ok a) f =
    (λ h. inr (a, refl, h), elim [ inl e ↦ cc | inr t ↦ let (b, e, h) = t in >>=-panic_ok f e h ])
>>=-panic_iff (err e) f = (λ h. cc, elim [ inl q ↦ cc | inr t ↦ let (b, q, h) = t in cc ])
>>=-panic_iff panic f = (λ h. inl refl, λ h. refl)

pub map-panic_iff {ℓ κ μ} :
    {E : Type ℓ} {A : Type κ} {B : Type μ} (m : Outcome E A) (f : A → B)
    → ((m >>= λ a. ok (f a)) ≡ panic) ↔ (m ≡ panic)
map-panic_iff (ok a) f = ((λ h. cc), (λ h. cc))
map-panic_iff (err e) f = ((λ h. cc), (λ h. cc))
map-panic_iff panic f = ((λ h. refl), (λ h. refl))

pub >>=-cong {ℓ κ μ} :
    {E : Type ℓ} {A : Type κ} {B : Type μ} (m : Outcome E A) (f g : A → Outcome E B)
    → ((a : A) → f a ≡ g a)
    → (m >>= f) ≡ (m >>= g)
>>=-cong (ok a) f g h = h a
>>=-cong (err e) f g h = refl
>>=-cong panic f g h = refl

pub >>=-ok {ℓ κ} : {E : Type ℓ} {A : Type κ} (m : Outcome E A) → (m >>= λ a. ok a) ≡ m
>>=-ok (ok a) = refl
>>=-ok (err e) = refl
>>=-ok panic = refl
