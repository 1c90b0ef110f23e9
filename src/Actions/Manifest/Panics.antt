-- ===== src/Actions/Manifest/Panics.antt =====
-- When reading a manifest panics.
use ips.Base.{Bool, true, false, ◌≡◌, refl, ◌↔◌, ◌⊎◌, inl, inr, List, [], ◌∷◌, arith}
use ips.Base.Outcome.{Outcome, ok, err, panic, ◌>>=◌, >>=-panic_iff, map-panic_iff}
use ips.Actions.Action.{Action, ActionKind, attr, dir, file, dependency, license, link}
use ips.Actions.File
use ips.Actions.Dir.Fields.{dir_from_action}
use ips.Actions.Dependency.Fields.{dep_from_action}
use ips.Actions.Attr.Fields.{attr_from_action}
use ips.Actions.License
use ips.Actions.Link.Fields.{link_from_action}
use ips.Actions.Manifest.{Manifest, add_kind, add_action, add_all}

-- The kinds whose arm in `add_action` is not `todo!()` or `panic!`.
abbrev pub is_supported : ActionKind → Bool
is_supported attr = true
is_supported dir = true
is_supported file = true
is_supported dependency = true
is_supported license = true
is_supported link = true
is_supported _ = false

abbrev pub IsFatalKind : ActionKind → Action → Type 0
IsFatalKind file act = File.from_action act ≡ panic
IsFatalKind k act = is_supported k ≡ false

-- An action of a kind that is not supported, or a file action that does not convert.
abbrev pub IsFatal : Action → Type 0
IsFatal act = IsFatalKind act.kind act

abbrev pub SomeFatal : List Action → Type 0
SomeFatal [] = ⊥
SomeFatal (act ∷ acts) = IsFatal act ⊎ SomeFatal acts

not_panic {ℓ} :
    {A : Type 0} {B : Type ℓ} (o : Outcome ⊥ A) (a : A) (f : A → B)
    → o ≡ ok a
    → (o >>= λ x. ok (f x)) ≡ panic
    → ⊥
not_panic o a f e h = ground (arith, e, h)

add_kind-panic :
    (k : ActionKind) (act : Action) (m : Manifest) → (add_kind k act m ≡ panic) ↔ IsFatalKind k act
unfolding add_kind License.from_action
add_kind-panic attr act m =
    let (ps, a, e, q, r) = attr_from_action act in ((λ h. absurd (not_panic _ a _ q h)), (λ h. cc))
add_kind-panic dir act m =
    let (ps, a, e, q, r) = dir_from_action act in ((λ h. absurd (not_panic _ a _ q h)), (λ h. cc))
add_kind-panic dependency act m =
    let (ps, a, e, q, r) = dep_from_action act in ((λ h. absurd (not_panic _ a _ q h)), (λ h. cc))
add_kind-panic link act m =
    let (ps, a, e, q, r) = link_from_action act in ((λ h. absurd (not_panic _ a _ q h)), (λ h. cc))
add_kind-panic license act m = ((λ h. cc), (λ h. cc))
add_kind-panic file act m = map-panic_iff (File.from_action act) _
add_kind-panic k act m = ((λ h. refl), (λ h. refl))

ok_or_IsFatal :
    (act : Action) (m : Manifest) → ((m' : Manifest) × (add_action act m ≡ ok m')) ⊎ IsFatal act
unfolding add_action
ok_or_IsFatal act m = from (add_kind act.kind act m) refl
  where
    from :
        (o : Outcome ⊥ Manifest)
        → add_kind act.kind act m ≡ o
        → ((m' : Manifest) × (add_kind act.kind act m ≡ ok m')) ⊎ IsFatal act
    from (ok m') e = inl (m', e)
    from (err e) q = absurd e
    from panic e = inr ((add_kind-panic act.kind act m).0 e)

fatal_first :
    (act : Action) (acts : List Action) (m : Manifest)
    → IsFatal act
    → add_all (act ∷ acts) m ≡ panic
unfolding add_all add_action
fatal_first act acts m f =
    (>>=-panic_iff (add_kind act.kind act m) _).1 (inl ((add_kind-panic act.kind act m).1 f))

-- Adding actions to a manifest panics exactly when some action is fatal: when its kind is not
-- supported, or it is a file action that panics in its conversion.
pub add_all-panic : (acts : List Action) (m : Manifest) → (add_all acts m ≡ panic) ↔ SomeFatal acts
unfolding add_all
add_all-panic [] m = ((λ h. cc), (λ h. absurd h))
add_all-panic (act ∷ acts) m = (
  λ h. elim ((>>=-panic_iff (add_action act m) _).0 h) [
    | inl e ↦ inl ((add_kind-panic act.kind act m).0 (unfold add_action in e))
    | inr t ↦ let (m', e, q) = t in inr ((add_all-panic acts m').0 q)
  ],
  elim [
    | inl f ↦ fatal_first act acts m f
    | inr r ↦ elim (ok_or_IsFatal act m) [
      | inl t ↦
          let (m', e) = t in
          (>>=-panic_iff (add_action act m) _).1 (inr (m', e, (add_all-panic acts m').1 r))
      | inr f ↦ fatal_first act acts m f
    ]
  ],
)
