-- ===== src/Actions/Manifest/Order.antt =====
-- A manifest holds the conversions of the actions of each kind, in the order of the actions.
use ips.Base.{
  Bool, true, false, ◌≡◌, refl, List, [], ◌∷◌, ◌++◌, keep, arith, append_assoc, append-nil, sym,
  ◌∙◌, ap, if◌then◌else◌,
}
use ips.Base.Outcome.{Outcome, ok, ◌>>=◌, >>=-eq-ok}
use ips.Actions.Action.{Action, ActionKind, attr, dir, file, dependency, license, link}
use ips.Actions.Dir
use ips.Actions.File
use ips.Actions.Dependency
use ips.Actions.Attr
use ips.Actions.License
use ips.Actions.Link
use ips.Actions.Manifest.{Manifest, add_kind, add_action, add_all}

-- Which list a kind belongs to.
abbrev pub is_attr : ActionKind → Bool
is_attr attr = true
is_attr _ = false

abbrev pub is_dir : ActionKind → Bool
is_dir dir = true
is_dir _ = false

abbrev pub is_file : ActionKind → Bool
is_file file = true
is_file _ = false

abbrev pub is_dependency : ActionKind → Bool
is_dependency dependency = true
is_dependency _ = false

abbrev pub is_license : ActionKind → Bool
is_license license = true
is_license _ = false

abbrev pub is_link : ActionKind → Bool
is_link link = true
is_link _ = false

-- All of some actions converted.
unfoldable pub convert_all {ℓ} :
    {A : Type ℓ} → (Action → Outcome ⊥ A) → List Action → Outcome ⊥ (List A)
convert_all convert [] = ok []
convert_all convert (act ∷ acts) = do x ← convert act; xs ← convert_all convert acts; ok (x ∷ xs)

-- What adding one action does to a list of the manifest.
abbrev Added : {A : Type 0} → (Action → Outcome ⊥ A) → Bool → Action → List A → List A → Type 0
Added convert false act before after = after ≡ before
Added {A} convert true act before after =
    (x : A) × (convert act ≡ ok x) × (after ≡ before ++ x ∷ [])

add_kind-Added_attributes :
    (k : ActionKind) (act : Action) (m m' : Manifest)
    → add_kind k act m ≡ ok m'
    → Added Attr.from_action (is_attr k) act m.attributes m'.attributes
unfolding add_kind
add_kind-Added_attributes attr act m m' h =
    let (x, e, q) = >>=-eq-ok (Attr.from_action act) _ h in (x, e, ground (arith, q))
add_kind-Added_attributes k act m m' h = ground (arith, h)

add_kind-Added_directories :
    (k : ActionKind) (act : Action) (m m' : Manifest)
    → add_kind k act m ≡ ok m'
    → Added Dir.from_action (is_dir k) act m.directories m'.directories
unfolding add_kind
add_kind-Added_directories dir act m m' h =
    let (x, e, q) = >>=-eq-ok (Dir.from_action act) _ h in (x, e, ground (arith, q))
add_kind-Added_directories k act m m' h = ground (arith, h)

add_kind-Added_files :
    (k : ActionKind) (act : Action) (m m' : Manifest)
    → add_kind k act m ≡ ok m'
    → Added File.from_action (is_file k) act m.files m'.files
unfolding add_kind
add_kind-Added_files file act m m' h =
    let (x, e, q) = >>=-eq-ok (File.from_action act) _ h in (x, e, ground (arith, q))
add_kind-Added_files k act m m' h = ground (arith, h)

add_kind-Added_dependencies :
    (k : ActionKind) (act : Action) (m m' : Manifest)
    → add_kind k act m ≡ ok m'
    → Added Dependency.from_action (is_dependency k) act m.dependencies m'.dependencies
unfolding add_kind
add_kind-Added_dependencies dependency act m m' h =
    let (x, e, q) = >>=-eq-ok (Dependency.from_action act) _ h in (x, e, ground (arith, q))
add_kind-Added_dependencies k act m m' h = ground (arith, h)

add_kind-Added_licenses :
    (k : ActionKind) (act : Action) (m m' : Manifest)
    → add_kind k act m ≡ ok m'
    → Added License.from_action (is_license k) act m.licenses m'.licenses
unfolding add_kind
add_kind-Added_licenses license act m m' h =
    let (x, e, q) = >>=-eq-ok (License.from_action act) _ h in (x, e, ground (arith, q))
add_kind-Added_licenses k act m m' h = ground (arith, h)

add_kind-Added_links :
    (k : ActionKind) (act : Action) (m m' : Manifest)
    → add_kind k act m ≡ ok m'
    → Added Link.from_action (is_link k) act m.links m'.links
unfolding add_kind
add_kind-Added_links link act m m' h =
    let (x, e, q) = >>=-eq-ok (Link.from_action act) _ h in (x, e, ground (arith, q))
add_kind-Added_links k act m m' h = ground (arith, h)

ok_inj : (m m' : Manifest) → ◌≡◌ {A = Outcome ⊥ Manifest} (ok m) (ok m') → m ≡ m'
ok_inj m m' h = cc

-- One list of the manifest, with its kind, its conversion and its place.
module _ {A : Type 0} (test : ActionKind → Bool) (convert : Action → Outcome ⊥ A)
    (field : Manifest → List A)
    (added : (k : ActionKind) (act : Action) (m m' : Manifest)
      → add_kind k act m ≡ ok m'
      → Added convert (test k) act (field m) (field m')) where
  grown_step :
      (b : Bool) (act : Action) (acts : List Action) (l l' l'' : List A)
      → Added convert b act l l'
      → ((xs : List A) × (convert_all convert (keep (λ a. test a.kind) acts) ≡ ok xs)
          × (l'' ≡ l' ++ xs))
      → (xs : List A) × (convert_all convert
            (if b then act ∷ keep (λ a. test a.kind) acts else keep (λ a. test a.kind) acts)
          ≡ ok xs)
        × (l'' ≡ l ++ xs)
  unfolding convert_all
  grown_step false act acts l l' l'' e (xs, c, q) = (xs, c, rw (q, e))
  grown_step true act acts l l' l'' (x, e, q) (xs, c, r) =
      (x ∷ xs, rw (e, c), r ∙ ap (λ t. t ++ xs) q ∙ append_assoc l (x ∷ []) xs)

  add_all-Grown :
      (acts : List Action) (m m' : Manifest)
      → add_all acts m ≡ ok m'
      → (xs : List A) × (convert_all convert (keep (λ a. test a.kind) acts) ≡ ok xs)
        × (field m' ≡ field m ++ xs)
  unfolding add_all add_action convert_all
  add_all-Grown [] m m' h = ([], refl, sym (ap field (ok_inj m m' h)) ∙ sym (append-nil (field m)))
  add_all-Grown (act ∷ acts) m m'' h =
      let (m', e, h') = >>=-eq-ok (add_action act m) _ h in
      grown_step (test act.kind) act acts (field m) (field m') (field m'')
        (added act.kind act m m' e) (add_all-Grown acts m' m'' h')

-- The list `after` is `before` and the conversions of the actions with the test, in order.
abbrev pub Grown :
    {A : Type 0}
    → (ActionKind → Bool)
    → (Action → Outcome ⊥ A)
    → List Action
    → List A
    → List A
    → Type 0
Grown {A} test convert acts before after =
    (xs : List A) × (convert_all convert (keep (λ a. test a.kind) acts) ≡ ok xs)
    × (after ≡ before ++ xs)

-- When actions are added to a manifest and none panics, each of its six lists grows by the
-- conversions of the actions of its kind, in the order of the actions.
pub add_all_order :
    (acts : List Action) (m m' : Manifest)
    → add_all acts m ≡ ok m'
    → Grown is_attr Attr.from_action acts m.attributes m'.attributes
      × Grown is_dir Dir.from_action acts m.directories m'.directories
      × Grown is_file File.from_action acts m.files m'.files
      × Grown is_dependency Dependency.from_action acts m.dependencies m'.dependencies
      × Grown is_license License.from_action acts m.licenses m'.licenses
      × Grown is_link Link.from_action acts m.links m'.links
add_all_order acts m m' h = (
  add_all-Grown is_attr Attr.from_action (λ m. m.attributes) add_kind-Added_attributes acts m m' h,
  add_all-Grown is_dir Dir.from_action (λ m. m.directories) add_kind-Added_directories acts m m' h,
  add_all-Grown is_file File.from_action (λ m. m.files) add_kind-Added_files acts m m' h,
  add_all-Grown is_dependency Dependency.from_action (λ m. m.dependencies)
      add_kind-Added_dependencies acts m m' h,
  add_all-Grown is_license License.from_action (λ m. m.licenses) add_kind-Added_licenses acts m m'
      h,
  add_all-Grown is_link Link.from_action (λ m. m.links) add_kind-Added_links acts m m' h,
)
