-- ===== src/Actions/Facet/Laws.antt =====
-- What adding and removing a facet does to the table, and how a facet's name is read.
use Prim.Native.String.{[], ◌∷◌}
use text.Mathlib.TextEquality.{Char-path}
use ips.Base.{
  ◌∙◌, sym, String, true, Option, none, some, ◌≡◌, refl, ap, ◌↔◌, arith, ◌==◌, eq_iff, eq_refl,
  if◌then◌else◌,
}
use ips.Base.Table.{Table, lookup, lookup-insert, lookup-remove}
use ips.Base.Text.{◌<>◌, starts_with, find_char, split_off}
use ips.Actions.Action.{Facet, is_facet, get_facet_key}
use ips.Actions.Facet.{facet_eq, is_removed, add_facet, remove_facet}

pub facet_eq_iff : (f g : Facet) → (facet_eq f g ≡ true) ↔ (f ≡ g)
unfolding facet_eq
facet_eq_iff f g = ground (arith, eq_iff f.name g.name, eq_iff f.value g.value)

-- Adding a facet binds its name to it, leaves every other name, and answers whether the name was free.
pub add_facet_lem :
    (f : Facet) (t : Table Facet)
    → ((n : String) → lookup n (add_facet f t).0 ≡ (if f.name == n then some f else lookup n t))
      × (((add_facet f t).1 ≡ true) ↔ (lookup f.name t ≡ none))
unfolding add_facet
add_facet_lem f t = (λ n. lookup-insert f.name n f t, ground arith)

is_removed_iff : (f : Facet) (o : Option Facet) → (is_removed f o ≡ true) ↔ (o ≡ some f)
is_removed_iff f none = ground arith
is_removed_iff f (some g) = ground (arith, facet_eq_iff g f)

-- Removing a facet frees its name whatever value was there, leaves every other name, and answers
-- whether the facet that was there was this one.
pub remove_facet_lem :
    (f : Facet) (t : Table Facet)
    → ((n : String) → lookup n (remove_facet f t).0 ≡ (if f.name == n then none else lookup n t))
      × (((remove_facet f t).1 ≡ true) ↔ (lookup f.name t ≡ some f))
unfolding remove_facet
remove_facet_lem f t =
    (λ n. lookup-remove f.name n t, ground (arith, is_removed_iff f (lookup f.name t)))

-- A facet that was added where its name was free is found when it is removed again, and each name is
-- then bound as before.
pub remove_facet-add_facet :
    (f : Facet) (t : Table Facet)
    → lookup f.name t ≡ none
    → ((remove_facet f (add_facet f t).0).1 ≡ true)
      × ((n : String) → lookup n (remove_facet f (add_facet f t).0).0 ≡ lookup n t)
remove_facet-add_facet f t h = (
  ((remove_facet_lem f (add_facet f t).0).1).1
      (rw ((add_facet_lem f t).0 f.name) (ground (arith, eq_refl f.name))),
  λ n.
      ground (
        arith,
        (remove_facet_lem f (add_facet f t).0).0 n,
        (add_facet_lem f t).0 n,
        eq_iff f.name n,
      ),
)

pub get_facet_key-facet : (n : String) → get_facet_key ("facet." <> n) ≡ n
unfolding get_facet_key find_char split_off
get_facet_key-facet n = refl

is_facet-facet : (n : String) → is_facet ("facet." <> n) ≡ true
unfolding is_facet starts_with
is_facet-facet n = refl

pub starts_with-rest : (s p : String) → starts_with s p ≡ true → (r : String) × (s ≡ p <> r)
unfolding starts_with
starts_with-rest s [] h = (s, refl)
starts_with-rest [] (c ∷ p) h = cc
starts_with-rest (d ∷ s) (c ∷ p) h = (
  (starts_with-rest s p (ground arith)).0,
  cc (Char-path d c (ground arith), (starts_with-rest s p (ground arith)).1),
)

-- A key names a facet exactly when it is `facet.` and the facet's name.
pub is_facet_iff : (key : String) → (is_facet key ≡ true) ↔ (key ≡ "facet." <> get_facet_key key)
is_facet_iff key = (
  λ h.
      let (r, e) = starts_with-rest key "facet." (unfold is_facet in h) in
      e ∙ ap (λ n. "facet." <> n) (sym (ap get_facet_key e ∙ get_facet_key-facet r)),
  λ h. ap is_facet h ∙ is_facet-facet (get_facet_key key),
)
