-- ===== src/Actions/Facet/Changes.antt =====
-- A table of facets after any sequence of additions and removals.
use ips.Base.{String, Option, none, some, ◌≡◌, refl, List, [], ◌∷◌, ◌==◌, if◌then◌else◌, arith}
use ips.Base.Table.{Table, lookup, insert, remove}
use ips.Actions.Action.{Facet}
use ips.Actions.Facet.{add_facet, remove_facet}
use ips.Actions.Facet.Laws.{add_facet_lem, remove_facet_lem}

pub data Change : Type 0 where
  added : Facet → Change
  removed : Facet → Change

-- One call on the table.
abbrev pub changed : Change → Table Facet → Table Facet
changed (added f) t = (add_facet f t).0
changed (removed f) t = (remove_facet f t).0

unfoldable pub changed_all : List Change → Table Facet → Table Facet
changed_all [] t = t
changed_all (c ∷ cs) t = changed_all cs (changed c t)

-- What the last change of a name leaves there: the facet added, or none.
abbrev pub left_by : String → Change → Option Facet → Option Facet
left_by n (added f) o = if f.name == n then some f else o
left_by n (removed f) o = if f.name == n then none else o

unfoldable pub left_by_all : String → List Change → Option Facet → Option Facet
left_by_all n [] o = o
left_by_all n (c ∷ cs) o = left_by_all n cs (left_by n c o)

-- Each facet is stored under its own name.
abbrev pub IsNamed : Table Facet → Type 0
IsNamed [] = Unit
IsNamed ((k, f) ∷ t) = (f.name ≡ k) × IsNamed t

lookup-changed :
    (n : String) (c : Change) (t : Table Facet) → lookup n (changed c t) ≡ left_by n c (lookup n t)
lookup-changed n (added f) t = (add_facet_lem f t).0 n
lookup-changed n (removed f) t = (remove_facet_lem f t).0 n

-- After any sequence of additions and removals, a name is bound to what its last change left there: to
-- the facet last added under it, unless one of the name was removed since, whatever that one's value.
pub lookup-changed_all :
    (cs : List Change) (t : Table Facet) (n : String)
    → lookup n (changed_all cs t) ≡ left_by_all n cs (lookup n t)
unfolding changed_all left_by_all
lookup-changed_all [] t n = refl
lookup-changed_all (c ∷ cs) t n =
    rw (lookup-changed_all cs (changed c t) n) (rw (lookup-changed n c t) refl)

insert-IsNamed : (f : Facet) (t : Table Facet) → IsNamed t → IsNamed (insert f.name f t)
unfolding insert
insert-IsNamed f [] h = (refl, tt)
insert-IsNamed f ((j, g) ∷ t) h = ground (arith, insert-IsNamed f t h.1)

remove-IsNamed : (k : String) (t : Table Facet) → IsNamed t → IsNamed (remove k t)
unfolding remove
remove-IsNamed k [] h = tt
remove-IsNamed k ((j, g) ∷ t) h = ground (arith, remove-IsNamed k t h.1)

pub changed-IsNamed : (c : Change) (t : Table Facet) → IsNamed t → IsNamed (changed c t)
unfolding add_facet remove_facet
changed-IsNamed (added f) t h = insert-IsNamed f t h
changed-IsNamed (removed f) t h = remove-IsNamed f.name t h
