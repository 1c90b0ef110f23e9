-- ===== src/Actions/Dir/Named.antt =====
-- How a `Dir` keeps its facets, from its action through any later changes.
use ips.Base.{◌≡◌, subst, List, [], ◌∷◌, foldl, arith}
use ips.Base.Outcome.{Outcome, ok, ◌>>=◌}
use ips.Actions.Action.{Property, Action}
use ips.Actions.Action.Split.{properties_with_payload_total}
use ips.Actions.Facet as Facets
use ips.Actions.Facet.Changes.{Change, added, removed, IsNamed, changed-IsNamed}
use ips.Actions.Dir.{Dir, default, add_facet, remove_facet, set_property, from_action}

set_property-IsNamed :
    (dir : Dir) (p : Property) → IsNamed dir.facets → IsNamed (set_property dir p).facets
unfolding set_property add_facet
set_property-IsNamed dir p h =
    ground (arith, changed-IsNamed (added (Facets.from_key_value p.key p.value)) dir.facets h)

foldl-IsNamed :
    (ps : List Property) (dir : Dir)
    → IsNamed dir.facets
    → IsNamed (foldl set_property dir ps).facets
foldl-IsNamed [] dir h = h
foldl-IsNamed (p ∷ ps) dir h = foldl-IsNamed ps (set_property dir p) (set_property-IsNamed dir p h)

-- One call on the directory.
abbrev pub dir_changed : Change → Dir → Dir
dir_changed (added f) d = (add_facet f d).0
dir_changed (removed f) d = (remove_facet f d).0

unfoldable pub dir_changed_all : List Change → Dir → Dir
dir_changed_all [] d = d
dir_changed_all (c ∷ cs) d = dir_changed_all cs (dir_changed c d)

dir_changed-facets : (c : Change) (d : Dir) → IsNamed d.facets → IsNamed (dir_changed c d).facets
unfolding add_facet remove_facet
dir_changed-facets (added f) d h = changed-IsNamed (added f) d.facets h
dir_changed-facets (removed f) d h = changed-IsNamed (removed f) d.facets h

dir_changed_all-IsNamed :
    (cs : List Change) (d : Dir) → IsNamed d.facets → IsNamed (dir_changed_all cs d).facets
unfolding dir_changed_all
dir_changed_all-IsNamed [] d h = h
dir_changed_all-IsNamed (c ∷ cs) d h =
    dir_changed_all-IsNamed cs (dir_changed c d) (dir_changed-facets c d h)

-- The directory of an action keeps each facet under the facet's own name, and still does after any
-- sequence of additions and removals.
pub from_action-IsNamed :
    (act : Action) (dir : Dir) (cs : List Change)
    → from_action act ≡ ok dir
    → IsNamed (dir_changed_all cs dir).facets
unfolding from_action
from_action-IsNamed act dir cs h =
    let (ps, e) = properties_with_payload_total act in
    let q : foldl set_property default ps ≡ dir =
      ok_inj _ dir
        (subst (λ o. (o >>= λ props. ok (foldl set_property default props)) ≡ ok dir) e h) in
    dir_changed_all-IsNamed cs dir
      (subst (λ (d : Dir). IsNamed d.facets) q (foldl-IsNamed ps default tt))
  where
    ok_inj : (a b : Dir) → ◌≡◌ {A = Outcome ⊥ Dir} (ok a) (ok b) → a ≡ b
    ok_inj a b k = cc
