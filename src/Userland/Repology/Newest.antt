-- ===== src/Userland/Repology/Newest.antt =====
-- The version that `find_newest_version` returns.
use mathlib.Core.List.{Memᴰ}
use ips.Base.{
  String, true, false, ◌≡◌, refl, Option, none, some, List, [], ◌∷◌, map, All, arith, ◌⊎◌, inl, inr,
  ◌↔◌, Bool-cases, ◌∙◌, ap,
}
use ips.Base.Outcome.{Outcome, ok, panic, >>=-panic_iff}
use ips.Userland.Repology.{
  Package, Semver, last, insert_sorted, sort, version_of, text_or_panic, find_newest_version,
}

module _ (semver : Semver) where
  open semver use {Version, le}

  -- The order of versions is total.
  pub record IsOrder : Type 0 where
    pub total : (v w : Version) → le v w ≡ false → le w v ≡ true
    pub refl_le : (v : Version) → le v v ≡ true
    pub trans : (u v w : Version) → le u v ≡ true → le v w ≡ true → le u w ≡ true

  last-total : (w : Version) (ws : List Version) → (x : Version) × (last (w ∷ ws) ≡ some x)
  unfolding last
  last-total w ws = from (last ws) refl
    where
      from :
          (o : Option Version)
          → last ws ≡ o
          → (x : Version) × (◌≡◌ {A = Option Version}
              (elim (last ws) [ none ↦ some w | some y ↦ some y ])
              (some x))
      from none q = (w, rw q refl)
      from (some y) q = (y, rw q refl)

  -- What is last after an insertion: the new version, if it is not at most any other, and what was last,
  -- if it is at most one of them.
  last-insert_sorted :
      (v : Version) (ws : List Version)
      → ((last (insert_sorted semver v ws) ≡ some v) × All (λ w. le v w ≡ false) ws)
        ⊎ ((x : Version) × (last ws ≡ some x)
            × (last (insert_sorted semver v ws) ≡ some x)
            × (w : Version) × Memᴰ w ws
            × (le v w ≡ true))
  unfolding last insert_sorted
  last-insert_sorted v [] = inl (refl, tt)
  last-insert_sorted v (w ∷ ws) = elim (Bool-cases (le v w)) [
    | inl e ↦ let (x, l) = last-total w ws in inr (x, l, rw e (rw l refl), w, Memᴰ.head refl, e)
    | inr e ↦ elim (last-insert_sorted v ws) [
      | inl t ↦ inl (rw e (rw (t.0) refl), (e, t.1))
      | inr t ↦
          let (x, l, l', u, m, h) = t in inr (x, rw l refl, rw e (rw l' refl), u, Memᴰ.tail m, h)
    ]
  ]

  -- A version of the list that none of it is above.
  abbrev pub Greatest : Version → List Version → Type 0
  Greatest v vs = Memᴰ v vs × All (λ w. le w v ≡ true) vs

  last-sort :
      (v : Version) (vs : List Version) → (x : Version) × (last (sort semver (v ∷ vs)) ≡ some x)
  unfolding sort
  last-sort v vs = elim (last-insert_sorted v (sort semver vs)) [
    | inl t ↦ (v, t.0)
    | inr t ↦ let (x, l, l', u, m, h) = t in (x, l')
  ]

  text_or_panic-sort :
      {E : Type 0} (pkgs : List Package)
      → text_or_panic semver {E = E} (last (sort semver (map (version_of semver) pkgs))) ≡ panic
      → pkgs ≡ []
  text_or_panic-sort [] h = refl
  text_or_panic-sort (p ∷ ps) h =
      let (x, l) = last-sort (version_of semver p) (map (version_of semver) ps) in
      ground (arith, l, h)

  text_or_panic-empty :
      {E : Type 0}
      → text_or_panic semver {E = E} (last (sort semver (map (version_of semver) []))) ≡ panic
  unfolding sort last
  text_or_panic-empty = refl

  -- The search for the newest version panics exactly when the request does, or when Repology knows no
  -- package of the name.
  pub find_newest_version-panic :
      {E : Type 0} (project : String → Outcome E (List Package)) (name : String)
      → (find_newest_version semver project name ≡ panic)
        ↔ ((project name ≡ panic) ⊎ (project name ≡ ok []))
  unfolding find_newest_version
  find_newest_version-panic {E} project name = (
    λ h. elim ((>>=-panic_iff (project name) _).0 h) [
      | inl e ↦ inl e
      | inr t ↦ let (pkgs, e, q) = t in inr (e ∙ ap ok (text_or_panic-sort {E = E} pkgs q))
    ],
    elim [
      | inl e ↦ (>>=-panic_iff (project name) _).1 (inl e)
      | inr e ↦ (>>=-panic_iff (project name) _).1 (inr ([], e, text_or_panic-empty {E = E}))
    ],
  )
