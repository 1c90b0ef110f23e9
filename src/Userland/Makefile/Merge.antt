-- ===== src/Userland/Makefile/Merge.antt =====
-- What `merge` leaves under each key.
use ips.Base.{
  String, ◌≡◌, refl, Option, none, some, [], ◌∷◌, ◌++◌, foldl, arith, ◌==◌, eq_iff, append_assoc,
  ◌∙◌, sym, ap, if◌then◌else◌,
}
use ips.Base.Table.{insert-IsMap, Table, lookup, lookup-insert, IsMap}
use ips.Userland.Makefile.{
  VariableMode, add, set, MakefileVariable, Makefile, appended, merge_variable, merge,
}

-- The variable that two definitions of one key make: the later one where it sets, and the earlier one
-- with the later values behind its own where that adds.
abbrev override_by : Option MakefileVariable → VariableMode → MakefileVariable → MakefileVariable
override_by earlier set var = var
override_by earlier add var = appended earlier var

abbrev pub override : Option MakefileVariable → Option MakefileVariable → Option MakefileVariable
override earlier none = earlier
override earlier (some var) = some (override_by earlier var.mode var)

lookup-merge_variable :
    (t : Table MakefileVariable) (key : String) (var : MakefileVariable) (k : String)
    → lookup k (merge_variable t (key, var))
      ≡ (if key == k then override (lookup k t) (some var) else lookup k t)
unfolding merge_variable
lookup-merge_variable t key var k = ground (
  arith,
  lookup-insert key k (appended (lookup key t) var) t,
  lookup-insert key k var t,
  eq_iff key k,
)

lookup-foldl :
    (vs t : Table MakefileVariable) (k : String)
    → IsMap vs
    → lookup k (foldl merge_variable t vs) ≡ override (lookup k t) (lookup k vs)
unfolding lookup
lookup-foldl [] t k h = refl
lookup-foldl ((key, var) ∷ vs) t k (fresh, h) = ground (
  arith,
  lookup-foldl vs (merge_variable t (key, var)) k h,
  lookup-merge_variable t key var k,
  eq_iff key k,
  λ (e : key ≡ k). ap (λ j. lookup j vs) e,
)

merge_variable-IsMap :
    (t : Table MakefileVariable) (kv : String × MakefileVariable)
    → IsMap t
    → IsMap (merge_variable t kv)
unfolding merge_variable
merge_variable-IsMap t (key, var) h =
    ground (arith, insert-IsMap key (appended (lookup key t) var) t h, insert-IsMap key var t h)

foldl-IsMap : (vs t : Table MakefileVariable) → IsMap t → IsMap (foldl merge_variable t vs)
foldl-IsMap [] t h = h
foldl-IsMap (kv ∷ vs) t h = foldl-IsMap vs (merge_variable t kv) (merge_variable-IsMap t kv h)

-- Merging keeps one variable for each key.
pub merge-IsMap :
    (self other : Makefile) → IsMap self.variables → IsMap (merge self other).variables
unfolding merge
merge-IsMap self other h = foldl-IsMap other.variables self.variables h

-- After `merge` with a makefile whose table holds each key once, each key has the other makefile's
-- variable where that one sets it, the values of both where it adds, and its own where the other has
-- none.
pub lookup-merge :
    (self other : Makefile) (k : String)
    → IsMap other.variables
    → lookup k (merge self other).variables
      ≡ override (lookup k self.variables) (lookup k other.variables)
unfolding merge
lookup-merge self other k h = lookup-foldl other.variables self.variables k h

override-none :
    (x z : Option MakefileVariable) → override (override x none) z ≡ override x (override none z)
override-none x none = refl
override-none x (some w) = ground arith

-- A variable that sets, with one behind it that adds.
abbrev pub SetThenAdd : Option MakefileVariable → Option MakefileVariable → Type 0
SetThenAdd (some v) (some w) = (v.mode ≡ set) × (w.mode ≡ add)
SetThenAdd _ _ = ⊥

override_assoc :
    (x y z : Option MakefileVariable)
    → ¬ SetThenAdd y z
    → override (override x y) z ≡ override x (override y z)
override_assoc x none z h = override-none x z
override_assoc x (some v) none h = refl
override_assoc none (some v) (some w) h = ground arith
override_assoc (some u) (some v) (some w) h =
    ground (arith, append_assoc u.values v.values w.values)

-- Merging three makefiles in a row gives under a key what merging the last two first gives, unless
-- the second sets the key and the third adds to it. The tables of these two hold each key once.
pub merge_regroup :
    (a b c : Makefile) (k : String)
    → IsMap b.variables
    → IsMap c.variables
    → ¬ SetThenAdd (lookup k b.variables) (lookup k c.variables)
    → lookup k (merge (merge a b) c).variables ≡ lookup k (merge a (merge b c)).variables
merge_regroup a b c k hb hc h =
    let x = lookup k a.variables in
    let y = lookup k b.variables in
    let z = lookup k c.variables in
    lookup-merge (merge a b) c k hc
    ∙ ap (λ o. override o z) (lookup-merge a b k hb)
    ∙ override_assoc x y z h
    ∙ sym (
        lookup-merge a (merge b c) k (merge-IsMap b c hb) ∙ ap (override x) (lookup-merge b c k hc))

-- Where the second sets a key that the first has and the third adds to it, merging in a row drops the
-- first values, and merging the last two first keeps them. The tables of the second and the third
-- hold each key once.
pub merge_regroup_differs :
    (a b c : Makefile) (k : String) (u v w : MakefileVariable)
    → IsMap b.variables
    → IsMap c.variables
    → lookup k a.variables ≡ some u
    → lookup k b.variables ≡ some v
    → v.mode ≡ set
    → lookup k c.variables ≡ some w
    → w.mode ≡ add
    → (lookup k (merge (merge a b) c).variables
        ≡ some (record v { values = v.values ++ w.values; mode = add }))
      × (lookup k (merge a (merge b c)).variables
          ≡ some (record u { values = u.values ++ (v.values ++ w.values); mode = add }))
merge_regroup_differs a b c k u v w hb hc ea eb mb ec mc = (
  ground (arith, lookup-merge (merge a b) c k hc, lookup-merge a b k hb),
  ground (arith, lookup-merge a (merge b c) k (merge-IsMap b c hb), lookup-merge b c k hc),
)
