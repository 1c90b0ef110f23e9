-- ===== src/Actions/Manifest/Grammar/Total.antt =====
-- Whatever the text, the walk takes all the pairs that the grammar gives for it.
use ips.Base.{String, ◌≡◌, refl, ◌↔◌, ◌⊎◌, inl, inr, Option-cases, List, [], ◌∷◌, ◌++◌}
use ips.Base.Outcome.{Outcome, ok, err, panic}
use ips.Base.Pest.{Pairs, pair, nil, cons}
use ips.Base.Pest.Grammar.{append, eoi}
use ips.Base.Pest.Grammar.Yields.{
  Yields, Yields-imp, IsNil, eoi-Yields, rule-Yields, rule-Yields_any, alt-Yields,
}
use ips.Base.Pest.Grammar.Silent.{newline-IsNil, then_-Yields, repeat-Yields}
use ips.Actions.Manifest.{Rule, new, no_error, parse_string, add_all}
use ips.Actions.Manifest.Panics.{SomeFatal, add_all-panic}
use ips.Actions.Manifest.Tokens.{Item, line, line_pairs, item_pairs, actions, parse_string-items}
use ips.Actions.Manifest.Grammar.{transform, action, item, manifest, parse_with, then, repeated}
use ips.Actions.Manifest.Grammar.Written.{name_text}
use ips.Actions.Manifest.Grammar.Shapes.{IsName, whitespace-IsNil, comment-IsNil, line-Yields}
use ips.Base.Pest.Grammar.{soi}

-- Items in a row.
abbrev items_onto : List Item → Pairs Rule → Pairs Rule
items_onto [] qs = qs
items_onto (line l ∷ is) qs =
    cons (pair Rule.action l.text (line_pairs l.name l.payload l.props l.at_eoi)) (items_onto is qs)
items_onto (Item.transform t ps ∷ is) qs = cons (pair Rule.transform t ps) (items_onto is qs)

-- Each line has one of the names.
abbrev pub AllNamed : List Item → Type 0
AllNamed [] = Unit
AllNamed (line l ∷ is) = IsName l.name × AllNamed is
AllNamed (Item.transform t ps ∷ is) = AllNamed is

abbrev ItemsPairs : Pairs Rule → Type 0
ItemsPairs ps = (is : List Item) × AllNamed is × (ps ≡ items_onto is nil)

action-Yields : Yields action ItemsPairs
unfolding action
action-Yields = rule-Yields Rule.action line-Yields (λ t ps h.
    let (n, o, l, b, e) = h in
    (
      line (record { text = t; name = name_text n; payload = o; props = l; at_eoi = b }) ∷ [],
      ((n, refl), tt),
      rw e refl,
    ))

item-Yields : Yields item ItemsPairs
unfolding item transform
item-Yields = alt-Yields (Yields-imp (λ ps e. ([], tt, e)) newline-IsNil) (
    alt-Yields (rule-Yields_any _ Rule.transform (λ t ps. (Item.transform t ps ∷ [], tt, refl)))
      action-Yields)

items_onto-append :
    (is js : List Item) (qs : Pairs Rule)
    → append (items_onto is nil) (items_onto js qs) ≡ items_onto (is ++ js) qs
items_onto-append [] js qs = refl
items_onto-append (line l ∷ is) js qs = cc (items_onto-append is js qs)
items_onto-append (Item.transform t ps ∷ is) js qs = cc (items_onto-append is js qs)

items_onto-item_pairs :
    (is : List Item) → append (items_onto is nil) (cons (pair Rule.eoi "" nil) nil) ≡ item_pairs is
items_onto-item_pairs [] = refl
items_onto-item_pairs (line l ∷ is) = cc (items_onto-item_pairs is)
items_onto-item_pairs (Item.transform t ps ∷ is) = cc (items_onto-item_pairs is)

AllNamed-append : (is js : List Item) → AllNamed is → AllNamed js → AllNamed (is ++ js)
AllNamed-append [] js h k = k
AllNamed-append (line l ∷ is) js (n, h) k = (n, AllNamed-append is js h k)
AllNamed-append (Item.transform t ps ∷ is) js h k = AllNamed-append is js h k

items-Yields : (ps qs : Pairs Rule) → ItemsPairs ps → ItemsPairs qs → ItemsPairs (append ps qs)
items-Yields ps qs (is, h, e) (js, k, q) =
    (is ++ js, AllNamed-append is js h k, rw (e, q) (items_onto-append is js nil))

-- All that stands in a manifest.
abbrev AllPairs : Pairs Rule → Type 0
AllPairs ps = (is : List Item) × AllNamed is × (ps ≡ item_pairs is)

abbrev ManifestPairs : Pairs Rule → Type 0
ManifestPairs ps =
    (t : String) × (is : List Item) × AllNamed is
    × (ps ≡ cons (pair Rule.manifest t (item_pairs is)) nil)

items_onto-behind :
    (is js : List Item) → append (items_onto is nil) (item_pairs js) ≡ item_pairs (is ++ js)
items_onto-behind [] js = refl
items_onto-behind (line l ∷ is) js = cc (items_onto-behind is js)
items_onto-behind (Item.transform t ps ∷ is) js = cc (items_onto-behind is js)

behind-Yields : Yields (then (repeated item) (eoi Rule.eoi)) AllPairs
behind-Yields =
    then_-Yields whitespace-IsNil comment-IsNil AllPairs
      (repeat-Yields whitespace-IsNil comment-IsNil ItemsPairs item-Yields ([], tt, refl)
        items-Yields)
      (eoi-Yields (λ ps. ps ≡ cons (pair Rule.eoi "" nil) nil) Rule.eoi refl)
      (λ ps qs h q. let (is, n, e) = h in (is, n, rw (e, q) (items_onto-item_pairs is)))

items_all-Yields : Yields (then item (then (repeated item) (eoi Rule.eoi))) AllPairs
items_all-Yields =
    then_-Yields whitespace-IsNil comment-IsNil AllPairs item-Yields behind-Yields (λ ps qs h k.
      let (is, n, e) = h in
      let (js, m, q) = k in
      (is ++ js, AllNamed-append is js n m, rw (e, q) (items_onto-behind is js)))

soi-IsNil : Yields {R = Rule} soi IsNil
soi-IsNil = record { yields = λ s. refl }

manifest-Yields : Yields manifest ManifestPairs
unfolding manifest
manifest-Yields =
    rule-Yields Rule.manifest
      (then_-Yields whitespace-IsNil comment-IsNil AllPairs soi-IsNil items_all-Yields
        (λ ps qs e h. rw e h))
      (λ t ps h. let (is, n, e) = h in (t, is, n, rw e refl))

-- Reading a text panics exactly where adding the actions does.
no_error-panic_iff :
    {E A P : Type 0} (o : Outcome ⊥ A) → ((o ≡ panic) ↔ P) → (no_error {E = E} o ≡ panic) ↔ P
no_error-panic_iff (ok a) h = ((λ e. cc), (λ p. let q = h.1 p in cc))
no_error-panic_iff (err e) h = absurd e
no_error-panic_iff panic h = ((λ e. h.0 refl), (λ p. refl))

module _ {E : Type 0} (no_match : String → E) where
  -- On every text, either the parser finds no match, and `parse_string` returns that error, or the
  -- parser gives the pairs of some lines and transforms, each line with one of the names of the
  -- grammar. Then the result is that of adding the actions which just these lines state, in order,
  -- and reading the text panics exactly when one of those actions is fatal: of a kind that is not
  -- supported, or a file action that panics in its conversion.
  pub parse_string-total :
      (content : String)
      → ((parse_with no_match content ≡ err (no_match content))
          × (parse_string (parse_with no_match) content ≡ err (no_match content)))
        ⊎ ((text : String) × (is : List Item) × AllNamed is
            × (parse_with no_match content
                ≡ ok (cons (pair Rule.manifest text (item_pairs is)) nil))
            × (parse_string (parse_with no_match) content ≡ no_error (add_all (actions is) new))
            × ((parse_string (parse_with no_match) content ≡ panic) ↔ SomeFatal (actions is)))
  unfolding parse_with parse_string
  parse_string-total content = elim (Option-cases (manifest content)) [
    | inl e ↦ inl (rw (parse_with, e) refl, rw (parse_with, e) refl)
    | inr (m, e) ↦
        let (t, is, n, q) = rw e at (manifest-Yields.yields content) in
        let p : parse_with no_match content ≡ ok (cons (pair Rule.manifest t (item_pairs is)) nil) =
          rw (parse_with, e, q) refl in
        let r = parse_string-items (parse_with no_match) content t is p in
        inr (t, is, n, p, r, rw r (no_error-panic_iff _ (add_all-panic (actions is) new)))
  ]
