-- ===== src/Actions/Manifest/Grammar/Shapes.antt =====
-- Whatever an action's text, the pairs that the grammar gives for it are those of a line.
use ips.Base.{String, Bool, true, false, ◌≡◌, refl, Option, none, some, List, [], ◌∷◌, ◌++◌}
use ips.Base.Pest.{Pairs, pair, nil, cons}
use ips.Base.Pest.Grammar.{append, char_if, many, seq, alt, newline, eoi}
use ips.Base.Pest.Grammar.Yields.{
  Yields, Yields-imp, IsNil, lit-Yields, char_if-Yields, eoi-Yields, rule-Yields, alt-Yields,
  not_ahead-Yields, atomic-Yields,
}
use ips.Base.Pest.Grammar.Silent.{newline-IsNil, seq-IsNil, many-IsNil, then_-Yields, repeat-Yields}
use ips.Base.Pest.Grammar.Spells.{lit-Spells, alt-Spells, atomic-Yields_text}
use ips.Actions.Manifest.{Rule}
use ips.Actions.Manifest.Tokens.{RawProperty, property_pairs, payload_pairs, end_pairs, line_pairs}
use ips.Actions.Manifest.Grammar.{
  whitespace, comment, comment_character, action_name, property_name, property_value, payload,
  property, then, repeated, value, is_name_char,
}
use ips.Actions.Manifest.Grammar.Written.{
  Name, set, depend, dir, file, license, hardlink, link, driver, group, user, legacy, name_text,
}

pub whitespace-IsNil : Yields whitespace IsNil
unfolding whitespace
whitespace-IsNil = record {
  yields =
      (alt-Yields (seq-IsNil (lit-Yields "\\") newline-IsNil)
        (alt-Yields (lit-Yields " ") (lit-Yields "\t"))).yields;
}

pub comment-IsNil : Yields comment IsNil
unfolding comment comment_character
comment-IsNil = seq-IsNil (lit-Yields "#") (
    seq-IsNil (many-IsNil (seq-IsNil (not_ahead-Yields newline refl) (char_if-Yields (λ c. true))))
      newline-IsNil)

-- The eleven names.
abbrev pub IsName : String → Type 0
IsName t = (n : Name) × (t ≡ name_text n)

abbrev NamePairs : Pairs Rule → Type 0
NamePairs ps = (n : Name) × (ps ≡ cons (pair Rule.action_name (name_text n) nil) nil)

name-Yields : Yields action_name NamePairs
unfolding action_name
name-Yields =
    atomic-Yields_text {T = IsName} Rule.action_name
      (alt-Spells (lit-Spells "set" (set, refl)) (
        alt-Spells (lit-Spells "depend" (depend, refl)) (
          alt-Spells (lit-Spells "dir" (dir, refl)) (
            alt-Spells (lit-Spells "file" (file, refl)) (
              alt-Spells (lit-Spells "license" (license, refl)) (
                alt-Spells (lit-Spells "hardlink" (hardlink, refl)) (
                  alt-Spells (lit-Spells "link" (link, refl)) (
                    alt-Spells (lit-Spells "driver" (driver, refl)) (
                      alt-Spells (lit-Spells "group" (group, refl)) (
                        alt-Spells (lit-Spells "user" (user, refl))
                          (lit-Spells "legacy" (legacy, refl))))))))))))
      (λ t h. let (n, e) = h in (n, rw e refl))

abbrev PropertyPairs : Pairs Rule → Type 0
PropertyPairs ps = (l : List RawProperty) × (ps ≡ property_pairs l nil)

append-property_pairs :
    (l : List RawProperty) (qs : Pairs Rule)
    → append (property_pairs l nil) qs ≡ property_pairs l qs
append-property_pairs [] qs = refl
append-property_pairs (p ∷ l) qs = cc (append-property_pairs l qs)

property_pairs-append :
    (l k : List RawProperty) (qs : Pairs Rule)
    → append (property_pairs l nil) (property_pairs k qs) ≡ property_pairs (l ++ k) qs
property_pairs-append [] k qs = refl
property_pairs-append (p ∷ l) k qs = cc (property_pairs-append l k qs)

abbrev TokenPairs : Rule → Pairs Rule → Type 0
TokenPairs r ps = (t : String) × (ps ≡ cons (pair r t nil) nil)

abbrev PartPairs : Pairs Rule → Type 0
PartPairs ps =
    (k v : String) × (ps
      ≡ cons (pair Rule.property_name k nil) (cons (pair Rule.property_value v nil) nil))

key-Yields : Yields property_name (TokenPairs Rule.property_name)
unfolding property_name
key-Yields =
    atomic-Yields (seq (char_if is_name_char) (many (char_if is_name_char))) Rule.property_name
      (λ t. (t, refl))

value-Yields : Yields property_value (TokenPairs Rule.property_value)
unfolding property_value
value-Yields = atomic-Yields value Rule.property_value (λ t. (t, refl))

payload-Yields : Yields payload (TokenPairs Rule.payload)
unfolding payload
payload-Yields = atomic-Yields value Rule.payload (λ t. (t, refl))

property-Yields : Yields property PropertyPairs
unfolding property
property-Yields =
    rule-Yields {P = PartPairs} Rule.property
      (then_-Yields whitespace-IsNil comment-IsNil PartPairs key-Yields
        (then_-Yields whitespace-IsNil comment-IsNil (TokenPairs Rule.property_value)
          (lit-Yields "=") value-Yields (λ ps qs e h. rw e h))
        (λ ps qs h i. let (k, e) = h in let (v, q) = i in (k, v, rw (e, q) refl)))
      (λ t ps h. let (k, v, e) = h in (record { text = t; key = k; value = v } ∷ [], rw e refl))

properties-Yields :
    (ps qs : Pairs Rule) → PropertyPairs ps → PropertyPairs qs → PropertyPairs (append ps qs)
properties-Yields ps qs (l, e) (k, q) = (l ++ k, rw (e, q) (property_pairs-append l k nil))

-- The parts of an action.
abbrev EndPairs : Pairs Rule → Type 0
EndPairs ps = (b : Bool) × (ps ≡ end_pairs b)

abbrev ArgumentPairs : Pairs Rule → Type 0
ArgumentPairs ps =
    (o : Option String) × (l : List RawProperty) × (ps ≡ payload_pairs o (property_pairs l nil))

abbrev RestPairs : Pairs Rule → Type 0
RestPairs ps = (l : List RawProperty) × (b : Bool) × (ps ≡ property_pairs l (end_pairs b))

abbrev BehindPairs : Pairs Rule → Type 0
BehindPairs ps =
    (o : Option String) × (l : List RawProperty) × (b : Bool) × (ps
      ≡ payload_pairs o (property_pairs l (end_pairs b)))

payload_pairs-append :
    (o : Option String) (l k : List RawProperty) (qs : Pairs Rule)
    → append (payload_pairs o (property_pairs l nil)) (property_pairs k qs)
      ≡ payload_pairs o (property_pairs (l ++ k) qs)
payload_pairs-append none l k qs = property_pairs-append l k qs
payload_pairs-append (some t) l k qs = cc (property_pairs-append l k qs)

abbrev pub LinePairs : Pairs Rule → Type 0
LinePairs ps =
    (n : Name) × (o : Option String) × (l : List RawProperty) × (b : Bool) × (ps
      ≡ line_pairs (name_text n) o l b)

argument-Yields : Yields (alt property payload) ArgumentPairs
argument-Yields =
    alt-Yields (Yields-imp (λ ps h. let (l, e) = h in (none, l, e)) property-Yields)
      (Yields-imp (λ ps h. let (t, e) = h in (some t, [], e)) payload-Yields)

end-Yields : Yields (alt newline (eoi Rule.eoi)) EndPairs
end-Yields =
    alt-Yields (Yields-imp (λ ps e. (false, e)) newline-IsNil)
      (eoi-Yields EndPairs Rule.eoi (true, refl))

rest-Yields : Yields (then (repeated property) (alt newline (eoi Rule.eoi))) RestPairs
rest-Yields =
    then_-Yields whitespace-IsNil comment-IsNil RestPairs
      (repeat-Yields whitespace-IsNil comment-IsNil PropertyPairs property-Yields ([], refl)
        properties-Yields)
      end-Yields
      (λ ps qs h k.
        let (l, e) = h in
        let (b, q) = k in (l, b, rw (e, q) (append-property_pairs l (end_pairs b))))

behind-Yields :
    Yields
      (then (alt property payload) (then (repeated property) (alt newline (eoi Rule.eoi))))
      BehindPairs
behind-Yields =
    then_-Yields whitespace-IsNil comment-IsNil BehindPairs argument-Yields rest-Yields
      (λ ps qs h k.
        let (o, l, e) = h in
        let (m, b, q) = k in (o, l ++ m, b, rw (e, q) (payload_pairs-append o l m (end_pairs b))))

pub line-Yields :
    Yields
      (then action_name
        (then (alt property payload) (then (repeated property) (alt newline (eoi Rule.eoi)))))
      LinePairs
line-Yields =
    then_-Yields whitespace-IsNil comment-IsNil LinePairs name-Yields behind-Yields
      (λ ps qs h k. let (n, e) = h in let (o, l, b, q) = k in (n, o, l, b, rw (e, q) refl))
