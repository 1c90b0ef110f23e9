-- ===== src/Tests/Grammars.antt =====
-- The grammar of manifests on concrete texts.
use ips.Base.{String, ◌≡◌, refl, ◌↔◌, ◌⊎◌, none, some, List, [], ◌∷◌}
use ips.Base.Text.{strip_quotes}
use ips.Base.Table.{insert}
use ips.Base.Outcome.{ok, err, panic}
use ips.Base.Pest.{pair, nil, cons}
use ips.Base.Pest.Grammar.{eoi}
use ips.Actions.Manifest.{no_error, parse_string, add_all}
use ips.Actions.Action.{get_action_kind, properties_with_payload}
use ips.Actions.Dir
use ips.Actions.Dir.{Dir}
use ips.Actions.Attr
use ips.Actions.Manifest as Manifests
use ips.Actions.Manifest.Tokens.{Item, item_pairs, actions}
use ips.Actions.Manifest.Panics.{SomeFatal}
use ips.Actions.Manifest.Grammar.Total.{AllNamed, parse_string-total}
use ips.Actions.Manifest.Grammar.{parse_with, comment}
use ips.Actions.Manifest.Grammar.Written.{
  space, tab, continued, Gap, Name, Value, quoted, bare, WrittenProperty, WrittenAction,
  WrittenTransform, lf, end_of_input, empty, action, transform, WrittenManifest, print,
}
use ips.Actions.Manifest.Grammar.Valid.{valid}
use ips.Actions.Manifest.Grammar.RoundTrip.{written_items, parse_string-print}

abbrev no_gap : Gap
no_gap = record { blanks = []; comments = [] }

abbrev property_of : String → Value → WrittenProperty
property_of key value = record {
  space = space;
  gap = no_gap;
  key = key;
  before = no_gap;
  behind = no_gap;
  value = value;
}

abbrev set_name : WrittenAction
set_name = record {
  name = Name.set;
  payload = none;
  props =
      property_of "name" (bare "pkg.summary")
      ∷ record (property_of "value" (quoted "A small tool")) {
        space = continued;
        gap = record { blanks = tab ∷ []; comments = [] };
      }
      ∷ [];
  blanks = [];
  ending = lf;
}

abbrev a_file : WrittenAction
a_file = record {
  name = Name.file;
  payload = some (record { space = space; gap = no_gap; value = bare "usr/bin/g++" });
  props = property_of "path" (bare "usr/bin/g++") ∷ [];
  blanks = space ∷ [];
  ending = end_of_input;
}

abbrev a_transform : WrittenTransform
a_transform = record {
  gap = no_gap;
  name = Name.file;
  props = property_of "path" (bare "usr/.+") ∷ [];
  space = space;
  before = no_gap;
  behind = record { blanks = space ∷ []; comments = [] };
  text = "default mode 0555";
}

abbrev written : WrittenManifest
written = record {
  first = record {
    gap = record { blanks = []; comments = record { text = " a comment"; blanks = [] } ∷ [] };
    body = action set_name;
  };
  lines =
      record { gap = no_gap; body = empty }
      ∷ record { gap = no_gap; body = transform a_transform }
      ∷ record { gap = no_gap; body = empty }
      ∷ record { gap = no_gap; body = action a_file }
      ∷ [];
  gap = no_gap;
}

written_text :
    print written
    ≡ "# a comment\nset name=pkg.summary\\\n\tvalue=\"A small tool\"\n\n<transform file path=usr/.+ -> default mode 0555>\nfile usr/bin/g++ path=usr/bin/g++ "
unfolding print
written_text = refl

parse_string-print_example :
    parse_string (parse_with {E = String} (λ content. content)) (print written)
    ≡ no_error (add_all (actions (written_items written)) Manifests.new)
unfolding valid
parse_string-print_example = parse_string-print (λ content. content) written refl

abbrev bad_text : String
bad_text = "dir path=usr\nuser username=root"

parse_string-total_example :
    ((parse_with {E = String} (λ content. content) bad_text ≡ err bad_text)
      × (parse_string (parse_with {E = String} (λ content. content)) bad_text ≡ err bad_text))
    ⊎ ((text : String) × (is : List Item) × AllNamed is
        × (parse_with {E = String} (λ content. content) bad_text
            ≡ ok (cons (pair Manifests.Rule.manifest text (item_pairs is)) nil))
        × (parse_string (parse_with {E = String} (λ content. content)) bad_text
            ≡ no_error (add_all (actions is) Manifests.new))
        × ((parse_string (parse_with {E = String} (λ content. content)) bad_text ≡ panic)
            ↔ SomeFatal (actions is)))
parse_string-total_example = parse_string-total (λ content. content) bad_text

-- A comment at the end of a line takes the newline that the action needs, so the next line is read
-- as a part of the action, and the text is refused.
comment_at_end :
    parse_with {E = String} (λ content. "refused") "dir path=usr # x\ndir path=opt\n"
    ≡ err "refused"
unfolding parse_with comment eoi
comment_at_end = refl

-- A quote ends a value also where a backslash stands before it.
escaped_quote :
    parse_with {E = String} (λ content. "refused") "set name=a value=\"b \\\" c\"\n" ≡ err "refused"
unfolding parse_with comment eoi
escaped_quote = refl

hash_value : parse_with {E = String} (λ content. "refused") "set name=a value=#b\n" ≡ err "refused"
unfolding parse_with comment eoi
hash_value = refl

-- The text and the result of `parse_direcory_actions` in libips/src/lib.rs.
abbrev nginx_text : String
nginx_text =
    "dir group=bin mode=0755 owner=root path=etc/nginx\ndir group=bin mode=0755 owner=root path=usr/share/nginx\ndir group=bin mode=0755 owner=root path=usr/share/nginx/html\ndir group=bin mode=0755 owner=webservd path=var/nginx/logs\ndir group=bin mode=0755 owner=root path=\"var/nginx\""

abbrev dir_of : String → String → Dir
dir_of owner path = record Dir.default { group = "bin"; mode = "0755"; owner = owner; path = path }

parse_string-nginx :
    parse_string (parse_with {E = String} (λ content. content)) nginx_text
    ≡ ok (record Manifests.new {
      directories =
          dir_of "root" "etc/nginx"
          ∷ dir_of "root" "usr/share/nginx"
          ∷ dir_of "root" "usr/share/nginx/html"
          ∷ dir_of "webservd" "var/nginx/logs"
          ∷ dir_of "root" "var/nginx"
          ∷ [];
    })
unfolding parse_string parse_with comment eoi Manifests.read_pairs Manifests.read_manifest
    Manifests.read_action Manifests.read_property Manifests.add_action get_action_kind strip_quotes
    Dir.from_action Dir.set_property properties_with_payload
parse_string-nginx = refl

-- One of the lines of `parse_attributes` there.
parse_string-variant :
    parse_string
      (parse_with {E = String} (λ content. content))
      "set name=variant.arch value=i386 optional=testing optionalWithString=\"test ing\""
    ≡ ok (record Manifests.new {
      attributes =
          record {
            key = "variant.arch";
            values = "i386" ∷ [];
            properties =
                ("optional", record { key = "optional"; value = "testing" })
                ∷ ("optionalWithString", record { key = "optionalWithString"; value = "test ing" })
                ∷ [];
          }
          ∷ [];
    })
unfolding parse_string parse_with comment eoi Manifests.read_pairs Manifests.read_manifest
    Manifests.read_action Manifests.read_property Manifests.add_action get_action_kind strip_quotes
    Attr.from_action Attr.set_property properties_with_payload insert
parse_string-variant = refl
