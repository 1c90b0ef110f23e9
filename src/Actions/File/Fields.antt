-- ===== src/Actions/File/Fields.antt =====
-- What `File::from` puts into each field of a `File`.
mod Setters
use ips.Base.{
  ℕ, String, Bool, true, false, ◌≡◌, ◌≢◌, refl, Option, none, some, List, [], ◌∷◌, ◌++◌, foldl,
  arith, ◌==◌, eq_iff, ap, sym, subst, ◌∙◌, Bool-cases, inl, inr, if◌then◌else◌,
}
use ips.Base.Outcome.{Outcome, ok, >>=-eq-ok, ◌>>=◌}
use ips.Base.Table.{lookup, lookup-empty}
use ips.Base.Text.{is_empty_str, contains_char, strip_quotes}
use ips.Digest.{Digest, from_str}
use ips.Payload.{Payload}
use ips.Actions.Action.{Property, Facet, Action, string_to_bool, or_false}
use ips.Actions.Action.Split.{split_property_total}
use ips.Actions.Action.Values.{
  last_value, value_of, read_or, rest_of, foldl-last_value, foldl-read_or, foldl-rest_of,
}
use ips.Actions.Facet.Values.{facet_of, facet_key, foldl-last_facet}
use ips.Actions.File.{
  File, Building, default, push_property, set_file, set_properties, start, finish, from_action,
  get_original_path,
}
use ips.Actions.File.Digests.{digest_values, parse_digests, push_digests, set_properties_lem}
use Setters.*

-- A Boolean field: the last value of its key, false where that is no Boolean.
abbrev pub flag_of : String → List Property → Bool
flag_of k ps = read_or (λ v. or_false (string_to_bool v)) (last_value k ps) false

-- The file before the loop, which has properties only.
abbrev begun : List Property → File
begun q = record default { properties = q }

-- The payload of the file, absent where the primary hash is empty.
abbrev pub payload_of : Payload → Option Payload
payload_of p = if is_empty_str p.primary_identifier.hash then none else some p

-- The file that the variables before the loop and the parsed digests describe.
pub record IsRead (b : Building) (ds : List Digest) (f : File) : Type 0 where
  pub payload : f.payload ≡ payload_of (push_digests b.payload ds)
  pub path : f.path ≡ value_of "path" b.props
  pub owner : f.owner ≡ value_of "owner" b.props
  pub group : f.group ≡ value_of "group" b.props
  pub mode : f.mode ≡ value_of "mode" b.props
  pub revert_tag : f.revert_tag ≡ value_of "revert-tag" b.props
  pub original_name : f.original_name ≡ value_of "original_name" b.props
  pub sys_attr : f.sys_attr ≡ value_of "sysattr" b.props
  pub overlay : f.overlay ≡ flag_of "overlay" b.props
  pub preserve : f.preserve ≡ flag_of "preserve" b.props
  pub properties : f.properties ≡ b.file.properties ++ rest_of is_named b.props
  pub facet : (n : String) → lookup n f.facets ≡ facet_of n (last_value (facet_key n) b.props)

start-begun : (act : Action) (b : Building) → start act ≡ ok b → b.file ≡ begun b.file.properties
unfolding start
start-begun act b h = ground (arith, split_property_total act.payload_string)

-- What `finish` leaves alone.
module _ (file : File) (p : Payload) where
  path-finish : (finish file p).path ≡ file.path
  unfolding finish
  path-finish = ground arith

  owner-finish : (finish file p).owner ≡ file.owner
  unfolding finish
  owner-finish = ground arith

  group-finish : (finish file p).group ≡ file.group
  unfolding finish
  group-finish = ground arith

  mode-finish : (finish file p).mode ≡ file.mode
  unfolding finish
  mode-finish = ground arith

  revert_tag-finish : (finish file p).revert_tag ≡ file.revert_tag
  unfolding finish
  revert_tag-finish = ground arith

  original_name-finish : (finish file p).original_name ≡ file.original_name
  unfolding finish
  original_name-finish = ground arith

  sys_attr-finish : (finish file p).sys_attr ≡ file.sys_attr
  unfolding finish
  sys_attr-finish = ground arith

  overlay-finish : (finish file p).overlay ≡ file.overlay
  unfolding finish
  overlay-finish = ground arith

  preserve-finish : (finish file p).preserve ≡ file.preserve
  unfolding finish
  preserve-finish = ground arith

  properties-finish : (finish file p).properties ≡ file.properties
  unfolding finish
  properties-finish = ground arith

  facets-finish : (finish file p).facets ≡ file.facets
  unfolding finish
  facets-finish = ground arith

  payload-finish : (finish file p).payload ≡ payload_of p
  unfolding finish
  payload-finish = ground arith

-- A file from the loop, once the start and the digests have gone well.
module _ (q ps : List Property) (p : Payload) (ds : List Digest) where
  finish-IsRead :
      IsRead
        (record { file = begun q; payload = p; props = ps })
        ds
        (finish (foldl set_file (begun q) ps) (push_digests p ds))
  finish-IsRead = record {
    payload = payload-finish (foldl set_file (begun q) ps) (push_digests p ds);
    path =
        path-finish (foldl set_file (begun q) ps) (push_digests p ds)
        ∙ foldl-last_value set_file (λ f. f.path) "path" sets_path ps (begun q);
    owner =
        owner-finish (foldl set_file (begun q) ps) (push_digests p ds)
        ∙ foldl-last_value set_file (λ f. f.owner) "owner" sets_owner ps (begun q);
    group =
        group-finish (foldl set_file (begun q) ps) (push_digests p ds)
        ∙ foldl-last_value set_file (λ f. f.group) "group" sets_group ps (begun q);
    mode =
        mode-finish (foldl set_file (begun q) ps) (push_digests p ds)
        ∙ foldl-last_value set_file (λ f. f.mode) "mode" sets_mode ps (begun q);
    revert_tag =
        revert_tag-finish (foldl set_file (begun q) ps) (push_digests p ds)
        ∙ foldl-last_value set_file (λ f. f.revert_tag) "revert-tag" sets_revert_tag ps (begun q);
    original_name =
        original_name-finish (foldl set_file (begun q) ps) (push_digests p ds)
        ∙ foldl-last_value set_file (λ f. f.original_name) "original_name" sets_original_name ps
            (begun q);
    sys_attr =
        sys_attr-finish (foldl set_file (begun q) ps) (push_digests p ds)
        ∙ foldl-last_value set_file (λ f. f.sys_attr) "sysattr" sets_sys_attr ps (begun q);
    overlay =
        overlay-finish (foldl set_file (begun q) ps) (push_digests p ds)
        ∙ foldl-read_or set_file (λ f. f.overlay) (λ v. or_false (string_to_bool v)) "overlay"
            sets_overlay ps (begun q);
    preserve =
        preserve-finish (foldl set_file (begun q) ps) (push_digests p ds)
        ∙ foldl-read_or set_file (λ f. f.preserve) (λ v. or_false (string_to_bool v)) "preserve"
            sets_preserve ps (begun q);
    properties =
        properties-finish (foldl set_file (begun q) ps) (push_digests p ds)
        ∙ foldl-rest_of set_file (λ f. f.properties) is_named sets_properties ps (begun q);
    facet = λ n.
        ap (lookup n) (facets-finish (foldl set_file (begun q) ps) (push_digests p ds))
        ∙ foldl-last_facet set_file (λ f. f.facets) sets_facets ps (begun q) n (lookup-empty n);
  }

from_begun :
    (b : Building) (ds : List Digest)
    → b.file ≡ begun b.file.properties
    → IsRead b ds (finish (foldl set_file b.file b.props) (push_digests b.payload ds))
from_begun b ds e =
    subst
      (λ x.
        IsRead (record { file = x; payload = b.payload; props = b.props }) ds
          (finish (foldl set_file x b.props) (push_digests b.payload ds)))
      (sym e) (finish-IsRead b.file.properties b.props b.payload ds)

finish_same :
    (s s' : File × Payload) (f : File)
    → ◌≡◌ {A = Outcome ⊥ (File × Payload)} (ok s) (ok s')
    → ◌≡◌ {A = Outcome ⊥ File} (ok (finish s'.0 s'.1)) (ok f)
    → finish s.0 s.1 ≡ f
finish_same s s' f e q = ground (arith, e, q)

-- When the conversion returns a file, every field is the last value of its key, every facet its last
-- value, the other properties follow in order, and the payload carries the parsed digests.
pub file_from_action :
    (act : Action) (f : File)
    → from_action act ≡ ok f
    → (b : Building) × (ds : List Digest) × (start act ≡ ok b)
      × (parse_digests (digest_values b.props) ≡ ok ds)
      × IsRead b ds f
unfolding from_action
file_from_action act f h =
    let (b, e, h') = >>=-eq-ok (start act) _ h in
    let (s, q, r) = >>=-eq-ok (set_properties b.file b.payload b.props) _ h' in
    let (ds, d, t) =
      >>=-eq-ok (parse_digests (digest_values b.props)) _
        (sym (set_properties_lem b.file b.payload b.props) ∙ q) in
    (
      b,
      ds,
      e,
      d,
      subst (IsRead b ds) (finish_same _ s f t r) (from_begun b ds (start-begun act b e)),
    )

not_empty : (c : ℕ) (s : String) → contains_char c s ≡ true → is_empty_str s ≡ false
unfolding contains_char
not_empty c s h = ground (arith, eq_iff s "", λ (e : s ≡ ""). ap (contains_char c) e)

start_path :
    (act : Action) (b : Building)
    → contains_char b'/' act.payload_string ≡ true
    → contains_char b'=' act.payload_string ≡ false
    → start act ≡ ok b
    → b.file.properties
      ≡ record { key = "original-path"; value = strip_quotes act.payload_string } ∷ []
unfolding start
start_path act b s q h = ground (arith, not_empty b'/' act.payload_string)

-- Where a file action with a slash and no `=` in its payload text converts to a file, that text, less
-- its quotes and backslashes, is the original path of the file.
pub original_path :
    (act : Action) (f : File)
    → contains_char b'/' act.payload_string ≡ true
    → contains_char b'=' act.payload_string ≡ false
    → from_action act ≡ ok f
    → get_original_path f ≡ some (strip_quotes act.payload_string)
unfolding get_original_path
original_path act f s q h =
    let (b, ds, e, d, r) = file_from_action act f h in rw (r.properties, start_path act b s q e)
