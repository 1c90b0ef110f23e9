-- ===== src/Actions/File/Digests.antt =====
-- The loop of `File::from` apart: the digests that it parses, and the file that it fills.
use ips.Base.{
  ◌≢◌, String, true, false, ◌≡◌, refl, ◌↔◌, ◌⊎◌, inl, inr, List, [], ◌∷◌, ◌++◌, foldl, arith, ◌==◌,
  eq_iff, append_assoc, append-nil, ◌∙◌, Bool-cases, if◌then◌else◌,
}
use ips.Base.Outcome.{Outcome, ok, err, panic, unwrap, ◌>>=◌, >>=-panic_iff, map-panic_iff}
use ips.Base.Text.{contains_char}
use ips.Digest.{Digest, DigestError, from_str}
use ips.Digest.Parsing.{from_str-ne-panic}
use ips.Payload.{Payload}
use ips.Actions.Action.{Property, Action}
use ips.Actions.Action.Split.{split_property_total}
use ips.Actions.Action.Values.{by_key}
use ips.Actions.File.{
  File, Building, is_digest_key, set_file, set_property, set_properties, start, from_action,
  push_digest,
}

-- The values of the properties that hold digests, in order.
unfoldable pub digest_values : List Property → List String
digest_values [] = []
digest_values (p ∷ ps) =
    if is_digest_key p.key then p.value ∷ digest_values ps else digest_values ps

-- All of them parsed; one that is no digest is a panic.
unfoldable pub parse_digests : List String → Outcome ⊥ (List Digest)
parse_digests [] = ok []
parse_digests (v ∷ vs) = do d ← unwrap (from_str v); ds ← parse_digests vs; ok (d ∷ ds)

abbrev pub push_digests : Payload → List Digest → Payload
push_digests p ds = record p { additional_identifiers = p.additional_identifiers ++ ds }

set_file-digest : (file : File) (p : Property) → is_digest_key p.key ≡ true → set_file file p ≡ file
unfolding set_file is_digest_key
set_file-digest file =
    by_key "chash" (λ p. is_digest_key p.key ≡ true → set_file file p ≡ file) (λ v h. refl)
      (λ p n.
        by_key "pkg.content-hash"
          (λ p. (p.key == "chash") ≡ false → is_digest_key p.key ≡ true → set_file file p ≡ file)
          (λ v n h. refl) (λ p m n h. ground arith) p n)

digest_step :
    (file file' : File) (p : Payload) (o : Outcome DigestError Digest)
    (k : File × Payload → Outcome ⊥ (File × Payload)) (rest : Outcome ⊥ (List Digest))
    → ((d : Digest)
        → k (file, push_digest p d)
          ≡ (rest >>= λ ds. ok (file', push_digests (push_digest p d) ds)))
    → (unwrap {F = ⊥} o >>= (λ d. ok (file, push_digest p d)) >>= k) ≡ (
        unwrap {F = ⊥} o >>= (λ d. rest >>= λ ds. ok (d ∷ ds)) >>= λ ds.
        ok (file', push_digests p ds))
digest_step file file' p (ok d) k (ok ds) h =
    h d ∙ rw (append_assoc p.additional_identifiers (d ∷ []) ds)
digest_step file file' p (ok d) k (err e) h = h d
digest_step file file' p (ok d) k panic h = h d
digest_step file file' p (err e) k rest h = refl
digest_step file file' p panic k rest h = refl

-- The loop parses the digests in order and fills the file from the properties, and panics exactly
-- when some digest does not parse.
pub set_properties_lem :
    (file : File) (p : Payload) (ps : List Property)
    → set_properties file p ps
      ≡ (parse_digests (digest_values ps) >>= λ ds. ok (foldl set_file file ps, push_digests p ds))
unfolding set_properties set_property digest_values parse_digests
set_properties_lem file p [] = ground (arith, append-nil p.additional_identifiers)
set_properties_lem file p (prop ∷ ps) = elim (Bool-cases (is_digest_key prop.key)) [
  | inl e ↦ rw e (
      rw (set_file-digest file prop e) (
        digest_step file (foldl set_file file ps) p (from_str prop.value)
          (λ s. set_properties s.0 s.1 ps) (parse_digests (digest_values ps))
          (λ d. set_properties_lem file (push_digest p d) ps)))
  | inr e ↦ rw e (set_properties_lem (set_file file prop) p ps)
]

-- A text that is no digest.
abbrev pub Rejected : String → Type 0
Rejected s = (e : DigestError) × (from_str s ≡ err e)

-- Some of the texts is no digest.
abbrev pub SomeRejected : List String → Type 0
SomeRejected [] = ⊥
SomeRejected (v ∷ vs) = Rejected v ⊎ SomeRejected vs

unwrap-panic :
    (o : Outcome DigestError Digest)
    → o ≢ panic
    → (unwrap {F = ⊥} o ≡ panic) ↔ ((e : DigestError) × (o ≡ err e))
unwrap-panic (ok d) h = (λ q. cc, λ q. cc q.1)
unwrap-panic (err e) h = (λ q. (e, refl), λ q. refl)
unwrap-panic panic h = absurd (h refl)

unwrap-from_str : (s : String) → (unwrap {F = ⊥} (from_str s) ≡ panic) ↔ Rejected s
unwrap-from_str s = unwrap-panic (from_str s) (from_str-ne-panic s)

ok_or_err :
    (o : Outcome DigestError Digest)
    → o ≢ panic
    → ((d : Digest) × (o ≡ ok d)) ⊎ ((e : DigestError) × (o ≡ err e))
ok_or_err (ok d) h = inl (d, refl)
ok_or_err (err e) h = inr (e, refl)
ok_or_err panic h = absurd (h refl)

accepted_or_Rejected : (s : String) → ((d : Digest) × (from_str s ≡ ok d)) ⊎ Rejected s
accepted_or_Rejected s = ok_or_err (from_str s) (from_str-ne-panic s)

parse_digests-panic : (vs : List String) → (parse_digests vs ≡ panic) ↔ SomeRejected vs
unfolding parse_digests
parse_digests-panic [] = ground arith
parse_digests-panic (v ∷ vs) = elim (accepted_or_Rejected v) [
  | inl t ↦
      let (d, e) = t in
      let rest = map-panic_iff (parse_digests vs) (λ ds. d ∷ ds) in
      rw e (
        λ h. inr ((parse_digests-panic vs).0 (rest.0 h)),
        elim [ inl q ↦ cc q.1 | inr r ↦ rest.1 ((parse_digests-panic vs).1 r) ],
      )
  | inr t ↦ let (e, q) = t in rw q ((λ h. inl (e, refl)), (λ h. refl))
]

set_properties-panic :
    (file : File) (p : Payload) (ps : List Property)
    → (set_properties file p ps ≡ panic) ↔ SomeRejected (digest_values ps)
set_properties-panic file p ps =
    let loop =
      map-panic_iff (parse_digests (digest_values ps))
        (λ ds. (foldl set_file file ps, push_digests p ds)) in
    rw set_properties_lem (
      λ h. (parse_digests-panic (digest_values ps)).0 (loop.0 h),
      λ h. loop.1 ((parse_digests-panic (digest_values ps)).1 h),
    )

-- The payload text is taken for a digest, and is none.
abbrev pub BadPayload : String → Type 0
BadPayload s = (s ≢ "") × (contains_char b'/' s ≡ false) × Rejected s

start-panic : (act : Action) → (start act ≡ panic) ↔ BadPayload act.payload_string
unfolding start
start-panic act =
    let text = act.payload_string in
    (
      λ h. (
        ground (arith, eq_iff text ""),
        ground (arith, eq_iff text "", split_property_total text),
        (unwrap-from_str text).0 (ground (arith, split_property_total text)),
      ),
      λ h. ground (arith, eq_iff text "", (unwrap-from_str text).1 h.2),
    )

-- The conversion panics exactly when the payload text is not empty, has no slash and is no digest, or
-- when one of the properties that hold digests is none.
pub file_from_action-panic :
    (act : Action)
    → (from_action act ≡ panic) ↔ (
        BadPayload act.payload_string
        ⊎ ((b : Building) × (start act ≡ ok b) × SomeRejected (digest_values b.props)))
unfolding from_action
file_from_action-panic act = (
  λ h. elim ((>>=-panic_iff (start act) _).0 h) [
    | inl e ↦ inl ((start-panic act).0 e)
    | inr t ↦
        let (b, e, q) = t in
        inr (b, e, (set_properties-panic b.file b.payload b.props).0 ((map-panic_iff _ _).0 q))
  ],
  elim [
    | inl h ↦ (>>=-panic_iff (start act) _).1 (inl ((start-panic act).1 h))
    | inr t ↦
        let (b, e, r) = t in
        (>>=-panic_iff (start act) _).1
          (inr (b, e, (map-panic_iff _ _).1 ((set_properties-panic b.file b.payload b.props).1 r)))
  ],
)
