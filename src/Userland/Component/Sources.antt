-- ===== src/Userland/Component/Sources.antt =====
-- Where the source of a component comes from, and when there is none.
use mathlib.Core.Path.{subst}
use ips.Base.{String, ◌≡◌, refl, Option, none, some, [], ◌∷◌, ◌∙◌, ap, sym}
use ips.Base.Outcome.{Outcome, ok, >>=-eq-ok}
use ips.Userland.Makefile.{Makefile}
use ips.Userland.Component.{
  Parsers, Source, git_source, archive_source, Component, ComponentError, missing_version,
  bad_version, bad_url, or_error, source_of, new_with,
}

module _ (parsers : Parsers) where
  -- What the values of the four variables must be for a source.
  abbrev pub Comes :
      parsers.Version
      → Option String
      → Option String
      → Option String
      → Option String
      → String
      → Source parsers
      → Type 0
  Comes ver src archive git hash name (archive_source v h url) =
      (src ≡ some name)
      × (v ≡ ver)
      × (h ≡ hash)
      × (u : String) × (archive ≡ some u)
      × (parsers.parse_url u ≡ some url)
  Comes ver src archive git hash name (git_source url) =
      (src ≡ some name)
      × (archive ≡ none)
      × (u : String) × (git ≡ some u)
      × (parsers.parse_url u ≡ some url)

  or_error-ok :
      {A : Type 0} (e : ComponentError) (o : Option A) (a : A)
      → or_error parsers e o ≡ ok a
      → o ≡ some a
  or_error-ok e none a h = cc
  or_error-ok e (some b) a h = cc

  ok_inj : {A : Type 0} (a b : A) → ◌≡◌ {A = Outcome ComponentError A} (ok a) (ok b) → a ≡ b
  ok_inj a b h = cc

  archive_source-Comes :
      (ver : parsers.Version) (n : String) (git hash : Option String) (name : String)
      (s : Source parsers) (u : String) (url : parsers.Url)
      → parsers.parse_url u ≡ some url
      → ◌≡◌ {A = Outcome ComponentError (String × Source parsers)}
          (ok (n, archive_source ver hash url))
          (ok (name, s))
      → Comes ver (some n) (some u) git hash name s
  archive_source-Comes ver n git hash name s u url p q =
      subst (λ x. Comes ver (some n) (some u) git hash x.0 x.1)
        (ok_inj (n, archive_source ver hash url) (name, s) q) (refl, refl, refl, u, refl, p)

  git_source-Comes :
      (ver : parsers.Version) (n : String) (hash : Option String) (name : String)
      (s : Source parsers) (u : String) (url : parsers.Url)
      → parsers.parse_url u ≡ some url
      → ◌≡◌ {A = Outcome ComponentError (String × Source parsers)}
          (ok (n, git_source url))
          (ok (name, s))
      → Comes ver (some n) none (some u) hash name s
  git_source-Comes ver n hash name s u url p q =
      subst (λ x. Comes ver (some n) none (some u) hash x.0 x.1)
        (ok_inj (n, git_source url) (name, s) q) (refl, refl, u, refl, p)

  source_of-Comes :
      (ver : parsers.Version) (src archive git hash : Option String) (name : String)
      (s : Source parsers)
      → source_of parsers ver src archive git hash ≡ ok (name, s)
      → Comes ver src archive git hash name s
  unfolding source_of
  source_of-Comes ver (some n) (some u) git hash name s h =
      let (url, p, q) = >>=-eq-ok (or_error parsers bad_url (parsers.parse_url u)) _ h in
      archive_source-Comes ver n git hash name s u url
        (or_error-ok bad_url (parsers.parse_url u) url p) q
  source_of-Comes ver (some n) none (some u) hash name s h =
      let (url, p, q) = >>=-eq-ok (or_error parsers bad_url (parsers.parse_url u)) _ h in
      git_source-Comes ver n hash name s u url (or_error-ok bad_url (parsers.parse_url u) url p) q
  source_of-Comes ver none archive git hash name s h = cc
  source_of-Comes ver (some n) none none hash name s h = cc

  -- A component that `new_with` makes has the version that its variable spells, and one
  -- source, which comes from the four variables of the source, whatever reads them.
  pub new_with-Comes :
      (get : String → Outcome ComponentError (Option String)) (m : Makefile) (c : Component parsers)
      → new_with parsers get m ≡ ok c
      → (text : String) × (src : Option String) × (archive : Option String) × (git : Option String)
        × (hash : Option String) × (name : String) × (s : Source parsers) × (get "COMPONENT_VERSION"
            ≡ ok (some text))
        × (parsers.parse_version text ≡ some c.version)
        × (get "COMPONENT_SRC" ≡ ok src)
        × (get "COMPONENT_ARCHIVE_URL" ≡ ok archive)
        × (get "GIT_URL" ≡ ok git)
        × (get "COMPONENT_ARCHIVE_HASH" ≡ ok hash)
        × (c.sources ≡ (name, s) ∷ [])
        × Comes c.version src archive git hash name s
  unfolding new_with
  new_with-Comes get m c h =
      let (version, pv, h) = >>=-eq-ok (get "COMPONENT_VERSION") _ h in
      let (text, pt, h) = >>=-eq-ok (or_error parsers missing_version version) _ h in
      let (ver, pn, h) =
        >>=-eq-ok (or_error parsers bad_version (parsers.parse_version text)) _ h in
      let (revision, pr, h) = >>=-eq-ok (get "COMPONENT_REVISION") _ h in
      let (src, ps, h) = >>=-eq-ok (get "COMPONENT_SRC") _ h in
      let (archive, pa, h) = >>=-eq-ok (get "COMPONENT_ARCHIVE_URL") _ h in
      let (git, pg, h) = >>=-eq-ok (get "GIT_URL") _ h in
      let (hash, ph, h) = >>=-eq-ok (get "COMPONENT_ARCHIVE_HASH") _ h in
      let (style, py, h) = >>=-eq-ok (get "BUILD_STYLE") _ h in
      let (found, pf, h) = >>=-eq-ok (source_of parsers ver src archive git hash) _ h in
      let e = ok_inj _ c h in
      let ev = ap (λ x. x.version) e in
      (
        text,
        src,
        archive,
        git,
        hash,
        found.0,
        found.1,
        pv ∙ ap ok (or_error-ok missing_version version text pt),
        or_error-ok bad_version (parsers.parse_version text) ver pn ∙ ap some ev,
        ps,
        pa,
        pg,
        ph,
        sym (ap (λ x. x.sources) e),
        subst (λ v. Comes v src archive git hash found.0 found.1) ev
            (source_of-Comes ver src archive git hash found.0 found.1 pf),
      )
