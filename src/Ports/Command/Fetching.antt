-- ===== src/Ports/Command/Fetching.antt =====
-- What `get_sources` downloads.
use ips.Base.{
  subst, Bytes, String, ◌≡◌, refl, sym, ap, ◌∙◌, List, [], ◌∷◌, ◌++◌, map, append_assoc, append-nil,
}
use ips.Base.Outcome.{Outcome, ok, err, panic, map_err}
use ips.Ports.System.{System, fetched, wrote, World, resume, ◌>>=◌, ◌>>◌, pure, log}
use ips.Ports.Sources as Sources
use ips.Ports.Sources.{Source, SourceError}
use ips.Ports.Workspace.{
  io_error, reqwest_error, source_error, write_file, fetch_source, Workspace, WorkspaceError,
  get_source, get_sources,
}
use ips.Ports.Quiet.{downloads, downloads-append}
use ips.Ports.After.{err_ok, panic_ok, ok_inj}

module _ (system : System) where
  -- Each source is what its text stands for in the source directory.
  abbrev pub Stands : Workspace → List String → List (Source system) → Type 0
  Stands ws [] [] = Unit
  Stands ws (text ∷ texts) (s ∷ srcs) =
      (Sources.new system text ws.source_dir ≡ ok s) × Stands ws texts srcs
  Stands ws _ _ = ⊥

  abbrev pub url_of : Source system → String
  url_of s = system.url_text s.url

  -- What stands written and fetched in the end, where a source is returned.
  abbrev Got : Source system → World → Source system → World → Type 0
  Got s1 w s last =
      (s1 ≡ s)
      × (bytes : Bytes) × (last ≡ log (wrote s1.local_name bytes) (log (fetched (url_of s1)) w))

  written-Got :
      (s1 s : Source system) (bytes : Bytes) (w last : World)
      (o : Outcome system.IoError (Unit {0}))
      → resume {E = WorkspaceError system}
          (λ u. pure s1)
          (map_err io_error o, log (wrote s1.local_name bytes) (log (fetched (url_of s1)) w))
        ≡ (ok s, last)
      → Got s1 w s last
  written-Got s1 s bytes w last (ok u) h = (ok_inj (ap (λ t. t.0) h), bytes, sym (ap (λ t. t.1) h))
  written-Got s1 s bytes w last (err e) h = absurd (err_ok (ap (λ t. t.0) h))
  written-Got s1 s bytes w last panic h = absurd (panic_ok (ap (λ t. t.0) h))

  fetched-Got :
      (s1 s : Source system) (w last : World) (o : Outcome system.HttpError Bytes)
      → resume {E = WorkspaceError system}
          (λ bytes. write_file system s1.local_name bytes >> pure s1)
          (map_err reqwest_error o, log (fetched (url_of s1)) w)
        ≡ (ok s, last)
      → Got s1 w s last
  fetched-Got s1 s w last (ok bytes) h = written-Got s1 s bytes w last _ h
  fetched-Got s1 s w last (err e) h = absurd (err_ok (ap (λ t. t.0) h))
  fetched-Got s1 s w last panic h = absurd (panic_ok (ap (λ t. t.0) h))

  named-Got :
      (s : Source system) (w last : World) (o : Outcome (SourceError system) (Source system))
      → resume {E = WorkspaceError system} (fetch_source system) (map_err source_error o, w)
        ≡ (ok s, last)
      → (o ≡ ok s) × (downloads last.events ≡ downloads w.events ++ url_of s ∷ [])
  unfolding downloads
  named-Got s w last (ok s1) h =
      let (e, bytes, l) = fetched-Got s1 s w last _ h in
      (
        ap (λ t. ok t) e,
        ap (λ (v : World). downloads v.events) l
            ∙ downloads-append (w.events ++ fetched (url_of s1) ∷ [])
                (wrote s1.local_name bytes ∷ [])
            ∙ append-nil _
            ∙ downloads-append w.events (fetched (url_of s1) ∷ [])
            ∙ ap (λ t. downloads w.events ++ url_of t ∷ []) e,
      )
  named-Got s w last (err e) h = absurd (err_ok (ap (λ t. t.0) h))
  named-Got s w last panic h = absurd (panic_ok (ap (λ t. t.0) h))

  get_source-ok :
      (ws : Workspace) (text : String) (s : Source system) (w last : World)
      → get_source system ws text w ≡ (ok s, last)
      → (Sources.new system text ws.source_dir ≡ ok s)
        × (downloads last.events ≡ downloads w.events ++ url_of s ∷ [])
  unfolding get_source
  get_source-ok ws text s w last h = named-Got s w last (Sources.new system text ws.source_dir) h

  abbrev Pushed :
      Source system
      → Outcome (WorkspaceError system) (List (Source system)) × World
      → List (Source system)
      → World
      → Type 0
  Pushed s1 t srcs last = (rest : List (Source system)) × (t ≡ (ok rest, last)) × (s1 ∷ rest ≡ srcs)

  pushed :
      (s1 : Source system) (t : Outcome (WorkspaceError system) (List (Source system)) × World)
      (srcs : List (Source system)) (last : World)
      → resume (λ rest. pure (s1 ∷ rest)) t ≡ (ok srcs, last)
      → Pushed s1 t srcs last
  pushed s1 (ok rest, mid) srcs last h =
      (rest, ap (λ v. (ok rest, v)) (ap (λ t. t.1) h), ok_inj (ap (λ t. t.0) h))
  pushed s1 (err e, mid) srcs last h = absurd (err_ok (ap (λ t. t.0) h))
  pushed s1 (panic, mid) srcs last h = absurd (panic_ok (ap (λ t. t.0) h))

  first :
      (ws : Workspace) (texts : List String)
      (t : Outcome (WorkspaceError system) (Source system) × World) (srcs : List (Source system))
      (last : World)
      → resume (λ s. get_sources system ws texts >>= λ rest. pure (s ∷ rest)) t ≡ (ok srcs, last)
      → (s1 : Source system) × (mid : World) × (t ≡ (ok s1, mid))
        × Pushed s1 (get_sources system ws texts mid) srcs last
  first ws texts (ok s1, mid) srcs last h =
      (s1, mid, refl, pushed s1 (get_sources system ws texts mid) srcs last h)
  first ws texts (err e, mid) srcs last h = absurd (err_ok (ap (λ t. t.0) h))
  first ws texts (panic, mid) srcs last h = absurd (panic_ok (ap (λ t. t.0) h))

  -- Where `get_sources` returns sources, each is what its text stands for in the source directory, and
  -- exactly their URLs were downloaded, in order.
  pub get_sources-downloads :
      (ws : Workspace) (texts : List String) (srcs : List (Source system)) (w last : World)
      → get_sources system ws texts w ≡ (ok srcs, last)
      → Stands ws texts srcs × (downloads last.events ≡ downloads w.events ++ map url_of srcs)
  unfolding get_sources
  get_sources-downloads ws [] srcs w last h =
      subst (λ ss. Stands ws [] ss × (downloads last.events ≡ downloads w.events ++ map url_of ss))
        (ok_inj (ap (λ t. t.0) h))
        (
          tt,
          ap
                (λ (t : Outcome (WorkspaceError system) (List (Source system)) × World).
                  downloads t.1.events)
                (sym h)
              ∙ sym (append-nil _),
        )
  get_sources-downloads ws (text ∷ texts) srcs w last h =
      let (s1, mid, e, (rest, q, l)) = first ws texts (get_source system ws text w) srcs last h in
      let (named, one) = get_source-ok ws text s1 w mid e in
      let (stand, more) = get_sources-downloads ws texts rest mid last q in
      subst
        (λ ss.
          Stands ws (text ∷ texts) ss
          × (downloads last.events ≡ downloads w.events ++ map url_of ss))
        l
        (
          (named, stand),
          more
              ∙ ap (λ t. t ++ map url_of rest) one
              ∙ append_assoc (downloads w.events) (url_of s1 ∷ []) (map url_of rest),
        )
