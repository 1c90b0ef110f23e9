-- ===== src/Ports/Sources.antt =====
-- ports/src/sources.rs: a source and the file that it is kept in.
use ips.Base.{String, Option, none, some, List, [], ◌∷◌}
use ips.Base.Outcome.{Outcome, ok, err, map_err, ◌>>=◌}
use ips.Base.Text.{split}
use ips.Base.Paths.{join_path}
use ips.Ports.System.{System}

-- `last`.
unfoldable pub last_part : List String → Option String
last_part [] = none
last_part (p ∷ ps) = elim (last_part ps) [ none ↦ some p | some q ↦ some q ]

module _ (system : System) where
  pub data SourceError : Type 0 where
    cant_create_source : (url : String) → SourceError
    url_parse_error : system.UrlError → SourceError

  pub record Source : Type 0 where
    pub url : system.Url
    pub local_name : String

  -- `Display for Source`.
  unfoldable pub display : Source → String
  display s = s.local_name

  -- The `match path_vec.last()`.
  abbrev pub source_at : system.Url → String → Option String → Outcome SourceError Source
  source_at url local_base none = err (cant_create_source (system.url_text url))
  source_at url local_base (some local_name) =
      ok (record { url = url; local_name = join_path local_base local_name })

  -- `Source::new`.
  unfoldable pub new : String → String → Outcome SourceError Source
  unfolding last_part split join_path
  new url_string local_base = do
    url ← map_err url_parse_error (system.parse_url url_string)
    source_at url local_base (last_part (split b'/' (system.url_path url)))
