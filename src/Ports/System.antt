-- ===== src/Ports/System.antt =====
-- What the commands of `ports` do to the world and ask of it. The world is the working directory and
-- the events so far, attempts that failed included; a system answers in each world.
use ips.Base.{Bytes, String, Bool, Option, List, [], ◌∷◌, ◌++◌}
use ips.Base.Outcome.{Outcome, ok, err, panic, map_err}
use ips.Actions.Manifest.{Manifest}

pub data Event : Type 0 where
  made_dir : (path : String) → Event
  fetched : (url : String) → Event
  wrote : (path : String) (content : Bytes) → Event
  ran : (program : String) → List String → Option (List (String × String)) → Event
  entered : (path : String) → Event
  printed : Manifest → Event
  printed_config : (path : String) → Event

pub record World : Type 0 where
  pub cwd : String
  pub events : List Event

-- How a process ended: `success` and `code` of its status.
pub record Status (I32 : Type 0) : Type 0 where
  pub success : Bool
  pub code : Option I32

-- The operating system, the network, and the crates `url`, `reqwest`, `shellexpand` and `which`.
pub record System : Type 1 where
  pub IoError : Type 0
  pub I32 : Type 0
  pub read_to_string : World → String → Outcome IoError String
  pub read : World → String → Outcome IoError Bytes
  pub make_dir : World → String → Outcome IoError (Unit {0})
  pub write : World → String → Bytes → Outcome IoError (Unit {0})
  pub run :
      World → String → List String → Option (List (String × String)) → Outcome IoError (Status I32)
  pub vars : World → List (String × String)
  pub current_dir : World → Outcome IoError String
  pub enter : World → String → Outcome IoError String
  pub Url : Type 0
  pub UrlError : Type 0
  pub parse_url : String → Outcome UrlError Url
  pub url_path : Url → String
  pub url_text : Url → String
  pub HttpError : Type 0
  pub fetch : World → String → Outcome HttpError Bytes
  pub expand : World → String → Outcome String String
  pub WhichError : Type 0
  pub which : World → String → Outcome WhichError String
  pub bytes_of : String → Bytes

-- A computation that may fail, over the world.
abbrev pub Run : Type 0 → Type 0 → Type 0
Run E A = World → Outcome E A × World

abbrev pub resume : {E A B : Type 0} → (A → Run E B) → Outcome E A × World → Outcome E B × World
resume f (ok a, w) = f a w
resume f (err e, w) = (err e, w)
resume f (panic, w) = (panic, w)

infixl 5 ◌>>=◌
abbrev pub ◌>>=◌ : {E A B : Type 0} → Run E A → (A → Run E B) → Run E B
◌>>=◌ m f w = resume f (m w)

infixl 5 ◌>>◌
abbrev pub ◌>>◌ : {E A B : Type 0} → Run E A → Run E B → Run E B
m >> n = m >>= λ _. n

abbrev pub pure : {E A : Type 0} → A → Run E A
pure a w = (ok a, w)

abbrev pub fail : {E A : Type 0} → E → Run E A
fail e w = (err e, w)

-- What the world answers, with the error wrapped.
abbrev pub ask : {X E A : Type 0} → (X → E) → (World → Outcome X A) → Run E A
ask wrap answer w = (map_err wrap (answer w), w)

abbrev pub log : Event → World → World
log e w = record w { events = w.events ++ e ∷ [] }

-- The same for what the events record.
abbrev pub act : {X E A : Type 0} → (X → E) → Event → (World → Outcome X A) → Run E A
act wrap e answer w = (map_err wrap (answer w), log e w)

abbrev pub say : {E : Type 0} → Event → Run E (Unit {0})
say e w = (ok tt, log e w)

abbrev pub moved :
    {X E : Type 0} → (X → E) → String → World → Outcome X String → Outcome E (Unit {0}) × World
moved wrap path w (ok dir) = (ok tt, record (log (entered path) w) { cwd = dir })
moved wrap path w (err x) = (err (wrap x), log (entered path) w)
moved wrap path w panic = (panic, log (entered path) w)

-- `set_current_dir`.
abbrev pub set_current_dir :
    (system : System) {E : Type 0} → (system.IoError → E) → String → Run E (Unit {0})
set_current_dir system wrap path w = moved wrap path w (system.enter w path)
