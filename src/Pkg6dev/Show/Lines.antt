-- ===== src/Pkg6dev/Show/Lines.antt =====
-- The lines that `show_component_info` prints.
use ips.Base.{String, ◌≡◌, ◌≢◌, refl, sym, Option, none, some, List, [], ◌∷◌, ◌++◌, map, All}
use ips.Base.Outcome.{Outcome, ok, err, panic}
use ips.Base.Text.{◌<>◌, split, join}
use ips.Base.Text.Replace.Lines.{replace-newline}
use ips.Base.Paths.{join_path}
use ips.Userland.Makefile.{Makefile}
use ips.Userland.Makefile.Resolve.{get, get_first_value}
use ips.Userland.Component.{Component, new_from_makefile}
use ips.Userland.Repology.{find_newest_version}
use ips.Pkg6dev.Printing.{Output, Printing, ◌>>=◌, lift}
use ips.Pkg6dev.Printing.Lines.{Prints, Prints-bind, Prints-then, Prints-pure, Prints-line}
use ips.Pkg6dev.Show.{
  Tools, ShowError, value_or_abort, text_or_empty, show_line, show_variable, show_name,
  show_version, latest_line, show_plain, show_makefile, read_makefile, show_component_info,
}

-- A value with a newline and a tab between its lines.
abbrev pub by_lines : String → String
by_lines var = join "\n\t" (split 10 var)

-- The line of a variable, if it is set.
abbrev pub line_of : (String → String) → String → Option String → List String
line_of f label none = []
line_of f label (some var) = (label <> f var) ∷ []

-- The variables between the version and the install action, with their labels.
abbrev pub labels : List (String × String)
labels =
    ("BUILD_BITS", "Build bits: ")
    ∷ ("COMPONENT_BUILD_ACTION", "Build action: ")
    ∷ ("COMPONENT_PROJECT_URL", "Project URl: ")
    ∷ ("COMPONENT_ARCHIVE_URL", "Source URl: ")
    ∷ ("COMPONENT_ARCHIVE_HASH", "Source Archive File Hash: ")
    ∷ ("REQUIRED_PACKAGES", "Dependencies:\n\t")
    ∷ []

-- All that the command looks up with `get`.
abbrev pub looked_up : List String
looked_up =
    "COMPONENT_NAME" ∷ "COMPONENT_VERSION" ∷ map (λ l. l.0) labels
    ++ "COMPONENT_INSTALL_ACTION" ∷ []

-- Their lines, in front of others.
abbrev pub lines_of : (String → Option String) → List (String × String) → List String → List String
lines_of values [] rest = rest
lines_of values ((variable, label) ∷ ls) rest =
    line_of by_lines label (values variable) ++ lines_of values ls rest

module _ {E NetError : Type 0} (tools : Tools E NetError) where
  open tools use {
    parsers, captures, fuel, system, parser, semver, project, debug_component, debug_error,
  }

  abbrev pub latest_text : Outcome NetError String → String
  latest_text (ok latest_version) = "Latest Version: " <> latest_version
  latest_text (err e) = "Error: Could not get latest version info: " <> debug_error e
  latest_text panic = ""

  -- The version, and what Repology knows of the newest one.
  abbrev pub version_lines : Option String → Outcome NetError String → List String
  version_lines none latest = []
  version_lines (some var) latest = ("Version: " <> by_lines var) ∷ latest_text latest ∷ []

  -- All lines, for the values of the variables and the answer about the newest version.
  abbrev pub shown :
      (String → Option String) → Outcome NetError String → Component parsers → List String
  shown values latest component =
      line_of by_lines "Name: " (values "COMPONENT_NAME")
      ++ (version_lines (values "COMPONENT_VERSION") latest
          ++ lines_of values labels (
              line_of (λ t. t) "Install Action:\n\t" (values "COMPONENT_INSTALL_ACTION")
              ++ ("Component: " <> debug_component component) ∷ []))

  show_line-Prints :
      (label : String) (o : Option String)
      → Prints (show_line {E = E} label o) tt (line_of by_lines label o)
  show_line-Prints label none = Prints-pure tt
  show_line-Prints label (some var) = rw (sym (replace-newline "\n\t" var)) (Prints-line _)

  show_plain-Prints :
      (label : String) (o : Option String)
      → Prints (show_plain {E = E} label o) tt (line_of (λ t. t) label o)
  show_plain-Prints label none = Prints-pure tt
  show_plain-Prints label (some var) = Prints-line _

  latest_line-Prints :
      (o : Outcome NetError String)
      → o ≢ panic
      → Prints (latest_line tools o) tt (latest_text o ∷ [])
  latest_line-Prints (ok v) h = Prints-line _
  latest_line-Prints (err e) h = Prints-line _
  latest_line-Prints panic h = absurd (h refl)

  show_version-Prints :
      (name : String) (o : Option String)
      → find_newest_version semver project name ≢ panic
      → Prints
          (show_version tools name o)
          tt
          (version_lines o (find_newest_version semver project name))
  show_version-Prints name none h = Prints-pure tt
  show_version-Prints name (some var) h =
      rw (sym (replace-newline "\n\t" var))
        (Prints-then _ _ _ _ (Prints-line _) (latest_line-Prints _ h))

  -- The name that Repology is asked for.
  abbrev pub asked_name : Option String → Option String → String
  asked_name none first = ""
  asked_name (some var) first = text_or_empty first

  module _ (makefile : Makefile) where
    show_name-Prints :
        (o first : Option String)
        → get_first_value captures fuel makefile "COMPONENT_NAME" ≡ some (ok first)
        → Prints (show_name tools makefile o) (asked_name o first) (line_of by_lines "Name: " o)
    show_name-Prints none first h = Prints-pure ""
    show_name-Prints (some var) first h =
        rw (sym (replace-newline "\n\t" var)) (record { at = λ out. rw h refl })

    -- A variable read in front of what is printed of it.
    read_variable-Prints :
        {B : Type 0} (values : String → Option String) (variable : String)
        (f : Option String → Printing (ShowError E) B) (b : B) (lines : List String)
        → get captures fuel makefile variable ≡ some (values variable)
        → Prints (f (values variable)) b lines
        → Prints (lift (value_or_abort (get captures fuel makefile variable)) >>= f) b lines
    read_variable-Prints values variable f b lines h p = rw h (record { at = p.at })

    module _ (values : String → Option String)
        (total : All (λ k. get captures fuel makefile k ≡ some (values k)) looked_up) where
      show_variable-Prints :
          (variable label : String)
          → get captures fuel makefile variable ≡ some (values variable)
          → Prints
              (show_variable tools makefile variable label)
              tt
              (line_of by_lines label (values variable))
      show_variable-Prints variable label h =
          read_variable-Prints values variable _ tt _ h (show_line-Prints label (values variable))

      show_makefile-Prints :
          (component : Component parsers) (first : Option String)
          → new_from_makefile parsers captures fuel makefile ≡ ok component
          → get_first_value captures fuel makefile "COMPONENT_NAME" ≡ some (ok first)
          → find_newest_version semver project (asked_name (values "COMPONENT_NAME") first) ≢ panic
          → Prints (show_makefile tools makefile) tt (
              shown values
                (find_newest_version semver project (asked_name (values "COMPONENT_NAME") first))
                component)
      unfolding show_makefile
      show_makefile-Prints component first h f v = rw h (
          read_variable-Prints values "COMPONENT_NAME" _ tt _ total.0 (
            Prints-bind _ _ (asked_name (values "COMPONENT_NAME") first) tt _ _
              (show_name-Prints (values "COMPONENT_NAME") first f)
              (read_variable-Prints values "COMPONENT_VERSION" _ tt _ total.1.0 (
                Prints-then _ _ _ _
                  (show_version-Prints (asked_name (values "COMPONENT_NAME") first)
                    (values "COMPONENT_VERSION") v)
                  (Prints-then _ _ _ _
                    (show_variable-Prints "BUILD_BITS" "Build bits: " total.1.1.0)
                    (Prints-then _ _ _ _
                      (show_variable-Prints "COMPONENT_BUILD_ACTION" "Build action: " total.1.1.1.0)
                      (Prints-then _ _ _ _
                        (show_variable-Prints "COMPONENT_PROJECT_URL" "Project URl: "
                          total.1.1.1.1.0)
                        (Prints-then _ _ _ _
                          (show_variable-Prints "COMPONENT_ARCHIVE_URL" "Source URl: "
                            total.1.1.1.1.1.0)
                          (Prints-then _ _ _ _
                            (show_variable-Prints "COMPONENT_ARCHIVE_HASH"
                              "Source Archive File Hash: " total.1.1.1.1.1.1.0)
                            (Prints-then _ _ _ _
                              (show_variable-Prints "REQUIRED_PACKAGES" "Dependencies:\n\t"
                                total.1.1.1.1.1.1.1.0)
                              (read_variable-Prints values "COMPONENT_INSTALL_ACTION" _ tt _
                                total.1.1.1.1.1.1.1.1.0
                                (Prints-then _ _ _ _
                                  (show_plain-Prints "Install Action:\n\t"
                                    (values "COMPONENT_INSTALL_ACTION"))
                                  (Prints-line _)))))))))))))

      -- Where the makefile is read and describes a component, each of the nine variables that are looked up
      -- resolves, and the request for the newest version does not panic, `show_component_info` succeeds and
      -- prints, in this order and each only if it is set, the name, the version with what Repology answered
      -- for the name (an error is only printed), six labelled variables, and the install action, then the
      -- component. A tab stands before each further line of a value, except in the install action.
      pub show_component_info-lines :
          (component_path cwd : String) (component : Component parsers) (first : Option String)
          (out : Output)
          → read_makefile tools (join_path component_path "Makefile") cwd ≡ ok makefile
          → new_from_makefile parsers captures fuel makefile ≡ ok component
          → get_first_value captures fuel makefile "COMPONENT_NAME" ≡ some (ok first)
          → find_newest_version semver project (asked_name (values "COMPONENT_NAME") first) ≢ panic
          → show_component_info tools component_path cwd out ≡ (
            ok tt,
            record out {
              printed =
                  out.printed
                  ++ shown values
                      (find_newest_version semver project
                        (asked_name (values "COMPONENT_NAME") first))
                      component;
            },
          )
      unfolding show_component_info
      show_component_info-lines component_path cwd component first out r h f v =
          rw r ((show_makefile-Prints component first h f v).at out)
