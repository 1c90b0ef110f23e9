-- ===== src/Ports/Workspace/Steps.antt =====
-- What the steps of a build do: unpacking, and the script's run.
use ips.Base.{
  ap, String, ◌≡◌, refl, Option, none, some, List, [], ◌∷◌, foldl, keep, ◌==◌, ◌||◌, if◌then◌else◌,
  Bool-cases, inl, inr, arith, eq_iff,
}
use ips.Base.Outcome.{Outcome, ok, err}
use ips.Base.Table.{Table, lookup, insert, lookup-insert}
use ips.Base.Text.{◌<>◌}
use ips.Base.Paths.{join_path}
use ips.Base.Paths.Laws.{tar_gz, extension-tar_gz}
use ips.Ports.Sources.{Source}
use ips.Ports.System.{System, Status, wrote, ran, World, log}
use ips.Ports.Workspace.{
  Workspace, WorkspaceError, unextractable_source, is_kept, insert_var, filtered_env, unpack_source,
  script_text, build, check_status, exit_error,
}

-- The value that a process sees of a variable: the last one listed.
abbrev pub last_value : String → List (String × String) → Option String → Option String
last_value k [] o = o
last_value k ((j, v) ∷ vars) o = last_value k vars (if j == k then some v else o)

lookup-foldl :
    (k : String) (vars : List (String × String)) (t : Table String)
    → lookup k (foldl insert_var t (keep (λ kv. is_kept kv.0) vars))
      ≡ (if is_kept k then last_value k vars (lookup k t) else lookup k t)
lookup-foldl k [] t = ground arith
lookup-foldl k ((j, v) ∷ vars) t = elim (Bool-cases (is_kept j)) [
  | inl e ↦ rw e (
      ground (
        arith,
        e,
        lookup-foldl k vars (insert j v t),
        lookup-insert j k v t,
        eq_iff j k,
        λ (q : j ≡ k). ap is_kept q,
      ))
  | inr e ↦ rw e (ground (arith, e, lookup-foldl k vars t, eq_iff j k, λ (q : j ≡ k). ap is_kept q))
]

lookup-filtered_env :
    (k : String) (vars : List (String × String))
    → lookup k (filtered_env vars) ≡ (
        if k == "TERM" || k == "TZ" || k == "LANG" || k == "PATH"
        then last_value k vars none
        else none)
unfolding filtered_env lookup is_kept
lookup-filtered_env k vars = lookup-foldl k vars []

module _ (system : System) where
  -- No source whose file ends in `.tar.gz` is unpacked: the extension of such a path is `gz`, so the error
  -- for a source that cannot be extracted returns and no program runs.
  pub unpack_source-tar_gz :
      (ws : Workspace) (src : Source system) (s : String)
      → src.local_name ≡ s <> tar_gz
      → (w : World) → unpack_source system ws src w ≡ (err (unextractable_source src), w)
  unfolding unpack_source
  unpack_source-tar_gz ws src s h w = rw h (rw (extension-tar_gz s) refl)

  -- How the script's process ends the build.
  abbrev pub build_result : Status system.I32 → Outcome (WorkspaceError system) (Unit {0})
  build_result status =
      if status.success then ok tt else err (exit_error system "build_script" status.code)

  abbrev pub script_path : Workspace → String
  script_path ws = join_path ws.build_dir "build_script.sh"

  -- The world in which the script is written.
  abbrev pub scripted : Workspace → String → World → World
  scripted ws build_script w = log (wrote (script_path ws) (script_text system build_script)) w

  abbrev pub script_env : Workspace → String → World → Table String
  script_env ws build_script w = filtered_env (system.vars (scripted ws build_script w))

  ended :
      (status : Status system.I32) (v : World)
      → check_status system "build_script" status v ≡ (build_result status, v)
  ended status v = elim (Bool-cases status.success) [ inl h ↦ rw h refl | inr h ↦ rw h refl ]

  -- The script's run, where it can be written and started: one file is written and one process started on
  -- it, which sees the variables TERM, TZ, LANG and PATH as the caller has them and no other, and whose
  -- status decides the result.
  pub build-env :
      (ws : Workspace) (build_script bash : String) (w : World) {status : Status system.I32}
      → system.write w (script_path ws) (script_text system build_script) ≡ ok tt
      → system.which (scripted ws build_script w) "bash" ≡ ok bash
      → system.run
          (scripted ws build_script w)
          bash
          ("-ex" ∷ script_path ws ∷ [])
          (some (script_env ws build_script w))
        ≡ ok status
      → (build system ws build_script w ≡ (
        build_result status,
        log
            (ran bash ("-ex" ∷ script_path ws ∷ []) (some (script_env ws build_script w)))
            (scripted ws build_script w),
      ))
        × ((k : String)
            → lookup k (script_env ws build_script w) ≡ (
                if k == "TERM" || k == "TZ" || k == "LANG" || k == "PATH"
                then last_value k (system.vars (scripted ws build_script w)) none
                else none))
  unfolding build
  build-env ws build_script bash w {status} e f g = (
    rw (e, f, g) (ended status _),
    λ k. lookup-filtered_env k (system.vars (scripted ws build_script w)),
  )
