-- ===== src/Ports/Workspace/Packaging.antt =====
-- What `package` makes of a list of files.
use ips.Base.{ap, String, ◌≡◌, refl, sym, ◌∙◌, some, List, [], ◌∷◌, ◌++◌, append_assoc, append-nil}
use ips.Base.Outcome.{Outcome, ok, err, panic, map_err}
use ips.Digest.{Hashes}
use ips.Payload.{ObjectCrate}
use ips.Actions.File.{FileError, File, read_from_path}
use ips.Actions.Manifest as Manifests
use ips.Actions.Manifest.{Manifest, add_file}
use ips.Ports.System.{System, entered, printed, World, ◌>>=◌, ◌>>◌, say, set_current_dir, log}
use ips.Ports.Workspace.{
  Workspace, WorkspaceError, ips_action_error, io_error, relative, add_files, package_files,
}

module _ (system : System) (object : ObjectCrate) (hashes : Hashes) where
  abbrev pub prefixed :
      File
      → Outcome (WorkspaceError system) (List File)
      → Outcome (WorkspaceError system) (List File)
  prefixed file (ok files) = ok (file ∷ files)
  prefixed file (err e) = err e
  prefixed file panic = panic

  abbrev read_step :
      Outcome (FileError system.IoError) File
      → Outcome (WorkspaceError system) (List File)
      → Outcome (WorkspaceError system) (List File)
  read_step (ok file) rest = prefixed file rest
  read_step (err e) rest = err (ips_action_error e)
  read_step panic rest = panic

  -- The files of a list, in order, up to the first that cannot be read.
  unfoldable pub read_files : World → List String → Outcome (WorkspaceError system) (List File)
  read_files w [] = ok []
  read_files w (f ∷ fs) =
      read_step (read_from_path object hashes (system.read w) (some (relative f))) (read_files w fs)

  -- A manifest with files behind its own.
  abbrev pub extended :
      Manifest
      → Outcome (WorkspaceError system) (List File)
      → Outcome (WorkspaceError system) Manifest
  extended m (ok files) = ok (record m { files = m.files ++ files })
  extended m (err e) = err e
  extended m panic = panic

  extended-prefixed :
      (m : Manifest) (file : File) (o : Outcome (WorkspaceError system) (List File))
      → extended (add_file file m) o ≡ extended m (prefixed file o)
  unfolding add_file
  extended-prefixed m file (ok fs) =
      ap (λ t. ok (record m { files = t })) (append_assoc m.files (file ∷ []) fs)
  extended-prefixed m file (err e) = refl
  extended-prefixed m file panic = refl

  add_files-cons :
      (m : Manifest) (fs : List String) (w : World) (o : Outcome (FileError system.IoError) File)
      → ((n : Manifest) → add_files system object hashes n fs w ≡ (extended n (read_files w fs), w))
      → ◌>>=◌
          (λ v. (map_err ips_action_error o, v))
          (λ file. add_files system object hashes (add_file file m) fs)
          w
        ≡ (extended m (read_step o (read_files w fs)), w)
  add_files-cons m fs w (ok file) h =
      h (add_file file m) ∙ ap (λ o. (o, w)) (extended-prefixed m file (read_files w fs))
  add_files-cons m fs w (err e) h = refl
  add_files-cons m fs w panic h = refl

  add_files_lem :
      (m : Manifest) (fs : List String) (w : World)
      → add_files system object hashes m fs w ≡ (extended m (read_files w fs), w)
  unfolding add_files read_files
  add_files_lem m [] w = ap (λ t. (ok (record m { files = t }), w)) (sym (append-nil m.files))
  add_files_lem m (f ∷ fs) w =
      add_files-cons m fs w (read_from_path object hashes (system.read w) (some (relative f)))
        (λ n. add_files_lem n fs w)

  -- The world inside the proto directory.
  abbrev pub inside : Workspace → String → World → World
  inside ws dir w = record (log (entered ws.proto_dir) w) { cwd = dir }

  -- What the packaging ends with, `back` the directory that entering `home` leads to.
  abbrev pub packaged :
      String
      → String
      → World
      → Outcome (WorkspaceError system) (List File)
      → Outcome (WorkspaceError system) (Unit {0}) × World
  packaged home back w (ok files) = (
    ok tt,
    log (printed (record Manifests.new { files = files }))
        (record (log (entered home) w) { cwd = back }),
  )
  packaged home back w (err e) = (err e, w)
  packaged home back w panic = (panic, w)

  package_files-after :
      (home back : String) (w : World) (o : Outcome (WorkspaceError system) (List File))
      → system.enter w home ≡ ok back
      → ◌>>=◌
          (λ v. (extended Manifests.new o, w))
          (λ m. set_current_dir system io_error home >> say (printed m))
          w
        ≡ packaged home back w o
  package_files-after home back w (ok fs) h = rw h refl
  package_files-after home back w (err e) h = refl
  package_files-after home back w panic h = refl

  -- The manifest of a package, where both changes of the working directory succeed: it lists the files of
  -- the list in order, read in the proto directory, and is printed back in the directory that the caller
  -- stood in. Where one of them cannot be read, the error returns, nothing is printed, and the working
  -- directory stays the proto directory.
  pub package_files-packaged :
      (ws : Workspace) (file_list : List String) (home dir back : String) (w : World)
      → system.current_dir w ≡ ok home
      → system.enter w ws.proto_dir ≡ ok dir
      → system.enter (inside ws dir w) home ≡ ok back
      → package_files system object hashes ws file_list w
        ≡ packaged home back (inside ws dir w) (read_files (inside ws dir w) file_list)
  unfolding package_files
  package_files-packaged ws file_list home dir back w e f g =
      rw (e, f)
        (rw (add_files_lem Manifests.new file_list (inside ws dir w)) (
          package_files-after home back (inside ws dir w) (read_files (inside ws dir w) file_list)
            g))
