-- ===== src/Compose/Workspace/Projects/Undone.antt =====
-- What a project that cannot be made leaves, of backend/internal/compose/workspace.go.

use compose_manager.Compose.Workspace.Projects.{
  CreateError, not_made, apply_failed, project_result, made_directories,
}
use compose_manager.Base.{or_false, true, ℕ, drop, ◌++◌}
use compose_manager.Compose.Identifier.{is_identifier}
use compose_manager.Filepath.{join_path}
use compose_manager.Base.{ℤ, Outcome, done, error}
use compose_manager.Base.{if_cases}
use compose_manager.Base.{◌≡◌, refl, sym, ap}
use compose_manager.Base.{◌∙◌, Bool, false, not, ◌||◌, Option, none}
use compose_manager.Base.{some, List, [], ◌∷◌, arith}
use compose_manager.Base.{filter}
use compose_manager.Base.{Text, codes, same, is_empty}
use compose_manager.Base.{trim_space, to_lower}
use compose_manager.Base.{lookup, lookup-insert, lookup-remove}
use compose_manager.Compose.Workspace.{
  Site, Disk, WorkspaceError, resolve_path, holds, replace_failed,
}
use compose_manager.Compose.Workspace.Writing.{put_file, remove_file}
use compose_manager.Compose.Workspace.Projects.{
  CreatedProject, mkdir_all, drop_directory, configured, filled, finished, is_taken, create_at,
  create_project,
}

-- A file that is as it was, and a directory that is not there.
pub record IsUndone (j target : Text) (d d' : Disk) : Type 0 where
  pub file : lookup j d'.files ≡ lookup j d.files
  pub gone : holds target d.directories ≡ false → holds target d'.directories ≡ false

IsUndone-refl : (j target : Text) (d : Disk) → IsUndone j target d d
IsUndone-refl j target d = record { file = refl; gone = λ h. h }

holds-filter :
    (path : Text) (ps : List Text) → holds path (filter (λ p. not (same path p)) ps) ≡ false
unfolding filter
holds-filter path [] = refl
holds-filter path (p ∷ ps) = ground (arith, holds-filter path ps)

dropped :
    (temp j target content : Text) (d made : Disk)
    → same temp j ≡ false
    → made.files ≡ d.files
    → IsUndone j target d (drop_directory target (remove_file temp (put_file temp content made)))
unfolding drop_directory
dropped temp j target content d made other files = record {
  file =
      rw (lookup-remove temp j _, other, lookup-insert temp j content made.files, other, files)
        refl;
  gone = λ h. holds-filter target made.directories;
}

holds-append :
    (path : Text) (ps qs : List Text)
    → holds path ps ≡ false
    → holds path qs ≡ false
    → holds path (ps ++ qs) ≡ false
holds-append path [] qs h h' = h'
holds-append path (p ∷ ps) qs h h' =
    let (first, rest) = or_false (same path p) (holds path ps) h in
    let more = holds-append path ps qs rest h' in ground (arith, first, more)

made_directories-files :
    (o : Option ℕ) (target : Text) (new : List Text) (d : Disk)
    → (made_directories o target new d).1.files ≡ d.files
unfolding made_directories
made_directories-files none target new d = refl
made_directories-files (some n) target new d = refl

mkdir_all-files : (e : Site) (target : Text) (d : Disk) → (mkdir_all e target d).1.files ≡ d.files
unfolding mkdir_all
mkdir_all-files e target d = made_directories-files e.faults.mkdir target _ d

made_directories-error :
    (o : Option ℕ) (j target : Text) (new : List Text) (d : Disk) (x : WorkspaceError)
    → (made_directories o target new d).0 ≡ error x
    → IsUndone j target d (made_directories o target new d).1
unfolding made_directories
made_directories-error none j target new d x q = cc
made_directories-error (some n) j target new d x q = record {
  file = refl;
  gone = λ h. holds-append target _ d.directories (holds-filter target (drop n new)) h;
}

mkdir_all-error :
    (e : Site) (j target : Text) (d : Disk) (x : WorkspaceError)
    → (mkdir_all e target d).0 ≡ error x
    → IsUndone j target d (mkdir_all e target d).1
unfolding mkdir_all
mkdir_all-error e j target d x q = made_directories-error e.faults.mkdir j target _ d x q

configured-error :
    (e : Site) (target file content j : Text) (d made : Disk) (o : Option Text) (x : WorkspaceError)
    → same e.candidate_name j ≡ false
    → made.files ≡ d.files
    → (configured e target file content (put_file e.candidate_name content made) o).0 ≡ error x
    → IsUndone j target d
        (configured e target file content (put_file e.candidate_name content made) o).1
unfolding configured
configured-error e target file content j d made none x other files =
    λ q. dropped e.candidate_name j target content d made other files
configured-error e target file content j d made (some output) x other files =
    if_cases
      (λ (y : Outcome WorkspaceError (Unit {0}) × Disk). y.0 ≡ error x → IsUndone j target d y.1)
      e.faults.replace
      (
        error replace_failed,
        drop_directory target
            (remove_file e.candidate_name (put_file e.candidate_name content made)),
      )
      _ (λ f q. dropped e.candidate_name j target content d made other files) (λ f q. cc)

filled-error :
    (e : Site) (name target file content j : Text) (d : Disk)
    (o : Outcome WorkspaceError (Unit {0}) × Disk) (x : WorkspaceError)
    → same e.candidate_name j ≡ false
    → mkdir_all e target d ≡ o
    → (filled e name target file content o).0 ≡ error x
    → IsUndone j target d (filled e name target file content o).1
unfolding filled
filled-error e name target file content j d (error y, made) x other run =
    let undone : IsUndone j target d (mkdir_all e target d).1 =
      mkdir_all-error e j target d y (ap (λ o. o.0) run) in
    λ q. rw run at undone
filled-error e name target file content j d (done u, made) x other run =
    let files : made.files ≡ d.files = ap (λ o. o.1.files) (sym run) ∙ mkdir_all-files e target d in
    if_cases
      (λ (y : Outcome WorkspaceError (Unit {0}) × Disk). y.0 ≡ error x → IsUndone j target d y.1)
      e.faults.candidate _ _ (λ f q. dropped e.candidate_name j target [] d made other files)
      (λ f q.
        configured-error e target file content j d made (e.run_config name content) x other files q)

finished-error :
    (e : Site) (name : Text) (root_id : ℤ) (file cleaned : Text) (apply : Bool)
    (o : Outcome WorkspaceError (Unit {0}) × Disk) (x : WorkspaceError)
    → (finished e name root_id file cleaned apply o).0 ≡ error (not_made x)
    → (o.0 ≡ error x) × ((finished e name root_id file cleaned apply o).1 ≡ o.1)
unfolding finished
finished-error e name root_id file cleaned apply (error y, d) x q = (cc, refl)
finished-error e name root_id file cleaned apply (done u, d) x q =
    let result = project_result e name root_id file cleaned apply in
    let never : true ≡ false =
      if_cases
        (λ (y : Outcome CreateError CreatedProject × Disk). y.0 ≡ error (not_made x) → true ≡ false)
        (not apply || (e.run_apply name file).1) (done result, d) (error (apply_failed result), d)
        (λ f q'. cc) (λ f q'. cc) q in
    cc

create_at-error :
    (e : Site) (name : Text) (root_id : ℤ) (content j target cleaned : Text) (apply : Bool)
    (d : Disk) (x : WorkspaceError)
    → same e.candidate_name j ≡ false
    → (create_at e name root_id content apply d (done (target, cleaned))).0 ≡ error (not_made x)
    → IsUndone j target d (create_at e name root_id content apply d (done (target, cleaned))).1
unfolding create_at
create_at-error e name root_id content j target cleaned apply d x other =
    if_cases
      (λ (y : Outcome CreateError CreatedProject × Disk).
        y.0 ≡ error (not_made x) → IsUndone j target d y.1)
      (is_empty cleaned) _ _ (λ f q. IsUndone-refl j target d)
      (λ f.
        if_cases
          (λ (y : Outcome CreateError CreatedProject × Disk).
            y.0 ≡ error (not_made x) → IsUndone j target d y.1)
          (is_taken e target d (lookup target d.files)) _ _ (λ g q. IsUndone-refl j target d)
          (λ g q.
            let file = join_path target (codes "compose.yaml") in
            let made = filled e name target file content (mkdir_all e target d) in
            let (failed, left) = finished-error e name root_id file cleaned apply made x q in
            rw left (filled-error e name target file content j d _ x other refl failed)))

-- A creation that makes no project leaves every file as it was, but for the name of its temporary file, and
-- no directory of its own where there was none.
pub create_project-IsUndone :
    (e : Site) (root_id : ℤ) (directory name content j target cleaned : Text) (apply : Bool)
    (d : Disk) (x : WorkspaceError)
    → same e.candidate_name j ≡ false
    → resolve_path e root_id directory ≡ done (target, cleaned)
    → (create_project e root_id directory name content apply d).0 ≡ error (not_made x)
    → IsUndone j target d (create_project e root_id directory name content apply d).1
unfolding create_project
create_project-IsUndone e root_id directory name content j target cleaned apply d x other resolved =
    if_cases
      (λ (y : Outcome CreateError CreatedProject × Disk).
        y.0 ≡ error (not_made x) → IsUndone j target d y.1)
      (not (is_identifier (trim_space name))
        || not (same (trim_space name) (to_lower (trim_space name))))
      _ _ (λ f q. IsUndone-refl j target d)
      (λ f.
        if_cases
          (λ (y : Outcome CreateError CreatedProject × Disk).
            y.0 ≡ error (not_made x) → IsUndone j target d y.1)
          (not (e.document_valid content)) _ _ (λ g q. IsUndone-refl j target d)
          (λ g q. rw resolved (
            create_at-error e (trim_space name) root_id content j target cleaned apply d x other
              (rw resolved at q))))
