-- ===== src/Compose/Workspace/Projects/Made.antt =====
-- What a project that is made leaves, of backend/internal/compose/workspace.go.

use compose_manager.Compose.Workspace.Projects.{
  CreateError, not_made, apply_failed, created, project_result,
}
use compose_manager.Compose.Identifier.{is_identifier}
use compose_manager.Filepath.{join_path}
use compose_manager.Base.{ℤ, Outcome, done, error}
use compose_manager.Base.{if_cases}
use compose_manager.Base.{◌≡◌, refl, ap}
use compose_manager.Base.{Bool, true, false, not, ◌||◌, Option, none}
use compose_manager.Base.{some, [], arith}
use compose_manager.Base.{or_false}
use compose_manager.Base.{Text, codes, same, same_refl, is_empty}
use compose_manager.Base.{trim_space, to_lower}
use compose_manager.Base.{lookup, lookup-insert}
use compose_manager.Compose.Workspace.{
  Site, Disk, WorkspaceError, resolve_path, temp_failed, replace_failed, name_required,
  invalid_name, invalid_document, exists,
}
use compose_manager.Compose.Workspace.Writing.{put_file, remove_file}
use compose_manager.Compose.Workspace.Projects.{
  CreatedProject, mkdir_all, drop_directory, configured, filled, finished, is_taken, create_at,
  create_project,
}

configured-done :
    (e : Site) (target file content : Text) (d : Disk) (o : Option Text)
    → (configured e target file content d o).0 ≡ done tt
    → lookup file (configured e target file content d o).1.files ≡ some content
unfolding configured
configured-done e target file content d none = λ q. cc
configured-done e target file content d (some output) =
    if_cases
      (λ (y : Outcome WorkspaceError (Unit {0}) × Disk).
        y.0 ≡ done tt → lookup file y.1.files ≡ some content)
      e.faults.replace
      (error replace_failed, drop_directory target (remove_file e.candidate_name d)) _ (λ f q. cc)
      (λ f q. rw (lookup-insert file file content _, same_refl file) refl)

filled-done :
    (e : Site) (name target file content : Text) (o : Outcome WorkspaceError (Unit {0}) × Disk)
    → (filled e name target file content o).0 ≡ done tt
    → lookup file (filled e name target file content o).1.files ≡ some content
unfolding filled
filled-done e name target file content (error y, made) = λ q. cc
filled-done e name target file content (done u, made) =
    if_cases
      (λ (y : Outcome WorkspaceError (Unit {0}) × Disk).
        y.0 ≡ done tt → lookup file y.1.files ≡ some content)
      e.faults.candidate
      (
        error temp_failed,
        drop_directory target (remove_file e.candidate_name (put_file e.candidate_name [] made)),
      )
      _ (λ f q. cc) (λ f q. configured-done e target file content _ (e.run_config name content) q)

finished-created :
    (e : Site) (name : Text) (root_id : ℤ) (file cleaned : Text) (apply : Bool)
    (o : Outcome WorkspaceError (Unit {0}) × Disk) (r : CreatedProject)
    → created (finished e name root_id file cleaned apply o).0 ≡ some r
    → (o.0 ≡ done tt) × (r.name ≡ name) × ((finished e name root_id file cleaned apply o).1 ≡ o.1)
unfolding finished
finished-created e name root_id file cleaned apply (error y, d) r q = cc
finished-created e name root_id file cleaned apply (done u, d) r q =
    let result = project_result e name root_id file cleaned apply in
    let both =
      if_cases
        (λ (x : Outcome CreateError CreatedProject × Disk).
          created x.0 ≡ some r → (r ≡ result) × (x.1 ≡ d))
        (not apply || (e.run_apply name file).1) (done result, d) (error (apply_failed result), d)
        (λ f q'. (cc, refl)) (λ f q'. (cc, refl)) q in
    (refl, ap (λ (c : CreatedProject). c.name) both.0, both.1)

-- What is so of a project that is made.
pub record IsMade (e : Site) (name content target : Text) (d : Disk) (r : CreatedProject)
    (d' : Disk) : Type 0 where
  pub named : r.name ≡ name
  pub new : is_taken e target d (lookup target d.files) ≡ false
  pub written : lookup (join_path target (codes "compose.yaml")) d'.files ≡ some content

create_at-created :
    (e : Site) (name : Text) (root_id : ℤ) (content target cleaned : Text) (apply : Bool) (d : Disk)
    (r : CreatedProject)
    → created (create_at e name root_id content apply d (done (target, cleaned))).0 ≡ some r
    → IsMade e name content target d r
        (create_at e name root_id content apply d (done (target, cleaned))).1
unfolding create_at
create_at-created e name root_id content target cleaned apply d r =
    if_cases
      (λ (y : Outcome CreateError CreatedProject × Disk).
        created y.0 ≡ some r → IsMade e name content target d r y.1)
      (is_empty cleaned) (error (not_made name_required), d) _ (λ f q. cc)
      (λ f.
        if_cases
          (λ (y : Outcome CreateError CreatedProject × Disk).
            created y.0 ≡ some r → IsMade e name content target d r y.1)
          (is_taken e target d (lookup target d.files)) (error (not_made exists), d) _ (λ g q. cc)
          (λ g q.
            let file = join_path target (codes "compose.yaml") in
            let made = filled e name target file content (mkdir_all e target d) in
            let (filled_file, named, left) =
              finished-created e name root_id file cleaned apply made r q in
            rw left (record {
              named = named;
              new = g;
              written = filled-done e name target file content (mkdir_all e target d) filled_file;
            })))

-- A project that is made, even if `apply` then fails, has a name that the runner takes for an identifier,
-- without capitals, and a valid document, stands where nothing stood, and its Compose file holds the
-- content.
pub create_project-IsMade :
    (e : Site) (root_id : ℤ) (directory name content target cleaned : Text) (apply : Bool)
    (d : Disk) (r : CreatedProject)
    → resolve_path e root_id directory ≡ done (target, cleaned)
    → created (create_project e root_id directory name content apply d).0 ≡ some r
    → (is_identifier r.name ≡ true)
      × (same r.name (to_lower r.name) ≡ true)
      × (e.document_valid content ≡ true)
      × IsMade e
          (trim_space name)
          content
          target
          d
          r
          (create_project e root_id directory name content apply d).1
unfolding create_project
create_project-IsMade e root_id directory name content target cleaned apply d r resolved =
    let Made : Outcome CreateError CreatedProject × Disk → Type 0 = λ y.
      created y.0 ≡ some r
      → (is_identifier r.name ≡ true)
        × (same r.name (to_lower r.name) ≡ true)
        × (e.document_valid content ≡ true)
        × IsMade e (trim_space name) content target d r y.1 in
    if_cases Made
      (not (is_identifier (trim_space name))
        || not (same (trim_space name) (to_lower (trim_space name))))
      (error (not_made invalid_name), d) _ (λ f q. cc)
      (λ f.
        if_cases Made (not (e.document_valid content)) (error (not_made invalid_document), d) _
          (λ g q. cc)
          (λ g. rw resolved (λ q.
            let made =
              create_at-created e (trim_space name) root_id content target cleaned apply d r q in
            let (plain, lower) = or_false (not (is_identifier (trim_space name))) _ f in
            (
              rw made.named (ground (arith, plain)),
              rw made.named (ground (arith, lower)),
              ground (arith, g),
              made,
            ))))
