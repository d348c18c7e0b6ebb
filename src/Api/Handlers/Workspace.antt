-- ===== src/Api/Handlers/Workspace.antt =====
-- The handlers of backend/internal/api/server.go on the workspace.

use compose_manager.Base.{ℤ, pos, atoi, Outcome, done, error}
use compose_manager.Base.{Bool, true}
use compose_manager.Base.{if◌then◌else◌}
use compose_manager.Base.{codes, is_empty}
use compose_manager.Base.{trim_space}
use compose_manager.Api.Answers.{Request, Response, answer, write_data, write_error, decode_json}
use compose_manager.Api.Service.{ServiceError, workspace_conflict, Decoders, Reads, Writes}
use compose_manager.Api.Handlers.{query, data_or, written, decoded_by, plain, ok_body}

-- `workspaceRootID`: no root is the first.
pub checked_root : ℤ × Bool → Outcome Response ℤ
checked_root (pos n, true) = done (pos n)
checked_root parsed =
    error (write_error 400 (codes "INVALID_WORKSPACE_ROOT") (codes "invalid workspace root"))

pub workspace_root_id : Request → Outcome Response ℤ
workspace_root_id r =
    let value = trim_space (query r (codes "root")) in
    if is_empty value then done (pos 0) else checked_root (atoi value)

abbrev at_root : (ℤ → Response) → Outcome Response ℤ → Response
at_root next (error response) = response
at_root next (done root) = next root

module _ {S : Type 0} (reads : Reads S) where
  pub workspace_roots : S → Response
  workspace_roots s = write_data 200 (reads.workspace_roots s)

  pub workspace_entries : Request → S → Response
  workspace_entries r s =
      at_root
        (λ root.
          data_or (codes "data") 400 (codes "WORKSPACE_LIST_FAILED")
            (reads.workspace_entries root (query r (codes "path")) s))
        (workspace_root_id r)

  pub workspace_file : Request → S → Response
  workspace_file r s =
      at_root
        (λ root.
          data_or (codes "data") 400 (codes "WORKSPACE_FILE_READ_FAILED")
            (reads.workspace_file root (query r (codes "path")) s))
        (workspace_root_id r)

module _ {S : Type 0} (decoders : Decoders) (writes : Writes S) where
  pub save_workspace_failed : ServiceError → Response
  save_workspace_failed e = elim e.kind [
    | workspace_conflict ↦ write_error 409 (codes "FILE_CONFLICT") e.text
    | _ ↦ write_error 422 (codes "WORKSPACE_FILE_SAVE_FAILED") e.text
  ]

  pub save_workspace_file : Request → S → Response × S
  save_workspace_file r s =
      decoded_by
        (λ request s.
          written save_workspace_failed (write_data 200) (writes.save_workspace_file request s))
        s (decode_json (decoders.save_workspace_file r.body))

  pub create_workspace_directory : Request → S → Response × S
  create_workspace_directory r s =
      decoded_by
        (λ request s.
          written (plain 422 (codes "WORKSPACE_DIRECTORY_CREATE_FAILED")) (λ u. answer 201 ok_body)
            (writes.create_workspace_directory request s))
        s (decode_json (decoders.directory r.body))
