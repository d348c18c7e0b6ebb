-- ===== src/Api/Handlers/Projects.antt =====
-- The handlers of backend/internal/api on projects: server.go, project_removal.go and web_access.go.

use compose_manager.Base.{ℤ, pos, atoi}
use compose_manager.Base.{ℕ, zero}
use compose_manager.Base.{suc}
use compose_manager.Base.{Bool, true, Option, none, some}
use compose_manager.Base.{if◌then◌else◌}
use compose_manager.Base.{Text, codes, same}
use compose_manager.Api.Answers.{
  Request, Response, answer, write_data, write_error, decode_json, public_error, result, warned,
  validated,
}
use compose_manager.Api.Service.{ServiceError, file_conflict, Decoders, Reads, Writes}
use compose_manager.Api.Handlers.{query, data_or, written, decoded_by, plain, empty_answer}

module _ {S : Type 0} (reads : Reads S) where
  abbrev warning : Option ServiceError → Option Text
  warning none = none
  warning (some e) = some (public_error e.text)

  pub overview : S → Response
  overview s =
      let (json, e) = reads.overview s in
      elim e [ none ↦ write_data 200 json | some e ↦ answer 200 (warned json (warning (some e))) ]

  -- An error is passed over where there are projects.
  abbrev project_list : ℕ → Text → Option ServiceError → Response
  project_list zero json (some e) = write_error 503 (codes "DISCOVERY_FAILED") e.text
  project_list n json e = answer 200 (warned json (warning e))

  pub projects : Request → S → Response
  projects r s =
      let (n, (json, e)) =
        if same (query r (codes "fresh")) (codes "1")
        then reads.refresh_projects s
        else reads.projects s in
      project_list n json e

  pub project_logs : Text → Request → S → Response
  project_logs key r s =
      data_or (codes "logs") 400 (codes "LOGS_FAILED")
        (reads.project_logs key (query r (codes "service")) (atoi (query r (codes "tail"))).0 s)

  pub project_web_access : Text → S → Response
  project_web_access key s =
      data_or (codes "data") 400 (codes "WEB_ACCESS_FAILED") (reads.project_web_access key s)

  pub get_file : Text → S → Response
  get_file key s = data_or (codes "data") 400 (codes "FILE_READ_FAILED") (reads.file key s)

  pub versions : Text → S → Response
  versions key s = data_or (codes "data") 500 (codes "VERSIONS_FAILED") (reads.versions key s)

module _ {S : Type 0} (decoders : Decoders) (writes : Writes S) where
  pub create_project : Request → S → Response × S
  create_project r s =
      decoded_by
        (λ request s.
          written (plain 422 (codes "COMPOSE_CREATE_FAILED")) (write_data 201)
            (writes.create_project request s))
        s (decode_json (decoders.create_project r.body))

  -- A deletion's preview stores a ticket.
  pub preview_project_removal : Text → S → Response × S
  preview_project_removal key s =
      written (plain 409 (codes "DELETE_PREVIEW_FAILED")) (write_data 200)
        (writes.preview_project_removal key s)

  pub delete_project : Text → Request → S → Response × S
  delete_project key r s =
      decoded_by
        (λ request s.
          written (plain 409 (codes "DELETE_REJECTED")) (write_data 200)
            (writes.delete_project key request s))
        s (decode_json (decoders.project_removal r.body))

  pub project_action : Text → Request → S → Response × S
  project_action key r s =
      decoded_by
        (λ request s.
          written (plain 400 (codes "COMPOSE_ACTION_FAILED"))
            (λ out. answer 200 (result (codes "output") out)) (writes.project_action key request s))
        s (decode_json (decoders.project_action r.body))

  pub save_project_web_access : Text → Request → S → Response × S
  save_project_web_access key r s =
      decoded_by
        (λ config s.
          written (plain 400 (codes "WEB_ACCESS_SAVE_FAILED")) (λ u. empty_answer)
            (writes.save_project_web_access key config s))
        s (decode_json (decoders.web_config r.body))

  pub validate_file : Text → Request → S → Response × S
  validate_file key r s =
      decoded_by
        (λ content s.
          written (plain 422 (codes "COMPOSE_INVALID"))
            (λ (out, diff). answer 200 (validated out diff)) (writes.validate_file key content s))
        s (decode_json (decoders.content r.body))

  pub save_failed : ServiceError → Response
  save_failed e = elim e.kind [
    | file_conflict ↦ write_error 409 (codes "FILE_CONFLICT") e.text
    | _ ↦ write_error 422 (codes "COMPOSE_SAVE_FAILED") e.text
  ]

  pub save_file : Text → Request → S → Response × S
  save_file key r s =
      decoded_by
        (λ request s. written save_failed (write_data 200) (writes.save_file key request s)) s
        (decode_json (decoders.save_file r.body))

  abbrev invalid_version : Response
  invalid_version = write_error 400 (codes "INVALID_VERSION") (codes "invalid version id")

  -- The number of a version must be an integer of 64 bits from 1 on.
  pub restore_version : Text → ℤ × Bool → Request → S → Response × S
  restore_version key (pos (suc n), true) r s =
      decoded_by
        (λ request s.
          written (plain 422 (codes "RESTORE_FAILED")) (write_data 200)
            (writes.restore key (suc n) request s))
        s (decode_json (decoders.restore r.body))
  restore_version key parsed r s = (invalid_version, s)

  pub restore : Text → Text → Request → S → Response × S
  restore key id r s = restore_version key (atoi id) r s
