-- ===== src/Api/Handlers/Engine.antt =====
-- The handlers of backend/internal/api/server.go on containers, images, updates and settings.

use compose_manager.Base.{atoi}
use compose_manager.Base.{not}
use compose_manager.Base.{if◌then◌else◌}
use compose_manager.Base.{Text, codes, same}
use compose_manager.Api.Answers.{Request, Response, answer, write_data, write_error, decode_json}
use compose_manager.Api.Service.{ServiceError, update_already_running, Decoders, Reads, Writes}
use compose_manager.Api.Handlers.{query, data_or, written, decoded_by, plain, ok_body, empty_answer}

module _ {S : Type 0} (reads : Reads S) where
  pub containers : S → Response
  containers s = data_or (codes "data") 503 (codes "DOCKER_UNAVAILABLE") (reads.containers s)

  pub container_logs : Text → Request → S → Response
  container_logs id r s =
      data_or (codes "logs") 400 (codes "CONTAINER_LOGS_FAILED")
        (reads.container_logs id (atoi (query r (codes "tail"))).0 s)

  pub images : S → Response
  images s = data_or (codes "data") 503 (codes "IMAGES_FAILED") (reads.images s)

  pub updates : S → Response
  updates s = data_or (codes "data") 500 (codes "UPDATES_FAILED") (reads.updates s)

  pub update_tasks : S → Response
  update_tasks s = write_data 200 (reads.update_tasks s)

  pub settings : S → Response
  settings s = data_or (codes "data") 500 (codes "SETTINGS_FAILED") (reads.settings s)

module _ {S : Type 0} (decoders : Decoders) (writes : Writes S) where
  pub container_action : Text → Request → S → Response × S
  container_action id r s =
      decoded_by
        (λ action s.
          written (plain 400 (codes "CONTAINER_ACTION_FAILED")) (λ u. answer 200 ok_body)
            (writes.container_action id action s))
        s (decode_json (decoders.container_action r.body))

  -- An image goes only with an explicit confirmation.
  pub delete_image : Text → Request → S → Response × S
  delete_image id r s =
      let next =
        written (plain 409 (codes "IMAGE_REFERENCED")) (λ u. empty_answer)
          (writes.delete_image id s) in
      if not (same (query r (codes "confirm")) (codes "true"))
      then (
        write_error 400 (codes "CONFIRMATION_REQUIRED") (codes "explicit confirmation is required"),
        s,
      )
      else next

  pub update_failed : ServiceError → Response
  update_failed e = elim e.kind [
    | update_already_running ↦ write_error 409 (codes "UPDATE_ALREADY_RUNNING") e.text
    | _ ↦ write_error 422 (codes "UPDATE_FAILED") e.text
  ]

  pub run_update : Request → S → Response × S
  run_update r s =
      decoded_by
        (λ request s. written update_failed (write_data 202) (writes.start_update request s)) s
        (decode_json (decoders.update r.body))

  unfoldable pub put_settings : Request → S → Response × S
  put_settings r s =
      decoded_by
        (λ values s.
          written (plain 500 (codes "SETTINGS_SAVE_FAILED")) (λ u. answer 200 ok_body)
            (writes.put_settings values s))
        s (decode_json (decoders.settings r.body))
