-- ===== src/Api/Routes.antt =====
-- The routes of backend/internal/api/server.go, and a request's way through the middleware to its handler.
pub mod Table
pub mod Guarded
use compose_manager.Base.{
  ℤ, pos, negsuc, is_digit, digits, atoi, Outcome, done, error, ◌>>=◌, ◌>>◌, require, or_error,
  bind-done,
}
use compose_manager.Base.{
  require-done, or_error-done, done_inj, if_cases, text_lt, put_sorted, sort_by, All-sort_by, Never,
  Exists, Exists-mono, Exists-of_any, ℕ, zero,
}
use compose_manager.Base.{suc, ◌+◌, ◌-◌, ◌*◌, ◌/◌, ◌%◌, ◌^◌, ◌≤◌, ◌<◌, ◌≡◌, refl, sym, ap, ◌∙◌}
use compose_manager.Base.{
  ◌≢◌, ◌↔◌, ◌⊎◌, inl, inr, Bool, true, false, not, ◌&&◌, ◌||◌, Option, none, some,
}
use compose_manager.Base.{
  List, [], ◌∷◌, ◌++◌, map, arith, ltb, leb, ◌==◌, if◌then◌else◌, ==_iff, Bool-cases, Option-cases,
  and_true,
}
use compose_manager.Base.{
  and_intro, or_false, length, take, drop, all, any, filter, length-append, length-take,
  length-drop, take-append-drop, All, All-append,
}
use compose_manager.Base.{
  All-mono, All-filter, All-filter_test, All-of_all, length-filter, All-of_any, Text, codes, same,
  same_iff, same_refl, same_sym, is_empty, has_prefix,
}
use compose_manager.Base.{
  contains, has_byte, split, join, is_space, trim_left, trim_right, trim_space, lower_byte,
  to_lower, last_piece, but_last, Map, lookup,
}
use compose_manager.Base.{
  insert, remove, purge, lookup-insert, lookup-remove, Unique, Unique-insert, Unique-remove, unless,
  lookup-purge, Unique-purge,
}
use compose_manager.Auth.Store.{Host}
use compose_manager.Auth.Manager.{Secrets, Manager}
use compose_manager.Api.Answers.{Request, Response, answer, result}
use compose_manager.Api.Accounts.{Server, Web, auth_status, auth_setup, auth_login, auth_logout}
use compose_manager.Api.Gate.{gate}
use compose_manager.Api.Service.{Decoders, Reads, Writes}
use compose_manager.Api.Handlers.Projects.{
  overview, projects, create_project, preview_project_removal, delete_project, project_action,
  project_logs, project_web_access, save_project_web_access, get_file, validate_file, save_file,
  versions, restore,
}
use compose_manager.Api.Handlers.Workspace.{
  workspace_roots, workspace_entries, workspace_file, save_workspace_file,
  create_workspace_directory,
}
use compose_manager.Api.Handlers.Engine.{
  containers, container_action, container_logs, images, delete_image, updates, update_tasks,
  run_update, settings, put_settings,
}
use compose_manager.Api.Routes.Table.{
  Reader, Writer, Account, Handler, Route, routes, reader, writer, account, health, static,
}

-- The values of the path's wildcards `key` and `id`.
pub record Values : Type 0 where
  pub key : Text
  pub id : Text

-- `net/http.ServeMux`, with what it answers where no route matches, and what the handlers that have no
-- part in the state answer: the files of the frontend, and the health's JSON.
pub record Mux : Type 0 where
  pub choose : List Route → Text → Text → Option (Route × Values)
  pub unmatched : Request → Response
  pub static : Request → Response
  pub health_json : Text

pub record State (S : Type 0) : Type 0 where
  pub server : Server
  pub service : S

abbrev with_server : {S : Type 0} → State S → Response × Server → Response × State S
with_server state (response, server) = (response, record state { server = server })

abbrev with_service : {S : Type 0} → State S → Response × S → Response × State S
with_service state (response, s) = (response, record state { service = s })

module _ {S : Type 0} (decoders : Decoders) (reads : Reads S) (writes : Writes S) where
  pub read : Reader → Values → Request → S → Response
  read Reader.overview values r s = overview reads s
  read Reader.projects values r s = projects reads r s
  read Reader.project_logs values r s = project_logs reads values.key r s
  read Reader.project_web_access values r s = project_web_access reads values.key s
  read Reader.get_file values r s = get_file reads values.key s
  read Reader.versions values r s = versions reads values.key s
  read Reader.workspace_roots values r s = workspace_roots reads s
  read Reader.workspace_entries values r s = workspace_entries reads r s
  read Reader.workspace_file values r s = workspace_file reads r s
  read Reader.containers values r s = containers reads s
  read Reader.container_logs values r s = container_logs reads values.id r s
  read Reader.images values r s = images reads s
  read Reader.updates values r s = updates reads s
  read Reader.update_tasks values r s = update_tasks reads s
  read Reader.settings values r s = settings reads s

  unfoldable pub write : Writer → Values → Request → S → Response × S
  write Writer.create_project values r s = create_project decoders writes r s
  write Writer.preview_project_removal values r s =
      preview_project_removal decoders writes values.key s
  write Writer.delete_project values r s = delete_project decoders writes values.key r s
  write Writer.project_action values r s = project_action decoders writes values.key r s
  write Writer.save_project_web_access values r s =
      save_project_web_access decoders writes values.key r s
  write Writer.validate_file values r s = validate_file decoders writes values.key r s
  write Writer.save_file values r s = save_file decoders writes values.key r s
  write Writer.restore values r s = restore decoders writes values.key values.id r s
  write Writer.save_workspace_file values r s = save_workspace_file decoders writes r s
  write Writer.create_workspace_directory values r s =
      create_workspace_directory decoders writes r s
  write Writer.container_action values r s = container_action decoders writes values.id r s
  write Writer.delete_image values r s = delete_image decoders writes values.id r s
  write Writer.run_update values r s = run_update decoders writes r s
  write Writer.put_settings values r s = put_settings decoders writes r s

  pub account_of : Host → Secrets → Web → Account → Request → Server → Response × Server
  account_of h k w Account.auth_status r server = (auth_status h w r server, server)
  account_of h k w Account.auth_setup r server = auth_setup h k w r server
  account_of h k w Account.auth_login r server = auth_login h k w r server
  account_of h k w Account.auth_logout r server = auth_logout h r server

  unfoldable pub handle :
      Host → Secrets → Web → Mux → Handler → Values → Request → State S → Response × State S
  handle h k w mux (reader x) values r state = (read x values r state.service, state)
  handle h k w mux (writer x) values r state = with_service state (write x values r state.service)
  handle h k w mux (account x) values r state =
      with_server state (account_of h k w x r state.server)
  handle h k w mux health values r state =
      (answer 200 (result (codes "status") mux.health_json), state)
  handle h k w mux static values r state = (mux.static r, state)

  unfoldable pub routed :
      Host → Secrets → Web → Mux → Request → State S → Option (Route × Values) → Response × State S
  routed h k w mux r state none = (mux.unmatched r, state)
  routed h k w mux r state (some (route, values)) = handle h k w mux route.handler values r state

  unfoldable pub served :
      Host → Secrets → Web → Mux → Request → State S → Option Response → Response × State S
  served h k w mux r state (some response) = (response, state)
  served h k w mux r state none = routed h k w mux r state (mux.choose routes r.method r.path)

  -- A request through the handler that `New` makes, its headers, its log and the recovery of a panic
  -- aside.
  unfoldable pub serve : Host → Secrets → Web → Mux → Request → State S → Response × State S
  serve h k w mux r state = served h k w mux r state (gate h r state.server.auth)
