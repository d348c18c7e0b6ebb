-- ===== src/Api/Routes/Table.antt =====
-- The table of routes of backend/internal/api/server.go.

use compose_manager.Base.{List, [], ◌∷◌}
use compose_manager.Base.{Text, codes}

-- The handlers, by what they have a part in: the service's state, to read or to change it, or the
-- sessions and limiters.
pub data Reader : Type 0 where
  overview projects project_logs project_web_access get_file versions : Reader
  workspace_roots workspace_entries workspace_file containers container_logs images updates : Reader
  update_tasks settings : Reader

pub data Writer : Type 0 where
  create_project preview_project_removal delete_project project_action save_project_web_access
        validate_file save_file :
      Writer
  restore save_workspace_file create_workspace_directory container_action delete_image : Writer
  run_update put_settings : Writer

pub data Account : Type 0 where
  auth_status auth_setup auth_login auth_logout : Account

pub data Handler : Type 0 where
  reader : Reader → Handler
  writer : Writer → Handler
  account : Account → Handler
  health static : Handler

pub record Route : Type 0 where
  pub method : Text
  pub pattern : Text
  pub handler : Handler

-- The patterns of `routes`; the last has no method, and is that of the frontend.
unfoldable pub routes : List Route
routes =
    record { method = codes "GET"; pattern = codes "/api/v1/health"; handler = health }
    ∷ record {
      method = codes "GET";
      pattern = codes "/api/v1/auth/status";
      handler = account Account.auth_status;
    }
    ∷ record {
      method = codes "POST";
      pattern = codes "/api/v1/auth/setup";
      handler = account Account.auth_setup;
    }
    ∷ record {
      method = codes "POST";
      pattern = codes "/api/v1/auth/login";
      handler = account Account.auth_login;
    }
    ∷ record {
      method = codes "POST";
      pattern = codes "/api/v1/auth/logout";
      handler = account Account.auth_logout;
    }
    ∷ record {
      method = codes "GET";
      pattern = codes "/api/v1/overview";
      handler = reader Reader.overview;
    }
    ∷ record {
      method = codes "GET";
      pattern = codes "/api/v1/compose/projects";
      handler = reader Reader.projects;
    }
    ∷ record {
      method = codes "POST";
      pattern = codes "/api/v1/compose/projects";
      handler = writer Writer.create_project;
    }
    ∷ record {
      method = codes "GET";
      pattern = codes "/api/v1/compose/projects/{key}/deletion";
      handler = writer Writer.preview_project_removal;
    }
    ∷ record {
      method = codes "POST";
      pattern = codes "/api/v1/compose/projects/{key}/deletion";
      handler = writer Writer.delete_project;
    }
    ∷ record {
      method = codes "POST";
      pattern = codes "/api/v1/compose/projects/{key}/actions";
      handler = writer Writer.project_action;
    }
    ∷ record {
      method = codes "GET";
      pattern = codes "/api/v1/compose/projects/{key}/logs";
      handler = reader Reader.project_logs;
    }
    ∷ record {
      method = codes "GET";
      pattern = codes "/api/v1/compose/projects/{key}/web-access";
      handler = reader Reader.project_web_access;
    }
    ∷ record {
      method = codes "PUT";
      pattern = codes "/api/v1/compose/projects/{key}/web-access";
      handler = writer Writer.save_project_web_access;
    }
    ∷ record {
      method = codes "GET";
      pattern = codes "/api/v1/compose/projects/{key}/file";
      handler = reader Reader.get_file;
    }
    ∷ record {
      method = codes "POST";
      pattern = codes "/api/v1/compose/projects/{key}/file/validate";
      handler = writer Writer.validate_file;
    }
    ∷ record {
      method = codes "PUT";
      pattern = codes "/api/v1/compose/projects/{key}/file";
      handler = writer Writer.save_file;
    }
    ∷ record {
      method = codes "GET";
      pattern = codes "/api/v1/compose/projects/{key}/versions";
      handler = reader Reader.versions;
    }
    ∷ record {
      method = codes "POST";
      pattern = codes "/api/v1/compose/projects/{key}/versions/{id}/restore";
      handler = writer Writer.restore;
    }
    ∷ record {
      method = codes "GET";
      pattern = codes "/api/v1/workspace/roots";
      handler = reader Reader.workspace_roots;
    }
    ∷ record {
      method = codes "GET";
      pattern = codes "/api/v1/workspace/entries";
      handler = reader Reader.workspace_entries;
    }
    ∷ record {
      method = codes "GET";
      pattern = codes "/api/v1/workspace/file";
      handler = reader Reader.workspace_file;
    }
    ∷ record {
      method = codes "PUT";
      pattern = codes "/api/v1/workspace/file";
      handler = writer Writer.save_workspace_file;
    }
    ∷ record {
      method = codes "POST";
      pattern = codes "/api/v1/workspace/directories";
      handler = writer Writer.create_workspace_directory;
    }
    ∷ record {
      method = codes "GET";
      pattern = codes "/api/v1/containers";
      handler = reader Reader.containers;
    }
    ∷ record {
      method = codes "POST";
      pattern = codes "/api/v1/containers/{id}/actions";
      handler = writer Writer.container_action;
    }
    ∷ record {
      method = codes "GET";
      pattern = codes "/api/v1/containers/{id}/logs";
      handler = reader Reader.container_logs;
    }
    ∷ record {
      method = codes "GET";
      pattern = codes "/api/v1/images";
      handler = reader Reader.images;
    }
    ∷ record {
      method = codes "DELETE";
      pattern = codes "/api/v1/images/{id}";
      handler = writer Writer.delete_image;
    }
    ∷ record {
      method = codes "GET";
      pattern = codes "/api/v1/updates";
      handler = reader Reader.updates;
    }
    ∷ record {
      method = codes "GET";
      pattern = codes "/api/v1/updates/tasks";
      handler = reader Reader.update_tasks;
    }
    ∷ record {
      method = codes "POST";
      pattern = codes "/api/v1/updates/run";
      handler = writer Writer.run_update;
    }
    ∷ record {
      method = codes "GET";
      pattern = codes "/api/v1/settings";
      handler = reader Reader.settings;
    }
    ∷ record {
      method = codes "PUT";
      pattern = codes "/api/v1/settings";
      handler = writer Writer.put_settings;
    }
    ∷ record { method = []; pattern = codes "/"; handler = static }
    ∷ []
