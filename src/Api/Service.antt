-- ===== src/Api/Service.antt =====
-- What the handlers of backend/internal/api call of the service of backend/internal/app, over the state
-- that outlives a request: files, database, engine, tickets
-- and tasks. The service's caches are no part of it. The results
-- are JSON text.

use compose_manager.Base.{ℤ, Outcome}
use compose_manager.Base.{ℕ}
use compose_manager.Base.{Bool, Option}
use compose_manager.Base.{Text}

pub data ErrorKind : Type 0 where
  other file_conflict workspace_conflict update_already_running : ErrorKind

-- An error, by what `errors.Is` finds in it, and its text.
pub record ServiceError : Type 0 where
  pub kind : ErrorKind
  pub text : Text

pub record CreateProjectRequest : Type 0 where
  pub root_id : ℤ
  pub directory : Text
  pub name : Text
  pub content : Text
  pub apply : Bool

pub record ActionRequest : Type 0 where
  pub action : Text
  pub service : Text

pub record SaveFileRequest : Type 0 where
  pub content : Text
  pub base_sha : Text
  pub apply : Bool

pub record RestoreRequest : Type 0 where
  pub base_sha : Text
  pub apply : Bool

pub record SaveWorkspaceFileRequest : Type 0 where
  pub root_id : ℤ
  pub path : Text
  pub content : Text
  pub base_sha : Text

pub record DirectoryRequest : Type 0 where
  pub root_id : ℤ
  pub path : Text

pub record UpdateRequest : Type 0 where
  pub project : Text
  pub service : Text

abbrev pub Decoder : Type 0 → Type 0
Decoder A = Text → Outcome Text (A × Bool)

-- The decoders of the bodies; those that the handlers pass on whole stay text.
pub record Decoders : Type 0 where
  pub create_project : Decoder CreateProjectRequest
  pub project_action : Decoder ActionRequest
  pub content : Decoder Text
  pub save_file : Decoder SaveFileRequest
  pub restore : Decoder RestoreRequest
  pub save_workspace_file : Decoder SaveWorkspaceFileRequest
  pub directory : Decoder DirectoryRequest
  pub container_action : Decoder Text
  pub update : Decoder UpdateRequest
  pub settings : Decoder Text
  pub web_config : Decoder Text
  pub project_removal : Decoder Text

-- The operations that only read. A list of projects comes with its length and an error that may stand
-- beside it, an overview with such an error.
pub record Reads (S : Type 0) : Type 0 where
  pub overview : S → Text × Option ServiceError
  pub projects : S → ℕ × (Text × Option ServiceError)
  pub refresh_projects : S → ℕ × (Text × Option ServiceError)
  pub project_logs : Text → Text → ℤ → S → Outcome ServiceError Text
  pub project_web_access : Text → S → Outcome ServiceError Text
  pub file : Text → S → Outcome ServiceError Text
  pub versions : Text → S → Outcome ServiceError Text
  pub workspace_roots : S → Text
  pub workspace_entries : ℤ → Text → S → Outcome ServiceError Text
  pub workspace_file : ℤ → Text → S → Outcome ServiceError Text
  pub containers : S → Outcome ServiceError Text
  pub container_logs : Text → ℤ → S → Outcome ServiceError Text
  pub images : S → Outcome ServiceError Text
  pub updates : S → Outcome ServiceError Text
  pub update_tasks : S → Text
  pub settings : S → Outcome ServiceError Text

-- The operations that may change the state.
pub record Writes (S : Type 0) : Type 0 where
  pub create_project : CreateProjectRequest → S → Outcome ServiceError Text × S
  pub preview_project_removal : Text → S → Outcome ServiceError Text × S
  pub delete_project : Text → Text → S → Outcome ServiceError Text × S
  pub project_action : Text → ActionRequest → S → Outcome ServiceError Text × S
  pub save_project_web_access : Text → Text → S → Outcome ServiceError (Unit {0}) × S
  pub validate_file : Text → Text → S → Outcome ServiceError (Text × Text) × S
  pub save_file : Text → SaveFileRequest → S → Outcome ServiceError Text × S
  pub restore : Text → ℕ → RestoreRequest → S → Outcome ServiceError Text × S
  pub save_workspace_file : SaveWorkspaceFileRequest → S → Outcome ServiceError Text × S
  pub create_workspace_directory : DirectoryRequest → S → Outcome ServiceError (Unit {0}) × S
  pub container_action : Text → Text → S → Outcome ServiceError (Unit {0}) × S
  pub delete_image : Text → S → Outcome ServiceError (Unit {0}) × S
  pub start_update : UpdateRequest → S → Outcome ServiceError Text × S
  pub put_settings : Text → S → Outcome ServiceError (Unit {0}) × S
