-- ===== src/Api/Handlers.antt =====
-- What the handlers of backend/internal/api/server.go share; each handler is in a child module.
pub mod Projects
pub mod Workspace
pub mod Engine
use compose_manager.Base.{
  ℤ, pos, negsuc, is_digit, digits, atoi, Outcome, done, error, ◌>>=◌, ◌>>◌, require, or_error,
  bind-done,
}
use compose_manager.Base.{
  require-done, or_error-done, done_inj, if_cases, text_lt, put_sorted, sort_by, All-sort_by, Never,
  Exists, Exists-mono, Exists-of_any, ℕ, zero,
}
use compose_manager.Base.{suc, ◌+◌, ◌-◌, ◌*◌, ◌/◌, ◌%◌, ◌^◌, ◌≤◌, ◌<◌, ◌≡◌, refl, sym, ap, ◌∙◌}
use compose_manager.Base.{
  ◌≢◌, ◌↔◌, ◌⊎◌, inl, inr, Bool, true, false, not, ◌&&◌, ◌||◌, Option, none, some,
}
use compose_manager.Base.{
  List, [], ◌∷◌, ◌++◌, map, arith, ltb, leb, ◌==◌, if◌then◌else◌, ==_iff, Bool-cases, Option-cases,
  and_true,
}
use compose_manager.Base.{
  and_intro, or_false, length, take, drop, all, any, filter, length-append, length-take,
  length-drop, take-append-drop, All, All-append,
}
use compose_manager.Base.{
  All-mono, All-filter, All-filter_test, All-of_all, length-filter, All-of_any, Text, codes, same,
  same_iff, same_refl, same_sym, is_empty, has_prefix,
}
use compose_manager.Base.{
  contains, has_byte, split, join, is_space, trim_left, trim_right, trim_space, lower_byte,
  to_lower, last_piece, but_last, Map, lookup,
}
use compose_manager.Base.{
  insert, remove, purge, lookup-insert, lookup-remove, Unique, Unique-insert, Unique-remove, unless,
  lookup-purge, Unique-purge,
}
use compose_manager.Api.Answers.{
  Request, Response, Body, answer, write_data, write_error, decode_json, public_error, nothing,
  result, warned, validated,
}
use compose_manager.Api.Service.{
  ServiceError, ErrorKind, other, file_conflict, workspace_conflict, update_already_running,
  Decoders, Reads, Writes, CreateProjectRequest, ActionRequest, SaveFileRequest, RestoreRequest,
  SaveWorkspaceFileRequest, DirectoryRequest, UpdateRequest,
}

abbrev text_or_empty : Option Text → Text
text_or_empty none = []
text_or_empty (some value) = value

-- `r.URL.Query().Get(name)`.
abbrev pub query : Request → Text → Text
query r name = text_or_empty (lookup name r.query)

-- The answer to a read: the result under a name, or an error of one status and code.
pub data_or : Text → ℕ → Text → Outcome ServiceError Text → Response
data_or name status code (error e) = write_error status code e.text
data_or name status code (done json) = answer 200 (result name json)

-- The answers to an error of one status and code, whatever its kind.
abbrev pub plain : ℕ → Text → ServiceError → Response
plain status code e = write_error status code e.text

-- The answer to a change: by the error, or by what it gives.
unfoldable pub written :
    {A S : Type 0}
    → (ServiceError → Response)
    → (A → Response)
    → Outcome ServiceError A × S
    → Response × S
written failed succeeded (error e, s) = (failed e, s)
written failed succeeded (done a, s) = (succeeded a, s)

-- A body that does not decode is answered, and nothing is called.
unfoldable pub decoded_by :
    {A S : Type 0} → (A → S → Response × S) → S → Outcome Response A → Response × S
decoded_by next s (error response) = (response, s)
decoded_by next s (done a) = next a s

abbrev pub ok_body : Body
ok_body = result (codes "ok") (codes "true")

abbrev pub empty_answer : Response
empty_answer = answer 204 nothing
