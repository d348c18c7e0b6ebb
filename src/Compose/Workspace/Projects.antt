-- ===== src/Compose/Workspace/Projects.antt =====
-- CreateDirectory, CreateProject and the making of their directories of
-- backend/internal/compose/workspace.go.
pub mod Undone
pub mod Made
use compose_manager.Base.{
  apart, ℤ, pos, negsuc, is_digit, digits, atoi, Outcome, done, error, ◌>>=◌, ◌>>◌, require,
  or_error,
}
use compose_manager.Base.{
  bind-done, require-done, or_error-done, done_inj, if_cases, text_lt, put_sorted, sort_by,
  All-sort_by, Never, Exists, Exists-mono, Exists-of_any, ℕ,
}
use compose_manager.Base.{zero, suc, ◌+◌, ◌-◌, ◌*◌, ◌/◌, ◌%◌, ◌^◌, ◌≤◌, ◌<◌, ◌≡◌, refl, sym, ap}
use compose_manager.Base.{
  ◌∙◌, ◌≢◌, ◌↔◌, ◌⊎◌, inl, inr, Bool, true, false, not, ◌&&◌, ◌||◌, Option, none,
}
use compose_manager.Base.{
  some, List, [], ◌∷◌, ◌++◌, map, arith, ltb, leb, ◌==◌, if◌then◌else◌, ==_iff, Bool-cases,
  Option-cases,
}
use compose_manager.Base.{
  and_true, and_intro, or_false, length, take, drop, all, any, filter, length-append, length-take,
  length-drop, take-append-drop, All,
}
use compose_manager.Base.{
  All-append, All-mono, All-filter, All-filter_test, All-of_all, length-filter, All-of_any, Text,
  codes, same, same_iff, same_refl, same_sym, is_empty,
}
use compose_manager.Base.{
  has_prefix, contains, has_byte, split, join, is_space, trim_left, trim_right, trim_space,
  lower_byte, to_lower, last_piece, but_last, Map,
}
use compose_manager.Base.{
  lookup, insert, remove, purge, lookup-insert, lookup-remove, Unique, Unique-insert, Unique-remove,
  unless, lookup-purge, Unique-purge,
}
use compose_manager.Filepath.{dir, elements, join_path}
use compose_manager.Compose.Guard.{Kind, absent}
use compose_manager.Compose.Identifier.{is_identifier}
use compose_manager.Compose.Workspace.{
  Site, Disk, Faults, WorkspaceError, resolve_path, stat_other, holds, invalid_document,
  temp_failed, config_failed, replace_failed, name_required, invalid_name, exists, mkdir_failed,
}
use compose_manager.Compose.Workspace.Writing.{put_file, remove_file}

pub record CreatedProject : Type 0 where
  pub name : Text
  pub root_id : ℤ
  pub directory : Text
  pub file : Text
  pub output : Text

-- The error of a creation: no project was made, or one was and `apply` failed, which comes with it.
pub data CreateError : Type 0 where
  not_made : WorkspaceError → CreateError
  apply_failed : CreatedProject → CreateError

-- The project that a creation gives, with an error or without one.
abbrev pub created : Outcome CreateError CreatedProject → Option CreatedProject
created (done r) = some r
created (error (apply_failed r)) = some r
created (error (not_made x)) = none

-- The directories that `os.MkdirAll` makes, in at most so many rounds.
pub missing_directories : ℕ → Text → List Text → List Text
missing_directories zero path made = []
missing_directories (suc n) path made =
    let rest = missing_directories n (dir path) made in if holds path made then [] else path ∷ rest

-- The new directories, from the path upwards: a call that fails may have made the last of them, but
-- never the path itself.
unfoldable pub made_directories :
    Option ℕ → Text → List Text → Disk → Outcome WorkspaceError (Unit {0}) × Disk
made_directories none path new d = (done tt, record d { directories = new ++ d.directories })
made_directories (some n) path new d = (
  error mkdir_failed,
  record d { directories = filter (λ p. not (same path p)) (drop n new) ++ d.directories },
)

-- `os.MkdirAll`.
unfoldable pub mkdir_all : Site → Text → Disk → Outcome WorkspaceError (Unit {0}) × Disk
mkdir_all e path d =
    let new = missing_directories (length (elements path)) path d.directories in
    made_directories e.faults.mkdir path new d

pub create_resolved :
    Site → Disk → Outcome WorkspaceError (Text × Text) → Outcome WorkspaceError (Unit {0}) × Disk
create_resolved e d (error x) = (error x, d)
create_resolved e d (done (resolved, cleaned)) =
    let made = mkdir_all e resolved d in if is_empty cleaned then (error name_required, d) else made

-- `CreateDirectory`.
pub create_directory : Site → ℤ → Text → Disk → Outcome WorkspaceError (Unit {0}) × Disk
create_directory e root_id relative d = create_resolved e d (resolve_path e root_id relative)

-- `os.Remove` of the new directory, empty by then.
pub drop_directory : Text → Disk → Disk
drop_directory path d = record d { directories = filter (λ p. not (same path p)) d.directories }

unfoldable pub configured :
    Site → Text → Text → Text → Disk → Option Text → Outcome WorkspaceError (Unit {0}) × Disk
configured e target file content d none =
    (error config_failed, drop_directory target (remove_file e.candidate_name d))
configured e target file content d (some output) =
    if e.faults.replace
    then (error replace_failed, drop_directory target (remove_file e.candidate_name d))
    else (done tt, put_file file content (remove_file e.candidate_name d))

unfoldable pub filled :
    Site
    → Text
    → Text
    → Text
    → Text
    → Outcome WorkspaceError (Unit {0}) × Disk
    → Outcome WorkspaceError (Unit {0}) × Disk
filled e name target file content (error x, d) = (error x, d)
filled e name target file content (done u, d) =
    let next =
      configured e target file content (put_file e.candidate_name content d)
        (e.run_config name content) in
    if e.faults.candidate
    then (
      error temp_failed,
      drop_directory target (remove_file e.candidate_name (put_file e.candidate_name [] d)),
    )
    else next

abbrev pub project_result : Site → Text → ℤ → Text → Text → Bool → CreatedProject
project_result e name root_id file cleaned apply = record {
  name = name;
  root_id = root_id;
  directory = cleaned;
  file = join_path cleaned (codes "compose.yaml");
  output = if apply then (e.run_apply name file).0 else [];
}

-- The end, once the file is there.
unfoldable pub finished :
    Site
    → Text
    → ℤ
    → Text
    → Text
    → Bool
    → Outcome WorkspaceError (Unit {0}) × Disk
    → Outcome CreateError CreatedProject × Disk
finished e name root_id file cleaned apply (error x, d) = (error (not_made x), d)
finished e name root_id file cleaned apply (done u, d) =
    let result = project_result e name root_id file cleaned apply in
    if not apply || (e.run_apply name file).1
    then (done result, d)
    else (error (apply_failed result), d)

abbrev is_absent : Kind → Bool
is_absent Kind.absent = true
is_absent Kind.regular = false
is_absent Kind.directory = false
is_absent Kind.special = false

-- Whether something stands at a path.
unfoldable pub is_taken : Site → Text → Disk → Option Text → Bool
is_taken e path d (some content) = true
is_taken e path d none = not (is_absent (stat_other e path d))

unfoldable pub create_at :
    Site
    → Text
    → ℤ
    → Text
    → Bool
    → Disk
    → Outcome WorkspaceError (Text × Text)
    → Outcome CreateError CreatedProject × Disk
create_at e name root_id content apply d (error x) = (error (not_made x), d)
create_at e name root_id content apply d (done (target, cleaned)) =
    let file = join_path target (codes "compose.yaml") in
    let made =
      finished e name root_id file cleaned apply
        (filled e name target file content (mkdir_all e target d)) in
    if is_empty cleaned
    then (error (not_made name_required), d)
    else if is_taken e target d (lookup target d.files)
    then (error (not_made exists), d)
    else made

-- `CreateProject`.
unfoldable pub create_project :
    Site → ℤ → Text → Text → Text → Bool → Disk → Outcome CreateError CreatedProject × Disk
create_project e root_id directory name content apply d =
    let trimmed = trim_space name in
    let next = create_at e trimmed root_id content apply d (resolve_path e root_id directory) in
    if not (is_identifier trimmed) || not (same trimmed (to_lower trimmed))
    then (error (not_made invalid_name), d)
    else if not (e.document_valid content)
    then (error (not_made invalid_document), d)
    else next
