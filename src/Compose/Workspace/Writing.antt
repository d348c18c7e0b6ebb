-- ===== src/Compose/Workspace/Writing.antt =====
-- What the workspace of backend/internal/compose/workspace.go writes: files, directories and projects.
pub mod Saves
use compose_manager.Base.{
  apart, ℤ, pos, negsuc, is_digit, digits, atoi, Outcome, done, error, ◌>>=◌, ◌>>◌, require,
  or_error,
}
use compose_manager.Base.{
  bind-done, require-done, or_error-done, done_inj, if_cases, text_lt, put_sorted, sort_by,
  All-sort_by, Never, Exists, Exists-mono, Exists-of_any, ℕ,
}
use compose_manager.Base.{zero, suc, ◌+◌, ◌-◌, ◌*◌, ◌/◌, ◌%◌, ◌^◌, ◌≤◌, ◌<◌, ◌≡◌, refl, sym, ap}
use compose_manager.Base.{
  ◌∙◌, ◌≢◌, ◌↔◌, ◌⊎◌, inl, inr, Bool, true, false, not, ◌&&◌, ◌||◌, Option, none,
}
use compose_manager.Base.{
  some, List, [], ◌∷◌, ◌++◌, map, arith, ltb, leb, ◌==◌, if◌then◌else◌, ==_iff, Bool-cases,
  Option-cases,
}
use compose_manager.Base.{
  and_true, and_intro, or_false, length, take, drop, all, any, filter, length-append, length-take,
  length-drop, take-append-drop, All,
}
use compose_manager.Base.{
  All-append, All-mono, All-filter, All-filter_test, All-of_all, length-filter, All-of_any, Text,
  codes, same, same_iff, same_refl, same_sym, is_empty,
}
use compose_manager.Base.{
  has_prefix, contains, has_byte, split, join, is_space, trim_left, trim_right, trim_space,
  lower_byte, to_lower, last_piece, but_last, Map,
}
use compose_manager.Base.{
  lookup, insert, remove, purge, lookup-insert, lookup-remove, Unique, Unique-insert, Unique-remove,
  unless, lookup-purge, Unique-purge,
}
use compose_manager.Filepath.{base, dir, join_path}
use compose_manager.Compose.Guard.{Kind, absent, is_compose_filename}
use compose_manager.Compose.Identifier.{is_identifier}
use compose_manager.Compose.Keys.{normalize_project_key}
use compose_manager.Compose.Workspace.{
  Site, Disk, Faults, WorkspaceFile, WorkspaceError, resolve_path, read_file, stat_other, holds,
  max_workspace_file_size, too_large, conflict, invalid_document, temp_failed, config_failed,
  backup_failed, replace_failed, name_required, invalid_name, exists, mkdir_failed, not_regular,
}

abbrev pub put_file : Text → Text → Disk → Disk
put_file path content d = record d { files = insert path content d.files }

abbrev pub remove_file : Text → Disk → Disk
remove_file path d = record d { files = remove path d.files }

abbrev pub config_verdict : Option Text → Outcome WorkspaceError (Unit {0})
config_verdict none = error config_failed
config_verdict (some output) = done tt

-- A temporary file, from `writeWorkspaceTemp` to its removal; one that cannot be written is removed too.
-- The code removes it when the save returns, and does not look at it in between.
pub candidate_checked : Site → Text → Text → Disk → Outcome WorkspaceError (Unit {0}) × Disk
candidate_checked e key content d =
    if e.faults.candidate
    then (error temp_failed, remove_file e.candidate_name (put_file e.candidate_name [] d))
    else (
      config_verdict (e.run_config key content),
      remove_file e.candidate_name (put_file e.candidate_name content d),
    )

-- The check of a Compose file; other files are not checked.
unfoldable pub checked : Site → Text → Text → Disk → Outcome WorkspaceError (Unit {0}) × Disk
checked e resolved content d =
    let key = normalize_project_key e.digest (base (dir resolved)) in
    if not (is_compose_filename (base resolved))
    then (done tt, d)
    else if not (e.document_valid content)
    then (error invalid_document, d)
    else candidate_checked e key content d

-- The path of a backup; `number` is the root's in decimal.
unfoldable pub backup_path : Site → Text → WorkspaceFile → Text → Text
backup_path e number current resolved =
    join_path
      (join_path (join_path (join_path e.backup_dir (codes "workspace")) (codes "root-" ++ number))
        (dir current.path))
      (base resolved
        ++ (codes "." ++ (e.stamp ++ (codes "." ++ (take 12 current.sha256 ++ codes ".bak")))))

unfoldable pub backup :
    Site → Text → WorkspaceFile → Text → Disk → Outcome WorkspaceError (Unit {0}) × Disk
backup e number current resolved d =
    if e.faults.backup
    then (error backup_failed, d)
    else (done tt, put_file (backup_path e number current resolved) current.content d)

unfoldable pub replaced : Site → Text → Text → Disk → Outcome WorkspaceError (Unit {0}) × Disk
replaced e path content d =
    if e.faults.saving
    then (error temp_failed, remove_file e.saving_name (put_file e.saving_name [] d))
    else if e.faults.replace
    then (error replace_failed, remove_file e.saving_name (put_file e.saving_name content d))
    else (
      done tt,
      put_file path content (remove_file e.saving_name (put_file e.saving_name content d)),
    )

unfoldable pub save_replaced :
    Site
    → WorkspaceFile
    → Text
    → Outcome WorkspaceError (Unit {0}) × Disk
    → Outcome WorkspaceError WorkspaceFile × Disk
save_replaced e current content (error x, d) = (error x, d)
save_replaced e current content (done u, d) =
    (done (record current { content = content; sha256 = e.hash content }), d)

unfoldable pub save_kept :
    Site
    → WorkspaceFile
    → Text
    → Text
    → Outcome WorkspaceError (Unit {0}) × Disk
    → Outcome WorkspaceError WorkspaceFile × Disk
save_kept e current resolved content (error x, d) = (error x, d)
save_kept e current resolved content (done u, d) =
    save_replaced e current content (replaced e resolved content d)

unfoldable pub save_checked :
    Site
    → Text
    → WorkspaceFile
    → Text
    → Text
    → Outcome WorkspaceError (Unit {0}) × Disk
    → Outcome WorkspaceError WorkspaceFile × Disk
save_checked e number current resolved content (error x, d) = (error x, d)
save_checked e number current resolved content (done u, d) =
    save_kept e current resolved content (backup e number current resolved d)

unfoldable pub save_resolved :
    Site
    → Text
    → WorkspaceFile
    → Text
    → Disk
    → Outcome WorkspaceError (Text × Text)
    → Outcome WorkspaceError WorkspaceFile × Disk
save_resolved e number current content d (error x) = (error x, d)
save_resolved e number current content d (done (resolved, cleaned)) =
    save_checked e number current resolved content (checked e resolved content d)

unfoldable pub save_read :
    Site
    → ℤ
    → Text
    → Text
    → Text
    → Text
    → Disk
    → Outcome WorkspaceError WorkspaceFile
    → Outcome WorkspaceError WorkspaceFile × Disk
save_read e root_id number relative content base_sha d (error x) = (error x, d)
save_read e root_id number relative content base_sha d (done current) =
    let next = save_resolved e number current content d (resolve_path e root_id relative) in
    if is_empty base_sha || not (same current.sha256 base_sha) then (error conflict, d) else next

-- `SaveFile`; `number` is the root's number in decimal.
unfoldable pub save_file :
    Site → ℤ → Text → Text → Text → Text → Disk → Outcome WorkspaceError WorkspaceFile × Disk
save_file e root_id number relative content base_sha d =
    let next =
      save_read e root_id number relative content base_sha d (read_file e root_id relative d) in
    if ltb max_workspace_file_size (length content) || has_byte 0 content
    then (error too_large, d)
    else next
