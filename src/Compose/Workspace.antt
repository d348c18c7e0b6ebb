-- ===== src/Compose/Workspace.antt =====
-- The workspace of backend/internal/compose/workspace.go: paths, reading and listing, saving, and new
-- directories and projects. The texts of errors are left out.
pub mod Listing
pub mod Writing
pub mod Projects
mod Tests
use compose_manager.Base.{
  apart, ℤ, pos, negsuc, is_digit, digits, atoi, Outcome, done, error, ◌>>=◌, ◌>>◌, require,
  or_error,
}
use compose_manager.Base.{
  bind-done, require-done, or_error-done, done_inj, if_cases, text_lt, put_sorted, sort_by,
  All-sort_by, Never, Exists, Exists-mono, Exists-of_any, ℕ,
}
use compose_manager.Base.{zero, suc, ◌+◌, ◌-◌, ◌*◌, ◌/◌, ◌%◌, ◌^◌, ◌≤◌, ◌<◌, ◌≡◌, refl, sym, ap}
use compose_manager.Base.{
  ◌∙◌, ◌≢◌, ◌↔◌, ◌⊎◌, inl, inr, Bool, true, false, not, ◌&&◌, ◌||◌, Option, none,
}
use compose_manager.Base.{
  some, List, [], ◌∷◌, ◌++◌, map, arith, ltb, leb, ◌==◌, if◌then◌else◌, ==_iff, Bool-cases,
  Option-cases,
}
use compose_manager.Base.{
  and_true, and_intro, or_false, length, take, drop, all, any, filter, length-append, length-take,
  length-drop, take-append-drop, All,
}
use compose_manager.Base.{
  All-append, All-mono, All-filter, All-filter_test, All-of_all, length-filter, All-of_any, Text,
  codes, same, same_iff, same_refl, same_sym, is_empty,
}
use compose_manager.Base.{
  has_prefix, contains, has_byte, split, join, is_space, trim_left, trim_right, trim_space,
  lower_byte, to_lower, last_piece, but_last, Map,
}
use compose_manager.Base.{
  lookup, insert, remove, purge, lookup-insert, lookup-remove, Unique, Unique-insert, Unique-remove,
  unless, lookup-purge, Unique-purge,
}
use compose_manager.Filepath.{is_abs, clean, base, join_path}
use compose_manager.Compose.Guard.{
  resolve, System, Kind, absent, directory, Result, ok, err, is_compose_filename,
}

pub data WorkspaceError : Type 0 where
  not_relative outside_roots invalid_root path_rejected read_only absent_file not_regular :
      WorkspaceError
  too_large binary conflict invalid_document temp_failed config_failed : WorkspaceError
  backup_failed replace_failed name_required invalid_name exists mkdir_failed list_failed :
      WorkspaceError

abbrev pub max_workspace_file_size : ℕ
max_workspace_file_size = 2 * 2 ^ 20

-- The files with their contents, and the directories.
pub record Disk : Type 0 where
  pub files : Map Text
  pub directories : List Text

-- Which calls fail: those on the temporary files of a candidate and of a save, those of a backup, the
-- rename and the making of directories, with how many of the new ones are then missing.
pub record Faults : Type 0 where
  pub candidate : Bool
  pub saving : Bool
  pub backup : Bool
  pub replace : Bool
  pub mkdir : Option ℕ

-- What a call meets: the scan roots, SHA-256, the clock's text, the verdicts of YAML and of the runner's
-- `config` and `apply`, which change nothing here (of `apply` the output, and whether it works), the
-- names that `os.CreateTemp` gives, what stands at a path with neither file nor directory, and faults.
pub record Site : Type 0 where
  pub system : System
  pub roots : List Text
  pub backup_dir : Text
  pub hash : Text → Text
  pub digest : Text → Text
  pub stamp : Text
  pub document_valid : Text → Bool
  pub run_config : Text → Text → Option Text
  pub run_apply : Text → Text → Text × Bool
  pub candidate_name : Text
  pub saving_name : Text
  pub elsewhere : Text → Kind
  pub faults : Faults

pub record WorkspaceFile : Type 0 where
  pub root_id : ℤ
  pub path : Text
  pub content : Text
  pub sha256 : Text

-- `cleanWorkspaceRelative`.
pub clean_workspace_relative : Text → Outcome WorkspaceError Text
clean_workspace_relative value =
    let cleaned = clean (trim_space value) in
    if has_byte 0 value || is_abs value
    then error not_relative
    else if same cleaned (codes ".") || is_empty cleaned
    then done []
    else if same cleaned (codes "..") || has_prefix cleaned (codes "../")
    then error outside_roots
    else done cleaned

pub root_at : ℕ → List Text → Option Text
root_at n [] = none
root_at zero (root ∷ roots) = some root
root_at (suc n) (root ∷ roots) = root_at n roots

abbrev root_of : ℤ → List Text → Option Text
root_of (pos n) roots = root_at n roots
root_of (negsuc n) roots = none

abbrev guarded : Text → Result Text → Outcome WorkspaceError (Text × Text)
guarded cleaned (err e) = error path_rejected
guarded cleaned (ok resolved) = done (resolved, cleaned)

-- `Workspace.resolve`: the path, and its text below the root.
pub resolve_path : Site → ℤ → Text → Outcome WorkspaceError (Text × Text)
resolve_path e root_id relative = do
  root ← or_error (root_of root_id e.roots) invalid_root
  cleaned ← clean_workspace_relative relative
  guarded cleaned (resolve e.system e.roots (join_path root cleaned))

-- `filepath.Ext` of a name.
pub ext : Text → Text
ext [] = []
ext (c ∷ s) = let rest = ext s in if (c == b'.') && not (has_byte b'.' s) then c ∷ s else rest

pub editable_exts : List Text
editable_exts =
    codes ".yaml"
    ∷ codes ".yml"
    ∷ codes ".json"
    ∷ codes ".toml"
    ∷ codes ".ini"
    ∷ codes ".conf"
    ∷ codes ".cfg"
    ∷ codes ".properties"
    ∷ codes ".txt"
    ∷ []

-- `isEditableWorkspaceFile`.
pub is_editable : Text → Bool
is_editable name =
    is_compose_filename name
    || (same (to_lower name) (codes ".env")
        || (same (to_lower name) (codes "dockerfile")
            || any (same (to_lower (ext name))) editable_exts))

abbrev pub holds : Text → List Text → Bool
holds path paths = any (same path) paths

-- `os.Stat` of a path without a file.
pub stat_other : Site → Text → Disk → Kind
stat_other e path d = if holds path d.directories then Kind.directory else e.elsewhere path

pub missing : Kind → WorkspaceError
missing Kind.absent = absent_file
missing k = not_regular

pub check_content : Site → ℤ → Text → Text → Outcome WorkspaceError WorkspaceFile
check_content e root_id cleaned content = do
  require (leb (length content) max_workspace_file_size) too_large
  require (not (has_byte 0 content)) binary
  done (record { root_id = root_id; path = cleaned; content = content; sha256 = e.hash content })

pub read_content :
    Site → ℤ → Text → Text → Disk → Option Text → Outcome WorkspaceError WorkspaceFile
read_content e root_id resolved cleaned d none = error (missing (stat_other e resolved d))
read_content e root_id resolved cleaned d (some content) = check_content e root_id cleaned content

-- `ReadFile`.
pub read_file : Site → ℤ → Text → Disk → Outcome WorkspaceError WorkspaceFile
read_file e root_id relative d = do
  (resolved, cleaned) ← resolve_path e root_id relative
  require (is_editable (base resolved)) read_only
  read_content e root_id resolved cleaned d (lookup resolved d.files)
