-- ===== src/Compose/Editor.antt =====
-- The editor of Compose files of backend/internal/compose/editor.go: reading, validating, saving with a
-- backup, and restoring. Each file is its content; the texts of errors are left out.
pub mod Temporary
pub mod Saving
pub mod Frames
pub mod Restoring
mod Tests
use compose_manager.Base.{
  apart, ℤ, pos, negsuc, is_digit, digits, atoi, Outcome, done, error, ◌>>=◌, ◌>>◌, require,
  or_error,
}
use compose_manager.Base.{
  bind-done, require-done, or_error-done, done_inj, if_cases, text_lt, put_sorted, sort_by,
  All-sort_by, Never, Exists, Exists-mono, Exists-of_any, ℕ,
}
use compose_manager.Base.{zero, suc, ◌+◌, ◌-◌, ◌*◌, ◌/◌, ◌%◌, ◌^◌, ◌≤◌, ◌<◌, ◌≡◌, refl, sym, ap}
use compose_manager.Base.{
  ◌∙◌, ◌≢◌, ◌↔◌, ◌⊎◌, inl, inr, Bool, true, false, not, ◌&&◌, ◌||◌, Option, none,
}
use compose_manager.Base.{
  some, List, [], ◌∷◌, ◌++◌, map, arith, ltb, leb, ◌==◌, if◌then◌else◌, ==_iff, Bool-cases,
  Option-cases,
}
use compose_manager.Base.{
  and_true, and_intro, or_false, length, take, drop, all, any, filter, length-append, length-take,
  length-drop, take-append-drop, All,
}
use compose_manager.Base.{
  All-append, All-mono, All-filter, All-filter_test, All-of_all, length-filter, All-of_any, Text,
  codes, same, same_iff, same_refl, same_sym, is_empty,
}
use compose_manager.Base.{
  has_prefix, contains, has_byte, split, join, is_space, trim_left, trim_right, trim_space,
  lower_byte, to_lower, last_piece, but_last, Map,
}
use compose_manager.Base.{
  lookup, insert, remove, purge, lookup-insert, lookup-remove, Unique, Unique-insert, Unique-remove,
  unless, lookup-purge, Unique-purge,
}
use compose_manager.Filepath.{join_path}
use compose_manager.Compose.Guard.{System, Result, ok, err, resolve_compose_file}
use compose_manager.Compose.Keys.{safe_segment}

pub record FileContent : Type 0 where
  pub path : Text
  pub content : Text
  pub sha256 : Text

-- A row of `compose_versions`.
pub record Version : Type 0 where
  pub id : ℕ
  pub project_key : Text
  pub file_path : Text
  pub sha256 : Text
  pub backup_path : Text

pub record SaveResult : Type 0 where
  pub file : FileContent
  pub diff : Text
  pub version : Version
  pub output : Text

pub data EditError : Type 0 where
  path_rejected read_failed conflict invalid_document temp_failed config_failed : EditError
  backup_failed version_failed replace_failed version_unknown : EditError

-- The error of a save: nothing was saved, or the file was and `apply` failed, which comes with a result.
pub data SaveError : Type 0 where
  unsaved : EditError → SaveError
  apply_failed : SaveResult → SaveError

-- The result that a save gives, with an error or without one.
abbrev pub reported : Outcome SaveError SaveResult → Option SaveResult
reported (done r) = some r
reported (error (apply_failed r)) = some r
reported (error (unsaved x)) = none

pub record Archive : Type 0 where
  pub files : Map Text
  pub versions : List Version
  pub next_version : ℕ

-- Which of the calls of a save fail: those that make, and those that fill the file of the candidate and
-- the one to replace with; the directory or the file of the backup; the row of the version; the rename.
pub record Faults : Type 0 where
  pub candidate_create : Bool
  pub candidate_fill : Bool
  pub backup_write : Bool
  pub add_version : Bool
  pub saving_create : Bool
  pub saving_fill : Bool
  pub replace : Bool

-- What a save meets: the file system's shape, the scan roots, where backups go, SHA-256 and the
-- beginning of it, the text of the difference, the clock's text, YAML's verdict, the names that
-- `os.CreateTemp` gives, the runner's answers to `config` and `apply`, which change no file (of `apply`
-- the output, and whether it works), and faults.
pub record Site : Type 0 where
  pub system : System
  pub roots : List Text
  pub backup_dir : Text
  pub hash : Text → Text
  pub digest : Text → Text
  pub unified_diff : Text → Text → Text
  pub stamp : Text
  pub document_valid : Text → Bool
  pub candidate : Text
  pub saving : Text
  pub run_config : Text → Text → Option Text
  pub run_apply : Text → Text → Text × Bool
  pub faults : Faults

pub read_data : Site → Text → Option Text → Outcome EditError FileContent
read_data e resolved none = error read_failed
read_data e resolved (some data_read) =
    done (record { path = resolved; content = data_read; sha256 = e.hash data_read })

pub read_resolved : Site → Archive → Result Text → Outcome EditError FileContent
read_resolved e a (err x) = error path_rejected
read_resolved e a (ok resolved) = read_data e resolved (lookup resolved a.files)

-- `Read`.
pub read : Site → Text → Archive → Outcome EditError FileContent
read e path a = read_resolved e a (resolve_compose_file e.system e.roots path)

abbrev pub put_file : Text → Text → Archive → Archive
put_file path content a = record a { files = insert path content a.files }

abbrev pub remove_file : Text → Archive → Archive
remove_file path a = record a { files = remove path a.files }

-- A temporary file is made, filled and used, and removed in the end.
abbrev pub with_temp {ℓ} :
    {A : Type ℓ}
    → Bool
    → Bool
    → Text
    → Text
    → Outcome EditError A
    → Archive
    → Outcome EditError A × Archive
with_temp creating filling temp content verdict a =
    if creating
    then (error temp_failed, a)
    else if filling
    then (error temp_failed, remove_file temp (put_file temp [] a))
    else (verdict, remove_file temp (put_file temp content a))

-- The temporary file that takes the place of another, by a rename.
pub replaced : Site → Text → Text → Archive → Outcome EditError (Unit {0}) × Archive
replaced e path content a =
    if e.faults.saving_create
    then (error temp_failed, a)
    else if e.faults.saving_fill
    then (error temp_failed, remove_file e.saving (put_file e.saving [] a))
    else if e.faults.replace
    then (error replace_failed, remove_file e.saving (put_file e.saving content a))
    else (done tt, put_file path content (remove_file e.saving (put_file e.saving content a)))

abbrev pub config_verdict : Option Text → Outcome EditError (Unit {0})
config_verdict none = error config_failed
config_verdict (some output) = done tt

pub validate_resolved :
    Site → Text → Text → Archive → Result Text → Outcome EditError (Unit {0}) × Archive
validate_resolved e key content a (err x) = (error path_rejected, a)
validate_resolved e key content a (ok resolved) =
    let verdict = config_verdict (e.run_config key content) in
    let checked =
      with_temp e.faults.candidate_create e.faults.candidate_fill e.candidate content verdict a in
    if e.document_valid content then checked else (error invalid_document, a)

-- `Validate`.
pub validate : Site → Text → Text → Text → Archive → Outcome EditError (Unit {0}) × Archive
validate e key path content a =
    validate_resolved e key content a (resolve_compose_file e.system e.roots path)

pub backup_path : Site → Text → FileContent → Text
backup_path e key current =
    join_path (join_path e.backup_dir (safe_segment e.digest key))
      (e.stamp ++ (codes "-" ++ (take 12 current.sha256 ++ codes ".yaml")))

-- `backup`, with `AddVersion` of the store.
pub backup : Site → Text → FileContent → Archive → Outcome EditError Version × Archive
backup e key current a =
    let path = backup_path e key current in
    let version : Version = record {
      id = a.next_version;
      project_key = key;
      file_path = current.path;
      sha256 = current.sha256;
      backup_path = path;
    } in
    let kept = put_file path current.content a in
    if e.faults.backup_write
    then (error backup_failed, a)
    else if e.faults.add_version
    then (error version_failed, kept)
    else (
      done version,
      record kept { versions = version ∷ a.versions; next_version = suc a.next_version },
    )

abbrev output_of : Site → Text → Text → Bool → Text
output_of e key path apply = if apply then (e.run_apply key path).0 else []

abbrev pub is_applied : Site → Text → Text → Bool → Bool
is_applied e key path apply = not apply || (e.run_apply key path).1

-- The result of a save.
abbrev pub save_result : Site → Text → FileContent → Text → Bool → Version → SaveResult
save_result e key current content apply version = record {
  file = record { path = current.path; content = content; sha256 = e.hash content };
  diff = e.unified_diff current.content content;
  version = version;
  output = output_of e key current.path apply;
}

pub save_replaced :
    Site
    → Text
    → FileContent
    → Text
    → Bool
    → Version
    → Outcome EditError (Unit {0}) × Archive
    → Outcome SaveError SaveResult × Archive
save_replaced e key current content apply version (error x, a) = (error (unsaved x), a)
save_replaced e key current content apply version (done u, a) =
    let result = save_result e key current content apply version in
    if is_applied e key current.path apply
    then (done result, a)
    else (error (apply_failed result), a)

pub save_kept :
    Site
    → Text
    → FileContent
    → Text
    → Bool
    → Outcome EditError Version × Archive
    → Outcome SaveError SaveResult × Archive
save_kept e key current content apply (error x, a) = (error (unsaved x), a)
save_kept e key current content apply (done version, a) =
    save_replaced e key current content apply version (replaced e current.path content a)

pub save_validated :
    Site
    → Text
    → FileContent
    → Text
    → Bool
    → Outcome EditError (Unit {0}) × Archive
    → Outcome SaveError SaveResult × Archive
save_validated e key current content apply (error x, a) = (error (unsaved x), a)
save_validated e key current content apply (done u, a) =
    save_kept e key current content apply (backup e key current a)

pub save_read :
    Site
    → Text
    → Text
    → Text
    → Bool
    → Archive
    → Outcome EditError FileContent
    → Outcome SaveError SaveResult × Archive
save_read e key content base_sha apply a (error x) = (error (unsaved x), a)
save_read e key content base_sha apply a (done current) =
    let next = save_validated e key current content apply (validate e key current.path content a) in
    if is_empty base_sha || not (same current.sha256 base_sha)
    then (error (unsaved conflict), a)
    else next

-- `Save`.
pub save :
    Site → Text → Text → Text → Text → Bool → Archive → Outcome SaveError SaveResult × Archive
save e key path content base_sha apply a = save_read e key content base_sha apply a (read e path a)

-- `Version` of the store.
pub find_version : Text → ℕ → List Version → Option Version
find_version key id [] = none
find_version key id (v ∷ vs) =
    let rest = find_version key id vs in
    if same v.project_key key && (v.id == id) then some v else rest

pub restore_content :
    Site
    → Text
    → Text
    → Text
    → Bool
    → Archive
    → Option Text
    → Outcome SaveError SaveResult × Archive
restore_content e key path current_sha apply a none = (error (unsaved read_failed), a)
restore_content e key path current_sha apply a (some content) =
    save e key path content current_sha apply a

pub restore_found :
    Site → Text → Text → Bool → Archive → Option Version → Outcome SaveError SaveResult × Archive
restore_found e key current_sha apply a none = (error (unsaved version_unknown), a)
restore_found e key current_sha apply a (some v) =
    restore_content e key v.file_path current_sha apply a (lookup v.backup_path a.files)

-- `Restore`.
pub restore : Site → Text → ℕ → Text → Bool → Archive → Outcome SaveError SaveResult × Archive
restore e key id current_sha apply a =
    restore_found e key current_sha apply a (find_version key id a.versions)
