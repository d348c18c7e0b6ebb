-- ===== src/Compose/Editor/Restoring.antt =====
-- A restore after a save, of backend/internal/compose/editor.go.

use compose_manager.Compose.Editor.{SaveError, apply_failed, reported, is_applied}
use compose_manager.Base.{if_cases}
use compose_manager.Base.{Outcome, done, error}
use compose_manager.Base.{◌≡◌, refl}
use compose_manager.Base.{Bool, true, false}
use compose_manager.Base.{some, List, ◌∷◌, arith, ◌==◌}
use compose_manager.Base.{Text, same, same_iff, same_refl, is_empty}
use compose_manager.Base.{lookup}
use compose_manager.Compose.Guard.{ok, resolve_compose_file}
use compose_manager.Compose.Editor.{
  Archive, Site, FileContent, Version, SaveResult, EditError, read, read_resolved, read_data,
  validate, validate_resolved, backup, backup_path, replaced, save_result, save_replaced, save_kept,
  save_validated, save_read, save, find_version, restore_found, restore_content, restore,
}
use compose_manager.Compose.Editor.Saving.{IsApart, save-IsSaved}

-- No call of a save fails, and the content passes the checks.
pub record IsCalm (e : Site) (key path content : Text) : Type 0 where
  pub candidate_create : e.faults.candidate_create ≡ false
  pub candidate_fill : e.faults.candidate_fill ≡ false
  pub backup_write : e.faults.backup_write ≡ false
  pub add_version : e.faults.add_version ≡ false
  pub saving_create : e.faults.saving_create ≡ false
  pub saving_fill : e.faults.saving_fill ≡ false
  pub replace : e.faults.replace ≡ false
  pub document_valid : e.document_valid content ≡ true
  pub output : Text
  pub config : e.run_config key content ≡ some output
  pub resolves : resolve_compose_file e.system e.roots path ≡ ok path

validate_calm :
    (e : Site) (key path content : Text) (a : Archive)
    → IsCalm e key path content
    → (validate e key path content a).0 ≡ done tt
unfolding validate validate_resolved
validate_calm e key path content a calm =
    simp
      (calm.resolves, calm.document_valid, calm.candidate_create, calm.candidate_fill, calm.config)
      refl

replaced_calm :
    (e : Site) (key path content : Text) (a : Archive)
    → IsCalm e key path content
    → (replaced e path content a).0 ≡ done tt
unfolding replaced
replaced_calm e key path content a calm =
    simp (calm.saving_create, calm.saving_fill, calm.replace) refl

backup_calm :
    (e : Site) (key path content : Text) (current : FileContent) (a : Archive)
    → IsCalm e key path content
    → (v : Version) × ((backup e key current a).0 ≡ done v)
unfolding backup
backup_calm e key path content current a calm = (
  record {
    id = a.next_version;
    project_key = key;
    file_path = current.path;
    sha256 = current.sha256;
    backup_path = backup_path e key current;
  },
  simp (calm.backup_write, calm.add_version) refl,
)

save_replaced_calm :
    (e : Site) (key : Text) (current : FileContent) (content : Text) (apply : Bool) (v : Version)
    (o : Outcome EditError (Unit {0}) × Archive)
    → o.0 ≡ done tt
    → reported (save_replaced e key current content apply v o).0
      ≡ some (save_result e key current content apply v)
unfolding save_replaced
save_replaced_calm e key current content apply v (error x, a) q = cc
save_replaced_calm e key current content apply v (done u, a) q =
    let result = save_result e key current content apply v in
    if_cases (λ (x : Outcome SaveError SaveResult × Archive). reported x.0 ≡ some result)
      (is_applied e key current.path apply) (done result, a) (error (apply_failed result), a)
      (λ f. refl) (λ f. refl)

save_kept_calm :
    (e : Site) (key : Text) (current : FileContent) (content : Text) (apply : Bool) (v : Version)
    (o : Outcome EditError Version × Archive)
    → IsCalm e key current.path content
    → o.0 ≡ done v
    → (r : SaveResult) × (reported (save_kept e key current content apply o).0 ≡ some r)
unfolding save_kept
save_kept_calm e key current content apply v (error x, a) calm q = cc
save_kept_calm e key current content apply v (done w, a) calm q = (
  save_result e key current content apply w,
  save_replaced_calm e key current content apply w _
      (replaced_calm e key current.path content a calm),
)

save_validated_calm :
    (e : Site) (key : Text) (current : FileContent) (content : Text) (apply : Bool)
    (o : Outcome EditError (Unit {0}) × Archive)
    → IsCalm e key current.path content
    → o.0 ≡ done tt
    → (r : SaveResult) × (reported (save_validated e key current content apply o).0 ≡ some r)
unfolding save_validated
save_validated_calm e key current content apply (error x, a) calm q = cc
save_validated_calm e key current content apply (done u, a) calm q =
    let (v, kept) = backup_calm e key current.path content current a calm in
    save_kept_calm e key current content apply v (backup e key current a) calm kept

-- A save with the digest of the file, of a content that passes the checks, is reported if no call fails.
pub save_calm :
    (e : Site) (key path content : Text) (apply : Bool) (a : Archive) (current : FileContent)
    → read e path a ≡ done current
    → IsCalm e key current.path content
    → is_empty current.sha256 ≡ false
    → (r : SaveResult) × (reported (save e key path content current.sha256 apply a).0 ≡ some r)
unfolding save save_read
save_calm e key path content apply a current opened calm full =
    let (r, q) =
      save_validated_calm e key current content apply (validate e key current.path content a) calm
        (validate_calm e key current.path content a calm) in
    (r, simp (opened, full, same_refl) q)

read_again :
    (e : Site) (path content : Text) (a : Archive)
    → resolve_compose_file e.system e.roots path ≡ ok path
    → lookup path a.files ≡ some content
    → read e path a ≡ done (record { path = path; content = content; sha256 = e.hash content })
unfolding read read_resolved read_data
read_again e path content a resolves held = simp (resolves, held) refl

find_first :
    (key : Text) (v : Version) (vs : List Version)
    → v.project_key ≡ key
    → find_version key v.id (v ∷ vs) ≡ some v
unfolding find_version
find_first key v vs of_key =
    let same_id : (v.id == v.id) ≡ true = ground arith in
    let same_key : same v.project_key key ≡ true = (same_iff v.project_key key).1 of_key in
    simp (same_key, same_id) refl

-- Restoring the version that a save kept, with the digest of what was saved, brings the file back, and
-- keeps what was saved as a version of its own, if no call of the restore fails before `apply`. The restore may meet
-- another clock, other temporary files and other faults than the save did.
pub restore-save :
    (e later : Site) (key path content base_sha : Text) (apply again : Bool) (a : Archive)
    (current : FileContent) (r : SaveResult)
    → read e path a ≡ done current
    → IsApart e key current
    → reported (save e key path content base_sha apply a).0 ≡ some r
    → IsCalm later key current.path current.content
    → IsApart later key
        (record { path = current.path; content = content; sha256 = later.hash content })
    → is_empty (later.hash content) ≡ false
    → (back : SaveResult) × (let restored =
          restore later key r.version.id
            (later.hash content)
            again
            (save e key path content base_sha apply a).1 in
        (reported restored.0 ≡ some back)
        × (lookup current.path restored.1.files ≡ some current.content)
        × (lookup back.version.backup_path restored.1.files ≡ some content))
unfolding restore restore_found restore_content
restore-save e later key path content base_sha apply again a current r opened apart_names q calm
      apart_later full =
    let (agreed, saved) =
      save-IsSaved e key path content base_sha apply a current r opened apart_names q in
    let a' = (save e key path content base_sha apply a).1 in
    let now : FileContent = record {
      path = current.path;
      content = content;
      sha256 = later.hash content;
    } in
    let found : find_version key r.version.id a'.versions ≡ some r.version =
      rw saved.row (find_first key r.version a.versions saved.of_key) in
    let reopened : read later current.path a' ≡ done now =
      read_again later current.path content a' calm.resolves saved.written in
    let (back, p) =
      save_calm later key current.path current.content again a' now reopened calm full in
    let (held, restored) =
      save-IsSaved later key current.path current.content (later.hash content) again a' now back
        reopened apart_later p in
    let same_run : restore_found later key (later.hash content) again a'
          (find_version key r.version.id a'.versions)
        ≡ save later key current.path current.content (later.hash content) again a' =
      rw (found, saved.kept, saved.of_file) refl in
    (back, rw same_run (p, restored.written, restored.kept))
