-- ===== src/Compose/Editor/Saving.antt =====
-- What a save of backend/internal/compose/editor.go leaves, on every branch.

use compose_manager.Compose.Editor.{SaveError, unsaved, apply_failed, reported, is_applied}
use compose_manager.Base.{Outcome, done, error}
use compose_manager.Base.{done_inj, if_cases}
use compose_manager.Base.{◌≡◌, refl, ap}
use compose_manager.Base.{◌∙◌, inl, Bool, true, false, not, ◌||◌}
use compose_manager.Base.{some, ◌∷◌, arith}
use compose_manager.Base.{or_false}
use compose_manager.Base.{Text, same, same_iff, same_refl, is_empty}
use compose_manager.Base.{lookup, lookup-insert}
use compose_manager.Compose.Editor.{
  Archive, Site, FileContent, Version, SaveResult, EditError, conflict, backup_failed,
  version_failed, put_file, read, backup, backup_path, replaced, save_result, save_replaced,
  save_kept, save_validated, save_read, save,
}
use compose_manager.Compose.Editor.Temporary.{
  IsKept, validate-IsKept, replaced-done, replaced-IsKept,
}

-- The paths that a save writes to are apart: the names of temporary files are new, and backups go to a
-- directory of their own.
pub record IsApart (e : Site) (key : Text) (current : FileContent) : Type 0 where
  pub candidate_path : same e.candidate current.path ≡ false
  pub saving_path : same e.saving current.path ≡ false
  pub saving_backup : same e.saving (backup_path e key current) ≡ false
  pub path_backup : same current.path (backup_path e key current) ≡ false

-- A backup that is reported holds the file's content, and its row names it.
pub record IsBackedUp (e : Site) (key : Text) (current : FileContent) (a : Archive) (v : Version)
    (a' : Archive) : Type 0 where
  pub id : v.id ≡ a.next_version
  pub of_key : v.project_key ≡ key
  pub of_file : v.file_path ≡ current.path
  pub at_path : v.backup_path ≡ backup_path e key current
  pub content : lookup (backup_path e key current) a'.files ≡ some current.content
  pub row : a'.versions ≡ v ∷ a.versions

backup-IsBackedUp :
    (e : Site) (key : Text) (current : FileContent) (a : Archive) (v : Version)
    → (backup e key current a).0 ≡ done v
    → IsBackedUp e key current a v (backup e key current a).1
unfolding backup
backup-IsBackedUp e key current a v =
    if_cases
      (λ (x : Outcome EditError Version × Archive). x.0 ≡ done v → IsBackedUp e key current a v x.1)
      e.faults.backup_write (error backup_failed, a) _ (λ f q. cc)
      (λ f.
        if_cases
          (λ (x : Outcome EditError Version × Archive).
            x.0 ≡ done v → IsBackedUp e key current a v x.1)
          e.faults.add_version
          (error version_failed, put_file (backup_path e key current) current.content a) _
          (λ g q. cc)
          (λ g q. rw⁻¹ (done_inj _ _ q) (record {
            id = refl;
            of_key = refl;
            of_file = refl;
            at_path = refl;
            content =
                rw
                  (
                    lookup-insert (backup_path e key current) (backup_path e key current)
                        current.content a.files,
                    same_refl (backup_path e key current),
                  )
                  refl;
            row = refl;
          })))

-- What a save that is reported did.
pub record IsSaved (e : Site) (key : Text) (current : FileContent) (content : Text) (apply : Bool)
    (a : Archive) (r : SaveResult) (a' : Archive) : Type 0 where
  pub result : r ≡ save_result e key current content apply r.version
  pub written : lookup current.path a'.files ≡ some content
  pub id : r.version.id ≡ a.next_version
  pub of_key : r.version.project_key ≡ key
  pub of_file : r.version.file_path ≡ current.path
  pub kept : lookup r.version.backup_path a'.files ≡ some current.content
  pub row : a'.versions ≡ r.version ∷ a.versions

save_replaced-reported :
    (e : Site) (key : Text) (current : FileContent) (content : Text) (apply : Bool) (v : Version)
    (o : Outcome EditError (Unit {0}) × Archive) (r : SaveResult)
    → reported (save_replaced e key current content apply v o).0 ≡ some r
    → (o.0 ≡ done tt)
      × (r ≡ save_result e key current content apply v)
      × ((save_replaced e key current content apply v o).1 ≡ o.1)
unfolding save_replaced
save_replaced-reported e key current content apply v (error x, a) r q = cc
save_replaced-reported e key current content apply v (done u, a) r q =
    let result = save_result e key current content apply v in
    let both =
      if_cases
        (λ (x : Outcome SaveError SaveResult × Archive).
          reported x.0 ≡ some r → (r ≡ result) × (x.1 ≡ a))
        (is_applied e key current.path apply) (done result, a) (error (apply_failed result), a)
        (λ f q'. (cc, refl)) (λ f q'. (cc, refl)) q in
    (refl, both.0, both.1)

backed_of :
    (e : Site) (key : Text) (current : FileContent) (a : Archive) (v : Version) (a' : Archive)
    → backup e key current a ≡ (done v, a')
    → IsBackedUp e key current a v a'
backed_of e key current a v a' made =
    let backed : IsBackedUp e key current a v (backup e key current a).1 =
      backup-IsBackedUp e key current a v (rw made refl) in
    rw made at backed

save_kept-reported :
    (e : Site) (key : Text) (current : FileContent) (content : Text) (apply : Bool) (a : Archive)
    (o : Outcome EditError Version × Archive) (r : SaveResult)
    → IsApart e key current
    → backup e key current a ≡ o
    → reported (save_kept e key current content apply o).0 ≡ some r
    → IsSaved e key current content apply a r (save_kept e key current content apply o).1
unfolding save_kept
save_kept-reported e key current content apply a (error x, a') r apart_names made q = cc
save_kept-reported e key current content apply a (done v, a') r apart_names made q =
    let backed : IsBackedUp e key current a v a' = backed_of e key current a v a' made in
    let (renamed, result, left) =
      save_replaced-reported e key current content apply v (replaced e current.path content a') r
        q in
    let others =
      replaced-IsKept e current.path (backup_path e key current) content a'
        apart_names.saving_backup (inl apart_names.path_backup) in
    rw (result, left)
      (record {
        result = refl;
        written = replaced-done e current.path content a' renamed;
        id = backed.id;
        of_key = backed.of_key;
        of_file = backed.of_file;
        kept = rw backed.at_path (others.file ∙ backed.content);
        row = others.versions ∙ backed.row;
      })

save_validated-reported :
    (e : Site) (key : Text) (current : FileContent) (content : Text) (apply : Bool) (a : Archive)
    (o : Outcome EditError (Unit {0}) × Archive) (r : SaveResult)
    → IsApart e key current
    → IsKept current.path a o.1
    → reported (save_validated e key current content apply o).0 ≡ some r
    → IsSaved e key current content apply a r (save_validated e key current content apply o).1
unfolding save_validated
save_validated-reported e key current content apply a (error x, a') r apart_names same_file q = cc
save_validated-reported e key current content apply a (done u, a') r apart_names same_file q =
    let saved = save_kept-reported e key current content apply a' _ r apart_names refl q in
    record {
      result = saved.result;
      written = saved.written;
      id = saved.id ∙ same_file.next_version;
      of_key = saved.of_key;
      of_file = saved.of_file;
      kept = saved.kept;
      row = saved.row ∙ ap (λ vs. r.version ∷ vs) same_file.versions;
    }

save_read-reported :
    (e : Site) (key content base_sha : Text) (apply : Bool) (a : Archive) (current : FileContent)
    (r : SaveResult)
    → IsApart e key current
    → reported (save_read e key content base_sha apply a (done current)).0 ≡ some r
    → (current.sha256 ≡ base_sha)
      × IsSaved e key current content apply a r
          (save_read e key content base_sha apply a (done current)).1
unfolding save_read
save_read-reported e key content base_sha apply a current r apart_names =
    if_cases
      (λ (x : Outcome SaveError SaveResult × Archive).
        reported x.0 ≡ some r
        → (current.sha256 ≡ base_sha) × IsSaved e key current content apply a r x.1)
      (is_empty base_sha || not (same current.sha256 base_sha)) (error (unsaved conflict), a) _
      (λ f q. cc)
      (λ f q.
        let (set, agrees) = or_false (is_empty base_sha) (not (same current.sha256 base_sha)) f in
        let same_sha : same current.sha256 base_sha ≡ true = ground (arith, agrees) in
        (
          (same_iff current.sha256 base_sha).0 same_sha,
          save_validated-reported e key current content apply a _ r apart_names
              (validate-IsKept e key current.path current.path content a apart_names.candidate_path)
              q,
        ))

-- A save that gives a result, with the error of a failed `apply` or with none, found the digest that the
-- file was opened with. After it the file holds the new content, and a new version's backup what the
-- file held.
pub save-IsSaved :
    (e : Site) (key path content base_sha : Text) (apply : Bool) (a : Archive)
    (current : FileContent) (r : SaveResult)
    → read e path a ≡ done current
    → IsApart e key current
    → reported (save e key path content base_sha apply a).0 ≡ some r
    → (current.sha256 ≡ base_sha)
      × IsSaved e key current content apply a r (save e key path content base_sha apply a).1
unfolding save
save-IsSaved e key path content base_sha apply a current r opened apart_names q =
    rw opened
      (save_read-reported e key content base_sha apply a current r apart_names (rw opened at q))
