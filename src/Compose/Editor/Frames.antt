-- ===== src/Compose/Editor/Frames.antt =====
-- What a save of backend/internal/compose/editor.go does to each file.

use compose_manager.Base.{none}
use compose_manager.Compose.Editor.{SaveError, unsaved, apply_failed, reported, is_applied}
use compose_manager.Base.{Outcome, done, error}
use compose_manager.Base.{if_cases}
use compose_manager.Base.{◌≡◌, refl}
use compose_manager.Base.{◌∙◌, ◌≢◌, ◌⊎◌, inl, inr, Bool, false, not, ◌||◌}
use compose_manager.Base.{Text, same, is_empty}
use compose_manager.Base.{lookup, lookup-insert}
use compose_manager.Compose.Editor.{
  Archive, Site, FileContent, Version, SaveResult, EditError, conflict, backup_failed, read, backup,
  backup_path, replaced, save_result, save_replaced, save_kept, save_validated, save_read, save,
}
use compose_manager.Compose.Editor.Temporary.{validate-IsKept, replaced-IsKept}

backup-file :
    (e : Site) (key j : Text) (current : FileContent) (a : Archive)
    → same (backup_path e key current) j ≡ false
    → lookup j (backup e key current a).1.files ≡ lookup j a.files
unfolding backup
backup-file e key j current a other =
    if_cases (λ (x : Outcome EditError Version × Archive). lookup j x.1.files ≡ lookup j a.files)
      e.faults.backup_write (error backup_failed, a) _ (λ f. refl)
      (λ f.
        if_cases
          (λ (x : Outcome EditError Version × Archive). lookup j x.1.files ≡ lookup j a.files)
          e.faults.add_version _ _
          (λ g.
            rw (lookup-insert (backup_path e key current) j current.content a.files, other) refl)
          (λ g.
            rw (lookup-insert (backup_path e key current) j current.content a.files, other) refl))

-- A path that is neither the name of a temporary file nor that of the backup.
pub record IsOther (e : Site) (key : Text) (current : FileContent) (j : Text) : Type 0 where
  pub candidate : same e.candidate j ≡ false
  pub saving : same e.saving j ≡ false
  pub backup : same (backup_path e key current) j ≡ false

abbrev IsSpared : Text → Text → Outcome SaveError SaveResult → Type 0
IsSpared path j o = (same path j ≡ false) ⊎ (reported o ≡ none)

save_replaced-archive :
    (e : Site) (key : Text) (current : FileContent) (content : Text) (apply : Bool) (v : Version)
    (o : Outcome EditError (Unit {0}) × Archive)
    → (save_replaced e key current content apply v o).1 ≡ o.1
unfolding save_replaced
save_replaced-archive e key current content apply v (error x, a) = refl
save_replaced-archive e key current content apply v (done u, a) =
    let result = save_result e key current content apply v in
    if_cases (λ (x : Outcome SaveError SaveResult × Archive). x.1 ≡ a)
      (is_applied e key current.path apply) (done result, a) (error (apply_failed result), a)
      (λ f. refl) (λ f. refl)

save_replaced-IsSpared :
    (e : Site) (key : Text) (current : FileContent) (content j : Text) (apply : Bool) (v : Version)
    (o : Outcome EditError (Unit {0}) × Archive)
    → IsSpared current.path j (save_replaced e key current content apply v o).0
    → (same current.path j ≡ false) ⊎ (o.0 ≢ done tt)
unfolding save_replaced
save_replaced-IsSpared e key current content j apply v (error x, a) spared = inr (λ q. cc)
save_replaced-IsSpared e key current content j apply v (done u, a) (inl d) = inl d
save_replaced-IsSpared e key current content j apply v (done u, a) (inr n) =
    let result = save_result e key current content apply v in
    if_cases
      (λ (x : Outcome SaveError SaveResult × Archive).
        reported x.0 ≡ none
        → (same current.path j ≡ false)
          ⊎ (◌≢◌ {A = Outcome EditError (Unit {0})} (done u) (done tt)))
      (is_applied e key current.path apply) (done result, a) (error (apply_failed result), a)
      (λ f q. cc) (λ f q. cc) n

save_kept_frame :
    (e : Site) (key : Text) (current : FileContent) (content j : Text) (apply : Bool) (a : Archive)
    (o : Outcome EditError Version × Archive)
    → IsOther e key current j
    → lookup j o.1.files ≡ lookup j a.files
    → IsSpared current.path j (save_kept e key current content apply o).0
    → lookup j (save_kept e key current content apply o).1.files ≡ lookup j a.files
unfolding save_kept
save_kept_frame e key current content j apply a (error x, a') other before spared = before
save_kept_frame e key current content j apply a (done v, a') other before spared =
    let spared_rename =
      save_replaced-IsSpared e key current content j apply v (replaced e current.path content a')
        spared in
    rw save_replaced-archive
      ((replaced-IsKept e current.path j content a' other.saving spared_rename).file ∙ before)

save_validated_frame :
    (e : Site) (key : Text) (current : FileContent) (content j : Text) (apply : Bool) (a : Archive)
    (o : Outcome EditError (Unit {0}) × Archive)
    → IsOther e key current j
    → lookup j o.1.files ≡ lookup j a.files
    → IsSpared current.path j (save_validated e key current content apply o).0
    → lookup j (save_validated e key current content apply o).1.files ≡ lookup j a.files
unfolding save_validated
save_validated_frame e key current content j apply a (error x, a') other before spared = before
save_validated_frame e key current content j apply a (done u, a') other before spared =
    save_kept_frame e key current content j apply a (backup e key current a') other
      (backup-file e key j current a' other.backup ∙ before) spared

save_read_frame :
    (e : Site) (key content base_sha j : Text) (apply : Bool) (a : Archive) (current : FileContent)
    → IsOther e key current j
    → IsSpared current.path j (save_read e key content base_sha apply a (done current)).0
    → lookup j (save_read e key content base_sha apply a (done current)).1.files ≡ lookup j a.files
unfolding save_read
save_read_frame e key content base_sha j apply a current other =
    if_cases
      (λ (x : Outcome SaveError SaveResult × Archive).
        IsSpared current.path j x.0 → lookup j x.1.files ≡ lookup j a.files)
      (is_empty base_sha || not (same current.sha256 base_sha)) (error (unsaved conflict), a) _
      (λ f spared. refl)
      (λ f spared.
        save_validated_frame e key current content j apply a _ other
          (validate-IsKept e key current.path j content a other.candidate).file spared)

-- Of a file that can be read, a save leaves what every path holds that is neither the name of a
-- temporary file nor that of the backup, if it is another path than the file's, or if the save gives an
-- error other than that of a failed `apply`.
pub save_frame :
    (e : Site) (key path content base_sha j : Text) (apply : Bool) (a : Archive)
    (current : FileContent)
    → read e path a ≡ done current
    → IsOther e key current j
    → (same current.path j ≡ false) ⊎ (reported (save e key path content base_sha apply a).0 ≡ none)
    → lookup j (save e key path content base_sha apply a).1.files ≡ lookup j a.files
unfolding save
save_frame e key path content base_sha j apply a current opened other spared =
    rw opened (save_read_frame e key content base_sha j apply a current other (rw opened at spared))
