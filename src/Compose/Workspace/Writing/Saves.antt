-- ===== src/Compose/Workspace/Writing/Saves.antt =====
-- What a save of the workspace leaves, of backend/internal/compose/workspace.go.

use compose_manager.Base.{ℤ, Outcome, done, error}
use compose_manager.Base.{if_cases}
use compose_manager.Base.{◌≤◌, ◌≡◌, refl}
use compose_manager.Base.{inl, inr, true, false, not, ◌||◌}
use compose_manager.Base.{some, [], arith, ltb, Bool-cases}
use compose_manager.Base.{or_false, length}
use compose_manager.Base.{Text, same, same_iff, same_refl, is_empty}
use compose_manager.Base.{has_byte}
use compose_manager.Base.{lookup, lookup-insert, lookup-remove}
use compose_manager.Compose.Workspace.{
  Site, Disk, WorkspaceFile, WorkspaceError, resolve_path, read_file, max_workspace_file_size,
  conflict, too_large, temp_failed, replace_failed,
}
use compose_manager.Compose.Workspace.Writing.{
  put_file, remove_file, backup_path, backup, replaced, save_replaced, save_kept, save_checked,
  save_resolved, save_read, save_file,
}

-- What a save that is reported did: the file had the digest that it was opened with, and holds the
-- content; the backup holds what the file held.
pub record IsSaved (e : Site) (number : Text) (current : WorkspaceFile)
    (resolved content base_sha : Text) (d' : Disk) : Type 0 where
  pub agreed : current.sha256 ≡ base_sha
  pub small : length content ≤ max_workspace_file_size
  pub written : lookup resolved d'.files ≡ some content
  pub kept : lookup (backup_path e number current resolved) d'.files ≡ some current.content

replaced-done :
    (e : Site) (path content other held : Text) (d : Disk)
    → same e.saving_name other ≡ false
    → same path other ≡ false
    → lookup other d.files ≡ some held
    → (replaced e path content d).0 ≡ done tt
    → (lookup path (replaced e path content d).1.files ≡ some content)
      × (lookup other (replaced e path content d).1.files ≡ some held)
unfolding replaced
replaced-done e path content other held d apart_temp apart_path before =
    let Done : Outcome WorkspaceError (Unit {0}) × Disk → Type 0 = λ y.
      y.0 ≡ done tt
      → (lookup path y.1.files ≡ some content) × (lookup other y.1.files ≡ some held) in
    if_cases Done e.faults.saving
      (error temp_failed, remove_file e.saving_name (put_file e.saving_name [] d)) _ (λ f q. cc)
      (λ f.
        if_cases Done e.faults.replace
          (error replace_failed, remove_file e.saving_name (put_file e.saving_name content d)) _
          (λ g q. cc)
          (λ g q. (
            rw (lookup-insert path path content _, same_refl path) refl,
            rw
                (
                  lookup-insert path other content _,
                  apart_path,
                  lookup-remove e.saving_name other _,
                  apart_temp,
                  lookup-insert e.saving_name other content d.files,
                  apart_temp,
                )
                before,
          )))

save_replaced-done :
    (e : Site) (current : WorkspaceFile) (content : Text)
    (o : Outcome WorkspaceError (Unit {0}) × Disk) (r : WorkspaceFile)
    → (save_replaced e current content o).0 ≡ done r
    → (o.0 ≡ done tt) × ((save_replaced e current content o).1 ≡ o.1)
unfolding save_replaced
save_replaced-done e current content (error x, d) r q = cc
save_replaced-done e current content (done tt, d) r q = (refl, refl)

-- The paths of a save are apart.
pub record IsApart (e : Site) (number : Text) (current : WorkspaceFile) (resolved : Text)
    : Type 0 where
  pub saving : same e.saving_name (backup_path e number current resolved) ≡ false
  pub path : same resolved (backup_path e number current resolved) ≡ false

IsWritten : Site → Text → WorkspaceFile → Text → Text → Disk → Type 0
IsWritten e number current resolved content d' =
    (lookup resolved d'.files ≡ some content)
    × (lookup (backup_path e number current resolved) d'.files ≡ some current.content)

save_kept-done :
    (e : Site) (number : Text) (current : WorkspaceFile) (resolved content : Text) (d : Disk)
    (r : WorkspaceFile)
    → IsApart e number current resolved
    → (save_kept e current resolved content (backup e number current resolved d)).0 ≡ done r
    → IsWritten e number current resolved content
        (save_kept e current resolved content (backup e number current resolved d)).1
unfolding backup save_kept IsWritten
save_kept-done e number current resolved content d r apart_paths =
    elim (Bool-cases e.faults.backup) [
      | inl f ↦ simp f (λ q. cc)
      | inr f ↦ simp f (λ q.
          let path = backup_path e number current resolved in
          let (renamed, left) = save_replaced-done e current content _ r q in
          let held : lookup path (put_file path current.content d).files ≡ some current.content =
            rw (lookup-insert path path current.content d.files, same_refl path) refl in
          rw left (
            replaced-done e resolved content path current.content (put_file path current.content d)
              apart_paths.saving apart_paths.path held renamed))
    ]

save_checked-done :
    (e : Site) (number : Text) (current : WorkspaceFile) (resolved content : Text)
    (o : Outcome WorkspaceError (Unit {0}) × Disk) (r : WorkspaceFile)
    → IsApart e number current resolved
    → (save_checked e number current resolved content o).0 ≡ done r
    → IsWritten e number current resolved content
        (save_checked e number current resolved content o).1
unfolding save_checked
save_checked-done e number current resolved content (error x, d) r apart_paths q = cc
save_checked-done e number current resolved content (done u, d) r apart_paths q =
    save_kept-done e number current resolved content d r apart_paths q

save_read-done :
    (e : Site) (root_id : ℤ) (number relative content base_sha resolved cleaned : Text) (d : Disk)
    (current r : WorkspaceFile)
    → resolve_path e root_id relative ≡ done (resolved, cleaned)
    → IsApart e number current resolved
    → (save_read e root_id number relative content base_sha d (done current)).0 ≡ done r
    → (current.sha256 ≡ base_sha)
      × IsWritten e number current resolved content
          (save_read e root_id number relative content base_sha d (done current)).1
unfolding save_read save_resolved
save_read-done e root_id number relative content base_sha resolved cleaned d current r at_path
      apart_paths =
    if_cases
      (λ (y : Outcome WorkspaceError WorkspaceFile × Disk).
        y.0 ≡ done r
        → (current.sha256 ≡ base_sha) × IsWritten e number current resolved content y.1)
      (is_empty base_sha || not (same current.sha256 base_sha)) (error conflict, d) _ (λ f q. cc)
      (λ f. rw at_path (λ q.
        let (set, agrees) = or_false (is_empty base_sha) (not (same current.sha256 base_sha)) f in
        let same_sha : same current.sha256 base_sha ≡ true = ground (arith, agrees) in
        (
          (same_iff current.sha256 base_sha).0 same_sha,
          save_checked-done e number current resolved content _ r apart_paths q,
        )))

-- A save that is reported found the digest that the file was opened with; after it the file holds the
-- content, of at most 2 MiB, and the backup what the file held, where the paths it writes to are apart.
pub save_file-IsSaved :
    (e : Site) (root_id : ℤ) (number relative content base_sha resolved cleaned : Text) (d : Disk)
    (current r : WorkspaceFile)
    → resolve_path e root_id relative ≡ done (resolved, cleaned)
    → read_file e root_id relative d ≡ done current
    → IsApart e number current resolved
    → (save_file e root_id number relative content base_sha d).0 ≡ done r
    → IsSaved e number current resolved content base_sha
        (save_file e root_id number relative content base_sha d).1
unfolding save_file IsWritten
save_file-IsSaved e root_id number relative content base_sha resolved cleaned d current r at_path
      opened apart_paths =
    if_cases
      (λ (y : Outcome WorkspaceError WorkspaceFile × Disk).
        y.0 ≡ done r → IsSaved e number current resolved content base_sha y.1)
      (ltb max_workspace_file_size (length content) || has_byte 0 content) (error too_large, d) _
      (λ f q. cc)
      (λ f. rw opened (λ q.
        let (agreed, (written, kept)) =
          save_read-done e root_id number relative content base_sha resolved cleaned d current r
            at_path apart_paths q in
        let (small, text_only) =
          or_false (ltb max_workspace_file_size (length content)) (has_byte 0 content) f in
        record { agreed = agreed; small = ground (arith, small); written = written; kept = kept }))
