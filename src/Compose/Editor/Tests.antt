-- ===== src/Compose/Editor/Tests.antt =====
-- The editor of backend/internal/compose/editor.go at a concrete file, clock and digest.

use compose_manager.Compose.Editor.{SaveError, unsaved, apply_failed, reported, is_applied}
use compose_manager.Base.{done, error}
use compose_manager.Base.{◌≡◌, refl}
use compose_manager.Base.{inr, true, false}
use compose_manager.Base.{some, [], ◌∷◌}
use compose_manager.Base.{Text, codes, same}
use compose_manager.Base.{trim_right, trim_space, to_lower}
use compose_manager.Base.{lookup}
use compose_manager.Compose.Guard.{System, found, regular}
use compose_manager.Compose.Editor.{
  replace_failed, Archive, Site, Faults, FileContent, Version, SaveResult, EditError, read, save,
  backup_path, save_result, restore,
}
use compose_manager.Compose.Editor.Saving.{IsApart, IsSaved, save-IsSaved}
use compose_manager.Compose.Editor.Frames.{save_frame}
use compose_manager.Compose.Editor.Restoring.{restore-save}

abbrev file_path : Text
file_path = codes "/srv/compose.yaml"

abbrev old_text : Text
old_text = codes "old"

abbrev new_text : Text
new_text = codes "new"

abbrev no_faults : Faults
no_faults = record {
  candidate_create = false;
  candidate_fill = false;
  backup_write = false;
  add_version = false;
  saving_create = false;
  saving_fill = false;
  replace = false;
}

-- A site whose digests are the texts themselves.
abbrev site_at : Text → Site
site_at stamp = record {
  system = record {
    working_dir = some (codes "/");
    eval_symlinks = λ p. found p;
    stat = λ p. regular;
    mount_points = some [];
  };
  roots = codes "/srv" ∷ [];
  backup_dir = codes "/data";
  hash = λ t. t;
  digest = λ t. t;
  unified_diff = λ a b. [];
  stamp = stamp;
  document_valid = λ t. true;
  candidate = codes "/srv/.cm-candidate-1.yaml";
  saving = codes "/srv/.cm-save-1.yaml";
  run_config = λ key content. some [];
  run_apply = λ key path. ([], true);
  faults = no_faults;
}

abbrev archive : Archive
archive = record {
  files = (file_path, old_text) ∷ (codes "/srv/a", codes "a") ∷ [];
  versions = [];
  next_version = 1;
}

abbrev current : FileContent
current = record { path = file_path; content = old_text; sha256 = old_text }

abbrev app : Text
app = codes "app"

abbrev first_version : Version
first_version = record {
  id = 1;
  project_key = app;
  file_path = file_path;
  sha256 = old_text;
  backup_path = codes "/data/app/t1-old.yaml";
}

abbrev site : Site
site = site_at (codes "t1")

abbrev saved_result : SaveResult
saved_result = save_result site app current new_text false first_version

opened : read site file_path archive ≡ done current
unfolding compose_manager.Compose.Editor.read_data compose_manager.Compose.Editor.read_resolved
    compose_manager.Compose.Guard.abs compose_manager.Compose.Guard.ascend
    compose_manager.Compose.Guard.check_regular
    compose_manager.Compose.Guard.eval_symlinks_with_missing_tail
    compose_manager.Compose.Guard.is_below_root compose_manager.Compose.Guard.is_compose_filename
    compose_manager.Compose.Guard.rejoin compose_manager.Compose.Guard.resolve
    compose_manager.Compose.Guard.resolve_compose_file
    compose_manager.Filepath.Containment.stays_below compose_manager.Filepath.base
    compose_manager.Filepath.clean compose_manager.Filepath.elements compose_manager.Filepath.rel
    compose_manager.Filepath.rel_elements compose_manager.Filepath.render lookup read to_lower
    trim_right
opened = refl

paths-IsApart : IsApart site app current
unfolding backup_path compose_manager.Compose.Keys.normalize_project_key
    compose_manager.Compose.Keys.safe_segment compose_manager.Compose.Keys.rest_of_rune
    compose_manager.Compose.Keys.spelled compose_manager.Compose.Keys.trim
    compose_manager.Filepath.clean compose_manager.Filepath.elements
    compose_manager.Filepath.join_path compose_manager.Filepath.render same to_lower trim_space
paths-IsApart = record {
  candidate_path = refl;
  saving_path = refl;
  saving_backup = refl;
  path_backup = refl;
}

save-IsSaved_example :
    (current.sha256 ≡ old_text)
    × IsSaved site app current new_text false archive saved_result
        (save site app file_path new_text old_text false archive).1
unfolding backup_path compose_manager.Compose.Editor.backup compose_manager.Compose.Editor.read_data
    compose_manager.Compose.Editor.read_resolved compose_manager.Compose.Editor.replaced
    compose_manager.Compose.Editor.save_kept compose_manager.Compose.Editor.save_read
    compose_manager.Compose.Editor.save_replaced compose_manager.Compose.Editor.save_validated
    compose_manager.Compose.Editor.validate compose_manager.Compose.Editor.validate_resolved
    compose_manager.Compose.Guard.abs compose_manager.Compose.Guard.ascend
    compose_manager.Compose.Guard.check_regular
    compose_manager.Compose.Guard.eval_symlinks_with_missing_tail
    compose_manager.Compose.Guard.is_below_root compose_manager.Compose.Guard.is_compose_filename
    compose_manager.Compose.Guard.rejoin compose_manager.Compose.Guard.resolve
    compose_manager.Compose.Guard.resolve_compose_file
    compose_manager.Compose.Keys.normalize_project_key compose_manager.Compose.Keys.safe_segment
    compose_manager.Compose.Keys.rest_of_rune compose_manager.Compose.Keys.spelled
    compose_manager.Compose.Keys.trim compose_manager.Filepath.Containment.stays_below
    compose_manager.Filepath.base compose_manager.Filepath.clean compose_manager.Filepath.elements
    compose_manager.Filepath.join_path compose_manager.Filepath.rel
    compose_manager.Filepath.rel_elements compose_manager.Filepath.render lookup read save to_lower
    trim_right trim_space
save-IsSaved_example =
    save-IsSaved site app file_path new_text old_text false archive current saved_result opened
      paths-IsApart refl

-- A save whose rename fails.
abbrev stuck : Site
stuck = record site { faults = record no_faults { replace = true } }

stuck_fails :
    (save stuck app file_path new_text old_text false archive).0 ≡ error (unsaved replace_failed)
unfolding compose_manager.Compose.Editor.backup compose_manager.Compose.Editor.read_data
    compose_manager.Compose.Editor.read_resolved compose_manager.Compose.Editor.replaced
    compose_manager.Compose.Editor.save_kept compose_manager.Compose.Editor.save_read
    compose_manager.Compose.Editor.save_replaced compose_manager.Compose.Editor.save_validated
    compose_manager.Compose.Editor.validate compose_manager.Compose.Editor.validate_resolved
    compose_manager.Compose.Guard.abs compose_manager.Compose.Guard.ascend
    compose_manager.Compose.Guard.check_regular
    compose_manager.Compose.Guard.eval_symlinks_with_missing_tail
    compose_manager.Compose.Guard.is_below_root compose_manager.Compose.Guard.is_compose_filename
    compose_manager.Compose.Guard.rejoin compose_manager.Compose.Guard.resolve
    compose_manager.Compose.Guard.resolve_compose_file
    compose_manager.Filepath.Containment.stays_below compose_manager.Filepath.base
    compose_manager.Filepath.clean compose_manager.Filepath.elements compose_manager.Filepath.rel
    compose_manager.Filepath.rel_elements compose_manager.Filepath.render lookup read save to_lower
    trim_right
stuck_fails = refl

save_frame_example :
    lookup file_path (save stuck app file_path new_text old_text false archive).1.files
    ≡ lookup file_path archive.files
unfolding backup_path compose_manager.Compose.Editor.read_data
    compose_manager.Compose.Editor.read_resolved compose_manager.Compose.Guard.abs
    compose_manager.Compose.Guard.ascend compose_manager.Compose.Guard.check_regular
    compose_manager.Compose.Guard.eval_symlinks_with_missing_tail
    compose_manager.Compose.Guard.is_below_root compose_manager.Compose.Guard.is_compose_filename
    compose_manager.Compose.Guard.rejoin compose_manager.Compose.Guard.resolve
    compose_manager.Compose.Guard.resolve_compose_file
    compose_manager.Compose.Keys.normalize_project_key compose_manager.Compose.Keys.safe_segment
    compose_manager.Compose.Keys.rest_of_rune compose_manager.Compose.Keys.spelled
    compose_manager.Compose.Keys.trim compose_manager.Filepath.Containment.stays_below
    compose_manager.Filepath.base compose_manager.Filepath.clean compose_manager.Filepath.elements
    compose_manager.Filepath.join_path compose_manager.Filepath.rel
    compose_manager.Filepath.rel_elements compose_manager.Filepath.render lookup read to_lower
    trim_right trim_space
save_frame_example =
    save_frame stuck app file_path new_text old_text file_path false archive current refl
      (record { candidate = refl; saving = refl; backup = refl }) (inr (rw stuck_fails refl))

abbrev later : Site
later = site_at (codes "t2")

restore-save_example :
    (back : SaveResult) × (let restored =
        restore later app saved_result.version.id
          (later.hash new_text)
          false
          (save site app file_path new_text old_text false archive).1 in
      (reported restored.0 ≡ some back)
      × (lookup file_path restored.1.files ≡ some old_text)
      × (lookup back.version.backup_path restored.1.files ≡ some new_text))
unfolding backup_path compose_manager.Compose.Editor.backup compose_manager.Compose.Editor.read_data
    compose_manager.Compose.Editor.read_resolved compose_manager.Compose.Editor.replaced
    compose_manager.Compose.Editor.save_kept compose_manager.Compose.Editor.save_read
    compose_manager.Compose.Editor.save_replaced compose_manager.Compose.Editor.save_validated
    compose_manager.Compose.Editor.validate compose_manager.Compose.Editor.validate_resolved
    compose_manager.Compose.Guard.abs compose_manager.Compose.Guard.ascend
    compose_manager.Compose.Guard.check_regular
    compose_manager.Compose.Guard.eval_symlinks_with_missing_tail
    compose_manager.Compose.Guard.is_below_root compose_manager.Compose.Guard.is_compose_filename
    compose_manager.Compose.Guard.rejoin compose_manager.Compose.Guard.resolve
    compose_manager.Compose.Guard.resolve_compose_file
    compose_manager.Compose.Keys.normalize_project_key compose_manager.Compose.Keys.safe_segment
    compose_manager.Compose.Keys.rest_of_rune compose_manager.Compose.Keys.spelled
    compose_manager.Compose.Keys.trim compose_manager.Filepath.Containment.stays_below
    compose_manager.Filepath.base compose_manager.Filepath.clean compose_manager.Filepath.elements
    compose_manager.Filepath.join_path compose_manager.Filepath.rel
    compose_manager.Filepath.rel_elements compose_manager.Filepath.render lookup read save to_lower
    trim_right trim_space
restore-save_example =
    restore-save site later app file_path new_text old_text false false archive current saved_result
      opened paths-IsApart refl
      (record {
        candidate_create = refl;
        candidate_fill = refl;
        backup_write = refl;
        add_version = refl;
        saving_create = refl;
        saving_fill = refl;
        replace = refl;
        document_valid = refl;
        output = [];
        config = refl;
        resolves = refl;
      })
      (record {
        candidate_path = refl;
        saving_path = refl;
        saving_backup = refl;
        path_backup = refl;
      })
      refl
