-- ===== src/Compose/Workspace/Tests.antt =====
-- Projects made in the workspace of backend/internal/compose/workspace.go, at a concrete disk.

use compose_manager.Compose.Workspace.Writing.Saves.{IsSaved, save_file-IsSaved}
use compose_manager.Compose.Workspace.Writing.{save_file}
use compose_manager.Compose.Workspace.{WorkspaceFile, read_file, config_failed}
use compose_manager.Base.{pos}
use compose_manager.Base.{◌≡◌, refl}
use compose_manager.Base.{true, false, none}
use compose_manager.Base.{some, [], ◌∷◌}
use compose_manager.Base.{Text, codes, same}
use compose_manager.Base.{has_prefix, has_byte, trim_space, to_lower}
use compose_manager.Base.{lookup}
use compose_manager.Compose.Guard.{System, found, regular, absent}
use compose_manager.Compose.Identifier.{is_identifier}
use compose_manager.Filepath.{join_path}
use compose_manager.Compose.Workspace.{
  WorkspaceFile, read_file, config_failed, Site, Disk, Faults, WorkspaceError, resolve_path,
}
use compose_manager.Compose.Workspace.Projects.{CreatedProject, create_project}
use compose_manager.Compose.Workspace.Projects.Undone.{IsUndone, create_project-IsUndone}
use compose_manager.Compose.Workspace.Projects.Made.{IsMade, create_project-IsMade}

abbrev site : Site
site = record {
  system = record {
    working_dir = some (codes "/");
    eval_symlinks = λ p. found p;
    stat = λ p. absent;
    mount_points = some [];
  };
  roots = codes "/srv" ∷ [];
  backup_dir = codes "/data";
  hash = λ t. t;
  digest = λ t. t;
  stamp = codes "t1";
  document_valid = λ t. true;
  run_config = λ key content. some [];
  run_apply = λ key path. ([], true);
  candidate_name = codes "/srv/app/.cm-workspace-1";
  saving_name = codes "/srv/app/.cm-workspace-2";
  elsewhere = λ p. absent;
  faults = record {
    candidate = false;
    saving = false;
    backup = false;
    replace = false;
    mkdir = none;
  };
}

-- A site whose runner rejects every candidate.
abbrev strict : Site
strict = record site { run_config = λ key content. none }

abbrev disk : Disk
disk = record { files = (codes "/srv/a", codes "a") ∷ []; directories = codes "/srv" ∷ [] }

abbrev text : Text
text = codes "services"

abbrev target : Text
target = codes "/srv/app"

abbrev app : Text
app = codes "app"

abbrev made : CreatedProject
made = record {
  name = app;
  root_id = pos 0;
  directory = app;
  file = codes "app/compose.yaml";
  output = [];
}

create_project-IsUndone_example :
    IsUndone (codes "/srv/a") target disk (create_project strict (pos 0) app app text false disk).1
unfolding compose_manager.Compose.Guard.abs compose_manager.Compose.Guard.ascend
    compose_manager.Compose.Guard.eval_symlinks_with_missing_tail
    compose_manager.Compose.Guard.is_below_root compose_manager.Compose.Guard.rejoin
    compose_manager.Compose.Guard.resolve compose_manager.Compose.Workspace.Projects.configured
    compose_manager.Compose.Workspace.Projects.create_at
    compose_manager.Compose.Workspace.Projects.filled
    compose_manager.Compose.Workspace.Projects.finished
    compose_manager.Compose.Workspace.Projects.is_taken
    compose_manager.Compose.Workspace.Projects.mkdir_all
    compose_manager.Compose.Workspace.clean_workspace_relative
    compose_manager.Compose.Workspace.root_at compose_manager.Compose.Workspace.stat_other
    compose_manager.Filepath.Containment.stays_below compose_manager.Filepath.clean
    compose_manager.Filepath.elements compose_manager.Filepath.rel
    compose_manager.Filepath.rel_elements compose_manager.Filepath.render create_project has_byte
    has_prefix is_identifier join_path lookup resolve_path same to_lower trim_space
    compose_manager.Compose.Workspace.Projects.made_directories
create_project-IsUndone_example =
    create_project-IsUndone strict (pos 0) app app text (codes "/srv/a") target app false disk
      config_failed refl refl refl

create_project-IsMade_example :
    (is_identifier made.name ≡ true)
    × (same made.name (to_lower made.name) ≡ true)
    × (site.document_valid text ≡ true)
    × IsMade site
        (trim_space app)
        text
        target
        disk
        made
        (create_project site (pos 0) app app text false disk).1
unfolding compose_manager.Compose.Guard.abs compose_manager.Compose.Guard.ascend
    compose_manager.Compose.Guard.eval_symlinks_with_missing_tail
    compose_manager.Compose.Guard.is_below_root compose_manager.Compose.Guard.rejoin
    compose_manager.Compose.Guard.resolve compose_manager.Compose.Workspace.Projects.configured
    compose_manager.Compose.Workspace.Projects.create_at
    compose_manager.Compose.Workspace.Projects.filled
    compose_manager.Compose.Workspace.Projects.finished
    compose_manager.Compose.Workspace.Projects.is_taken
    compose_manager.Compose.Workspace.Projects.mkdir_all
    compose_manager.Compose.Workspace.clean_workspace_relative
    compose_manager.Compose.Workspace.root_at compose_manager.Compose.Workspace.stat_other
    compose_manager.Filepath.Containment.stays_below compose_manager.Filepath.clean
    compose_manager.Filepath.elements compose_manager.Filepath.rel
    compose_manager.Filepath.rel_elements compose_manager.Filepath.render create_project has_byte
    has_prefix is_identifier join_path lookup resolve_path same to_lower trim_space
    compose_manager.Compose.Workspace.Projects.made_directories
create_project-IsMade_example =
    create_project-IsMade site (pos 0) app app text target app false disk made refl refl

abbrev full_disk : Disk
full_disk = record {
  files = (codes "/srv/app/a.txt", codes "old") ∷ [];
  directories = codes "/srv" ∷ [];
}

abbrev before : WorkspaceFile
before = record {
  root_id = pos 0;
  path = codes "app/a.txt";
  content = codes "old";
  sha256 = codes "old";
}

abbrev saved : Disk
saved =
    (save_file site (pos 0) (codes "0") (codes "app/a.txt") (codes "new") (codes "old") full_disk).1

save_file-IsSaved_example :
    IsSaved site (codes "0") before (codes "/srv/app/a.txt") (codes "new") (codes "old") saved
unfolding compose_manager.Compose.Guard.abs compose_manager.Compose.Guard.ascend
    compose_manager.Compose.Guard.eval_symlinks_with_missing_tail
    compose_manager.Compose.Guard.is_below_root compose_manager.Compose.Guard.is_compose_filename
    compose_manager.Compose.Guard.rejoin compose_manager.Compose.Guard.resolve
    compose_manager.Compose.Workspace.Writing.backup
    compose_manager.Compose.Workspace.Writing.backup_path
    compose_manager.Compose.Workspace.Writing.checked
    compose_manager.Compose.Workspace.Writing.replaced
    compose_manager.Compose.Workspace.Writing.save_checked
    compose_manager.Compose.Workspace.Writing.save_kept
    compose_manager.Compose.Workspace.Writing.save_read
    compose_manager.Compose.Workspace.Writing.save_replaced
    compose_manager.Compose.Workspace.Writing.save_resolved
    compose_manager.Compose.Workspace.check_content
    compose_manager.Compose.Workspace.clean_workspace_relative
    compose_manager.Compose.Workspace.editable_exts compose_manager.Compose.Workspace.ext
    compose_manager.Compose.Workspace.is_editable compose_manager.Compose.Workspace.read_content
    compose_manager.Compose.Workspace.root_at compose_manager.Filepath.Containment.stays_below
    compose_manager.Filepath.base compose_manager.Filepath.clean compose_manager.Filepath.dir
    compose_manager.Filepath.elements compose_manager.Filepath.rel
    compose_manager.Filepath.rel_elements compose_manager.Filepath.render
    compose_manager.Filepath.up_to_slash has_byte has_prefix join_path lookup read_file resolve_path
    same save_file to_lower trim_space
save_file-IsSaved_example =
    save_file-IsSaved site (pos 0) (codes "0") (codes "app/a.txt") (codes "new") (codes "old")
      (codes "/srv/app/a.txt") (codes "app/a.txt") full_disk before
      (record before { content = codes "new"; sha256 = codes "new" }) refl refl
      (record { saving = refl; path = refl }) refl
