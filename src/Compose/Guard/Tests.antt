-- ===== src/Compose/Guard/Tests.antt =====
-- The path guard of backend/internal/compose/pathguard.go and removal.go at concrete paths.
use compose_manager.Base.{Exists}
use compose_manager.Base.{◌≡◌, refl, ◌≢◌, ◌↔◌}
use compose_manager.Base.{true, some, List, [], ◌∷◌}
use compose_manager.Base.{if◌then◌else◌}
use compose_manager.Base.{All}
use compose_manager.Base.{Text, codes, same}
use compose_manager.Filepath.{is_abs, elements, clean}
use compose_manager.Filepath.Containment.{Within}
use compose_manager.Compose.Guard.{
  System, Eval, Kind, found, not_exist, directory, Result, ok, err, out_of_rounds, resolve,
  removal_directory, path_contains, eval_symlinks_with_missing_tail,
}
use compose_manager.Compose.Guard.Roots.{IsUnix, resolve_sound}
use compose_manager.Compose.Guard.Ascent.{missing_tail_total}
use compose_manager.Compose.Guard.Removal.{path_contains_iff, removal_directory_below_root}

-- A host with one mount point and no symbolic link.
abbrev plain : System
plain = record {
  working_dir = some (codes "/");
  eval_symlinks = λ p. found p;
  stat = λ p. directory;
  mount_points = some (codes "/proc" ∷ []);
}

-- A host on which nothing but the root exists.
abbrev bare : System
bare = record plain { eval_symlinks = λ p. if same p (codes "/") then found p else not_exist }

abbrev srv : List Text
srv = codes "/srv" ∷ []

plain-IsUnix : IsUnix plain
plain-IsUnix = record {
  working_dir_abs = λ wd h. let q : codes "/" ≡ wd = cc in rw⁻¹ q refl;
  eval_abs = λ p e a h. let q : p ≡ e = cc in rw⁻¹ q a;
}

resolve_sound_example :
    (is_abs (codes "/srv/b") ≡ true)
    × Exists (λ root. Within (elements root) (elements (codes "/srv/b"))) srv
unfolding clean compose_manager.Compose.Guard.abs compose_manager.Compose.Guard.ascend
    compose_manager.Compose.Guard.is_below_root compose_manager.Compose.Guard.rejoin
    compose_manager.Filepath.Containment.stays_below compose_manager.Filepath.rel
    compose_manager.Filepath.rel_elements compose_manager.Filepath.render elements
    eval_symlinks_with_missing_tail resolve
resolve_sound_example =
    resolve_sound plain srv (codes "/srv/a/../b") (codes "/srv/b") plain-IsUnix (refl, tt) refl

missing_tail_total_example :
    eval_symlinks_with_missing_tail bare (clean (codes "/srv/new")) ≢ err out_of_rounds
missing_tail_total_example = missing_tail_total bare (codes "/srv/new") refl

path_contains_iff_example :
    (path_contains (codes "/srv/") (codes "/srv/./app") ≡ true)
    ↔ Within (elements (codes "/srv/")) (elements (codes "/srv/./app"))
path_contains_iff_example = path_contains_iff (codes "/srv/") (codes "/srv/./app") refl refl

removal_directory_below_root_example :
    Exists (λ root. Within (elements root) (elements (codes "/srv/app"))) srv
    × All (λ root. ¬ Within (elements (codes "/srv/app")) (elements root)) srv
unfolding clean compose_manager.Compose.Guard.abs compose_manager.Compose.Guard.ascend
    compose_manager.Compose.Guard.check_directory compose_manager.Compose.Guard.check_removal_mounts
    compose_manager.Compose.Guard.is_below_root compose_manager.Compose.Guard.rejoin
    compose_manager.Filepath.Containment.stays_below compose_manager.Filepath.rel
    compose_manager.Filepath.rel_elements compose_manager.Filepath.render elements
    eval_symlinks_with_missing_tail path_contains removal_directory resolve
removal_directory_below_root_example =
    removal_directory_below_root plain srv (codes "/srv/app") (codes "/srv/app") plain-IsUnix
      (refl, tt) refl
