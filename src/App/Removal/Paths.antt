-- ===== src/App/Removal/Paths.antt =====
-- backend/internal/app/removal_paths.go: from the panel's paths to those of the host.
use compose_manager.Base.{sort_by}
use compose_manager.Base.{Bool, ◌&&◌, ◌||◌, Option, none, some, List, [], ◌∷◌}
use compose_manager.Base.{ltb, leb, if◌then◌else◌, length}
use compose_manager.Base.{any, filter}
use compose_manager.Base.{Text, codes, same, has_prefix}
use compose_manager.Model.{RemovalContainer, RemovalMount, label}
use compose_manager.Filepath.{clean, rel, join_path}
use compose_manager.Compose.Guard.{path_contains}

abbrev pub project_label : Text
project_label = codes "com.docker.compose.project"

abbrev pub working_dir_label : Text
working_dir_label = codes "com.docker.compose.project.working_dir"

abbrev pub config_files_label : Text
config_files_label = codes "com.docker.compose.project.config_files"

-- `c.Labels["com.docker.compose.project"]`.
abbrev pub project_of : RemovalContainer → Text
project_of c = label project_label c.labels

pub record RemovalPathMapper : Type 0 where
  pub mounts : List RemovalMount
  pub project : Text

abbrev pub is_bind : RemovalMount → Bool
is_bind m = same m.kind (codes "bind")

-- The panel's own container: its identifier begins with the host name.
abbrev pub is_self : Text → RemovalContainer → Bool
is_self hostname c = leb 12 (length hostname) && has_prefix c.id hostname

abbrev longer : RemovalMount → RemovalMount → Bool
longer a b = ltb (length b.destination) (length a.destination)

unfoldable pub new_removal_path_mapper : List RemovalContainer → Text → RemovalPathMapper
new_removal_path_mapper [] hostname = record { mounts = []; project = [] }
new_removal_path_mapper (c ∷ cs) hostname =
    let rest = new_removal_path_mapper cs hostname in
    if is_self hostname c
    then record { mounts = sort_by longer (filter is_bind c.mounts); project = project_of c }
    else rest

-- `filepath.Rel` with its error dropped.
abbrev or_empty : Option Text → Text
or_empty none = []
or_empty (some r) = r

pub map_mounts : List RemovalMount → Text → Text
map_mounts [] path = path
map_mounts (m ∷ ms) path =
    if path_contains m.destination path
    then join_path m.source (or_empty (rel m.destination path))
    else map_mounts ms path

unfoldable pub host : RemovalPathMapper → Text → Text
host mapper path = map_mounts mapper.mounts (clean path)

unfoldable pub scan_root_mount : RemovalPathMapper → Text → List Text → Bool
scan_root_mount mapper source roots =
    any (λ root. same (host mapper source) (host mapper root)) roots

-- `pathsOverlap`.
unfoldable pub paths_overlap : Text → Text → Bool
paths_overlap a b = path_contains a b || path_contains b a
