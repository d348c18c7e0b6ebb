-- ===== src/App/Removal/Plan.antt =====
-- removalPlan of backend/internal/app/project_removal.go, loop by loop.
pub mod Candidates
pub mod Reasons
pub mod Items
use compose_manager.Base.{
  text_lt, put_sorted, sort_by, All-sort_by, Never, Exists, Exists-mono, Exists-of_any, ℕ, zero,
  suc, ◌+◌, ◌-◌, ◌*◌,
}
use compose_manager.Base.{◌/◌, ◌%◌, ◌^◌, ◌≤◌, ◌<◌, ◌≡◌, refl, sym, ap, ◌∙◌, ◌≢◌, ◌↔◌, ◌⊎◌, inl}
use compose_manager.Base.{
  inr, Bool, true, false, not, ◌&&◌, ◌||◌, Option, none, some, List, [], ◌∷◌, ◌++◌,
}
use compose_manager.Base.{
  map, arith, ltb, leb, ◌==◌, if◌then◌else◌, ==_iff, Bool-cases, Option-cases, and_true, and_intro,
  or_false, length, take,
}
use compose_manager.Base.{
  drop, all, any, filter, length-append, length-take, length-drop, take-append-drop, All,
  All-append, All-mono, All-filter, All-filter_test, All-of_all,
}
use compose_manager.Base.{
  length-filter, All-of_any, Text, codes, same, same_iff, same_refl, same_sym, is_empty, has_prefix,
  contains, has_byte, split, join,
}
use compose_manager.Base.{
  is_space, trim_left, trim_right, trim_space, lower_byte, to_lower, last_piece, but_last, Map,
  lookup, insert, remove, purge, lookup-insert,
}
use compose_manager.Base.{
  lookup-remove, Unique, Unique-insert, Unique-remove, unless, lookup-purge, Unique-purge,
}
use compose_manager.Model.{
  RemovalFile, RemovalContainer, RemovalMount, RemovalVolume, RemovalNetwork, RemovalResources,
  ImageReference, label,
}
use compose_manager.Filepath.{clean, join_path, is_abs}
use compose_manager.Compose.Identifier.{is_identifier}
use compose_manager.Compose.Guard.{System, PathError, path_contains, removal_directory, abs}
use compose_manager.Compose.Guard
use compose_manager.App.Removal.{
  WalkEntry, World, ItemKind, container, RemovalItem, Blocked, bad_path, holds_panel_data,
  holds_other_file, unresolved_mount, referenced_by, mounted_by, walk_failed, too_many_files,
  holds_symlink, unresolved_link, special_file,
}
use compose_manager.App.Removal.{
  Retained, outer_volume, outer_mount, network, RemovalPlan, PlanError, demo_mode, invalid_key,
  scan_failed, several_files, no_file, excluded_file, docker_failed, images_failed, own_container,
  other_directory, other_files,
}
use compose_manager.App.Removal.{Planned, planned, refused, ◌>>=◌, ◌>>◌, guard, or_refuse}
use compose_manager.App.Removal.Paths.{
  RemovalPathMapper, new_removal_path_mapper, host, scan_root_mount, paths_overlap, project_of,
  working_dir_label, config_files_label, is_bind, is_self,
}
use Candidates.{image_items, volume_items, outer_volumes, item_less}

-- The file of the key, which must be the only one.
unfoldable pub find_target : Text → List RemovalFile → Option RemovalFile → Planned RemovalFile
find_target key [] none = refused no_file
find_target key [] (some f) = planned f
find_target key (f ∷ fs) target =
    let again = find_target key fs target in
    let first = find_target key fs (some f) in
    if same f.project.key key
    then elim target [ none ↦ first | some g ↦ refused several_files ]
    else again

-- The panel's own container, by its identifier or its image.
abbrev pub is_manager : Text → RemovalContainer → Bool
is_manager hostname c = is_self hostname c || contains c.image (codes "/compose-manager:")

abbrev same_dir : RemovalPathMapper → Text → Text → Bool
same_dir mapper expected given = same (host mapper given) expected

-- The guards on one container of the project.
unfoldable pub check_container :
    RemovalPathMapper → Text → Text → Text → RemovalContainer → Planned (Unit {0})
check_container mapper hostname host_dir host_file c =
    let working = label working_dir_label c.labels in
    let configs = label config_files_label c.labels in
    do
      guard (not (is_manager hostname c)) own_container
      guard (is_empty working || same_dir mapper host_dir working) other_directory
      guard
          (is_empty configs
            || all (λ file. same_dir mapper host_file (trim_space file)) (split b',' configs))
          other_files

pub container_item : RemovalContainer → RemovalItem
container_item c = record {
  kind = container;
  id = c.id;
  name = join (codes ", ") c.names;
  state = c.state;
  reason = none;
}

unfoldable pub outer_mounts : Text → List RemovalMount → List Retained
outer_mounts host_dir [] = []
outer_mounts host_dir (m ∷ ms) =
    let rest = outer_mounts host_dir ms in
    if is_bind m && not (path_contains host_dir m.source) then outer_mount m.source ∷ rest else rest

-- One container of the project, before those that follow.
unfoldable pub take_container :
    RemovalPathMapper
    → Text
    → Text
    → Text
    → RemovalContainer
    → Planned (List RemovalItem × List Retained)
    → Planned (List RemovalItem × List Retained)
take_container mapper hostname host_dir host_file c others = do
  check_container mapper hostname host_dir host_file c
  rest ← others
  planned (container_item c ∷ rest.0, outer_mounts host_dir c.mounts ++ rest.1)

-- The loop over the containers: the project's become items, and their outer mounts are named.
unfoldable pub scan_containers :
    RemovalPathMapper
    → Text
    → Text
    → Text
    → Text
    → List RemovalContainer
    → Planned (List RemovalItem × List Retained)
scan_containers mapper hostname key host_dir host_file [] = planned ([], [])
scan_containers mapper hostname key host_dir host_file (c ∷ cs) =
    let others = scan_containers mapper hostname key host_dir host_file cs in
    if not (same (project_of c) key)
    then others
    else take_container mapper hostname host_dir host_file c others

-- What blocks, if anything, set anew by a later test that fails.
abbrev pub block_if : Bool → Blocked → Option Blocked → Option Blocked
block_if b reason old = if b then some reason else old

abbrev blocked_path : Guard.Result Text → Option Blocked
blocked_path (Guard.ok r) = none
blocked_path (Guard.err e) = some (bad_path e)

-- The loop over the panel's data and backup directories.
pub block_protected : World → RemovalPathMapper → Text → List Text → Option Blocked → Option Blocked
block_protected w mapper host_dir [] old = old
block_protected w mapper host_dir (p ∷ ps) old = block_protected w mapper host_dir ps (
    if is_empty p then old else elim (abs w.system p) [
      | Guard.ok resolved ↦
          block_if (path_contains host_dir (host mapper resolved)) holds_panel_data old
      | Guard.err e ↦ old
    ])

pub block_binds :
    World → RemovalPathMapper → Text → RemovalFile → List Text → Option Blocked → Option Blocked
block_binds w mapper host_dir f [] old = old
block_binds w mapper host_dir f (source ∷ sources) old = block_binds w mapper host_dir f sources (
    if same f.project.key mapper.project && scan_root_mount mapper source w.roots
    then old
    else block_if (paths_overlap host_dir (host mapper source)) (referenced_by f.project.name) old)

-- The loop over the other Compose files.
pub block_files :
    World
    → RemovalPathMapper
    → Text
    → Text
    → Text
    → List RemovalFile
    → Option Blocked
    → Option Blocked
block_files w mapper dir host_dir target [] old = old
block_files w mapper dir host_dir target (f ∷ fs) old =
    block_files w mapper dir host_dir target fs (
      if same f.project.file target
      then old
      else block_binds w mapper host_dir f f.binds (
          block_if (f.uncertain && paths_overlap host_dir (host mapper f.project.file))
            unresolved_mount (block_if (path_contains dir f.project.file) holds_other_file old)))

-- The panel mounts the scan roots themselves.
pub is_scan_mount : World → RemovalPathMapper → RemovalMount → Bool
is_scan_mount w mapper m =
    any (λ root. same m.source (host mapper root) && same m.destination root) w.roots

pub block_mounts :
    World
    → RemovalPathMapper
    → Text
    → RemovalContainer
    → List RemovalMount
    → Option Blocked
    → Option Blocked
block_mounts w mapper host_dir c [] old = old
block_mounts w mapper host_dir c (m ∷ ms) old = block_mounts w mapper host_dir c ms (
    if not (is_bind m) || not (paths_overlap host_dir m.source)
    then old
    else block_if (not (is_manager w.hostname c && is_scan_mount w mapper m))
        (mounted_by (join (codes ", ") c.names)) old)

-- The loop over the containers of other projects.
pub block_containers :
    World
    → RemovalPathMapper
    → Text
    → Text
    → List RemovalContainer
    → Option Blocked
    → Option Blocked
block_containers w mapper key host_dir [] old = old
block_containers w mapper key host_dir (c ∷ cs) old =
    block_containers w mapper key host_dir cs
      (if same (project_of c) key then old else block_mounts w mapper host_dir c c.mounts old)

-- The walk over the directory, with its count of entries.
pub walk_directory : ℕ → List WalkEntry → Option Blocked
walk_directory count [] = none
walk_directory count (e ∷ es) =
    let rest = walk_directory (count + 1) es in
    if e.failed
    then some walk_failed
    else if ltb 100000 (count + 1)
    then some too_many_files
    else if e.symlink
    then some holds_symlink
    else if e.is_dir && not e.evaluates_to_itself
    then some unresolved_link
    else if not e.is_dir && not e.regular
    then some special_file
    else rest

abbrev or_walk : Option Blocked → Option Blocked → Option Blocked
or_walk none walked = walked
or_walk (some b) walked = some b

-- All that can block the removal of the directory, in the order of the tests.
pub directory_blocked :
    World
    → RemovalPathMapper
    → Text
    → Text
    → Text
    → Text
    → List RemovalFile
    → List RemovalContainer
    → Option Blocked
directory_blocked w mapper key dir host_dir target files cs =
    or_walk
      (block_containers w mapper key host_dir cs (
        block_files w mapper dir host_dir target files (
          block_protected w mapper host_dir (w.data_dir ∷ w.backup_dir ∷ [])
            (blocked_path (removal_directory w.system w.roots dir)))))
      (walk_directory 0 (w.entries dir))

pub retained_networks : Text → List RemovalNetwork → List Retained
retained_networks key [] = []
retained_networks key (n ∷ ns) =
    let rest = retained_networks key ns in
    if same (label (codes "com.docker.compose.project") n.labels) key
    then network n.name ∷ rest
    else rest

abbrev retained_rank : Retained → ℕ × Text
retained_rank (outer_volume t) = (0, t)
retained_rank (outer_mount t) = (1, t)
retained_rank (network t) = (2, t)

abbrev retained_less : Retained → Retained → Bool
retained_less a b =
    let (i, s) = retained_rank a in
    let (j, t) = retained_rank b in ltb i j || ((i == j) && text_lt s t)

-- The plan, from what was read.
unfoldable pub assemble_plan :
    World
    → Text
    → List RemovalFile
    → RemovalFile
    → RemovalResources
    → List ImageReference
    → List RemovalItem × List Retained
    → RemovalPathMapper
    → RemovalPlan
assemble_plan w key files target resources images scanned mapper =
    let dir = target.project.working_dir in
    record {
      key = key;
      name = target.project.name;
      file = target.project.file;
      directory = dir;
      host_directory = host mapper dir;
      host_file = host mapper target.project.file;
      directory_blocked =
          directory_blocked w mapper key dir (host mapper dir) target.project.file files
            resources.containers;
      items = sort_by item_less (
          scanned.0
          ++ (image_items key files target images resources.containers
              ++ volume_items key files target resources.containers resources.volumes));
      retained = sort_by retained_less (
          scanned.1
          ++ (outer_volumes key resources.containers resources.volumes
              ++ retained_networks key resources.networks));
      config_sha = target.sha;
    }

unfoldable pub removal_plan : World → Text → Planned RemovalPlan
removal_plan w key = do
  guard (not w.demo) demo_mode
  guard (is_identifier key) invalid_key
  files ← or_refuse w.files scan_failed
  target ← find_target key files none
  guard (not (w.excluded target.project.file)) excluded_file
  resources ← or_refuse w.resources docker_failed
  images ← or_refuse w.images images_failed
  let mapper = new_removal_path_mapper resources.containers w.hostname
  scanned ←
      scan_containers mapper w.hostname key (host mapper target.project.working_dir)
        (host mapper target.project.file) resources.containers
  planned (assemble_plan w key files target resources images scanned mapper)
