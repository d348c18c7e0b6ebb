-- ===== src/App/Removal/Plan/Candidates.antt =====
-- The images and volumes of a removal plan, each with the reason to keep it, if there is one.
use compose_manager.Base.{text_lt, ℕ}
use compose_manager.Base.{Bool, not, ◌&&◌, ◌||◌, Option, none, some, List, [], ◌∷◌, ◌++◌}
use compose_manager.Base.{map, ltb, ◌==◌, if◌then◌else◌, length, take}
use compose_manager.Base.{drop, any}
use compose_manager.Base.{Text, codes, same, has_prefix, has_byte}
use compose_manager.Model.{
  RemovalFile, RemovalContainer, RemovalMount, RemovalVolume, ImageReference, label,
}
use compose_manager.App.References.{full_ref, removal_image_matches}
use compose_manager.App.Removal.{
  ItemKind, container, image, volume, Reason, unresolved_reference, container_uses_it,
  container_mounts_it, volume_uncertain, file_names_it, file_mentions, RemovalItem, Retained,
  outer_volume,
}
use compose_manager.App.Removal.Paths.{project_of, project_label}

-- `ShortID`: twelve characters of the digest.
pub trim_prefix : Text → Text → Text
trim_prefix p s = if has_prefix s p then drop (length p) s else s

unfoldable pub short_id : Text → Text
unfolding trim_prefix
short_id id = take 12 (trim_prefix (codes "sha256:") id)

abbrev pub keep_if : Bool → Reason → Option Reason → Option Reason
keep_if b reason old = if b then some reason else old

-- A reference of a file to an image, or one that holds a variable.
abbrev pub may_mention : ImageReference → Text → Bool
may_mention i ref = has_byte b'$' ref || removal_image_matches (full_ref i) i.digest ref

unfoldable pub reason_of_refs : ImageReference → Text → List Text → Option Reason → Option Reason
reason_of_refs i name [] old = old
reason_of_refs i name (ref ∷ refs) old =
    reason_of_refs i name refs (keep_if (may_mention i ref) (file_mentions name) old)

unfoldable pub reason_of_files :
    ImageReference → Text → List RemovalFile → Option Reason → Option Reason
reason_of_files i target [] old = old
reason_of_files i target (f ∷ fs) old = reason_of_files i target fs (
    if same f.project.file target
    then old
    else reason_of_refs i f.project.name f.project.images
        (keep_if f.uncertain unresolved_reference old))

-- The loop over the image list, at the entries of one identifier.
unfoldable pub reason_of_images :
    Text → Text → List RemovalFile → List ImageReference → Option Reason → Option Reason
reason_of_images id target files [] old = old
reason_of_images id target files (i ∷ is) old =
    reason_of_images id target files is
      (if same i.id id then reason_of_files i target files old else old)

unfoldable pub reason_of_users : Text → Text → List RemovalContainer → Option Reason → Option Reason
reason_of_users id key [] old = old
reason_of_users id key (c ∷ cs) old =
    reason_of_users id key cs
      (keep_if (same c.image_id id && not (same (project_of c) key)) container_uses_it old)

-- The name of the last entry of the image.
pub image_name : Text → List ImageReference → Text → Text
image_name id [] old = old
image_name id (i ∷ is) old =
    image_name id is
      (if same i.id id then full_ref i ++ (codes " (" ++ (short_id id ++ codes ")")) else old)

unfoldable pub image_item :
    Text
    → List RemovalFile
    → RemovalFile
    → List ImageReference
    → List RemovalContainer
    → Text
    → RemovalItem
image_item key files target images cs id = record {
  kind = image;
  id = id;
  name = image_name id images id;
  state = [];
  reason = reason_of_users id key cs (reason_of_images id target.project.file files images none);
}

-- The set of candidates, as a list without repetitions.
unfoldable pub add_candidate : Text → List Text → List Text
add_candidate id set = if any (same id) set then set else id ∷ set

unfoldable pub candidates_of_containers : Text → List RemovalContainer → List Text → List Text
candidates_of_containers key [] set = set
candidates_of_containers key (c ∷ cs) set =
    candidates_of_containers key cs
      (if same (project_of c) key then add_candidate c.image_id set else set)

abbrev named_by : RemovalFile → ImageReference → Bool
named_by target i =
    any (λ ref. removal_image_matches (full_ref i) i.digest ref) target.project.images

unfoldable pub candidates_of_images : RemovalFile → List ImageReference → List Text → List Text
candidates_of_images target [] set = set
candidates_of_images target (i ∷ is) set =
    candidates_of_images target is (if named_by target i then add_candidate i.id set else set)

unfoldable pub image_items :
    Text
    → List RemovalFile
    → RemovalFile
    → List ImageReference
    → List RemovalContainer
    → List RemovalItem
image_items key files target images cs =
    map (image_item key files target images cs)
      (candidates_of_images target images (candidates_of_containers key cs []))

abbrev pub mounts_name : Text → RemovalContainer → Bool
mounts_name name c = any (λ m. same m.name name) c.mounts

unfoldable pub reason_of_mounts :
    Text → Text → List RemovalContainer → Option Reason → Option Reason
reason_of_mounts name key [] old = old
reason_of_mounts name key (c ∷ cs) old =
    reason_of_mounts name key cs
      (keep_if (not (same (project_of c) key) && mounts_name name c) container_mounts_it old)

unfoldable pub reason_of_volume_files :
    Text → Text → List RemovalFile → Option Reason → Option Reason
reason_of_volume_files name target [] old = old
reason_of_volume_files name target (f ∷ fs) old = reason_of_volume_files name target fs (
    if same f.project.file target
    then old
    else keep_if (any (λ v. same v name) f.volumes) file_names_it
        (keep_if f.uncertain volume_uncertain old))

unfoldable pub volume_item :
    Text → List RemovalFile → RemovalFile → List RemovalContainer → Text → RemovalItem
volume_item key files target cs name = record {
  kind = volume;
  id = name;
  name = name;
  state = [];
  reason =
      reason_of_volume_files name target.project.file files (reason_of_mounts name key cs none);
}

abbrev is_own_volume : Text → RemovalVolume → Bool
is_own_volume key v = same (label project_label v.labels) key

unfoldable pub volume_items :
    Text
    → List RemovalFile
    → RemovalFile
    → List RemovalContainer
    → List RemovalVolume
    → List RemovalItem
volume_items key files target cs [] = []
volume_items key files target cs (v ∷ vs) =
    let rest = volume_items key files target cs vs in
    if is_own_volume key v then volume_item key files target cs v.name ∷ rest else rest

-- The volumes of other owners that the project's containers mount, once for each mount.
pub outer_uses : Text → List RemovalMount → List Retained
outer_uses name [] = []
outer_uses name (m ∷ ms) =
    let rest = outer_uses name ms in
    if same m.kind (codes "volume") && same m.name name then outer_volume name ∷ rest else rest

pub outer_mounts_of : Text → Text → List RemovalContainer → List Retained
outer_mounts_of key name [] = []
outer_mounts_of key name (c ∷ cs) =
    let rest = outer_mounts_of key name cs in
    if same (project_of c) key then outer_uses name c.mounts ++ rest else rest

pub outer_volumes : Text → List RemovalContainer → List RemovalVolume → List Retained
outer_volumes key cs [] = []
outer_volumes key cs (v ∷ vs) =
    let rest = outer_volumes key cs vs in
    if is_own_volume key v then rest else outer_mounts_of key v.name cs ++ rest

-- The order of `a.Kind+a.ID`: the kinds differ in their first letter.
abbrev pub kind_rank : ItemKind → ℕ
kind_rank container = 0
kind_rank image = 1
kind_rank volume = 2

abbrev pub item_less : RemovalItem → RemovalItem → Bool
item_less a b =
    ltb (kind_rank a.kind) (kind_rank b.kind)
    || ((kind_rank a.kind == kind_rank b.kind) && text_lt a.id b.id)
