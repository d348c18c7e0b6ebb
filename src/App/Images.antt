-- ===== src/App/Images.antt =====
-- The image list and the deletion of an image: classifyImage, images and DeleteImage of
-- backend/internal/app/service.go. Docker's answers and the scan are arguments; `none` is an error.
pub mod References
pub mod Deletion
mod Tests
use compose_manager.Base.{
  Never, Exists, Exists-mono, Exists-of_any, ℕ, zero, suc, ◌+◌, ◌-◌, ◌*◌, ◌/◌, ◌%◌, ◌^◌, ◌≤◌,
}
use compose_manager.Base.{◌<◌, ◌≡◌, refl, sym, ap, ◌∙◌, ◌≢◌, ◌↔◌, ◌⊎◌, inl, inr, Bool, true, false}
use compose_manager.Base.{
  not, ◌&&◌, ◌||◌, Option, none, some, List, [], ◌∷◌, ◌++◌, map, arith, ltb, leb,
}
use compose_manager.Base.{
  ◌==◌, if◌then◌else◌, ==_iff, Bool-cases, Option-cases, and_true, and_intro, or_false, length,
  take, drop, all, any, filter,
}
use compose_manager.Base.{
  length-append, length-take, length-drop, take-append-drop, All, All-append, All-mono, All-filter,
  All-filter_test, All-of_all, length-filter, All-of_any, Text, codes,
}
use compose_manager.Base.{
  same, same_iff, same_refl, same_sym, is_empty, has_prefix, contains, has_byte, split, join,
  is_space, trim_left, trim_right, trim_space,
}
use compose_manager.Base.{
  lower_byte, to_lower, last_piece, but_last, Map, lookup, insert, remove, purge, lookup-insert,
  lookup-remove, Unique, Unique-insert, Unique-remove,
}
use compose_manager.Base.{unless, lookup-purge, Unique-purge}
use compose_manager.Model.{Container, ImageReference, DiscoveredProject, UpdateStatus, Category}
use compose_manager.Model.{in_use, compose_referenced, dangling, old_version, unused}
use compose_manager.App.References.{canonical_image_ref, image_ref_equal, full_ref}

-- `classifyImage`.
pub classify_image : ImageReference → ImageReference
classify_image image =
    if ltb 0 (length image.running_references)
    then record image { category = in_use }
    else if ltb 0 (length image.compose_references)
    then record image { category = compose_referenced }
    else if same image.repository (codes "<none>")
    then record image { category = dangling; reclaimable = image.size }
    else if ltb 0 (length image.stopped_references)
    then record image { category = old_version }
    else record image { category = unused; reclaimable = image.size }

abbrev is_running : Container → Bool
is_running c = same c.state (codes "running")

-- The loop over the containers.
pub add_containers : List Container → ImageReference → ImageReference
add_containers [] image = image
add_containers (c ∷ cs) image = add_containers cs (
    if not (same c.image_id image.id)
    then image
    else if is_running c
    then record image { running_references = image.running_references ++ c.name ∷ [] }
    else record image { stopped_references = image.stopped_references ++ c.name ∷ [] })

-- One project: its name once for each of its images that is this one.
pub add_project : Text → List Text → ImageReference → ImageReference
add_project name [] image = image
add_project name (ref ∷ refs) image = add_project name refs (
    if image_ref_equal (full_ref image) ref
    then record image { compose_references = image.compose_references ++ name ∷ [] }
    else image)

pub add_projects : List DiscoveredProject → ImageReference → ImageReference
add_projects [] image = image
add_projects (p ∷ ps) image = add_projects ps (add_project p.name p.images image)

pub with_status : Map UpdateStatus → ImageReference → ImageReference
with_status statuses image = elim (lookup (canonical_image_ref (full_ref image)) statuses) [
  | none ↦ image
  | some status ↦ record image { update_status = status }
]

pub enrich_image :
    Map UpdateStatus → List Container → List DiscoveredProject → ImageReference → ImageReference
enrich_image statuses containers projects image =
    classify_image (add_projects projects (add_containers containers (with_status statuses image)))

abbrev or_nil {ℓ} : {A : Type ℓ} → Option (List A) → List A
or_nil none = []
or_nil (some xs) = xs

abbrev is_none {ℓ} : {A : Type ℓ} → Option A → Bool
is_none none = true
is_none (some a) = false

-- `images`: for display a missing answer counts as empty, else it is an error.
pub list_images :
    Bool
    → Map UpdateStatus
    → Option (List ImageReference)
    → Option (List Container)
    → Option (List DiscoveredProject)
    → Option (List ImageReference)
list_images display statuses none containers projects = none
list_images display statuses (some images) containers projects =
    if not display && (is_none containers || is_none projects)
    then none
    else some (map (enrich_image statuses (or_nil containers) (or_nil projects)) images)

-- A set of names, as a list without repetitions.
add_new : List Text → List Text → List Text
add_new [] set = set
add_new (v ∷ vs) set = add_new vs (if any (same v) set then set else v ∷ set)

pub gather : (ImageReference → List Text) → Text → List ImageReference → List Text → List Text
unfolding add_new
gather field id [] set = set
gather field id (image ∷ images) set =
    gather field id images (if same image.id id then add_new (field image) set else set)

pub data Decision : Type 0 where
  unavailable not_found read_only delete : Decision
  referenced : ℕ → ℕ → ℕ → Decision

-- What `DeleteImage` decides before it asks Docker to delete.
pub decide_deletion : Bool → Text → Option (List ImageReference) → Decision
decide_deletion demo id none = unavailable
decide_deletion demo id (some images) =
    let running = length (gather (λ i. i.running_references) id images []) in
    let stopped = length (gather (λ i. i.stopped_references) id images []) in
    let compose = length (gather (λ i. i.compose_references) id images []) in
    if not (any (λ i. same i.id id) images)
    then not_found
    else if ltb 0 (running + stopped + compose)
    then referenced running stopped compose
    else if demo
    then read_only
    else delete

-- `DeleteImage` up to its request: the references are read anew, never from a cache.
pub delete_image :
    Bool
    → Text
    → Map UpdateStatus
    → Option (List ImageReference)
    → Option (List Container)
    → Option (List DiscoveredProject)
    → Decision
delete_image demo id statuses images containers projects =
    decide_deletion demo id (list_images false statuses images containers projects)
