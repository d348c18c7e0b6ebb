-- ===== src/App/References.antt =====
-- Image references: canonicalImageRef, imageRefEqual and the functions on update states of
-- backend/internal/app/service.go, and removalImageMatches of project_removal.go.
use compose_manager.Base.{ℕ, suc}
use compose_manager.Base.{Bool, true, false}
use compose_manager.Base.{not, ◌&&◌, ◌||◌, Option, none, some, List, [], ◌∷◌, ◌++◌, ltb}
use compose_manager.Base.{◌==◌, if◌then◌else◌, length}
use compose_manager.Base.{Text, codes}
use compose_manager.Base.{same, is_empty, has_byte, split, join, trim_space}
use compose_manager.Base.{to_lower, last_piece, but_last, Map, lookup, insert}
use compose_manager.Model.{Container, ImageReference, UpdateStatus, unknown, current, available}

abbrev pub colon : ℕ
colon = b':'

abbrev docker_io : Text
docker_io = codes "docker.io"

-- The text before and after the last `sep`, as `strings.LastIndex` finds it.
unfoldable pub cut_last : ℕ → Text → Option (Text × Text)
cut_last sep [] = none
cut_last sep (c ∷ s) = elim (cut_last sep s) [
  | some (before, after) ↦ some (c ∷ before, after)
  | none ↦ if c == sep then some ([], s) else none
]

-- Whether the first of several pieces names a registry.
unfoldable pub names_registry : Text → Bool
names_registry p = has_byte b'.' p || (has_byte colon p || same p (codes "localhost"))

-- The registry, and the pieces of the repository and tag.
unfoldable pub take_registry : List Text → Text × List Text
take_registry [] = (docker_io, [])
take_registry (p ∷ []) = (docker_io, p ∷ [])
take_registry (p ∷ q ∷ ps) =
    if names_registry p then (to_lower p, q ∷ ps) else (docker_io, p ∷ q ∷ ps)

-- The tag of the last piece, and that piece without it.
unfoldable pub take_tag : Text → Text × Text
take_tag last = elim (cut_last colon last) [
  | some (before, tag) ↦ (before, tag)
  | none ↦ (last, codes "latest")
]

-- Docker Hub's official images live in "library".
unfoldable pub with_library : Text → List Text → List Text
with_library registry [] = []
with_library registry (p ∷ []) =
    if same registry docker_io then codes "library" ∷ p ∷ [] else p ∷ []
with_library registry (p ∷ q ∷ ps) = p ∷ q ∷ ps

unfoldable pub canonical_parts : List Text → Text
canonical_parts pieces =
    let (registry, parts) = take_registry pieces in
    let (repository, tag) = take_tag (last_piece parts) in
    let named = with_library registry (but_last parts ++ repository ∷ []) in
    registry ++ b'/' ∷ (to_lower (join (b'/' ∷ []) named) ++ colon ∷ tag)

-- References that are left as they are.
unfoldable pub is_plain_ref : Text → Bool
is_plain_ref value = is_empty value || (same value (codes "<none>") || has_byte b'@' value)

unfoldable pub canonical_image_ref : Text → Text
canonical_image_ref raw =
    let value = trim_space raw in
    if is_plain_ref value then value else canonical_parts (split b'/' value)

unfoldable pub image_ref_equal : Text → Text → Bool
image_ref_equal a b = same (canonical_image_ref a) (canonical_image_ref b)

-- `image.Repository + ":" + image.Tag`.
abbrev pub full_ref : ImageReference → Text
full_ref image = image.repository ++ colon ∷ image.tag

unfoldable pub removal_image_matches : Text → Text → Text → Bool
removal_image_matches tag digest ref =
    image_ref_equal tag ref || (not (is_empty digest) && same ref digest)

-- `enrichContainerUpdates`, of one container.
pub enrich_container : Map UpdateStatus → Container → Container
enrich_container statuses c = elim (lookup (canonical_image_ref c.image) statuses) [
  | none ↦ record c { update_status = unknown }
  | some status ↦ record c { update_status = status }
]

abbrev count_if : Bool → ℕ → ℕ
count_if b n = if b then suc n else n

abbrev is_available : Option UpdateStatus → Bool
is_available (some available) = true
is_available _ = false

abbrev is_current : Option UpdateStatus → Bool
is_current (some current) = true
is_current _ = false

pub tally_available : List Text → Map UpdateStatus → ℕ
tally_available [] statuses = 0
tally_available (r ∷ refs) statuses =
    count_if (is_available (lookup r statuses)) (tally_available refs statuses)

pub tally_current : List Text → Map UpdateStatus → ℕ
tally_current [] statuses = 0
tally_current (r ∷ refs) statuses =
    count_if (is_current (lookup r statuses)) (tally_current refs statuses)

-- `summarizeProjectUpdates`, over the set of references as a list.
pub summarize_project_updates : List Text → Map UpdateStatus → UpdateStatus × ℕ
summarize_project_updates references statuses =
    let up = tally_available references statuses in
    if length references == 0
    then (unknown, 0)
    else if ltb 0 up
    then (available, up)
    else if tally_current references statuses == length references
    then (current, 0)
    else (unknown, 0)

abbrev of_service : Text → Text → Container → Bool
of_service project_key service c =
    same c.project project_key && (is_empty service || same c.service service)

-- `markUpdatedImagesCurrent`.
unfoldable pub mark_updated_images_current :
    Text → Text → List Container → Map UpdateStatus → Map UpdateStatus
mark_updated_images_current project_key service [] statuses = statuses
mark_updated_images_current project_key service (c ∷ cs) statuses =
    let ref = canonical_image_ref c.image in
    mark_updated_images_current project_key service cs (
      if of_service project_key service c && not (is_empty ref)
      then insert ref current statuses
      else statuses)

find_image : Text → List ImageReference → Option ImageReference
find_image id [] = none
find_image id (image ∷ images) = if same image.id id then some image else find_image id images

-- `updateSnapshot`: the image and digest of the first container of the service.
pub update_snapshot : Text → Text → List Container → List ImageReference → Text × Text
unfolding find_image
update_snapshot project_key service [] images = ([], [])
update_snapshot project_key service (c ∷ cs) images =
    let rest = update_snapshot project_key service cs images in
    if of_service project_key service c
    then elim (find_image c.image_id images) [
      | none ↦ (c.image, c.image_id)
      | some image ↦ (c.image, image.digest)
    ]
    else rest
