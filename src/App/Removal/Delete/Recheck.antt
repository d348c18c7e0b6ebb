-- ===== src/App/Removal/Delete/Recheck.antt =====
-- recheckRemovalResource of backend/internal/app/project_removal.go: the references to an image or a
-- volume, read again just before it is removed.
use compose_manager.Base.{◌≡◌, refl, inl}
use compose_manager.Base.{inr, Bool, true, false, ◌||◌, Option, none, some, List, [], ◌∷◌}
use compose_manager.Base.{arith, if◌then◌else◌, Option-cases}
use compose_manager.Base.{any, All, All-mono}
use compose_manager.Base.{Text, same}
use compose_manager.Model.{RemovalResources, RemovalFile, RemovalContainer, ImageReference}
use compose_manager.App.Removal.{World, ItemKind, container, image, volume}
use compose_manager.App.Removal.Plan.Candidates.{may_mention, mounts_name}

-- Why the resource is kept after all.
pub data Kept : Type 0 where
  docker_unread files_unread images_unread still_used still_mounted unresolved still_named : Kept

-- A reference of a file to the image, or one that cannot be resolved.
abbrev pub refers_to_image : ImageReference → RemovalFile → Bool
refers_to_image i f = f.uncertain || any (may_mention i) f.project.images

abbrev pub refers_to_volume : Text → RemovalFile → Bool
refers_to_volume name f = f.uncertain || any (λ v. same v name) f.volumes

abbrev pub uses_resource : ItemKind → Text → RemovalContainer → Bool
uses_resource container id c = false
uses_resource image id c = same c.image_id id
uses_resource volume id c = mounts_name id c

-- The first file that refers to the entry of the image stops the check.
unfoldable pub recheck_file : ImageReference → RemovalFile → Option Kept
recheck_file i f =
    if f.uncertain
    then some unresolved
    else if any (may_mention i) f.project.images
    then some still_named
    else none

-- The first reason, or the second.
unfoldable pub or_kept : Option Kept → Option Kept → Option Kept
or_kept none later = later
or_kept (some k) later = some k

unfoldable pub first_kept {ℓ} : {A : Type ℓ} → (A → Option Kept) → List A → Option Kept
first_kept f [] = none
first_kept f (x ∷ xs) = or_kept (f x) (first_kept f xs)

unfoldable pub recheck_image : Text → List RemovalFile → ImageReference → Option Kept
recheck_image id files i =
    let found = first_kept (recheck_file i) files in if same i.id id then found else none

pub recheck_volume : Text → RemovalFile → Option Kept
recheck_volume name f =
    if f.uncertain
    then some unresolved
    else if any (λ v. same v name) f.volumes
    then some still_named
    else none

unfoldable pub recheck_container : ItemKind → Text → RemovalContainer → Option Kept
recheck_container container id c = none
recheck_container image id c = if same c.image_id id then some still_used else none
recheck_container volume id c = if mounts_name id c then some still_mounted else none

unfoldable pub recheck_references : World → ItemKind → Text → List RemovalFile → Option Kept
recheck_references w container id files = first_kept (recheck_volume id) files
recheck_references w volume id files = first_kept (recheck_volume id) files
recheck_references w image id files = elim w.images [
  | none ↦ some images_unread
  | some images ↦ first_kept (recheck_image id files) images
]

unfoldable pub recheck_read_resource :
    World → ItemKind → Text → RemovalResources → List RemovalFile → Option Kept
recheck_read_resource w kind id resources files =
    or_kept (first_kept (recheck_container kind id) resources.containers)
      (recheck_references w kind id files)

unfoldable pub recheck_removal_resource : World → ItemKind → Text → Option Kept
recheck_removal_resource w kind id = elim w.resources [
  | none ↦ some docker_unread
  | some resources ↦ elim w.files [
    | none ↦ some files_unread
    | some files ↦ recheck_read_resource w kind id resources files
  ]
]

or_kept-none : (a b : Option Kept) → or_kept a b ≡ none → (a ≡ none) × (b ≡ none)
unfolding or_kept
or_kept-none none b h = (refl, h)
or_kept-none (some k) b h = cc

first_kept-none {ℓ} :
    {A : Type ℓ} (f : A → Option Kept) (xs : List A)
    → first_kept f xs ≡ none
    → All (λ x. f x ≡ none) xs
unfolding first_kept
first_kept-none f [] h = tt
first_kept-none f (x ∷ xs) h =
    let (here, later) = or_kept-none (f x) (first_kept f xs) h in (here, first_kept-none f xs later)

none_of_if : (b : Bool) (k : Kept) → (if b then some k else none) ≡ none → b ≡ false
none_of_if true k h = cc
none_of_if false k h = refl

recheck_container-none :
    (kind : ItemKind) (id : Text) (c : RemovalContainer)
    → recheck_container kind id c ≡ none
    → uses_resource kind id c ≡ false
unfolding recheck_container
recheck_container-none container id c h = refl
recheck_container-none image id c h = none_of_if (same c.image_id id) still_used h
recheck_container-none volume id c h = none_of_if (mounts_name id c) still_mounted h

recheck_file-none :
    (i : ImageReference) (f : RemovalFile) → recheck_file i f ≡ none → refers_to_image i f ≡ false
unfolding recheck_file
recheck_file-none i f h = ground arith

recheck_volume-none :
    (name : Text) (f : RemovalFile) → recheck_volume name f ≡ none → refers_to_volume name f ≡ false
unfolding recheck_volume
recheck_volume-none name f h = ground arith

recheck_image-none :
    (id : Text) (files : List RemovalFile) (i : ImageReference)
    → recheck_image id files i ≡ none
    → same i.id id ≡ true
    → All (λ f. refers_to_image i f ≡ false) files
unfolding recheck_image
recheck_image-none id files i h e =
    All-mono (recheck_file-none i) files (first_kept-none (recheck_file i) files (rw e at h))

-- No file refers to the resource: for an image, none refers to any entry of it in the image list.
pub Unnamed : World → ItemKind → Text → List RemovalFile → Type 0
Unnamed w container id files = Unit
Unnamed w volume id files = All (λ f. refers_to_volume id f ≡ false) files
Unnamed w image id files =
    (images : List ImageReference) × ((w.images ≡ some images)
      × All (λ i. same i.id id ≡ true → All (λ f. refers_to_image i f ≡ false) files) images)

recheck_references-Unnamed :
    (w : World) (kind : ItemKind) (id : Text) (files : List RemovalFile)
    → recheck_references w kind id files ≡ none
    → Unnamed w kind id files
unfolding recheck_references Unnamed
recheck_references-Unnamed w container id files h = tt
recheck_references-Unnamed w volume id files h =
    All-mono (recheck_volume-none id) files (first_kept-none (recheck_volume id) files h)
recheck_references-Unnamed w image id files h = elim (Option-cases w.images) [
  | inl e ↦ (let h' : some images_unread ≡ none = rw e at h in cc)
  | inr (images, e) ↦ (
    images,
    (
      e,
      All-mono (recheck_image-none id files) images
          (first_kept-none (recheck_image id files) images (rw e at h)),
    ),
  )
]

recheck_read :
    (w : World) (kind : ItemKind) (id : Text) (resources : RemovalResources)
    (files : List RemovalFile)
    → recheck_read_resource w kind id resources files ≡ none
    → All (λ c. uses_resource kind id c ≡ false) resources.containers × Unnamed w kind id files
unfolding recheck_read_resource
recheck_read w kind id resources files h =
    let users = first_kept (recheck_container kind id) resources.containers in
    let (unused, unnamed) = or_kept-none users (recheck_references w kind id files) h in
    (
      All-mono (recheck_container-none kind id) resources.containers
          (first_kept-none (recheck_container kind id) resources.containers unused),
      recheck_references-Unnamed w kind id files unnamed,
    )

-- A resource that passes the last check: Docker and the Compose files could be read, and no container
-- uses the image or mounts the volume. Of a volume no file, the project's own included, is uncertain or
-- names it. For an image the image list could be read too, and of each entry that it has in this list no
-- file is uncertain or refers to that entry; of an image that is not listed nothing is said of the files.
pub recheck_removal_resource-Unnamed :
    (w : World) (kind : ItemKind) (id : Text)
    → recheck_removal_resource w kind id ≡ none
    → (resources : RemovalResources) × ((files : List RemovalFile) × ((w.resources ≡ some resources)
          × ((w.files ≡ some files)
              × (All (λ c. uses_resource kind id c ≡ false) resources.containers
                  × Unnamed w kind id files))))
unfolding recheck_removal_resource recheck_read_resource recheck_references
recheck_removal_resource-Unnamed w kind id h = elim (Option-cases w.resources) [
  | inl e ↦ (let h' : some docker_unread ≡ none = rw e at h in cc)
  | inr (resources, e) ↦ elim (Option-cases w.files) [
    | inl q ↦ (let h' : some files_unread ≡ none = rw (e, q) at h in cc)
    | inr (files, q) ↦
        (resources, (files, (e, (q, recheck_read w kind id resources files (rw (e, q) at h)))))
  ]
]
