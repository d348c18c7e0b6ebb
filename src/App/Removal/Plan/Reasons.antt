-- ===== src/App/Removal/Plan/Reasons.antt =====
-- When the plan of backend/internal/app/project_removal.go lists an image or a volume with no reason
-- to keep it.
use compose_manager.Base.{◌≡◌, refl, inl}
use compose_manager.Base.{inr, Bool, true, false, not, ◌&&◌, Option, none, List, [], ◌∷◌}
use compose_manager.Base.{arith, if◌then◌else◌, Bool-cases}
use compose_manager.Base.{any, All}
use compose_manager.Base.{Text, same}
use compose_manager.Model.{RemovalFile, RemovalContainer, ImageReference}
use compose_manager.App.Removal.{
  Reason, container_uses_it, container_mounts_it, unresolved_reference, file_names_it,
  volume_uncertain, file_mentions, ItemKind, container, image, volume,
}
use compose_manager.App.Removal.Paths.{project_of}
use compose_manager.App.Removal.Plan.Candidates.{
  keep_if, may_mention, mounts_name, reason_of_refs, reason_of_files, reason_of_images,
  reason_of_users, reason_of_mounts, reason_of_volume_files, image_item, volume_item,
}
use compose_manager.App.Removal.Delete.Recheck.{refers_to_image, refers_to_volume}

keep_if-none :
    (b : Bool) (r : Reason) (old : Option Reason)
    → keep_if b r old ≡ none
    → (b ≡ false) × (old ≡ none)
keep_if-none true r old h = cc
keep_if-none false r old h = (refl, h)

if_none : (b : Bool) (a old : Option Reason) → (if b then a else old) ≡ none → (b ≡ true → a ≡ none)
if_none true a old h q = h
if_none false a old h q = cc

reason_of_users-none :
    (id key : Text) (cs : List RemovalContainer) (old : Option Reason)
    → reason_of_users id key cs old ≡ none
    → All (λ c. (same c.image_id id && not (same (project_of c) key)) ≡ false) cs × (old ≡ none)
unfolding reason_of_users
reason_of_users-none id key [] old h = (tt, h)
reason_of_users-none id key (c ∷ cs) old h =
    let b = same c.image_id id && not (same (project_of c) key) in
    let (later, here) = reason_of_users-none id key cs (keep_if b container_uses_it old) h in
    let (test, first) = keep_if-none b container_uses_it old here in ((test, later), first)

reason_of_mounts-none :
    (name key : Text) (cs : List RemovalContainer) (old : Option Reason)
    → reason_of_mounts name key cs old ≡ none
    → All (λ c. (not (same (project_of c) key) && mounts_name name c) ≡ false) cs × (old ≡ none)
unfolding reason_of_mounts
reason_of_mounts-none name key [] old h = (tt, h)
reason_of_mounts-none name key (c ∷ cs) old h =
    let b = not (same (project_of c) key) && mounts_name name c in
    let (later, here) = reason_of_mounts-none name key cs (keep_if b container_mounts_it old) h in
    let (test, first) = keep_if-none b container_mounts_it old here in ((test, later), first)

reason_of_refs-none :
    (i : ImageReference) (name : Text) (refs : List Text) (old : Option Reason)
    → reason_of_refs i name refs old ≡ none
    → (any (may_mention i) refs ≡ false) × (old ≡ none)
unfolding reason_of_refs
reason_of_refs-none i name [] old h = (refl, h)
reason_of_refs-none i name (ref ∷ refs) old h =
    let b = may_mention i ref in
    let (later, here) = reason_of_refs-none i name refs (keep_if b (file_mentions name) old) h in
    let (test, first) = keep_if-none b (file_mentions name) old here in
    (ground (arith, test, later), first)

-- A file other than the project's does not refer to the resource.
abbrev Elsewhere : (RemovalFile → Bool) → Text → RemovalFile → Type 0
Elsewhere refers target f = same f.project.file target ≡ false → refers f ≡ false

reason_of_file-none :
    (i : ImageReference) (target : Text) (f : RemovalFile) (old : Option Reason)
    → (if same f.project.file target
        then old
        else reason_of_refs i f.project.name f.project.images
            (keep_if f.uncertain unresolved_reference old))
      ≡ none
    → Elsewhere (refers_to_image i) target f × (old ≡ none)
reason_of_file-none i target f old h = elim (Bool-cases (same f.project.file target)) [
  | inl e ↦ ((λ q. cc), rw e at h)
  | inr e ↦
      (let (named, here) =
          reason_of_refs-none i f.project.name f.project.images
            (keep_if f.uncertain unresolved_reference old) (rw e at h) in
        let (test, first) = keep_if-none f.uncertain unresolved_reference old here in
        ((λ q. ground (arith, named, test)), first))
]

reason_of_files-none :
    (i : ImageReference) (target : Text) (fs : List RemovalFile) (old : Option Reason)
    → reason_of_files i target fs old ≡ none
    → All (Elsewhere (refers_to_image i) target) fs × (old ≡ none)
unfolding reason_of_files
reason_of_files-none i target [] old h = (tt, h)
reason_of_files-none i target (f ∷ fs) old h =
    let (later, here) = reason_of_files-none i target fs _ h in
    let (test, first) = reason_of_file-none i target f old here in ((test, later), first)

reason_of_images-none :
    (id target : Text) (files : List RemovalFile) (is : List ImageReference) (old : Option Reason)
    → reason_of_images id target files is old ≡ none
    → All (λ i. same i.id id ≡ true → All (Elsewhere (refers_to_image i) target) files) is
      × (old ≡ none)
unfolding reason_of_images
reason_of_images-none id target files [] old h = (tt, h)
reason_of_images-none id target files (i ∷ is) old h =
    let (later, here) = reason_of_images-none id target files is _ h in
    elim (Bool-cases (same i.id id)) [
      | inl e ↦
          (let (test, first) = reason_of_files-none i target files old (rw e at here) in
            (((λ q. test), later), first))
      | inr e ↦ (((λ q. cc), later), rw e at here)
    ]

reason_of_volume_files-none :
    (name target : Text) (fs : List RemovalFile) (old : Option Reason)
    → reason_of_volume_files name target fs old ≡ none
    → All (Elsewhere (refers_to_volume name) target) fs × (old ≡ none)
unfolding reason_of_volume_files
reason_of_volume_files-none name target [] old h = (tt, h)
reason_of_volume_files-none name target (f ∷ fs) old h =
    let (later, here) = reason_of_volume_files-none name target fs _ h in
    let named = any (λ v. same v name) f.volumes in
    elim (Bool-cases (same f.project.file target)) [
      | inl e ↦ (((λ q. cc), later), rw e at here)
      | inr e ↦
          (let (a, b) =
              keep_if-none named file_names_it (keep_if f.uncertain volume_uncertain old)
                (rw e at here) in
            let (test, first) = keep_if-none f.uncertain volume_uncertain old b in
            (((λ q. ground (arith, a, test)), later), first))
    ]

-- What the plan claims of an item with no reason to keep it: no container of another project uses the
-- image or mounts the volume, and no other Compose file is uncertain or refers to it.
unfoldable pub Free :
    Text
    → List RemovalFile
    → RemovalFile
    → List ImageReference
    → List RemovalContainer
    → ItemKind
    → Text
    → Type 0
Free key files target images cs container id = Unit
Free key files target images cs image id =
    All (λ c. (same c.image_id id && not (same (project_of c) key)) ≡ false) cs
    × All (λ i. same i.id id ≡ true → All (Elsewhere (refers_to_image i) target.project.file) files)
        images
Free key files target images cs volume id =
    All (λ c. (not (same (project_of c) key) && mounts_name id c) ≡ false) cs
    × All (Elsewhere (refers_to_volume id) target.project.file) files

module _ (key : Text) (files : List RemovalFile) (target : RemovalFile)
    (images : List ImageReference) (cs : List RemovalContainer) where
  pub image_item-Free :
      (id : Text)
      → (image_item key files target images cs id).reason ≡ none
      → Free key files target images cs image id
  unfolding image_item Free
  image_item-Free id h =
      let old = reason_of_images id target.project.file files images none in
      let (users, rest) = reason_of_users-none id key cs old h in
      let (named, first) = reason_of_images-none id target.project.file files images none rest in
      (users, named)

  pub volume_item-Free :
      (name : Text)
      → (volume_item key files target cs name).reason ≡ none
      → Free key files target images cs volume name
  unfolding volume_item Free
  volume_item-Free name h =
      let old = reason_of_mounts name key cs none in
      let (named, rest) = reason_of_volume_files-none name target.project.file files old h in
      let (mounts, first) = reason_of_mounts-none name key cs none rest in (mounts, named)
