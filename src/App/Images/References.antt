-- ===== src/App/Images/References.antt =====
-- What the loops of `images` make of an image's references.
use compose_manager.Base.{◌≡◌, ◌∙◌, inl, inr, Bool}
use compose_manager.Base.{not, ◌&&◌, List, [], ◌∷◌, ◌++◌, map, arith}
use compose_manager.Base.{if◌then◌else◌, Bool-cases, Option-cases, filter}
use compose_manager.Base.{Text}
use compose_manager.Base.{same}
use compose_manager.Base.{Map, lookup}
use mathlib.Core.List.{append_assoc, append-nil}
use compose_manager.Model.{Container, ImageReference, DiscoveredProject, UpdateStatus}
use compose_manager.App.References.{full_ref, image_ref_equal, canonical_image_ref}
use compose_manager.App.Images.{
  classify_image, is_running, add_containers, add_project, add_projects, with_status, enrich_image,
}

-- The names of the containers that pass a test.
unfoldable pub users : (Container → Bool) → List Container → List Text
users p [] = []
users p (c ∷ cs) = let rest = users p cs in if p c then c.name ∷ rest else rest

abbrev pub runs : Text → Container → Bool
runs id c = same c.image_id id && is_running c

abbrev pub stops : Text → Container → Bool
stops id c = same c.image_id id && not (is_running c)

-- The loop over the containers appends the names of the running and of the other containers of
-- the image, and changes nothing else.
pub add_containers_lem :
    (cs : List Container) (image : ImageReference)
    → add_containers cs image ≡ record image {
      running_references = image.running_references ++ users (runs image.id) cs;
      stopped_references = image.stopped_references ++ users (stops image.id) cs;
    }
unfolding add_containers users
add_containers_lem [] image = simp append-nil
add_containers_lem (c ∷ cs) image = elim (Bool-cases (same c.image_id image.id)) [
  | inl e ↦ elim (Bool-cases (is_running c)) [
    | inl q ↦ rw (e, q) (add_containers_lem cs _ ∙ simp append_assoc)
    | inr q ↦ rw (e, q) (add_containers_lem cs _ ∙ simp append_assoc)
  ]
  | inr e ↦ rw e (add_containers_lem cs image)
]

-- The projects that use the image, each once for each of its images that is this one.
unfoldable pub using_names : Text → List DiscoveredProject → List Text
using_names ref [] = []
using_names ref (p ∷ ps) =
    map (λ r. p.name) (filter (image_ref_equal ref) p.images) ++ using_names ref ps

add_project_lem :
    (name : Text) (refs : List Text) (image : ImageReference)
    → add_project name refs image ≡ record image {
      compose_references =
          image.compose_references
          ++ map (λ r. name) (filter (image_ref_equal (full_ref image)) refs);
    }
unfolding add_project filter
add_project_lem name [] image = simp append-nil
add_project_lem name (ref ∷ refs) image = elim (Bool-cases (image_ref_equal (full_ref image) ref)) [
  | inl e ↦ rw e (add_project_lem name refs _ ∙ simp append_assoc)
  | inr e ↦ rw e (add_project_lem name refs image)
]

-- The loop over the projects appends their names, and changes nothing else.
pub add_projects_lem :
    (ps : List DiscoveredProject) (image : ImageReference)
    → add_projects ps image ≡ record image {
      compose_references = image.compose_references ++ using_names (full_ref image) ps;
    }
unfolding add_projects using_names
add_projects_lem [] image = simp append-nil
add_projects_lem (p ∷ ps) image =
    rw (add_project_lem p.name p.images image) (add_projects_lem ps _ ∙ simp append_assoc)

classify_keeps :
    (image : ImageReference)
    → ((classify_image image).id ≡ image.id)
      × ((classify_image image).running_references ≡ image.running_references)
      × ((classify_image image).stopped_references ≡ image.stopped_references)
      × ((classify_image image).compose_references ≡ image.compose_references)
unfolding classify_image
classify_keeps image = ground arith

with_status_keeps :
    (statuses : Map UpdateStatus) (image : ImageReference)
    → (u : UpdateStatus) × (with_status statuses image ≡ record image { update_status = u })
unfolding with_status
with_status_keeps statuses image =
    elim (Option-cases (lookup (canonical_image_ref (full_ref image)) statuses)) [
      | inl e ↦ (image.update_status, rw (e, with_status))
      | inr (u, e) ↦ (u, rw (e, with_status))
    ]

module _ (statuses : Map UpdateStatus) (cs : List Container) (ps : List DiscoveredProject)
    (image : ImageReference) where
  -- An entry of the image list names the containers that run the image, the containers that do
  -- not run and hold it, and the projects whose files name one of its tags.
  pub enrich_image_lem :
      ((enrich_image statuses cs ps image).id ≡ image.id)
      × ((enrich_image statuses cs ps image).running_references
          ≡ image.running_references ++ users (runs image.id) cs)
      × ((enrich_image statuses cs ps image).stopped_references
          ≡ image.stopped_references ++ users (stops image.id) cs)
      × ((enrich_image statuses cs ps image).compose_references
          ≡ image.compose_references ++ using_names (full_ref image) ps)
  unfolding enrich_image
  enrich_image_lem =
      let (u, e) = with_status_keeps statuses image in
      rw (e, add_containers_lem cs (record image { update_status = u }), add_projects_lem ps)
        (classify_keeps _)
