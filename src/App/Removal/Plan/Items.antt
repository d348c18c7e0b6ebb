-- ===== src/App/Removal/Plan/Items.antt =====
-- The items of a plan of backend/internal/app/project_removal.go.

use compose_manager.App.Removal.Paths.{project_label}
use compose_manager.App.Removal.Plan.{label}
use compose_manager.Base.{Exists}
use compose_manager.Base.{◌≡◌}
use compose_manager.Base.{Bool, true, false, Option, none, some, List, [], ◌∷◌}
use compose_manager.Base.{filter, All}
use compose_manager.Base.{Text, same}
use compose_manager.Model.{label, RemovalFile, RemovalContainer, RemovalResources, ImageReference}
use compose_manager.Compose.Identifier.{is_identifier}
use compose_manager.App.Removal.{World, RemovalItem, container, RemovalPlan, Retained}
use compose_manager.App.Removal.Paths.{RemovalPathMapper, project_of, project_label}
use compose_manager.App.Removal.Plan.Reasons.{Free}
use compose_manager.App.Removal.Plan.{is_manager, container_item}

abbrev has_key : Text → RemovalFile → Bool
has_key key g = same g.project.key key

-- The file is the one that was found before, and no other has the key; or it alone has it.
abbrev Chosen : Text → List RemovalFile → RemovalFile → Option RemovalFile → Type 0
Chosen key fs f none = filter (has_key key) fs ≡ f ∷ []
Chosen key fs f (some g) = (g ≡ f) × (filter (has_key key) fs ≡ [])

ItemFree :
    Text
    → List RemovalFile
    → RemovalFile
    → List ImageReference
    → List RemovalContainer
    → RemovalItem
    → Type 0
ItemFree key files target images cs item =
    item.reason ≡ none → Free key files target images cs item.kind item.id

-- The item is that of a container of the project that is not the panel's own.
pub Own : Text → Text → List RemovalContainer → RemovalItem → Type 0
Own hostname key cs item =
    Exists
      (λ c.
        (container_item c ≡ item)
        × ((same (project_of c) key ≡ true) × (is_manager hostname c ≡ false)))
      cs

-- An item of a plan, from what was read: that of a container is one of the project's own containers and
-- not the panel's, and that of an image or a volume is free if it has no reason to be kept.
pub Sound :
    Text
    → Text
    → List RemovalFile
    → RemovalFile
    → List ImageReference
    → List RemovalContainer
    → RemovalItem
    → Type 0
Sound hostname key files target images cs item =
    (item.kind ≡ container → Own hostname key cs item) × ItemFree key files target images cs item

-- What was read, and that every item of the plan is sound for it.
pub record Planning (w : World) (key : Text) (plan : RemovalPlan) : Type 0 where
  pub files : List RemovalFile
  pub target : RemovalFile
  pub resources : RemovalResources
  pub images : List ImageReference
  pub files_read : w.files ≡ some files
  pub resources_read : w.resources ≡ some resources
  pub images_read : w.images ≡ some images
  pub target_only : filter (has_key key) files ≡ target ∷ []
  pub target_listed : Exists (λ g. g ≡ target) files
  pub target_key : target.project.key ≡ key
  pub target_allowed : w.excluded target.project.file ≡ false
  pub key_valid : is_identifier key ≡ true
  pub own_file : plan.file ≡ target.project.file
  pub own_directory : plan.directory ≡ target.project.working_dir
  pub items_sound : All (Sound w.hostname key files target images resources.containers) plan.items

module _ (w : World) (key : Text) (files : List RemovalFile) (target : RemovalFile)
    (resources : RemovalResources) (images : List ImageReference)
    (scanned : List RemovalItem × List Retained) (mapper : RemovalPathMapper) where
  S : RemovalItem → Type 0
  S = Sound w.hostname key files target images resources.containers
