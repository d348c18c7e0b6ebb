-- ===== src/App/Images/Tests.antt =====
-- The image list and the deletion of an image, of backend/internal/app/service.go, at concrete lists.
use compose_manager.Base.{◌≡◌, refl, ◌↔◌}
use compose_manager.Base.{false, some, [], ◌∷◌}
use compose_manager.Base.{codes}
use compose_manager.Model.{Container, DiscoveredProject, ImageReference, unknown, uncategorised}
use compose_manager.App.Images.{delete_image, delete}
use compose_manager.App.Images.Deletion.{IsDeletable, delete_image_iff}

abbrev nginx : ImageReference
nginx = record {
  id = codes "sha256:1";
  repository = codes "nginx";
  tag = codes "1.27";
  digest = codes "sha256:9f";
  size = 9;
  running_references = [];
  stopped_references = [];
  compose_references = [];
  update_status = unknown;
  category = uncategorised;
  reclaimable = 0;
}

abbrev web : Container
web = record {
  id = codes "c1";
  name = codes "web";
  image = codes "redis:7";
  image_id = codes "sha256:2";
  state = codes "running";
  project = codes "p";
  service = codes "web";
  memory_bytes = 0;
  memory_limit = 0;
  ports = [];
  update_status = unknown;
  labels = [];
}

-- A project that names one image by its tag, and one by its digest.
abbrev shop : DiscoveredProject
shop = record {
  key = codes "shop";
  name = codes "shop";
  file = codes "/srv/shop/compose.yaml";
  working_dir = codes "/srv/shop";
  images = codes "redis:7" ∷ codes "nginx@sha256:9f" ∷ [];
  nested = false;
}

delete_image_iff_example :
    (delete_image false
        (codes "sha256:1")
        []
        (some (nginx ∷ []))
        (some (web ∷ []))
        (some (shop ∷ []))
      ≡ delete)
    ↔ IsDeletable (codes "sha256:1") (nginx ∷ []) (web ∷ []) (shop ∷ [])
delete_image_iff_example =
    delete_image_iff [] (web ∷ []) (shop ∷ []) (codes "sha256:1") (nginx ∷ [])
      ((refl, refl, refl), tt)
