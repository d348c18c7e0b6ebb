-- ===== src/App/Removal/Delete/Tests.antt =====
-- The deletion of a project, of backend/internal/app/project_removal.go, on a host with one project,
-- one container of it, and one image that nothing else uses.
use compose_manager.Base.{sort_by}
use compose_manager.Base.{◌≡◌, refl}
use compose_manager.Base.{inl, true, false, some, List, [], ◌∷◌}
use compose_manager.Base.{All}
use compose_manager.Base.{codes, same, contains, has_byte, split}
use compose_manager.Base.{join, trim_space, to_lower, lookup}
use compose_manager.Model.{
  DiscoveredProject, RemovalFile, RemovalContainer, RemovalResources, ImageReference, unknown,
  uncategorised,
}
use compose_manager.Compose.Guard.{System, found, directory}
use compose_manager.App.Removal.{
  World, RemovalItem, RemovalPlan, Planned, planned, ItemKind, container, image, volume,
}
use compose_manager.App.Removal.Paths.{new_removal_path_mapper}
use compose_manager.App.Removal.Plan.{removal_plan, assemble_plan, container_item}
use compose_manager.App.Removal.Delete.{
  Effect, Env, RemovalRequest, Report, recheck_plan, execute, remove_file,
}
use compose_manager.App.Removal.Delete.Recheck.{
  recheck_removal_resource, recheck_removal_resource-Unnamed, Unnamed, uses_resource,
}
use compose_manager.App.Removal.Delete.Rechecked.{Rechecked, recheck_plan-Rechecked}
use compose_manager.App.Removal.Delete.Steps.{AllJustified}
use compose_manager.App.Removal.Delete.Tickets.{
  Service, RemovalTicket, Accepted, ticket_invalid, delete_project, delete_project-Accepted,
  delete_twice, start_report,
}
use compose_manager.App.Removal.Delete.Safety.{delete_project-AllJustified}

abbrev shop : RemovalFile
shop = record {
  project = record {
    key = codes "shop";
    name = codes "shop";
    file = codes "/srv/shop/compose.yaml";
    working_dir = codes "/srv/shop";
    images = codes "shop:1" ∷ [];
    nested = false;
  };
  sha = codes "d1";
  binds = [];
  volumes = [];
  uncertain = false;
}

abbrev web : RemovalContainer
web = record {
  id = codes "c1";
  names = codes "web" ∷ [];
  image = codes "shop:1";
  image_id = codes "sha256:1";
  state = codes "running";
  labels = (codes "com.docker.compose.project", codes "shop") ∷ [];
  mounts = [];
}

abbrev shop_image : ImageReference
shop_image = record {
  id = codes "sha256:1";
  repository = codes "shop";
  tag = codes "1";
  digest = [];
  size = 9;
  running_references = [];
  stopped_references = [];
  compose_references = [];
  update_status = unknown;
  category = uncategorised;
  reclaimable = 0;
}

abbrev host_system : System
host_system = record {
  working_dir = some (codes "/");
  eval_symlinks = λ p. found p;
  stat = λ p. directory;
  mount_points = some [];
}

abbrev running : RemovalResources
running = record { containers = web ∷ []; volumes = []; networks = [] }

abbrev stopped : RemovalResources
stopped = record { containers = []; volumes = []; networks = [] }

-- Before the deletion.
abbrev before : World
before = record {
  demo = false;
  files = some (shop ∷ []);
  excluded = λ p. false;
  resources = some running;
  images = some (shop_image ∷ []);
  hostname = codes "host";
  roots = codes "/srv" ∷ [];
  data_dir = [];
  backup_dir = [];
  system = host_system;
  entries = λ p. [];
}

-- Once the container is gone, and then the file.
abbrev without_container : World
without_container = record before { resources = some stopped }

abbrev without_file : World
without_file = record without_container { files = some [] }

abbrev env : Env
env = record {
  world = λ t. elim t [ [] ↦ before | _ ∷ _ ↦ without_container ];
  answers = λ t e. true;
  fingerprint = λ plan. plan.config_sha;
  now = 100;
}

abbrev request : RemovalRequest
request = record {
  token = codes "t";
  name = codes "shop";
  directory = false;
  images = true;
  volumes = false;
}

abbrev service : Service
service = record {
  tickets =
      (codes "t", record { key = codes "shop"; fingerprint = codes "d1"; expires = 700 }) ∷ [];
  other_operations = false;
  updating = false;
}

abbrev plan_of : World → RemovalResources → List RemovalItem → RemovalPlan
plan_of w resources items =
    assemble_plan w (codes "shop") (shop ∷ []) shop resources (shop_image ∷ []) (items, [])
      (new_removal_path_mapper resources.containers (codes "host"))

abbrev plan : RemovalPlan
plan = plan_of before running (container_item web ∷ [])

-- Another project, with an image and a container of its own.
abbrev blog : RemovalFile
blog = record shop {
  project = record {
    key = codes "blog";
    name = codes "blog";
    file = codes "/srv/blog/compose.yaml";
    working_dir = codes "/srv/blog";
    images = codes "blog:2" ∷ [];
    nested = false;
  };
}

abbrev blog_web : RemovalContainer
blog_web = record web {
  id = codes "c2";
  image = codes "blog:2";
  image_id = codes "sha256:2";
  labels = (codes "com.docker.compose.project", codes "blog") ∷ [];
}

abbrev beside : World
beside = record before {
  files = some (blog ∷ []);
  resources = some (record { containers = blog_web ∷ []; volumes = []; networks = [] });
}

recheck_removal_resource-Unnamed_example :
    (resources : RemovalResources) × ((files : List RemovalFile) × ((beside.resources
          ≡ some resources)
        × ((beside.files ≡ some files)
            × (All (λ c. uses_resource image (codes "sha256:1") c ≡ false) resources.containers
                × Unnamed beside image (codes "sha256:1") files))))
unfolding compose_manager.App.References.canonical_image_ref
    compose_manager.App.References.canonical_parts compose_manager.App.References.cut_last
    compose_manager.App.References.image_ref_equal compose_manager.App.References.is_plain_ref
    compose_manager.App.References.removal_image_matches
    compose_manager.App.References.take_registry compose_manager.App.References.take_tag
    compose_manager.App.References.with_library
    compose_manager.App.Removal.Delete.Recheck.first_kept
    compose_manager.App.Removal.Delete.Recheck.or_kept
    compose_manager.App.Removal.Delete.Recheck.recheck_container
    compose_manager.App.Removal.Delete.Recheck.recheck_file
    compose_manager.App.Removal.Delete.Recheck.recheck_image
    compose_manager.App.Removal.Delete.Recheck.recheck_read_resource
    compose_manager.App.Removal.Delete.Recheck.recheck_references has_byte join
    recheck_removal_resource same split to_lower trim_space
recheck_removal_resource-Unnamed_example =
    recheck_removal_resource-Unnamed beside image (codes "sha256:1") refl

recheck_plan-Rechecked_example :
    (fresh : RemovalPlan) × Rechecked env
      (plan_of without_container stopped [])
      request
      (remove_file [] ∷ [])
      fresh
unfolding assemble_plan compose_manager.App.References.canonical_image_ref
    compose_manager.App.References.canonical_parts compose_manager.App.References.cut_last
    compose_manager.App.References.image_ref_equal compose_manager.App.References.is_plain_ref
    compose_manager.App.References.removal_image_matches
    compose_manager.App.References.take_registry compose_manager.App.References.take_tag
    compose_manager.App.References.with_library compose_manager.App.Removal.Delete.is_container
    compose_manager.App.Removal.Delete.recheck_fresh
    compose_manager.App.Removal.Delete.recheck_planned
    compose_manager.App.Removal.Plan.Candidates.add_candidate
    compose_manager.App.Removal.Plan.Candidates.candidates_of_containers
    compose_manager.App.Removal.Plan.Candidates.candidates_of_images
    compose_manager.App.Removal.Plan.Candidates.image_item
    compose_manager.App.Removal.Plan.Candidates.image_items
    compose_manager.App.Removal.Plan.Candidates.volume_items
    compose_manager.App.Removal.Plan.find_target compose_manager.App.Removal.Plan.scan_containers
    compose_manager.Compose.Identifier.is_identifier has_byte join recheck_plan removal_plan same
    sort_by split to_lower trim_space
recheck_plan-Rechecked_example =
    recheck_plan-Rechecked env (plan_of without_container stopped []) request (remove_file [] ∷ [])
      refl

delete_project-Accepted_example :
    Accepted env service (codes "shop") request (execute env plan request start_report)
unfolding assemble_plan compose_manager.App.Removal.Delete.Tickets.delete_planned
    compose_manager.App.Removal.Delete.Tickets.delete_replanned
    compose_manager.App.Removal.Delete.Tickets.delete_ticketed
    compose_manager.App.Removal.Delete.Tickets.refused_directory
    compose_manager.App.Removal.Delete.Tickets.ticket_valid
    compose_manager.App.Removal.Delete.Tickets.unblocked
    compose_manager.App.Removal.Plan.check_container compose_manager.App.Removal.Plan.find_target
    compose_manager.App.Removal.Plan.outer_mounts compose_manager.App.Removal.Plan.scan_containers
    compose_manager.App.Removal.Plan.take_container compose_manager.Compose.Identifier.is_identifier
    compose_manager.Model.label contains delete_project execute lookup removal_plan same
delete_project-Accepted_example =
    delete_project-Accepted env service (codes "shop") request
      (execute env plan request start_report) refl

delete_project-AllJustified_example :
    (p : RemovalPlan) × ((removal_plan (env.world []) (codes "shop") ≡ planned p)
      × AllJustified env p request (execute env plan request start_report).trace)
unfolding assemble_plan compose_manager.App.Removal.Delete.Tickets.delete_planned
    compose_manager.App.Removal.Delete.Tickets.delete_replanned
    compose_manager.App.Removal.Delete.Tickets.delete_ticketed
    compose_manager.App.Removal.Delete.Tickets.refused_directory
    compose_manager.App.Removal.Delete.Tickets.ticket_valid
    compose_manager.App.Removal.Delete.Tickets.unblocked
    compose_manager.App.Removal.Plan.check_container compose_manager.App.Removal.Plan.find_target
    compose_manager.App.Removal.Plan.outer_mounts compose_manager.App.Removal.Plan.scan_containers
    compose_manager.App.Removal.Plan.take_container compose_manager.Compose.Identifier.is_identifier
    compose_manager.Model.label contains delete_project execute lookup removal_plan same
delete_project-AllJustified_example =
    delete_project-AllJustified env service (codes "shop") request
      (execute env plan request start_report) refl

delete_twice_example :
    (delete_project env
      (delete_project env service (codes "shop") request).1
      (codes "shop")
      request).0
    ≡ inl ticket_invalid
delete_twice_example =
    delete_twice env env service (codes "shop") (codes "shop") request request refl refl refl
