-- ===== src/App/Removal.antt =====
-- The deletion of a project: backend/internal/app/project_removal.go and removal_paths.go. What the
-- service reads is a `World`; the texts that it shows are constructors.
pub mod Paths
pub mod Plan
pub mod Delete
use compose_manager.Base.{
  text_lt, put_sorted, sort_by, All-sort_by, Never, Exists, Exists-mono, Exists-of_any, ℕ, zero,
  suc, ◌+◌, ◌-◌, ◌*◌,
}
use compose_manager.Base.{◌/◌, ◌%◌, ◌^◌, ◌≤◌, ◌<◌, ◌≡◌, refl, sym, ap, ◌∙◌, ◌≢◌, ◌↔◌, ◌⊎◌, inl}
use compose_manager.Base.{
  inr, Bool, true, false, not, ◌&&◌, ◌||◌, Option, none, some, List, [], ◌∷◌, ◌++◌,
}
use compose_manager.Base.{
  map, arith, ltb, leb, ◌==◌, if◌then◌else◌, ==_iff, Bool-cases, Option-cases, and_true, and_intro,
  or_false, length, take,
}
use compose_manager.Base.{
  drop, all, any, filter, length-append, length-take, length-drop, take-append-drop, All,
  All-append, All-mono, All-filter, All-filter_test, All-of_all,
}
use compose_manager.Base.{
  length-filter, All-of_any, Text, codes, same, same_iff, same_refl, same_sym, is_empty, has_prefix,
  contains, has_byte, split, join,
}
use compose_manager.Base.{
  is_space, trim_left, trim_right, trim_space, lower_byte, to_lower, last_piece, but_last, Map,
  lookup, insert, remove, purge, lookup-insert,
}
use compose_manager.Base.{
  lookup-remove, Unique, Unique-insert, Unique-remove, unless, lookup-purge, Unique-purge,
}
use compose_manager.Model.{RemovalFile, RemovalResources, ImageReference}
use compose_manager.Compose.Guard.{System, PathError}

-- An entry as `filepath.WalkDir` hands it to the check of the directory.
pub record WalkEntry : Type 0 where
  pub failed : Bool
  pub symlink : Bool
  pub is_dir : Bool
  pub evaluates_to_itself : Bool
  pub regular : Bool

-- What the service reads at one time; `none` is an error of the call.
pub record World : Type 0 where
  pub demo : Bool
  pub files : Option (List RemovalFile)
  pub excluded : Text → Bool
  pub resources : Option RemovalResources
  pub images : Option (List ImageReference)
  pub hostname : Text
  pub roots : List Text
  pub data_dir : Text
  pub backup_dir : Text
  pub system : System
  pub entries : Text → List WalkEntry

pub data ItemKind : Type 0 where
  container image volume : ItemKind

-- Why an image or a volume is kept.
pub data Reason : Type 0 where
  unresolved_reference container_uses_it container_mounts_it volume_uncertain file_names_it : Reason
  file_mentions : Text → Reason

pub record RemovalItem : Type 0 where
  pub kind : ItemKind
  pub id : Text
  pub name : Text
  pub state : Text
  pub reason : Option Reason

-- Why the directory may not be removed whole.
pub data Blocked : Type 0 where
  bad_path : PathError → Blocked
  holds_panel_data holds_other_file unresolved_mount : Blocked
  referenced_by : Text → Blocked
  mounted_by : Text → Blocked
  walk_failed too_many_files holds_symlink unresolved_link special_file : Blocked

-- What stays, in the order in which the service's texts sort.
pub data Retained : Type 0 where
  outer_volume outer_mount network : Text → Retained

pub record RemovalPlan : Type 0 where
  pub key : Text
  pub name : Text
  pub file : Text
  pub directory : Text
  pub host_directory : Text
  pub host_file : Text
  pub directory_blocked : Option Blocked
  pub items : List RemovalItem
  pub retained : List Retained
  pub config_sha : Text

pub data PlanError : Type 0 where
  demo_mode invalid_key scan_failed several_files no_file excluded_file docker_failed : PlanError
  images_failed own_container other_directory other_files : PlanError

pub data Planned {ℓ} (A : Type ℓ) : Type ℓ where
  planned : A → Planned A
  refused : PlanError → Planned A

infixl 5 ◌>>=◌
abbrev pub ◌>>=◌ {ℓ κ} : {A : Type ℓ} {B : Type κ} → Planned A → (A → Planned B) → Planned B
planned a >>= f = f a
refused e >>= f = refused e

abbrev pub guard : Bool → PlanError → Planned (Unit {0})
guard true e = planned tt
guard false e = refused e

infixl 5 ◌>>◌
abbrev pub ◌>>◌ {ℓ} : {B : Type ℓ} → Planned (Unit {0}) → Planned B → Planned B
m >> k = m >>= λ _. k

-- A value that a call returned, or its error.
abbrev pub or_refuse {ℓ} : {A : Type ℓ} → Option A → PlanError → Planned A
or_refuse none e = refused e
or_refuse (some a) e = planned a
