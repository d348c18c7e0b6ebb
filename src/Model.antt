-- ===== src/Model.antt =====
-- The records of backend/internal/model/model.go and of backend/internal/docker/removal.go that the
-- services pass around. Floating-point CPU shares are left out: nothing is decided by them.
use compose_manager.Base.{ℕ}
use compose_manager.Base.{Bool}
use compose_manager.Base.{none, some, List, []}
use compose_manager.Base.{Text}
use compose_manager.Base.{Map, lookup}

pub record Port : Type 0 where
  pub ip : Text
  pub private_port : ℕ
  pub public_port : ℕ
  pub kind : Text

pub data UpdateStatus : Type 0 where
  unknown current available : UpdateStatus

pub record Container : Type 0 where
  pub id : Text
  pub name : Text
  pub image : Text
  pub image_id : Text
  pub state : Text
  pub project : Text
  pub service : Text
  pub memory_bytes : ℕ
  pub memory_limit : ℕ
  pub ports : List Port
  pub update_status : UpdateStatus
  pub labels : Map Text

-- The value of `image.Category`; Go's zero value is `uncategorised`.
pub data Category : Type 0 where
  uncategorised in_use compose_referenced dangling old_version unused : Category

pub record ImageReference : Type 0 where
  pub id : Text
  pub repository : Text
  pub tag : Text
  pub digest : Text
  pub size : ℕ
  pub running_references : List Text
  pub stopped_references : List Text
  pub compose_references : List Text
  pub update_status : UpdateStatus
  pub category : Category
  pub reclaimable : ℕ

pub record DiscoveredProject : Type 0 where
  pub key : Text
  pub name : Text
  pub file : Text
  pub working_dir : Text
  pub images : List Text
  pub nested : Bool

pub record RemovalFile : Type 0 where
  pub project : DiscoveredProject
  pub sha : Text
  pub binds : List Text
  pub volumes : List Text
  pub uncertain : Bool

pub record RemovalMount : Type 0 where
  pub kind : Text
  pub source : Text
  pub destination : Text
  pub name : Text

pub record RemovalContainer : Type 0 where
  pub id : Text
  pub names : List Text
  pub image : Text
  pub image_id : Text
  pub state : Text
  pub labels : Map Text
  pub mounts : List RemovalMount

pub record RemovalVolume : Type 0 where
  pub name : Text
  pub labels : Map Text

pub record RemovalNetwork : Type 0 where
  pub id : Text
  pub name : Text
  pub labels : Map Text

pub record RemovalResources : Type 0 where
  pub containers : List RemovalContainer
  pub volumes : List RemovalVolume
  pub networks : List RemovalNetwork

-- `labels[key]`, "" where the label is missing.
unfoldable pub label : Text → Map Text → Text
label key labels = elim (lookup key labels) [ none ↦ [] | some v ↦ v ]
