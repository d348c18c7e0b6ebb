-- ===== src/App/Removal/Delete.antt =====
-- DeleteProject of backend/internal/app/project_removal.go. What the service does to the host is a
-- trace of effects, the newest first; what it reads next depends on that trace.
pub mod Recheck
pub mod Steps
pub mod Tickets
pub mod Rechecked
pub mod Safety
mod Tests
use compose_manager.Base.{
  text_lt, put_sorted, sort_by, All-sort_by, Never, Exists, Exists-mono, Exists-of_any, ℕ, zero,
  suc, ◌+◌, ◌-◌, ◌*◌,
}
use compose_manager.Base.{◌/◌, ◌%◌, ◌^◌, ◌≤◌, ◌<◌, ◌≡◌, refl, sym, ap, ◌∙◌, ◌≢◌, ◌↔◌, ◌⊎◌, inl}
use compose_manager.Base.{
  inr, Bool, true, false, not, ◌&&◌, ◌||◌, Option, none, some, List, [], ◌∷◌, ◌++◌,
}
use compose_manager.Base.{
  map, arith, ltb, leb, ◌==◌, if◌then◌else◌, ==_iff, Bool-cases, Option-cases, and_true, and_intro,
  or_false, length, take,
}
use compose_manager.Base.{
  drop, all, any, filter, length-append, length-take, length-drop, take-append-drop, All,
  All-append, All-mono, All-filter, All-filter_test, All-of_all,
}
use compose_manager.Base.{
  length-filter, All-of_any, Text, codes, same, same_iff, same_refl, same_sym, is_empty, has_prefix,
  contains, has_byte, split, join,
}
use compose_manager.Base.{
  is_space, trim_left, trim_right, trim_space, lower_byte, to_lower, last_piece, but_last, Map,
  lookup, insert, remove, purge, lookup-insert,
}
use compose_manager.Base.{
  lookup-remove, Unique, Unique-insert, Unique-remove, unless, lookup-purge, Unique-purge,
}
use compose_manager.App.Removal.{
  World, RemovalItem, ItemKind, container, image, volume, RemovalPlan, PlanError, Planned, planned,
  refused, Blocked, Retained, Reason,
}
use compose_manager.App.Removal.Plan.{removal_plan}
use compose_manager.Compose.Guard.{removal_directory, resolve_compose_file}
use compose_manager.Compose.Guard
use Recheck.{Kept, recheck_removal_resource}

pub data Effect : Type 0 where
  audit_started read_file write_backup : Effect
  stop_container : Text → Effect
  remove_resource : ItemKind → Text → Effect
  remove_file remove_directory : Text → Effect

-- The environment: what is read after some effects, whether an effect succeeds, the digest that
-- stands for a plan, and the clock.
pub record Env : Type 0 where
  pub world : List Effect → World
  pub answers : List Effect → Effect → Bool
  pub fingerprint : RemovalPlan → Text
  pub now : ℕ

pub record RemovalRequest : Type 0 where
  pub token : Text
  pub name : Text
  pub directory : Bool
  pub images : Bool
  pub volumes : Bool

-- The errors that the result lists.
pub data Problem : Type 0 where
  no_file_to_back_up backup_failed container_failed compose_changed new_container file_failed :
      Problem
  recheck_failed : PlanError → Problem
  directory_kept : Blocked → Problem
  resource_failed : Text → Problem

-- What the result says is deleted.
pub data Deleted : Type 0 where
  item_deleted : RemovalItem → Deleted
  directory_deleted file_deleted : Text → Deleted

-- What the result says is kept.
pub data Left : Type 0 where
  planned_retained : Retained → Left
  directory_left : Text → Left
  item_left : Text → Option Reason → Left
  item_rechecked : Text → Kept → Left

-- The result under construction, with the effects so far; the lists have the newest entry first.
pub record Report : Type 0 where
  pub trace : List Effect
  pub deleted : List Deleted
  pub retained : List Left
  pub errors : List Problem

abbrev pub did : Effect → Report → Report
did e r = record r { trace = e ∷ r.trace }

abbrev pub fail : Problem → Report → Report
fail p r = record r { errors = p ∷ r.errors }

abbrev pub note_deleted : Deleted → Report → Report
note_deleted d r = record r { deleted = d ∷ r.deleted }

abbrev pub note_left : Left → Report → Report
note_left l r = record r { retained = l ∷ r.retained }

pub is_container : RemovalItem → Bool
is_container item = elim item.kind [ container ↦ true | image ↦ false | volume ↦ false ]

abbrev pub is_running : RemovalItem → Bool
is_running item = any (same item.state) (codes "running" ∷ codes "restarting" ∷ codes "paused" ∷ [])

-- Stops a container that runs, then removes it; the test says whether both succeeded.
pub remove_container : Env → RemovalItem → Report → Bool × Report
remove_container env item r =
    let stop = stop_container item.id in
    let drop_it = remove_resource container item.id in
    let after = did stop r in
    let last = did drop_it after in
    let direct = did drop_it r in
    if is_running item
    then (if env.answers r.trace stop
        then (env.answers after.trace drop_it, last)
        else (false, after))
    else (env.answers r.trace drop_it, direct)

-- The first loop over the plan's items; it ends at the first container that stays.
pub remove_containers : Env → List RemovalItem → Report → Bool × Report
remove_containers env [] r = (true, r)
remove_containers env (item ∷ items) r =
    let (gone, r1) = remove_container env item r in
    let skipped = remove_containers env items r in
    let next = remove_containers env items (note_deleted (item_deleted item) r1) in
    if not (is_container item)
    then skipped
    else if gone
    then next
    else (false, fail container_failed r1)

abbrev pub unchanged : RemovalPlan → RemovalPlan → Bool
unchanged fresh plan =
    same fresh.config_sha plan.config_sha
    && (same fresh.file plan.file && same fresh.directory plan.directory)

pub kept_directory : Option Blocked → Option Problem
kept_directory none = none
kept_directory (some b) = some (directory_kept b)

pub recheck_fresh : RemovalPlan → RemovalRequest → RemovalPlan → Option Problem
recheck_fresh plan request fresh =
    let blocked = kept_directory fresh.directory_blocked in
    if not (unchanged fresh plan)
    then some compose_changed
    else if any is_container fresh.items
    then some new_container
    else if request.directory
    then blocked
    else none

-- The checks between the containers and the files.
pub recheck_planned : RemovalPlan → RemovalRequest → Planned RemovalPlan → Option Problem
recheck_planned plan request (refused e) = some (recheck_failed e)
recheck_planned plan request (planned fresh) = recheck_fresh plan request fresh

pub recheck_plan : Env → RemovalPlan → RemovalRequest → List Effect → Option Problem
recheck_plan env plan request t = recheck_planned plan request (removal_plan (env.world t) plan.key)

-- The Compose file alone, which must still resolve to itself.
pub remove_resolved : Env → RemovalPlan → Report → Guard.Result Text → Bool × Report
remove_resolved env plan r (Guard.err e) = (false, r)
remove_resolved env plan r (Guard.ok path) =
    let effect = remove_file plan.file in
    if same path plan.file then (env.answers r.trace effect, did effect r) else (false, r)

-- `RemoveProjectDirectory`: the directory is checked once more.
pub remove_whole : Env → Report → Guard.Result Text → Bool × Report
remove_whole env r (Guard.err e) = (false, r)
remove_whole env r (Guard.ok path) =
    let effect = remove_directory path in (env.answers r.trace effect, did effect r)

-- The directory whole, or the Compose file alone, which must still resolve to itself.
pub remove_files : Env → RemovalPlan → RemovalRequest → Report → Bool × Report
remove_files env plan request r =
    let w = env.world r.trace in
    if request.directory
    then remove_whole env r (removal_directory w.system w.roots plan.directory)
    else remove_resolved env plan r (resolve_compose_file w.system w.roots plan.file)

pub is_selected : RemovalRequest → RemovalItem → Bool
is_selected request item = elim item.kind [
  | container ↦ false
  | image ↦ request.images
  | volume ↦ request.volumes
]

pub has_reason : RemovalItem → Bool
has_reason item = elim item.reason [ none ↦ false | some e ↦ true ]

-- An image or a volume of the plan.
pub remove_item : Env → RemovalRequest → RemovalItem → Report → Report
remove_item env request item r =
    let effect = remove_resource item.kind item.id in
    if not (is_selected request item) || has_reason item
    then note_left (item_left item.name item.reason) r
    else elim (recheck_removal_resource (env.world r.trace) item.kind item.id) [
      | some k ↦ note_left (item_rechecked item.name k) r
      | none ↦
          if env.answers r.trace effect
          then note_deleted (item_deleted item) (did effect r)
          else fail (resource_failed item.name) (did effect r)
    ]

-- The second loop over the plan's items.
pub remove_items : Env → RemovalRequest → List RemovalItem → Report → Report
remove_items env request [] r = r
remove_items env request (item ∷ items) r =
    remove_items env request items (if is_container item then r else remove_item env request item r)

abbrev pub note_files : RemovalPlan → RemovalRequest → Report → Report
note_files plan request r =
    if request.directory
    then note_deleted (directory_deleted plan.directory) r
    else note_left (directory_left plan.directory) (note_deleted (file_deleted plan.file) r)

abbrev pub note_planned : List Retained → Report → Report
note_planned [] r = r
note_planned (k ∷ ks) r = note_planned ks (note_left (planned_retained k) r)

-- From the images and volumes on, if the files are gone.
pub finish_files : Env → RemovalPlan → RemovalRequest → Bool × Report → Report
finish_files env plan request (false, r) = fail file_failed r
finish_files env plan request (true, r) =
    remove_items env request plan.items (note_files plan request r)

pub checked_files : Env → RemovalPlan → RemovalRequest → Report → Option Problem → Report
checked_files env plan request r (some p) = fail p r
checked_files env plan request r none =
    finish_files env plan request (remove_files env plan request r)

-- From the second check on, if the containers are gone.
pub after_containers : Env → RemovalPlan → RemovalRequest → Bool × Report → Report
after_containers env plan request (false, r) = r
after_containers env plan request (true, r) =
    checked_files env plan request r (recheck_plan env plan request r.trace)

-- From the backup on.
pub execute_backed : Env → RemovalPlan → RemovalRequest → Report → Report
execute_backed env plan request r =
    let r1 = did write_backup r in
    if not (env.answers r.trace write_backup)
    then fail backup_failed r1
    else after_containers env plan request
        (remove_containers env plan.items (note_planned plan.retained r1))

-- All that follows the first audit record.
pub execute : Env → RemovalPlan → RemovalRequest → Report → Report
execute env plan request r =
    let r1 = did read_file r in
    if not (env.answers r.trace read_file)
    then fail no_file_to_back_up r1
    else execute_backed env plan request r1
