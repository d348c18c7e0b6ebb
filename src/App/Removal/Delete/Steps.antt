-- ===== src/App/Removal/Delete/Steps.antt =====
-- What DeleteProject of backend/internal/app/project_removal.go does to the host, effect by effect.

use compose_manager.App.Removal.Delete.{removal_directory, remove_whole}
use compose_manager.App.Removal.Delete.{checked_files}
use compose_manager.App.Removal.Delete.{file_deleted}
use compose_manager.App.Removal.Delete.{directory_left}
use compose_manager.App.Removal.Delete.{directory_deleted}
use compose_manager.App.Removal.Delete.{execute_backed, finish_files, remove_resolved}
use compose_manager.Base.{if_cases, Exists, Never}
use compose_manager.Base.{◌≡◌, refl, ap, ◌∙◌, ◌≢◌, ◌⊎◌, inl}
use compose_manager.Base.{inr, Bool, true, false, not, ◌||◌, Option, none, some, List, [], ◌∷◌}
use compose_manager.Base.{arith, if◌then◌else◌, Bool-cases, Option-cases}
use compose_manager.Base.{All, All-mono}
use compose_manager.Base.{Text, same, same_iff}
use compose_manager.App.Removal.{
  RemovalItem, ItemKind, container, image, volume, RemovalPlan, Retained,
}
use compose_manager.Compose.Guard.{resolve_compose_file, PathError}
use compose_manager.Compose.Guard
use compose_manager.App.Removal.Delete.Recheck.{recheck_removal_resource}
use compose_manager.App.Removal.Delete.{
  Effect, Env, RemovalRequest, Report, audit_started, read_file, write_backup, stop_container,
  remove_resource, remove_file, remove_directory, did, fail, note_deleted, note_left, note_files,
  note_planned, is_container, is_running, is_selected, has_reason, remove_container,
  remove_containers, recheck_plan, remove_files, remove_item, remove_items, after_containers,
  execute, item_deleted, no_file_to_back_up, backup_failed, planned_retained, Problem,
}

-- One of the effects is the writing of the backup, and it succeeded after those before it.
pub Backed : Env → List Effect → Type 0
Backed env [] = Never
Backed env (e ∷ t) = ((e ≡ write_backup) × (env.answers t write_backup ≡ true)) ⊎ Backed env t

-- The item is one of the list.
abbrev pub In : List RemovalItem → RemovalItem → Type 0
In items item = Exists (λ j. j ≡ item) items

-- An image or a volume that the request selects, that the plan lists with no reason to keep it, and
-- that passes the last check.
abbrev pub Releasable : Env → RemovalPlan → RemovalRequest → ItemKind → Text → List Effect → Type 0
Releasable env plan request kind id t =
    ((item : RemovalItem) × (In plan.items item
        × ((item.kind ≡ kind)
            × ((item.id ≡ id) × ((is_selected request item ≡ true) × (item.reason ≡ none))))))
    × (recheck_removal_resource (env.world t) kind id ≡ none)

-- The containers of the plan alone are stopped and removed.
abbrev pub PlannedContainer : RemovalPlan → Text → Type 0
PlannedContainer plan id =
    (item : RemovalItem) × (In plan.items item × ((is_container item ≡ true) × (item.id ≡ id)))

-- What holds of an effect, after those of the trace.
pub Justified : Env → RemovalPlan → RemovalRequest → List Effect → Effect → Type 0
Justified env plan request t audit_started = Unit
Justified env plan request t read_file = Unit
Justified env plan request t write_backup = Unit
Justified env plan request t (stop_container id) = Backed env t × PlannedContainer plan id
Justified env plan request t (remove_resource container id) =
    Backed env t × PlannedContainer plan id
Justified env plan request t (remove_resource image id) =
    Backed env t × Releasable env plan request image id t
Justified env plan request t (remove_resource volume id) =
    Backed env t × Releasable env plan request volume id t
Justified env plan request t (remove_file path) =
    Backed env t
    × ((path ≡ plan.file)
        × ((request.directory ≡ false)
            × ((recheck_plan env plan request t ≡ none)
                × (resolve_compose_file (env.world t).system (env.world t).roots path
                    ≡ Guard.ok path))))
Justified env plan request t (remove_directory path) =
    Backed env t
    × ((removal_directory (env.world t).system (env.world t).roots plan.directory ≡ Guard.ok path)
        × ((request.directory ≡ true) × (recheck_plan env plan request t ≡ none)))

-- Every effect of the trace is justified by those before it.
pub AllJustified : Env → RemovalPlan → RemovalRequest → List Effect → Type 0
AllJustified env plan request [] = Unit
AllJustified env plan request (e ∷ t) =
    Justified env plan request t e × AllJustified env plan request t

Result-cases :
    (x : Guard.Result Text)
    → ((path : Text) × (x ≡ Guard.ok path)) ⊎ ((e : PathError) × (x ≡ Guard.err e))
Result-cases (Guard.ok path) = inl (path, refl)
Result-cases (Guard.err e) = inr (e, refl)

not_container : (item : RemovalItem) → is_container item ≡ false → item.kind ≢ container
unfolding is_container
not_container item h q = let h' : true ≡ false = rw q at h in cc

no_reason : (item : RemovalItem) → has_reason item ≡ false → item.reason ≡ none
unfolding has_reason
no_reason item h = elim (Option-cases item.reason) [
  | inl q ↦ q
  | inr (e, q) ↦ (let h' : true ≡ false = rw q at h in cc)
]

true_of_not : (b : Bool) → not b ≡ false → b ≡ true
true_of_not b h = ground arith

not_kept :
    (selected kept : Bool) → (not selected || kept) ≡ false → (selected ≡ true) × (kept ≡ false)
not_kept selected kept h = ground arith

Justified-item :
    (env : Env) (plan : RemovalPlan) (request : RemovalRequest) (kind : ItemKind) (id : Text)
    (t : List Effect)
    → kind ≢ container
    → Backed env t
    → Releasable env plan request kind id t
    → Justified env plan request t (remove_resource kind id)
unfolding Justified
Justified-item env plan request container id t n b h = elim (n refl) [ ]
Justified-item env plan request image id t n b h = (b, h)
Justified-item env plan request volume id t n b h = (b, h)

All-In : (items : List RemovalItem) → All (In items) items
All-In [] = tt
All-In (x ∷ xs) = (inl refl, All-mono (λ i. λ h. inr h) xs (All-In xs))

module _ (env : Env) (plan : RemovalPlan) (request : RemovalRequest) where
  Fine : List Effect → Type 0
  Fine t = Backed env t × AllJustified env plan request t

  Fine-did : (e : Effect) (t : List Effect) → Fine t → Justified env plan request t e → Fine (e ∷ t)
  unfolding Fine AllJustified Backed
  Fine-did e t (b, j) h = (inr b, (h, j))

  Fine-stop :
      (id : Text) (t : List Effect)
      → Fine t
      → PlannedContainer plan id
      → Fine (stop_container id ∷ t)
  unfolding Fine Justified
  Fine-stop id t h own = Fine-did (stop_container id) t h (h.0, own)

  Fine-remove :
      (id : Text) (t : List Effect)
      → Fine t
      → PlannedContainer plan id
      → Fine (remove_resource container id ∷ t)
  unfolding Fine Justified
  Fine-remove id t h own = Fine-did (remove_resource container id) t h (h.0, own)

  remove_container-Fine :
      (item : RemovalItem) (r : Report)
      → In plan.items item
      → is_container item ≡ true
      → Fine r.trace
      → Fine (remove_container env item r).1.trace
  unfolding remove_container
  remove_container-Fine item r m k h =
      let own : PlannedContainer plan item.id = (item, (m, (k, refl))) in
      let stop = stop_container item.id in
      let stopped = Fine-stop item.id r.trace h own in
      elim (Bool-cases (is_running item)) [
        | inr e ↦ rw e (Fine-remove item.id r.trace h own)
        | inl e ↦ rw e (elim (Bool-cases (env.answers r.trace stop)) [
          | inl e' ↦ rw e' (Fine-remove item.id (stop ∷ r.trace) stopped own)
          | inr e' ↦ rw e' stopped
        ])
      ]

  remove_containers-Fine :
      (items : List RemovalItem) (r : Report)
      → All (In plan.items) items
      → Fine r.trace
      → Fine (remove_containers env items r).1.trace
  unfolding remove_containers
  remove_containers-Fine [] r m h = h
  remove_containers-Fine (item ∷ items) r (m, ms) h =
      let r1 = (remove_container env item r).1 in
      elim (Bool-cases (is_container item)) [
        | inr e ↦ rw e (remove_containers-Fine items r ms h)
        | inl e ↦ rw e (
            let f = remove_container-Fine item r m e h in
            elim (Bool-cases (remove_container env item r).0) [
              | inl e' ↦
                  rw e' (remove_containers-Fine items (note_deleted (item_deleted item) r1) ms f)
              | inr e' ↦ rw e' f
            ])
      ]

  remove_resolved-Fine :
      (x : Guard.Result Text) (r : Report)
      → resolve_compose_file (env.world r.trace).system (env.world r.trace).roots plan.file ≡ x
      → request.directory ≡ false
      → recheck_plan env plan request r.trace ≡ none
      → Fine r.trace
      → Fine (remove_resolved env plan r x).1.trace
  unfolding remove_resolved Fine Justified
  remove_resolved-Fine (Guard.err e) r q d c h = h
  remove_resolved-Fine (Guard.ok path) r q d c h =
      if_cases (λ (x : Bool × Report). Fine x.1.trace) (same path plan.file)
        (env.answers r.trace (remove_file plan.file), did (remove_file plan.file) r) (false, r)
        (λ e.
          let here : path ≡ plan.file = (same_iff path plan.file).0 e in
          Fine-did (remove_file plan.file) r.trace h
            (h.0, (refl, (d, (c, q ∙ ap (λ p. Guard.ok p) here)))))
        (λ e. h)

  remove_whole-Fine :
      (x : Guard.Result Text) (r : Report)
      → removal_directory (env.world r.trace).system (env.world r.trace).roots plan.directory ≡ x
      → request.directory ≡ true
      → recheck_plan env plan request r.trace ≡ none
      → Fine r.trace
      → Fine (remove_whole env r x).1.trace
  unfolding remove_whole Fine Justified
  remove_whole-Fine (Guard.err e) r q d c h = h
  remove_whole-Fine (Guard.ok path) r q d c h =
      Fine-did (remove_directory path) r.trace h (h.0, (q, (d, c)))

  remove_files-Fine :
      (r : Report)
      → recheck_plan env plan request r.trace ≡ none
      → Fine r.trace
      → Fine (remove_files env plan request r).1.trace
  unfolding remove_files
  remove_files-Fine r c h =
      let w = env.world r.trace in
      let removable = removal_directory w.system w.roots plan.directory in
      let resolved = resolve_compose_file w.system w.roots plan.file in
      if_cases (λ (x : Bool × Report). Fine x.1.trace) request.directory
        (remove_whole env r removable) (remove_resolved env plan r resolved)
        (λ e. remove_whole-Fine removable r refl e c h)
        (λ e. remove_resolved-Fine resolved r refl e c h)

  remove_effect-Fine :
      (item : RemovalItem) (r : Report)
      → In plan.items item
      → is_container item ≡ false
      → (not (is_selected request item) || has_reason item) ≡ false
      → recheck_removal_resource (env.world r.trace) item.kind item.id ≡ none
      → Fine r.trace
      → Fine (remove_resource item.kind item.id ∷ r.trace)
  unfolding Fine
  remove_effect-Fine item r m k e q h =
      let (a, b) = not_kept (is_selected request item) (has_reason item) e in
      Fine-did (remove_resource item.kind item.id) r.trace h (
        Justified-item env plan request item.kind item.id r.trace (not_container item k) h.0
          ((item, (m, (refl, (refl, (a, no_reason item b))))), q))

  remove_item-Fine :
      (item : RemovalItem) (r : Report)
      → In plan.items item
      → is_container item ≡ false
      → Fine r.trace
      → Fine (remove_item env request item r).trace
  unfolding remove_item
  remove_item-Fine item r m k h =
      let kept = not (is_selected request item) || has_reason item in
      let effect = remove_resource item.kind item.id in
      elim (Bool-cases kept) [
        | inl e ↦ rw e h
        | inr e ↦
            rw e
              (elim (Option-cases
                (recheck_removal_resource (env.world r.trace) item.kind item.id)) [
                  | inr (k', q) ↦ rw q h
                  | inl q ↦ rw q (
                      let done = remove_effect-Fine item r m k e q h in
                      elim (Bool-cases (env.answers r.trace effect)) [
                        | inl a ↦ rw a done
                        | inr a ↦ rw a done
                      ])
                ])
      ]

  remove_items-Fine :
      (items : List RemovalItem) (r : Report)
      → All (In plan.items) items
      → Fine r.trace
      → Fine (remove_items env request items r).trace
  unfolding remove_items
  remove_items-Fine [] r m h = h
  remove_items-Fine (item ∷ items) r (m, ms) h =
      let next = remove_item env request item r in
      remove_items-Fine items (if is_container item then r else next) ms (
        if_cases (λ (x : Report). Fine x.trace) (is_container item) r next (λ e. h)
          (λ e. remove_item-Fine item r m e h))

  note_planned-trace : (ks : List Retained) (r : Report) → (note_planned ks r).trace ≡ r.trace
  note_planned-trace [] r = refl
  note_planned-trace (k ∷ ks) r = note_planned-trace ks (note_left (planned_retained k) r)

  finish_files-Fine :
      (x : Bool × Report) → Fine x.1.trace → Fine (finish_files env plan request x).trace
  unfolding finish_files
  finish_files-Fine (false, r) h = h
  finish_files-Fine (true, r) h =
      remove_items-Fine plan.items (note_files plan request r) (All-In plan.items) (
        if_cases (λ (x : Report). Fine x.trace) request.directory
          (note_deleted (directory_deleted plan.directory) r)
          (note_left (directory_left plan.directory) (note_deleted (file_deleted plan.file) r))
          (λ e. h) (λ e. h))

  checked_files-Fine :
      (o : Option Problem) (r : Report)
      → recheck_plan env plan request r.trace ≡ o
      → Fine r.trace
      → Fine (checked_files env plan request r o).trace
  unfolding checked_files
  checked_files-Fine (some p) r q h = h
  checked_files-Fine none r q h =
      finish_files-Fine (remove_files env plan request r) (remove_files-Fine r q h)

  after_containers-Fine :
      (x : Bool × Report) → Fine x.1.trace → Fine (after_containers env plan request x).trace
  unfolding after_containers
  after_containers-Fine (false, r) h = h
  after_containers-Fine (true, r) h =
      checked_files-Fine (recheck_plan env plan request r.trace) r refl h

  pub start-AllJustified : AllJustified env plan request (audit_started ∷ [])
  unfolding AllJustified Justified
  start-AllJustified = (tt, tt)

  -- Whatever request is executed, from an empty trace or an audit record: a container is stopped or
  -- removed only if the plan lists it; the directory or the Compose file is removed only if the request
  -- says so, the project read again at that time passes the second check, and the file still resolves to
  -- itself, or `RemovalDirectory` offers the directory again; an image or a volume is removed only if the
  -- request selects it, the plan lists it with no reason to keep it, and it passes the last check; and
  -- all this happens only after the Compose file was written to the backup directory with success.
  pub execute-AllJustified :
      (r : Report)
      → AllJustified env plan request r.trace
      → AllJustified env plan request (execute env plan request r).trace
  unfolding execute execute_backed Fine Backed AllJustified Justified
  execute-AllJustified r h =
      let r2 = did write_backup (did read_file r) in
      let h1 : AllJustified env plan request (read_file ∷ r.trace) = (tt, h) in
      let planned_too = note_planned plan.retained r2 in
      if_cases (λ (x : Report). AllJustified env plan request x.trace)
        (not (env.answers r.trace read_file)) (fail no_file_to_back_up (did read_file r))
        (execute_backed env plan request (did read_file r)) (λ e. h1)
        (λ e.
          if_cases (λ (x : Report). AllJustified env plan request x.trace)
            (not (env.answers (read_file ∷ r.trace) write_backup)) (fail backup_failed r2)
            (after_containers env plan request (remove_containers env plan.items planned_too))
            (λ e. (tt, h1))
            (λ written.
              let start : Fine planned_too.trace =
                rw (note_planned-trace plan.retained r2)
                  (inl (refl, true_of_not _ written), (tt, h1)) in
              (after_containers-Fine (remove_containers env plan.items planned_too)
                (remove_containers-Fine plan.items planned_too (All-In plan.items) start)).1))
