-- ===== src/App/Tasks/Runs.antt =====
-- What runUpdateTask of backend/internal/app/service.go leaves, whatever happens while it runs.

use compose_manager.App.Tasks.{found_run, pulled_run, applied_run, run_all, pull_run}
use compose_manager.Base.{apart, zero, suc, ◌<◌, ◌∙◌, ◌++◌, take, length, arith}
use compose_manager.App.Tasks.{checking}
use compose_manager.App.Tasks.{new_task}
use compose_manager.App.Tasks.{add_if_free, applying, pulling}
use compose_manager.App.Tasks.{change_found}
use compose_manager.Base.{if_cases, ℕ}
use compose_manager.Base.{◌≡◌, refl, ap}
use compose_manager.Base.{inl, inr, Bool, true, false, ◌&&◌, Option, none, some, List, [], ◌∷◌}
use compose_manager.Base.{Option-cases}
use compose_manager.Base.{Text, same_refl, is_empty}
use compose_manager.Base.{lookup}
use compose_manager.Base.{lookup-insert, lookup-remove}
use compose_manager.App.Tasks.{
  Status, success, failed, queued, running, UpdateTask, Tasks, Cleaner, UpdateRun, Stage, Message,
  change_task, set_update_task, finish_update_task, ended, append_update_task_output, append_lines,
  sanitize_task_line, fail_task, end_run, apply_run, pull_run, demo_run, run_update_task,
  already_running, add_task, prune_update_tasks,
}

-- Whether the map holds a task.
abbrev pub is_known : Option UpdateTask → Bool
is_known none = false
is_known (some task) = true

abbrev is_final : Status → Bool
is_final queued = false
is_final running = false
is_final success = true
is_final failed = true

abbrev is_timed : Option ℕ → Bool
is_timed none = false
is_timed (some t) = true

-- Whether it holds one that succeeded or failed, with its time.
abbrev pub is_ended : Option UpdateTask → Bool
is_ended none = false
is_ended (some task) = is_final task.status && is_timed task.finished

-- The task is there.
abbrev Known : Text → Tasks → Type 0
Known id s = is_known (lookup id s.tasks) ≡ true

-- The task has ended, and its project's place is free.
pub Ended : Text → Text → Tasks → Type 0
Ended id task_key s = (is_ended (lookup id s.tasks) ≡ true) × (lookup task_key s.active ≡ none)

-- The changes of a run: all but the last keep the task, and who has a place; the last ends the task.
data IsRun (id task_key : Text) : List (Tasks → Tasks) → Type 0 where
  last_change :
      (change : Tasks → Tasks)
      → ((s : Tasks) → Known id s → Ended id task_key (change s))
      → IsRun id task_key (change ∷ [])
  kept_change :
      (change : Tasks → Tasks) (changes : List (Tasks → Tasks))
      → ((s : Tasks) → Known id s → Known id (change s) × ((change s).active ≡ s.active))
      → IsRun id task_key changes
      → IsRun id task_key (change ∷ changes)

module _ (id task_key : Text) where
  run_all-Ended :
      (changes : List (Tasks → Tasks))
      → IsRun id task_key changes
      → (s : Tasks) → Known id s
      → Ended id task_key (run_all changes s)
  unfolding run_all
  run_all-Ended _ (last_change change h) s known = h s known
  run_all-Ended _ (kept_change change changes h rest) s known =
      run_all-Ended changes rest (change s) (h s known).0

  run_all-active :
      (changes : List (Tasks → Tasks))
      → IsRun id task_key changes
      → (n : ℕ) (s : Tasks) → Known id s
      → n < length changes
      → (run_all (take n changes) s).active ≡ s.active
  unfolding run_all
  run_all-active _ (last_change change h) zero s known early = refl
  run_all-active _ (last_change change h) (suc n) s known early =
      let never : 0 ≡ 1 = omega (arith, early) in apart 0 1 refl never
  run_all-active _ (kept_change change changes h rest) zero s known early = refl
  run_all-active _ (kept_change change changes h rest) (suc n) s known early =
      run_all-active changes rest n (change s) (h s known).0 (omega (arith, early)) ∙ (h s known).1

change_found-Known :
    (id : Text) (f : UpdateTask → UpdateTask) (s : Tasks) (o : Option UpdateTask)
    → is_known o ≡ true
    → Known id (change_found id f s o)
unfolding change_found
change_found-Known id f s none h = cc
change_found-Known id f s (some task) h =
    rw (lookup-insert id id (f task) s.tasks, same_refl id) refl

change_task-Known :
    (id : Text) (f : UpdateTask → UpdateTask) (s : Tasks)
    → Known id s
    → Known id (change_task id f s)
unfolding change_task
change_task-Known id f s h = change_found-Known id f s (lookup id s.tasks) h

module _ (k : Cleaner) (id task_key : Text) where
  append-Known :
      (now : ℕ) (line : Text) (s : Tasks)
      → Known id s
      → Known id (append_update_task_output k id now line s)
  unfolding append_update_task_output
  append-Known now line s h =
      if_cases (Known id) (is_empty (sanitize_task_line k line)) s _ (λ e. h)
        (λ e. change_task-Known id _ s h)

  set-Known :
      (status : Status) (stage : Stage) (progress : ℕ) (message : Message) (error : Text) (now : ℕ)
      (s : Tasks)
      → Known id s
      → Known id (set_update_task k id status stage progress message error now s)
  unfolding set_update_task
  set-Known status stage progress message error now s h = change_task-Known id _ s h

  change_found-active :
      (f : UpdateTask → UpdateTask) (s : Tasks) (o : Option UpdateTask)
      → (change_found id f s o).active ≡ s.active
  unfolding change_found
  change_found-active f s none = refl
  change_found-active f s (some task) = refl

  Kept : (Tasks → Tasks) → Type 0
  Kept change = (s : Tasks) → Known id s → Known id (change s) × ((change s).active ≡ s.active)

  append-Kept : (now : ℕ) (line : Text) → Kept (append_update_task_output k id now line)
  unfolding append_update_task_output change_task Kept
  append-Kept now line s h = (
    append-Known now line s h,
    if_cases (λ (x : Tasks). x.active ≡ s.active) (is_empty (sanitize_task_line k line)) s _
        (λ e. refl) (λ e. change_found-active _ s (lookup id s.tasks)),
  )

  set-Kept :
      (status : Status) (stage : Stage) (progress : ℕ) (message : Message) (error : Text) (now : ℕ)
      → Kept (set_update_task k id status stage progress message error now)
  unfolding set_update_task change_task Kept
  set-Kept status stage progress message error now s h = (
    set-Known status stage progress message error now s h,
    change_found-active _ s (lookup id s.tasks),
  )

  append_lines-IsRun :
      (now : ℕ) (lines : List Text) (rest : List (Tasks → Tasks))
      → IsRun id task_key rest
      → IsRun id task_key (append_lines k id now lines ++ rest)
  unfolding append_lines Kept
  append_lines-IsRun now [] rest r = r
  append_lines-IsRun now (line ∷ lines) rest r =
      kept_change _ _ (append-Kept now line) (append_lines-IsRun now lines rest r)

  change_found-ended :
      (status : Status) (stage : Stage) (progress : ℕ) (message : Message) (error : Text) (now : ℕ)
      (s : Tasks) (o : Option UpdateTask)
      → is_final status ≡ true
      → is_known o ≡ true
      → is_ended
          (lookup id (change_found id (ended k status stage progress message error now) s o).tasks)
        ≡ true
  unfolding change_found
  change_found-ended status stage progress message error now s none d h = cc
  change_found-ended status stage progress message error now s (some task) d h =
      rw
        (
          lookup-insert id id (ended k status stage progress message error now task) s.tasks,
          same_refl id,
          d,
        )
        refl

  finish-Ended :
      (status : Status) (stage : Stage) (progress : ℕ) (message : Message) (error : Text) (now : ℕ)
      (s : Tasks)
      → is_final status ≡ true
      → Known id s
      → Ended id task_key
          (finish_update_task k id task_key status stage progress message error now s)
  unfolding finish_update_task change_task Ended
  finish-Ended status stage progress message error now s d h =
      let changed =
        change_found id (ended k status stage progress message error now) s (lookup id s.tasks) in
      (
        change_found-ended status stage progress message error now s (lookup id s.tasks) d h,
        rw (lookup-remove task_key task_key changed.active, same_refl task_key) refl,
      )

  module _ (run : UpdateRun) where
    fail-Ended :
        (error : Text) (s : Tasks)
        → Known id s
        → Ended id task_key (fail_task k run id task_key error s)
    unfolding fail_task
    fail-Ended error s h = finish-Ended failed _ _ _ error _ s refl h

    end_run-IsRun : IsRun id task_key (end_run k run id task_key)
    unfolding end_run sanitize_task_line fail_task
    end_run-IsRun = elim (Option-cases run.check_error) [
      | inr (e, q) ↦ rw q (last_change _ (λ s. λ h. fail-Ended _ s h))
      | inl q ↦ rw q (elim (Option-cases run.record_error) [
        | inr (e, q') ↦ rw q' (last_change _ (λ s. λ h. finish-Ended failed _ _ _ _ _ s refl h))
        | inl q' ↦ rw q' (last_change _ (λ s. λ h. finish-Ended success _ _ _ _ _ s refl h))
      ])
    ]

    applied_run-IsRun : (o : Option Text) → IsRun id task_key (applied_run k run id task_key o)
    unfolding applied_run Kept
    applied_run-IsRun (some e) = last_change _ (λ s. λ h. fail-Ended _ s h)
    applied_run-IsRun none = kept_change _ _ (set-Kept running checking 92 _ [] _) end_run-IsRun

    apply_run-IsRun : IsRun id task_key (apply_run k run id task_key)
    unfolding apply_run Kept
    apply_run-IsRun =
        kept_change _ _ (set-Kept running applying 72 _ [] _)
          (append_lines-IsRun _ run.apply_lines _ (applied_run-IsRun run.apply_error))

    pulled_run-IsRun : (o : Option Text) → IsRun id task_key (pulled_run k run id task_key o)
    unfolding pulled_run
    pulled_run-IsRun (some e) = last_change _ (λ s. λ h. fail-Ended _ s h)
    pulled_run-IsRun none = apply_run-IsRun

    found_run-IsRun : (o : Option Text) → IsRun id task_key (found_run k run id task_key o)
    unfolding found_run
    found_run-IsRun (some e) = last_change _ (λ s. λ h. fail-Ended _ s h)
    found_run-IsRun none = append_lines-IsRun _ run.pull_lines _ (pulled_run-IsRun run.pull_error)

    demo_run-IsRun : IsRun id task_key (demo_run k run id task_key)
    unfolding demo_run Kept
    demo_run-IsRun = kept_change _ _ (append-Kept _ run.demo_line) (
        kept_change _ _ (set-Kept running applying 72 _ [] _)
          (last_change _ (λ s. λ h. finish-Ended success _ _ _ _ _ s refl h)))

    run_update_task-IsRun : IsRun id task_key (run_update_task k run id task_key)
    unfolding run_update_task pull_run Kept
    run_update_task-IsRun = kept_change _ _ (set-Kept running pulling 8 _ [] _) (
        if_cases (IsRun id task_key) run.demo (demo_run k run id task_key)
          (pull_run k run id task_key) (λ e. demo_run-IsRun)
          (λ e. found_run-IsRun run.project_error))

-- Whatever the commands print and whichever of the steps fails, a run of a task that is in the map ends
-- with the task marked as succeeded or failed, at a time, and with the place of its project free again.
pub run_update_task-Ended :
    (k : Cleaner) (run : UpdateRun) (id task_key : Text) (s : Tasks)
    → is_known (lookup id s.tasks) ≡ true
    → Ended id task_key (run_all (run_update_task k run id task_key) s)
run_update_task-Ended k run id task_key s h =
    run_all-Ended id task_key _ (run_update_task-IsRun k id task_key run) s h

add_task-active :
    (key service id : Text) (now : ℕ) (s : Tasks) (o : Option Text) (task : UpdateTask)
    → (add_if_free key service id now s o).0 ≡ inr task
    → (lookup key (add_if_free key service id now s o).1.active ≡ some id)
      × ((lookup id (add_if_free key service id now s o).1.tasks ≡ some task) × (o ≡ none))
unfolding add_if_free
add_task-active key service id now s (some other) task h = cc
add_task-active key service id now s none task h =
    let pruned = prune_update_tasks 100 s in
    let made = new_task id key service now in
    let q : made ≡ task = cc in
    (
      rw (lookup-insert key key id pruned.active, same_refl key) refl,
      (rw (lookup-insert id id made pruned.tasks, same_refl id) (ap (λ t. some t) q), refl),
    )

busy-refused :
    (key service id other : Text) (now : ℕ) (s : Tasks)
    → lookup key s.active ≡ some other
    → add_task key service id now s ≡ (inl already_running, s)
unfolding add_task add_if_free
busy-refused key service id other now s h = rw h refl

-- Once a task is added for a project, a second start for the project is refused and changes nothing after
-- any number of the changes that the run of the first makes but all of them; after the last the task has
-- ended and the project's place is free. No call but the second start comes between the changes.
pub add_task-exclusive :
    (k : Cleaner) (run : UpdateRun) (key service other id next : Text) (now later : ℕ) (s : Tasks)
    (task : UpdateTask)
    → (add_task key service id now s).0 ≡ inr task
    → ((n : ℕ)
        → n < length (run_update_task k run id key)
        → add_task key other next later
            (run_all (take n (run_update_task k run id key)) (add_task key service id now s).1)
          ≡ (
            inl already_running,
            run_all (take n (run_update_task k run id key)) (add_task key service id now s).1,
          ))
      × Ended id key (run_all (run_update_task k run id key) (add_task key service id now s).1)
unfolding add_task
add_task-exclusive k run key service other id next now later s task h =
    let (active, (known, free)) =
      add_task-active key service id now s (lookup key s.active) task h in
    let added = (add_task key service id now s).1 in
    let known' : is_known (lookup id added.tasks) ≡ true = rw known refl in
    (
      λ n. λ early. busy-refused key other next id later _ (
          ap (λ m. lookup key m)
            (run_all-active id key _ (run_update_task-IsRun k id key run) n added known' early)
          ∙ active),
      run_update_task-Ended k run id key added known',
    )
