-- ===== src/App/Tasks.antt =====
-- The update tasks of backend/internal/app/service.go: their map, the map of the active ones, and
-- what a task does from its start to its end. Each method runs under the lock, as one step.
pub mod Runs
mod Tests
use compose_manager.Base.{
  if_cases, text_lt, put_sorted, sort_by, All-sort_by, Never, Exists, Exists-mono, Exists-of_any, ℕ,
  zero, suc, ◌+◌, ◌-◌,
}
use compose_manager.Base.{◌*◌, ◌/◌, ◌%◌, ◌^◌, ◌≤◌, ◌<◌, ◌≡◌, refl, sym, ap, ◌∙◌, ◌≢◌, ◌↔◌, ◌⊎◌}
use compose_manager.Base.{
  inl, inr, Bool, true, false, not, ◌&&◌, ◌||◌, Option, none, some, List, [], ◌∷◌,
}
use compose_manager.Base.{
  ◌++◌, map, arith, ltb, leb, ◌==◌, if◌then◌else◌, ==_iff, Bool-cases, Option-cases, and_true,
  and_intro, or_false, length,
}
use compose_manager.Base.{
  take, drop, all, any, filter, length-append, length-take, length-drop, take-append-drop, All,
  All-append, All-mono, All-filter, All-filter_test,
}
use compose_manager.Base.{
  All-of_all, length-filter, All-of_any, Text, codes, same, same_iff, same_refl, same_sym, is_empty,
  has_prefix, contains, has_byte, split,
}
use compose_manager.Base.{
  join, is_space, trim_left, trim_right, trim_space, lower_byte, to_lower, last_piece, but_last,
  Map, lookup, insert, remove, purge,
}
use compose_manager.Base.{
  lookup-insert, lookup-remove, Unique, Unique-insert, Unique-remove, unless, lookup-purge,
  Unique-purge,
}

pub data Status : Type 0 where
  queued running success failed : Status

pub data Stage : Type 0 where
  waiting pulling applying checking completed stopped : Stage

-- The texts that the panel shows.
pub data Message : Type 0 where
  to_start images_pulled containers_made containers_checked update_done update_failed
        record_failed :
      Message

pub record UpdateTask : Type 0 where
  pub id : Text
  pub project : Text
  pub service : Text
  pub status : Status
  pub stage : Stage
  pub progress : ℕ
  pub message : Message
  pub output : List Text
  pub error : Text
  pub created : ℕ
  pub updated : ℕ
  pub finished : Option ℕ

pub record Tasks : Type 0 where
  pub tasks : Map UpdateTask
  pub active : Map Text

-- The two replacements that Go's regexp makes in a line.
pub record Cleaner : Type 0 where
  pub strip_ansi : Text → Text
  pub mask_secret : Text → Text

-- A tab, or no control character.
abbrev is_shown : ℕ → Bool
is_shown c = (c == 9) || leb 32 c

-- `sanitizeTaskLine`.
pub sanitize_task_line : Cleaner → Text → Text
sanitize_task_line k value =
    take 500 (trim_space (filter is_shown (k.mask_secret (k.strip_ansi value))))

pub change_found : Text → (UpdateTask → UpdateTask) → Tasks → Option UpdateTask → Tasks
change_found id f s none = s
change_found id f s (some task) = record s { tasks = insert id (f task) s.tasks }

-- Changes the task of an identifier, if there is one.
pub change_task : Text → (UpdateTask → UpdateTask) → Tasks → Tasks
change_task id f s = change_found id f s (lookup id s.tasks)

pub set_update_task : Cleaner → Text → Status → Stage → ℕ → Message → Text → ℕ → Tasks → Tasks
set_update_task k id status stage progress message error now s =
    change_task id
      (λ task. record task {
        status = status;
        stage = stage;
        progress = progress;
        message = message;
        error = sanitize_task_line k error;
        updated = now;
      })
      s

-- The task at its end.
abbrev pub ended : Cleaner → Status → Stage → ℕ → Message → Text → ℕ → UpdateTask → UpdateTask
ended k status stage progress message error now task = record task {
  status = status;
  stage = stage;
  progress = progress;
  message = message;
  error = sanitize_task_line k error;
  updated = now;
  finished = some now;
}

pub finish_update_task :
    Cleaner → Text → Text → Status → Stage → ℕ → Message → Text → ℕ → Tasks → Tasks
finish_update_task k id task_key status stage progress message error now s =
    let changed = change_task id (ended k status stage progress message error now) s in
    record changed { active = remove task_key changed.active }

-- The last 300 lines.
abbrev pub last_lines : List Text → List Text
last_lines lines = if ltb 300 (length lines) then drop (length lines - 300) lines else lines

pub append_update_task_output : Cleaner → Text → ℕ → Text → Tasks → Tasks
append_update_task_output k id now line s =
    let shown = sanitize_task_line k line in
    let appended =
      change_task id
        (λ task. record task { output = last_lines (task.output ++ shown ∷ []); updated = now })
        s in
    if is_empty shown then s else appended

-- The lines that a command prints, each a change of its own.
pub append_lines : Cleaner → Text → ℕ → List Text → List (Tasks → Tasks)
append_lines k id now [] = []
append_lines k id now (line ∷ lines) =
    append_update_task_output k id now line ∷ append_lines k id now lines

abbrev is_unfinished : UpdateTask → Bool
is_unfinished task = elim task.status [
  | queued ↦ true
  | running ↦ true
  | success ↦ false
  | failed ↦ false
]

abbrev older : UpdateTask → Option UpdateTask → Bool
older task none = true
older task (some oldest) = ltb task.created oldest.created

-- The oldest of the finished tasks, in the order of the map.
pub oldest_finished : Map UpdateTask → Option UpdateTask → Option UpdateTask
oldest_finished [] oldest = oldest
oldest_finished ((id, task) ∷ tasks) oldest =
    oldest_finished tasks
      (if is_unfinished task then oldest else if older task oldest then some task else oldest)

pub without_task : Tasks → Option UpdateTask → Tasks
without_task s none = s
without_task s (some task) = record s { tasks = remove task.id s.tasks }

pub prune_update_tasks : ℕ → Tasks → Tasks
prune_update_tasks limit s =
    if ltb (length s.tasks) limit then s else without_task s (oldest_finished s.tasks none)

pub data StartError : Type 0 where
  project_unknown path_unavailable no_identifier already_running : StartError

pub new_task : Text → Text → Text → ℕ → UpdateTask
new_task id key service now = record {
  id = id;
  project = key;
  service = service;
  status = queued;
  stage = waiting;
  progress = 0;
  message = to_start;
  output = [];
  error = [];
  created = now;
  updated = now;
  finished = none;
}

pub add_if_free : Text → Text → Text → ℕ → Tasks → Option Text → (StartError ⊎ UpdateTask) × Tasks
add_if_free key service id now s (some other) = (inl already_running, s)
add_if_free key service id now s none =
    let pruned = prune_update_tasks 100 s in
    let task = new_task id key service now in
    (
      inr task,
      record pruned { tasks = insert id task pruned.tasks; active = insert key id pruned.active },
    )

-- Under the lock of `StartUpdate`: the task is added unless its project has one that is active.
pub add_task : Text → Text → Text → ℕ → Tasks → (StartError ⊎ UpdateTask) × Tasks
add_task key service id now s = add_if_free key service id now s (lookup key s.active)

-- `StartUpdate`: the project's file, or no project; the identifier, or the error of the generator.
pub start_update :
    Bool → Option Text → Option Text → Text → Text → ℕ → Tasks → (StartError ⊎ UpdateTask) × Tasks
start_update demo none id key service now s = (inl project_unknown, s)
start_update demo (some file) none key service now s =
    if is_empty file && not demo then (inl path_unavailable, s) else (inl no_identifier, s)
start_update demo (some file) (some id) key service now s =
    let added = add_task key service id now s in
    if is_empty file && not demo then (inl path_unavailable, s) else added

-- What happens while a task runs: the error of the project, the lines and the error of each command,
-- the error of the last look at the containers, and that of the record; and the clock's readings.
pub record UpdateRun : Type 0 where
  pub demo : Bool
  pub project_error : Option Text
  pub pull_lines : List Text
  pub pull_error : Option Text
  pub apply_lines : List Text
  pub apply_error : Option Text
  pub check_error : Option Text
  pub record_error : Option Text
  pub demo_line : Text
  pub clock : ℕ → ℕ

abbrev progress_of : Option UpdateTask → ℕ
progress_of none = 0
progress_of (some task) = task.progress

-- The end of a task that failed, at the progress it had.
pub fail_task : Cleaner → UpdateRun → Text → Text → Text → Tasks → Tasks
fail_task k run id task_key error s =
    finish_update_task k id task_key failed stopped (progress_of (lookup id s.tasks)) update_failed
      error (run.clock 9) s

-- What follows is the list of the changes that a run makes to the tasks, in their order; each is made
-- under the lock, and other calls may come between two of them.
pub end_run : Cleaner → UpdateRun → Text → Text → List (Tasks → Tasks)
end_run k run id task_key = elim run.check_error [
  | some e ↦ fail_task k run id task_key (sanitize_task_line k e) ∷ []
  | none ↦ elim run.record_error [
    | some e ↦
        finish_update_task k id task_key failed stopped 96 record_failed (sanitize_task_line k e)
          (run.clock 9)
        ∷ []
    | none ↦
        finish_update_task k id task_key success completed 100 update_done [] (run.clock 9) ∷ []
  ]
]

pub applied_run : Cleaner → UpdateRun → Text → Text → Option Text → List (Tasks → Tasks)
applied_run k run id task_key (some e) = fail_task k run id task_key (sanitize_task_line k e) ∷ []
applied_run k run id task_key none =
    set_update_task k id running checking 92 containers_checked [] (run.clock 5)
    ∷ end_run k run id task_key

pub apply_run : Cleaner → UpdateRun → Text → Text → List (Tasks → Tasks)
apply_run k run id task_key =
    set_update_task k id running applying 72 containers_made [] (run.clock 3)
      ∷ append_lines k id (run.clock 4) run.apply_lines
    ++ applied_run k run id task_key run.apply_error

pub pulled_run : Cleaner → UpdateRun → Text → Text → Option Text → List (Tasks → Tasks)
pulled_run k run id task_key (some e) = fail_task k run id task_key (sanitize_task_line k e) ∷ []
pulled_run k run id task_key none = apply_run k run id task_key

-- A run once its project is looked up, and the whole of one outside the demonstration mode.
pub found_run : Cleaner → UpdateRun → Text → Text → Option Text → List (Tasks → Tasks)
found_run k run id task_key (some e) = fail_task k run id task_key e ∷ []
found_run k run id task_key none =
    append_lines k id (run.clock 2) run.pull_lines ++ pulled_run k run id task_key run.pull_error

pub pull_run : Cleaner → UpdateRun → Text → Text → List (Tasks → Tasks)
pull_run k run id task_key = found_run k run id task_key run.project_error

pub demo_run : Cleaner → UpdateRun → Text → Text → List (Tasks → Tasks)
demo_run k run id task_key =
    append_update_task_output k id (run.clock 2) run.demo_line
    ∷ set_update_task k id running applying 72 containers_made [] (run.clock 3)
    ∷ finish_update_task k id task_key success completed 100 update_done [] (run.clock 4)
    ∷ []

-- `runUpdateTask`.
pub run_update_task : Cleaner → UpdateRun → Text → Text → List (Tasks → Tasks)
run_update_task k run id task_key =
    set_update_task k id running pulling 8 images_pulled [] (run.clock 1)
    ∷ (if run.demo then demo_run k run id task_key else pull_run k run id task_key)

-- The changes made in their order, with no other call between them.
pub run_all : List (Tasks → Tasks) → Tasks → Tasks
run_all [] s = s
run_all (change ∷ changes) s = run_all changes (change s)
