-- ===== src/App/Tasks/Tests.antt =====
-- The update tasks of backend/internal/app/service.go in one run.
use compose_manager.Base.{◌≡◌, refl}
use compose_manager.Base.{inl, false, none, some, [], ◌∷◌}
use compose_manager.Base.{codes, same}
use compose_manager.Base.{lookup}
use compose_manager.Base.{ℕ, ◌<◌, take, length, List}
use compose_manager.App.Tasks.{run_all}
use compose_manager.App.Tasks.{
  Tasks, UpdateTask, Cleaner, UpdateRun, new_task, add_task, already_running, run_update_task,
}
use compose_manager.App.Tasks.Runs.{Ended, run_update_task-Ended, add_task-exclusive}

abbrev idle : Tasks
idle = record { tasks = []; active = [] }

abbrev cleaner : Cleaner
cleaner = record { strip_ansi = λ s. s; mask_secret = λ s. s }

-- The pull prints a line, and the second command fails.
abbrev failing : UpdateRun
failing = record {
  demo = false;
  project_error = none;
  pull_lines = codes "Pulling" ∷ [];
  pull_error = none;
  apply_lines = [];
  apply_error = some (codes "exit status 1");
  check_error = none;
  record_error = none;
  demo_line = [];
  clock = λ n. n;
}

abbrev waiting_task : Tasks
waiting_task = record {
  tasks = (codes "a1", new_task (codes "a1") (codes "shop") [] 5) ∷ [];
  active = (codes "shop", codes "a1") ∷ [];
}

run_update_task-Ended_example :
    Ended
      (codes "a1")
      (codes "shop")
      (run_all (run_update_task cleaner failing (codes "a1") (codes "shop")) waiting_task)
unfolding lookup same
run_update_task-Ended_example =
    run_update_task-Ended cleaner failing (codes "a1") (codes "shop") waiting_task refl

abbrev first_run : List (Tasks → Tasks)
first_run = run_update_task cleaner failing (codes "a1") (codes "shop")

abbrev added_first : Tasks
added_first = (add_task (codes "shop") [] (codes "a1") 5 idle).1

add_task-exclusive_example :
    ((n : ℕ)
      → n < length first_run
      → add_task
          (codes "shop")
          (codes "web")
          (codes "a2")
          6
          (run_all (take n first_run) added_first)
        ≡ (inl already_running, run_all (take n first_run) added_first))
    × Ended (codes "a1") (codes "shop") (run_all first_run added_first)
unfolding add_task compose_manager.App.Tasks.add_if_free lookup
add_task-exclusive_example =
    add_task-exclusive cleaner failing (codes "shop") [] (codes "web") (codes "a1") (codes "a2") 5 6
      idle (new_task (codes "a1") (codes "shop") [] 5) refl
