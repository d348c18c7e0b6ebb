-- ===== src/Compose/Runner/Tests.antt =====
-- The runner of backend/internal/compose/runner.go at concrete values.
use compose_manager.Filepath.{dir}
use compose_manager.Base.{false, some, List, Text, has_prefix}
use compose_manager.Base.{◌≤◌, ◌≡◌, refl}
use compose_manager.Base.{true, ◌||◌, [], ◌∷◌}
use compose_manager.Base.{◌++◌, length}
use compose_manager.Base.{codes, is_empty}
use compose_manager.Compose.Identifier.{is_identifier}
use compose_manager.Compose.Runner.{
  pull, action_args, write_all, new_writer, write_all-bound, run_args-valid, project_args,
}

write_all-bound_example : length (write_all true (codes "a" ∷ []) new_writer).output ≤ 1048576
write_all-bound_example = write_all-bound true (codes "a" ∷ [])

run_args-valid_example :
    ((rest : List Text) × ((action_args (λ n. []) pull (codes "web") 0 ≡ some rest)
        × (project_args (codes "shop") (codes "/srv/compose.yaml")
              ++ codes "pull" ∷ codes "web" ∷ []
            ≡ codes "compose"
              ∷ codes "-f"
              ∷ codes "/srv/compose.yaml"
              ∷ codes "--project-directory"
              ∷ dir (codes "/srv/compose.yaml")
              ∷ codes "--project-name"
              ∷ codes "shop"
              ∷ rest)))
    × (is_identifier (codes "shop") ≡ true)
    × ((is_empty (codes "web") || is_identifier (codes "web")) ≡ true)
    × (has_prefix (codes "shop") (codes "-") ≡ false)
    × (has_prefix (codes "web") (codes "-") ≡ false)
unfolding compose_manager.Compose.Runner.run_args is_identifier
    compose_manager.Compose.Runner.after_project compose_manager.Compose.Runner.action_args
run_args-valid_example =
    run_args-valid (λ n. []) (codes "shop") (codes "/srv/compose.yaml") pull (codes "web") 0
      (project_args (codes "shop") (codes "/srv/compose.yaml") ++ codes "pull" ∷ codes "web" ∷ [])
      refl
