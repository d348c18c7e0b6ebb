-- ===== src/Docker/Usage/Tests.antt =====
-- memoryUsage and RemoveProjectResource of backend/internal/docker at concrete values.
use compose_manager.Base.{◌≡◌, refl}
use compose_manager.Base.{true}
use compose_manager.Base.{all, Exists, All, [], ◌∷◌, ◌≤◌, ◌-◌}
use compose_manager.Base.{codes}
use compose_manager.App.Removal.{volume}
use compose_manager.Docker.Usage.{
  MemoryStats, memory_usage, is_path_safe, memory_usage-Least, is_removable-safe,
}

abbrev some_stats : MemoryStats
some_stats = record {
  usage = 100;
  active_file = 20;
  inactive_file = 5;
  total_active_file = 0;
  total_inactive_file = 0;
  cache = 30;
  total_cache = 0;
}

memory_usage-Least_example :
    Exists (λ f. memory_usage some_stats ≡ 100 - f) (25 ∷ 0 ∷ 30 ∷ 0 ∷ [])
    × All (λ f. memory_usage some_stats ≤ 100 - f) (25 ∷ 0 ∷ 30 ∷ 0 ∷ [])
memory_usage-Least_example = memory_usage-Least some_stats

is_removable-safe_example : all is_path_safe (codes "shop_db-1") ≡ true
unfolding compose_manager.Docker.Usage.is_removable compose_manager.Docker.Usage.is_volume_name
is_removable-safe_example = is_removable-safe volume (codes "shop_db-1") refl
