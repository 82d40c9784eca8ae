-- ===== src/Driver/Costs.antt =====
-- apps/population_driver/population_driver_protocol.py and planner.py: the cost of the runs of an
-- experiment, and the limit on it.
use metering.Prelude.{◌+◌, ◌*◌, Bool, ◌||◌, List, [], ◌∷◌, ltb, if◌then◌else◌, String, str_eq}
use metering.Population.Types.{Resources, RunBody}
use metering.Population.Aggregate.{add_resources, no_resources}

module _ {F : Type 0} where
  unfoldable pub total_cost : List (RunBody F) → String → Resources
  unfolding add_resources
  total_cost [] experiment_id = no_resources
  total_cost (body ∷ runs) experiment_id =
      let rest = total_cost runs experiment_id in
      if str_eq body.run.experiment_id experiment_id
      then add_resources body.evidence.cost rest
      else rest

-- `any(used[name] + 2 * per_candidate[name] > maximum[name] for name in RESOURCE_NAMES)`
unfoldable pub exceeds : Resources → Resources → Resources → Bool
exceeds used per_candidate maximum =
    ltb maximum.actions (used.actions + 2 * per_candidate.actions)
    || ltb maximum.energy_millijoules
        (used.energy_millijoules + 2 * per_candidate.energy_millijoules)
    || ltb maximum.gpu_milliseconds (used.gpu_milliseconds + 2 * per_candidate.gpu_milliseconds)
    || ltb maximum.memory_bytes (used.memory_bytes + 2 * per_candidate.memory_bytes)
    || ltb maximum.storage_bytes (used.storage_bytes + 2 * per_candidate.storage_bytes)
    || ltb maximum.tokens (used.tokens + 2 * per_candidate.tokens)
    || ltb maximum.wall_milliseconds (used.wall_milliseconds + 2 * per_candidate.wall_milliseconds)
