-- ===== src/Population/Archives.antt =====
-- apps/population/population_policy.py: the archive of an experiment.
pub mod Capacity
pub mod Groups
pub mod Members
pub mod Frontier
pub mod Reasons
pub mod Partition
use metering.Prelude.{
  ℕ, Bool, true, false, ◌&&◌, not, Option, none, some, List, [], ◌∷◌, map, length, any,
  if◌then◌else◌, filter, ◌++◌, String, str_eq, contains, sort_by, text_lt, take,
}
use metering.Runtime.{
  Result, ok, ◌>>=◌, ◌>>◌, require, refuse, traverse, or_raise, on_probability_error,
  population_error, Platform,
}
use metering.Runtime.Dict.{Dict, find}
use metering.Information.Measures.{kl_divergence}
use metering.Population.Types.{
  PopulationState, RunBody, Metric, Archive, Reason, unevaluated, infeasible, dominated,
  over_capacity, Role, development, final,
}
use metering.Population.Evidence.{finite_or_infinite, floats, base_two}
use metering.Population.Aggregate.{candidate_aggregate}
use metering.Population.Pareto.{dominates, rank_before}

abbrev is_none {ℓ} : {A : Type ℓ} → Option A → Bool
is_none none = true
is_none (some a) = false

abbrev pub is_development : Role → Bool
is_development development = true
is_development final = false

-- `grouped.setdefault(k, []).append(v)`
unfoldable pub append_to {ℓ} : {V : Type ℓ} → String → V → Dict (List V) → Dict (List V)
append_to k v [] = (k, v ∷ []) ∷ []
append_to k v ((j, vs) ∷ d) =
    if str_eq j k then (j, vs ++ v ∷ []) ∷ d else (j, vs) ∷ append_to k v d

module _ {F : Type 0} where
  -- `grouped`, from the groups so far
  unfoldable pub group_runs :
      String → List (RunBody F) → Dict (List (RunBody F)) → Dict (List (RunBody F))
  unfolding append_to
  group_runs experiment_id [] grouped = grouped
  group_runs experiment_id (body ∷ bodies) grouped = group_runs experiment_id bodies (
      if str_eq body.run.experiment_id experiment_id
      then append_to body.run.candidate_id body grouped
      else grouped)

  abbrev pub metric_ids : List (Metric F) → List String
  metric_ids metrics = map (λ metric. metric.candidate_id) metrics

  abbrev pub id_before : Metric F → Metric F → Bool
  id_before a b = text_lt a.candidate_id b.candidate_id

-- The reason of a candidate that is not selected.
unfoldable pub exclusion : List String → List String → List String → String → Reason
exclusion evaluated viable frontier candidate_id =
    if contains candidate_id evaluated
    then if contains candidate_id viable
      then if contains candidate_id frontier then over_capacity else dominated
      else infeasible
    else unevaluated

-- The loop over `sorted(state.candidates)`.
unfoldable pub exclusions :
    List String → List String → List String → List String → List String → List (String × Reason)
unfolding exclusion
exclusions selected evaluated viable frontier [] = []
exclusions selected evaluated viable frontier (candidate_id ∷ ids) =
    if contains candidate_id selected
    then exclusions selected evaluated viable frontier ids
    else (candidate_id, exclusion evaluated viable frontier candidate_id)
      ∷ exclusions selected evaluated viable frontier ids

abbrev pub dict_keys {ℓ} : {V : Type ℓ} → Dict V → List String
dict_keys d = map (λ entry. entry.0) d

unfoldable pub objectives : Bool → List (String × String)
objectives include_information =
    ("maximize", "task_rate")
    ∷ ("maximize", "reliability")
    ∷ ("maximize", "novelty_bits")
    ∷ ("minimize", "mean_target_surprisal_bits")
    ∷ ((if include_information then ("maximize", "information_value_bits") ∷ [] else [])
        ++ ("minimize", "cost.actions")
          ∷ ("minimize", "cost.energy_millijoules")
          ∷ ("minimize", "cost.gpu_milliseconds")
          ∷ ("minimize", "cost.memory_bytes")
          ∷ ("minimize", "cost.storage_bytes")
          ∷ ("minimize", "cost.tokens")
          ∷ ("minimize", "cost.wall_milliseconds")
          ∷ [])

module _ (P : Platform) where
  open P use {Float, literal, float_lt}

  -- `aggregates`
  aggregate_all : Dict (List (RunBody Float)) → PopulationState Float → Result (List (Metric Float))
  aggregate_all grouped state =
      traverse (λ group. candidate_aggregate P group.0 group.1 state.configuration.archive_policy)
        grouped

  unfoldable pub viable_metrics : List (Metric Float) → List (Metric Float)
  viable_metrics metrics = filter (λ metric. metric.survival_passed) metrics

  -- `distances` of one candidate to the other viable ones
  distances : Metric Float → List (Metric Float) → Result (List Float)
  distances metric [] = ok []
  distances metric (other ∷ others) =
      if str_eq other.candidate_id metric.candidate_id then distances metric others else do
        distance ← on_probability_error population_error (
            kl_divergence P (floats P metric.behavior_distribution)
              (floats P other.behavior_distribution) (base_two P))
        rest ← distances metric others
        ok (distance ∷ rest)

  -- `min(distances)` from the first one on, and `0.0` of none
  least : Float → List Float → Float
  least x [] = x
  least x (y ∷ ys) = least (if float_lt y x then y else x) ys

  least_distance : List Float → Float
  unfolding least
  least_distance [] = literal "0.0"
  least_distance (x ∷ xs) = least x xs

  with_novelty : List (Metric Float) → Metric Float → Result (Metric Float)
  unfolding distances least_distance
  with_novelty viable metric = do
    ds ← distances metric viable
    ok (record metric { novelty_bits = finite_or_infinite P (least_distance ds) })

  -- `any(other_id != candidate_id and _dominates(other, metric, ...) for ...)`
  unfoldable pub is_dominated : Bool → List (Metric Float) → Metric Float → Bool
  is_dominated include_information viable metric =
      any
        (λ other.
          not (str_eq other.candidate_id metric.candidate_id)
          && dominates P other metric include_information)
        viable

  unfoldable pub frontier_of : Bool → List (Metric Float) → List (Metric Float)
  unfolding is_dominated
  frontier_of include_information viable =
      filter (λ metric. not (is_dominated include_information viable metric)) viable

  -- `selected_ids`
  unfoldable pub select_ids : Bool → ℕ → List (Metric Float) → List String
  select_ids include_information capacity frontier =
      metric_ids (take capacity (sort_by (rank_before P include_information) frontier))

  unfoldable pub select_members : List String → List (Metric Float) → List (Metric Float)
  select_members selected frontier =
      sort_by id_before (filter (λ metric. contains metric.candidate_id selected) frontier)

  -- What `_archive_body` returns, from the aggregates and the viable candidates with their novelty.
  unfoldable pub archive_from :
      String
      → Bool
      → List (Metric Float)
      → List (Metric Float)
      → PopulationState Float
      → Archive Float
  unfolding frontier_of select_ids select_members exclusions objectives
  archive_from experiment_id include_information aggregates viable state =
      let frontier = frontier_of include_information viable in
      let policy = state.configuration.archive_policy in
      let selected = select_ids include_information policy.capacity frontier in
      record {
        eligible_count = length viable;
        evaluated_count = length aggregates;
        excluded =
            exclusions selected (metric_ids aggregates) (metric_ids viable) (metric_ids frontier)
              (sort_by text_lt (dict_keys state.candidates));
        experiment_id = experiment_id;
        members = select_members selected frontier;
        objectives = objectives include_information;
        policy = policy;
      }

  -- `_archive_body`
  unfoldable pub normalize_archive_body : String → PopulationState Float → Result (Archive Float)
  unfolding aggregate_all viable_metrics with_novelty
  normalize_archive_body experiment_id state = do
    experiment ← or_raise population_error (find experiment_id state.experiments)
    require (is_development experiment.role) population_error
    aggregates ← aggregate_all (group_runs experiment_id state.runs []) state
    viable ← traverse (with_novelty (viable_metrics aggregates)) (viable_metrics aggregates)
    refuse
        (experiment.information_objective
          && any (λ metric. is_none metric.information_value_bits) viable)
        population_error
    ok (archive_from experiment_id experiment.information_objective aggregates viable state)
