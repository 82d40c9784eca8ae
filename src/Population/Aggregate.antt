-- ===== src/Population/Aggregate.antt =====
-- apps/population/population_policy.py: the aggregate of the runs of one candidate.
use metering.Prelude.{
  ℕ, zero, suc, ◌+◌, false, Option, none, some, List, [], ◌∷◌, map, length, any, all, leb,
  if◌then◌else◌, String, get_elem?, sum,
}
use metering.Prelude.Int.{pos}
use metering.Runtime.{
  Result, ok, raise, ◌>>=◌, traverse, or_raise, on_probability_error, population_error, type_error,
  index_error, Platform,
}
use metering.Information.Measures.{entropy}
use metering.Population.Types.{Resources, RunBody, Metric, ArchivePolicy}
use metering.Population.Evidence.{finite_or_infinite, floats, base_two}

unfoldable pub add_resources : Resources → Resources → Resources
add_resources a b = record {
  actions = a.actions + b.actions;
  energy_millijoules = a.energy_millijoules + b.energy_millijoules;
  gpu_milliseconds = a.gpu_milliseconds + b.gpu_milliseconds;
  memory_bytes = a.memory_bytes + b.memory_bytes;
  storage_bytes = a.storage_bytes + b.storage_bytes;
  tokens = a.tokens + b.tokens;
  wall_milliseconds = a.wall_milliseconds + b.wall_milliseconds;
}

abbrev pub no_resources : Resources
no_resources = record {
  actions = 0;
  energy_millijoules = 0;
  gpu_milliseconds = 0;
  memory_bytes = 0;
  storage_bytes = 0;
  tokens = 0;
  wall_milliseconds = 0;
}

module _ {F : Type 0} where
  -- The sum of the runs' costs, name by name.
  unfoldable pub run_costs : List (RunBody F) → Resources
  unfolding add_resources
  run_costs [] = no_resources
  run_costs (body ∷ bodies) = add_resources body.evidence.cost (run_costs bodies)

  abbrev pub case_total : List (RunBody F) → ℕ
  case_total bodies = sum (map (λ body. body.evidence.task.case_count) bodies)

  abbrev pub passed_total : List (RunBody F) → ℕ
  passed_total bodies = sum (map (λ body. body.evidence.task.passed_count) bodies)

  -- `None if any(item is None for item in information_values) else ...`
  unfoldable pub all_values : List (Option F) → Option (List F)
  all_values [] = some []
  all_values (none ∷ rest) = none
  all_values (some x ∷ rest) = elim (all_values rest) [ none ↦ none | some xs ↦ some (x ∷ xs) ]

module _ (P : Platform) where
  open P use {Float, literal, inf, sub, mul, div, of_int, int_div, fsum, stdev}

  -- `math.fsum(xs) / n`
  unfoldable pub mean : List Float → ℕ → Result Float
  mean xs n = do total ← fsum xs; size ← of_int (pos n); div total size

  -- `behavior`, for the coordinates from one on
  mean_behavior : List (List Float) → ℕ → ℕ → ℕ → Result (List Float)
  unfolding mean
  mean_behavior rows replicates index zero = ok []
  mean_behavior rows replicates index (suc rest) = do
    entries ← traverse (λ row. or_raise index_error (get_elem? row index)) rows
    coordinate ← mean entries replicates
    coordinates ← mean_behavior rows replicates (index + 1) rest
    ok (coordinate ∷ coordinates)

  first_width : List (List Float) → Result ℕ
  first_width [] = raise index_error
  first_width (row ∷ rows) = ok (length row)

  -- `weighted_surprisal` of the runs whose surprisal is finite; `float(None)` raises TypeError
  weighted_surprisals : List (RunBody Float) → Result (List Float)
  weighted_surprisals [] = ok []
  weighted_surprisals (body ∷ bodies) = do
    let bits = body.measurements.mean_target_surprisal_bits
    rest ← weighted_surprisals bodies
    if bits.infinite then ok rest else do
      value ← or_raise type_error bits.value
      cases ← of_int (pos body.evidence.task.case_count)
      ok (mul value cases ∷ rest)

  aggregate_surprisal : List (RunBody Float) → Result Float
  unfolding weighted_surprisals mean
  aggregate_surprisal bodies = do
    weighted ← weighted_surprisals bodies
    if any (λ body. body.measurements.mean_target_surprisal_bits.infinite) bodies
        then ok inf
        else mean weighted (case_total bodies)

  aggregate_information : List (RunBody Float) → Result (Option Float)
  unfolding all_values mean
  aggregate_information bodies =
      elim (all_values (map (λ body. body.measurements.information_value_bits) bodies)) [
        | none ↦ ok none
        | some values ↦ do value ← mean values (length bodies); ok (some value)
      ]

  reliability_of : List Float → Float → Result Float
  unfolding mean
  reliability_of task_rates kappa = do
    mean_rate ← mean task_rates (length task_rates)
    variability ← if leb 2 (length task_rates) then stdev task_rates else ok (literal "0.0")
    ok (sub mean_rate (mul kappa variability))

  -- `_candidate_aggregate`
  unfoldable pub candidate_aggregate :
      String → List (RunBody Float) → ArchivePolicy Float → Result (Metric Float)
  unfolding mean_behavior first_width aggregate_surprisal aggregate_information reliability_of
      run_costs
  candidate_aggregate candidate_id runs policy = do
    let rows = map (λ (body : RunBody Float). body.evidence.behavior_distribution) runs
    width ← first_width rows
    behavior ← mean_behavior rows (length runs) 0 width
    measured ← on_probability_error population_error (entropy P (floats P behavior) (base_two P))
    reliability ←
        reliability_of (map (λ (body : RunBody Float). body.measurements.task_rate) runs)
          policy.reliability_kappa
    information ← aggregate_information runs
    surprisal ← aggregate_surprisal runs
    rate ← int_div (passed_total runs) (case_total runs)
    ok (record {
      behavior_distribution = behavior;
      candidate_id = candidate_id;
      cost = run_costs runs;
      information_value_bits = information;
      mean_target_surprisal_bits = finite_or_infinite P surprisal;
      novelty_bits = record { infinite = false; value = some (literal "0.0") };
      reliability = reliability;
      replicate_count = length runs;
      survival_passed = all (λ body. body.measurements.survival_passed) runs;
      case_count = case_total runs;
      passed_count = passed_total runs;
      rate = rate;
    })
