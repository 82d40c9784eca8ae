-- ===== src/Tests/Choices.antt =====
-- The theorems about archives and allocations at two aggregates and one draw.
use metering.Prelude.{
  all, ◌≡◌, ◌⊎◌, All, map, refl, arith, ◌≤◌, ◌*◌, ◌+◌, ℕ, true, false, List, [], ◌∷◌, length, any,
  any_char, contains, subset, filter, insert, sort_by, String,
}
use metering.Runtime.{traverse, items, ok, Json, get, keys, array}
use metering.Runtime.Dict.{find}
use metering.AgentProtocol.{
  require_object, item, require_exact_keys, require_sha256, require_same_json, normalize_json_value,
}
use mathlib.Core.List.{Memᴰ}
use metering.Population.Types.{
  PopulationState, Archive, Metric, Allocation, development, unevaluated, infeasible, dominated,
  over_capacity,
}
use metering.Population.Pareto.{dominates, internal_number, rank_before}
use metering.Population.Pareto.Order.{FloatOrder, dominates_trans, dominates_irrefl}
use metering.Population.Archives.{
  normalize_archive_body, objectives, group_runs, archive_from, frontier_of, is_dominated,
  select_ids, select_members, exclusion, exclusions,
}
use metering.Population.Archives.Frontier.{members_undominated}
use metering.Population.Archives.Partition.{IsPlaced, archive_partition}
use metering.Population.Archives.Groups.{normalize_archive_body-le-capacity}
use metering.Population.Allocations.{select_candidate, allocation_json, normalize_allocation_body}
use metering.Population.Allocations.Uniform.{
  IsCurrent, select_candidate_total, select_candidate_uniform, normalize_allocation_body-IsCurrent,
}
use metering.Information.{validated_base, distribution, validated_probability}
use metering.Information.Measures.{entropy}
use metering.Population.Evidence.{finite_or_infinite}
use metering.Population.Aggregate.{candidate_aggregate}
use metering.Population.State.{empty_state}
use metering.AgentProtocol.Artifact.{default}
use metering.Tests.Samples.{scored_run, costs, toy, aggregate, digest, other_digest}
use metering.Tests.Ledgers.{with_candidate}

pub toy_order : FloatOrder toy
toy_order = record { le_trans = λ a b c h k. ground arith; lt_le = λ a b. ground arith }

abbrev best : Metric ℕ
best = aggregate digest 3 4

abbrev middle : Metric ℕ
middle = aggregate other_digest 2 4

abbrev worst : Metric ℕ
worst = aggregate "worst" 1 4

dominates_trans_example : dominates toy best worst false ≡ true
unfolding dominates internal_number
dominates_trans_example =
    dominates_trans toy toy_order false best middle worst (omega arith) (omega arith) refl refl

dominates_irrefl_example : dominates toy best best false ≡ false
dominates_irrefl_example = dominates_irrefl toy toy_order false best

abbrev pair : List (Metric ℕ)
pair = best ∷ middle ∷ []

-- The candidate with one run of a development experiment.
abbrev evaluated : PopulationState ℕ
evaluated = record with_candidate {
  experiments =
      (
        digest,
        record {
          behavior_space = "tested" ∷ [];
          budget = costs 5;
          case_count = 1;
          evaluator_id = digest;
          information_objective = false;
          role = development;
          runtime_id = digest;
          task_set_id = digest;
        },
      )
      ∷ [];
  runs = scored_run ∷ [];
}

abbrev archive_of_run : Archive ℕ
unfolding objectives
archive_of_run = record {
  eligible_count = 1;
  evaluated_count = 1;
  excluded = [];
  experiment_id = digest;
  members = record (aggregate digest 1 1) { cost = costs 4; reliability = 1; rate = 1 } ∷ [];
  objectives = objectives false;
  policy = record { capacity = 2; reliability_kappa = 1 };
}

archived_run : normalize_archive_body toy digest evaluated ≡ ok archive_of_run
unfolding normalize_archive_body find traverse group_runs candidate_aggregate entropy validated_base
    distribution items array validated_probability filter any all archive_from sort_by contains
    empty_state objectives finite_or_infinite
archived_run = refl

normalize_archive_body-le-capacity_example : length archive_of_run.members ≤ 2
unfolding empty_state
normalize_archive_body-le-capacity_example =
    normalize_archive_body-le-capacity toy digest evaluated archived_run

-- Costs less than the others and passes less: on the frontier beside the best.
abbrev cheap : Metric ℕ
cheap = record (aggregate "cheap" 1 4) { cost = costs 0 }

abbrev three : List (Metric ℕ)
three = best ∷ middle ∷ cheap ∷ []

-- Five candidates, one without an aggregate, one with none that is viable, and room for one member.
abbrev crowded : PopulationState ℕ
crowded = record with_candidate {
  candidates =
      map (λ candidate_id. (candidate_id, record { artifact = default; candidate_id = digest }))
        ("worst" ∷ digest ∷ other_digest ∷ "cheap" ∷ "new" ∷ []);
  configuration = record with_candidate.configuration {
    archive_policy = record with_candidate.configuration.archive_policy { capacity = 1 };
  };
}

left_out :
    (archive_from toy digest false (worst ∷ three) three crowded).excluded
    ≡ ("cheap", over_capacity)
      ∷ (other_digest, dominated)
      ∷ ("new", unevaluated)
      ∷ ("worst", infeasible)
      ∷ []
unfolding archive_from empty_state sort_by insert filter any dominates contains internal_number
    select_ids select_members frontier_of is_dominated rank_before exclusions exclusion
left_out = refl

archive_partition_example :
    IsPlaced toy digest false
      (worst ∷ three)
      three
      crowded
      other_digest
      (find other_digest (archive_from toy digest false (worst ∷ three) three crowded).excluded)
archive_partition_example =
    archive_partition toy digest false (worst ∷ three) three crowded other_digest

best_is_member : Memᴰ best (archive_from toy digest false pair pair with_candidate).members
unfolding archive_from empty_state sort_by insert filter any dominates contains internal_number
    select_ids select_members frontier_of is_dominated rank_before
best_is_member = Memᴰ.head refl

members_undominated_example :
    Memᴰ best pair
    × All
        (λ other.
          (other.candidate_id ≡ best.candidate_id) ⊎ (dominates toy other best false ≡ false))
        pair
members_undominated_example =
    members_undominated toy digest false pair pair with_candidate best best_is_member

select_candidate_total_example :
    (selected : String) × (select_candidate
        (record { denominator = 4; numerator = 3 })
        ("a" ∷ "b" ∷ [])
      ≡ ok selected)
    × Memᴰ selected ("a" ∷ "b" ∷ [])
select_candidate_total_example =
    select_candidate_total (record { denominator = 4; numerator = 3 }) ("a" ∷ "b" ∷ [])
      (omega arith) (omega arith)

select_candidate_uniform_example :
    select_candidate (record { denominator = 3 * 2; numerator = 1 * 3 + 2 }) ("a" ∷ "b" ∷ [])
    ≡ ok "b"
select_candidate_uniform_example =
    select_candidate_uniform ("a" ∷ "b" ∷ []) 1 3 2 refl (omega arith) (omega arith)

-- A population with an archive, whose only member a draw selects.
abbrev archived : PopulationState ℕ
archived = record with_candidate {
  archives =
      (
        other_digest,
        record {
          eligible_count = 1;
          evaluated_count = 1;
          excluded = [];
          experiment_id = digest;
          members = best ∷ [];
          objectives = [];
          policy = record { capacity = 2; reliability_kappa = 1 };
        },
      )
      ∷ [];
  archive_sequences = (other_digest, 4) ∷ [];
  latest_archive_by_experiment = (digest, other_digest) ∷ [];
  last_run_sequence_by_experiment = (digest, 3) ∷ [];
}

abbrev allocation : Allocation
allocation = record {
  archive_record_id = other_digest;
  draw = record { denominator = 4; numerator = 3 };
  ordered_candidates = digest ∷ [];
  selected_candidate_id = digest;
}

abbrev allocation_document : Json ℕ
unfolding allocation_json
allocation_document = allocation_json allocation

allocated : normalize_allocation_body toy allocation_document archived ≡ ok allocation
unfolding normalize_allocation_body allocation_json require_object require_exact_keys subset keys
    item get require_sha256 any_char find sort_by normalize_json_value array require_same_json
allocated = refl

normalize_allocation_body-IsCurrent_example : IsCurrent archived allocation
normalize_allocation_body-IsCurrent_example =
    normalize_allocation_body-IsCurrent toy allocation_document archived allocated
