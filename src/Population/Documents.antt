-- ===== src/Population/Documents.antt =====
-- The documents of an archive, as population_policy.py builds them.
use metering.Prelude.{map, String}
use metering.Prelude.Int.{pos}
use metering.Runtime.{Json, bool, int, float, str, arr, obj, array, Platform, end, field}
use metering.Population.Types.{
  Metric, Archive, Reason, unevaluated, infeasible, dominated, over_capacity,
}
use metering.Population.Schema.{resources_json, archive_policy_json}
use metering.Population.Evidence.Documents.{floats_json, optional_json, bits_json}

reason_text : Reason → String
reason_text unevaluated = "unevaluated"
reason_text infeasible = "infeasible"
reason_text dominated = "dominated"
reason_text over_capacity = "capacity"

module _ {F : Type 0} where
  metric_json : Metric F → Json F
  metric_json m = obj (
      field "behavior_distribution" (floats_json m.behavior_distribution) (
        field "candidate_id" (str m.candidate_id) (
          field "cost" (resources_json m.cost) (
            field "information_value_bits" (optional_json m.information_value_bits) (
              field "mean_target_surprisal_bits" (bits_json m.mean_target_surprisal_bits) (
                field "novelty_bits" (bits_json m.novelty_bits) (
                  field "reliability" (float m.reliability) (
                    field "replicate_count" (int (pos m.replicate_count)) (
                      field "survival_passed" (bool m.survival_passed) (
                        field "task"
                          (obj (
                            field "case_count" (int (pos m.case_count)) (
                              field "passed_count" (int (pos m.passed_count))
                                (field "rate" (float m.rate) end))))
                          end))))))))))

  excluded_json : String × Reason → Json F
  unfolding reason_text
  excluded_json (candidate_id, reason) =
      obj (field "candidate_id" (str candidate_id) (field "reason" (str (reason_text reason)) end))

  objective_json : String × String → Json F
  objective_json (direction, name) =
      obj (field "direction" (str direction) (field "name" (str name) end))

module _ (P : Platform) where
  open P use {Float}

  unfoldable pub archive_json : Archive Float → Json Float
  unfolding metric_json excluded_json objective_json
  archive_json a = obj (
      field "eligible_count" (int (pos a.eligible_count)) (
        field "evaluated_count" (int (pos a.evaluated_count)) (
          field "excluded" (arr (array (map excluded_json a.excluded))) (
            field "experiment_id" (str a.experiment_id) (
              field "members" (arr (array (map metric_json a.members))) (
                field "objectives" (arr (array (map objective_json a.objectives)))
                  (field "policy" (archive_policy_json P a.policy) end)))))))
