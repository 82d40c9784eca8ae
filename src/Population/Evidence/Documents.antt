-- ===== src/Population/Evidence/Documents.antt =====
-- The documents of a run's evidence and measurements, as population_protocol.py builds them.
use metering.Prelude.{Option, none, some, List, map}
use metering.Prelude.Int.{pos}
use metering.Runtime.{Json, null, bool, int, float, str, arr, obj, array, end, field}
use metering.Population.Types.{
  Bits, Outcome, InformationModel, Task, Evidence, Measurements, RunBody,
}
use metering.Population.Schema.{resources_json}

module _ {F : Type 0} where
  abbrev pub floats_json : List F → Json F
  floats_json xs = arr (array (map float xs))

  abbrev pub optional_json : Option F → Json F
  optional_json none = null
  optional_json (some x) = float x

  abbrev pub bits_json : Bits F → Json F
  bits_json bits =
      obj (field "infinite" (bool bits.infinite) (field "value" (optional_json bits.value) end))

  outcome_json : Outcome F → Json F
  outcome_json outcome = obj (
      field "posterior" (floats_json outcome.posterior)
        (field "probability" (float outcome.probability) end))

  information_model_json : Option (InformationModel F) → Json F
  information_model_json none = null
  information_model_json (some model) = obj (
      field "outcomes" (arr (array (map outcome_json model.outcomes)))
        (field "prior" (floats_json model.prior) end))

  task_json : Task → Json F
  task_json task = obj (
      field "case_count" (int (pos task.case_count)) (
        field "passed_count" (int (pos task.passed_count))
          (field "safety_failures" (int (pos task.safety_failures)) end)))

  unfoldable pub evidence_json : Evidence F → Json F
  unfolding outcome_json information_model_json task_json
  evidence_json e = obj (
      field "behavior_distribution" (floats_json e.behavior_distribution) (
        field "cost" (resources_json e.cost) (
          field "evidence_receipt"
            (obj (field "sha256" (str e.receipt_sha256) (field "uri" (str e.receipt_uri) end)))
            (field "information_model" (information_model_json e.information_model) (
              field "protected_passed" (bool e.protected_passed) (
                field "target_probabilities" (floats_json e.target_probabilities)
                  (field "task" (task_json e.task) end)))))))

  unfoldable pub measurements_json : Measurements F → Json F
  measurements_json m = obj (
      field "budget_passed" (bool m.budget_passed) (
        field "information_value_bits" (optional_json m.information_value_bits) (
          field "mean_target_surprisal_bits" (bits_json m.mean_target_surprisal_bits) (
            field "survival_passed" (bool m.survival_passed)
              (field "task_rate" (float m.task_rate) end)))))

  unfoldable pub run_body_json : RunBody F → Json F
  run_body_json body = obj (
      field "evidence" (evidence_json body.evidence) (
        field "measurements" (measurements_json body.measurements) (
          field "run"
            (obj (
              field "candidate_id" (str body.run.candidate_id) (
                field "experiment_id" (str body.run.experiment_id) (
                  field "replicate_id" (str body.run.replicate_id)
                    (field "run_id" (str body.run.run_id) (field "seed" body.run.seed end))))))
            end)))
