-- ===== src/Population/Experiments.antt =====
-- apps/population/population_protocol.py: experiments.
use metering.Prelude.{List, [], ◌∷◌, map, if◌then◌else◌, String, str_eq, contains}
use metering.Prelude.Int.{pos}
use metering.Runtime.{
  Result, ok, ◌>>=◌, ◌>>◌, require, refuse, on_protocol_error, protocol_error, request_error, Json,
  bool, int, str, arr, obj, array, Platform, Fields, end, field,
}
use metering.AgentProtocol.{
  require_object, require_nonempty_array, item, is_text, require_exact_keys,
  require_nonempty_string, require_sha256, require_bool, canonical_digest,
}
use metering.Population.Types.{Experiment, ExperimentBody, Role, development, final}
use metering.Population.Schema.{
  positive_integer, resources, resources_json, require_population_schema, in_texts,
}

unfoldable pub role_text : Role → String
role_text development = "development"
role_text final = "final"

module _ {F : Type 0} where
  decode_role : Json F → Result Role
  decode_role value = do
    known ← in_texts value ("development" ∷ "final" ∷ [])
    require known protocol_error
    ok (if is_text value "final" then final else development)

  -- The loop over `behavior_space`, with `seen`.
  unfoldable pub distinct_labels : List String → List (Json F) → Result (List String)
  distinct_labels seen [] = ok []
  distinct_labels seen (value ∷ values) = do
    label ← require_nonempty_string value
    refuse (contains label seen) protocol_error
    labels ← distinct_labels (label ∷ seen) values
    ok (label ∷ labels)

  -- `_experiment_spec`
  unfoldable pub experiment_spec : Json F → Result Experiment
  unfolding decode_role distinct_labels
  experiment_spec value = do
    d ← require_object value
    require_exact_keys d (
        "behavior_space" ∷ "budget" ∷ "case_count" ∷ "evaluator_id" ∷ "information_objective"
        ∷ "role" ∷ "runtime_id" ∷ "task_set_id" ∷ [])
    role ← item "role" d >>= decode_role
    raw_space ← item "behavior_space" d >>= require_nonempty_array
    behavior_space ← distinct_labels [] raw_space
    budget ← item "budget" d >>= resources positive_integer
    case_count ← item "case_count" d >>= positive_integer
    evaluator_id ← item "evaluator_id" d >>= require_sha256
    information_objective ← item "information_objective" d >>= require_bool
    runtime_id ← item "runtime_id" d >>= require_sha256
    task_set_id ← item "task_set_id" d >>= require_sha256
    ok (record {
      behavior_space = behavior_space;
      budget = budget;
      case_count = case_count;
      evaluator_id = evaluator_id;
      information_objective = information_objective;
      role = role;
      runtime_id = runtime_id;
      task_set_id = task_set_id;
    })

  unfoldable pub experiment_json : Experiment → Json F
  unfolding role_text
  experiment_json e = obj (
      field "behavior_space" (arr (array (map str e.behavior_space))) (
        field "budget" (resources_json e.budget) (
          field "case_count" (int (pos e.case_count)) (
            field "evaluator_id" (str e.evaluator_id) (
              field "information_objective" (bool e.information_objective) (
                field "role" (str (role_text e.role)) (
                  field "runtime_id" (str e.runtime_id)
                    (field "task_set_id" (str e.task_set_id) end))))))))

  unfoldable pub experiment_body_json : ExperimentBody → Json F
  experiment_body_json body = obj (
      field "experiment" (experiment_json body.experiment)
        (field "experiment_id" (str body.experiment_id) end))

module _ (P : Platform) where
  open P use {Float}

  -- `canonical_digest({"experiment": ..., "experiment_schema": EXPERIMENT_SCHEMA})`
  unfoldable pub experiment_digest : Experiment → Result String
  experiment_digest experiment = canonical_digest P (
      obj (
        field "experiment" (experiment_json experiment)
          (field "experiment_schema" (str "population-experiment-v1") end)))

  -- `_experiment_body`
  unfoldable pub normalize_experiment_body : Json Float → Result ExperimentBody
  normalize_experiment_body value = do
    d ← require_object value
    require_exact_keys d ("experiment" ∷ "experiment_id" ∷ [])
    experiment ← item "experiment" d >>= experiment_spec
    experiment_id ← experiment_digest experiment
    supplied ← item "experiment_id" d >>= require_sha256
    require (str_eq supplied experiment_id) protocol_error
    ok (record { experiment = experiment; experiment_id = experiment_id })

  unfoldable pub decode_experiment_request : Fields Float → Result ExperimentBody
  unfolding normalize_experiment_body experiment_body_json
  decode_experiment_request d = on_protocol_error request_error (do
    require_exact_keys d ("experiment" ∷ "schema_version" ∷ [])
    item "schema_version" d >>= require_population_schema
    experiment ← item "experiment" d >>= experiment_spec
    experiment_id ← experiment_digest experiment
    normalize_experiment_body
        (experiment_body_json (record { experiment = experiment; experiment_id = experiment_id })))
