-- ===== src/Population/Runs.antt =====
-- apps/population/population_protocol.py: run bodies and run requests.
use metering.Prelude.{[], ◌∷◌, String, str_eq}
use metering.Runtime.{
  Result, ok, ◌>>=◌, ◌>>◌, require, or_raise, on_protocol_error, protocol_error, population_error,
  request_error, Json, str, obj, Platform, Fields, end, field,
}
use metering.Runtime.Dict.{find, member}
use metering.AgentProtocol.{
  require_object, item, require_exact_keys, require_nonempty_string, require_sha256,
  canonical_digest, require_same_json, normalize_json_value,
}
use metering.Population.Types.{RunBody, PopulationState}
use metering.Population.Schema.{require_population_schema}
use metering.Population.Evidence.{run_evidence}
use metering.Population.Evidence.Documents.{measurements_json, run_body_json}

module _ (P : Platform) where
  open P use {Float}

  -- `canonical_digest` of the identity of a run
  unfoldable pub run_digest : String → String → String → Result String
  run_digest candidate_id experiment_id replicate_id = canonical_digest P (
      obj (
        field "candidate_id" (str candidate_id) (
          field "experiment_id" (str experiment_id) (
            field "replicate_id" (str replicate_id)
              (field "run_schema" (str "population-run-v1") end)))))

  -- `_run_body`
  unfoldable pub normalize_run_body : Json Float → PopulationState Float → Result (RunBody Float)
  normalize_run_body value state = do
    d ← require_object value
    require_exact_keys d ("evidence" ∷ "measurements" ∷ "run" ∷ [])
    run ← item "run" d >>= require_object
    require_exact_keys run
        ("candidate_id" ∷ "experiment_id" ∷ "replicate_id" ∷ "run_id" ∷ "seed" ∷ [])
    candidate_id ← item "candidate_id" run >>= require_sha256
    experiment_id ← item "experiment_id" run >>= require_sha256
    require (member candidate_id state.candidates) population_error
    experiment ← or_raise population_error (find experiment_id state.experiments)
    replicate_id ← item "replicate_id" run >>= require_nonempty_string
    run_seed ← item "seed" run >>= normalize_json_value P
    expected_id ← run_digest candidate_id experiment_id replicate_id
    supplied_id ← item "run_id" run >>= require_sha256
    require (str_eq supplied_id expected_id) protocol_error
    raw_evidence ← item "evidence" d
    checked ← run_evidence P raw_evidence experiment
    measurements ← item "measurements" d >>= normalize_json_value P
    require_same_json P measurements (measurements_json checked.1) protocol_error
    ok (record {
      evidence = checked.0;
      measurements = checked.1;
      run = record {
        candidate_id = candidate_id;
        experiment_id = experiment_id;
        replicate_id = replicate_id;
        run_id = expected_id;
        seed = run_seed;
      };
    })

  unfoldable pub decode_run_request : Fields Float → PopulationState Float → Result (RunBody Float)
  unfolding normalize_run_body run_body_json
  decode_run_request d state = on_protocol_error request_error (do
    require_exact_keys d (
        "candidate_id" ∷ "evidence" ∷ "experiment_id" ∷ "replicate_id" ∷ "schema_version" ∷ "seed"
        ∷ [])
    item "schema_version" d >>= require_population_schema
    candidate_id ← item "candidate_id" d >>= require_sha256
    experiment_id ← item "experiment_id" d >>= require_sha256
    replicate_id ← item "replicate_id" d >>= require_nonempty_string
    run_seed ← item "seed" d >>= normalize_json_value P
    experiment ← or_raise population_error (find experiment_id state.experiments)
    raw_evidence ← item "evidence" d
    checked ← run_evidence P raw_evidence experiment
    run_id ← run_digest candidate_id experiment_id replicate_id
    normalize_run_body
        (run_body_json (record {
          evidence = checked.0;
          measurements = checked.1;
          run = record {
            candidate_id = candidate_id;
            experiment_id = experiment_id;
            replicate_id = replicate_id;
            run_id = run_id;
            seed = run_seed;
          };
        }))
        state)
