-- ===== src/Population/State.antt =====
-- apps/population/population_state.py: the records of the ledger, their effect on the state, and replay.
-- A state that an exception leaves half changed is dropped by every caller, so an operation returns the
-- new state or the exception.
pub mod Ledger
pub mod Effects
pub mod Invariants
pub mod Lineage
pub mod Bounded
pub mod Scores
pub mod Registered
pub mod Members
pub mod Seal
pub mod Replay
use metering.Prelude.{
  ℕ, zero, suc, ◌+◌, ◌*◌, ◌-◌, ◌/◌, Bool, true, false, ◌&&◌, ◌||◌, not, Option, none, some, List,
  [], ◌∷◌, map, length, any, all, leb, ltb, if◌then◌else◌, ◌==◌, filter, ◌++◌, String, str_eq,
  any_char, is_hex, subset, count, contains, sort_by, text_lt, get_elem?, take, sum,
}
use metering.Prelude.Int.{ℤ, pos, negsuc}
use metering.Runtime.{
  Result, ok, raise, ◌>>=◌, ◌>>◌, require, refuse, traverse, or_raise, on_protocol_error,
  on_key_error, on_probability_error, Failure, protocol_error, population_error, request_error,
  value_error, key_error, type_error, index_error, Json, null, bool, int, float, str, surrogates,
  arr, obj, items, array, Platform, Fields, Items, get, has_key, without, keys, end, field, nil,
  cons,
}
use metering.Runtime.Dict.{Dict, find, put, member}
use metering.AgentProtocol
use metering.AgentProtocol.{
  require_object, require_nonempty_array, item, is_text, get_is_text, require_exact_keys,
  require_utf8, require_nonempty_string, require_sha256, require_bool, canonical_digest,
  canonical_json, require_same_json, normalize_json_value, finite_number, probability,
}
use metering.AgentProtocol.Artifact.{
  Artifact, ArtifactFile, Candidate, default, git, skill, decode_candidate, candidate_record,
  candidate_json, normalized_path, find_file, file_before, decode_files, file_json,
}
use metering.Journal.{content_record, validate_content_record}
use metering.Population.Types.{
  PopulationState, Configuration, CandidateBody, ExperimentBody, RunBody, Archive, Allocation, Role,
  development, final, head_id,
}
use metering.Population.Schema.{
  is_int, in_texts, require_population_schema, normalize_configuration, configuration_json,
}
use metering.Population.Candidates.{normalize_candidate_body, candidate_body_json}
use metering.Population.Experiments.{normalize_experiment_body, experiment_body_json}
use metering.Population.Runs.{normalize_run_body}
use metering.Population.Evidence.Documents.{run_body_json}
use metering.Population.Archives.{normalize_archive_body, is_development}
use metering.Population.Allocations.{normalize_allocation_body, allocation_json}
use metering.Population.Documents.{archive_json}

-- `(candidate_id, experiment_id, replicate_id)`
abbrev pub RunKey : Type 0
RunKey = String × String × String

abbrev key_eq : RunKey → RunKey → Bool
key_eq a b = str_eq a.0 b.0 && str_eq a.1 b.1 && str_eq a.2 b.2

unfoldable pub has_run_key : RunKey → List RunKey → Bool
has_run_key k [] = false
has_run_key k (j ∷ js) = key_eq j k || has_run_key k js

abbrev pub is_final : Role → Bool
is_final role = not (is_development role)

-- The kinds that a sealed search refuses.
abbrev pub search_kinds : List String
search_kinds = "allocation" ∷ "archive" ∷ "candidate" ∷ "experiment" ∷ []

module _ (P : Platform) where
  open P use {Float}

  unfoldable pub empty_state : Configuration Float → Fields Float → String → PopulationState Float
  empty_state configuration header record_id = record {
    configuration = configuration;
    records = header ∷ [];
    records_by_id = (record_id, header) ∷ [];
    candidates = [];
    candidate_record_ids = [];
    candidate_parents = [];
    experiments = [];
    experiment_record_ids = [];
    runs = [];
    run_record_ids = [];
    run_keys = [];
    archives = [];
    archive_sequences = [];
    latest_archive_by_experiment = [];
    allocations = [];
    final_evaluation_started = false;
    last_run_sequence_by_experiment = [];
  }

  unfoldable pub header_fields : Configuration Float → Fields Float
  header_fields configuration = field "configuration" (configuration_json P configuration) (
      field "kind" (str "population")
        (field "schema_version" (int (pos 1)) (field "sequence" (int (pos 0)) end)))

  -- `_new_state`
  unfoldable pub new_state : Fields Float → Result (PopulationState Float)
  unfolding header_fields empty_state
  new_state header = do
    require_exact_keys header
        ("configuration" ∷ "kind" ∷ "record_id" ∷ "schema_version" ∷ "sequence" ∷ [])
    require (get_is_text "kind" header "population") protocol_error
    item "schema_version" header >>= require_population_schema
    sequence ← item "sequence" header
    require (is_int sequence 0) protocol_error
    configuration ← item "configuration" header >>= normalize_configuration P
    normalized ← content_record P (header_fields configuration) population_error
    require_same_json P (obj header) (obj normalized) protocol_error
    record_id ← item "record_id" header >>= require_utf8
    ok (empty_state configuration header record_id)

  unfoldable pub apply_candidate :
      PopulationState Float → String → Json Float → Result (PopulationState Float × Json Float)
  apply_candidate state record_id body = do
    normalized ← normalize_candidate_body P body state
    let candidate_id = normalized.candidate.candidate_id
    refuse (member candidate_id state.candidates) population_error
    ok (
      record state {
        candidates = put candidate_id normalized.candidate state.candidates;
        candidate_record_ids = put candidate_id record_id state.candidate_record_ids;
        candidate_parents = put candidate_id normalized.parents state.candidate_parents;
      },
      candidate_body_json P normalized,
    )

  unfoldable pub apply_experiment :
      PopulationState Float → String → Json Float → Result (PopulationState Float × Json Float)
  apply_experiment state record_id body = do
    normalized ← normalize_experiment_body P body
    refuse (member normalized.experiment_id state.experiments) population_error
    ok (
      record state {
        experiments = put normalized.experiment_id normalized.experiment state.experiments;
        experiment_record_ids = put normalized.experiment_id record_id state.experiment_record_ids;
      },
      experiment_body_json normalized,
    )

  unfoldable pub apply_run :
      PopulationState Float → String → Json Float → ℕ → Result (PopulationState Float × Json Float)
  unfolding has_run_key
  apply_run state record_id body index = do
    normalized ← normalize_run_body P body state
    let run = normalized.run
    let key : RunKey = (run.candidate_id, run.experiment_id, run.replicate_id)
    refuse (has_run_key key state.run_keys) population_error
    refuse (member run.run_id state.run_record_ids) population_error
    experiment ← or_raise key_error (find run.experiment_id state.experiments)
    refuse (state.final_evaluation_started && not (is_final experiment.role)) population_error
    ok (
      record state {
        run_keys = key ∷ state.run_keys;
        runs = state.runs ++ normalized ∷ [];
        run_record_ids = put run.run_id record_id state.run_record_ids;
        last_run_sequence_by_experiment =
            put run.experiment_id index state.last_run_sequence_by_experiment;
        final_evaluation_started = is_final experiment.role || state.final_evaluation_started;
      },
      run_body_json normalized,
    )

  unfoldable pub apply_archive :
      PopulationState Float → String → Json Float → ℕ → Result (PopulationState Float × Json Float)
  apply_archive state record_id body index = do
    d ← require_object body
    require (has_key "experiment_id" d) protocol_error
    experiment_id ← item "experiment_id" d >>= require_sha256
    normalized ← normalize_archive_body P experiment_id state
    require_same_json P body (archive_json P normalized) population_error
    ok (
      record state {
        archives = put record_id normalized state.archives;
        archive_sequences = put record_id index state.archive_sequences;
        latest_archive_by_experiment =
            put experiment_id record_id state.latest_archive_by_experiment;
      },
      archive_json P normalized,
    )

  unfoldable pub apply_allocation :
      PopulationState Float → String → Json Float → Result (PopulationState Float × Json Float)
  apply_allocation state record_id body = do
    normalized ← normalize_allocation_body P body state
    ok (
      record state { allocations = state.allocations ++ (record_id, normalized) ∷ [] },
      allocation_json normalized,
    )

  -- The branches on `kind`: the new state, and the normalized body.
  unfoldable pub apply_body :
      PopulationState Float
      → String
      → Json Float
      → Json Float
      → ℕ
      → Result (PopulationState Float × Json Float)
  apply_body state record_id kind body index =
      if is_text kind "candidate"
      then apply_candidate state record_id body
      else if is_text kind "experiment"
      then apply_experiment state record_id body
      else if is_text kind "run"
      then apply_run state record_id body index
      else if is_text kind "archive"
      then apply_archive state record_id body index
      else if is_text kind "allocation"
      then apply_allocation state record_id body
      else raise protocol_error

  -- `state.final_evaluation_started and kind in {...}`, where the set is asked only of a sealed search.
  unfoldable pub refuse_sealed : PopulationState Float → Json Float → Result (Unit {0})
  refuse_sealed state kind =
      if state.final_evaluation_started
      then in_texts kind search_kinds >>= (λ searching. refuse searching population_error)
      else ok tt

  -- The checks of `_apply_record` before it looks at the kind; the identity of the record.
  unfoldable pub checked_record_id : PopulationState Float → Fields Float → ℕ → Result String
  checked_record_id state r index = do
    require_exact_keys r
        ("body" ∷ "kind" ∷ "parent_record_id" ∷ "record_id" ∷ "schema_version" ∷ "sequence" ∷ [])
    item "schema_version" r >>= require_population_schema
    sequence ← item "sequence" r
    require (is_int sequence index) population_error
    parent_record_id ← item "parent_record_id" r
    head ← head_id state
    require (is_text parent_record_id head) population_error
    validate_content_record P r population_error

  -- `_apply_record`
  unfoldable pub apply_record :
      PopulationState Float → Fields Float → ℕ → Result (PopulationState Float)
  apply_record state r index = do
    record_id ← checked_record_id state r index
    kind ← item "kind" r
    body ← item "body" r
    refuse_sealed state kind
    applied ← apply_body state record_id kind body index
    require_same_json P body applied.1 protocol_error
    let state' = applied.0
    ok (record state' {
      records = state'.records ++ r ∷ [];
      records_by_id = put record_id r state'.records_by_id;
    })
