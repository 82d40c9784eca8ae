-- ===== src/Tests/Archived.antt =====
-- A ledger with a development run and the archive that is made of it.
use metering.Prelude.{
  ◌<◌, length, arith, ◌≡◌, refl, ℕ, false, List, [], ◌∷◌, any, any_char, contains, subset, filter,
}
use metering.Runtime.{ok, Fields, traverse, get, has_key, without, keys, items, array}
use metering.Runtime.Dict.{find, put, member}
use metering.AgentProtocol.{
  require_object, require_nonempty_array, item, is_text, get_is_text, require_exact_keys,
  require_utf8, require_nonempty_string, require_sha256, require_bool, canonical_json,
  canonical_digest, require_same_json, finite_number, probability, normalize_json_value,
}
use metering.AgentProtocol.Artifact.{decode_candidate, decode_agent_artifact, artifact_digest}
use metering.Journal.{content_record, validate_content_record}
use metering.Population.Schema.{
  configuration_json, normalize_configuration, is_int, in_texts, parent_ids, decode_variation,
  require_population_schema, nonnegative_integer, resources, positive_integer,
}
use metering.Population.Types.{PopulationState, head_id}
use metering.Population.Candidates.{normalize_candidate_body, require_known}
use metering.Population.State.{
  new_state, apply_record, empty_state, header_fields, apply_body, apply_candidate,
  apply_experiment, apply_run, checked_record_id, refuse_sealed,
}
use metering.Population.State.Ledger.{load_state, replay}
use metering.Population.State.Bounded.{IsBounded, load_state-IsBounded}
use metering.Population.Experiments.{experiment_digest, normalize_experiment_body, experiment_spec}
use metering.Population.Runs.{run_digest, normalize_run_body}
use metering.Population.Evidence.{
  run_evidence, decode_task, normalize_distribution, information_model, within,
}
use metering.Information.Measures.{self_information, entropy}
use metering.Information.{distribution, validated_base, validated_probability}
use metering.Tests.Samples.{toy, run_document, digest, costs, experiment_document}
use metering.Information.{validated_base}
use metering.Population.Archives.{normalize_archive_body, group_runs, archive_from, objectives}
use metering.Population.Aggregate.{candidate_aggregate}
use metering.Population.Evidence.{finite_or_infinite}
use metering.Population.Documents.{archive_json}
use metering.Population.Types.{Archive, development}
use metering.Population.State.{apply_archive}
use metering.Prelude.{all, sort_by}
use metering.Tests.Samples.{aggregate}
use metering.Population.State.Members.{loaded_archive_has_member}
use metering.Tests.Choices.{toy_order}
use metering.Tests.Ledgers.{entry, header, candidate_entry, after_run, final_experiment}

abbrev archive : Archive ℕ
unfolding objectives
archive = record {
  eligible_count = 1;
  evaluated_count = 1;
  excluded = [];
  experiment_id = digest;
  members = record (aggregate digest 1 1) { cost = costs 5; reliability = 1; rate = 1 } ∷ [];
  objectives = objectives false;
  policy = record { capacity = 2; reliability_kappa = 1 };
}

abbrev ledger : List (Fields ℕ)
unfolding archive_json objectives
ledger =
    header
    ∷ candidate_entry
    ∷ entry "experiment" 2 (experiment_document "development")
    ∷ entry "run" 3 (run_document "first")
    ∷ entry "archive" 4 (archive_json toy archive)
    ∷ []

abbrev archived : PopulationState ℕ
archived = record after_run {
  records = ledger;
  records_by_id = (digest, entry "archive" 4 (archive_json toy archive)) ∷ [];
  experiments = (digest, record final_experiment { role = development }) ∷ [];
  archives = (digest, archive) ∷ [];
  archive_sequences = (digest, 4) ∷ [];
  latest_archive_by_experiment = (digest, digest) ∷ [];
  final_evaluation_started = false;
  last_run_sequence_by_experiment = (digest, 3) ∷ [];
}

loaded : load_state toy ledger ≡ ok archived
unfolding load_state replay new_state require_exact_keys item get subset keys contains get_is_text
    require_population_schema is_int normalize_configuration require_object configuration_json
    content_record canonical_digest has_key header_fields require_same_json canonical_json
    require_utf8 empty_state apply_record checked_record_id head_id is_text validate_content_record
    any_char without refuse_sealed in_texts apply_body apply_candidate normalize_candidate_body
    decode_candidate require_sha256 require_nonempty_string parent_ids items array require_known
    decode_variation normalize_json_value member put find finite_number decode_agent_artifact
    artifact_digest apply_run normalize_run_body run_digest run_evidence resources
    nonnegative_integer decode_task traverse probability self_information validated_base
    validated_probability any normalize_distribution require_nonempty_array entropy distribution
    filter information_model require_bool within apply_experiment normalize_experiment_body
    experiment_spec positive_integer experiment_digest apply_archive normalize_archive_body
    group_runs candidate_aggregate all archive_from sort_by objectives finite_or_infinite
    archive_json
loaded = refl

load_state-IsBounded_example : IsBounded archived
load_state-IsBounded_example = load_state-IsBounded toy ledger loaded

made : normalize_archive_body toy digest archived ≡ ok archive
unfolding load_state replay new_state require_exact_keys item get subset keys contains get_is_text
    require_population_schema is_int normalize_configuration require_object configuration_json
    content_record canonical_digest has_key header_fields require_same_json canonical_json
    require_utf8 empty_state apply_record checked_record_id head_id is_text validate_content_record
    any_char without refuse_sealed in_texts apply_body apply_candidate normalize_candidate_body
    decode_candidate require_sha256 require_nonempty_string parent_ids items array require_known
    decode_variation normalize_json_value member put find finite_number decode_agent_artifact
    artifact_digest apply_run normalize_run_body run_digest run_evidence resources
    nonnegative_integer decode_task traverse probability self_information validated_base
    validated_probability any normalize_distribution require_nonempty_array entropy distribution
    filter information_model require_bool within apply_experiment normalize_experiment_body
    experiment_spec positive_integer experiment_digest apply_archive normalize_archive_body
    group_runs candidate_aggregate all archive_from sort_by objectives finite_or_infinite
    archive_json
made = refl

loaded_archive_has_member_example : 0 < length archive.members
unfolding objectives
loaded_archive_has_member_example =
    loaded_archive_has_member toy toy_order ledger digest loaded made (omega arith)
