-- ===== src/Driver/Ingestion.antt =====
-- apps/population_driver/machine.py: the ingestion of one population record, which a resumed driver repeats.
pub mod Repeated
use metering.Prelude.{
  ℕ, zero, suc, ◌+◌, ◌*◌, ◌-◌, ◌/◌, Bool, true, false, ◌&&◌, ◌||◌, not, Option, none, some, List,
  [], ◌∷◌, map, length, any, all, leb, ltb, if◌then◌else◌, ◌==◌, filter, ◌++◌, String, str_eq,
  any_char, is_hex, subset, has_duplicate, count, contains, sort_by, text_lt, get_elem?, take, sum,
}
use metering.Prelude.Int.{ℤ, pos, negsuc}
use metering.Runtime.{
  Result, ok, raise, ◌>>=◌, ◌>>◌, require, refuse, traverse, or_raise, on_protocol_error,
  on_key_error, on_probability_error, Failure, protocol_error, population_error, request_error,
  driver_error, controller_error, selection_error, assay_error, value_error, key_error, type_error,
  index_error, Json, null, bool, int, float, str, surrogates, arr, obj, items, array, Platform,
  Decimals, Fields, Items, get, has_key, without, keys, end, field, nil, cons,
}
use metering.Runtime.Dict.{Dict, find, put, member}
use metering.AgentProtocol
use metering.AgentProtocol.{
  require_object, require_nonempty_array, item, is_text, get_is_text, require_exact_keys,
  require_utf8, require_nonempty_string, require_sha256, require_bool, require_timeout,
  require_schema_version, decode_command, canonical_digest, canonical_json, require_same_json,
  normalize_json_value, finite_number, probability,
}
use metering.AgentProtocol.Artifact.{
  Artifact, ArtifactFile, Candidate, default, git, skill, decode_candidate, candidate_record,
  candidate_json, normalized_path, find_file, file_before, decode_files, file_json,
}
use metering.Population.Types.{PopulationState}
use metering.Population.State.Ledger.{append_validated_record}
use metering.Controller.Generations.{get_or_null}

-- A population: the replayed state, and the records of its file.
pub record Population (F : Type 0) : Type 0 where
  pub ledger : List (Fields F)
  pub state : PopulationState F

-- What `ensure_population_record` returns, with the population that it leaves.
pub record Ensured (F : Type 0) : Type 0 where
  pub record_fields : Fields F
  pub next_sequence : ℕ
  pub population : Population F

-- `except PopulationError as exc: raise PopulationDriverError(...)`
abbrev pub on_population_error {ℓ} : {A : Type ℓ} → Result A → Result A
on_population_error (raise population_error) = raise driver_error
on_population_error other = other

module _ (P : Platform) where
  open P use {Float}

  -- The check of a record that is there: its kind, and its body as canonical JSON.
  unfoldable pub check_existing : Fields Float → String → Json Float → Result (Unit {0})
  unfolding get_or_null
  check_existing r kind body =
      if get_is_text "kind" r kind
      then require_same_json P (get_or_null "body" r) body driver_error
      else raise driver_error

  -- `state.records[-1]`
  unfoldable pub last_record : List (Fields Float) → Result (Fields Float)
  last_record [] = raise index_error
  last_record (r ∷ []) = ok r
  last_record (r ∷ s ∷ records) = last_record (s ∷ records)

  -- With the record at the sequence, if there is one. `written` says whether a write of the file succeeds.
  unfoldable pub ensure_at :
      Option (Fields Float)
      → Population Float
      → Bool
      → ℕ
      → String
      → Json Float
      → Result (Ensured Float)
  unfolding check_existing last_record
  ensure_at (some r) population written sequence kind body = do
    check_existing r kind body
    ok (record { record_fields = r; next_sequence = sequence + 1; population = population })
  ensure_at none population written sequence kind body = do
    require (length population.state.records == sequence) driver_error
    appended ←
        on_population_error
          (append_validated_record P population.ledger written population.state kind body)
    r ← last_record appended.0.records
    ok (record {
      record_fields = r;
      next_sequence = sequence + 1;
      population = record { ledger = appended.1; state = appended.0 };
    })

  unfoldable pub ensure_population_record :
      Population Float → Bool → ℕ → String → Json Float → Result (Ensured Float)
  unfolding ensure_at
  ensure_population_record population written sequence kind body =
      ensure_at (get_elem? population.state.records sequence) population written sequence kind body
