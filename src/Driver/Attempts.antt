-- ===== src/Driver/Attempts.antt =====
-- apps/population_driver/machine.py and replay.py: the attempts of a round.
pub mod Appended
use metering.Prelude.{
  ℕ, zero, suc, ◌+◌, ◌*◌, ◌-◌, ◌/◌, Bool, true, false, ◌&&◌, ◌||◌, not, Option, none, some, List,
  [], ◌∷◌, map, length, any, all, leb, ltb, if◌then◌else◌, ◌==◌, filter, ◌++◌, String, str_eq,
  any_char, is_hex, subset, has_duplicate, count, contains, sort_by, text_lt, get_elem?, take, sum,
}
use metering.Prelude.Int.{ℤ, pos, negsuc}
use metering.Runtime.{
  Result, ok, raise, ◌>>=◌, ◌>>◌, require, refuse, traverse, or_raise, on_protocol_error,
  on_key_error, on_probability_error, Failure, protocol_error, population_error, request_error,
  driver_error, controller_error, selection_error, assay_error, value_error, key_error, type_error,
  index_error, Json, null, bool, int, float, str, surrogates, arr, obj, items, array, Platform,
  Decimals, Fields, Items, get, has_key, without, keys, end, field, nil, cons,
}
use metering.Runtime.Dict.{Dict, find, put, member}
use metering.AgentProtocol
use metering.AgentProtocol.{
  require_object, require_nonempty_array, item, is_text, get_is_text, require_exact_keys,
  require_utf8, require_nonempty_string, require_sha256, require_bool, require_timeout,
  require_schema_version, decode_command, canonical_digest, canonical_json, require_same_json,
  normalize_json_value, finite_number, probability,
}
use metering.AgentProtocol.Artifact.{
  Artifact, ArtifactFile, Candidate, default, git, skill, decode_candidate, candidate_record,
  candidate_json, normalized_path, find_file, file_before, decode_files, file_json,
}
use metering.Runtime.{equals}
use metering.Controller.Generations.{is_nonempty_text}

pub record Attempt (F : Type 0) : Type 0 where
  pub attempt_id : String
  pub ordinal : ℕ
  pub reason : Json F
  pub retry : Bool
  pub wall_reservation_seconds : ℕ

module _ {F : Type 0} where
  -- The document that names an attempt.
  unfoldable pub attempt_identity : String → ℕ → Json F → Json F
  attempt_identity intent_id ordinal reason = obj (
      field "intent_id" (str intent_id) (
        field "ordinal" (int (pos ordinal))
          (field "reason" reason (field "retry" (bool (ltb 1 ordinal)) end))))

  unfoldable pub attempt_json : Attempt F → Json F
  attempt_json attempt = obj (
      field "attempt_id" (str attempt.attempt_id) (
        field "ordinal" (int (pos attempt.ordinal)) (
          field "reason" attempt.reason (
            field "retry" (bool attempt.retry) (
              field "wall_reservation_seconds" (int (pos attempt.wall_reservation_seconds)) end)))))

  -- `value == n` of the integer type alone, and `value is b`
  pub is_ordinal : Option (Json F) → ℕ → Bool
  is_ordinal (some (int (pos m))) n = m == n
  is_ordinal other n = false

  pub is_flag : Option (Json F) → Bool → Bool
  is_flag (some (bool b)) c = if b then c else not c
  is_flag other c = false

  pub is_any_text : Option (Json F) → Bool
  is_any_text (some (str s)) = true
  is_any_text (some (surrogates cs)) = true
  is_any_text other = false

  -- `type(raw_attempt) is not dict or set(raw_attempt) != ATTEMPT_KEYS`
  pub attempt_fields : Json F → Result (Fields F)
  attempt_fields (obj d) = do
    let expected = "attempt_id" ∷ "ordinal" ∷ "reason" ∷ "retry" ∷ "wall_reservation_seconds" ∷ []
    require (subset expected (keys d) && subset (keys d) expected) driver_error
    ok d
  attempt_fields other = raise driver_error

module _ (P : Platform) where
  open P use {Float}

  unfoldable pub new_attempt : String → ℕ → String → ℕ → Result (Attempt Float)
  unfolding attempt_identity
  new_attempt intent_id ordinal reason controller_timeout = do
    attempt_id ← canonical_digest P (attempt_identity intent_id ordinal (str reason))
    ok (record {
      attempt_id = attempt_id;
      ordinal = ordinal;
      reason = str reason;
      retry = ltb 1 ordinal;
      wall_reservation_seconds = controller_timeout;
    })

  -- One turn of the loop.
  unfoldable pub validate_attempt : String → ℕ → ℕ → Json Float → Result (Attempt Float)
  unfolding attempt_identity is_ordinal is_flag is_any_text attempt_fields
  validate_attempt intent_id controller_timeout ordinal raw_attempt = do
    d ← attempt_fields raw_attempt
    require (is_ordinal (get "ordinal" d) ordinal) driver_error
    require (is_flag (get "retry" d) (ltb 1 ordinal)) driver_error
    reason ← item "reason" d
    require (is_nonempty_text reason && is_any_text (get "attempt_id" d)) driver_error
    wall ← item "wall_reservation_seconds" d
    require (equals P wall (int (pos controller_timeout))) driver_error
    expected_id ← canonical_digest P (attempt_identity intent_id ordinal reason)
    attempt_id ← item "attempt_id" d
    require (is_text attempt_id expected_id) driver_error
    ok (record {
      attempt_id = expected_id;
      ordinal = ordinal;
      reason = reason;
      retry = ltb 1 ordinal;
      wall_reservation_seconds = controller_timeout;
    })

  -- The loop, from an ordinal on.
  unfoldable pub validate_from : String → ℕ → ℕ → List (Json Float) → Result (List (Attempt Float))
  unfolding validate_attempt
  validate_from intent_id controller_timeout ordinal [] = ok []
  validate_from intent_id controller_timeout ordinal (raw_attempt ∷ raw_attempts) = do
    attempt ← validate_attempt intent_id controller_timeout ordinal raw_attempt
    attempts ← validate_from intent_id controller_timeout (suc ordinal) raw_attempts
    ok (attempt ∷ attempts)

  -- `_validate_attempts`
  unfoldable pub validate_attempts : String → ℕ → Json Float → Result (List (Attempt Float))
  unfolding validate_from
  validate_attempts intent_id controller_timeout (arr (cons v vs)) =
      validate_from intent_id controller_timeout 1 (v ∷ items vs)
  validate_attempts intent_id controller_timeout other = raise driver_error
