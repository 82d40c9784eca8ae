-- ===== src/Driver/Chain.antt =====
-- apps/population_driver/population_driver_state.py and replay.py: the chain of the driver's records, and
-- whether a pending round is still open.
pub mod Links
pub mod Committed
use metering.Prelude.{
  true, false, ℕ, zero, suc, ◌+◌, ◌*◌, ◌-◌, ◌/◌, Bool, true, false, ◌&&◌, ◌||◌, not, Option, none,
  some, List, [], ◌∷◌, map, length, any, all, leb, ltb, if◌then◌else◌, ◌==◌, filter, ◌++◌, String,
  str_eq, any_char, is_hex, subset, has_duplicate, count, contains, sort_by, text_lt, get_elem?,
  take, sum,
}
use metering.Prelude.Int.{ℤ, pos, negsuc}
use metering.Runtime.{
  Result, ok, raise, ◌>>=◌, ◌>>◌, require, refuse, traverse, or_raise, on_protocol_error,
  on_key_error, on_probability_error, Failure, protocol_error, population_error, request_error,
  driver_error, controller_error, selection_error, assay_error, value_error, key_error, type_error,
  index_error, Json, null, bool, int, float, str, surrogates, arr, obj, items, array, Platform,
  Decimals, Fields, Items, get, has_key, without, keys, end, field, nil, cons,
}
use metering.Runtime.Dict.{Dict, find, put, member}
use metering.AgentProtocol
use metering.AgentProtocol.{
  require_object, require_nonempty_array, item, is_text, get_is_text, require_exact_keys,
  require_utf8, require_nonempty_string, require_sha256, require_bool, require_timeout,
  require_schema_version, decode_command, canonical_digest, canonical_json, require_same_json,
  normalize_json_value, finite_number, probability,
}
use metering.AgentProtocol.Artifact.{
  Artifact, ArtifactFile, Candidate, default, git, skill, decode_candidate, candidate_record,
  candidate_json, normalized_path, find_file, file_before, decode_files, file_json,
}
use metering.Runtime.{equals}
use metering.Controller.Generations.{get_or_null}

-- `"population-driver" if sequence == 0 else "round"`
unfoldable pub kind_at : ℕ → String
kind_at zero = "population-driver"
kind_at (suc n) = "round"

-- What `_classify_pending` returns: the active intent, or a checkpoint that is committed.
pub data Classified (F : Type 0) : Type 0 where
  nothing_pending : Classified F
  active : Fields F → Classified F
  committed : Fields F → Classified F

module _ {F : Type 0} where
  -- The integer `n`, which no boolean is.
  unfoldable pub is_integer : Option (Json F) → ℕ → Bool
  is_integer (some (int (pos m))) n = m == n
  is_integer other n = false

  -- `str(value)` of a text, which the journal has checked that an identity is.
  unfoldable pub text_of : Json F → Result String
  text_of (str s) = ok s
  text_of other = raise type_error

  -- A round number of a pending round that is an integer.
  unfoldable pub integer_of : Json F → Option ℤ
  integer_of (int n) = some n
  integer_of other = none

module _ (P : Platform) where
  open P use {Float}

  -- `record.get("parent_record_id") != previous`, which is `None` before the first record
  unfoldable pub has_previous : Option String → Fields Float → Bool
  unfolding get_or_null
  has_previous none d = equals P (get_or_null "parent_record_id" d) null
  has_previous (some previous) d = equals P (get_or_null "parent_record_id" d) (str previous)

  -- The checks of one record, and its identity, the next `previous`.
  unfoldable pub validate_link : ℕ → Option String → Fields Float → Result String
  unfolding is_integer kind_at has_previous text_of
  validate_link sequence previous record_fields = do
    require (is_integer (get "schema_version" record_fields) 1) driver_error
    require (get_is_text "kind" record_fields (kind_at sequence)) driver_error
    require (is_integer (get "sequence" record_fields) sequence) driver_error
    require (has_previous previous record_fields) driver_error
    value ← item "record_id" record_fields
    text_of value

  -- The loop, from a sequence and a previous identity on.
  unfoldable pub validate_chain_from : ℕ → Option String → List (Fields Float) → Result (Unit {0})
  unfolding validate_link
  validate_chain_from sequence previous [] = ok tt
  validate_chain_from sequence previous (record_fields ∷ records) = do
    identity ← validate_link sequence previous record_fields
    validate_chain_from (suc sequence) (some identity) records

  unfoldable pub validate_record_chain : List (Fields Float) → Result (Unit {0})
  unfolding validate_chain_from
  validate_record_chain records = validate_chain_from 0 none records

  -- Whether the completed record has the intent of the pending round.
  unfoldable pub classify_completed : Bool → Fields Float → Result (Classified Float)
  classify_completed true pending = ok (committed pending)
  classify_completed false pending = raise driver_error

  -- With `round_number > len(records) - 1` and `round_number == len(records) - 1`.
  unfoldable pub classify_round :
      Bool → Bool → List (Fields Float) → Fields Float → ℕ → Result (Classified Float)
  unfolding classify_completed get_or_null
  classify_round true last records pending n = ok (active pending)
  classify_round false true records pending n = do
    completed ← or_raise index_error (get_elem? records n)
    classify_completed
        (equals P (get_or_null "intent_id" completed) (get_or_null "intent_id" pending)) pending
  classify_round false false records pending n = raise driver_error

  -- For a ledger with its header, which no negative number is a round of.
  unfoldable pub classify_at : List (Fields Float) → Fields Float → ℤ → Result (Classified Float)
  unfolding classify_round
  classify_at records pending (negsuc n) = raise driver_error
  classify_at records pending (pos n) =
      classify_round (leb (length records) n) (suc n == length records) records pending n

  unfoldable pub classify_number :
      List (Fields Float) → Fields Float → Option ℤ → Result (Classified Float)
  unfolding classify_at
  classify_number records pending none = ok (active pending)
  classify_number records pending (some n) = classify_at records pending n

  -- `_classify_pending`
  unfoldable pub classify_pending :
      List (Fields Float) → Option (Fields Float) → Result (Classified Float)
  unfolding classify_number integer_of get_or_null
  classify_pending records none = ok nothing_pending
  classify_pending records (some pending) =
      classify_number records pending (integer_of (get_or_null "round" pending))
