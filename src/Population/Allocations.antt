-- ===== src/Population/Allocations.antt =====
-- apps/population/population_policy.py: archive and allocation requests, and the allocation of a parent.
pub mod Uniform
use metering.Prelude.{
  ℕ, ◌*◌, ◌/◌, Bool, false, Option, none, some, List, [], ◌∷◌, map, length, ltb, ◌==◌, String,
  str_eq, sort_by, text_lt, get_elem?,
}
use metering.Prelude.Int.{pos}
use metering.Runtime.{
  Result, ok, ◌>>=◌, ◌>>◌, require, refuse, or_raise, on_protocol_error, protocol_error,
  population_error, request_error, key_error, index_error, Json, int, str, arr, obj, array,
  Platform, Fields, end, field,
}
use metering.Runtime.Dict.{find}
use metering.AgentProtocol.{
  require_object, item, require_exact_keys, require_sha256, require_same_json, normalize_json_value,
}
use metering.Population.Types.{PopulationState, Archive, Draw, Allocation}
use metering.Population.Schema.{positive_integer, nonnegative_integer, require_population_schema}
use metering.Population.Archives.{normalize_archive_body, metric_ids}

module _ {F : Type 0} where
  -- `_draw`
  unfoldable pub normalize_draw : Json F → Result Draw
  unfolding positive_integer nonnegative_integer
  normalize_draw value = do
    d ← require_object value
    require_exact_keys d ("denominator" ∷ "numerator" ∷ [])
    denominator ← item "denominator" d >>= positive_integer
    numerator ← item "numerator" d >>= nonnegative_integer
    require (ltb numerator denominator) protocol_error
    ok (record { denominator = denominator; numerator = numerator })

  draw_json : Draw → Json F
  draw_json draw = obj (
      field "denominator" (int (pos draw.denominator))
        (field "numerator" (int (pos draw.numerator)) end))

  allocation_request_json : Allocation → Json F
  unfolding draw_json
  allocation_request_json a =
      obj
        (field "archive_record_id" (str a.archive_record_id) (field "draw" (draw_json a.draw) end))

  unfoldable pub allocation_result_json : Allocation → Json F
  allocation_result_json a = obj (
      field "ordered_candidates" (arr (array (map str a.ordered_candidates))) (
        field "policy" (str "uniform-v1") (
          field "probability"
            (obj (
              field "denominator" (int (pos (length a.ordered_candidates)))
                (field "numerator" (int (pos 1)) end)))
            (field "selected_candidate_id" (str a.selected_candidate_id) end))))

  unfoldable pub allocation_json : Allocation → Json F
  unfolding allocation_request_json allocation_result_json
  allocation_json a =
      obj (
        field "request" (allocation_request_json a) (field "result" (allocation_result_json a) end))

-- `ordered[(draw["numerator"] * len(ordered)) // draw["denominator"]]`
unfoldable pub select_candidate : Draw → List String → Result String
select_candidate draw ordered =
    or_raise index_error (get_elem? ordered (draw.numerator * length ordered / draw.denominator))

-- `sorted(str(member["candidate_id"]) for member in members)`, which may not be empty
unfoldable pub ordered_members : {F : Type 0} → Archive F → Result (List String)
ordered_members archive = do
  let ordered = sort_by text_lt (metric_ids archive.members)
  refuse (length ordered == 0) population_error
  ok ordered

module _ (P : Platform) where
  open P use {Float}

  unfoldable pub decode_archive_request :
      Fields Float → PopulationState Float → Result (Archive Float)
  decode_archive_request d state = do
    experiment_id ← on_protocol_error request_error (do
      require_exact_keys d ("experiment_id" ∷ "schema_version" ∷ [])
      item "schema_version" d >>= require_population_schema
      item "experiment_id" d >>= require_sha256)
    normalize_archive_body P experiment_id state

  abbrev pub number_or_zero : Option ℕ → ℕ
  number_or_zero none = 0
  number_or_zero (some n) = n

  abbrev pub is_same_text : Option String → String → Bool
  is_same_text none t = false
  is_same_text (some s) t = str_eq s t

  -- The archive that an allocation may use: the latest of its experiment, with no later run.
  unfoldable pub current_archive : String → PopulationState Float → Result (Archive Float)
  current_archive archive_id state = do
    archive ← or_raise population_error (find archive_id state.archives)
    require
        (is_same_text (find archive.experiment_id state.latest_archive_by_experiment) archive_id)
        population_error
    sequence ← or_raise key_error (find archive_id state.archive_sequences)
    refuse
        (ltb sequence
          (number_or_zero (find archive.experiment_id state.last_run_sequence_by_experiment)))
        population_error
    ok archive

  -- `_allocation_body`
  unfoldable pub normalize_allocation_body : Json Float → PopulationState Float → Result Allocation
  unfolding normalize_draw current_archive ordered_members select_candidate
  normalize_allocation_body value state = do
    d ← require_object value
    require_exact_keys d ("request" ∷ "result" ∷ [])
    request ← item "request" d >>= require_object
    require_exact_keys request ("archive_record_id" ∷ "draw" ∷ [])
    archive_id ← item "archive_record_id" request >>= require_sha256
    draw ← item "draw" request >>= normalize_draw
    archive ← current_archive archive_id state
    ordered ← ordered_members archive
    selected ← select_candidate draw ordered
    result ← item "result" d >>= normalize_json_value P
    let allocation : Allocation = record {
      archive_record_id = archive_id;
      draw = draw;
      ordered_candidates = ordered;
      selected_candidate_id = selected;
    }
    require_same_json P result (allocation_result_json allocation) protocol_error
    ok allocation

  unfoldable pub decode_allocation_request :
      Fields Float → PopulationState Float → Result Allocation
  unfolding normalize_allocation_body allocation_json
  decode_allocation_request d state = on_protocol_error request_error (do
    require_exact_keys d ("archive_record_id" ∷ "draw" ∷ "schema_version" ∷ [])
    item "schema_version" d >>= require_population_schema
    archive_id ← item "archive_record_id" d >>= require_sha256
    draw ← item "draw" d >>= normalize_draw
    archive ← or_raise population_error (find archive_id state.archives)
    ordered ← ordered_members archive
    selected ← select_candidate draw ordered
    normalize_allocation_body
        (allocation_json (record {
          archive_record_id = archive_id;
          draw = draw;
          ordered_candidates = ordered;
          selected_candidate_id = selected;
        }))
        state)
