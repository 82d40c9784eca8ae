-- ===== src/Population/State/Ledger.antt =====
-- apps/population/population_state.py: the ledger file as the list of its records, loading and appending.
use metering.Prelude.{ℕ, ◌+◌, Bool, List, [], ◌∷◌, length, ◌++◌, String}
use metering.Prelude.Int.{pos}
use metering.Runtime.{
  Result, ok, raise, ◌>>=◌, ◌>>◌, require, on_protocol_error, population_error, index_error, Json,
  int, str, Platform, Fields, end, field,
}
use metering.Journal.{content_record}
use metering.Population.Types.{PopulationState, Configuration, head_id}
use metering.Population.State.{new_state, header_fields, apply_record}

module _ (P : Platform) where
  open P use {Float}

  -- `for index, record in enumerate(records[1:], start=1): _apply_record(state, record, index)`
  unfoldable pub replay :
      PopulationState Float → List (Fields Float) → ℕ → Result (PopulationState Float)
  replay state [] index = ok state
  replay state (r ∷ rs) index = do
    state' ← apply_record P state r index
    replay state' rs (index + 1)

  unfoldable pub replay_all : List (Fields Float) → Result (PopulationState Float)
  replay_all [] = raise index_error
  replay_all (header ∷ rs) = do state ← new_state P header; replay state rs 1

  -- `load_state` of the records that were read
  unfoldable pub load_state : List (Fields Float) → Result (PopulationState Float)
  unfolding replay_all
  load_state records = on_protocol_error population_error (replay_all records)

  -- `initialize`: the ledger of a new population
  unfoldable pub initialize : Configuration Float → Result (List (Fields Float))
  initialize configuration = do
    header ← content_record P (header_fields P configuration) population_error
    ok (header ∷ [])

  unfoldable pub next_fields : PopulationState Float → String → Json Float → String → Fields Float
  next_fields state kind body head = field "body" body (
      field "kind" (str kind) (
        field "parent_record_id" (str head) (
          field "schema_version" (int (pos 1))
            (field "sequence" (int (pos (length state.records))) end))))

  -- `append_validated_record`: the new state, and the ledger with the record that it wrote. `written` says
  -- whether the write succeeded.
  unfoldable pub append_validated_record :
      List (Fields Float)
      → Bool
      → PopulationState Float
      → String
      → Json Float
      → Result (PopulationState Float × List (Fields Float))
  append_validated_record ledger written state kind body = do
    head ← head_id state
    r ← content_record P (next_fields state kind body head) population_error
    state' ← on_protocol_error population_error (apply_record P state r (length state.records))
    require written population_error
    ok (state', ledger ++ r ∷ [])

-- `verify_summary`
pub record Summary : Type 0 where
  pub allocation_count : ℕ
  pub archive_count : ℕ
  pub candidate_count : ℕ
  pub experiment_count : ℕ
  pub final_evaluation_started : Bool
  pub head_record_id : String
  pub record_count : ℕ
  pub run_count : ℕ

unfoldable pub verify_summary : {F : Type 0} → PopulationState F → Result Summary
verify_summary state = do
  head ← head_id state
  ok (record {
    allocation_count = length state.allocations;
    archive_count = length state.archives;
    candidate_count = length state.candidates;
    experiment_count = length state.experiments;
    final_evaluation_started = state.final_evaluation_started;
    head_record_id = head;
    record_count = length state.records;
    run_count = length state.runs;
  })
