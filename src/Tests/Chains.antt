-- ===== src/Tests/Chains.antt =====
-- The chain of the driver's records at a header and one round.
use metering.Prelude.{ℕ, ◌≡◌, refl, none, some, List, [], ◌∷◌}
use metering.Prelude.Int.{pos}
use metering.Runtime.{ok, null, int, str, Fields, get, end, field}
use metering.AgentProtocol.{item, is_text, get_is_text}
use metering.Runtime.{equals}
use metering.Controller.Generations.{get_or_null}
use metering.Driver.Chain.{
  is_integer, text_of, integer_of, kind_at, committed, has_previous, validate_link,
  validate_chain_from, validate_record_chain, classify_completed, classify_round, classify_number,
  classify_at, classify_pending,
}
use metering.Driver.Chain.Links.{IsLinked, validate_record_chain-IsLinked}
use metering.Driver.Chain.Committed.{IsWritten, classify_pending-IsWritten}
use metering.Tests.Samples.{toy}

abbrev header_record : Fields ℕ
header_record = field "kind" (str "population-driver") (
    field "parent_record_id" null (
      field "record_id" (str "header")
        (field "schema_version" (int (pos 1)) (field "sequence" (int (pos 0)) end))))

abbrev round_record : Fields ℕ
round_record = field "intent_id" (str "intent") (
    field "kind" (str "round") (
      field "parent_record_id" (str "header") (
        field "record_id" (str "round")
          (field "schema_version" (int (pos 1)) (field "sequence" (int (pos 1)) end)))))

abbrev driver_records : List (Fields ℕ)
driver_records = header_record ∷ round_record ∷ []

chained : validate_record_chain toy driver_records ≡ ok tt
unfolding validate_record_chain validate_chain_from validate_link is_integer kind_at has_previous
    text_of get get_is_text is_text item get_or_null equals
chained = refl

validate_record_chain-IsLinked_example : IsLinked toy driver_records 0 1 none round_record
validate_record_chain-IsLinked_example =
    validate_record_chain-IsLinked toy driver_records 1 round_record chained refl

abbrev written_pending : Fields ℕ
written_pending = field "intent_id" (str "intent") (field "round" (int (pos 1)) end)

classified :
    classify_pending toy driver_records (some written_pending) ≡ ok (committed written_pending)
unfolding classify_pending classify_number classify_at classify_round classify_completed integer_of
    get_or_null get equals
classified = refl

classify_pending-IsWritten_example :
    (written_pending ≡ written_pending) × IsWritten toy driver_records written_pending
classify_pending-IsWritten_example =
    classify_pending-IsWritten toy driver_records written_pending written_pending classified
