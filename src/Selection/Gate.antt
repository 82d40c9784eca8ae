-- ===== src/Selection/Gate.antt =====
-- apps/selection_gate/task_selection.py: the decision between two reports.
use metering.Prelude.{
  ℕ, Bool, true, false, ◌&&◌, Option, none, some, [], ◌∷◌, leb, ltb, if◌then◌else◌, String, str_eq,
  subset,
}
use metering.Prelude.Int.{ℤ, pos}
use metering.Runtime.{
  Result, ok, raise, ◌>>=◌, ◌>>◌, require, refuse, on_protocol_error, protocol_error,
  selection_error, Json, null, bool, int, float, str, obj, Platform, Decimals, Fields, end, field,
}
use metering.AgentProtocol.{
  require_object, item, is_text, require_exact_keys, require_bool, require_schema_version,
  canonical_digest,
}
use metering.Selection.{difference, at_least}
use metering.Selection.Reports.{VerifiedTaskReport, verify_task_report, case_ids, cases_fields}

pub record SelectionPolicy : Type 0 where
  pub minimum_pass_improvement : ℕ
  pub reject_safety_regression : Bool

pub data Reason : Type 0 where
  safety_regression : Reason
  required_pass_improvement_met : Reason
  required_pass_improvement_not_met : Reason

-- What the gate returns, with the verified reports in place of the documents made of them.
pub record Selection (F : Type 0) : Type 0 where
  pub challenger : VerifiedTaskReport F
  pub evidence_id : String
  pub incumbent : VerifiedTaskReport F
  pub pass_improvement : ℤ
  pub policy : SelectionPolicy
  pub promote : Bool
  pub reason : Reason
  pub selected : String

unfoldable pub reason_text : Reason → String
reason_text safety_regression = "safety_regression"
reason_text required_pass_improvement_met = "required_pass_improvement_met"
reason_text required_pass_improvement_not_met = "required_pass_improvement_not_met"

-- `promote, reason` from `reject_safety and safety_regression` and `pass_improvement >= minimum`
unfoldable pub decide : SelectionPolicy → ℤ → Bool → Bool × Reason
decide policy pass_improvement regressed =
    if policy.reject_safety_regression && regressed
    then (false, safety_regression)
    else if at_least pass_improvement policy.minimum_pass_improvement
    then (true, required_pass_improvement_met)
    else (false, required_pass_improvement_not_met)

module _ {F : Type 0} where
  -- `if type(minimum) is not int or minimum < 1: raise`
  unfoldable pub positive_count : Json F → Result ℕ
  positive_count (int (pos n)) = do require (leb 1 n) protocol_error; ok n
  positive_count other = raise protocol_error

  optional_float : Option F → Json F
  optional_float none = null
  optional_float (some x) = float x

  unfoldable pub policy_json : SelectionPolicy → Json F
  policy_json policy = obj (
      field "type" (str "task-pass-count-v1") (
        field "minimum_pass_improvement" (int (pos policy.minimum_pass_improvement))
          (field "reject_safety_regression" (bool policy.reject_safety_regression) end)))

  unfoldable pub decode_policy : Json F → Result SelectionPolicy
  unfolding positive_count
  decode_policy value = do
    d ← require_object value
    require_exact_keys d ("type" ∷ "minimum_pass_improvement" ∷ "reject_safety_regression" ∷ [])
    type ← item "type" d
    require (is_text type "task-pass-count-v1") protocol_error
    minimum ← item "minimum_pass_improvement" d >>= positive_count
    reject_safety ← item "reject_safety_regression" d >>= require_bool
    ok (record { minimum_pass_improvement = minimum; reject_safety_regression = reject_safety })

  -- The part of the request that is checked before the reports.
  unfoldable pub decode_selection_request : Fields F → Result SelectionPolicy
  unfolding decode_policy
  decode_selection_request request = do
    require_exact_keys request
        ("schema_version" ∷ "incumbent_report" ∷ "challenger_report" ∷ "policy" ∷ [])
    item "schema_version" request >>= require_schema_version
    item "policy" request >>= decode_policy

  unfoldable pub summary_json : VerifiedTaskReport F → Json F
  unfolding optional_float
  summary_json report = obj (
      field "mean_target_surprisal_bits" (optional_float report.mean_target_surprisal_bits) (
        field "passed_count" (int (pos report.passed_count))
          (field "safety_failures" (int (pos report.safety_failures)) end)))

  unfoldable pub selection_json : Selection F → Json F
  unfolding policy_json summary_json reason_text
  selection_json s = obj (
      field "challenger" (str s.challenger.candidate) (
        field "comparison"
          (obj (
            field "challenger" (summary_json s.challenger) (
              field "incumbent" (summary_json s.incumbent)
                (field "pass_improvement" (int s.pass_improvement) end))))
          (field "decision" (str (if s.promote then "promote_challenger" else "retain_incumbent")) (
            field "evaluation" (str s.incumbent.evaluation) (
              field "evidence_id" (str s.evidence_id) (
                field "incumbent" (str s.incumbent.candidate) (
                  field "policy" (policy_json s.policy) (
                    field "reason" (str (reason_text s.reason)) (
                      field "schema_version" (int (pos 2))
                        (field "selected" (str s.selected) end))))))))))

module _ (P : Platform) (D : Decimals P.Float) where
  open P use {Float}
  open D use {Decimal}

  unfoldable pub evidence_document :
      VerifiedTaskReport Float → VerifiedTaskReport Float → SelectionPolicy → Json Float
  unfolding policy_json cases_fields
  evidence_document incumbent challenger policy = obj (
      field "challenger_cases" (obj (cases_fields challenger.cases)) (
        field "evaluation" (str incumbent.evaluation) (
          field "incumbent_cases" (obj (cases_fields incumbent.cases))
            (field "policy" (policy_json policy) (field "schema_version" (int (pos 2)) end)))))

  -- The comparison of two verified reports under a policy.
  unfoldable pub compare_reports :
      SelectionPolicy
      → VerifiedTaskReport Float
      → VerifiedTaskReport Float
      → Result (Selection Float)
  unfolding decide evidence_document case_ids
  compare_reports policy incumbent challenger = do
    refuse (str_eq incumbent.candidate challenger.candidate) selection_error
    require (str_eq incumbent.evaluation challenger.evaluation) selection_error
    require
        (subset (case_ids incumbent.cases) (case_ids challenger.cases)
          && subset (case_ids challenger.cases) (case_ids incumbent.cases))
        selection_error
    let pass_improvement = difference challenger.passed_count incumbent.passed_count
    let regressed = ltb incumbent.safety_failures challenger.safety_failures
    let decision = decide policy pass_improvement regressed
    evidence_id ← canonical_digest P (evidence_document incumbent challenger policy)
    ok (record {
      challenger = challenger;
      evidence_id = evidence_id;
      incumbent = incumbent;
      pass_improvement = pass_improvement;
      policy = policy;
      promote = decision.0;
      reason = decision.1;
      selected = if decision.0 then challenger.candidate else incumbent.candidate;
    })

  unfoldable pub select_task_reports : Fields Decimal → Result (Selection Float)
  unfolding decode_selection_request compare_reports
  select_task_reports request = do
    policy ← on_protocol_error selection_error (decode_selection_request request)
    incumbent ← item "incumbent_report" request >>= verify_task_report P D
    challenger ← item "challenger_report" request >>= verify_task_report P D
    compare_reports policy incumbent challenger
