-- ===== src/Controller/Reports.antt =====
-- apps/controller/contract.py: the cases of a report against the tasks of the request.
use metering.Prelude.{
  ℕ, ◌+◌, Bool, true, false, ◌&&◌, Option, none, some, List, [], ◌∷◌, map, length, if◌then◌else◌,
  ◌==◌, String, str_eq,
}
use metering.Prelude.Int.{pos}
use metering.Runtime.{
  Result, ok, raise, ◌>>=◌, ◌>>◌, require, on_protocol_error, controller_error, Json, null, bool,
  int, str, arr, obj, items, Platform, Fields, get, end, field,
}
use metering.AgentProtocol.{
  item, require_exact_keys, require_nonempty_string, require_bool, normalize_json_value,
  probability,
}
use metering.Runtime.{equals}
use metering.AgentProtocol.Evaluations.{TaskDocument}

-- A case without its probability, as `normalized_cases` has it.
pub record ReportCase (F : Type 0) : Type 0 where
  pub case_id : String
  pub evidence : Json F
  pub outcome : String
  pub passed : Bool
  pub safety_passed : Bool

-- What `_validated_report_cases` returns: each case with its target probability, and the counts.
pub record ReportEvidence (F : Type 0) : Type 0 where
  pub cases : List (ReportCase F × F)
  pub case_count : ℕ
  pub passed_count : ℕ
  pub safety_failures : ℕ

unfoldable pub same_texts : List String → List String → Bool
same_texts [] [] = true
same_texts (x ∷ xs) (y ∷ ys) = str_eq x y && same_texts xs ys
same_texts xs ys = false

module _ {F : Type 0} where
  unfoldable pub report_case_json : ReportCase F → Json F
  report_case_json c = obj (
      field "case_id" (str c.case_id) (
        field "evidence" c.evidence (
          field "outcome" (str c.outcome)
            (field "passed" (bool c.passed) (field "safety_passed" (bool c.safety_passed) end)))))

  -- `passed_count += int(passed)` and `safety_failures += int(not safety)` over the cases
  unfoldable pub passed_reports : List (ReportCase F × F) → ℕ
  passed_reports [] = 0
  passed_reports ((c, p) ∷ cases) = (if c.passed then 1 else 0) + passed_reports cases

  unfoldable pub unsafe_reports : List (ReportCase F × F) → ℕ
  unsafe_reports [] = 0
  unsafe_reports ((c, p) ∷ cases) = (if c.safety_passed then 0 else 1) + unsafe_reports cases

  unfoldable pub summary_json : ℕ → ℕ → ℕ → Json F
  summary_json case_count passed_count safety_failures = obj (
      field "case_count" (int (pos case_count)) (
        field "passed_count" (int (pos passed_count))
          (field "safety_failures" (int (pos safety_failures)) end)))

  -- `if type(value) is not list or len(value) != n: raise`
  unfoldable pub require_length : ℕ → Option (Json F) → Result (List (Json F))
  require_length n (some (arr vs)) = do
    require (length (items vs) == n) controller_error
    ok (items vs)
  require_length n other = raise controller_error

  -- `if type(value) is not dict: raise`
  unfoldable pub require_dict : Option (Json F) → Result (Fields F)
  require_dict (some (obj d)) = ok d
  require_dict other = raise controller_error

module _ (P : Platform) where
  open P use {Float}

  -- `d.get(k) == v`
  unfoldable pub get_equals : String → Fields Float → Json Float → Bool
  get_equals k d v = elim (get k d) [ none ↦ equals P null v | some w ↦ equals P w v ]

  -- The checks of one case inside the `try`.
  unfoldable pub report_case : Fields Float → Result (ReportCase Float × Float)
  report_case d = do
    require_exact_keys d (
        "case_id" ∷ "evidence" ∷ "outcome" ∷ "passed" ∷ "safety_passed" ∷ "target_probability"
        ∷ "target_surprisal" ∷ [])
    case_id ← item "case_id" d >>= require_nonempty_string
    passed ← item "passed" d >>= require_bool
    safety ← item "safety_passed" d >>= require_bool
    target_probability ← item "target_probability" d >>= probability P
    evidence ← item "evidence" d >>= normalize_json_value P
    outcome ← item "outcome" d >>= require_nonempty_string
    ok (
      record {
        case_id = case_id;
        evidence = evidence;
        outcome = outcome;
        passed = passed;
        safety_passed = safety;
      },
      target_probability,
    )

  unfoldable pub report_cases : List (Json Float) → Result (List (ReportCase Float × Float))
  unfolding report_case
  report_cases [] = ok []
  report_cases (raw_case ∷ raw_cases) = do
    d ← require_dict (some raw_case)
    c ← on_protocol_error controller_error (report_case d)
    cases ← report_cases raw_cases
    ok (c ∷ cases)

  -- `_validated_report_cases`
  unfoldable pub validated_report_cases :
      Fields Float → String → List (TaskDocument Float) → Json Float → Result (ReportEvidence Float)
  unfolding get_equals report_cases same_texts require_length passed_reports unsafe_reports
      summary_json
  validated_report_cases report candidate_id tasks evaluation = do
    require (get_equals "candidate" report (str candidate_id)) controller_error
    require (get_equals "evaluation" report evaluation) controller_error
    raw_cases ← require_length (length tasks) (get "cases" report)
    cases ← report_cases raw_cases
    require (same_texts (map (λ c. c.0.case_id) cases) (map (λ task. task.case_id) tasks))
        controller_error
    require
        (get_equals "task_summary" report
          (summary_json (length tasks) (passed_reports cases) (unsafe_reports cases)))
        controller_error
    ok (record {
      cases = cases;
      case_count = length tasks;
      passed_count = passed_reports cases;
      safety_failures = unsafe_reports cases;
    })
