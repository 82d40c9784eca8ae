-- ===== src/Controller/Generations.antt =====
-- apps/controller/contract.py: `validate_agent_generation_receipt`.
use metering.Prelude.{
  Bool, true, false, ◌&&◌, ◌||◌, not, Option, none, some, List, [], ◌∷◌, length, ◌==◌, String,
  str_eq, subset,
}
use metering.Prelude.Int.{pos}
use metering.Runtime.{
  Result, ok, raise, ◌>>=◌, ◌>>◌, require, refuse, traverse, on_protocol_error, on_key_error,
  controller_error, type_error, Json, null, int, str, surrogates, arr, obj, items, Platform,
  Decimals, Fields, get, keys, end, field, cons,
}
use metering.AgentProtocol.{item, is_text, require_sha256, canonical_digest, require_same_json}
use metering.AgentProtocol.Artifact.{Candidate, decode_candidate, candidate_record, candidate_json}
use metering.Runtime.{equals, on_value_error}
use metering.AgentProtocol.Evaluations.{TaskDocument, decode_task}
use metering.Selection.Gate.{Selection, selection_json, select_task_reports}
use metering.Controller.Reports.{
  ReportEvidence, require_length, require_dict, validated_report_cases,
}
use metering.Controller.Traces.{check_traces}

pub record Generation (F : Type 0) : Type 0 where
  pub child : Candidate
  pub child_evidence : ReportEvidence F
  pub next_parent : Candidate
  pub parent : Candidate
  pub parent_evidence : ReportEvidence F
  pub proposal_id : String
  pub selection : Selection F

-- The candidates of a result: parent, child and next parent.
pub record Lineage : Type 0 where
  pub child : Candidate
  pub next_parent : Candidate
  pub parent : Candidate

module _ {F : Type 0} where
  -- `d.get(k)`, where a missing key gives `None`
  unfoldable pub get_or_null : String → Fields F → Json F
  get_or_null k d = elim (get k d) [ none ↦ null | some v ↦ v ]

  -- `type(evaluation) is str and evaluation`
  unfoldable pub is_nonempty_text : Json F → Bool
  is_nonempty_text (str s) = not (str_eq s "")
  is_nonempty_text (surrogates cs) = not (length cs == 0)
  is_nonempty_text other = false

  unfoldable pub is_list : Json F → Bool
  is_list (arr vs) = true
  is_list other = false

  -- The command of a component, which must be a list.
  unfoldable pub component_command : Option (Json F) → Result (Json F)
  unfolding is_list get_or_null
  component_command component = do
    d ← require_dict component
    require (is_list (get_or_null "command" d)) controller_error
    ok (get_or_null "command" d)

  -- `type(tasks) is not list or not tasks`
  unfoldable pub nonempty_tasks : Json F → Result (List (Json F))
  nonempty_tasks (arr (cons v vs)) = ok (v ∷ items vs)
  nonempty_tasks other = raise controller_error

  -- What `json.loads` returns for an object.
  unfoldable pub as_object : Json F → Result (Fields F)
  as_object (obj d) = ok d
  as_object other = raise type_error

  -- The schema version of a result: the integer 2, which `True` and `2.0` are not.
  unfoldable pub is_version : Option (Json F) → Bool
  is_version (some (int (pos n))) = n == 2
  is_version other = false

  unfoldable pub command_json : Json F → Json F
  command_json command = obj (field "command" command end)

  unfoldable pub selection_request_json : Fields F → Fields F → Fields F → Json F
  selection_request_json challenger_report incumbent_report policy = obj (
      field "challenger_report" (obj challenger_report) (
        field "incumbent_report" (obj incumbent_report)
          (field "policy" (obj policy) (field "schema_version" (int (pos 2)) end))))

module _ (P : Platform) where
  open P use {Float}

  unfoldable pub same_candidate : Candidate → Candidate → Bool
  same_candidate a b = equals P (candidate_json a) (candidate_json b)

  -- The checks of the keys, the version and the evaluation, before the mutation is read.
  unfoldable pub check_envelope : Fields Float → Fields Float → Result (Unit {0})
  unfolding is_version get_or_null
  check_envelope request result = do
    let expected =
        "cases" ∷ "challenger_report" ∷ "evaluation" ∷ "incumbent_report" ∷ "mutation"
        ∷ "next_parent" ∷ "schema_version" ∷ "selection" ∷ []
    require (subset expected (keys result) && subset (keys result) expected) controller_error
    require (is_version (get "schema_version" result)) controller_error
    require (equals P (get_or_null "evaluation" result) (get_or_null "evaluation" request))
        controller_error

  -- The body of the first `try`, with the candidate that the request names last.
  unfoldable pub decode_lineage :
      Fields Float → Fields Float → Fields Float → Result (Lineage × Candidate)
  unfolding get_or_null
  decode_lineage result mutation mutation_request = do
    parent ← decode_candidate P (get_or_null "parent" mutation)
    child ← decode_candidate P (get_or_null "child" mutation)
    next_parent ← decode_candidate P (get_or_null "next_parent" result)
    requested ← item "parent_artifact" mutation_request >>= candidate_record P
    ok (record { child = child; next_parent = next_parent; parent = parent }, requested)

  unfoldable pub replay_lineage : Fields Float → Fields Float → Fields Float → Result Lineage
  unfolding decode_lineage same_candidate
  replay_lineage result mutation mutation_request = do
    decoded ←
        on_protocol_error controller_error
          (on_key_error controller_error (decode_lineage result mutation mutation_request))
    let (lineage, requested) = decoded
    require (same_candidate lineage.parent requested) controller_error
    refuse (str_eq lineage.child.candidate_id lineage.parent.candidate_id) controller_error
    require
        (str_eq lineage.next_parent.candidate_id lineage.parent.candidate_id
          || str_eq lineage.next_parent.candidate_id lineage.child.candidate_id)
        controller_error
    ok lineage

module _ (P : Platform) (D : Decimals P.Float) where
  open P use {Float}
  open D use {Decimal, reparse}

  -- The selection that the gate makes of the two reports, which the result must have.
  unfoldable pub replay_selection :
      Fields Float → Fields Float → Fields Float → Fields Float → Result (Selection Float)
  unfolding selection_request_json as_object
  replay_selection challenger_report incumbent_report policy selection = do
    exact ← reparse (selection_request_json challenger_report incumbent_report policy)
    request ← as_object exact
    expected ← on_value_error controller_error (select_task_reports P D request)
    require_same_json P (obj selection) (selection_json expected) controller_error
    ok expected

  -- The evidence of both reports, which the traces must bear out.
  unfoldable pub replay_cases :
      Fields Float
      → Lineage
      → Json Float
      → List (TaskDocument Float)
      → Fields Float
      → Fields Float
      → Json Float
      → Json Float
      → Result (ReportEvidence Float × ReportEvidence Float)
  unfolding command_json
  replay_cases result lineage evaluation tasks incumbent_report challenger_report runner evaluator =
      do
        parent_evidence ←
            validated_report_cases P incumbent_report lineage.parent.candidate_id tasks evaluation
        child_evidence ←
            validated_report_cases P challenger_report lineage.child.candidate_id tasks evaluation
        raw_traces ← require_length (length tasks) (get "cases" result)
        evaluator_id ← canonical_digest P (command_json evaluator)
        runner_id ← canonical_digest P (command_json runner)
        check_traces P
            (record {
              child_id = lineage.child.candidate_id;
              evaluation = evaluation;
              evaluator_id = evaluator_id;
              parent_id = lineage.parent.candidate_id;
              runner_id = runner_id;
            })
            tasks parent_evidence.cases child_evidence.cases raw_traces
        ok (parent_evidence, child_evidence)

  unfoldable pub validate_agent_generation_receipt :
      Fields Float → Fields Float → Result (Generation Float)
  unfolding check_envelope replay_lineage replay_selection replay_cases component_command
      nonempty_tasks get_or_null is_nonempty_text
  validate_agent_generation_receipt request result = do
    check_envelope P request result
    mutation ← require_dict (get "mutation" result)
    mutation_request ← require_dict (get "mutation_request" request)
    lineage ← replay_lineage P result mutation mutation_request
    policy ← require_dict (get "selection_policy" request)
    raw_tasks ← nonempty_tasks (get_or_null "tasks" request)
    runner ← component_command (get "runner" request)
    evaluator ← component_command (get "evaluator" request)
    incumbent_report ← require_dict (get "incumbent_report" result)
    challenger_report ← require_dict (get "challenger_report" result)
    selection ← require_dict (get "selection" result)
    expected ← replay_selection challenger_report incumbent_report policy selection
    selected ← item "selected" selection
    require (is_text selected lineage.next_parent.candidate_id) controller_error
    tasks ← on_protocol_error controller_error (traverse (decode_task P) raw_tasks)
    let evaluation = get_or_null "evaluation" request
    require (is_nonempty_text evaluation) controller_error
    evidence ←
        replay_cases result lineage evaluation tasks incumbent_report challenger_report runner
          evaluator
    let (parent_evidence, child_evidence) = evidence
    mutation_detail ← require_dict (get "mutation" mutation)
    proposal_id ←
        on_protocol_error controller_error
          (require_sha256 (get_or_null "proposal_id" mutation_detail))
    ok (record {
      child = lineage.child;
      child_evidence = child_evidence;
      next_parent = lineage.next_parent;
      parent = lineage.parent;
      parent_evidence = parent_evidence;
      proposal_id = proposal_id;
      selection = expected;
    })
