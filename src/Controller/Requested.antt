-- ===== src/Controller/Requested.antt =====
-- apps/controller/contract.py: the selection and the traces of an accepted generation are those of its
-- request and its reports.
use metering.Prelude.{◌≡◌, refl, ap, ◌∙◌, subst, true, List, length}
use metering.Prelude.Int.{pos}
use metering.Runtime.{
  after, ok-injective, ok, controller_error, Json, int, obj, Platform, Decimals, Fields, get, end,
  field, on_value_error,
}
use metering.AgentProtocol.{canonical_digest, canonical_json, require_same_json}
use metering.AgentProtocol.Evaluations.{TaskDocument}
use metering.Selection.Gate.{Selection, selection_json, select_task_reports}
use metering.Selection.Decisions.{IsDecided, select_task_reports-IsDecided}
use metering.Controller.Reports.{ReportEvidence, require_length, validated_report_cases}
use metering.Controller.Traces.{Expected, check_traces}
use metering.Controller.Replayed.{require_same_json-eq, AllReplayed, check_traces-AllReplayed}
use metering.Controller.Evidence.{
  IsReported, on_value_error-eq-ok, validated_report_cases-IsReported,
}
use metering.Controller.Commands.{IsExpected, text-some, component_command-IsCommandId}
use metering.Controller.Generations.{
  Lineage, get_or_null, is_nonempty_text, component_command, as_object, selection_request_json,
  command_json, replay_selection, replay_cases,
}

module _ (P : Platform) where
  open P use {Float}

  -- Both reports against the traces of the result, which are compared with what the request names.
  abbrev pub AreReplayed :
      Fields Float
      → Fields Float
      → Fields Float
      → Fields Float
      → Lineage
      → List (TaskDocument Float)
      → ReportEvidence Float
      → ReportEvidence Float
      → Type 0
  AreReplayed request result incumbent challenger l tasks parent_evidence child_evidence =
      (expected : Expected Float) × (raw_traces : List (Json Float)) × IsExpected P request l.parent
        l.child expected
      × (require_length (length tasks) (get "cases" result) ≡ ok raw_traces)
      × AllReplayed P expected tasks parent_evidence.cases child_evidence.cases raw_traces
      × IsReported P incumbent l.parent.candidate_id tasks expected.evaluation parent_evidence
      × IsReported P challenger l.child.candidate_id tasks expected.evaluation child_evidence

module _ (P : Platform) (D : Decimals P.Float) where
  open P use {Float}
  open D use {Decimal, reparse}

  -- The gate's decision on the request that holds the challenger's report, the incumbent's and the policy,
  -- each under its own name, with its numbers read as decimals.
  abbrev pub IsGateSelection : Fields Float → Fields Float → Fields Float → Selection Float → Type 0
  IsGateSelection challenger incumbent policy s =
      (exact : Fields Decimal) × (reparse (
          obj (
            field "challenger_report" (obj challenger) (
              field "incumbent_report" (obj incumbent)
                (field "policy" (obj policy) (field "schema_version" (int (pos 2)) end)))))
        ≡ ok (obj exact))
      × (select_task_reports P D exact ≡ ok s)
      × IsDecided s

  pub replay_cases-AreReplayed :
      (request result incumbent challenger : Fields Float) (l : Lineage)
      (tasks : List (TaskDocument Float)) {runner evaluator : Json Float}
      {evidence : ReportEvidence Float × ReportEvidence Float}
      → component_command (get "runner" request) ≡ ok runner
      → component_command (get "evaluator" request) ≡ ok evaluator
      → is_nonempty_text (get_or_null "evaluation" request) ≡ true
      → replay_cases P D result l
          (get_or_null "evaluation" request)
          tasks
          incumbent
          challenger
          runner
          evaluator
        ≡ ok evidence
      → AreReplayed P request result incumbent challenger l tasks evidence.0 evidence.1
  unfolding replay_cases
  replay_cases-AreReplayed request result incumbent challenger l tasks {runner} {evaluator} running
        evaluating named h =
      let evaluation = get_or_null "evaluation" request in
      let parent_id = l.parent.candidate_id in
      let child_id = l.child.candidate_id in
      after (validated_report_cases P incumbent parent_id tasks evaluation) _ h λ parent e₁ h₁.
        after (validated_report_cases P challenger child_id tasks evaluation) _ h₁ λ child e₂ h₂.
          after (require_length (length tasks) (get "cases" result)) _ h₂ λ raw e₃ h₃.
            after (canonical_digest P (command_json evaluator)) _ h₃ λ evaluator_id e₄ h₄.
              after (canonical_digest P (command_json runner)) _ h₄ λ runner_id e₅ h₅.
                let expected : Expected Float = record {
                  child_id = l.child.candidate_id;
                  evaluation = evaluation;
                  evaluator_id = evaluator_id;
                  parent_id = l.parent.candidate_id;
                  runner_id = runner_id;
                } in
                after (check_traces P expected tasks parent.cases child.cases raw) _ h₅ λ u₆ e₆ h₆.
                  subst
                    (λ (t : ReportEvidence Float × ReportEvidence Float).
                      AreReplayed P request result incumbent challenger l tasks t.0 t.1)
                    (ok-injective h₆)
                    (
                      expected,
                      raw,
                      (
                        refl,
                        refl,
                        text-some P "evaluation" request named,
                        component_command-IsCommandId P request "runner" running e₅,
                        component_command-IsCommandId P request "evaluator" evaluating e₄,
                      ),
                      e₃,
                      check_traces-AllReplayed P expected tasks parent.cases child.cases raw e₆,
                      validated_report_cases-IsReported P incumbent parent_id tasks evaluation e₁,
                      validated_report_cases-IsReported P challenger child_id tasks evaluation e₂,
                    )

  as_object-obj : (v : Json Decimal) {d : Fields Decimal} → as_object v ≡ ok d → v ≡ obj d
  unfolding as_object
  as_object-obj (obj d) h = ap obj (ok-injective h)
  as_object-obj v h = cc

  pub replay_selection-IsGateSelection :
      (challenger incumbent policy selection : Fields Float) {s : Selection Float}
      → replay_selection P D challenger incumbent policy selection ≡ ok s
      → IsGateSelection challenger incumbent policy s
        × (canonical_json P (obj selection) ≡ canonical_json P (selection_json s))
  unfolding replay_selection selection_request_json
  replay_selection-IsGateSelection challenger incumbent policy selection h =
      after (reparse (selection_request_json challenger incumbent policy)) _ h λ exact e₁ h₁.
        after (as_object exact) _ h₁ λ request e₂ h₂.
          after (on_value_error controller_error (select_task_reports P D request)) _ h₂
            λ expected e₃ h₃.
              let given =
                on_value_error-eq-ok controller_error (select_task_reports P D request) e₃ in
              after (require_same_json P (obj selection) (selection_json expected) controller_error)
                _ h₃
                λ u e₄ h₄.
                  subst
                    (λ (s : Selection Float).
                      IsGateSelection challenger incumbent policy s
                      × (canonical_json P (obj selection) ≡ canonical_json P (selection_json s)))
                    (ok-injective h₄)
                    (
                      (
                        request,
                        e₁ ∙ ap ok (as_object-obj exact e₂),
                        given,
                        select_task_reports-IsDecided P D request expected given,
                      ),
                      require_same_json-eq P (obj selection) (selection_json expected)
                          controller_error e₄,
                    )
