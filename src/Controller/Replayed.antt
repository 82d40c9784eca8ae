-- ===== src/Controller/Replayed.antt =====
-- apps/controller/contract.py: what an accepted generation is sure to have.
use metering.Prelude.{
  filter, ◌≡◌, refl, ap, sym, ◌∙◌, eq_iff, true, some, List, [], ◌∷◌, filter, String, str_eq,
}
use metering.Runtime.{
  equals, after, ok-injective, require-eq-ok, or_raise-eq-ok, on_protocol_error-eq-ok, ok, require,
  or_raise, on_protocol_error, Failure, controller_error, key_error, Json, null, bool, int, float,
  str, surrogates, arr, obj, Platform, Fields,
}
use metering.Runtime.Dict.{find}
use metering.AgentProtocol.{canonical_json, require_same_json}
use metering.Runtime.Dict.{find}
use metering.AgentProtocol.Evaluations.{
  TaskDocument, CandidateRun, ForecastOutcome, EvaluatorResult,
}
use metering.Controller.Reports.{ReportCase, report_case_json, require_dict}
use metering.Controller.Traces.{
  Trace, Expected, results_from, evaluated_case, same_task, decode_trace, check_run,
  check_identities, matches_forecast, check_report, check_trace, check_traces,
}

module _ (P : Platform) where
  open P use {Float, float_eq}

  -- A reported case and its probability, borne out by the evaluator's result and by the forecast of the run.
  abbrev pub IsBorneOut :
      TaskDocument Float
      → CandidateRun Float
      → EvaluatorResult Float
      → ReportCase Float × Float
      → Type 0
  IsBorneOut task run result (c, reported) =
      (canonical_json P (report_case_json c)
        ≡ canonical_json P (report_case_json (evaluated_case task result)))
      × ((o : ForecastOutcome Float) × (filter (λ p. str_eq p.outcome result.outcome)
              run.forecast.outcomes
            ≡ o ∷ [])
          × (float_eq o.probability reported ≡ true))

  -- One trace, for the task and the reported cases of the parent and the child at its position.
  abbrev pub IsReplayed :
      Expected Float
      → TaskDocument Float
      → ReportCase Float × Float
      → ReportCase Float × Float
      → Json Float
      → Type 0
  IsReplayed expected task p c raw =
      (d : Fields Float) × (trace : Trace Float) × (parent_result : EvaluatorResult Float)
      × (child_result : EvaluatorResult Float) × (raw ≡ obj d)
      × (decode_trace P d ≡ ok trace)
      × (trace.incumbent_run.candidate_id ≡ expected.parent_id)
      × (trace.challenger_run.candidate_id ≡ expected.child_id)
      × (trace.incumbent_run.adapter_id ≡ expected.runner_id)
      × (trace.challenger_run.adapter_id ≡ expected.runner_id)
      × (trace.observation.evaluator_id ≡ expected.evaluator_id)
      × (equals P (str trace.observation.evaluation) expected.evaluation ≡ true)
      × (same_task P trace.task task ≡ true)
      × (trace.observation.case_id ≡ task.case_id)
      × (find expected.parent_id (results_from [] trace.observation.results) ≡ some parent_result)
      × (find expected.child_id (results_from [] trace.observation.results) ≡ some child_result)
      × IsBorneOut task trace.incumbent_run parent_result p
      × IsBorneOut task trace.challenger_run child_result c

  -- The same for each position; the lists have one length.
  abbrev pub AllReplayed :
      Expected Float
      → List (TaskDocument Float)
      → List (ReportCase Float × Float)
      → List (ReportCase Float × Float)
      → List (Json Float)
      → Type 0
  AllReplayed expected [] ps cs [] = Unit
  AllReplayed expected (task ∷ tasks) (p ∷ ps) (c ∷ cs) (raw ∷ raws) =
      IsReplayed expected task p c raw × AllReplayed expected tasks ps cs raws
  AllReplayed expected tasks ps cs raws = ⊥

  pub require_same_json-eq :
      (a b : Json Float) (e : Failure) {u : Unit {0}}
      → require_same_json P a b e ≡ ok u
      → canonical_json P a ≡ canonical_json P b
  unfolding require_same_json canonical_json
  require_same_json-eq a b e h = after (canonical_json P a) _ h λ s e₁ h₁.
      after (canonical_json P b) _ h₁
        λ t e₂ h₂. e₁ ∙ ap ok ((eq_iff s t).0 (require-eq-ok (str_eq s t) e h₂)) ∙ sym e₂

  matches_forecast-single :
      (outcomes : List (ForecastOutcome Float)) (reported : Float)
      → matches_forecast P outcomes reported ≡ true
      → (o : ForecastOutcome Float) × (outcomes ≡ o ∷ []) × (float_eq o.probability reported ≡ true)
  unfolding matches_forecast
  matches_forecast-single [] reported h = cc
  matches_forecast-single (o ∷ []) reported h = (o, refl, h)
  matches_forecast-single (o ∷ q ∷ outcomes) reported h = cc

  pub require_dict-obj :
      (value : Json Float) (d : Fields Float) → require_dict (some value) ≡ ok d → value ≡ obj d
  unfolding require_dict
  require_dict-obj (obj e) d h = ap obj (ok-injective h)
  require_dict-obj null d h = cc
  require_dict-obj (bool b) d h = cc
  require_dict-obj (int n) d h = cc
  require_dict-obj (float x) d h = cc
  require_dict-obj (str s) d h = cc
  require_dict-obj (surrogates cs) d h = cc
  require_dict-obj (arr vs) d h = cc

  check_report-IsBorneOut :
      (task : TaskDocument Float) (trace : Trace Float) (run : CandidateRun Float) (id : String)
      (c : ReportCase Float × Float) {u : Unit {0}}
      → check_report P task (results_from [] trace.observation.results) run id c ≡ ok u
      → (result : EvaluatorResult Float) × (find id (results_from [] trace.observation.results)
          ≡ some result)
        × IsBorneOut task run result c
  unfolding check_report
  check_report-IsBorneOut task trace run id (c, reported) h =
      let results = results_from [] trace.observation.results in
      after (or_raise key_error (find id results)) _ h λ result e₁ h₁.
        let same = report_case_json c in
        let expected = report_case_json (evaluated_case task result) in
        after (require_same_json P same expected controller_error) _ h₁ λ u e₂ h₂.
          let outcomes = filter (λ o. str_eq o.outcome result.outcome) run.forecast.outcomes in
          (
            result,
            or_raise-eq-ok key_error (find id results) e₁,
            (
              require_same_json-eq same expected controller_error e₂,
              matches_forecast-single outcomes reported
                  (require-eq-ok (matches_forecast P outcomes reported) controller_error h₂),
            ),
          )

  text-eq : (s t : String) (e : Failure) {u : Unit {0}} → require (str_eq s t) e ≡ ok u → s ≡ t
  text-eq s t e h = (eq_iff s t).0 (require-eq-ok (str_eq s t) e h)

  check_run-adapter :
      (expected : Expected Float) (task : TaskDocument Float) (run : CandidateRun Float)
      {u : Unit {0}}
      → check_run P expected task run ≡ ok u
      → run.adapter_id ≡ expected.runner_id
  unfolding check_run
  check_run-adapter expected task run h =
      after (require (same_task P run.task task) controller_error) _ h
        λ u e k. text-eq run.adapter_id expected.runner_id controller_error k

  check_trace-IsReplayed :
      (expected : Expected Float) (task : TaskDocument Float) (p c : ReportCase Float × Float)
      (raw : Json Float) {u : Unit {0}}
      → check_trace P expected task p c raw ≡ ok u
      → IsReplayed expected task p c raw
  unfolding check_trace check_identities
  check_trace-IsReplayed expected task p c raw h = after (require_dict (some raw)) _ h λ d e₁ h₁.
      after (on_protocol_error controller_error (decode_trace P d)) _ h₁ λ trace e₂ h₂.
        after (check_identities P expected task trace) _ h₂ λ u₃ e₃ h₃.
          after
            (check_report P task (results_from [] trace.observation.results) trace.incumbent_run
              expected.parent_id p)
            _ h₃
            λ u₄ e₄ h₄.
              let (parent_result, found, borne) =
                check_report-IsBorneOut task trace trace.incumbent_run expected.parent_id p e₄ in
              let (child_result, found_child, borne_child) =
                check_report-IsBorneOut task trace trace.challenger_run expected.child_id c h₄ in
              after (require (same_task P trace.task task) controller_error) _ e₃ λ v₁ f₁ k₁.
                after
                  (require (str_eq trace.incumbent_run.candidate_id expected.parent_id)
                    controller_error)
                  _ k₁
                  λ v₂ f₂ k₂.
                    after
                      (require (str_eq trace.challenger_run.candidate_id expected.child_id)
                        controller_error)
                      _ k₂
                      λ v₃ f₃ k₃.
                        after (check_run P expected task trace.incumbent_run) _ k₃ λ v₄ f₄ k₄.
                          after (check_run P expected task trace.challenger_run) _ k₄ λ v₅ f₅ k₅.
                            after
                              (require (str_eq trace.observation.evaluator_id expected.evaluator_id)
                                controller_error)
                              _ k₅
                              λ v₆ f₆ k₆.
                                after
                                  (require
                                    (equals P (str trace.observation.evaluation)
                                      expected.evaluation)
                                    controller_error)
                                  _ k₆
                                  λ v₇ f₇ k₇.
                                    after
                                      (require (str_eq trace.observation.case_id task.case_id)
                                        controller_error)
                                      _ k₇
                                      λ v₈ f₈ k₈. (
                                        d,
                                        trace,
                                        parent_result,
                                        child_result,
                                        require_dict-obj raw d e₁,
                                        on_protocol_error-eq-ok controller_error (decode_trace P d)
                                            e₂,
                                        text-eq trace.incumbent_run.candidate_id expected.parent_id
                                            controller_error f₂,
                                        text-eq trace.challenger_run.candidate_id expected.child_id
                                            controller_error f₃,
                                        check_run-adapter expected task trace.incumbent_run f₄,
                                        check_run-adapter expected task trace.challenger_run f₅,
                                        text-eq trace.observation.evaluator_id expected.evaluator_id
                                            controller_error f₆,
                                        require-eq-ok
                                            (equals P (str trace.observation.evaluation)
                                              expected.evaluation)
                                            controller_error f₇,
                                        require-eq-ok (same_task P trace.task task) controller_error
                                            f₁,
                                        text-eq trace.observation.case_id task.case_id
                                            controller_error f₈,
                                        found,
                                        found_child,
                                        borne,
                                        borne_child,
                                      )

  pub check_traces-AllReplayed :
      (expected : Expected Float) (tasks : List (TaskDocument Float))
      (ps cs : List (ReportCase Float × Float)) (raws : List (Json Float)) {u : Unit {0}}
      → check_traces P expected tasks ps cs raws ≡ ok u
      → AllReplayed expected tasks ps cs raws
  unfolding check_traces
  check_traces-AllReplayed expected [] ps cs [] h = tt
  check_traces-AllReplayed expected [] ps cs (raw ∷ raws) h = cc
  check_traces-AllReplayed expected (task ∷ tasks) (p ∷ ps) (c ∷ cs) (raw ∷ raws) h =
      after (check_trace P expected task p c raw) _ h λ u e k. (
        check_trace-IsReplayed expected task p c raw e,
        check_traces-AllReplayed expected tasks ps cs raws k,
      )
  check_traces-AllReplayed expected (task ∷ tasks) [] cs (raw ∷ raws) h = cc
  check_traces-AllReplayed expected (task ∷ tasks) (p ∷ ps) [] (raw ∷ raws) h = cc
  check_traces-AllReplayed expected (task ∷ tasks) [] cs [] h = cc
  check_traces-AllReplayed expected (task ∷ tasks) (p ∷ ps) [] [] h = cc
  check_traces-AllReplayed expected (task ∷ tasks) (p ∷ ps) (c ∷ cs) [] h = cc
