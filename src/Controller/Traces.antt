-- ===== src/Controller/Traces.antt =====
-- apps/controller/contract.py: the traces of the cases against the tasks, the two reports and the commands.
use metering.Prelude.{Bool, false, ◌&&◌, some, List, [], ◌∷◌, map, filter, String, str_eq, subset}
use metering.Runtime.{
  Result, ok, raise, ◌>>=◌, ◌>>◌, require, or_raise, on_protocol_error, controller_error,
  value_error, key_error, index_error, Json, str, Platform, Fields,
}
use metering.Runtime.Dict.{Dict, find, put}
use metering.AgentProtocol.{item, require_exact_keys, require_same_json}
use metering.Runtime.{equals}
use metering.Runtime.Dict.{Dict, find, put}
use metering.AgentProtocol.Evaluations.{
  TaskDocument, CandidateRun, ForecastOutcome, EvaluatorResult, ObserverEvaluation, decode_task,
  task_json, decode_candidate_run, decode_observer_evaluation,
}
use metering.Controller.Reports.{ReportCase, report_case_json, require_dict}

pub record Trace (F : Type 0) : Type 0 where
  pub challenger_run : CandidateRun F
  pub incumbent_run : CandidateRun F
  pub observation : ObserverEvaluation F
  pub task : TaskDocument F

-- What every trace is compared with.
pub record Expected (F : Type 0) : Type 0 where
  pub child_id : String
  pub evaluation : Json F
  pub evaluator_id : String
  pub parent_id : String
  pub runner_id : String

module _ {F : Type 0} where
  -- `{str(item["candidate_id"]): item for item in evaluation_results}`
  unfoldable pub results_from :
      Dict (EvaluatorResult F) → List (EvaluatorResult F) → Dict (EvaluatorResult F)
  results_from found [] = found
  results_from found (r ∷ results) = results_from (put r.candidate_id r found) results

  abbrev result_ids : Dict (EvaluatorResult F) → List String
  result_ids results = map (λ entry. entry.0) results

  -- `set(results_by_candidate) != {parent, child}`
  unfoldable pub has_exactly : Dict (EvaluatorResult F) → String → String → Bool
  has_exactly results parent_id child_id =
      subset (result_ids results) (parent_id ∷ child_id ∷ [])
      && subset (parent_id ∷ child_id ∷ []) (result_ids results)

  -- `expected_case`, from the task and the evaluator's result
  unfoldable pub evaluated_case : TaskDocument F → EvaluatorResult F → ReportCase F
  evaluated_case task result = record {
    case_id = task.case_id;
    evidence = result.evidence;
    outcome = result.outcome;
    passed = result.passed;
    safety_passed = result.safety_passed;
  }

module _ (P : Platform) where
  open P use {Float, float_eq}

  unfoldable pub same_task : TaskDocument Float → TaskDocument Float → Bool
  unfolding task_json
  same_task a b = equals P (task_json a) (task_json b)

  unfoldable pub decode_trace : Fields Float → Result (Trace Float)
  decode_trace d = do
    require_exact_keys d ("challenger_run" ∷ "incumbent_run" ∷ "observer_evaluation" ∷ "task" ∷ [])
    task ← item "task" d >>= decode_task P
    incumbent_run ← item "incumbent_run" d >>= decode_candidate_run P
    challenger_run ← item "challenger_run" d >>= decode_candidate_run P
    observation ← item "observer_evaluation" d >>= decode_observer_evaluation P
    ok (record {
      challenger_run = challenger_run;
      incumbent_run = incumbent_run;
      observation = observation;
      task = task;
    })

  -- The checks of the loop over the two runs.
  unfoldable pub check_run :
      Expected Float → TaskDocument Float → CandidateRun Float → Result (Unit {0})
  unfolding same_task
  check_run expected task run = do
    require (same_task run.task task) controller_error
    require (str_eq run.adapter_id expected.runner_id) controller_error

  -- The checks of identities, from the traced task to the candidates of the results.
  unfoldable pub check_identities :
      Expected Float → TaskDocument Float → Trace Float → Result (Unit {0})
  unfolding same_task check_run results_from has_exactly
  check_identities expected task trace = do
    require (same_task trace.task task) controller_error
    require (str_eq trace.incumbent_run.candidate_id expected.parent_id) controller_error
    require (str_eq trace.challenger_run.candidate_id expected.child_id) controller_error
    check_run expected task trace.incumbent_run
    check_run expected task trace.challenger_run
    require (str_eq trace.observation.evaluator_id expected.evaluator_id) controller_error
    require (equals P (str trace.observation.evaluation) expected.evaluation) controller_error
    require (str_eq trace.observation.case_id task.case_id) controller_error
    require
        (has_exactly (results_from [] trace.observation.results) expected.parent_id
          expected.child_id)
        controller_error

  -- `len(matching) == 1` and the one probability is the reported one
  unfoldable pub matches_forecast : List (ForecastOutcome Float) → Float → Bool
  matches_forecast (o ∷ []) reported = float_eq o.probability reported
  matches_forecast outcomes reported = false

  -- One turn of the loop over the two candidates.
  unfoldable pub check_report :
      TaskDocument Float
      → Dict (EvaluatorResult Float)
      → CandidateRun Float
      → String
      → ReportCase Float × Float
      → Result (Unit {0})
  unfolding evaluated_case matches_forecast report_case_json
  check_report task results run candidate_id (report_case, reported) = do
    evaluated ← or_raise key_error (find candidate_id results)
    require_same_json P (report_case_json report_case)
        (report_case_json (evaluated_case task evaluated)) controller_error
    require
        (matches_forecast (filter (λ o. str_eq o.outcome evaluated.outcome) run.forecast.outcomes)
          reported)
        controller_error

  unfoldable pub check_trace :
      Expected Float
      → TaskDocument Float
      → ReportCase Float × Float
      → ReportCase Float × Float
      → Json Float
      → Result (Unit {0})
  unfolding decode_trace check_identities check_report results_from
  check_trace expected task parent_case child_case raw_trace = do
    d ← require_dict (some raw_trace)
    trace ← on_protocol_error controller_error (decode_trace d)
    check_identities expected task trace
    let results = results_from [] trace.observation.results
    check_report task results trace.incumbent_run expected.parent_id parent_case
    check_report task results trace.challenger_run expected.child_id child_case

  -- The loop over the traces and the tasks; `parent_cases[index]` and `child_cases[index]` are out of range
  -- where a list of cases ends before them, and `zip` is strict.
  unfoldable pub check_traces :
      Expected Float
      → List (TaskDocument Float)
      → List (ReportCase Float × Float)
      → List (ReportCase Float × Float)
      → List (Json Float)
      → Result (Unit {0})
  unfolding check_trace
  check_traces expected [] parent_cases child_cases [] = ok tt
  check_traces expected (task ∷ tasks) (p ∷ parent_cases) (c ∷ child_cases) (raw ∷ raw_traces) = do
    check_trace expected task p c raw
    check_traces expected tasks parent_cases child_cases raw_traces
  check_traces expected (task ∷ tasks) parent_cases child_cases (raw ∷ raw_traces) =
      raise index_error
  check_traces expected tasks parent_cases child_cases raw_traces = raise value_error
