-- ===== src/Assay/Measured.antt =====
-- apps/forecast_assay/agent_assay.py: a report is made of the forecasts and the results of its cases.
use metering.Prelude.{
  fresh, fresh-cons, ◌≡◌, refl, ap, subst, sym, ◌∙◌, ◌⊎◌, inl, inr, arith, eq_iff, Bool-cases,
  fresh, fresh-cons, true, false, ◌&&◌, not, some, List, [], ◌∷◌, map, any, all, String, str_eq,
  has_duplicate, contains,
}
use metering.Prelude.Int.{pos}
use metering.Runtime.{
  after, ok-injective, require-eq-ok, refuse-eq-ok, or_raise-eq-ok, on_protocol_error-eq-ok, ok,
  ◌>>=◌, require, refuse, or_raise, on_protocol_error, protocol_error, assay_error, Json, null,
  bool, int, float, str, surrogates, arr, obj, Platform, Fields,
}
use metering.Runtime.Dict.{find-put, Dict, find, put}
use metering.AgentProtocol.{
  require_object, require_nonempty_array, item, require_exact_keys, require_nonempty_string,
  require_sha256, require_schema_version,
}
use mathlib.Core.List.{Memᴰ}
use metering.Runtime.Dict.{Dict, find, put, find-put}
use metering.AgentProtocol.Evaluations.{
  Forecast, ForecastOutcome, EvaluatorResult, decode_forecast, decode_evaluator_result,
}
use metering.Information.Measures.{entropy, self_information}
use metering.Assay.{
  MeasuredCase, TaskReport, probabilities_from, values_json, count_passed, count_unsafe,
  measure_case, measure_cases, mean_surprisal, measured_request, measure_agent_task_candidate,
}

module _ {F : Type 0} where
  not_found : (k : String) (p : F) → find k [] ≡ some p → ⊥
  unfolding find
  not_found k p h = cc

  -- A probability that the dict has is one of the outcomes' or was there before.
  found_or_put :
      (k : String) (o : ForecastOutcome F) (found : Dict F) (p : F)
      → find k (put o.outcome o.probability found) ≡ some p
      → ((o.outcome ≡ k) × (o.probability ≡ p)) ⊎ (find k found ≡ some p)
  found_or_put k o found p h =
      let e = sym (find-put k o.outcome o.probability found) ∙ h in
      elim (Bool-cases (str_eq o.outcome k)) [
        | inl same ↦ inl ((eq_iff o.outcome k).0 same, ground (arith, e, same))
        | inr other ↦ inr (ground (arith, e, other))
      ]

  probability_of_find :
      (k : String) (found : Dict F) (outcomes : List (ForecastOutcome F)) (p : F)
      → find k (probabilities_from found outcomes) ≡ some p
      → ((o : ForecastOutcome F) × Memᴰ o outcomes × (o.outcome ≡ k) × (o.probability ≡ p))
        ⊎ (find k found ≡ some p)
  unfolding probabilities_from
  probability_of_find k found [] p h = inr h
  probability_of_find k found (o ∷ outcomes) p h =
      elim (probability_of_find k (put o.outcome o.probability found) outcomes p h) [
        | inl (q, m, e, f) ↦ inl (q, Memᴰ.tail m, e, f)
        | inr before ↦ elim (found_or_put k o found p before) [
          | inl (e, f) ↦ inl (o, Memᴰ.head refl, e, f)
          | inr old ↦ inr old
        ]
      ]

module _ (P : Platform) where
  open P use {Float, literal, is_inf, is_close_relative}

  -- What a case of the report has of the document that it was measured from.
  abbrev pub IsScored : String → Fields Float → MeasuredCase Float → Type 0
  IsScored candidate d c =
      (forecast : Forecast Float) × (result : EvaluatorResult Float) × ((item "forecast" d
          >>= decode_forecast P)
        ≡ ok forecast)
      × ((item "result" d >>= decode_evaluator_result P) ≡ ok result)
      × (result.candidate_id ≡ candidate)
      × (c.outcome ≡ result.outcome)
      × (c.passed ≡ result.passed)
      × (c.safety_passed ≡ result.safety_passed)
      × ((o : ForecastOutcome Float) × Memᴰ o forecast.outcomes
          × (o.outcome ≡ c.outcome)
          × (o.probability ≡ c.target_probability))
      × (self_information P (float c.target_probability) (int (pos 2)) ≡ ok c.surprisal)

  -- The same for each case of the report, in the order of the documents.
  abbrev pub AllScored : String → List (Json Float) → List (MeasuredCase Float) → Type 0
  AllScored candidate [] [] = Unit
  AllScored candidate (raw ∷ raws) (c ∷ cases) =
      ((d : Fields Float) × (raw ≡ obj d) × IsScored candidate d c) × AllScored candidate raws cases
  AllScored candidate raws cases = ⊥

  abbrev case_ids : List (MeasuredCase Float) → List String
  case_ids cases = map (λ c. c.case_id) cases

  measure_case-IsScored :
      (candidate case_id : String) (d : Fields Float) (c : MeasuredCase Float)
      → measure_case P candidate case_id d ≡ ok c
      → IsScored candidate d c × (c.case_id ≡ case_id)
  unfolding measure_case
  measure_case-IsScored candidate case_id d c h =
      after (item "forecast" d >>= decode_forecast P) _ h λ forecast e₁ h₁.
        let probabilities = probabilities_from [] forecast.outcomes in
        after (entropy P (values_json probabilities) (int (pos 2))) _ h₁ λ measured e₂ h₂.
          after
            (require (is_close_relative forecast.entropy measured (literal "1e-12")) protocol_error)
            _ h₂
            λ u e₃ h₃. after (item "result" d >>= decode_evaluator_result P) _ h₃ λ result e₄ h₄.
              after (require (str_eq result.candidate_id candidate) protocol_error) _ h₄ λ w e₅ h₅.
                after (or_raise protocol_error (find result.outcome probabilities)) _ h₅ λ p e₆ h₆.
                  after (self_information P (float p) (int (pos 2))) _ h₆ λ value e₇ h₇.
                    subst (λ c. IsScored candidate d c × (c.case_id ≡ case_id)) (ok-injective h₇)
                      (
                        (
                          forecast,
                          result,
                          e₁,
                          e₄,
                          (eq_iff result.candidate_id candidate).0 (
                              require-eq-ok (str_eq result.candidate_id candidate) protocol_error
                                e₅),
                          refl,
                          refl,
                          refl,
                          elim (probability_of_find result.outcome [] forecast.outcomes p (
                              or_raise-eq-ok protocol_error (find result.outcome probabilities)
                                e₆)) [
                                  | inl o ↦ o
                                  | inr none_before ↦
                                      absurd (not_found result.outcome p none_before)
                                ],
                          e₇,
                        ),
                        refl,
                      )

  require_object-obj :
      (value : Json Float) (d : Fields Float) → require_object value ≡ ok d → value ≡ obj d
  unfolding require_object
  require_object-obj (obj e) d h = ap obj (ok-injective h)
  require_object-obj null d h = cc
  require_object-obj (bool b) d h = cc
  require_object-obj (int n) d h = cc
  require_object-obj (float x) d h = cc
  require_object-obj (str s) d h = cc
  require_object-obj (surrogates cs) d h = cc
  require_object-obj (arr vs) d h = cc

  measure_cases-AllScored :
      (candidate : String) (seen : List String) (raw : List (Json Float))
      (cases : List (MeasuredCase Float))
      → measure_cases P candidate seen raw ≡ ok cases
      → AllScored candidate raw cases
        × (fresh seen (case_ids cases) ≡ true)
        × (has_duplicate (case_ids cases) ≡ false)
  unfolding measure_cases fresh has_duplicate
  measure_cases-AllScored candidate seen [] cases h =
      subst
        (λ cs.
          AllScored candidate [] cs
          × (fresh seen (case_ids cs) ≡ true)
          × (has_duplicate (case_ids cs) ≡ false))
        (ok-injective h) (tt, refl, refl)
  measure_cases-AllScored candidate seen (raw_case ∷ raw) cases h =
      after (require_object raw_case) _ h λ d e₁ h₁.
        after (require_exact_keys d ("case_id" ∷ "forecast" ∷ "result" ∷ [])) _ h₁ λ u e₂ h₂.
          after (item "case_id" d >>= require_nonempty_string) _ h₂ λ case_id e₃ h₃.
            after (refuse (contains case_id seen) protocol_error) _ h₃ λ w e₄ h₄.
              after (measure_case P candidate case_id d) _ h₄ λ c e₅ h₅.
                after (measure_cases P candidate (case_id ∷ seen) raw) _ h₅ λ rest e₆ h₆.
                  let (scored, named) = measure_case-IsScored candidate case_id d c e₅ in
                  let (all, distinct, single) =
                    measure_cases-AllScored candidate (case_id ∷ seen) raw rest e₆ in
                  let new : contains c.case_id seen ≡ false =
                    ap (λ k. contains k seen) named
                    ∙ refuse-eq-ok (contains case_id seen) protocol_error e₄ in
                  let split : (not (contains c.case_id (case_ids rest))
                        && fresh seen (case_ids rest))
                      ≡ true =
                    sym (fresh-cons c.case_id seen (case_ids rest))
                    ∙ ap (λ k. fresh (k ∷ seen) (case_ids rest)) named
                    ∙ distinct in
                  subst
                    (λ cs.
                      AllScored candidate (raw_case ∷ raw) cs
                      × (fresh seen (case_ids cs) ≡ true)
                      × (has_duplicate (case_ids cs) ≡ false))
                    (ok-injective h₆)
                    (
                      ((d, require_object-obj raw_case d e₁, scored), all),
                      ground (arith, new, split),
                      ground (arith, single, split),
                    )

  -- What a report of the assay is made of.
  abbrev pub IsMeasured : Fields Float → TaskReport Float → Type 0
  IsMeasured request report =
      ((raw_cases : List (Json Float)) × ((item "cases" request >>= require_nonempty_array)
          ≡ ok raw_cases)
        × AllScored report.candidate raw_cases report.cases)
      × (has_duplicate (case_ids report.cases) ≡ false)
      × (report.passed_count ≡ count_passed report.cases)
      × (report.safety_failures ≡ count_unsafe report.cases)
      × (report.any_infinite ≡ any (λ c. is_inf c.surprisal) report.cases)

  measured_request-scored :
      (request : Fields Float) (candidate evaluation : String) (cases : List (MeasuredCase Float))
      → measured_request P request ≡ ok (candidate, evaluation, cases)
      → ((raw_cases : List (Json Float)) × ((item "cases" request >>= require_nonempty_array)
            ≡ ok raw_cases)
          × AllScored candidate raw_cases cases)
        × (has_duplicate (case_ids cases) ≡ false)
  unfolding measured_request
  measured_request-scored request candidate evaluation cases h =
      after
        (require_exact_keys request ("schema_version" ∷ "candidate" ∷ "evaluation" ∷ "cases" ∷ []))
        _ h
        λ u e₁ h₁. after (item "schema_version" request >>= require_schema_version) _ h₁ λ w e₂ h₂.
          after (item "candidate" request >>= require_sha256) _ h₂ λ id e₃ h₃.
            after (item "evaluation" request >>= require_nonempty_string) _ h₃ λ text e₄ h₄.
              after (item "cases" request >>= require_nonempty_array) _ h₄ λ raw e₅ h₅.
                after (measure_cases P id [] raw) _ h₅ λ cs e₆ h₆.
                  let (all, distinct, single) = measure_cases-AllScored id [] raw cs e₆ in
                  subst
                    (λ (t : String × String × List (MeasuredCase Float)).
                      ((raw_cases : List (Json Float)) × ((item "cases" request
                            >>= require_nonempty_array)
                          ≡ ok raw_cases)
                        × AllScored t.0 raw_cases t.2)
                      × (has_duplicate (case_ids t.2) ≡ false))
                    (ok-injective h₆) ((raw, e₅, all), single)

  -- Each case of a report comes from the case of the request at its position: its outcome and its verdicts are
  -- those of the decoded result, which is for the report's candidate; its probability is the one that the
  -- decoded forecast gives to that outcome, and its surprisal the self-information of it in bits. No case id
  -- is there twice, and the counts are those of the cases.
  pub measure_agent_task_candidate-IsMeasured :
      (request : Fields Float) (report : TaskReport Float)
      → measure_agent_task_candidate P request ≡ ok report
      → IsMeasured request report
  unfolding measure_agent_task_candidate
  measure_agent_task_candidate-IsMeasured request report h =
      after (on_protocol_error assay_error (measured_request P request)) _ h λ measured e₁ h₁.
        let (candidate, evaluation, cases) = measured in
        after (mean_surprisal P cases) _ h₁ λ mean e₂ h₂.
          let (scored, single) =
            measured_request-scored request candidate evaluation cases
              (on_protocol_error-eq-ok assay_error (measured_request P request) e₁) in
          subst (IsMeasured request) (ok-injective h₂) (scored, single, refl, refl, refl)
