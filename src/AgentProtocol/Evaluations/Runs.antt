-- ===== src/AgentProtocol/Evaluations/Runs.antt =====
-- apps/agent_protocol.py: a candidate run passes its decoder again, unchanged.
use metering.Prelude.{◌≡◌, refl, subst, true, [], ◌∷◌, map, subset, contains}
use metering.Runtime.{
  after, ok-injective, require-eq-ok, refuse-eq-ok, ok, ◌>>=◌, require, refuse, protocol_error,
  Json, float, str, arr, array, Platform, get, keys,
}
use metering.AgentProtocol.{
  require_object, item, is_text, require_exact_keys, require_sha256, require_bool,
  require_schema_version, normalize_json_value, finite_number,
}
use metering.AgentProtocol.Evaluations.{
  decode_task, task_json, decode_forecast, forecast_json, decode_forecast_outcomes, outcome_json,
  decode_candidate_run, candidate_run_json, Forecast, CandidateRun,
}
use metering.AgentProtocol.Evaluations.Again.{
  require_sha256-str, finite_number-float, normalize_json_value-again,
}
use metering.AgentProtocol.Evaluations.Stable.{item-again, decode_task-again}
use metering.AgentProtocol.Evaluations.Forecasts.{decode_forecast_outcomes-again}

module _ (P : Platform) (zero_is_finite : P.is_finite (P.literal "0.0") ≡ true) where
  open P use {Float, literal, is_finite, float_eq, float_le, float_lt}

  decode_forecast-again :
      (value : Json Float) (forecast : Forecast Float)
      → decode_forecast P value ≡ ok forecast
      → decode_forecast P (forecast_json forecast) ≡ ok forecast
  unfolding decode_forecast forecast_json require_object item require_exact_keys get keys subset
      contains require_bool is_text
  decode_forecast-again value forecast h = after (require_object value) _ h λ d e h₁.
      after (require_exact_keys d ("entropy" ∷ "outcomes" ∷ [])) _ h₁ λ u e₁ h₂.
        after (item "entropy" d >>= require_object) _ h₂ λ entropy e₂ h₃.
          after (require_exact_keys entropy ("base" ∷ "infinite" ∷ "measure" ∷ "value" ∷ [])) _ h₃
            λ w e₃ h₄. after (item "base" entropy >>= finite_number P) _ h₄ λ base e₄ h₅.
              after (require (float_eq base (literal "2.0")) protocol_error) _ h₅ λ w₅ e₅ h₆.
                after (item "measure" entropy) _ h₆ λ measure e₆ h₇.
                  after (require (is_text measure "entropy") protocol_error) _ h₇ λ w₇ e₇ h₈.
                    after (item "infinite" entropy >>= require_bool) _ h₈ λ infinite e₈ h₉.
                      after (refuse infinite protocol_error) _ h₉ λ w₉ e₉ k₁.
                        after (item "value" entropy >>= finite_number P) _ k₁ λ amount f₁ k₂.
                          after (refuse (float_lt amount (literal "0.0")) protocol_error) _ k₂
                            λ w₂ f₂ k₃.
                              after (item "outcomes" d >>= decode_forecast_outcomes P) _ k₃
                                λ outcomes f₃ k₄.
                                  subst (λ t. decode_forecast P (forecast_json t) ≡ ok t)
                                    (ok-injective k₄)
                                    (rw
                                      (
                                        item-again "base" entropy (finite_number P) float
                                            (λ x a. finite_number-float P zero_is_finite x) e₄,
                                        require-eq-ok (float_eq base (literal "2.0")) protocol_error
                                            e₅,
                                        item-again "value" entropy (finite_number P) float
                                            (λ x a. finite_number-float P zero_is_finite x) f₁,
                                        refuse-eq-ok (float_lt amount (literal "0.0"))
                                            protocol_error f₂,
                                        item-again "outcomes" d (decode_forecast_outcomes P)
                                            (λ os. arr (array (map outcome_json os)))
                                            (λ x a.
                                              decode_forecast_outcomes-again P zero_is_finite x a)
                                            f₃,
                                      )
                                      refl)

  -- A candidate run that is accepted is accepted again, unchanged, when its document is decoded: its forecast
  -- keeps its outcomes, sorted, and no normalization changes a second time. It rests on the documented fact
  -- that 0.0 is finite.
  pub decode_candidate_run-again :
      (value : Json Float) (run : CandidateRun Float)
      → decode_candidate_run P value ≡ ok run
      → decode_candidate_run P (candidate_run_json run) ≡ ok run
  unfolding decode_candidate_run candidate_run_json require_object item require_exact_keys get keys
      subset contains require_schema_version
  decode_candidate_run-again value run h = after (require_object value) _ h λ d e h₁.
      after
        (require_exact_keys d
          ("candidate_id" ∷ "forecast" ∷ "runner" ∷ "schema_version" ∷ "task" ∷ []))
        _ h₁
        λ u e₁ h₂. after (item "schema_version" d >>= require_schema_version) _ h₂ λ w e₂ h₃.
          after (item "runner" d >>= require_object) _ h₃ λ runner e₃ h₄.
            after (require_exact_keys runner ("adapter_id" ∷ "submission" ∷ [])) _ h₄ λ w₄ e₄ h₅.
              after (item "candidate_id" d >>= require_sha256) _ h₅ λ candidate_id e₅ h₆.
                after (item "forecast" d >>= decode_forecast P) _ h₆ λ forecast e₆ h₇.
                  after (item "adapter_id" runner >>= require_sha256) _ h₇ λ adapter_id e₇ h₈.
                    after (item "submission" runner >>= normalize_json_value P) _ h₈
                      λ submission e₈ h₉. after (item "task" d >>= decode_task P) _ h₉ λ task e₉ k₁.
                        subst (λ t. decode_candidate_run P (candidate_run_json t) ≡ ok t)
                          (ok-injective k₁)
                          (rw
                            (
                              item-again "candidate_id" d require_sha256 str
                                  (λ x a. require_sha256-str x) e₅,
                              item-again "forecast" d (decode_forecast P) forecast_json
                                  (λ x a. decode_forecast-again x a) e₆,
                              item-again "adapter_id" runner require_sha256 str
                                  (λ x a. require_sha256-str x) e₇,
                              item-again "submission" runner (normalize_json_value P) (λ v. v)
                                  (λ x a. normalize_json_value-again P zero_is_finite x) e₈,
                              item-again "task" d (decode_task P) task_json
                                  (λ x a. decode_task-again P zero_is_finite x) e₉,
                            )
                            refl)
