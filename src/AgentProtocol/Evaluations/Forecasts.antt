-- ===== src/AgentProtocol/Evaluations/Forecasts.antt =====
-- apps/agent_protocol.py: forecasts and candidate runs.
use metering.Prelude.{
  fresh, fresh-cons, fresh-nil, suc, ◌≡◌, refl, ap, subst, sym, ◌∙◌, arith, All,
  has_duplicate-sort_by, All-sort_by, text_lt-asym, sort_by-is_sorted, sort_by_sorted,
  length-sort_by, true, false, List, [], ◌∷◌, map, length, String, subset, has_duplicate, contains,
  sort_by,
}
use metering.Runtime.{
  after, ok-injective, refuse-eq-ok, ok, ◌>>=◌, refuse, protocol_error, Json, null, bool, int,
  float, str, surrogates, arr, obj, array, Platform, get, keys, nil, cons,
}
use metering.AgentProtocol.{
  require_object, require_nonempty_array, item, require_exact_keys, require_nonempty_string,
  probability,
}
use metering.AgentProtocol.Evaluations.{
  decode_outcomes, decode_forecast_outcomes, outcome_json, outcome_before, ForecastOutcome,
}
use metering.AgentProtocol.Evaluations.Again.{require_nonempty_string-str, probability-float}
use metering.AgentProtocol.Evaluations.Stable.{item-again, length-map, items-array}

require_nonempty_array-array :
    {F : Type 0} (value : Json F) (vs ws : List (Json F))
    → require_nonempty_array value ≡ ok vs
    → length ws ≡ length vs
    → require_nonempty_array (arr (array ws)) ≡ ok ws
unfolding require_nonempty_array array
require_nonempty_array-array (arr (cons v us)) vs [] h e =
    absurd (subst (λ xs. 0 ≡ length xs → ⊥) (ok-injective h) (λ p. omega arith) e)
require_nonempty_array-array (arr (cons v us)) vs (w ∷ ws) h e = rw (items-array ws) refl
require_nonempty_array-array (arr nil) vs ws h e = cc
require_nonempty_array-array null vs ws h e = cc
require_nonempty_array-array (bool b) vs ws h e = cc
require_nonempty_array-array (int n) vs ws h e = cc
require_nonempty_array-array (float x) vs ws h e = cc
require_nonempty_array-array (str s) vs ws h e = cc
require_nonempty_array-array (surrogates cs) vs ws h e = cc
require_nonempty_array-array (obj d) vs ws h e = cc

module _ (P : Platform) (zero_is_finite : P.is_finite (P.literal "0.0") ≡ true) where
  open P use {Float, literal, is_finite, float_eq, float_le, float_lt}

  abbrev outcomes_names : List (ForecastOutcome Float) → List String
  outcomes_names outcomes = map (λ o. o.outcome) outcomes

  -- What each decoded outcome satisfies.
  abbrev Checked : ForecastOutcome Float → Type 0
  Checked o =
      (require_nonempty_string {F = Float} (str o.outcome) ≡ ok o.outcome)
      × (probability P (float o.probability) ≡ ok o.probability)

  decode_outcomes-Checked :
      (seen : List String) (vs : List (Json Float)) (outcomes : List (ForecastOutcome Float))
      → decode_outcomes P seen vs ≡ ok outcomes
      → All Checked outcomes
        × (fresh seen (outcomes_names outcomes) ≡ true)
        × (has_duplicate (outcomes_names outcomes) ≡ false)
        × (length outcomes ≡ length vs)
  unfolding decode_outcomes fresh has_duplicate
  decode_outcomes-Checked seen [] outcomes h =
      subst
        (λ os.
          All Checked os
          × (fresh seen (outcomes_names os) ≡ true)
          × (has_duplicate (outcomes_names os) ≡ false)
          × (length os ≡ 0))
        (ok-injective h) (tt, refl, refl, refl)
  decode_outcomes-Checked seen (v ∷ vs) outcomes h = after (require_object v) _ h λ d e h₁.
      after (require_exact_keys d ("outcome" ∷ "probability" ∷ [])) _ h₁ λ u e₁ h₂.
        after (item "outcome" d >>= require_nonempty_string) _ h₂ λ outcome e₂ h₃.
          after (refuse (contains outcome seen) protocol_error) _ h₃ λ w e₃ h₄.
            after (item "probability" d >>= probability P) _ h₄ λ p e₄ h₅.
              after (decode_outcomes P (outcome ∷ seen) vs) _ h₅ λ rest e₅ h₆.
                let new = refuse-eq-ok (contains outcome seen) protocol_error e₃ in
                let (checked, distinct, single, counted) =
                  decode_outcomes-Checked (outcome ∷ seen) vs rest e₅ in
                let split = sym (fresh-cons outcome seen (outcomes_names rest)) ∙ distinct in
                subst
                  (λ os.
                    All Checked os
                    × (fresh seen (outcomes_names os) ≡ true)
                    × (has_duplicate (outcomes_names os) ≡ false)
                    × (length os ≡ suc (length vs)))
                  (ok-injective h₆)
                  (
                    (
                      (
                        item-again "outcome" d require_nonempty_string str
                            (λ x a. require_nonempty_string-str x) e₂,
                        item-again "probability" d (probability P) float
                            (λ x a. probability-float P zero_is_finite x) e₄,
                      ),
                      checked,
                    ),
                    ground (arith, new, split),
                    ground (arith, single, split),
                    ap suc counted,
                  )

  decode_outcomes-json :
      (seen : List String) (outcomes : List (ForecastOutcome Float))
      → All Checked outcomes
      → fresh seen (outcomes_names outcomes) ≡ true
      → has_duplicate (outcomes_names outcomes) ≡ false
      → decode_outcomes P seen (map outcome_json outcomes) ≡ ok outcomes
  unfolding decode_outcomes fresh has_duplicate outcome_json require_object item require_exact_keys
      get keys subset contains
  decode_outcomes-json seen [] a f s = refl
  decode_outcomes-json seen (o ∷ os) a f s =
      let new : contains o.outcome seen ≡ false = ground (arith, f) in
      let names : fresh (o.outcome ∷ seen) (outcomes_names os) ≡ true =
        fresh-cons o.outcome seen (outcomes_names os) ∙ ground (arith, f, s) in
      let rest = decode_outcomes-json (o.outcome ∷ seen) os a.1 names (ground (arith, s)) in
      rw (a.0.0, new, a.0.1, rest) refl

  outcome_before-asym :
      (a b : ForecastOutcome Float) → outcome_before a b ≡ true → outcome_before b a ≡ false
  outcome_before-asym a b h = text_lt-asym a.outcome b.outcome h

  pub decode_forecast_outcomes-again :
      (value : Json Float) (outcomes : List (ForecastOutcome Float))
      → decode_forecast_outcomes P value ≡ ok outcomes
      → decode_forecast_outcomes P (arr (array (map outcome_json outcomes))) ≡ ok outcomes
  unfolding decode_forecast_outcomes
  decode_forecast_outcomes-again value outcomes h =
      after (require_nonempty_array value) _ h λ vs e h₁.
        after (decode_outcomes P [] vs) _ h₁ λ os r h₂.
          let (checked, distinct, single, counted) = decode_outcomes-Checked [] vs os r in
          let sorted = sort_by outcome_before os in
          let duplicates = has_duplicate-sort_by outcome_before (λ o. o.outcome) os ∙ single in
          let decoded =
            decode_outcomes-json [] sorted (All-sort_by outcome_before Checked os checked)
              (fresh-nil (outcomes_names sorted)) duplicates in
          let count = length-map outcome_json sorted ∙ length-sort_by outcome_before os ∙ counted in
          subst (λ t. decode_forecast_outcomes P (arr (array (map outcome_json t))) ≡ ok t)
            (ok-injective h₂)
            (rw
              (
                require_nonempty_array-array value vs (map outcome_json sorted) e count,
                decoded,
                sort_by_sorted outcome_before sorted
                    (sort_by-is_sorted outcome_before outcome_before-asym os),
              )
              refl)
