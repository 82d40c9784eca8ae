-- ===== src/AgentProtocol/Evaluations/Observer.antt =====
-- apps/agent_protocol.py: observer evaluations and candidate runs pass their decoders again, unchanged.
use metering.Prelude.{
  suc, ◌≡◌, refl, ap, subst, sym, ◌∙◌, arith, All, has_duplicate-sort_by, All-sort_by, text_lt-asym,
  is_sorted, sort_by-is_sorted, sort_by_sorted, length-sort_by, true, false, List, [], ◌∷◌, map,
  length, ◌==◌, subset, has_duplicate, contains, sort_by,
}
use metering.Runtime.{
  after, ok-injective, require-eq-ok, refuse-eq-ok, Result, ok, ◌>>=◌, require, refuse, traverse,
  protocol_error, Json, null, bool, int, float, str, surrogates, arr, obj, items, array, Platform,
  get, keys,
}
use metering.AgentProtocol.{
  require_object, item, require_exact_keys, require_nonempty_string, require_sha256,
  require_schema_version,
}
use metering.AgentProtocol.Evaluations.{
  result_before, decode_evaluator_result, result_json, decode_observer_evaluation,
  observer_evaluation_json, require_pair, EvaluatorResult, ObserverEvaluation,
}
use metering.AgentProtocol.Evaluations.Again.{require_nonempty_string-str, require_sha256-str}
use metering.AgentProtocol.Evaluations.Stable.{
  items-array, length-map, item-again, decode_evaluator_result-again,
}

length-traverse :
    {A B : Type 0} (f : A → Result B) (xs : List A) {ys : List B}
    → traverse f xs ≡ ok ys
    → length ys ≡ length xs
unfolding traverse
length-traverse f [] h = ap length (sym (ok-injective h))
length-traverse f (x ∷ xs) h = after (f x) _ h λ y e h₁.
    after (traverse f xs) _ h₁
      λ ys r h₂. ap length (sym (ok-injective h₂)) ∙ ap suc (length-traverse f xs r)

-- What a traversal returns satisfies what each of its calls gives.
traverse-All :
    {A B : Type 0} (f : A → Result B) (Q : B → Type 0)
    → ((x : A) (y : B) → f x ≡ ok y → Q y)
    → (xs : List A) {ys : List B} → traverse f xs ≡ ok ys
    → All Q ys
unfolding traverse
traverse-All f Q q [] h = subst (All Q) (ok-injective h) tt
traverse-All f Q q (x ∷ xs) h = after (f x) _ h λ y e h₁.
    after (traverse f xs) _ h₁
      λ ys r h₂. subst (All Q) (ok-injective h₂) (q x y e, traverse-All f Q q xs r)

traverse-map :
    {A B : Type 0} (f : A → Result B) (print : B → A) (ys : List B)
    → All (λ y. f (print y) ≡ ok y) ys
    → traverse f (map print ys) ≡ ok ys
unfolding traverse
traverse-map f print [] a = refl
traverse-map f print (y ∷ ys) a = rw (a.0, traverse-map f print ys a.1) refl

require_pair-length :
    {F : Type 0} (value : Json F) {vs : List (Json F)} → require_pair value ≡ ok vs → length vs ≡ 2
unfolding require_pair
require_pair-length (arr vs) h =
    after (require (length (items vs) == 2) protocol_error) _ h λ u e h₁.
      let two = require-eq-ok (length (items vs) == 2) protocol_error e in
      ap length (sym (ok-injective h₁)) ∙ ground (arith, two)
require_pair-length null h = cc
require_pair-length (bool b) h = cc
require_pair-length (int n) h = cc
require_pair-length (float x) h = cc
require_pair-length (str s) h = cc
require_pair-length (surrogates cs) h = cc
require_pair-length (obj d) h = cc

module _ {F : Type 0} where
  require_pair-array : (vs : List (Json F)) → length vs ≡ 2 → require_pair (arr (array vs)) ≡ ok vs
  unfolding require_pair
  require_pair-array vs two = rw (items-array vs, two) refl

  result_before-asym :
      (a b : EvaluatorResult F) → result_before a b ≡ true → result_before b a ≡ false
  result_before-asym a b h = text_lt-asym a.candidate_id b.candidate_id h

  -- The results of an evaluation: two, in the order of their candidate ids, which differ.
  abbrev pub IsPair : List (EvaluatorResult F) → Type 0
  IsPair results =
      (length results ≡ 2)
      × (has_duplicate (map (λ r. r.candidate_id) results) ≡ false)
      × (is_sorted result_before results ≡ true)

module _ (P : Platform) where
  open P use {Float, literal, is_finite, float_eq, float_le}

  results-IsPair :
      (value : Json Float) (raw : List (Json Float)) (results : List (EvaluatorResult Float))
      → require_pair value ≡ ok raw
      → traverse (decode_evaluator_result P) raw ≡ ok results
      → has_duplicate (map (λ r. r.candidate_id) results) ≡ false
      → IsPair (sort_by result_before results)
  results-IsPair value raw results pair decoded distinct = (
    length-sort_by result_before results
        ∙ length-traverse (decode_evaluator_result P) raw decoded
        ∙ require_pair-length value pair,
    has_duplicate-sort_by result_before (λ r. r.candidate_id) results ∙ distinct,
    sort_by-is_sorted result_before result_before-asym results,
  )

  -- An observer evaluation that is accepted holds exactly two results, with different candidate ids, in the
  -- order of these.
  pub decode_observer_evaluation-IsPair :
      (value : Json Float) (evaluation : ObserverEvaluation Float)
      → decode_observer_evaluation P value ≡ ok evaluation
      → IsPair evaluation.results
  unfolding decode_observer_evaluation
  decode_observer_evaluation-IsPair value evaluation h = after (require_object value) _ h λ d e h₁.
      after
        (require_exact_keys d
          ("case_id" ∷ "evaluation" ∷ "evaluator_id" ∷ "results" ∷ "schema_version" ∷ []))
        _ h₁
        λ u e₁ h₂. after (item "schema_version" d >>= require_schema_version) _ h₂ λ w e₂ h₃.
          after (item "results" d >>= require_pair) _ h₃ λ raw e₃ h₄.
            after (traverse (decode_evaluator_result P) raw) _ h₄ λ results e₄ h₅.
              after (refuse (has_duplicate (map (λ r. r.candidate_id) results)) protocol_error) _ h₅
                λ v e₅ h₆.
                  after (item "case_id" d >>= require_nonempty_string) _ h₆ λ case_id e₆ h₇.
                    after (item "evaluation" d >>= require_nonempty_string) _ h₇ λ text e₇ h₈.
                      after (item "evaluator_id" d >>= require_sha256) _ h₈ λ evaluator_id e₈ h₉.
                        after (item "results" d) _ e₃ λ listed e₉ pair.
                          subst (λ t. IsPair t.results) (ok-injective h₉)
                            (results-IsPair listed raw results pair e₄ (
                              refuse-eq-ok (has_duplicate (map (λ r. r.candidate_id) results))
                                protocol_error e₅))

module _ (P : Platform) (zero_is_finite : P.is_finite (P.literal "0.0") ≡ true) where
  open P use {Float, literal, is_finite, float_eq, float_le}

  -- An observer evaluation that is accepted is accepted again, unchanged, when its document is decoded. It
  -- rests on the documented fact that 0.0 is finite.
  pub decode_observer_evaluation-again :
      (value : Json Float) (evaluation : ObserverEvaluation Float)
      → decode_observer_evaluation P value ≡ ok evaluation
      → decode_observer_evaluation P (observer_evaluation_json evaluation) ≡ ok evaluation
  unfolding decode_observer_evaluation observer_evaluation_json require_object item
      require_exact_keys get keys subset contains require_schema_version
  decode_observer_evaluation-again value evaluation h = after (require_object value) _ h λ d e h₁.
      after
        (require_exact_keys d
          ("case_id" ∷ "evaluation" ∷ "evaluator_id" ∷ "results" ∷ "schema_version" ∷ []))
        _ h₁
        λ u e₁ h₂. after (item "schema_version" d >>= require_schema_version) _ h₂ λ w e₂ h₃.
          after (item "results" d >>= require_pair) _ h₃ λ raw e₃ h₄.
            after (traverse (decode_evaluator_result P) raw) _ h₄ λ results e₄ h₅.
              after (refuse (has_duplicate (map (λ r. r.candidate_id) results)) protocol_error) _ h₅
                λ v e₅ h₆.
                  after (item "case_id" d >>= require_nonempty_string) _ h₆ λ case_id e₆ h₇.
                    after (item "evaluation" d >>= require_nonempty_string) _ h₇ λ text e₇ h₈.
                      after (item "evaluator_id" d >>= require_sha256) _ h₈ λ evaluator_id e₈ h₉.
                        after (item "results" d) _ e₃ λ listed e₉ pair.
                          let ids =
                            refuse-eq-ok (has_duplicate (map (λ r. r.candidate_id) results))
                              protocol_error e₅ in
                          let (two, distinct, ordered) =
                            results-IsPair P listed raw results pair e₄ ids in
                          let sorted = sort_by result_before results in
                          let all =
                            All-sort_by result_before
                              (λ r. decode_evaluator_result P (result_json r) ≡ ok r) results
                              (traverse-All (decode_evaluator_result P)
                                (λ r. decode_evaluator_result P (result_json r) ≡ ok r)
                                (λ v r. decode_evaluator_result-again P zero_is_finite v) raw e₄) in
                          subst
                            (λ t. decode_observer_evaluation P (observer_evaluation_json t) ≡ ok t)
                            (ok-injective h₉)
                            (rw
                              (
                                require_pair-array (map result_json sorted)
                                    (length-map result_json sorted ∙ two),
                                traverse-map (decode_evaluator_result P) result_json sorted all,
                                distinct,
                                item-again "case_id" d require_nonempty_string str
                                    (λ x a. require_nonempty_string-str x) e₆,
                                item-again "evaluation" d require_nonempty_string str
                                    (λ x a. require_nonempty_string-str x) e₇,
                                item-again "evaluator_id" d require_sha256 str
                                    (λ x a. require_sha256-str x) e₈,
                                sort_by_sorted result_before sorted ordered,
                              )
                              refl)
