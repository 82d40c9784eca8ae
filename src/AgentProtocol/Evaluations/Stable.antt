-- ===== src/AgentProtocol/Evaluations/Stable.antt =====
-- apps/agent_protocol.py: the documents that the decoders return pass the decoders again, unchanged.
use metering.Prelude.{
  suc, ◌≡◌, refl, ap, subst, Bool, true, List, [], ◌∷◌, map, length, String, subset, contains,
}
use metering.Runtime.{
  after, ok-injective, Result, ok, ◌>>=◌, Json, bool, str, items, array, Platform, Fields, get,
  keys,
}
use metering.AgentProtocol.{
  require_object, item, require_exact_keys, require_nonempty_string, require_sha256, require_bool,
  normalize_json_value,
}
use metering.AgentProtocol.Evaluations.{
  decode_task, task_json, decode_evaluator_result, result_json, EvaluatorResult, TaskDocument,
}
use metering.AgentProtocol.Evaluations.Again.{
  require_nonempty_string-str, require_sha256-str, normalize_json_value-again,
}

pub items-array : {F : Type 0} (vs : List (Json F)) → items (array vs) ≡ vs
unfolding items array
items-array [] = refl
items-array (v ∷ vs) = ap (λ ws. v ∷ ws) (items-array vs)

pub length-map : {A B : Type 0} (f : A → B) (xs : List A) → length (map f xs) ≡ length xs
length-map f [] = refl
length-map f (x ∷ xs) = ap suc (length-map f xs)

-- A member that passed a check passes it again in the document of the result.
pub item-again :
    {F A : Type 0} (k : String) (d : Fields F) (check : Json F → Result A) (print : A → Json F)
    → ((value : Json F) (a : A) → check value ≡ ok a → check (print a) ≡ ok a)
    → {a : A} → (item k d >>= check) ≡ ok a
    → check (print a) ≡ ok a
item-again k d check print again {a} h = after (item k d) _ h λ value e r. again value a r

pub require_bool-bool :
    {F : Type 0} (value : Json F) {b : Bool}
    → require_bool value ≡ ok b
    → require_bool {F = F} (bool b) ≡ ok b
unfolding require_bool
require_bool-bool value h = refl

module _ (P : Platform) (zero_is_finite : P.is_finite (P.literal "0.0") ≡ true) where
  open P use {Float, literal, is_finite, float_eq, float_le}

  pub decode_task-again :
      (value : Json Float) {task : TaskDocument Float}
      → decode_task P value ≡ ok task
      → decode_task P (task_json task) ≡ ok task
  unfolding decode_task task_json require_object item require_exact_keys get keys subset contains
  decode_task-again value {task} h = after (require_object value) _ h λ d e h₁.
      after (require_exact_keys d ("case_id" ∷ "input" ∷ [])) _ h₁ λ u e₁ h₂.
        after (item "case_id" d >>= require_nonempty_string) _ h₂ λ case_id e₂ h₃.
          after (item "input" d >>= normalize_json_value P) _ h₃ λ input e₃ h₄.
            let text =
              item-again "case_id" d require_nonempty_string str
                (λ v a. require_nonempty_string-str v) e₂ in
            let normal =
              item-again "input" d (normalize_json_value P) (λ v. v)
                (λ v a. normalize_json_value-again P zero_is_finite v) e₃ in
            subst (λ t. decode_task P (task_json t) ≡ ok t) (ok-injective h₄)
              (rw (text, normal) refl)

  pub decode_evaluator_result-again :
      (value : Json Float) {r : EvaluatorResult Float}
      → decode_evaluator_result P value ≡ ok r
      → decode_evaluator_result P (result_json r) ≡ ok r
  unfolding decode_evaluator_result result_json require_object item require_exact_keys get keys
      subset contains require_bool
  decode_evaluator_result-again value {r} h = after (require_object value) _ h λ d e h₁.
      after
        (require_exact_keys d
          ("candidate_id" ∷ "evidence" ∷ "outcome" ∷ "passed" ∷ "safety_passed" ∷ []))
        _ h₁
        λ u e₁ h₂. after (item "candidate_id" d >>= require_sha256) _ h₂ λ candidate_id e₂ h₃.
          after (item "evidence" d >>= normalize_json_value P) _ h₃ λ evidence e₃ h₄.
            after (item "outcome" d >>= require_nonempty_string) _ h₄ λ outcome e₄ h₅.
              after (item "passed" d >>= require_bool) _ h₅ λ passed e₅ h₆.
                after (item "safety_passed" d >>= require_bool) _ h₆ λ safety_passed e₆ h₇.
                  let id =
                    item-again "candidate_id" d require_sha256 str (λ v a. require_sha256-str v)
                      e₂ in
                  let normal =
                    item-again "evidence" d (normalize_json_value P) (λ v. v)
                      (λ v a. normalize_json_value-again P zero_is_finite v) e₃ in
                  let text =
                    item-again "outcome" d require_nonempty_string str
                      (λ v a. require_nonempty_string-str v) e₄ in
                  subst (λ t. decode_evaluator_result P (result_json t) ≡ ok t) (ok-injective h₇)
                    (rw (id, normal, text) refl)
