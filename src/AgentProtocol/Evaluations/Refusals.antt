-- ===== src/AgentProtocol/Evaluations/Refusals.antt =====
-- apps/agent_protocol.py: a refused observer evaluation is a ProtocolError.
use metering.Prelude.{
  suc, ◌+◌, ◌≤◌, arith, All, List, ◌≡◌, refl, [], ◌∷◌, map, has_duplicate, contains,
}
use metering.Runtime.{
  ok, after, Fields, raise, ◌>>=◌, refuse, traverse, Failure, protocol_error, Json, Platform,
}
use metering.AgentProtocol.{
  require_object, item, require_exact_keys, require_nonempty_string, require_sha256, require_bool,
  require_schema_version, normalize_json_value,
}
use metering.AgentProtocol.Evaluations.{
  decode_evaluator_result, decode_observer_evaluation, require_pair,
}
use metering.AgentProtocol.Evaluations.Errors.{
  Only, Only-bind, Only-refuse, Only-raise, Only-traverse, require_object-Only,
  require_nonempty_string-Only, require_sha256-Only, require_bool-Only, require_pair-Only,
  require_schema_version-Only, member-Only, require_exact_keys-Only, normalize_json_value-Only,
}
use metering.AgentProtocol.Evaluations.Nesting.{
  nesting, nesting-item, nesting-require_object, nesting-require_pair,
}

All-map :
    {A : Type 0} {Q R : A → Type 0} (xs : List A) → ((x : A) → Q x → R x) → All Q xs → All R xs
All-map [] f a = tt
All-map (x ∷ xs) f a = (f x a.0, All-map xs f a.1)

module _ (P : Platform) where
  open P use {Float, literal, is_finite, float_eq, float_le, float_lt, of_int, recursion_room}

  decode_evaluator_result-Only :
      (value : Json Float)
      → nesting value ≤ suc recursion_room
      → Only protocol_error (decode_evaluator_result P value)
  unfolding decode_evaluator_result contains
  decode_evaluator_result-Only value shallow =
      Only-bind protocol_error (require_object value) _ (require_object-Only value) λ d e.
        Only-bind protocol_error
          (require_exact_keys d
            ("candidate_id" ∷ "evidence" ∷ "outcome" ∷ "passed" ∷ "safety_passed" ∷ []))
          _
          (require_exact_keys-Only d
            ("candidate_id" ∷ "evidence" ∷ "outcome" ∷ "passed" ∷ "safety_passed" ∷ []))
          λ u k.
            Only-bind protocol_error (item "candidate_id" d >>= require_sha256) _
              (member-Only "candidate_id" d
                ("candidate_id" ∷ "evidence" ∷ "outcome" ∷ "passed" ∷ "safety_passed" ∷ [])
                require_sha256 k refl (λ v r. require_sha256-Only v))
              λ x₁ r₁.
                Only-bind protocol_error (item "evidence" d >>= normalize_json_value P) _
                  (member-Only "evidence" d
                    ("candidate_id" ∷ "evidence" ∷ "outcome" ∷ "passed" ∷ "safety_passed" ∷ [])
                    (normalize_json_value P) k refl
                    (λ v r.
                      let below = nesting-item "evidence" d r in
                      let inside = nesting-require_object value e in
                      normalize_json_value-Only P v (omega (arith, below, inside, shallow))))
                  λ x₂ r₂.
                    Only-bind protocol_error (item "outcome" d >>= require_nonempty_string) _
                      (member-Only "outcome" d
                        ("candidate_id" ∷ "evidence" ∷ "outcome" ∷ "passed" ∷ "safety_passed" ∷ [])
                        require_nonempty_string k refl (λ v r. require_nonempty_string-Only v))
                      λ x₃ r₃.
                        Only-bind protocol_error (item "passed" d >>= require_bool) _
                          (member-Only "passed" d
                            ("candidate_id" ∷ "evidence" ∷ "outcome" ∷ "passed" ∷ "safety_passed"
                              ∷ [])
                            require_bool k refl (λ v r. require_bool-Only v))
                          λ x₄ r₄.
                            Only-bind protocol_error (item "safety_passed" d >>= require_bool) _
                              (member-Only "safety_passed" d
                                ("candidate_id" ∷ "evidence" ∷ "outcome" ∷ "passed"
                                  ∷ "safety_passed" ∷ [])
                                require_bool k refl (λ v r. require_bool-Only v))
                              λ x₅ r₅. tt

  -- The results of an evaluation that is not nested too deep.
  results-Only :
      (value : Json Float) (d : Fields Float) (raw : List (Json Float))
      → nesting value ≤ recursion_room + 3
      → require_object value ≡ ok d
      → (item "results" d >>= require_pair) ≡ ok raw
      → All (λ v. Only protocol_error (decode_evaluator_result P v)) raw
  results-Only value d raw shallow e h = after (item "results" d) _ h λ results found h₁.
      let below = nesting-item "results" d found in
      let inside = nesting-require_object value e in
      All-map raw (λ v b. decode_evaluator_result-Only v b)
        (nesting-require_pair (suc recursion_room) results (omega (arith, below, inside, shallow))
          h₁)

  decode_observer_evaluation-Only :
      (value : Json Float)
      → nesting value ≤ recursion_room + 3
      → Only protocol_error (decode_observer_evaluation P value)
  unfolding decode_observer_evaluation contains
  decode_observer_evaluation-Only value shallow =
      Only-bind protocol_error (require_object value) _ (require_object-Only value) λ d e.
        Only-bind protocol_error
          (require_exact_keys d
            ("case_id" ∷ "evaluation" ∷ "evaluator_id" ∷ "results" ∷ "schema_version" ∷ []))
          _
          (require_exact_keys-Only d
            ("case_id" ∷ "evaluation" ∷ "evaluator_id" ∷ "results" ∷ "schema_version" ∷ []))
          λ u k.
            Only-bind protocol_error (item "schema_version" d >>= require_schema_version) _
              (member-Only "schema_version" d
                ("case_id" ∷ "evaluation" ∷ "evaluator_id" ∷ "results" ∷ "schema_version" ∷ [])
                require_schema_version k refl (λ v r. require_schema_version-Only v))
              λ u₁ r₁.
                Only-bind protocol_error (item "results" d >>= require_pair) _
                  (member-Only "results" d
                    ("case_id" ∷ "evaluation" ∷ "evaluator_id" ∷ "results" ∷ "schema_version" ∷ [])
                    require_pair k refl (λ v r. require_pair-Only v))
                  λ raw r₂.
                    Only-bind protocol_error (traverse (decode_evaluator_result P) raw) _
                      (Only-traverse protocol_error (decode_evaluator_result P) raw
                        (results-Only value d raw shallow e r₂))
                      λ results r₃.
                        Only-bind protocol_error
                          (refuse (has_duplicate (map (λ r. r.candidate_id) results))
                            protocol_error)
                          _
                          (Only-refuse protocol_error
                            (has_duplicate (map (λ r. r.candidate_id) results)))
                          λ u₄ r₄.
                            Only-bind protocol_error (item "case_id" d >>= require_nonempty_string)
                              _
                              (member-Only "case_id" d
                                ("case_id" ∷ "evaluation" ∷ "evaluator_id" ∷ "results"
                                  ∷ "schema_version" ∷ [])
                                require_nonempty_string k refl
                                (λ v r. require_nonempty_string-Only v))
                              λ x₅ r₅.
                                Only-bind protocol_error
                                  (item "evaluation" d >>= require_nonempty_string) _
                                  (member-Only "evaluation" d
                                    ("case_id" ∷ "evaluation" ∷ "evaluator_id" ∷ "results"
                                      ∷ "schema_version" ∷ [])
                                    require_nonempty_string k refl
                                    (λ v r. require_nonempty_string-Only v))
                                  λ x₆ r₆.
                                    Only-bind protocol_error
                                      (item "evaluator_id" d >>= require_sha256) _
                                      (member-Only "evaluator_id" d
                                        ("case_id" ∷ "evaluation" ∷ "evaluator_id" ∷ "results"
                                          ∷ "schema_version" ∷ [])
                                        require_sha256 k refl (λ v r. require_sha256-Only v))
                                      λ x₇ r₇. tt

  -- Given any document whose nesting is at most 3 more than the nested calls for which the stack has room,
  -- the decoder of an observer evaluation returns or raises ProtocolError: no KeyError, no error of the
  -- float conversion, no RecursionError.
  pub decode_observer_evaluation-protocol_error :
      (value : Json Float) (e : Failure)
      → nesting value ≤ recursion_room + 3
      → decode_observer_evaluation P value ≡ raise e
      → e ≡ protocol_error
  decode_observer_evaluation-protocol_error value e shallow h =
      Only-raise protocol_error (decode_observer_evaluation P value)
        (decode_observer_evaluation-Only value shallow) e h
