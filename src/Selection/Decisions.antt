-- ===== src/Selection/Decisions.antt =====
-- apps/selection_gate/task_selection.py: when the challenger is promoted, and what the selected candidate
-- is sure to have.
use metering.Prelude.{
  ℕ, ◌+◌, ◌≡◌, refl, subst, ◌≤◌, inl, inr, arith, eq_iff, Bool-cases, ◌↔◌, true, false, ◌&&◌, [],
  ◌∷◌, leb, ltb, if◌then◌else◌, str_eq, subset,
}
use metering.Runtime.{
  after, ok-injective, require-eq-ok, refuse-eq-ok, on_protocol_error-eq-ok, ok, ◌>>=◌, require,
  refuse, on_protocol_error, protocol_error, selection_error, Json, Platform, Decimals, Fields,
}
use metering.AgentProtocol.{
  require_object, item, is_text, require_exact_keys, require_bool, require_schema_version,
  canonical_digest,
}
use metering.Selection.{difference, at_least}
use metering.Selection.Reports.{VerifiedTaskReport, verify_task_report, case_ids}
use metering.Selection.Gate.{
  SelectionPolicy, Selection, decide, compare_reports, select_task_reports,
  decode_selection_request, decode_policy, positive_count, evidence_document,
}

at_least-difference : (a b m : ℕ) → 1 ≤ m → at_least (difference a b) m ≡ leb (b + m) a
unfolding at_least difference
at_least-difference a b m k = ground arith

module _ {F : Type 0} where
  -- The rule of the policy on the counts of the two reports.
  abbrev pub Earned : SelectionPolicy → VerifiedTaskReport F → VerifiedTaskReport F → Type 0
  Earned policy incumbent challenger =
      (incumbent.passed_count + policy.minimum_pass_improvement ≤ challenger.passed_count)
      × (policy.reject_safety_regression ≡ true
          → challenger.safety_failures ≤ incumbent.safety_failures)

  decide_iff :
      (policy : SelectionPolicy) (incumbent challenger : VerifiedTaskReport F)
      → 1 ≤ policy.minimum_pass_improvement
      → ((decide policy
            (difference challenger.passed_count incumbent.passed_count)
            (ltb incumbent.safety_failures challenger.safety_failures)).0
          ≡ true)
        ↔ Earned policy incumbent challenger
  unfolding decide
  decide_iff policy incumbent challenger h =
      let exact =
        at_least-difference challenger.passed_count incumbent.passed_count
          policy.minimum_pass_improvement h in
      rw exact (
        λ promoted. (ground (arith, promoted), λ reject. ground (arith, promoted, reject)),
        λ (enough, safe). elim (Bool-cases policy.reject_safety_regression) [
          | inl reject ↦ let e = safe reject in ground (arith, enough, e, reject)
          | inr keep ↦ ground (arith, enough, keep)
        ],
      )

  -- What a selection is made of: differing candidates, one evaluation, the same cases, and the decision.
  abbrev pub IsDecided : Selection F → Type 0
  IsDecided s =
      (str_eq s.incumbent.candidate s.challenger.candidate ≡ false)
      × (s.incumbent.evaluation ≡ s.challenger.evaluation)
      × (1 ≤ s.policy.minimum_pass_improvement)
      × ((s.promote ≡ true) ↔ Earned s.policy s.incumbent s.challenger)
      × (s.selected ≡ (if s.promote then s.challenger.candidate else s.incumbent.candidate))

module _ (P : Platform) (D : Decimals P.Float) where
  open P use {Float}
  open D use {Decimal}

  compare_reports-IsDecided :
      (policy : SelectionPolicy) (incumbent challenger : VerifiedTaskReport Float)
      (selection : Selection Float)
      → 1 ≤ policy.minimum_pass_improvement
      → compare_reports P D policy incumbent challenger ≡ ok selection
      → IsDecided selection
  unfolding compare_reports
  compare_reports-IsDecided policy incumbent challenger selection positive h =
      after (refuse (str_eq incumbent.candidate challenger.candidate) selection_error) _ h λ u e h₁.
        after (require (str_eq incumbent.evaluation challenger.evaluation) selection_error) _ h₁
          λ w e₁ h₂.
            after
              (require
                (subset (case_ids incumbent.cases) (case_ids challenger.cases)
                  && subset (case_ids challenger.cases) (case_ids incumbent.cases))
                selection_error)
              _ h₂
              λ v e₂ h₃.
                after (canonical_digest P (evidence_document P D incumbent challenger policy)) _ h₃
                  λ id e₃ h₄. subst IsDecided (ok-injective h₄) (
                    refuse-eq-ok (str_eq incumbent.candidate challenger.candidate) selection_error
                        e,
                    (eq_iff incumbent.evaluation challenger.evaluation).0 (
                        require-eq-ok (str_eq incumbent.evaluation challenger.evaluation)
                          selection_error e₁),
                    positive,
                    decide_iff policy incumbent challenger positive,
                    refl,
                  )

  positive_count-pos : (value : Json Decimal) {n : ℕ} → positive_count value ≡ ok n → 1 ≤ n
  unfolding positive_count
  positive_count-pos value h = ground arith

  decode_selection_request-pos :
      (request : Fields Decimal) {policy : SelectionPolicy}
      → decode_selection_request request ≡ ok policy
      → 1 ≤ policy.minimum_pass_improvement
  unfolding decode_selection_request decode_policy
  decode_selection_request-pos request {policy} h =
      after
        (require_exact_keys request
          ("schema_version" ∷ "incumbent_report" ∷ "challenger_report" ∷ "policy" ∷ []))
        _ h
        λ u e h₁. after (item "schema_version" request >>= require_schema_version) _ h₁ λ w e₁ h₂.
          after (item "policy" request) _ h₂ λ raw e₂ h₃. after (require_object raw) _ h₃ λ d e₃ h₄.
            after
              (require_exact_keys d
                ("type" ∷ "minimum_pass_improvement" ∷ "reject_safety_regression" ∷ []))
              _ h₄
              λ v e₄ h₅. after (item "type" d) _ h₅ λ type e₅ h₆.
                after (require (is_text type "task-pass-count-v1") protocol_error) _ h₆ λ z e₆ h₇.
                  after (item "minimum_pass_improvement" d >>= positive_count) _ h₇ λ minimum e₇ h₈.
                    after (item "reject_safety_regression" d >>= require_bool) _ h₈ λ reject e₈ h₉.
                      after (item "minimum_pass_improvement" d) _ e₇ λ raw_minimum e₉ k.
                        subst (λ p. 1 ≤ p.minimum_pass_improvement) (ok-injective h₉)
                          (positive_count-pos raw_minimum k)

  -- Of every accepted selection request: the two candidates differ, the evaluations agree, the challenger is
  -- promoted exactly if it passes at least the policy's minimum more cases and, where the policy rejects a
  -- safety regression, fails the safety of no more cases; the selected candidate is the challenger if it is
  -- promoted, and else the incumbent.
  pub select_task_reports-IsDecided :
      (request : Fields Decimal) (selection : Selection Float)
      → select_task_reports P D request ≡ ok selection
      → IsDecided selection
  unfolding select_task_reports
  select_task_reports-IsDecided request selection h =
      after (on_protocol_error selection_error (decode_selection_request request)) _ h
        λ policy e h₁.
          after (item "incumbent_report" request >>= verify_task_report P D) _ h₁ λ incumbent e₁ h₂.
            after (item "challenger_report" request >>= verify_task_report P D) _ h₂
              λ challenger e₂ h₃.
                compare_reports-IsDecided policy incumbent challenger selection
                  (decode_selection_request-pos request
                    (on_protocol_error-eq-ok selection_error (decode_selection_request request) e))
                  h₃
