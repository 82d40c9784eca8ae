-- ===== src/Controller/Evidence.antt =====
-- apps/controller/contract.py: what the parts of an accepted generation are sure to have.
use metering.Prelude.{
  ◌≡◌, refl, subst, ◌⊎◌, inl, inr, arith, eq_iff, Bool-cases, true, false, ◌||◌, List, map, length,
  String, str_eq,
}
use metering.Runtime.{
  after, ok-injective, require-eq-ok, refuse-eq-ok, Result, ok, raise, require, refuse,
  on_protocol_error, on_key_error, Failure, controller_error, Json, str, Platform, Fields, get,
}
use metering.AgentProtocol.Artifact.{Candidate}
use metering.Runtime.{on_value_error, is_value_error}
use metering.AgentProtocol.Evaluations.{TaskDocument}
use metering.Controller.Reports.{
  ReportEvidence, passed_reports, unsafe_reports, report_cases, get_equals, require_length,
  validated_report_cases, same_texts, summary_json,
}
use metering.Controller.Generations.{Lineage, same_candidate, decode_lineage, replay_lineage}

module _ {ℓ} {A : Type ℓ} where
  pub on_value_error-eq-ok :
      (e : Failure) (m : Result A) {a : A} → on_value_error e m ≡ ok a → m ≡ ok a
  on_value_error-eq-ok e (ok b) h = h
  on_value_error-eq-ok e (raise f) h = elim (Bool-cases (is_value_error f)) [
    | inl mapped ↦ cc
    | inr other ↦ cc
  ]

module _ (P : Platform) where
  open P use {Float}

  -- The evidence is that of a report of the candidate and the evaluation, one case for each task, and its
  -- counts are those of its cases.
  abbrev pub IsReported :
      Fields Float → String → List (TaskDocument Float) → Json Float → ReportEvidence Float → Type 0
  IsReported report id tasks evaluation evidence =
      (get_equals P "candidate" report (str id) ≡ true)
      × (get_equals P "evaluation" report evaluation ≡ true)
      × ((raw : List (Json Float)) × (require_length (length tasks) (get "cases" report) ≡ ok raw)
          × (report_cases P raw ≡ ok evidence.cases))
      × (evidence.case_count ≡ length tasks)
      × (evidence.passed_count ≡ passed_reports evidence.cases)
      × (evidence.safety_failures ≡ unsafe_reports evidence.cases)

  pub validated_report_cases-IsReported :
      (report : Fields Float) (id : String) (tasks : List (TaskDocument Float))
      (evaluation : Json Float) {evidence : ReportEvidence Float}
      → validated_report_cases P report id tasks evaluation ≡ ok evidence
      → IsReported report id tasks evaluation evidence
  unfolding validated_report_cases
  validated_report_cases-IsReported report id tasks evaluation h =
      after (require (get_equals P "candidate" report (str id)) controller_error) _ h λ u₁ e₁ h₁.
        after (require (get_equals P "evaluation" report evaluation) controller_error) _ h₁
          λ u₂ e₂ h₂. after (require_length (length tasks) (get "cases" report)) _ h₂ λ raw e₃ h₃.
            after (report_cases P raw) _ h₃ λ cases e₄ h₄.
              after
                (require
                  (same_texts (map (λ c. c.0.case_id) cases) (map (λ task. task.case_id) tasks))
                  controller_error)
                _ h₄
                λ u₅ e₅ h₅.
                  after
                    (require
                      (get_equals P "task_summary" report
                        (summary_json (length tasks) (passed_reports cases) (unsafe_reports cases)))
                      controller_error)
                    _ h₅
                    λ u₆ e₆ h₆. subst (IsReported report id tasks evaluation) (ok-injective h₆) (
                      require-eq-ok (get_equals P "candidate" report (str id)) controller_error e₁,
                      require-eq-ok (get_equals P "evaluation" report evaluation) controller_error
                          e₂,
                      (raw, e₃, e₄),
                      refl,
                      refl,
                      refl,
                    )

  -- The candidates of a lineage: the child is not the parent, and the next parent is one of the two.
  abbrev pub IsLineage : Candidate → Candidate → Candidate → Type 0
  IsLineage parent child next_parent =
      (str_eq child.candidate_id parent.candidate_id ≡ false)
      × ((next_parent.candidate_id ≡ parent.candidate_id)
          ⊎ (next_parent.candidate_id ≡ child.candidate_id))

  one_of_two : (a b c : String) → (str_eq a b || str_eq a c) ≡ true → (a ≡ b) ⊎ (a ≡ c)
  one_of_two a b c h = elim (Bool-cases (str_eq a b)) [
    | inl same ↦ inl ((eq_iff a b).0 same)
    | inr other ↦ inr ((eq_iff a c).0 (ground (arith, h, other)))
  ]

  pub replay_lineage-IsLineage :
      (result mutation mutation_request : Fields Float) {l : Lineage}
      → replay_lineage P result mutation mutation_request ≡ ok l
      → IsLineage l.parent l.child l.next_parent
  unfolding replay_lineage
  replay_lineage-IsLineage result mutation mutation_request h =
      after
        (on_protocol_error controller_error
          (on_key_error controller_error (decode_lineage P result mutation mutation_request)))
        _ h
        λ decoded e₁ h₁.
          let (l, requested) = decoded in
          after (require (same_candidate P l.parent requested) controller_error) _ h₁ λ u₂ e₂ h₂.
            after (refuse (str_eq l.child.candidate_id l.parent.candidate_id) controller_error) _ h₂
              λ u₃ e₃ h₃.
                let either =
                  str_eq l.next_parent.candidate_id l.parent.candidate_id
                  || str_eq l.next_parent.candidate_id l.child.candidate_id in
                after (require either controller_error) _ h₃ λ u₄ e₄ h₄.
                  subst (λ (k : Lineage). IsLineage k.parent k.child k.next_parent)
                    (ok-injective h₄)
                    (
                      refuse-eq-ok (str_eq l.child.candidate_id l.parent.candidate_id)
                          controller_error e₃,
                      one_of_two l.next_parent.candidate_id l.parent.candidate_id
                          l.child.candidate_id (require-eq-ok either controller_error e₄),
                    )
