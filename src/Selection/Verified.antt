-- ===== src/Selection/Verified.antt =====
-- apps/selection_gate/task_selection.py: what a verified report is sure to have.
use metering.Prelude.{
  fresh, fresh-cons, subset-both, suc, ◌≡◌, refl, ap, subst, sym, ◌∙◌, ◌≤◌, ◌<◌, arith, true, false,
  ◌&&◌, List, [], ◌∷◌, map, length, String, str_eq, subset, has_duplicate, contains,
}
use metering.Runtime.{
  after, ok-injective, require-eq-ok, refuse-eq-ok, on_protocol_error-eq-ok, ok, ◌>>=◌, require,
  refuse, on_protocol_error, protocol_error, selection_error, Json, null, bool, int, float, str,
  surrogates, arr, obj, Platform, Decimals, Fields, nil, cons,
}
use metering.AgentProtocol.{
  require_nonempty_array, item, require_exact_keys, require_nonempty_string, require_sha256,
  require_schema_version, canonical_digest,
}
use metering.Selection.Reports.{
  VerifiedTaskReport, VerifiedTaskCase, verify_task_report, verify_report_fields, verify_task_cases,
  passed_cases, safety_failed_cases, case_ids, verify_task_case, verify_task_summary,
  verify_forecast_measurement,
}
use metering.Selection.Gate.{
  Selection, compare_reports, select_task_reports, decode_selection_request, evidence_document,
}

module _ {F : Type 0} where
  passed_cases-le : (cases : List (VerifiedTaskCase F)) → passed_cases cases ≤ length cases
  unfolding passed_cases
  passed_cases-le [] = omega arith
  passed_cases-le (c ∷ cases) = ground (arith, passed_cases-le cases)

  safety_failed_cases-le :
      (cases : List (VerifiedTaskCase F)) → safety_failed_cases cases ≤ length cases
  unfolding safety_failed_cases
  safety_failed_cases-le [] = omega arith
  safety_failed_cases-le (c ∷ cases) = ground (arith, safety_failed_cases-le cases)

  -- The cases have distinct ids, there is one at least, and the counts are those of the cases.
  abbrev pub IsVerified : VerifiedTaskReport F → Type 0
  IsVerified report =
      (0 < length report.cases)
      × (has_duplicate (case_ids report.cases) ≡ false)
      × (report.passed_count ≡ passed_cases report.cases)
      × (report.safety_failures ≡ safety_failed_cases report.cases)
      × (report.passed_count ≤ length report.cases)
      × (report.safety_failures ≤ length report.cases)

module _ (P : Platform) (D : Decimals P.Float) where
  open P use {Float}
  open D use {Decimal}

  -- No id of the later cases is one of those before, and none is there twice.
  verify_task_cases-distinct :
      (seen : List String) (raw : List (Json Decimal)) (cases : List (VerifiedTaskCase Float))
      → verify_task_cases P D seen raw ≡ ok cases
      → (fresh seen (case_ids cases) ≡ true)
        × (has_duplicate (case_ids cases) ≡ false)
        × (length cases ≡ length raw)
  unfolding verify_task_cases case_ids has_duplicate fresh
  verify_task_cases-distinct seen [] cases h =
      subst
        (λ cs.
          (fresh seen (case_ids cs) ≡ true)
          × (has_duplicate (case_ids cs) ≡ false)
          × (length cs ≡ 0))
        (ok-injective h) (refl, refl, refl)
  verify_task_cases-distinct seen (raw_case ∷ raw) cases h =
      after (verify_task_case P D raw_case) _ h λ c e h₁.
        after (refuse (contains c.case_id seen) protocol_error) _ h₁ λ u e₁ h₂.
          after (verify_task_cases P D (c.case_id ∷ seen) raw) _ h₂ λ rest e₂ h₃.
            let new = refuse-eq-ok (contains c.case_id seen) protocol_error e₁ in
            let (distinct, single, counted) =
              verify_task_cases-distinct (c.case_id ∷ seen) raw rest e₂ in
            let split = sym (fresh-cons c.case_id seen (case_ids rest)) ∙ distinct in
            subst
              (λ cs.
                (fresh seen (case_ids cs) ≡ true)
                × (has_duplicate (case_ids cs) ≡ false)
                × (length cs ≡ suc (length raw)))
              (ok-injective h₃)
              (ground (arith, new, split), ground (arith, single, split), ap suc counted)

  require_nonempty_array-pos :
      (value : Json Decimal) {vs : List (Json Decimal)}
      → require_nonempty_array value ≡ ok vs
      → 0 < length vs
  unfolding require_nonempty_array
  require_nonempty_array-pos (arr (cons v us)) h =
      subst (λ vs. 0 < length vs) (ok-injective h) (omega arith)
  require_nonempty_array-pos (arr nil) h = cc
  require_nonempty_array-pos null h = cc
  require_nonempty_array-pos (bool b) h = cc
  require_nonempty_array-pos (int n) h = cc
  require_nonempty_array-pos (float x) h = cc
  require_nonempty_array-pos (str s) h = cc
  require_nonempty_array-pos (surrogates cs) h = cc
  require_nonempty_array-pos (obj d) h = cc

  verify_report_fields-IsVerified :
      (d : Fields Decimal) {report : VerifiedTaskReport Float}
      → verify_report_fields P D d ≡ ok report
      → IsVerified report
  unfolding verify_report_fields
  verify_report_fields-IsVerified d {report} h =
      after
        (require_exact_keys d (
          "candidate" ∷ "cases" ∷ "evaluation" ∷ "forecast_measurement" ∷ "schema_version"
          ∷ "task_summary" ∷ []))
        _ h
        λ u e h₁. after (item "schema_version" d >>= require_schema_version) _ h₁ λ u₁ e₁ h₂.
          after (item "candidate" d >>= require_sha256) _ h₂ λ candidate e₂ h₃.
            after (item "evaluation" d >>= require_nonempty_string) _ h₃ λ evaluation e₃ h₄.
              after (item "cases" d >>= require_nonempty_array) _ h₄ λ raw e₄ h₅.
                after (verify_task_cases P D [] raw) _ h₅ λ cases e₅ h₆.
                  after (item "task_summary" d) _ h₆ λ summary e₆ h₇.
                    after
                      (verify_task_summary P D summary (length cases) (passed_cases cases)
                        (safety_failed_cases cases))
                      _ h₇
                      λ u₇ e₇ h₈. after (item "forecast_measurement" d) _ h₈ λ measurement e₈ h₉.
                        after
                          (verify_forecast_measurement P D measurement (length cases)
                            (map (λ c. c.target_surprisal_bits) cases))
                          _ h₉
                          λ mean e₉ k. after (item "cases" d) _ e₄ λ listed f g.
                            let (distinct, single, counted) =
                              verify_task_cases-distinct [] raw cases e₅ in
                            subst IsVerified (ok-injective k) (
                              subst (λ n. 0 < n) (sym counted)
                                  (require_nonempty_array-pos listed g),
                              single,
                              refl,
                              refl,
                              passed_cases-le cases,
                              safety_failed_cases-le cases,
                            )

  pub verify_task_report-IsVerified :
      (value : Json Decimal) {report : VerifiedTaskReport Float}
      → verify_task_report P D value ≡ ok report
      → IsVerified report
  unfolding verify_task_report
  verify_task_report-IsVerified (obj d) h =
      verify_report_fields-IsVerified d
        (on_protocol_error-eq-ok selection_error (verify_report_fields P D d) h)
  verify_task_report-IsVerified null h = cc
  verify_task_report-IsVerified (bool b) h = cc
  verify_task_report-IsVerified (int n) h = cc
  verify_task_report-IsVerified (float x) h = cc
  verify_task_report-IsVerified (str s) h = cc
  verify_task_report-IsVerified (surrogates cs) h = cc
  verify_task_report-IsVerified (arr vs) h = cc

  -- In every accepted selection, each report has at least one case, its case ids are distinct, its counts of
  -- passed cases and of safety failures are those of its cases, so at most the number of its cases, and each
  -- case id of one report is a case id of the other.
  pub select_task_reports-IsVerified :
      (request : Fields Decimal) (selection : Selection Float)
      → select_task_reports P D request ≡ ok selection
      → IsVerified selection.incumbent
        × IsVerified selection.challenger
        × ((id : String)
            → contains id (case_ids selection.incumbent.cases)
              ≡ contains id (case_ids selection.challenger.cases))
  unfolding select_task_reports compare_reports
  select_task_reports-IsVerified request selection h =
      after (on_protocol_error selection_error (decode_selection_request request)) _ h
        λ policy e h₁.
          after (item "incumbent_report" request >>= verify_task_report P D) _ h₁ λ incumbent e₁ h₂.
            after (item "challenger_report" request >>= verify_task_report P D) _ h₂
              λ challenger e₂ h₃.
                after (refuse (str_eq incumbent.candidate challenger.candidate) selection_error) _
                  h₃
                  λ u e₃ h₄.
                    after
                      (require (str_eq incumbent.evaluation challenger.evaluation) selection_error)
                      _ h₄
                      λ w e₄ h₅.
                        let both =
                          subset (case_ids incumbent.cases) (case_ids challenger.cases)
                          && subset (case_ids challenger.cases) (case_ids incumbent.cases) in
                        after (require both selection_error) _ h₅ λ v e₅ h₆.
                          after
                            (canonical_digest P (evidence_document P D incumbent challenger policy))
                            _ h₆
                            λ id e₆ h₇. after (item "incumbent_report" request) _ e₁ λ raw f g.
                              after (item "challenger_report" request) _ e₂ λ other f₂ g₂.
                                let same = require-eq-ok both selection_error e₅ in
                                subst
                                  (λ s.
                                    IsVerified s.incumbent
                                    × IsVerified s.challenger
                                    × ((id : String)
                                        → contains id (case_ids s.incumbent.cases)
                                          ≡ contains id (case_ids s.challenger.cases)))
                                  (ok-injective h₇)
                                  (
                                    verify_task_report-IsVerified raw g,
                                    verify_task_report-IsVerified other g₂,
                                    λ k.
                                        subset-both k (case_ids incumbent.cases)
                                          (case_ids challenger.cases) same,
                                  )
