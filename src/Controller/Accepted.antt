-- ===== src/Controller/Accepted.antt =====
-- apps/controller/contract.py: an accepted generation is the one that its reports and traces bear out.
use metering.Prelude.{◌≡◌, subst, some, true, List}
use metering.Runtime.{
  after, ok-injective, require-eq-ok, on_protocol_error-eq-ok, ok, require, traverse,
  on_protocol_error, controller_error, Json, obj, Platform, Decimals, Fields, get,
}
use metering.AgentProtocol.{item, is_text, require_sha256, canonical_json}
use metering.AgentProtocol.Evaluations.{TaskDocument, decode_task}
use metering.Selection.Gate.{selection_json}
use metering.Controller.Reports.{require_dict}
use metering.Controller.Generations.{
  Lineage, Generation, get_or_null, is_nonempty_text, component_command, nonempty_tasks,
  check_envelope, replay_lineage, replay_selection, replay_cases, validate_agent_generation_receipt,
}
use metering.Controller.Evidence.{IsLineage, replay_lineage-IsLineage}
use metering.Controller.Commands.{require_dict-some}
use metering.Controller.Requested.{
  AreReplayed, IsGateSelection, replay_cases-AreReplayed, replay_selection-IsGateSelection,
}

module _ (P : Platform) (D : Decimals P.Float) where
  open P use {Float}

  abbrev lineage_of : Generation Float → Lineage
  lineage_of g = record { child = g.child; next_parent = g.next_parent; parent = g.parent }

  -- What an accepted generation has.
  abbrev pub IsGeneration : Fields Float → Fields Float → Generation Float → Type 0
  IsGeneration request result g =
      (incumbent : Fields Float) × (challenger : Fields Float) × (policy : Fields Float)
      × (selection : Fields Float) × (selected : Json Float) × (raw_tasks : List (Json Float))
      × (tasks : List (TaskDocument Float)) × (get "incumbent_report" result ≡ some (obj incumbent))
      × (get "challenger_report" result ≡ some (obj challenger))
      × (get "selection_policy" request ≡ some (obj policy))
      × (get "selection" result ≡ some (obj selection))
      × IsLineage P g.parent g.child g.next_parent
      × IsGateSelection P D challenger incumbent policy g.selection
      × (canonical_json P (obj selection) ≡ canonical_json P (selection_json g.selection))
      × (item "selected" selection ≡ ok selected)
      × (is_text selected g.next_parent.candidate_id ≡ true)
      × (nonempty_tasks (get_or_null "tasks" request) ≡ ok raw_tasks)
      × (traverse (decode_task P) raw_tasks ≡ ok tasks)
      × AreReplayed P request result incumbent challenger (lineage_of g) tasks g.parent_evidence
          g.child_evidence

  -- In every generation that the contract accepts:
  -- the child is not the parent, and the next parent is one of the two;
  -- the selection is the gate's decision on the result's challenger report as challenger and its incumbent
  -- report as incumbent under the request's policy, has the canonical document of the result's selection,
  -- and the latter selects the next parent;
  -- the evidence of the parent is that of the incumbent report and names the parent, the evidence of the
  -- child that of the challenger report and names the child, both for the request's evaluation, with one
  -- case for each task and the counts of their cases;
  -- and for each task of the request, in order, there is a trace of that task whose two runs have the digest
  -- of the request's runner command as adapter, whose evaluator is the digest of the request's evaluator
  -- command and whose evaluation is the request's, whose evaluator's result for each candidate has the
  -- canonical document of the reported case, and whose forecast gives the reported probability to the
  -- observed outcome alone.
  pub validate_agent_generation_receipt-IsGeneration :
      (request result : Fields Float) (g : Generation Float)
      → validate_agent_generation_receipt P D request result ≡ ok g
      → IsGeneration request result g
  unfolding validate_agent_generation_receipt
  validate_agent_generation_receipt-IsGeneration request result g h =
      after (check_envelope P request result) _ h λ u₁ e₁ h₁.
        after (require_dict (get "mutation" result)) _ h₁ λ mutation e₂ h₂.
          after (require_dict (get "mutation_request" request)) _ h₂ λ asked e₃ h₃.
            after (replay_lineage P result mutation asked) _ h₃ λ l e₄ h₄.
              after (require_dict (get "selection_policy" request)) _ h₄ λ policy e₅ h₅.
                after (nonempty_tasks (get_or_null "tasks" request)) _ h₅ λ raw_tasks e₆ h₆.
                  after (component_command (get "runner" request)) _ h₆ λ runner e₇ h₇.
                    after (component_command (get "evaluator" request)) _ h₇ λ evaluator e₈ h₈.
                      after (require_dict (get "incumbent_report" result)) _ h₈ λ incumbent e₉ h₉.
                        after (require_dict (get "challenger_report" result)) _ h₉
                          λ challenger f₁ k₁.
                            after (require_dict (get "selection" result)) _ k₁ λ selection f₂ k₂.
                              after (replay_selection P D challenger incumbent policy selection) _
                                k₂
                                λ s f₃ k₃. after (item "selected" selection) _ k₃ λ selected f₄ k₄.
                                  let selects = is_text selected l.next_parent.candidate_id in
                                  after (require selects controller_error) _ k₄ λ u₅ f₅ k₅.
                                    after
                                      (on_protocol_error controller_error
                                        (traverse (decode_task P) raw_tasks))
                                      _ k₅
                                      λ tasks f₆ k₆.
                                        let evaluation = get_or_null "evaluation" request in
                                        let named = is_nonempty_text evaluation in
                                        after (require named controller_error) _ k₆ λ u₇ f₇ k₇.
                                          after
                                            (replay_cases P D result l evaluation tasks incumbent
                                              challenger runner evaluator)
                                            _ k₇
                                            λ evidence f₈ k₈.
                                              after (require_dict (get "mutation" mutation)) _ k₈
                                                λ detail f₉ k₉.
                                                  after
                                                    (on_protocol_error controller_error (
                                                      require_sha256
                                                        (get_or_null "proposal_id" detail)))
                                                    _ k₉
                                                    λ proposal_id g₁ m₁.
                                                      let (decided, same) =
                                                        replay_selection-IsGateSelection P D
                                                          challenger incumbent policy selection
                                                          f₃ in
                                                      subst (IsGeneration request result)
                                                        (ok-injective m₁)
                                                        (
                                                          incumbent,
                                                          challenger,
                                                          policy,
                                                          selection,
                                                          selected,
                                                          raw_tasks,
                                                          tasks,
                                                          require_dict-some P
                                                            (get "incumbent_report" result) e₉,
                                                          require_dict-some P
                                                            (get "challenger_report" result) f₁,
                                                          require_dict-some P
                                                            (get "selection_policy" request) e₅,
                                                          require_dict-some P
                                                            (get "selection" result) f₂,
                                                          replay_lineage-IsLineage P result mutation
                                                            asked e₄,
                                                          decided,
                                                          same,
                                                          f₄,
                                                          require-eq-ok selects controller_error f₅,
                                                          e₆,
                                                          on_protocol_error-eq-ok controller_error
                                                            (traverse (decode_task P) raw_tasks) f₆,
                                                          replay_cases-AreReplayed P D request
                                                            result incumbent challenger l tasks e₇
                                                            e₈
                                                            (require-eq-ok named controller_error
                                                            f₇)
                                                            f₈,
                                                        )
