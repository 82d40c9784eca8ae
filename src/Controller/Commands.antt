-- ===== src/Controller/Commands.antt =====
-- apps/controller/contract.py: what an accepted generation is compared with comes from the request.
use metering.Prelude.{◌≡◌, refl, ap, sym, ◌∙◌, subst, Option, none, some, true, String}
use metering.Runtime.{
  after, ok-injective, require-eq-ok, ok, require, controller_error, Json, null, arr, obj, Platform,
  Fields, Items, get, end, field,
}
use metering.AgentProtocol.{canonical_digest}
use metering.AgentProtocol.Artifact.{Candidate}
use metering.Controller.Reports.{require_dict}
use metering.Controller.Traces.{Expected}
use metering.Controller.Replayed.{require_dict-obj}
use metering.Controller.Generations.{
  get_or_null, is_list, is_nonempty_text, component_command, command_json,
}

module _ (P : Platform) where
  open P use {Float}

  -- The digest of the command that the request names for a component.
  abbrev pub IsCommandId : Fields Float → String → String → Type 0
  IsCommandId request component id =
      (d : Fields Float) × (command : Items Float) × (get component request ≡ some (obj d))
      × (get "command" d ≡ some (arr command))
      × (canonical_digest P (obj (field "command" (arr command) end)) ≡ ok id)

  -- What the traces are compared with, from the request and the candidates.
  abbrev pub IsExpected : Fields Float → Candidate → Candidate → Expected Float → Type 0
  IsExpected request parent child expected =
      (expected.parent_id ≡ parent.candidate_id)
      × (expected.child_id ≡ child.candidate_id)
      × (get "evaluation" request ≡ some expected.evaluation)
      × IsCommandId request "runner" expected.runner_id
      × IsCommandId request "evaluator" expected.evaluator_id

  pub require_dict-some :
      (o : Option (Json Float)) {d : Fields Float} → require_dict o ≡ ok d → o ≡ some (obj d)
  unfolding require_dict
  require_dict-some none h = cc
  require_dict-some (some v) {d} h = ap some (require_dict-obj P v d h)

  -- What `d.get(k)` gives, by whether the key is there.
  list_case :
      (o : Option (Json Float))
      → is_list (elim o [ none ↦ null | some v ↦ v ]) ≡ true
      → (vs : Items Float) × (o ≡ some (arr vs)) × (elim o [ none ↦ null | some v ↦ v ] ≡ arr vs)
  unfolding is_list
  list_case none h = cc
  list_case (some (arr vs)) h = (vs, refl, refl)
  list_case (some other) h = cc

  text_case :
      (o : Option (Json Float))
      → is_nonempty_text (elim o [ none ↦ null | some v ↦ v ]) ≡ true
      → o ≡ some (elim o [ none ↦ null | some v ↦ v ])
  unfolding is_nonempty_text
  text_case none h = cc
  text_case (some v) h = refl

  list-some :
      (k : String) (d : Fields Float)
      → is_list (get_or_null k d) ≡ true
      → (vs : Items Float) × (get k d ≡ some (arr vs)) × (get_or_null k d ≡ arr vs)
  unfolding get_or_null is_list
  list-some k d h = list_case (get k d) h

  pub text-some :
      (k : String) (d : Fields Float)
      → is_nonempty_text (get_or_null k d) ≡ true
      → get k d ≡ some (get_or_null k d)
  unfolding get_or_null is_nonempty_text
  text-some k d h = text_case (get k d) h

  pub component_command-IsCommandId :
      (request : Fields Float) (component : String) {command : Json Float} {id : String}
      → component_command (get component request) ≡ ok command
      → canonical_digest P (command_json command) ≡ ok id
      → IsCommandId request component id
  unfolding component_command command_json
  component_command-IsCommandId request component {id} h digested =
      after (require_dict (get component request)) _ h λ d e₁ h₁.
        after (require (is_list (get_or_null "command" d)) controller_error) _ h₁ λ u e₂ h₂.
          let (vs, found, same) =
            list-some "command" d
              (require-eq-ok (is_list (get_or_null "command" d)) controller_error e₂) in
          (
            d,
            vs,
            require_dict-some (get component request) e₁,
            found,
            subst (λ c. canonical_digest P (obj (field "command" c end)) ≡ ok id)
                (sym (ok-injective h₂) ∙ same) digested,
          )
