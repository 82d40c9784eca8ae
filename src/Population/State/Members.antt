-- ===== src/Population/State/Members.antt =====
-- The archive of a loaded state has a member as soon as it has a viable candidate.
use metering.Prelude.{◌≡◌, ap, sym, ◌∙◌, ◌<◌, ℕ, All, arith, List, [], ◌∷◌, length, String}
use metering.Runtime.{ok, Platform, Fields, Json}
use metering.Population.Types.{Archive, Configuration, PopulationState, RunBody}
use metering.Population.Schema.{normalize_configuration, positive_integer}
use metering.Population.Pareto.Order.{FloatOrder}
use metering.Population.Archives.{normalize_archive_body}
use metering.Population.Archives.Members.{HasCase, normalize_archive_body-has_member}
use metering.Population.State.{
  apply_candidate, apply_experiment, apply_run, apply_archive, apply_allocation, apply_body,
  apply_record, new_state,
}
use metering.Population.State.Effects.{apply_record-Accepted}
use metering.Population.State.Invariants.{load_state_induction}
use metering.Population.State.Scores.{HasScore, load_state-AllScored}
use metering.Population.State.Ledger.{load_state}
use mathlib.Core.Path.{subst}

module _ {F : Type 0} where
  scored_cases :
      (state : PopulationState F) (bodies : List (RunBody F))
      → All (HasScore state) bodies
      → All HasCase bodies
  scored_cases state [] scores = tt
  scored_cases state (body ∷ bodies) scores =
      (scores.0.scored.some_case, scored_cases state bodies scores.1)

  abbrev HasRoom : PopulationState F → Type 0
  HasRoom state = 0 < state.configuration.archive_policy.capacity

module _ (P : Platform) where
  open P use {Float}

  module _ (state : PopulationState Float) (record_id : String) (body : Json Float)
      {applied : PopulationState Float × Json Float} where
    apply_candidate-configuration :
        apply_candidate P state record_id body ≡ ok applied
        → applied.0.configuration ≡ state.configuration
    unfolding apply_candidate
    apply_candidate-configuration h = ground arith

    apply_experiment-configuration :
        apply_experiment P state record_id body ≡ ok applied
        → applied.0.configuration ≡ state.configuration
    unfolding apply_experiment
    apply_experiment-configuration h = ground arith

    apply_run-configuration :
        (index : ℕ)
        → apply_run P state record_id body index ≡ ok applied
        → applied.0.configuration ≡ state.configuration
    unfolding apply_run
    apply_run-configuration index h = ground arith

    apply_archive-configuration :
        (index : ℕ)
        → apply_archive P state record_id body index ≡ ok applied
        → applied.0.configuration ≡ state.configuration
    unfolding apply_archive
    apply_archive-configuration index h = ground arith

    apply_allocation-configuration :
        apply_allocation P state record_id body ≡ ok applied
        → applied.0.configuration ≡ state.configuration
    unfolding apply_allocation
    apply_allocation-configuration h = ground arith

    apply_body-configuration :
        (kind : Json Float) (index : ℕ)
        → apply_body P state record_id kind body index ≡ ok applied
        → applied.0.configuration ≡ state.configuration
    unfolding apply_body
    apply_body-configuration kind index h = ground (
      arith,
      apply_candidate-configuration,
      apply_experiment-configuration,
      apply_run-configuration index,
      apply_archive-configuration index,
      apply_allocation-configuration,
    )

  apply_record-HasRoom :
      (state : PopulationState Float) (r : Fields Float) (index : ℕ)
      (state' : PopulationState Float)
      → HasRoom state
      → apply_record P state r index ≡ ok state'
      → HasRoom state'
  apply_record-HasRoom state r index state' room h =
      let a = apply_record-Accepted P state r index h in
      let same : state'.configuration ≡ state.configuration =
        ap (λ (s : PopulationState Float). s.configuration) a.result
        ∙ apply_body-configuration state a.record_id a.body a.kind index a.branched in
      subst (λ (c : Configuration Float). 0 < c.archive_policy.capacity) (sym same) room

  new_state-HasRoom :
      (header : Fields Float) (state : PopulationState Float)
      → new_state P header ≡ ok state
      → HasRoom state
  unfolding new_state normalize_configuration positive_integer
  new_state-HasRoom header state h = ground arith

  -- In every state that a ledger loads as, an archive that is made with an eligible candidate has a member,
  -- so that a parent can be allocated from it, provided that floats are ordered (FloatOrder).
  pub loaded_archive_has_member :
      FloatOrder P
      → (ledger : List (Fields Float)) (experiment_id : String) {state : PopulationState Float}
        {archive : Archive Float}
      → load_state P ledger ≡ ok state
      → normalize_archive_body P experiment_id state ≡ ok archive
      → 0 < archive.eligible_count
      → 0 < length archive.members
  loaded_archive_has_member order ledger experiment_id {state} h made =
      normalize_archive_body-has_member P order experiment_id state
        (scored_cases state state.runs (load_state-AllScored P ledger h))
        (load_state_induction P HasRoom apply_record-HasRoom new_state-HasRoom ledger h) made
