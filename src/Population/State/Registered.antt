-- ===== src/Population/State/Registered.antt =====
-- An experiment of the ledger stays as it was registered.
use metering.Prelude.{
  ℕ, ◌+◌, ◌≡◌, sym, ap, ◌∙◌, inl, inr, arith, Bool-cases, some, List, [], ◌∷◌, String,
}
use metering.Runtime.{
  >>=-eq-ok, after, ok, refuse, refuse-eq-ok, population_error, Json, Platform, Fields,
}
use metering.Runtime.Dict.{find, put, member}
use metering.AgentProtocol.{is_text}
use metering.Population.Types.{PopulationState, Experiment}
use metering.Population.Experiments.{normalize_experiment_body}
use metering.Population.State.{apply_experiment, apply_run, apply_body, apply_record}
use metering.Population.State.Effects.{apply_record-Accepted}
use metering.Population.State.Seal.{is_text-str}
use metering.Population.State.Scores.{
  find-put_fresh, apply_body-experiment, apply_candidate-keeps, apply_archive-keeps,
  apply_allocation-keeps,
}
use metering.Population.State.Ledger.{replay}

module _ (P : Platform) (k : String) (experiment : Experiment) where
  open P use {Float}

  -- The experiment is registered under the identity.
  abbrev IsRegistered : PopulationState Float → Type 0
  IsRegistered state = find k state.experiments ≡ some experiment

  module _ (state : PopulationState Float) (record_id : String) (body : Json Float)
      {applied : PopulationState Float × Json Float} where
    apply_experiment-IsRegistered :
        IsRegistered state
        → apply_experiment P state record_id body ≡ ok applied
        → IsRegistered applied.0
    unfolding apply_experiment
    apply_experiment-IsRegistered found h = after (normalize_experiment_body P body) _ h λ n e₁ h₁.
        after (refuse (member n.experiment_id state.experiments) population_error) _ h₁ λ u₂ e₂ h₂.
          let experiments : applied.0.experiments
              ≡ put n.experiment_id n.experiment state.experiments =
            ground (arith, h₂) in
          ap (find k) experiments
          ∙ find-put_fresh k n.experiment_id n.experiment state.experiments
              (refuse-eq-ok _ population_error e₂) found

    apply_run-experiments :
        (index : ℕ)
        → apply_run P state record_id body index ≡ ok applied
        → applied.0.experiments ≡ state.experiments
    unfolding apply_run
    apply_run-experiments index h = ground arith

    apply_body-IsRegistered :
        (kind : Json Float) (index : ℕ)
        → IsRegistered state
        → apply_body P state record_id kind body index ≡ ok applied
        → IsRegistered applied.0
    unfolding apply_body
    apply_body-IsRegistered kind index found h = elim (Bool-cases (is_text kind "experiment")) [
      | inl is_experiment ↦ apply_experiment-IsRegistered found (
          sym (apply_body-experiment P state record_id body index)
          ∙ ap (λ k. apply_body P state record_id k body index)
              (sym (is_text-str kind "experiment" is_experiment))
          ∙ h)
      | inr other ↦
          let kept : applied.0.experiments ≡ state.experiments = ground (
            arith,
            other,
            apply_candidate-keeps P state record_id body {applied = applied},
            apply_run-experiments index,
            apply_archive-keeps P state record_id body {applied = applied} index,
            apply_allocation-keeps P state record_id body {applied = applied},
          ) in
          ap (find k) kept ∙ found
    ]

  apply_record-IsRegistered :
      (state : PopulationState Float) (r : Fields Float) (index : ℕ)
      {state' : PopulationState Float}
      → IsRegistered state
      → apply_record P state r index ≡ ok state'
      → IsRegistered state'
  apply_record-IsRegistered state r index found h =
      let a = apply_record-Accepted P state r index h in
      let kept = apply_body-IsRegistered state a.record_id a.body a.kind index found a.branched in
      ap (λ s. find k s.experiments) a.result ∙ kept

  pub replay-IsRegistered :
      (state : PopulationState Float) (rs : List (Fields Float)) (index : ℕ)
      {state' : PopulationState Float}
      → IsRegistered state
      → replay P state rs index ≡ ok state'
      → IsRegistered state'
  unfolding replay
  replay-IsRegistered state [] index found h = ground (arith, h, found)
  replay-IsRegistered state (r ∷ rs) index found h =
      let (next, applied, rest) = >>=-eq-ok (apply_record P state r index) _ h in
      replay-IsRegistered next rs (index + 1)
        (apply_record-IsRegistered state r index found applied) rest
