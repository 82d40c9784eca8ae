-- ===== src/Driver/Final.antt =====
-- apps/population_driver/planner.py: final work, once begun in the ledger, ends the search.
use metering.Prelude.{ℕ, ◌≡◌, ap, ◌⊎◌, inl, inr, arith, Bool, true, some, List, String, [], ◌∷◌}
use metering.Runtime.{ok, Platform, Fields}
use metering.Runtime.Dict.{Dict, find}
use metering.Population.Types.{PopulationState, Experiment, final}
use metering.Population.State.{is_final}
use metering.Population.State.Ledger.{replay}
use metering.Population.State.Seal.{replay-SameSearch}
use metering.Population.State.Registered.{replay-IsRegistered}
use metering.Driver.Types.{Context, stop, final_evidence_sealed}
use metering.Driver.Planner.{plan, final_phase_started, has_final_experiment}
use metering.Driver.Rounds.{plan-final_phase_started}

-- A run has sealed the search, or an experiment with the final role is registered.
abbrev pub HasFinalWork : {F : Type 0} → PopulationState F → Type 0
HasFinalWork state =
    (state.final_evaluation_started ≡ true)
    ⊎ ((experiment_id : String) × (experiment : Experiment) × (find experiment_id state.experiments
          ≡ some experiment)
        × (experiment.role ≡ final))

has_final_experiment-find :
    (k : String) (d : Dict Experiment) {experiment : Experiment}
    → find k d ≡ some experiment
    → is_final experiment.role ≡ true
    → has_final_experiment d ≡ true
unfolding find has_final_experiment
has_final_experiment-find k [] found role = cc
has_final_experiment-find k ((j, other) ∷ d) {experiment} found role =
    ground (arith, has_final_experiment-find k d {experiment = experiment})

HasFinalWork-started :
    {F : Type 0} (state : PopulationState F) → HasFinalWork state → final_phase_started state ≡ true
unfolding final_phase_started
HasFinalWork-started state (inl sealed) = ground (arith, sealed)
HasFinalWork-started state (inr (k, experiment, found, role)) =
    ground (arith, has_final_experiment-find k state.experiments found (ap is_final role))

module _ (P : Platform) where
  open P use {Float}

  replay-HasFinalWork :
      (state : PopulationState Float) (rs : List (Fields Float)) (index : ℕ)
      {state' : PopulationState Float}
      → HasFinalWork state
      → replay P state rs index ≡ ok state'
      → HasFinalWork state'
  replay-HasFinalWork state rs index (inl sealed) h =
      inl (replay-SameSearch P state rs index sealed h).sealed
  replay-HasFinalWork state rs index (inr (k, experiment, found, role)) h =
      inr (k, experiment, replay-IsRegistered P k experiment state rs index found h, role)

  -- Once a run has sealed the search or an experiment with the final role is registered, the planner stops
  -- with final_evidence_sealed in every context, whatever is pending, whose population replays from there,
  -- whatever records come in between.
  pub plan-HasFinalWork :
      (state : PopulationState Float) (rs : List (Fields Float)) (index : ℕ)
      (context : Context Float) (allow_controller : Bool)
      → HasFinalWork state
      → replay P state rs index ≡ ok context.population
      → plan context allow_controller ≡ ok (stop final_evidence_sealed)
  plan-HasFinalWork state rs index context allow_controller begun h =
      plan-final_phase_started context allow_controller
        (HasFinalWork-started context.population (replay-HasFinalWork state rs index begun h))
