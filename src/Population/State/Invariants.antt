-- ===== src/Population/State/Invariants.antt =====
-- Induction over the records of a ledger.
use metering.Prelude.{ℕ, ◌+◌, ◌≡◌, List, [], ◌∷◌}
use metering.Runtime.{ok, ok-injective, >>=-eq-ok, on_protocol_error-eq-ok, Platform, Fields}
use metering.Population.Types.{PopulationState}
use metering.Population.State.{apply_record, new_state}
use metering.Population.State.Ledger.{replay, replay_all, load_state}
use mathlib.Core.Path.{subst}

module _ {ℓ} (P : Platform) (Holds : PopulationState P.Float → Type ℓ)
    (step : (state : PopulationState P.Float) (r : Fields P.Float) (index : ℕ)
        (state' : PopulationState P.Float)
      → Holds state
      → apply_record P state r index ≡ ok state'
      → Holds state') where
  open P use {Float}

  -- What each record keeps, every sequence of records keeps.
  replay_induction :
      (state : PopulationState Float) (rs : List (Fields Float)) (index : ℕ)
      {state' : PopulationState Float}
      → Holds state
      → replay P state rs index ≡ ok state'
      → Holds state'
  unfolding replay
  replay_induction state [] index holds h = subst Holds (ok-injective h) holds
  replay_induction state (r ∷ rs) index holds h =
      let (next, applied, rest) = >>=-eq-ok (apply_record P state r index) _ h in
      replay_induction next rs (index + 1) (step state r index next holds applied) rest

  -- What holds of a new state and is kept by each record holds of every state that loads.
  pub load_state_induction :
      ((header : Fields Float) (state : PopulationState Float)
        → new_state P header ≡ ok state
        → Holds state)
      → (ledger : List (Fields Float)) {state : PopulationState Float}
      → load_state P ledger ≡ ok state
      → Holds state
  unfolding load_state
  load_state_induction start [] h = cc
  load_state_induction start (header ∷ rs) h =
      let (state, created, replayed) =
        >>=-eq-ok (new_state P header) _
          (on_protocol_error-eq-ok _ (replay_all P (header ∷ rs)) h) in
      replay_induction state rs 1 (start header state created) replayed
