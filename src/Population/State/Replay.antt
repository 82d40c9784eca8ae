-- ===== src/Population/State/Replay.antt =====
-- Loading the ledger gives back the state that wrote it.
use metering.Prelude.{ℕ, ◌+◌, ◌≡◌, ap, ◌∙◌, arith, Bool, List, [], ◌∷◌, length, ◌++◌, String}
use metering.Runtime.{
  on_protocol_error-eq-ok, >>=-eq-ok, ok, on_protocol_error, population_error, Json, Platform,
  Fields,
}
use metering.Journal.{content_record}
use metering.Population.Types.{PopulationState, head_id}
use metering.Population.State.{new_state, apply_record}
use metering.Population.State.Effects.{apply_record-records}
use metering.Population.State.Ledger.{
  replay, replay_all, load_state, append_validated_record, next_fields,
}
use mathlib.Core.List.{append_assoc, append-nil}

module _ (P : Platform) where
  open P use {Float}

  replay-records :
      (state : PopulationState Float) (rs : List (Fields Float)) (index : ℕ)
      {state' : PopulationState Float}
      → replay P state rs index ≡ ok state'
      → state'.records ≡ state.records ++ rs
  unfolding replay
  replay-records state [] index h = ground (arith, append-nil state.records)
  replay-records state (r ∷ rs) index {state'} h =
      let (next, applied, rest) = >>=-eq-ok (apply_record P state r index) _ h in
      replay-records next rs (index + 1) rest
      ∙ ap (λ records. records ++ rs) (apply_record-records P state r index applied)
      ∙ append_assoc state.records (r ∷ []) rs

  -- A record that the replayed state accepts may follow the replayed records.
  replay-append :
      (state : PopulationState Float) (rs : List (Fields Float)) (r : Fields Float) (index j : ℕ)
      {state' next : PopulationState Float}
      → replay P state rs index ≡ ok state'
      → apply_record P state' r j ≡ ok next
      → j ≡ index + length rs
      → replay P state (rs ++ r ∷ []) index ≡ ok next
  unfolding replay
  replay-append state [] r index j h a e =
      let same : j ≡ index = omega arith in ground (arith, same)
  replay-append state (x ∷ rs) r index j h a e =
      let (middle, applied, rest) = >>=-eq-ok (apply_record P state x index) _ h in
      rw applied (replay-append middle rs r (index + 1) j rest a (omega arith))

  new_state-records :
      (header : Fields Float) {state : PopulationState Float}
      → new_state P header ≡ ok state
      → state.records ≡ header ∷ []
  unfolding new_state
  new_state-records header h = ground arith

  -- A state that is loaded holds the records of the ledger, in order.
  pub load_state-records :
      (ledger : List (Fields Float)) {state : PopulationState Float}
      → load_state P ledger ≡ ok state
      → state.records ≡ ledger
  unfolding load_state
  load_state-records [] h = cc
  load_state-records (header ∷ rs) h =
      let (start, created, replayed) =
        >>=-eq-ok (new_state P header) _
          (on_protocol_error-eq-ok _ (replay_all P (header ∷ rs)) h) in
      replay-records start rs 1 replayed
      ∙ ap (λ records. records ++ rs) (new_state-records header created)

  load_state-append :
      (ledger : List (Fields Float)) (r : Fields Float) {state state' : PopulationState Float}
      → load_state P ledger ≡ ok state
      → apply_record P state r (length state.records) ≡ ok state'
      → load_state P (ledger ++ r ∷ []) ≡ ok state'
  unfolding load_state
  load_state-append [] r h a = cc
  load_state-append (header ∷ rs) r {state} h a =
      let (start, created, replayed) =
        >>=-eq-ok (new_state P header) _
          (on_protocol_error-eq-ok _ (replay_all P (header ∷ rs)) h) in
      let size = ap length (load_state-records (header ∷ rs) h) in
      let extended =
        replay-append start rs r 1 (length state.records) replayed a (omega (arith, size)) in
      rw (created, extended)

  -- Appending keeps the ledger and the state together: if the ledger loads as the state before, the
  -- ledger that the append wrote loads as the state that it returned, whatever the kind and the body.
  pub load_state-append_validated_record :
      (ledger : List (Fields Float)) (written : Bool) (state : PopulationState Float)
      (kind : String) (body : Json Float) {state' : PopulationState Float}
      {ledger' : List (Fields Float)}
      → load_state P ledger ≡ ok state
      → append_validated_record P ledger written state kind body ≡ ok (state', ledger')
      → load_state P ledger' ≡ ok state'
  unfolding append_validated_record
  load_state-append_validated_record ledger written state kind body {state'} {ledger'} h a =
      let (head, e₁, h₁) = >>=-eq-ok (head_id state) _ a in
      let (r, e₂, h₂) =
        >>=-eq-ok (content_record P (next_fields P state kind body head) population_error) _ h₁ in
      let (next, e₃, h₃) =
        >>=-eq-ok
          (on_protocol_error population_error (apply_record P state r (length state.records))) _
          h₂ in
      let applied = on_protocol_error-eq-ok _ (apply_record P state r (length state.records)) e₃ in
      let loaded = load_state-append ledger r h applied in ground (arith, loaded, h₃)
