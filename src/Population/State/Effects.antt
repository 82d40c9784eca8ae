-- ===== src/Population/State/Effects.antt =====
-- What one record of the ledger changes in the state.
use metering.Prelude.{ℕ, ◌≡◌, arith, [], ◌∷◌, ◌++◌, String}
use metering.Runtime.{>>=-eq-ok, ok, protocol_error, Json, Platform, Fields}
use metering.Runtime.Dict.{put}
use metering.AgentProtocol.{item, require_same_json}
use metering.Population.Types.{PopulationState}
use metering.Population.State.{
  apply_candidate, apply_experiment, apply_run, apply_archive, apply_allocation, apply_body,
  apply_record, checked_record_id, refuse_sealed,
}

module _ (P : Platform) where
  open P use {Float}

  module _ (state : PopulationState Float) (record_id : String) (body : Json Float)
      {applied : PopulationState Float × Json Float} where
    apply_candidate-records :
        apply_candidate P state record_id body ≡ ok applied → applied.0.records ≡ state.records
    unfolding apply_candidate
    apply_candidate-records h = ground arith

    apply_experiment-records :
        apply_experiment P state record_id body ≡ ok applied → applied.0.records ≡ state.records
    unfolding apply_experiment
    apply_experiment-records h = ground arith

    apply_run-records :
        (index : ℕ)
        → apply_run P state record_id body index ≡ ok applied
        → applied.0.records ≡ state.records
    unfolding apply_run
    apply_run-records index h = ground arith

    apply_archive-records :
        (index : ℕ)
        → apply_archive P state record_id body index ≡ ok applied
        → applied.0.records ≡ state.records
    unfolding apply_archive
    apply_archive-records index h = ground arith

    apply_allocation-records :
        apply_allocation P state record_id body ≡ ok applied → applied.0.records ≡ state.records
    unfolding apply_allocation
    apply_allocation-records h = ground arith

    apply_body-records :
        (kind : Json Float) (index : ℕ)
        → apply_body P state record_id kind body index ≡ ok applied
        → applied.0.records ≡ state.records
    unfolding apply_body
    apply_body-records kind index h = ground (
      arith,
      apply_candidate-records,
      apply_experiment-records,
      apply_run-records index,
      apply_archive-records index,
      apply_allocation-records,
    )

  -- What an accepted record went through: its identity, its kind and body, the seal, and the branch of
  -- its kind.
  pub record Accepted (state : PopulationState Float) (r : Fields Float) (index : ℕ)
      (state' : PopulationState Float) : Type 0 where
    pub record_id : String
    pub kind : Json Float
    pub body : Json Float
    pub applied : PopulationState Float × Json Float
    pub identified : checked_record_id P state r index ≡ ok record_id
    pub unsealed : refuse_sealed P state kind ≡ ok tt
    pub branched : apply_body P state record_id kind body index ≡ ok applied
    pub result : state' ≡ record applied.0 {
      records = applied.0.records ++ r ∷ [];
      records_by_id = put record_id r applied.0.records_by_id;
    }

  pub apply_record-Accepted :
      (state : PopulationState Float) (r : Fields Float) (index : ℕ)
      {state' : PopulationState Float}
      → apply_record P state r index ≡ ok state'
      → Accepted state r index state'
  unfolding apply_record
  apply_record-Accepted state r index h =
      let (record_id, e₁, h₁) = >>=-eq-ok (checked_record_id P state r index) _ h in
      let (kind, e₂, h₂) = >>=-eq-ok (item "kind" r) _ h₁ in
      let (body, e₃, h₃) = >>=-eq-ok (item "body" r) _ h₂ in
      let (u, e₄, h₄) = >>=-eq-ok (refuse_sealed P state kind) _ h₃ in
      let (applied, e₅, h₅) = >>=-eq-ok (apply_body P state record_id kind body index) _ h₄ in
      let (v, e₆, h₆) = >>=-eq-ok (require_same_json P body applied.1 protocol_error) _ h₅ in
      record {
        record_id = record_id;
        kind = kind;
        body = body;
        applied = applied;
        identified = e₁;
        unsealed = e₄;
        branched = e₅;
        result = ground (arith, h₆);
      }

  -- A record that is accepted stands at the end of the records.
  pub apply_record-records :
      (state : PopulationState Float) (r : Fields Float) (index : ℕ)
      {state' : PopulationState Float}
      → apply_record P state r index ≡ ok state'
      → state'.records ≡ state.records ++ r ∷ []
  apply_record-records state r index h =
      let a = apply_record-Accepted state r index h in
      ground (arith, a.result, apply_body-records state a.record_id a.body a.kind index a.branched)
