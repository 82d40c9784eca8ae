-- ===== src/Population/State/Bounded.antt =====
-- The archives of the ledger keep to the capacity of its policy.
use metering.Prelude.{
  ℕ, refl, ◌≡◌, ◌≤◌, ◌∙◌, sym, ap, arith, Bool-cases, inl, inr, some, List, [], length, String,
  str_eq,
}
use metering.Runtime.{
  ok, after, Json, str, Platform, Fields, ◌>>=◌, require, protocol_error, has_key,
}
use metering.Runtime.Dict.{find-put, find, put}
use metering.AgentProtocol.{require_object, item, is_text, require_sha256}
use metering.Population.Types.{PopulationState, Archive}
use metering.Population.Archives.{normalize_archive_body}
use metering.Population.Archives.Groups.{normalize_archive_body-le-capacity}
use metering.Population.State.{
  apply_candidate, apply_experiment, apply_run, apply_archive, apply_allocation, apply_body,
  apply_record, new_state,
}
use metering.Population.State.Effects.{apply_record-Accepted}
use metering.Population.State.Seal.{is_text-str}
use metering.Population.State.Invariants.{load_state_induction}
use metering.Population.State.Ledger.{load_state}
use mathlib.Core.Path.{subst}

-- Every archive has at most as many members as the capacity of the configuration.
pub record IsBounded {F : Type 0} (state : PopulationState F) : Type 0 where
  pub at_most :
      (archive_id : String) (archive : Archive F)
      → find archive_id state.archives ≡ some archive
      → length archive.members ≤ state.configuration.archive_policy.capacity

-- The configuration and the archives stay.
abbrev Unchanged : {F : Type 0} → PopulationState F → PopulationState F → Type 0
Unchanged state state' =
    (state'.configuration ≡ state.configuration) × (state'.archives ≡ state.archives)

module _ {F : Type 0} (state state' : PopulationState F) where
  IsBounded-same : IsBounded state → Unchanged state state' → IsBounded state'
  IsBounded-same b same = record {
    at_most = λ k archive h. rw same.0 (b.at_most k archive (ap (find k) (sym same.1) ∙ h));
  }

  IsBounded-put :
      (archive_id : String) (archive : Archive F)
      → IsBounded state
      → length archive.members ≤ state.configuration.archive_policy.capacity
      → state'.configuration ≡ state.configuration
      → state'.archives ≡ put archive_id archive state.archives
      → IsBounded state'
  IsBounded-put archive_id archive b small configuration archives = record {
    at_most = λ k other h.
        let found =
          sym (find-put k archive_id archive state.archives) ∙ ap (find k) (sym archives) ∙ h in
        rw configuration (elim (Bool-cases (str_eq archive_id k)) [
          | inl same ↦
              let e : archive ≡ other = ground (arith, same, found) in
              subst
                (λ (a : Archive F). length a.members ≤ state.configuration.archive_policy.capacity)
                e small
          | inr apart ↦ b.at_most k other (ground (arith, apart, found))
        ]);
  }

module _ (P : Platform) where
  open P use {Float}

  apply_body-archive :
      (state : PopulationState Float) (record_id : String) (body : Json Float) (index : ℕ)
      → apply_body P state record_id (str "archive") body index
        ≡ apply_archive P state record_id body index
  unfolding apply_body is_text
  apply_body-archive state record_id body index = refl

  module _ (state : PopulationState Float) (record_id : String) (body : Json Float)
      {applied : PopulationState Float × Json Float} where
    apply_candidate-keeps :
        apply_candidate P state record_id body ≡ ok applied → Unchanged state applied.0
    unfolding apply_candidate
    apply_candidate-keeps h = ground arith

    apply_experiment-keeps :
        apply_experiment P state record_id body ≡ ok applied → Unchanged state applied.0
    unfolding apply_experiment
    apply_experiment-keeps h = ground arith

    apply_run-keeps :
        (index : ℕ)
        → apply_run P state record_id body index ≡ ok applied
        → Unchanged state applied.0
    unfolding apply_run
    apply_run-keeps index h = ground arith

    apply_allocation-keeps :
        apply_allocation P state record_id body ≡ ok applied → Unchanged state applied.0
    unfolding apply_allocation
    apply_allocation-keeps h = ground arith

    apply_archive-IsBounded :
        (index : ℕ)
        → IsBounded state
        → apply_archive P state record_id body index ≡ ok applied
        → IsBounded applied.0
    unfolding apply_archive
    apply_archive-IsBounded index b h = after (require_object body) _ h λ d e₁ h₁.
        after (require (has_key "experiment_id" d) protocol_error) _ h₁ λ u₂ e₂ h₂.
          after (item "experiment_id" d >>= require_sha256) _ h₂ λ experiment_id e₃ h₃.
            after (normalize_archive_body P experiment_id state) _ h₃ λ archive e₄ h₄.
              IsBounded-put state applied.0 record_id archive b
                (normalize_archive_body-le-capacity P experiment_id state e₄) (ground (arith, h₄))
                (ground (arith, h₄))

    apply_body-IsBounded :
        (kind : Json Float) (index : ℕ)
        → IsBounded state
        → apply_body P state record_id kind body index ≡ ok applied
        → IsBounded applied.0
    unfolding apply_body
    apply_body-IsBounded kind index b h = elim (Bool-cases (is_text kind "archive")) [
      | inl is_archive ↦ apply_archive-IsBounded index b (
          sym (apply_body-archive state record_id body index)
          ∙ ap (λ k. apply_body P state record_id k body index)
              (sym (is_text-str kind "archive" is_archive))
          ∙ h)
      | inr other ↦
          let kept : Unchanged state applied.0 = ground (
            arith,
            other,
            apply_candidate-keeps,
            apply_experiment-keeps,
            apply_run-keeps index,
            apply_allocation-keeps,
          ) in
          IsBounded-same state applied.0 b kept
    ]

  apply_record-IsBounded :
      (state : PopulationState Float) (r : Fields Float) (index : ℕ)
      (state' : PopulationState Float)
      → IsBounded state
      → apply_record P state r index ≡ ok state'
      → IsBounded state'
  apply_record-IsBounded state r index state' b h =
      let a = apply_record-Accepted P state r index h in
      IsBounded-same a.applied.0 state'
        (apply_body-IsBounded state a.record_id a.body a.kind index b a.branched)
        (ground (arith, a.result))

  new_state-IsBounded :
      (header : Fields Float) (state : PopulationState Float)
      → new_state P header ≡ ok state
      → IsBounded state
  unfolding new_state find
  new_state-IsBounded header state h =
      let archives : state.archives ≡ [] = ground arith in
      record { at_most = λ k archive found. absurd (ground (arith, archives, found)) }

  -- In every state that a ledger loads as, each archive has at most as many members as the capacity of the
  -- configuration.
  pub load_state-IsBounded :
      (ledger : List (Fields Float)) {state : PopulationState Float}
      → load_state P ledger ≡ ok state
      → IsBounded state
  load_state-IsBounded = load_state_induction P IsBounded apply_record-IsBounded new_state-IsBounded
