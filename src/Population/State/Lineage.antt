-- ===== src/Population/State/Lineage.antt =====
-- The lineage of the candidates has no cycle.
use metering.Prelude.{
  ℕ, ◌≡◌, refl, ap, ◌∙◌, inl, inr, arith, Bool-cases, true, false, ◌||◌, List, [], ◌∷◌, ◌++◌,
  String, str_eq, subset, contains,
}
use metering.Runtime.{>>=-eq-ok, ok, Json, Platform, Fields}
use metering.Runtime.Dict.{member-put, Dict, put, member}
use metering.AgentProtocol.{is_text}
use metering.AgentProtocol.Artifact.{Candidate}
use metering.Population.Types.{PopulationState, CandidateBody}
use metering.Population.Candidates.{normalize_candidate_body, require_known}
use metering.Population.State.{
  apply_candidate, apply_experiment, apply_run, apply_archive, apply_allocation, apply_body,
  apply_record, new_state,
}
use metering.Population.State.Effects.{apply_record-Accepted}
use metering.Population.State.Invariants.{load_state_induction}
use metering.Population.State.Ledger.{load_state}

-- Read in the order of registration, no candidate comes twice, and the parents of each come before it.
abbrev pub IsOrdered : List String → Dict (List String) → Type 0
IsOrdered seen [] = Unit
IsOrdered seen ((candidate_id, parents) ∷ rest) =
    (contains candidate_id seen ≡ false)
    × (subset parents seen ≡ true)
    × IsOrdered (candidate_id ∷ seen) rest

abbrev Known : List String → List String → Dict (List String) → Type 0
Known [] seen d = Unit
Known (p ∷ ps) seen d = ((contains p seen || member p d) ≡ true) × Known ps seen d

Known-subset : (ps seen : List String) → Known ps seen [] → subset ps seen ≡ true
unfolding subset contains member
Known-subset [] seen k = refl
Known-subset (p ∷ ps) seen k = ground (arith, k.0, Known-subset ps seen k.1)

Known-step :
    (ps seen : List String) (j : String) (js : List String) (d : Dict (List String))
    → Known ps seen ((j, js) ∷ d)
    → Known ps (j ∷ seen) d
unfolding contains member
Known-step [] seen j js d k = tt
Known-step (p ∷ ps) seen j js d k = (ground (arith, k.0), Known-step ps seen j js d k.1)

IsOrdered-append :
    (seen : List String) (d : Dict (List String)) (candidate_id : String) (parents : List String)
    → IsOrdered seen d
    → contains candidate_id seen ≡ false
    → member candidate_id d ≡ false
    → Known parents seen d
    → IsOrdered seen (d ++ (candidate_id, parents) ∷ [])
unfolding contains member
IsOrdered-append seen [] candidate_id parents o fresh absent k =
    (fresh, Known-subset parents seen k, tt)
IsOrdered-append seen ((j, js) ∷ d) candidate_id parents o fresh absent k = (
  o.0,
  o.1,
  IsOrdered-append (j ∷ seen) d candidate_id parents o.2 (ground arith) (ground arith)
      (Known-step parents seen j js d k),
)

put-append {ℓ} :
    {V : Type ℓ} (k : String) (v : V) (d : Dict V)
    → member k d ≡ false
    → put k v d ≡ d ++ (k, v) ∷ []
unfolding put member
put-append k v [] h = refl
put-append k v ((j, w) ∷ d) h = ground (arith, put-append k v d)

-- The candidates and their parents have the same keys, and the parents are ordered.
pub record IsLineage {F : Type 0} (state : PopulationState F) : Type 0 where
  pub ordered : IsOrdered [] state.candidate_parents
  pub same_keys : (k : String) → member k state.candidate_parents ≡ member k state.candidates

abbrev Unchanged : {F : Type 0} → PopulationState F → PopulationState F → Type 0
Unchanged state state' =
    (state'.candidates ≡ state.candidates) × (state'.candidate_parents ≡ state.candidate_parents)

module _ (P : Platform) where
  open P use {Float}

  require_known-Known :
      (state : PopulationState Float) (ps : List String)
      → ((k : String) → member k state.candidate_parents ≡ member k state.candidates)
      → require_known P state ps ≡ ok tt
      → Known ps [] state.candidate_parents
  unfolding require_known contains
  require_known-Known state [] same h = tt
  require_known-Known state (p ∷ ps) same h =
      (ground (arith, same p), require_known-Known state ps same (ground arith))

  -- An accepted candidate names parents that the state knows.
  normalize_candidate_body-known :
      (value : Json Float) (state : PopulationState Float) {body : CandidateBody Float}
      → normalize_candidate_body P value state ≡ ok body
      → require_known P state body.parents ≡ ok tt
  unfolding normalize_candidate_body
  normalize_candidate_body-known value state h = ground arith

  module _ (state state' : PopulationState Float) where
    IsLineage-put :
        (candidate_id : String) (candidate : Candidate) (parents : List String)
        → IsLineage state
        → member candidate_id state.candidates ≡ false
        → Known parents [] state.candidate_parents
        → state'.candidates ≡ put candidate_id candidate state.candidates
        → state'.candidate_parents ≡ put candidate_id parents state.candidate_parents
        → IsLineage state'
    unfolding contains
    IsLineage-put candidate_id candidate parents l fresh known cs ps =
        let absent = l.same_keys candidate_id ∙ fresh in
        record {
          ordered =
              rw (ps, put-append candidate_id parents state.candidate_parents absent)
                (IsOrdered-append [] state.candidate_parents candidate_id parents l.ordered refl
                  absent known);
          same_keys = λ k.
              rw (cs, ps, member-put, member-put)
                (ap (λ b. str_eq candidate_id k || b) (l.same_keys k));
        }

    IsLineage-same :
        IsLineage state
        → state'.candidates ≡ state.candidates
        → state'.candidate_parents ≡ state.candidate_parents
        → IsLineage state'
    IsLineage-same l cs ps = record {
      ordered = rw ps l.ordered;
      same_keys = λ k. rw (cs, ps) (l.same_keys k);
    }

  apply_candidate-IsLineage :
      (state : PopulationState Float) (record_id : String) (body : Json Float)
      {applied : PopulationState Float × Json Float}
      → IsLineage state
      → apply_candidate P state record_id body ≡ ok applied
      → IsLineage applied.0
  unfolding apply_candidate
  apply_candidate-IsLineage state record_id body {applied} l h =
      let (n, e₁, h₁) = >>=-eq-ok (normalize_candidate_body P body state) _ h in
      let known =
        require_known-Known state n.parents l.same_keys
          (normalize_candidate_body-known body state e₁) in
      IsLineage-put state applied.0 n.candidate.candidate_id n.candidate n.parents l
        (ground (arith, h₁)) known (ground (arith, h₁)) (ground (arith, h₁))

  module _ (state : PopulationState Float) (record_id : String) (body : Json Float)
      {applied : PopulationState Float × Json Float} where
    apply_experiment-keeps :
        apply_experiment P state record_id body ≡ ok applied → Unchanged state applied.0
    unfolding apply_experiment
    apply_experiment-keeps h = ground arith

    apply_run-keeps :
        (index : ℕ)
        → apply_run P state record_id body index ≡ ok applied
        → Unchanged state applied.0
    unfolding apply_run
    apply_run-keeps index h = ground arith

    apply_archive-keeps :
        (index : ℕ)
        → apply_archive P state record_id body index ≡ ok applied
        → Unchanged state applied.0
    unfolding apply_archive
    apply_archive-keeps index h = ground arith

    apply_allocation-keeps :
        apply_allocation P state record_id body ≡ ok applied → Unchanged state applied.0
    unfolding apply_allocation
    apply_allocation-keeps h = ground arith

    apply_body-IsLineage :
        (kind : Json Float) (index : ℕ)
        → IsLineage state
        → apply_body P state record_id kind body index ≡ ok applied
        → IsLineage applied.0
    unfolding apply_body
    apply_body-IsLineage kind index l h = elim (Bool-cases (is_text kind "candidate")) [
      | inl is_candidate ↦
          apply_candidate-IsLineage state record_id body {applied = applied} l
            (ground (arith, is_candidate))
      | inr other ↦
          let kept : Unchanged state applied.0 = ground (
            arith,
            other,
            apply_experiment-keeps,
            apply_run-keeps index,
            apply_archive-keeps index,
            apply_allocation-keeps,
          ) in
          IsLineage-same state applied.0 l kept.0 kept.1
    ]

  -- Every accepted record keeps the lineage ordered.
  pub apply_record-IsLineage :
      (state : PopulationState Float) (r : Fields Float) (index : ℕ)
      {state' : PopulationState Float}
      → IsLineage state
      → apply_record P state r index ≡ ok state'
      → IsLineage state'
  apply_record-IsLineage state r index {state'} l h =
      let a = apply_record-Accepted P state r index h in
      IsLineage-same a.applied.0 state'
        (apply_body-IsLineage state a.record_id a.body a.kind index l a.branched)
        (ground (arith, a.result)) (ground (arith, a.result))

  new_state-IsLineage :
      (header : Fields Float) {state : PopulationState Float}
      → new_state P header ≡ ok state
      → IsLineage state
  unfolding new_state member
  new_state-IsLineage header {state} h =
      let parents : state.candidate_parents ≡ [] = ground arith in
      let candidates : state.candidates ≡ [] = ground arith in
      record { ordered = rw parents tt; same_keys = λ k. rw (parents, candidates) }

  -- In every state that a ledger loads as, the candidates that have parents recorded are the candidates,
  -- none comes twice in the order of registration, and the parents of each come before it: the lineage
  -- has no cycle.
  pub load_state-IsLineage :
      (ledger : List (Fields Float)) {state : PopulationState Float}
      → load_state P ledger ≡ ok state
      → IsLineage state
  load_state-IsLineage =
      load_state_induction P IsLineage
        (λ state r index state' l h. apply_record-IsLineage state r index l h)
        (λ header state h. new_state-IsLineage header h)
