-- ===== src/Population/State/Seal.antt =====
-- Final evaluation seals the search.
use metering.Prelude.{
  ℕ, ◌+◌, ◌≡◌, refl, ap, inl, inr, arith, eq_iff, Bool-cases, true, false, List, [], ◌∷◌, String,
  contains,
}
use metering.Runtime.{>>=-eq-ok, ok, raise, population_error, Json, str, Platform, Fields}
use metering.AgentProtocol.{is_text}
use metering.Population.Types.{PopulationState}
use metering.Population.State.{apply_run, apply_body, apply_record, refuse_sealed, search_kinds}
use metering.Population.Schema.{in_texts}
use metering.Population.State.Effects.{apply_record-Accepted}
use metering.Population.State.Ledger.{replay}

module _ {F : Type 0} where
  pub is_text-str : (v : Json F) (t : String) → is_text v t ≡ true → v ≡ str t
  unfolding is_text
  is_text-str (str s) t h = ap str ((eq_iff s t).0 h)
  is_text-str _ t h = cc

-- What a search can still choose from.
pub record SameSearch {F : Type 0} (state state' : PopulationState F) : Type 0 where
  pub candidates : state'.candidates ≡ state.candidates
  pub parents : state'.candidate_parents ≡ state.candidate_parents
  pub experiments : state'.experiments ≡ state.experiments
  pub archives : state'.archives ≡ state.archives
  pub latest : state'.latest_archive_by_experiment ≡ state.latest_archive_by_experiment
  pub allocations : state'.allocations ≡ state.allocations
  pub sealed : state'.final_evaluation_started ≡ true

module _ (P : Platform) where
  open P use {Float}

  refuse_sealed-kind :
      (state : PopulationState Float) (t : String)
      → contains t search_kinds ≡ true
      → state.final_evaluation_started ≡ true
      → refuse_sealed P state (str t) ≡ raise population_error
  unfolding refuse_sealed in_texts
  refuse_sealed-kind state t h f = rw (f, h)

  -- A kind that the seal lets through is not one of the search.
  open_kind :
      (state : PopulationState Float) (kind : Json Float) (t : String)
      → contains t search_kinds ≡ true
      → state.final_evaluation_started ≡ true
      → refuse_sealed P state kind ≡ ok tt
      → is_text kind t ≡ false
  open_kind state kind t h f u = elim (Bool-cases (is_text kind t)) [
    | inr other ↦ other
    | inl same ↦
        let e = is_text-str kind t same in
        cc (refuse_sealed-kind state t h f, ap (refuse_sealed P state) e)
  ]

  apply_run-SameSearch :
      (state : PopulationState Float) (record_id : String) (body : Json Float) (index : ℕ)
      {applied : PopulationState Float × Json Float}
      → state.final_evaluation_started ≡ true
      → apply_run P state record_id body index ≡ ok applied
      → SameSearch state applied.0
  unfolding apply_run
  apply_run-SameSearch state record_id body index f h = ground arith

  apply_body-SameSearch :
      (state : PopulationState Float) (record_id : String) (kind body : Json Float) (index : ℕ)
      {applied : PopulationState Float × Json Float}
      → state.final_evaluation_started ≡ true
      → refuse_sealed P state kind ≡ ok tt
      → apply_body P state record_id kind body index ≡ ok applied
      → SameSearch state applied.0
  unfolding apply_body contains
  apply_body-SameSearch state record_id kind body index {applied} f u h = ground (
    arith,
    open_kind state kind "candidate" refl f u,
    open_kind state kind "experiment" refl f u,
    open_kind state kind "archive" refl f u,
    open_kind state kind "allocation" refl f u,
    apply_run-SameSearch state record_id body index {applied = applied} f,
  )

  -- One record after final evaluation has started leaves everything that a search can choose from as it
  -- was, and the seal in place.
  pub apply_record-SameSearch :
      (state : PopulationState Float) (r : Fields Float) (index : ℕ)
      {state' : PopulationState Float}
      → state.final_evaluation_started ≡ true
      → apply_record P state r index ≡ ok state'
      → SameSearch state state'
  apply_record-SameSearch state r index f h =
      let a = apply_record-Accepted P state r index h in
      let same =
        apply_body-SameSearch state a.record_id a.kind a.body index f a.unsealed a.branched in
      ground (arith, a.result, same)

  SameSearch-trans :
      {a b c : PopulationState Float} → SameSearch a b → SameSearch b c → SameSearch a c
  SameSearch-trans x y = ground (arith, x, y)

  SameSearch-refl : (a : PopulationState Float) → a.final_evaluation_started ≡ true → SameSearch a a
  SameSearch-refl a f = ground arith

  -- Whatever records follow the start of final evaluation, if they replay at all, they leave the
  -- candidates, their parents, the experiments, the archives, the latest archives and the allocations as
  -- they were, and the search stays sealed.
  pub replay-SameSearch :
      (state : PopulationState Float) (rs : List (Fields Float)) (index : ℕ)
      {state' : PopulationState Float}
      → state.final_evaluation_started ≡ true
      → replay P state rs index ≡ ok state'
      → SameSearch state state'
  unfolding replay
  replay-SameSearch state [] index f h = let same = SameSearch-refl state f in ground (arith, same)
  replay-SameSearch state (r ∷ rs) index f h =
      let (next, applied, rest) = >>=-eq-ok (apply_record P state r index) _ h in
      let first = apply_record-SameSearch state r index f applied in
      SameSearch-trans first (replay-SameSearch next rs (index + 1) first.sealed rest)
