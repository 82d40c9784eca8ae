-- ===== src/Population/Archives/Frontier.antt =====
-- The frontier of an archive and the members that it keeps.
use metering.Prelude.{
  ℕ, ◌≡◌, refl, ap, ◌⊎◌, str_eq, ◌<◌, inl, inr, arith, eq_iff, Bool-cases, All, All-Memᴰ,
  exists_take, Memᴰ_of_take, Memᴰ-filter, Memᴰ_of_filter, Memᴰ-sort_by, Memᴰ_of_sort_by,
  length_pos_of_Memᴰ, contains-map, Bool, true, false, not, List, [], ◌∷◌, length, any, filter,
  String, contains, sort_by,
}
use metering.Runtime.{Platform}
use mathlib.Core.List.{Memᴰ}
use metering.Population.Types.{Metric, PopulationState}
use metering.Population.Pareto.{dominates, rank_before}
use metering.Population.Pareto.Order.{FloatOrder, dominates_trans, dominates_irrefl}
use metering.Population.Archives.{
  is_dominated, frontier_of, select_ids, select_members, archive_from, id_before,
}

abbrev pub HasCases : {F : Type 0} → Metric F → Type 0
HasCases metric = 0 < metric.case_count

module _ (P : Platform) (order : FloatOrder P) (i : Bool) where
  open P use {Float}

  abbrev dominated_by_any : Metric Float → List (Metric Float) → Bool
  dominated_by_any metric others = any (λ other. dominates P other metric i) others

  -- What does not dominate `m` does not dominate an `x` that dominates `m`.
  undominated-step :
      (x m : Metric Float) (others : List (Metric Float))
      → HasCases x
      → HasCases m
      → dominates P x m i ≡ true
      → dominated_by_any m others ≡ false
      → dominated_by_any x others ≡ false
  unfolding any
  undominated-step x m [] cx cm d h = refl
  undominated-step x m (y ∷ ys) cx cm d h =
      ground (arith, dominates_trans P order i y x m cx cm, undominated-step x m ys cx cm d)

  -- In a list that is not empty something is dominated by nothing.
  exists_undominated :
      (x : Metric Float) (xs : List (Metric Float))
      → All HasCases (x ∷ xs)
      → (m : Metric Float) × Memᴰ m (x ∷ xs) × (dominated_by_any m (x ∷ xs) ≡ false)
  unfolding any
  exists_undominated x [] cases = (x, Memᴰ.head refl, ground (arith, dominates_irrefl P order i x))
  exists_undominated x (y ∷ ys) cases =
      let (m, at, free) = exists_undominated y ys cases.1 in
      elim (Bool-cases (dominates P x m i)) [
        | inl better ↦ (
          x,
          Memᴰ.head refl,
          ground (
            arith,
            dominates_irrefl P order i x,
            undominated-step x m (y ∷ ys) cases.0 (All-Memᴰ HasCases cases.1 at) better free,
          ),
        )
        | inr worse ↦ (m, Memᴰ.tail at, ground (arith, worse, free))
      ]

  not_is_dominated :
      (m : Metric Float) (others : List (Metric Float))
      → dominated_by_any m others ≡ false
      → is_dominated P i others m ≡ false
  unfolding is_dominated any
  not_is_dominated m [] h = refl
  not_is_dominated m (y ∷ ys) h = ground (arith, not_is_dominated m ys)

  exists_frontier :
      (viable : List (Metric Float))
      → All HasCases viable
      → 0 < length viable
      → (m : Metric Float) × Memᴰ m (frontier_of P i viable)
  unfolding frontier_of
  exists_frontier [] cases h = absurd (omega arith)
  exists_frontier (x ∷ xs) cases h =
      let (m, at, free) = exists_undominated x xs cases in
      (m, Memᴰ-filter _ at (ap not (not_is_dominated m (x ∷ xs) free)))

not-eq-true : (b : Bool) → not b ≡ true → b ≡ false
not-eq-true b h = ground arith

pub is_dominated-All :
    (P : Platform) (i : Bool) (m : Metric P.Float) (others : List (Metric P.Float))
    → is_dominated P i others m ≡ false
    → All (λ other. (other.candidate_id ≡ m.candidate_id) ⊎ (dominates P other m i ≡ false)) others
unfolding is_dominated any
is_dominated-All P i m [] free = tt
is_dominated-All P i m (other ∷ others) free = (
  elim (Bool-cases (str_eq other.candidate_id m.candidate_id)) [
    | inl same ↦ inl ((eq_iff other.candidate_id m.candidate_id).0 same)
    | inr apart ↦ inr (ground (arith, free, apart))
  ],
  is_dominated-All P i m others (ground (arith, free)),
)

module _ (P : Platform) (i : Bool) (capacity : ℕ) (frontier : List (Metric P.Float)) where
  open P use {Float}

  -- The first of what is kept is among the selected members.
  exists_member :
      {m : Metric Float}
      → 0 < capacity
      → Memᴰ m frontier
      → 0 < length (select_members P (select_ids P i capacity frontier) frontier)
  unfolding select_members select_ids
  exists_member h at =
      let (kept, there) = exists_take capacity h (Memᴰ-sort_by (rank_before P i) at) in
      let in_frontier =
        Memᴰ_of_sort_by (rank_before P i) frontier
          (Memᴰ_of_take capacity (sort_by (rank_before P i) frontier) there) in
      let selected = contains-map (λ (metric : Metric Float). metric.candidate_id) there in
      length_pos_of_Memᴰ (Memᴰ-sort_by id_before (Memᴰ-filter _ in_frontier selected))

  Memᴰ_of_members :
      (selected : List String) {m : Metric Float}
      → Memᴰ m (select_members P selected frontier)
      → Memᴰ m frontier × (contains m.candidate_id selected ≡ true)
  unfolding select_members
  Memᴰ_of_members selected at = Memᴰ_of_filter _ frontier (
      Memᴰ_of_sort_by id_before
        (filter (λ (metric : Metric Float). contains metric.candidate_id selected) frontier) at)

module _ (P : Platform) (experiment_id : String) (i : Bool)
    (aggregates viable : List (Metric P.Float)) (state : PopulationState P.Float) where
  open P use {Float}

  -- If some candidate is viable, the archive has a member, provided that every viable aggregate has a case,
  -- the capacity is not 0 and floats are ordered (FloatOrder).
  pub archive_has_member :
      FloatOrder P
      → All HasCases viable
      → 0 < length viable
      → 0 < state.configuration.archive_policy.capacity
      → 0 < length (archive_from P experiment_id i aggregates viable state).members
  unfolding archive_from
  archive_has_member order cases some_viable room =
      let (m, at) = exists_frontier P order i viable cases some_viable in
      exists_member P i state.configuration.archive_policy.capacity (frontier_of P i viable) room at

  -- A member of the archive is one of the viable aggregates, and every viable aggregate is of the same
  -- candidate or does not dominate it.
  pub members_undominated :
      (m : Metric Float)
      → Memᴰ m (archive_from P experiment_id i aggregates viable state).members
      → Memᴰ m viable
        × All
            (λ other. (other.candidate_id ≡ m.candidate_id) ⊎ (dominates P other m i ≡ false))
            viable
  unfolding archive_from frontier_of
  members_undominated m at =
      let (in_frontier, chosen) =
        Memᴰ_of_members P i state.configuration.archive_policy.capacity (frontier_of P i viable) _
          at in
      let (in_viable, free) = Memᴰ_of_filter _ viable in_frontier in
      (in_viable, is_dominated-All P i m viable (not-eq-true _ free))
