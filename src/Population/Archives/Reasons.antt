-- ===== src/Population/Archives/Reasons.antt =====
-- Why a candidate is left out of an archive.
use metering.Prelude.{
  ℕ, ◌≡◌, ap, sym, ◌∙◌, ◌≢◌, ◌⊎◌, ◌<◌, inl, inr, arith, eq_iff, Bool-cases, All, Memᴰ-filter,
  Memᴰ_of_filter, Memᴰ-sort_by, Memᴰ-take, length-sort_by, contains-map, contains-map-elim,
  any-elim, Bool, true, false, not, List, length, String, contains,
}
use metering.Runtime.{Platform}
use mathlib.Core.List.{Memᴰ}
use metering.Population.Types.{Metric, Reason, unevaluated, infeasible, dominated, over_capacity}
use metering.Population.Pareto.{dominates, rank_before}
use metering.Population.Archives.{is_dominated, frontier_of, select_ids, metric_ids, exclusion}
use metering.Population.Archives.Frontier.{is_dominated-All}

module _ (P : Platform) (i : Bool) (capacity : ℕ) (aggregates viable : List (Metric P.Float)) where
  open P use {Float}

  abbrev frontier : List (Metric Float)
  frontier = frontier_of P i viable

  -- What each reason says of a candidate. Unevaluated: it has no aggregate. Infeasible: it has one, but no
  -- viable one. Dominated: it has a viable aggregate that a viable one of another candidate dominates, and
  -- none on the frontier. Over capacity: it has a viable aggregate that none of another candidate
  -- dominates, and the frontier is larger than the capacity.
  abbrev pub HasReason : String → Reason → Type 0
  HasReason k unevaluated = contains k (metric_ids aggregates) ≡ false
  HasReason k infeasible =
      (contains k (metric_ids aggregates) ≡ true) × (contains k (metric_ids viable) ≡ false)
  HasReason k dominated =
      (contains k (metric_ids aggregates) ≡ true)
      × (contains k (metric_ids frontier) ≡ false)
      × (m : Metric Float) × (other : Metric Float) × Memᴰ m viable
      × Memᴰ other viable
      × (m.candidate_id ≡ k)
      × (other.candidate_id ≢ k)
      × (dominates P other m i ≡ true)
  HasReason k over_capacity =
      (contains k (metric_ids aggregates) ≡ true)
      × (contains k (metric_ids frontier) ≡ true)
      × (m : Metric Float) × Memᴰ m viable
      × (m.candidate_id ≡ k)
      × All (λ other. (other.candidate_id ≡ m.candidate_id) ⊎ (dominates P other m i ≡ false))
          viable
      × (capacity < length frontier)

  abbrev id_of : Metric Float → String
  id_of metric = metric.candidate_id

  dominated-by :
      (m : Metric Float)
      → is_dominated P i viable m ≡ true
      → (other : Metric Float) × Memᴰ other viable
        × (other.candidate_id ≢ m.candidate_id)
        × (dominates P other m i ≡ true)
  unfolding is_dominated
  dominated-by m h =
      let (other, at, e) = any-elim _ viable h in
      (other, at, ground (arith, e, eq_iff other.candidate_id m.candidate_id), ground (arith, e))

  dominated-HasReason :
      (k : String)
      → contains k (metric_ids aggregates) ≡ true
      → contains k (metric_ids viable) ≡ true
      → contains k (metric_ids frontier) ≡ false
      → HasReason k dominated
  unfolding frontier_of
  dominated-HasReason k evaluated h off =
      let (m, at, e) = contains-map-elim id_of k viable h in
      elim (Bool-cases (is_dominated P i viable m)) [
        | inl worse ↦
            let (other, beside, apart, better) = dominated-by m worse in
            (evaluated, off, m, other, at, beside, e, λ same. apart (same ∙ sym e), better)
        | inr free ↦
            let on =
              contains-map id_of
                (Memᴰ-filter (λ metric. not (is_dominated P i viable metric)) at (ap not free)) in
            absurd (cc (on, off, e))
      ]

  over_capacity-HasReason :
      (k : String)
      → contains k (metric_ids aggregates) ≡ true
      → contains k (metric_ids frontier) ≡ true
      → contains k (select_ids P i capacity frontier) ≡ false
      → HasReason k over_capacity
  unfolding frontier_of select_ids
  over_capacity-HasReason k evaluated on left_out =
      let (m, at, e) = contains-map-elim id_of k frontier on in
      let (in_viable, free) = Memᴰ_of_filter _ viable at in
      let undominated = is_dominated-All P i m viable (ground (arith, free)) in
      elim (Memᴰ-take capacity (Memᴰ-sort_by (rank_before P i) at)) [
        | inl kept ↦ absurd (cc (contains-map id_of kept, left_out, e))
        | inr more ↦ (
          evaluated,
          on,
          m,
          in_viable,
          e,
          undominated,
          rw (← length-sort_by (rank_before P i) frontier) more,
        )
      ]

  -- A candidate that is not selected has the reason that the code gives it.
  pub exclusion-HasReason :
      (k : String)
      → contains k (select_ids P i capacity frontier) ≡ false
      → HasReason k (exclusion (metric_ids aggregates) (metric_ids viable) (metric_ids frontier) k)
  unfolding exclusion
  exclusion-HasReason k left_out = elim (Bool-cases (contains k (metric_ids aggregates))) [
    | inr missing ↦ rw missing missing
    | inl evaluated ↦ elim (Bool-cases (contains k (metric_ids viable))) [
      | inr failed ↦ rw (evaluated, failed) (evaluated, failed)
      | inl feasible ↦ elim (Bool-cases (contains k (metric_ids frontier))) [
        | inr off ↦ rw (evaluated, feasible, off) (dominated-HasReason k evaluated feasible off)
        | inl on ↦ rw (evaluated, feasible, on) (over_capacity-HasReason k evaluated on left_out)
      ]
    ]
  ]
