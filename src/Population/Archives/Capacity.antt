-- ===== src/Population/Archives/Capacity.antt =====
-- The archive keeps to its capacity.
use metering.Prelude.{
  ℕ, zero, suc, ◌+◌, ◌≡◌, refl, ap, ◌≤◌, inl, inr, arith, eq_iff, Bool-cases, length-sort_by, Bool,
  false, List, [], ◌∷◌, map, length, filter, String, str_eq, contains, sort_by, take,
}
use metering.Runtime.{Platform}
use metering.Population.Types.{Metric, PopulationState}
use metering.Population.Pareto.{rank_before}
use metering.Population.Archives.{
  frontier_of, select_ids, select_members, archive_from, metric_ids, id_before,
}

module _ {F : Type 0} where
  -- No two aggregates are of the same candidate.
  abbrev pub DistinctIds : List (Metric F) → Type 0
  DistinctIds [] = Unit
  DistinctIds (m ∷ ms) = (contains m.candidate_id (metric_ids ms) ≡ false) × DistinctIds ms

  abbrev has_id : String → Metric F → Bool
  has_id k metric = str_eq k metric.candidate_id

  abbrev id_in : List String → Metric F → Bool
  id_in ks metric = contains metric.candidate_id ks

  contains-filter :
      (k : String) (test : Metric F → Bool) (ms : List (Metric F))
      → contains k (metric_ids ms) ≡ false
      → contains k (metric_ids (filter test ms)) ≡ false
  unfolding contains filter
  contains-filter k test [] h = refl
  contains-filter k test (m ∷ ms) h = ground (arith, contains-filter k test ms)

  pub DistinctIds-filter :
      (test : Metric F → Bool) (ms : List (Metric F))
      → DistinctIds ms
      → DistinctIds (filter test ms)
  unfolding filter
  DistinctIds-filter test [] d = tt
  DistinctIds-filter test (m ∷ ms) d = elim (Bool-cases (test m)) [
    | inl keep ↦
        rw keep (contains-filter m.candidate_id test ms d.0, DistinctIds-filter test ms d.1)
    | inr drop ↦ rw drop (DistinctIds-filter test ms d.1)
  ]

  none_with_id :
      (k : String) (ms : List (Metric F))
      → contains k (metric_ids ms) ≡ false
      → length (filter (has_id k) ms) ≡ 0
  unfolding contains filter
  none_with_id k [] h = refl
  none_with_id k (m ∷ ms) h =
      ground (arith, none_with_id k ms, eq_iff m.candidate_id k, eq_iff k m.candidate_id)

  one_with_id :
      (k : String) (ms : List (Metric F)) → DistinctIds ms → length (filter (has_id k) ms) ≤ 1
  unfolding contains filter
  one_with_id k [] d = omega arith
  one_with_id k (m ∷ ms) d = elim (Bool-cases (str_eq k m.candidate_id)) [
    | inl same ↦
        let e = (eq_iff k m.candidate_id).0 same in
        rw same (omega (arith, none_with_id k ms (rw (e) d.0)))
    | inr other ↦ rw other (one_with_id k ms d.1)
  ]

  filter-split :
      (k : String) (ks : List String) (ms : List (Metric F))
      → length (filter (id_in (k ∷ ks)) ms)
        ≤ length (filter (has_id k) ms) + length (filter (id_in ks) ms)
  unfolding contains filter
  filter-split k ks [] = omega arith
  filter-split k ks (m ∷ ms) = ground (arith, filter-split k ks ms)

  filter-none : (ms : List (Metric F)) → length (filter (id_in []) ms) ≡ 0
  unfolding contains filter
  filter-none [] = refl
  filter-none (m ∷ ms) = filter-none ms

  -- Of aggregates of distinct candidates at most one has each of the identities.
  length-filter-id_in :
      (ks : List String) (ms : List (Metric F))
      → DistinctIds ms
      → length (filter (id_in ks) ms) ≤ length ks
  length-filter-id_in [] ms d = omega (arith, filter-none ms)
  length-filter-id_in (k ∷ ks) ms d =
      omega (arith, filter-split k ks ms, one_with_id k ms d, length-filter-id_in ks ms d)

length-take-le {ℓ} : {A : Type ℓ} (n : ℕ) (xs : List A) → length (take n xs) ≤ n
length-take-le zero xs = omega arith
length-take-le (suc n) [] = omega arith
length-take-le (suc n) (x ∷ xs) = omega (arith, length-take-le n xs)

length-map {ℓ κ} :
    {A : Type ℓ} {B : Type κ} (f : A → B) (xs : List A) → length (map f xs) ≡ length xs
length-map f [] = refl
length-map f (x ∷ xs) = ap suc (length-map f xs)

module _ (P : Platform) (experiment_id : String) (i : Bool)
    (aggregates viable : List (Metric P.Float)) (state : PopulationState P.Float) where
  open P use {Float}

  -- The archive has at most as many members as the policy's capacity, provided that the viable aggregates
  -- are of distinct candidates.
  pub members-le-capacity :
      DistinctIds viable
      → length (archive_from P experiment_id i aggregates viable state).members
        ≤ state.configuration.archive_policy.capacity
  unfolding archive_from select_members select_ids frontier_of
  members-le-capacity d =
      let capacity = state.configuration.archive_policy.capacity in
      let frontier = frontier_of P i viable in
      let ranked = sort_by (rank_before P i) frontier in
      let ids = metric_ids (take capacity ranked) in
      omega (
        arith,
        length-sort_by id_before (filter (id_in ids) frontier),
        length-filter-id_in ids frontier (DistinctIds-filter _ viable d),
        length-map (λ (metric : Metric Float). metric.candidate_id) (take capacity ranked),
        length-take-le capacity ranked,
      )
