-- ===== src/Population/Archives/Partition.antt =====
-- Every candidate of the population is a member of the archive or excluded with its reason, and the archive
-- keeps to its capacity.
use metering.Prelude.{
  ℕ, ◌≡◌, refl, ap, sym, ◌∙◌, inl, inr, arith, eq_iff, Bool-cases, Memᴰ_of_take, Memᴰ-filter,
  Memᴰ_of_filter, Memᴰ-sort_by, Memᴰ_of_sort_by, contains-map, contains-map-elim, Bool, true, false,
  ◌&&◌, ◌||◌, not, ◌⊎◌, Option, none, some, List, [], ◌∷◌, if◌then◌else◌, filter, String, str_eq,
  contains, sort_by, text_lt, insert, take,
}
use metering.Runtime.{Platform}
use metering.Runtime.Dict.{Dict, find, member}
use text.Mathlib.TextPositions.{eq_refl}
use metering.Population.Types.{Metric, PopulationState, Reason}
use metering.Population.Pareto.{rank_before}
use metering.Population.Archives.{
  frontier_of, select_ids, select_members, archive_from, metric_ids, id_before, exclusion,
  exclusions, dict_keys,
}
use metering.Population.Archives.Reasons.{HasReason, exclusion-HasReason}

find-exclusions :
    (k : String) (selected evaluated viable frontier ids : List String)
    → find k (exclusions selected evaluated viable frontier ids) ≡ (
        if contains k ids && not (contains k selected)
        then some (exclusion evaluated viable frontier k)
        else none)
unfolding find exclusions contains
find-exclusions k selected evaluated viable frontier [] = refl
find-exclusions k selected evaluated viable frontier (x ∷ xs) = elim (Bool-cases (str_eq x k)) [
  | inl same ↦
      let e = (eq_iff x k).0 same in
      rw e (ground (arith, eq_refl k, find-exclusions k selected evaluated viable frontier xs))
  | inr other ↦ ground (arith, other, find-exclusions k selected evaluated viable frontier xs)
]

contains-insert :
    (k y : String) (ys : List String)
    → contains k (insert text_lt y ys) ≡ (str_eq y k || contains k ys)
unfolding contains insert
contains-insert k y [] = refl
contains-insert k y (z ∷ zs) = ground (arith, contains-insert k y zs)

contains-sort_by : (k : String) (xs : List String) → contains k (sort_by text_lt xs) ≡ contains k xs
unfolding contains sort_by
contains-sort_by k [] = refl
contains-sort_by k (x ∷ xs) =
    contains-insert k x (sort_by text_lt xs) ∙ ap (λ b. str_eq x k || b) (contains-sort_by k xs)

contains-dict_keys {ℓ} :
    {V : Type ℓ} (k : String) (d : Dict V) → contains k (dict_keys d) ≡ member k d
unfolding contains member
contains-dict_keys k [] = refl
contains-dict_keys k ((j, v) ∷ d) = ap (λ b. str_eq j k || b) (contains-dict_keys k d)

Bool-eq : (a b : Bool) → (a ≡ true → b ≡ true) → (b ≡ true → a ≡ true) → a ≡ b
Bool-eq true b f g = sym (f refl)
Bool-eq false true f g = g refl
Bool-eq false false f g = refl

module _ (P : Platform) (i : Bool) (capacity : ℕ) (frontier : List (Metric P.Float)) where
  open P use {Float}

  abbrev selected : List String
  selected = select_ids P i capacity frontier

  abbrev id_of : Metric Float → String
  id_of metric = metric.candidate_id

  is_selected : Metric Float → Bool
  is_selected metric = contains metric.candidate_id selected

  member-is-selected :
      (k : String)
      → contains k (metric_ids (select_members P selected frontier)) ≡ true
      → contains k selected ≡ true
  unfolding select_members is_selected
  member-is-selected k h =
      let (m, at, e) = contains-map-elim id_of k (select_members P selected frontier) h in
      let (in_frontier, chosen) =
        Memᴰ_of_filter is_selected frontier
          (Memᴰ_of_sort_by id_before (filter is_selected frontier) at) in
      rw (← e) chosen

  selected-is-member :
      (k : String)
      → contains k selected ≡ true
      → contains k (metric_ids (select_members P selected frontier)) ≡ true
  unfolding select_members select_ids is_selected
  selected-is-member k h =
      let (m, at, e) =
        contains-map-elim id_of k (take capacity (sort_by (rank_before P i) frontier)) h in
      let in_frontier =
        Memᴰ_of_sort_by (rank_before P i) frontier
          (Memᴰ_of_take capacity (sort_by (rank_before P i) frontier) at) in
      let chosen : contains m.candidate_id selected ≡ true = rw e h in
      rw (← e)
        (contains-map id_of (Memᴰ-sort_by id_before (Memᴰ-filter is_selected in_frontier chosen)))

  -- The identities of the members are the selected ones.
  members-selected :
      (k : String)
      → contains k (metric_ids (select_members P selected frontier)) ≡ contains k selected
  members-selected k = Bool-eq _ _ (member-is-selected k) (selected-is-member k)

module _ (P : Platform) (experiment_id : String) (i : Bool)
    (aggregates viable : List (Metric P.Float)) (state : PopulationState P.Float) where
  open P use {Float}

  abbrev selected_ids : List String
  selected_ids = select_ids P i state.configuration.archive_policy.capacity (frontier_of P i viable)

  abbrev member_ids : List String
  member_ids = metric_ids (archive_from P experiment_id i aggregates viable state).members

  find-excluded :
      (k : String)
      → find k (archive_from P experiment_id i aggregates viable state).excluded ≡ (
          if member k state.candidates && not (contains k selected_ids)
          then some (
              exclusion
                (metric_ids aggregates)
                (metric_ids viable)
                (metric_ids (frontier_of P i viable))
                k)
          else none)
  unfolding archive_from
  find-excluded k = rw (find-exclusions, contains-sort_by, contains-dict_keys) refl

  -- Where a candidate of the population stands: excluded with a reason, or a member.
  abbrev pub IsPlaced : String → Option Reason → Type 0
  IsPlaced k (some reason) =
      (member k state.candidates ≡ true)
      × (contains k member_ids ≡ false)
      × HasReason P i state.configuration.archive_policy.capacity aggregates viable k reason
  IsPlaced k none = (member k state.candidates ≡ false) ⊎ (contains k member_ids ≡ true)

  -- Each candidate of the population is either a member of the archive or excluded, and not both, and nothing
  -- else is excluded. What is excluded as unevaluated has no aggregate; as infeasible, an aggregate but no
  -- viable one; as dominated, a viable aggregate that a viable one of another candidate dominates, and none
  -- on the frontier; as over capacity, a viable aggregate on the frontier that no viable one of another
  -- candidate dominates, where the frontier is larger than the capacity.
  pub archive_partition :
      (k : String)
      → IsPlaced k (find k (archive_from P experiment_id i aggregates viable state).excluded)
  unfolding archive_from
  archive_partition k =
      let capacity = state.configuration.archive_policy.capacity in
      let same = members-selected P i capacity (frontier_of P i viable) k in
      let found = find-excluded k in
      elim (Bool-cases (member k state.candidates)) [
        | inr absent ↦ rw (found, absent) (inl absent)
        | inl present ↦ elim (Bool-cases (contains k selected_ids)) [
          | inl kept ↦ rw (found, present, kept) (inr (same ∙ kept))
          | inr left_out ↦
              let reason = exclusion-HasReason P i capacity aggregates viable k left_out in
              rw (found, present, left_out) (present, same ∙ left_out, reason)
        ]
      ]
