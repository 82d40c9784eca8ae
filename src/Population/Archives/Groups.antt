-- ===== src/Population/Archives/Groups.antt =====
-- The archive of a ledger: its runs are grouped by candidate, so its aggregates are of distinct ones.
use metering.Prelude.{
  ◌≡◌, refl, ap, sym, ◌∙◌, ◌≤◌, inl, inr, arith, eq_iff, Bool-cases, false, ◌||◌, ◌&&◌, List, [],
  ◌∷◌, map, length, any, String, str_eq, contains,
}
use metering.Runtime.{
  Result, ok, after, ok-injective, traverse, or_raise, require, refuse, population_error, Platform,
}
use metering.Runtime.Dict.{Dict, find}
use metering.Population.Types.{Metric, Archive, ArchivePolicy, PopulationState, RunBody}
use metering.Population.Aggregate.{candidate_aggregate}
use metering.Population.Archives.{
  append_to, group_runs, dict_keys, metric_ids, aggregate_all, viable_metrics, with_novelty,
  normalize_archive_body, is_development, is_none,
}
use metering.Population.Archives.Capacity.{DistinctIds, DistinctIds-filter, members-le-capacity}
use mathlib.Core.Path.{subst}

-- No text stands twice.
abbrev Distinct : List String → Type 0
Distinct [] = Unit
Distinct (k ∷ ks) = (contains k ks ≡ false) × Distinct ks

contains-append_to {ℓ} :
    {V : Type ℓ} (k j : String) (v : V) (d : Dict (List V))
    → contains k (dict_keys (append_to j v d)) ≡ (str_eq j k || contains k (dict_keys d))
unfolding contains append_to
contains-append_to k j v [] = refl
contains-append_to k j v ((i, vs) ∷ d) = elim (Bool-cases (str_eq i j)) [
  | inl same ↦ ground (arith, same, eq_iff i j)
  | inr other ↦ ground (arith, other, contains-append_to k j v d)
]

Distinct-append_to {ℓ} :
    {V : Type ℓ} (j : String) (v : V) (d : Dict (List V))
    → Distinct (dict_keys d)
    → Distinct (dict_keys (append_to j v d))
unfolding contains append_to
Distinct-append_to j v [] distinct = (refl, tt)
Distinct-append_to j v ((i, vs) ∷ d) distinct = elim (Bool-cases (str_eq i j)) [
  | inl same ↦ rw same distinct
  | inr other ↦ rw other (
    ground (arith, other, contains-append_to i j v d, distinct.0, eq_iff i j, eq_iff j i),
    Distinct-append_to j v d distinct.1,
  )
]

Distinct-group_runs :
    {F : Type 0} (experiment_id : String) (bodies : List (RunBody F))
    (grouped : Dict (List (RunBody F)))
    → Distinct (dict_keys grouped)
    → Distinct (dict_keys (group_runs experiment_id bodies grouped))
unfolding group_runs
Distinct-group_runs experiment_id [] grouped distinct = distinct
Distinct-group_runs experiment_id (body ∷ bodies) grouped distinct =
    elim (Bool-cases (str_eq body.run.experiment_id experiment_id)) [
      | inl same ↦ rw same (
          Distinct-group_runs experiment_id bodies _
            (Distinct-append_to body.run.candidate_id body grouped distinct))
      | inr other ↦ rw other (Distinct-group_runs experiment_id bodies grouped distinct)
    ]

-- What keeps the key of each element keeps the keys of the list.
map-traverse {ℓ κ} :
    {A : Type ℓ} {B : Type κ} (f : A → Result B) (key : A → String) (key' : B → String)
    (xs : List A) {ys : List B}
    → ((x : A) (y : B) → f x ≡ ok y → key' y ≡ key x)
    → traverse f xs ≡ ok ys
    → map key' ys ≡ map key xs
unfolding traverse
map-traverse f key key' [] kept h = sym (ap (map key') (ok-injective h))
map-traverse f key key' (x ∷ xs) kept h = after (f x) _ h λ y e r.
    after (traverse f xs) _ r λ rest e' r'.
      ap (map key') (sym (ok-injective r'))
      ∙ ap (λ k. k ∷ map key' rest) (kept x y e)
      ∙ ap (λ ks. key x ∷ ks) (map-traverse f key key' xs kept e')

module _ {F : Type 0} where
  metric_ids_apart : (ms : List (Metric F)) → DistinctIds ms → Distinct (metric_ids ms)
  metric_ids_apart [] d = tt
  metric_ids_apart (m ∷ ms) d = (d.0, metric_ids_apart ms d.1)

  apart_metrics : (ms : List (Metric F)) → Distinct (metric_ids ms) → DistinctIds ms
  apart_metrics [] d = tt
  apart_metrics (m ∷ ms) d = (d.0, apart_metrics ms d.1)

module _ (P : Platform) where
  open P use {Float}

  candidate_aggregate-candidate_id :
      (k : String) (runs : List (RunBody Float)) (policy : ArchivePolicy Float) {m : Metric Float}
      → candidate_aggregate P k runs policy ≡ ok m
      → m.candidate_id ≡ k
  unfolding candidate_aggregate
  candidate_aggregate-candidate_id k runs policy h = ground arith

  with_novelty-candidate_id :
      (viable : List (Metric Float)) (metric : Metric Float) {m : Metric Float}
      → with_novelty P viable metric ≡ ok m
      → m.candidate_id ≡ metric.candidate_id
  unfolding with_novelty
  with_novelty-candidate_id viable metric h = ground arith

  DistinctIds-aggregate_all :
      (grouped : Dict (List (RunBody Float))) (state : PopulationState Float)
      {ms : List (Metric Float)}
      → Distinct (dict_keys grouped)
      → aggregate_all P grouped state ≡ ok ms
      → DistinctIds ms
  unfolding aggregate_all
  DistinctIds-aggregate_all grouped state {ms} distinct h =
      let keys =
        map-traverse _ (λ (group : String × List (RunBody Float)). group.0)
          (λ (m : Metric Float). m.candidate_id) grouped
          (λ group m e.
            candidate_aggregate-candidate_id group.0 group.1 state.configuration.archive_policy e)
          h in
      apart_metrics ms (subst Distinct (sym keys) distinct)

  DistinctIds-with_novelty :
      (viable : List (Metric Float)) {ms : List (Metric Float)}
      → DistinctIds viable
      → traverse (with_novelty P viable) viable ≡ ok ms
      → DistinctIds ms
  DistinctIds-with_novelty viable {ms} distinct h =
      let ids =
        map-traverse _ (λ (m : Metric Float). m.candidate_id) (λ (m : Metric Float). m.candidate_id)
          viable (λ metric m e. with_novelty-candidate_id viable metric e) h in
      apart_metrics ms (subst Distinct (sym ids) (metric_ids_apart viable distinct))

  -- The archive that is made of a state has at most as many members as the capacity of the policy.
  pub normalize_archive_body-le-capacity :
      (experiment_id : String) (state : PopulationState Float) {archive : Archive Float}
      → normalize_archive_body P experiment_id state ≡ ok archive
      → length archive.members ≤ state.configuration.archive_policy.capacity
  unfolding normalize_archive_body viable_metrics
  normalize_archive_body-le-capacity experiment_id state h =
      after (or_raise population_error (find experiment_id state.experiments)) _ h
        λ experiment e₁ h₁.
          after (require (is_development experiment.role) population_error) _ h₁ λ u₂ e₂ h₂.
            after (aggregate_all P (group_runs experiment_id state.runs []) state) _ h₂
              λ aggregates e₃ h₃.
                after
                  (traverse (with_novelty P (viable_metrics P aggregates))
                    (viable_metrics P aggregates))
                  _ h₃
                  λ viable e₄ h₄.
                    after
                      (refuse
                        (experiment.information_objective
                          && any (λ metric. is_none metric.information_value_bits) viable)
                        population_error)
                      _ h₄
                      λ u₅ e₅ h₅.
                        let distinct =
                          DistinctIds-aggregate_all (group_runs experiment_id state.runs []) state
                            (Distinct-group_runs experiment_id state.runs [] tt) e₃ in
                        let remain =
                          DistinctIds-filter (λ metric. metric.survival_passed) aggregates
                            distinct in
                        let bound =
                          members-le-capacity P experiment_id experiment.information_objective
                            aggregates viable state (DistinctIds-with_novelty _ remain e₄) in
                        subst
                          (λ (a : Archive Float).
                            length a.members ≤ state.configuration.archive_policy.capacity)
                          (ok-injective h₅) bound
