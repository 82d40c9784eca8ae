-- ===== src/Population/Archives/Members.antt =====
-- The archive of runs that have cases has a member as soon as it has a viable candidate.
use metering.Prelude.{
  ◌≡◌, ◌<◌, All, inl, inr, arith, Bool-cases, Bool, ◌&&◌, ◌++◌, List, [], ◌∷◌, length, filter, any,
  String, str_eq,
}
use metering.Runtime.{
  Result, ok, after, ok-injective, traverse, or_raise, require, refuse, population_error, Platform,
}
use metering.Runtime.Dict.{Dict, find}
use metering.Population.Types.{Metric, Archive, PopulationState, RunBody}
use metering.Population.Aggregate.{candidate_aggregate, case_total}
use metering.Population.Pareto.Order.{FloatOrder}
use metering.Population.Archives.{
  append_to, group_runs, aggregate_all, viable_metrics, with_novelty, archive_from,
  normalize_archive_body, is_development, is_none,
}
use metering.Population.Archives.Frontier.{HasCases, archive_has_member}
use mathlib.Core.Path.{subst}

module _ {F : Type 0} where
  abbrev pub HasCase : RunBody F → Type 0
  HasCase body = 0 < body.evidence.task.case_count

  abbrev GroupHasCases : String × List (RunBody F) → Type 0
  GroupHasCases group = 0 < case_total group.1

  case_total-append :
      (bodies : List (RunBody F)) (body : RunBody F)
      → HasCase body
      → 0 < case_total (bodies ++ body ∷ [])
  case_total-append [] body h = omega arith
  case_total-append (b ∷ bodies) body h = omega (arith, case_total-append bodies body h)

  All-append_to :
      (k : String) (body : RunBody F) (d : Dict (List (RunBody F)))
      → HasCase body
      → All GroupHasCases d
      → All GroupHasCases (append_to k body d)
  unfolding append_to
  All-append_to k body [] h all = (omega arith, tt)
  All-append_to k body ((j, bodies) ∷ d) h all = elim (Bool-cases (str_eq j k)) [
    | inl same ↦ rw same (case_total-append bodies body h, all.1)
    | inr other ↦ rw other (all.0, All-append_to k body d h all.1)
  ]

  All-group_runs :
      (experiment_id : String) (bodies : List (RunBody F)) (grouped : Dict (List (RunBody F)))
      → All HasCase bodies
      → All GroupHasCases grouped
      → All GroupHasCases (group_runs experiment_id bodies grouped)
  unfolding group_runs
  All-group_runs experiment_id [] grouped cases all = all
  All-group_runs experiment_id (body ∷ bodies) grouped cases all =
      elim (Bool-cases (str_eq body.run.experiment_id experiment_id)) [
        | inl same ↦ rw same (
            All-group_runs experiment_id bodies _ cases.1
              (All-append_to body.run.candidate_id body grouped cases.0 all))
        | inr other ↦ rw other (All-group_runs experiment_id bodies grouped cases.1 all)
      ]

-- What the function makes of good elements is good.
All-traverse {ℓ κ} :
    {A : Type ℓ} {B : Type κ} (f : A → Result B) (Q : A → Type 0) (R : B → Type 0) (xs : List A)
    {ys : List B}
    → ((x : A) (y : B) → Q x → f x ≡ ok y → R y)
    → All Q xs
    → traverse f xs ≡ ok ys
    → All R ys
unfolding traverse
All-traverse f Q R [] good all h = subst (All R) (ok-injective h) tt
All-traverse f Q R (x ∷ xs) good all h = after (f x) _ h λ y e r.
    after (traverse f xs) _ r λ rest e' r'.
      subst (All R) (ok-injective r') (good x y all.0 e, All-traverse f Q R xs good all.1 e')

All-filter {ℓ} :
    {A : Type ℓ} (test : A → Bool) (Q : A → Type 0) (xs : List A)
    → All Q xs
    → All Q (filter test xs)
unfolding filter
All-filter test Q [] all = tt
All-filter test Q (x ∷ xs) all = elim (Bool-cases (test x)) [
  | inl keep ↦ rw keep (all.0, All-filter test Q xs all.1)
  | inr drop ↦ rw drop (All-filter test Q xs all.1)
]

module _ (P : Platform) where
  open P use {Float}

  candidate_aggregate-case_count :
      (group : String × List (RunBody Float)) (state : PopulationState Float) (m : Metric Float)
      → GroupHasCases group
      → candidate_aggregate P group.0 group.1 state.configuration.archive_policy ≡ ok m
      → HasCases m
  unfolding candidate_aggregate
  candidate_aggregate-case_count group state m cases h =
      let e : m.case_count ≡ case_total group.1 = ground arith in omega arith

  with_novelty-case_count :
      (viable : List (Metric Float)) (metric m : Metric Float)
      → HasCases metric
      → with_novelty P viable metric ≡ ok m
      → HasCases m
  unfolding with_novelty
  with_novelty-case_count viable metric m cases h =
      let e : m.case_count ≡ metric.case_count = ground arith in omega arith

  pub normalize_archive_body-has_member :
      FloatOrder P
      → (experiment_id : String) (state : PopulationState Float) {archive : Archive Float}
      → All HasCase state.runs
      → 0 < state.configuration.archive_policy.capacity
      → normalize_archive_body P experiment_id state ≡ ok archive
      → 0 < archive.eligible_count
      → 0 < length archive.members
  unfolding normalize_archive_body aggregate_all viable_metrics archive_from
  normalize_archive_body-has_member order experiment_id state cases_of_runs room h =
      after (or_raise population_error (find experiment_id state.experiments)) _ h
        λ experiment e₁ h₁.
          after (require (is_development experiment.role) population_error) _ h₁ λ u₂ e₂ h₂.
            after (aggregate_all P (group_runs experiment_id state.runs []) state) _ h₂
              λ aggregates e₃ h₃.
                after
                  (traverse (with_novelty P (viable_metrics P aggregates))
                    (viable_metrics P aggregates))
                  _ h₃
                  λ viable e₄ h₄.
                    after
                      (refuse
                        (experiment.information_objective
                          && any (λ metric. is_none metric.information_value_bits) viable)
                        population_error)
                      _ h₄
                      λ u₅ e₅ h₅.
                        let groups = All-group_runs experiment_id state.runs [] cases_of_runs tt in
                        let evaluated =
                          All-traverse _ GroupHasCases HasCases
                            (group_runs experiment_id state.runs [])
                            (λ group m. candidate_aggregate-case_count group state m) groups e₃ in
                        let survived =
                          All-filter (λ (metric : Metric Float). metric.survival_passed) HasCases
                            aggregates evaluated in
                        let cases =
                          All-traverse _ HasCases HasCases (viable_metrics P aggregates)
                            (λ metric m. with_novelty-case_count _ metric m) survived e₄ in
                        subst (λ (a : Archive Float). 0 < a.eligible_count → 0 < length a.members)
                          (ok-injective h₅)
                          (λ some_viable.
                            archive_has_member P experiment_id experiment.information_objective
                              aggregates viable state order cases some_viable room)
