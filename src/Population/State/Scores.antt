-- ===== src/Population/State/Scores.antt =====
-- The runs of the ledger are scored by their experiments.
use metering.Prelude.{
  ℕ, refl, ◌≡◌, ◌≤◌, ◌<◌, ◌∙◌, sym, ap, arith, All, Bool-cases, inl, inr, some, true, false, ◌&&◌,
  List, [], ◌∷◌, ◌++◌, String, str_eq, eq_iff, ◌==◌,
}
use metering.Runtime.{
  ok, >>=-eq-ok, after, ok-injective, Json, Platform, Fields, ◌>>=◌, require, refuse, refuse-eq-ok,
  or_raise, or_raise-eq-ok, protocol_error, population_error, str,
}
use metering.Runtime.Dict.{Dict, find-put, find, put, member}
use metering.AgentProtocol.{
  require_sha256, require_nonempty_string, normalize_json_value, require_same_json, require_object,
  item, is_text, require_exact_keys,
}
use metering.Population.Types.{PopulationState, RunBody, Experiment, Evidence, Measurements, Task}
use metering.Population.Schema.{positive_integer}
use metering.Population.Evidence.{within, decode_task, run_evidence}
use metering.Population.Runs.{run_digest, normalize_run_body}
use metering.Population.Evidence.Documents.{measurements_json}
use metering.Population.Experiments.{normalize_experiment_body}
use metering.Population.State.{
  apply_candidate, apply_experiment, apply_run, apply_archive, apply_allocation, apply_body,
  apply_record, new_state,
}
use metering.Population.State.Effects.{apply_record-Accepted}
use metering.Population.State.Seal.{is_text-str}
use metering.Population.State.Invariants.{load_state_induction}
use metering.Population.State.Ledger.{load_state}
use mathlib.Core.Path.{subst}

-- What the evidence of a run and its measurements owe to the experiment.
pub record IsScored {F : Type 0} (experiment : Experiment) (evidence : Evidence F)
    (measurements : Measurements F) : Type 0 where
  pub cases : evidence.task.case_count ≡ experiment.case_count
  pub some_case : 0 < evidence.task.case_count
  pub passed : evidence.task.passed_count ≤ evidence.task.case_count
  pub survival : measurements.survival_passed ≡ (
      evidence.protected_passed
      && evidence.task.safety_failures == 0
      && within evidence.cost experiment.budget)

decode_task-bounds :
    {F : Type 0} (n : ℕ) (value : Json F) {task : Task}
    → decode_task n value ≡ ok task
    → (task.case_count ≡ n) × (0 < task.case_count) × (task.passed_count ≤ task.case_count)
unfolding decode_task positive_integer
decode_task-bounds n value h = ground arith

module _ (P : Platform) where
  open P use {Float}

  run_evidence-IsScored :
      (value : Json Float) (experiment : Experiment) {checked : Evidence Float × Measurements Float}
      → run_evidence P value experiment ≡ ok checked
      → IsScored experiment checked.0 checked.1
  unfolding run_evidence
  run_evidence-IsScored value experiment {checked} h = after (require_object value) _ h λ d e₁ h₁.
      after (require_exact_keys d _) _ h₁ λ u₂ e₂ h₂.
        after (item "task" d >>= decode_task experiment.case_count) _ h₂ λ task e₃ h₃.
          let same : checked.0.task ≡ task = ground (arith, h₃) in
          let (raw, found, decoded) = >>=-eq-ok (item "task" d) _ e₃ in
          let bounds = decode_task-bounds experiment.case_count raw decoded in
          record {
            cases = ground (arith, same, bounds.0);
            some_case = ground (arith, same, bounds.1);
            passed = ground (arith, same, bounds.2);
            survival = ground (arith, h₃);
          }

  normalize_run_body-IsScored :
      (value : Json Float) (state : PopulationState Float) {body : RunBody Float}
      → normalize_run_body P value state ≡ ok body
      → (experiment : Experiment) × (find body.run.experiment_id state.experiments
          ≡ some experiment)
        × IsScored experiment body.evidence body.measurements
  unfolding normalize_run_body
  normalize_run_body-IsScored value state {body} h = after (require_object value) _ h λ d e₁ h₁.
      after (require_exact_keys d _) _ h₁ λ u₂ e₂ h₂.
        after (item "run" d >>= require_object) _ h₂ λ run e₃ h₃.
          after (require_exact_keys run _) _ h₃ λ u₄ e₄ h₄.
            after (item "candidate_id" run >>= require_sha256) _ h₄ λ candidate_id e₅ h₅.
              after (item "experiment_id" run >>= require_sha256) _ h₅ λ experiment_id e₆ h₆.
                after (require (member candidate_id state.candidates) population_error) _ h₆
                  λ u₇ e₇ h₇.
                    after (or_raise population_error (find experiment_id state.experiments)) _ h₇
                      λ experiment e₈ h₈.
                        after (item "replicate_id" run >>= require_nonempty_string) _ h₈
                          λ replicate_id e₉ h₉.
                            after (item "seed" run >>= normalize_json_value P) _ h₉
                              λ run_seed e₁₀ h₁₀.
                                after (run_digest P candidate_id experiment_id replicate_id) _ h₁₀
                                  λ expected_id e₁₁ h₁₁.
                                    after (item "run_id" run >>= require_sha256) _ h₁₁
                                      λ supplied_id e₁₂ h₁₂.
                                        after
                                          (require (str_eq supplied_id expected_id) protocol_error)
                                          _ h₁₂
                                          λ u₁₃ e₁₃ h₁₃.
                                            after (item "evidence" d) _ h₁₃ λ raw_evidence e₁₄ h₁₄.
                                              after (run_evidence P raw_evidence experiment) _ h₁₄
                                                λ checked e₁₅ h₁₅.
                                                  after
                                                    (item "measurements" d
                                                      >>= normalize_json_value P)
                                                    _ h₁₅
                                                    λ measurements e₁₆ h₁₆.
                                                      after
                                                        (require_same_json P measurements
                                                          (measurements_json checked.1)
                                                          protocol_error)
                                                        _ h₁₆
                                                        λ u₁₇ e₁₇ h₁₇.
                                                          let e = ok-injective h₁₇ in
                                                          (
                                                            experiment,
                                                            ap
                                                            (λ (b : RunBody Float).
                                                            find b.run.experiment_id
                                                            state.experiments)
                                                            (sym e)
                                                            ∙ or_raise-eq-ok population_error _ e₈,
                                                            subst
                                                            (λ (b : RunBody Float).
                                                            IsScored experiment b.evidence
                                                            b.measurements)
                                                            e
                                                            (run_evidence-IsScored raw_evidence
                                                            experiment e₁₅),
                                                          )

-- A run with an experiment of the state that scores it.
pub record HasScore {F : Type 0} (state : PopulationState F) (body : RunBody F) : Type 0 where
  pub experiment : Experiment
  pub known : find body.run.experiment_id state.experiments ≡ some experiment
  pub scored : IsScored experiment body.evidence body.measurements

abbrev pub AllScored : {F : Type 0} → PopulationState F → Type 0
AllScored state = All (HasScore state) state.runs

module _ {F : Type 0} (state state' : PopulationState F) where
  -- The experiments of the first state are known to the second.
  abbrev Extends : Type 0
  Extends =
      (k : String) (e : Experiment)
      → find k state.experiments ≡ some e
      → find k state'.experiments ≡ some e

  HasScore-Extends :
      Extends
      → (bodies : List (RunBody F)) → All (HasScore state) bodies
      → All (HasScore state') bodies
  HasScore-Extends more [] scores = tt
  HasScore-Extends more (body ∷ bodies) scores = (
    record {
      experiment = scores.0.experiment;
      known = more _ _ scores.0.known;
      scored = scores.0.scored;
    },
    HasScore-Extends more bodies scores.1,
  )

  AllScored-same :
      AllScored state
      → state'.experiments ≡ state.experiments
      → state'.runs ≡ state.runs
      → AllScored state'
  AllScored-same scores experiments runs =
      subst (All (HasScore state')) (sym runs)
        (HasScore-Extends (λ k e found. ap (find k) experiments ∙ found) state.runs scores)

-- The experiments and the runs stay.
abbrev Unchanged : {F : Type 0} → PopulationState F → PopulationState F → Type 0
Unchanged state state' = (state'.experiments ≡ state.experiments) × (state'.runs ≡ state.runs)

All-append {ℓ} :
    {A : Type ℓ} (Q : A → Type 0) (xs : List A) (x : A) → All Q xs → Q x → All Q (xs ++ x ∷ [])
All-append Q [] x all last = (last, tt)
All-append Q (y ∷ ys) x all last = (all.0, All-append Q ys x all.1 last)

member-find {ℓ} :
    {V : Type ℓ} (k : String) (d : Dict V) {v : V} → find k d ≡ some v → member k d ≡ true
unfolding find member
member-find k [] h = cc
member-find k ((j, w) ∷ d) {v} h = ground (arith, member-find k d {v = v})

pub find-put_fresh {ℓ} :
    {V : Type ℓ} (k j : String) (w : V) (d : Dict V) {v : V}
    → member j d ≡ false
    → find k d ≡ some v
    → find k (put j w d) ≡ some v
find-put_fresh k j w d {v} fresh found = elim (Bool-cases (str_eq j k)) [
  | inl same ↦
      let e = (eq_iff j k).0 same in cc (fresh, ap (λ i. member i d) e, member-find k d found)
  | inr apart ↦ find-put k j w d ∙ rw apart found
]

module _ (P : Platform) where
  open P use {Float}

  pub apply_body-experiment :
      (state : PopulationState Float) (record_id : String) (body : Json Float) (index : ℕ)
      → apply_body P state record_id (str "experiment") body index
        ≡ apply_experiment P state record_id body
  unfolding apply_body is_text
  apply_body-experiment state record_id body index = refl

  apply_body-run :
      (state : PopulationState Float) (record_id : String) (body : Json Float) (index : ℕ)
      → apply_body P state record_id (str "run") body index ≡ apply_run P state record_id body index
  unfolding apply_body is_text
  apply_body-run state record_id body index = refl

  module _ (state : PopulationState Float) (record_id : String) (body : Json Float)
      {applied : PopulationState Float × Json Float} where
    apply_experiment-AllScored :
        AllScored state → apply_experiment P state record_id body ≡ ok applied → AllScored applied.0
    unfolding apply_experiment
    apply_experiment-AllScored scores h = after (normalize_experiment_body P body) _ h λ n e₁ h₁.
        after (refuse (member n.experiment_id state.experiments) population_error) _ h₁ λ u₂ e₂ h₂.
          let experiments : applied.0.experiments
              ≡ put n.experiment_id n.experiment state.experiments =
            ground (arith, h₂) in
          let runs : applied.0.runs ≡ state.runs = ground (arith, h₂) in
          subst (All (HasScore applied.0)) (sym runs) (
            HasScore-Extends state applied.0
              (λ k e found.
                ap (find k) experiments
                ∙ find-put_fresh k n.experiment_id n.experiment state.experiments
                    (refuse-eq-ok _ population_error e₂) found)
              state.runs scores)

    apply_run-AllScored :
        (index : ℕ)
        → AllScored state
        → apply_run P state record_id body index ≡ ok applied
        → AllScored applied.0
    unfolding apply_run
    apply_run-AllScored index scores h = after (normalize_run_body P body state) _ h λ n e₁ h₁.
        let experiments : applied.0.experiments ≡ state.experiments = ground (arith, h₁) in
        let runs : applied.0.runs ≡ state.runs ++ n ∷ [] = ground (arith, h₁) in
        let (experiment, known, scored) = normalize_run_body-IsScored P body state e₁ in
        let last : HasScore state n = record {
          experiment = experiment;
          known = known;
          scored = scored;
        } in
        subst (All (HasScore applied.0)) (sym runs) (
          HasScore-Extends state applied.0 (λ k e found. ap (find k) experiments ∙ found)
            (state.runs ++ n ∷ []) (All-append (HasScore state) state.runs n scores last))

    pub apply_candidate-keeps :
        apply_candidate P state record_id body ≡ ok applied → Unchanged state applied.0
    unfolding apply_candidate
    apply_candidate-keeps h = ground arith

    pub apply_archive-keeps :
        (index : ℕ)
        → apply_archive P state record_id body index ≡ ok applied
        → Unchanged state applied.0
    unfolding apply_archive
    apply_archive-keeps index h = ground arith

    pub apply_allocation-keeps :
        apply_allocation P state record_id body ≡ ok applied → Unchanged state applied.0
    unfolding apply_allocation
    apply_allocation-keeps h = ground arith

    apply_body-AllScored :
        (kind : Json Float) (index : ℕ)
        → AllScored state
        → apply_body P state record_id kind body index ≡ ok applied
        → AllScored applied.0
    unfolding apply_body
    apply_body-AllScored kind index scores h = elim (Bool-cases (is_text kind "experiment")) [
      | inl is_experiment ↦ apply_experiment-AllScored scores (
          sym (apply_body-experiment state record_id body index)
          ∙ ap (λ k. apply_body P state record_id k body index)
              (sym (is_text-str kind "experiment" is_experiment))
          ∙ h)
      | inr other ↦ elim (Bool-cases (is_text kind "run")) [
        | inl is_run ↦ apply_run-AllScored index scores (
            sym (apply_body-run state record_id body index)
            ∙ ap (λ k. apply_body P state record_id k body index)
                (sym (is_text-str kind "run" is_run))
            ∙ h)
        | inr neither ↦
            let kept : Unchanged state applied.0 = ground (
              arith,
              other,
              neither,
              apply_candidate-keeps,
              apply_archive-keeps index,
              apply_allocation-keeps,
            ) in
            AllScored-same state applied.0 scores kept.0 kept.1
      ]
    ]

  apply_record-AllScored :
      (state : PopulationState Float) (r : Fields Float) (index : ℕ)
      (state' : PopulationState Float)
      → AllScored state
      → apply_record P state r index ≡ ok state'
      → AllScored state'
  apply_record-AllScored state r index state' scores h =
      let a = apply_record-Accepted P state r index h in
      AllScored-same a.applied.0 state'
        (apply_body-AllScored state a.record_id a.body a.kind index scores a.branched)
        (ground (arith, a.result)) (ground (arith, a.result))

  new_state-AllScored :
      (header : Fields Float) (state : PopulationState Float)
      → new_state P header ≡ ok state
      → AllScored state
  unfolding new_state
  new_state-AllScored header state h =
      let runs : state.runs ≡ [] = ground arith in subst (All (HasScore state)) (sym runs) tt

  -- In every state that a ledger loads as, each run belongs to an experiment of the state: its case count is
  -- the experiment's and is not 0, it passes no more cases than there are, and it survived exactly if the
  -- protected checks passed, there was no safety failure, and its cost is within the experiment's budget.
  pub load_state-AllScored :
      (ledger : List (Fields Float)) {state : PopulationState Float}
      → load_state P ledger ≡ ok state
      → AllScored state
  load_state-AllScored = load_state_induction P AllScored apply_record-AllScored new_state-AllScored
