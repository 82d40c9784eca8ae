-- ===== src/Population/Allocations/Uniform.antt =====
-- The allocation of a parent: it always selects a member, each equally often, from a current archive.
use metering.Prelude.{
  ℕ, zero, suc, ◌+◌, ◌≡◌, refl, ap, sym, ◌∙◌, ◌≤◌, ◌<◌, arith, eq_iff, ◌*◌, ◌/◌, true, false,
  Option, none, some, List, [], ◌∷◌, length, ltb, ◌==◌, String, sort_by, text_lt, get_elem?,
}
use metering.Runtime.{
  after, ok-injective, require-eq-ok, refuse-eq-ok, or_raise-eq-ok, >>=-eq-ok, ok, ◌>>=◌, require,
  refuse, or_raise, protocol_error, population_error, key_error, Json, Platform,
}
use metering.Runtime.Dict.{find}
use metering.AgentProtocol.{
  require_object, item, require_exact_keys, require_sha256, require_same_json, normalize_json_value,
}
use mathlib.Core.List.{Memᴰ}
use mathlib.Core.Path.{subst}
use native.Mathlib.Nat.{mul-lt-mul_of_pos_right, div-lt_iff_lt-mul, div-eq_of_lt-le}
use metering.Population.Types.{Archive, PopulationState, Draw, Allocation}
use metering.Population.Archives.{metric_ids}
use metering.Population.Allocations.{
  is_same_text, number_or_zero, select_candidate, ordered_members, current_archive,
  normalize_allocation_body, normalize_draw,
}

exists_get_elem? {ℓ} :
    {A : Type ℓ} (xs : List A) (i : ℕ)
    → i < length xs
    → (x : A) × (get_elem? xs i ≡ some x) × Memᴰ x xs
exists_get_elem? [] i h = absurd (omega arith)
exists_get_elem? (x ∷ xs) zero h = (x, refl, Memᴰ.head refl)
exists_get_elem? (x ∷ xs) (suc i) h =
    let (y, e, m) = exists_get_elem? xs i (omega arith) in (y, e, Memᴰ.tail m)

-- The position that a draw selects lies in the list.
draw_in_range : (n d l : ℕ) → n < d → 0 < l → n * l / d < l
draw_in_range n d l h pos_l =
    (div-lt_iff_lt-mul {k = d} (omega arith)).1 (omega (arith, mul-lt-mul_of_pos_right h pos_l))

-- A draw below its denominator selects one of the candidates, if there is one: the index never leaves the
-- list.
pub select_candidate_total :
    (draw : Draw) (ordered : List String)
    → draw.numerator < draw.denominator
    → 0 < length ordered
    → (selected : String) × (select_candidate draw ordered ≡ ok selected) × Memᴰ selected ordered
unfolding select_candidate
select_candidate_total draw ordered h some_member =
    let (c, e, m) =
      exists_get_elem? ordered _
        (draw_in_range draw.numerator draw.denominator (length ordered) h some_member) in
    (c, rw e, m)

share : (i k j l : ℕ) → 0 < l → j < k → (i * k + j) * l / (k * l) ≡ i
share i k j l pos_l h =
    div-eq_of_lt-le {k = i} (k * l) (omega arith) (omega (arith, mul-lt-mul_of_pos_right h pos_l))

-- With a denominator of `k` times the number of candidates, each of the `k` numerators from `i * k` on
-- selects the candidate at position `i`.
pub select_candidate_uniform :
    (ordered : List String) (i k j : ℕ) {candidate_id : String}
    → get_elem? ordered i ≡ some candidate_id
    → j < k
    → 0 < length ordered
    → select_candidate (record { denominator = k * length ordered; numerator = i * k + j }) ordered
      ≡ ok candidate_id
unfolding select_candidate
select_candidate_uniform ordered i k j at h pos_l = rw (share i k j (length ordered) pos_l h, at)

-- What an accepted allocation rests on.
pub record IsCurrent {F : Type 0} (state : PopulationState F) (allocation : Allocation)
    : Type 0 where
  pub archive : Archive F
  pub known : find allocation.archive_record_id state.archives ≡ some archive
  pub latest :
      find archive.experiment_id state.latest_archive_by_experiment
      ≡ some allocation.archive_record_id
  pub sequence : ℕ
  pub recorded : find allocation.archive_record_id state.archive_sequences ≡ some sequence
  pub fresh :
      (n : ℕ)
      → find archive.experiment_id state.last_run_sequence_by_experiment ≡ some n
      → n ≤ sequence
  pub from_members : allocation.ordered_candidates ≡ sort_by text_lt (metric_ids archive.members)
  pub some_member : 0 < length allocation.ordered_candidates
  pub drawn :
      select_candidate allocation.draw allocation.ordered_candidates
      ≡ ok allocation.selected_candidate_id

module _ (P : Platform) where
  open P use {Float}

  is_same_text-eq : (o : Option String) (t : String) → is_same_text P o t ≡ true → o ≡ some t
  is_same_text-eq none t h = cc
  is_same_text-eq (some s) t h = ap some ((eq_iff s t).0 h)

  fresh_sequence :
      (o : Option ℕ) (sequence n : ℕ)
      → ltb sequence (number_or_zero P o) ≡ false
      → o ≡ some n
      → n ≤ sequence
  fresh_sequence none sequence n h e = cc
  fresh_sequence (some m) sequence n h e = ground arith

  current_archive-eq-ok :
      (archive_id : String) (state : PopulationState Float) {archive : Archive Float}
      → current_archive P archive_id state ≡ ok archive
      → (sequence : ℕ) × (find archive_id state.archives ≡ some archive)
        × (find archive.experiment_id state.latest_archive_by_experiment ≡ some archive_id)
        × (find archive_id state.archive_sequences ≡ some sequence)
        × ((n : ℕ)
            → find archive.experiment_id state.last_run_sequence_by_experiment ≡ some n
            → n ≤ sequence)
  unfolding current_archive
  current_archive-eq-ok archive_id state {archive} h =
      let (a, e₁, h₁) =
        >>=-eq-ok (or_raise population_error (find archive_id state.archives)) _ h in
      let (u, e₂, h₂) =
        >>=-eq-ok
          (require
            (is_same_text P (find a.experiment_id state.latest_archive_by_experiment) archive_id)
            population_error)
          _ h₁ in
      let (sequence, e₃, h₃) =
        >>=-eq-ok (or_raise key_error (find archive_id state.archive_sequences)) _ h₂ in
      let (v, e₄, h₄) =
        >>=-eq-ok
          (refuse
            (ltb sequence
              (number_or_zero P (find a.experiment_id state.last_run_sequence_by_experiment)))
            population_error)
          _ h₃ in
      let same : a ≡ archive = ground (arith, h₄) in
      (
        sequence,
        or_raise-eq-ok population_error _ e₁ ∙ ap some same,
        subst
            (λ (b : Archive Float).
              find b.experiment_id state.latest_archive_by_experiment ≡ some archive_id)
            same (is_same_text-eq _ archive_id (require-eq-ok _ population_error e₂)),
        or_raise-eq-ok key_error _ e₃,
        λ n e.
            fresh_sequence (find a.experiment_id state.last_run_sequence_by_experiment) sequence n
              (refuse-eq-ok _ population_error e₄)
              (ap
                  (λ (b : Archive Float).
                    find b.experiment_id state.last_run_sequence_by_experiment)
                  same
                ∙ e),
      )

  ordered_members-eq-ok :
      (archive : Archive Float) {ordered : List String}
      → ordered_members archive ≡ ok ordered
      → (ordered ≡ sort_by text_lt (metric_ids archive.members)) × (0 < length ordered)
  unfolding ordered_members
  ordered_members-eq-ok archive h =
      after (refuse (length (sort_by text_lt (metric_ids archive.members)) == 0) population_error) _
        h
        λ u e r.
          let same = ok-injective r in
          (sym same, rw (← same) (nonzero _ (refuse-eq-ok _ population_error e)))
    where
      nonzero : (n : ℕ) → (n == 0) ≡ false → 0 < n
      nonzero n z = ground arith

  -- An allocation body that is accepted names an archive that the state knows, that is the latest of its
  -- experiment, and that no later run of the experiment has made stale; its candidates are the members in
  -- the order of their identities, at least one, and its selection is that of the draw.
  pub normalize_allocation_body-IsCurrent :
      (value : Json Float) (state : PopulationState Float) {allocation : Allocation}
      → normalize_allocation_body P value state ≡ ok allocation
      → IsCurrent state allocation
  unfolding normalize_allocation_body ordered_members
  normalize_allocation_body-IsCurrent value state h = after (require_object value) _ h λ d e₁ h₁.
      after (require_exact_keys d ("request" ∷ "result" ∷ [])) _ h₁ λ u₂ e₂ h₂.
        after (item "request" d >>= require_object) _ h₂ λ request e₃ h₃.
          after (require_exact_keys request ("archive_record_id" ∷ "draw" ∷ [])) _ h₃ λ u₄ e₄ h₄.
            after (item "archive_record_id" request >>= require_sha256) _ h₄ λ archive_id e₅ h₅.
              after (item "draw" request >>= normalize_draw) _ h₅ λ draw e₆ h₆.
                after (current_archive P archive_id state) _ h₆ λ archive e₇ h₇.
                  after (ordered_members archive) _ h₇ λ ordered e₈ h₈.
                    after (select_candidate draw ordered) _ h₈ λ selected e₉ h₉.
                      after (item "result" d >>= normalize_json_value P) _ h₉ λ result e₁₀ h₁₀.
                        after (require_same_json P result _ protocol_error) _ h₁₀ λ u₁₁ e₁₁ h₁₁.
                          let (sequence, known, latest, recorded, fresh) =
                            current_archive-eq-ok archive_id state e₇ in
                          let (members, some_member) = ordered_members-eq-ok archive e₈ in
                          subst (IsCurrent state) (ok-injective h₁₁) (record {
                            archive = archive;
                            known = known;
                            latest = latest;
                            sequence = sequence;
                            recorded = recorded;
                            fresh = fresh;
                            from_members = members;
                            some_member = some_member;
                            drawn = e₉;
                          })
