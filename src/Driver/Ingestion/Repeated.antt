-- ===== src/Driver/Ingestion/Repeated.antt =====
-- apps/population_driver/machine.py: ingesting a record twice is ingesting it once.
use metering.Prelude.{
  ℕ, ◌+◌, ◌≡◌, refl, ap, subst, sym, ◌∙◌, arith, Bool, Option, none, some, List, [], ◌∷◌, length,
  ◌==◌, ◌++◌, String, get_elem?,
}
use metering.Runtime.{
  after, ok-injective, require-eq-ok, on_protocol_error-eq-ok, Result, ok, raise, ◌>>◌, require,
  refuse, on_protocol_error, population_error, driver_error, Json, obj, Platform, Fields, get,
  has_key,
}
use metering.AgentProtocol.{
  is_text, get_is_text, canonical_digest, canonical_json, require_same_json,
}
use metering.Journal.{content_record}
use metering.Population.Types.{PopulationState, head_id}
use metering.Population.State.{apply_record}
use metering.Population.State.Effects.{apply_record-records}
use metering.Population.State.Ledger.{append_validated_record, next_fields}
use metering.Controller.Generations.{get_or_null}
use metering.Driver.Ingestion.{
  Population, Ensured, on_population_error, check_existing, last_record, ensure_at,
  ensure_population_record,
}
use text.Mathlib.TextPositions.{eq_refl}

get_elem-length : {A : Type 0} (xs : List A) (x : A) → get_elem? (xs ++ x ∷ []) (length xs) ≡ some x
get_elem-length [] x = refl
get_elem-length (y ∷ xs) x = get_elem-length xs x

on_population_error-eq-ok :
    {A : Type 0} (m : Result A) {a : A} → on_population_error m ≡ ok a → m ≡ ok a
on_population_error-eq-ok (ok a) h = h
on_population_error-eq-ok (raise population_error) h = cc
on_population_error-eq-ok (raise e) h = cc

module _ (P : Platform) where
  open P use {Float}

  last_record-append :
      (records : List (Fields Float)) (r : Fields Float) → last_record P (records ++ r ∷ []) ≡ ok r
  unfolding last_record
  last_record-append [] r = refl
  last_record-append (q ∷ []) r = refl
  last_record-append (q ∷ s ∷ records) r = last_record-append (s ∷ records) r

  -- What an append does: it writes one record, of the kind and with the body given.
  append_validated_record-last :
      (population : Population Float) (written : Bool) (kind : String) (body : Json Float)
      (state : PopulationState Float) (ledger : List (Fields Float)) (text : String)
      → canonical_json P body ≡ ok text
      → append_validated_record P population.ledger written population.state kind body
        ≡ ok (state, ledger)
      → (r : Fields Float) × (state.records ≡ population.state.records ++ r ∷ [])
        × (check_existing P r kind body ≡ ok tt)
  unfolding append_validated_record content_record next_fields check_existing require_same_json
      get_or_null get get_is_text is_text
  append_validated_record-last population written kind body state ledger text dumped h =
      after (head_id population.state) _ h λ head e₁ h₁.
        after (content_record P (next_fields P population.state kind body head) population_error) _
          h₁
          λ r e₂ h₂.
            after
              (on_protocol_error population_error
                (apply_record P population.state r (length population.state.records)))
              _ h₂
              λ next e₃ h₃. after (require written population_error) _ h₃ λ u e₄ h₄.
                let grown =
                  apply_record-records P population.state r (length population.state.records) (
                    on_protocol_error-eq-ok population_error
                      (apply_record P population.state r (length population.state.records)) e₃) in
                let same : next ≡ state =
                  ap (λ (t : PopulationState Float × List (Fields Float)). t.0) (ok-injective h₄) in
                after
                  (refuse (has_key "record_id" (next_fields P population.state kind body head))
                    population_error)
                  _ e₂
                  λ w e₅ h₅.
                    after (canonical_digest P (obj (next_fields P population.state kind body head)))
                      _ h₅
                      λ id e₆ h₆. (
                        r,
                        ap (λ (t : PopulationState Float). t.records) (sym same) ∙ grown,
                        subst (λ q. check_existing P q kind body ≡ ok tt) (ok-injective h₆)
                            (rw (eq_refl, dumped, eq_refl) refl),
                      )

  ensure-existing :
      (population : Population Float) (written : Bool) (sequence : ℕ) (kind : String)
      (body : Json Float) (r : Fields Float)
      → get_elem? population.state.records sequence ≡ some r
      → check_existing P r kind body ≡ ok tt
      → ensure_population_record P population written sequence kind body
        ≡ ok (record { record_fields = r; next_sequence = sequence + 1; population = population })
  unfolding ensure_population_record ensure_at
  ensure-existing population written sequence kind body r found checked =
      ap (λ o. ensure_at P o population written sequence kind body) found
      ∙ ap
          (λ m.
            m
            >> ok (record {
              record_fields = r;
              next_sequence = sequence + 1;
              population = population;
            }))
          checked

  ensure_at-again :
      (o : Option (Fields Float)) (population : Population Float) (written again : Bool)
      (sequence : ℕ) (kind : String) (body : Json Float) (text : String) (ensured : Ensured Float)
      → get_elem? population.state.records sequence ≡ o
      → canonical_json P body ≡ ok text
      → ensure_at P o population written sequence kind body ≡ ok ensured
      → ensure_population_record P ensured.population again sequence kind body ≡ ok ensured
  unfolding ensure_at
  ensure_at-again (some r) population written again sequence kind body text ensured found dumped h =
      after (check_existing P r kind body) _ h λ u e k.
        subst
          (λ (x : Ensured Float).
            ensure_population_record P x.population again sequence kind body ≡ ok x)
          (ok-injective k) (ensure-existing population again sequence kind body r found e)
  ensure_at-again none population written again sequence kind body text ensured found dumped h =
      let at_end = length population.state.records == sequence in
      after (require at_end driver_error) _ h λ u e₁ h₁.
        after
          (on_population_error
            (append_validated_record P population.ledger written population.state kind body))
          _ h₁
          λ appended e₂ h₂.
            let (state, ledger) = appended in
            after (last_record P state.records) _ h₂ λ r e₃ h₃.
              let done =
                on_population_error-eq-ok
                  (append_validated_record P population.ledger written population.state kind body)
                  e₂ in
              let (q, grown, checked) =
                append_validated_record-last population written kind body state ledger text dumped
                  done in
              let last : q ≡ r = ok-injective (
                sym (last_record-append population.state.records q)
                ∙ ap (last_record P) (sym grown)
                ∙ e₃) in
              let here : length population.state.records ≡ sequence =
                ground (arith, require-eq-ok at_end driver_error e₁) in
              let there : get_elem? state.records sequence ≡ some r =
                ap (λ n. get_elem? state.records n) (sym here)
                ∙ ap (λ (xs : List (Fields Float)). get_elem? xs (length population.state.records))
                    grown
                ∙ get_elem-length population.state.records q
                ∙ ap some last in
              subst
                (λ (x : Ensured Float).
                  ensure_population_record P x.population again sequence kind body ≡ ok x)
                (ok-injective h₃)
                (ensure-existing (record { ledger = ledger; state = state }) again sequence kind
                  body r there (subst (λ s. check_existing P s kind body ≡ ok tt) last checked))

  -- Once the ingestion of a record has succeeded, the driver that resumes and ingests it again, whether a
  -- write would succeed or not, gets the same record and sequence and leaves the population as it is: the
  -- ledger and the state. It is asked of the body that its canonical JSON exists.
  pub ensure_population_record_idempotent :
      (population : Population Float) (written again : Bool) (sequence : ℕ) (kind : String)
      (body : Json Float) (text : String) (ensured : Ensured Float)
      → canonical_json P body ≡ ok text
      → ensure_population_record P population written sequence kind body ≡ ok ensured
      → ensure_population_record P ensured.population again sequence kind body ≡ ok ensured
  unfolding ensure_population_record
  ensure_population_record_idempotent population written again sequence kind body text ensured
        dumped h =
      ensure_at-again (get_elem? population.state.records sequence) population written again
        sequence kind body text ensured refl dumped h
