-- ===== src/Driver/Attempts/Appended.antt =====
-- apps/population_driver: an attempt that a retry appends passes the replay's check of the attempts.
use metering.Prelude.{
  ℕ, suc, ◌+◌, ◌≡◌, refl, ap, subst, sym, ◌∙◌, arith, true, false, not, List, [], ◌∷◌, length, ltb,
  if◌then◌else◌, ◌==◌, ◌++◌, String, str_eq, subset, contains,
}
use metering.Runtime.{after, ok-injective, ok, Json, str, arr, array, Platform, get, keys}
use metering.AgentProtocol.{item, is_text, canonical_digest}
use metering.Runtime.{equals}
use metering.AgentProtocol.Evaluations.Stable.{items-array}
use metering.Driver.Attempts.{
  Attempt, attempt_identity, attempt_json, new_attempt, validate_attempt, validate_from,
  validate_attempts, is_ordinal, is_flag, is_any_text, attempt_fields,
}
use metering.Controller.Generations.{is_nonempty_text}
use text.Mathlib.TextPositions.{eq_refl}

module _ (P : Platform) where
  open P use {Float}

  -- An attempt that is made with a reason is accepted at its ordinal.
  validate_attempt-new_attempt :
      (intent_id : String) (ordinal : ℕ) (reason : String) (timeout : ℕ) (a : Attempt Float)
      → str_eq reason "" ≡ false
      → new_attempt P intent_id ordinal reason timeout ≡ ok a
      → validate_attempt P intent_id timeout ordinal (attempt_json a) ≡ ok a
  unfolding new_attempt validate_attempt attempt_json attempt_fields subset keys contains get item
      is_ordinal is_flag is_any_text is_nonempty_text equals is_text
  validate_attempt-new_attempt intent_id ordinal reason timeout a named h =
      after (canonical_digest P (attempt_identity intent_id ordinal (str reason))) _ h λ id e k.
        let self : (ordinal == ordinal) ≡ true = ground arith in
        let wall : (timeout == timeout) ≡ true = ground arith in
        let flag : (if ltb 1 ordinal then ltb 1 ordinal else not (ltb 1 ordinal)) ≡ true =
          ground arith in
        subst
          (λ (b : Attempt Float).
            validate_attempt P intent_id timeout ordinal (attempt_json b) ≡ ok b)
          (ok-injective k) (rw (self, flag, named, wall, e, eq_refl) refl)

  validate_from-append :
      (intent_id : String) (timeout n : ℕ) (raws : List (Json Float)) (xs : List (Attempt Float))
      (reason : String) (a : Attempt Float)
      → str_eq reason "" ≡ false
      → validate_from P intent_id timeout n raws ≡ ok xs
      → new_attempt P intent_id (n + length xs) reason timeout ≡ ok a
      → validate_from P intent_id timeout n (raws ++ attempt_json a ∷ []) ≡ ok (xs ++ a ∷ [])
  unfolding validate_from
  validate_from-append intent_id timeout n [] xs reason a named h made =
      let none_before : [] ≡ xs = ok-injective h in
      let here : n + length xs ≡ n = ap (λ ys. n + length ys) (sym none_before) ∙ omega arith in
      let first : new_attempt P intent_id n reason timeout ≡ ok a =
        subst (λ k. new_attempt P intent_id k reason timeout ≡ ok a) here made in
      rw (validate_attempt-new_attempt intent_id n reason timeout a named first)
        (ap (λ ys. ok (ys ++ a ∷ [])) none_before)
  validate_from-append intent_id timeout n (raw ∷ raws) xs reason a named h made =
      after (validate_attempt P intent_id timeout n raw) _ h λ x e h₁.
        after (validate_from P intent_id timeout (suc n) raws) _ h₁ λ ys r h₂.
          let all : x ∷ ys ≡ xs = ok-injective h₂ in
          let later : n + length xs ≡ suc n + length ys =
            ap (λ zs. n + length zs) (sym all) ∙ omega arith in
          let next : new_attempt P intent_id (suc n + length ys) reason timeout ≡ ok a =
            subst (λ k. new_attempt P intent_id k reason timeout ≡ ok a) later made in
          rw (e, validate_from-append intent_id timeout (suc n) raws ys reason a named r next)
            (ap (λ zs. ok (zs ++ a ∷ [])) all)

  -- The attempts of a pending round that replay accepts, with the attempt that a retry makes of a reason that
  -- is not empty, are accepted again, the new attempt last.
  pub validate_attempts-new_attempt :
      (intent_id : String) (timeout : ℕ) (raws : List (Json Float))
      (attempts : List (Attempt Float)) (reason : String) (a : Attempt Float)
      → str_eq reason "" ≡ false
      → validate_attempts P intent_id timeout (arr (array raws)) ≡ ok attempts
      → new_attempt P intent_id (length attempts + 1) reason timeout ≡ ok a
      → validate_attempts P intent_id timeout (arr (array (raws ++ attempt_json a ∷ [])))
        ≡ ok (attempts ++ a ∷ [])
  unfolding validate_attempts array
  validate_attempts-new_attempt intent_id timeout [] attempts reason a named h made = cc
  validate_attempts-new_attempt intent_id timeout (raw ∷ raws) attempts reason a named h made =
      let listed : validate_from P intent_id timeout 1 (raw ∷ raws) ≡ ok attempts =
        ap (λ vs. validate_from P intent_id timeout 1 (raw ∷ vs)) (sym (items-array raws)) ∙ h in
      let next : new_attempt P intent_id (1 + length attempts) reason timeout ≡ ok a =
        subst (λ k. new_attempt P intent_id k reason timeout ≡ ok a) (omega arith) made in
      ap (λ vs. validate_from P intent_id timeout 1 (raw ∷ vs))
        (items-array (raws ++ attempt_json a ∷ []))
      ∙ validate_from-append intent_id timeout 1 (raw ∷ raws) attempts reason a named listed next
