-- ===== src/AgentProtocol/Evaluations/Again.antt =====
-- apps/agent_protocol.py: a value that a check or a normalization returns passes it again, unchanged.
use metering.Prelude.{
  zero, suc, ◌≡◌, refl, subst, inl, inr, Bool-cases, true, false, ◌&&◌, ◌||◌, not, if◌then◌else◌,
  ◌==◌, String, str_eq, any_char, is_hex, count,
}
use metering.Runtime.{
  after, ok-injective, require-eq-ok, refuse-eq-ok, Result, ok, raise, require, refuse,
  protocol_error, Json, null, bool, int, float, str, surrogates, arr, obj, Platform, Fields, Items,
  end, field, nil, cons,
}
use metering.AgentProtocol.{ℕ, normalize_float, normalize_items, normalize_fields}
use metering.AgentProtocol.{
  require_nonempty_string, require_sha256, normalize_json_value, normalize_value, finite_number,
  probability,
}

module _ {F : Type 0} where
  pub require_nonempty_string-str :
      (value : Json F) {s : String}
      → require_nonempty_string value ≡ ok s
      → require_nonempty_string {F = F} (str s) ≡ ok s
  unfolding require_nonempty_string
  require_nonempty_string-str (str t) {s} h =
      after (refuse (str_eq t "") protocol_error) _ h λ u e h₁.
        after (refuse (any_char (λ c. c == 0) t) protocol_error) _ h₁ λ w f h₂.
          let same : t ≡ s = ok-injective h₂ in
          subst (λ t'. require_nonempty_string {F = F} (str t') ≡ ok t') same
            (rw
              (
                refuse-eq-ok (str_eq t "") protocol_error e,
                refuse-eq-ok (any_char (λ c. c == 0) t) protocol_error f,
              )
              refl)
  require_nonempty_string-str null h = cc
  require_nonempty_string-str (bool b) h = cc
  require_nonempty_string-str (int n) h = cc
  require_nonempty_string-str (float x) h = cc
  require_nonempty_string-str (surrogates cs) h = cc
  require_nonempty_string-str (arr vs) h = cc
  require_nonempty_string-str (obj d) h = cc

  pub require_sha256-str :
      (value : Json F) {s : String}
      → require_sha256 value ≡ ok s
      → require_sha256 {F = F} (str s) ≡ ok s
  unfolding require_sha256
  require_sha256-str value {s} h = after (require_nonempty_string value) _ h λ t e h₁.
      after (refuse (not (count t == 64) || any_char (λ c. not (is_hex c)) t) protocol_error) _ h₁
        λ u f h₂.
          let same : t ≡ s = ok-injective h₂ in
          subst (λ t'. require_sha256 {F = F} (str t') ≡ ok t') same
            (rw
              (
                require_nonempty_string-str value e,
                refuse-eq-ok (not (count t == 64) || any_char (λ c. not (is_hex c)) t)
                    protocol_error f,
              )
              refl)

module _ (P : Platform) (zero_is_finite : P.is_finite (P.literal "0.0") ≡ true) where
  open P use {Float, literal, is_finite, float_eq, float_le}

  -- The two cases of a zero and of another finite value.
  zero-again : normalize_float P (literal "0.0") ≡ ok (literal "0.0")
  unfolding normalize_float
  zero-again = elim (Bool-cases (float_eq (literal "0.0") (literal "0.0"))) [
    | inl equal ↦ rw (zero_is_finite, equal) refl
    | inr unequal ↦ rw (zero_is_finite, unequal) refl
  ]

  nonzero-again :
      (x : Float)
      → is_finite x ≡ true
      → float_eq x (literal "0.0") ≡ false
      → normalize_float P x ≡ ok x
  unfolding normalize_float
  nonzero-again x finite other = rw (finite, other) refl

  normalized-again :
      (x : Float)
      → is_finite x ≡ true
      → normalize_float P (if float_eq x (literal "0.0") then literal "0.0" else x)
        ≡ ok (if float_eq x (literal "0.0") then literal "0.0" else x)
  normalized-again x finite = elim (Bool-cases (float_eq x (literal "0.0"))) [
    | inl is_zero ↦ rw is_zero zero-again
    | inr other ↦ rw other (nonzero-again x finite other)
  ]

  normalize_float-again :
      (x : Float) {y : Float} → normalize_float P x ≡ ok y → normalize_float P y ≡ ok y
  unfolding normalize_float
  normalize_float-again x {y} h = after (require (is_finite x) protocol_error) _ h λ u e h₁.
      subst (λ z. normalize_float P z ≡ ok z) (ok-injective h₁)
        (normalized-again x (require-eq-ok (is_finite x) protocol_error e))

  of_int-again :
      (converted : Result Float) {x : Float}
      → (elim converted [ ok y ↦ normalize_float P y | raise e ↦ raise protocol_error ]) ≡ ok x
      → normalize_float P x ≡ ok x
  of_int-again (ok y) h = normalize_float-again y h
  of_int-again (raise e) h = cc

  pub finite_number-float :
      (value : Json Float) {x : Float}
      → finite_number P value ≡ ok x
      → finite_number P (float x) ≡ ok x
  unfolding finite_number
  finite_number-float (float y) h = normalize_float-again y h
  finite_number-float (int n) h = of_int-again (P.of_int n) h
  finite_number-float null h = cc
  finite_number-float (bool b) h = cc
  finite_number-float (str s) h = cc
  finite_number-float (surrogates cs) h = cc
  finite_number-float (arr vs) h = cc
  finite_number-float (obj d) h = cc

  pub probability-float :
      (value : Json Float) {x : Float} → probability P value ≡ ok x → probability P (float x) ≡ ok x
  unfolding probability
  probability-float value {x} h = after (finite_number P value) _ h λ y e h₁.
      after (require (float_le (literal "0.0") y && float_le y (literal "1.0")) protocol_error) _ h₁
        λ u f h₂.
          let same : y ≡ x = ok-injective h₂ in
          subst (λ y'. probability P (float y') ≡ ok y') same
            (rw
              (
                finite_number-float value e,
                require-eq-ok (float_le (literal "0.0") y && float_le y (literal "1.0"))
                    protocol_error f,
              )
              refl)

  -- A document that is already normal is returned as it is.
  mutual
    unfolding normalize_value

    normalize_value-again :
        (n : ℕ) (value : Json Float) {w : Json Float}
        → normalize_value P n value ≡ ok w
        → normalize_value P n w ≡ ok w
    normalize_value-again zero v h = cc
    normalize_value-again (suc n) null h =
        subst (λ w. normalize_value P (suc n) w ≡ ok w) (ok-injective h) refl
    normalize_value-again (suc n) (bool b) h =
        subst (λ w. normalize_value P (suc n) w ≡ ok w) (ok-injective h) refl
    normalize_value-again (suc n) (int m) h =
        subst (λ w. normalize_value P (suc n) w ≡ ok w) (ok-injective h) refl
    normalize_value-again (suc n) (float x) h = after (normalize_float P x) _ h λ y e h₁.
        subst (λ w. normalize_value P (suc n) w ≡ ok w) (ok-injective h₁)
          (rw (normalize_float-again x e) refl)
    normalize_value-again (suc n) (str s) h =
        subst (λ w. normalize_value P (suc n) w ≡ ok w) (ok-injective h) refl
    normalize_value-again (suc n) (surrogates cs) h = cc
    normalize_value-again (suc n) (arr vs) h = after (normalize_items P n vs) _ h λ ws e h₁.
        subst (λ w. normalize_value P (suc n) w ≡ ok w) (ok-injective h₁)
          (rw (normalize_items-again n vs e) refl)
    normalize_value-again (suc n) (obj d) h = after (normalize_fields P n d) _ h λ e r h₁.
        subst (λ w. normalize_value P (suc n) w ≡ ok w) (ok-injective h₁)
          (rw (normalize_fields-again n d r) refl)

    normalize_items-again :
        (n : ℕ) (vs : Items Float) {ws : Items Float}
        → normalize_items P n vs ≡ ok ws
        → normalize_items P n ws ≡ ok ws
    normalize_items-again n nil h = subst (λ w. normalize_items P n w ≡ ok w) (ok-injective h) refl
    normalize_items-again n (cons v vs) h = after (normalize_value P n v) _ h λ w e h₁.
        after (normalize_items P n vs) _ h₁ λ ws r h₂.
          subst (λ us. normalize_items P n us ≡ ok us) (ok-injective h₂)
            (rw (normalize_value-again n v e, normalize_items-again n vs r) refl)

    normalize_fields-again :
        (n : ℕ) (d : Fields Float) {g : Fields Float}
        → normalize_fields P n d ≡ ok g
        → normalize_fields P n g ≡ ok g
    normalize_fields-again n end h =
        subst (λ w. normalize_fields P n w ≡ ok w) (ok-injective h) refl
    normalize_fields-again n (field k v d) h = after (normalize_value P n v) _ h λ w e h₁.
        after (normalize_fields P n d) _ h₁ λ g r h₂.
          subst (λ us. normalize_fields P n us ≡ ok us) (ok-injective h₂)
            (rw (normalize_value-again n v e, normalize_fields-again n d r) refl)

  pub normalize_json_value-again :
      (value : Json Float) {w : Json Float}
      → normalize_json_value P value ≡ ok w
      → normalize_json_value P w ≡ ok w
  unfolding normalize_json_value
  normalize_json_value-again value h = normalize_value-again P.recursion_room value h
