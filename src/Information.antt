-- ===== src/Information.antt =====
-- src/metering/information.py: the four information measures of the installed package. An argument is
-- a JSON document, the domain of the package's callers here: an `int` or a `float` is Python's `Real`,
-- and a `bool` is refused as the source refuses it. Fractions and decimals are not modelled.
pub mod Measures
use metering.Prelude.{Bool, ◌&&◌, ◌||◌, not, List, [], ◌∷◌, leb, ltb, if◌then◌else◌, ◌==◌}
use metering.Prelude.Int.{pos, negsuc}
use metering.Runtime.{
  Result, ok, raise, ◌>>=◌, ◌>>◌, require, refuse, traverse, probability_error, Json, int, float,
  arr, items, Platform,
}

-- `except (OverflowError, ValueError) as exc: raise ProbabilityError(...)` around `float(value)`
abbrev pub or_probability_error {ℓ} : {A : Type ℓ} → Result A → Result A
or_probability_error (ok a) = ok a
or_probability_error (raise e) = raise probability_error

module _ (P : Platform) where
  open P use {
    Float, literal, inf, is_finite, is_inf, float_eq, float_le, float_lt, neg, abs, add, sub, mul,
    div, of_int, log, fsum, is_close,
  }

  abbrev pub zero_float : Float
  zero_float = literal "0.0"

  abbrev pub one_float : Float
  one_float = literal "1.0"

  abbrev pub normalization_tolerance : Float
  normalization_tolerance = literal "1e-12"

  -- `0.0 if result == 0.0 else result`
  abbrev pub positive_zero : Float → Float
  positive_zero x = if float_eq x zero_float then zero_float else x

  checked_base : Float → Result Float
  checked_base value = do
    refuse (not (is_finite value) || float_le value one_float) probability_error
    ok value

  unfoldable pub validated_base : Json Float → Result Float
  unfolding checked_base
  validated_base (int (pos n)) = do
    refuse (leb n 1) probability_error
    value ← or_probability_error (of_int (pos n))
    checked_base value
  validated_base (int (negsuc n)) = raise probability_error
  validated_base (float x) = do refuse (float_le x one_float) probability_error; checked_base x
  validated_base other = raise probability_error

  -- Of an `int` or a `float` the tests for a nonzero value that rounds to 0, and for one distinct from
  -- 1 that rounds to 1, compare the value with itself.
  checked_probability : Float → Bool → Bool → Result Float
  checked_probability probability is_zero is_one = do
    require (is_finite probability) probability_error
    refuse (float_eq probability zero_float && not is_zero) probability_error
    refuse (float_eq probability one_float && not is_one) probability_error
    ok (positive_zero probability)

  unfoldable pub validated_probability : Json Float → Result Float
  unfolding checked_probability
  validated_probability (int (pos n)) = do
    refuse (ltb 1 n) probability_error
    probability ← or_probability_error (of_int (pos n))
    checked_probability probability (n == 0) (n == 1)
  validated_probability (int (negsuc n)) = raise probability_error
  validated_probability (float x) = do
    refuse (float_lt x zero_float || float_lt one_float x) probability_error
    checked_probability x (float_eq x zero_float) (float_eq x one_float)
  validated_probability other = raise probability_error

  nonempty : List (Json Float) → Result (List (Json Float))
  nonempty [] = raise probability_error
  nonempty (v ∷ vs) = ok (v ∷ vs)

  unfoldable pub materialize : Json Float → Result (List (Json Float))
  unfolding nonempty
  materialize (arr vs) = nonempty (items vs)
  materialize other = raise probability_error

  unfoldable pub probability_values : Json Float → Result (List Float)
  unfolding materialize
  probability_values values = do vs ← materialize values; traverse validated_probability vs

  unfoldable pub require_normalized : List Float → Result (Unit {0})
  require_normalized values = do
    total ← fsum values
    require (is_close total one_float normalization_tolerance) probability_error

  unfoldable pub distribution : Json Float → Result (List Float)
  unfolding probability_values require_normalized
  distribution values = do
    probabilities ← probability_values values
    require_normalized probabilities
    ok probabilities
