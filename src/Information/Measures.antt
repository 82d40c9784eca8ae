-- ===== src/Information/Measures.antt =====
-- src/metering/information.py: self-information, entropy, divergence and mutual information, over the
-- validated models of the parent.
use metering.Prelude.{
  ℕ, zero, suc, ◌+◌, ◌*◌, ◌-◌, ◌&&◌, Option, none, some, List, [], ◌∷◌, length, any, if◌then◌else◌,
  ◌==◌, filter, ◌++◌, get_elem?,
}
use metering.Runtime.{
  Result, ok, raise, ◌>>=◌, ◌>>◌, require, traverse, or_raise, probability_error, index_error, Json,
  Platform,
}
use metering.Prelude.Int.{pos}
use metering.Information

-- `concat(rows)`: `tuple(value for row in result for value in row)`
unfoldable pub flat {ℓ} : {A : Type ℓ} → List (List A) → List A
flat [] = []
flat (row ∷ rows) = row ++ flat rows

module _ (P : Platform) where
  open P use {
    Float, literal, inf, is_inf, float_eq, float_le, float_lt, neg, abs, add, sub, mul, div, of_int,
    log, fsum,
  }

  abbrev zero_float : Float
  zero_float = Information.zero_float P

  abbrev one_float : Float
  one_float = Information.one_float P

  abbrev positive_zero : Float → Float
  positive_zero = Information.positive_zero P

  -- The rows of `_joint_distribution`, each as wide as the first.
  rectangular : Option ℕ → List (Json Float) → Result (List (List Float))
  rectangular width [] = ok []
  rectangular none (raw_row ∷ raw_rows) = do
    row ← Information.probability_values P raw_row
    rows ← rectangular (some (length row)) raw_rows
    ok (row ∷ rows)
  rectangular (some width) (raw_row ∷ raw_rows) = do
    row ← Information.probability_values P raw_row
    require (length row == width) probability_error
    rows ← rectangular (some width) raw_rows
    ok (row ∷ rows)

  unfoldable pub joint_distribution : Json Float → Result (List (List Float))
  unfolding rectangular flat
  joint_distribution joint = do
    raw_rows ← Information.materialize P joint
    rows ← rectangular none raw_rows
    Information.require_normalized P (flat rows)
    ok rows

  -- The series of `_relative_entropy_term` from an order on: at most `rounds` more orders, and it stops
  -- when an addition changes nothing.
  unfoldable pub relative_entropy_series : ℕ → ℕ → Float → Float → Float → Result Float
  relative_entropy_series zero order delta signed_power series = ok series
  relative_entropy_series (suc rounds) order delta signed_power series = do
    let next_power = mul signed_power (neg delta)
    factor ← of_int (pos (order * (order - 1)))
    addition ← div next_power factor
    let updated = add series addition
    let rest = relative_entropy_series rounds (order + 1) delta next_power updated
    if float_eq updated series then ok series else rest

  -- `for order in range(3, 256)`, from the square of delta
  near_term : Float → Float → Result Float
  unfolding relative_entropy_series
  near_term delta scale = do
    start ← div (mul delta delta) (literal "2.0")
    series ← relative_entropy_series 253 3 delta (mul delta delta) start
    ok (mul scale series)

  -- `math.log(q) if log_q is None else log_q`
  log_of : Float → Option Float → Result Float
  log_of q none = log q
  log_of q (some value) = ok value

  far_logarithm : Float → Float → Option Float → Float → Result Float
  unfolding log_of
  far_logarithm p q log_q ratio =
      if float_lt zero_float ratio && float_lt ratio inf
      then log ratio
      else do log_p ← log p; q_logarithm ← log_of q log_q; ok (sub log_p q_logarithm)

  far_term : Float → Float → Option Float → Float → Result Float
  unfolding far_logarithm
  far_term p q log_q ratio = do
    logarithm ← far_logarithm p q log_q ratio
    ok (add (sub (mul p logarithm) p) q)

  -- `_relative_entropy_term(p, q)`
  unfoldable pub relative_entropy_term : Float → Float → Result Float
  unfolding near_term far_term
  relative_entropy_term p q =
      if float_eq p q
      then ok zero_float
      else if float_eq p zero_float
      then ok q
      else if float_eq q zero_float
      then ok inf
      else do
        delta ← div (sub p q) q
        if float_le (abs delta) (literal "0.5")
            then near_term delta q
            else do ratio ← div p q; far_term p q none ratio

  -- `_relative_entropy_term(p, q, log_q=..., ratio=...)`
  unfoldable pub relative_entropy_term_at : Float → Float → Float → Float → Result Float
  unfolding near_term far_term
  relative_entropy_term_at p q log_q ratio =
      if float_eq p zero_float
      then ok q
      else if float_eq q zero_float
      then ok inf
      else if float_eq ratio one_float
      then ok zero_float
      else do
        let delta = sub ratio one_float
        scale ← div p ratio
        if float_le (abs delta) (literal "0.5")
            then near_term delta scale
            else far_term p q (some log_q) ratio

  -- The common end of the measures: the sum of the terms over the logarithm of the base.
  unfoldable pub in_base : List Float → Float → Result Float
  in_base terms base = do
    total ← fsum terms
    scale ← log base
    result ← div total scale
    ok (positive_zero result)

  terms_with : List Float → List Float → Result (List Float)
  terms_with [] q = ok []
  terms_with (x ∷ p) [] = ok []
  terms_with (x ∷ p) (y ∷ q) = do
    term ← relative_entropy_term x y
    rest ← terms_with p q
    ok (term ∷ rest)

  unfoldable pub kl_from_validated : List Float → List Float → Float → Result Float
  unfolding terms_with in_base
  kl_from_validated p q base = do
    terms ← terms_with p q
    if any (λ term. float_eq term inf) terms then ok inf else in_base terms base

  unfoldable pub self_information : Json Float → Json Float → Result Float
  self_information probability base = do
    checked_base ← Information.validated_base P base
    checked_probability ← Information.validated_probability P probability
    if float_eq checked_probability zero_float then ok inf else do
      logarithm ← log checked_probability
      scale ← log checked_base
      result ← div (neg logarithm) scale
      ok (positive_zero result)

  -- `-probability * math.log(probability)`
  entropy_term : Float → Result Float
  entropy_term probability = do logarithm ← log probability; ok (mul (neg probability) logarithm)

  unfoldable pub entropy : Json Float → Json Float → Result Float
  unfolding entropy_term in_base
  entropy probabilities base = do
    checked_base ← Information.validated_base P base
    distribution ← Information.distribution P probabilities
    terms ← traverse entropy_term (filter (float_lt zero_float) distribution)
    in_base terms checked_base

  unfoldable pub kl_divergence : Json Float → Json Float → Json Float → Result Float
  unfolding kl_from_validated
  kl_divergence p q base = do
    checked_base ← Information.validated_base P base
    p_distribution ← Information.distribution P p
    q_distribution ← Information.distribution P q
    require (length p_distribution == length q_distribution) probability_error
    kl_from_validated p_distribution q_distribution checked_base

  -- `math.fsum(row[column] for row in distribution)`
  column_marginal : List (List Float) → ℕ → Result Float
  column_marginal rows column = do
    entries ← traverse (λ row. or_raise index_error (get_elem? row column)) rows
    fsum entries

  -- The columns of a range, from the first one on.
  column_marginals_from : List (List Float) → ℕ → ℕ → Result (List Float)
  unfolding column_marginal
  column_marginals_from rows column zero = ok []
  column_marginals_from rows column (suc count) = do
    marginal ← column_marginal rows column
    marginals ← column_marginals_from rows (column + 1) count
    ok (marginal ∷ marginals)

  -- The product of the marginals is positive but below binary64.
  underflow_term : Float → Float → Result Float
  underflow_term joint_probability marginal_logarithm = do
    log_joint ← log joint_probability
    ok (sub (mul joint_probability (sub log_joint marginal_logarithm)) joint_probability)

  positive_joint_term : Float → Float → Float → Result Float
  positive_joint_term joint_probability row_share column_probability = do
    let independent_probability = mul row_share column_probability
    log_row ← log row_share
    log_column ← log column_probability
    let marginal_logarithm = add log_row log_column
    if float_eq independent_probability zero_float && float_lt zero_float joint_probability
        then underflow_term joint_probability marginal_logarithm
        else do
          share_ratio ← div joint_probability row_share
          factor_ratio ← div share_ratio column_probability
          relative_entropy_term_at joint_probability independent_probability marginal_logarithm
              factor_ratio

  -- The body of the inner loop of `mutual_information`.
  joint_term : Float → Float → Float → Result Float
  unfolding positive_joint_term underflow_term
  joint_term row_share joint_probability column_probability =
      if float_eq joint_probability zero_float
      then ok (mul row_share column_probability)
      else positive_joint_term joint_probability row_share column_probability

  row_terms : Float → List Float → List Float → Result (List Float)
  unfolding joint_term
  row_terms row_share [] marginals = ok []
  row_terms row_share (x ∷ row) [] = raise index_error
  row_terms row_share (x ∷ row) (column_probability ∷ marginals) = do
    term ← joint_term row_share x column_probability
    rest ← row_terms row_share row marginals
    ok (term ∷ rest)

  joint_terms : Float → List Float → List (List Float) → List Float → Result (List Float)
  unfolding row_terms
  joint_terms total row_marginals [] marginals = ok []
  joint_terms total [] (row ∷ rows) marginals = raise index_error
  joint_terms total (row_probability ∷ row_marginals) (row ∷ rows) marginals = do
    row_share ← div row_probability total
    terms ← row_terms row_share row marginals
    rest ← joint_terms total row_marginals rows marginals
    ok (terms ++ rest)

  -- `len(distribution[0])`
  column_count : List (List Float) → Result ℕ
  column_count [] = raise index_error
  column_count (row ∷ rows) = ok (length row)

  unfoldable pub mutual_information : Json Float → Json Float → Result Float
  unfolding column_marginals_from joint_terms column_count in_base
  mutual_information joint base = do
    checked_base ← Information.validated_base P base
    distribution ← joint_distribution joint
    row_marginals ← traverse fsum distribution
    total_probability ← fsum row_marginals
    columns ← column_count distribution
    column_marginals ← column_marginals_from distribution 0 columns
    terms ← joint_terms total_probability row_marginals distribution column_marginals
    in_base terms checked_base
