-- ===== src/Population/Pareto/Order.antt =====
-- Pareto dominance is a strict order on aggregates that have cases.
use metering.Prelude.{
  ℕ, ◌≡◌, refl, ◌≤◌, ◌<◌, arith, ◌*◌, Bool, true, false, ◌&&◌, not, List, [], ◌∷◌, ◌++◌,
}
use metering.Runtime.{Platform}
use native.Mathlib.Nat.{
  le_of_mul-le-mul_left, lt_of_mul-lt-mul_left, mul-le-mul_right, mul-lt-mul_of_pos_right,
}
use metering.Population.Types.{Metric, Resources}
use metering.Population.Pareto.{
  Comparison, all_no_worse, any_better, less, greater_rate, cost_comparisons, comparisons,
  information_comparison, dominates, greater_float, less_float,
}

-- Comparisons of binary64 numbers, NaN included: `<=` is transitive, and `a < b` says that `a <= b` and
-- not `b <= a`.
pub record FloatOrder (P : Platform) : Type 0 where
  pub le_trans :
      (a b c : P.Float) → P.float_le a b ≡ true → P.float_le b c ≡ true → P.float_le a c ≡ true
  pub lt_le : (a b : P.Float) → P.float_lt a b ≡ (P.float_le a b && not (P.float_le b a))

-- `z` compares the ends of what `x` and `y` compare.
abbrev pub Chain : Comparison → Comparison → Comparison → Type 0
Chain x y z =
    (x.no_worse ≡ true → y.no_worse ≡ true → z.no_worse ≡ true)
    × (x.better ≡ true → y.no_worse ≡ true → z.better ≡ true)

abbrev Chains : List Comparison → List Comparison → List Comparison → Type 0
Chains [] [] [] = Unit
Chains (x ∷ xs) (y ∷ ys) (z ∷ zs) = Chain x y z × Chains xs ys zs
Chains _ _ _ = ⊥

Chains-all_no_worse :
    (xs ys zs : List Comparison)
    → Chains xs ys zs
    → all_no_worse xs ≡ true
    → all_no_worse ys ≡ true
    → all_no_worse zs ≡ true
unfolding all_no_worse
Chains-all_no_worse [] [] [] c h k = refl
Chains-all_no_worse (x ∷ xs) (y ∷ ys) (z ∷ zs) c h k =
    ground (arith, c.0, Chains-all_no_worse xs ys zs c.1)
Chains-all_no_worse [] [] (z ∷ zs) c h k = absurd c
Chains-all_no_worse [] (y ∷ ys) zs c h k = absurd c
Chains-all_no_worse (x ∷ xs) [] zs c h k = absurd c
Chains-all_no_worse (x ∷ xs) (y ∷ ys) [] c h k = absurd c

Chains-any_better :
    (xs ys zs : List Comparison)
    → Chains xs ys zs
    → any_better xs ≡ true
    → all_no_worse ys ≡ true
    → any_better zs ≡ true
unfolding all_no_worse any_better
Chains-any_better [] [] [] c h k = h
Chains-any_better (x ∷ xs) (y ∷ ys) (z ∷ zs) c h k =
    ground (arith, c.0, Chains-any_better xs ys zs c.1)
Chains-any_better [] [] (z ∷ zs) c h k = absurd c
Chains-any_better [] (y ∷ ys) zs c h k = absurd c
Chains-any_better (x ∷ xs) [] zs c h k = absurd c
Chains-any_better (x ∷ xs) (y ∷ ys) [] c h k = absurd c

less-Chain : (a b c : ℕ) → Chain (less a b) (less b c) (less a c)
less-Chain a b c = (λ h k. ground arith, λ h k. ground arith)

-- Cross multiplication is transitive where the middle denominator is not 0.
rate_trans :
    (p c p' c' p'' c'' : ℕ) → 0 < c' → p' * c ≤ p * c' → p'' * c' ≤ p' * c'' → p'' * c ≤ p * c''
rate_trans p c p' c' p'' c'' pos_c h k =
    le_of_mul-le-mul_left {k = c'} (omega (arith, mul-le-mul_right c k, mul-le-mul_right c'' h))
      pos_c

rate_lt_trans :
    (p c p' c' p'' c'' : ℕ)
    → 0 < c'
    → 0 < c''
    → p' * c < p * c'
    → p'' * c' ≤ p' * c''
    → p'' * c < p * c''
rate_lt_trans p c p' c' p'' c'' pos_c pos_c' h k =
    lt_of_mul-lt-mul_left c' (omega (arith, mul-le-mul_right c k, mul-lt-mul_of_pos_right h pos_c'))

rate-Chain :
    (p c p' c' p'' c'' : ℕ)
    → 0 < c'
    → 0 < c''
    → Chain (greater_rate p c p' c') (greater_rate p' c' p'' c'') (greater_rate p c p'' c'')
rate-Chain p c p' c' p'' c'' pos_c pos_c' = (
  λ h k. ground (arith, rate_trans p c p' c' p'' c'' pos_c),
  λ h k. ground (arith, rate_lt_trans p c p' c' p'' c'' pos_c pos_c'),
)

Chains-append :
    (xs ys zs xs' ys' zs' : List Comparison)
    → Chains xs ys zs
    → Chains xs' ys' zs'
    → Chains (xs ++ xs') (ys ++ ys') (zs ++ zs')
Chains-append [] [] [] xs' ys' zs' c d = d
Chains-append (x ∷ xs) (y ∷ ys) (z ∷ zs) xs' ys' zs' c d =
    (c.0, Chains-append xs ys zs xs' ys' zs' c.1 d)
Chains-append [] [] (z ∷ zs) xs' ys' zs' c d = absurd c
Chains-append [] (y ∷ ys) zs xs' ys' zs' c d = absurd c
Chains-append (x ∷ xs) [] zs xs' ys' zs' c d = absurd c
Chains-append (x ∷ xs) (y ∷ ys) [] xs' ys' zs' c d = absurd c

cost-Chains :
    (a b c : Resources)
    → Chains (cost_comparisons a b) (cost_comparisons b c) (cost_comparisons a c)
unfolding cost_comparisons
cost-Chains a b c = (
  less-Chain a.actions b.actions c.actions,
  (
    less-Chain a.energy_millijoules b.energy_millijoules c.energy_millijoules,
    (
      less-Chain a.gpu_milliseconds b.gpu_milliseconds c.gpu_milliseconds,
      (
        less-Chain a.memory_bytes b.memory_bytes c.memory_bytes,
        (
          less-Chain a.storage_bytes b.storage_bytes c.storage_bytes,
          (
            less-Chain a.tokens b.tokens c.tokens,
            (less-Chain a.wall_milliseconds b.wall_milliseconds c.wall_milliseconds, tt),
          ),
        ),
      ),
    ),
  ),
)

module _ (P : Platform) (order : FloatOrder P) where
  open P use {Float, float_le, float_lt}

  -- The opposite order, for what is to be made large.
  less_float-Chain :
      (a b c : Float) → Chain (less_float P a b) (less_float P b c) (less_float P a c)
  less_float-Chain a b c = (
    λ h k. order.le_trans a b c h k,
    λ h k.
        ground
          (arith, order.lt_le a b, order.lt_le a c, order.le_trans a b c, order.le_trans b c a),
  )

  greater_float-Chain :
      (a b c : Float) → Chain (greater_float P a b) (greater_float P b c) (greater_float P a c)
  greater_float-Chain a b c = (
    λ h k. order.le_trans c b a k h,
    λ h k.
        ground
          (arith, order.lt_le b a, order.lt_le c a, order.le_trans c b a, order.le_trans a c b),
  )

  information-Chains :
      (i : Bool) (a b c : Metric Float)
      → Chains
          (information_comparison P i a b)
          (information_comparison P i b c)
          (information_comparison P i a c)
  unfolding information_comparison
  information-Chains false a b c = tt
  information-Chains true a b c = (greater_float-Chain _ _ _, tt)

  comparisons-Chains :
      (i : Bool) (a b c : Metric Float)
      → 0 < b.case_count
      → 0 < c.case_count
      → Chains (comparisons P a b i) (comparisons P b c i) (comparisons P a c i)
  unfolding comparisons
  comparisons-Chains i a b c pos_b pos_c = (
    rate-Chain a.passed_count a.case_count b.passed_count b.case_count c.passed_count c.case_count
        pos_b pos_c,
    (
      greater_float-Chain _ _ _,
      (
        greater_float-Chain _ _ _,
        (
          less_float-Chain _ _ _,
          Chains-append (information_comparison P i a b) (information_comparison P i b c)
              (information_comparison P i a c) (cost_comparisons a.cost b.cost)
              (cost_comparisons b.cost c.cost) (cost_comparisons a.cost c.cost)
              (information-Chains i a b c) (cost-Chains a.cost b.cost c.cost),
        ),
      ),
    ),
  )

  -- Dominance is transitive on aggregates that have cases, provided that floats are ordered (FloatOrder).
  pub dominates_trans :
      (i : Bool) (a b c : Metric Float)
      → 0 < b.case_count
      → 0 < c.case_count
      → dominates P a b i ≡ true
      → dominates P b c i ≡ true
      → dominates P a c i ≡ true
  unfolding dominates
  dominates_trans i a b c pos_b pos_c h k =
      let chains = comparisons-Chains i a b c pos_b pos_c in
      ground (
        arith,
        Chains-all_no_worse (comparisons P a b i) (comparisons P b c i) (comparisons P a c i)
            chains,
        Chains-any_better (comparisons P a b i) (comparisons P b c i) (comparisons P a c i) chains,
      )

  lt_irrefl : (x : Float) → float_lt x x ≡ false
  lt_irrefl x = ground (arith, order.lt_le x x)

  comparisons_self : (i : Bool) (a : Metric Float) → any_better (comparisons P a a i) ≡ false
  unfolding comparisons information_comparison cost_comparisons any_better
  comparisons_self false a = simp lt_irrefl (ground arith)
  comparisons_self true a = simp lt_irrefl (ground arith)

  -- Nothing dominates itself, provided that floats are ordered (FloatOrder).
  pub dominates_irrefl : (i : Bool) (a : Metric Float) → dominates P a a i ≡ false
  unfolding dominates
  dominates_irrefl i a = ground (arith, comparisons_self i a)
