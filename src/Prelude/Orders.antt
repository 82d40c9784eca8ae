-- ===== src/Prelude/Orders.antt =====
-- The order on texts, and what sorting by it gives.
use Prim.Native.Nat.compare as compare_ℕ
use Prim.Native.Nat.{ℕ, zero, suc, Ordering, compare as compare_ℕ}
use Prim.Native.Char.{code}
use Prim.Native.String.compare
use Prim.Native.String.{String, ◌∷◌ as ◌⊲◌, [] as empty, compare, then as answer}
use mathlib.Core.Bool.{Bool, true, false, ◌&&◌, ◌||◌, not}
use mathlib.Core.Logic.{inl, inr}
use mathlib.Core.Path.{◌≡◌, refl}
use native.Mathlib.Omega.{arith}
use mathlib.Core.List.{List, [], ◌∷◌, map}
use text.Mathlib.Text.{◌==◌ as str_eq}
use metering.Prelude.Text.{text_lt}
use text.Mathlib.TextEquality.{eq_iff}
use metering.Prelude.Membership.{All}
use metering.Prelude.Lists.{has_duplicate, insert, sort_by, contains}
use metering.Prelude.Tests.{Bool-cases}

abbrev flipped : Ordering → Ordering
flipped Ordering.lt = Ordering.gt
flipped Ordering.eq = Ordering.eq
flipped Ordering.gt = Ordering.lt

compare_ℕ-flipped : (m n : ℕ) → compare_ℕ n m ≡ flipped (compare_ℕ m n)
compare_ℕ-flipped zero zero = refl
compare_ℕ-flipped zero (suc n) = rw (compare_ℕ.zero-suc, compare_ℕ.suc-zero)
compare_ℕ-flipped (suc m) zero = rw (compare_ℕ.zero-suc, compare_ℕ.suc-zero)
compare_ℕ-flipped (suc m) (suc n) =
    rw (compare_ℕ.suc-suc, compare_ℕ.suc-suc) (compare_ℕ-flipped m n)

answer-flipped : (o r : Ordering) → answer (flipped o) (flipped r) ≡ flipped (answer o r)
answer-flipped Ordering.lt r = refl
answer-flipped Ordering.eq r = refl
answer-flipped Ordering.gt r = refl

compare-flipped : (s t : String) → compare t s ≡ flipped (compare s t)
compare-flipped empty empty = rw compare.nil-nil refl
compare-flipped empty (d ⊲ t) = rw (compare.nil-cons, compare.cons-nil) refl
compare-flipped (c ⊲ s) empty = rw (compare.nil-cons, compare.cons-nil) refl
compare-flipped (c ⊲ s) (d ⊲ t) =
    rw
      (
        compare.cons-cons c d,
        compare.cons-cons d c,
        compare_ℕ-flipped (code c) (code d),
        compare-flipped s t,
      )
      (answer-flipped (compare_ℕ (code c) (code d)) (compare s t))

lt_not-flipped :
    (o : Ordering)
    → (elim o [ Ordering.lt ↦ true | _ ↦ false ]) ≡ true
    → (elim (flipped o) [ Ordering.lt ↦ true | _ ↦ false ]) ≡ false
lt_not-flipped Ordering.lt h = refl
lt_not-flipped Ordering.eq h = refl
lt_not-flipped Ordering.gt h = cc

pub text_lt-asym : (s t : String) → text_lt s t ≡ true → text_lt t s ≡ false
text_lt-asym s t h = rw (text_lt, compare-flipped s t) (lt_not-flipped (compare s t) h)

module _ {ℓ} {A : Type ℓ} (before : A → A → Bool) where
  -- No element comes before the one in front of it.
  unfoldable pub is_sorted_from : A → List A → Bool
  is_sorted_from x [] = true
  is_sorted_from x (y ∷ ys) = not (before y x) && is_sorted_from y ys

  unfoldable pub is_sorted : List A → Bool
  unfolding is_sorted_from
  is_sorted [] = true
  is_sorted (x ∷ xs) = is_sorted_from x xs

  module _ (asym : (x y : A) → before x y ≡ true → before y x ≡ false) where
    insert-is_sorted_from :
        (z x : A) (ys : List A)
        → before x z ≡ false
        → is_sorted_from z ys ≡ true
        → is_sorted_from z (insert before x ys) ≡ true
    unfolding insert is_sorted_from
    insert-is_sorted_from z x [] h k = ground (arith, h)
    insert-is_sorted_from z x (y ∷ ys) h k = elim (Bool-cases (before y x)) [
      | inl later ↦ rw later (ground (arith, k, insert-is_sorted_from y x ys (asym y x later)))
      | inr first ↦ rw first (ground (arith, h, k, first))
    ]

    insert-is_sorted :
        (x : A) (ys : List A) → is_sorted ys ≡ true → is_sorted (insert before x ys) ≡ true
    unfolding insert is_sorted is_sorted_from
    insert-is_sorted x [] k = refl
    insert-is_sorted x (y ∷ ys) k = elim (Bool-cases (before y x)) [
      | inl later ↦ rw later (insert-is_sorted_from y x ys (asym y x later) k)
      | inr first ↦ rw first (ground (arith, k, first))
    ]

    pub sort_by-is_sorted : (xs : List A) → is_sorted (sort_by before xs) ≡ true
    unfolding sort_by is_sorted
    sort_by-is_sorted [] = refl
    sort_by-is_sorted (x ∷ xs) = insert-is_sorted x (sort_by before xs) (sort_by-is_sorted xs)

  insert_first : (x : A) (ys : List A) → is_sorted_from x ys ≡ true → insert before x ys ≡ x ∷ ys
  unfolding insert is_sorted_from
  insert_first x [] k = refl
  insert_first x (y ∷ ys) k = ground (arith, k)

  is_sorted-rest : (x : A) (xs : List A) → is_sorted (x ∷ xs) ≡ true → is_sorted xs ≡ true
  unfolding is_sorted is_sorted_from
  is_sorted-rest x [] h = refl
  is_sorted-rest x (y ∷ ys) h = ground (arith, h)

  -- Sorting a sorted list leaves it as it is.
  pub sort_by_sorted : (xs : List A) → is_sorted xs ≡ true → sort_by before xs ≡ xs
  unfolding sort_by is_sorted
  sort_by_sorted [] h = refl
  sort_by_sorted (x ∷ xs) h = rw (sort_by_sorted xs (is_sorted-rest x xs h)) (insert_first x xs h)

module _ {ℓ} {A : Type ℓ} (before : A → A → Bool) (f : A → String) where
  contains-insert :
      (k : String) (x : A) (ys : List A)
      → contains k (map f (insert before x ys)) ≡ (str_eq (f x) k || contains k (map f ys))
  unfolding insert contains
  contains-insert k x [] = refl
  contains-insert k x (y ∷ ys) = ground (arith, contains-insert k x ys)

  pub contains-sort_by :
      (k : String) (xs : List A) → contains k (map f (sort_by before xs)) ≡ contains k (map f xs)
  unfolding sort_by contains
  contains-sort_by k [] = refl
  contains-sort_by k (x ∷ xs) =
      rw (contains-insert k x (sort_by before xs), contains-sort_by k xs) refl

  has_duplicate-insert :
      (x : A) (ys : List A)
      → has_duplicate (map f (insert before x ys))
        ≡ (contains (f x) (map f ys) || has_duplicate (map f ys))
  unfolding insert has_duplicate contains
  has_duplicate-insert x [] = refl
  has_duplicate-insert x (y ∷ ys) = ground (
    arith,
    has_duplicate-insert x ys,
    contains-insert (f y) x ys,
    eq_iff (f x) (f y),
    eq_iff (f y) (f x),
  )

  pub has_duplicate-sort_by :
      (xs : List A) → has_duplicate (map f (sort_by before xs)) ≡ has_duplicate (map f xs)
  unfolding sort_by has_duplicate
  has_duplicate-sort_by [] = refl
  has_duplicate-sort_by (x ∷ xs) =
      rw
        (
          has_duplicate-insert x (sort_by before xs),
          contains-sort_by (f x) xs,
          has_duplicate-sort_by xs,
        )
        refl

module _ {ℓ} {A : Type ℓ} (before : A → A → Bool) (Q : A → Type 0) where
  All-insert : (x : A) (ys : List A) → Q x → All Q ys → All Q (insert before x ys)
  unfolding insert
  All-insert x [] q a = (q, tt)
  All-insert x (y ∷ ys) q a = elim (Bool-cases (before y x)) [
    | inl later ↦ rw later (a.0, All-insert x ys q a.1)
    | inr first ↦ rw first (q, a)
  ]

  pub All-sort_by : (xs : List A) → All Q xs → All Q (sort_by before xs)
  unfolding sort_by
  All-sort_by [] a = tt
  All-sort_by (x ∷ xs) a = All-insert x (sort_by before xs) a.0 (All-sort_by xs a.1)
