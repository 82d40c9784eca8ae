-- ===== src/Prelude/Lists.antt =====
-- Lists measured by native numbers, the Python built-ins on lists, and predicates by recursion.
use Prim.Native.Nat.{ℕ, zero, suc, ◌+◌}
use Prim.Native.String.{String}
use mathlib.Core.Bool.{Bool, true, false, ◌&&◌, ◌||◌}
use mathlib.Core.List.{List, [], ◌∷◌}
use mathlib.Core.Option.{Option, none, some}
use text.Mathlib.Text.{◌==◌ as str_eq}
use metering.Prelude.Tests.{if◌then◌else◌}

module _ {ℓ} {A : Type ℓ} where
  abbrev pub length : List A → ℕ
  length [] = 0
  length (x ∷ xs) = suc (length xs)

  abbrev pub get_elem? : List A → ℕ → Option A
  get_elem? [] i = none
  get_elem? (x ∷ xs) zero = some x
  get_elem? (x ∷ xs) (suc i) = get_elem? xs i

  -- `xs[:n]`
  abbrev pub take : ℕ → List A → List A
  take zero xs = []
  take (suc n) [] = []
  take (suc n) (x ∷ xs) = x ∷ take n xs

  -- `any(test(x) for x in xs)` and `all(test(x) for x in xs)`
  unfoldable pub any : (A → Bool) → List A → Bool
  any test [] = false
  any test (x ∷ xs) = test x || any test xs

  unfoldable pub all : (A → Bool) → List A → Bool
  all test [] = true
  all test (x ∷ xs) = test x && all test xs

  -- `[x for x in xs if test(x)]`
  unfoldable pub filter : (A → Bool) → List A → List A
  filter test [] = []
  filter test (x ∷ xs) = if test x then x ∷ filter test xs else filter test xs

-- `sum(xs)`
abbrev pub sum : List ℕ → ℕ
sum [] = 0
sum (n ∷ ns) = n + sum ns

-- `x in xs` and `set(xs) <= set(ys)` for texts
unfoldable pub contains : String → List String → Bool
contains k [] = false
contains k (x ∷ xs) = str_eq x k || contains k xs

-- `len(set(xs)) != len(xs)`
unfoldable pub has_duplicate : List String → Bool
unfolding contains
has_duplicate [] = false
has_duplicate (x ∷ xs) = contains x xs || has_duplicate xs

unfoldable pub subset : List String → List String → Bool
unfolding contains
subset [] ys = true
subset (x ∷ xs) ys = contains x ys && subset xs ys

-- `sorted(xs, key=...)`, where `before` is `<` on the keys: a stable insertion sort.
module _ {ℓ} {A : Type ℓ} (before : A → A → Bool) where
  unfoldable pub insert : A → List A → List A
  insert x [] = x ∷ []
  insert x (y ∷ ys) = if before y x then y ∷ insert x ys else x ∷ y ∷ ys

  unfoldable pub sort_by : List A → List A
  unfolding insert
  sort_by [] = []
  sort_by (x ∷ xs) = insert x (sort_by xs)
