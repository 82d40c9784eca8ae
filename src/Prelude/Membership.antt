-- ===== src/Prelude/Membership.antt =====
-- Membership in filtered and sorted lists.
use mathlib.Core.Bool.{Bool, true, false}
use mathlib.Core.List.{List, [], ◌∷◌, Memᴰ, map}
use mathlib.Core.Logic.{◌⊎◌, inl, inr}
use mathlib.Core.Path.{◌≡◌, refl, sym, ap, ◌∙◌}
use native.Mathlib.Omega.{arith}
use text.Mathlib.Text.{◌==◌ as str_eq}
use text.Mathlib.TextEquality.{eq_iff}
use text.Mathlib.TextPositions.{eq_refl}
use Prim.Native.Nat.{ℕ, zero, suc, ◌<◌}
use Prim.Native.String.{String}
use metering.Prelude.Lists.{any, filter, contains, insert, sort_by, length, take}
use metering.Prelude.Tests.{if◌then◌else◌, Bool-cases}

-- A predicate on every element.
abbrev pub All {ℓ} : {A : Type ℓ} → (A → Type 0) → List A → Type 0
All Q [] = Unit
All Q (x ∷ xs) = Q x × All Q xs

module _ {ℓ} {A : Type ℓ} where
  pub All-Memᴰ : (Q : A → Type 0) {x : A} {xs : List A} → All Q xs → Memᴰ x xs → Q x
  All-Memᴰ Q a (Memᴰ.head e) = rw e a.0
  All-Memᴰ Q a (Memᴰ.tail m) = All-Memᴰ Q a.1 m

  pub any-elim :
      (test : A → Bool) (xs : List A) → any test xs ≡ true → (x : A) × Memᴰ x xs × (test x ≡ true)
  unfolding any
  any-elim test [] h = cc
  any-elim test (x ∷ xs) h = elim (Bool-cases (test x)) [
    | inl passed ↦ (x, Memᴰ.head refl, passed)
    | inr failed ↦
        let (y, m, e) = any-elim test xs (ground (arith, h, failed)) in (y, Memᴰ.tail m, e)
  ]

  pub Memᴰ-filter :
      (test : A → Bool) {x : A} {xs : List A} → Memᴰ x xs → test x ≡ true → Memᴰ x (filter test xs)
  unfolding filter
  Memᴰ-filter test (Memᴰ.head {x = y} e) h =
      let passes : test y ≡ true = ap test (sym e) ∙ h in rw passes (Memᴰ.head e)
  Memᴰ-filter test (Memᴰ.tail {x = y} m) h = elim (Bool-cases (test y)) [
    | inl passes ↦ rw passes (Memᴰ.tail (Memᴰ-filter test m h))
    | inr fails ↦ rw fails (Memᴰ-filter test m h)
  ]

  filter-cons :
      (test : A → Bool) (y : A) (b : Bool) (xs : List A) {x : A}
      → test y ≡ b
      → Memᴰ x (if b then y ∷ filter test xs else filter test xs)
      → (Memᴰ x (filter test xs) → Memᴰ x xs × (test x ≡ true))
      → Memᴰ x (y ∷ xs) × (test x ≡ true)
  filter-cons test y true xs e (Memᴰ.head p) rest = (Memᴰ.head p, ap test p ∙ e)
  filter-cons test y true xs e (Memᴰ.tail m) rest = (Memᴰ.tail (rest m).0, (rest m).1)
  filter-cons test y false xs e m rest = (Memᴰ.tail (rest m).0, (rest m).1)

  pub Memᴰ_of_filter :
      (test : A → Bool) {x : A} (xs : List A)
      → Memᴰ x (filter test xs)
      → Memᴰ x xs × (test x ≡ true)
  unfolding filter
  Memᴰ_of_filter test [] m = elim m [ ]
  Memᴰ_of_filter test (y ∷ xs) m =
      filter-cons test y (test y) xs refl m (λ r. Memᴰ_of_filter test xs r)

  -- Sorting keeps the elements and their number.
  module _ (before : A → A → Bool) where
    insert-self : (y : A) (ys : List A) → Memᴰ y (insert before y ys)
    unfolding insert
    insert-self y [] = Memᴰ.head refl
    insert-self y (z ∷ zs) = elim (Bool-cases (before z y)) [
      | inl later ↦ rw later (Memᴰ.tail (insert-self y zs))
      | inr first ↦ rw first (Memᴰ.head refl)
    ]

    insert-old : {x : A} (y : A) {ys : List A} → Memᴰ x ys → Memᴰ x (insert before y ys)
    unfolding insert
    insert-old y (Memᴰ.head {x = z} {xs = zs} e) = elim (Bool-cases (before z y)) [
      | inl later ↦ rw later (Memᴰ.head e)
      | inr first ↦ rw first (Memᴰ.tail (Memᴰ.head e))
    ]
    insert-old y (Memᴰ.tail {x = z} {xs = zs} m) = elim (Bool-cases (before z y)) [
      | inl later ↦ rw later (Memᴰ.tail (insert-old y m))
      | inr first ↦ rw first (Memᴰ.tail (Memᴰ.tail m))
    ]

    insert-cons :
        (y z : A) (zs : List A) (b : Bool) {x : A}
        → Memᴰ x (if b then z ∷ insert before y zs else y ∷ z ∷ zs)
        → (Memᴰ x (insert before y zs) → (x ≡ y) ⊎ Memᴰ x zs)
        → (x ≡ y) ⊎ Memᴰ x (z ∷ zs)
    insert-cons y z zs true (Memᴰ.head e) rest = inr (Memᴰ.head e)
    insert-cons y z zs true (Memᴰ.tail m) rest = elim (rest m) [
      | inl e ↦ inl e
      | inr r ↦ inr (Memᴰ.tail r)
    ]
    insert-cons y z zs false (Memᴰ.head e) rest = inl e
    insert-cons y z zs false (Memᴰ.tail m) rest = inr m

    insert-cases : (y : A) (ys : List A) {x : A} → Memᴰ x (insert before y ys) → (x ≡ y) ⊎ Memᴰ x ys
    unfolding insert
    insert-cases y [] (Memᴰ.head e) = inl e
    insert-cases y [] (Memᴰ.tail m) = inr m
    insert-cases y (z ∷ zs) m = insert-cons y z zs (before z y) m (λ r. insert-cases y zs r)

    pub Memᴰ-sort_by : {x : A} {xs : List A} → Memᴰ x xs → Memᴰ x (sort_by before xs)
    unfolding sort_by
    Memᴰ-sort_by {x} (Memᴰ.head {x = y} {xs = ys} e) = rw e (insert-self y (sort_by before ys))
    Memᴰ-sort_by (Memᴰ.tail {x = y} m) = insert-old y (Memᴰ-sort_by m)

    pub Memᴰ_of_sort_by : {x : A} (xs : List A) → Memᴰ x (sort_by before xs) → Memᴰ x xs
    unfolding sort_by
    Memᴰ_of_sort_by [] m = elim m [ ]
    Memᴰ_of_sort_by (y ∷ ys) m = elim (insert-cases y (sort_by before ys) m) [
      | inl e ↦ Memᴰ.head e
      | inr r ↦ Memᴰ.tail (Memᴰ_of_sort_by ys r)
    ]

    length-insert : (y : A) (ys : List A) → length (insert before y ys) ≡ suc (length ys)
    unfolding insert
    length-insert y [] = refl
    length-insert y (z ∷ zs) = ground (arith, length-insert y zs)

    pub length-sort_by : (xs : List A) → length (sort_by before xs) ≡ length xs
    unfolding sort_by
    length-sort_by [] = refl
    length-sort_by (y ∷ ys) = length-insert y (sort_by before ys) ∙ ap suc (length-sort_by ys)

  pub length_pos_of_Memᴰ : {x : A} {xs : List A} → Memᴰ x xs → 0 < length xs
  length_pos_of_Memᴰ (Memᴰ.head e) = omega arith
  length_pos_of_Memᴰ (Memᴰ.tail m) = omega arith

  pub contains-map :
      (f : A → String) {x : A} {xs : List A} → Memᴰ x xs → contains (f x) (map f xs) ≡ true
  unfolding contains
  contains-map f {x} (Memᴰ.head {x = y} e) = rw (e, eq_refl)
  contains-map f (Memᴰ.tail m) = ground (arith, contains-map f m)

  pub contains-map-elim :
      (f : A → String) (k : String) (xs : List A)
      → contains k (map f xs) ≡ true
      → (x : A) × Memᴰ x xs × (f x ≡ k)
  unfolding contains
  contains-map-elim f k [] h = cc
  contains-map-elim f k (x ∷ xs) h = elim (Bool-cases (str_eq (f x) k)) [
    | inl same ↦ (x, Memᴰ.head refl, (eq_iff (f x) k).0 same)
    | inr other ↦
        let (y, m, e) = contains-map-elim f k xs (ground (arith, h)) in (y, Memᴰ.tail m, e)
  ]

module _ {ℓ} {A : Type ℓ} where
  -- An element is among the first `n`, or there are more than `n`.
  pub Memᴰ-take : (n : ℕ) {x : A} {xs : List A} → Memᴰ x xs → Memᴰ x (take n xs) ⊎ (n < length xs)
  Memᴰ-take zero m = inr (length_pos_of_Memᴰ m)
  Memᴰ-take (suc n) (Memᴰ.head e) = inl (Memᴰ.head e)
  Memᴰ-take (suc n) (Memᴰ.tail m) = elim (Memᴰ-take n m) [
    | inl kept ↦ inl (Memᴰ.tail kept)
    | inr more ↦ inr (omega arith)
  ]

  pub exists_take : (n : ℕ) {x : A} {xs : List A} → 0 < n → Memᴰ x xs → (y : A) × Memᴰ y (take n xs)
  exists_take zero h m = absurd (omega arith)
  exists_take (suc n) h (Memᴰ.head {x = y} e) = (y, Memᴰ.head refl)
  exists_take (suc n) h (Memᴰ.tail {x = y} m) = (y, Memᴰ.head refl)

  pub Memᴰ_of_take : (n : ℕ) {x : A} (xs : List A) → Memᴰ x (take n xs) → Memᴰ x xs
  Memᴰ_of_take zero xs m = elim m [ ]
  Memᴰ_of_take (suc n) [] m = m
  Memᴰ_of_take (suc n) (y ∷ ys) (Memᴰ.head e) = Memᴰ.head e
  Memᴰ_of_take (suc n) (y ∷ ys) (Memᴰ.tail m) = Memᴰ.tail (Memᴰ_of_take n ys m)
