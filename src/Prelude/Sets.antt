-- ===== src/Prelude/Sets.antt =====
-- Lists of texts as sets: subsets, and lists that share no member.
use mathlib.Core.Bool.{Bool, true, ◌&&◌, not}
use mathlib.Core.List.{List, [], ◌∷◌}
use mathlib.Core.Logic.{inl, inr}
use mathlib.Core.Path.{◌≡◌, refl, sym, ap, ◌∙◌}
use native.Mathlib.Omega.{arith}
use text.Mathlib.Text.{◌==◌ as str_eq}
use text.Mathlib.TextEquality.{eq_iff}
use Prim.Native.String.{String}
use metering.Prelude.Lists.{contains, subset}
use metering.Prelude.Tests.{Bool-cases}

-- No text of the second list is in the first.
unfoldable pub fresh : List String → List String → Bool
fresh seen [] = true
fresh seen (x ∷ xs) = not (contains x seen) && fresh seen xs

pub fresh-cons :
    (x : String) (seen xs : List String)
    → fresh (x ∷ seen) xs ≡ (not (contains x xs) && fresh seen xs)
unfolding fresh contains
fresh-cons x seen [] = refl
fresh-cons x seen (y ∷ ys) = ground (arith, fresh-cons x seen ys, eq_iff x y, eq_iff y x)

pub fresh-nil : (xs : List String) → fresh [] xs ≡ true
unfolding fresh contains
fresh-nil [] = refl
fresh-nil (x ∷ xs) = fresh-nil xs

pub subset-contains :
    (k : String) (xs ys : List String)
    → subset xs ys ≡ true
    → contains k xs ≡ true
    → contains k ys ≡ true
unfolding subset contains
subset-contains k [] ys h m = cc
subset-contains k (x ∷ xs) ys h m = elim (Bool-cases (str_eq x k)) [
  | inl same ↦ let e = ap (λ t. contains t ys) ((eq_iff x k).0 same) in ground (arith, h, e)
  | inr other ↦ subset-contains k xs ys (ground (arith, h)) (ground (arith, m, other))
]

pub subset-both :
    (k : String) (xs ys : List String)
    → (subset xs ys && subset ys xs) ≡ true
    → contains k xs ≡ contains k ys
subset-both k xs ys h =
    let there : contains k xs ≡ true → contains k ys ≡ true =
      subset-contains k xs ys (ground (arith, h)) in
    let back : contains k ys ≡ true → contains k xs ≡ true =
      subset-contains k ys xs (ground (arith, h)) in
    elim (Bool-cases (contains k xs)) [
      | inl m ↦ m ∙ sym (there m)
      | inr n ↦ elim (Bool-cases (contains k ys)) [ inl m ↦ back m ∙ sym m | inr o ↦ n ∙ sym o ]
    ]
