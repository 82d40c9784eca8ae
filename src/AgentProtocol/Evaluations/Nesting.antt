-- ===== src/AgentProtocol/Evaluations/Nesting.antt =====
-- How deep a document is nested, which is how deep a function that recurses on it calls itself.
use metering.Prelude.{
  ℕ, suc, ◌≤◌, ◌<◌, ◌≡◌, ap, subst, arith, Bool-cases, inl, inr, All, if◌then◌else◌, leb, ◌==◌,
  List, length, String, str_eq,
}
use metering.Runtime.{
  ok, after, ok-injective, require, protocol_error, Json, arr, obj, items, Fields, Items, get, end,
  field, nil, cons,
}
use metering.AgentProtocol.{item, require_object}
use metering.AgentProtocol.Evaluations.{require_pair}

larger : ℕ → ℕ → ℕ
larger m n = if leb m n then n else m

larger-left : (m n : ℕ) → m ≤ larger m n
unfolding larger
larger-left m n = ground arith

larger-right : (m n : ℕ) → n ≤ larger m n
unfolding larger
larger-right m n = ground arith

module _ {F : Type 0} where
  -- A value inside no array and no object is nested once.
  unfoldable mutual
    unfolding larger

    pub nesting : Json F → ℕ
    nesting (arr vs) = suc (nesting_items vs)
    nesting (obj d) = suc (nesting_fields d)
    nesting other = 1

    pub nesting_items : Items F → ℕ
    nesting_items nil = 0
    nesting_items (cons v vs) = larger (nesting v) (nesting_items vs)

    pub nesting_fields : Fields F → ℕ
    nesting_fields end = 0
    nesting_fields (field k v d) = larger (nesting v) (nesting_fields d)

  pub nesting-cons : (v : Json F) (vs : Items F) → nesting v ≤ nesting_items (cons v vs)
  unfolding nesting
  nesting-cons v vs = larger-left (nesting v) (nesting_items vs)

  pub nesting_items-cons :
      (v : Json F) (vs : Items F) → nesting_items vs ≤ nesting_items (cons v vs)
  unfolding nesting
  nesting_items-cons v vs = larger-right (nesting v) (nesting_items vs)

  pub nesting-field :
      (k : String) (v : Json F) (d : Fields F) → nesting v ≤ nesting_fields (field k v d)
  unfolding nesting
  nesting-field k v d = larger-left (nesting v) (nesting_fields d)

  pub nesting_fields-field :
      (k : String) (v : Json F) (d : Fields F) → nesting_fields d ≤ nesting_fields (field k v d)
  unfolding nesting
  nesting_fields-field k v d = larger-right (nesting v) (nesting_fields d)

  pub nesting-item :
      (k : String) (d : Fields F) {v : Json F} → item k d ≡ ok v → nesting v ≤ nesting_fields d
  unfolding item get
  nesting-item k end h = cc
  nesting-item k (field j w d) {v} h = elim (Bool-cases (str_eq j k)) [
    | inl same ↦
        subst (λ u. nesting u ≤ nesting_fields (field j w d)) (ok-injective (rw same at h))
          (nesting-field j w d)
    | inr other ↦
        let deep = nesting-item k d (rw other at h) in
        let rest = nesting_fields-field j w d in omega (arith, deep, rest)
  ]

  pub nesting-require_object :
      (value : Json F) {d : Fields F}
      → require_object value ≡ ok d
      → nesting_fields d < nesting value
  unfolding require_object nesting
  nesting-require_object (obj e) h =
      let same = ap nesting_fields (ok-injective h) in omega (arith, same)
  nesting-require_object value h = cc

  pub nesting-arr : {n : ℕ} (vs : Items F) → nesting (arr vs) ≤ suc n → nesting_items vs ≤ n
  unfolding nesting
  nesting-arr vs h = omega (arith, h)

  pub nesting-obj : {n : ℕ} (d : Fields F) → nesting (obj d) ≤ suc n → nesting_fields d ≤ n
  unfolding nesting
  nesting-obj d h = omega (arith, h)

  pub nesting_pos : (v : Json F) → 0 < nesting v
  unfolding nesting
  nesting_pos (arr vs) = omega arith
  nesting_pos (obj d) = omega arith
  nesting_pos other = omega arith

  nesting-items :
      (n : ℕ) (vs : Items F) → nesting_items vs ≤ n → All (λ v. nesting v ≤ n) (items vs)
  unfolding items
  nesting-items n nil h = tt
  nesting-items n (cons v vs) h =
      let first = nesting-cons v vs in
      let rest = nesting_items-cons v vs in
      (omega (arith, first, h), nesting-items n vs (omega (arith, rest, h)))

  pub nesting-require_pair :
      (n : ℕ) (value : Json F) {raw : List (Json F)}
      → nesting value ≤ suc n
      → require_pair value ≡ ok raw
      → All (λ v. nesting v ≤ n) raw
  unfolding require_pair nesting
  nesting-require_pair n (arr vs) b h =
      after (require (length (items vs) == 2) protocol_error) _ h λ u e₁ h₁.
        subst (All (λ v. nesting v ≤ n)) (ok-injective h₁) (nesting-items n vs (omega (arith, b)))
  nesting-require_pair n value b h = cc
