-- ===== src/Runtime/Dict.antt =====
-- Python's `dict` with text keys, as pairs in the order of insertion.
use metering.Prelude.{
  String, Bool, false, Option, none, some, List, [], ◌∷◌, str_eq, if◌then◌else◌, ◌||◌, ◌≡◌, refl,
  eq_iff, arith,
}

abbrev pub Dict {ℓ} : Type ℓ → Type ℓ
Dict V = List (String × V)

module _ {ℓ} {V : Type ℓ} where
  -- `d.get(k)`
  unfoldable pub find : String → Dict V → Option V
  find k [] = none
  find k ((j, v) ∷ d) = if str_eq j k then some v else find k d

  -- `k in d`
  unfoldable pub member : String → Dict V → Bool
  member k [] = false
  member k ((j, v) ∷ d) = str_eq j k || member k d

  -- `d[k] = v`
  unfoldable pub put : String → V → Dict V → Dict V
  put k v [] = (k, v) ∷ []
  put k v ((j, w) ∷ d) = if str_eq j k then (j, v) ∷ d else (j, w) ∷ put k v d

  pub find-put :
      (j k : String) (v : V) (d : Dict V)
      → find j (put k v d) ≡ (if str_eq k j then some v else find j d)
  unfolding find put
  find-put j k v [] = refl
  find-put j k v ((i, w) ∷ d) = ground (arith, eq_iff i k, eq_iff i j, eq_iff k j, find-put j k v d)

  pub member-put :
      (j k : String) (v : V) (d : Dict V) → member j (put k v d) ≡ (str_eq k j || member j d)
  unfolding member put
  member-put j k v [] = refl
  member-put j k v ((i, w) ∷ d) =
      ground (arith, eq_iff i k, eq_iff i j, eq_iff k j, member-put j k v d)
