-- ===== src/Runtime/Documents.antt =====
-- JSON documents, as Python's `json` module returns them.
use metering.Prelude.{
  ℕ, String, Bool, false, ◌||◌, List, [], ◌∷◌, Option, none, some, str_eq, if◌then◌else◌,
}
use metering.Prelude.Int.{ℤ}

-- A `str` is a text of Unicode scalar values, or (`surrogates`) a sequence of code points with a lone
-- surrogate, which UTF-8 cannot encode. The keys of an object are texts.
mutual
  pub data Json (F : Type 0) : Type 0 where
    null : Json F
    bool : Bool → Json F
    int : ℤ → Json F
    float : F → Json F
    str : String → Json F
    surrogates : List ℕ → Json F
    arr : Items F → Json F
    obj : Fields F → Json F

  pub data Items (F : Type 0) : Type 0 where
    nil : Items F
    cons : Json F → Items F → Items F

  pub data Fields (F : Type 0) : Type 0 where
    end : Fields F
    field : String → Json F → Fields F → Fields F

module _ {F : Type 0} where
  unfoldable pub items : Items F → List (Json F)
  items nil = []
  items (cons v vs) = v ∷ items vs

  unfoldable pub array : List (Json F) → Items F
  array [] = nil
  array (v ∷ vs) = cons v (array vs)

  -- `d.get(k)`
  unfoldable pub get : String → Fields F → Option (Json F)
  get k end = none
  get k (field j v d) = if str_eq j k then some v else get k d

  -- `k in d`
  unfoldable pub has_key : String → Fields F → Bool
  has_key k end = false
  has_key k (field j v d) = str_eq j k || has_key k d

  -- `{key: value for key, value in d.items() if key != k}`
  unfoldable pub without : String → Fields F → Fields F
  without k end = end
  without k (field j v d) = if str_eq j k then without k d else field j v (without k d)

  unfoldable pub keys : Fields F → List String
  keys end = []
  keys (field j v d) = j ∷ keys d
