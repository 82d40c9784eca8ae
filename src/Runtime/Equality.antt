-- ===== src/Runtime/Equality.antt =====
-- Python's `==` on decoded documents: numbers by value whatever their type, objects by their keys.
use metering.Prelude.{
  ℕ, ◌==◌, Bool, true, false, ◌&&◌, none, some, List, [], ◌∷◌, length, if◌then◌else◌, str_eq,
}
use metering.Prelude.Int.{ℤ, pos, negsuc}
use metering.Runtime.Documents.{
  Json, Items, Fields, null, bool, int, float, str, surrogates, arr, obj, nil, cons, end, field,
  get, keys,
}
use metering.Runtime.Python.{Platform}

abbrev int_of_bool : Bool → ℤ
int_of_bool b = if b then pos 1 else pos 0

abbrev int_eq : ℤ → ℤ → Bool
int_eq (pos m) (pos n) = m == n
int_eq (negsuc m) (negsuc n) = m == n
int_eq m n = false

unfoldable pub codes_eq : List ℕ → List ℕ → Bool
codes_eq [] [] = true
codes_eq (c ∷ cs) (d ∷ ds) = c == d && codes_eq cs ds
codes_eq cs ds = false

module _ (P : Platform) where
  open P use {Float, float_eq, float_eq_int}

  unfoldable pub int_equals : ℤ → Json Float → Bool
  int_equals m (int n) = int_eq m n
  int_equals m (bool b) = int_eq m (int_of_bool b)
  int_equals m (float x) = float_eq_int x m
  int_equals m other = false

  unfoldable pub float_equals : Float → Json Float → Bool
  float_equals x (int n) = float_eq_int x n
  float_equals x (bool b) = float_eq_int x (int_of_bool b)
  float_equals x (float y) = float_eq x y
  float_equals x other = false

  unfoldable mutual
    unfolding int_equals float_equals codes_eq

    -- `v == w`
    pub equals : Json Float → Json Float → Bool
    equals (bool b) w = int_equals (int_of_bool b) w
    equals (int n) w = int_equals n w
    equals (float x) w = float_equals x w
    equals null null = true
    equals (str s) (str t) = str_eq s t
    equals (surrogates cs) (surrogates ds) = codes_eq cs ds
    equals (arr vs) (arr ws) = items_equal vs ws
    equals (obj d) (obj e) = length (keys d) == length (keys e) && fields_found d e
    equals v w = false

    pub items_equal : Items Float → Items Float → Bool
    items_equal nil nil = true
    items_equal (cons v vs) (cons w ws) = equals v w && items_equal vs ws
    items_equal vs ws = false

    -- The second object has each key of the first, with an equal value.
    pub fields_found : Fields Float → Fields Float → Bool
    fields_found end e = true
    fields_found (field k v d) e =
        (elim (get k e) [ none ↦ false | some w ↦ equals v w ]) && fields_found d e
