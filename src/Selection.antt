-- ===== src/Selection.antt =====
-- apps/selection_gate/report_validation.py and apps/selection_gate/task_selection.py: the requests of the
-- selection gate, whose numbers with a fraction are exact decimals.
pub mod Reports
pub mod Gate
pub mod Verified
pub mod Decisions
use metering.Prelude.{
  ℕ, zero, suc, ◌+◌, ◌*◌, ◌-◌, ◌/◌, Bool, true, false, ◌&&◌, ◌||◌, not, Option, none, some, List,
  [], ◌∷◌, map, length, any, all, leb, ltb, if◌then◌else◌, ◌==◌, filter, ◌++◌, String, str_eq,
  any_char, is_hex, subset, has_duplicate, count, contains, sort_by, text_lt, get_elem?, take, sum,
}
use metering.Prelude.Int.{ℤ, pos, negsuc}
use metering.Runtime.{
  recursion_error, Result, ok, raise, ◌>>=◌, ◌>>◌, require, refuse, traverse, or_raise,
  on_protocol_error, on_key_error, on_probability_error, Failure, protocol_error, population_error,
  request_error, driver_error, controller_error, selection_error, value_error, key_error,
  type_error, index_error, Json, null, bool, int, float, str, surrogates, arr, obj, items, array,
  Platform, Decimals, Fields, Items, get, has_key, without, keys, end, field, nil, cons,
}
use metering.Runtime.Dict.{Dict, find, put, member}
use metering.AgentProtocol
use metering.AgentProtocol.{
  require_object, require_nonempty_array, item, is_text, get_is_text, require_exact_keys,
  require_utf8, require_nonempty_string, require_sha256, require_bool, require_timeout,
  require_schema_version, decode_command, canonical_digest, canonical_json, require_same_json,
  normalize_json_value, finite_number, probability,
}
use metering.AgentProtocol.Artifact.{
  Artifact, ArtifactFile, Candidate, default, git, skill, decode_candidate, candidate_record,
  candidate_json, normalized_path, find_file, file_before, decode_files, file_json,
}

-- `passed - other`, and `difference >= minimum`
unfoldable pub difference : ℕ → ℕ → ℤ
difference a b = if leb b a then pos (a - b) else negsuc (b - a - 1)

unfoldable pub at_least : ℤ → ℕ → Bool
at_least (pos n) m = leb m n
at_least (negsuc n) m = false

unfoldable pub eq_int : ℤ → ℤ → Bool
eq_int (pos m) (pos n) = m == n
eq_int (negsuc m) (negsuc n) = m == n
eq_int m n = false

-- `value is None`
unfoldable pub is_null : {F : Type 0} → Json F → Bool
is_null null = true
is_null other = false

module _ (P : Platform) (D : Decimals P.Float) where
  open P use {Float, literal, is_finite, float_eq, of_int, is_close_relative}
  open D use {Decimal, decimal_eq, decimal_lt, decimal_gt, to_float}

  -- An exact number of a report: `Decimal(value)` of an integer, or the decimal itself.
  pub data Exact : Type 0 where
    whole : ℤ → Exact
    fraction : Decimal → Exact

  -- `exact == n`, `exact < 0` and `exact > 1`
  unfoldable pub exact_is : Exact → ℕ → Bool
  exact_is (whole m) n = eq_int m (pos n)
  exact_is (fraction d) n = decimal_eq d (pos n)

  unfoldable pub is_negative : Exact → Bool
  is_negative (whole (pos n)) = false
  is_negative (whole (negsuc n)) = true
  is_negative (fraction d) = decimal_lt d (pos 0)

  unfoldable pub exceeds_one : Exact → Bool
  exceeds_one (whole (pos n)) = ltb 1 n
  exceeds_one (whole (negsuc n)) = false
  exceeds_one (fraction d) = decimal_gt d (pos 1)

  -- `except (OverflowError, ValueError) as exc: raise RequestError(...)` around `float(exact)`
  abbrev or_selection_error : Result Float → Result Float
  or_selection_error (ok x) = ok x
  or_selection_error (raise e) = raise selection_error

  unfoldable pub finite_exact : Exact → Result Float → Result (Exact × Float)
  finite_exact exact float_of = do
    converted ← or_selection_error float_of
    require (is_finite converted) selection_error
    ok (exact, converted)

  unfoldable pub number_as_float : Json Decimal → Result (Exact × Float)
  unfolding finite_exact
  number_as_float (int n) = finite_exact (whole n) (of_int n)
  number_as_float (float d) = finite_exact (fraction d) (to_float d)
  number_as_float other = raise selection_error

  -- `0.0 if converted == 0.0 else converted`
  abbrev pub positive_zero : Float → Float
  positive_zero converted = if float_eq converted (literal "0.0") then literal "0.0" else converted

  unfoldable pub exact_probability : Json Decimal → Result Float
  exact_probability value = do
    number ← number_as_float value
    let (exact, converted) = number
    refuse (is_negative exact || exceeds_one exact) selection_error
    refuse
        (float_eq converted (literal "0.0") && not (exact_is exact 0)
          || float_eq converted (literal "1.0") && not (exact_is exact 1))
        selection_error
    ok (positive_zero converted)

  unfoldable pub nonnegative_number : Json Decimal → Result Float
  nonnegative_number value = do
    number ← number_as_float value
    let (exact, converted) = number
    refuse (is_negative exact) selection_error
    refuse (float_eq converted (literal "0.0") && not (exact_is exact 0)) selection_error
    ok (positive_zero converted)

  unfoldable pub same_number : Float → Float → Bool
  same_number left right = is_close_relative left right (literal "1e-12")

  -- `normalize_json_value` of a document with decimals
  normalize_decimal : Decimal → Result Float
  normalize_decimal d = do
    converted ← elim (to_float d) [ ok x ↦ ok x | raise e ↦ raise protocol_error ]
    require (is_finite converted) protocol_error
    ok (positive_zero converted)

  unfoldable mutual
    unfolding normalize_decimal

    -- `normalize_decimals` with room for `n` nested calls
    normalize_decimal_value : ℕ → Json Decimal → Result (Json Float)
    normalize_decimal_value zero v = raise recursion_error
    normalize_decimal_value (suc n) null = ok null
    normalize_decimal_value (suc n) (bool b) = ok (bool b)
    normalize_decimal_value (suc n) (int m) = ok (int m)
    normalize_decimal_value (suc n) (float x) = do y ← normalize_decimal x; ok (float y)
    normalize_decimal_value (suc n) (str s) = ok (str s)
    normalize_decimal_value (suc n) (surrogates cs) = raise protocol_error
    normalize_decimal_value (suc n) (arr vs) = do ws ← normalize_decimal_items n vs; ok (arr ws)
    normalize_decimal_value (suc n) (obj d) = do e ← normalize_decimal_fields n d; ok (obj e)

    normalize_decimal_items : ℕ → Items Decimal → Result (Items Float)
    normalize_decimal_items n nil = ok nil
    normalize_decimal_items n (cons v vs) = do
      w ← normalize_decimal_value n v
      ws ← normalize_decimal_items n vs
      ok (cons w ws)

    normalize_decimal_fields : ℕ → Fields Decimal → Result (Fields Float)
    normalize_decimal_fields n end = ok end
    normalize_decimal_fields n (field k v d) = do
      w ← normalize_decimal_value n v
      e ← normalize_decimal_fields n d
      ok (field k w e)

  unfoldable pub normalize_decimals : Json Decimal → Result (Json Float)
  unfolding normalize_decimal_value
  normalize_decimals value = normalize_decimal_value P.recursion_room value

  -- `value == n` for a JSON value and a count: Python compares booleans and decimals with integers by value.
  unfoldable pub is_count : Json Decimal → ℕ → Bool
  is_count (int m) n = eq_int m (pos n)
  is_count (bool b) n = n == (if b then 1 else 0)
  is_count (float d) n = decimal_eq d (pos n)
  is_count other n = false

  -- `d.get(k) == n`
  unfoldable pub get_is_count : String → Fields Decimal → ℕ → Bool
  get_is_count k d n = elim (get k d) [ none ↦ false | some v ↦ is_count v n ]
