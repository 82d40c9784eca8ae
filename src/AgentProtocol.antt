-- ===== src/AgentProtocol.antt =====
-- apps/agent_protocol.py and the canonical JSON of apps/_support/wire.py: the checks on document fields,
-- and JSON normalization. A check's `location` only goes into messages, and is left out.
pub mod Artifact
pub mod Changes
pub mod Evaluations
use metering.Prelude.{
  ℕ, zero, suc, ◌+◌, ◌*◌, ◌-◌, Bool, true, false, ◌&&◌, ◌||◌, not, Option, none, some, List, [],
  ◌∷◌, map, length, any, leb, ltb, if◌then◌else◌, ◌==◌, filter, ◌++◌, String, str_eq, any_char,
  is_hex, subset, count,
}
use metering.Prelude.Int.{ℤ, pos, negsuc}
use metering.Runtime.{
  recursion_error, Result, ok, raise, ◌>>=◌, ◌>>◌, require, refuse, traverse, or_raise, Failure,
  protocol_error, key_error, Json, null, bool, int, float, str, surrogates, arr, obj, items, array,
  Platform, Fields, Items, get, keys, end, field, nil, cons,
}

module _ {F : Type 0} where
  -- `if type(value) is not dict: raise`
  unfoldable pub require_object : Json F → Result (Fields F)
  require_object (obj d) = ok d
  require_object other = raise protocol_error

  -- `if type(value) is not list or not value: raise`
  unfoldable pub require_nonempty_array : Json F → Result (List (Json F))
  require_nonempty_array (arr (cons v vs)) = ok (v ∷ items vs)
  require_nonempty_array other = raise protocol_error

  -- `d[k]`
  unfoldable pub item : String → Fields F → Result (Json F)
  item k d = or_raise key_error (get k d)

  -- `v == s` for a text `s`
  unfoldable pub is_text : Json F → String → Bool
  is_text (str t) s = str_eq t s
  is_text other s = false

  -- `d.get(k) == s` for a text `s`
  unfoldable pub get_is_text : String → Fields F → String → Bool
  unfolding is_text
  get_is_text k d s = elim (get k d) [ none ↦ false | some v ↦ is_text v s ]

  unfoldable pub require_exact_keys : Fields F → List String → Result (Unit {0})
  require_exact_keys d expected =
      require (subset expected (keys d) && subset (keys d) expected) protocol_error

  -- The text that `_require_utf8` encodes.
  unfoldable pub require_utf8 : Json F → Result String
  require_utf8 (str s) = ok s
  require_utf8 other = raise protocol_error

  unfoldable pub require_nonempty_string : Json F → Result String
  require_nonempty_string (str s) = do
    refuse (str_eq s "") protocol_error
    refuse (any_char (λ c. c == 0) s) protocol_error
    ok s
  require_nonempty_string other = raise protocol_error

  unfoldable pub require_sha256 : Json F → Result String
  unfolding require_nonempty_string
  require_sha256 value = do
    identifier ← require_nonempty_string value
    refuse (not (count identifier == 64) || any_char (λ c. not (is_hex c)) identifier)
        protocol_error
    ok identifier

  unfoldable pub require_bool : Json F → Result Bool
  require_bool (bool b) = ok b
  require_bool other = raise protocol_error

  unfoldable pub require_timeout : Json F → Result ℕ
  require_timeout (int (pos n)) = do require (leb 1 n && leb n 3600) protocol_error; ok n
  require_timeout other = raise protocol_error

  unfoldable pub require_schema_version : Json F → Result (Unit {0})
  require_schema_version (int (pos n)) = require (n == 2) protocol_error
  require_schema_version other = raise protocol_error

  unfoldable pub decode_command : Json F → Result (List String)
  unfolding require_nonempty_array require_nonempty_string
  decode_command value = do
    command ← require_nonempty_array value
    traverse require_nonempty_string command

module _ (P : Platform) where
  open P use {Float, literal, is_finite, float_eq, float_le, of_int, dumps, sha256, recursion_room}

  -- `canonical_json` and `canonical_digest` of `_support/wire.py`
  unfoldable pub canonical_json : Json Float → Result String
  canonical_json value = dumps value

  unfoldable pub canonical_digest : Json Float → Result String
  unfolding canonical_json
  canonical_digest value = do source ← canonical_json value; ok (sha256 source)

  -- `if canonical_json(a) != canonical_json(b): raise e`
  unfoldable pub require_same_json : Json Float → Json Float → Failure → Result (Unit {0})
  unfolding canonical_json
  require_same_json a b e = do
    left ← canonical_json a
    right ← canonical_json b
    require (str_eq left right) e

  pub normalize_float : Float → Result Float
  normalize_float x = do
    require (is_finite x) protocol_error
    ok (if float_eq x (literal "0.0") then literal "0.0" else x)

  -- `except (OverflowError, ValueError) as exc: raise ProtocolError(...)` around `float(value)`
  unfoldable pub finite_number : Json Float → Result Float
  unfolding normalize_float
  finite_number (int n) = elim (of_int n) [
    | ok x ↦ normalize_float x
    | raise e ↦ raise protocol_error
  ]
  finite_number (float x) = normalize_float x
  finite_number other = raise protocol_error

  unfoldable pub probability : Json Float → Result Float
  unfolding finite_number
  probability value = do
    converted ← finite_number value
    require (float_le (literal "0.0") converted && float_le converted (literal "1.0"))
        protocol_error
    ok converted

  unfoldable mutual
    unfolding normalize_float

    -- `normalize_json_value` with room for `n` nested calls
    pub normalize_value : ℕ → Json Float → Result (Json Float)
    normalize_value zero v = raise recursion_error
    normalize_value (suc n) null = ok null
    normalize_value (suc n) (bool b) = ok (bool b)
    normalize_value (suc n) (int m) = ok (int m)
    normalize_value (suc n) (float x) = do y ← normalize_float x; ok (float y)
    normalize_value (suc n) (str s) = ok (str s)
    normalize_value (suc n) (surrogates cs) = raise protocol_error
    normalize_value (suc n) (arr vs) = do ws ← normalize_items n vs; ok (arr ws)
    normalize_value (suc n) (obj d) = do e ← normalize_fields n d; ok (obj e)

    pub normalize_items : ℕ → Items Float → Result (Items Float)
    normalize_items n nil = ok nil
    normalize_items n (cons v vs) = do
      w ← normalize_value n v
      ws ← normalize_items n vs
      ok (cons w ws)

    pub normalize_fields : ℕ → Fields Float → Result (Fields Float)
    normalize_fields n end = ok end
    normalize_fields n (field k v d) = do
      w ← normalize_value n v
      e ← normalize_fields n d
      ok (field k w e)

  unfoldable pub normalize_json_value : Json Float → Result (Json Float)
  unfolding normalize_value
  normalize_json_value value = normalize_value recursion_room value
