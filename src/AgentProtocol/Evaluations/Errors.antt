-- ===== src/AgentProtocol/Evaluations/Errors.antt =====
-- apps/agent_protocol.py: the decoders raise ProtocolError and nothing else.
use metering.Prelude.{
  ℕ, zero, suc, ◌≤◌, All, subset-contains, ◌≡◌, refl, subst, inl, inr, arith, Bool-cases,
  subset-contains, Bool, true, false, ◌&&◌, ◌||◌, not, List, [], ◌∷◌, length, ◌==◌, String, str_eq,
  any_char, is_hex, subset, count, contains,
}
use metering.Prelude.Int.{pos, negsuc}
use metering.Runtime.{
  require-eq-ok, Result, ok, raise, ◌>>=◌, require, refuse, traverse, Failure, protocol_error, Json,
  null, bool, int, float, str, surrogates, arr, obj, items, Platform, Fields, Items, get, keys, end,
  field, nil, cons,
}
use metering.AgentProtocol.{
  require_object, item, require_exact_keys, require_nonempty_string, require_sha256, require_bool,
  require_schema_version, normalize_json_value,
}
use metering.AgentProtocol.{normalize_float, normalize_value, normalize_items, normalize_fields}
use metering.AgentProtocol.Evaluations.{require_pair}
use metering.AgentProtocol.Evaluations.Nesting.{
  nesting, nesting_items, nesting_fields, nesting-cons, nesting_items-cons, nesting-field,
  nesting_fields-field, nesting-arr, nesting-obj, nesting_pos,
}

-- The call returns, or raises `f`.
abbrev pub Only {ℓ} : {A : Type ℓ} → Failure → Result A → Type 0
Only f (ok a) = Unit
Only f (raise e) = e ≡ f

module _ {ℓ κ} {A : Type ℓ} {B : Type κ} (f : Failure) where
  -- Each call of a body raises only `f` where those before it returned.
  pub Only-bind :
      (m : Result A) (rest : A → Result B)
      → Only f m
      → ((a : A) → m ≡ ok a → Only f (rest a))
      → Only f (m >>= rest)
  Only-bind (ok a) rest o k = k a refl
  Only-bind (raise e) rest o k = o

pub Only-require : (f : Failure) (b : Bool) → Only f (require b f)
Only-require f true = tt
Only-require f false = refl

pub Only-refuse : (f : Failure) (b : Bool) → Only f (refuse b f)
Only-refuse f true = refl
Only-refuse f false = tt

pub Only-raise {ℓ} :
    {A : Type ℓ} (f : Failure) (m : Result A) → Only f m → (e : Failure) → m ≡ raise e → e ≡ f
Only-raise f (ok a) o e h = cc
Only-raise f (raise g) o e h = subst (λ m. Only f m) h o

pub Only-traverse :
    {A B : Type 0} (f : Failure) (call : A → Result B) (xs : List A)
    → All (λ a. Only f (call a)) xs
    → Only f (traverse call xs)
unfolding traverse
Only-traverse f call [] o = tt
Only-traverse f call (x ∷ xs) o =
    Only-bind f (call x) _ o.0
      λ y e. Only-bind f (traverse call xs) _ (Only-traverse f call xs o.1) λ ys r. tt

module _ {F : Type 0} where
  pub require_object-Only : (value : Json F) → Only protocol_error (require_object value)
  unfolding require_object
  require_object-Only (obj d) = tt
  require_object-Only null = refl
  require_object-Only (bool b) = refl
  require_object-Only (int n) = refl
  require_object-Only (float x) = refl
  require_object-Only (str s) = refl
  require_object-Only (surrogates cs) = refl
  require_object-Only (arr vs) = refl

  pub require_nonempty_string-Only :
      (value : Json F) → Only protocol_error (require_nonempty_string value)
  unfolding require_nonempty_string
  require_nonempty_string-Only (str s) =
      Only-bind protocol_error (refuse (str_eq s "") protocol_error) _
        (Only-refuse protocol_error (str_eq s ""))
        λ u e.
          Only-bind protocol_error (refuse (any_char (λ c. c == 0) s) protocol_error) _
            (Only-refuse protocol_error (any_char (λ c. c == 0) s)) λ w r. tt
  require_nonempty_string-Only null = refl
  require_nonempty_string-Only (bool b) = refl
  require_nonempty_string-Only (int n) = refl
  require_nonempty_string-Only (float x) = refl
  require_nonempty_string-Only (surrogates cs) = refl
  require_nonempty_string-Only (arr vs) = refl
  require_nonempty_string-Only (obj d) = refl

  pub require_sha256-Only : (value : Json F) → Only protocol_error (require_sha256 value)
  unfolding require_sha256
  require_sha256-Only value =
      Only-bind protocol_error (require_nonempty_string value) _
        (require_nonempty_string-Only value)
        λ s e.
          let bad = not (count s == 64) || any_char (λ c. not (is_hex c)) s in
          Only-bind protocol_error (refuse bad protocol_error) _ (Only-refuse protocol_error bad)
            λ u r. tt

  pub require_bool-Only : (value : Json F) → Only protocol_error (require_bool value)
  unfolding require_bool
  require_bool-Only (bool b) = tt
  require_bool-Only null = refl
  require_bool-Only (int n) = refl
  require_bool-Only (float x) = refl
  require_bool-Only (str s) = refl
  require_bool-Only (surrogates cs) = refl
  require_bool-Only (arr vs) = refl
  require_bool-Only (obj d) = refl

  pub require_pair-Only : (value : Json F) → Only protocol_error (require_pair value)
  unfolding require_pair
  require_pair-Only (arr vs) =
      Only-bind protocol_error (require (length (items vs) == 2) protocol_error) _
        (Only-require protocol_error (length (items vs) == 2)) λ u e. tt
  require_pair-Only null = refl
  require_pair-Only (bool b) = refl
  require_pair-Only (int n) = refl
  require_pair-Only (float x) = refl
  require_pair-Only (str s) = refl
  require_pair-Only (surrogates cs) = refl
  require_pair-Only (obj d) = refl

  pub require_schema_version-Only :
      (value : Json F) → Only protocol_error (require_schema_version value)
  unfolding require_schema_version
  require_schema_version-Only (int (pos n)) = Only-require protocol_error (n == 2)
  require_schema_version-Only (int (negsuc n)) = refl
  require_schema_version-Only null = refl
  require_schema_version-Only (bool b) = refl
  require_schema_version-Only (float x) = refl
  require_schema_version-Only (str s) = refl
  require_schema_version-Only (surrogates cs) = refl
  require_schema_version-Only (arr vs) = refl
  require_schema_version-Only (obj d) = refl

  -- A member that the object has is found, so reading it raises nothing.
  pub item-found :
      (k : String) (d : Fields F) → contains k (keys d) ≡ true → Only protocol_error (item k d)
  unfolding item get keys contains
  item-found k end h = cc
  item-found k (field j v d) h = elim (Bool-cases (str_eq j k)) [
    | inl same ↦ rw same tt
    | inr other ↦ rw other (item-found k d (ground (arith, h, other)))
  ]

  pub member-Only :
      {A : Type 0} (k : String) (d : Fields F) (expected : List String) (check : Json F → Result A)
      {u : Unit {0}}
      → require_exact_keys d expected ≡ ok u
      → contains k expected ≡ true
      → ((value : Json F) → item k d ≡ ok value → Only protocol_error (check value))
      → Only protocol_error (item k d >>= check)
  unfolding require_exact_keys
  member-Only k d expected check h listed o =
      let exact = subset expected (keys d) && subset (keys d) expected in
      let both = require-eq-ok exact protocol_error h in
      Only-bind protocol_error (item k d) check
        (item-found k d (subset-contains k expected (keys d) (ground (arith, both)) listed))
        λ value r. o value r

  pub require_exact_keys-Only :
      (d : Fields F) (expected : List String) → Only protocol_error (require_exact_keys d expected)
  unfolding require_exact_keys
  require_exact_keys-Only d expected =
      Only-require protocol_error (subset expected (keys d) && subset (keys d) expected)

module _ (P : Platform) where
  open P use {Float, literal, is_finite, float_eq, float_le, float_lt, of_int, recursion_room}

  pub normalize_float-Only : (x : Float) → Only protocol_error (normalize_float P x)
  unfolding normalize_float
  normalize_float-Only x =
      Only-bind protocol_error (require (is_finite x) protocol_error) _
        (Only-require protocol_error (is_finite x)) λ u e. tt

  mutual
    unfolding normalize_value

    normalize_value-Only :
        (n : ℕ) (value : Json Float)
        → nesting value ≤ n
        → Only protocol_error (normalize_value P n value)
    normalize_value-Only zero v b = let deep = nesting_pos v in absurd (omega (arith, deep, b))
    normalize_value-Only (suc n) null b = tt
    normalize_value-Only (suc n) (bool x) b = tt
    normalize_value-Only (suc n) (int m) b = tt
    normalize_value-Only (suc n) (float x) b =
        Only-bind protocol_error (normalize_float P x) _ (normalize_float-Only x) λ y e. tt
    normalize_value-Only (suc n) (str s) b = tt
    normalize_value-Only (suc n) (surrogates cs) b = refl
    normalize_value-Only (suc n) (arr vs) b =
        Only-bind protocol_error (normalize_items P n vs) _
          (normalize_items-Only n vs (nesting-arr vs b)) λ ws e. tt
    normalize_value-Only (suc n) (obj d) b =
        Only-bind protocol_error (normalize_fields P n d) _
          (normalize_fields-Only n d (nesting-obj d b)) λ g e. tt

    normalize_items-Only :
        (n : ℕ) (vs : Items Float)
        → nesting_items vs ≤ n
        → Only protocol_error (normalize_items P n vs)
    normalize_items-Only n nil b = tt
    normalize_items-Only n (cons v vs) b =
        let first = nesting-cons v vs in
        let rest = nesting_items-cons v vs in
        Only-bind protocol_error (normalize_value P n v) _
          (normalize_value-Only n v (omega (arith, first, b)))
          λ w e.
            Only-bind protocol_error (normalize_items P n vs) _
              (normalize_items-Only n vs (omega (arith, rest, b))) λ ws r. tt

    normalize_fields-Only :
        (n : ℕ) (d : Fields Float)
        → nesting_fields d ≤ n
        → Only protocol_error (normalize_fields P n d)
    normalize_fields-Only n end b = tt
    normalize_fields-Only n (field k v d) b =
        let first = nesting-field k v d in
        let rest = nesting_fields-field k v d in
        Only-bind protocol_error (normalize_value P n v) _
          (normalize_value-Only n v (omega (arith, first, b)))
          λ w e.
            Only-bind protocol_error (normalize_fields P n d) _
              (normalize_fields-Only n d (omega (arith, rest, b))) λ g r. tt

  -- A document that is nested no deeper than the stack has room for raises no RecursionError.
  pub normalize_json_value-Only :
      (value : Json Float)
      → nesting value ≤ recursion_room
      → Only protocol_error (normalize_json_value P value)
  unfolding normalize_json_value
  normalize_json_value-Only value b = normalize_value-Only recursion_room value b
