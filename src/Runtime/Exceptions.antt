-- ===== src/Runtime/Exceptions.antt =====
-- Exceptions as values. A message's text is not modelled, its class is.
use metering.Prelude.{
  if◌then◌else◌, ◌≡◌, refl, Bool, true, false, Option, none, some, List, [], ◌∷◌,
}

-- The exception classes of the modelled code, and the built-in ones that it can let through.
pub data Failure : Type 0 where
  -- apps/agent_protocol.py: ProtocolError
  protocol_error : Failure
  -- apps/population/population_protocol.py: RequestError, PopulationError
  request_error population_error : Failure
  -- apps/population_driver/population_driver_protocol.py: PopulationDriverError
  driver_error : Failure
  -- apps/selection_gate/report_validation.py: RequestError
  selection_error : Failure
  -- apps/forecast_assay/agent_assay.py: RequestError
  assay_error : Failure
  -- apps/controller/contract.py: ControllerReceiptError
  controller_error : Failure
  -- src/metering/information.py: ProbabilityError
  probability_error : Failure
  value_error type_error key_error index_error arithmetic_error statistics_error : Failure
  -- RecursionError, which derives from RuntimeError
  recursion_error : Failure

pub data Result {ℓ} (A : Type ℓ) : Type ℓ where
  ok : A → Result A
  raise : Failure → Result A

infixl 5 ◌>>=◌ ◌>>◌
-- A call whose value the rest of the body uses; an exception leaves the body.
abbrev pub ◌>>=◌ {ℓ κ} :
    {A : Type ℓ} {B : Type κ} (call : Result A) (rest : A → Result B) → Result B
raise failure >>= rest = raise failure
ok value >>= rest = rest value

-- A check before the rest of the body.
abbrev pub ◌>>◌ {ℓ} : {B : Type ℓ} → Result (Unit {0}) → Result B → Result B
check >> rest = check >>= (λ passed. rest)

-- `if not b: raise e`
abbrev pub require : Bool → Failure → Result (Unit {0})
require true e = ok tt
require false e = raise e

-- `if b: raise e`
abbrev pub refuse : Bool → Failure → Result (Unit {0})
refuse true e = raise e
refuse false e = ok tt

abbrev pub replace_protocol : Failure → Failure → Failure
replace_protocol e protocol_error = e
replace_protocol e other = other

abbrev pub replace_probability : Failure → Failure → Failure
replace_probability e probability_error = e
replace_probability e other = other

abbrev pub replace_key : Failure → Failure → Failure
replace_key e key_error = e
replace_key e other = other

-- The classes that derive from ValueError.
abbrev pub is_value_error : Failure → Bool
is_value_error protocol_error = true
is_value_error request_error = true
is_value_error selection_error = true
is_value_error assay_error = true
is_value_error probability_error = true
is_value_error value_error = true
is_value_error other = false

module _ {ℓ} {A : Type ℓ} where
  -- `except KeyError as exc: raise e from exc`
  abbrev pub on_key_error : Failure → Result A → Result A
  on_key_error e (ok a) = ok a
  on_key_error e (raise f) = raise (replace_key e f)

  -- `except ProtocolError as exc: raise e from exc`
  abbrev pub on_protocol_error : Failure → Result A → Result A
  on_protocol_error e (ok a) = ok a
  on_protocol_error e (raise f) = raise (replace_protocol e f)

  -- `except ProbabilityError as exc: raise e from exc`
  abbrev pub on_probability_error : Failure → Result A → Result A
  on_probability_error e (ok a) = ok a
  on_probability_error e (raise f) = raise (replace_probability e f)

  -- `except ValueError as exc: raise e from exc`
  abbrev pub on_value_error : Failure → Result A → Result A
  on_value_error e (ok a) = ok a
  on_value_error e (raise f) = if is_value_error f then raise e else raise f

  -- `d[k]` on a dict
  abbrev pub or_raise : Failure → Option A → Result A
  or_raise e none = raise e
  or_raise e (some a) = ok a

module _ {ℓ κ} {A : Type ℓ} {B : Type κ} where
  -- `[f(x) for x in xs]`, which stops at the first exception
  unfoldable pub traverse : (A → Result B) → List A → Result (List B)
  traverse f [] = ok []
  traverse f (x ∷ xs) = do y ← f x; ys ← traverse f xs; ok (y ∷ ys)

  -- A body that returns `result` made its first call return a value, from which the rest went on.
  pub >>=-eq-ok :
      (call : Result A) (rest : A → Result B) {result : B}
      → (call >>= rest) ≡ ok result
      → (value : A) × (call ≡ ok value) × (rest value ≡ ok result)
  >>=-eq-ok (raise failure) rest returned = cc
  >>=-eq-ok (ok value) rest returned = (value, refl, returned)

pub require-eq-ok : (b : Bool) (e : Failure) {u : Unit {0}} → require b e ≡ ok u → b ≡ true
require-eq-ok true e h = refl
require-eq-ok false e h = cc

pub refuse-eq-ok : (b : Bool) (e : Failure) {u : Unit {0}} → refuse b e ≡ ok u → b ≡ false
refuse-eq-ok true e h = cc
refuse-eq-ok false e h = refl

module _ {ℓ} {A : Type ℓ} where
  pub or_raise-eq-ok : (e : Failure) (o : Option A) {a : A} → or_raise e o ≡ ok a → o ≡ some a
  or_raise-eq-ok e none h = cc
  or_raise-eq-ok e (some b) h = cc

  pub on_protocol_error-eq-ok :
      (e : Failure) (m : Result A) {a : A} → on_protocol_error e m ≡ ok a → m ≡ ok a
  on_protocol_error-eq-ok e (ok b) h = h
  on_protocol_error-eq-ok e (raise f) h = cc

-- The same inversion with the rest of the proof as a function, so that what the step returned is a variable
-- there.
pub after {ℓ κ λ'} :
    {A : Type ℓ} {B : Type κ} {C : Type λ'} (m : Result A) (f : A → Result B) {b : B}
    → (m >>= f) ≡ ok b
    → ((a : A) → m ≡ ok a → f a ≡ ok b → C)
    → C
after (ok a) f h rest = rest a refl h
after (raise e) f h rest = cc

pub ok-injective {ℓ} : {A : Type ℓ} {a b : A} → ◌≡◌ {A = Result A} (ok a) (ok b) → a ≡ b
ok-injective h = cc
