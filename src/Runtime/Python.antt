-- ===== src/Runtime/Python.antt =====
-- The Python runtime as a parameter: binary64 arithmetic with `math` and `statistics`, `json.dumps` of
-- `_support/wire.py`, and SHA-256. An operation that can raise returns a `Result`.
use metering.Prelude.{ℕ, String, Bool, List}
use metering.Prelude.Int.{ℤ}
use metering.Runtime.Exceptions.{Result}
use metering.Runtime.Documents.{Json}

pub record Platform : Type 1 where
  -- `float`
  pub Float : Type 0
  -- the value of a float literal of the source, such as `1e-12`
  pub literal : String → Float
  -- `math.inf`
  pub inf : Float
  pub is_finite : Float → Bool
  pub is_inf : Float → Bool
  -- `x == n` for an integer `n`, compared exactly
  pub float_eq_int : Float → ℤ → Bool
  -- `==`, `<=` and `<`
  pub float_eq : Float → Float → Bool
  pub float_le : Float → Float → Bool
  pub float_lt : Float → Float → Bool
  pub neg : Float → Float
  pub abs : Float → Float
  pub add : Float → Float → Float
  pub sub : Float → Float → Float
  pub mul : Float → Float → Float
  pub div : Float → Float → Result Float
  -- `float(n)`, which raises OverflowError
  pub of_int : ℤ → Result Float
  -- `m / n` of two integers
  pub int_div : ℕ → ℕ → Result Float
  -- `math.log`, `math.fsum`, `math.isclose(a, b, rel_tol=0.0, abs_tol=t)`, `statistics.stdev`
  pub log : Float → Result Float
  pub fsum : List Float → Result Float
  pub is_close : Float → Float → Float → Bool
  -- `math.isclose(a, b, rel_tol=t, abs_tol=t)`
  pub is_close_relative : Float → Float → Float → Bool
  pub stdev : List Float → Result Float
  -- `json.dumps(v, allow_nan=False, separators=(",", ":"), sort_keys=True)`
  pub dumps : Json Float → Result String
  -- the nested calls of one recursive function for which the stack has room; a further one raises
  -- RecursionError
  pub recursion_room : ℕ
  -- `hashlib.sha256(s.encode("ascii")).hexdigest()`
  pub sha256 : String → String

-- `decimal.Decimal`, as `json.loads(source, parse_float=Decimal)` makes it of a number with a fraction or an
-- exponent. `F` is the type of floats.
pub record Decimals (F : Type 0) : Type 1 where
  pub Decimal : Type 0
  -- `d == n`, `d < n` and `d > n` for an integer `n`, compared exactly
  pub decimal_eq : Decimal → ℤ → Bool
  pub decimal_lt : Decimal → ℤ → Bool
  pub decimal_gt : Decimal → ℤ → Bool
  -- `float(d)`, which raises OverflowError or ValueError
  pub to_float : Decimal → Result F
  -- `json.loads(dumps(v), parse_float=Decimal)`
  pub reparse : Json F → Result (Json Decimal)
