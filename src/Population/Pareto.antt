-- ===== src/Population/Pareto.antt =====
-- apps/population/population_policy.py: Pareto dominance and the order in which an archive keeps.
pub mod Order
use metering.Prelude.{
  ℕ, zero, suc, ◌+◌, ◌*◌, ◌-◌, ◌/◌, Bool, true, false, ◌&&◌, ◌||◌, not, Option, none, some, List,
  [], ◌∷◌, map, length, any, all, leb, ltb, if◌then◌else◌, ◌==◌, filter, ◌++◌, String, str_eq,
  any_char, is_hex, subset, count, contains, sort_by, text_lt, get_elem?, take, sum,
}
use metering.Prelude.Int.{ℤ, pos, negsuc}
use metering.Runtime.{
  Result, ok, raise, ◌>>=◌, ◌>>◌, require, refuse, traverse, or_raise, on_protocol_error,
  on_key_error, on_probability_error, Failure, protocol_error, population_error, request_error,
  value_error, key_error, type_error, index_error, Json, null, bool, int, float, str, surrogates,
  arr, obj, items, array, Platform, Fields, Items, get, has_key, without, keys, end, field, nil,
  cons,
}
use metering.Runtime.Dict.{Dict, find, put, member}
use metering.AgentProtocol
use metering.AgentProtocol.{
  require_object, require_nonempty_array, item, is_text, get_is_text, require_exact_keys,
  require_utf8, require_nonempty_string, require_sha256, require_bool, canonical_digest,
  canonical_json, require_same_json, normalize_json_value, finite_number, probability,
}
use metering.AgentProtocol.Artifact.{
  Artifact, ArtifactFile, Candidate, default, git, skill, decode_candidate, candidate_record,
  candidate_json, normalized_path, find_file, file_before, decode_files, file_json,
}
use metering.Population.Types.{Resources, Bits, Metric}

-- One entry of `comparisons`, with what the two loops ask of it.
pub record Comparison : Type 0 where
  pub no_worse : Bool
  pub better : Bool

unfoldable pub all_no_worse : List Comparison → Bool
all_no_worse [] = true
all_no_worse (c ∷ cs) = c.no_worse && all_no_worse cs

unfoldable pub any_better : List Comparison → Bool
any_better [] = false
any_better (c ∷ cs) = c.better || any_better cs

-- The comparison of two integers to be made small.
abbrev pub less : ℕ → ℕ → Comparison
less a b = record { no_worse = leb a b; better = ltb a b }

-- The comparison of two fractions to be made large, by cross multiplication.
abbrev pub greater_rate : ℕ → ℕ → ℕ → ℕ → Comparison
greater_rate passed cases passed' cases' = less (passed' * cases) (passed * cases')

unfoldable pub cost_comparisons : Resources → Resources → List Comparison
cost_comparisons a b =
    less a.actions b.actions
    ∷ less a.energy_millijoules b.energy_millijoules
    ∷ less a.gpu_milliseconds b.gpu_milliseconds
    ∷ less a.memory_bytes b.memory_bytes
    ∷ less a.storage_bytes b.storage_bytes
    ∷ less a.tokens b.tokens
    ∷ less a.wall_milliseconds b.wall_milliseconds
    ∷ []

-- An entry of a rank: whether two entries are equal, and whether the first is less.
pub record Entry : Type 0 where
  pub equal : Bool
  pub before : Bool

-- `<` on tuples: the first entries that differ decide.
unfoldable pub tuple_before : List Entry → Bool
tuple_before [] = false
tuple_before (e ∷ es) = if e.equal then tuple_before es else e.before

abbrev number_entry : ℕ → ℕ → Entry
number_entry a b = record { equal = a == b; before = ltb a b }

cost_entries : Resources → Resources → List Entry → List Entry
cost_entries a b rest =
    number_entry a.actions b.actions
    ∷ number_entry a.energy_millijoules b.energy_millijoules
    ∷ number_entry a.gpu_milliseconds b.gpu_milliseconds
    ∷ number_entry a.memory_bytes b.memory_bytes
    ∷ number_entry a.storage_bytes b.storage_bytes
    ∷ number_entry a.tokens b.tokens
    ∷ number_entry a.wall_milliseconds b.wall_milliseconds
    ∷ rest

module _ (P : Platform) where
  open P use {Float, literal, inf, float_eq, float_le, float_lt, neg}

  -- `float(x)`; of no value Python raises TypeError, which no caller here can meet: the archive has
  -- refused viable candidates without information before it compares them.
  abbrev pub value_or_zero : Option Float → Float
  value_or_zero none = literal "0.0"
  value_or_zero (some x) = x

  -- `_internal_number`
  unfoldable pub internal_number : Bits Float → Float
  internal_number bits = if bits.infinite then inf else value_or_zero bits.value

  abbrev pub greater_float : Float → Float → Comparison
  greater_float a b = record { no_worse = float_le b a; better = float_lt b a }

  abbrev pub less_float : Float → Float → Comparison
  less_float a b = record { no_worse = float_le a b; better = float_lt a b }

  information_comparison : Bool → Metric Float → Metric Float → List Comparison
  information_comparison false challenger incumbent = []
  information_comparison true challenger incumbent =
      greater_float (value_or_zero challenger.information_value_bits)
        (value_or_zero incumbent.information_value_bits)
      ∷ []

  unfoldable pub comparisons : Metric Float → Metric Float → Bool → List Comparison
  unfolding information_comparison cost_comparisons
  comparisons challenger incumbent include_information =
      greater_rate challenger.passed_count challenger.case_count incumbent.passed_count
        incumbent.case_count
      ∷ greater_float challenger.reliability incumbent.reliability
      ∷ greater_float (internal_number challenger.novelty_bits)
          (internal_number incumbent.novelty_bits)
      ∷ less_float (internal_number challenger.mean_target_surprisal_bits)
          (internal_number incumbent.mean_target_surprisal_bits)
      ∷ (information_comparison include_information challenger incumbent
          ++ cost_comparisons challenger.cost incumbent.cost)

  -- `_dominates`
  unfoldable pub dominates : Metric Float → Metric Float → Bool → Bool
  unfolding comparisons all_no_worse any_better
  dominates challenger incumbent include_information =
      all_no_worse (comparisons challenger incumbent include_information)
      && any_better (comparisons challenger incumbent include_information)

  abbrev float_entry : Float → Float → Entry
  float_entry a b = record { equal = float_eq a b; before = float_lt a b }

  information_rank : Bool → Metric Float → Float
  information_rank false metric = literal "0.0"
  information_rank true metric = elim metric.information_value_bits [
    | none ↦ literal "0.0"
    | some x ↦ neg x
  ]

  -- `_archive_rank(a) < _archive_rank(b)`
  unfoldable pub rank_before : Bool → Metric Float → Metric Float → Bool
  unfolding tuple_before cost_entries information_rank internal_number
  rank_before include_information a b = tuple_before (
      float_entry (neg (internal_number a.novelty_bits)) (neg (internal_number b.novelty_bits))
      ∷ number_entry (b.passed_count * a.case_count) (a.passed_count * b.case_count)
      ∷ float_entry (neg a.reliability) (neg b.reliability)
      ∷ float_entry (information_rank include_information a)
          (information_rank include_information b)
      ∷ float_entry (internal_number a.mean_target_surprisal_bits)
          (internal_number b.mean_target_surprisal_bits)
      ∷ cost_entries a.cost b.cost (
          record {
            equal = str_eq a.candidate_id b.candidate_id;
            before = text_lt a.candidate_id b.candidate_id;
          }
          ∷ []))
