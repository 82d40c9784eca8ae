-- ===== src/Tests/Samples.antt =====
-- A platform whose floats are natural numbers, on which the code runs, and documents for it.
use metering.Prelude.{
  none, some, str_eq, ℕ, Bool, ◌+◌, ◌*◌, ◌-◌, ◌/◌, true, false, [], ◌∷◌, ltb, leb, if◌then◌else◌,
  ◌==◌, String, sum,
}
use metering.Prelude.Int.{ℤ, pos, negsuc}
use metering.Runtime.{
  Result, ok, raise, value_error, Json, null, bool, int, float, str, arr, obj, array, Platform, end,
  field,
}
use metering.Population.Types.{Configuration, Resources, Metric, RunBody}

abbrev pub digest : String
digest = "00112233445566778899aabbccddeeff00112233445566778899aabbccddeeff"

abbrev pub other_digest : String
other_digest = "ff112233445566778899aabbccddeeff00112233445566778899aabbccddeeff"

abbrev number : String → ℕ
number s =
    if str_eq s "1.0"
    then 1
    else if str_eq s "2.0"
    then 2
    else if str_eq s "1000000.0"
    then 1000000
    else 0

abbrev quotient : ℕ → ℕ → Result ℕ
quotient a b = if b == 0 then raise value_error else ok (a / b)

abbrev of_integer : ℤ → Result ℕ
of_integer (pos n) = ok n
of_integer (negsuc n) = raise value_error

abbrev eq_integer : ℕ → ℤ → Bool
eq_integer a (pos n) = a == n
eq_integer a (negsuc n) = false

-- Every document has one text, and every text one digest.
abbrev pub toy : Platform
toy = record {
  Float = ℕ;
  literal = number;
  inf = 1000000;
  is_finite = λ x. ltb x 1000000;
  is_inf = λ x. x == 1000000;
  float_eq_int = eq_integer;
  float_eq = λ x y. x == y;
  float_le = leb;
  float_lt = ltb;
  neg = λ x. x;
  abs = λ x. x;
  add = λ x y. x + y;
  sub = λ x y. x - y;
  mul = λ x y. x * y;
  div = quotient;
  of_int = of_integer;
  int_div = quotient;
  log = λ x. ok (x - 1);
  fsum = λ xs. ok (sum xs);
  is_close = λ x y t. x == y;
  is_close_relative = λ x y t. x == y;
  stdev = λ xs. ok 0;
  dumps = λ v. ok "{}";
  recursion_room = 1000;
  sha256 = λ s. digest;
}

abbrev pub configuration : Configuration ℕ
configuration = record {
  archive_policy = record { capacity = 2; reliability_kappa = 1 };
  name = "search";
}

abbrev pub candidate_document : Json ℕ
candidate_document = obj (
    field "candidate"
      (obj (
        field "artifact" (obj (field "artifact_schema" (str "agent-default-v1") end))
          (field "candidate_id" (str digest) end)))
      (field "parents" (arr (array [])) (
        field "variation"
          (obj (field "choice" null (field "policy_id" null (field "type" (str "seed-v1") end))))
          end)))

abbrev resources_document : Json ℕ
resources_document = obj (
    field "actions" (int (pos 5)) (
      field "energy_millijoules" (int (pos 5)) (
        field "gpu_milliseconds" (int (pos 5)) (
          field "memory_bytes" (int (pos 5)) (
            field "storage_bytes" (int (pos 5))
              (field "tokens" (int (pos 5)) (field "wall_milliseconds" (int (pos 5)) end)))))))

-- The document of an experiment with one case and the role given.
abbrev pub experiment_document : String → Json ℕ
experiment_document role = obj (
    field "experiment"
      (obj (
        field "behavior_space" (arr (array (str "tested" ∷ []))) (
          field "budget" resources_document (
            field "case_count" (int (pos 1)) (
              field "evaluator_id" (str digest) (
                field "information_objective" (bool false) (
                  field "role" (str role)
                    (field "runtime_id" (str digest) (field "task_set_id" (str digest) end)))))))))
      (field "experiment_id" (str digest) end))

abbrev pub evidence_document : Json ℕ
evidence_document = obj (
    field "behavior_distribution" (arr (array (float 1 ∷ []))) (
      field "cost" resources_document (
        field "evidence_receipt"
          (obj (field "sha256" (str digest) (field "uri" (str "file:///receipt") end)))
          (field "information_model" null (
            field "protected_passed" (bool true) (
              field "target_probabilities" (arr (array (float 1 ∷ []))) (
                field "task"
                  (obj (
                    field "case_count" (int (pos 1)) (
                      field "passed_count" (int (pos 1))
                        (field "safety_failures" (int (pos 0)) end))))
                  end)))))))

abbrev pub run_document : String → Json ℕ
run_document replicate = obj (
    field "evidence" evidence_document (
      field "measurements" null (
        field "run"
          (obj (
            field "candidate_id" (str digest) (
              field "experiment_id" (str digest) (
                field "replicate_id" (str replicate)
                  (field "run_id" (str digest) (field "seed" null end))))))
          end)))

abbrev pub costs : ℕ → Resources
costs n = record {
  actions = n;
  energy_millijoules = n;
  gpu_milliseconds = n;
  memory_bytes = n;
  storage_bytes = n;
  tokens = n;
  wall_milliseconds = n;
}

-- The aggregate of a candidate with the counts of passed and of all cases.
abbrev pub aggregate : String → ℕ → ℕ → Metric ℕ
aggregate candidate_id passed cases = record {
  behavior_distribution = 1 ∷ [];
  candidate_id = candidate_id;
  cost = costs 1;
  information_value_bits = none;
  mean_target_surprisal_bits = record { infinite = false; value = some 0 };
  novelty_bits = record { infinite = false; value = some 0 };
  reliability = 0;
  replicate_count = 1;
  survival_passed = true;
  case_count = cases;
  passed_count = passed;
  rate = 0;
}

-- A run that passes its case.
abbrev pub scored_run : RunBody ℕ
scored_run = record {
  evidence = record {
    behavior_distribution = 1 ∷ [];
    cost = costs 4;
    receipt_sha256 = digest;
    receipt_uri = "file:///receipt";
    information_model = none;
    protected_passed = true;
    target_probabilities = 1 ∷ [];
    task = record { case_count = 1; passed_count = 1; safety_failures = 0 };
  };
  measurements = record {
    budget_passed = true;
    information_value_bits = none;
    mean_target_surprisal_bits = record { infinite = false; value = some 0 };
    survival_passed = true;
    task_rate = 1;
  };
  run = record {
    candidate_id = digest;
    experiment_id = digest;
    replicate_id = "first";
    run_id = digest;
    seed = null;
  };
}
