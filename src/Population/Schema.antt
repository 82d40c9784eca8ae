-- ===== src/Population/Schema.antt =====
-- apps/population/population_protocol.py: integers, versions, the configuration, resources, parents and
-- variations.
use metering.Prelude.{
  ℕ, Bool, true, false, ◌&&◌, List, [], ◌∷◌, map, length, leb, if◌then◌else◌, ◌==◌, String,
  contains, sort_by, text_lt,
}
use metering.Prelude.Int.{pos}
use metering.Runtime.{
  Result, ok, raise, ◌>>=◌, ◌>>◌, require, refuse, on_protocol_error, protocol_error, request_error,
  type_error, Json, null, int, float, str, arr, obj, items, array, Platform, Fields, end, field,
}
use metering.AgentProtocol.{
  require_object, require_nonempty_array, item, get_is_text, require_exact_keys,
  require_nonempty_string, require_sha256, normalize_json_value, finite_number,
}
use metering.AgentProtocol.Artifact.{normalized_path}
use metering.Population.Types.{
  Resources, ArchivePolicy, Configuration, Locus, Variation, seed, mutation, recombination,
}

abbrev pub max_archive_capacity : ℕ
max_archive_capacity = 10000

abbrev pub max_protocol_integer : ℕ
max_protocol_integer = 9007199254740991

module _ {F : Type 0} where
  -- `type(value) is int and value == n`
  unfoldable pub is_int : Json F → ℕ → Bool
  is_int (int (pos m)) n = m == n
  is_int other n = false

  -- `v in {...}` for texts, where an unhashable value raises TypeError
  unfoldable pub in_texts : Json F → List String → Result Bool
  in_texts (arr vs) texts = raise type_error
  in_texts (obj d) texts = raise type_error
  in_texts (str s) texts = ok (contains s texts)
  in_texts other texts = ok false

  unfoldable pub nonnegative_integer : Json F → Result ℕ
  nonnegative_integer (int (pos n)) = do require (leb n max_protocol_integer) protocol_error; ok n
  nonnegative_integer other = raise protocol_error

  unfoldable pub positive_integer : Json F → Result ℕ
  positive_integer (int (pos n)) = do
    require (leb 1 n && leb n max_protocol_integer) protocol_error
    ok n
  positive_integer other = raise protocol_error

  -- `_schema`
  unfoldable pub require_population_schema : Json F → Result (Unit {0})
  unfolding is_int
  require_population_schema value = require (is_int value 1) protocol_error

  -- `_resources`, with the decoder that `positive` chooses
  unfoldable pub resources : (Json F → Result ℕ) → Json F → Result Resources
  resources decode value = do
    d ← require_object value
    require_exact_keys d (
        "actions" ∷ "energy_millijoules" ∷ "gpu_milliseconds" ∷ "memory_bytes" ∷ "storage_bytes"
        ∷ "tokens" ∷ "wall_milliseconds" ∷ [])
    actions ← item "actions" d >>= decode
    energy_millijoules ← item "energy_millijoules" d >>= decode
    gpu_milliseconds ← item "gpu_milliseconds" d >>= decode
    memory_bytes ← item "memory_bytes" d >>= decode
    storage_bytes ← item "storage_bytes" d >>= decode
    tokens ← item "tokens" d >>= decode
    wall_milliseconds ← item "wall_milliseconds" d >>= decode
    ok (record {
      actions = actions;
      energy_millijoules = energy_millijoules;
      gpu_milliseconds = gpu_milliseconds;
      memory_bytes = memory_bytes;
      storage_bytes = storage_bytes;
      tokens = tokens;
      wall_milliseconds = wall_milliseconds;
    })

  unfoldable pub resources_json : Resources → Json F
  resources_json r = obj (
      field "actions" (int (pos r.actions)) (
        field "energy_millijoules" (int (pos r.energy_millijoules)) (
          field "gpu_milliseconds" (int (pos r.gpu_milliseconds)) (
            field "memory_bytes" (int (pos r.memory_bytes)) (
              field "storage_bytes" (int (pos r.storage_bytes)) (
                field "tokens" (int (pos r.tokens))
                  (field "wall_milliseconds" (int (pos r.wall_milliseconds)) end)))))))

  -- The loop of `_parent_ids`, with `seen`.
  unfoldable pub distinct_ids : List String → List (Json F) → Result (List String)
  distinct_ids seen [] = ok []
  distinct_ids seen (value ∷ values) = do
    parent ← require_sha256 value
    refuse (contains parent seen) protocol_error
    parents ← distinct_ids (parent ∷ seen) values
    ok (parent ∷ parents)

  unfoldable pub parent_ids : Json F → Result (List String)
  unfolding distinct_ids
  parent_ids (arr values) = distinct_ids [] (items values)
  parent_ids other = raise protocol_error

  -- The loop over `loci`, with `seen`.
  unfoldable pub decode_loci : List String → List String → List (Json F) → Result (List Locus)
  decode_loci parents seen [] = ok []
  decode_loci parents seen (raw_locus ∷ raw_loci) = do
    d ← require_object raw_locus
    require_exact_keys d ("parent_candidate_id" ∷ "path" ∷ [])
    path ← item "path" d >>= normalized_path
    refuse (contains path seen) protocol_error
    parent_id ← item "parent_candidate_id" d >>= require_sha256
    require (contains parent_id parents) protocol_error
    loci ← decode_loci parents (path ∷ seen) raw_loci
    ok (record { path = path; parent_candidate_id = parent_id } ∷ loci)

  locus_json : Locus → Json F
  locus_json locus = obj (
      field "parent_candidate_id" (str locus.parent_candidate_id)
        (field "path" (str locus.path) end))

  unfoldable pub variation_json : Variation F → Json F
  unfolding locus_json
  variation_json (seed choice) =
      obj (field "choice" choice (field "policy_id" null (field "type" (str "seed-v1") end)))
  variation_json (mutation choice policy_id) = obj (
      field "choice" choice
        (field "policy_id" (str policy_id) (field "type" (str "mutation-v1") end)))
  variation_json (recombination loci policy_id) = obj (
      field "loci" (arr (array (map locus_json loci)))
        (field "policy_id" (str policy_id) (field "type" (str "typed-recombination-v1") end)))

  -- `value is None`
  abbrev is_null : Json F → Bool
  is_null null = true
  is_null other = false

abbrev pub locus_before : Locus → Locus → Bool
locus_before a b = text_lt a.path b.path

module _ (P : Platform) where
  open P use {Float, literal, float_le}

  seed_variation : Fields Float → List String → Result (Variation Float)
  seed_variation d parents = do
    require_exact_keys d ("choice" ∷ "policy_id" ∷ "type" ∷ [])
    require (length parents == 0) protocol_error
    policy_id ← item "policy_id" d
    require (is_null policy_id) protocol_error
    choice ← item "choice" d >>= normalize_json_value P
    ok (seed choice)

  mutation_variation : Fields Float → List String → Result (Variation Float)
  mutation_variation d parents = do
    require_exact_keys d ("choice" ∷ "policy_id" ∷ "type" ∷ [])
    require (length parents == 1) protocol_error
    choice ← item "choice" d >>= normalize_json_value P
    policy_id ← item "policy_id" d >>= require_sha256
    ok (mutation choice policy_id)

  recombination_variation : Fields Float → List String → Result (Variation Float)
  unfolding decode_loci
  recombination_variation d parents = do
    require_exact_keys d ("loci" ∷ "policy_id" ∷ "type" ∷ [])
    require (length parents == 2) protocol_error
    raw_loci ← item "loci" d >>= require_nonempty_array
    loci ← decode_loci parents [] raw_loci
    policy_id ← item "policy_id" d >>= require_sha256
    ok (recombination (sort_by locus_before loci) policy_id)

  unfoldable pub decode_variation : Json Float → List String → Result (Variation Float)
  unfolding seed_variation mutation_variation recombination_variation
  decode_variation value parents = do
    d ← require_object value
    if get_is_text "type" d "seed-v1"
        then seed_variation d parents
        else if get_is_text "type" d "mutation-v1"
        then mutation_variation d parents
        else require (get_is_text "type" d "typed-recombination-v1") protocol_error
          >> recombination_variation d parents

  archive_policy : Json Float → Result (ArchivePolicy Float)
  unfolding positive_integer
  archive_policy value = do
    d ← require_object value
    require_exact_keys d ("capacity" ∷ "reliability_kappa" ∷ "type" ∷ [])
    require (get_is_text "type" d "pareto-uniform-v1") protocol_error
    capacity ← item "capacity" d >>= positive_integer
    require (leb capacity max_archive_capacity) protocol_error
    kappa ← item "reliability_kappa" d >>= finite_number P
    require (float_le (literal "0.0") kappa && float_le kappa (literal "1000000.0")) protocol_error
    ok (record { capacity = capacity; reliability_kappa = kappa })

  -- `_configuration`
  unfoldable pub normalize_configuration : Json Float → Result (Configuration Float)
  unfolding archive_policy
  normalize_configuration value = do
    d ← require_object value
    require_exact_keys d ("archive_policy" ∷ "name" ∷ [])
    policy ← item "archive_policy" d >>= archive_policy
    name ← item "name" d >>= require_nonempty_string
    ok (record { archive_policy = policy; name = name })

  unfoldable pub archive_policy_json : ArchivePolicy Float → Json Float
  archive_policy_json policy = obj (
      field "capacity" (int (pos policy.capacity)) (
        field "reliability_kappa" (float policy.reliability_kappa)
          (field "type" (str "pareto-uniform-v1") end)))

  unfoldable pub configuration_json : Configuration Float → Json Float
  unfolding archive_policy_json
  configuration_json configuration = obj (
      field "archive_policy" (archive_policy_json configuration.archive_policy)
        (field "name" (str configuration.name) end))

  unfoldable pub decode_initialize_request : Fields Float → Result (Configuration Float)
  unfolding normalize_configuration require_population_schema
  decode_initialize_request d = on_protocol_error request_error (do
    require_exact_keys d ("configuration" ∷ "schema_version" ∷ [])
    item "schema_version" d >>= require_population_schema
    item "configuration" d >>= normalize_configuration)
