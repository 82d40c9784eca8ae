-- ===== src/Population/Candidates.antt =====
-- apps/population/population_protocol.py: candidate bodies and typed recombination.
use metering.Prelude.{
  Bool, true, false, ◌&&◌, ◌||◌, not, Option, none, some, List, [], ◌∷◌, map, length, if◌then◌else◌,
  ◌==◌, ◌++◌, String, str_eq, subset,
}
use metering.Runtime.{
  Result, ok, raise, ◌>>=◌, ◌>>◌, require, or_raise, on_protocol_error, on_key_error,
  protocol_error, population_error, request_error, key_error, Json, str, arr, obj, array, Platform,
  Fields, end, field,
}
use metering.Runtime.Dict.{Dict, find, member}
use metering.AgentProtocol.{require_object, item, require_exact_keys, require_same_json}
use metering.AgentProtocol.Artifact.{
  Artifact, ArtifactFile, Candidate, skill, decode_candidate, candidate_record, candidate_json,
  find_file, file_json,
}
use metering.Population.Types.{CandidateBody, PopulationState, Locus, Variation, recombination}
use metering.Population.Schema.{
  parent_ids, decode_variation, variation_json, require_population_schema,
}

-- `_skill_file_map` of an artifact: its files, which are looked up by path
unfoldable pub skill_files : Artifact → Result (List ArtifactFile)
skill_files (skill files) = ok files
skill_files other = raise protocol_error

abbrev bool_eq : Bool → Bool → Bool
bool_eq true b = b
bool_eq false b = not b

unfoldable pub same_file : ArtifactFile → ArtifactFile → Bool
same_file a b =
    str_eq a.content b.content && bool_eq a.executable b.executable && str_eq a.path b.path

abbrev differs_from : ArtifactFile → Option ArtifactFile → Bool
differs_from file none = true
differs_from file (some other) = not (same_file other file)

abbrev pub file_paths : List ArtifactFile → List String
file_paths files = map (λ file. file.path) files

abbrev pub locus_paths : List Locus → List String
locus_paths loci = map (λ locus. locus.path) loci

-- `set().union(*(set(files) for files in parent_files.values()))`
unfoldable pub all_paths : Dict (List ArtifactFile) → List String
all_paths [] = []
all_paths ((parent, files) ∷ rest) = file_paths files ++ all_paths rest

-- `any(parent_files[other].get(path) != source_file for other in other_ids)`
unfoldable pub contributes : Dict (List ArtifactFile) → String → ArtifactFile → Bool
contributes [] source_id file = false
contributes ((parent, files) ∷ rest) source_id file =
    not (str_eq parent source_id) && differs_from file (find_file file.path files)
    || contributes rest source_id file

-- What the loop over the loci collects.
pub record Inherited : Type 0 where
  pub child_files : List ArtifactFile
  pub contributors : List String

-- The loop over the loci of `_verify_recombination`.
unfoldable pub inherit : Dict (List ArtifactFile) → List Locus → Result Inherited
unfolding contributes
inherit parent_files [] = ok (record { child_files = []; contributors = [] })
inherit parent_files (locus ∷ loci) = do
  files ← or_raise key_error (find locus.parent_candidate_id parent_files)
  source_file ← or_raise population_error (find_file locus.path files)
  rest ← inherit parent_files loci
  ok (record {
    child_files = source_file ∷ rest.child_files;
    contributors =
        if contributes parent_files locus.parent_candidate_id source_file
        then locus.parent_candidate_id ∷ rest.contributors
        else rest.contributors;
  })

unfoldable pub same_set : List String → List String → Bool
same_set xs ys = subset xs ys && subset ys xs

module _ {F : Type 0} where
  unfoldable pub skill_json : List ArtifactFile → Json F
  skill_json files = obj (
      field "artifact_schema" (str "agent-skill-v1")
        (field "files" (arr (array (map file_json files))) end))

module _ (P : Platform) where
  open P use {Float}

  -- The files of each parent: `except ProtocolError as exc: raise PopulationError(...)`.
  unfoldable pub parent_file_maps :
      PopulationState Float → List String → Result (Dict (List ArtifactFile))
  parent_file_maps state [] = ok []
  parent_file_maps state (parent_id ∷ parents) = do
    candidate ← or_raise population_error (find parent_id state.candidates)
    files ← on_protocol_error population_error (skill_files candidate.artifact)
    rest ← parent_file_maps state parents
    ok ((parent_id, files) ∷ rest)

  unfoldable pub verify_recombination :
      Candidate → List String → List Locus → PopulationState Float → Result (Unit {0})
  verify_recombination candidate parents loci state = do
    parent_files ← parent_file_maps state parents
    require (same_set (locus_paths loci) (all_paths parent_files)) population_error
    inherited ← inherit parent_files loci
    require (same_set inherited.contributors parents) population_error
    expected ← candidate_record P (skill_json inherited.child_files)
    require_same_json P (candidate_json candidate) (candidate_json expected) population_error

  -- `for parent in parents: if parent not in state.candidates: raise`
  unfoldable pub require_known : PopulationState Float → List String → Result (Unit {0})
  require_known state [] = ok tt
  require_known state (parent ∷ parents) =
      require (member parent state.candidates) population_error >> require_known state parents

  verify_variation :
      Candidate → List String → Variation Float → PopulationState Float → Result (Unit {0})
  verify_variation candidate parents (recombination loci policy_id) state =
      verify_recombination candidate parents loci state
  verify_variation candidate parents other state = ok tt

  -- `_candidate_body`
  unfoldable pub normalize_candidate_body :
      Json Float → PopulationState Float → Result (CandidateBody Float)
  unfolding verify_variation
  normalize_candidate_body value state = do
    d ← require_object value
    require_exact_keys d ("candidate" ∷ "parents" ∷ "variation" ∷ [])
    candidate ← item "candidate" d >>= decode_candidate P
    parents ← item "parents" d >>= parent_ids
    require_known state parents
    raw_variation ← item "variation" d
    variation ← decode_variation P raw_variation parents
    verify_variation candidate parents variation state
    ok (record { candidate = candidate; parents = parents; variation = variation })

  unfoldable pub candidate_body_json : CandidateBody Float → Json Float
  candidate_body_json body = obj (
      field "candidate" (candidate_json body.candidate) (
        field "parents" (arr (array (map str body.parents)))
          (field "variation" (variation_json body.variation) end)))

  unfoldable pub decode_candidate_request :
      Fields Float → PopulationState Float → Result (CandidateBody Float)
  unfolding normalize_candidate_body candidate_body_json
  decode_candidate_request d state = on_protocol_error request_error (do
    require_exact_keys d ("artifact" ∷ "parents" ∷ "schema_version" ∷ "variation" ∷ [])
    item "schema_version" d >>= require_population_schema
    parents ← item "parents" d >>= parent_ids
    candidate ← item "artifact" d >>= candidate_record P
    raw_variation ← item "variation" d
    variation ← decode_variation P raw_variation parents
    normalize_candidate_body
        (candidate_body_json
          (record { candidate = candidate; parents = parents; variation = variation }))
        state)

  -- `{parent: _skill_file_map(state.candidates[parent]) for parent in parents if parent in ...}`
  known_file_maps : PopulationState Float → List String → Result (Dict (List ArtifactFile))
  known_file_maps state [] = ok []
  known_file_maps state (parent ∷ parents) = elim (find parent state.candidates) [
    | none ↦ known_file_maps state parents
    | some candidate ↦ do
      files ← skill_files candidate.artifact
      rest ← known_file_maps state parents
      ok ((parent, files) ∷ rest)
  ]

  -- The files that the loci name, without those that their parent lacks.
  selected_files : Dict (List ArtifactFile) → List Locus → Result (List ArtifactFile)
  selected_files parent_files [] = ok []
  selected_files parent_files (locus ∷ loci) = do
    files ← or_raise key_error (find locus.parent_candidate_id parent_files)
    rest ← selected_files parent_files loci
    ok (elim (find_file locus.path files) [ none ↦ rest | some file ↦ file ∷ rest ])

  loci_of : Variation Float → List Locus
  loci_of (recombination loci policy_id) = loci
  loci_of other = []

  unfoldable pub decode_recombination_request :
      Fields Float → PopulationState Float → Result (CandidateBody Float)
  unfolding normalize_candidate_body candidate_body_json known_file_maps selected_files loci_of
  decode_recombination_request d state = on_protocol_error request_error (
      on_key_error population_error (do
        require_exact_keys d ("loci" ∷ "parents" ∷ "policy_id" ∷ "schema_version" ∷ [])
        item "schema_version" d >>= require_population_schema
        parents ← item "parents" d >>= parent_ids
        raw_loci ← item "loci" d
        raw_policy_id ← item "policy_id" d
        variation ←
            decode_variation P
              (obj (
                field "loci" raw_loci (
                  field "policy_id" raw_policy_id
                    (field "type" (str "typed-recombination-v1") end))))
              parents
        parent_files ← known_file_maps state parents
        require (length parent_files == length parents) population_error
        child_files ← selected_files parent_files (loci_of variation)
        require (length child_files == length (loci_of variation)) population_error
        candidate ← candidate_record P (skill_json child_files)
        normalize_candidate_body
            (candidate_body_json
              (record { candidate = candidate; parents = parents; variation = variation }))
            state))
