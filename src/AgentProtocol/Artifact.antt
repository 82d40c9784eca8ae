-- ===== src/AgentProtocol/Artifact.antt =====
-- apps/agent_protocol.py: artifacts and candidates.
use metering.Prelude.{
  Bool, ◌&&◌, ◌||◌, not, Option, none, some, List, [], ◌∷◌, map, any, if◌then◌else◌, ◌==◌, filter,
  String, str_eq, any_char, is_hex, count, split_slash, contains, sort_by, text_lt,
  starts_with_slash, join_slash,
}
use metering.Runtime.{
  Result, ok, raise, ◌>>=◌, ◌>>◌, require, refuse, or_raise, protocol_error, Json, bool, str, arr,
  obj, items, array, Platform, Fields, end, field,
}
use metering.AgentProtocol.{
  require_object, require_nonempty_array, item, get_is_text, require_exact_keys, require_utf8,
  require_nonempty_string, require_sha256, require_bool, canonical_digest,
}

pub record ArtifactFile : Type 0 where
  pub content : String
  pub executable : Bool
  pub path : String

pub record GitOutput : Type 0 where
  pub kind : String
  pub name : String
  pub sha256 : String
  pub uri : String

pub record GitArtifact : Type 0 where
  pub commit : String
  pub content_sha256 : String
  pub entrypoint : String
  pub git_tree : String
  pub outputs : List GitOutput
  pub repository : String

-- The normalized documents of `decode_agent_artifact`, one constructor for each `artifact_schema`.
pub data Artifact : Type 0 where
  default : Artifact
  git : GitArtifact → Artifact
  skill : List ArtifactFile → Artifact

pub record Candidate : Type 0 where
  pub artifact : Artifact
  pub candidate_id : String

-- `PurePosixPath(path).parts` of a relative path, and its `as_posix()`
abbrev path_parts : String → List String
path_parts path = filter (λ part. not (str_eq part "" || str_eq part ".")) (split_slash path)

abbrev as_posix_of : List String → String
as_posix_of [] = "."
as_posix_of (part ∷ parts) = join_slash (part ∷ parts)

unfoldable pub is_normalized_path : String → Bool
is_normalized_path path =
    not (starts_with_slash path)
    && str_eq (as_posix_of (path_parts path)) path
    && not (any_char (λ c. c == 92) path)
    && not (any (λ part. str_eq part "" || str_eq part "." || str_eq part "..") (path_parts path))

abbrev git_output_identity_eq : GitOutput → GitOutput → Bool
git_output_identity_eq a b = str_eq a.kind b.kind && str_eq a.name b.name

-- `<` on the tuples `(kind, name)`
abbrev git_output_before : GitOutput → GitOutput → Bool
git_output_before a b = text_lt a.kind b.kind || str_eq a.kind b.kind && text_lt a.name b.name

abbrev pub file_before : ArtifactFile → ArtifactFile → Bool
file_before a b = text_lt a.path b.path

-- `next(item for item in files if item["path"] == path)`
unfoldable pub find_file : String → List ArtifactFile → Option ArtifactFile
find_file path [] = none
find_file path (file ∷ files) = if str_eq file.path path then some file else find_file path files

module _ {F : Type 0} where
  unfoldable pub normalized_path : Json F → Result String
  normalized_path value = do
    path ← require_nonempty_string value
    require (is_normalized_path path) protocol_error
    ok path

  git_object_id : Json F → Result String
  git_object_id value = do
    identifier ← require_nonempty_string value
    refuse
        (not (count identifier == 40 || count identifier == 64)
          || any_char (λ c. not (is_hex c)) identifier)
        protocol_error
    ok identifier

  decode_git_output : Json F → Result GitOutput
  decode_git_output value = do
    d ← require_object value
    require_exact_keys d ("kind" ∷ "name" ∷ "sha256" ∷ "uri" ∷ [])
    kind ← item "kind" d >>= require_nonempty_string
    name ← item "name" d >>= require_nonempty_string
    sha256 ← item "sha256" d >>= require_sha256
    uri ← item "uri" d >>= require_nonempty_string
    ok (record { kind = kind; name = name; sha256 = sha256; uri = uri })

  -- The loop over `outputs`; the first argument is `seen`, as the outputs that gave its members.
  decode_git_outputs : List GitOutput → List (Json F) → Result (List GitOutput)
  unfolding decode_git_output
  decode_git_outputs seen [] = ok []
  decode_git_outputs seen (raw_output ∷ raw_outputs) = do
    output ← decode_git_output raw_output
    refuse (any (git_output_identity_eq output) seen) protocol_error
    outputs ← decode_git_outputs (output ∷ seen) raw_outputs
    ok (output ∷ outputs)

  require_array : Json F → Result (List (Json F))
  require_array (arr vs) = ok (items vs)
  require_array other = raise protocol_error

  decode_git_artifact : Fields F → Result Artifact
  unfolding decode_git_outputs require_array git_object_id normalized_path
  decode_git_artifact d = do
    require_exact_keys d (
        "artifact_schema" ∷ "commit" ∷ "content_sha256" ∷ "entrypoint" ∷ "git_tree" ∷ "outputs"
        ∷ "repository" ∷ [])
    raw_outputs ← item "outputs" d >>= require_array
    outputs ← decode_git_outputs [] raw_outputs
    commit ← item "commit" d >>= git_object_id
    content_sha256 ← item "content_sha256" d >>= require_sha256
    entrypoint ← item "entrypoint" d >>= normalized_path
    git_tree ← item "git_tree" d >>= git_object_id
    repository ← item "repository" d >>= require_nonempty_string
    ok (
        git (record {
          commit = commit;
          content_sha256 = content_sha256;
          entrypoint = entrypoint;
          git_tree = git_tree;
          outputs = sort_by git_output_before outputs;
          repository = repository;
        }))

  -- The loop over `files`, with `seen`.
  unfoldable pub decode_files : List String → List (Json F) → Result (List ArtifactFile)
  unfolding normalized_path
  decode_files seen [] = ok []
  decode_files seen (raw_file ∷ raw_files) = do
    d ← require_object raw_file
    require_exact_keys d ("content" ∷ "executable" ∷ "path" ∷ [])
    path ← item "path" d >>= normalized_path
    refuse (contains path seen) protocol_error
    content ← item "content" d >>= require_utf8
    executable ← item "executable" d >>= require_bool
    files ← decode_files (path ∷ seen) raw_files
    ok (record { content = content; executable = executable; path = path } ∷ files)

  decode_skill_artifact : Fields F → Result Artifact
  unfolding decode_files find_file
  decode_skill_artifact d = do
    require_exact_keys d ("artifact_schema" ∷ "files" ∷ [])
    raw_files ← item "files" d >>= require_nonempty_array
    files ← decode_files [] raw_files
    skill_file ← or_raise protocol_error (find_file "SKILL.md" files)
    refuse (str_eq skill_file.content "") protocol_error
    ok (skill (sort_by file_before files))

  unfoldable pub decode_agent_artifact : Json F → Result Artifact
  unfolding decode_git_artifact decode_skill_artifact
  decode_agent_artifact value = do
    d ← require_object value
    if get_is_text "artifact_schema" d "agent-default-v1"
        then require_exact_keys d ("artifact_schema" ∷ []) >> ok default
        else if get_is_text "artifact_schema" d "git-candidate-v1"
        then decode_git_artifact d
        else require (get_is_text "artifact_schema" d "agent-skill-v1") protocol_error
          >> decode_skill_artifact d

  -- The documents that the records stand for.
  unfoldable pub file_json : ArtifactFile → Json F
  file_json file = obj (
      field "content" (str file.content)
        (field "executable" (bool file.executable) (field "path" (str file.path) end)))

  git_output_json : GitOutput → Json F
  git_output_json output = obj (
      field "kind" (str output.kind) (
        field "name" (str output.name)
          (field "sha256" (str output.sha256) (field "uri" (str output.uri) end))))

  unfoldable pub artifact_json : Artifact → Json F
  unfolding file_json git_output_json
  artifact_json default = obj (field "artifact_schema" (str "agent-default-v1") end)
  artifact_json (git a) = obj (
      field "artifact_schema" (str "git-candidate-v1") (
        field "commit" (str a.commit) (
          field "content_sha256" (str a.content_sha256) (
            field "entrypoint" (str a.entrypoint) (
              field "git_tree" (str a.git_tree) (
                field "outputs" (arr (array (map git_output_json a.outputs)))
                  (field "repository" (str a.repository) end)))))))
  artifact_json (skill files) = obj (
      field "artifact_schema" (str "agent-skill-v1")
        (field "files" (arr (array (map file_json files))) end))

  unfoldable pub candidate_json : Candidate → Json F
  unfolding artifact_json
  candidate_json candidate = obj (
      field "artifact" (artifact_json candidate.artifact)
        (field "candidate_id" (str candidate.candidate_id) end))

module _ (P : Platform) where
  open P use {Float}

  -- `digest({"artifact": ..., "candidate_schema": CANDIDATE_SCHEMA})`
  unfoldable pub artifact_digest : Artifact → Result String
  unfolding artifact_json
  artifact_digest artifact = canonical_digest P (
      obj (
        field "artifact" (artifact_json artifact)
          (field "candidate_schema" (str "agent-candidate-v1") end)))

  unfoldable pub candidate_record : Json Float → Result Candidate
  candidate_record value = do
    normalized ← decode_agent_artifact value
    candidate_id ← artifact_digest normalized
    ok (record { artifact = normalized; candidate_id = candidate_id })

  unfoldable pub decode_candidate : Json Float → Result Candidate
  unfolding candidate_record
  decode_candidate value = do
    d ← require_object value
    require_exact_keys d ("artifact" ∷ "candidate_id" ∷ [])
    supplied_id ← item "candidate_id" d >>= require_sha256
    candidate ← item "artifact" d >>= candidate_record
    require (str_eq supplied_id candidate.candidate_id) protocol_error
    ok candidate
