-- ===== src/AgentProtocol/Changes.antt =====
-- apps/agent_protocol.py: the paths at which two candidates differ.
pub mod Paths
use metering.Prelude.{
  Bool, true, false, ◌&&◌, not, Option, none, some, List, [], ◌∷◌, map, if◌then◌else◌, filter, ◌++◌,
  String, str_eq, sort_by, text_lt,
}
use metering.Runtime.Dict.{Dict, find, put, member}
use metering.AgentProtocol.Artifact.{Artifact, ArtifactFile, Candidate, default, git, skill}
use metering.Runtime.Dict.{Dict, find, put, member}
use metering.AgentProtocol.Artifact.{
  Artifact, ArtifactFile, GitArtifact, GitOutput, Candidate, default, git, skill,
}

-- `==` on normalized git artifacts, field by field
abbrev same_output : GitOutput → GitOutput → Bool
same_output a b =
    str_eq a.kind b.kind && str_eq a.name b.name && str_eq a.sha256 b.sha256 && str_eq a.uri b.uri

unfoldable pub same_outputs : List GitOutput → List GitOutput → Bool
same_outputs [] [] = true
same_outputs (a ∷ rest) (b ∷ others) = same_output a b && same_outputs rest others
same_outputs outputs others = false

abbrev pub same_git : GitArtifact → GitArtifact → Bool
same_git a b =
    str_eq a.commit b.commit
    && str_eq a.content_sha256 b.content_sha256
    && str_eq a.entrypoint b.entrypoint
    && str_eq a.git_tree b.git_tree
    && same_outputs a.outputs b.outputs
    && str_eq a.repository b.repository

abbrev pub Version : Type 0
Version = String × Bool

-- `item["path"]: (item["content"], item["executable"]) for item in files`, one `put` for each file
unfoldable pub files_by_path : Dict Version → List ArtifactFile → Dict Version
files_by_path found [] = found
files_by_path found (file ∷ files) =
    files_by_path (put file.path (file.content, file.executable) found) files

-- `artifact.get("files", [])`
unfoldable pub artifact_files : Artifact → List ArtifactFile
artifact_files default = []
artifact_files (git a) = []
artifact_files (skill files) = files

unfoldable pub artifact_file_map : Candidate → Dict Version
unfolding files_by_path artifact_files
artifact_file_map candidate = files_by_path [] (artifact_files candidate.artifact)

-- `parent_files.get(path) != challenger_files.get(path)`
unfoldable pub differs : Option Version → Option Version → Bool
differs none none = false
differs none (some w) = true
differs (some v) none = true
differs (some (content, executable)) (some (other, runnable)) =
    not (str_eq content other && (if executable then runnable else not runnable))

abbrev pub dict_keys : Dict Version → List String
dict_keys d = map (λ entry. entry.0) d

-- `set(parent_files) | set(challenger_files)`
unfoldable pub either_path : Dict Version → Dict Version → List String
either_path a b = dict_keys a ++ filter (λ path. not (member path a)) (dict_keys b)

unfoldable pub changed_files : Dict Version → Dict Version → List String
unfolding differs either_path
changed_files a b =
    sort_by text_lt (filter (λ path. differs (find path a) (find path b)) (either_path a b))

-- Of two git artifacts, whether they are equal; an artifact of another kind equals neither.
unfoldable pub git_change : Artifact → Artifact → Option Bool
unfolding same_outputs
git_change (git a) (git b) = some (not (same_git a b))
git_change (git a) other = some true
git_change other (git b) = some true
git_change a b = none

unfoldable pub or_git_change : Option Bool → List String → List String
or_git_change none paths = paths
or_git_change (some true) paths = "@git-candidate" ∷ []
or_git_change (some false) paths = []

unfoldable pub changed_artifact_paths : Candidate → Candidate → List String
unfolding changed_files git_change or_git_change
changed_artifact_paths parent challenger =
    or_git_change (git_change parent.artifact challenger.artifact)
      (changed_files (artifact_file_map parent) (artifact_file_map challenger))
