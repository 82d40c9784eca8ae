-- ===== src/AgentProtocol/Changes/Paths.antt =====
-- apps/agent_protocol.py: the changed paths are the paths at which the files differ.
use text.Mathlib.TextPositions.{eq_refl}
use metering.Prelude.{
  ◌≡◌, refl, ap, sym, ◌∙◌, inl, inr, arith, eq_iff, Bool-cases, contains-sort_by, ◌↔◌, Bool, true,
  false, ◌&&◌, ◌||◌, not, Option, none, some, List, [], ◌∷◌, map, if◌then◌else◌, filter, ◌++◌,
  String, str_eq, contains, sort_by, text_lt,
}
use metering.Runtime.Dict.{Dict, find, member}
use metering.AgentProtocol.Artifact.{Candidate}
use metering.AgentProtocol.Changes.{
  Version, artifact_file_map, differs, dict_keys, either_path, changed_files, git_change,
  or_git_change, changed_artifact_paths,
}

same_bool-eq : (b c : Bool) → (if b then c else not c) ≡ true → b ≡ c
same_bool-eq true c h = sym h
same_bool-eq false true h = cc
same_bool-eq false false h = refl

differs-eq : (v w : Option Version) → differs v w ≡ false → v ≡ w
unfolding differs
differs-eq none none h = refl
differs-eq none (some w) h = cc
differs-eq (some v) none h = cc
differs-eq (some (content, executable)) (some (other, runnable)) h =
    let same : str_eq content other ≡ true = ground (arith, h) in
    let e : content ≡ other = (eq_iff content other).0 same in
    let f : executable ≡ runnable = same_bool-eq executable runnable (ground (arith, h)) in cc

differs_refl : (v : Option Version) → differs v v ≡ false
unfolding differs
differs_refl none = refl
differs_refl (some (content, true)) = rw eq_refl refl
differs_refl (some (content, false)) = rw eq_refl refl

contains-filter :
    (test : String → Bool) (k : String) (xs : List String)
    → contains k (filter test xs) ≡ (contains k xs && test k)
unfolding contains filter
contains-filter test k [] = refl
contains-filter test k (x ∷ xs) = elim (Bool-cases (str_eq x k)) [
  | inl same ↦
      let e : x ≡ k = (eq_iff x k).0 same in
      let t : test x ≡ test k = ap test e in ground (arith, same, t, contains-filter test k xs)
  | inr other ↦ ground (arith, other, contains-filter test k xs)
]

contains-append :
    (k : String) (xs ys : List String) → contains k (xs ++ ys) ≡ (contains k xs || contains k ys)
unfolding contains
contains-append k [] ys = refl
contains-append k (x ∷ xs) ys = ground (arith, contains-append k xs ys)

contains-keys : (k : String) (d : Dict Version) → contains k (dict_keys d) ≡ member k d
unfolding contains member
contains-keys k [] = refl
contains-keys k ((j, v) ∷ d) = rw (contains-keys k d) refl

find-none : (k : String) (d : Dict Version) → member k d ≡ false → find k d ≡ none
unfolding member find
find-none k [] h = refl
find-none k ((j, v) ∷ d) h = ground (arith, h, find-none k d)

contains-either_path :
    (k : String) (a b : Dict Version) → contains k (either_path a b) ≡ (member k a || member k b)
unfolding either_path
contains-either_path k a b =
    let rest = contains-filter (λ path. not (member path a)) k (dict_keys b) in
    rw
      (
        contains-append k (dict_keys a) (filter (λ path. not (member path a)) (dict_keys b)),
        rest,
        contains-keys k a,
        contains-keys k b,
      )
      (ground arith)

-- Where neither dict has the path, there is no difference.
differs-member :
    (k : String) (a b : Dict Version)
    → differs (find k a) (find k b) ≡ ((member k a || member k b) && differs (find k a) (find k b))
differs-member k a b = elim (Bool-cases (member k a || member k b)) [
  | inl known ↦ rw known refl
  | inr unknown ↦
      let p : find k a ≡ none = find-none k a (ground (arith, unknown)) in
      let q : find k b ≡ none = find-none k b (ground (arith, unknown)) in
      rw (unknown, p, q) (differs_refl none)
]

map_id : (xs : List String) → map (λ x. x) xs ≡ xs
map_id [] = refl
map_id (x ∷ xs) = ap (λ ys. x ∷ ys) (map_id xs)

contains-changed_files :
    (k : String) (a b : Dict Version)
    → contains k (changed_files a b) ≡ differs (find k a) (find k b)
unfolding changed_files
contains-changed_files k a b =
    let listed = filter (λ path. differs (find path a) (find path b)) (either_path a b) in
    let sorted = contains-sort_by text_lt (λ x. x) k listed in
    sym (ap (contains k) (map_id (sort_by text_lt listed)))
    ∙ sorted
    ∙ ap (contains k) (map_id listed)
    ∙ contains-filter (λ path. differs (find path a) (find path b)) k (either_path a b)
    ∙ rw (contains-either_path k a b) (sym (differs-member k a b))

contains-changed_artifact_paths :
    (parent challenger : Candidate) (path : String)
    → git_change parent.artifact challenger.artifact ≡ none
    → contains path (changed_artifact_paths parent challenger)
      ≡ differs (find path (artifact_file_map parent)) (find path (artifact_file_map challenger))
unfolding changed_artifact_paths or_git_change
contains-changed_artifact_paths parent challenger path h =
    let a = artifact_file_map parent in
    let b = artifact_file_map challenger in
    ap (λ o. contains path (or_git_change o (changed_files a b))) h
    ∙ contains-changed_files path a b

-- Of two candidates without a git artifact, a path is not among the changed paths exactly if the parent and
-- the challenger have the same content and mode at the path, or neither has the path.
pub changed_artifact_paths_iff :
    (parent challenger : Candidate) (path : String)
    → git_change parent.artifact challenger.artifact ≡ none
    → (contains path (changed_artifact_paths parent challenger) ≡ false)
      ↔ (find path (artifact_file_map parent) ≡ find path (artifact_file_map challenger))
changed_artifact_paths_iff parent challenger path h =
    let parent_files = artifact_file_map parent in
    let challenger_files = artifact_file_map challenger in
    let exact = contains-changed_artifact_paths parent challenger path h in
    (
      λ same. differs-eq (find path parent_files) (find path challenger_files) (sym exact ∙ same),
      λ equal.
          exact
          ∙ ap (differs (find path parent_files)) (sym equal)
          ∙ differs_refl (find path parent_files),
    )
