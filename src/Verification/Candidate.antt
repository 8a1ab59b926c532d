-- ===== src/Verification/Candidate.antt =====
-- portal/verification.py: which pull requests and which merges the verifier may grade.
use devin_automation.Prelude.{
  String, Bool, true, false, not, ◌&&◌, ◌||◌, List, [], ◌∷◌, ◌≡◌, refl, concat, is_blank, or_text,
  lower, strip, short, is_full_sha, char_count, ◌==◌, nat_eq, string_eq, if◌then◌else◌,
  is_blank-guard, is_blank-veto, is_blank-concat_first,
}
use devin_automation.Controller.Providers.{Head, Config}
use devin_automation.Controller.Polling.{pr_problem}

-- The arguments of `Verifier.__init__` that are no collaborators.
pub record Settings : Type 0 where
  pub target_repo : String
  pub base_branch : String
  pub validator_ref : String
  pub has_artifacts : Bool
  pub simulated : Bool
  pub retain_merged : Bool

-- A commit as GitHub reports it.
pub record Commit : Type 0 where
  pub sha : String
  pub tree_sha : String
  pub parents : List String

-- `_head_problem`
unfoldable pub head_problem : Settings → Head → String
head_problem c h =
    if not (h.base_ref == c.base_branch)
    then concat
        ("targets " ∷ or_text h.base_ref "an unknown branch" ∷ ", not " ∷ c.base_branch ∷ [])
    else if not (h.head_repo == c.target_repo)
    then concat (
        "the head branch lives in "
        ∷ or_text h.head_repo "an unknown repository"
        ∷ ", not "
        ∷ c.target_repo
        ∷ [])
    else if not (is_full_sha (lower h.head_sha))
    then "the head SHA is not a full commit id"
    else if h.merged
    then "the pull request is already merged"
    else if not (h.state == "open")
    then concat ("the pull request is " ∷ or_text h.state "in an unreported state" ∷ [])
    else ""

abbrev has_parent : List String → Bool
has_parent [] = false
has_parent (p ∷ ps) = true

-- `_content_problem`
unfoldable pub content_problem : Commit → Commit → String
content_problem merged previewed =
    if is_blank previewed.tree_sha || is_blank merged.tree_sha
    then "the merged or previewed tree could not be read from Git"
    else if not (has_parent merged.parents)
    then concat ("the merge commit " ∷ short merged.sha ∷ " has no parent to compare against" ∷ [])
    else if not (merged.tree_sha == previewed.tree_sha)
    then concat (
        "the merged tree "
        ∷ short merged.tree_sha
        ∷ " is not the previewed tree "
        ∷ short previewed.tree_sha
        ∷ [])
    else ""

-- `_merged_problem`
unfoldable pub merged_problem : Settings → Head → String → String → String
merged_problem c h merge_sha expected_head =
    let wanted = lower (strip merge_sha) in
    let wanted_head = lower (strip expected_head) in
    if not (h.base_ref == c.base_branch)
    then concat (
        "the merge went into "
        ∷ or_text h.base_ref "an unknown branch"
        ∷ ", not "
        ∷ c.base_branch
        ∷ [])
    else if not (h.head_repo == c.target_repo)
    then concat (
        "the head branch lives in "
        ∷ or_text h.head_repo "an unknown repository"
        ∷ ", not "
        ∷ c.target_repo
        ∷ [])
    else if not h.merged
    then "the pull request is not merged"
    else if not (is_full_sha wanted)
    then "the merge commit is not a full commit id"
    else if not (lower h.merge_commit_sha == wanted)
    then concat (
        "the pull request reports merge commit "
        ∷ or_text (short (lower h.merge_commit_sha)) "none"
        ∷ ", not "
        ∷ short wanted
        ∷ [])
    else if not (char_count wanted_head == 40) || not (char_count (lower h.head_sha) == 40)
    then concat (
        "the previewed candidate or the merged head is not a full commit id (previewed "
        ∷ or_text (short wanted_head) "none"
        ∷ ", merged "
        ∷ or_text (short (lower h.head_sha)) "none"
        ∷ ")"
        ∷ [])
    else if not (lower h.head_sha == wanted_head)
    then concat (
        "the merged head is "
        ∷ short (lower h.head_sha)
        ∷ ", not the candidate "
        ∷ short wanted_head
        ∷ " that was verified"
        ∷ [])
    else ""

-- The verifier refuses a pull request for the same reason as the controller does, if both were given the
-- same repository and base branch.
pub head_problem-pr_problem :
    (c : Config) (v : Settings) (h : Head)
    → v.target_repo ≡ c.target_repo
    → v.base_branch ≡ c.base_branch
    → head_problem v h ≡ pr_problem c h
unfolding head_problem pr_problem
head_problem-pr_problem c v h repo branch = rw (repo, branch) refl

-- A merge is the one to grade exactly if the pull request is merged into the base branch from a branch of
-- the target repository, GitHub reports the given merge commit, a full commit id, for it, the given head and
-- the head that GitHub reports have forty characters each, and they are the same; up to case and the blanks
-- around the given ids.
pub merged_problem_lem :
    (c : Settings) (h : Head) (merge_sha expected_head : String)
    → is_blank (merged_problem c h merge_sha expected_head) ≡ (
        h.base_ref == c.base_branch
        && (h.head_repo == c.target_repo
            && (h.merged
                && (is_full_sha (lower (strip merge_sha))
                    && (lower h.merge_commit_sha == lower (strip merge_sha)
                        && (not (
                              not (char_count (lower (strip expected_head)) == 40)
                              || not (char_count (lower h.head_sha) == 40))
                            && (lower h.head_sha == lower (strip expected_head) && true)))))))
unfolding merged_problem
merged_problem_lem c h merge_sha expected_head =
    is_blank-guard (h.base_ref == c.base_branch) _ _ _
      (is_blank-concat_first "the merge went into " _ refl)
      (is_blank-guard (h.head_repo == c.target_repo) _ _ _
        (is_blank-concat_first "the head branch lives in " _ refl)
        (is_blank-guard h.merged _ _ _ refl (
          is_blank-guard (is_full_sha (lower (strip merge_sha))) _ _ _ refl (
            is_blank-guard (lower h.merge_commit_sha == lower (strip merge_sha)) _ _ _
              (is_blank-concat_first "the pull request reports merge commit " _ refl)
              (is_blank-veto
                (not (char_count (lower (strip expected_head)) == 40)
                  || not (char_count (lower h.head_sha) == 40))
                _ _ _
                (is_blank-concat_first
                  "the previewed candidate or the merged head is not a full commit id (previewed " _
                  refl)
                (is_blank-guard (lower h.head_sha == lower (strip expected_head)) _ _ _
                  (is_blank-concat_first "the merged head is " _ refl) refl))))))
