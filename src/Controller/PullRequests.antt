-- ===== src/Controller/PullRequests.antt =====
-- portal/controller.py, `_pr_problem` and `_merge_problem`: which pull requests and merges have no problem.
use devin_automation.Prelude.{
  String, true, not, ◌&&◌, ◌||◌, ◌≡◌, refl, is_blank, lower, is_full_sha, char_count, ◌==◌, nat_eq,
  string_eq, is_blank-concat_first, is_blank-guard, is_blank-veto,
}
use devin_automation.Repairs.Types.{Repair}
use devin_automation.Controller.Providers.{Head, Config}
use devin_automation.Controller.Polling.{pr_problem}
use devin_automation.Controller.Merging.{merge_problem}

-- `_pr_problem` finds no problem with a pull request exactly if it targets the base branch, its head branch
-- lives in the target repository, its head is, up to case, a full commit id, and it is open and not merged.
pub pr_problem_lem :
    (c : Config) (h : Head)
    → is_blank (pr_problem c h) ≡ (
        h.base_ref == c.base_branch
        && (h.head_repo == c.target_repo
            && (is_full_sha (lower h.head_sha) && (not h.merged && (h.state == "open" && true)))))
unfolding pr_problem
pr_problem_lem c h =
    is_blank-guard (h.base_ref == c.base_branch) _ _ _ (is_blank-concat_first "targets " _ refl) (
      is_blank-guard (h.head_repo == c.target_repo) _ _ _
        (is_blank-concat_first "the head branch lives in " _ refl)
        (is_blank-guard (is_full_sha (lower h.head_sha)) _ _ _ refl (
          is_blank-veto h.merged _ _ _ refl (
            is_blank-guard (h.state == "open") _ _ _
              (is_blank-concat_first "the pull request is " _ refl) refl))))

-- A merge is the one that was waited for exactly if it went into the base branch from a branch of the
-- target repository, the merge commit is a full commit id, the verified candidate and the merged head
-- have forty characters each, and they are the same, up to case.
pub merge_problem_lem :
    (c : Config) (h : Head) (r : Repair) (merge_sha : String)
    → is_blank (merge_problem c h r merge_sha) ≡ (
        h.base_ref == c.base_branch
        && (h.head_repo == c.target_repo
            && (is_full_sha merge_sha
                && (not (
                      not (char_count (lower r.pr_head_sha) == 40)
                      || not (char_count (lower h.head_sha) == 40))
                    && (lower h.head_sha == lower r.pr_head_sha && true)))))
unfolding merge_problem
merge_problem_lem c h r merge_sha =
    is_blank-guard (h.base_ref == c.base_branch) _ _ _
      (is_blank-concat_first "it went into " _ refl)
      (is_blank-guard (h.head_repo == c.target_repo) _ _ _
        (is_blank-concat_first "the head branch lives in " _ refl)
        (is_blank-guard (is_full_sha merge_sha) _ _ _ refl (
          is_blank-veto
            (not (char_count (lower r.pr_head_sha) == 40)
              || not (char_count (lower h.head_sha) == 40))
            _ _ _
            (is_blank-concat_first
              "the verified candidate or the merged head is not a full commit id (verified " _ refl)
            (is_blank-guard (lower h.head_sha == lower r.pr_head_sha) _ _ _
              (is_blank-concat_first "the merged head " _ refl) refl))))
