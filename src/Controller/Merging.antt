-- ===== src/Controller/Merging.antt =====
-- portal/controller.py, `check_merge`: waiting for a human merge, and grading what it produced.
use devin_automation.Prelude.{
  ℕ, String, not, ◌||◌, none, some, [], ◌∷◌, concat, is_blank, or_text, ◌==◌, nat_eq, string_eq,
  lower, short, is_full_sha, char_count, ◌⊎◌, inl, inr, if◌then◌else◌,
}
use devin_automation.Repairs.Types.{
  State, Repair, Verdict, VerdictKind, passed, failed, blocked, Stage, MediaState,
}
use devin_automation.Controller.Exec.{
  Exc, fault, value_error, Exec, pure, raise, ask, attempt, on_row, ◌>>=◌, ◌>>◌,
}
use devin_automation.Controller.Providers.{
  ambiguous, runtime, Head, Outcome, Providers, Texts, Config,
}
use devin_automation.Controller.Base.{Decision, decide, now, update, exceeded, stop, incident_of}
use devin_automation.Controller.Polling.{park, read_head, refresh_usage}

-- `_merge_problem`: "" or why this is not the merge that was waited for.
unfoldable pub merge_problem : Config → Head → Repair → String → String
merge_problem c h r merge_sha =
    if not (h.base_ref == c.base_branch)
    then concat
        ("it went into " ∷ or_text h.base_ref "an unknown branch" ∷ ", not " ∷ c.base_branch ∷ [])
    else if not (h.head_repo == c.target_repo)
    then concat (
        "the head branch lives in "
        ∷ or_text h.head_repo "an unknown repository"
        ∷ ", not "
        ∷ c.target_repo
        ∷ [])
    else if not (is_full_sha merge_sha)
    then "the merge commit is not a full commit id"
    else if not (char_count (lower r.pr_head_sha) == 40)
        || not (char_count (lower h.head_sha) == 40)
    then concat (
        "the verified candidate or the merged head is not a full commit id (verified "
        ∷ or_text (short (lower r.pr_head_sha)) "none"
        ∷ ", merged "
        ∷ or_text (short (lower h.head_sha)) "none"
        ∷ ")"
        ∷ [])
    else if not (lower h.head_sha == lower r.pr_head_sha)
    then concat (
        "the merged head "
        ∷ short (lower h.head_sha)
        ∷ " is not the verified candidate "
        ∷ short (lower r.pr_head_sha)
        ∷ [])
    else ""

-- The record of a post-merge verification names the merge commit.
unfoldable pub merge_record : Outcome → String → ℕ → Verdict
merge_record o merge_sha at = record {
  verdict = o.verdict;
  reason = o.reason;
  sha = merge_sha;
  attempt_id = o.record_id;
  checks = o.checks;
  at = at;
}

module _ {W : Type 0} (p : Providers W) (t : Texts) (c : Config) where
  -- The merged commit passed: its recording is owed from here on.
  unfoldable pub merge_passed : Repair → String → Exec W Decision
  unfolding update
  merge_passed r merge_sha = do
    update p r.id λ row. record row {
      state = State.merged;
      attention = "";
      terminal_reason = concat (
          "verified after merge on "
          ∷ short merge_sha
          ∷ " (preview "
          ∷ short r.pr_head_sha
          ∷ ")"
          ∷ []);
      media_state = some MediaState.pending;
      media_stage = some Stage.after_merge;
      media_detail = "the merged commit passed; its recording is owed";
      media_polls = 0;
      media_path = "";
      media_file_id = "";
      media_asked_at = none;
    }
    pure (decide "merge_verified" merge_sha r.id)

  unfoldable pub merge_unpassed : String → Repair → String → Outcome → Exec W Decision
  unfolding park
  merge_unpassed word r merge_sha o = do
    park p t c r.id (
        concat (
          "the merged commit "
          ∷ short merge_sha
          ∷ " did not pass the same replay: "
          ∷ o.reason
          ∷ []))
    pure (decide word o.reason r.id)

  unfoldable pub judge_merge : VerdictKind → Repair → String → Outcome → Exec W Decision
  unfolding merge_passed merge_unpassed
  judge_merge passed r merge_sha o = merge_passed r merge_sha
  judge_merge blocked r merge_sha o = merge_unpassed "blocked" r merge_sha o
  judge_merge failed r merge_sha o = merge_unpassed "merge_failed" r merge_sha o

  unfoldable pub grade_merge : Repair → String → Exec W Decision
  unfolding incident_of now update judge_merge merge_record
  grade_merge r merge_sha = do
    i ← incident_of p r.incident_id
    o ← ask (p.verify r i merge_sha)
    at ← now p
    update p r.id (λ row. record row { merge_verification = some (merge_record o merge_sha at) })
    judge_merge o.verdict r merge_sha o

  unfoldable pub grade_within : Repair → String → String → Exec W Decision
  unfolding stop grade_merge
  grade_within r merge_sha spent =
      if not (is_blank spent)
      then (do
        stop p t c r.id (
            concat (
              "the pull request was merged as "
              ∷ short merge_sha
              ∷ " but the repair could not verify it: "
              ∷ spent
              ∷ []))
        pure (decide "stopped" spent r.id))
      else grade_merge r merge_sha

  -- The second reading of the usage, before any post-merge work.
  unfoldable pub grade_fresh : ℕ → String → Exec W Decision
  unfolding refresh_usage exceeded grade_within
  grade_fresh id merge_sha = do
    (row, unread) ← refresh_usage p t c id
    on_row row (pure (decide "skipped" "no such repair" id)) λ r.
        if not (is_blank unread)
        then pure (decide "deferred" unread id)
        else (do spent ← exceeded p t c r r.agent_acus; grade_within r merge_sha spent)

  unfoldable pub accept_merge : Repair → String → Exec W Decision
  unfolding update park grade_fresh
  accept_merge r merge_sha = do
    update p r.id (λ row. record row { merge_commit_sha = merge_sha })
    if not c.has_verifier
        then (do
          park p t c r.id "the pull request is merged but no verifier is configured"
          pure (decide "parked" "no verifier configured" r.id))
        else grade_fresh r.id merge_sha

  unfoldable pub merged_head : Repair → Head → String → Exec W Decision
  unfolding park accept_merge merge_problem
  merged_head r h merge_sha =
      let problem = merge_problem c h r merge_sha in
      if not (is_blank problem)
      then (do
        park p t c r.id (concat ("merge not usable: " ∷ problem ∷ []))
        pure (decide "parked" problem r.id))
      else accept_merge r merge_sha

  unfoldable pub judge_head : Repair → Head → Exec W Decision
  unfolding park merged_head
  judge_head r h =
      if not h.merged
      then (if h.state == "open"
          then pure (decide "awaiting_merge" "the pull request is open and unmerged" r.id)
          else (do
            park p t c r.id (
                concat (
                  "the pull request is "
                  ∷ or_text h.state "in an unreported state"
                  ∷ " without having been merged; nothing was accepted"
                  ∷ []))
            pure (decide "parked" "closed without a merge" r.id)))
      else merged_head r h (lower h.merge_commit_sha)

  -- The handlers around the read of the pull request: ValueError, RuntimeError, Ambiguous.
  unfoldable pub unreadable_head : ℕ → Exc → Exec W (Head ⊎ Decision)
  unreadable_head id (value_error why) =
      pure (inr (decide "deferred" (concat ("merge state unreadable: " ∷ why ∷ [])) id))
  unreadable_head id (fault (runtime why)) =
      pure (inr (decide "deferred" (concat ("merge state unreadable: " ∷ why ∷ [])) id))
  unreadable_head id (fault (ambiguous why)) =
      pure (inr (decide "deferred" (concat ("merge state unreadable: " ∷ why ∷ [])) id))
  unreadable_head id x = raise x

  unfoldable pub head_or_decision : Repair → Head ⊎ Decision → Exec W Decision
  unfolding judge_head
  head_or_decision r (inl h) = judge_head r h
  head_or_decision r (inr d) = pure d

  unfoldable pub merge_within : Repair → String → Exec W Decision
  unfolding stop read_head unreadable_head head_or_decision
  merge_within r spent =
      if not (is_blank spent)
      then (do
        stop p t c r.id (
            concat
              ("the merge gate stopped waiting before the pull request was merged: " ∷ spent ∷ []))
        pure (decide "stopped" spent r.id))
      else (do
        answer ←
            attempt (do h ← read_head p t c r.agent_pr_url; pure (inl h)) (unreadable_head r.id)
        head_or_decision r answer)

  unfoldable pub check_merge : ℕ → Exec W Decision
  unfolding refresh_usage exceeded merge_within
  check_merge id = do
    (row, unread) ← refresh_usage p t c id
    on_row row (pure (decide "skipped" "no such repair" id)) λ r.
        if not c.has_github
        then pure (decide "skipped" "no live providers configured" id)
        else (do spent ← exceeded p t c r r.agent_acus; merge_within r spent)
