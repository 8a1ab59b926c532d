-- ===== src/Controller/Verdicts.antt =====
-- portal/controller.py: the independent verdict on a candidate, and what follows from it.
use devin_automation.Prelude.{
  ℕ, suc, String, Bool, true, false, not, ◌&&◌, ◌||◌, Option, none, some, List, [], ◌∷◌, concat,
  is_blank, or_text, short, leb, if◌then◌else◌,
}
use devin_automation.Repairs.Types.{
  State, Repair, Verdict, VerdictKind, passed, failed, blocked, message, Intent, IntentState,
}
use devin_automation.Controller.Exec.{
  Exc, fault, parked, Exec, pure, raise, ask, tell, attempt, on_row, ◌>>=◌, ◌>>◌, opened,
  terminated,
}
use devin_automation.Controller.Providers.{ambiguous, Providers, Outcome, Texts, Config}
use devin_automation.Controller.Base.{
  Decision, decide, max_follow_ups, scope, fault_text, is_named, now, get, update, intend, settle,
  exceeded, stop, release_slot, incident_of,
}
use devin_automation.Controller.Dispatch.{is_intended, is_ambiguous, is_confirmed}
use devin_automation.Controller.Polling.{park}

abbrev pub is_candidate : State → Bool
is_candidate State.candidate = true
is_candidate _ = false

-- The name of a state, as the database holds it.
state_text : State → String
state_text State.proposed = "proposed"
state_text State.dispatched = "dispatched"
state_text State.candidate = "candidate"
state_text State.verified = "verified_in_preview"
state_text State.awaiting_merge = "awaiting_merge"
state_text State.merged = "verified_after_merge"
state_text State.needs_attention = "needs_attention"
state_text State.terminal = "terminal"

unfoldable pub record_of : Outcome → ℕ → Verdict
record_of o at = record {
  verdict = o.verdict;
  reason = o.reason;
  sha = o.candidate_sha;
  attempt_id = o.record_id;
  checks = o.checks;
  at = at;
}

-- The marker of a follow-up.
unfoldable pub follow_up_mark : Config → Repair → String → String
follow_up_mark c r sha =
    concat (scope c.run ∷ r.fingerprint ∷ ":" ∷ or_text sha "no-sha" ∷ ":follow-up" ∷ [])

module _ {W : Type 0} (p : Providers W) (t : Texts) (c : Config) where
  -- The handler around the delivery of a follow-up.
  unfoldable pub not_delivered : ℕ → ℕ → Exc → Exec W (Option Decision)
  unfolding settle park
  not_delivered id intent (fault (ambiguous why)) = do
    settle p intent IntentState.ambiguous why
    park p t c id (concat ("follow-up delivery outcome unknown (" ∷ why ∷ ")" ∷ []))
    pure (some (decide "parked" why id))
  not_delivered id intent x = raise x

  unfoldable pub send_follow_up : Repair → List String → String → Intent → Exec W Decision
  unfolding not_delivered settle update
  send_follow_up r failures mark intent = do
    problem ←
        attempt
          (do
            tell (opened message r.id mark) (
                p.send_message r.session_id
                  (t.follow_up_message failures r.agent_pr_url r.pr_head_sha))
            pure none)
          (not_delivered r.id intent.id)
    on_row problem
        (do
          settle p intent.id IntentState.confirmed mark
          update p r.id
              λ row. record row { state = State.dispatched; follow_ups = suc r.follow_ups }
          pure (decide "followed_up" mark r.id))
        pure

  unfoldable pub follow_up_once : Repair → List String → String → Intent → Bool → Exec W Decision
  unfolding send_follow_up
  follow_up_once r failures mark intent mine =
      if is_confirmed intent.state
      then pure (decide "skipped" "this follow-up was already delivered" r.id)
      else if not mine && is_intended intent.state
      then pure (decide "deferred" "another worker is delivering this follow-up" r.id)
      else if is_ambiguous intent.state
      then raise (parked "a follow-up may already have been delivered; resolve by hand")
      else send_follow_up r failures mark intent

  unfoldable pub follow_up : Repair → List String → String → Exec W Decision
  unfolding intend follow_up_once
  follow_up r failures mark = do
    (intent, mine) ← intend p r.id message mark
    follow_up_once r failures mark intent mine

  -- `feedback`, once the budget is read: "" is within it.
  unfoldable pub feedback_within : Repair → List String → String → String → Exec W Decision
  unfolding stop follow_up follow_up_mark
  feedback_within r failures candidate_sha spent =
      if not (is_blank spent)
      then (do stop p t c r.id spent; pure (decide "stopped" spent r.id))
      else if leb max_follow_ups r.follow_ups
      then (do
        stop p t c r.id "2 repair follow-ups used without a verified fix"
        pure (decide "stopped" "follow-up limit reached" r.id))
      else follow_up r failures (follow_up_mark c r (or_text candidate_sha r.pr_head_sha))

  unfoldable pub feedback_row : Repair → List String → String → Exec W Decision
  unfolding exceeded feedback_within state_text
  feedback_row r failures candidate_sha =
      if not c.has_devin
      then pure (decide "skipped" "nothing to talk to" r.id)
      else if not (is_candidate r.state)
      then pure (decide "skipped" (concat ("repair is " ∷ state_text r.state ∷ [])) r.id)
      else (do
        spent ← exceeded p t c r r.agent_acus
        feedback_within r failures candidate_sha spent)

  unfoldable pub feedback : ℕ → List String → String → Exec W Decision
  unfolding get feedback_row
  feedback id failures candidate_sha = do
    row ← get p id
    on_row row (pure (decide "skipped" "nothing to talk to" id))
        λ r. feedback_row r failures candidate_sha

  -- The handlers of `_release_after_verification`: the claim is held.
  unfoldable pub not_stopped : ℕ → Exc → Exec W Bool
  unfolding update
  not_stopped id (fault f) =
      if is_named f
      then (do
        update p id λ row. record row {
          attention = concat (
              "the fix is verified, but the session could not be confirmed stopped ("
              ∷ fault_text f
              ∷ "); the claim is held"
              ∷ []);
        }
        pure false)
      else raise (fault f)
  not_stopped id x = raise x

  unfoldable pub release_row : Repair → Exec W Unit
  unfolding not_stopped release_slot
  release_row r = if not c.has_devin || is_blank r.session_id then release_slot p r.id else do
    ended ←
        attempt
          (do tell (terminated r.id r.session_id) (p.terminate_session r.session_id); pure true)
          (not_stopped r.id)
    if ended then release_slot p r.id else pure tt

  unfoldable pub release_after_verification : ℕ → Exec W Unit
  unfolding get release_row
  release_after_verification id = do row ← get p id; on_row row (pure tt) release_row

  -- What a pass in preview does: it ends the repair, or it waits for a human to merge.
  unfoldable pub preview_passed : ℕ → Outcome → Exec W Decision
  unfolding update release_after_verification
  preview_passed id o =
      if c.merge_gate
      then (do
        update p id λ row. record row {
          state = State.awaiting_merge;
          attention = concat (
              "verified in preview on "
              ∷ short o.candidate_sha
              ∷ "; waiting for a human to merge the pull request into "
              ∷ c.base_branch
              ∷ []);
        }
        pure (decide "awaiting_merge" o.candidate_sha id))
      else (do
        update p id λ row. record row {
          state = State.verified;
          terminal_reason = concat ("independently verified on " ∷ short o.candidate_sha ∷ []);
        }
        release_after_verification id
        pure (decide "verified" o.candidate_sha id))

  unfoldable pub act_on : VerdictKind → ℕ → Outcome → Exec W Decision
  unfolding preview_passed park feedback
  act_on passed id o = preview_passed id o
  act_on blocked id o = do
    park p t c id (concat ("verification could not answer the question: " ∷ o.reason ∷ []))
    pure (decide "blocked" o.reason id)
  act_on failed id o = feedback id o.failures o.candidate_sha

  unfoldable pub verify_row : Repair → Exec W Decision
  unfolding park incident_of now update act_on record_of
  verify_row r =
      if not c.has_verifier
      then (do
        park p t c r.id "a candidate is waiting but no verifier is configured"
        pure (decide "parked" "no verifier configured" r.id))
      else (do
        i ← incident_of p r.incident_id
        o ← ask (p.verify r i "")
        at ← now p
        update p r.id (λ row. record row { verification = some (record_of o at) })
        act_on o.verdict r.id o)

  unfoldable pub verify : ℕ → Exec W Decision
  unfolding get verify_row
  verify id = do row ← get p id; on_row row (pure (decide "skipped" "no such repair" id)) verify_row
