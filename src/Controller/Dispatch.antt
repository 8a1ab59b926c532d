-- ===== src/Controller/Dispatch.antt =====
-- portal/controller.py: proposals, and the dispatch of one repair to an issue and a session.
use devin_automation.Prelude.{
  ℕ, ◌+◌, ◌*◌, String, Bool, true, false, not, ◌&&◌, ◌||◌, Option, none, some, [], ◌∷◌, concat,
  is_blank, or_text, nat_eq, string_eq, mem, if◌then◌else◌,
}
use devin_automation.Incidents.Types.{
  Incident, Admission, BlockReason, unmatched_checkout, other_baseline, no_fixture,
  scenario_disagrees, dry_run_mode,
}
use devin_automation.Repairs.Types.{
  State, Stage, MediaState, Repair, issue, session, Intent, IntentState,
}
use devin_automation.Repairs.Store
use devin_automation.Controller.Exec.{
  Exc, fault, parked, claimed, Exec, pure, raise, gets, ask, tell, attempt, modify, on_row, ◌>>=◌,
  ◌>>◌, opened,
}
use devin_automation.Controller.Providers.{
  ambiguous, refused, died, Session, Providers, Texts, Config,
}
use devin_automation.Controller.Base.{
  Decision, decide, minute, marker, now, get, update, intend, settle,
}

-- The text of `admission_reason`.
block_text : Option BlockReason → String
block_text none = ""
block_text (some unmatched_checkout) = "running code could not be matched to a checkout"
block_text (some other_baseline) = "baseline does not match the deployment's configured SHA"
block_text (some no_fixture) = "no fixture revision recorded"
block_text (some scenario_disagrees) = "event scenario disagrees with the failure family"
block_text (some dry_run_mode) = "telemetry admission is in dry-run mode"

abbrev pub is_intended : IntentState → Bool
is_intended IntentState.intended = true
is_intended _ = false

abbrev pub is_ambiguous : IntentState → Bool
is_ambiguous IntentState.ambiguous = true
is_ambiguous _ = false

-- `intent["state"] == CONFIRMED and intent["detail"]`
abbrev pub is_confirmed : IntentState → Bool
is_confirmed IntentState.confirmed = true
is_confirmed _ = false

abbrev pub is_settled : Intent → Bool
is_settled intent = is_confirmed intent.state && not (is_blank intent.detail)

abbrev pub is_eligible : Admission → Bool
is_eligible Admission.eligible = true
is_eligible Admission.blocked = false

-- `repair["state"]` in the answers of `consider`.
consider_state : Repair → Decision
consider_state r = by_state r.state
  where
    by_state : State → Decision
    by_state State.proposed = decide "queued" "waiting for the worker to claim the slot" r.id
    by_state State.dispatched = decide "in_flight" "" r.id
    by_state State.candidate = decide "in_flight" "" r.id
    by_state State.awaiting_merge = decide "in_flight" "" r.id
    by_state _ = decide "skipped" (or_text r.terminal_reason r.attention) r.id

module _ {W : Type 0} (p : Providers W) (t : Texts) (c : Config) where
  -- The row that `_propose` inserts.
  unfoldable pub proposal : Incident → Repair
  proposal i = record {
    id = 0;
    fingerprint = i.fingerprint;
    incident_id = i.id;
    simulated = false;
    state = State.proposed;
    attempt = 1;
    follow_ups = 0;
    terminal_reason = "";
    attention = "";
    issue_title = t.issue_title i c.run;
    issue_body = t.issue_body i 1 c.run;
    session_request = t.session_request i 1 "" c.budget_acus c.run c.base_branch;
    issue_url = "";
    session_id = "";
    session_url = "";
    acu_limit = c.budget_acus;
    deadline = none;
    agent_status = "";
    agent_detail = none;
    agent_acus = 0;
    agent_output = none;
    agent_pr_url = "";
    pr_head_sha = "";
    verification = none;
    merge_commit_sha = "";
    merge_verification = none;
    media_state = none;
    media_stage = none;
    media_detail = "";
    media_path = "";
    media_file_id = "";
    media_asked_at = none;
    media_polls = 0;
    created_at = 0;
    updated_at = 0;
  }

  -- The columns that `_propose` would write over an existing row.
  unfoldable pub repropose : Incident → Repair → Repair
  repropose i r = record r {
    incident_id = i.id;
    state = State.proposed;
    attempt = 1;
    issue_title = t.issue_title i c.run;
    issue_body = t.issue_body i 1 c.run;
    session_request = t.session_request i 1 "" c.budget_acus c.run c.base_branch;
    acu_limit = c.budget_acus;
    deadline = none;
  }

  unfoldable pub propose : Incident → Exec W (Option Repair)
  unfolding now proposal repropose
  propose i = do
    at ← now p
    modify (Store.upsert at (proposal i) (repropose i))
    gets (λ s. Store.by_fingerprint i.fingerprint s.store)

  unfoldable pub consider_row : Repair → Decision
  unfolding consider_state
  consider_row r =
      if not c.dispatch_enabled
      then decide "proposed"
          "AUTO_REPAIR_ENABLED=false: the issue body and the Devin request body are recorded, nothing was sent"
          r.id
      else consider_state r

  -- What `consider` answers for the row; one that is not there is an exception that nobody names.
  unfoldable pub answer_row : Option Repair → Exec W Decision
  unfolding consider_row
  answer_row row = on_row row (raise (fault died)) λ r. pure (consider_row r)

  unfoldable pub consider_found : Incident → Option Repair → Exec W Decision
  unfolding propose answer_row
  consider_found i existing = do
    row ← on_row existing (propose i) (λ r. pure (some r))
    answer_row row

  -- `consider`: the row of the fingerprint, proposed now if there is none.
  unfoldable pub consider : Incident → Exec W Decision
  unfolding consider_found block_text
  consider i =
      if not (is_eligible i.admission)
      then pure (record {
        action = "skipped";
        detail = or_text (block_text i.admission_reason) "not eligible";
        repair_id = none;
      })
      else if mem i.state ("verified_in_preview" ∷ "verified_after_merge" ∷ [])
      then pure (record { action = "skipped"; detail = "already verified"; repair_id = none })
      else do
        existing ← gets (λ s. Store.by_fingerprint i.fingerprint s.store)
        consider_found i existing

  -- The handlers around a create: an unknown outcome is settled as such before it is parked.
  unfoldable pub not_created : {A : Type 0} → String → ℕ → Exc → Exec W A
  unfolding settle
  not_created what id (fault (ambiguous text)) = do
    settle p id IntentState.ambiguous text
    raise (parked (concat (what ∷ " creation outcome unknown (" ∷ text ∷ ")" ∷ [])))
  not_created what id (fault (refused text)) =
      raise (parked (concat (what ∷ " creation refused (" ∷ text ∷ ")" ∷ [])))
  not_created what id x = raise x

  unfoldable pub open_issue : Repair → String → Intent → Exec W String
  unfolding not_created settle
  open_issue r mark intent = do
    url ←
        attempt (tell (opened issue r.id mark) (p.create_issue r.issue_title r.issue_body))
          (not_created "issue" intent.id)
    settle p intent.id IntentState.confirmed url
    pure url

  -- `_ensure_issue` after the search: nothing carries the marker yet.
  unfoldable pub issue_missing : Repair → String → Intent → Bool → Exec W String
  unfolding open_issue
  issue_missing r mark intent mine =
      if not mine && is_intended intent.state
      then raise (claimed "another worker is creating the issue for this attempt")
      else if is_ambiguous intent.state
      then raise (
          parked
            "an issue may already have been created for this attempt but cannot be found; resolve it by hand before dispatching again")
      else open_issue r mark intent

  unfoldable pub issue_found : Intent → String → Exec W String
  unfolding settle
  issue_found intent url = do settle p intent.id IntentState.confirmed url; pure url

  unfoldable pub ensure_issue : Repair → String → Exec W String
  unfolding intend issue_found issue_missing
  ensure_issue r mark = do
    (intent, mine) ← intend p r.id issue mark
    if is_settled intent then pure intent.detail else do
      found ← ask (p.find_issue mark)
      on_row found (issue_missing r mark intent mine) (issue_found intent)

  unfoldable pub open_session : Repair → Incident → String → String → Intent → Exec W Session
  unfolding not_created settle update
  open_session r i mark issue_url intent = do
    let request = t.session_request i r.attempt issue_url r.acu_limit c.run c.base_branch
    update p r.id (λ row. record row { session_request = request })
    opened_session ←
        attempt (tell (opened session r.id mark) (p.create_session request))
          (not_created "session" intent.id)
    settle p intent.id IntentState.confirmed opened_session.session_id
    pure opened_session

  unfoldable pub session_missing :
      Repair → Incident → String → String → Intent → Bool → Exec W Session
  unfolding open_session
  session_missing r i mark issue_url intent mine =
      if not mine && is_intended intent.state
      then raise (claimed "another worker is creating the session for this attempt")
      else if is_ambiguous intent.state
      then raise (
          parked
            "a session may already have been created for this attempt but is not findable by its tag; resolve it by hand")
      else open_session r i mark issue_url intent

  unfoldable pub session_found : Intent → Session → Exec W Session
  unfolding settle
  session_found intent found = do
    settle p intent.id IntentState.confirmed found.session_id
    pure found

  unfoldable pub ensure_session : Repair → Incident → String → String → Exec W Session
  unfolding intend session_found session_missing
  ensure_session r i mark issue_url = do
    (intent, mine) ← intend p r.id session mark
    if is_settled intent then ask (p.get_session intent.detail) else do
      found ← ask (p.find_tagged mark)
      on_row found (session_missing r i mark issue_url intent mine) (session_found intent)

  -- The body of the `try` in `dispatch`.
  unfoldable pub dispatched_session : Repair → Incident → String → Exec W Session
  unfolding ensure_issue ensure_session update
  dispatched_session r i mark = do
    issue_url ← if is_blank r.issue_url then ensure_issue r mark else pure r.issue_url
    update p r.id (λ row. record row { issue_url = issue_url })
    ensure_session r i mark issue_url

  unfoldable pub first_deadline : Option ℕ → ℕ → Option ℕ
  first_deadline none fresh = some fresh
  first_deadline (some old) fresh = some old

  -- The rest of `dispatch`, once the session is there.
  unfoldable pub record_session : Repair → Session → Exec W Decision
  unfolding now update first_deadline
  record_session r s = do
    at ← now p
    update p r.id λ row. record row {
      state = State.dispatched;
      deadline = first_deadline r.deadline (at + c.wall_clock_minutes * minute);
      session_id = s.session_id;
      session_url = s.url;
      agent_status = s.status;
      agent_detail = s.status_detail;
      agent_acus = s.acus_consumed;
      media_state = some MediaState.pending;
      media_stage = some Stage.symptom;
      media_polls = 0;
    }
    pure (decide "dispatched" s.url r.id)

  -- The handlers of `dispatch`.
  unfoldable pub not_dispatched : ℕ → Exc → Exec W Decision
  unfolding update
  not_dispatched id (claimed why) = pure (decide "deferred" why id)
  not_dispatched id (parked why) = do
    update p id (λ row. record row { state = State.needs_attention; attention = why })
    pure (decide "parked" why id)
  not_dispatched id x = raise x

  unfoldable pub dispatch_row : Repair → Incident → Exec W Decision
  unfolding dispatched_session record_session not_dispatched
  dispatch_row r i =
      if not c.has_github || not c.has_devin
      then pure
          (record { action = "skipped"; detail = "no live providers configured"; repair_id = none })
      else attempt
          (do s ← dispatched_session r i (marker i.fingerprint r.attempt c.run); record_session r s)
          (not_dispatched r.id)

  unfoldable pub dispatch : ℕ → Incident → Exec W Decision
  unfolding get dispatch_row
  dispatch id i = do
    row ← get p id
    on_row row (pure (record { action = "skipped"; detail = "no such repair"; repair_id = none }))
        λ r. dispatch_row r i
