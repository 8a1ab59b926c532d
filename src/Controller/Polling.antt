-- ===== src/Controller/Polling.antt =====
-- portal/controller.py: reading the session's own report, and what a candidate is.
use devin_automation.Prelude.{
  ℕ, String, Bool, true, false, not, ◌&&◌, ◌||◌, Option, none, some, List, [], ◌∷◌, concat,
  is_blank, or_text, ◌==◌, string_eq, lower, is_full_sha, inl, inr, ◌⊎◌, if◌then◌else◌,
}
use devin_automation.Repairs.Types.{State, Repair, Report}
use devin_automation.Controller.Exec.{
  Exc, fault, value_error, Exec, pure, raise, ask, attempt, on_row, ◌>>=◌, ◌>>◌,
}
use devin_automation.Controller.Providers.{
  runtime, died, Session, Head, Providers, Texts, Config, agent_finished, waiting_for_user, waiting,
  stopped,
}
use devin_automation.Controller.Base.{
  Decision, decide, pr_number, fault_text, is_named, detail_text, get, update, exceeded, stop,
  release_slot,
}

-- `str(detail or "")`
detail_or_blank : Option String → String
detail_or_blank none = ""
detail_or_blank (some text) = text

abbrev is_none {ℓ} : {A : Type ℓ} → Option A → Bool
is_none none = true
is_none (some a) = false

abbrev no_rows {ℓ} : {A : Type ℓ} → List A → Bool
no_rows [] = true
no_rows (x ∷ xs) = false

abbrev first_text : List String → String
first_text [] = ""
first_text (x ∷ xs) = x

-- `poll`'s rule: finished, or handed over a result before it asked a question.
unfoldable pub delivered : Session → Bool
delivered s =
    agent_finished s
    || (waiting_for_user s && (not (is_none s.structured_output) && not (no_rows s.pull_requests)))

is_product_defect : Option String → Bool
is_product_defect none = false
is_product_defect (some text) = text == "product_defect"

-- `_pr_problem`: "" or why the pull request cannot be verified.
unfoldable pub pr_problem : Config → Head → String
pr_problem c h =
    if not (h.base_ref == c.base_branch)
    then concat
        ("targets " ∷ or_text h.base_ref "an unknown branch" ∷ ", not " ∷ c.base_branch ∷ [])
    else if not (h.head_repo == c.target_repo)
    then concat (
        "the head branch lives in "
        ∷ or_text h.head_repo "an unknown repository"
        ∷ ", not "
        ∷ c.target_repo
        ∷ [])
    else if not (is_full_sha (lower h.head_sha))
    then "the head SHA is not a full commit id"
    else if h.merged
    then "the pull request is already merged"
    else if not (h.state == "open")
    then concat ("the pull request is " ∷ or_text h.state "in an unreported state" ∷ [])
    else ""

module _ {W : Type 0} (p : Providers W) (t : Texts) (c : Config) where
  -- A row that needs a human.
  unfoldable pub park : ℕ → String → Exec W Unit
  unfolding update
  park id why = update p id (λ row. record row { state = State.needs_attention; attention = why })

  -- A URL without a usable number is a ValueError; a missing client is an AssertionError.
  unfoldable pub head_of : Option ℕ → Exec W Head
  head_of none = raise (value_error "pull request URL is not usable")
  head_of (some number) =
      if c.has_github then ask (p.pull_request_head number) else raise (fault died)

  -- `_number_of` and the read of the head.
  unfoldable pub read_head : String → Exec W Head
  unfolding pr_number head_of
  read_head url = head_of (pr_number url c.target_repo)

  -- The handlers of `_candidate`: ValueError and RuntimeError.
  unfoldable pub unusable : ℕ → String → Exc → Exec W Decision
  unfolding update
  unusable id url (value_error why) = do
    update p id λ row. record row {
      state = State.needs_attention;
      agent_pr_url = url;
      attention = concat ("pull request not usable: " ∷ why ∷ []);
    }
    pure (decide "parked" why id)
  unusable id url (fault (runtime why)) = do
    update p id λ row. record row {
      state = State.needs_attention;
      agent_pr_url = url;
      attention = concat ("pull request not usable: " ∷ why ∷ []);
    }
    pure (decide "parked" why id)
  unusable id url x = raise x

  unfoldable pub accept_head : ℕ → String → Head → Exec W Decision
  unfolding update
  accept_head id url head =
      let problem = pr_problem c head in
      if not (is_blank problem)
      then (do
        update p id λ row. record row {
          state = State.needs_attention;
          agent_pr_url = url;
          attention = concat ("pull request not usable: " ∷ problem ∷ []);
        }
        pure (decide "parked" problem id))
      else (do
        update p id λ row. record row {
          state = State.candidate;
          agent_pr_url = url;
          pr_head_sha = head.head_sha;
        }
        pure (decide "candidate" url id))

  unfoldable pub candidate_report : ℕ → Session → Report → Exec W Decision
  unfolding park update release_slot read_head unusable accept_head is_product_defect
  candidate_report id s report =
      if not report.reproduced
      then (do
        park id (
            concat (
              "session did not reproduce the failure before changing code (classification: "
              ∷ detail_text report.classification
              ∷ ")"
              ∷ []))
        pure (decide "parked" "not reproduced" id))
      else if not (is_product_defect report.classification)
      then (do
        update p id λ row. record row {
          state = State.terminal;
          terminal_reason =
              concat
                ("classified as " ∷ detail_text report.classification ∷ ", no code change" ∷ []);
        }
        release_slot p id
        pure (decide "classified" (detail_text report.classification) id))
      else (let url = or_text report.pr_url (first_text s.pull_requests) in
          attempt (do head ← read_head url; accept_head id url head) (unusable id url))

  -- `_candidate`
  unfoldable pub candidate_row : ℕ → Session → Exec W Decision
  unfolding park candidate_report
  candidate_row id s =
      on_row s.structured_output
        (do
          park id "session finished without the required structured output"
          pure (decide "parked" "no structured output" id))
        (candidate_report id s)

  unfoldable pub over_budget : Repair → Session → String → Exec W Decision
  unfolding stop detail_or_blank
  over_budget r s spent =
      if is_blank spent
      then pure (decide "running" (detail_or_blank s.status_detail) r.id)
      else (do stop p t c r.id spent; pure (decide "stopped" spent r.id))

  -- What `poll` decides from the answer of the session.
  unfoldable pub poll_answer : Repair → Session → Exec W Decision
  unfolding park candidate_row exceeded over_budget
  poll_answer r s =
      if stopped s
      then (do
        park r.id (concat ("session " ∷ s.status ∷ " (" ∷ detail_text s.status_detail ∷ ")" ∷ []))
        pure (decide "parked" (concat ("session " ∷ s.status ∷ [])) r.id))
      else if waiting s && not (delivered s)
      then (do
        park r.id (concat ("session is " ∷ detail_text s.status_detail ∷ []))
        pure (decide "waiting" (detail_text s.status_detail) r.id))
      else if delivered s
      then candidate_row r.id s
      else (do spent ← exceeded p t c r s.acus_consumed; over_budget r s spent)

  -- `poll`, once the session has answered.
  unfoldable pub poll_session : Repair → Session → Exec W Decision
  unfolding update poll_answer
  poll_session r s = do
    update p r.id λ row. record row {
      agent_status = s.status;
      agent_detail = s.status_detail;
      agent_acus = s.acus_consumed;
      agent_output = s.structured_output;
    }
    poll_answer r s

  unfoldable pub poll_either : Repair → Session ⊎ Decision → Exec W Decision
  unfolding poll_session
  poll_either r (inl s) = poll_session r s
  poll_either r (inr d) = pure d

  -- The handlers of `poll`.
  unfoldable pub unread_session : ℕ → Exc → Exec W Decision
  unfolding park
  unread_session id (fault f) =
      if is_named f
      then (do
        park id (concat ("session state could not be read: " ∷ fault_text f ∷ []))
        pure (decide "parked" (concat ("poll failed: " ∷ fault_text f ∷ [])) id))
      else raise (fault f)
  unread_session id x = raise x

  unfoldable pub poll_row : Repair → Exec W Decision
  unfolding poll_either unread_session
  poll_row r =
      if is_blank r.session_id || not c.has_devin
      then pure (decide "skipped" "nothing in flight" r.id)
      else (do
        answer ←
            attempt (do s ← ask (p.get_session r.session_id); pure (inl s))
              (λ x. do d ← unread_session r.id x; pure (inr d))
        poll_either r answer)

  unfoldable pub poll : ℕ → Exec W Decision
  unfolding get poll_row
  poll id = do row ← get p id; on_row row (pure (decide "skipped" "nothing in flight" id)) poll_row

  unfoldable pub unread_usage : Repair → Exc → Exec W (Option Repair × String)
  unread_usage r (fault f) =
      if is_named f
      then pure (some r, concat ("session state could not be read: " ∷ fault_text f ∷ []))
      else raise (fault f)
  unread_usage r x = raise x

  unfoldable pub refresh_row : Repair → Exec W (Option Repair × String)
  unfolding update get unread_usage
  refresh_row r =
      if not c.has_devin || is_blank r.session_id
      then pure (some r, "")
      else attempt
          (do
            s ← ask (p.get_session r.session_id)
            update p r.id λ row. record row {
              agent_status = s.status;
              agent_detail = s.status_detail;
              agent_acus = s.acus_consumed;
            }
            row ← get p r.id
            pure (row, ""))
          (unread_usage r)

  -- `_refresh_usage`: the row with its current usage, and why the session was not readable.
  unfoldable pub refresh_usage : ℕ → Exec W (Option Repair × String)
  unfolding get refresh_row
  refresh_usage id = do row ← get p id; on_row row (pure (none, "no such repair")) refresh_row
