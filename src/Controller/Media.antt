-- ===== src/Controller/Media.antt =====
-- portal/controller.py: the recordings that a repair owes, from the request to a file on disk.
use devin_automation.Prelude.{
  ◌⊎◌, inl, inr, ◌++◌, ℕ, ◌+◌, String, Bool, true, false, not, ◌&&◌, ◌||◌, Option, none, some, List,
  [], ◌∷◌, concat, is_blank, or_text, ltb, ◌==◌, string_eq, lower, upper, strip, short, keep, mem,
  if◌then◌else◌,
}
use devin_automation.Incidents.Types.{Incident}
use devin_automation.Registry.{cases_for}
use devin_automation.Repairs.Types.{
  Repair, Verdict, Stage, symptom, after_merge, MediaState, pending, requested, captured, delivered,
  failed, message, Intent, IntentState,
}
use devin_automation.Controller.Exec.{
  Exc, fault, Exec, pure, raise, ask, tell, attempt, on_row, ◌>>=◌, ◌>>◌, opened,
}
use devin_automation.Controller.Providers.{
  refused, runtime, ambiguous, Attachment, Capture, Providers, Texts, Config,
}
use devin_automation.Controller.Base.{
  Decision, decide, scope, is_named, fault_text, now, get, update, intend, settle, end_session,
  release_slot, incident_of,
}
use devin_automation.Controller.Dispatch.{is_intended}

abbrev pub max_media_polls : ℕ
max_media_polls = 60

-- `CLOCK_TOLERANCE`
abbrev pub clock_tolerance : ℕ
clock_tolerance = 120000

abbrev pub is_unresolved : Option MediaState → Bool
is_unresolved (some pending) = true
is_unresolved (some requested) = true
is_unresolved (some captured) = true
is_unresolved _ = false

abbrev pub is_pending : Option MediaState → Bool
is_pending (some pending) = true
is_pending _ = false

abbrev pub is_captured : Option MediaState → Bool
is_captured (some captured) = true
is_captured _ = false

abbrev pub is_failed : MediaState → Bool
is_failed failed = true
is_failed _ = false

abbrev is_delivered : MediaState → Bool
is_delivered delivered = true
is_delivered _ = false

-- `media_stage or AFTER_MERGE`
abbrev pub stage_of : Repair → Stage
stage_of r = elim r.media_stage [ none ↦ after_merge | some stage ↦ stage ]

unfoldable pub stage_text : Stage → String
stage_text symptom = "symptom"
stage_text after_merge = "post-merge"

abbrev pub same_stage : Stage → Stage → Bool
same_stage symptom symptom = true
same_stage after_merge after_merge = true
same_stage _ _ = false

media_word : MediaState → String
media_word pending = "pending"
media_word requested = "requested"
media_word captured = "captured"
media_word delivered = "delivered"
media_word failed = "failed"

unfoldable pub state_word : Option MediaState → String
unfolding media_word
state_word none = "not owed"
state_word (some state) = media_word state

-- portal/media.py, `capture_problem`: "" or why the capture cannot stand for the commit.
unfoldable pub capture_problem : Capture → String → String → Stage → String
unfolding stage_text
capture_problem capture sha case_name stage =
    if not (same_stage capture.stage stage)
    then concat
        ("the capture is " ∷ stage_text capture.stage ∷ " footage, not " ∷ stage_text stage ∷ [])
    else if not (capture.sha == lower (strip sha))
    then concat ("the capture names " ∷ short capture.sha ∷ ", not " ∷ short sha ∷ [])
    else if not (is_blank case_name) && not (capture.case_name == upper case_name)
    then concat ("the capture is of " ∷ capture.case_name ∷ ", not " ∷ upper case_name ∷ [])
    else ""

-- The marker of a recording request.
unfoldable pub media_mark : Config → Repair → String → Stage → String
unfolding stage_text
media_mark c r subject stage =
    concat (scope c.run ∷ r.fingerprint ∷ ":" ∷ subject ∷ ":" ∷ stage_text stage ∷ "-media" ∷ [])

-- `_media_case`: the one case that is no control, or "".
unfoldable pub only_defect : List String → String
only_defect registered = sole (keep (λ name. not (mem name ("N1" ∷ []))) registered)
  where
    sole : List String → String
    sole (name ∷ []) = name
    sole _ = ""

-- `"; ".join(rejected[:3])`
first_three : List String → String
first_three [] = ""
first_three (a ∷ []) = a
first_three (a ∷ b ∷ []) = concat (a ∷ "; " ∷ b ∷ [])
first_three (a ∷ b ∷ c ∷ rest) = concat (a ∷ "; " ∷ b ∷ "; " ∷ c ∷ [])

abbrev pub verdict_time : Option Verdict → Option ℕ
verdict_time none = none
verdict_time (some v) = some v.at

abbrev pub asked_time : Option ℕ → Option Verdict → Option ℕ
asked_time (some at) v = some at
asked_time none v = verdict_time v

module _ {W : Type 0} (p : Providers W) (t : Texts) (c : Config) where
  -- What `_settle_media` writes and answers for the symptom.
  unfoldable pub settle_symptom : ℕ → MediaState → String → String → Exec W Decision
  unfolding update
  settle_symptom id state detail file_id = do
    update p id λ row. record row {
      media_state = some state;
      media_detail = detail;
      media_file_id = or_text file_id row.media_file_id;
    }
    pure (decide (if is_delivered state then "media_delivered" else "media_failed") detail id)

  -- What it writes after the merge, once the session has been told to end.
  unfoldable pub close_merged : ℕ → MediaState → String → String → String → Exec W Decision
  unfolding update release_slot
  close_merged id state detail file_id problem = do
    let said = if is_blank problem then detail else concat (detail ∷ "; " ∷ problem ∷ [])
    update p id λ row. record row {
      media_state = some state;
      media_detail = said;
      media_file_id = or_text file_id row.media_file_id;
      attention =
          if not (is_blank problem)
          then concat (
              "session may still be running; the claim is held until someone resolves it: "
              ∷ problem ∷ [])
          else if is_failed state
          then concat ("the merged commit is verified; its recording is not: " ∷ said ∷ [])
          else row.attention;
    }
    if is_blank problem then release_slot p id else pure tt
    pure (decide (if is_delivered state then "media_delivered" else "media_failed") said id)

  unfoldable pub settle_stage : Stage → Repair → MediaState → String → String → Exec W Decision
  unfolding settle_symptom close_merged end_session
  settle_stage symptom r state detail file_id = settle_symptom r.id state detail file_id
  settle_stage after_merge r state detail file_id = do
    problem ← end_session p t c r
    close_merged r.id state detail file_id problem

  -- `_settle_media`; `held` is never passed.
  unfoldable pub settle_media : ℕ → MediaState → String → String → Exec W Decision
  unfolding get settle_stage close_merged
  settle_media id state detail file_id = do
    row ← get p id
    on_row row (close_merged id state detail file_id "")
        λ r. settle_stage (stage_of r) r state detail file_id

  unfoldable pub media_failed : ℕ → String → Exec W Decision
  unfolding settle_media
  media_failed id detail = settle_media id failed detail ""

  unfoldable pub media_delivered : ℕ → String → String → Exec W Decision
  unfolding settle_media media_failed
  media_delivered id file_id detail =
      if is_blank file_id
      then media_failed id (or_text detail "Slack returned no file id")
      else settle_media id delivered detail file_id

  baseline_sha : Option Incident → String
  baseline_sha none = ""
  baseline_sha (some i) = lower i.baseline_sha

  unfoldable pub media_sha : Repair → Stage → Exec W String
  unfolding incident_of baseline_sha
  media_sha r symptom = do i ← incident_of p r.incident_id; pure (baseline_sha i)
  media_sha r after_merge = pure (lower r.merge_commit_sha)

  cases_of : Option Incident → List String
  unfolding cases_for
  cases_of none = cases_for ""
  cases_of (some i) = cases_for i.family

  unfoldable pub media_case : Repair → Exec W String
  unfolding incident_of only_defect cases_of
  media_case r = do i ← incident_of p r.incident_id; pure (only_defect (cases_of i))

  -- `_stale_capture`: the reference is the request's time, or the verdict's.
  unfoldable pub stale_capture : Repair → Capture → ℕ → String
  stale_capture r capture at = elim (asked_time r.media_asked_at r.merge_verification) [
    | none ↦ "there is no readable time to judge this capture against"
    | some asked ↦
        if ltb (capture.recorded_at + clock_tolerance) asked
        then concat (
            "the capture is stamped "
            ∷ t.time capture.recorded_at
            ∷ ", before the merged commit's recording was requested"
            ∷ [])
        else if ltb (at + clock_tolerance) capture.recorded_at
        then concat
            ("the capture is stamped " ∷ t.time capture.recorded_at ∷ ", in the future" ∷ [])
        else ""
  ]

  unfoldable pub capture_fault : Repair → Capture → String → String → Stage → ℕ → String
  unfolding capture_problem stale_capture
  capture_fault r capture subject case_name stage at =
      or_text (capture_problem capture subject case_name stage) (stale_capture r capture at)

  -- The loop of `_find_capture`: the first attachment of the session that fits, or the problems of
  -- those that do not.
  unfoldable pub first_capture :
      Repair
      → String
      → String
      → Stage
      → ℕ
      → List String
      → List Attachment
      → (Attachment × Capture) ⊎ String
  unfolding capture_fault first_three
  first_capture r subject case_name stage at rejected [] = inr (first_three rejected)
  first_capture r subject case_name stage at rejected (a ∷ rest) =
      let skip = first_capture r subject case_name stage at rejected rest in
      if not (a.source == "devin") then skip else elim (p.capture_of a.name) [
        | none ↦ skip
        | some capture ↦
            let problem = capture_fault r capture subject case_name stage at in
            let later =
              first_capture r subject case_name stage at (rejected ++ problem ∷ []) rest in
            if is_blank problem then inl (a, capture) else later
      ]

  unfoldable pub unread_attachments : Exc → Exec W (List Attachment ⊎ String)
  unfolding fault_text
  unread_attachments (fault f) =
      if is_named f
      then pure
          (inr (concat ("the session's attachments could not be listed: " ∷ fault_text f ∷ [])))
      else raise (fault f)
  unread_attachments x = raise x

  unfoldable pub search_listed :
      Repair → Stage → String → List Attachment ⊎ String → Exec W ((Attachment × Capture) ⊎ String)
  unfolding media_case now first_capture
  search_listed r stage subject (inr problem) = pure (inr problem)
  search_listed r stage subject (inl listed) = do
    case_name ← media_case r
    at ← now p
    pure (
        if is_blank case_name
        then inr "this failure family does not name one defect case to record"
        else first_capture r subject case_name stage at [] listed)

  -- `_find_capture`
  unfoldable pub find_capture : Repair → Stage → String → Exec W ((Attachment × Capture) ⊎ String)
  unfolding unread_attachments search_listed
  find_capture r stage subject = do
    listed ←
        attempt (do l ← ask (p.session_attachments r.session_id); pure (inl l)) unread_attachments
    search_listed r stage subject listed

  -- The handlers around the request for a recording.
  unfoldable pub not_asked : ℕ → Exc → Exec W (MediaState × String)
  unfolding settle
  not_asked intent (fault (refused why)) = do
    settle p intent IntentState.ambiguous why
    pure (failed, concat ("the recording request was refused (" ∷ why ∷ ")" ∷ []))
  not_asked intent (fault (runtime why)) = do
    settle p intent IntentState.ambiguous why
    pure (
      requested,
      concat (
          "the recording request may have been delivered (" ∷ why
          ∷ "); waiting for the capture rather than asking again" ∷ []),
    )
  not_asked intent (fault (ambiguous why)) = do
    settle p intent IntentState.ambiguous why
    pure (
      requested,
      concat (
          "the recording request may have been delivered (" ∷ why
          ∷ "); waiting for the capture rather than asking again" ∷ []),
    )
  not_asked intent x = raise x

  media_message : Repair → Stage → String → String → String
  media_message r symptom subject case_name = t.symptom_message subject case_name
  media_message r after_merge subject case_name =
      t.post_merge_message subject c.base_branch r.agent_pr_url r.pr_head_sha case_name

  unfoldable pub send_request :
      Repair → Stage → String → String → Intent → String → Exec W (MediaState × String)
  unfolding settle not_asked media_message
  send_request r stage subject mark intent case_name =
      if is_blank case_name
      then (do
        settle p intent.id IntentState.ambiguous "no single defect case to record"
        pure (failed, "this failure family does not name one defect case to record"))
      else attempt
          (do
            tell (opened message r.id mark)
                (p.send_message r.session_id (media_message r stage subject case_name))
            settle p intent.id IntentState.confirmed mark
            pure (requested, "the recording request was delivered"))
          (not_asked intent.id)

  unfoldable pub ask_once :
      Repair → Stage → String → String → Intent → Bool → Exec W (MediaState × String)
  unfolding media_case send_request stage_text
  ask_once r stage subject mark intent mine =
      if not (is_intended intent.state) || not mine
      then pure (requested, concat ("this " ∷ stage_text stage ∷ " request was already made" ∷ []))
      else (do case_name ← media_case r; send_request r stage subject mark intent case_name)

  unfoldable pub ask_row : Repair → Stage → String → Exec W (MediaState × String)
  unfolding intend ask_once media_mark
  ask_row r stage subject = do
    let mark = media_mark c r subject stage
    (intent, mine) ← intend p r.id message mark
    ask_once r stage subject mark intent mine

  -- `_ask_for_media`
  unfoldable pub ask_for_media : ℕ → Stage → String → Exec W (MediaState × String)
  unfolding get ask_row
  ask_for_media id stage subject = do
    row ← get p id
    on_row row (pure (failed, "there is no session to ask for a recording")) λ r.
        if not c.has_devin
        then pure (failed, "there is no session to ask for a recording")
        else ask_row r stage subject
