-- ===== src/Controller/Recording.antt =====
-- portal/controller.py, `check_media`: one pass over a recording that is owed.
use devin_automation.Prelude.{
  ◌⊎◌, inl, inr, ℕ, suc, String, not, ◌&&◌, ◌||◌, Option, none, some, [], ◌∷◌, concat, is_blank,
  or_text, ltb, short, show, if◌then◌else◌,
}
use devin_automation.Repairs.Types.{Repair, Stage, MediaState, captured, failed}
use devin_automation.Controller.Exec.{
  Exc, fault, Exec, pure, raise, gets, ask, attempt, on_row, ◌>>=◌, ◌>>◌,
}
use devin_automation.Controller.Providers.{Fault, Attachment, Capture, Providers, Texts, Config}
use devin_automation.Controller.Base.{Decision, decide, now, get, update, exceeded, past_deadline}
use devin_automation.Controller.Polling.{refresh_usage}
use devin_automation.Controller.Media.{
  max_media_polls, is_unresolved, is_pending, is_captured, is_failed, stage_of, stage_text,
  state_word, settle_media, media_sha, ask_for_media, find_capture,
}

module _ {W : Type 0} (p : Providers W) (t : Texts) (c : Config) where
  -- The handler around the download: `media.MediaError` is a RuntimeError.
  unfoldable pub not_readable : ℕ → Exc → Exec W (Option Decision)
  not_readable id (fault (Fault.runtime why)) =
      pure (
        some (decide "awaiting_media" (concat ("the capture is not readable yet: " ∷ why ∷ [])) id))
  not_readable id x = raise x

  unfoldable pub keep_capture : ℕ → String → Attachment → Capture → Exec W Decision
  unfolding not_readable update
  keep_capture id directory attachment capture = do
    let destination = concat (directory ∷ "/repair-" ∷ show id ∷ "/" ∷ capture.name ∷ [])
    problem ← attempt (do ask (p.download attachment destination); pure none) (not_readable id)
    on_row problem
        (do
          update p id λ row. record row {
            media_state = some captured;
            media_detail = concat (
                or_text capture.case_name "the case"
                ∷ " captured at "
                ∷ t.time capture.recorded_at
                ∷ " on "
                ∷ short capture.sha
                ∷ ", not yet accepted by Slack"
                ∷ []);
            media_path = destination;
          }
          pure (decide "media_captured" destination id))
        pure

  unfoldable pub found_capture : ℕ → Attachment → Capture → Exec W Decision
  unfolding keep_capture settle_media
  found_capture id attachment capture =
      on_row c.media_dir
        (settle_media p t c id failed "no directory is configured to keep a capture" "")
        λ directory. keep_capture id directory attachment capture

  unfoldable pub look_result :
      ℕ → Stage → String → (Attachment × Capture) ⊎ String → Exec W Decision
  unfolding found_capture stage_text
  look_result id stage subject (inl (attachment, capture)) = found_capture id attachment capture
  look_result id stage subject (inr problem) = pure (
      decide "awaiting_media"
        (or_text problem
          (concat ("no " ∷ stage_text stage ∷ " capture of " ∷ short subject ∷ " yet" ∷ [])))
        id)

  unfoldable pub look_for : ℕ → Repair → Stage → String → Exec W Decision
  unfolding find_capture look_result
  look_for id r stage subject = do
    found ← find_capture p t c r stage subject
    look_result id stage subject found

  -- Already downloaded, or still to be looked for.
  unfoldable pub kept_or_look : ℕ → Repair → Option MediaState → Stage → String → Exec W Decision
  unfolding look_for
  kept_or_look id r state stage subject = do
    there ← gets (λ s. p.is_file r.media_path s.world)
    if is_captured state && (not (is_blank r.media_path) && there)
        then pure (decide "media_captured" r.media_path id)
        else look_for id r stage subject

  unfoldable pub request_then_look : ℕ → Repair → Stage → String → Exec W Decision
  unfolding ask_for_media now update settle_media look_for
  request_then_look id r stage subject = do
    (asked, detail) ← ask_for_media p t c id stage subject
    at ← now p
    update p id λ row. record row {
      media_state = some asked;
      media_detail = detail;
      media_asked_at = some at;
    }
    if is_failed asked then settle_media p t c id failed detail "" else look_for id r stage subject

  unfoldable pub next_pass : ℕ → Repair → Option MediaState → Stage → String → Exec W Decision
  unfolding update settle_media request_then_look kept_or_look stage_text
  next_pass id r state stage subject = do
    let polls = suc r.media_polls
    update p id (λ row. record row { media_polls = polls })
    if ltb max_media_polls polls
        then settle_media p t c id failed
            (concat (
              "no "
              ∷ stage_text stage
              ∷ " capture of "
              ∷ short subject
              ∷ " appeared in 60 passes"
              ∷ []))
            ""
        else if is_pending state
        then request_then_look id r stage subject
        else kept_or_look id r state stage subject

  -- The budget that bounds the wait; an unreadable session leaves the wall clock.
  unfoldable pub media_budget : Repair → String → Exec W String
  unfolding exceeded past_deadline
  media_budget r unread =
      if is_blank unread then exceeded p t c r r.agent_acus else past_deadline p t c r

  unfoldable pub within_budget :
      ℕ → Repair → Option MediaState → Stage → String → String → String → Exec W Decision
  unfolding settle_media next_pass
  within_budget id r state stage subject unread spent =
      if not (is_blank spent)
      then settle_media p t c id failed (concat ("no recording arrived before " ∷ spent ∷ [])) ""
      else if not (is_blank unread)
      then pure (decide "deferred" unread id)
      else next_pass id r state stage subject

  unfoldable pub media_row : Repair → Stage → String → Exec W Decision
  unfolding settle_media refresh_usage media_budget within_budget
  media_row r stage subject =
      if not c.has_devin || (is_blank r.session_id || is_blank subject)
      then settle_media p t c r.id failed "there is no session to ask for a recording" ""
      else (do
        (row, unread) ← refresh_usage p t c r.id
        on_row row (pure (decide "skipped" "no such repair" r.id)) λ r'. do
          spent ← media_budget r' unread
          within_budget r.id r' r.media_state stage subject unread spent)

  unfoldable pub check_media : ℕ → Exec W Decision
  unfolding get media_sha media_row state_word
  check_media id = do
    row ← get p id
    on_row row (pure (decide "skipped" "no such repair" id)) λ r.
        if not (is_unresolved r.media_state)
        then pure
            (decide "skipped" (concat ("the recording is " ∷ state_word r.media_state ∷ [])) id)
        else (do subject ← media_sha p t c r (stage_of r); media_row r (stage_of r) subject)
