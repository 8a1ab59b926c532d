-- ===== src/Controller/Advance.antt =====
-- portal/controller.py, `recover` and `advance`: one bounded pass of the worker.
use devin_automation.Prelude.{
  ℕ, ◌+◌, ◌*◌, String, Bool, true, false, not, ◌&&◌, Option, none, some, List, [], ◌∷◌, ◌++◌,
  concat, or_text, ltb, show, if◌then◌else◌,
}
use devin_automation.Repairs.Types.{
  State, Repair, Stage, symptom, Kind, issue, session, message, Intent, IntentState,
}
use devin_automation.Repairs.Store
use devin_automation.Controller.Exec.{Exec, pure, gets, modify_with, on_row, ◌>>=◌, ◌>>◌}
use devin_automation.Controller.Providers.{Providers, Texts, Config}
use devin_automation.Controller.Base.{
  Decision, decide, minute, now, get, settle, release_slot, incident_of,
}
use devin_automation.Controller.Dispatch.{dispatch}
use devin_automation.Controller.Polling.{park, poll}
use devin_automation.Controller.Verdicts.{verify}
use devin_automation.Controller.Media.{is_unresolved}
use devin_automation.Controller.Recording.{check_media}
use devin_automation.Controller.Merging.{check_merge}

kind_text : Kind → String
kind_text issue = "issue"
kind_text session = "session"
kind_text message = "message"

holder_text : Option ℕ → String
holder_text none = "None"
holder_text (some id) = show id

-- The test of `_walk`: footage of the symptom is owed while the repair runs.
abbrev owes_symptom : Repair → Bool
owes_symptom r = is_symptom r.media_stage && (is_unresolved r.media_state && is_running r.state)
  where
    is_symptom : Option Stage → Bool
    is_symptom (some symptom) = true
    is_symptom _ = false

    is_running : State → Bool
    is_running State.proposed = false
    is_running State.terminal = false
    is_running _ = true

module _ {W : Type 0} (p : Providers W) (t : Texts) (c : Config) where
  -- One stale intent of `recover`.
  unfoldable pub recover_intent : Intent → Exec W Decision
  unfolding settle park kind_text
  recover_intent i = do
    settle p i.id IntentState.ambiguous "the worker stopped before settling this"
    let reason = concat (
        "a "
        ∷ kind_text i.kind
        ∷ " may have been created for marker "
        ∷ i.marker
        ∷ " but was never confirmed; resolve it by hand"
        ∷ [])
    park p t c i.repair_id reason
    pure (decide "parked" reason i.repair_id)

  unfoldable pub recover_all : List Intent → Exec W (List Decision)
  unfolding recover_intent
  recover_all [] = pure []
  recover_all (i ∷ rest) = do d ← recover_intent i; ds ← recover_all rest; pure (d ∷ ds)

  unfoldable pub recover : ℕ → Exec W (List Decision)
  unfolding now recover_all
  recover minutes = do
    at ← now p
    stale ← gets (λ s. Store.stale_intents at (minutes * minute) s.store)
    recover_all stale

  -- `_stale` of the time of the claim; a time that `utcnow` wrote is readable.
  is_fresh : Option ℕ → ℕ → Bool
  is_fresh none at = false
  is_fresh (some claimed_at) at = not (ltb (claimed_at + c.stale_after_minutes * minute) at)

  unfoldable pub resume_proposal : Repair → Exec W Decision
  unfolding now is_fresh incident_of dispatch
  resume_proposal r = do
    at ← now p
    claimed_at ← gets (λ s. Store.slot_claimed_at s.store)
    if is_fresh claimed_at at
        then pure (decide "in_flight" "another worker is creating this repair" r.id)
        else (do
          i ← incident_of p r.incident_id
          on_row i (pure (decide "parked" "incident missing" r.id)) (dispatch p t c r.id))

  unfoldable pub resting : Repair → Decision
  resting r = decide "parked" (or_text r.attention r.terminal_reason) r.id

  unfoldable pub step_state : State → Repair → Exec W Decision
  unfolding verify check_merge resume_proposal poll check_media resting
  step_state State.merged r =
      if is_unresolved r.media_state then check_media p t c r.id else pure (resting r)
  step_state State.needs_attention r = pure (resting r)
  step_state State.terminal r = pure (resting r)
  step_state State.verified r = pure (resting r)
  step_state State.candidate r = verify p t c r.id
  step_state State.awaiting_merge r = check_merge p t c r.id
  step_state State.proposed r = resume_proposal r
  step_state State.dispatched r = poll p t c r.id

  -- `_step`
  unfoldable pub step : Repair → Exec W Decision
  unfolding step_state
  step r = step_state r.state r

  -- `_walk`
  unfoldable pub walk : Repair → Exec W (List Decision)
  unfolding step check_media get
  walk r =
      if owes_symptom r
      then (do
        alongside ← check_media p t c r.id
        row ← get p r.id
        d ← on_row row (step r) step
        pure (alongside ∷ d ∷ []))
      else (do d ← step r; pure (d ∷ []))

  unfoldable pub claim_slot : ℕ → Exec W Bool
  unfolding now
  claim_slot id = do at ← now p; modify_with (Store.claim_slot at id)

  unfoldable pub start_claimed : Repair → Exec W (Bool × Decision)
  unfolding incident_of park release_slot dispatch
  start_claimed r = do
    i ← incident_of p r.incident_id
    on_row i
        (do
          park p t c r.id "the incident this proposal came from is gone"
          release_slot p r.id
          pure (true, decide "parked" "incident missing" r.id))
        λ found. do d ← dispatch p t c r.id found; pure (false, d)

  -- One turn of the loop over the queue: whether the loop goes on, and the decision.
  unfoldable pub start_queued : Repair → Exec W (Bool × Decision)
  unfolding claim_slot start_claimed holder_text
  start_queued r = do
    mine ← claim_slot r.id
    holder ← gets (λ s. Store.slot_holder s.store)
    if mine
        then start_claimed r
        else pure (
          false,
          decide "deferred" (concat ("repair " ∷ holder_text holder ∷ " holds the claim" ∷ []))
              r.id,
        )

  unfoldable pub start_next : List Repair → Exec W (List Decision)
  unfolding start_queued
  start_next [] = pure []
  start_next (r ∷ rest) = do
    (more, d) ← start_queued r
    let later = start_next rest
    if more then (do ds ← later; pure (d ∷ ds)) else pure (d ∷ [])

  -- The active repair, or the queue.
  unfoldable pub walk_or_start : Exec W (List Decision)
  unfolding walk start_next
  walk_or_start = do
    active ← gets (λ s. Store.active s.store)
    on_row active (do queue ← gets (λ s. Store.queued s.store); start_next queue) walk

  unfoldable pub advance : Exec W (List Decision)
  unfolding recover walk_or_start
  advance = if not c.dispatch_enabled then pure [] else do
    recovered ← recover c.stale_after_minutes
    started ← walk_or_start
    pure (recovered ++ started)
