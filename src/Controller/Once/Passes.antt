-- ===== src/Controller/Once/Passes.antt =====
-- portal/controller.py: the rest of a pass, and any number of passes. No repair gets two issues, two
-- sessions or two copies of a message for one marker.
use devin_automation.Prelude.{ℕ, String, inl, inr, List, [], ◌∷◌, refl}
use devin_automation.Repairs.Types.{
  Repair, Kind, Intent, State, Stage, symptom, after_merge, MediaState, VerdictKind, passed, failed,
  blocked, ambiguous,
}
use devin_automation.Repairs.Store
use devin_automation.Repairs.Store.{has_key}
use devin_automation.Controller.Exec.{Exc, fault, parked, claimed, value_error}
use devin_automation.Controller.Exec.Keeps.{Keeps, Keeps-bind, Keeps-if}
use devin_automation.Controller.Providers.{Fault, Providers, Texts, Config, Outcome}
use devin_automation.Controller.Verdicts.{
  not_stopped, release_row, release_after_verification, preview_passed, act_on, verify_row, verify,
}
use devin_automation.Controller.Media.{
  settle_symptom, close_merged, settle_stage, settle_media, media_sha, unread_attachments,
  search_listed, find_capture,
}
use devin_automation.Controller.Recording.{
  not_readable, keep_capture, found_capture, look_result, look_for, kept_or_look, request_then_look,
  next_pass, media_budget, within_budget, media_row, check_media,
}
use devin_automation.Controller.Merging.{
  merge_passed, merge_unpassed, judge_merge, grade_merge, grade_within, grade_fresh, accept_merge,
  merged_head, judge_head, unreadable_head, head_or_decision, merge_within, check_merge,
}
use devin_automation.Controller.Advance.{
  recover_intent, recover_all, recover, resume_proposal, step_state, step, walk, claim_slot,
  start_claimed, start_queued, start_next, walk_or_start, advance,
}
use devin_automation.Controller.Once.{IsRoom, once_rules, Keeps-settle, Keeps-modify_with}
use devin_automation.Controller.Once.Reading.{
  Keeps-exceeded, Keeps-past_deadline, Keeps-end_session, Keeps-stop, Keeps-read_head, Keeps-poll,
  Keeps-refresh_usage,
}
use devin_automation.Controller.Once.Dispatching.{NamesWhatItMakes, Keeps-dispatch}
use devin_automation.Controller.Once.Messaging.{
  Keeps-feedback, Keeps-media_case, Keeps-ask_for_media,
}

module _ {W : Type 0} {id : ℕ} {kind : Kind} {mark : String} (p : Providers W) (t : Texts)
    (c : Config) where
  Keeps-not_stopped : (i : ℕ) (x : Exc) → Keeps (IsRoom id kind mark 0) (not_stopped p t c i x)
  unfolding not_stopped
  Keeps-not_stopped i (fault f) = search once_rules depth 14
  Keeps-not_stopped i (parked why) = search once_rules
  Keeps-not_stopped i (claimed why) = search once_rules
  Keeps-not_stopped i (value_error why) = search once_rules

  Keeps-act_on :
      (v : VerdictKind) (i : ℕ) (o : Outcome) → Keeps (IsRoom id kind mark 0) (act_on p t c v i o)
  unfolding act_on preview_passed release_after_verification release_row
  Keeps-act_on passed i o = search (once_rules, Keeps-not_stopped) depth 16
  Keeps-act_on blocked i o = search once_rules depth 14
  Keeps-act_on failed i o = Keeps-feedback p t c i o.failures o.candidate_sha

  Keeps-verify : (i : ℕ) → Keeps (IsRoom id kind mark 0) (verify p t c i)
  unfolding verify verify_row
  Keeps-verify i = search (once_rules, Keeps-act_on) depth 14

  Keeps-settle_stage :
      (stage : Stage) (r : Repair) (state : MediaState) (detail file_id : String)
      → Keeps (IsRoom id kind mark 0) (settle_stage p t c stage r state detail file_id)
  unfolding settle_stage settle_symptom close_merged
  Keeps-settle_stage symptom r state detail file_id = search once_rules depth 14
  Keeps-settle_stage after_merge r state detail file_id =
      search (once_rules, Keeps-end_session) depth 14

  pub Keeps-settle_media :
      (i : ℕ) (state : MediaState) (detail file_id : String)
      → Keeps (IsRoom id kind mark 0) (settle_media p t c i state detail file_id)
  unfolding settle_media close_merged
  Keeps-settle_media i state detail file_id = search (once_rules, Keeps-settle_stage) depth 14

  Keeps-media_sha :
      (r : Repair) (stage : Stage) → Keeps (IsRoom id kind mark 0) (media_sha p t c r stage)
  unfolding media_sha
  Keeps-media_sha r symptom = search once_rules
  Keeps-media_sha r after_merge = search once_rules

  Keeps-unread_attachments : (x : Exc) → Keeps (IsRoom id kind mark 0) (unread_attachments p t c x)
  unfolding unread_attachments
  Keeps-unread_attachments (fault f) = search once_rules
  Keeps-unread_attachments (parked why) = search once_rules
  Keeps-unread_attachments (claimed why) = search once_rules
  Keeps-unread_attachments (value_error why) = search once_rules

  Keeps-not_readable : (i : ℕ) (x : Exc) → Keeps (IsRoom id kind mark 0) (not_readable p t c i x)
  unfolding not_readable
  Keeps-not_readable i (fault (Fault.runtime why)) = search once_rules
  Keeps-not_readable i (fault (Fault.refused why)) = search once_rules
  Keeps-not_readable i (fault (Fault.ambiguous why)) = search once_rules
  Keeps-not_readable i (fault Fault.died) = search once_rules
  Keeps-not_readable i (parked why) = search once_rules
  Keeps-not_readable i (claimed why) = search once_rules
  Keeps-not_readable i (value_error why) = search once_rules

  Keeps-search_listed :
      (r : Repair) (stage : Stage) (subject : String) (listed : _)
      → Keeps (IsRoom id kind mark 0) (search_listed p t c r stage subject listed)
  unfolding search_listed
  Keeps-search_listed r stage subject (inr problem) = search once_rules
  Keeps-search_listed r stage subject (inl listed) = search (once_rules, Keeps-media_case) depth 14

  Keeps-look_result :
      (i : ℕ) (stage : Stage) (subject : String) (found : _)
      → Keeps (IsRoom id kind mark 0) (look_result p t c i stage subject found)
  unfolding look_result found_capture keep_capture
  Keeps-look_result i stage subject (inl (attachment, capture)) =
      search (once_rules, Keeps-not_readable, Keeps-settle_media) depth 20
  Keeps-look_result i stage subject (inr problem) = search once_rules

  Keeps-look_for :
      (i : ℕ) (r : Repair) (stage : Stage) (subject : String)
      → Keeps (IsRoom id kind mark 0) (look_for p t c i r stage subject)
  unfolding look_for find_capture
  Keeps-look_for i r stage subject =
      search (once_rules, Keeps-unread_attachments, Keeps-search_listed, Keeps-look_result) depth 14

  Keeps-check_media : (i : ℕ) → Keeps (IsRoom id kind mark 0) (check_media p t c i)
  unfolding check_media media_row within_budget media_budget next_pass request_then_look
      kept_or_look
  Keeps-check_media i =
      search
        (
          once_rules, Keeps-media_sha, Keeps-settle_media, Keeps-refresh_usage, Keeps-exceeded,
          Keeps-past_deadline, Keeps-ask_for_media, Keeps-look_for,
        )
        depth 24

  Keeps-judge_merge :
      (v : VerdictKind) (r : Repair) (merge_sha : String) (o : Outcome)
      → Keeps (IsRoom id kind mark 0) (judge_merge p t c v r merge_sha o)
  unfolding judge_merge merge_passed merge_unpassed
  Keeps-judge_merge passed r merge_sha o = search once_rules depth 14
  Keeps-judge_merge blocked r merge_sha o = search once_rules depth 14
  Keeps-judge_merge failed r merge_sha o = search once_rules depth 14

  Keeps-unreadable_head :
      (i : ℕ) (x : Exc) → Keeps (IsRoom id kind mark 0) (unreadable_head p t c i x)
  unfolding unreadable_head
  Keeps-unreadable_head i (fault (Fault.runtime why)) = search once_rules
  Keeps-unreadable_head i (fault (Fault.refused why)) = search once_rules
  Keeps-unreadable_head i (fault (Fault.ambiguous why)) = search once_rules
  Keeps-unreadable_head i (fault Fault.died) = search once_rules
  Keeps-unreadable_head i (parked why) = search once_rules
  Keeps-unreadable_head i (claimed why) = search once_rules
  Keeps-unreadable_head i (value_error why) = search once_rules

  Keeps-head_or_decision :
      (r : Repair) (answer : _) → Keeps (IsRoom id kind mark 0) (head_or_decision p t c r answer)
  unfolding head_or_decision judge_head merged_head accept_merge grade_fresh grade_within
      grade_merge
  Keeps-head_or_decision r (inl h) =
      search (once_rules, Keeps-refresh_usage, Keeps-exceeded, Keeps-stop, Keeps-judge_merge) depth
        24
  Keeps-head_or_decision r (inr d) = search once_rules

  Keeps-check_merge : (i : ℕ) → Keeps (IsRoom id kind mark 0) (check_merge p t c i)
  unfolding check_merge merge_within
  Keeps-check_merge i =
      search
        (
          once_rules, Keeps-refresh_usage, Keeps-exceeded, Keeps-stop, Keeps-read_head,
          Keeps-unreadable_head, Keeps-head_or_decision,
        )
        depth 20

  Keeps-recover_intent : (i : Intent) → Keeps (IsRoom id kind mark 0) (recover_intent p t c i)
  unfolding recover_intent
  Keeps-recover_intent i =
      search
        (
          once_rules,
          Keeps-settle p i.id ambiguous "the worker stopped before settling this" (λ e. cc),
        )
        depth 14

  Keeps-recover_all :
      (stale : List Intent) → Keeps (IsRoom id kind mark 0) (recover_all p t c stale)
  unfolding recover_all
  Keeps-recover_all [] = search once_rules
  Keeps-recover_all (i ∷ rest) =
      Keeps-bind _ _ (Keeps-recover_intent i)
        λ d. Keeps-bind _ _ (Keeps-recover_all rest) λ ds. search once_rules

  Keeps-claim_slot : (i : ℕ) → Keeps (IsRoom id kind mark 0) (claim_slot p t c i)
  unfolding claim_slot Store.claim_slot
  Keeps-claim_slot i = Keeps-bind _ _ (search once_rules) λ at. Keeps-modify_with _ λ s. refl

  module _ (names : NamesWhatItMakes p) where
    Keeps-step_state :
        (state : State) (r : Repair) → Keeps (IsRoom id kind mark 0) (step_state p t c state r)
    unfolding step_state resume_proposal
    Keeps-step_state State.merged r = search (once_rules, Keeps-check_media) depth 14
    Keeps-step_state State.needs_attention r = search once_rules
    Keeps-step_state State.terminal r = search once_rules
    Keeps-step_state State.verified r = search once_rules
    Keeps-step_state State.candidate r = Keeps-verify r.id
    Keeps-step_state State.awaiting_merge r = Keeps-check_merge r.id
    Keeps-step_state State.proposed r = search (once_rules, Keeps-dispatch p t c names) depth 14
    Keeps-step_state State.dispatched r = Keeps-poll p t c r.id

    Keeps-walk : (r : Repair) → Keeps (IsRoom id kind mark 0) (walk p t c r)
    unfolding walk step
    Keeps-walk r = search (once_rules, Keeps-check_media, Keeps-step_state) depth 14

    Keeps-start_queued : (r : Repair) → Keeps (IsRoom id kind mark 0) (start_queued p t c r)
    unfolding start_queued start_claimed
    Keeps-start_queued r =
        search (once_rules, Keeps-claim_slot, Keeps-dispatch p t c names) depth 20

    Keeps-start_next :
        (queue : List Repair) → Keeps (IsRoom id kind mark 0) (start_next p t c queue)
    unfolding start_next
    Keeps-start_next [] = search once_rules
    Keeps-start_next (r ∷ rest) = Keeps-bind _ _ (Keeps-start_queued r) λ (more, d).
        Keeps-if more _ _ (Keeps-bind _ _ (Keeps-start_next rest) λ ds. search once_rules)
          (search once_rules)

    pub Keeps-advance : Keeps (IsRoom id kind mark 0) (advance p t c)
    unfolding advance recover walk_or_start
    Keeps-advance = search (once_rules, Keeps-recover_all, Keeps-walk, Keeps-start_next) depth 16
