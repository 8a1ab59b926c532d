-- ===== src/Acceptance/Open.antt =====
-- portal/controller.py: what follows a verdict that is no pass accepts no repair.
use devin_automation.Prelude.{
  ℕ, String, false, Option, none, some, List, ◌≡◌, refl, All, All-map, if_rule, ◌==◌, nat_eq, find,
}
use devin_automation.Repairs.Types.{
  Repair, Kind, Intent, IntentState, VerdictKind, passed, failed, blocked,
}
use devin_automation.Repairs.Store
use devin_automation.Controller.Exec.{
  Sys, Exc, fault, parked, claimed, value_error, Call, ask, tell, modify, modify_with,
}
use devin_automation.Controller.Exec.Keeps.{Keeps, keeps_rules, Keeps-bind, Keeps-gets}
use devin_automation.Controller.Providers.{
  Providers, Texts, Config, Answer, Outcome, refused, runtime, died,
}
use devin_automation.Controller.Providers.{ambiguous as fault_ambiguous}
use devin_automation.Controller.Base.{
  now, get, update, release_slot, settle, intend, past_deadline, exceeded, not_ended, end_session,
  stop_rest, stop_row, stop,
}
use devin_automation.Controller.Polling.{park}
use devin_automation.Controller.Verdicts.{
  not_delivered, send_follow_up, follow_up_once, follow_up, feedback_within, feedback_row, feedback,
  act_on,
}
use devin_automation.Acceptance.{is_accepted}

abbrev pub IsOpen : Repair → Type 0
IsOpen r = is_accepted r.state ≡ false

abbrev pub NoneAccepted : {W : Type 0} → Sys W → Type 0
NoneAccepted s = All IsOpen s.store.repairs

module _ {W : Type 0} where
  Keeps-ask : {A : Type 0} (call : W → Answer A × W) → Keeps NoneAccepted (ask call)
  unfolding ask
  Keeps-ask call = record { keeps = λ s h. h }

  Keeps-tell :
      {A : Type 0} (log : Call) (call : W → Answer A × W) → Keeps NoneAccepted (tell log call)
  unfolding tell
  Keeps-tell log call = record { keeps = λ s h. h }

module _ {W : Type 0} (p : Providers W) where
  pub Keeps-now : Keeps NoneAccepted (now p)
  unfolding now
  Keeps-now = Keeps-gets _

  Keeps-get : (i : ℕ) → Keeps NoneAccepted (get p i)
  unfolding get
  Keeps-get i = Keeps-gets _

  -- A change of one row that leaves it open.
  pub Keeps-update :
      (i : ℕ) (change : Repair → Repair)
      → ((r : Repair) → IsOpen r → IsOpen (change r))
      → Keeps NoneAccepted (update p i change)
  unfolding update Store.update Store.write_row modify
  Keeps-update i change leaves = Keeps-bind _ _ Keeps-now λ at. record {
    keeps = λ s h.
        All-map IsOpen IsOpen _ s.store.repairs
          (λ r o. if_rule IsOpen (r.id == i) (λ _. leaves r o) (λ _. o)) h;
  }

  Keeps-release_slot : (i : ℕ) → Keeps NoneAccepted (release_slot p i)
  unfolding release_slot Store.release_slot modify
  Keeps-release_slot i = record { keeps = λ s h. h }

  Keeps-settle :
      (own : ℕ) (state : IntentState) (detail : String)
      → Keeps NoneAccepted (settle p own state detail)
  unfolding settle Store.settle modify
  Keeps-settle own state detail = Keeps-bind _ _ Keeps-now λ at. record { keeps = λ s h. h }

  Keeps-intend : (id : ℕ) (kind : Kind) (mark : String) → Keeps NoneAccepted (intend p id kind mark)
  unfolding intend Store.intend modify_with Store.intend_row
  Keeps-intend id kind mark = Keeps-bind _ _ Keeps-now λ at. record {
    keeps = λ s h. found at (find (Store.has_key id kind mark) s.store.intents) s h;
  }
    where
      found :
          (at : ℕ) (row : Option Intent) (s : Sys W)
          → NoneAccepted s
          → All IsOpen (Store.intend_row at id kind mark row s.store).1.repairs
      found at none s h = h
      found at (some old) s h = h

ruleset open_rules = (
  keeps_rules, Keeps-ask, Keeps-tell, Keeps-now, Keeps-get, Keeps-update, Keeps-release_slot,
  Keeps-settle, Keeps-intend,
)

module _ {W : Type 0} (p : Providers W) (t : Texts) (c : Config) where
  pub Keeps-park : (i : ℕ) (why : String) → Keeps NoneAccepted (park p t c i why)
  unfolding park
  Keeps-park i why = Keeps-update p i _ λ r h. refl

  Keeps-not_ended : (x : Exc) → Keeps {W = W} NoneAccepted (not_ended x)
  unfolding not_ended
  Keeps-not_ended (fault (fault_ambiguous why)) = search open_rules
  Keeps-not_ended (fault (refused why)) = search open_rules
  Keeps-not_ended (fault (runtime why)) = search open_rules
  Keeps-not_ended (fault died) = search open_rules
  Keeps-not_ended (parked why) = search open_rules
  Keeps-not_ended (claimed why) = search open_rules
  Keeps-not_ended (value_error why) = search open_rules

  Keeps-stop : (i : ℕ) (reason : String) → Keeps NoneAccepted (stop p t c i reason)
  unfolding stop stop_row end_session stop_rest
  Keeps-stop i reason = search (open_rules, Keeps-not_ended) depth 14

  Keeps-not_delivered : (i own : ℕ) (x : Exc) → Keeps NoneAccepted (not_delivered p t c i own x)
  unfolding not_delivered
  Keeps-not_delivered i own (fault (fault_ambiguous why)) = search (open_rules, Keeps-park) depth 14
  Keeps-not_delivered i own (fault (refused why)) = search open_rules
  Keeps-not_delivered i own (fault (runtime why)) = search open_rules
  Keeps-not_delivered i own (fault died) = search open_rules
  Keeps-not_delivered i own (parked why) = search open_rules
  Keeps-not_delivered i own (claimed why) = search open_rules
  Keeps-not_delivered i own (value_error why) = search open_rules

  Keeps-follow_up :
      (r : Repair) (failures : List String) (mark : String)
      → Keeps NoneAccepted (follow_up p t c r failures mark)
  unfolding follow_up follow_up_once send_follow_up
  Keeps-follow_up r failures mark = search (open_rules, Keeps-not_delivered) depth 14

  Keeps-exceeded : (r : Repair) (acus : ℕ) → Keeps NoneAccepted (exceeded p t c r acus)
  unfolding exceeded past_deadline
  Keeps-exceeded r acus = search open_rules depth 14

  Keeps-feedback :
      (i : ℕ) (failures : List String) (sha : String)
      → Keeps NoneAccepted (feedback p t c i failures sha)
  unfolding feedback feedback_row feedback_within
  Keeps-feedback i failures sha =
      search (open_rules, Keeps-stop, Keeps-exceeded, Keeps-follow_up) depth 14

  -- What a verdict that is no pass leads to.
  pub Keeps-act_on :
      (v : VerdictKind) (i : ℕ) (o : Outcome)
      → (v ≡ passed → ⊥)
      → Keeps NoneAccepted (act_on p t c v i o)
  unfolding act_on
  Keeps-act_on passed i o never = absurd (never refl)
  Keeps-act_on blocked i o never = search (open_rules, Keeps-park) depth 14
  Keeps-act_on failed i o never = Keeps-feedback i o.failures o.candidate_sha
