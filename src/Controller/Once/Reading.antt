-- ===== src/Controller/Once/Reading.antt =====
-- portal/controller.py: the methods that write no intent leave its room as it is: ends of sessions,
-- polling, verdicts and the merge.
use devin_automation.Prelude.{ℕ, String, Option, none, some, inl, inr}
use devin_automation.Repairs.Types.{Repair, Kind}
use devin_automation.Controller.Exec.{Exc, fault, parked, claimed, value_error}
use devin_automation.Controller.Exec.Keeps.{Keeps}
use devin_automation.Controller.Providers.{
  ambiguous, refused, runtime, died, Providers, Texts, Config, Session, Head,
}
use devin_automation.Controller.Base.{
  not_ended, past_deadline, exceeded, end_session, stop_rest, stop_row, stop, pr_number,
}
use devin_automation.Controller.Polling.{
  park, head_of, read_head, unusable, accept_head, candidate_report, candidate_row, over_budget,
  poll_answer, poll_session, poll_either, unread_session, poll_row, poll, unread_usage, refresh_row,
  refresh_usage,
}
use devin_automation.Controller.Once.{IsRoom, once_rules}

module _ {W : Type 0} {id : ℕ} {kind : Kind} {mark : String} {n : ℕ} (p : Providers W) (t : Texts)
    (c : Config) where
  Keeps-not_ended : (x : Exc) → Keeps {W = W} (IsRoom id kind mark n) (not_ended x)
  unfolding not_ended
  Keeps-not_ended (fault (refused text)) = search once_rules depth 14
  Keeps-not_ended (fault (runtime text)) = search once_rules depth 14
  Keeps-not_ended (fault (ambiguous text)) = search once_rules depth 14
  Keeps-not_ended (fault died) = search once_rules depth 14
  Keeps-not_ended (parked text) = search once_rules depth 14
  Keeps-not_ended (claimed text) = search once_rules depth 14
  Keeps-not_ended (value_error text) = search once_rules depth 14

  pub Keeps-past_deadline : (r : Repair) → Keeps (IsRoom id kind mark n) (past_deadline p t c r)
  unfolding past_deadline
  Keeps-past_deadline r = search once_rules depth 14

  pub Keeps-exceeded :
      (r : Repair) (acus : ℕ) → Keeps (IsRoom id kind mark n) (exceeded p t c r acus)
  unfolding exceeded
  Keeps-exceeded r acus = search (once_rules, Keeps-past_deadline) depth 14

  pub Keeps-end_session : (r : Repair) → Keeps (IsRoom id kind mark n) (end_session p t c r)
  unfolding end_session
  Keeps-end_session r = search (once_rules, Keeps-not_ended) depth 14

  pub Keeps-stop : (i : ℕ) (reason : String) → Keeps (IsRoom id kind mark n) (stop p t c i reason)
  unfolding stop stop_row stop_rest
  Keeps-stop i reason = search (once_rules, Keeps-end_session) depth 14

  pub Keeps-park : (i : ℕ) (why : String) → Keeps (IsRoom id kind mark n) (park p t c i why)
  unfolding park
  Keeps-park i why = search once_rules depth 14

  Keeps-head_of : (o : Option ℕ) → Keeps (IsRoom id kind mark n) (head_of p t c o)
  unfolding head_of
  Keeps-head_of none = search once_rules depth 14
  Keeps-head_of (some k) = search once_rules depth 14

  pub Keeps-read_head : (url : String) → Keeps (IsRoom id kind mark n) (read_head p t c url)
  unfolding read_head
  Keeps-read_head url = Keeps-head_of (pr_number url c.target_repo)

  Keeps-unusable :
      (i : ℕ) (url : String) (x : Exc) → Keeps (IsRoom id kind mark n) (unusable p t c i url x)
  unfolding unusable
  Keeps-unusable i url (value_error why) = search once_rules depth 14
  Keeps-unusable i url (fault (runtime why)) = search once_rules depth 14
  Keeps-unusable i url (fault (refused why)) = search once_rules depth 14
  Keeps-unusable i url (fault (ambiguous why)) = search once_rules depth 14
  Keeps-unusable i url (fault died) = search once_rules depth 14
  Keeps-unusable i url (parked why) = search once_rules depth 14
  Keeps-unusable i url (claimed why) = search once_rules depth 14

  Keeps-accept_head :
      (i : ℕ) (url : String) (h : Head) → Keeps (IsRoom id kind mark n) (accept_head p t c i url h)
  unfolding accept_head
  Keeps-accept_head i url h = search once_rules depth 14

  Keeps-candidate_row :
      (i : ℕ) (s : Session) → Keeps (IsRoom id kind mark n) (candidate_row p t c i s)
  unfolding candidate_row candidate_report
  Keeps-candidate_row i s =
      search (once_rules, Keeps-read_head, Keeps-unusable, Keeps-accept_head) depth 14

  Keeps-poll_session :
      (r : Repair) (s : Session) → Keeps (IsRoom id kind mark n) (poll_session p t c r s)
  unfolding poll_session poll_answer over_budget
  Keeps-poll_session r s =
      search (once_rules, Keeps-candidate_row, Keeps-exceeded, Keeps-stop) depth 14

  Keeps-poll_either : (r : Repair) (e : _) → Keeps (IsRoom id kind mark n) (poll_either p t c r e)
  unfolding poll_either
  Keeps-poll_either r (inl s) = Keeps-poll_session r s
  Keeps-poll_either r (inr d) = search once_rules depth 14

  Keeps-unread_session :
      (i : ℕ) (x : Exc) → Keeps (IsRoom id kind mark n) (unread_session p t c i x)
  unfolding unread_session
  Keeps-unread_session i (fault f) = search once_rules depth 14
  Keeps-unread_session i (parked why) = search once_rules depth 14
  Keeps-unread_session i (claimed why) = search once_rules depth 14
  Keeps-unread_session i (value_error why) = search once_rules depth 14

  pub Keeps-poll : (i : ℕ) → Keeps (IsRoom id kind mark n) (poll p t c i)
  unfolding poll poll_row
  Keeps-poll i = search (once_rules, Keeps-poll_either, Keeps-unread_session) depth 14

  Keeps-unread_usage :
      (r : Repair) (x : Exc) → Keeps (IsRoom id kind mark n) (unread_usage p t c r x)
  unfolding unread_usage
  Keeps-unread_usage r (fault f) = search once_rules depth 14
  Keeps-unread_usage r (parked why) = search once_rules depth 14
  Keeps-unread_usage r (claimed why) = search once_rules depth 14
  Keeps-unread_usage r (value_error why) = search once_rules depth 14

  pub Keeps-refresh_usage : (i : ℕ) → Keeps (IsRoom id kind mark n) (refresh_usage p t c i)
  unfolding refresh_usage refresh_row
  Keeps-refresh_usage i = search (once_rules, Keeps-unread_usage) depth 14
