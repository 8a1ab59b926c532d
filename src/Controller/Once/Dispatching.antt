-- ===== src/Controller/Once/Dispatching.antt =====
-- portal/controller.py: `dispatch` creates at most what its intents have room for. The names that the
-- providers answer are documented not to be blank.
use devin_automation.Prelude.{
  ℕ, String, Bool, true, false, Option, none, some, ◌≡◌, refl, arith, is_blank,
}
use devin_automation.Incidents.Types.{Incident}
use devin_automation.Repairs.Types.{
  Repair, Kind, issue, session, Intent, IntentState, intended, confirmed, ambiguous,
}
use devin_automation.Controller.Exec.{Sys, Exc, fault, parked, claimed, value_error, on_row}
use devin_automation.Controller.Exec.Keeps.{Keeps}
use devin_automation.Controller.Exec.Triple.{
  Triple, Triple-raise, Triple-if, Triple-bind, Triple-attempt, Triple-fact,
}
use devin_automation.Controller.Providers.{
  Providers, Texts, Config, returned, refused, runtime, died, Session,
}
use devin_automation.Controller.Providers.{ambiguous as fault_ambiguous}
use devin_automation.Controller.Dispatch.{
  is_settled, is_intended, is_ambiguous, not_created, open_issue, issue_missing, issue_found,
  ensure_issue, open_session, session_missing, session_found, ensure_session, dispatched_session,
  record_session, not_dispatched, dispatch_row, dispatch,
}
use devin_automation.Controller.Once.{IsRoom, IsNamed, once_rules, Keeps-settle, Keeps-update}
use devin_automation.Controller.Once.Creating.{
  Spends, weight, Spends-of_Keeps, Triple-write, Triple-ask_fact, Keeps-intended, Triple-quiet,
}

-- A search that finds something finds something with a name.
abbrev pub FoundIssue : Option String → Type 0
FoundIssue none = Unit
FoundIssue (some url) = is_blank url ≡ false

abbrev pub FoundSession : Option Session → Type 0
FoundSession none = Unit
FoundSession (some s) = is_blank s.session_id ≡ false

-- What GitHub and Devin document of their answers: an issue has a URL, a session has an id.
pub record NamesWhatItMakes {W : Type 0} (p : Providers W) : Type 0 where
  pub created_issue :
      (title body : String) (w : W) (url : String)
      → (p.create_issue title body w).0 ≡ returned url
      → is_blank url ≡ false
  pub found_issue :
      (mark : String) (w : W) (found : Option String)
      → (p.find_issue mark w).0 ≡ returned found
      → FoundIssue found
  pub created_session :
      (request : String) (w : W) (s : Session)
      → (p.create_session request w).0 ≡ returned s
      → is_blank s.session_id ≡ false
  pub found_session :
      (mark : String) (w : W) (found : Option Session)
      → (p.find_tagged mark w).0 ≡ returned found
      → FoundSession found

-- An intent that is neither open, nor ambiguous, nor settled is confirmed without a name.
unsettled :
    (i : Intent)
    → IsNamed i
    → is_settled i ≡ false
    → is_intended i.state ≡ false
    → is_ambiguous i.state ≡ false
    → ⊥
unsettled i named open_still first doubt = by_state i.state refl
  where
    by_state : (state : IntentState) → i.state ≡ state → ⊥
    by_state intended e = ground arith
    by_state ambiguous e = ground arith
    by_state confirmed e = ground (arith, named e)

module _ {W : Type 0} {id : ℕ} {kind : Kind} {mark : String} (p : Providers W) (t : Texts)
    (c : Config) (names : NamesWhatItMakes p) where
  Triple-not_created :
      {A : Type 0} {Q : A → Sys W → Type 0} (what : String) (own : ℕ) (x : Exc)
      → Triple (IsRoom id kind mark 0) (not_created p t c what own x) Q (λ _. IsRoom id kind mark 0)
  unfolding not_created
  Triple-not_created what own (fault (fault_ambiguous text)) =
      Triple-quiet p (Keeps-settle p own ambiguous text (λ e. cc)) λ _. Triple-raise _ (λ s h. h)
  Triple-not_created what own (fault (refused text)) = Triple-raise _ (λ s h. h)
  Triple-not_created what own (fault (runtime text)) = Triple-raise _ (λ s h. h)
  Triple-not_created what own (fault died) = Triple-raise _ (λ s h. h)
  Triple-not_created what own (parked text) = Triple-raise _ (λ s h. h)
  Triple-not_created what own (claimed text) = Triple-raise _ (λ s h. h)
  Triple-not_created what own (value_error text) = Triple-raise _ (λ s h. h)

  Spends-open_issue :
      (r : Repair) (m : String) (intent : Intent)
      → Spends id kind mark (weight id kind mark r.id issue m) (open_issue p t c r m intent)
  unfolding open_issue
  Spends-open_issue r m intent =
      Triple-bind
        (Triple-attempt
          (Triple-write r.id issue m (p.create_issue r.issue_title r.issue_body)
            (λ url. is_blank url ≡ false) (names.created_issue r.issue_title r.issue_body))
          (Triple-not_created "issue" intent.id))
        λ url. Triple-fact λ named.
          Spends-of_Keeps
            (search (once_rules, Keeps-settle p intent.id confirmed url (λ _. named)) depth 14)

  Keeps-issue_found :
      {n : ℕ} (intent : Intent) (url : String)
      → is_blank url ≡ false
      → Keeps (IsRoom id kind mark n) (issue_found p t c intent url)
  unfolding issue_found
  Keeps-issue_found intent url named =
      search (once_rules, Keeps-settle p intent.id confirmed url (λ _. named)) depth 14

  Spends-issue_found :
      {n : ℕ} (found : Option String) (r : Repair) (m : String) (intent : Intent) (mine : Bool)
      → FoundIssue found
      → Spends id kind mark n (issue_missing p t c r m intent mine)
      → Spends id kind mark n
          (on_row found (issue_missing p t c r m intent mine) (issue_found p t c intent))
  Spends-issue_found none r m intent mine named missing = missing
  Spends-issue_found (some url) r m intent mine named missing =
      Spends-of_Keeps (Keeps-issue_found intent url named)

  Keeps-ensure_issue :
      (r : Repair) (m : String) → Keeps (IsRoom id kind mark 0) (ensure_issue p t c r m)
  unfolding ensure_issue issue_missing
  Keeps-ensure_issue r m =
      Keeps-intended p r.id issue m _
        (λ intent.
          Triple-if (is_settled intent) (λ _. Spends-of_Keeps (search once_rules))
            λ _.
              Triple-bind (Triple-ask_fact (p.find_issue m) FoundIssue (names.found_issue m))
                λ found. Triple-fact λ named. Spends-issue_found found r m intent true named (
                  Triple-if (is_ambiguous intent.state) (λ _. Spends-of_Keeps (search once_rules))
                    λ _. Spends-open_issue r m intent))
        (λ intent named.
          Triple-if (is_settled intent) (λ _. Spends-of_Keeps (search once_rules))
            λ open_still.
              Triple-bind (Triple-ask_fact (p.find_issue m) FoundIssue (names.found_issue m))
                λ found. Triple-fact λ made. Spends-issue_found found r m intent false made (
                  Triple-if (is_intended intent.state) (λ _. Spends-of_Keeps (search once_rules))
                    λ first.
                      Triple-if (is_ambiguous intent.state)
                        (λ _. Spends-of_Keeps (search once_rules))
                        λ doubt. absurd (unsettled intent named open_still first doubt)))

  Spends-open_session :
      (r : Repair) (i : Incident) (m url : String) (intent : Intent)
      → Spends id kind mark
          (weight id kind mark r.id session m)
          (open_session p t c r i m url intent)
  unfolding open_session
  Spends-open_session r i m url intent = Triple-quiet p (Keeps-update p r.id _) λ _.
      Triple-bind
        (Triple-attempt
          (Triple-write r.id session m (p.create_session _) (λ s. is_blank s.session_id ≡ false)
            (names.created_session _))
          (Triple-not_created "session" intent.id))
        λ s. Triple-fact λ named. Spends-of_Keeps (
          search (once_rules, Keeps-settle p intent.id confirmed s.session_id (λ _. named)) depth
            14)

  Spends-session_found :
      {n : ℕ} (found : Option Session) (r : Repair) (i : Incident) (m url : String)
      (intent : Intent) (mine : Bool)
      → FoundSession found
      → Spends id kind mark n (session_missing p t c r i m url intent mine)
      → Spends id kind mark n
          (on_row found (session_missing p t c r i m url intent mine) (session_found p t c intent))
  unfolding session_found
  Spends-session_found none r i m url intent mine named missing = missing
  Spends-session_found (some s) r i m url intent mine named missing =
      Spends-of_Keeps
        (search (once_rules, Keeps-settle p intent.id confirmed s.session_id (λ _. named)) depth 14)

  Keeps-ensure_session :
      (r : Repair) (i : Incident) (m url : String)
      → Keeps (IsRoom id kind mark 0) (ensure_session p t c r i m url)
  unfolding ensure_session session_missing
  Keeps-ensure_session r i m url =
      Keeps-intended p r.id session m _
        (λ intent.
          Triple-if (is_settled intent) (λ _. Spends-of_Keeps (search once_rules))
            λ _.
              Triple-bind (Triple-ask_fact (p.find_tagged m) FoundSession (names.found_session m))
                λ found. Triple-fact λ named.
                  Spends-session_found found r i m url intent true named (
                    Triple-if (is_ambiguous intent.state) (λ _. Spends-of_Keeps (search once_rules))
                      λ _. Spends-open_session r i m url intent))
        (λ intent named.
          Triple-if (is_settled intent) (λ _. Spends-of_Keeps (search once_rules))
            λ open_still.
              Triple-bind (Triple-ask_fact (p.find_tagged m) FoundSession (names.found_session m))
                λ found. Triple-fact λ made.
                  Spends-session_found found r i m url intent false made (
                    Triple-if (is_intended intent.state) (λ _. Spends-of_Keeps (search once_rules))
                      λ first.
                        Triple-if (is_ambiguous intent.state)
                          (λ _. Spends-of_Keeps (search once_rules))
                          λ doubt. absurd (unsettled intent named open_still first doubt)))

  Keeps-not_dispatched :
      (i : ℕ) (x : Exc) → Keeps (IsRoom id kind mark 0) (not_dispatched p t c i x)
  unfolding not_dispatched
  Keeps-not_dispatched i (claimed why) = search once_rules depth 14
  Keeps-not_dispatched i (parked why) = search once_rules depth 14
  Keeps-not_dispatched i (fault f) = search once_rules depth 14
  Keeps-not_dispatched i (value_error why) = search once_rules depth 14

  pub Keeps-dispatch :
      (own : ℕ) (i : Incident) → Keeps (IsRoom id kind mark 0) (dispatch p t c own i)
  unfolding dispatch dispatch_row dispatched_session record_session
  Keeps-dispatch own i =
      search (once_rules, Keeps-ensure_issue, Keeps-ensure_session, Keeps-not_dispatched) depth 14
