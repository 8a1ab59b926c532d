-- ===== src/Incidents/Observe.antt =====
-- portal/incidents.py: the operations of `IncidentStore`. Each returns its answer and the new
-- database. A transaction that is rolled back returns the database that it began with.
use devin_automation.Prelude.{
  ℕ, zero, suc, ◌+◌, ◌%◌, String, Bool, true, false, ◌&&◌, ◌||◌, not, Option, none, some, List, [],
  ◌∷◌, ◌++◌, map, find, any, keep, count_if, concat, is_blank, or_text, ◌==◌, nat_eq, string_eq,
  ltb, leb, if◌then◌else◌,
}
use devin_automation.Incidents.Types.{
  EventOutcome, Event, Revision, Finding, Output, finding, not_a_record, Family, family_for,
  is_control, telemetry_family_for, signature_severity, is_derived, is_known, Admission,
  BlockReason, unmatched_checkout, other_baseline, no_fixture, scenario_disagrees, dry_run_mode,
  Mode, dry_run, disabled, Settings, Incident, Role, failure, browser_telemetry, derived_evidence,
  Evidence, Problem, control_failed, malformed_finding, unregistered_browser, severity_differs,
  rate_limited, missing_event_id, unknown_kind, no_parent, parent_gone, Db, Suppression,
  control_assertion, unregistered_failure, harness_failure, malformed_telemetry, needs_attention,
  unregistered_signature, severity_mismatch, admission_disabled, telemetry_rate_limited,
  unknown_environment, derived_without_parent, unknown_parent, Decision, suppressed,
  processing_error, duplicate_event, admitted,
}

unfoldable pub record_error : String → Problem → Db → Db
record_error event_id problem db = record db {
  errors = db.errors ++ record { event_id = event_id; problem = problem } ∷ [];
}

-- The SHA that an incident is pinned to, and how well it is known.
unfoldable pub baseline_of : Revision → String × String
baseline_of r =
    let strength = or_text r.strength "unmeasured" in
    if is_blank r.checkout_sha || not r.matches
    then ("unverified", strength)
    else (r.checkout_sha, strength)

-- `hashlib.sha256(...).hexdigest()[:32]` is the parameter `digest`.
unfoldable pub fingerprint : (String → String) → String → String → String → String → String
unfolding concat
fingerprint digest target_repo baseline_sha family actor =
    digest (concat (target_repo ∷ "\n" ∷ baseline_sha ∷ "\n" ∷ family ∷ "\n" ∷ actor ∷ []))

-- `_admission`: none is `eligible`.
unfoldable pub block_reason : Settings → Event → Family → String → Option BlockReason
block_reason s e family baseline_sha =
    if baseline_sha == "unverified"
    then some unmatched_checkout
    else if not (is_blank s.expected_baseline) && not (baseline_sha == s.expected_baseline)
    then some other_baseline
    else if is_blank e.revision.fixture_revision
    then some no_fixture
    else if not (is_blank e.scenario) && not (e.scenario == family.scenario)
    then some scenario_disagrees
    else none

abbrev pub or_block : Option BlockReason → Option BlockReason → Option BlockReason
or_block none own = own
or_block (some forced) own = some forced

abbrev pub admission_of : Option BlockReason → Admission
admission_of none = Admission.eligible
admission_of (some reason) = Admission.blocked

-- The row that an INSERT into `incidents` writes.
unfoldable pub new_incident :
    ℕ → String → Settings → Event → Family → String × String → Option BlockReason → Incident
new_incident id print_key s e family (baseline_sha, strength) reason = record {
  id = id;
  fingerprint = print_key;
  family = family.key;
  scenario = family.scenario;
  title = family.title;
  actor = e.actor;
  target_repo = s.target_repo;
  baseline_sha = baseline_sha;
  revision_strength = strength;
  fixture_revision = e.revision.fixture_revision;
  admission = admission_of reason;
  admission_reason = reason;
  state = "detected";
  occurrence_count = 0;
  first_seen = e.ts;
  last_seen = e.ts;
}

unfoldable pub has_event : String → Db → Bool
has_event event_id db = any (λ row. row.event_id == event_id) db.events

unfoldable pub has_occurrence : ℕ → String → Db → Bool
has_occurrence id trace db = any (λ o. o.incident_id == id && o.trace_id == trace) db.occurrences

unfoldable pub by_fingerprint : String → Db → Option Incident
by_fingerprint key db = find (λ i. i.fingerprint == key) db.incidents

abbrev later : ℕ → ℕ → ℕ
later a b = if ltb a b then b else a

unfoldable pub touch : ℕ → ℕ → ℕ → Incident → Incident
touch id more ts i =
    if i.id == id
    then record i { occurrence_count = i.occurrence_count + more; last_seen = later i.last_seen ts }
    else i

unfoldable pub add_incident : Incident → Db → Db
add_incident i db = record db { incidents = db.incidents ++ i ∷ []; next_id = suc db.next_id }

unfoldable pub add_evidence : ℕ → Role → Event → Db → Db
add_evidence id role e db = record db {
  events =
      db.events
      ++ record {
        event_id = e.event_id;
        incident_id = id;
        trace_id = e.trace_id;
        step_index = e.step_index;
        ts = e.ts;
        operation = e.operation;
        role = role;
      }
        ∷ [];
}

-- INSERT OR IGNORE of the occurrence, then the UPDATE of its incident.
unfoldable pub add_occurrence : ℕ → Event → Db → Db
unfolding has_occurrence touch
add_occurrence id e db =
    if has_occurrence id e.trace_id db
    then record db { incidents = map (touch id 0 e.ts) db.incidents }
    else record db {
      occurrences =
          db.occurrences ++ record { incident_id = id; trace_id = e.trace_id; ts = e.ts } ∷ [];
      incidents = map (touch id 1 e.ts) db.incidents;
    }

-- What the transaction of `_ingest` does once it knows the incident.
unfoldable pub fold_into :
    Bool → ℕ → String → Family → Role → Bool → Admission → Event → Db → Db → Decision × Db
unfolding has_event add_evidence add_occurrence
fold_into created id print_key family role derived admission e before db =
    if has_event e.event_id db then (duplicate_event id print_key, before) else (
      admitted (record {
        created = created;
        incident_id = id;
        fingerprint = print_key;
        family = family.key;
        new_occurrence = not derived && not (has_occurrence id e.trace_id db);
        derived = derived;
        admission = admission;
      }),
      if derived
          then add_evidence id derived_evidence e db
          else add_occurrence id e (add_evidence id role e db),
    )

-- `row["ts_utc"] >= since`, compared as texts: `since` is one hour before the event, and its
-- text sorts after an equal time unless the time falls on a whole second.
unfoldable pub in_window : ℕ → Evidence → Bool
in_window ts row = if row.ts + 3600000 == ts then row.ts % 1000 == 0 else ltb ts (row.ts + 3600000)

unfoldable pub is_browser : Role → Bool
is_browser browser_telemetry = true
is_browser _ = false

unfoldable pub dry_run_block : Mode → Option BlockReason
dry_run_block dry_run = some dry_run_mode
dry_run_block _ = none

unfoldable pub is_disabled : Mode → Bool
is_disabled disabled = true
is_disabled _ = false

unfoldable pub severity_agrees : Option String → String → Bool
severity_agrees none found = false
severity_agrees (some expected) found = found == expected

unfoldable pub is_folded : Decision → Bool
is_folded (admitted a) = true
is_folded _ = false

unfoldable pub set_cursor : ℕ → Db → Db
set_cursor row_id db = record db { cursor = later db.cursor row_id }

module _ (digest : String → String) (s : Settings) where
  unfoldable pub print_of : Event → Family → String
  unfolding fingerprint baseline_of
  print_of e family =
      if is_derived e.environment_kind
      then s.parent_fingerprint
      else fingerprint digest s.target_repo (baseline_of e.revision).0 family.key e.actor

  -- The transaction of `_ingest`.
  unfoldable pub store_evidence :
      Event → Family → Role → Option BlockReason → Option Incident → Db → Decision × Db
  unfolding fold_into new_incident add_incident record_error
  store_evidence e family role reason none db =
      if is_derived e.environment_kind
      then (suppressed unknown_parent, record_error e.event_id parent_gone db)
      else fold_into true db.next_id (print_of e family) family role false (admission_of reason) e
          db
          (add_incident
            (new_incident db.next_id (print_of e family) s e family (baseline_of e.revision) reason)
            db)
  store_evidence e family role reason (some i) db =
      fold_into false i.id (print_of e family) family role (is_derived e.environment_kind)
        (admission_of reason) e db db

  unfoldable pub ingest : Event → Family → Role → Option BlockReason → Db → Decision × Db
  unfolding block_reason record_error print_of store_evidence by_fingerprint
  ingest e family role forced db =
      if is_blank e.event_id
      then (processing_error, record_error "" missing_event_id db)
      else if not (is_known e.environment_kind)
      then (suppressed unknown_environment, record_error e.event_id unknown_kind db)
      else if is_blank e.actor
      then (suppressed Suppression.missing_actor, record_error e.event_id Problem.missing_actor db)
      else if is_derived e.environment_kind && is_blank (print_of e family)
      then (suppressed derived_without_parent, record_error e.event_id no_parent db)
      else store_evidence e family role
          (or_block forced (block_reason s e family (baseline_of e.revision).0))
          (by_fingerprint (print_of e family) db) db

  unfoldable pub rate_exceeded : Event → Db → Bool
  unfolding in_window is_browser
  rate_exceeded e db =
      not (s.telemetry_rate_limit == 0)
      && leb s.telemetry_rate_limit
          (count_if (λ row. is_browser row.role && in_window e.ts row) db.events)

  -- From the gate on the mode to the store.
  unfoldable pub admit_telemetry : Event → Family → Db → Decision × Db
  unfolding rate_exceeded dry_run_block is_disabled ingest
  admit_telemetry e family db =
      if is_disabled s.telemetry_admission
      then (suppressed admission_disabled, db)
      else if rate_exceeded e db
      then (suppressed telemetry_rate_limited, record_error e.event_id rate_limited db)
      else ingest e family browser_telemetry (dry_run_block s.telemetry_admission) db

  -- `_observe_telemetry`, once the family is looked up.
  unfoldable pub observe_signature : Event → Finding → Option Family → Db → Decision × Db
  unfolding severity_agrees admit_telemetry record_error
  observe_signature e f none db = (suppressed unregistered_signature, db)
  observe_signature e f (some family) db =
      if severity_agrees (signature_severity family.telemetry_family) f.severity
      then admit_telemetry e family db
      else (suppressed severity_mismatch, record_error e.event_id severity_differs db)

  unfoldable pub observe_finding : Event → Output → Db → Decision × Db
  unfolding observe_signature record_error
  observe_finding e not_a_record db =
      (suppressed malformed_telemetry, record_error e.event_id malformed_finding db)
  observe_finding e (finding f) db =
      if f.classification == "needs_attention"
      then (suppressed needs_attention, record_error e.event_id unregistered_browser db)
      else if not (f.classification == "qualified")
      then (suppressed (Suppression.classification f.classification), db)
      else observe_signature e f (telemetry_family_for f.family) db

  -- The rest of `_observe` for a failed assertion, once the family is looked up.
  unfoldable pub observe_family : Event → Option Family → Db → Decision × Db
  unfolding ingest
  observe_family e none db = (suppressed unregistered_failure, db)
  observe_family e (some family) db =
      if e.assertion.subject == "harness"
      then (suppressed harness_failure, db)
      else ingest e family failure none db

  -- `_observe`, by the outcome of the event.
  unfoldable pub observe_outcome : EventOutcome → Event → Db → Decision × Db
  unfolding observe_finding observe_family record_error
  observe_outcome EventOutcome.telemetry e db = observe_finding e e.output db
  observe_outcome EventOutcome.assertion_failed e db =
      if is_control e.assertion.name
      then (suppressed control_assertion, record_error e.event_id control_failed db)
      else observe_family e (family_for e.assertion.name) db
  observe_outcome o e db = (suppressed (Suppression.outcome o), db)

  unfoldable pub observe : Event → Db → Decision × Db
  unfolding observe_outcome
  observe e db = observe_outcome e.outcome e db

  -- The loop of `drain` over what `EventStore.since` answered: (scanned, ingested).
  unfoldable pub drain_from : List (ℕ × Event) → ℕ × ℕ → Db → (ℕ × ℕ) × Db
  unfolding observe is_folded set_cursor
  drain_from [] counts db = (counts, db)
  drain_from ((row_id, e) ∷ rest) (scanned, ingested) db =
      let (decision, db') = observe e db in
      drain_from rest (suc scanned, if is_folded decision then suc ingested else ingested)
        (set_cursor row_id db')

-- `EventStore.since`: the rows behind the cursor, oldest first, at most `limit` of them.
abbrev take {ℓ} : {A : Type ℓ} → ℕ → List A → List A
take zero xs = []
take (suc n) [] = []
take (suc n) (x ∷ xs) = x ∷ take n xs

unfoldable pub since : ℕ → ℕ → List (ℕ × Event) → List (ℕ × Event)
since after limit log = take limit (keep (λ row. ltb after row.0) log)

unfoldable pub drain : (String → String) → Settings → List (ℕ × Event) → ℕ → Db → (ℕ × ℕ) × Db
unfolding since drain_from
drain digest s log limit db = drain_from digest s (since db.cursor limit log) (0, 0) db
