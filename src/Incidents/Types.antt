-- ===== src/Incidents/Types.antt =====
-- portal/incidents.py: an event, the failure families, and the rows of the incident tables.
-- Times are milliseconds, as `utcnow` writes them. A missing text is "".
use devin_automation.Prelude.{
  ℕ, String, Bool, ◌&&◌, ◌||◌, Option, none, some, List, [], ◌∷◌, find, mem, any, is_blank, not,
  ◌==◌, string_eq, if◌then◌else◌,
}

-- The outcomes of `portal/events.py`; an event that was never emitted may carry another text.
pub data EventOutcome : Type 0 where
  ok assertion_failed expected_denial blocked error telemetry : EventOutcome
  other : String → EventOutcome

pub record Assertion : Type 0 where
  pub name : String
  pub subject : String

-- `matches` is `checkout_matches_running_code is True`.
pub record Revision : Type 0 where
  pub strength : String
  pub checkout_sha : String
  pub matches : Bool
  pub fixture_revision : String

pub record Finding : Type 0 where
  pub classification : String
  pub family : String
  pub severity : String
  pub diagnostic : String

-- `event["output"]`, which a telemetry event must fill with a finding.
pub data Output : Type 0 where
  finding : Finding → Output
  not_a_record : Output

pub record Event : Type 0 where
  pub event_id : String
  pub outcome : EventOutcome
  pub environment_kind : String
  pub actor : String
  pub scenario : String
  pub trace_id : String
  pub step_index : ℕ
  pub ts : ℕ
  pub operation : String
  pub assertion : Assertion
  pub output : Output
  pub revision : Revision

pub record Family : Type 0 where
  pub key : String
  pub scenario : String
  pub title : String
  pub assertions : List String
  pub controls : List String
  pub telemetry_family : String

abbrev pub discarded_key_reused : Family
discarded_key_reused = record {
  key = "discarded_form_data_key_is_reused";
  scenario = "S2";
  title = "A discarded exploration link comes back pointing at new state";
  assertions =
      "new_exploration_does_not_reuse_a_discarded_key" ∷ "discarded_exploration_link_stays_gone"
      ∷ "exploration_link_shows_its_own_state" ∷ [];
  controls = [];
  telemetry_family = "";
}

abbrev pub row_limit_reset : Family
row_limit_reset = record {
  key = "omitted_row_limit_is_reset";
  scenario = "S1";
  title = "An MCP chart update resets fields the caller omitted";
  assertions = "row_limit_survives_an_unrelated_change" ∷ [];
  controls = "color_scheme_survives_an_unrelated_change" ∷ [];
  telemetry_family = "";
}

abbrev pub bigint_format : Family
bigint_format = record {
  key = "bigint_number_format_not_applied";
  scenario = "B1";
  title = "A memory number format is not applied to large integers";
  assertions = [];
  controls = [];
  telemetry_family = "bigint_number_format_not_applied";
}

abbrev pub families : List Family
families = discarded_key_reused ∷ row_limit_reset ∷ bigint_format ∷ []

-- The names are distinct, so the dictionaries of the source are these searches.
unfoldable pub family_for : String → Option Family
family_for name = find (λ f. mem name f.assertions) families

unfoldable pub is_control : String → Bool
is_control name = any (λ f. mem name f.controls) families

unfoldable pub telemetry_family_for : String → Option Family
telemetry_family_for key =
    find (λ f. not (is_blank f.telemetry_family) && f.telemetry_family == key) families

-- The severity of the one signature that `portal/telemetry.py` registers.
unfoldable pub signature_severity : String → Option String
signature_severity family =
    if family == "bigint_number_format_not_applied" then some "warning" else none

abbrev pub derived_kinds : List String
derived_kinds = "preview" ∷ "reproduction" ∷ "verification" ∷ []

abbrev pub baseline_kinds : List String
baseline_kinds = "baseline" ∷ "baseline-light" ∷ []

unfoldable pub is_derived : String → Bool
is_derived kind = mem kind derived_kinds

unfoldable pub is_known : String → Bool
unfolding is_derived
is_known kind = mem kind baseline_kinds || is_derived kind

pub data Admission : Type 0 where
  eligible blocked : Admission

-- Why an incident is blocked.
pub data BlockReason : Type 0 where
  unmatched_checkout other_baseline no_fixture scenario_disagrees dry_run_mode : BlockReason

pub data Mode : Type 0 where
  enabled dry_run disabled : Mode

-- What the incident store is configured with. A rate limit of 0 or less disables the cap.
pub record Settings : Type 0 where
  pub target_repo : String
  pub parent_fingerprint : String
  pub expected_baseline : String
  pub telemetry_admission : Mode
  pub telemetry_rate_limit : ℕ

pub record Incident : Type 0 where
  pub id : ℕ
  pub fingerprint : String
  pub family : String
  pub scenario : String
  pub title : String
  pub actor : String
  pub target_repo : String
  pub baseline_sha : String
  pub revision_strength : String
  pub fixture_revision : String
  pub admission : Admission
  pub admission_reason : Option BlockReason
  pub state : String
  pub occurrence_count : ℕ
  pub first_seen : ℕ
  pub last_seen : ℕ

pub data Role : Type 0 where
  failure browser_telemetry derived_evidence : Role

pub record Evidence : Type 0 where
  pub event_id : String
  pub incident_id : ℕ
  pub trace_id : String
  pub step_index : ℕ
  pub ts : ℕ
  pub operation : String
  pub role : Role

pub record Occurrence : Type 0 where
  pub incident_id : ℕ
  pub trace_id : String
  pub ts : ℕ

-- What `_record_error` notes, by the reason it writes.
pub data Problem : Type 0 where
  control_failed malformed_finding unregistered_browser severity_differs rate_limited : Problem
  missing_event_id unknown_kind missing_actor no_parent parent_gone : Problem

pub record ErrorRow : Type 0 where
  pub event_id : String
  pub problem : Problem

-- The database. The next ids stand for the AUTOINCREMENT counters.
pub record Db : Type 0 where
  pub incidents : List Incident
  pub events : List Evidence
  pub occurrences : List Occurrence
  pub errors : List ErrorRow
  pub cursor : ℕ
  pub next_id : ℕ

abbrev pub empty : Db
empty = record {
  incidents = [];
  events = [];
  occurrences = [];
  errors = [];
  cursor = 0;
  next_id = 1;
}

-- Why an event was not folded in.
pub data Suppression : Type 0 where
  outcome : EventOutcome → Suppression
  classification : String → Suppression
  control_assertion unregistered_failure harness_failure malformed_telemetry : Suppression
  needs_attention unregistered_signature severity_mismatch admission_disabled : Suppression
  telemetry_rate_limited unknown_environment missing_actor derived_without_parent : Suppression
  unknown_parent : Suppression

pub record Admitted : Type 0 where
  pub created : Bool
  pub incident_id : ℕ
  pub fingerprint : String
  pub family : String
  pub new_occurrence : Bool
  pub derived : Bool
  pub admission : Admission

-- What `observe` answers.
pub data Decision : Type 0 where
  suppressed : Suppression → Decision
  processing_error : Decision
  duplicate_event : ℕ → String → Decision
  admitted : Admitted → Decision
