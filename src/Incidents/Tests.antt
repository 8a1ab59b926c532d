-- ===== src/Incidents/Tests.antt =====
-- portal/incidents.py on concrete events: a browser step on the baseline, the same step in a preview,
-- and a telemetry finding.
use devin_automation.Prelude.{◌⊎◌, ℕ, String, true, List, [], ◌∷◌, ◌≡◌, refl}
use devin_automation.Incidents.Types.{
  Event, Settings, Db, empty, is_control, family_for, is_known, assertion_failed, telemetry,
  finding, not_a_record, enabled, dry_run, is_derived,
}
use devin_automation.Incidents.Observe.{observe, drain}
use devin_automation.Incidents.Sound.{observe-IsSound, drain-IsSound, empty-IsSound}
use devin_automation.Incidents.Sound.Rows.{IsSound}
use devin_automation.Incidents.Eligible.{
  drain-AllPinned, dry_run-dispatchable, dispatchable, AllPinned,
}
use devin_automation.Incidents.Deliveries.{
  IsChild, derived_counts_nothing, creation, creates, IsRegistered,
}

abbrev same_text : String → String
same_text text = text

abbrev settings : Settings
settings = record {
  target_repo = "acme/superset";
  parent_fingerprint = "";
  expected_baseline = "c0ffee";
  telemetry_admission = enabled;
  telemetry_rate_limit = 5;
}

abbrev dry_settings : Settings
dry_settings = record {
  target_repo = "acme/superset";
  parent_fingerprint = "";
  expected_baseline = "";
  telemetry_admission = dry_run;
  telemetry_rate_limit = 5;
}

abbrev failed_step : Event
failed_step = record {
  event_id = "e1";
  outcome = assertion_failed;
  environment_kind = "baseline";
  actor = "mcp";
  scenario = "S1";
  trace_id = "t1";
  step_index = 2;
  ts = 1000;
  operation = "update_chart";
  assertion = record { name = "row_limit_survives_an_unrelated_change"; subject = "chart" };
  output = not_a_record;
  revision = record {
    strength = "checkout";
    checkout_sha = "c0ffee";
    matches = true;
    fixture_revision = "f1";
  };
}

abbrev preview_step : Event
preview_step = record failed_step { event_id = "e2"; environment_kind = "preview" }

abbrev scanned : Event
scanned = record failed_step {
  event_id = "e3";
  outcome = telemetry;
  scenario = "B1";
  output = finding (record {
    classification = "failure";
    family = "bigint_number_format_not_applied";
    severity = "warning";
    diagnostic = "";
  });
}

abbrev after_one : Db
after_one = (observe same_text settings failed_step empty).1

abbrev event_log : List (ℕ × Event)
event_log = (1, failed_step) ∷ (2, preview_step) ∷ (3, failed_step) ∷ (4, scanned) ∷ []

observe-IsSound_example : IsSound after_one
observe-IsSound_example = observe-IsSound same_text settings failed_step empty empty-IsSound

drain-IsSound_example : IsSound (drain same_text settings event_log 1000 empty).1
drain-IsSound_example = drain-IsSound same_text settings event_log 1000 empty empty-IsSound

drain-AllPinned_example : AllPinned settings (drain same_text settings event_log 1000 empty).1
drain-AllPinned_example = drain-AllPinned settings same_text event_log 1000 empty tt

dry_run-dispatchable_example :
    dispatchable (observe same_text dry_settings scanned empty).1 ≡ dispatchable empty
dry_run-dispatchable_example = dry_run-dispatchable same_text dry_settings scanned empty refl refl

derived_counts_nothing_example :
    let db' = (observe same_text settings preview_step after_one).1 in
    (db'.incidents ≡ after_one.incidents)
    × (db'.occurrences ≡ after_one.occurrences)
    × ((db'.events ≡ after_one.events) ⊎ IsChild settings preview_step after_one db')
unfolding is_derived
derived_counts_nothing_example =
    derived_counts_nothing same_text settings preview_step after_one derived
  where
    derived : is_derived "preview" ≡ true
    derived = refl

creation_example : IsRegistered failed_step
unfolding observe is_control family_for is_known
creation_example = creation same_text settings failed_step empty created
  where
    created : creates (observe same_text settings failed_step empty).0 ≡ true
    created = refl
