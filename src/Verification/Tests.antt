-- ===== src/Verification/Tests.antt =====
-- portal/verification.py on a concrete candidate, whose replay reports that each assertion held.
use devin_automation.Prelude.{
  strip_prefix, codes, concat, parse_digits, before, String, true, false, not, ◌&&◌, ◌||◌, Option,
  none, some, List, [], ◌∷◌, ◌≡◌, refl, map, all, any, is_blank, lower, strip, length, ltb,
  is_full_sha, char_count, ◌==◌, string_eq, nat_eq,
}
use devin_automation.Registry.{required_checks}
use devin_automation.Incidents.Types.{Incident, Admission}
use devin_automation.Repairs.Types.{Repair, State, VerdictKind, passed, blocked}
use devin_automation.Controller.Providers.{Head, Config}
use devin_automation.Controller.Polling.{pr_problem}
use devin_automation.Methods.{Result, ok, err, ◌>>=◌, gets, modify, ensure, attempt, run, pure}
use devin_automation.Methods.Triple.{After}
use devin_automation.Verification.Scope.{
  check_scope, check_scope_lem, no_entries, scope_of, in_scope, product_of, under,
}
use devin_automation.Verification.Report.{CheckEntry, CaseEntry, Report}
use devin_automation.Verification.Grading.{grade}
use devin_automation.Verification.Grading.Sound.{PassOf, grade-IsPass}
use devin_automation.Verification.Provenance.{
  Host, ServiceData, Measured, Environment, provenance_problem,
}
use devin_automation.Verification.Provenance.Clean.{is_measured, provenance_problem_lem}
use devin_automation.Verification.Candidate.{
  Settings, Commit, head_problem, merged_problem, head_problem-pr_problem, merged_problem_lem,
}
use devin_automation.Verification.Outside.{
  Outside, prepared, torn_down, new_frame, Sys, Portal, Fault, os_error, Outcome, ask, fault_text,
  is_caught,
}
use devin_automation.Verification.Verifier.{verify}
use devin_automation.Verification.Verifier.Once.{verify-IsRecorded}
use devin_automation.Verification.Verifier.Backed.{IsRecorded}
use devin_automation.Verification.Verifier.Torn.{IsClean, verify-IsClean}

abbrev sha : String
sha = "0123456789012345678901234567890123456789"

abbrev merge_sha : String
merge_sha = "abcdefabcdefabcdefabcdefabcdefabcdefabcd"

abbrev pub incident : Incident
incident = record {
  id = 1;
  fingerprint = "f1";
  family = "omitted_row_limit_is_reset";
  scenario = "S1";
  title = "Reset";
  actor = "mcp";
  target_repo = "acme/superset";
  baseline_sha = "c0ffee";
  revision_strength = "checkout";
  fixture_revision = "f1";
  admission = Admission.eligible;
  admission_reason = none;
  state = "detected";
  occurrence_count = 1;
  first_seen = 0;
  last_seen = 0;
}

abbrev changed : List String
changed = "superset/commands/chart/update.py" ∷ "tests/unit_tests/charts/update_tests.py" ∷ []

abbrev family : String
family = "omitted_row_limit_is_reset"

abbrev held : String → CheckEntry
held name = CheckEntry.check (record {
  name = name;
  kind = "target";
  holds = some true;
  expected = "50";
  observed = "50";
  note = "";
})

abbrev case_row : String → CaseEntry
case_row name = CaseEntry.result (record {
  case_name = name;
  verdict = "passed";
  blocked_reason = "";
  checks = some (map held (required_checks name));
})

abbrev cases : List String
cases = "S1" ∷ "N1" ∷ []

abbrev report : Report
report = record {
  is_empty = false;
  verdict = "passed";
  cases = some (map case_row cases);
  changed_files = none;
  retained = none;
}

abbrev pub host : Host
host = record { resolve = λ path. some (path ∷ []); repr = λ text. text }

abbrev service : ServiceData
service = record {
  error = "";
  container_id = "c1";
  image_id = "i1";
  state = "running";
  health = "healthy";
  source_mount = "/srv/candidate";
  source_sha = sha;
  clean = true;
  code_hash = "sha256:1";
}

abbrev measured : Measured
measured = record {
  stamp = "1970-01-01T00:00:01";
  measured_at = some 1000;
  compose_project = "candidate-1";
  checkout = record {
    code_hash = "sha256:1";
    path = "/srv/candidate";
    source_sha = sha;
    clean = true;
  };
  web = some service;
  mcp = some service;
  fixture = record { error = ""; digest = "d1" };
  automation_ref = "ref1";
  config_revision = "c1";
  assets = none;
}

abbrev stack : Environment
stack = record {
  project = "candidate-1";
  base_url = "http://127.0.0.1:8088";
  mcp_url = "http://127.0.0.1:5008";
  checkout = "/srv/candidate";
  head_sha = sha;
  provenance = some measured;
  commands = "docker compose up" ∷ [];
}

abbrev head : Head
head = record {
  head_sha = sha;
  head_repo = "acme/superset";
  base_ref = "master";
  state = "open";
  merged = false;
  merge_commit_sha = "";
}

abbrev merged_head : Head
merged_head = record head { state = "closed"; merged = true; merge_commit_sha = merge_sha }

abbrev merged_measured : Measured
merged_measured = record measured {
  checkout = record {
    code_hash = "sha256:1";
    path = "/srv/candidate";
    source_sha = merge_sha;
    clean = true;
  };
  web = some (record service { source_sha = merge_sha });
  mcp = some (record service { source_sha = merge_sha });
}

abbrev merged_stack : Environment
merged_stack = record stack { head_sha = merge_sha; provenance = some merged_measured }

abbrev commit : Commit
commit = record { sha = sha; tree_sha = "tree1"; parents = "parent1" ∷ [] }

abbrev portal : Portal
portal = record {
  url = "http://127.0.0.1:9000";
  project = "candidate-1";
  data_dir = "/srv/data";
  cleanup_command = "stop";
}

abbrev pub outside : Outside (Unit {0})
outside = record {
  clock = λ w. 2000;
  pull_request_head = λ number w. (ok head, w);
  pull_request_files = λ number w. (ok changed, w);
  commit = λ sha w. (ok commit, w);
  compare_files = λ base head w. (ok changed, w);
  prepare = λ sha family w. (ok stack, w);
  teardown = λ e w. (ok tt, w);
  serve_portal = λ e w. (ok portal, w);
  replay = λ e cases w. (ok report, w);
  write_report = λ id sha at report w. (ok "artifact.json", w);
  write_retained = λ kept w. (ok tt, w);
}

abbrev pub settings : Settings
settings = record {
  target_repo = "acme/superset";
  base_branch = "master";
  validator_ref = "v1";
  has_artifacts = true;
  simulated = false;
  retain_merged = true;
}

abbrev pub repair : Repair
repair = record {
  id = 1;
  fingerprint = "f1";
  incident_id = 1;
  simulated = false;
  state = State.candidate;
  attempt = 1;
  follow_ups = 0;
  terminal_reason = "";
  attention = "";
  issue_title = "";
  issue_body = "";
  session_request = "";
  issue_url = "";
  session_id = "devin-1";
  session_url = "";
  acu_limit = 10;
  deadline = none;
  agent_status = "";
  agent_detail = none;
  agent_acus = 0;
  agent_output = none;
  agent_pr_url = "https://github.com/acme/superset/pull/7";
  pr_head_sha = sha;
  verification = none;
  merge_commit_sha = "";
  merge_verification = none;
  media_state = none;
  media_stage = none;
  media_detail = "";
  media_path = "";
  media_file_id = "";
  media_asked_at = none;
  media_polls = 0;
  created_at = 0;
  updated_at = 0;
}

abbrev config : Config
config = record {
  target_repo = "acme/superset";
  has_github = true;
  has_devin = true;
  has_verifier = true;
  dispatch_enabled = true;
  budget_acus = 10;
  wall_clock_minutes = 60;
  stale_after_minutes = 15;
  run = "";
  base_branch = "master";
  merge_gate = true;
  media_dir = none;
}

abbrev pub start : Sys (Unit {0})
start = record {
  table = record { rows = []; next_id = 1 };
  world = tt;
  calls = [];
  frame = new_frame;
}

check_scope_lem_example : (check_scope changed family).allowed ≡ (
    not (no_entries changed)
    && (not (ltb 40 (length changed))
        && (not (no_entries (scope_of family))
            && (all (in_scope family) changed && any (under (product_of family)) changed))))
check_scope_lem_example = check_scope_lem changed family

grade-IsPass_example : PassOf report.cases cases
unfolding grade required_checks
grade-IsPass_example = grade-IsPass report cases passes
  where
    passes : (grade report cases).0 ≡ passed
    passes = refl

provenance_problem_lem_example :
    is_blank (provenance_problem host stack sha family 2000)
    ≡ is_measured host stack sha stack.provenance family 2000
provenance_problem_lem_example = provenance_problem_lem host stack sha family 2000

head_problem-pr_problem_example : head_problem settings head ≡ pr_problem config head
head_problem-pr_problem_example = head_problem-pr_problem config settings head refl refl

merged_problem_lem_example : is_blank (merged_problem settings merged_head merge_sha sha) ≡ (
    merged_head.base_ref == settings.base_branch
    && (merged_head.head_repo == settings.target_repo
        && (merged_head.merged
            && (is_full_sha (lower (strip merge_sha))
                && (lower merged_head.merge_commit_sha == lower (strip merge_sha)
                    && (not (
                          not (char_count (lower (strip sha)) == 40)
                          || not (char_count (lower merged_head.head_sha) == 40))
                        && (lower merged_head.head_sha == lower (strip sha) && true)))))))
merged_problem_lem_example = merged_problem_lem settings merged_head merge_sha sha

verify-IsRecorded_example :
    After
      (λ outcome s.
        IsRecorded outside host settings repair
          (some incident)
          ""
          start.world
          start.table
          outcome
          s.table)
      (λ x s. Unit {0})
      (verify outside host settings repair (some incident) "" start)
verify-IsRecorded_example = verify-IsRecorded outside host settings repair (some incident) "" start

verify-IsClean_example :
    After
      (λ outcome. IsClean outside host settings repair (some incident) merge_sha)
      (λ x. IsClean outside host settings repair (some incident) merge_sha)
      (verify outside host settings repair (some incident) merge_sha start)
verify-IsClean_example =
    verify-IsClean outside host settings repair (some incident) merge_sha start refl

abbrev verdict_of : Result Fault Outcome → Option VerdictKind
verdict_of (ok outcome) = some outcome.verdict
verdict_of (err x) = none

run_passes :
    (verdict_of (verify outside host settings repair (some incident) "" start).0 ≡ some passed)
    × ((verify outside host settings repair (some incident) "" start).1.calls
        ≡ prepared "candidate-1" ∷ torn_down "candidate-1" ∷ [])
unfolding verify ◌>>=◌ gets modify ensure attempt run strip_prefix codes concat parse_digits before
    ask is_full_sha lower pure required_checks
run_passes = (refl, refl)

-- After a merge, on a disk that does not take the record of the retained stack.
abbrev after_merge : Outside (Unit {0})
after_merge = record outside {
  pull_request_head = λ number w. (ok merged_head, w);
  prepare = λ sha family w. (ok merged_stack, w);
  write_retained = λ kept w. (err (os_error "OSError" "no space left on device"), w);
}

-- The attempt is recorded as blocked, and its stack stays up.
stack_stays_up :
    (verdict_of (verify after_merge host settings repair (some incident) merge_sha start).0
      ≡ some blocked)
    × ((verify after_merge host settings repair (some incident) merge_sha start).1.calls
        ≡ prepared "candidate-1" ∷ [])
unfolding verify ◌>>=◌ gets modify ensure attempt run strip_prefix codes concat parse_digits before
    ask is_full_sha lower pure strip fault_text char_count required_checks is_caught
stack_stays_up = (refl, refl)
