-- ===== src/Acceptance/Tests.antt =====
-- portal/controller.py with the verifier of portal/verification.py, on a concrete candidate.
use devin_automation.Prelude.{true, false, none, some, [], ◌∷◌, refl}
use devin_automation.Repairs.Types.{empty, blocked}
use devin_automation.Controller.Exec.{Sys}
use devin_automation.Controller.Providers.{
  Providers, Texts, Config, returned, Session, Outcome, Head,
}
use devin_automation.Controller.Verdicts.{verify_row}
use devin_automation.Verification.Outside
use devin_automation.Verification.Tests.{incident, outside, host, settings, repair, start}
use devin_automation.Acceptance.{with_verifier}
use devin_automation.Acceptance.Verified.{Accepts, verify_row-Accepts}

abbrev session : Session
session = record {
  session_id = "devin-1";
  url = "";
  status = "exit";
  status_detail = none;
  acus_consumed = 0;
  pull_requests = [];
  structured_output = none;
}

abbrev head : Head
head = record {
  head_sha = repair.pr_head_sha;
  head_repo = "acme/superset";
  base_ref = "master";
  state = "open";
  merged = false;
  merge_commit_sha = "";
}

abbrev outcome : Outcome
outcome = record {
  verdict = blocked;
  reason = "";
  failures = [];
  record_id = 0;
  candidate_sha = "";
  checks = 0;
}

abbrev providers : Providers (Outside.Sys (Unit {0}))
providers = record {
  clock = λ w. 0;
  incident_of = λ id w. some incident;
  find_issue = λ mark w. (returned none, w);
  create_issue = λ title body w. (returned "issue", w);
  pull_request_head = λ number w. (returned head, w);
  find_tagged = λ mark w. (returned none, w);
  create_session = λ request w. (returned session, w);
  get_session = λ id w. (returned session, w);
  send_message = λ id text w. (returned tt, w);
  terminate_session = λ id w. (returned tt, w);
  session_attachments = λ id w. (returned [], w);
  capture_of = λ name. none;
  download = λ a path w. (returned tt, w);
  is_file = λ path w. false;
  verify = λ r i merge_sha w. (returned outcome, w);
}

abbrev texts : Texts
texts = record {
  issue_title = λ i mark. "";
  issue_body = λ i attempt mark. "";
  session_request = λ i a b d e f. "";
  follow_up_message = λ failures url sha. "";
  symptom_message = λ a b. "";
  post_merge_message = λ a b d e f. "";
  acus = λ n. "";
  time = λ n. "";
}

abbrev config : Config
config = record {
  target_repo = "acme/superset";
  has_github = true;
  has_devin = true;
  has_verifier = true;
  dispatch_enabled = true;
  budget_acus = 10;
  wall_clock_minutes = 60;
  stale_after_minutes = 15;
  run = "";
  base_branch = "master";
  merge_gate = true;
  media_dir = none;
}

abbrev candidates : Sys (Outside.Sys (Unit {0}))
candidates = record { store = record empty { repairs = repair ∷ [] }; world = start; sent = [] }

verify_row-Accepts_example :
    Accepts outside host settings providers texts config repair candidates
      (verify_row (with_verifier outside host settings providers) texts config repair candidates).1
verify_row-Accepts_example =
    verify_row-Accepts outside host settings providers texts config repair candidates (refl, tt)
