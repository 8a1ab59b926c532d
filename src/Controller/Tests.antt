-- ===== src/Controller/Tests.antt =====
-- portal/controller.py against concrete providers: GitHub loses the answer of every creation, Devin and
-- the verifier answer.
use devin_automation.Prelude.{
  All, ◌*◌, ℕ, suc, ◌≤◌, String, true, false, Option, none, some, List, [], ◌∷◌, ◌≡◌, refl, arith,
  count_if, any, not, ◌&&◌, ◌||◌, lower, is_full_sha, char_count, ◌==◌, string_eq, nat_eq, is_blank,
  subst,
}
use devin_automation.Incidents.Types.{Incident, Admission}
use devin_automation.Repairs.Types.{Repair, State, Stage, issue, VerdictKind, empty}
use devin_automation.Controller.Exec.{Sys}
use devin_automation.Controller.Providers.{
  Providers, Texts, Config, Attachment, Capture, Session, Head, Outcome, ambiguous, refused,
  returned, raised,
}
use devin_automation.Controller.Dispatch.{consider, proposal}
use devin_automation.Controller.Polling.{pr_problem}
use devin_automation.Controller.Merging.{merge_problem}
use devin_automation.Repairs.Store.{new_intent}
use devin_automation.Controller.Media.{first_capture}
use devin_automation.Controller.Captures.{TakesEvidence, first_capture-TakesEvidence}
use devin_automation.Controller.Base.{stop_row, minute}
use devin_automation.Controller.Advance.{recover}
use devin_automation.Controller.Recovery.{is_stale, IsQuiet, recover-is_stale}
use devin_automation.Controller.Verdicts.{release_row}
use devin_automation.Controller.Releases.{release_row-slot, stop_row-slot}
use devin_automation.Controller.PullRequests.{pr_problem_lem, merge_problem_lem}
use devin_automation.Controller.Considering.{IsRecorded, consider-IsRecorded, consider-any}
use devin_automation.Controller.Once.{IsRoom, is_write}
use devin_automation.Controller.Once.Dispatching.{NamesWhatItMakes, FoundIssue, FoundSession}
use devin_automation.Controller.Once.Runs.{
  Act, pass, considered, elsewhere, perform_all, perform_all-IsRoom, at_most_one_request,
}

abbrev incident : Incident
incident = record {
  id = 1;
  fingerprint = "f1";
  family = "omitted_row_limit_is_reset";
  scenario = "S1";
  title = "Reset";
  actor = "mcp";
  target_repo = "acme/superset";
  baseline_sha = "c0ffee";
  revision_strength = "checkout";
  fixture_revision = "f1";
  admission = Admission.eligible;
  admission_reason = none;
  state = "detected";
  occurrence_count = 1;
  first_seen = 0;
  last_seen = 0;
}

abbrev devin_session : Session
devin_session = record {
  session_id = "devin-1";
  url = "https://app.devin.ai/sessions/1";
  status = "running";
  status_detail = some "working";
  acus_consumed = 0;
  pull_requests = [];
  structured_output = none;
}

abbrev head : Head
head = record {
  head_sha = "0123456789012345678901234567890123456789";
  head_repo = "acme/superset";
  base_ref = "master";
  state = "open";
  merged = false;
  merge_commit_sha = "";
}

abbrev outcome : Outcome
outcome = record {
  verdict = VerdictKind.passed;
  reason = "all cases passed";
  failures = [];
  record_id = 1;
  candidate_sha = "0123456789012345678901234567890123456789";
  checks = 4;
}

-- The world is the time. It does not matter to the answers.
abbrev providers : Providers ℕ
providers = record {
  clock = λ w. w;
  incident_of = λ id w. some incident;
  find_issue = λ mark w. (returned none, w);
  create_issue = λ title body w. (raised (ambiguous "timed out"), w);
  pull_request_head = λ number w. (returned head, w);
  find_tagged = λ mark w. (returned none, w);
  create_session = λ request w. (returned devin_session, w);
  get_session = λ id w. (returned devin_session, w);
  send_message = λ id text w. (returned tt, w);
  terminate_session = λ id w. (returned tt, w);
  session_attachments = λ id w. (returned [], w);
  capture_of = λ name. none;
  download = λ attachment path w. (returned tt, w);
  is_file = λ path w. false;
  verify = λ r i sha w. (returned outcome, w);
}

abbrev texts : Texts
texts = record {
  issue_title = λ i run. i.title;
  issue_body = λ i attempt run. i.title;
  session_request = λ i attempt url limit run base. i.title;
  follow_up_message = λ failures url sha. "still failing";
  symptom_message = λ sha case_name. case_name;
  post_merge_message = λ sha base url head case_name. case_name;
  acus = λ n. "n";
  time = λ n. "t";
}

abbrev config : Config
config = record {
  target_repo = "acme/superset";
  has_github = true;
  has_devin = true;
  has_verifier = true;
  dispatch_enabled = true;
  budget_acus = 10;
  wall_clock_minutes = 60;
  stale_after_minutes = 15;
  run = "";
  base_branch = "master";
  merge_gate = true;
  media_dir = none;
}

abbrev start : Sys ℕ
start = record { store = empty; world = 0; sent = [] }

providers_name : NamesWhatItMakes providers
providers_name = record {
  created_issue = λ title body w url e. cc;
  found_issue = λ mark w found e. unnamed_issue found e;
  created_session = λ request w s e. named s e;
  found_session = λ mark w found e. unnamed_session found e;
}
  where
    unnamed_issue : (found : Option String) → returned none ≡ returned found → FoundIssue found
    unnamed_issue none e = tt
    unnamed_issue (some url) e = cc

    unnamed_session : (found : Option Session) → returned none ≡ returned found → FoundSession found
    unnamed_session none e = tt
    unnamed_session (some s) e = cc

    named : (s : Session) → returned devin_session ≡ returned s → is_blank s.session_id ≡ false
    named s e =
        let same : devin_session ≡ s = cc in
        subst (λ (x : Session). is_blank x.session_id ≡ false) same refl

abbrev acts : List (Act ℕ)
acts =
    considered config incident
    ∷ pass config
    ∷ elsewhere (λ w. suc w)
    ∷ pass config
    ∷ pass config
    ∷ []

perform_all-IsRoom_example :
    IsRoom 1 issue "runtime-repair:f1:attempt-1" 0 (perform_all providers texts acts start)
perform_all-IsRoom_example =
    perform_all-IsRoom providers texts providers_name acts start
      (record { one_row = omega arith; within = omega arith; named = tt })

at_most_one_request_example :
    count_if
      (is_write 1 issue "runtime-repair:f1:attempt-1")
      (perform_all providers texts acts start).sent
    ≤ 1
at_most_one_request_example =
    at_most_one_request providers texts providers_name acts start 1 issue
      "runtime-repair:f1:attempt-1" refl refl

abbrev repair : Repair
repair = record (proposal providers texts config incident) {
  id = 1;
  state = State.awaiting_merge;
  session_id = "devin-1";
  pr_head_sha = "0123456789012345678901234567890123456789";
}

pr_problem_lem_example : is_blank (pr_problem config head) ≡ (
    head.base_ref == config.base_branch
    && (head.head_repo == config.target_repo
        && (is_full_sha (lower head.head_sha)
            && (not head.merged && (head.state == "open" && true)))))
pr_problem_lem_example = pr_problem_lem config head

abbrev merge_sha : String
merge_sha = "abcdefabcdefabcdefabcdefabcdefabcdefabcd"

merge_problem_lem_example : is_blank (merge_problem config head repair merge_sha) ≡ (
    head.base_ref == config.base_branch
    && (head.head_repo == config.target_repo
        && (is_full_sha merge_sha
            && (not (
                  not (char_count (lower repair.pr_head_sha) == 40)
                  || not (char_count (lower head.head_sha) == 40))
                && (lower head.head_sha == lower repair.pr_head_sha && true)))))
merge_problem_lem_example = merge_problem_lem config head repair merge_sha

consider-IsRecorded_example : IsRecorded start (consider providers texts config incident start).1
consider-IsRecorded_example =
    consider-IsRecorded providers texts config incident start λ key. omega arith

consider-any_example :
    any
      (λ r. r.fingerprint == "f1")
      (consider providers texts config incident start).1.store.repairs
    ≡ true
consider-any_example = consider-any providers texts config incident start refl refl

-- Devin refuses to end the session.
abbrev stubborn : Providers ℕ
stubborn = record providers { terminate_session = λ id w. (raised (refused "no connection"), w) }

abbrev claimed_slot : Sys ℕ
claimed_slot = record start {
  store = record empty {
    repairs = repair ∷ [];
    slot = some (record { repair_id = 1; claimed_at = 0 });
  };
}

release_row-slot_example :
    (release_row stubborn texts config repair claimed_slot).1.store.slot ≡ claimed_slot.store.slot
release_row-slot_example =
    release_row-slot stubborn texts config repair claimed_slot (refused "no connection") refl refl
      refl

stop_row-slot_example :
    (stop_row stubborn texts config repair "budget" claimed_slot).1.store.slot
    ≡ claimed_slot.store.slot
stop_row-slot_example =
    stop_row-slot stubborn texts config repair claimed_slot (refused "no connection") "budget" refl
      refl refl

-- A worker died an hour ago between its intent and the request.
abbrev abandoned : Sys ℕ
abandoned = record start {
  store = record empty {
    repairs = repair ∷ [];
    intents = new_intent 0 1 issue "runtime-repair:f1:attempt-1" 1 ∷ [];
  };
  world = 3600000;
}

recover-is_stale_example :
    All
      (λ j. is_stale 3600000 (15 * minute) j ≡ false)
      (recover providers texts config 15 abandoned).1.store.intents
    × IsQuiet abandoned (recover providers texts config 15 abandoned).1
recover-is_stale_example = recover-is_stale providers texts config 15 abandoned

abbrev capture : Capture
capture = record {
  name = "post-merge-abcdef-S1.webm";
  sha = "abcdefabcdefabcdefabcdefabcdefabcdefabcd";
  case_name = "S1";
  recorded_at = 500000;
  stage = Stage.after_merge;
}

abbrev recording : Providers ℕ
recording = record providers { capture_of = λ name. some capture }

abbrev listed : List Attachment
listed =
    record { name = "upload.webm"; source = "operator" }
    ∷ record { name = "post-merge-abcdef-S1.webm"; source = "devin" }
    ∷ []

first_capture-TakesEvidence_example :
    TakesEvidence recording texts config
      (record repair { media_asked_at = some 400000 })
      merge_sha
      "S1"
      Stage.after_merge
      600000
      (first_capture recording texts config
        (record repair { media_asked_at = some 400000 })
        merge_sha
        "S1"
        Stage.after_merge
        600000
        []
        listed)
first_capture-TakesEvidence_example =
    first_capture-TakesEvidence recording texts config
      (record repair { media_asked_at = some 400000 }) merge_sha "S1" Stage.after_merge 600000 []
      listed
