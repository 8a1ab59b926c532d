-- ===== src/Controller/Providers.antt =====
-- What the controller is given: the providers (portal/providers.py), the verifier
-- (portal/verification.py), the incidents, the texts of portal/brief.py and its configuration. The
-- world `W` is all that lies outside of the database, the clock included.
use devin_automation.Prelude.{
  ℕ, String, Bool, false, ◌||◌, Option, none, some, List, ◌==◌, string_eq,
}
use devin_automation.Incidents.Types.{Incident}
use devin_automation.Repairs.Types.{Repair, Report, VerdictKind, Stage}

-- How a call ends: `Refused` and `Ambiguous` of portal/transport.py, `RuntimeError` for an answer
-- that is an error, and `died` for whatever no handler names, the end of the process included.
pub data Fault : Type 0 where
  ambiguous refused runtime : String → Fault
  died : Fault

pub data Answer (A : Type 0) : Type 0 where
  returned : A → Answer A
  raised : Fault → Answer A

pub record Session : Type 0 where
  pub session_id : String
  pub url : String
  pub status : String
  pub status_detail : Option String
  pub acus_consumed : ℕ
  pub pull_requests : List String
  pub structured_output : Option Report

is_detail : String → Option String → Bool
is_detail text none = false
is_detail text (some detail) = detail == text

unfoldable pub agent_finished : Session → Bool
unfolding is_detail
agent_finished s = s.status == "exit" || is_detail "finished" s.status_detail

unfoldable pub waiting_for_user : Session → Bool
unfolding is_detail
waiting_for_user s = is_detail "waiting_for_user" s.status_detail

unfoldable pub waiting : Session → Bool
unfolding is_detail waiting_for_user
waiting s = waiting_for_user s || is_detail "waiting_for_approval" s.status_detail

unfoldable pub stopped : Session → Bool
stopped s = s.status == "error" || s.status == "suspended"

-- A pull request as GitHub reports it.
pub record Head : Type 0 where
  pub head_sha : String
  pub head_repo : String
  pub base_ref : String
  pub state : String
  pub merged : Bool
  pub merge_commit_sha : String

pub record Outcome : Type 0 where
  pub verdict : VerdictKind
  pub reason : String
  pub failures : List String
  pub record_id : ℕ
  pub candidate_sha : String
  pub checks : ℕ

pub record Attachment : Type 0 where
  pub name : String
  pub source : String

-- What a capture's name says of it, `media.Capture`.
pub record Capture : Type 0 where
  pub name : String
  pub sha : String
  pub case_name : String
  pub recorded_at : ℕ
  pub stage : Stage

pub record Providers (W : Type 0) : Type 0 where
  pub clock : W → ℕ
  pub incident_of : ℕ → W → Option Incident
  pub find_issue : String → W → Answer (Option String) × W
  pub create_issue : String → String → W → Answer String × W
  pub pull_request_head : ℕ → W → Answer Head × W
  pub find_tagged : String → W → Answer (Option Session) × W
  pub create_session : String → W → Answer Session × W
  pub get_session : String → W → Answer Session × W
  pub send_message : String → String → W → Answer (Unit {0}) × W
  pub terminate_session : String → W → Answer (Unit {0}) × W
  pub session_attachments : String → W → Answer (List Attachment) × W
  -- `media.capture_of`, `media.download`, and whether the file of a path is there
  pub capture_of : String → Option Capture
  pub download : Attachment → String → W → Answer (Unit {0}) × W
  pub is_file : String → W → Bool
  -- `Verifier.verify` of a candidate ("") or of a merge commit
  pub verify : Repair → Option Incident → String → W → Answer Outcome × W

-- The texts of portal/brief.py, and `str` of a number of ACUs and of a time.
pub record Texts : Type 0 where
  pub issue_title : Incident → String → String
  pub issue_body : Incident → ℕ → String → String
  pub session_request : Incident → ℕ → String → ℕ → String → String → String
  pub follow_up_message : List String → String → String → String
  pub symptom_message : String → String → String
  pub post_merge_message : String → String → String → String → String → String
  pub acus : ℕ → String
  pub time : ℕ → String

-- The arguments of `Controller.__init__`. A provider that was not supplied is `None` there.
pub record Config : Type 0 where
  pub target_repo : String
  pub has_github : Bool
  pub has_devin : Bool
  pub has_verifier : Bool
  pub dispatch_enabled : Bool
  pub budget_acus : ℕ
  pub wall_clock_minutes : ℕ
  pub stale_after_minutes : ℕ
  pub run : String
  pub base_branch : String
  pub merge_gate : Bool
  pub media_dir : Option String
