-- ===== src/Repairs/Types.antt =====
-- portal/controller.py: the rows of the repair tables. Times are milliseconds; an ACU is counted
-- in thousandths. A text column that is NULL is "", which every reader treats alike.
use devin_automation.Prelude.{ℕ, String, Bool, false, Option, none, List, []}

pub data State : Type 0 where
  proposed dispatched candidate verified awaiting_merge merged needs_attention terminal : State

pub data Stage : Type 0 where
  symptom after_merge : Stage

pub data MediaState : Type 0 where
  pending requested captured delivered failed : MediaState

pub data VerdictKind : Type 0 where
  passed failed blocked : VerdictKind

-- The JSON record of a verification, `verification` and `merge_verification`.
pub record Verdict : Type 0 where
  pub verdict : VerdictKind
  pub reason : String
  pub sha : String
  pub attempt_id : ℕ
  pub checks : ℕ
  pub at : ℕ

-- What the session hands over as structured output. A missing classification is `None`.
pub record Report : Type 0 where
  pub reproduced : Bool
  pub classification : Option String
  pub pr_url : String

pub record Repair : Type 0 where
  pub id : ℕ
  pub fingerprint : String
  pub incident_id : ℕ
  pub simulated : Bool
  pub state : State
  pub attempt : ℕ
  pub follow_ups : ℕ
  pub terminal_reason : String
  pub attention : String
  pub issue_title : String
  pub issue_body : String
  pub session_request : String
  pub issue_url : String
  pub session_id : String
  pub session_url : String
  pub acu_limit : ℕ
  pub deadline : Option ℕ
  pub agent_status : String
  pub agent_detail : Option String
  pub agent_acus : ℕ
  pub agent_output : Option Report
  pub agent_pr_url : String
  pub pr_head_sha : String
  pub verification : Option Verdict
  pub merge_commit_sha : String
  pub merge_verification : Option Verdict
  pub media_state : Option MediaState
  pub media_stage : Option Stage
  pub media_detail : String
  pub media_path : String
  pub media_file_id : String
  pub media_asked_at : Option ℕ
  pub media_polls : ℕ
  pub created_at : ℕ
  pub updated_at : ℕ

pub data Kind : Type 0 where
  issue session message : Kind

pub data IntentState : Type 0 where
  intended confirmed ambiguous : IntentState

pub record Intent : Type 0 where
  pub id : ℕ
  pub repair_id : ℕ
  pub kind : Kind
  pub marker : String
  pub state : IntentState
  pub detail : String
  pub created_at : ℕ
  pub updated_at : ℕ

-- The single row of `repair_slot`.
pub record Claim : Type 0 where
  pub repair_id : ℕ
  pub claimed_at : ℕ

-- The database file, with its AUTOINCREMENT counters, and whether its process is simulated.
pub record Store : Type 0 where
  pub repairs : List Repair
  pub intents : List Intent
  pub slot : Option Claim
  pub run : Option String
  pub next_repair : ℕ
  pub next_intent : ℕ
  pub simulated : Bool

abbrev pub empty : Store
empty = record {
  repairs = [];
  intents = [];
  slot = none;
  run = none;
  next_repair = 1;
  next_intent = 1;
  simulated = false;
}
