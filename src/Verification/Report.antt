-- ===== src/Verification/Report.antt =====
-- portal/verification.py: the report of a replay, as the JSON that the grader is handed.
use devin_automation.Prelude.{ℕ, String, Bool, true, Option, none, List}

-- `holds` that is no boolean is none; `expected` and `observed` are their `repr`.
pub record CheckRow : Type 0 where
  pub name : String
  pub kind : String
  pub holds : Option Bool
  pub expected : String
  pub observed : String
  pub note : String

pub data CheckEntry : Type 0 where
  check : CheckRow → CheckEntry
  not_a_record : CheckEntry

-- `checks` that are no list are none.
pub record CaseRow : Type 0 where
  pub case_name : String
  pub verdict : String
  pub blocked_reason : String
  pub checks : Option (List CheckEntry)

pub data CaseEntry : Type 0 where
  result : CaseRow → CaseEntry
  not_a_record : CaseEntry

-- What `_retain` says of a stack that stays up.
pub record Retained : Type 0 where
  pub project : String
  pub portal_url : String
  pub portal_state : String
  pub portal_cleanup_command : String
  pub base_url : String
  pub checkout : String
  pub source_sha : String
  pub measured_source_sha : String
  pub cleanup_command : String
  pub retained_at : ℕ

-- `is_empty` is whether the dictionary has no key.
pub record Report : Type 0 where
  pub is_empty : Bool
  pub verdict : String
  pub cases : Option (List CaseEntry)
  pub changed_files : Option (List String)
  pub retained : Option Retained

abbrev pub no_report : Report
no_report = record {
  is_empty = true;
  verdict = "";
  cases = none;
  changed_files = none;
  retained = none;
}
