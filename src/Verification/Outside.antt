-- ===== src/Verification/Outside.antt =====
-- portal/verification.py: what a verifier is given, and what its methods read and write.
use devin_automation.Prelude.{ℕ, String, Bool, true, false, Option, none, List, [], ◌∷◌, concat}
use devin_automation.Repairs.Types.{VerdictKind, blocked}
use devin_automation.Controller.Providers.{Head}
use devin_automation.Methods.{Result, Method}
use devin_automation.Verification.Report.{Report, Retained, no_report}
use devin_automation.Verification.Provenance.{Environment}
use devin_automation.Verification.Candidate.{Commit}
use devin_automation.Verification.Records.{Stage, Table}

-- An exception, with the name of its class: the four families that `verify` names, `Ambiguous` and `Refused`
-- of portal/transport.py, and whatever else ends a call.
pub data Fault : Type 0 where
  runner_error runtime_error value_error os_error : String → String → Fault
  ambiguous refused other : String → Fault

pub record Portal : Type 0 where
  pub url : String
  pub project : String
  pub data_dir : String
  pub cleanup_command : String

-- GitHub, the protocol `Runner`, the replay, the disk and the clock.
pub record Outside (W : Type 0) : Type 0 where
  pub clock : W → ℕ
  pub pull_request_head : ℕ → W → Result Fault Head × W
  pub pull_request_files : ℕ → W → Result Fault (List String) × W
  pub commit : String → W → Result Fault Commit × W
  pub compare_files : String → String → W → Result Fault (List String) × W
  pub prepare : String → String → W → Result Fault Environment × W
  pub teardown : Environment → W → Result Fault (Unit {0}) × W
  pub serve_portal : Environment → W → Result Fault Portal × W
  pub replay : Environment → List String → W → Result Fault Report × W
  -- the directory and the file of an artifact, and of `retained-demo.json`
  pub write_report : ℕ → String → ℕ → Report → W → Result Fault String × W
  pub write_retained : Retained → W → Result Fault (Unit {0}) × W

-- What the runner was told.
pub data RunnerCall : Type 0 where
  prepared : String → RunnerCall
  torn_down : String → RunnerCall

-- The local variables of `verify`.
pub record Frame : Type 0 where
  pub environment : Option Environment
  pub report : Report
  pub commands : List String
  pub head_sha : String
  pub keep : Bool
  pub verdict : VerdictKind
  pub failures : List String

abbrev pub new_frame : Frame
new_frame = record {
  environment = none;
  report = no_report;
  commands = [];
  head_sha = "";
  keep = false;
  verdict = blocked;
  failures = [];
}

-- The store, the world, the stacks that came up and those that were told to go down, and the locals.
pub record Sys (W : Type 0) : Type 0 where
  pub table : Table
  pub world : W
  pub calls : List RunnerCall
  pub frame : Frame

abbrev pub Verify : Type 0 → Type 0 → Type 0
Verify W A = Method (Sys W) Fault A

pub record Outcome : Type 0 where
  pub verdict : VerdictKind
  pub reason : String
  pub failures : List String
  pub record_id : ℕ
  pub candidate_sha : String
  pub stage : Stage
  pub checks : ℕ

-- `f"{type(exc).__name__}: {exc}"`
unfoldable pub fault_text : Fault → String
fault_text (runner_error name text) = concat (name ∷ ": " ∷ text ∷ [])
fault_text (runtime_error name text) = concat (name ∷ ": " ∷ text ∷ [])
fault_text (value_error name text) = concat (name ∷ ": " ∷ text ∷ [])
fault_text (os_error name text) = concat (name ∷ ": " ∷ text ∷ [])
fault_text (ambiguous text) = concat ("Ambiguous: " ∷ text ∷ [])
fault_text (refused text) = concat ("Refused: " ∷ text ∷ [])
fault_text (other text) = text

-- Whether `except (RunnerError, RuntimeError, ValueError, OSError)` names it.
unfoldable pub is_caught : Fault → Bool
is_caught (runner_error name text) = true
is_caught (runtime_error name text) = true
is_caught (value_error name text) = true
is_caught (os_error name text) = true
is_caught _ = false

-- Whether `except (RunnerError, OSError)` names it.
unfoldable pub is_runner_or_os : Fault → Bool
is_runner_or_os (runner_error name text) = true
is_runner_or_os (os_error name text) = true
is_runner_or_os _ = false

abbrev pub is_prepared : RunnerCall → Bool
is_prepared (prepared project) = true
is_prepared (torn_down project) = false

abbrev pub is_torn_down : RunnerCall → Bool
is_torn_down (prepared project) = false
is_torn_down (torn_down project) = true

module _ {W A : Type 0} where
  unfoldable pub ask : (W → Result Fault A × W) → Verify W A
  ask call s = let (r, w) = call s.world in (r, record s { world = w })
