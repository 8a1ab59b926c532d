-- ===== src/Acceptance.antt =====
-- portal/controller.py with portal/verification.py: the controller's parameter `verify` is the verifier.
pub mod Open
pub mod Others
pub mod Verified
mod Tests
use devin_automation.Prelude.{String, Bool, true, false, Option, List}
use devin_automation.Incidents.Types.{Incident}
use devin_automation.Repairs.Types.{Repair, State}
use devin_automation.Controller.Providers.{
  Providers, Answer, returned, raised, ambiguous, refused, runtime, died,
}
use devin_automation.Controller.Providers
use devin_automation.Methods.{Result, ok, err}
use devin_automation.Verification.Provenance.{Host}
use devin_automation.Verification.Candidate.{Settings}
use devin_automation.Verification.Outside.{Outside, Fault, Outcome}
use devin_automation.Verification.Outside
use devin_automation.Verification.Verifier.{verify}

-- The handlers of the controller name RuntimeError, of which RunnerError is one, Ambiguous and Refused.
unfoldable pub fault_of : Fault → Providers.Fault
fault_of (Outside.runner_error name text) = runtime text
fault_of (Outside.runtime_error name text) = runtime text
fault_of (Outside.value_error name text) = died
fault_of (Outside.os_error name text) = died
fault_of (Outside.ambiguous text) = ambiguous text
fault_of (Outside.refused text) = refused text
fault_of (Outside.other text) = died

unfoldable pub outcome_of : Outcome → Providers.Outcome
outcome_of outcome = record {
  verdict = outcome.verdict;
  reason = outcome.reason;
  failures = outcome.failures;
  record_id = outcome.record_id;
  candidate_sha = outcome.candidate_sha;
  checks = outcome.checks;
}

unfoldable pub answer_of : Result Fault Outcome → Answer Providers.Outcome
unfolding fault_of outcome_of
answer_of (ok outcome) = returned (outcome_of outcome)
answer_of (err x) = raised (fault_of x)

-- Providers whose verifier is the one of portal/verification.py, on a world that holds what it keeps.
unfoldable pub with_verifier :
    {W : Type 0}
    → Outside W
    → Host
    → Settings
    → Providers (Outside.Sys W)
    → Providers (Outside.Sys W)
unfolding answer_of
with_verifier o h c p = record p {
  verify =
      λ r i merge_sha w. let (answer, w') = verify o h c r i merge_sha w in (answer_of answer, w');
}

-- A state that a passed verdict leads to.
abbrev pub is_accepted : State → Bool
is_accepted State.verified = true
is_accepted State.awaiting_merge = true
is_accepted State.merged = true
is_accepted _ = false
