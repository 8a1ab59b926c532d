-- ===== src/Verification/Verifier/Backed.antt =====
-- portal/verification.py, `verify`: what stands behind a pass, and what its row says.
use devin_automation.Prelude.{
  String, Bool, true, false, not, List, Option, ◌≡◌, refl, arith, is_blank, ◌==◌, string_eq,
}
use devin_automation.Registry.{cases_for}
use devin_automation.Incidents.Types.{Incident}
use devin_automation.Repairs.Types.{Repair, VerdictKind, passed, failed, blocked}
use devin_automation.Methods.Triple.{}
use devin_automation.Verification.Scope.{check_scope}
use devin_automation.Verification.Report.{Report}
use devin_automation.Verification.Grading.{grade}
use devin_automation.Verification.Provenance.{Host, Environment, provenance_problem}
use devin_automation.Verification.Candidate.{Settings}
use devin_automation.Verification.Records.{Table, Attempt, add, is_passed}
use devin_automation.Verification.Outside.{Outside, Outcome, ask}
use devin_automation.Verification.Pieces.{
  family_of, agreed, prepare, read_subject, moved, verdict_name,
}
use devin_automation.Verification.Verifier.{}
use devin_automation.Verification.Verifier.Still.{IsStep}

pub agreed-passed :
    (report : Report) (v : VerdictKind × List String)
    → is_passed (agreed report v).0 ≡ true
    → (v.0 ≡ passed) × ((report.verdict == "passed") ≡ true)
unfolding agreed verdict_name
agreed-passed report (passed, failures) h = (refl, ground arith)
agreed-passed report (failed, failures) h = absurd (ground arith)
agreed-passed report (blocked, failures) h = cc

pub not-false : (b : Bool) → not b ≡ false → b ≡ true
not-false true e = refl
not-false false e = cc

module _ {W : Type 0} (o : Outside W) (h : Host) (c : Settings) (r : Repair) (i : Option Incident)
    (merge_sha : String) where
  -- What stands behind a pass of a call that starts in the world `start`: four calls, each from the world that
  -- the one before it left. The diff that is read is in scope, the stack that comes up for the commit is measured
  -- to stand for it at the time at which it is up, and the report of its replay is graded as passed, as it
  -- claims, with the candidate unmoved when it is read again after the replay.
  pub record IsBacked (start : W) (head_sha : String) : Type 0 where
    pub files : List String
    pub once_read : W
    pub was_read : IsStep (read_subject o h c r merge_sha) start (head_sha, files) once_read
    pub in_scope : (check_scope files (family_of i)).allowed ≡ true
    pub environment : Environment
    pub once_prepared : W
    pub was_prepared : IsStep (prepare o head_sha (family_of i)) once_read environment once_prepared
    pub stands :
        is_blank (provenance_problem h environment head_sha (family_of i) (o.clock once_prepared))
        ≡ true
    pub report : Report
    pub once_replayed : W
    pub was_replayed :
        IsStep
          (ask (o.replay environment (cases_for (family_of i))))
          once_prepared
          report
          once_replayed
    pub problem : String
    pub once_read_again : W
    pub was_read_again :
        IsStep (moved o h c r merge_sha head_sha) once_replayed problem once_read_again
    pub unmoved : is_blank problem ≡ true
    pub graded : (grade report (cases_for (family_of i))).0 ≡ passed
    pub claimed : (report.verdict == "passed") ≡ true

  module _ (start : W) (before : Table) where
    -- One row more, which says what the outcome says.
    pub record IsRecorded (outcome : Outcome) (table : Table) : Type 0 where
      pub attempt : Attempt
      pub one_row : table ≡ (add attempt before).1
      pub row_id : outcome.record_id ≡ (add attempt before).0
      pub row_verdict : attempt.verdict ≡ outcome.verdict
      pub row_sha : attempt.candidate_sha ≡ outcome.candidate_sha
      pub backed : is_passed outcome.verdict ≡ true → IsBacked start outcome.candidate_sha
