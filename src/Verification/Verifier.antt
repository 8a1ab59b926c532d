-- ===== src/Verification/Verifier.antt =====
-- portal/verification.py, class Verifier: a candidate is read, run in isolation and graded, and the attempt
-- is recorded.
pub mod Still
pub mod Backed
pub mod Once
pub mod Torn
use devin_automation.Prelude.{
  ℕ, String, Bool, true, false, not, ◌&&◌, ◌||◌, Option, none, some, List, [], ◌∷◌, ◌++◌, concat,
  is_blank, or_text, lower, strip, codes, strip_prefix, before, parse_digits, ◌==◌, string_eq,
  if◌then◌else◌,
}
use devin_automation.Registry.{cases_for}
use devin_automation.Incidents.Types.{Incident}
use devin_automation.Repairs.Types.{Repair, VerdictKind, passed, failed, blocked}
use devin_automation.Controller.Providers.{Head}
use devin_automation.Methods.{
  Result, ok, err, pure, raise, gets, modify, run, attempt, ensure, on_row, ◌>>=◌, ◌>>◌,
}
use devin_automation.Verification.Scope.{no_entries, check_scope}
use devin_automation.Verification.Report.{Report, Retained, no_report}
use devin_automation.Verification.Grading.{grade, graded_checks}
use devin_automation.Verification.Provenance.{Host, Environment, Measured, provenance_problem}
use devin_automation.Verification.Candidate.{
  Settings, head_problem, content_problem, merged_problem,
}
use devin_automation.Verification.Records.{Stage, preview, post_merge, add, is_passed}
use devin_automation.Verification.Outside.{
  Fault, runtime_error, value_error, Outside, prepared, torn_down, Frame, new_frame, Verify,
  Outcome, fault_text, is_caught, is_runner_or_os, ask,
}
use devin_automation.Verification.Pieces.{
  number_of, cleanup_command, stage_of, family_of, agreed, first_three, measured_web, set_frame,
  unless_blank, now, prepare, teardown, clean_up, read_subject, moved, moved_problem, finish,
}

module _ {W : Type 0} (o : Outside W) (h : Host) (c : Settings) where
  -- `_finish` of a run that nothing was decided about.
  unfoldable pub stop_early :
      Repair
      → Option Incident
      → ℕ
      → String
      → Report
      → String
      → List String
      → Verify W (Option Outcome)
  unfolding finish
  stop_early r i started merge_sha report reason failures = do
    outcome ← finish o h c r i started merge_sha report blocked reason failures
    pure (some outcome)

  -- The portal of a retained stack: its URL, its clean-up command and its state.
  unfoldable pub serve : Environment → Verify W (String × String × String)
  unfolding fault_text
  serve e =
      attempt
        (do portal ← ask (o.serve_portal e); pure (portal.url, portal.cleanup_command, "running"))
        λ x.
          if is_runner_or_os x
          then pure ("", "", concat ("not started: " ∷ fault_text x ∷ []))
          else raise x

  -- `_retain`
  unfoldable pub retain : Environment → Verify W Retained
  unfolding now serve measured_web cleanup_command
  retain e = do
    (url, portal_cleanup, state) ← serve e
    at ← now o
    kept ← pure (record {
      project = e.project;
      portal_url = url;
      portal_state = state;
      portal_cleanup_command = portal_cleanup;
      base_url = e.base_url;
      checkout = e.checkout;
      source_sha = e.head_sha;
      measured_source_sha = measured_web e.provenance;
      cleanup_command = cleanup_command e;
      retained_at = at;
    })
    if c.has_artifacts then ask (o.write_retained kept) else pure tt
    pure kept

  -- The end of the `try` of `verify`, once a verdict is there.
  unfoldable pub keep_merged :
      String → Environment → Report → VerdictKind → Verify W (Option Outcome)
  unfolding set_frame retain
  keep_merged merge_sha e report verdict =
      if c.retain_merged && (not (is_blank merge_sha) && is_passed verdict)
      then (do
        set_frame (λ f. record f { keep = true })
        kept ← retain e
        set_frame
            (λ f. record f { report = record report { is_empty = false; retained = some kept } })
        pure none)
      else pure none

  unfoldable pub decide :
      String → Environment → Report → VerdictKind × List String → Verify W (Option Outcome)
  unfolding set_frame keep_merged
  decide merge_sha e report (verdict, failures) = do
    set_frame (λ f. record f { verdict = verdict; failures = failures })
    keep_merged merge_sha e report verdict

  -- From the replay on.
  unfoldable pub run_cases :
      Repair → Option Incident → ℕ → String → String → Environment → Verify W (Option Outcome)
  unfolding set_frame moved stop_early decide agreed grade
  run_cases r i started merge_sha head_sha e = do
    report ← ask (o.replay e (cases_for (family_of i)))
    set_frame (λ f. record f { report = report })
    problem ← moved o h c r merge_sha head_sha
    if not (is_blank problem)
        then stop_early r i started merge_sha report problem []
        else decide merge_sha e report (agreed report (grade report (cases_for (family_of i))))

  -- From the stack on.
  unfoldable pub run_stack :
      Repair → Option Incident → ℕ → String → String → Verify W (Option Outcome)
  unfolding prepare now provenance_problem stop_early run_cases
  run_stack r i started merge_sha head_sha = do
    e ← prepare o head_sha (family_of i)
    at ← now o
    problem ← pure (provenance_problem h e head_sha (family_of i) at)
    if not (is_blank problem)
        then stop_early r i started merge_sha no_report problem []
        else run_cases r i started merge_sha head_sha e

  unfoldable pub check_files :
      Repair → Option Incident → ℕ → String → String → List String → Verify W (Option Outcome)
  unfolding check_scope stop_early cases_for run_stack
  check_files r i started merge_sha head_sha files =
      let scope = check_scope files (family_of i) in
      if not scope.allowed
      then stop_early r i started merge_sha
          (record no_report { is_empty = false; changed_files = some files })
          "the candidate changes files a repair may not change" scope.reasons
      else if no_entries (cases_for (family_of i))
      then stop_early r i started merge_sha no_report
          "no registered case answers this failure family" []
      else run_stack r i started merge_sha head_sha

  -- The `try` of `verify`: an outcome that it returns, or none where it runs to its end.
  unfoldable pub body : Repair → Option Incident → ℕ → String → Verify W (Option Outcome)
  unfolding read_subject set_frame check_files
  body r i started merge_sha = do
    (head_sha, files) ← read_subject o h c r merge_sha
    set_frame (λ f. record f { head_sha = head_sha })
    check_files r i started merge_sha head_sha files

  -- Its `except`.
  unfoldable pub rescue : Repair → Option Incident → ℕ → String → Fault → Verify W (Option Outcome)
  unfolding fault_text stop_early
  rescue r i started merge_sha x =
      if is_caught x
      then (do f ← gets (λ s. s.frame); stop_early r i started merge_sha f.report (fault_text x) [])
      else raise x

  -- The end of `verify`.
  unfoldable pub conclude :
      Repair → Option Incident → ℕ → String → Option Outcome → Verify W Outcome
  unfolding finish first_three
  conclude r i started merge_sha settled =
      on_row settled
        (do
          f ← gets (λ s. s.frame)
          finish o h c r i started merge_sha f.report f.verdict
              (if is_passed f.verdict then "" else first_three f.failures) f.failures)
        pure

  unfoldable pub verify : Repair → Option Incident → String → Verify W Outcome
  unfolding now set_frame body rescue clean_up conclude
  verify r i merge_sha = do
    started ← now o
    set_frame (λ f. new_frame)
    settled ←
        ensure (attempt (body r i started merge_sha) (rescue r i started merge_sha)) (clean_up o)
    conclude r i started merge_sha settled
