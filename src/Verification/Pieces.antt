-- ===== src/Verification/Pieces.antt =====
-- portal/verification.py, class Verifier: what `verify` is put together from.
use devin_automation.Prelude.{
  ℕ, String, Bool, true, false, not, ◌&&◌, ◌||◌, Option, none, some, List, [], ◌∷◌, ◌++◌, concat,
  is_blank, or_text, lower, strip, codes, strip_prefix, before, parse_digits, ◌==◌, string_eq,
  if◌then◌else◌,
}
use devin_automation.Registry.{cases_for}
use devin_automation.Incidents.Types.{Incident}
use devin_automation.Repairs.Types.{Repair, VerdictKind, passed, failed, blocked}
use devin_automation.Controller.Providers.{Head}
use devin_automation.Methods.{
  Result, ok, err, pure, raise, gets, modify, run, attempt, on_row, ◌>>=◌, ◌>>◌,
}
use devin_automation.Verification.Report.{Report}
use devin_automation.Verification.Grading.{graded_checks}
use devin_automation.Verification.Provenance.{Host, Environment, Measured}
use devin_automation.Verification.Candidate.{
  Settings, head_problem, content_problem, merged_problem,
}
use devin_automation.Verification.Records.{Stage, preview, post_merge, add}
use devin_automation.Verification.Outside.{
  Fault, runtime_error, value_error, Outside, prepared, torn_down, Frame, Verify, Outcome,
  is_runner_or_os, ask,
}

-- `_number_of`
unfoldable pub number_of : String → String → Result Fault ℕ
number_of pr_url repo =
    elim (strip_prefix (codes (concat ("https://github.com/" ∷ repo ∷ "/pull/" ∷ [])))
      (codes pr_url)) [
        | none ↦ err (
            value_error "ValueError"
              (concat (or_text pr_url "an empty URL" ∷ " is not a pull request on " ∷ repo ∷ [])))
        | some tail ↦ elim (parse_digits (before b'?' (before b'/' tail))) [
          | none ↦
              err (value_error "ValueError" (concat (pr_url ∷ " has no pull request number" ∷ [])))
          | some number ↦ ok number
        ]
      ]

-- `cleanup_command`
unfoldable pub cleanup_command : Environment → String
cleanup_command e = concat (
    "docker compose --project-name " ∷ e.project ∷ " --project-directory " ∷ e.checkout ∷ " -f "
    ∷ e.checkout ∷ "/docker-compose-light.yml down -v --remove-orphans" ∷ [])

abbrev pub stage_of : String → Stage
stage_of merge_sha = if is_blank merge_sha then preview else post_merge

abbrev pub family_of : Option Incident → String
family_of none = ""
family_of (some i) = i.family

unfoldable pub fixture_of : Option Incident → String
fixture_of none = ""
fixture_of (some i) = i.fixture_revision

abbrev pub is_post_merge : Stage → Bool
is_post_merge preview = false
is_post_merge post_merge = true

unfoldable pub verdict_name : VerdictKind → String
verdict_name passed = "passed"
verdict_name failed = "failed"
verdict_name blocked = "blocked"

abbrev pub is_blocked : VerdictKind → Bool
is_blocked blocked = true
is_blocked _ = false

-- The verdict of the assertions, against the one that the replay claims.
unfoldable pub agreed : Report → VerdictKind × List String → VerdictKind × List String
unfolding verdict_name
agreed report (verdict, failures) =
    if not (is_blocked verdict) && not (report.verdict == verdict_name verdict)
    then (
      blocked,
      concat (
            "the replay reported "
            ∷ or_text report.verdict "no verdict"
            ∷ " while its assertions show "
            ∷ verdict_name verdict
            ∷ [])
          ∷ [],
    )
    else (verdict, failures)

-- `"; ".join(failures[:3])`
unfoldable pub first_three : List String → String
first_three [] = ""
first_three (a ∷ []) = a
first_three (a ∷ b ∷ []) = concat (a ∷ "; " ∷ b ∷ [])
first_three (a ∷ b ∷ c ∷ rest) = concat (a ∷ "; " ∷ b ∷ "; " ∷ c ∷ [])

unfoldable pub measured_web : Option Measured → String
measured_web none = ""
measured_web (some m) = elim m.web [ none ↦ "" | some d ↦ d.source_sha ]

abbrev pub provenance_of : Option Environment → Option Measured
provenance_of none = none
provenance_of (some e) = e.provenance

-- The first parent, which `_content_problem` found to be there.
unfoldable pub first_parent : List String → String
first_parent [] = ""
first_parent (p ∷ ps) = p

module _ {W : Type 0} where
  unfoldable pub set_frame : (Frame → Frame) → Verify W (Unit {0})
  set_frame change = modify (λ s. record s { frame = change s.frame })

  unfoldable pub unless_blank : String → Verify W (Unit {0})
  unless_blank problem =
      if is_blank problem then pure tt else raise (runtime_error "RuntimeError" problem)

  -- `except (RunnerError, OSError): pass` of the teardown.
  unfoldable pub forgive : Fault → Verify W (Unit {0})
  forgive x = if is_runner_or_os x then pure tt else raise x

module _ {W : Type 0} (o : Outside W) where
  unfoldable pub now : Verify W ℕ
  now = gets (λ s. o.clock s.world)

  -- `runner.prepare`: a call that raises leaves no environment.
  unfoldable pub prepare : String → String → Verify W Environment
  prepare head_sha family = run λ s.
      let (r, w) = o.prepare head_sha family s.world in
      elim r [
        | ok e ↦ (
          ok e,
          record s {
            world = w;
            calls = s.calls ++ prepared e.project ∷ [];
            frame = record (s.frame) { environment = some e; commands = e.commands };
          },
        )
        | err x ↦ (err x, record s { world = w })
      ]

  unfoldable pub teardown : Environment → Verify W (Unit {0})
  teardown e = run λ s.
      let (r, w) = o.teardown e s.world in
      (r, record s { world = w; calls = s.calls ++ torn_down e.project ∷ [] })

  -- The `finally` of `verify`.
  unfoldable pub clean_up : Verify W (Unit {0})
  unfolding teardown forgive
  clean_up = do
    f ← gets (λ s. s.frame)
    on_row f.environment (pure tt) λ e. if f.keep then pure tt else attempt (teardown e) forgive

  module _ (h : Host) (c : Settings) where
    unfoldable pub read_number : String → Verify W ℕ
    unfolding number_of
    read_number pr_url = run λ s. (number_of pr_url c.target_repo, s)

    -- `github.pull_request_head(_number_of(...))`
    unfoldable pub read_head : String → Verify W Head
    unfolding read_number
    read_head pr_url = do number ← read_number pr_url; ask (o.pull_request_head number)

    -- `_read_candidate`
    unfoldable pub read_candidate : String → Verify W (String × List String)
    unfolding read_number unless_blank head_problem
    read_candidate pr_url = do
      number ← read_number pr_url
      head ← ask (o.pull_request_head number)
      unless_blank (head_problem c head)
      files ← ask (o.pull_request_files number)
      pure (head.head_sha, files)

    -- `_read_merged`
    unfoldable pub read_merged : String → String → String → Verify W (String × List String)
    unfolding read_head unless_blank merged_problem content_problem first_parent
    read_merged pr_url merge_sha expected_head = do
      head ← read_head pr_url
      unless_blank (merged_problem c head merge_sha expected_head)
      merged ← ask (o.commit (lower (strip merge_sha)))
      previewed ← ask (o.commit expected_head)
      unless_blank (content_problem merged previewed)
      files ← ask (o.compare_files (first_parent merged.parents) (lower (strip merge_sha)))
      pure (lower (strip merge_sha), files)

    unfoldable pub read_subject : Repair → String → Verify W (String × List String)
    unfolding read_candidate read_merged
    read_subject r merge_sha =
        if is_blank merge_sha
        then read_candidate r.agent_pr_url
        else read_merged r.agent_pr_url merge_sha r.pr_head_sha

    -- `_moved`, of the head that is read again.
    unfoldable pub moved_problem : Head → String → String
    unfolding head_problem
    moved_problem head head_sha =
        if not (lower head.head_sha == lower head_sha)
        then concat (
            "the candidate moved to " ∷ head.head_sha ∷ " while " ∷ head_sha ∷ " was being verified"
            ∷ [])
        else head_problem c head

    -- `_moved` and `_merge_moved`
    unfoldable pub moved : Repair → String → String → Verify W String
    unfolding read_head moved_problem merged_problem
    moved r merge_sha head_sha = do
      head ← read_head r.agent_pr_url
      pure (
          if is_blank merge_sha
          then moved_problem head head_sha
          else merged_problem c head merge_sha r.pr_head_sha)

    -- `_write_artifact`
    unfoldable pub write_artifact : Repair → String → Report → Verify W String
    unfolding now
    write_artifact r head_sha report =
        if not c.has_artifacts || report.is_empty
        then pure ""
        else (do at ← now; ask (o.write_report r.id head_sha at report))

    -- `_finish`: a row of the incidents has no `config_revision`, so what is read of it is "".
    unfoldable pub finish :
        Repair
        → Option Incident
        → ℕ
        → String
        → Report
        → VerdictKind
        → String
        → List String
        → Verify W Outcome
    unfolding now write_artifact fixture_of graded_checks
    finish r i started merge_sha report verdict reason failures = do
      f ← gets (λ s. s.frame)
      artifact ← write_artifact r f.head_sha report
      at ← now
      id ← run λ s.
          let (id, table) =
            add
              (record {
                repair_id = r.id;
                incident_id = r.incident_id;
                simulated = c.simulated;
                candidate_sha = f.head_sha;
                pr_url = r.agent_pr_url;
                validator_ref = c.validator_ref;
                fixture_rev = fixture_of i;
                config_rev = "";
                cases = cases_for (family_of i);
                verdict = verdict;
                reason = reason;
                failures = failures;
                commands = f.commands;
                provenance = provenance_of f.environment;
                report = report;
                artifact_path = artifact;
                stage = stage_of merge_sha;
                started_at = started;
                finished_at = at;
              })
              s.table in
          (ok id, record s { table = table })
      pure (record {
        verdict = verdict;
        reason = reason;
        failures = failures;
        record_id = id;
        candidate_sha = f.head_sha;
        stage = stage_of merge_sha;
        checks = graded_checks report;
      })
