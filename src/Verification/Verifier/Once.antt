-- ===== src/Verification/Verifier/Once.antt =====
-- portal/verification.py, `verify`: one row for an attempt, and what stands behind a pass.
use devin_automation.Prelude.{
  ℕ, String, true, false, not, ◌&&◌, List, [], ◌∷◌, ◌++◌, Option, none, some, ◌≡◌, refl, sym, ap,
  ◌∙◌, is_blank, string_eq, subst,
}
use devin_automation.Registry.{cases_for}
use devin_automation.Incidents.Types.{Incident}
use devin_automation.Repairs.Types.{Repair, VerdictKind, blocked}
use devin_automation.Methods.{Result, ok, err}
use devin_automation.Methods.Triple.{
  After, Triple, Triple-pure, Triple-raise, Triple-gets, Triple-run, Triple-if, Triple-bind,
  Triple-attempt, Triple-on_row, Triple-imp, Triple-fact, Triple-modify, Triple-ensure,
}
use devin_automation.Verification.Scope.{check_scope, no_entries}
use devin_automation.Verification.Report.{Report, no_report}
use devin_automation.Verification.Grading.{grade}
use devin_automation.Verification.Provenance.{Host, Environment, provenance_problem}
use devin_automation.Verification.Candidate.{Settings}
use devin_automation.Verification.Records.{Table, add, is_passed}
use devin_automation.Verification.Outside.{
  Outside, Fault, RunnerCall, prepared, Frame, Sys, Verify, Outcome, is_caught, is_runner_or_os,
}
use devin_automation.Verification.Pieces.{
  family_of, set_frame, now, prepare, teardown, forgive, clean_up, read_subject,
}
use devin_automation.Verification.Verifier.{
  stop_early, keep_merged, decide, run_cases, run_stack, check_files, body, rescue, conclude,
  verify,
}
use devin_automation.Verification.Verifier.Still.{
  Kept, At, IsStep, Still-ask, Triple-Stepped, Triple-after, Still-subject, Still-moved,
  Still-retain, Triple-finish,
}
use devin_automation.Verification.Verifier.Backed.{IsBacked, IsRecorded, agreed-passed, not-false}

module _ {W : Type 0} (o : Outside W) (h : Host) (c : Settings) (r : Repair) (i : Option Incident)
    (merge_sha : String) where
  module _ (start : W) (before : Table) where
    abbrev Unread : Table → List RunnerCall → Frame → Type 0
    Unread table calls f = (table ≡ before) × (is_passed f.verdict ≡ false)

    abbrev Undecided : String → Table → List RunnerCall → Frame → Type 0
    Undecided head_sha table calls f =
        (table ≡ before) × (is_passed f.verdict ≡ false) × (f.head_sha ≡ head_sha)

    abbrev Decided : Table → List RunnerCall → Frame → Type 0
    Decided table calls f =
        (table ≡ before)
        × (is_passed f.verdict ≡ true → IsBacked o h c r i merge_sha start f.head_sha)

    abbrev Done : Outcome → Table → List RunnerCall → Frame → Type 0
    Done outcome table calls f = IsRecorded o h c r i merge_sha start before outcome table

    -- Where the `try` ends.
    abbrev End : Option Outcome → Sys W → Type 0
    End none = Kept Decided
    End (some outcome) = Kept (Done outcome)

    abbrev Ends : Verify W (Option Outcome) → (Sys W → Type 0) → Type 0
    Ends m P = Triple P m End (λ _. Kept Decided)

    Decided-of_Undecided :
        (head_sha : String) (s : Sys W) → Kept (Undecided head_sha) s → Kept Decided s
    Decided-of_Undecided head_sha s p = (p.0, λ passes. absurd (cc (p.1, passes)))

    Decided-of_Unread : (s : Sys W) → Kept Unread s → Kept Decided s
    Decided-of_Unread s p = (p.0, λ passes. absurd (cc (p.1, passes)))

    finish_early :
        (started : ℕ) (report : Report) (reason : String) (failures : List String)
        → Ends (stop_early o h c r i started merge_sha report reason failures) (Kept Decided)
    unfolding stop_early
    finish_early started report reason failures =
        Triple-bind
          (Triple-finish Decided Done o h c r i started merge_sha report blocked reason failures
            λ table calls f attempt outcome va vo sa so id p. record {
              attempt = attempt;
              one_row = ap (λ (t : Table). (add attempt t).1) p.0;
              row_id = id ∙ ap (λ (t : Table). (add attempt t).0) p.0;
              row_verdict = va ∙ sym vo;
              row_sha = sa ∙ sym so;
              backed = λ passes. absurd (cc (vo, passes));
            })
          λ outcome. Triple-pure _ (λ s p. p)

    early :
        {w : W} (head_sha : String) (started : ℕ) (report : Report) (reason : String)
        (failures : List String)
        → Ends
            (stop_early o h c r i started merge_sha report reason failures)
            (At w (Undecided head_sha))
    early head_sha started report reason failures =
        Triple-imp (λ s p. Decided-of_Undecided head_sha s p.kept) (λ a s p. p) (λ x s p. p)
          (finish_early started report reason failures)

    after-Undecided :
        {A : Type 0} {head_sha : String} {P : Sys W → Type 0} {Q : A → Sys W → Type 0}
        {m : Verify W A}
        → Triple P m Q (λ _. Kept (Undecided head_sha))
        → Triple P m Q (λ _. Kept Decided)
    after-Undecided {head_sha = head_sha} t =
        Triple-imp (λ s p. p) (λ a s p. p) (λ x. Decided-of_Undecided head_sha) t

    keep_Triple :
        (e : Environment) (report : Report) (verdict : VerdictKind)
        → Ends (keep_merged o h c merge_sha e report verdict) (Kept Decided)
    unfolding keep_merged set_frame
    keep_Triple e report verdict =
        Triple-if (c.retain_merged && (not (is_blank merge_sha) && is_passed verdict))
          (λ _. Triple-bind {Q = λ _. Kept Decided} (Triple-modify _ (λ s p. p)) λ u.
            Triple-bind (Still-retain Decided o h c e) λ kept.
              Triple-bind {Q = λ _. Kept Decided} (Triple-modify _ (λ s p. p))
                λ u. Triple-pure _ (λ s p. p))
          λ _. Triple-pure _ (λ s p. p)

    module _ (head_sha : String) where
      decide_Triple :
          (e : Environment) (report : Report) (v : VerdictKind × List String)
          → (is_passed v.0 ≡ true → IsBacked o h c r i merge_sha start head_sha)
          → {w : W} → Ends (decide o h c merge_sha e report v) (At w (Undecided head_sha))
      unfolding decide set_frame
      decide_Triple e report (verdict, failures) backed {w} =
          Triple-bind {Q = λ _. Kept Decided}
            (Triple-modify _ (λ s p. (
              p.kept.0,
              λ passes. subst (IsBacked o h c r i merge_sha start) (sym p.kept.2) (backed passes),
            )))
            λ u. keep_Triple e report verdict

      cases_Triple :
          (started : ℕ) (files : List String) (e : Environment) (once_read w : W)
          → IsStep (read_subject o h c r merge_sha) start (head_sha, files) once_read
          → (check_scope files (family_of i)).allowed ≡ true
          → IsStep (prepare o head_sha (family_of i)) once_read e w
          → is_blank (provenance_problem h e head_sha (family_of i) (o.clock w)) ≡ true
          → Ends (run_cases o h c r i started merge_sha head_sha e) (At w (Undecided head_sha))
      unfolding run_cases set_frame
      cases_Triple started files e once_read w was_read in_scope came_up stands =
          Triple-bind (after-Undecided (Triple-Stepped (Still-ask (Undecided head_sha) _)))
            λ report. Triple-after λ once_replayed replayed.
              Triple-bind {Q = λ _. At once_replayed (Undecided head_sha)}
                (Triple-modify _ (λ s p. record { world_is = p.world_is; kept = p.kept }))
                λ u.
                  Triple-bind
                    (after-Undecided (
                      Triple-Stepped (Still-moved (Undecided head_sha) o h c r merge_sha head_sha)))
                    λ problem. Triple-after λ once_read_again read_again.
                      Triple-if (not (is_blank problem))
                        (λ _. early head_sha started report problem [])
                        λ still. decide_Triple e report _ λ passes.
                          let agrees =
                            agreed-passed report (grade report (cases_for (family_of i))) passes in
                          record {
                            files = files;
                            once_read = once_read;
                            was_read = was_read;
                            in_scope = in_scope;
                            environment = e;
                            once_prepared = w;
                            was_prepared = came_up;
                            stands = stands;
                            report = report;
                            once_replayed = once_replayed;
                            was_replayed = replayed;
                            problem = problem;
                            once_read_again = once_read_again;
                            was_read_again = read_again;
                            unmoved = not-false _ still;
                            graded = agrees.0;
                            claimed = agrees.1;
                          }

      prepare_Triple :
          (family : String)
          → Triple
              (Kept (Undecided head_sha))
              (prepare o head_sha family)
              (λ _. Kept (Undecided head_sha))
              (λ _. Kept Decided)
      unfolding prepare
      prepare_Triple family = (Triple-run _ λ s p. came_up (o.prepare head_sha family s.world) s p)
        where
          came_up :
              (d : Result Fault Environment × W) (s : Sys W)
              → Kept (Undecided head_sha) s
              → After {S = Sys W} {E = Fault} {A = Environment}
                  (λ _. Kept (Undecided head_sha))
                  (λ _. Kept Decided)
                  (elim d.0 [
                    | ok e ↦ (
                      ok e,
                      record s {
                        world = d.1;
                        calls = s.calls ++ prepared e.project ∷ [];
                        frame = record (s.frame) { environment = some e; commands = e.commands };
                      },
                    )
                    | err x ↦ (err x, record s { world = d.1 })
                  ])
          came_up (ok e, w) s p = p
          came_up (err x, w) s p = Decided-of_Undecided head_sha s p

      stack_Triple :
          (started : ℕ) (files : List String) (once_read : W)
          → IsStep (read_subject o h c r merge_sha) start (head_sha, files) once_read
          → (check_scope files (family_of i)).allowed ≡ true
          → Ends
              (run_stack o h c r i started merge_sha head_sha)
              (At once_read (Undecided head_sha))
      unfolding run_stack now
      stack_Triple started files once_read was_read in_scope =
          Triple-bind (Triple-Stepped (prepare_Triple (family_of i))) λ e. Triple-after λ w came_up.
            Triple-bind {Q = λ at s. (at ≡ o.clock w) × At w (Undecided head_sha) s}
              (Triple-gets _ (λ s p. (ap o.clock p.world_is, p)))
              λ at. Triple-fact λ read_at.
                Triple-bind
                  {Q = λ problem s.
                    (problem ≡ provenance_problem h e head_sha (family_of i) at)
                    × At w (Undecided head_sha) s}
                  (Triple-pure _ (λ s p. (refl, p)))
                  λ problem. Triple-fact λ found.
                    Triple-if (not (is_blank problem))
                      (λ _. early head_sha started no_report problem [])
                      λ blank. cases_Triple started files e once_read w was_read in_scope came_up (
                        subst (λ (t : String). is_blank t ≡ true)
                          (found ∙ ap (provenance_problem h e head_sha (family_of i)) read_at)
                          (not-false _ blank))

      files_Triple :
          (started : ℕ) (files : List String) (once_read : W)
          → IsStep (read_subject o h c r merge_sha) start (head_sha, files) once_read
          → Ends
              (check_files o h c r i started merge_sha head_sha files)
              (At once_read (Undecided head_sha))
      unfolding check_files
      files_Triple started files once_read was_read =
          Triple-if (not (check_scope files (family_of i)).allowed)
            (λ _. early head_sha started _ _ _)
            λ allowed.
              Triple-if (no_entries (cases_for (family_of i))) (λ _. early head_sha started _ _ _)
                λ some_case. stack_Triple started files once_read was_read (not-false _ allowed)

    body_Triple : (started : ℕ) → Ends (body o h c r i started merge_sha) (At start Unread)
    unfolding body set_frame
    body_Triple started =
        Triple-bind
          (Triple-imp (λ s p. p) (λ a s p. p) (λ x. Decided-of_Unread)
            (Triple-Stepped (Still-subject Unread o h c r merge_sha)))
          λ found. Triple-after λ once_read was_read.
            Triple-bind {Q = λ _. At once_read (Undecided found.0)}
              (Triple-modify _
                (λ s p. record { world_is = p.world_is; kept = (p.kept.0, p.kept.1, refl) }))
              λ u. files_Triple found.0 started found.1 once_read was_read

    rescue_Triple :
        (started : ℕ) (x : Fault) → Ends (rescue o h c r i started merge_sha x) (Kept Decided)
    unfolding rescue
    rescue_Triple started x =
        Triple-if (is_caught x)
          (λ _.
            Triple-bind {Q = λ _. Kept Decided} (Triple-gets _ (λ s p. p))
              λ f. finish_early started f.report _ [])
          (λ _. Triple-raise _ (λ s p. p))

    clean_Triple :
        (K : Table → Frame → Type 0)
        → Triple
            (λ (s : Sys W). K s.table s.frame)
            (clean_up o)
            (λ _ s. K s.table s.frame)
            (λ _ s. K s.table s.frame)
    unfolding clean_up
    clean_Triple K = Triple-bind {Q = λ f s. K s.table s.frame} (Triple-gets _ (λ s p. p)) λ f.
        Triple-on_row f.environment (λ _. Triple-pure _ (λ s p. p))
          λ e found.
            Triple-if f.keep (λ _. Triple-pure _ (λ s p. p))
              λ _.
                Triple-attempt {R = λ _ s. K s.table s.frame}
                  (unfold teardown in Triple-run _ λ s p. told (o.teardown e s.world).0 _ p)
                  λ x.
                    unfold forgive in
                    Triple-if (is_runner_or_os x) (λ _. Triple-pure _ (λ s p. p))
                      (λ _. Triple-raise _ (λ s p. p))
      where
        told :
            (d : Result Fault (Unit {0})) (s : Sys W)
            → K s.table s.frame
            → After (λ _ s. K s.table s.frame) (λ _ s. K s.table s.frame) (d, s)
        told (ok u) s p = p
        told (err x) s p = p

    conclude_Triple :
        (started : ℕ) (settled : Option Outcome)
        → Triple
            (End settled)
            (conclude o h c r i started merge_sha settled)
            (λ outcome. Kept (Done outcome))
            (λ _ _. Unit {0})
    unfolding conclude
    conclude_Triple started (some outcome) = Triple-pure _ (λ s p. p)
    conclude_Triple started none =
        Triple-bind {Q = λ f s. (s.frame ≡ f) × Kept Decided s} (Triple-gets _ (λ s p. (refl, p)))
          λ f.
            Triple-imp (λ s p. p) (λ a s p. p) (λ x s p. tt)
              (Triple-finish (λ table calls f'. (f' ≡ f) × Decided table calls f') Done o h c r i
                started merge_sha f.report f.verdict _ f.failures
                λ table calls f' attempt outcome va vo sa so id p. record {
                  attempt = attempt;
                  one_row = ap (λ (t : Table). (add attempt t).1) p.1.0;
                  row_id = id ∙ ap (λ (t : Table). (add attempt t).0) p.1.0;
                  row_verdict = va ∙ sym vo;
                  row_sha = sa ∙ sym so;
                  backed = λ passes. subst (IsBacked o h c r i merge_sha start) (sym so) (
                      p.1.1 (
                        ap (λ (f : Frame). is_passed f.verdict) p.0
                        ∙ ap is_passed (sym vo)
                        ∙ passes));
                })

  verify_Triple :
      (start : W) (before : Table)
      → Triple
          (λ s. (s.world ≡ start) × (s.table ≡ before))
          (verify o h c r i merge_sha)
          (λ outcome s. IsRecorded o h c r i merge_sha start before outcome s.table)
          (λ _ _. Unit {0})
  unfolding verify set_frame
  verify_Triple start before =
      Triple-bind {Q = λ _ s. (s.world ≡ start) × (s.table ≡ before)}
        (unfold now in Triple-gets _ (λ s p. p))
        λ started.
          Triple-bind {Q = λ _. At start (Unread start before)}
            (Triple-modify _ (λ s p. record { world_is = p.0; kept = (p.1, refl) }))
            λ u.
              Triple-bind {Q = End start before}
                (Triple-ensure {R = λ _ s. Kept (Decided start before) s} {R' = λ _ _. Unit {0}}
                  (Triple-attempt (body_Triple start before started)
                    (rescue_Triple start before started))
                  (λ settled.
                    Triple-imp (λ s p. p) (λ a s p. p) (λ x s p. tt) (settled_Triple settled))
                  (λ x.
                    Triple-imp (λ s p. p) (λ a s p. tt) (λ x s p. tt)
                      (clean_Triple start before (λ table f. Decided start before table [] f))))
                λ settled. conclude_Triple start before started settled
    where
      settled_Triple :
          (settled : Option Outcome)
          → Triple
              (End start before settled)
              (clean_up o)
              (λ _. End start before settled)
              (λ _. End start before settled)
      settled_Triple none = clean_Triple start before (λ table f. Decided start before table [] f)
      settled_Triple (some outcome) =
          clean_Triple start before
            (λ table f. IsRecorded o h c r i merge_sha start before outcome table)

  -- A call of `verify` that returns has added exactly one row to the store, which carries the verdict and the
  -- commit of its outcome. If the outcome is a pass, the call did these four steps, each from the world that the
  -- one before it left: it read a diff in scope and its commit; a stack came up for the commit, and by the clock
  -- at that moment it was measured to stand for it; the replay on that stack gave a report that is graded as
  -- passed and says so; and the candidate, read again after the replay, had not moved.
  pub verify-IsRecorded :
      (s : Sys W)
      → After
          (λ outcome s'. IsRecorded o h c r i merge_sha s.world s.table outcome s'.table)
          (λ x s'. Unit {0})
          (verify o h c r i merge_sha s)
  verify-IsRecorded s = (verify_Triple s.world s.table).at s (refl, refl)
