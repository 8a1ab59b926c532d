-- ===== src/Verification/Verifier/Torn.antt =====
-- portal/verification.py, `verify`: the stacks that came up against those that were told to go down.
use devin_automation.Prelude.{
  ℕ, ◌+◌, String, Bool, true, false, not, ◌&&◌, List, [], ◌∷◌, ◌++◌, Option, none, some, ◌≡◌, refl,
  arith, is_blank, count_if, count_if-append,
}
use devin_automation.Registry.{cases_for}
use devin_automation.Incidents.Types.{Incident}
use devin_automation.Repairs.Types.{Repair, VerdictKind, blocked}
use devin_automation.Methods.{Result, ok, err}
use devin_automation.Methods.Triple.{
  After, Triple, Triple-pure, Triple-raise, Triple-gets, Triple-run, Triple-if, Triple-bind,
  Triple-attempt, Triple-on_row, Triple-imp, Triple-modify, Triple-ensure,
}
use devin_automation.Verification.Scope.{check_scope, no_entries}
use devin_automation.Verification.Report.{Report}
use devin_automation.Verification.Provenance.{Host, Environment}
use devin_automation.Verification.Candidate.{Settings}
use devin_automation.Verification.Records.{Table, is_passed}
use devin_automation.Verification.Outside.{
  Outside, Fault, RunnerCall, prepared, torn_down, is_prepared, is_torn_down, Frame, Sys, Verify,
  Outcome, is_caught, is_runner_or_os,
}
use devin_automation.Verification.Pieces.{
  family_of, set_frame, now, prepare, teardown, forgive, clean_up,
}
use devin_automation.Verification.Verifier.{
  stop_early, keep_merged, decide, run_cases, run_stack, check_files, body, rescue, conclude,
  verify,
}
use devin_automation.Verification.Verifier.Still.{
  Kept, Still, Still-ask, Still-now, Still-subject, Still-moved, Still-retain, Triple-finish,
}

abbrev pub opened : List RunnerCall → ℕ
opened calls = count_if is_prepared calls

abbrev pub closed : List RunnerCall → ℕ
closed calls = count_if is_torn_down calls

abbrev up : Option Environment → ℕ
up none = 0
up (some e) = 1

abbrev pub kept_up : Bool → ℕ
kept_up true = 1
kept_up false = 0

kept_zero : (b : Bool) → (b ≡ true → ⊥) → kept_up b ≡ 0
kept_zero true never = absurd (never refl)
kept_zero false never = refl

module _ {W : Type 0} (o : Outside W) (h : Host) (c : Settings) (r : Repair) (i : Option Incident)
    (merge_sha : String) where
  -- A stack that stays up: the settings ask for it, and the run of a merge commit was graded as passed.
  pub record MayStay (verdict : VerdictKind) : Type 0 where
    pub asked_for : c.retain_merged ≡ true
    pub after_merge : is_blank merge_sha ≡ false
    pub was_passed : is_passed verdict ≡ true

  abbrev Level : Table → List RunnerCall → Frame → Type 0
  Level table calls f = (opened calls ≡ closed calls) × (f.environment ≡ none) × (f.keep ≡ false)

  abbrev Running : Table → List RunnerCall → Frame → Type 0
  Running table calls f =
      (opened calls ≡ closed calls + up f.environment)
      × (f.keep ≡ true → (up f.environment ≡ 1) × MayStay f.verdict)

  -- Each stack that came up was told to go down, but for one that may stay.
  pub record IsClean (s : Sys W) : Type 0 where
    pub balance : opened s.calls ≡ closed s.calls + kept_up s.frame.keep
    pub stays : s.frame.keep ≡ true → MayStay s.frame.verdict

  Running-of_Level : (s : Sys W) → Kept Level s → Kept Running s
  Running-of_Level s p = (rw p.1 (omega (arith, p.0)), λ k. absurd (cc (k, p.2)))

  finish_early :
      (started : ℕ) (report : Report) (reason : String) (failures : List String)
      → Still Running (stop_early o h c r i started merge_sha report reason failures)
  unfolding stop_early
  finish_early started report reason failures =
      Triple-bind
        (Triple-finish Running (λ outcome. Running) o h c r i started merge_sha report blocked
          reason failures λ table calls f attempt outcome va vo sa so id p. p)
        λ outcome. Triple-pure _ (λ s p. p)

  -- A stack is up, and nothing was decided.
  abbrev Up : Table → List RunnerCall → Frame → Type 0
  Up table calls f =
      (opened calls ≡ closed calls + up f.environment) × (up f.environment ≡ 1) × (f.keep ≡ false)

  Running-of_Up : (s : Sys W) → Kept Up s → Kept Running s
  Running-of_Up s p = (p.0, λ k. absurd (cc (k, p.2)))

  while-Up :
      {A : Type 0} {Q : A → Sys W → Type 0} {m : Verify W A}
      → Triple (Kept Up) m Q (λ _. Kept Up)
      → Triple (Kept Up) m Q (λ _. Kept Running)
  while-Up t = Triple-imp (λ s p. p) (λ a s p. p) (λ x. Running-of_Up) t

  early-Up :
      (started : ℕ) (report : Report) (reason : String) (failures : List String)
      → Triple
          (Kept Up)
          (stop_early o h c r i started merge_sha report reason failures)
          (λ _. Kept Running)
          (λ _. Kept Running)
  early-Up started report reason failures =
      Triple-imp Running-of_Up (λ a s p. p) (λ x s p. p)
        (finish_early started report reason failures)

  three : (a b d : Bool) → a && (not b && d) ≡ true → (a ≡ true) × (b ≡ false) × (d ≡ true)
  three a b d e = ground arith

  keep_Triple :
      (e : Environment) (report : Report) (verdict : VerdictKind)
      → Triple
          (λ s. Kept Up s × (s.frame.verdict ≡ verdict))
          (keep_merged o h c merge_sha e report verdict)
          (λ _. Kept Running)
          (λ _. Kept Running)
  unfolding keep_merged set_frame
  keep_Triple e report verdict =
      Triple-if (c.retain_merged && (not (is_blank merge_sha) && is_passed verdict))
        (λ may.
          let why = three c.retain_merged (is_blank merge_sha) (is_passed verdict) may in
          Triple-bind {Q = λ _. Kept Running}
            (Triple-modify _ λ s p. (
              p.0.0,
              λ k. (
                p.0.1,
                record { asked_for = why.0; after_merge = why.1; was_passed = rw (p.1) why.2 },
              ),
            ))
            λ u. Triple-bind (Still-retain Running o h c e) λ kept.
              Triple-bind {Q = λ _. Kept Running} (Triple-modify _ (λ s p. p))
                λ u. Triple-pure _ (λ s p. p))
        λ _. Triple-pure _ (λ s p. Running-of_Up s p.0)

  decide_Triple :
      (e : Environment) (report : Report) (v : VerdictKind × List String)
      → Triple (Kept Up) (decide o h c merge_sha e report v) (λ _. Kept Running) (λ _. Kept Running)
  unfolding decide set_frame
  decide_Triple e report (verdict, failures) =
      Triple-bind {Q = λ _ s. Kept Up s × (s.frame.verdict ≡ verdict)}
        (Triple-modify _ (λ s p. (p, refl))) λ u. keep_Triple e report verdict

  cases_Triple :
      (started : ℕ) (head_sha : String) (e : Environment)
      → Triple
          (Kept Up)
          (run_cases o h c r i started merge_sha head_sha e)
          (λ _. Kept Running)
          (λ _. Kept Running)
  unfolding run_cases set_frame
  cases_Triple started head_sha e = Triple-bind (while-Up (Still-ask Up _)) λ report.
      Triple-bind {Q = λ _. Kept Up} (Triple-modify _ (λ s p. p)) λ u.
        Triple-bind (while-Up (Still-moved Up o h c r merge_sha head_sha)) λ problem.
          Triple-if (not (is_blank problem)) (λ _. early-Up started report problem [])
            λ _. decide_Triple e report _

  prepare_Triple :
      (head_sha family : String)
      → Triple (Kept Level) (prepare o head_sha family) (λ _. Kept Up) (λ _. Kept Running)
  unfolding prepare
  prepare_Triple head_sha family =
      Triple-run _ λ s p. came_up (o.prepare head_sha family s.world) s p
    where
      came_up :
          (d : Result Fault Environment × W) (s : Sys W)
          → Kept Level s
          → After {S = Sys W} {E = Fault} {A = Environment}
              (λ _. Kept Up)
              (λ _. Kept Running)
              (elim d.0 [
                | ok e ↦ (
                  ok e,
                  record s {
                    world = d.1;
                    calls = s.calls ++ prepared e.project ∷ [];
                    frame = record (s.frame) { environment = some e; commands = e.commands };
                  },
                )
                | err x ↦ (err x, record s { world = d.1 })
              ])
      came_up (ok e, w) s p = (
        omega (
          arith,
          p.0,
          count_if-append is_prepared s.calls (prepared e.project ∷ []),
          count_if-append is_torn_down s.calls (prepared e.project ∷ []),
        ),
        refl,
        p.2,
      )
      came_up (err x, w) s p = Running-of_Level s p

  stack_Triple :
      (started : ℕ) (head_sha : String)
      → Triple
          (Kept Level)
          (run_stack o h c r i started merge_sha head_sha)
          (λ _. Kept Running)
          (λ _. Kept Running)
  unfolding run_stack
  stack_Triple started head_sha = Triple-bind (prepare_Triple head_sha (family_of i)) λ e.
      Triple-bind (while-Up (Still-now Up o)) λ at.
        Triple-bind {Q = λ _. Kept Up} (Triple-pure _ (λ s p. p)) λ problem.
          Triple-if (not (is_blank problem)) (λ _. early-Up started _ problem [])
            λ _. cases_Triple started head_sha e

  Level-early :
      (started : ℕ) (report : Report) (reason : String) (failures : List String)
      → Triple
          (Kept Level)
          (stop_early o h c r i started merge_sha report reason failures)
          (λ _. Kept Running)
          (λ _. Kept Running)
  Level-early started report reason failures =
      Triple-imp Running-of_Level (λ a s p. p) (λ x s p. p)
        (finish_early started report reason failures)

  body_Triple :
      (started : ℕ)
      → Triple
          (Kept Level)
          (body o h c r i started merge_sha)
          (λ _. Kept Running)
          (λ _. Kept Running)
  unfolding body set_frame check_files
  body_Triple started =
      Triple-bind
        (Triple-imp (λ s p. p) (λ a s p. p) (λ x. Running-of_Level)
          (Still-subject Level o h c r merge_sha))
        λ found. Triple-bind {Q = λ _. Kept Level} (Triple-modify _ (λ s p. p)) λ u.
          Triple-if (not (check_scope found.1 (family_of i)).allowed)
            (λ _. Level-early started _ _ _)
            λ _.
              Triple-if (no_entries (cases_for (family_of i))) (λ _. Level-early started _ _ _)
                λ _. stack_Triple started found.0

  rescue_Triple : (started : ℕ) (x : Fault) → Still Running (rescue o h c r i started merge_sha x)
  unfolding rescue
  rescue_Triple started x =
      Triple-if (is_caught x)
        (λ _.
          Triple-bind {Q = λ _. Kept Running} (Triple-gets _ (λ s p. p))
            λ f. finish_early started f.report _ [])
        (λ _. Triple-raise _ (λ s p. p))

  Triple-clean_up : Triple (Kept Running) (clean_up o) (λ _. IsClean) (λ _. IsClean)
  unfolding clean_up
  Triple-clean_up =
      Triple-bind {Q = λ f s. (s.frame ≡ f) × Kept Running s} (Triple-gets _ (λ s p. (refl, p)))
        λ f.
          Triple-on_row f.environment (λ found. Triple-pure _ (λ s p. down s f p.0 found p.1))
            λ e found.
              Triple-if f.keep (λ kept. Triple-pure _ (λ s p. stays s f p.0 kept p.1))
                λ kept.
                  Triple-attempt {R = λ x. IsClean}
                    (unfold teardown in
                      Triple-run _ λ s p.
                        told (o.teardown e s.world).0 _
                          (ended s f e p.0 found kept p.1 (o.teardown e s.world).1))
                    λ x.
                      unfold forgive in
                      Triple-if (is_runner_or_os x) (λ _. Triple-pure _ (λ s p. p))
                        (λ _. Triple-raise _ (λ s p. p))
    where
      down :
          (s : Sys W) (f : Frame) → s.frame ≡ f → f.environment ≡ none → Kept Running s → IsClean s
      down s f e n p =
          let none_up : up s.frame.environment ≡ 0 = rw (e, n) refl in
          let unkept : kept_up s.frame.keep ≡ 0 =
            kept_zero s.frame.keep λ k. absurd (omega (arith, none_up, (p.1 k).0)) in
          record { balance = omega (arith, p.0, none_up, unkept); stays = λ k. (p.1 k).1 }

      stays : (s : Sys W) (f : Frame) → s.frame ≡ f → f.keep ≡ true → Kept Running s → IsClean s
      stays s f e k p =
          let keeps : s.frame.keep ≡ true = rw e k in
          let one : kept_up s.frame.keep ≡ 1 = rw keeps refl in
          record { balance = omega (arith, p.0, (p.1 keeps).0, one); stays = λ k. (p.1 k).1 }

      ended :
          (s : Sys W) (f : Frame) (env : Environment)
          → s.frame ≡ f
          → f.environment ≡ some env
          → f.keep ≡ false
          → Kept Running s
          → (w : W)
          → IsClean (record s { world = w; calls = s.calls ++ torn_down env.project ∷ [] })
      ended s f env e there k p w =
          let one : up s.frame.environment ≡ 1 = rw (e, there) refl in
          let unkept : kept_up s.frame.keep ≡ 0 = rw (e, k) refl in
          record {
            balance = omega (
              arith,
              p.0,
              one,
              unkept,
              count_if-append is_prepared s.calls (torn_down env.project ∷ []),
              count_if-append is_torn_down s.calls (torn_down env.project ∷ []),
            );
            stays = λ k. (p.1 k).1;
          }

      told :
          (d : Result Fault (Unit {0})) (s : Sys W)
          → IsClean s
          → After (λ _. IsClean) (λ _. IsClean) (d, s)
      told (ok u) s p = p
      told (err x) s p = p

  conclude_Triple :
      (started : ℕ) (settled : Option Outcome)
      → Triple IsClean (conclude o h c r i started merge_sha settled) (λ _. IsClean) (λ _. IsClean)
  unfolding conclude
  conclude_Triple started (some outcome) = Triple-pure _ (λ s p. p)
  conclude_Triple started none = Triple-bind {Q = λ f. IsClean} (Triple-gets _ (λ s p. p)) λ f.
      Triple-imp (λ s p. (p.balance, p.stays)) (λ a s p. record { balance = p.0; stays = p.1 })
        (λ x s p. record { balance = p.0; stays = p.1 })
        (Triple-finish Clean (λ outcome. Clean) o h c r i started merge_sha f.report f.verdict _
          f.failures λ table calls f attempt outcome va vo sa so id p. p)
    where
      Clean : Table → List RunnerCall → Frame → Type 0
      Clean table calls f =
          (opened calls ≡ closed calls + kept_up f.keep) × (f.keep ≡ true → MayStay f.verdict)

  verify_Triple :
      Triple
        (λ s. opened s.calls ≡ closed s.calls)
        (verify o h c r i merge_sha)
        (λ _. IsClean)
        (λ _. IsClean)
  unfolding verify set_frame
  verify_Triple =
      Triple-bind {Q = λ _ s. opened s.calls ≡ closed s.calls}
        (unfold now in Triple-gets _ (λ s p. p))
        λ started. Triple-bind {Q = λ _. Kept Level} (Triple-modify _ (λ s p. (p, refl, refl))) λ u.
          Triple-bind {Q = λ _. IsClean}
            (Triple-ensure (Triple-attempt (body_Triple started) (rescue_Triple started))
              (λ settled. Triple-clean_up) (λ x. Triple-clean_up))
            λ settled. conclude_Triple started settled

  -- Whether a call of `verify` returns or raises: as many stacks were told to go down as came up, but for one
  -- that stays up, and one stays only where the settings ask for it and a run of a merge commit was graded as
  -- passed; if as many had been told to go down as came up before.
  pub verify-IsClean :
      (s : Sys W)
      → opened s.calls ≡ closed s.calls
      → After (λ outcome. IsClean) (λ x. IsClean) (verify o h c r i merge_sha s)
  verify-IsClean s level = verify_Triple.at s level
