-- ===== src/Acceptance/Verified.antt =====
-- portal/controller.py with portal/verification.py: what stands behind a repair that is accepted.
use devin_automation.Prelude.{String, not, Option, some, ◌≡◌, refl, sym, ap, ◌∙◌, ◌⊎◌, inl, inr}
use devin_automation.Incidents.Types.{Incident}
use devin_automation.Repairs.Types.{Repair, VerdictKind, passed, failed, blocked}
use devin_automation.Controller.Exec.{Sys, Exec, Result, ok, err, ◌>>=◌}
use devin_automation.Controller.Exec.Keeps.{Keeps, Keeps-bind, Keeps-pure}
use devin_automation.Controller.Exec.Triple.{
  After, Triple, Triple-if, Triple-bind, Triple-gets, Triple-ask, Triple-fact,
}
use devin_automation.Controller.Providers.{
  Providers, Answer, returned, raised, Texts, Config, Outcome,
}
use devin_automation.Controller.Base.{Decision, now, update, incident_of}
use devin_automation.Controller.Verdicts.{record_of, act_on, verify_row}
use devin_automation.Methods
use devin_automation.Methods.Triple
use devin_automation.Verification.Records.{is_passed}
use devin_automation.Verification.Provenance.{Host}
use devin_automation.Verification.Candidate.{Settings}
use devin_automation.Verification.Outside.{Outside}
use devin_automation.Verification.Outside
use devin_automation.Verification.Verifier.{verify}
use devin_automation.Verification.Verifier.Once.{verify-IsRecorded}
use devin_automation.Verification.Verifier.Backed.{IsBacked, IsRecorded}
use devin_automation.Acceptance.{answer_of, outcome_of, with_verifier}
use devin_automation.Acceptance.Others.{NoOther, NoOther-of_none, Keeps-passed}
use devin_automation.Acceptance.Open.{
  NoneAccepted, Keeps-now, Keeps-update, Keeps-park, Keeps-act_on,
}

verdict_of : Answer Outcome → VerdictKind
verdict_of (returned outcome) = outcome.verdict
verdict_of (raised f) = blocked

record IsStart {W : Type 0} (start s : Sys W) : Type 0 where
  same : s ≡ start
  opens : NoneAccepted s

module _ {W : Type 0} (o : Outside W) (h : Host) (v : Settings) (p : Providers (Outside.Sys W))
    (t : Texts) (c : Config) (r : Repair) where
  -- What stands behind a pass of the verifier's run for the repair and its incident, from the world of the start.
  pub record IsVerified (start : Sys (Outside.Sys W)) : Type 0 where
    pub commit : String
    pub backed :
        IsBacked o h v r (p.incident_of r.incident_id start.world) "" start.world.world commit

  abbrev pub Accepts : Sys (Outside.Sys W) → Sys (Outside.Sys W) → Type 0
  Accepts start s = NoneAccepted s ⊎ (IsVerified start × NoOther r.id s)

  outcome_backed :
      (start : Sys (Outside.Sys W)) (before : _)
      (d : Methods.Result Outside.Fault Outside.Outcome × Outside.Sys W) (a : Outcome)
      → Methods.Triple.After
          (λ outcome s.
            IsRecorded o h v r
              (p.incident_of r.incident_id start.world)
              ""
              start.world.world
              before
              outcome
              s.table)
          (λ x s. Unit {0})
          d
      → answer_of d.0 ≡ returned a
      → a.verdict ≡ passed
      → IsVerified start
  unfolding answer_of outcome_of verdict_of
  outcome_backed start before (Methods.err x, s) a after e p = absurd (cc e)
  outcome_backed start before (Methods.ok outcome, s) a after e p = record {
    commit = outcome.candidate_sha;
    backed = after.backed (ap is_passed (ap verdict_of e ∙ p));
  }

  composed : Providers (Outside.Sys W)
  composed = with_verifier o h v p

  module _ (start : Sys (Outside.Sys W)) where
    settled :
        {A : Type 0} (d : Result A × Sys (Outside.Sys W))
        → Accepts start d.1
        → After (λ _. Accepts start) (λ _. Accepts start) d
    settled (ok a, s) h = h
    settled (err x, s) h = h

    Triple-of_open :
        {A : Type 0} {m : Exec (Outside.Sys W) A}
        → Keeps NoneAccepted m
        → Triple NoneAccepted m (λ _. Accepts start) (λ _. Accepts start)
    Triple-of_open {A} {m} k = record { at = λ s opens. settled (m s) (inl (k.keeps s opens)) }

    Triple-of_verified :
        {A : Type 0} (m : Exec (Outside.Sys W) A)
        → IsVerified start
        → Keeps (NoOther r.id) m
        → Triple NoneAccepted m (λ _. Accepts start) (λ _. Accepts start)
    Triple-of_verified m h k = record {
      at = λ s opens. settled (m s) (inr (h, k.keeps s (NoOther-of_none r.id s opens)));
    }

    after_answer :
        (a : Outcome)
        → (a.verdict ≡ passed → IsVerified start)
        → Triple NoneAccepted
            (now composed >>= λ at.
              update composed r.id (λ row. record row { verification = some (record_of a at) })
              >>= λ _. act_on composed t c a.verdict r.id a)
            (λ _. Accepts start)
            (λ _. Accepts start)
    after_answer a backed = by_verdict a.verdict refl
      where
        otherwise :
            (a.verdict ≡ passed → ⊥)
            → Keeps NoneAccepted (
                now composed >>= λ at.
                update composed r.id (λ row. record row { verification = some (record_of a at) })
                >>= λ _. act_on composed t c a.verdict r.id a)
        otherwise never = Keeps-bind _ _ (Keeps-now composed) λ at.
            Keeps-bind _ _ (Keeps-update composed r.id _ (λ row open_row. open_row))
              λ _. Keeps-act_on composed t c a.verdict r.id a never

        by_verdict :
            (k : VerdictKind)
            → a.verdict ≡ k
            → Triple NoneAccepted
                (now composed >>= λ at.
                  update composed r.id (λ row. record row { verification = some (record_of a at) })
                  >>= λ _. act_on composed t c a.verdict r.id a)
                (λ _. Accepts start)
                (λ _. Accepts start)
        by_verdict passed e = Triple-of_verified _ (backed e) (Keeps-passed composed t c r.id a e)
        by_verdict failed e = Triple-of_open (otherwise λ q. cc (e, q))
        by_verdict blocked e = Triple-of_open (otherwise λ q. cc (e, q))

    verify_Triple :
        Triple (IsStart start) (verify_row composed t c r) (λ _. Accepts start) (λ _. Accepts start)
    unfolding verify_row composed with_verifier
    verify_Triple =
        Triple-if (not c.has_verifier)
          (λ _.
            from_start
              (Triple-of_open (Keeps-bind _ _ (Keeps-park composed t c r.id _) λ _. Keeps-pure _)))
          λ _.
            Triple-bind {Q = λ i s. (i ≡ p.incident_of r.incident_id start.world) × IsStart start s}
              (unfold incident_of in
                Triple-gets _ (λ s at. (
                  ap (λ (s : Sys (Outside.Sys W)). p.incident_of r.incident_id s.world) at.same,
                  at,
                )))
              λ i. Triple-fact λ found.
                Triple-bind {Q = λ a s. (a.verdict ≡ passed → IsVerified start) × NoneAccepted s}
                  (Triple-ask _ (λ s a at e. (ran i found s a at.same e, at.opens))
                    (λ s x w at. inl at.opens))
                  λ a. Triple-fact λ backed. after_answer a backed
      where
        from_start :
            {A : Type 0} {m : Exec (Outside.Sys W) A}
            → Triple NoneAccepted m (λ _. Accepts start) (λ _. Accepts start)
            → Triple (IsStart start) m (λ _. Accepts start) (λ _. Accepts start)
        from_start t = record { at = λ s at. t.at s at.opens }

        ran :
            (i : Option Incident)
            → i ≡ p.incident_of r.incident_id start.world
            → (s : Sys (Outside.Sys W)) (a : Outcome) → s ≡ start
            → answer_of (verify o h v r i "" s.world).0 ≡ returned a
            → a.verdict ≡ passed
            → IsVerified start
        ran i found s a at e =
            let same =
              ap (λ (s : Sys (Outside.Sys W)). verify o h v r i "" s.world) at
              ∙ ap (λ (i : Option Incident). verify o h v r i "" start.world) found in
            outcome_backed start start.world.table
              (verify o h v r (p.incident_of r.incident_id start.world) "" start.world) a
              (verify-IsRecorded o h v r (p.incident_of r.incident_id start.world) "" start.world)
              (ap
                  (λ (d : Methods.Result Outside.Fault Outside.Outcome × Outside.Sys W).
                    answer_of d.0)
                  (sym same)
                ∙ e)

  -- The controller with the verifier of portal/verification.py: if no repair is accepted before it verifies the
  -- candidate of a repair, then afterwards, whether it returns or raises, none is accepted, or none but this one
  -- is, and this run of the verifier, for the repair, its incident and the world of the start, did these four
  -- steps, each from the world that the one before it left: it read a diff in scope and its commit; a stack came
  -- up for the commit, and by the clock at that moment it was measured to stand for it; the replay gave a report
  -- that is graded as passed and says so; and the candidate, read again after the replay, had not moved.
  pub verify_row-Accepts :
      (s : Sys (Outside.Sys W))
      → NoneAccepted s
      → Accepts s (verify_row (with_verifier o h v p) t c r s).1
  unfolding composed
  verify_row-Accepts s opens =
      either s (verify_row composed t c r s)
        ((verify_Triple s).at s (record { same = refl; opens = opens }))
    where
      either :
          (start : Sys (Outside.Sys W)) (d : Result Decision × Sys (Outside.Sys W))
          → After (λ _. Accepts start) (λ _. Accepts start) d
          → Accepts start d.1
      either start (ok a, s) h = h
      either start (err x, s) h = h
