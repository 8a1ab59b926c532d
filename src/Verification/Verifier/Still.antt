-- ===== src/Verification/Verifier/Still.antt =====
-- portal/verification.py, class Verifier: the methods that leave the store, the calls of the runner and the
-- locals of `verify` as they are, and what is known of an answer.
use devin_automation.Prelude.{ℕ, String, not, ◌||◌, List, Option, ◌≡◌, refl, sym, ap, ◌∙◌, is_blank}
use devin_automation.Incidents.Types.{Incident}
use devin_automation.Repairs.Types.{Repair, VerdictKind}
use devin_automation.Methods.{Result, ok, err}
use devin_automation.Methods.Triple.{
  After, Triple, Triple-pure, Triple-raise, Triple-gets, Triple-run, Triple-if, Triple-bind,
  Triple-attempt, Triple-imp,
}
use devin_automation.Verification.Report.{Report}
use devin_automation.Verification.Provenance.{Host, Environment}
use devin_automation.Verification.Candidate.{Settings}
use devin_automation.Verification.Records.{Table, Attempt, add}
use devin_automation.Verification.Outside.{
  Outside, Fault, RunnerCall, Frame, Sys, Verify, Outcome, ask, is_runner_or_os,
}
use devin_automation.Verification.Pieces.{
  now, read_number, read_head, read_candidate, read_merged, read_subject, unless_blank, moved,
  write_artifact, finish, number_of,
}
use devin_automation.Verification.Verifier.{serve, retain}

-- A predicate of what is no part of the world.
abbrev pub Kept : {W : Type 0} → (Table → List RunnerCall → Frame → Type 0) → Sys W → Type 0
Kept L s = L s.table s.calls s.frame

abbrev pub Still : {W A : Type 0} → (Table → List RunnerCall → Frame → Type 0) → Verify W A → Type 0
Still L m = Triple (Kept L) m (λ _. Kept L) (λ _. Kept L)

-- The same, in a world that is known.
pub record At {W : Type 0} (w : W) (L : Table → List RunnerCall → Frame → Type 0) (s : Sys W)
    : Type 0 where
  pub world_is : s.world ≡ w
  pub kept : Kept L s

-- The method, run in the world `w`, answered `a` and left the world `w'`.
pub record IsStep {W A : Type 0} (m : Verify W A) (w : W) (a : A) (w' : W) : Type 0 where
  pub from : Sys W
  pub to : Sys W
  pub starts : from.world ≡ w
  pub answers : m from ≡ (ok a, to)
  pub ends : to.world ≡ w'

pub record Stepped {W A : Type 0} (m : Verify W A) (w : W)
    (L : Table → List RunnerCall → Frame → Type 0) (a : A) (s : Sys W) : Type 0 where
  pub step : IsStep m w a s.world
  pub kept : Kept L s

module _ {W A : Type 0} {L : Table → List RunnerCall → Frame → Type 0} {R : Fault → Sys W → Type 0}
    {m : Verify W A} {w : W} where
  pub Triple-Stepped : Triple (Kept L) m (λ _. Kept L) R → Triple (At w L) m (Stepped m w L) R
  Triple-Stepped t = record { at = λ s p. both s (m s) refl p.world_is (t.at s p.kept) }
    where
      both :
          (s : Sys W) (d : Result Fault A × Sys W)
          → m s ≡ d
          → s.world ≡ w
          → After (λ _. Kept L) R d
          → After (Stepped m w L) R d
      both s (ok a, s') e at p = record {
        step = record { from = s; to = s'; starts = at; answers = e; ends = refl };
        kept = p;
      }
      both s (err x, s') e at p = p

  -- The world that a method left is the one that the next one starts from.
  pub Triple-after :
      {B : Type 0} {Q : B → Sys W → Type 0} {a : A} {next : Verify W B}
      → ((w' : W) → IsStep m w a w' → Triple (At w' L) next Q R)
      → Triple (Stepped m w L a) next Q R
  Triple-after f = record {
    at = λ s p. (f s.world p.step).at s (record { world_is = refl; kept = p.kept });
  }

module _ {W : Type 0} (L : Table → List RunnerCall → Frame → Type 0) where
  pub Still-ask : {A : Type 0} (call : W → Result Fault A × W) → Still L (ask call)
  unfolding ask
  Still-ask {A} call = record { at = λ s p. settled (call s.world).0 (call s.world).1 s p }
    where
      settled :
          (r : Result Fault A) (w : W) (s : Sys W)
          → Kept L s
          → After (λ _. Kept L) (λ _. Kept L) (r, record s { world = w })
      settled (ok a) w s p = p
      settled (err x) w s p = p

  pub Still-unless_blank : (problem : String) → Still {W = W} L (unless_blank problem)
  unfolding unless_blank
  Still-unless_blank problem =
      Triple-if (is_blank problem) (λ _. Triple-pure _ (λ s p. p)) (λ _. Triple-raise _ (λ s p. p))

module _ {W : Type 0} (L : Table → List RunnerCall → Frame → Type 0) (o : Outside W) where
  pub Still-now : Still L (now o)
  unfolding now
  Still-now = Triple-gets _ (λ s p. p)

  module _ (h : Host) (c : Settings) where
    Still-number : (pr_url : String) → Still L (read_number o h c pr_url)
    unfolding read_number
    Still-number pr_url = Triple-run _ λ s p. unchanged (number_of pr_url c.target_repo) s p
      where
        unchanged :
            {A : Type 0} (r : Result Fault A) (s : Sys W)
            → Kept L s
            → After (λ _. Kept L) (λ _. Kept L) (r, s)
        unchanged (ok a) s p = p
        unchanged (err x) s p = p

    Still-head : (pr_url : String) → Still L (read_head o h c pr_url)
    unfolding read_head
    Still-head pr_url = Triple-bind (Still-number pr_url) λ number. Still-ask L _

    Still-candidate : (pr_url : String) → Still L (read_candidate o h c pr_url)
    unfolding read_candidate
    Still-candidate pr_url = Triple-bind (Still-number pr_url) λ number.
        Triple-bind (Still-ask L _) λ head.
          Triple-bind (Still-unless_blank L _)
            λ u. Triple-bind (Still-ask L _) λ files. Triple-pure _ (λ s p. p)

    Still-merged :
        (pr_url merge_sha expected_head : String)
        → Still L (read_merged o h c pr_url merge_sha expected_head)
    unfolding read_merged
    Still-merged pr_url merge_sha expected_head = Triple-bind (Still-head pr_url) λ head.
        Triple-bind (Still-unless_blank L _) λ u. Triple-bind (Still-ask L _) λ merged.
          Triple-bind (Still-ask L _) λ previewed.
            Triple-bind (Still-unless_blank L _)
              λ u. Triple-bind (Still-ask L _) λ files. Triple-pure _ (λ s p. p)

    pub Still-subject : (r : Repair) (merge_sha : String) → Still L (read_subject o h c r merge_sha)
    unfolding read_subject
    Still-subject r merge_sha =
        Triple-if (is_blank merge_sha) (λ _. Still-candidate r.agent_pr_url)
          λ _. Still-merged r.agent_pr_url merge_sha r.pr_head_sha

    pub Still-moved :
        (r : Repair) (merge_sha head_sha : String) → Still L (moved o h c r merge_sha head_sha)
    unfolding moved
    Still-moved r merge_sha head_sha =
        Triple-bind (Still-head r.agent_pr_url) λ head. Triple-pure _ (λ s p. p)

    Still-artifact :
        (r : Repair) (head_sha : String) (report : Report)
        → Still L (write_artifact o h c r head_sha report)
    unfolding write_artifact
    Still-artifact r head_sha report =
        Triple-if (not c.has_artifacts || report.is_empty) (λ _. Triple-pure _ (λ s p. p))
          λ _. Triple-bind (Still-now) λ at. Still-ask L _

    Still-serve : (e : Environment) → Still L (serve o h c e)
    unfolding serve
    Still-serve e =
        Triple-attempt (Triple-bind (Still-ask L _) λ portal. Triple-pure _ (λ s p. p)) λ x.
          Triple-if (is_runner_or_os x) (λ _. Triple-pure _ (λ s p. p))
            (λ _. Triple-raise _ (λ s p. p))

    pub Still-retain : (e : Environment) → Still L (retain o h c e)
    unfolding retain
    Still-retain e = Triple-bind (Still-serve e) λ portal. Triple-bind (Still-now) λ at.
        Triple-bind (Triple-pure _ (λ s p. p)) λ kept.
          Triple-bind
            (Triple-if c.has_artifacts (λ _. Still-ask L _) (λ _. Triple-pure _ (λ s p. p)))
            λ u. Triple-pure _ (λ s p. p)

-- `_finish` adds one row, with the verdict that it answers, and changes nothing else but the world.
pub Triple-finish :
    {W : Type 0} (L : Table → List RunnerCall → Frame → Type 0)
    (M : Outcome → Table → List RunnerCall → Frame → Type 0) (o : Outside W) (h : Host)
    (c : Settings) (r : Repair) (i : Option Incident) (started : ℕ) (merge_sha : String)
    (report : Report) (verdict : VerdictKind) (reason : String) (failures : List String)
    → ((table : Table) (calls : List RunnerCall) (f : Frame) (attempt : Attempt) (outcome : Outcome)
        → attempt.verdict ≡ verdict
        → outcome.verdict ≡ verdict
        → attempt.candidate_sha ≡ f.head_sha
        → outcome.candidate_sha ≡ f.head_sha
        → outcome.record_id ≡ (add attempt table).0
        → L table calls f
        → M outcome (add attempt table).1 calls f)
    → Triple
        (Kept L)
        (finish o h c r i started merge_sha report verdict reason failures)
        (λ outcome. Kept (M outcome))
        (λ _. Kept L)
unfolding finish
Triple-finish {W} L M o h c r i started merge_sha report verdict reason failures step =
    Triple-bind {Q = λ f. Kept (Held f)} (Triple-gets _ (λ s p. (refl, p))) λ f.
      Triple-bind (weaken (Still-artifact (Held f) o h c r f.head_sha report)) λ artifact.
        Triple-bind (weaken (Still-now (Held f) o)) λ at.
          Triple-bind
            {Q = λ id. Kept (λ table calls f'.
              (outcome : Outcome)
              → outcome.verdict ≡ verdict
              → outcome.candidate_sha ≡ f.head_sha
              → outcome.record_id ≡ id
              → M outcome table calls f')}
            (Triple-run _ λ s p outcome v sha id.
              step s.table s.calls s.frame _ outcome refl v
                (sym (ap (λ (f : Frame). f.head_sha) p.0))
                (sha ∙ sym (ap (λ (f : Frame). f.head_sha) p.0)) id p.1)
            λ id. Triple-pure _ (λ s p. p _ refl refl refl)
  where
    Held : Frame → Table → List RunnerCall → Frame → Type 0
    Held f table calls f' = (f' ≡ f) × L table calls f'

    weaken :
        {A : Type 0} {f : Frame} {m : Verify W A}
        → Still (Held f) m
        → Triple (Kept (Held f)) m (λ _. Kept (Held f)) (λ _. Kept L)
    weaken t = Triple-imp (λ s p. p) (λ a s p. p) (λ x s p. p.1) t
