-- ===== src/Verification/Records.antt =====
-- portal/verification.py, class VerificationStore: every attempt, in the order of its rows.
use devin_automation.Prelude.{
  ℕ, suc, String, Bool, true, false, not, ◌&&◌, Option, List, [], ◌∷◌, ◌++◌, ◌≡◌, arith, find, keep,
  count_if, count_if-append, ◌==◌, nat_eq, if◌then◌else◌,
}
use devin_automation.Repairs.Types.{VerdictKind, passed}
use devin_automation.Verification.Report.{Report}
use devin_automation.Verification.Provenance.{Measured}

pub data Stage : Type 0 where
  preview post_merge : Stage

-- The columns that hold JSON hold its value.
pub record Attempt : Type 0 where
  pub repair_id : ℕ
  pub incident_id : ℕ
  pub simulated : Bool
  pub candidate_sha : String
  pub pr_url : String
  pub validator_ref : String
  pub fixture_rev : String
  pub config_rev : String
  pub cases : List String
  pub verdict : VerdictKind
  pub reason : String
  pub failures : List String
  pub commands : List String
  pub provenance : Option Measured
  pub report : Report
  pub artifact_path : String
  pub stage : Stage
  pub started_at : ℕ
  pub finished_at : ℕ

pub record Row : Type 0 where
  pub id : ℕ
  pub attempt : Attempt

-- The table and its AUTOINCREMENT counter.
pub record Table : Type 0 where
  pub rows : List Row
  pub next_id : ℕ

abbrev pub is_passed : VerdictKind → Bool
is_passed passed = true
is_passed _ = false

-- `record`: an attempt has no column but those of the table.
unfoldable pub add : Attempt → Table → ℕ × Table
add attempt t = (
  t.next_id,
  record {
    rows = t.rows ++ record { id = t.next_id; attempt = attempt } ∷ [];
    next_id = suc t.next_id;
  },
)

unfoldable pub for_repair : ℕ → Table → List Row
for_repair repair_id t = keep (λ row. row.attempt.repair_id == repair_id) t.rows

unfoldable pub for_incident : ℕ → Table → List Row
for_incident incident_id t = keep (λ row. row.attempt.incident_id == incident_id) t.rows

unfoldable pub get : ℕ → Table → Option Row
get id t = find (λ row. row.id == id) t.rows

unfoldable pub verified_count : Table → ℕ
verified_count t =
    count_if (λ row. is_passed row.attempt.verdict && not row.attempt.simulated) t.rows

-- An attempt counts as verified exactly if it passed and was no simulation.
pub verified_count-add :
    (attempt : Attempt) (t : Table)
    → verified_count (add attempt t).1 ≡ (
        if is_passed attempt.verdict && not attempt.simulated
        then suc (verified_count t)
        else verified_count t)
unfolding verified_count add
verified_count-add attempt t = ground (
  arith,
  count_if-append (λ (row : Row). is_passed row.attempt.verdict && not row.attempt.simulated) t.rows
      (record { id = t.next_id; attempt = attempt } ∷ []),
)
