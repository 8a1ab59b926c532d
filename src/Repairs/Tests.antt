-- ===== src/Repairs/Tests.antt =====
-- portal/controller.py, class RepairStore on concrete rows.
use devin_automation.Prelude.{ℕ, String, true, false, List, [], ◌∷◌, ◌≡◌, refl, ◌==◌, string_eq}
use devin_automation.Repairs.Types.{issue, empty}
use devin_automation.Repairs.Store.{intend, adopt_run, claim_slot}
use devin_automation.Repairs.Slot.{SlotOp, claim, release, one_holder, slot_steps}
use devin_automation.Repairs.Keys.{intend-intend, adopt_run-adopt_run}

abbrev others : List SlotOp
others = claim 5 2 ∷ release 2 ∷ claim 6 3 ∷ []

abbrev first_repair : ℕ
first_repair = 1

abbrev claiming_repair : ℕ
claiming_repair = 1

one_holder_example : claiming_repair ≡ first_repair
unfolding claim_slot slot_steps
one_holder_example = one_holder 4 1 empty others 9 1 refl (refl, (refl, (refl, tt))) granted
  where
    granted : (claim_slot 9 1 (slot_steps others (claim_slot 4 1 empty).1)).0 ≡ true
    granted = refl

intend-intend_example :
    let (answer, s) = intend 3 1 issue "runtime-repair:f1:attempt-1" empty in
    intend 8 1 issue "runtime-repair:f1:attempt-1" s ≡ ((answer.0, false), s)
intend-intend_example = intend-intend 3 8 1 issue "runtime-repair:f1:attempt-1" empty

abbrev run_a : String
run_a = "run-a"

adopt_run-adopt_run_example :
    adopt_run "run-b" (adopt_run "run-a" empty).1 ≡ (run_a == "run-b", (adopt_run "run-a" empty).1)
unfolding adopt_run
adopt_run-adopt_run_example = adopt_run-adopt_run "run-a" "run-b" empty refl
