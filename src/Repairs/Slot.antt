-- ===== src/Repairs/Slot.antt =====
-- portal/controller.py, the table `repair_slot` of class RepairStore: the claim that one repair at a time
-- holds.
use devin_automation.Prelude.{
  ℕ, Bool, true, false, Option, none, some, List, [], ◌∷◌, ◌≡◌, sym, ◌∙◌, ◌==◌, nat_eq,
  nat_same_iff, All, if_rule, if◌then◌else◌,
}
use devin_automation.Repairs.Types.{Claim, Store}
use devin_automation.Repairs.Store.{claim_slot, release_slot, or_claim}

-- What workers do to the slot.
pub data SlotOp : Type 0 where
  claim : ℕ → ℕ → SlotOp
  release : ℕ → SlotOp

unfoldable pub slot_step : SlotOp → Store → Store
unfolding claim_slot release_slot
slot_step (claim now id) s = (claim_slot now id s).1
slot_step (release id) s = release_slot id s

unfoldable pub slot_steps : List SlotOp → Store → Store
unfolding slot_step
slot_steps [] s = s
slot_steps (op ∷ rest) s = slot_steps rest (slot_step op s)

abbrev pub is_release : ℕ → SlotOp → Bool
is_release id (claim now other) = false
is_release id (release other) = other == id

abbrev Holds : ℕ → Option Claim → Type 0
Holds id none = ⊥
Holds id (some held) = held.repair_id ≡ id

Holds-or_claim :
    (id : ℕ) (slot : Option Claim) (mine : Claim)
    → Holds id slot
    → Holds id (some (or_claim slot mine))
Holds-or_claim id none mine h = elim h [ ]
Holds-or_claim id (some held) mine h = h

Holds-release :
    (id other : ℕ) (slot : Option Claim)
    → (other == id) ≡ false
    → Holds id slot
    → Holds id (elim slot [
      | none ↦ none
      | some held ↦ if held.repair_id == other then none else some held
    ])
Holds-release id other none apart h = elim h [ ]
Holds-release id other (some held) apart h =
    if_rule (Holds id) (held.repair_id == other)
      (λ same.
        let q : (other == id) ≡ true =
          (nat_same_iff other id).1 (sym ((nat_same_iff held.repair_id other).0 same) ∙ h) in
        cc)
      (λ _. h)

Holds-slot_steps :
    (id : ℕ) (ops : List SlotOp) (s : Store)
    → All (λ op. is_release id op ≡ false) ops
    → Holds id s.slot
    → Holds id (slot_steps ops s).slot
unfolding slot_steps slot_step claim_slot release_slot
Holds-slot_steps id [] s kept h = h
Holds-slot_steps id (claim now other ∷ rest) s kept h =
    Holds-slot_steps id rest _ kept.1 (Holds-or_claim id s.slot _ h)
Holds-slot_steps id (release other ∷ rest) s kept h =
    Holds-slot_steps id rest _ kept.1 (Holds-release id other s.slot kept.0 h)

Holds-claim_slot :
    (now id : ℕ) (s : Store)
    → (claim_slot now id s).0 ≡ true
    → Holds id (claim_slot now id s).1.slot
unfolding claim_slot
Holds-claim_slot now id s h = (nat_same_iff _ id).0 h

refused :
    (now id : ℕ) (other : ℕ) (slot : Option Claim)
    → Holds id slot
    → ((or_claim slot (record { repair_id = other; claimed_at = now })).repair_id == other) ≡ true
    → other ≡ id
refused now id other none h mine = elim h [ ]
refused now id other (some held) h mine = sym ((nat_same_iff held.repair_id other).0 mine) ∙ h

-- From the moment that a repair is granted the slot, whatever claims and releases other workers make,
-- no other repair is granted it until the first one is released.
pub one_holder :
    (now id : ℕ) (s : Store) (ops : List SlotOp) (later other : ℕ)
    → (claim_slot now id s).0 ≡ true
    → All (λ op. is_release id op ≡ false) ops
    → (claim_slot later other (slot_steps ops (claim_slot now id s).1)).0 ≡ true
    → other ≡ id
unfolding claim_slot
one_holder now id s ops later other granted kept again =
    refused later id other _ (Holds-slot_steps id ops _ kept (Holds-claim_slot now id s granted))
      again
