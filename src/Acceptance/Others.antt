-- ===== src/Acceptance/Others.antt =====
-- portal/controller.py: what follows a pass accepts no repair but the one that was verified.
use devin_automation.Prelude.{
  some, ℕ, false, true, ◌≡◌, refl, All, All-map, All-imp, if_rule, ◌==◌, nat_eq,
}
use devin_automation.Repairs.Types.{Repair, VerdictKind, passed, failed, blocked}
use devin_automation.Repairs.Store
use devin_automation.Controller.Exec.{
  Sys, Exc, fault, parked, claimed, value_error, Call, tell, modify, ◌>>=◌,
}
use devin_automation.Controller.Exec.Keeps.{Keeps, keeps_rules, Keeps-bind, Keeps-gets}
use devin_automation.Controller.Providers.{Providers, Texts, Config, Answer, Outcome}
use devin_automation.Controller.Base.{now, get, update, release_slot}
use devin_automation.Controller.Verdicts.{
  not_stopped, release_row, release_after_verification, preview_passed, act_on, record_of,
}
use devin_automation.Acceptance.Open.{IsOpen, NoneAccepted}

abbrev pub IsOpenElse : ℕ → Repair → Type 0
IsOpenElse id r = (r.id == id) ≡ false → IsOpen r

-- No repair is accepted but the one with this id.
abbrev pub NoOther : {W : Type 0} → ℕ → Sys W → Type 0
NoOther id s = All (IsOpenElse id) s.store.repairs

pub NoOther-of_none : {W : Type 0} (id : ℕ) (s : Sys W) → NoneAccepted s → NoOther id s
NoOther-of_none id s h = All-imp _ _ s.store.repairs (λ r open_row other. open_row) h

module _ {W : Type 0} (p : Providers W) (id : ℕ) where
  Keeps-tell :
      {A : Type 0} (log : Call) (call : W → Answer A × W) → Keeps (NoOther id) (tell log call)
  unfolding tell
  Keeps-tell log call = record { keeps = λ s h. h }

  Keeps-now : Keeps (NoOther id) (now p)
  unfolding now
  Keeps-now = Keeps-gets _

  Keeps-get : (i : ℕ) → Keeps (NoOther id) (get p i)
  unfolding get
  Keeps-get i = Keeps-gets _

  Keeps-release_slot : (i : ℕ) → Keeps (NoOther id) (release_slot p i)
  unfolding release_slot Store.release_slot modify
  Keeps-release_slot i = record { keeps = λ s h. h }

  Keeps-update :
      (i : ℕ) (change : Repair → Repair)
      → ((r : Repair) → (r.id == i) ≡ true → IsOpenElse id r → IsOpenElse id (change r))
      → Keeps (NoOther id) (update p i change)
  unfolding update Store.update Store.write_row modify
  Keeps-update i change leaves = Keeps-bind _ _ Keeps-now λ at. record {
    keeps = λ s h.
        All-map (IsOpenElse id) (IsOpenElse id) _ s.store.repairs
          (λ r o. if_rule (IsOpenElse id) (r.id == i) (λ mine. leaves r mine o) (λ _. o)) h;
  }

  -- A change of the row itself.
  Keeps-own :
      (change : Repair → Repair)
      → ((r : Repair) → (change r).id ≡ r.id)
      → Keeps (NoOther id) (update p id change)
  Keeps-own change same = Keeps-update id change λ r mine o other. absurd (cc (mine, other, same r))

ruleset other_rules = (keeps_rules, Keeps-tell, Keeps-now, Keeps-get, Keeps-release_slot)

module _ {W : Type 0} (p : Providers W) (t : Texts) (c : Config) (id : ℕ) where
  Keeps-not_stopped : (i : ℕ) (x : Exc) → Keeps (NoOther id) (not_stopped p t c i x)
  unfolding not_stopped
  Keeps-not_stopped i (fault f) = search (other_rules, Keeps-update) depth 14
  Keeps-not_stopped i (parked why) = search other_rules
  Keeps-not_stopped i (claimed why) = search other_rules
  Keeps-not_stopped i (value_error why) = search other_rules

  Keeps-release : (i : ℕ) → Keeps (NoOther id) (release_after_verification p t c i)
  unfolding release_after_verification release_row
  Keeps-release i = search (other_rules, Keeps-not_stopped) depth 14

  Keeps-preview_passed : (o : Outcome) → Keeps (NoOther id) (preview_passed p t c id o)
  unfolding preview_passed
  Keeps-preview_passed o = search (other_rules, Keeps-own, Keeps-release) depth 14

  Keeps-act_on :
      (v : VerdictKind) (o : Outcome) → v ≡ passed → Keeps (NoOther id) (act_on p t c v id o)
  unfolding act_on
  Keeps-act_on passed o e = Keeps-preview_passed o
  Keeps-act_on failed o e = absurd (cc e)
  Keeps-act_on blocked o e = absurd (cc e)

  -- What a pass leads to, from the record of the verdict on.
  pub Keeps-passed :
      (a : Outcome)
      → a.verdict ≡ passed
      → Keeps (NoOther id) (
          now p >>= λ at.
          update p id (λ row. record row { verification = some (record_of a at) }) >>= λ _.
          act_on p t c a.verdict id a)
  Keeps-passed a e =
      Keeps-bind _ _ (Keeps-now p id)
        λ at. Keeps-bind _ _ (Keeps-own p id _ (λ r. refl)) λ _. Keeps-act_on a.verdict a e
