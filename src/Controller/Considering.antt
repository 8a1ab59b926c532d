-- ===== src/Controller/Considering.antt =====
-- portal/controller.py, `consider`: called from the request path, it records a proposal and nothing else.
use devin_automation.Prelude.{
  ℕ, true, false, not, Option, none, some, [], ◌∷◌, ◌≡◌, ◌∙◌, sym, ap, subst, if_rule, refl, any,
  mem, ◌==◌, string_eq,
}
use devin_automation.Incidents.Types.{Incident, eligible}
use devin_automation.Repairs.Types.{Repair}
use devin_automation.Repairs.Store
use devin_automation.Repairs.Proposals.{
  IsKeyed, upsert-IsKeyed, upsert-any, upsert_apart, any-of_find,
}
use devin_automation.Controller.Exec.{Sys, Exec, modify, gets, pure, raise, ◌>>=◌}
use devin_automation.Controller.Exec.Keeps.{Keeps, keeps_rules}
use devin_automation.Controller.Providers.{Providers, Texts, Config}
use devin_automation.Controller.Base.{now, Decision}
use devin_automation.Controller.Dispatch.{
  consider, consider_found, answer_row, is_eligible, propose, proposal, repropose,
}

-- What `consider` leaves alone, and that there is one row for each fingerprint.
pub record IsRecorded {W : Type 0} (before s : Sys W) : Type 0 where
  pub sent : s.sent ≡ before.sent
  pub intents : s.store.intents ≡ before.store.intents
  pub slot : s.store.slot ≡ before.store.slot
  pub keyed : IsKeyed s.store

module _ {W : Type 0} (p : Providers W) (t : Texts) (c : Config) (i : Incident)
    (before : Sys W) where
  Keeps-proposed :
      (at : ℕ)
      → Keeps {W = W}
          (IsRecorded before)
          (modify (Store.upsert at (proposal p t c i) (repropose p t c i)))
  unfolding modify repropose
  Keeps-proposed at = record {
    keeps = λ s h.
        let apart = upsert_apart at _ _ s.store in
        record {
          sent = h.sent;
          intents = apart.0 ∙ h.intents;
          slot = apart.1 ∙ h.slot;
          keyed = upsert-IsKeyed at _ _ s.store (λ r. refl) h.keyed;
        };
  }

  -- The answer changes nothing.
  stays : (row : Option Repair) (s : Sys W) → (answer_row p t c row s).1 ≡ s
  unfolding answer_row pure raise
  stays none s = refl
  stays (some r) s = refl

  -- Considering an incident sends nothing, records no intent, leaves the slot to whoever holds it, and
  -- keeps one row at most for each fingerprint.
  pub consider-IsRecorded : IsKeyed before.store → IsRecorded before (consider p t c i before).1
  unfolding consider consider_found answer_row propose now
  consider-IsRecorded keyed =
      let k : Keeps (IsRecorded before) (consider p t c i) =
        search (keeps_rules, Keeps-proposed) depth 14 in
      k.keeps before (record { sent = refl; intents = refl; slot = refl; keyed = keyed })

  there :
      (found : Option Repair)
      → Store.by_fingerprint i.fingerprint before.store ≡ found
      → any
          (λ r. r.fingerprint == i.fingerprint)
          (consider_found p t c i found before).1.store.repairs
        ≡ true
  unfolding consider_found propose now ◌>>=◌ gets modify pure proposal repropose
      Store.by_fingerprint
  there none e =
      subst (λ (s : Sys W). any (λ r. r.fingerprint == i.fingerprint) s.store.repairs ≡ true)
        (sym (stays _ _))
        (upsert-any (p.clock before.world) (proposal p t c i) (repropose p t c i) before.store
          λ r. refl)
  there (some r) e =
      subst (λ (s : Sys W). any (λ r. r.fingerprint == i.fingerprint) s.store.repairs ≡ true)
        (sym (stays (some r) before))
        (any-of_find (λ r. r.fingerprint == i.fingerprint) before.store.repairs r e)

  -- An eligible incident that is not verified has a repair once it was considered.
  pub consider-any :
      i.admission ≡ eligible
      → mem i.state ("verified_in_preview" ∷ "verified_after_merge" ∷ []) ≡ false
      → any (λ r. r.fingerprint == i.fingerprint) (consider p t c i before).1.store.repairs ≡ true
  unfolding consider ◌>>=◌ gets
  consider-any admitted unverified =
      let open_gate : not (is_eligible i.admission) ≡ false =
        ap (λ a. not (is_eligible a)) admitted in
      if_rule HasRow (not (is_eligible i.admission)) (λ h. absurd (false≢true (sym open_gate ∙ h)))
        λ _.
          if_rule HasRow (mem i.state ("verified_in_preview" ∷ "verified_after_merge" ∷ []))
            (λ h. absurd (false≢true (sym unverified ∙ h)))
            λ _. there (Store.by_fingerprint i.fingerprint before.store) refl
    where
      HasRow : Exec W Decision → Type 0
      HasRow m = any (λ r. r.fingerprint == i.fingerprint) (m before).1.store.repairs ≡ true

      false≢true : false ≡ true → ⊥
      false≢true e = cc
