-- ===== src/Incidents/Eligible.antt =====
-- Which incidents may ever be dispatched for repair.
use devin_automation.Prelude.{
  ℕ, String, Bool, true, false, Option, none, some, List, [], ◌∷◌, ◌≡◌, refl, ◌∙◌, arith, ◌==◌,
  string_eq, is_blank, All, All-append, All-map, inl, inr, ◌⊎◌, if_rule, count_if, count_if-append,
  count_if-map,
}
use devin_automation.Incidents.Types.{
  Event, Family, Admission, eligible, BlockReason, Settings, Incident, Role, Db, is_derived,
  Decision, dry_run, telemetry, derived_evidence,
}
use devin_automation.Incidents.Observe.{
  record_error, set_cursor, baseline_of, store_evidence, print_of, by_fingerprint, or_block,
  block_reason, new_incident, add_incident, add_evidence, add_occurrence, fold_into, has_event,
  touch, observe, drain, dry_run_block, has_occurrence,
}
use devin_automation.Incidents.Walk.{drain_keeps, observe_rule, IsAdmissible}

-- The evidence that an incident needs before it may be handed to a repair session.
pub record IsPinned (s : Settings) (i : Incident) : Type 0 where
  pub baseline_measured : (i.baseline_sha == "unverified") ≡ false
  pub baseline_expected :
      (is_blank s.expected_baseline ≡ true) ⊎ ((i.baseline_sha == s.expected_baseline) ≡ true)
  pub fixture_known : is_blank i.fixture_revision ≡ false
  pub unforced : i.admission_reason ≡ none

abbrev pub AllPinned : Settings → Db → Type 0
AllPinned s db = All (λ i. i.admission ≡ eligible → IsPinned s i) db.incidents

-- An incident that no reason blocks has been pinned.
new_incident-IsPinned :
    (id : ℕ) (key : String) (s : Settings) (e : Event) (family : Family)
    (forced : Option BlockReason)
    → let reason = or_block forced (block_reason s e family (baseline_of e.revision).0) in
      let i = new_incident id key s e family (baseline_of e.revision) reason in
      i.admission ≡ eligible → IsPinned s i
unfolding new_incident block_reason
new_incident-IsPinned id key s e family none h = ground arith
new_incident-IsPinned id key s e family (some reason) h = cc

module _ (s : Settings) where
  touch-IsPinned :
      (id more ts : ℕ) (i : Incident)
      → (i.admission ≡ eligible → IsPinned s i)
      → (touch id more ts i).admission ≡ eligible
      → IsPinned s (touch id more ts i)
  unfolding touch
  touch-IsPinned id more ts i h a = ground arith

  pinned_occurrence :
      (id : ℕ) (e : Event) (db : Db) → AllPinned s db → AllPinned s (add_occurrence id e db)
  unfolding add_occurrence
  pinned_occurrence id e db h =
      if_rule (AllPinned s) (has_occurrence id e.trace_id db)
        (λ _. All-map _ _ (touch id 0 e.ts) db.incidents (touch-IsPinned id 0 e.ts) h)
        (λ _. All-map _ _ (touch id 1 e.ts) db.incidents (touch-IsPinned id 1 e.ts) h)

  pinned_evidence :
      (id : ℕ) (role : Role) (e : Event) (db : Db)
      → AllPinned s db
      → AllPinned s (add_evidence id role e db)
  unfolding add_evidence
  pinned_evidence id role e db h = h

  pinned_fold_into :
      (created : Bool) (id : ℕ) (key : String) (family : Family) (role : Role) (derived : Bool)
      (admission : Admission) (e : Event) (old db : Db)
      → AllPinned s old
      → AllPinned s db
      → AllPinned s (fold_into created id key family role derived admission e old db).1
  unfolding fold_into
  pinned_fold_into created id key family role derived admission e old db was h =
      if_rule (λ (r : Decision × Db). AllPinned s r.1) (has_event e.event_id db) (λ _. was)
        λ _.
          if_rule (AllPinned s) derived (λ _. pinned_evidence id derived_evidence e db h)
            λ _. pinned_occurrence id e (add_evidence id role e db) (pinned_evidence id role e db h)

  module _ (digest : String → String) where
    pinned_store :
        (e : Event) (family : Family) (role : Role) (forced : Option BlockReason)
        (found : Option Incident) (db : Db)
        → by_fingerprint (print_of digest s e family) db ≡ found
        → AllPinned s db
        → AllPinned s
            (store_evidence digest s e family role
              (or_block forced (block_reason s e family (baseline_of e.revision).0))
              found
              db).1
    unfolding store_evidence record_error add_incident
    pinned_store e family role forced none db _ h =
        if_rule (λ (r : Decision × Db). AllPinned s r.1) (is_derived e.environment_kind) (λ _. h)
          λ _. pinned_fold_into true db.next_id _ family role false _ e db _ h (
            All-append _ db.incidents _ h
              (new_incident-IsPinned db.next_id (print_of digest s e family) s e family forced, tt))
    pinned_store e family role forced (some i) db _ h =
        pinned_fold_into false i.id _ family role (is_derived e.environment_kind) _ e db db h h

    -- In the tables that any catch-up leaves behind, an eligible incident was pinned to a measured
    -- baseline, which is the one the deployment expects where it expects one, and has a fixture
    -- revision; if that held before.
    pub drain-AllPinned :
        (log : List (ℕ × Event)) (limit : ℕ) (db : Db)
        → AllPinned s db
        → AllPinned s (drain digest s log limit db).1
    unfolding record_error set_cursor
    drain-AllPinned = drain_keeps digest s (AllPinned s) (λ _ _ _ h. h) pinned_store (λ _ _ h. h)

-- The number of incidents that may be dispatched.
abbrev is_eligible : Admission → Bool
is_eligible Admission.eligible = true
is_eligible Admission.blocked = false

unfoldable pub dispatchable : Db → ℕ
dispatchable db = count_if (λ i. is_eligible i.admission) db.incidents

dispatchable-add_occurrence :
    (id : ℕ) (e : Event) (db : Db) → dispatchable (add_occurrence id e db) ≡ dispatchable db
unfolding dispatchable add_occurrence
dispatchable-add_occurrence id e db =
    if_rule (λ (d : Db). count_if (λ i. is_eligible i.admission) d.incidents ≡ dispatchable db)
      (has_occurrence id e.trace_id db)
      (λ _. count_if-map _ (touch id 0 e.ts) db.incidents (λ i. ground arith))
      (λ _. count_if-map _ (touch id 1 e.ts) db.incidents (λ i. ground arith))

dispatchable-fold_into :
    (created : Bool) (id : ℕ) (key : String) (family : Family) (role : Role) (derived : Bool)
    (admission : Admission) (e : Event) (old db : Db)
    → dispatchable db ≡ dispatchable old
    → dispatchable (fold_into created id key family role derived admission e old db).1
      ≡ dispatchable old
unfolding fold_into
dispatchable-fold_into created id key family role derived admission e old db h =
    if_rule (λ (r : Decision × Db). dispatchable r.1 ≡ dispatchable old) (has_event e.event_id db)
      (λ _. refl)
      λ _.
        if_rule (λ (d : Db). dispatchable d ≡ dispatchable old) derived
          (λ _. unfold dispatchable add_evidence in h)
          λ _. dispatchable-add_occurrence id e _ ∙ (unfold dispatchable add_evidence in h)

dispatchable-blocked :
    (i : Incident) (db : Db)
    → i.admission ≡ Admission.blocked
    → dispatchable (add_incident i db) ≡ dispatchable db
unfolding dispatchable add_incident
dispatchable-blocked i db h =
    ground (arith, count_if-append (λ j. is_eligible j.admission) db.incidents (i ∷ []))

dispatchable-store :
    (digest : String → String) (s : Settings) (e : Event) (family : Family) (role : Role)
    (reason : BlockReason) (found : Option Incident) (db : Db)
    → dispatchable (store_evidence digest s e family role (some reason) found db).1
      ≡ dispatchable db
unfolding store_evidence record_error
dispatchable-store digest s e family role reason none db =
    if_rule (λ (r : Decision × Db). dispatchable r.1 ≡ dispatchable db)
      (is_derived e.environment_kind) (λ _. unfold dispatchable in refl)
      λ _.
        dispatchable-fold_into true db.next_id _ family role false _ e db _
          (dispatchable-blocked _ db (unfold new_incident in refl))
dispatchable-store digest s e family role reason (some i) db =
    dispatchable-fold_into false i.id _ family role (is_derived e.environment_kind) _ e db db refl

-- While telemetry admission is in dry-run mode, no browser observation makes an incident that may
-- be dispatched: the number of eligible incidents stays as it was.
pub dry_run-dispatchable :
    (digest : String → String) (s : Settings) (e : Event) (db : Db)
    → s.telemetry_admission ≡ dry_run
    → e.outcome ≡ telemetry
    → dispatchable (observe digest s e db).1 ≡ dispatchable db
unfolding record_error
dry_run-dispatchable digest s e db mode from =
    observe_rule digest s e db (λ _ db'. dispatchable db' ≡ dispatchable db) (λ _ _. refl)
      (λ _ _ _ _. unfold dispatchable in refl)
      λ family role forced ok. blocked_by forced family role ok
  where
    blocked_by :
        (forced : Option BlockReason) (family : Family) (role : Role)
        → IsAdmissible s e family role forced
        → dispatchable
            (store_evidence digest s e family role
              (or_block forced (block_reason s e family (baseline_of e.revision).0))
              (by_fingerprint (print_of digest s e family) db)
              db).1
          ≡ dispatchable db
    blocked_by none family role ok = elim ok.origin [
      | inl (asserted, _, _, _, _) ↦ cc
      | inr (_, _, forcing) ↦ absurd (unfold dry_run_block in ground arith)
    ]
    blocked_by (some reason) family role ok =
        dispatchable-store digest s e family role reason
          (by_fingerprint (print_of digest s e family) db) db
