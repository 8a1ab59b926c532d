-- ===== src/Incidents/Walk.antt =====
-- One rule for what an event does to the incident tables: either nothing, or a note of a problem,
-- or the transaction, and what is known of the event when the transaction is reached.
use devin_automation.Prelude.{
  ℕ, String, true, false, Option, none, some, List, [], ◌∷◌, ◌≡◌, refl, ◌⊎◌, inl, inr, if_rule,
  is_blank, not, ◌&&◌, ◌==◌, string_eq, Bool-cases,
}
use devin_automation.Incidents.Types.{
  EventOutcome, telemetry, assertion_failed, Event, Finding, Output, finding, not_a_record, Family,
  BlockReason, Settings, Incident, Role, Db, Problem, is_derived, is_known, Decision,
  telemetry_family_for, family_for, browser_telemetry, failure, is_control, signature_severity,
}
use devin_automation.Incidents.Observe.{
  record_error, set_cursor, baseline_of, store_evidence, print_of, by_fingerprint, ingest, or_block,
  block_reason, dry_run_block, is_disabled, rate_exceeded, severity_agrees, admit_telemetry,
  observe_signature, observe_finding, observe_family, observe_outcome, observe, drain_from, drain,
  since, is_folded,
}

-- Which path an admitted event took.
abbrev pub Origin : Settings → Event → Family → Role → Option BlockReason → Type 0
Origin s e family role forced =
    ((e.outcome ≡ assertion_failed)
      × (family_for e.assertion.name ≡ some family)
      × (is_control e.assertion.name ≡ false)
      × (role ≡ failure)
      × (forced ≡ none))
    ⊎ ((e.outcome ≡ telemetry)
        × (role ≡ browser_telemetry)
        × (forced ≡ dry_run_block s.telemetry_admission))

-- What is known of an event that reaches the transaction.
pub record IsAdmissible (s : Settings) (e : Event) (family : Family) (role : Role)
    (forced : Option BlockReason) : Type 0 where
  pub origin : Origin s e family role forced
  pub known_kind : is_known e.environment_kind ≡ true
  pub has_actor : is_blank e.actor ≡ false
  pub has_id : is_blank e.event_id ≡ false

module _ (digest : String → String) (s : Settings) (e : Event) (db : Db)
    (P : Decision → Db → Type 0) (same : (d : Decision) → is_folded d ≡ false → P d db)
    (note : (x : String) (p : Problem) (d : Decision)
      → is_folded d ≡ false
      → P d (record_error x p db))
    (store : (family : Family) (role : Role) (forced : Option BlockReason)
      → IsAdmissible s e family role forced
      → let r =
          store_evidence digest s e family role
            (or_block forced (block_reason s e family (baseline_of e.revision).0))
            (by_fingerprint (print_of digest s e family) db)
            db in
        P r.0 r.1) where
  abbrev Holds : Decision × Db → Type 0
  Holds r = P r.0 r.1

  ingest_rule :
      (family : Family) (role : Role) (forced : Option BlockReason)
      → Origin s e family role forced
      → Holds (ingest digest s e family role forced db)
  unfolding ingest is_folded
  ingest_rule family role forced from =
      if_rule Holds (is_blank e.event_id) (λ _. note _ _ _ refl)
        λ named. elim (Bool-cases (is_known e.environment_kind)) [
          | inr strange ↦ rw strange (note _ _ _ refl)
          | inl known ↦ rw known (
              if_rule Holds (is_blank e.actor) (λ _. note _ _ _ refl)
                λ acted.
                  if_rule Holds
                    (is_derived e.environment_kind && is_blank (print_of digest s e family))
                    (λ _. note _ _ _ refl)
                    λ _. store family role forced (record {
                      origin = from;
                      known_kind = known;
                      has_actor = acted;
                      has_id = named;
                    }))
        ]

  telemetry_rule :
      (family : Family) → e.outcome ≡ telemetry → Holds (admit_telemetry digest s e family db)
  unfolding admit_telemetry is_folded
  telemetry_rule family from =
      if_rule Holds (is_disabled s.telemetry_admission) (λ _. same _ refl)
        λ _.
          if_rule Holds (rate_exceeded digest s e db) (λ _. note _ _ _ refl)
            λ _.
              ingest_rule family browser_telemetry (dry_run_block s.telemetry_admission)
                (inr (from, refl, refl))

  signature_rule :
      (f : Finding) (family : Option Family)
      → e.outcome ≡ telemetry
      → Holds (observe_signature digest s e f family db)
  unfolding observe_signature is_folded
  signature_rule f none from = same _ refl
  signature_rule f (some family) from =
      if_rule Holds (severity_agrees (signature_severity family.telemetry_family) f.severity)
        (λ _. telemetry_rule family from) (λ _. note _ _ _ refl)

  finding_rule : (o : Output) → e.outcome ≡ telemetry → Holds (observe_finding digest s e o db)
  unfolding observe_finding is_folded
  finding_rule not_a_record from = note _ _ _ refl
  finding_rule (finding f) from =
      if_rule Holds (f.classification == "needs_attention") (λ _. note _ _ _ refl)
        λ _.
          if_rule Holds (not (f.classification == "qualified")) (λ _. same _ refl)
            λ _. signature_rule f (telemetry_family_for f.family) from

  family_rule :
      (family : Option Family)
      → family_for e.assertion.name ≡ family
      → is_control e.assertion.name ≡ false
      → e.outcome ≡ assertion_failed
      → Holds (observe_family digest s e family db)
  unfolding observe_family is_folded
  family_rule none found plain from = same _ refl
  family_rule (some family) found plain from =
      if_rule Holds (e.assertion.subject == "harness") (λ _. same _ refl)
        λ _. ingest_rule family failure none (inl (from, found, plain, refl, refl))

  outcome_rule : (o : EventOutcome) → e.outcome ≡ o → Holds (observe_outcome digest s o e db)
  unfolding observe_outcome is_folded
  outcome_rule EventOutcome.telemetry from = finding_rule e.output from
  outcome_rule EventOutcome.assertion_failed from =
      if_rule Holds (is_control e.assertion.name) (λ _. note _ _ _ refl)
        λ plain. family_rule (family_for e.assertion.name) refl plain from
  outcome_rule _ from = same _ refl

  pub observe_rule : P (observe digest s e db).0 (observe digest s e db).1
  unfolding observe
  observe_rule = outcome_rule e.outcome refl

-- The rule for an invariant.
module _ (digest : String → String) (s : Settings) (P : Db → Type 0)
    (note : (x : String) (p : Problem) (db : Db) → P db → P (record_error x p db))
    (store : (e : Event) (family : Family) (role : Role) (forced : Option BlockReason)
        (found : Option Incident) (db : Db)
      → by_fingerprint (print_of digest s e family) db ≡ found
      → P db
      → P
          (store_evidence digest s e family role
            (or_block forced (block_reason s e family (baseline_of e.revision).0))
            found
            db).1) where
  pub observe_keeps : (e : Event) (db : Db) → P db → P (observe digest s e db).1
  observe_keeps e db h =
      observe_rule digest s e db (λ _ db'. P db') (λ _ _. h) (λ x p _ _. note x p db h)
        (λ family role forced _. store e family role forced _ db refl h)

  module _ (move : (n : ℕ) (db : Db) → P db → P (set_cursor n db)) where
    drain_from_keeps :
        (log : List (ℕ × Event)) (counts : ℕ × ℕ) (db : Db)
        → P db
        → P (drain_from digest s log counts db).1
    unfolding drain_from
    drain_from_keeps [] counts db h = h
    drain_from_keeps ((row_id, e) ∷ rest) (scanned, ingested) db h =
        drain_from_keeps rest _ _ (move row_id (observe digest s e db).1 (observe_keeps e db h))

    pub drain_keeps :
        (log : List (ℕ × Event)) (limit : ℕ) (db : Db) → P db → P (drain digest s log limit db).1
    unfolding drain
    drain_keeps log limit db h = drain_from_keeps (since db.cursor limit log) (0, 0) db h
