-- ===== src/Incidents/Sound.antt =====
-- Every event keeps the invariant of the incident tables.
pub mod Rows
use devin_automation.Prelude.{
  ℕ, zero, suc, ◌+◌, ◌≤◌, ◌<◌, String, Bool, true, false, not, ◌&&◌, Option, none, some, List, [],
  ◌∷◌, ◌≡◌, refl, ap, arith, ◌==◌, nat_eq, string_eq, count_if, All, All-find, find, Bool-cases,
  inl, inr, if◌then◌else◌, is_blank, find_test, eq_iff,
}
use devin_automation.Incidents.Types.{
  EventOutcome, Event, Finding, Output, finding, not_a_record, Family, Admission, BlockReason,
  Settings, Incident, Role, derived_evidence, Db, Problem, empty, is_derived, Decision,
  telemetry_family_for, family_for, browser_telemetry, failure, is_control,
}
use devin_automation.Incidents.Observe.{
  fold_into, has_event, add_evidence, add_occurrence, add_incident, new_incident, baseline_of,
  admission_of, store_evidence, print_of, by_fingerprint, ingest, or_block, block_reason,
  dry_run_block, admit_telemetry, observe_signature, observe_finding, observe_family,
  observe_outcome, observe, drain_from, drain, since, set_cursor, is_folded,
}
use devin_automation.Incidents.Walk.{observe_keeps, drain_keeps}
use Rows.{
  IsSound, IsSound-error, IsSound-add_incident, IsSound-add_evidence, IsSound-add_occurrence,
  with_key,
}

IsSound-cursor : (n : ℕ) (db : Db) → IsSound db → IsSound (set_cursor n db)
unfolding set_cursor
IsSound-cursor n db h = record {
  ids_below = h.ids_below;
  owners_below = h.owners_below;
  keys_distinct = h.keys_distinct;
  ids_distinct = h.ids_distinct;
  events_distinct = h.events_distinct;
  traces_distinct = h.traces_distinct;
  counted = h.counted;
}

next_id-add_evidence :
    (id : ℕ) (role : Role) (e : Event) (db : Db) → (add_evidence id role e db).next_id ≡ db.next_id
unfolding add_evidence
next_id-add_evidence id role e db = refl

IsSound-rows :
    (id : ℕ) (role : Role) (derived : Bool) (e : Event) (db : Db)
    → id < db.next_id
    → has_event e.event_id db ≡ false
    → IsSound db
    → IsSound (
        if derived
        then add_evidence id derived_evidence e db
        else add_occurrence id e (add_evidence id role e db))
IsSound-rows id role true e db known new h = IsSound-add_evidence id derived_evidence e db new h
IsSound-rows id role false e db known new h =
    IsSound-add_occurrence id e (add_evidence id role e db) (rw next_id-add_evidence known)
      (IsSound-add_evidence id role e db new h)

IsSound-fold_into :
    (created : Bool) (id : ℕ) (key : String) (family : Family) (role : Role) (derived : Bool)
    (admission : Admission) (e : Event) (old db : Db)
    → id < db.next_id
    → IsSound old
    → IsSound db
    → IsSound (fold_into created id key family role derived admission e old db).1
unfolding fold_into
IsSound-fold_into created id key family role derived admission e old db known was h =
    elim (Bool-cases (has_event e.event_id db)) [
      | inl seen ↦ rw seen was
      | inr new ↦ rw new (IsSound-rows id role derived e db known new h)
    ]

module _ (digest : String → String) (s : Settings) where
  IsSound-store_evidence :
      (e : Event) (family : Family) (role : Role) (reason : Option BlockReason)
      (found : Option Incident) (db : Db)
      → by_fingerprint (print_of digest s e family) db ≡ found
      → IsSound db
      → IsSound (store_evidence digest s e family role reason found db).1
  unfolding store_evidence by_fingerprint
  IsSound-store_evidence e family role reason none db none_yet h =
      elim (Bool-cases (is_derived e.environment_kind)) [
        | inl derived ↦ rw derived (IsSound-error e.event_id _ db h)
        | inr own ↦ rw own (
            IsSound-fold_into true db.next_id (print_of digest s e family) family role false
              (admission_of reason) e db
              (add_incident
                (new_incident db.next_id (print_of digest s e family) s e family
                  (baseline_of e.revision) reason)
                db)
              (omega arith) h (IsSound-add_incident _ db refl refl none_yet h))
      ]
  IsSound-store_evidence e family role reason (some i) db found h =
      IsSound-fold_into false i.id (print_of digest s e family) family role
        (is_derived e.environment_kind) (admission_of reason) e db db
        (All-find (λ j. j.id < db.next_id) (with_key (print_of digest s e family)) db.incidents i
          h.ids_below found)
        h h

  IsSound-store :
      (e : Event) (family : Family) (role : Role) (forced : Option BlockReason)
      (found : Option Incident) (db : Db)
      → by_fingerprint (print_of digest s e family) db ≡ found
      → IsSound db
      → IsSound
          (store_evidence digest s e family role
            (or_block forced (block_reason s e family (baseline_of e.revision).0))
            found
            db).1
  IsSound-store e family role forced found db = IsSound-store_evidence e family role _ found db

  -- Every event keeps the invariant of the incident tables: fingerprints, ids, event ids and the
  -- traces of an incident stay unique, and each incident's count stays its number of occurrences.
  pub observe-IsSound : (e : Event) (db : Db) → IsSound db → IsSound (observe digest s e db).1
  observe-IsSound = observe_keeps digest s IsSound IsSound-error IsSound-store

  -- A catch-up over the event log, from any cursor and with any limit, keeps the invariant of the
  -- incident tables: fingerprints, ids, event ids and the traces of an incident stay unique, and each
  -- incident's count stays its number of occurrences.
  pub drain-IsSound :
      (log : List (ℕ × Event)) (limit : ℕ) (db : Db)
      → IsSound db
      → IsSound (drain digest s log limit db).1
  drain-IsSound = drain_keeps digest s IsSound IsSound-error IsSound-store IsSound-cursor

pub empty-IsSound : IsSound empty
empty-IsSound = record {
  ids_below = tt;
  owners_below = tt;
  keys_distinct = λ key. omega arith;
  ids_distinct = λ n. omega arith;
  events_distinct = λ x. omega arith;
  traces_distinct = λ n t. omega arith;
  counted = tt;
}
