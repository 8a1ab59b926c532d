-- ===== src/Incidents/Deliveries.antt =====
-- What a delivery does to the incident tables: creation, duplicates and derived evidence.
use devin_automation.Prelude.{
  ℕ, String, Bool, true, false, Option, none, some, List, [], ◌∷◌, ◌++◌, find, ◌≡◌, refl, sym, ap,
  ◌==◌, string_eq, is_blank, Bool-cases, inl, inr, ◌⊎◌, if_rule,
}
use devin_automation.Incidents.Types.{
  Event, Family, Admission, BlockReason, Settings, Incident, Evidence, Occurrence, Role, Db,
  is_derived, is_known, Decision, telemetry, derived_evidence, assertion_failed, admitted,
  duplicate_event, family_for, is_control, suppressed, processing_error,
}
use devin_automation.Incidents.Observe.{
  record_error, store_evidence, print_of, by_fingerprint, admission_of, add_evidence, fold_into,
  has_event, observe, is_folded,
}
use devin_automation.Incidents.Walk.{observe_rule}

-- The tables that count: all but the notes and the cursor.
abbrev pub rows : Db → List Incident × List Evidence × List Occurrence × ℕ
rows db = (db.incidents, db.events, db.occurrences, db.next_id)

-- One row more of evidence, filed under the incident that has the parent's fingerprint.
pub record IsChild (s : Settings) (e : Event) (db db' : Db) : Type 0 where
  pub parent : Incident
  pub is_parent : find (λ i. i.fingerprint == s.parent_fingerprint) db.incidents ≡ some parent
  pub one_row :
      db'.events
      ≡ db.events
        ++ record {
          event_id = e.event_id;
          incident_id = parent.id;
          trace_id = e.trace_id;
          step_index = e.step_index;
          ts = e.ts;
          operation = e.operation;
          role = derived_evidence;
        }
          ∷ []

-- The incidents and the occurrences as before, and no evidence more but one row about the parent.
abbrev IsDerived : Settings → Event → Db → Db → Type 0
IsDerived s e db db' =
    (db'.incidents ≡ db.incidents)
    × (db'.occurrences ≡ db.occurrences)
    × ((db'.events ≡ db.events) ⊎ IsChild s e db db')

module _ (digest : String → String) (s : Settings) (e : Event) (db : Db) where
  -- An event from a preview, a reproduction or a verification run opens no incident and counts no
  -- occurrence, whether it is stored or not: the evidence stays as it is, or gets one row, which is filed under
  -- the incident that has the parent's fingerprint.
  pub derived_counts_nothing :
      is_derived e.environment_kind ≡ true
      → let db' = (observe digest s e db).1 in
        (db'.incidents ≡ db.incidents)
        × (db'.occurrences ≡ db.occurrences)
        × ((db'.events ≡ db.events) ⊎ IsChild s e db db')
  unfolding record_error
  derived_counts_nothing derived =
      observe_rule digest s e db (λ _ db'. IsDerived s e db db') (λ _ _. (refl, refl, inl refl))
        (λ _ _ _ _. (refl, refl, inl refl))
        λ family role forced _.
          evidence family role _ (by_fingerprint (print_of digest s e family) db)
            (ap (λ key. by_fingerprint key db) (print family))
    where
      print : (family : Family) → print_of digest s e family ≡ s.parent_fingerprint
      print family = unfold print_of in rw derived refl

      evidence :
          (family : Family) (role : Role) (reason : Option BlockReason) (found : Option Incident)
          → found ≡ by_fingerprint s.parent_fingerprint db
          → IsDerived s e db (store_evidence digest s e family role reason found db).1
      evidence family role reason none at =
          unfold store_evidence record_error in rw derived (refl, refl, inl refl)
      evidence family role reason (some i) at =
          unfold store_evidence add_evidence in
          rw derived (
            if_rule (λ (r : Decision × Db). IsDerived s e db r.1) (has_event e.event_id db)
              (λ _. (refl, refl, inl refl))
              (λ _. (
                refl,
                refl,
                inr (record {
                  parent = i;
                  is_parent = unfold by_fingerprint in sym at;
                  one_row = refl;
                }),
              )))

-- What the creation of an incident rests on.
pub record IsRegistered (e : Event) : Type 0 where
  pub baseline_environment :
      (is_known e.environment_kind ≡ true) × (is_derived e.environment_kind ≡ false)
  pub named_actor : is_blank e.actor ≡ false
  pub observed :
      ((e.outcome ≡ assertion_failed)
        × (is_control e.assertion.name ≡ false)
        × ((f : Family) × (family_for e.assertion.name ≡ some f)))
      ⊎ (e.outcome ≡ telemetry)

abbrev pub creates : Decision → Bool
creates (admitted a) = a.created
creates _ = false

created-fold_into :
    (id : ℕ) (key : String) (family : Family) (role : Role) (derived : Bool) (admission : Admission)
    (e : Event) (old db : Db)
    → creates (fold_into false id key family role derived admission e old db).0 ≡ false
unfolding fold_into
created-fold_into id key family role derived admission e old db =
    if_rule (λ (r : Decision × Db). creates r.0 ≡ false) (has_event e.event_id db) (λ _. refl)
      (λ _. refl)

not_derived :
    (digest : String → String) (s : Settings) (e : Event) (family : Family) (role : Role)
    (reason : Option BlockReason) (found : Option Incident) (db : Db)
    → creates (store_evidence digest s e family role reason found db).0 ≡ true
    → is_derived e.environment_kind ≡ false
unfolding store_evidence
not_derived digest s e family role reason none db h =
    elim (Bool-cases (is_derived e.environment_kind)) [
      | inl derived ↦ cc (rw derived at h)
      | inr own ↦ own
    ]
not_derived digest s e family role reason (some i) db h = cc (
    created-fold_into i.id (print_of digest s e family) family role (is_derived e.environment_kind)
      (admission_of reason) e db db)

not_creates : (d : Decision) → is_folded d ≡ false → creates d ≡ true → ⊥
unfolding is_folded
not_creates (admitted a) h c = cc
not_creates (suppressed r) h c = cc
not_creates processing_error h c = cc
not_creates (duplicate_event n k) h c = cc

module _ (digest : String → String) (s : Settings) (e : Event) (db : Db) where
  -- An incident is created only from a known baseline environment, by a named actor, and by the
  -- failure of a registered assertion that is no control, or by browser telemetry.
  pub creation : creates (observe digest s e db).0 ≡ true → IsRegistered e
  creation =
      observe_rule digest s e db (λ d _. creates d ≡ true → IsRegistered e)
        (λ d no c. absurd (not_creates d no c)) (λ _ _ d no c. absurd (not_creates d no c))
        λ family role forced ok c. record {
          baseline_environment = (ok.known_kind, not_derived digest s e family role _ _ db c);
          named_actor = ok.has_actor;
          observed = elim ok.origin [
            | inl (asserted, found, plain, _, _) ↦ inl (asserted, plain, (family, found))
            | inr (from, _, _) ↦ inr from
          ];
        }
