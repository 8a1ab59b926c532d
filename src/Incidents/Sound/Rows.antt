-- ===== src/Incidents/Sound/Rows.antt =====
-- The invariant of the incident tables, and how each write to a table keeps it.
use devin_automation.Prelude.{
  ℕ, suc, ◌+◌, ◌≤◌, ◌<◌, String, Bool, false, ◌&&◌, none, List, [], ◌∷◌, ◌++◌, map, ◌≡◌, refl,
  subst₂, eq_iff, arith, ◌==◌, nat_eq, string_eq, count_if, count_if-append, count_if-snoc,
  count_if-of_any, count_if-of_find, count_if-map, any, find, All, All-append, All-map, All-imp,
  Bool-cases, inl, inr, if◌then◌else◌,
}
use devin_automation.Incidents.Types.{Event, Incident, Evidence, Occurrence, Role, Problem, Db}
use devin_automation.Incidents.Observe.{
  record_error, has_event, has_occurrence, touch, add_incident, add_evidence, add_occurrence,
}

abbrev pub with_key : String → Incident → Bool
with_key key i = i.fingerprint == key

abbrev pub with_id : ℕ → Incident → Bool
with_id n i = i.id == n

abbrev pub of_event : String → Evidence → Bool
of_event x row = row.event_id == x

abbrev pub of_incident : ℕ → Occurrence → Bool
of_incident n o = o.incident_id == n

abbrev pub of_trace : ℕ → String → Occurrence → Bool
of_trace n t o = o.incident_id == n && o.trace_id == t

-- Each incident counts its occurrence rows, which are one for each trace; fingerprints and event
-- ids are unique, and no row is ahead of the id counter.
pub record IsSound (db : Db) : Type 0 where
  pub ids_below : All (λ i. i.id < db.next_id) db.incidents
  pub owners_below : All (λ o. o.incident_id < db.next_id) db.occurrences
  pub keys_distinct : (key : String) → count_if (with_key key) db.incidents ≤ 1
  pub ids_distinct : (n : ℕ) → count_if (with_id n) db.incidents ≤ 1
  pub events_distinct : (x : String) → count_if (of_event x) db.events ≤ 1
  pub traces_distinct : (n : ℕ) (t : String) → count_if (of_trace n t) db.occurrences ≤ 1
  pub counted :
      All (λ i. i.occurrence_count ≡ count_if (of_incident i.id) db.occurrences) db.incidents

pub IsSound-error :
    (x : String) (p : Problem) (db : Db) → IsSound db → IsSound (record_error x p db)
unfolding record_error
IsSound-error x p db h = record {
  ids_below = h.ids_below;
  owners_below = h.owners_below;
  keys_distinct = h.keys_distinct;
  ids_distinct = h.ids_distinct;
  events_distinct = h.events_distinct;
  traces_distinct = h.traces_distinct;
  counted = h.counted;
}

fresh_id : (n : ℕ) (xs : List Incident) → All (λ i. i.id < n) xs → count_if (with_id n) xs ≡ 0
fresh_id n [] h = refl
fresh_id n (x ∷ xs) h = ground (arith, fresh_id n xs h.1)

fresh_owner :
    (n : ℕ) (xs : List Occurrence)
    → All (λ o. o.incident_id < n) xs
    → count_if (of_incident n) xs ≡ 0
fresh_owner n [] h = refl
fresh_owner n (x ∷ xs) h = ground (arith, fresh_owner n xs h.1)

-- Rows below the counter stay below the next one.
below_suc :
    {A : Type 0} (f : A → ℕ) (n : ℕ) (xs : List A)
    → All (λ x. f x < n) xs
    → All (λ x. f x < suc n) xs
below_suc f n xs h = All-imp (λ x. f x < n) (λ x. f x < suc n) xs (λ x b. omega arith) h

-- A new incident takes the next id, has a new fingerprint and has no occurrence yet.
pub IsSound-add_incident :
    (i : Incident) (db : Db)
    → i.id ≡ db.next_id
    → i.occurrence_count ≡ 0
    → find (with_key i.fingerprint) db.incidents ≡ none
    → IsSound db
    → IsSound (add_incident i db)
unfolding add_incident
IsSound-add_incident i db own none_yet new h = record {
  ids_below =
      All-append (λ j. j.id < suc db.next_id) db.incidents (i ∷ [])
        (below_suc (λ j. j.id) db.next_id db.incidents h.ids_below) (omega arith, tt);
  owners_below = below_suc (λ o. o.incident_id) db.next_id db.occurrences h.owners_below;
  keys_distinct =
      count_if-snoc (λ j. j.fingerprint) i db.incidents (count_if-of_find _ db.incidents new)
        h.keys_distinct;
  ids_distinct =
      count_if-snoc (λ j. j.id) i db.incidents
        (rw own (fresh_id db.next_id db.incidents h.ids_below)) h.ids_distinct;
  events_distinct = h.events_distinct;
  traces_distinct = h.traces_distinct;
  counted =
      All-append (λ j. j.occurrence_count ≡ count_if (of_incident j.id) db.occurrences) db.incidents
        (i ∷ []) h.counted
        (rw (own, none_yet, fresh_owner db.next_id db.occurrences h.owners_below) refl, tt);
}

pub IsSound-add_evidence :
    (id : ℕ) (role : Role) (e : Event) (db : Db)
    → has_event e.event_id db ≡ false
    → IsSound db
    → IsSound (add_evidence id role e db)
unfolding add_evidence has_event
IsSound-add_evidence id role e db new h = record {
  ids_below = h.ids_below;
  owners_below = h.owners_below;
  keys_distinct = h.keys_distinct;
  ids_distinct = h.ids_distinct;
  events_distinct =
      count_if-snoc (λ row. row.event_id) _ db.events (count_if-of_any _ db.events new)
        h.events_distinct;
  traces_distinct = h.traces_distinct;
  counted = h.counted;
}

-- The UPDATE of one incident keeps its id and its fingerprint.
touch_id : (id more ts : ℕ) (i : Incident) → (touch id more ts i).id ≡ i.id
unfolding touch
touch_id id more ts i = ground arith

touch_key : (id more ts : ℕ) (i : Incident) → (touch id more ts i).fingerprint ≡ i.fingerprint
unfolding touch
touch_key id more ts i = ground arith

module _ (id more ts : ℕ) (db : Db) (h : IsSound db) where
  touched : List Incident
  unfolding touch
  touched = map (touch id more ts) db.incidents

  touched_below : All (λ i. i.id < db.next_id) touched
  unfolding touched
  touched_below =
      All-map (λ i. i.id < db.next_id) (λ i. i.id < db.next_id) (touch id more ts) db.incidents
        (λ i b. rw (touch_id id more ts i) b) h.ids_below

  touched_keys : (key : String) → count_if (with_key key) touched ≤ 1
  unfolding touched
  touched_keys key =
      rw
        (count_if-map (with_key key) (touch id more ts) db.incidents
          (λ i. rw (touch_key id more ts i)))
        (h.keys_distinct key)

  touched_ids : (n : ℕ) → count_if (with_id n) touched ≤ 1
  unfolding touched
  touched_ids n =
      rw
        (count_if-map (with_id n) (touch id more ts) db.incidents (λ i. rw (touch_id id more ts i)))
        (h.ids_distinct n)

new_owner :
    (id n ts : ℕ) (trace : String) (os : List Occurrence)
    → count_if (of_incident n) (os ++ record { incident_id = id; trace_id = trace; ts = ts } ∷ [])
      ≡ count_if (of_incident n) os + (if id == n then 1 else 0)
new_owner id n ts trace os = ground (
  arith,
  count_if-append (of_incident n) os (record { incident_id = id; trace_id = trace; ts = ts } ∷ []),
)

new_trace :
    (id ts : ℕ) (trace : String) (os : List Occurrence)
    → any (of_trace id trace) os ≡ false
    → ((n : ℕ) (t : String) → count_if (of_trace n t) os ≤ 1)
    → (n : ℕ) (t : String)
    → count_if (of_trace n t) (os ++ record { incident_id = id; trace_id = trace; ts = ts } ∷ [])
      ≤ 1
new_trace id ts trace os new distinct n t = elim (Bool-cases (id == n && trace == t)) [
  | inl same ↦
      let by_id : id ≡ n = ground arith in
      let by_trace : trace ≡ t = ground (arith, eq_iff trace t) in
      let none_of : count_if (of_trace n t) os ≡ 0 =
        subst₂ (λ m u. count_if (of_trace m u) os ≡ 0) by_id by_trace
          (count_if-of_any (of_trace id trace) os new) in
      ground (
        arith,
        count_if-append (of_trace n t) os
            (record { incident_id = id; trace_id = trace; ts = ts } ∷ []),
      )
  | inr other ↦ ground (
    arith,
    distinct n t,
    count_if-append (of_trace n t) os (record { incident_id = id; trace_id = trace; ts = ts } ∷ []),
  )
]

-- The counts of the incidents after the UPDATE and, for a new trace, the INSERT.
counted_again :
    (id ts : ℕ) (is : List Incident) (os : List Occurrence)
    → All (λ i. i.occurrence_count ≡ count_if (of_incident i.id) os) is
    → All (λ i. i.occurrence_count ≡ count_if (of_incident i.id) os) (map (touch id 0 ts) is)
counted_again id ts is os h =
    All-map (λ i. i.occurrence_count ≡ count_if (of_incident i.id) os) _ (touch id 0 ts) is
      (λ i c. unfold touch in ground arith) h

counted_more :
    (id ts : ℕ) (trace : String) (is : List Incident) (os : List Occurrence)
    → All (λ i. i.occurrence_count ≡ count_if (of_incident i.id) os) is
    → All
        (λ i.
          i.occurrence_count
          ≡ count_if
              (of_incident i.id)
              (os ++ record { incident_id = id; trace_id = trace; ts = ts } ∷ []))
        (map (touch id 1 ts) is)
unfolding touch
counted_more id ts trace [] os h = tt
counted_more id ts trace (i ∷ is) os h =
    (ground (arith, new_owner id i.id ts trace os), counted_more id ts trace is os h.1)

pub IsSound-add_occurrence :
    (id : ℕ) (e : Event) (db : Db) → id < db.next_id → IsSound db → IsSound (add_occurrence id e db)
unfolding add_occurrence touched
IsSound-add_occurrence id e db known h = elim (Bool-cases (has_occurrence id e.trace_id db)) [
  | inl old ↦ rw old (record {
    ids_below = touched_below id 0 e.ts db h;
    owners_below = h.owners_below;
    keys_distinct = touched_keys id 0 e.ts db h;
    ids_distinct = touched_ids id 0 e.ts db h;
    events_distinct = h.events_distinct;
    traces_distinct = h.traces_distinct;
    counted = counted_again id e.ts db.incidents db.occurrences h.counted;
  })
  | inr new ↦ rw new (record {
    ids_below = touched_below id 1 e.ts db h;
    owners_below =
        All-append (λ o. o.incident_id < db.next_id) db.occurrences _ h.owners_below (known, tt);
    keys_distinct = touched_keys id 1 e.ts db h;
    ids_distinct = touched_ids id 1 e.ts db h;
    events_distinct = h.events_distinct;
    traces_distinct = new_trace id e.ts e.trace_id db.occurrences new h.traces_distinct;
    counted = counted_more id e.ts e.trace_id db.incidents db.occurrences h.counted;
  })
]
