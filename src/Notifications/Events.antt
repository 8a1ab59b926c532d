-- ===== src/Notifications/Events.antt =====
-- portal/notify.py, class Notifier: an event is published once.
use devin_automation.Prelude.{
  ℕ, suc, String, Bool, true, false, not, ◌&&◌, Option, none, some, List, [], ◌∷◌, ◌++◌, ◌≡◌, refl,
  ap, ◌∙◌, ◌⊎◌, inl, inr, subst, arith, any, any-last, map, ==_refl, ◌==◌, nat_eq, string_eq,
  if_rule,
}
use devin_automation.Notifications.Ledger.{
  RowState, sent, disabled, Row, Ledger, new_row, enqueue, settle, due, get, has_event,
}
use devin_automation.Notifications.Notifier.{
  Slack, Notifier, Sys, settled, attempt, publish_row, publish_recorded, publish, deliver_all,
  deliver_due, enabled, Card,
}
use devin_automation.Notifications.Delivery.{attempt-IsTry}
use devin_automation.Notifications.Runs.{Op, published, delivered, elsewhere, perform_all}

any-map :
    {A : Type 0} (p : A → Bool) (f : A → A) (xs : List A)
    → ((x : A) → p (f x) ≡ p x)
    → any p (map f xs) ≡ any p xs
any-map p f [] same = refl
any-map p f (x ∷ xs) same = ground (arith, same x, any-map p f xs same)

any-append :
    {A : Type 0} (p : A → Bool) (xs ys : List A) → any p xs ≡ true → any p (xs ++ ys) ≡ true
any-append p [] ys h = cc
any-append p (x ∷ xs) ys h = ground (arith, any-append p xs ys)

abbrev IsKnown : {W : Type 0} → String → Sys W → Type 0
IsKnown event_id s = any (has_event event_id) s.ledger.rows ≡ true

module _ {W : Type 0} (o : Slack W) (n : Notifier) (event_id : String) where
  attempt-IsKnown :
      (row : Row) (s : Sys W) → IsKnown event_id s → IsKnown event_id (attempt o n row s).1
  attempt-IsKnown row s h =
      let t = attempt-IsTry o n row s in
      rw t.rows (
        any-map (has_event event_id) t.change s.ledger.rows
          (λ r. ap (λ (e : String). e == event_id) (t.same_event r))
        ∙ h)

  settled-IsKnown :
      (id : ℕ) (state : RowState) (detail : String) (s : Sys W)
      → IsKnown event_id s
      → IsKnown event_id (settled o n id state detail none false s)
  unfolding settled settle
  settled-IsKnown id state detail s h =
      any-map (has_event event_id) _ s.ledger.rows (λ r.
        if_rule (λ (x : Row). (x.event_id == event_id) ≡ (r.event_id == event_id)) (r.id == id)
          (λ _. refl) (λ _. refl))
      ∙ h

  publish_row-IsKnown :
      (simulated_record : Bool) (row : Row) (s : Sys W)
      → IsKnown event_id s
      → IsKnown event_id (publish_row o n simulated_record row s).1
  unfolding publish_row
  publish_row-IsKnown simulated_record row s h =
      if_rule P (simulated_record && not n.simulated) (λ _. settled-IsKnown row.id disabled _ s h)
        λ _.
          if_rule P (not (enabled o n)) (λ _. settled-IsKnown row.id disabled _ s h)
            λ _. attempt-IsKnown row s h
    where
      P : RowState × Sys W → Type 0
      P = λ d. IsKnown event_id d.1

  -- A message of an event that is known changes nothing.
  publish_known :
      (kind text : String) (repair_id : Option ℕ) (simulated_record : Bool) (card : Option Card)
      (s : Sys W)
      → IsKnown event_id s
      → (publish o n event_id kind text repair_id simulated_record card s).1 ≡ s
  unfolding publish enqueue publish_recorded
  publish_known kind text repair_id simulated_record card s h = rw h (found (get event_id s.ledger))
    where
      found :
          (row : Option Row)
          → (elim row as (λ x. RowState × Sys W) [ none ↦ (sent, s) | some row ↦ (row.state, s) ]).1
            ≡ s
      found none = refl
      found (some row) = refl

  recorded-IsKnown :
      (event kind text : String) (repair_id : Option ℕ) (blocks : List String) (fallback : String)
      (simulated_record : Bool) (s : Sys W)
      → IsKnown event_id s ⊎ (event ≡ event_id)
      → let d = enqueue (o.clock s.world) event kind text repair_id blocks fallback s.ledger in
        IsKnown event_id
          (publish_recorded o n event simulated_record d.0 (record s { ledger = d.1 })).1
  unfolding publish_recorded enqueue
  recorded-IsKnown event kind text repair_id blocks fallback simulated_record s known =
      let row =
        new_row (o.clock s.world) s.ledger.next_row event kind text repair_id blocks fallback in
      if_rule
        (λ (d : Option Row × Ledger).
          IsKnown event_id
            (publish_recorded o n event simulated_record d.0 (record s { ledger = d.1 })).1)
        (any (has_event event) s.ledger.rows)
        (λ there. found (get event s.ledger) (either known there))
        (λ _.
          publish_row-IsKnown simulated_record row
            (record s {
              ledger = record (s.ledger) {
                rows = s.ledger.rows ++ row ∷ [];
                next_row = suc s.ledger.next_row;
              };
            })
            (added row refl known))
    where
      found :
          (row : Option Row)
          → IsKnown event_id s
          → IsKnown event_id
              (elim row as (λ x. RowState × Sys W) [
                | none ↦ (sent, s)
                | some row ↦ (row.state, s)
              ]).1
      found none h = h
      found (some row) h = h

      either :
          IsKnown event_id s ⊎ (event ≡ event_id)
          → any (has_event event) s.ledger.rows ≡ true
          → IsKnown event_id s
      either (inl h) there = h
      either (inr e) there = subst (λ (x : String). any (has_event x) s.ledger.rows ≡ true) e there

      added :
          (row : Row)
          → row.event_id ≡ event
          → IsKnown event_id s ⊎ (event ≡ event_id)
          → any (has_event event_id) (s.ledger.rows ++ row ∷ []) ≡ true
      added row own (inl h) = any-append (has_event event_id) s.ledger.rows (row ∷ []) h
      added row own (inr e) =
          any-last (has_event event_id) s.ledger.rows row (rw (own, e) (==_refl event_id))

  publish-IsKnown :
      (event kind text : String) (repair_id : Option ℕ) (simulated_record : Bool)
      (card : Option Card) (s : Sys W)
      → IsKnown event_id s ⊎ (event ≡ event_id)
      → IsKnown event_id (publish o n event kind text repair_id simulated_record card s).1
  unfolding publish
  publish-IsKnown event kind text repair_id simulated_record card s known =
      recorded-IsKnown event kind _ repair_id _ _ simulated_record s known

  deliver_all-IsKnown :
      (rows : List Row) (s : Sys W)
      → IsKnown event_id s
      → IsKnown event_id (deliver_all o n rows s).1
  unfolding deliver_all
  deliver_all-IsKnown [] s h = h
  deliver_all-IsKnown (row ∷ rest) s h =
      deliver_all-IsKnown rest (attempt o n row s).1 (attempt-IsKnown row s h)

  deliver_due-IsKnown : (s : Sys W) → IsKnown event_id s → IsKnown event_id (deliver_due o n s).1
  unfolding deliver_due
  deliver_due-IsKnown s h =
      if_rule (λ (d : List RowState × Sys W). IsKnown event_id d.1) (not (enabled o n)) (λ _. h)
        λ _. deliver_all-IsKnown (due (o.clock s.world) s.ledger) s h

  perform_all-IsKnown :
      (ops : List (Op W)) (s : Sys W)
      → IsKnown event_id s
      → IsKnown event_id (perform_all o n ops s)
  unfolding perform_all
  perform_all-IsKnown [] s h = h
  perform_all-IsKnown (published event kind text repair_id simulated_record card ∷ rest) s h =
      perform_all-IsKnown rest _
        (publish-IsKnown event kind text repair_id simulated_record card s (inl h))
  perform_all-IsKnown (delivered ∷ rest) s h = perform_all-IsKnown rest _ (deliver_due-IsKnown s h)
  perform_all-IsKnown (elsewhere change ∷ rest) s h = perform_all-IsKnown rest _ h

  -- An event is published once: whatever is published and delivered after it, a further message of that event,
  -- of whatever kind and text, changes neither the ledger nor the requests that were made.
  pub publish-once :
      (kind text : String) (repair_id : Option ℕ) (simulated_record : Bool) (card : Option Card)
      (ops : List (Op W)) (kind' text' : String) (repair_id' : Option ℕ) (simulated_record' : Bool)
      (card' : Option Card) (s : Sys W)
      → let first = publish o n event_id kind text repair_id simulated_record card s in
        (publish o n event_id kind' text' repair_id' simulated_record' card'
          (perform_all o n ops first.1)).1
        ≡ perform_all o n ops first.1
  publish-once kind text repair_id simulated_record card ops kind' text' repair_id'
        simulated_record' card' s =
      publish_known kind' text' repair_id' simulated_record' card' _ (
        perform_all-IsKnown ops _
          (publish-IsKnown event_id kind text repair_id simulated_record card s (inr refl)))
