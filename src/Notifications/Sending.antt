-- ===== src/Notifications/Sending.antt =====
-- portal/notify.py, class Notifier: which requests a notifier makes, and which it does not.
use devin_automation.Prelude.{
  ℕ, String, Bool, true, false, not, ◌&&◌, ◌||◌, Option, none, some, List, [], ◌∷◌, ◌++◌, ◌≡◌, refl,
  ap, ◌∙◌, ◌⊎◌, inl, inr, map, keep, leb, nat_eq, string_eq, if◌then◌else◌, if_rule, is_blank,
}
use devin_automation.Notifications.Ledger.{
  RowState, pending, sent, Row, Ledger, same_state, enqueue, due, get,
}
use devin_automation.Notifications.Notifier.{
  Slack, Notifier, Arguments, Sys, settled, attempt, publish_row, publish_recorded, publish,
  deliver_all, deliver_due, enabled, new_notifier, Card, is_simulated, bot_is_simulated,
  destination_problem, simulated_refusal,
}
use devin_automation.Notifications.Delivery.{attempt-IsTry}
use devin_automation.Notifications.Runs.{Op, published, delivered, elsewhere, perform_all}

-- A notifier that speaks for simulated repairs may send only if its transport is simulated, and its bot too,
-- if it has one.
pub new_notifier-is_simulated :
    {W : Type 0} (o : Slack W) (a : Arguments)
    → a.simulated ≡ true
    → enabled o (new_notifier o a) ≡ true
    → (is_simulated a.transport ≡ true) × (bot_is_simulated a.bot ≡ true)
unfolding new_notifier enabled
new_notifier-is_simulated o a simulated may_send =
    both a.simulated (is_simulated a.transport) (bot_is_simulated a.bot) (destination_problem o a)
      simulated (last _ _ may_send)
  where
    last : (b c : Bool) → (b && c) ≡ true → c ≡ true
    last true c h = h
    last false c h = cc

    both :
        (sim wire bot : Bool) (problem : String)
        → sim ≡ true
        → is_blank (if sim && not wire || sim && not bot then simulated_refusal else problem) ≡ true
        → (wire ≡ true) × (bot ≡ true)
    both false wire bot problem e h = cc
    both true true true problem e h = (refl, refl)
    both true true false problem e h = cc
    both true false bot problem e h = cc

module _ {W : Type 0} (o : Slack W) (n : Notifier) where
  -- Why a message is not sent.
  abbrev IsUnsent : Bool → Type 0
  IsUnsent simulated_record = ((simulated_record && not n.simulated) ≡ true) ⊎ (enabled o n ≡ false)

  publish_row-posts :
      (simulated_record : Bool) (row : Row) (s : Sys W)
      → IsUnsent simulated_record
      → (publish_row o n simulated_record row s).1.posts ≡ s.posts
  unfolding publish_row settled
  publish_row-posts simulated_record row s (inl refused) = rw refused refl
  publish_row-posts simulated_record row s (inr off) =
      if_rule (λ (d : RowState × Sys W). d.1.posts ≡ s.posts) (simulated_record && not n.simulated)
        (λ _. refl)
        λ _.
          if_rule (λ (d : RowState × Sys W). d.1.posts ≡ s.posts) (not (enabled o n)) (λ _. refl)
            (λ on. absurd (cc (rw off at on)))

  recorded-posts :
      (event : String) (simulated_record : Bool) (row : Option Row) (s : Sys W)
      → IsUnsent simulated_record
      → (publish_recorded o n event simulated_record row s).1.posts ≡ s.posts
  unfolding publish_recorded
  recorded-posts event simulated_record (some row) s off =
      publish_row-posts simulated_record row s off
  recorded-posts event simulated_record none s off = found (get event s.ledger)
    where
      found :
          (row : Option Row)
          → (elim row as (λ x. RowState × Sys W) [
            | none ↦ (sent, s)
            | some row ↦ (row.state, s)
          ]).1.posts
            ≡ s.posts
      found none = refl
      found (some row) = refl

  enqueued-posts :
      (event kind text : String) (repair_id : Option ℕ) (blocks : List String) (fallback : String)
      (simulated_record : Bool) (s : Sys W)
      → IsUnsent simulated_record
      → let d = enqueue (o.clock s.world) event kind text repair_id blocks fallback s.ledger in
        (publish_recorded o n event simulated_record d.0 (record s { ledger = d.1 })).1.posts
        ≡ s.posts
  enqueued-posts event kind text repair_id blocks fallback simulated_record s off =
      let d = enqueue (o.clock s.world) event kind text repair_id blocks fallback s.ledger in
      recorded-posts event simulated_record d.0 (record s { ledger = d.1 }) off

  -- `publish` makes no request for a record of a simulated repair, unless the notifier is simulated, and none
  -- where the notifier may not send.
  pub publish-posts :
      (event kind text : String) (repair_id : Option ℕ) (simulated_record : Bool)
      (card : Option Card) (s : Sys W)
      → IsUnsent simulated_record
      → (publish o n event kind text repair_id simulated_record card s).1.posts ≡ s.posts
  unfolding publish
  publish-posts event kind text repair_id simulated_record card s off =
      enqueued-posts event kind _ repair_id _ _ simulated_record s off

  deliver_due-posts : (s : Sys W) → enabled o n ≡ false → (deliver_due o n s).1.posts ≡ s.posts
  unfolding deliver_due
  deliver_due-posts s off = rw off refl

-- A notifier that may not send makes no request, whatever is published and delivered.
pub perform_all-posts :
    {W : Type 0} (o : Slack W) (n : Notifier) (ops : List (Op W)) (s : Sys W)
    → enabled o n ≡ false
    → (perform_all o n ops s).posts ≡ s.posts
unfolding perform_all
perform_all-posts o n [] s off = refl
perform_all-posts o n (published event kind text repair_id simulated_record card ∷ rest) s off =
    perform_all-posts o n rest _ off
    ∙ publish-posts o n event kind text repair_id simulated_record card s (inr off)
perform_all-posts o n (delivered ∷ rest) s off =
    perform_all-posts o n rest _ off ∙ deliver_due-posts o n s off
perform_all-posts o n (elsewhere change ∷ rest) s off = perform_all-posts o n rest _ off

append-snoc : (xs : List ℕ) (y : ℕ) (zs : List ℕ) → (xs ++ y ∷ []) ++ zs ≡ xs ++ y ∷ zs
append-snoc [] y zs = refl
append-snoc (x ∷ xs) y zs = ap (λ (l : List ℕ). x ∷ l) (append-snoc xs y zs)

append-nil : (xs : List ℕ) → xs ≡ xs ++ []
append-nil [] = refl
append-nil (x ∷ xs) = ap (λ (l : List ℕ). x ∷ l) (append-nil xs)

deliver_all-map :
    {W : Type 0} (o : Slack W) (n : Notifier) (rows : List Row) (s : Sys W)
    → (deliver_all o n rows s).1.posts ≡ s.posts ++ map (λ r. r.id) rows
unfolding deliver_all
deliver_all-map o n [] s = append-nil s.posts
deliver_all-map o n (row ∷ rest) s =
    deliver_all-map o n rest (attempt o n row s).1
    ∙ ap (λ (sent : List ℕ). sent ++ map (λ r. r.id) rest) (attempt-IsTry o n row s).posts
    ∙ append-snoc s.posts row.id (map (λ r. r.id) rest)

abbrev is_waiting : RowState → Bool
is_waiting pending = true
is_waiting _ = false

-- Pending, and its next try is not after `now`.
abbrev pub is_due : ℕ → Row → Bool
is_due now row = is_waiting row.state && leb row.next_try_at now

keep-is_due :
    (now : ℕ) (rows : List Row)
    → keep (λ r. same_state r.state pending && leb r.next_try_at now) rows ≡ keep (is_due now) rows
keep-is_due now [] = refl
keep-is_due now (row ∷ rest) = rw (same row.state, keep-is_due now rest) refl
  where
    same :
        (state : RowState)
        → (same_state state pending && leb row.next_try_at now)
          ≡ (is_waiting state && leb row.next_try_at now)
    same pending = refl
    same _ = refl

due-is_due : (now : ℕ) (l : Ledger) → due now l ≡ keep (is_due now) l.rows
unfolding due
due-is_due now l = keep-is_due now l.rows

-- A notifier that may send makes exactly one request for each row of its ledger that is pending and whose next
-- try is not later than the clock, in the order of the rows, whatever became of the ones before: no due message
-- waits for another.
pub deliver_due-map :
    {W : Type 0} (o : Slack W) (n : Notifier) (s : Sys W)
    → enabled o n ≡ true
    → (deliver_due o n s).1.posts
      ≡ s.posts ++ map (λ r. r.id) (keep (is_due (o.clock s.world)) s.ledger.rows)
unfolding deliver_due
deliver_due-map o n s may_send =
    rw may_send (deliver_all-map o n (due (o.clock s.world) s.ledger) s)
    ∙ ap (λ (rows : List Row). s.posts ++ map (λ r. r.id) rows)
        (due-is_due (o.clock s.world) s.ledger)
