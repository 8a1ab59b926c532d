-- ===== src/Notifications/Delivery.antt =====
-- portal/notify.py, class Notifier: what one attempt to deliver a row changes.
use devin_automation.Prelude.{
  ℕ, suc, ◌+◌, ◌<◌, String, Bool, true, false, Option, none, some, List, [], ◌∷◌, ◌++◌, ◌≡◌, refl,
  sym, ap, ◌∙◌, arith, map, is_blank, leb, ◌==◌, nat_eq, if◌then◌else◌, if_rule,
}
use devin_automation.Notifications.Ledger.{
  RowState, pending, sent, failed, unknown, Row, Ledger, change_row, settle, record_ts,
  remember_thread, add_thread,
}
use devin_automation.Notifications.Notifier.{
  ambiguous, refused, rejected, other, Answer, answered, lost, Slack, Notifier, Sys, settled, retry,
  unanswered, after_request, after_post, remembered, attempt, has_bot, backoff,
}

-- One request for a row: the row counts one attempt more, and is pending again only below the bound; the
-- other rows stay.
pub record IsTry {W : Type 0} (n : Notifier) (row : Row) (before after : Sys W) : Type 0 where
  pub change : Row → Row
  pub rows : after.ledger.rows ≡ map change before.ledger.rows
  pub next : after.ledger.next_row ≡ before.ledger.next_row
  pub posts : after.posts ≡ before.posts ++ row.id ∷ []
  pub same_id : (r : Row) → (change r).id ≡ r.id
  pub same_event : (r : Row) → (change r).event_id ≡ r.event_id
  pub others : (r : Row) → (r.id == row.id) ≡ false → change r ≡ r
  pub tried :
      (r : Row)
      → (r.id == row.id) ≡ true
      → ((change r).attempts ≡ suc r.attempts)
        × ((change r).state ≡ pending → row.attempts + 1 < n.max_attempts)

-- The rows after a settlement that counts as an attempt.
abbrev tried_row : ℕ → ℕ → RowState → String → Option ℕ → Row → Row
tried_row now id state detail next_try = change_row id λ r. record r {
  state = state;
  detail = detail;
  attempts = suc r.attempts;
  next_try_at = elim next_try [ none ↦ r.next_try_at | some at ↦ at ];
  updated_at = now;
}

map-map : {A : Type 0} (f g : A → A) (xs : List A) → map g (map f xs) ≡ map (λ x. g (f x)) xs
map-map f g [] = refl
map-map f g (x ∷ xs) = ap (λ ys. g (f x) ∷ ys) (map-map f g xs)

map-same : {A : Type 0} (xs : List A) → xs ≡ map (λ x. x) xs
map-same [] = refl
map-same (x ∷ xs) = ap (λ ys. x ∷ ys) (map-same xs)

-- A change of the rows that leaves their ids, events and counts, and the rows of another id.
record IsHarmless (id : ℕ) (first : Row → Row) : Type 0 where
  same_id : (r : Row) → (first r).id ≡ r.id
  same_event : (r : Row) → (first r).event_id ≡ r.event_id
  same_count : (r : Row) → (first r).attempts ≡ r.attempts
  others : (r : Row) → (r.id == id) ≡ false → first r ≡ r

IsHarmless-same : (id : ℕ) → IsHarmless id (λ r. r)
IsHarmless-same id = record {
  same_id = λ r. refl;
  same_event = λ r. refl;
  same_count = λ r. refl;
  others = λ r e. refl;
}

-- What remembering a thread leaves.
abbrev SameRows : {W : Type 0} → Sys W → Sys W → Type 0
SameRows s t =
    (t.ledger.rows ≡ s.ledger.rows) × (t.ledger.next_row ≡ s.ledger.next_row) × (t.posts ≡ s.posts)

SameRows-remembered :
    {W : Type 0} (o : Slack W) (n : Notifier) (row : Row) (thread_ts ts : String) (s : Sys W)
    → SameRows s (remembered o n row thread_ts ts s)
unfolding remembered remember_thread add_thread
SameRows-remembered o n row thread_ts ts s = kept row.repair_id
  where
    kept :
        (repair_id : Option ℕ)
        → SameRows s (elim repair_id [
          | none ↦ s
          | some id ↦
              if is_blank thread_ts
              then record s { ledger = remember_thread (o.clock s.world) id n.channel ts s.ledger }
              else s
        ])
    kept none = (refl, refl, refl)
    kept (some id) =
        if_rule (SameRows s) (is_blank thread_ts)
          (λ _.
            if_rule (λ (l : Ledger). SameRows s (record s { ledger = l })) (is_blank ts)
              (λ _. (refl, refl, refl))
              λ _.
                if_rule (λ (l : Ledger). SameRows s (record s { ledger = l })) _
                  (λ _. (refl, refl, refl)) (λ _. (refl, refl, refl)))
          (λ _. (refl, refl, refl))

module _ {W : Type 0} (o : Slack W) (n : Notifier) (row : Row) (before : Sys W) where
  IsTry-settled :
      (middle : Sys W) (first : Row → Row) (state : RowState) (detail : String)
      (next_try : Option ℕ)
      → IsHarmless row.id first
      → middle.ledger.rows ≡ map first before.ledger.rows
      → middle.ledger.next_row ≡ before.ledger.next_row
      → middle.posts ≡ before.posts ++ row.id ∷ []
      → (state ≡ pending → row.attempts + 1 < n.max_attempts)
      → IsTry n row before (settled o n row.id state detail next_try true middle)
  unfolding settled settle
  IsTry-settled middle first state detail next_try harmless rows next posts bounded = record {
    change = λ r. last (first r);
    rows = ap (map last) rows ∙ map-map first last before.ledger.rows;
    next = next;
    posts = posts;
    same_id = λ r.
        if_rule (λ (x : Row). x.id ≡ (first r).id) ((first r).id == row.id) (λ _. refl) (λ _. refl)
        ∙ harmless.same_id r;
    same_event = λ r.
        if_rule (λ (x : Row). x.event_id ≡ (first r).event_id) ((first r).id == row.id) (λ _. refl)
          (λ _. refl)
        ∙ harmless.same_event r;
    others = λ r e. ap last (harmless.others r e) ∙ rw e refl;
    tried = λ r e. (
      hit r (rw (harmless.same_id r) e) ∙ ap suc (harmless.same_count r),
      λ p. bounded (sym (state_of r (rw (harmless.same_id r) e)) ∙ p),
    );
  }
    where
      last : Row → Row
      last = tried_row (o.clock middle.world) row.id state detail next_try

      hit :
          (r : Row)
          → ((first r).id == row.id) ≡ true
          → (last (first r)).attempts ≡ suc (first r).attempts
      hit r e = rw e refl

      state_of : (r : Row) → ((first r).id == row.id) ≡ true → (last (first r)).state ≡ state
      state_of r e = rw e refl

  -- From here on the request was made.
  module _ (w : W) where
    abbrev requested : Sys W
    requested = record before { world = w; posts = before.posts ++ row.id ∷ [] }

    plain :
        (state : RowState) (detail : String) (next_try : Option ℕ)
        → (state ≡ pending → row.attempts + 1 < n.max_attempts)
        → IsTry n row before (settled o n row.id state detail next_try true requested)
    plain state detail next_try bounded =
        IsTry-settled requested (λ r. r) state detail next_try (IsHarmless-same row.id)
          (map-same before.ledger.rows) refl refl bounded

    IsTry-retry :
        (detail : String) → IsTry n row before (retry o n row.id row.attempts detail requested).1
    unfolding retry
    IsTry-retry detail =
        if_rule (λ (d : RowState × Sys W). IsTry n row before d.1)
          (leb n.max_attempts (row.attempts + 1)) (λ _. plain failed _ none λ p. absurd (cc p))
          (λ below.
            plain pending _ (some (o.clock requested.world + backoff (row.attempts + 1)))
              λ p. ground arith)

    IsTry-unanswered :
        (detail : String) → IsTry n row before (unanswered o n row.id detail requested).1
    unfolding unanswered
    IsTry-unanswered detail = plain unknown _ none λ p. absurd (cc p)

    IsTry-request :
        (answer : Answer String) → IsTry n row before (after_request o n row answer requested).1
    unfolding after_request
    IsTry-request (answered error) =
        if_rule (λ (d : RowState × Sys W). IsTry n row before d.1) (is_blank error)
          (λ _. plain sent "" none λ p. absurd (cc p)) (λ _. IsTry-retry error)
    IsTry-request (lost (ambiguous text)) = IsTry-unanswered text
    IsTry-request (lost (refused text)) = IsTry-retry _
    IsTry-request (lost (rejected text)) = IsTry-retry _
    IsTry-request (lost (other name)) = IsTry-retry name

    with_ts : String → Sys W
    with_ts ts = record requested { ledger = record_ts row.id ts requested.ledger }

    ts_row : Bool → String → Row → Row
    ts_row true ts r = r
    ts_row false ts r = change_row row.id (λ (x : Row). record x { ts = ts }) r

    IsHarmless-ts_row : (blank : Bool) (ts : String) → IsHarmless row.id (ts_row blank ts)
    unfolding ts_row
    IsHarmless-ts_row true ts = IsHarmless-same row.id
    IsHarmless-ts_row false ts = record {
      same_id = λ r. if_rule (λ (x : Row). x.id ≡ r.id) (r.id == row.id) (λ _. refl) (λ _. refl);
      same_event = λ r.
          if_rule (λ (x : Row). x.event_id ≡ r.event_id) (r.id == row.id) (λ _. refl) (λ _. refl);
      same_count = λ r.
          if_rule (λ (x : Row). x.attempts ≡ r.attempts) (r.id == row.id) (λ _. refl) (λ _. refl);
      others = λ r e. rw e refl;
    }

    rows-with_ts :
        (ts : String) → (with_ts ts).ledger.rows ≡ map (ts_row (is_blank ts) ts) before.ledger.rows
    unfolding with_ts ts_row record_ts
    rows-with_ts ts = either (is_blank ts)
      where
        either :
            (blank : Bool)
            → (if blank then before.ledger else record (before.ledger) {
              rows = map (change_row row.id (λ (x : Row). record x { ts = ts })) before.ledger.rows;
            }).rows
              ≡ map (ts_row blank ts) before.ledger.rows
        either true = map-same before.ledger.rows
        either false = refl

    next_row-with_ts : (ts : String) → (with_ts ts).ledger.next_row ≡ before.ledger.next_row
    unfolding with_ts record_ts
    next_row-with_ts ts =
        if_rule (λ (l : Ledger). l.next_row ≡ before.ledger.next_row) (is_blank ts) (λ _. refl)
          (λ _. refl)

    IsTry-post :
        (thread_ts : String) (answer : Answer String)
        → IsTry n row before (after_post o n row thread_ts answer requested).1
    unfolding after_post with_ts
    IsTry-post thread_ts (answered ts) =
        IsTry-settled (remembered o n row thread_ts ts (with_ts ts)) (ts_row (is_blank ts) ts) sent
          "" none (IsHarmless-ts_row (is_blank ts) ts) (rows_kept.0 ∙ rows-with_ts ts)
          (rows_kept.1 ∙ next_row-with_ts ts) rows_kept.2 (λ p. absurd (cc p))
      where
        rows_kept : SameRows (with_ts ts) (remembered o n row thread_ts ts (with_ts ts))
        rows_kept = SameRows-remembered o n row thread_ts ts (with_ts ts)
    IsTry-post thread_ts (lost (ambiguous text)) = IsTry-unanswered text
    IsTry-post thread_ts (lost (refused text)) = IsTry-retry _
    IsTry-post thread_ts (lost (rejected text)) = IsTry-retry _
    IsTry-post thread_ts (lost (other name)) = IsTry-retry name

  -- `_attempt` makes one request for its row, over whichever wire, and settles that row only.
  pub attempt-IsTry : IsTry n row before (attempt o n row before).1
  unfolding attempt
  attempt-IsTry =
      if_rule (λ (d : RowState × Sys W). IsTry n row before d.1) (has_bot n.bot)
        (λ _. IsTry-post (o.post _ _ _ before.world).1 _ (o.post _ _ _ before.world).0)
        (λ _. IsTry-request (o.request _ _ _ before.world).1 (o.request _ _ _ before.world).0)
