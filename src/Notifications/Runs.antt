-- ===== src/Notifications/Runs.antt =====
-- portal/notify.py, class Notifier: any sequence of its operations.
use devin_automation.Prelude.{
  ℕ, suc, ◌≤◌, ◌<◌, String, Bool, true, false, not, ◌&&◌, Option, none, some, List, [], ◌∷◌, ◌++◌,
  ◌≡◌, refl, ap, ◌∙◌, arith, keep, any, All, All-append, All-imp, count_if, count_if-snoc,
  count_if-none, ==_refl, ◌==◌, nat_eq, string_eq, if_rule, Bool-cases, inl, inr,
}
use devin_automation.Notifications.Ledger.{
  RowState, pending, sent, failed, unknown, disabled, same_state, Row, Ledger, new_row, enqueue,
  due, get, has_event,
}
use devin_automation.Notifications.Notifier.{
  Slack, Notifier, Sys, publish_recorded, publish, deliver_due, enabled, Card,
}
use devin_automation.Notifications.Bounded.{
  has_id, IsSound, IsKept, HasState, Current, Queue, All-both, publish_row-IsKept,
  deliver_all-IsKept,
}

-- An operation of a notifier, or whatever happens outside between two.
pub data Op (W : Type 0) : Type 0 where
  published : String → String → String → Option ℕ → Bool → Option Card → Op W
  delivered : Op W
  elsewhere : (W → W) → Op W

unfoldable pub perform : {W : Type 0} → Slack W → Notifier → Op W → Sys W → Sys W
perform o n (published event_id kind text repair_id simulated_record card) s =
    (publish o n event_id kind text repair_id simulated_record card s).1
perform o n delivered s = (deliver_due o n s).1
perform o n (elsewhere change) s = record s { world = change s.world }

unfoldable pub perform_all : {W : Type 0} → Slack W → Notifier → List (Op W) → Sys W → Sys W
unfolding perform
perform_all o n [] s = s
perform_all o n (op ∷ rest) s = perform_all o n rest (perform o n op s)

-- No two rows of one id.
Distinct : List Row → Type 0
Distinct [] = Unit
Distinct (x ∷ xs) = All (λ y. (y.id == x.id) ≡ false) xs × Distinct xs

All-none : (p : Row → Bool) (xs : List Row) → count_if p xs ≡ 0 → All (λ x. p x ≡ false) xs
All-none p [] h = tt
All-none p (x ∷ xs) h = elim (Bool-cases (p x)) [
  | inl hit ↦ absurd (ground (arith, hit))
  | inr miss ↦ (miss, All-none p xs (ground (arith, miss)))
]

Distinct-rows : (xs : List Row) → ((k : ℕ) → count_if (has_id k) xs ≤ 1) → Distinct xs
unfolding Distinct
Distinct-rows [] h = tt
Distinct-rows (x ∷ xs) h =
    let own : has_id x.id x ≡ true = ==_refl x.id in
    (
      All-none (has_id x.id) xs (ground (arith, h x.id, own)),
      Distinct-rows xs λ k. ground (arith, h k),
    )

All-keep : (P : Row → Type 0) (p : Row → Bool) (xs : List Row) → All P xs → All P (keep p xs)
All-keep P p [] h = tt
All-keep P p (x ∷ xs) h =
    if_rule (All P) (p x) (λ _. (h.0, All-keep P p xs h.1)) (λ _. All-keep P p xs h.1)

-- A row and each row of its id are the same.
abbrev Only : List Row → Row → Type 0
Only rows row = All (λ r. (r.id == row.id) ≡ true → r ≡ row) rows

flipped : (i j : ℕ) → (i == j) ≡ false → (j == i) ≡ true → ⊥
flipped i j h e = ground arith

All-Only : (xs : List Row) → Distinct xs → All (Only xs) xs
unfolding Distinct
All-Only [] d = tt
All-Only (x ∷ xs) d = (
  (λ _. refl, All-imp _ _ xs (λ y miss hit. absurd (cc (miss, hit))) d.0),
  All-imp _ _ xs (λ r both. (λ hit. absurd (flipped r.id x.id both.0 hit), both.1))
      (All-both _ _ xs d.0 (All-Only xs d.1)),
)

module _ {W : Type 0} (o : Slack W) (n : Notifier) (fixed : List (ℕ × RowState)) where
  -- `enqueue` of a new row.
  added-IsKept :
      (row : Row) (s : Sys W)
      → 0 < n.max_attempts
      → row.id ≡ s.ledger.next_row
      → row.attempts ≡ 0
      → IsKept n fixed s
      → IsKept n fixed (record s {
        ledger = record (s.ledger) {
          rows = s.ledger.rows ++ row ∷ [];
          next_row = suc s.ledger.next_row;
        };
      })
  added-IsKept row s most new_id untried kept = (
    record {
      one_row = λ k.
          count_if-snoc (λ (r : Row). r.id) row s.ledger.rows
            (count_if-none _ s.ledger.rows
              (All-imp _ _ s.ledger.rows (λ r h. apart r (omega (arith, h, new_id))) kept.0.below))
            kept.0.one_row k;
      below =
          All-append _ s.ledger.rows (row ∷ [])
            (All-imp _ _ s.ledger.rows (λ r h. omega (arith, h)) kept.0.below)
            (omega (arith, new_id), tt);
      within = All-append _ s.ledger.rows (row ∷ []) kept.0.within (
        (
          omega (arith, kept.0.unsent row.id (omega (arith, new_id))),
          omega (arith, untried),
          λ p. omega (arith, untried, most),
        ),
        tt,
      );
      unsent = λ k h. kept.0.unsent k (omega (arith, h));
    },
    All-imp _ _ fixed
        (λ f h. (
          h.0,
          omega (arith, h.1),
          All-append _ s.ledger.rows (row ∷ []) h.2
              (λ e. absurd (older f.0 (omega (arith, h.1, new_id)) e), tt),
        ))
        kept.1,
  )
    where
      apart : (r : Row) → r.id < row.id → (r.id == row.id) ≡ false
      apart r h = ground (arith, h)

      older : (i : ℕ) → i < row.id → (row.id == i) ≡ true → ⊥
      older i h e = ground (arith, h, e)

  Current-added :
      (row : Row) (rows : List Row) (next : ℕ)
      → row.id ≡ next
      → row.state ≡ pending
      → All (λ r. r.id < next) rows
      → Current row (rows ++ row ∷ [])
  Current-added row rows next new_id fresh below =
      All-append _ rows (row ∷ []) (All-imp _ _ rows (λ r h e. absurd (older r h e)) below)
        (λ e. (fresh, refl), tt)
    where
      older : (r : Row) → r.id < next → (r.id == row.id) ≡ true → ⊥
      older r h e = ground (arith, h, e, new_id)

  -- `publish`, of any text and payload.
  recorded-IsKept :
      (event_id kind text : String) (repair_id : Option ℕ) (blocks : List String)
      (fallback : String) (simulated_record : Bool) (s : Sys W)
      → 0 < n.max_attempts
      → IsKept n fixed s
      → let d = enqueue (o.clock s.world) event_id kind text repair_id blocks fallback s.ledger in
        IsKept n fixed
          (publish_recorded o n event_id simulated_record d.0 (record s { ledger = d.1 })).1
  unfolding publish_recorded enqueue
  recorded-IsKept event_id kind text repair_id blocks fallback simulated_record s most kept =
      let row =
        new_row (o.clock s.world) s.ledger.next_row event_id kind text repair_id blocks fallback in
      if_rule
        (λ (d : Option Row × Ledger).
          IsKept n fixed
            (publish_recorded o n event_id simulated_record d.0 (record s { ledger = d.1 })).1)
        (any (has_event event_id) s.ledger.rows) (λ _. found (get event_id s.ledger))
        (λ _.
          publish_row-IsKept o n fixed simulated_record row
            (record s {
              ledger = record (s.ledger) {
                rows = s.ledger.rows ++ row ∷ [];
                next_row = suc s.ledger.next_row;
              };
            })
            (added-IsKept row s most refl refl kept)
            (Current-added row s.ledger.rows s.ledger.next_row refl refl kept.0.below)
            (omega arith))
    where
      found :
          (row : Option Row)
          → IsKept n fixed
              (elim row as (λ x. RowState × Sys W) [
                | none ↦ (sent, s)
                | some row ↦ (row.state, s)
              ]).1
      found none = kept
      found (some row) = kept

  publish-IsKept :
      (event_id kind text : String) (repair_id : Option ℕ) (simulated_record : Bool)
      (card : Option Card) (s : Sys W)
      → 0 < n.max_attempts
      → IsKept n fixed s
      → IsKept n fixed (publish o n event_id kind text repair_id simulated_record card s).1
  unfolding publish
  publish-IsKept event_id kind text repair_id simulated_record card s most kept =
      recorded-IsKept event_id kind _ repair_id _ _ simulated_record s most kept

  Queue-keep :
      (p : Row → Bool) (xs : List Row) (s : Sys W)
      → ((r : Row) → p r ≡ true → r.state ≡ pending)
      → Distinct xs
      → All (λ r. Only s.ledger.rows r × (r.id < s.ledger.next_row)) xs
      → Queue o n fixed (keep p xs) s
  unfolding Queue Distinct
  Queue-keep p [] s is_pending d only = tt
  Queue-keep p (x ∷ xs) s is_pending d only =
      if_rule (λ rows. Queue o n fixed rows s) (p x)
        (λ hit. (
          (
            All-imp _ _ s.ledger.rows
                (λ r same e. (
                  ap (λ (y : Row). y.state) (same e) ∙ is_pending x hit,
                  ap (λ (y : Row). y.attempts) (same e),
                ))
                only.0.0,
            only.0.1,
          ),
          All-keep _ p xs d.0,
          Queue-keep p xs s is_pending d.1 only.1,
        ))
        (λ _. Queue-keep p xs s is_pending d.1 only.1)

  deliver_due-IsKept : (s : Sys W) → IsKept n fixed s → IsKept n fixed (deliver_due o n s).1
  unfolding deliver_due due
  deliver_due-IsKept s kept =
      if_rule (λ (d : List RowState × Sys W). IsKept n fixed d.1) (not (enabled o n)) (λ _. kept)
        λ _. deliver_all-IsKept o n fixed _ s kept (
          Queue-keep _ s.ledger.rows s (λ r e. is_pending r.state _ e) distinct
            (All-both _ _ s.ledger.rows (All-Only s.ledger.rows distinct) kept.0.below))
    where
      distinct : Distinct s.ledger.rows
      distinct = Distinct-rows s.ledger.rows kept.0.one_row

      is_pending :
          (state : RowState) (b : Bool) → (same_state state pending && b) ≡ true → state ≡ pending
      is_pending pending b e = refl
      is_pending sent b e = cc
      is_pending failed b e = cc
      is_pending unknown b e = cc
      is_pending disabled b e = cc

  perform_all-IsKept :
      (ops : List (Op W)) (s : Sys W)
      → 0 < n.max_attempts
      → IsKept n fixed s
      → IsKept n fixed (perform_all o n ops s)
  unfolding perform_all
  perform_all-IsKept [] s most kept = kept
  perform_all-IsKept (published event_id kind text repair_id simulated_record card ∷ rest) s most
        kept =
      perform_all-IsKept rest _ most
        (publish-IsKept event_id kind text repair_id simulated_record card s most kept)
  perform_all-IsKept (delivered ∷ rest) s most kept =
      perform_all-IsKept rest _ most (deliver_due-IsKept s kept)
  perform_all-IsKept (elsewhere change ∷ rest) s most kept = perform_all-IsKept rest _ most (
    record {
      one_row = kept.0.one_row;
      below = kept.0.below;
      within = kept.0.within;
      unsent = kept.0.unsent;
    },
    kept.1,
  )

-- Whatever is published and delivered, and whatever the channel answers: a ledger keeps unique ids, and no
-- more requests are made for a message than it counts attempts, which are at most the allowed number, and
-- fewer while it is pending; if that held before, and one attempt is allowed.
pub perform_all-IsSound :
    {W : Type 0} (o : Slack W) (n : Notifier) (ops : List (Op W)) (s : Sys W)
    → 0 < n.max_attempts
    → IsSound n s
    → IsSound n (perform_all o n ops s)
perform_all-IsSound o n ops s most sound = (perform_all-IsKept o n [] ops s most (sound, tt)).0

-- A message that was sent, failed, unknown or disabled keeps that state, whatever is published and delivered
-- later; if the ledger is sound and has given out its id, and one attempt is allowed.
pub perform_all-HasState :
    {W : Type 0} (o : Slack W) (n : Notifier) (ops : List (Op W)) (s : Sys W) (id : ℕ)
    (state : RowState)
    → 0 < n.max_attempts
    → IsSound n s
    → (state ≡ pending → ⊥)
    → id < s.ledger.next_row
    → All (HasState id state) s.ledger.rows
    → All (HasState id state) (perform_all o n ops s).ledger.rows
perform_all-HasState o n ops s id state most sound settled known fixed =
    (perform_all-IsKept o n ((id, state) ∷ []) ops s most
      (sound, ((settled, known, fixed), tt))).1.0.2
