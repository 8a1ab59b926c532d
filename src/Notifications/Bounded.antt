-- ===== src/Notifications/Bounded.antt =====
-- portal/notify.py, class Notifier: how often a row is sent, and which rows change, along any operations.
use devin_automation.Prelude.{
  ℕ, ◌+◌, ◌≤◌, ◌<◌, String, Bool, true, false, not, ◌&&◌, none, List, [], ◌∷◌, ◌≡◌, refl, sym, ap,
  ◌∙◌, arith, map, subst, All, All-map, All-imp, count_if, count_if-append, count_if-map, ◌==◌,
  nat_eq, string_eq, if_rule, Bool-cases, inl, inr,
}
use devin_automation.Notifications.Ledger.{RowState, pending, disabled, Row, settle, change_row}
use devin_automation.Notifications.Notifier.{
  Slack, Notifier, Sys, settled, attempt, publish_row, deliver_all, enabled,
}
use devin_automation.Notifications.Delivery.{IsTry, attempt-IsTry}

-- Requests that were made for a row.
abbrev pub posts_for : ℕ → List ℕ → ℕ
posts_for id posts = count_if (λ k. id == k) posts

abbrev pub has_id : ℕ → Row → Bool
has_id id r = r.id == id

abbrev pub IsWithin : ℕ → List ℕ → Row → Type 0
IsWithin most posts r =
    (posts_for r.id posts ≤ r.attempts)
    × (r.attempts ≤ most)
    × (r.state ≡ pending → r.attempts < most)

-- The ids are unique and below the counter, and no more requests were made for a row than it counts, which
-- is at most the bound.
pub record IsSound {W : Type 0} (n : Notifier) (s : Sys W) : Type 0 where
  pub one_row : (k : ℕ) → count_if (has_id k) s.ledger.rows ≤ 1
  pub below : All (λ r. r.id < s.ledger.next_row) s.ledger.rows
  pub within : All (IsWithin n.max_attempts s.posts) s.ledger.rows
  pub unsent : (k : ℕ) → s.ledger.next_row ≤ k → posts_for k s.posts ≡ 0

-- A row that was read is still as it was read, and pending.
abbrev pub Current : Row → List Row → Type 0
Current row rows =
    All (λ r. (r.id == row.id) ≡ true → (r.state ≡ pending) × (r.attempts ≡ row.attempts)) rows

pub All-both :
    {A : Type 0} (P Q : A → Type 0) (xs : List A) → All P xs → All Q xs → All (λ x. P x × Q x) xs
All-both P Q [] p q = tt
All-both P Q (x ∷ xs) p q = ((p.0, q.0), All-both P Q xs p.1 q.1)

module _ {W : Type 0} (n : Notifier) (row : Row) (before after : Sys W)
    (t : IsTry n row before after) where
  IsWithin-change :
      (r : Row)
      → IsWithin n.max_attempts before.posts r
      → ((r.id == row.id) ≡ true → (r.state ≡ pending) × (r.attempts ≡ row.attempts))
      → IsWithin n.max_attempts after.posts (t.change r)
  IsWithin-change r w current = elim (Bool-cases (r.id == row.id)) [
    | inl hit ↦
        let now = current hit in
        let counts = t.tried r hit in
        let room = w.2 now.0 in
        (
          rw counts.0 (omega (arith, sum, w.0, once hit)),
          rw counts.0 (omega (arith, room)),
          λ p. rw counts.0 (omega (arith, counts.1 p, now.1)),
        )
    | inr miss ↦ rw (t.others r miss) (
      omega (
        arith,
        subst
            (λ (x : Row).
              posts_for x.id after.posts
              ≡ posts_for r.id before.posts + posts_for r.id (row.id ∷ []))
            (t.others r miss) sum,
        w.0,
        none_more miss,
      ),
      w.1,
      w.2,
    )
  ]
    where
      sum :
          posts_for (t.change r).id after.posts
          ≡ posts_for r.id before.posts + posts_for r.id (row.id ∷ [])
      sum =
          rw (t.same_id r, t.posts)
            (count_if-append (λ (k : ℕ). r.id == k) before.posts (row.id ∷ []))

      once : (r.id == row.id) ≡ true → posts_for r.id (row.id ∷ []) ≡ 1
      once e = rw e refl

      none_more : (r.id == row.id) ≡ false → posts_for r.id (row.id ∷ []) ≡ 0
      none_more e = rw e refl

  IsSound-try :
      IsSound n before
      → Current row before.ledger.rows
      → row.id < before.ledger.next_row
      → IsSound n after
  IsSound-try sound current known = record {
    one_row = λ k. rw t.rows (
        omega (
          arith,
          sound.one_row k,
          count_if-map (has_id k) t.change before.ledger.rows
              (λ r. ap (λ (i : ℕ). i == k) (t.same_id r)),
        ));
    below =
        rw (t.rows, t.next)
          (All-map _ _ t.change before.ledger.rows (λ r h. rw (t.same_id r) h) sound.below);
    within = rw t.rows (
        All-map _ _ t.change before.ledger.rows (λ r both. IsWithin-change r both.0 both.1)
          (All-both _ _ before.ledger.rows sound.within current));
    unsent = λ k h.
        let above : before.ledger.next_row ≤ k = subst (λ (m : ℕ). m ≤ k) t.next h in
        rw t.posts (
          omega (
            arith,
            sound.unsent k above,
            count_if-append (λ (j : ℕ). k == j) before.posts (row.id ∷ []),
            not_it k above,
          ));
  }
    where
      not_it : (k : ℕ) → before.ledger.next_row ≤ k → posts_for k (row.id ∷ []) ≡ 0
      not_it k above = ground (arith, known, above)

  -- Another row that is current stays so.
  Current-try :
      (other : Row)
      → (other.id == row.id) ≡ false
      → Current other before.ledger.rows
      → Current other after.ledger.rows
  Current-try other differs current =
      rw t.rows (All-map _ _ t.change before.ledger.rows step current)
    where
      step :
          (r : Row)
          → ((r.id == other.id) ≡ true → (r.state ≡ pending) × (r.attempts ≡ other.attempts))
          → ((t.change r).id == other.id) ≡ true
          → ((t.change r).state ≡ pending) × ((t.change r).attempts ≡ other.attempts)
      step r h e =
          let mine : (r.id == other.id) ≡ true =
            subst (λ (i : ℕ). (i == other.id) ≡ true) (t.same_id r) e in
          let apart : (r.id == row.id) ≡ false =
            subst (λ (i : ℕ). (i == row.id) ≡ false) (sym ((nat_eq.same_iff r.id other.id).0 mine))
              differs in
          rw (t.others r apart) (h mine)

-- The row of that id, if there is one, is in that state.
abbrev pub HasState : ℕ → RowState → Row → Type 0
HasState id state r = (r.id == id) ≡ true → r.state ≡ state

-- A row that has settled, and is in the ledger.
abbrev pub IsFixed : {W : Type 0} → Sys W → ℕ × RowState → Type 0
IsFixed s (id, state) =
    (state ≡ pending → ⊥) × (id < s.ledger.next_row) × All (HasState id state) s.ledger.rows

-- The invariant, with rows that are to keep their state.
abbrev pub IsKept : {W : Type 0} → Notifier → List (ℕ × RowState) → Sys W → Type 0
IsKept n fixed s = IsSound n s × All (IsFixed s) fixed

-- A change of the rows with one id, which are pending, leaves the settled ones.
IsFixed-change :
    {W : Type 0} (row : Row) (change : Row → Row) (before after : Sys W) (f : ℕ × RowState)
    → after.ledger.rows ≡ map change before.ledger.rows
    → after.ledger.next_row ≡ before.ledger.next_row
    → ((r : Row) → (change r).id ≡ r.id)
    → ((r : Row) → (r.id == row.id) ≡ false → change r ≡ r)
    → Current row before.ledger.rows
    → IsFixed before f
    → IsFixed after f
IsFixed-change row change before after (id, state) rows next same_id others current
      (settled, known, fixed) =
    (
      settled,
      rw next known,
      rw rows (
          All-map _ _ change before.ledger.rows step
            (All-both _ _ before.ledger.rows fixed current)),
    )
  where
    step :
        (r : Row)
        → ((r.id == id) ≡ true → r.state ≡ state)
          × ((r.id == row.id) ≡ true → (r.state ≡ pending) × (r.attempts ≡ row.attempts))
        → ((change r).id == id) ≡ true
        → (change r).state ≡ state
    step r (keeps, current) e = elim (Bool-cases (r.id == row.id)) [
      | inl hit ↦ absurd (
          settled
            (sym (keeps (subst (λ (i : ℕ). (i == id) ≡ true) (same_id r) e)) ∙ (current hit).0))
      | inr miss ↦
          ap (λ (x : Row). x.state) (others r miss)
          ∙ keeps (subst (λ (i : ℕ). (i == id) ≡ true) (same_id r) e)
    ]

module _ {W : Type 0} (o : Slack W) (n : Notifier) (fixed : List (ℕ × RowState)) where
  attempt-IsKept :
      (row : Row) (s : Sys W)
      → IsKept n fixed s
      → Current row s.ledger.rows
      → row.id < s.ledger.next_row
      → IsKept n fixed (attempt o n row s).1
  attempt-IsKept row s kept current known =
      let t = attempt-IsTry o n row s in
      (
        IsSound-try n row s _ t kept.0 current known,
        All-imp _ _ fixed
            (λ f h.
              IsFixed-change row t.change s (attempt o n row s).1 f t.rows t.next t.same_id t.others
                current h)
            kept.1,
      )

  -- A new row that is not sent.
  disabled-IsKept :
      (row : Row) (detail : String) (s : Sys W)
      → IsKept n fixed s
      → Current row s.ledger.rows
      → IsKept n fixed (settled o n row.id disabled detail none false s)
  unfolding settled settle
  disabled-IsKept row detail s kept current = (
    record {
      one_row = λ k. omega (
        arith,
        kept.0.one_row k,
        count_if-map (has_id k) change s.ledger.rows (λ r. ap (λ (i : ℕ). i == k) (same_id r)),
      );
      below = All-map _ _ change s.ledger.rows (λ r h. rw (same_id r) h) kept.0.below;
      within = All-map _ _ change s.ledger.rows (λ r w. within r w) kept.0.within;
      unsent = kept.0.unsent;
    },
    All-imp _ _ fixed
        (λ f h.
          IsFixed-change row change s (settled o n row.id disabled detail none false s) f refl refl
            same_id others current h)
        kept.1,
  )
    where
      change : Row → Row
      change =
          change_row row.id
            λ r. record r { state = disabled; detail = detail; updated_at = o.clock s.world }

      same_id : (r : Row) → (change r).id ≡ r.id
      same_id r = if_rule (λ (x : Row). x.id ≡ r.id) (r.id == row.id) (λ _. refl) (λ _. refl)

      others : (r : Row) → (r.id == row.id) ≡ false → change r ≡ r
      others r e = rw e refl

      within :
          (r : Row) → IsWithin n.max_attempts s.posts r → IsWithin n.max_attempts s.posts (change r)
      within r w =
          if_rule (IsWithin n.max_attempts s.posts) (r.id == row.id)
            (λ _. (w.0, w.1, λ p. absurd (cc p))) (λ _. w)

  pub publish_row-IsKept :
      (simulated_record : Bool) (row : Row) (s : Sys W)
      → IsKept n fixed s
      → Current row s.ledger.rows
      → row.id < s.ledger.next_row
      → IsKept n fixed (publish_row o n simulated_record row s).1
  unfolding publish_row
  publish_row-IsKept simulated_record row s kept current known =
      if_rule P (simulated_record && not n.simulated) (λ _. disabled-IsKept row _ s kept current)
        λ _.
          if_rule P (not (enabled o n)) (λ _. disabled-IsKept row _ s kept current)
            λ _. attempt-IsKept row s kept current known
    where
      P : RowState × Sys W → Type 0
      P = λ d. IsKept n fixed d.1

  -- The rows that were read, each once.
  unfoldable pub Queue : List Row → Sys W → Type 0
  Queue [] s = Unit
  Queue (row ∷ rest) s =
      (Current row s.ledger.rows × (row.id < s.ledger.next_row))
      × All (λ (other : Row). (other.id == row.id) ≡ false) rest
      × Queue rest s

  Queue-try :
      (row : Row) (rest : List Row) (s after : Sys W)
      → IsTry n row s after
      → All (λ (other : Row). (other.id == row.id) ≡ false) rest
      → Queue rest s
      → Queue rest after
  unfolding Queue
  Queue-try row [] s after t apart q = tt
  Queue-try row (other ∷ rest) s after t apart q = (
    (Current-try n row s after t other apart.0 q.0.0, rw t.next q.0.1),
    q.1,
    Queue-try row rest s after t apart.1 q.2,
  )

  pub deliver_all-IsKept :
      (rows : List Row) (s : Sys W)
      → IsKept n fixed s
      → Queue rows s
      → IsKept n fixed (deliver_all o n rows s).1
  unfolding deliver_all Queue
  deliver_all-IsKept [] s kept q = kept
  deliver_all-IsKept (row ∷ rest) s kept q =
      deliver_all-IsKept rest (attempt o n row s).1 (attempt-IsKept row s kept q.0.0 q.0.1)
        (Queue-try row rest s _ (attempt-IsTry o n row s) q.1 q.2)
