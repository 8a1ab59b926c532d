-- ===== src/Notifications/Threads.antt =====
-- portal/notify.py, class NotificationLog: the thread of a repair.
use devin_automation.Prelude.{
  ℕ, String, Bool, true, false, ◌&&◌, ◌||◌, some, List, [], ◌∷◌, ◌++◌, ◌≡◌, refl, any, any-last,
  find, is_blank, ==_refl, ◌==◌, nat_eq, string_eq, if_rule,
}
use devin_automation.Notifications.Ledger.{Thread, Ledger, thread_of, add_thread, remember_thread}

find-snoc :
    {A : Type 0} (p q : A → Bool) (xs : List A) (y : A)
    → ((x : A) → q x ≡ false → p x ≡ false)
    → any q xs ≡ false
    → p y ≡ true
    → find p (xs ++ y ∷ []) ≡ some y
find-snoc p q [] y within new hit = rw hit refl
find-snoc p q (x ∷ xs) y within new hit =
    let split = parts (q x) (any q xs) new in
    rw (within x split.0) (find-snoc p q xs y within split.1 hit)
  where
    parts : (a b : Bool) → (a || b) ≡ false → (a ≡ false) × (b ≡ false)
    parts false b e = (refl, e)
    parts true b e = cc

-- The first message of a repair that is remembered is its parent: the thread reads back as that message, also
-- after another one was remembered for the repair, in whatever channel; if the repair had no thread.
pub thread_of-remember_thread :
    (now later repair_id : ℕ) (channel ts channel' ts' : String) (l : Ledger)
    → any (λ (t : Thread). t.repair_id == repair_id) l.threads ≡ false
    → is_blank ts ≡ false
    → thread_of repair_id channel
        (remember_thread later repair_id channel' ts' (remember_thread now repair_id channel ts l))
      ≡ ts
unfolding thread_of remember_thread add_thread
thread_of-remember_thread now later repair_id channel ts channel' ts' l new named =
    rw (named, new)
      (if_rule (λ (m : Ledger). thread_of repair_id channel m ≡ ts) (is_blank ts') (λ _. read_back)
        (λ _. rw (any-last (is_for) l.threads row (==_refl repair_id)) read_back))
  where
    is_for : Thread → Bool
    is_for t = t.repair_id == repair_id

    row : Thread
    row = record {
      repair_id = repair_id;
      channel = channel;
      parent_ts = ts;
      source = "posted";
      created_at = now;
    }

    within :
        (t : Thread) → is_for t ≡ false → (t.repair_id == repair_id && t.channel == channel) ≡ false
    within t e = rw e refl

    both : (repair_id == repair_id && channel == channel) ≡ true
    both = rw (==_refl repair_id, ==_refl channel) refl

    read_back : thread_of repair_id channel (record l { threads = l.threads ++ row ∷ [] }) ≡ ts
    read_back =
        rw
          (
            thread_of,
            find-snoc (λ (t : Thread). t.repair_id == repair_id && t.channel == channel) is_for
                l.threads row within new both,
          )
          refl
