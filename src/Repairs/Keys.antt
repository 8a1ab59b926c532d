-- ===== src/Repairs/Keys.antt =====
-- portal/controller.py, class RepairStore: creation intents by their key, and the run of the database.
use devin_automation.Prelude.{
  ℕ, String, Bool, true, false, Option, none, some, List, [], ◌∷◌, ◌++◌, ◌≡◌, refl, arith, find,
  ◌==◌, nat_eq, string_eq, ==_refl, eq_iff,
}
use devin_automation.Repairs.Types.{Kind, issue, session, message, Intent, Store}
use devin_automation.Repairs.Store.{
  has_key, same_kind, new_intent, intend, intend_row, run_row, adopt_run,
}

same_kind_refl : (k : Kind) → same_kind k k ≡ true
same_kind_refl issue = refl
same_kind_refl session = refl
same_kind_refl message = refl

find-last :
    {A : Type 0} (p : A → Bool) (xs : List A) (x : A)
    → find p xs ≡ none
    → p x ≡ true
    → find p (xs ++ x ∷ []) ≡ some x
find-last p [] x none_yet h = ground arith
find-last p (y ∷ ys) x none_yet h = ground (arith, find-last p ys x)

has_key-new_intent :
    (now id : ℕ) (kind : Kind) (mark : String) (own : ℕ)
    → has_key id kind mark (new_intent now id kind mark own) ≡ true
unfolding new_intent
has_key-new_intent now id kind mark own = rw (==_refl id) (rw (same_kind_refl kind) (==_refl mark))

-- A key is intended once: whoever asks again is answered the same row and that it is not new, and the
-- database stays as it was.
pub intend-intend :
    (now later id : ℕ) (kind : Kind) (mark : String) (s : Store)
    → let (answer, s') = intend now id kind mark s in
      intend later id kind mark s' ≡ ((answer.0, false), s')
unfolding intend intend_row
intend-intend now later id kind mark s = again (find (has_key id kind mark) s.intents) refl
  where
    again :
        (found : Option Intent)
        → find (has_key id kind mark) s.intents ≡ found
        → let (answer, s') = intend_row now id kind mark found s in
          intend_row later id kind mark (find (has_key id kind mark) s'.intents) s'
          ≡ ((answer.0, false), s')
    again none e =
        rw
          (find-last (has_key id kind mark) s.intents (new_intent now id kind mark s.next_intent) e
            (has_key-new_intent now id kind mark s.next_intent))
          refl
    again (some old) e = rw e refl

-- A database belongs to one run: once a run is adopted, another is adopted only if it is the same, and
-- the database stays as it was.
pub adopt_run-adopt_run :
    (namespace other : String) (s : Store)
    → (adopt_run namespace s).0 ≡ true
    → adopt_run other (adopt_run namespace s).1 ≡ (namespace == other, (adopt_run namespace s).1)
unfolding adopt_run run_row
adopt_run-adopt_run namespace other s adopted = bound s.run refl adopted
  where
    bound :
        (run : Option String)
        → s.run ≡ run
        → (run_row namespace run s).0 ≡ true
        → run_row other (run_row namespace run s).1.run (run_row namespace run s).1
          ≡ (namespace == other, (run_row namespace run s).1)
    bound none e h = refl
    bound (some stored) e h = rw e (rw ((eq_iff stored namespace).0 h) refl)
