-- ===== src/Repairs/Proposals.antt =====
-- portal/controller.py, `RepairStore.upsert`: one row for each fingerprint.
use devin_automation.Prelude.{
  ℕ, ◌≤◌, String, Bool, true, Option, none, some, List, [], ◌∷◌, ◌≡◌, refl, arith, find, map, any,
  count_if, count_if-of_find, count_if-map, count_if-snoc, any-last, if_rule, if◌then◌else◌, ◌==◌,
  nat_eq, string_eq, ==_refl,
}
use devin_automation.Repairs.Types.{Repair, Store}
use devin_automation.Repairs.Store.{by_fingerprint, write_row, insert, update, upsert, upsert_found}

-- UNIQUE (fingerprint)
abbrev pub IsKeyed : Store → Type 0
IsKeyed s = (key : String) → count_if (λ r. r.fingerprint == key) s.repairs ≤ 1

update-fingerprint :
    (key : String) (now id : ℕ) (change : Repair → Repair) (s : Store)
    → ((r : Repair) → (change r).fingerprint ≡ r.fingerprint)
    → count_if (λ r. r.fingerprint == key) (update now id change s).repairs
      ≡ count_if (λ r. r.fingerprint == key) s.repairs
unfolding update write_row
update-fingerprint key now id change s same =
    count_if-map (λ r. r.fingerprint == key)
      (λ r. if r.id == id then write_row s.simulated now change r else r) s.repairs
      λ r.
        if_rule (λ (r' : Repair). (r'.fingerprint == key) ≡ (r.fingerprint == key)) (r.id == id)
          (λ _. rw (same r) refl) (λ _. refl)

pub upsert-IsKeyed :
    (now : ℕ) (row : Repair) (change : Repair → Repair) (s : Store)
    → ((r : Repair) → (change r).fingerprint ≡ r.fingerprint)
    → IsKeyed s
    → IsKeyed (upsert now row change s)
unfolding upsert upsert_found by_fingerprint insert
upsert-IsKeyed now row change s same h =
    by_found (find (λ r. r.fingerprint == row.fingerprint) s.repairs) refl
  where
    by_found :
        (found : Option Repair)
        → find (λ r. r.fingerprint == row.fingerprint) s.repairs ≡ found
        → IsKeyed (upsert_found now row change found s)
    by_found none e =
        count_if-snoc (λ r. r.fingerprint) _ s.repairs
          (count_if-of_find (λ r. r.fingerprint == row.fingerprint) s.repairs e) h
    by_found (some old) e = λ key. rw (update-fingerprint key now old.id change s same) (h key)

any-map :
    {A : Type 0} (p : A → Bool) (f : A → A) (xs : List A)
    → ((x : A) → p (f x) ≡ p x)
    → any p (map f xs) ≡ any p xs
any-map p f [] same = refl
any-map p f (x ∷ xs) same = ground (arith, same x, any-map p f xs same)

pub any-of_find :
    {A : Type 0} (p : A → Bool) (xs : List A) (x : A) → find p xs ≡ some x → any p xs ≡ true
any-of_find p [] x e = cc
any-of_find p (y ∷ ys) x e = ground (arith, any-of_find p ys x)

-- The row of the fingerprint is there afterwards.
pub upsert-any :
    (now : ℕ) (row : Repair) (change : Repair → Repair) (s : Store)
    → ((r : Repair) → (change r).fingerprint ≡ r.fingerprint)
    → any (λ r. r.fingerprint == row.fingerprint) (upsert now row change s).repairs ≡ true
unfolding upsert upsert_found by_fingerprint insert update write_row
upsert-any now row change s same =
    by_found (find (λ r. r.fingerprint == row.fingerprint) s.repairs) refl
  where
    by_found :
        (found : Option Repair)
        → find (λ r. r.fingerprint == row.fingerprint) s.repairs ≡ found
        → any (λ r. r.fingerprint == row.fingerprint) (upsert_found now row change found s).repairs
          ≡ true
    by_found none e =
        any-last (λ r. r.fingerprint == row.fingerprint) s.repairs _ (==_refl row.fingerprint)
    by_found (some old) e =
        rw
          (any-map (λ r. r.fingerprint == row.fingerprint)
            (λ r. if r.id == old.id then write_row s.simulated now change r else r) s.repairs
            λ r.
              if_rule
                (λ (r' : Repair).
                  (r'.fingerprint == row.fingerprint) ≡ (r.fingerprint == row.fingerprint))
                (r.id == old.id) (λ _. rw (same r) refl) (λ _. refl))
          (any-of_find (λ r. r.fingerprint == row.fingerprint) s.repairs old e)

-- A proposal touches neither the intents nor the slot.
pub upsert_apart :
    (now : ℕ) (row : Repair) (change : Repair → Repair) (s : Store)
    → ((upsert now row change s).intents ≡ s.intents) × ((upsert now row change s).slot ≡ s.slot)
unfolding upsert upsert_found insert update
upsert_apart now row change s = by_found (by_fingerprint row.fingerprint s)
  where
    by_found :
        (found : Option Repair)
        → ((upsert_found now row change found s).intents ≡ s.intents)
          × ((upsert_found now row change found s).slot ≡ s.slot)
    by_found none = (refl, refl)
    by_found (some old) = (refl, refl)
