-- ===== src/Controller/Once/Creating.antt =====
-- portal/controller.py: the four methods that write an intent and then the request that it is for,
-- `_ensure_issue`, `_ensure_session`, `feedback` and `_ask_for_media`.
use devin_automation.Prelude.{
  ℕ, ◌+◌, ◌≤◌, String, Bool, true, false, List, [], ◌∷◌, ◌++◌, Option, none, some, ◌≡◌, refl, arith,
  count_if, count_if-append, count_if-of_find, All-append, All-find, find, if◌then◌else◌, nat_eq,
  string_eq, Bool-cases, inl, inr, nat_same_iff, eq_iff, subst,
}
use devin_automation.Repairs.Types.{Kind, issue, session, message, Intent}
use devin_automation.Repairs.Store
use devin_automation.Repairs.Store.{has_key, new_intent, same_kind}
use devin_automation.Controller.Exec.{Sys, Result, ok, err, Exec, opened, ask, tell, ◌>>=◌}
use devin_automation.Controller.Exec.Keeps.{Keeps}
use devin_automation.Controller.Exec.Triple.{
  Triple, After, Triple-ask, Triple-tell, Triple-bind, Keeps-of_Triple, Triple-fact,
  Triple-modify_with,
}
use devin_automation.Controller.Providers.{Providers, Answer, returned}
use devin_automation.Controller.Base.{intend}
use devin_automation.Controller.Once.{IsRoom, IsNamed, IsRoom-less, is_write, once_rules}

-- What one write for an intent uses of the room of another.
abbrev pub weight : ℕ → Kind → String → ℕ → Kind → String → ℕ
weight id kind mark i k m = if is_write id kind mark (opened k i m) then 1 else 0

module _ {W : Type 0} (id : ℕ) (kind : Kind) (mark : String) where
  -- A method that starts with room for `n` writes and uses it.
  abbrev pub Spends : {A : Type 0} → ℕ → Exec W A → Type 0
  Spends n m =
      Triple (IsRoom id kind mark n) m (λ _. IsRoom id kind mark 0) (λ _. IsRoom id kind mark 0)

  -- What `intend` answers: a new row makes room for its write, an old one that is confirmed is named.
  abbrev pub Granted : ℕ → Kind → String → Intent × Bool → Sys W → Type 0
  Granted i k m (intent, true) s = IsRoom id kind mark (weight id kind mark i k m) s
  Granted i k m (intent, false) s = IsNamed intent × IsRoom id kind mark 0 s

module _ {W A : Type 0} {id : ℕ} {kind : Kind} {mark : String} where
  pub Spends-of_Keeps :
      {n : ℕ} {m : Exec W A} → Keeps (IsRoom id kind mark n) m → Spends id kind mark n m
  Spends-of_Keeps {n} {m} k = record { at = λ s h. either (m s).0 (m s).1 (k.keeps s h) }
    where
      either :
          (r : Result A) (s : Sys W)
          → IsRoom id kind mark n s
          → After (λ _. IsRoom id kind mark 0) (λ _. IsRoom id kind mark 0) (r, s)
      either (ok a) s h = IsRoom-less s h
      either (err x) s h = IsRoom-less s h

  -- The write itself; `F` is what is documented of its answer.
  pub Triple-write :
      (i : ℕ) (k : Kind) (m : String) (call : W → Answer A × W) (F : A → Type 0)
      → ((w : W) (a : A) → (call w).0 ≡ returned a → F a)
      → Triple
          (IsRoom id kind mark (weight id kind mark i k m))
          (tell (opened k i m) call)
          (λ a s. F a × IsRoom id kind mark 0 s)
          (λ _. IsRoom id kind mark 0)
  Triple-write i k m call F documented =
      Triple-tell (opened k i m) call
        (λ s a h e. (
          documented s.world a e,
          record { one_row = h.one_row; within = fits s h.within; named = h.named },
        ))
        (λ s x w h. record { one_row = h.one_row; within = fits s h.within; named = h.named })
    where
      fits :
          (s : Sys W)
          → count_if (is_write id kind mark) s.sent + weight id kind mark i k m
            ≤ count_if (has_key id kind mark) s.store.intents
          → count_if (is_write id kind mark) (s.sent ++ opened k i m ∷ []) + 0
            ≤ count_if (has_key id kind mark) s.store.intents
      fits s h =
          omega (arith, h, count_if-append (is_write id kind mark) s.sent (opened k i m ∷ []))

  pub Triple-ask_fact :
      {n : ℕ} (call : W → Answer A × W) (F : A → Type 0)
      → ((w : W) (a : A) → (call w).0 ≡ returned a → F a)
      → Triple
          (IsRoom id kind mark n)
          (ask call)
          (λ a s. F a × IsRoom id kind mark n s)
          (λ _. IsRoom id kind mark 0)
  Triple-ask_fact call F documented =
      Triple-ask call
        (λ s a h e. (
          documented s.world a e,
          record { one_row = h.one_row; within = h.within; named = h.named },
        ))
        (λ s x w h.
          IsRoom-less _ (record { one_row = h.one_row; within = h.within; named = h.named }))

kind_of_same : (k j : Kind) → same_kind k j ≡ true → k ≡ j
kind_of_same issue issue h = refl
kind_of_same session session h = refl
kind_of_same message message h = refl
kind_of_same issue session h = cc
kind_of_same issue message h = cc
kind_of_same session issue h = cc
kind_of_same session message h = cc
kind_of_same message issue h = cc
kind_of_same message session h = cc

absent :
    (i : ℕ) (k : Kind) (m : String) (id : ℕ) (kind : Kind) (mark : String) (rows : List Intent)
    → is_write id kind mark (opened k i m) ≡ true
    → find (has_key i k m) rows ≡ none
    → count_if (has_key id kind mark) rows ≡ 0
absent i k m id kind mark rows same e =
    let number : i ≡ id = (nat_same_iff i id).0 (ground arith) in
    let which : k ≡ kind = kind_of_same k kind (ground arith) in
    let text : m ≡ mark = (eq_iff m mark).0 (ground arith) in
    subst (λ j. count_if (has_key j kind mark) rows ≡ 0) number
      (subst (λ j. count_if (has_key i j mark) rows ≡ 0) which
        (subst (λ j. count_if (has_key i k j) rows ≡ 0) text
          (count_if-of_find (has_key i k m) rows e)))

module _ {W : Type 0} {id : ℕ} {kind : Kind} {mark : String} (p : Providers W) where
  pub Triple-intend :
      (i : ℕ) (k : Kind) (m : String)
      → Triple
          (IsRoom id kind mark 0)
          (intend p i k m)
          (Granted id kind mark i k m)
          (λ _. IsRoom id kind mark 0)
  unfolding intend Store.intend Store.intend_row new_intent
  Triple-intend i k m = Triple-bind (Spends-of_Keeps (search once_rules)) λ at.
      Triple-modify_with (Store.intend at i k m)
        λ s h. granted at s h (find (has_key i k m) s.store.intents) refl
    where
      granted :
          (at : ℕ) (s : Sys W)
          → IsRoom id kind mark 0 s
          → (found : Option Intent) → find (has_key i k m) s.store.intents ≡ found
          → Granted id kind mark i k m
              (Store.intend_row at i k m found s.store).0
              (record s { store = (Store.intend_row at i k m found s.store).1 })
      granted at s h none e = record {
        one_row = elim (Bool-cases (is_write id kind mark (opened k i m))) [
          | inl same ↦ ground (
            arith,
            absent i k m id kind mark s.store.intents same e,
            count_if-append (has_key id kind mark) s.store.intents
                (new_intent at i k m s.store.next_intent ∷ []),
          )
          | inr other ↦ ground (
            arith,
            h.one_row,
            count_if-append (has_key id kind mark) s.store.intents
                (new_intent at i k m s.store.next_intent ∷ []),
          )
        ];
        within = omega (
          arith,
          h.within,
          count_if-append (has_key id kind mark) s.store.intents
              (new_intent at i k m s.store.next_intent ∷ []),
        );
        named =
            All-append IsNamed s.store.intents (new_intent at i k m s.store.next_intent ∷ [])
              h.named (λ c. cc, tt);
      }
      granted at s h (some old) e = (
        All-find IsNamed (has_key i k m) s.store.intents old h.named e,
        record { one_row = h.one_row; within = h.within; named = h.named },
      )

  -- `intend`, and what follows from each of its answers.
  pub Keeps-intended :
      {A : Type 0} (i : ℕ) (k : Kind) (m : String) (f : Intent × Bool → Exec W A)
      → ((intent : Intent) → Spends id kind mark (weight id kind mark i k m) (f (intent, true)))
      → ((intent : Intent) → IsNamed intent → Spends id kind mark 0 (f (intent, false)))
      → Keeps (IsRoom id kind mark 0) (intend p i k m >>= f)
  Keeps-intended i k m f new old = Keeps-of_Triple (Triple-bind (Triple-intend i k m) follow)
    where
      follow :
          (answer : Intent × Bool)
          → Triple
              (Granted id kind mark i k m answer)
              (f answer)
              (λ _. IsRoom id kind mark 0)
              (λ _. IsRoom id kind mark 0)
      follow (intent, true) = new intent
      follow (intent, false) = Triple-fact (old intent)

  -- What keeps the room may come before the write.
  pub Triple-quiet :
      {A B : Type 0} {n : ℕ} {m : Exec W A} {f : A → Exec W B} {Q : B → Sys W → Type 0}
      → Keeps (IsRoom id kind mark n) m
      → ((a : A) → Triple (IsRoom id kind mark n) (f a) Q (λ _. IsRoom id kind mark 0))
      → Triple (IsRoom id kind mark n) (m >>= f) Q (λ _. IsRoom id kind mark 0)
  Triple-quiet {A} {n = n} {m} k t =
      Triple-bind (record { at = λ s h. either (m s).0 (m s).1 (k.keeps s h) }) t
    where
      either :
          (r : Result A) (s : Sys W)
          → IsRoom id kind mark n s
          → After (λ _. IsRoom id kind mark n) (λ _. IsRoom id kind mark 0) (r, s)
      either (ok a) s h = h
      either (err x) s h = IsRoom-less s h
