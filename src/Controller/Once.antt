-- ===== src/Controller/Once.antt =====
-- portal/controller.py: the creation intents against the writes that left the process. For one repair,
-- kind and marker, `IsRoom n` says that the intent table has room for `n` more writes.
pub mod Reading
pub mod Creating
pub mod Dispatching
pub mod Messaging
pub mod Passes
pub mod Runs
use devin_automation.Prelude.{
  ℕ, ◌+◌, ◌≤◌, String, Bool, true, false, ◌&&◌, List, [], ◌∷◌, ◌++◌, ◌≡◌, refl, arith, is_blank,
  count_if, count_if-append, count_if-map, All, All-map, map, if_rule, if◌then◌else◌, ◌==◌, nat_eq,
  string_eq,
}
use devin_automation.Repairs.Types.{Repair, Kind, Intent, IntentState, confirmed, ambiguous, Store}
use devin_automation.Repairs.Store
use devin_automation.Repairs.Store.{has_key, same_kind}
use devin_automation.Controller.Exec.{
  Sys, Exec, Call, opened, terminated, ask, tell, modify, modify_with, settle_call, gets,
}
use devin_automation.Controller.Exec.Keeps.{Keeps, keeps_rules, Keeps-bind, Keeps-gets}
use devin_automation.Controller.Providers.{Providers, Answer}
use devin_automation.Controller.Base.{now, get, update, release_slot, settle, incident_of}

-- A write for the repair, the kind and the marker.
abbrev pub is_write : ℕ → Kind → String → Call → Bool
is_write id kind mark (opened k i m) = i == id && (same_kind k kind && m == mark)
is_write id kind mark (terminated i session) = false

-- A confirmed intent names what was created.
abbrev pub IsNamed : Intent → Type 0
IsNamed i = i.state ≡ confirmed → is_blank i.detail ≡ false

pub record IsRoom {W : Type 0} (id : ℕ) (kind : Kind) (mark : String) (n : ℕ) (s : Sys W)
    : Type 0 where
  pub one_row : count_if (has_key id kind mark) s.store.intents ≤ 1
  pub within :
      count_if (is_write id kind mark) s.sent + n ≤ count_if (has_key id kind mark) s.store.intents
  pub named : All IsNamed s.store.intents

module _ {W : Type 0} {id : ℕ} {kind : Kind} {mark : String} {n : ℕ} where
  pub Keeps-ask : {A : Type 0} (call : W → Answer A × W) → Keeps (IsRoom id kind mark n) (ask call)
  unfolding ask
  Keeps-ask call = record {
    keeps = λ s h. record { one_row = h.one_row; within = h.within; named = h.named };
  }

  pub Keeps-terminate :
      {A : Type 0} (i : ℕ) (session : String) (call : W → Answer A × W)
      → Keeps (IsRoom id kind mark n) (tell (terminated i session) call)
  unfolding tell
  Keeps-terminate i session call = record {
    keeps = λ s h. record {
      one_row = h.one_row;
      within = omega (
        arith,
        h.within,
        count_if-append (is_write id kind mark) s.sent (terminated i session ∷ []),
      );
      named = h.named;
    };
  }

  -- A change of the database that leaves the intents.
  pub Keeps-modify :
      (f : Store → Store)
      → ((t : Store) → (f t).intents ≡ t.intents)
      → Keeps {W = W} (IsRoom id kind mark n) (modify f)
  unfolding modify
  Keeps-modify f same = record {
    keeps = λ s h. record {
      one_row = rw (same s.store) h.one_row;
      within = rw (same s.store) h.within;
      named = rw (same s.store) h.named;
    };
  }

  pub Keeps-modify_with :
      {A : Type 0} (f : Store → A × Store)
      → ((t : Store) → (f t).1.intents ≡ t.intents)
      → Keeps {W = W} (IsRoom id kind mark n) (modify_with f)
  unfolding modify_with
  Keeps-modify_with f same = record {
    keeps = λ s h. record {
      one_row = rw (same s.store) h.one_row;
      within = rw (same s.store) h.within;
      named = rw (same s.store) h.named;
    };
  }

  -- Less room is room.
  pub IsRoom-less : (s : Sys W) → IsRoom id kind mark n s → IsRoom id kind mark 0 s
  IsRoom-less s h = record {
    one_row = h.one_row;
    within = omega (arith, h.within);
    named = h.named;
  }

  -- Settling an intent: a confirmation names what was created.
  pub Keeps-settle_rows :
      (at own : ℕ) (state : IntentState) (detail : String)
      → (state ≡ confirmed → is_blank detail ≡ false)
      → Keeps {W = W} (IsRoom id kind mark n) (modify (Store.settle at own state detail))
  unfolding modify Store.settle
  Keeps-settle_rows at own state detail named = record {
    keeps = λ s h. record {
      one_row = rw (same s.store.intents) h.one_row;
      within = rw (same s.store.intents) h.within;
      named =
          All-map IsNamed IsNamed change s.store.intents
            (λ i hi. if_rule IsNamed (i.id == own) (λ _. named) (λ _. hi)) h.named;
    };
  }
    where
      change : Intent → Intent
      change i =
          if i.id == own then record i { state = state; detail = detail; updated_at = at } else i

      same :
          (rows : List Intent)
          → count_if (has_key id kind mark) (map change rows) ≡ count_if (has_key id kind mark) rows
      same rows = count_if-map (has_key id kind mark) change rows λ i.
          if_rule (λ (j : Intent). has_key id kind mark j ≡ has_key id kind mark i) (i.id == own)
            (λ _. refl) (λ _. refl)

module _ {W : Type 0} {id : ℕ} {kind : Kind} {mark : String} {n : ℕ} (p : Providers W) where
  pub Keeps-now : Keeps (IsRoom id kind mark n) (now p)
  unfolding now
  Keeps-now = Keeps-gets _

  pub Keeps-get : (i : ℕ) → Keeps (IsRoom id kind mark n) (get p i)
  unfolding get
  Keeps-get i = Keeps-gets _

  pub Keeps-incident_of : (i : ℕ) → Keeps (IsRoom id kind mark n) (incident_of p i)
  unfolding incident_of
  Keeps-incident_of i = Keeps-gets _

  pub Keeps-update :
      (i : ℕ) (change : Repair → Repair) → Keeps (IsRoom id kind mark n) (update p i change)
  unfolding update Store.update
  Keeps-update i change = Keeps-bind _ _ Keeps-now λ at. Keeps-modify _ λ t. refl

  pub Keeps-release_slot : (i : ℕ) → Keeps (IsRoom id kind mark n) (release_slot p i)
  unfolding release_slot Store.release_slot
  Keeps-release_slot i = Keeps-modify _ λ t. refl

  pub Keeps-settle :
      (own : ℕ) (state : IntentState) (detail : String)
      → (state ≡ confirmed → is_blank detail ≡ false)
      → Keeps (IsRoom id kind mark n) (settle p own state detail)
  unfolding settle
  Keeps-settle own state detail named =
      Keeps-bind _ _ Keeps-now λ at. Keeps-settle_rows at own state detail named

pub ruleset once_rules = (
  keeps_rules, Keeps-ask, Keeps-terminate, Keeps-now, Keeps-get, Keeps-incident_of, Keeps-update,
  Keeps-release_slot,
)
