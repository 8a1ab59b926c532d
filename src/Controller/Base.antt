-- ===== src/Controller/Base.antt =====
-- portal/controller.py: what the methods of the controller share.
use devin_automation.Prelude.{
  ℕ, ◌*◌, String, Bool, true, false, not, ◌||◌, Option, none, some, [], ◌∷◌, concat, is_blank, ltb,
  leb, show, codes, strip_prefix, before, parse_digits, if◌then◌else◌,
}
use devin_automation.Incidents.Types.{Incident}
use devin_automation.Repairs.Types.{State, Repair, Kind, Intent, IntentState}
use devin_automation.Repairs.Store
use devin_automation.Controller.Exec.{
  Exc, fault, Exec, pure, raise, gets, tell, attempt, modify, modify_with, on_row, ◌>>=◌, ◌>>◌,
  terminated,
}
use devin_automation.Controller.Providers.{
  Fault, ambiguous, refused, runtime, died, Providers, Texts, Config,
}

pub record Decision : Type 0 where
  pub action : String
  pub detail : String
  pub repair_id : Option ℕ

abbrev pub decide : String → String → ℕ → Decision
decide action detail id = record { action = action; detail = detail; repair_id = some id }

abbrev pub max_follow_ups : ℕ
max_follow_ups = 2

abbrev pub minute : ℕ
minute = 60000

-- `{run}:` or nothing.
abbrev pub scope : String → String
scope run = if is_blank run then "" else concat (run ∷ ":" ∷ [])

-- portal/brief.py, `marker`
unfoldable pub marker : String → ℕ → String → String
marker key attempt_no run =
    concat ("runtime-repair:" ∷ scope run ∷ key ∷ ":attempt-" ∷ show attempt_no ∷ [])

-- `_pr_number`: none stands for its ValueError.
unfoldable pub pr_number : String → String → Option ℕ
pr_number url repo =
    elim (strip_prefix (codes (concat ("https://github.com/" ∷ repo ∷ "/pull/" ∷ [])))
      (codes url)) [ none ↦ none | some tail ↦ parse_digits (before b'?' (before b'/' tail)) ]

-- `str(exc)`
unfoldable pub fault_text : Fault → String
fault_text (ambiguous text) = text
fault_text (refused text) = text
fault_text (runtime text) = text
fault_text died = ""

-- Whether `except (RuntimeError, Ambiguous, Refused)` names it.
unfoldable pub is_named : Fault → Bool
is_named died = false
is_named _ = true

unfoldable pub detail_text : Option String → String
detail_text none = "None"
detail_text (some text) = text

-- The handlers of `_end_session`.
unfoldable pub not_ended : {W : Type 0} → Exc → Exec W String
not_ended (fault (refused text)) = pure (concat ("termination refused (" ∷ text ∷ ")" ∷ []))
not_ended (fault (runtime text)) = pure (concat ("termination outcome unknown (" ∷ text ∷ ")" ∷ []))
not_ended (fault (ambiguous text)) =
    pure (concat ("termination outcome unknown (" ∷ text ∷ ")" ∷ []))
not_ended x = raise x

module _ {W : Type 0} (p : Providers W) where
  unfoldable pub now : Exec W ℕ
  now = gets (λ s. p.clock s.world)

  unfoldable pub get : ℕ → Exec W (Option Repair)
  get id = gets (λ s. Store.get id s.store)

  unfoldable pub update : ℕ → (Repair → Repair) → Exec W Unit
  unfolding now
  update id change = do at ← now; modify (Store.update at id change)

  unfoldable pub release_slot : ℕ → Exec W Unit
  release_slot id = modify (Store.release_slot id)

  unfoldable pub intend : ℕ → Kind → String → Exec W (Intent × Bool)
  unfolding now
  intend id kind mark = do at ← now; modify_with (Store.intend at id kind mark)

  unfoldable pub settle : ℕ → IntentState → String → Exec W Unit
  unfolding now
  settle id state detail = do at ← now; modify (Store.settle at id state detail)

  unfoldable pub incident_of : ℕ → Exec W (Option Incident)
  incident_of id = gets (λ s. p.incident_of id s.world)

  module _ (t : Texts) (c : Config) where
    -- `_past_deadline`: the wall-clock half of the budget; "" when it is not exceeded.
    unfoldable pub past_deadline : Repair → Exec W String
    unfolding now
    past_deadline r = on_row r.deadline (pure "") λ deadline. do
      at ← now
      pure (
          if ltb deadline at
          then concat ("wall-clock deadline " ∷ t.time deadline ∷ " passed" ∷ [])
          else "")

    -- `_exceeded`
    unfoldable pub exceeded : Repair → ℕ → Exec W String
    unfolding past_deadline
    exceeded r acus =
        if leb (r.acu_limit * 1000) acus
        then pure (
            concat (
              "ACU budget exhausted: "
              ∷ t.acus acus
              ∷ " of "
              ∷ show r.acu_limit
              ∷ " consumed"
              ∷ []))
        else past_deadline r

    -- `_end_session`: "" or why the session may still be running.
    unfoldable pub end_session : Repair → Exec W String
    unfolding not_ended
    end_session r =
        if not c.has_devin || is_blank r.session_id
        then pure ""
        else attempt
            (do tell (terminated r.id r.session_id) (p.terminate_session r.session_id); pure "")
            not_ended

    -- `_stop`, once the session has been told to end: `problem` is "" or why it may still run.
    unfoldable pub stop_rest : Repair → String → String → Exec W Unit
    unfolding update release_slot
    stop_rest r reason problem = do
      update r.id λ row. record row {
        state = State.terminal;
        terminal_reason =
            if is_blank problem then reason else concat (reason ∷ "; " ∷ problem ∷ []);
      }
      if is_blank problem
          then release_slot r.id
          else update r.id λ row. record row {
            attention = "session may still be running; the claim is held until someone resolves it";
          }

    -- `_stop`, once the row is read.
    unfoldable pub stop_row : Repair → String → Exec W Unit
    unfolding end_session stop_rest
    stop_row r reason = do problem ← end_session r; stop_rest r reason problem

    unfoldable pub stop : ℕ → String → Exec W Unit
    unfolding get stop_row
    stop id reason = do row ← get id; on_row row (pure tt) λ r. stop_row r reason
