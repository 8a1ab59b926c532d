-- ===== src/Controller/Once/Messaging.antt =====
-- portal/controller.py: `feedback` and `_ask_for_media` send at most the messages that their intents
-- have room for. Their markers are never blank.
use devin_automation.Prelude.{
  ℕ, String, Bool, true, false, not, ◌||◌, List, ◌≡◌, refl, is_blank, is_blank-concat, or_text, [],
  ◌∷◌,
}
use devin_automation.Repairs.Types.{
  Repair, Kind, message, Intent, IntentState, intended, confirmed, ambiguous, Stage,
}
use devin_automation.Controller.Exec.{
  Exc, fault, parked, claimed, value_error, Exec, tell, opened, ◌>>=◌,
}
use devin_automation.Controller.Exec.Keeps.{Keeps}
use devin_automation.Controller.Exec.Triple.{
  Triple-if, Triple-bind, Triple-attempt, Triple-fact, Triple-of_Keeps,
}
use devin_automation.Controller.Providers.{Providers, Texts, Config, refused, runtime, died}
use devin_automation.Controller.Providers.{ambiguous as fault_ambiguous}
use devin_automation.Controller.Base.{scope}
use devin_automation.Controller.Dispatch.{is_confirmed, is_intended, is_ambiguous}
use devin_automation.Controller.Verdicts.{
  follow_up_mark, not_delivered, send_follow_up, follow_up_once, follow_up, feedback_within,
  feedback_row, feedback,
}
use devin_automation.Controller.Media.{
  media_mark, stage_text, not_asked, send_request, ask_once, ask_row, ask_for_media, media_case,
}
use devin_automation.Controller.Once.{IsRoom, once_rules, Keeps-settle}
use devin_automation.Controller.Once.Creating.{
  Spends, weight, Spends-of_Keeps, Triple-write, Keeps-intended, Triple-quiet,
}
use devin_automation.Controller.Once.Reading.{Keeps-stop, Keeps-exceeded}

is_blank-follow_up_mark :
    (c : Config) (r : Repair) (sha : String) → is_blank (follow_up_mark c r sha) ≡ false
unfolding follow_up_mark
is_blank-follow_up_mark c r sha =
    is_blank-concat (scope c.run ∷ r.fingerprint ∷ ":" ∷ or_text sha "no-sha" ∷ []) ":follow-up"
      refl

is_blank-media_mark :
    (c : Config) (r : Repair) (subject : String) (stage : Stage)
    → is_blank (media_mark c r subject stage) ≡ false
unfolding media_mark
is_blank-media_mark c r subject stage =
    is_blank-concat (scope c.run ∷ r.fingerprint ∷ ":" ∷ subject ∷ ":" ∷ stage_text stage ∷ [])
      "-media" refl

decided :
    (state : IntentState)
    → is_confirmed state ≡ false
    → is_intended state ≡ false
    → is_ambiguous state ≡ false
    → ⊥
decided intended a b d = cc
decided confirmed a b d = cc
decided ambiguous a b d = cc

module _ {W : Type 0} {id : ℕ} {kind : Kind} {mark : String} (p : Providers W) (t : Texts)
    (c : Config) where
  Keeps-not_delivered :
      (i own : ℕ) (x : Exc) → Keeps (IsRoom id kind mark 0) (not_delivered p t c i own x)
  unfolding not_delivered
  Keeps-not_delivered i own (fault (fault_ambiguous why)) =
      search (once_rules, Keeps-settle p own ambiguous why (λ e. cc)) depth 14
  Keeps-not_delivered i own (fault (refused why)) = search once_rules
  Keeps-not_delivered i own (fault (runtime why)) = search once_rules
  Keeps-not_delivered i own (fault died) = search once_rules
  Keeps-not_delivered i own (parked why) = search once_rules
  Keeps-not_delivered i own (claimed why) = search once_rules
  Keeps-not_delivered i own (value_error why) = search once_rules

  Spends-write :
      {A B : Type 0} (i : ℕ) (m : String) (call : _) (f : A → Exec W B)
      → ((a : A) → Keeps (IsRoom id kind mark 0) (f a))
      → Spends id kind mark (weight id kind mark i message m) (tell (opened message i m) call >>= f)
  Spends-write i m call f rest =
      Triple-bind (Triple-write i message m call (λ _. Unit) (λ _ _ _. tt))
        λ a. Triple-fact λ _. Spends-of_Keeps (rest a)

  Spends-send_follow_up :
      (r : Repair) (failures : List String) (m : String) (intent : Intent)
      → is_blank m ≡ false
      → Spends id kind mark
          (weight id kind mark r.id message m)
          (send_follow_up p t c r failures m intent)
  unfolding send_follow_up
  Spends-send_follow_up r failures m intent named =
      Triple-bind
        (Triple-attempt (Spends-write r.id m _ _ λ _. search once_rules)
          λ x. Triple-of_Keeps (Keeps-not_delivered r.id intent.id x))
        λ problem.
          Spends-of_Keeps
            (search (once_rules, Keeps-settle p intent.id confirmed m (λ _. named)) depth 14)

  Keeps-follow_up :
      (r : Repair) (failures : List String) (m : String)
      → is_blank m ≡ false
      → Keeps (IsRoom id kind mark 0) (follow_up p t c r failures m)
  unfolding follow_up follow_up_once
  Keeps-follow_up r failures m named =
      Keeps-intended p r.id message m _
        (λ intent.
          Triple-if (is_confirmed intent.state) (λ _. Spends-of_Keeps (search once_rules))
            λ _.
              Triple-if (is_ambiguous intent.state) (λ _. Spends-of_Keeps (search once_rules))
                λ _. Spends-send_follow_up r failures m intent named)
        (λ intent _.
          Triple-if (is_confirmed intent.state) (λ _. Spends-of_Keeps (search once_rules))
            λ a.
              Triple-if (is_intended intent.state) (λ _. Spends-of_Keeps (search once_rules))
                λ b.
                  Triple-if (is_ambiguous intent.state) (λ _. Spends-of_Keeps (search once_rules))
                    λ d. absurd (decided intent.state a b d))

  pub Keeps-feedback :
      (i : ℕ) (failures : List String) (sha : String)
      → Keeps (IsRoom id kind mark 0) (feedback p t c i failures sha)
  unfolding feedback feedback_row feedback_within
  Keeps-feedback i failures sha = search (once_rules, Keeps-stop, Keeps-exceeded, follow) depth 14
    where
      follow :
          (r : Repair) (subject : String)
          → Keeps (IsRoom id kind mark 0) (follow_up p t c r failures (follow_up_mark c r subject))
      follow r subject = Keeps-follow_up r failures _ (is_blank-follow_up_mark c r subject)

  Keeps-not_asked : (own : ℕ) (x : Exc) → Keeps (IsRoom id kind mark 0) (not_asked p t c own x)
  unfolding not_asked
  Keeps-not_asked own (fault (fault_ambiguous why)) =
      search (once_rules, Keeps-settle p own ambiguous why (λ e. cc)) depth 14
  Keeps-not_asked own (fault (refused why)) =
      search (once_rules, Keeps-settle p own ambiguous why (λ e. cc)) depth 14
  Keeps-not_asked own (fault (runtime why)) =
      search (once_rules, Keeps-settle p own ambiguous why (λ e. cc)) depth 14
  Keeps-not_asked own (fault died) = search once_rules
  Keeps-not_asked own (parked why) = search once_rules
  Keeps-not_asked own (claimed why) = search once_rules
  Keeps-not_asked own (value_error why) = search once_rules

  Spends-send_request :
      (r : Repair) (stage : Stage) (subject m : String) (intent : Intent) (case_name : String)
      → is_blank m ≡ false
      → Spends id kind mark
          (weight id kind mark r.id message m)
          (send_request p t c r stage subject m intent case_name)
  unfolding send_request
  Spends-send_request r stage subject m intent case_name named =
      Triple-if (is_blank case_name)
        (λ _. Spends-of_Keeps (
          search
            (
              once_rules,
              Keeps-settle p intent.id ambiguous "no single defect case to record" (λ e. cc),
            )
            depth 14))
        λ _.
          Triple-attempt
            (Spends-write r.id m _ _
              λ _. search (once_rules, Keeps-settle p intent.id confirmed m (λ _. named)) depth 14)
            λ x. Triple-of_Keeps (Keeps-not_asked intent.id x)

  pub Keeps-media_case : {n : ℕ} (r : Repair) → Keeps (IsRoom id kind mark n) (media_case p t c r)
  unfolding media_case
  Keeps-media_case r = search once_rules

  Keeps-ask_row :
      (r : Repair) (stage : Stage) (subject : String)
      → Keeps (IsRoom id kind mark 0) (ask_row p t c r stage subject)
  unfolding ask_row ask_once
  Keeps-ask_row r stage subject =
      Keeps-intended p r.id message _ _
        (λ intent.
          Triple-if (not (is_intended intent.state) || false)
            (λ _. Spends-of_Keeps (search once_rules))
            λ _. Triple-quiet p (Keeps-media_case r) λ case_name.
              Spends-send_request r stage subject _ intent case_name
                (is_blank-media_mark c r subject stage))
        (λ intent _.
          Triple-if (not (is_intended intent.state) || true)
            (λ _. Spends-of_Keeps (search once_rules))
            λ off. absurd (again (not (is_intended intent.state)) off))
    where
      again : (b : Bool) → (b || true) ≡ false → ⊥
      again true h = cc
      again false h = cc

  pub Keeps-ask_for_media :
      (i : ℕ) (stage : Stage) (subject : String)
      → Keeps (IsRoom id kind mark 0) (ask_for_media p t c i stage subject)
  unfolding ask_for_media
  Keeps-ask_for_media i stage subject = search (once_rules, Keeps-ask_row) depth 14
