-- ===== src/Controller/Captures.antt =====
-- portal/controller.py, `_find_capture`: which recording of a session is taken.
use devin_automation.Prelude.{
  ℕ, ◌+◌, ◌≤◌, ltb, ◌&&◌, Bool, sym, ◌∙◌, lower, upper, strip, is_blank-guard, is_blank-veto,
  is_blank-concat_first, String, true, false, not, Option, none, some, List, [], ◌∷◌, ◌++◌, ◌≡◌,
  refl, arith, ◌⊎◌, inl, inr, is_blank, or_text, ◌==◌, string_eq, if_rule, if◌then◌else◌,
  Bool-cases,
}
use devin_automation.Repairs.Types.{Repair, Verdict, Stage, symptom, after_merge}
use devin_automation.Controller.Providers.{Providers, Texts, Config, Attachment, Capture}
use devin_automation.Controller.Media.{
  capture_problem, stale_capture, first_capture, capture_fault, same_stage, asked_time,
}

-- When the recording was asked for: the request's time, or the verdict's.
abbrev pub reference : Repair → Option ℕ
reference r = elim r.media_asked_at [
  | some at ↦ some at
  | none ↦ elim r.merge_verification [ some verdict ↦ some verdict.at | none ↦ none ]
]

-- The recording is stamped not more than two minutes before it was asked for, and not more than two minutes
-- after `at`.
pub record IsTimely (r : Repair) (at : ℕ) (capture : Capture) : Type 0 where
  pub asked : ℕ
  pub was_asked : reference r ≡ some asked
  pub not_before : asked ≤ capture.recorded_at + 120000
  pub not_after : capture.recorded_at ≤ at + 120000

-- The agent's own recording, whose name says this stage, commit and case, and a time that fits.
pub record IsEvidence {W : Type 0} (p : Providers W) (r : Repair) (subject case_name : String)
    (stage : Stage) (at : ℕ) (a : Attachment) (capture : Capture) : Type 0 where
  pub from_agent : a.source ≡ "devin"
  pub read_from_name : p.capture_of a.name ≡ some capture
  pub of_stage : capture.stage ≡ stage
  pub of_commit : capture.sha ≡ lower (strip subject)
  pub of_case : (is_blank case_name ≡ true) ⊎ (capture.case_name ≡ upper case_name)
  pub timely : IsTimely r at capture

both_true : (a b : Bool) → (a && b) ≡ true → (a ≡ true) × (b ≡ true)
both_true true b h = (refl, h)
both_true false b h = cc

same_stage-equal : (a b : Stage) → same_stage a b ≡ true → a ≡ b
same_stage-equal symptom symptom h = refl
same_stage-equal after_merge after_merge h = refl
same_stage-equal symptom after_merge h = cc
same_stage-equal after_merge symptom h = cc

equal : (a b : String) → (a == b) ≡ true → a ≡ b
equal a b h = (string_eq.same_iff a b).0 h

capture_problem_lem :
    (capture : Capture) (subject case_name : String) (stage : Stage)
    → is_blank (capture_problem capture subject case_name stage) ≡ (
        same_stage capture.stage stage
        && (capture.sha == lower (strip subject)
            && (not (not (is_blank case_name) && not (capture.case_name == upper case_name))
                && true)))
unfolding capture_problem
capture_problem_lem capture subject case_name stage =
    is_blank-guard (same_stage capture.stage stage) _ _ _
      (is_blank-concat_first "the capture is " _ refl)
      (is_blank-guard (capture.sha == lower (strip subject)) _ _ _
        (is_blank-concat_first "the capture names " _ refl)
        (is_blank-veto (not (is_blank case_name) && not (capture.case_name == upper case_name)) _ _
          _ (is_blank-concat_first "the capture is of " _ refl) refl))

named_case :
    (case_name found wanted : String)
    → not (not (is_blank case_name) && not (found == wanted)) ≡ true
    → (is_blank case_name ≡ true) ⊎ (found ≡ wanted)
named_case case_name found wanted h = elim (Bool-cases (is_blank case_name)) [
  | inl blank ↦ inl blank
  | inr named ↦ inr (equal found wanted (matches (found == wanted) named h))
]
  where
    matches :
        (b : Bool)
        → is_blank case_name ≡ false
        → not (not (is_blank case_name) && not b) ≡ true
        → b ≡ true
    matches true named h = refl
    matches false named h = cc (rw named at h)

asked_time-reference : (r : Repair) → reference r ≡ asked_time r.media_asked_at r.merge_verification
asked_time-reference r = same r.media_asked_at r.merge_verification
  where
    same :
        (asked : Option ℕ) (verdict : Option Verdict)
        → elim asked [
          | some at ↦ some at
          | none ↦ elim verdict [ some verdict ↦ some verdict.at | none ↦ none ]
        ]
          ≡ asked_time asked verdict
    same (some at) verdict = refl
    same none (some verdict) = refl
    same none none = refl

judged-IsTimely :
    (r : Repair) (at : ℕ) (capture : Capture) (never early late : String) (found : Option ℕ)
    → is_blank never ≡ false
    → is_blank early ≡ false
    → is_blank late ≡ false
    → reference r ≡ found
    → is_blank (elim found [
      | none ↦ never
      | some asked ↦
          if ltb (capture.recorded_at + 120000) asked
          then early
          else if ltb (at + 120000) capture.recorded_at
          then late
          else ""
    ])
      ≡ true
    → IsTimely r at capture
judged-IsTimely r at capture never early late none hn he hl e h = absurd (cc (hn, h))
judged-IsTimely r at capture never early late (some asked) hn he hl e h = record {
  asked = asked;
  was_asked = e;
  not_before = ground arith;
  not_after = ground arith;
}

stale_capture-IsTimely :
    {W : Type 0} (p : Providers W) (t : Texts) (c : Config) (r : Repair) (capture : Capture)
    (at : ℕ)
    → is_blank (stale_capture p t c r capture at) ≡ true
    → IsTimely r at capture
unfolding stale_capture
stale_capture-IsTimely p t c r capture at h =
    judged-IsTimely r at capture _ _ _ (asked_time r.media_asked_at r.merge_verification) refl
      (is_blank-concat_first "the capture is stamped " _ refl)
      (is_blank-concat_first "the capture is stamped " _ refl) (asked_time-reference r) h

module _ {W : Type 0} (p : Providers W) (t : Texts) (c : Config) (r : Repair)
    (subject case_name : String) (stage : Stage) (at : ℕ) where
  abbrev pub TakesEvidence : (Attachment × Capture) ⊎ String → Type 0
  TakesEvidence (inl (a, capture)) = IsEvidence p r subject case_name stage at a capture
  TakesEvidence (inr problem) = Unit

  both_blank :
      (x y : String) → is_blank (or_text x y) ≡ true → (is_blank x ≡ true) × (is_blank y ≡ true)
  both_blank x y h = elim (Bool-cases (is_blank x)) [
    | inl blank ↦ (blank, rw blank at h)
    | inr named ↦ absurd (never named h)
  ]
    where
      never : is_blank x ≡ false → is_blank (or_text x y) ≡ true → ⊥
      never named h = cc (rw named at h)

  evidence :
      (a : Attachment) (capture : Capture)
      → not (a.source == "devin") ≡ false
      → p.capture_of a.name ≡ some capture
      → is_blank (capture_fault p t c r capture subject case_name stage at) ≡ true
      → IsEvidence p r subject case_name stage at a capture
  unfolding capture_fault
  evidence a capture own found blank =
      let fits = both_blank _ _ blank in
      let guards =
        both_true _ _ (sym (capture_problem_lem capture subject case_name stage) ∙ fits.0) in
      let texts = both_true _ _ guards.1 in
      record {
        from_agent = equal a.source "devin" (ground arith);
        read_from_name = found;
        of_stage = same_stage-equal _ _ guards.0;
        of_commit = equal _ _ texts.0;
        of_case = named_case case_name _ _ (both_true _ _ texts.1).0;
        timely = stale_capture-IsTimely p t c r capture at fits.1;
      }

  -- Whatever the session lists, a recording that is taken is the agent's own; its name says this stage, this
  -- commit, up to the case and the blanks around the given one, and this case, in capitals, if one is given; and
  -- it is stamped not more than two minutes before it was asked for, by the request's time or else the verdict's,
  -- and not more than two minutes after the time of the search.
  pub first_capture-TakesEvidence :
      (rejected : List String) (listed : List Attachment)
      → TakesEvidence (first_capture p t c r subject case_name stage at rejected listed)
  unfolding first_capture
  first_capture-TakesEvidence rejected [] = tt
  first_capture-TakesEvidence rejected (a ∷ rest) =
      if_rule TakesEvidence (not (a.source == "devin"))
        (λ _. first_capture-TakesEvidence rejected rest)
        λ own.
          read (p.capture_of a.name) refl own (first_capture-TakesEvidence rejected rest)
            (λ problem. first_capture-TakesEvidence (rejected ++ problem ∷ []) rest)
    where
      read :
          (found : Option Capture)
          → p.capture_of a.name ≡ found
          → not (a.source == "devin") ≡ false
          → TakesEvidence (first_capture p t c r subject case_name stage at rejected rest)
          → ((problem : String)
              → TakesEvidence (
                  first_capture p t c r subject case_name stage at (rejected ++ problem ∷ []) rest))
          → TakesEvidence (elim found [
            | none ↦ first_capture p t c r subject case_name stage at rejected rest
            | some capture ↦
                let problem = capture_fault p t c r capture subject case_name stage at in
                let later =
                  first_capture p t c r subject case_name stage at
                    (rejected ++ problem ∷ [])
                    rest in
                if is_blank problem then inl (a, capture) else later
          ])
      read none e own skip later = skip
      read (some capture) e own skip later =
          if_rule TakesEvidence
            (is_blank (capture_fault p t c r capture subject case_name stage at))
            (λ blank. evidence a capture own e blank) (λ _. later _)
