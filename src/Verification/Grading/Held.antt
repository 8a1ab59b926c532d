-- ===== src/Verification/Grading/Held.antt =====
-- portal/verification.py, `_grade_case`: what a case that adds no failure line holds.
use devin_automation.Prelude.{
  String, Bool, true, false, not, ◌&&◌, ◌||◌, Option, none, some, List, [], ◌∷◌, ◌++◌, ◌≡◌, refl,
  arith, ◌⊎◌, inl, inr, any, all, keep, map, mem, ◌==◌, string_eq, if_rule,
}
use devin_automation.Registry.{required_checks}
use devin_automation.Verification.Scope.{no_entries}
use devin_automation.Verification.Report.{CheckRow, CheckEntry, CaseRow}
use devin_automation.Verification.Grading.{
  is_graded, is_known_kind, failed_row, Graded, graded_names, grade_checks, absent_from, close_case,
  grade_listed, grade_case, failure_line,
}

abbrev is_true : Option Bool → Bool
is_true (some true) = true
is_true _ = false

-- A graded assertion of a name, which held.
abbrev pub is_held : String → CheckEntry → Bool
is_held name (CheckEntry.check c) = is_graded c.kind && (name == c.name && is_true c.holds)
is_held name CheckEntry.not_a_record = false

-- Each registered assertion of the case held, and no graded one failed.
pub record IsHeld (name : String) (checks : List CheckEntry) : Type 0 where
  pub registered : no_entries (required_checks name) ≡ false
  pub all_held : all (λ check. any (is_held check) checks) (required_checks name) ≡ true
  pub none_failed : any failed_row checks ≡ false

abbrev pub AreHeld : String → Option (List CheckEntry) → Type 0
AreHeld name none = ⊥
AreHeld name (some checks) = IsHeld name checks

mem-snoc :
    (name : String) (graded : Graded) (last : String × Bool)
    → mem name (graded_names (graded ++ last ∷ []))
      ≡ (mem name (graded_names graded) || name == last.0)
mem-snoc name [] last = ground arith
mem-snoc name (g ∷ graded) last = ground (arith, mem-snoc name graded last)

abbrev Backed : String → List CheckEntry → Graded → String ⊎ Graded → Type 0
Backed name checks graded (inl problem) = Unit
Backed name checks graded (inr g) =
    mem name (graded_names g) ≡ true
    → (mem name (graded_names graded) || (any (is_held name) checks || any failed_row checks))
      ≡ true

Backed-more :
    (name : String) (entry : CheckEntry) (checks : List CheckEntry) (graded : Graded)
    (r : String ⊎ Graded)
    → Backed name checks graded r
    → Backed name (entry ∷ checks) graded r
Backed-more name entry checks graded (inl problem) h = tt
Backed-more name entry checks graded (inr g) h = λ m. ground (arith, h m)

Backed-next :
    (name : String) (c : CheckRow) (holds : Bool) (checks : List CheckEntry) (graded : Graded)
    (r : String ⊎ Graded)
    → is_graded c.kind ≡ true
    → c.holds ≡ some holds
    → Backed name checks (graded ++ (c.name, holds) ∷ []) r
    → Backed name (CheckEntry.check c ∷ checks) graded r
Backed-next name c holds checks graded (inl problem) k e h = tt
Backed-next name c true checks graded (inr g) k e h =
    let row : is_held name (CheckEntry.check c) ≡ (name == c.name) = rw (k, e) (ground arith) in
    λ m. ground (arith, h m, mem-snoc name graded (c.name, true), row)
Backed-next name c false checks graded (inr g) k e h =
    let row : failed_row (CheckEntry.check c) ≡ true = rw (k, e) refl in λ m. ground (arith, row)

Backed-grade :
    (name check : String) (required : List String) (checks : List CheckEntry) (graded : Graded)
    → Backed check checks graded (grade_checks name required checks graded)
unfolding grade_checks
Backed-grade name check required [] graded = λ m. rw m refl
Backed-grade name check required (CheckEntry.not_a_record ∷ rest) graded = tt
Backed-grade name check required (CheckEntry.check c ∷ rest) graded =
    if_rule P (not (is_known_kind c.kind)) (λ _. tt)
      λ _.
        if_rule P (not (is_graded c.kind))
          (λ _.
            Backed-more check (CheckEntry.check c) rest graded _
              (Backed-grade name check required rest graded))
          λ k.
            if_rule P (not (mem c.name required)) (λ _. tt)
              λ _.
                if_rule P (mem c.name (graded_names graded)) (λ _. tt)
                  λ _.
                    recorded _ c.holds refl (ground arith) λ holds.
                      Backed-grade name check required rest (graded ++ (c.name, holds) ∷ [])
  where
    P : String ⊎ Graded → Type 0
    P = Backed check (CheckEntry.check c ∷ rest) graded

    recorded :
        (problem : String) (holds : Option Bool)
        → c.holds ≡ holds
        → is_graded c.kind ≡ true
        → ((b : Bool)
            → Backed check rest
                (graded ++ (c.name, b) ∷ [])
                (grade_checks name required rest (graded ++ (c.name, b) ∷ [])))
        → P (elim holds [
          | none ↦ inl problem
          | some b ↦ grade_checks name required rest (graded ++ (c.name, b) ∷ [])
        ])
    recorded problem none e k h = tt
    recorded problem (some b) e k h = Backed-next check c b rest graded _ k e (h b)

no_entries-keep :
    (checks : List CheckEntry) (name : String)
    → no_entries (map (failure_line name) (keep failed_row checks)) ≡ true
    → any failed_row checks ≡ false
no_entries-keep [] name h = refl
no_entries-keep (c ∷ rest) name h = ground (arith, no_entries-keep rest name)

pub all-absent :
    (names required : List String) (held : String → Bool)
    → ((check : String) → mem check names ≡ true → held check ≡ true)
    → no_entries (absent_from names required) ≡ true
    → all held required ≡ true
all-absent names [] held each h = refl
all-absent names (check ∷ required) held each h =
    ground (arith, each check, all-absent names required held each)

abbrev pub Claims : String → Option (List CheckEntry) → String ⊎ List String → Type 0
Claims name checks (inl problem) = Unit
Claims name checks (inr lines) = no_entries lines ≡ true → AreHeld name checks

close_case-Claims :
    (name : String) (checks : List CheckEntry) (r : String ⊎ Graded)
    → no_entries (required_checks name) ≡ false
    → ((check : String) → Backed check checks [] r)
    → Claims name (some checks) (close_case name (required_checks name) checks r)
unfolding close_case
close_case-Claims name checks (inl problem) known backed = tt
close_case-Claims name checks (inr graded) known backed =
    if_rule (Claims name (some checks))
      (not (no_entries (absent_from (graded_names graded) (required_checks name)))) (λ _. tt)
      λ complete quiet.
        let clean : any failed_row checks ≡ false = no_entries-keep checks name quiet in
        record {
          registered = known;
          all_held =
              all-absent (graded_names graded) (required_checks name)
                (λ check. any (is_held check) checks)
                (λ check m. ground (arith, backed check m, clean)) (ground arith);
          none_failed = clean;
        }

grade_listed-Claims :
    (name : String) (checks : Option (List CheckEntry))
    → no_entries (required_checks name) ≡ false
    → Claims name checks (grade_listed name (required_checks name) checks)
unfolding grade_listed
grade_listed-Claims name none known = tt
grade_listed-Claims name (some checks) known =
    close_case-Claims name checks _ known
      λ check. Backed-grade name check (required_checks name) checks []

pub grade_case-Claims : (name : String) (r : CaseRow) → Claims name r.checks (grade_case name r)
unfolding grade_case
grade_case-Claims name r =
    if_rule (Claims name r.checks) (no_entries (required_checks name)) (λ _. tt)
      (grade_listed-Claims name r.checks)
