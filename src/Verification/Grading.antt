-- ===== src/Verification/Grading.antt =====
-- portal/verification.py, `grade`: the verdict that the assertions of a report support.
pub mod Held
pub mod Sound
use devin_automation.Prelude.{
  ℕ, suc, ◌+◌, String, Bool, true, false, not, ◌&&◌, ◌||◌, Option, none, some, List, [], ◌∷◌, ◌++◌,
  ◌⊎◌, inl, inr, any, keep, map, mem, length, concat, or_text, is_blank, ◌==◌, string_eq,
  if◌then◌else◌,
}
use devin_automation.Registry.{required_checks}
use devin_automation.Repairs.Types.{VerdictKind, passed, failed, blocked}
use devin_automation.Verification.Scope.{no_entries}
use devin_automation.Verification.Report.{CheckRow, CheckEntry, CaseRow, CaseEntry, Report}

-- GRADED_KINDS and KNOWN_KINDS
abbrev pub is_graded : String → Bool
is_graded kind = mem kind ("target" ∷ "control" ∷ [])

abbrev pub is_known_kind : String → Bool
is_known_kind kind = mem kind ("target" ∷ "control" ∷ "setup" ∷ [])

abbrev unnamed : String → String
unnamed name = or_text name "<unnamed>"

-- The dictionary `graded`, in the order of its keys.
abbrev pub Graded : Type 0
Graded = List (String × Bool)

abbrev pub graded_names : Graded → List String
graded_names graded = map (λ (g : String × Bool). g.0) graded

-- The loop of `_grade_case`: why it stops, or what was graded.
unfoldable pub grade_checks : String → List String → List CheckEntry → Graded → String ⊎ Graded
grade_checks name required [] graded = inr graded
grade_checks name required (CheckEntry.not_a_record ∷ rest) graded =
    inl (concat ("case " ∷ name ∷ " reported an assertion that is not a record" ∷ []))
grade_checks name required (CheckEntry.check c ∷ rest) graded =
    let skip = grade_checks name required rest graded in
    let next = λ (holds : Bool). grade_checks name required rest (graded ++ (c.name, holds) ∷ []) in
    if not (is_known_kind c.kind)
    then inl (concat (name ∷ "." ∷ unnamed c.name ∷ " has no usable kind" ∷ []))
    else if not (is_graded c.kind)
    then skip
    else if not (mem c.name required)
    then inl (concat (name ∷ "." ∷ unnamed c.name ∷ " is not a registered assertion" ∷ []))
    else if mem c.name (graded_names graded)
    then inl (concat (name ∷ "." ∷ c.name ∷ " was reported twice" ∷ []))
    else elim c.holds [
      | none ↦ inl (concat (name ∷ "." ∷ c.name ∷ " did not record whether it held" ∷ []))
      | some holds ↦ next holds
    ]

abbrev pub is_false : Option Bool → Bool
is_false (some false) = true
is_false _ = false

abbrev pub failed_row : CheckEntry → Bool
failed_row (CheckEntry.check c) = is_graded c.kind && is_false c.holds
failed_row CheckEntry.not_a_record = false

abbrev pub failure_line : String → CheckEntry → String
failure_line name (CheckEntry.check c) = concat (
    name
    ∷ "."
    ∷ c.name
    ∷ ": expected "
    ∷ c.expected
    ∷ ", observed "
    ∷ c.observed
    ∷ (if is_blank c.note then "" else concat (" (" ∷ c.note ∷ ")" ∷ []))
    ∷ [])
failure_line name CheckEntry.not_a_record = ""

-- `", ".join(...)`
unfoldable pub comma : List String → String
comma [] = ""
comma (a ∷ []) = a
comma (a ∷ b ∷ rest) = concat (a ∷ ", " ∷ comma (b ∷ rest) ∷ [])

abbrev pub absent_from : List String → List String → List String
absent_from there wanted = keep (λ name. not (mem name there)) wanted

-- `_grade_case`, once every assertion was read: why the case says nothing, or its failure lines.
unfoldable pub close_case :
    String → List String → List CheckEntry → String ⊎ Graded → String ⊎ List String
unfolding comma
close_case name required checks (inl problem) = inl problem
close_case name required checks (inr graded) =
    let absent = absent_from (graded_names graded) required in
    if not (no_entries absent)
    then inl (concat ("case " ∷ name ∷ " never executed " ∷ comma absent ∷ []))
    else inr (map (failure_line name) (keep failed_row checks))

unfoldable pub grade_listed : String → List String → Option (List CheckEntry) → String ⊎ List String
unfolding grade_checks close_case
grade_listed name required none = inl (concat ("case " ∷ name ∷ " reported no assertions" ∷ []))
grade_listed name required (some checks) =
    close_case name required checks (grade_checks name required checks [])

-- `_grade_case`
unfoldable pub grade_case : String → CaseRow → String ⊎ List String
unfolding grade_listed
grade_case name r =
    if no_entries (required_checks name)
    then inl (concat ("no registered assertions exist for case " ∷ name ∷ []))
    else grade_listed name (required_checks name) r.checks

-- The lists that the loop of `grade` fills.
pub record Tally : Type 0 where
  pub seen : List String
  pub failures : List String
  pub blocked_lines : List String

abbrev pub is_blocked_row : CaseRow → Bool
is_blocked_row r = r.verdict == "blocked" || not (is_blank r.blocked_reason)

abbrev blocked_line : CaseRow → String
blocked_line r =
    concat (r.case_name ∷ ": blocked — " ∷ or_text r.blocked_reason "no reason given" ∷ [])

-- The loop of `grade`: why it stops, or what it gathered.
unfoldable pub grade_rows : List String → List CaseEntry → Tally → String ⊎ Tally
unfolding grade_case
grade_rows cases [] t = inr t
grade_rows cases (CaseEntry.not_a_record ∷ rest) t = inl "a case result is not a record"
grade_rows cases (CaseEntry.result r ∷ rest) t =
    let t' = record t { seen = t.seen ++ r.case_name ∷ [] } in
    let held_back =
      grade_rows cases rest
        (record t' { blocked_lines = t.blocked_lines ++ blocked_line r ∷ [] }) in
    let next = λ (lines : List String).
      grade_rows cases rest (record t' { failures = t.failures ++ lines }) in
    if mem r.case_name t.seen
    then inl (concat ("case " ∷ r.case_name ∷ " was reported more than once" ∷ []))
    else if not (mem r.case_name cases)
    then inl (
        concat
          ("the replay reported case " ∷ unnamed r.case_name ∷ ", which was not requested" ∷ []))
    else if is_blocked_row r
    then held_back
    else elim (grade_case r.case_name r) [ inl problem ↦ inl problem | inr lines ↦ next lines ]

-- What `grade` answers once every result was read.
unfoldable pub close_tally : List String → String ⊎ Tally → VerdictKind × List String
close_tally cases (inl problem) = (blocked, problem ∷ [])
close_tally cases (inr t) =
    let missing = absent_from t.seen cases in
    if not (no_entries missing)
    then (blocked, map (λ name. concat ("case " ∷ name ∷ " never ran" ∷ [])) missing)
    else if not (no_entries t.blocked_lines)
    then (blocked, t.blocked_lines)
    else if not (no_entries t.failures)
    then (failed, t.failures)
    else (passed, [])

unfoldable pub grade_results : List String → Option (List CaseEntry) → VerdictKind × List String
unfolding grade_rows close_tally
grade_results cases none = (blocked, "the replay produced no case results" ∷ [])
grade_results cases (some []) = (blocked, "the replay produced no case results" ∷ [])
grade_results cases (some (r ∷ rest)) =
    close_tally cases
      (grade_rows cases (r ∷ rest) (record { seen = []; failures = []; blocked_lines = [] }))

unfoldable pub grade : Report → List String → VerdictKind × List String
unfolding grade_results
grade report cases = grade_results cases report.cases

-- `graded_checks`: the number of graded assertions of a report.
unfoldable pub graded_in : List CheckEntry → ℕ
graded_in [] = 0
graded_in (CheckEntry.not_a_record ∷ rest) = graded_in rest
graded_in (CheckEntry.check c ∷ rest) =
    if is_graded c.kind then suc (graded_in rest) else graded_in rest

unfoldable pub graded_of : Option (List CheckEntry) → ℕ
unfolding graded_in
graded_of none = 0
graded_of (some checks) = graded_in checks

unfoldable pub graded_rows : List CaseEntry → ℕ
unfolding graded_of
graded_rows [] = 0
graded_rows (CaseEntry.not_a_record ∷ rest) = graded_rows rest
graded_rows (CaseEntry.result r ∷ rest) = graded_of r.checks + graded_rows rest

unfoldable pub graded_checks : Report → ℕ
unfolding graded_rows
graded_checks report = elim report.cases [ none ↦ 0 | some rows ↦ graded_rows rows ]
