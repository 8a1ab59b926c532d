-- ===== src/Verification/Grading/Sound.antt =====
-- portal/verification.py, `grade`: what a report must hold for the grade to be a pass.
use devin_automation.Prelude.{
  ◌≤◌, String, Bool, true, false, not, ◌&&◌, ◌||◌, Option, none, some, List, [], ◌∷◌, ◌++◌, ◌≡◌, ap,
  sym, ◌∙◌, refl, arith, ◌⊎◌, inl, inr, any, all, All, subst, eq_iff, mem, count_if, ◌==◌,
  string_eq, if_rule, Bool-cases,
}
use devin_automation.Repairs.Types.{VerdictKind, passed}
use devin_automation.Verification.Scope.{no_entries}
use devin_automation.Verification.Report.{CaseRow, CaseEntry, Report}
use devin_automation.Verification.Grading.{
  is_blocked_row, absent_from, grade_case, Tally, grade_rows, close_tally, grade_results, grade,
}
use devin_automation.Verification.Grading.Held.{AreHeld, Claims, all-absent, grade_case-Claims}

abbrev pub is_row : String → CaseEntry → Bool
is_row name (CaseEntry.result r) = name == r.case_name
is_row name CaseEntry.not_a_record = false

abbrev pub IsAnswer : List String → CaseEntry → Type 0
IsAnswer cases CaseEntry.not_a_record = ⊥
IsAnswer cases (CaseEntry.result r) =
    (mem r.case_name cases ≡ true) × (is_blocked_row r ≡ false) × AreHeld r.case_name r.checks

abbrev quiet : Tally → Bool
quiet t = no_entries t.failures && no_entries t.blocked_lines

record IsRead (cases : List String) (t : Tally) (rows : List CaseEntry) (t' : Tally) : Type 0 where
  quiet_before : quiet t ≡ true
  answers : All (IsAnswer cases) rows
  seen_after : (k : String) → mem k t'.seen ≡ (mem k t.seen || any (is_row k) rows)
  not_again : (k : String) → mem k t.seen ≡ true → count_if (is_row k) rows ≡ 0
  once : (k : String) → count_if (is_row k) rows ≤ 1

abbrev Reads : List String → Tally → List CaseEntry → String ⊎ Tally → Type 0
Reads cases t rows (inl problem) = Unit
Reads cases t rows (inr t') = quiet t' ≡ true → IsRead cases t rows t'

mem-seen :
    (k : String) (names : List String) (last : String)
    → mem k (names ++ last ∷ []) ≡ (mem k names || k == last)
mem-seen k [] last = ground arith
mem-seen k (x ∷ names) last = ground (arith, mem-seen k names last)

Reads-blocked :
    (cases : List String) (t t' : Tally) (line : String) (row : CaseEntry) (rows : List CaseEntry)
    (r : String ⊎ Tally)
    → t'.blocked_lines ≡ t.blocked_lines ++ line ∷ []
    → Reads cases t' rows r
    → Reads cases t (row ∷ rows) r
Reads-blocked cases t t' line row rows (inl problem) e h = tt
Reads-blocked cases t t' line row rows (inr last) e h = λ q. absurd (never (h q).quiet_before)
  where
    loud : (xs : List String) → no_entries (xs ++ line ∷ []) ≡ false
    loud [] = refl
    loud (x ∷ xs) = refl

    never : quiet t' ≡ true → ⊥
    never q = ground (arith, loud t.blocked_lines, e)

no_entries-append : (xs ys : List String) → no_entries (xs ++ ys) ≡ (no_entries xs && no_entries ys)
no_entries-append [] ys = refl
no_entries-append (x ∷ xs) ys = refl

Reads-row :
    (cases : List String) (t : Tally) (row : CaseRow) (lines : List String) (rows : List CaseEntry)
    (r : String ⊎ Tally)
    → mem row.case_name t.seen ≡ false
    → mem row.case_name cases ≡ true
    → is_blocked_row row ≡ false
    → Claims row.case_name row.checks (inr lines)
    → Reads cases
        (record {
          seen = t.seen ++ row.case_name ∷ [];
          failures = t.failures ++ lines;
          blocked_lines = t.blocked_lines;
        })
        rows
        r
    → Reads cases t (CaseEntry.result row ∷ rows) r
Reads-row cases t row lines rows (inl problem) new asked ran claims h = tt
Reads-row cases t row lines rows (inr last) new asked ran claims h = λ q.
    let rest = h q in
    let both = no_entries-append t.failures lines in
    record {
      quiet_before = ground (arith, rest.quiet_before, both);
      answers = ((asked, ran, claims (ground (arith, rest.quiet_before, both))), rest.answers);
      seen_after = λ k. ground (arith, rest.seen_after k, mem-seen k t.seen row.case_name);
      not_again = λ k there. elim (Bool-cases (k == row.case_name)) [
        | inl same ↦ absurd (
            ground (arith, subst (λ (j : String). mem j t.seen ≡ true) ((eq_iff _ _).0 same) there))
        | inr other ↦ ground (arith, rest.not_again k, mem-seen k t.seen row.case_name)
      ];
      once = λ k. ground (arith, rest.not_again k, mem-seen k t.seen row.case_name, rest.once k);
    }

grade_rows-Reads :
    (cases : List String) (rows : List CaseEntry) (t : Tally)
    → Reads cases t rows (grade_rows cases rows t)
unfolding grade_rows
grade_rows-Reads cases [] t = λ q. record {
  quiet_before = q;
  answers = tt;
  seen_after = λ k. ground arith;
  not_again = λ k h. refl;
  once = λ k. omega arith;
}
grade_rows-Reads cases (CaseEntry.not_a_record ∷ rest) t = tt
grade_rows-Reads cases (CaseEntry.result r ∷ rest) t =
    if_rule P (mem r.case_name t.seen) (λ _. tt)
      λ new.
        if_rule P (not (mem r.case_name cases)) (λ _. tt)
          λ asked.
            if_rule P (is_blocked_row r)
              (λ _.
                Reads-blocked cases t _ _ (CaseEntry.result r) rest _ refl
                  (grade_rows-Reads cases rest _))
              λ ran.
                graded (grade_case r.case_name r) (grade_case-Claims r.case_name r) new
                  (ground arith) ran λ lines. grade_rows-Reads cases rest (after lines)
  where
    P : String ⊎ Tally → Type 0
    P = Reads cases t (CaseEntry.result r ∷ rest)

    after : List String → Tally
    after lines = record {
      seen = t.seen ++ r.case_name ∷ [];
      failures = t.failures ++ lines;
      blocked_lines = t.blocked_lines;
    }

    graded :
        (found : String ⊎ List String)
        → Claims r.case_name r.checks found
        → mem r.case_name t.seen ≡ false
        → mem r.case_name cases ≡ true
        → is_blocked_row r ≡ false
        → ((lines : List String)
            → Reads cases (after lines) rest (grade_rows cases rest (after lines)))
        → P (elim found [
          | inl problem ↦ inl problem
          | inr lines ↦ grade_rows cases rest (after lines)
        ])
    graded (inl problem) claims new asked ran h = tt
    graded (inr lines) claims new asked ran h =
        Reads-row cases t r lines rest _ new asked ran claims (h lines)

-- Each requested case is answered by exactly one result.
pub record IsPass (rows : List CaseEntry) (cases : List String) : Type 0 where
  pub answered : all (λ name. any (is_row name) rows) cases ≡ true
  pub answers : All (IsAnswer cases) rows
  pub once : (name : String) → count_if (is_row name) rows ≤ 1

abbrev pub PassOf : Option (List CaseEntry) → List String → Type 0
PassOf none cases = ⊥
PassOf (some rows) cases = IsPass rows cases

all-seen :
    (names cases : List String) (there : String → Bool)
    → ((name : String) → mem name names ≡ there name)
    → no_entries (absent_from names cases) ≡ true
    → all there cases ≡ true
all-seen names cases there same h = all-absent names cases there (λ name m. sym (same name) ∙ m) h

close_tally-IsPass :
    (cases : List String) (t : Tally) (rows : List CaseEntry) (r : String ⊎ Tally)
    → t.seen ≡ []
    → Reads cases t rows r
    → (close_tally cases r).0 ≡ passed
    → IsPass rows cases
unfolding close_tally
close_tally-IsPass cases t rows (inl problem) e h = λ p. cc
close_tally-IsPass cases t rows (inr t') e h =
    if_rule P (not (no_entries (absent_from t'.seen cases))) (λ _ p. cc)
      λ complete.
        if_rule P (not (no_entries t'.blocked_lines)) (λ _ p. cc)
          λ unblocked.
            if_rule P (not (no_entries t'.failures)) (λ _ p. cc)
              λ clean p.
                let read = h (ground arith) in
                record {
                  answered =
                      all-seen t'.seen cases _
                        (λ name.
                          read.seen_after name
                          ∙ ap (λ (seen : List String). mem name seen || any (is_row name) rows) e)
                        (ground arith);
                  answers = read.answers;
                  once = read.once;
                }
  where
    P : VerdictKind × List String → Type 0
    P = λ v. v.0 ≡ passed → IsPass rows cases

grade_results-PassOf :
    (cases : List String) (found : Option (List CaseEntry))
    → (grade_results cases found).0 ≡ passed
    → PassOf found cases
unfolding grade_results
grade_results-PassOf cases none p = cc
grade_results-PassOf cases (some []) p = cc
grade_results-PassOf cases (some (r ∷ rest)) p =
    close_tally-IsPass cases _ (r ∷ rest) _ refl (grade_rows-Reads cases (r ∷ rest) _) p

-- A grade is a pass only if each requested case has exactly one result and no other case has one, no
-- result is blocked, and in each result every registered assertion of the case held and no graded one
-- failed.
pub grade-IsPass :
    (report : Report) (cases : List String)
    → (grade report cases).0 ≡ passed
    → PassOf report.cases cases
unfolding grade
grade-IsPass report cases = grade_results-PassOf cases report.cases
