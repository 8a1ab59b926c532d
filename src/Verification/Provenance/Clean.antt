-- ===== src/Verification/Provenance/Clean.antt =====
-- portal/verification.py, `provenance_problem`: which measured stacks stand for a commit.
use devin_automation.Prelude.{
  ℕ, arith, ◌+◌, ◌*◌, String, Bool, true, false, not, ◌&&◌, ◌||◌, Option, none, some, ◌≡◌, refl,
  sym, ap, ◌∙◌, [], ◌∷◌, List, any, map, is_blank, or_text, lower, ltb, ◌==◌, nat_eq, string_eq,
  if◌then◌else◌, is_blank-guard, is_blank-veto, is_blank-concat_first, Bool-cases, inl, inr,
}
use devin_automation.Verification.Provenance.{
  Host, ServiceData, AssetData, Measured, Environment, minute, max_age, is_asset_built, begins,
  resolved_inside, inside, service_problem, asset_problem, run_problem, age_problem,
  checkout_problem, measured_problem, provenance_problem,
}

is_blank-or_text : (a b : String) → is_blank (or_text a b) ≡ (is_blank a && is_blank b)
is_blank-or_text a b = elim (Bool-cases (is_blank a)) [
  | inl blank ↦ rw blank refl
  | inr named ↦ rw (named, named) refl
]

is_blank-both :
    (a b : String) (p q : Bool)
    → is_blank a ≡ p
    → is_blank b ≡ q
    → is_blank (or_text a b) ≡ (p && q)
is_blank-both a b p q ha hb = is_blank-or_text a b ∙ cc

-- Not more than six hours before `now`, and not more than five minutes after it.
abbrev pub is_fresh : Option ℕ → ℕ → Bool
is_fresh none now = false
is_fresh (some at) now = not (ltb (at + 21_600_000) now) && not (ltb (now + 300_000) at)

-- The family whose defect is in the frontend.
abbrev pub is_frontend : String → Bool
is_frontend family = family == "bigint_number_format_not_applied"

is_asset_built-is_frontend : (family : String) → is_frontend family ≡ is_asset_built family
is_asset_built-is_frontend family = ground arith

-- The guards, of a test that is described by another one.
guard_as :
    (b : Bool) {described : Bool} (problem rest : String) (passes : Bool)
    → b ≡ described
    → is_blank problem ≡ false
    → is_blank rest ≡ passes
    → is_blank (if not b then problem else rest) ≡ (described && passes)
guard_as b problem rest passes same named others =
    is_blank-guard b problem rest passes named others ∙ ap (λ b. b && passes) same

veto_as :
    (b : Bool) {described : Bool} (problem rest : String) (passes : Bool)
    → b ≡ described
    → is_blank problem ≡ false
    → is_blank rest ≡ passes
    → is_blank (if b then problem else rest) ≡ (not described && passes)
veto_as b problem rest passes same named others =
    is_blank-veto b problem rest passes named others ∙ ap (λ b. not b && passes) same

-- A path, as its parts, and its parents.
lineage : List String → List (List String)
lineage [] = [] ∷ []
lineage (part ∷ parts) = [] ∷ map (λ rest. part ∷ rest) (lineage parts)

same_parts : List String → List String → Bool
same_parts [] [] = true
same_parts (a ∷ left) (b ∷ right) = a == b && same_parts left right
same_parts _ _ = false

-- The second path, once resolved, is the first or one of its parents.
unfoldable pub is_within : Option (List String) → Option (List String) → Bool
unfolding lineage same_parts
is_within (some mount) (some root) = any (same_parts root) (lineage mount)
is_within _ _ = false

any-same_parts :
    (a part : String) (root : List String) (paths : List (List String))
    → any (same_parts (a ∷ root)) (map (λ rest. part ∷ rest) paths)
      ≡ (a == part && any (same_parts root) paths)
unfolding same_parts
any-same_parts a part root [] = ground arith
any-same_parts a part root (path ∷ rest) = ground (arith, any-same_parts a part root rest)

begins-lineage :
    (root mount : List String) → begins root mount ≡ any (same_parts root) (lineage mount)
unfolding same_parts lineage
begins-lineage [] [] = refl
begins-lineage [] (part ∷ mount) = refl
begins-lineage (a ∷ root) [] = refl
begins-lineage (a ∷ root) (part ∷ mount) =
    ap (λ b. a == part && b) (begins-lineage root mount)
    ∙ sym (any-same_parts a part root (lineage mount))

inside-is_within :
    (h : Host) (mount checkout : String)
    → inside h mount checkout ≡ is_within (h.resolve mount) (h.resolve checkout)
unfolding inside is_within
inside-is_within h mount checkout = resolved (h.resolve mount) (h.resolve checkout)
  where
    resolved :
        (mount root : Option (List String)) → resolved_inside mount root ≡ is_within mount root
    resolved (some mount) (some root) = begins-lineage root mount
    resolved none root = refl
    resolved (some mount) none = refl

module _ (h : Host) (environment : Environment) (head_sha : String) where
  -- The path, once resolved, is the candidate's checkout or lies under it.
  abbrev pub is_candidate_tree : String → Bool
  is_candidate_tree path = is_within (h.resolve path) (h.resolve environment.checkout)

  abbrev pub is_checked_out : Measured → Bool
  is_checked_out m =
      m.compose_project == environment.project
      && (not (is_blank m.checkout.code_hash)
          && (is_candidate_tree m.checkout.path
              && (lower m.checkout.source_sha == lower head_sha && (m.checkout.clean && true))))

  -- A service that runs source of the digest `expected_hash`.
  abbrev pub is_serving : String → Option ServiceData → Bool
  is_serving expected_hash none = false
  is_serving expected_hash (some d) =
      is_blank d.error
      && (not (is_blank d.container_id)
          && (not (is_blank d.image_id)
              && (d.state == "running"
                  && (not (or_text d.health "none" == "unhealthy")
                      && (not (is_blank d.source_mount || not (is_candidate_tree d.source_mount))
                          && (lower d.source_sha == lower head_sha
                              && (d.clean && (d.code_hash == expected_hash && true))))))))

  abbrev pub is_built : Option AssetData → Bool
  is_built none = false
  is_built (some a) =
      lower a.built_from_sha == lower head_sha
      && (not (a.files == 0 || is_blank a.bundle_hash) && true)

  abbrev pub is_labelled : Measured → String → Bool
  is_labelled m family =
      not (not (is_blank m.fixture.error) || is_blank m.fixture.digest)
      && (not (is_blank m.automation_ref)
          && (not (is_blank m.config_revision) && (not (is_frontend family) || is_built m.assets)))

  abbrev pub is_measured : Option Measured → String → ℕ → Bool
  is_measured none family now = false
  is_measured (some m) family now =
      is_fresh m.measured_at now
      && (is_checked_out m
          && (is_serving m.checkout.code_hash m.web
              && (is_serving m.checkout.code_hash m.mcp && is_labelled m family)))

  is_fresh-age_problem :
      (stamp : String) (at : Option ℕ) (now : ℕ)
      → is_blank (age_problem h stamp at now) ≡ is_fresh at now
  unfolding age_problem
  is_fresh-age_problem stamp none now =
      is_blank-concat_first "the candidate provenance carries no readable measurement time (" _ refl
  is_fresh-age_problem stamp (some at) now =
      is_blank-veto (ltb (at + max_age * minute) now) _ _ _
        (is_blank-concat_first "the candidate provenance was measured " _ refl)
        (last (ltb (now + 5 * minute) at))
    where
      last :
          (b : Bool)
          → is_blank (if b then "the candidate provenance is stamped in the future" else "") ≡ not b
      last true = refl
      last false = refl

  checkout_problem_lem :
      (m : Measured) → is_blank (checkout_problem h m environment head_sha) ≡ is_checked_out m
  unfolding checkout_problem
  checkout_problem_lem m =
      is_blank-guard (m.compose_project == environment.project) _ _ _
        (is_blank-concat_first "the provenance describes Compose project " _ refl)
        (is_blank-veto (is_blank m.checkout.code_hash) _ _ _ refl (
          guard_as (inside h m.checkout.path environment.checkout) _ _ _
            (inside-is_within h m.checkout.path environment.checkout)
            (is_blank-concat_first "the hashed tree " _ refl)
            (is_blank-guard (lower m.checkout.source_sha == lower head_sha) _ _ _
              (is_blank-concat_first "the candidate checkout is at " _ refl)
              (is_blank-guard m.checkout.clean _ _ _ refl refl))))

  service_problem_lem :
      (service : String) (d : Option ServiceData) (expected_hash : String)
      → is_blank (service_problem h service d environment head_sha expected_hash)
        ≡ is_serving expected_hash d
  unfolding service_problem
  service_problem_lem service none expected_hash =
      is_blank-concat_first "nothing usable was measured for the " _ refl
  service_problem_lem service (some d) expected_hash =
      is_blank-guard (is_blank d.error) _ _ _
        (is_blank-concat_first "nothing usable was measured for the " _ refl)
        (is_blank-veto (is_blank d.container_id) _ _ _ (is_blank-concat_first "the " _ refl) (
          is_blank-veto (is_blank d.image_id) _ _ _ (is_blank-concat_first "the " _ refl) (
            is_blank-guard (d.state == "running") _ _ _ (is_blank-concat_first "the " _ refl) (
              is_blank-veto (or_text d.health "none" == "unhealthy") _ _ _
                (is_blank-concat_first "the " _ refl)
                (veto_as
                  (is_blank d.source_mount || not (inside h d.source_mount environment.checkout)) _
                  _ _
                  (ap (λ b. is_blank d.source_mount || not b)
                    (inside-is_within h d.source_mount environment.checkout))
                  (is_blank-concat_first "the " _ refl)
                  (is_blank-guard (lower d.source_sha == lower head_sha) _ _ _
                    (is_blank-concat_first "the " _ refl)
                    (is_blank-guard d.clean _ _ _ (is_blank-concat_first "the " _ refl) (
                      is_blank-guard (d.code_hash == expected_hash) _ _ _
                        (is_blank-concat_first "the source inside the " _ refl) refl))))))))

  asset_problem_lem : (a : Option AssetData) → is_blank (asset_problem h a head_sha) ≡ is_built a
  unfolding asset_problem
  asset_problem_lem none = refl
  asset_problem_lem (some a) =
      is_blank-guard (lower a.built_from_sha == lower head_sha) _ _ _
        (is_blank-concat_first "the served frontend bundle was built from " _ refl)
        (is_blank-veto (a.files == 0 || is_blank a.bundle_hash) _ _ _ refl refl)

  if_built :
      (b : Bool) (problem : String) (passes : Bool)
      → is_blank problem ≡ passes
      → is_blank (if b then problem else "") ≡ (not b || passes)
  if_built true problem passes e = e
  if_built false problem passes e = refl

  run_problem_lem :
      (m : Measured) (family : String)
      → is_blank (run_problem h m head_sha family) ≡ is_labelled m family
  unfolding run_problem
  run_problem_lem m family =
      is_blank-veto (not (is_blank m.fixture.error) || is_blank m.fixture.digest) _ _ _
        (is_blank-concat_first "the fixture the run would read was not measured" _ refl)
        (is_blank-veto (is_blank m.automation_ref) _ _ _ refl (
          is_blank-veto (is_blank m.config_revision) _ _ _ refl (
            if_built (is_asset_built family) _ _ (asset_problem_lem m.assets)
            ∙ ap (λ b. not b || is_built m.assets) (sym (is_asset_built-is_frontend family)))))

  measured_problem_lem :
      (m : Option Measured) (family : String) (now : ℕ)
      → is_blank (measured_problem h m environment head_sha family now) ≡ is_measured m family now
  unfolding measured_problem
  measured_problem_lem none family now = refl
  measured_problem_lem (some m) family now =
      is_blank-both _ _ _ _ (is_fresh-age_problem m.stamp m.measured_at now) (
        is_blank-both _ _ _ _ (checkout_problem_lem m) (
          is_blank-both _ _ _ _ (service_problem_lem "web" m.web m.checkout.code_hash) (
            is_blank-both _ _ _ _ (service_problem_lem "mcp" m.mcp m.checkout.code_hash)
              (run_problem_lem m family))))

  -- `provenance_problem` finds no problem with a stack and a commit exactly if the stack was measured; the
  -- measurement is stamped not more than six hours before and not more than five minutes after the given time; it
  -- is of the stack's Compose project, and of a clean checkout of this commit, with a digest, in the candidate's
  -- tree; each of the two services was measured without an error, names its container and its image, runs and is
  -- not unhealthy, and mounts clean source of this commit from the candidate's tree, with the checkout's digest;
  -- the fixture was measured without an error and has a digest; the automation and the configuration are named;
  -- and for the family `bigint_number_format_not_applied`, whose defect is in the frontend, a bundle was built
  -- from this commit, of some file and with a digest.
  -- Commits are compared up to case, and a path is in the candidate's tree if, once both resolve, the candidate's
  -- checkout is that path or one of its parents.
  pub provenance_problem_lem :
      (family : String) (now : ℕ)
      → is_blank (provenance_problem h environment head_sha family now)
        ≡ is_measured environment.provenance family now
  unfolding provenance_problem
  provenance_problem_lem family now = measured_problem_lem environment.provenance family now
