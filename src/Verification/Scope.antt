-- ===== src/Verification/Scope.antt =====
-- portal/verification.py, `check_scope`: which paths a candidate may change.
use devin_automation.Prelude.{
  ℕ, String, Bool, true, false, not, ◌&&◌, List, [], ◌∷◌, ◌≡◌, ◌∙◌, ap, refl, arith, length, any,
  all, keep, concat, show, or_text, ltb, ◌==◌, string_eq, starts_with, if◌then◌else◌,
}

abbrev explore_scope : List String
explore_scope =
    "superset/explore/form_data/" ∷ "superset/commands/explore/form_data/" ∷ "superset/key_value/"
    ∷ "superset/commands/key_value/" ∷ "tests/unit_tests/explore/"
    ∷ "tests/unit_tests/commands/explore/" ∷ "tests/unit_tests/key_value/"
    ∷ "tests/unit_tests/commands/key_value/" ∷ "tests/integration_tests/explore/" ∷ []

abbrev chart_scope : List String
chart_scope =
    "superset/commands/chart/" ∷ "superset/charts/" ∷ "superset/mcp_service/"
    ∷ "tests/unit_tests/charts/" ∷ "tests/unit_tests/commands/chart/"
    ∷ "tests/unit_tests/mcp_service/" ∷ "tests/integration_tests/charts/" ∷ []

abbrev format_scope : List String
format_scope =
    "superset-frontend/packages/superset-ui-core/src/number-format/"
    ∷ "superset-frontend/packages/superset-ui-core/test/number-format/"
    ∷ "superset-frontend/plugins/plugin-chart-table/src/"
    ∷ "superset-frontend/plugins/plugin-chart-table/test/" ∷ []

-- SCOPE_BY_FAMILY; a family without an entry has none.
unfoldable pub scope_of : String → List String
scope_of family =
    if family == "discarded_form_data_key_is_reused"
    then explore_scope
    else if family == "omitted_row_limit_is_reset"
    then chart_scope
    else if family == "bigint_number_format_not_applied"
    then format_scope
    else []

-- PRODUCT_PREFIX_BY_FAMILY, or PRODUCT_PREFIX.
unfoldable pub product_of : String → List String
product_of family =
    if family == "bigint_number_format_not_applied"
    then "superset-frontend/packages/superset-ui-core/src/"
      ∷ "superset-frontend/plugins/plugin-chart-table/src/" ∷ []
    else "superset/" ∷ []

abbrev pub forbidden_prefixes : List String
forbidden_prefixes =
    ".github/" ∷ "superset/config.py" ∷ "superset/app.py" ∷ "superset/initialization/" ∷ "docker/"
    ∷ "docker-compose" ∷ "Dockerfile" ∷ "requirements/" ∷ "scripts/" ∷ "stack/" ∷ "portal/"
    ∷ "scenarios/" ∷ "clients/" ∷ "helm/" ∷ "superset-frontend/" ∷ "superset/examples/"
    ∷ "superset/security/" ∷ "superset/migrations/" ∷ "pyproject.toml" ∷ "setup.py" ∷ "setup.cfg"
    ∷ "package.json" ∷ "package-lock.json" ∷ "uv.lock" ∷ "RELEASING/" ∷ []

abbrev pub max_changed_files : ℕ
max_changed_files = 40

pub record ScopeVerdict : Type 0 where
  pub allowed : Bool
  pub reasons : List String

-- `any(path.startswith(prefix) for prefix in prefixes)`
abbrev pub under : List String → String → Bool
under prefixes path = any (λ prefix. starts_with path prefix) prefixes

-- `_forbidden_for`
unfoldable pub forbidden_for : List String → List String
forbidden_for allowed =
    keep (λ prefix. not (any (λ path. starts_with path prefix) allowed)) forbidden_prefixes

abbrev pub no_entries {ℓ} : {A : Type ℓ} → List A → Bool
no_entries [] = true
no_entries (x ∷ xs) = false

unfoldable pub path_reasons : String → List String → List String → List String → List String
path_reasons family forbidden allowed [] = []
path_reasons family forbidden allowed (path ∷ rest) =
    let others = path_reasons family forbidden allowed rest in
    if under forbidden path
    then concat (path ∷ " is outside what a repair may change" ∷ []) ∷ others
    else if not (under allowed path)
    then concat (path ∷ " is not in the registered scope for " ∷ family ∷ []) ∷ others
    else others

-- What is left to say about paths that are each in scope.
unfoldable pub product_reasons : List String → List String → List String → List String
product_reasons product paths reasons =
    if no_entries reasons && not (any (under product) paths)
    then "the candidate changes no product code" ∷ []
    else reasons

unfoldable pub check_scope : List String → String → ScopeVerdict
unfolding scope_of product_of forbidden_for path_reasons product_reasons
check_scope paths family =
    if no_entries paths
    then record { allowed = false; reasons = "the pull request changes no files" ∷ [] }
    else if ltb max_changed_files (length paths)
    then record {
      allowed = false;
      reasons =
          concat (show (length paths) ∷ " files changed; a single-defect repair is smaller" ∷ [])
          ∷ [];
    }
    else if no_entries (scope_of family)
    then record {
      allowed = false;
      reasons =
          concat (
            "no change scope is registered for "
            ∷ or_text family "an unnamed family"
            ∷ "; this candidate needs review"
            ∷ [])
          ∷ [];
    }
    else let reasons =
        product_reasons (product_of family) paths
          (path_reasons family (forbidden_for (scope_of family)) (scope_of family) paths) in
      record { allowed = no_entries reasons; reasons = reasons }

-- Under a prefix that no repair may change, which no registered prefix of the scope lies under.
abbrev pub is_banned : List String → String → Bool
is_banned scope path =
    any (λ ban. not (any (λ prefix. starts_with prefix ban) scope) && starts_with path ban)
      forbidden_prefixes

-- Each path on its own.
abbrev pub in_scope : String → String → Bool
in_scope family path = not (is_banned (scope_of family) path) && under (scope_of family) path

any-keep :
    (nests : String → Bool) (path : String) (bans : List String)
    → any (λ ban. starts_with path ban) (keep nests bans)
      ≡ any (λ ban. nests ban && starts_with path ban) bans
any-keep nests path [] = refl
any-keep nests path (ban ∷ rest) = ground (arith, any-keep nests path rest)

under-forbidden_for :
    (scope : List String) (path : String) → under (forbidden_for scope) path ≡ is_banned scope path
unfolding forbidden_for
under-forbidden_for scope path =
    any-keep (λ ban. not (any (λ prefix. starts_with prefix ban) scope)) path forbidden_prefixes

all-in_scope :
    (family : String) (paths : List String)
    → all
        (λ path. not (under (forbidden_for (scope_of family)) path) && under (scope_of family) path)
        paths
      ≡ all (in_scope family) paths
all-in_scope family [] = refl
all-in_scope family (path ∷ rest) =
    rw (under-forbidden_for (scope_of family) path, all-in_scope family rest) refl

no_entries-path_reasons :
    (family : String) (forbidden allowed paths : List String)
    → no_entries (path_reasons family forbidden allowed paths)
      ≡ all (λ path. not (under forbidden path) && under allowed path) paths
unfolding path_reasons
no_entries-path_reasons family forbidden allowed [] = refl
no_entries-path_reasons family forbidden allowed (path ∷ rest) =
    ground (arith, no_entries-path_reasons family forbidden allowed rest)

no_entries-product_reasons :
    (product paths reasons : List String)
    → no_entries (product_reasons product paths reasons)
      ≡ (no_entries reasons && any (under product) paths)
unfolding product_reasons
no_entries-product_reasons product paths reasons = ground arith

allowed-veto :
    (b : Bool) (refused verdict : ScopeVerdict) (passes : Bool)
    → refused.allowed ≡ false
    → verdict.allowed ≡ passes
    → (if b then refused else verdict).allowed ≡ (not b && passes)
allowed-veto true refused verdict passes closed others = closed
allowed-veto false refused verdict passes closed others = others

-- A candidate is in scope exactly if it changes between one and forty files, its family has a registered
-- scope, each path lies under a prefix of that scope and under no forbidden prefix, save the forbidden prefixes
-- that a prefix of the scope lies under, and some path is product code.
pub check_scope_lem :
    (paths : List String) (family : String)
    → (check_scope paths family).allowed ≡ (
        not (no_entries paths)
        && (not (ltb 40 (length paths))
            && (not (no_entries (scope_of family))
                && (all (in_scope family) paths && any (under (product_of family)) paths))))
unfolding check_scope
check_scope_lem paths family = allowed-veto (no_entries paths) _ _ _ refl (
    allowed-veto (ltb max_changed_files (length paths)) _ _ _ refl (
      allowed-veto (no_entries (scope_of family)) _ _ _ refl (
        no_entries-product_reasons (product_of family) paths _
        ∙ ap (λ b. b && any (under (product_of family)) paths)
            (no_entries-path_reasons family (forbidden_for (scope_of family)) (scope_of family)
                paths
              ∙ all-in_scope family paths))))
