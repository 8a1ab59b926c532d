-- ===== src/Verification/Provenance.antt =====
-- portal/verification.py: what is measured of a candidate stack, and why it cannot stand for a commit.
pub mod Clean
use devin_automation.Prelude.{
  ℕ, ◌+◌, ◌-◌, ◌*◌, ◌/◌, String, Bool, true, false, not, ◌&&◌, ◌||◌, Option, none, some, List, [],
  ◌∷◌, concat, show, is_blank, or_text, lower, mem, ltb, ◌==◌, nat_eq, string_eq, if◌then◌else◌,
}

-- What lies outside of the process: `Path.resolve` as the parts of the path, none where it raises, and `repr`.
pub record Host : Type 0 where
  pub resolve : String → Option (List String)
  pub repr : String → String

-- A key that is missing is "", and `clean` is whether the value is True.
pub record ServiceData : Type 0 where
  pub error : String
  pub container_id : String
  pub image_id : String
  pub state : String
  pub health : String
  pub source_mount : String
  pub source_sha : String
  pub clean : Bool
  pub code_hash : String

pub record CheckoutData : Type 0 where
  pub code_hash : String
  pub path : String
  pub source_sha : String
  pub clean : Bool

pub record FixtureData : Type 0 where
  pub error : String
  pub digest : String

pub record AssetData : Type 0 where
  pub built_from_sha : String
  pub files : ℕ
  pub bundle_hash : String

-- `stamp` is the text of `measured_at`, and `measured_at` the time it reads as. An empty dictionary of a
-- service or of the assets is none.
pub record Measured : Type 0 where
  pub stamp : String
  pub measured_at : Option ℕ
  pub compose_project : String
  pub checkout : CheckoutData
  pub web : Option ServiceData
  pub mcp : Option ServiceData
  pub fixture : FixtureData
  pub automation_ref : String
  pub config_revision : String
  pub assets : Option AssetData

pub record Environment : Type 0 where
  pub project : String
  pub base_url : String
  pub mcp_url : String
  pub checkout : String
  pub head_sha : String
  pub provenance : Option Measured
  pub commands : List String

abbrev pub minute : ℕ
minute = 60000

abbrev pub max_age : ℕ
max_age = 360

abbrev asset_built_families : List String
asset_built_families = "bigint_number_format_not_applied" ∷ []

abbrev pub is_asset_built : String → Bool
is_asset_built family = mem family asset_built_families

-- Whether the parts of a path begin with those of another: it is that path, or lies under it.
abbrev pub begins : List String → List String → Bool
begins [] parts = true
begins (r ∷ root) [] = false
begins (r ∷ root) (p ∷ parts) = r == p && begins root parts

abbrev resolved_inside : Option (List String) → Option (List String) → Bool
resolved_inside (some mount) (some root) = begins root mount
resolved_inside _ _ = false

module _ (h : Host) where
  -- `_inside`
  unfoldable pub inside : String → String → Bool
  inside mount checkout = resolved_inside (h.resolve mount) (h.resolve checkout)

  -- `_service_problem`
  unfoldable pub service_problem :
      String → Option ServiceData → Environment → String → String → String
  unfolding inside
  service_problem service none environment head_sha expected_hash =
      concat ("nothing usable was measured for the " ∷ service ∷ " service" ∷ [])
  service_problem service (some data_of) environment head_sha expected_hash =
      if not (is_blank data_of.error)
      then concat (
          "nothing usable was measured for the " ∷ service ∷ " service" ∷ ": " ∷ data_of.error ∷ [])
      else if is_blank data_of.container_id
      then concat ("the " ∷ service ∷ " service reports no container id" ∷ [])
      else if is_blank data_of.image_id
      then concat ("the " ∷ service ∷ " service reports no image id" ∷ [])
      else if not (data_of.state == "running")
      then concat (
          "the " ∷ service ∷ " container is " ∷ or_text data_of.state "in an unreported state" ∷ [])
      else if or_text data_of.health "none" == "unhealthy"
      then concat ("the " ∷ service ∷ " container is unhealthy" ∷ [])
      else if is_blank data_of.source_mount
          || not (inside data_of.source_mount environment.checkout)
      then concat (
          "the "
          ∷ service
          ∷ " service mounts "
          ∷ or_text data_of.source_mount "an unknown path"
          ∷ ", not the candidate checkout "
          ∷ environment.checkout
          ∷ [])
      else if not (lower data_of.source_sha == lower head_sha)
      then concat (
          "the "
          ∷ service
          ∷ " service is running "
          ∷ or_text data_of.source_sha "an unknown commit"
          ∷ ", not "
          ∷ head_sha
          ∷ [])
      else if not data_of.clean
      then concat ("the " ∷ service ∷ " checkout is not a clean tree" ∷ [])
      else if not (data_of.code_hash == expected_hash)
      then concat (
          "the source inside the "
          ∷ service
          ∷ " container hashes to "
          ∷ or_text data_of.code_hash "nothing"
          ∷ ", not "
          ∷ expected_hash
          ∷ [])
      else ""

  -- `_asset_problem`
  unfoldable pub asset_problem : Option AssetData → String → String
  asset_problem none head_sha =
      "no frontend bundle was built for a candidate whose defect is in the frontend"
  asset_problem (some assets) head_sha =
      if not (lower assets.built_from_sha == lower head_sha)
      then concat (
          "the served frontend bundle was built from "
          ∷ or_text assets.built_from_sha "an unknown commit"
          ∷ ", not "
          ∷ head_sha
          ∷ [])
      else if assets.files == 0 || is_blank assets.bundle_hash
      then "the frontend bundle was not measured, so it cannot be told from a stale one"
      else ""

  -- `provenance_problem`, from the fixture on.
  unfoldable pub run_problem : Measured → String → String → String
  unfolding asset_problem
  run_problem m head_sha family =
      if not (is_blank m.fixture.error) || is_blank m.fixture.digest
      then concat (
          "the fixture the run would read was not measured"
          ∷ (if is_blank m.fixture.error then "" else concat (": " ∷ m.fixture.error ∷ []))
          ∷ [])
      else if is_blank m.automation_ref
      then "the provenance does not say which automation revision graded the run"
      else if is_blank m.config_revision
      then "the provenance does not say which configuration the stack was started with"
      else if is_asset_built family
      then asset_problem m.assets head_sha
      else ""

  -- The time of the measurement, at the time `now`.
  unfoldable pub age_problem : String → Option ℕ → ℕ → String
  age_problem stamp none now =
      concat (
        "the candidate provenance carries no readable measurement time (" ∷ h.repr stamp ∷ ")" ∷ [])
  age_problem stamp (some at) now =
      if ltb (at + max_age * minute) now
      then concat (
          "the candidate provenance was measured "
          ∷ show ((now - at) / minute)
          ∷ " minutes ago"
          ∷ [])
      else if ltb (now + 5 * minute) at
      then "the candidate provenance is stamped in the future"
      else ""

  -- The project and the checkout.
  unfoldable pub checkout_problem : Measured → Environment → String → String
  unfolding inside
  checkout_problem m environment head_sha =
      if not (m.compose_project == environment.project)
      then concat (
          "the provenance describes Compose project "
          ∷ or_text m.compose_project "nothing"
          ∷ ", not "
          ∷ environment.project
          ∷ [])
      else if is_blank m.checkout.code_hash
      then "the candidate checkout was never hashed, so no container can be compared to it"
      else if not (inside m.checkout.path environment.checkout)
      then concat (
          "the hashed tree "
          ∷ or_text m.checkout.path "an unknown path"
          ∷ " is not the candidate checkout "
          ∷ environment.checkout
          ∷ [])
      else if not (lower m.checkout.source_sha == lower head_sha)
      then concat (
          "the candidate checkout is at "
          ∷ or_text m.checkout.source_sha "an unknown commit"
          ∷ ", not "
          ∷ head_sha
          ∷ [])
      else if not m.checkout.clean
      then "the candidate checkout is not a clean tree"
      else ""

  unfoldable pub measured_problem : Option Measured → Environment → String → String → ℕ → String
  unfolding age_problem checkout_problem service_problem run_problem
  measured_problem none environment head_sha family now =
      "no provenance was measured for the candidate stack"
  measured_problem (some m) environment head_sha family now =
      or_text (age_problem m.stamp m.measured_at now) (
        or_text (checkout_problem m environment head_sha) (
          or_text (service_problem "web" m.web environment head_sha m.checkout.code_hash) (
            or_text (service_problem "mcp" m.mcp environment head_sha m.checkout.code_hash)
              (run_problem m head_sha family))))

  -- `provenance_problem`: "" or why the stack cannot stand for the commit.
  unfoldable pub provenance_problem : Environment → String → String → ℕ → String
  unfolding measured_problem
  provenance_problem environment head_sha family now =
      measured_problem environment.provenance environment head_sha family now
