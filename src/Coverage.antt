-- ===== src/Coverage.antt =====
-- src/secopent/domain/catalog and application/coverage.py: which required test classes the observations
-- of an assessment cover, and the gate that an assessment closes through.
pub mod Closing
use sec_opent.Prelude.{
  ℕ, Bool, true, false, not, ◌||◌, String, List, [], ◌∷◌, length, map, any, elem, leb,
  if◌then◌else◌, ◌==◌, nat_beq, string_eq, Eq, ◌≡◌, ◌↔◌, arith,
}
use sec_opent.Prelude.Raises.{Result, ok, err, raise_if, validation, domain, ◌>>◌}
use sec_opent.Risk.{RiskClass}

pub data AssetType : Type 0 where
  web_app api ip_port cloud_account container_k8s : AssetType

abbrev pub asset_code : AssetType → ℕ
asset_code AssetType.web_app = 0
asset_code AssetType.api = 1
asset_code AssetType.ip_port = 2
asset_code AssetType.cloud_account = 3
asset_code AssetType.container_k8s = 4

pub asset_code_iff : (a b : AssetType) → (nat_beq (asset_code a) (asset_code b) ≡ true) ↔ (a ≡ b)
asset_code_iff a b = (λ h. ground arith, λ h. ground arith)

instance abbrev pub asset_eq : Eq AssetType
asset_eq = record { beq = λ a b. nat_beq (asset_code a) (asset_code b); beq_iff = asset_code_iff }

pub record RequiredTestClass : Type 0 where
  pub id : String
  pub cwe : List String
  pub owasp : List String
  pub risk : RiskClass

pub record TestCatalog : Type 0 where
  pub version : String
  pub mappings : List (AssetType × List RequiredTestClass)

-- `mappings.get(asset_type, ())`
abbrev pub mapped : AssetType → List (AssetType × List RequiredTestClass) → List RequiredTestClass
mapped t [] = []
mapped t ((key, classes) ∷ mappings) = if t == key then classes else mapped t mappings

unfoldable pub required_for : TestCatalog → AssetType → List RequiredTestClass
required_for catalog t = mapped t catalog.mappings

-- The fields of an observation that the rule reads.
pub record Observation : Type 0 where
  pub cwe : List String
  pub owasp : List String

-- The covered and the required classes are counted for the rate, which is the fraction of the two and
-- 1 / 1 if nothing is required.
pub record CoverageReport : Type 0 where
  pub asset_type : AssetType
  pub required_classes : List String
  pub covered_classes : List String
  pub uncovered_classes : List String
  pub coverage_rate : ℕ × ℕ

abbrev pub intersects : List String → List String → Bool
intersects xs ys = any (λ x. elem x ys) xs

unfoldable pub class_covered : RequiredTestClass → List Observation → Bool
class_covered required [] = false
class_covered required (obs ∷ observations) =
    (intersects required.cwe obs.cwe || intersects required.owasp obs.owasp)
    || class_covered required observations

-- The loop of `compute_coverage`: the ids of the covered and of the uncovered classes.
unfoldable pub partition : List RequiredTestClass → List Observation → List String × List String
partition [] observations = ([], [])
partition (cls ∷ required) observations =
    let (covered, uncovered) = partition required observations in
    if class_covered cls observations
    then (cls.id ∷ covered, uncovered)
    else (covered, cls.id ∷ uncovered)

abbrev pub coverage_rate : List String → List RequiredTestClass → ℕ × ℕ
coverage_rate covered [] = (1, 1)
coverage_rate covered (cls ∷ required) = (length covered, length (cls ∷ required))

-- `CoverageReport.__post_init__`
abbrev pub rated : CoverageReport → Result CoverageReport
rated r = do
  raise_if (not (leb r.coverage_rate.0 r.coverage_rate.1))
      (validation "CoverageReport.coverage_rate must be in [0.0, 1.0]")
  ok r

abbrev pub report_on : AssetType → List RequiredTestClass → List Observation → CoverageReport
report_on asset_type required observations =
    let (covered, uncovered) = partition required observations in
    record {
      asset_type = asset_type;
      required_classes = map (λ c. c.id) required;
      covered_classes = covered;
      uncovered_classes = uncovered;
      coverage_rate = coverage_rate covered required;
    }

unfoldable pub compute_coverage :
    AssetType → List RequiredTestClass → List Observation → Result CoverageReport
compute_coverage asset_type required observations =
    rated (report_on asset_type required observations)

-- `CoverageService.compute`
unfoldable pub compute : AssetType → List Observation → TestCatalog → Result CoverageReport
compute asset_type observations catalog =
    compute_coverage asset_type (required_for catalog asset_type) observations

unfoldable pub enforce_gate : CoverageReport → Result (Unit {0})
enforce_gate report = elim report.uncovered_classes [
  | [] ↦ ok tt
  | x ∷ xs ↦ err (domain "coverage gate failed for ")
]
