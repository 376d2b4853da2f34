-- ===== src/Tests/Coverages.antt =====
-- A catalog with one class and an observation that covers it.
use sec_opent.Prelude.{[], ◌∷◌, All, ◌≤◌, ◌≡◌, ◌↔◌}
use sec_opent.Prelude.Raises.{ok}
use sec_opent.Risk.{RiskClass}
use sec_opent.Coverage.{
  AssetType, TestCatalog, Observation, CoverageReport, required_for, compute, enforce_gate,
}
use sec_opent.Coverage.Closing.{IsCovered, enforce_gate-compute}

abbrev catalog : TestCatalog
catalog = record {
  version = "1";
  mappings =
      (
        AssetType.api,
        record { id = "idor"; cwe = "CWE-639" ∷ []; owasp = "API1" ∷ []; risk = RiskClass.low }
            ∷ [],
      )
      ∷ [];
}

abbrev observation : Observation
observation = record { cwe = []; owasp = "API1" ∷ [] }

enforce_gate-compute_example :
    (r : CoverageReport) × (compute AssetType.api (observation ∷ []) catalog ≡ ok r)
    × (r.coverage_rate.0 ≤ r.coverage_rate.1)
    × ((enforce_gate r ≡ ok tt)
        ↔ All (IsCovered (observation ∷ [])) (required_for catalog AssetType.api))
enforce_gate-compute_example = enforce_gate-compute AssetType.api (observation ∷ []) catalog
