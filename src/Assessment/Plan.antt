-- ===== src/Assessment/Plan.antt =====
-- src/secopent/domain/assessments/models.py: plan steps, and `ExecutionPlan.create` with its
-- depth-first search for cycles.
use sec_opent.Prelude.{
  ℕ, zero, suc, Bool, not, String, List, [], ◌∷◌, map, elem, subset, distinct, all, length,
  string_eq, if◌then◌else◌, ◌==◌, ltb,
}
use sec_opent.Prelude.Dict.{Dict}
use sec_opent.Prelude.Raises.{Result, ok, err, validation, value_error, ◌>>◌, raise_if}
use sec_opent.Risk.{RiskClass}

-- `parameters` is carried along and read by runners alone.
pub record PlanStep : Type 0 where
  pub key : String
  pub runner : String
  pub risk : RiskClass
  pub parameters : Dict String
  pub dependencies : List String

pub record ExecutionPlan : Type 0 where
  pub id : String
  pub assessment_id : String
  pub version : ℕ
  pub steps : List PlanStep
  pub digest : String

abbrev pub keys : List PlanStep → List String
keys steps = map PlanStep.key steps

-- `graph[key]`. `visit` is called on keys of the plan alone, so nothing is looked up in vain.
abbrev pub graph : List PlanStep → String → List String
graph [] key = []
graph (s ∷ ss) key = if s.key == key then s.dependencies else graph ss key

-- The answer of the search: the set `visited` after it, a raise, or no fuel left.
pub data Search : Type 0 where
  visited : List String → Search
  cycle : Search
  out_of_fuel : Search

-- The loop `for dep in ...: visit(dep)`.
abbrev pub visit_all : (String → List String → Search) → List String → List String → Search
visit_all visit_one [] seen = visited seen
visit_all visit_one (k ∷ ks) seen =
    let rest = visit_all visit_one ks in
    elim (visit_one k seen) [
      | visited seen' ↦ rest seen'
      | cycle ↦ cycle
      | out_of_fuel ↦ out_of_fuel
    ]

-- `visit(key)` with the sets `visiting` and `visited`. `visiting` is back to what it was when a call
-- returns, so only `visited` is handed on.
unfoldable pub visit : List PlanStep → ℕ → List String → String → List String → Search
visit steps zero visiting key seen =
    if elem key visiting then cycle else if elem key seen then visited seen else out_of_fuel
visit steps (suc fuel) visiting key seen =
    let inner = visit_all (visit steps fuel (key ∷ visiting)) (graph steps key) seen in
    if elem key visiting then cycle else if elem key seen then visited seen else elim inner [
      | visited seen' ↦ visited (key ∷ seen')
      | cycle ↦ cycle
      | out_of_fuel ↦ out_of_fuel
    ]

-- `for key in keys: visit(key)`. The calls nest at most as deep as there are keys.
unfoldable pub search_cycle : List PlanStep → Search
unfolding visit
search_cycle steps = visit_all (visit steps (length steps) []) (keys steps) []

unfoldable pub known_dependencies : List PlanStep → Bool
known_dependencies steps = all (λ s. subset s.dependencies (keys steps)) steps

-- The answer of the search as a plan or as what the search raised.
abbrev pub plan_of : ExecutionPlan → Search → Result ExecutionPlan
plan_of plan (visited seen) = ok plan
plan_of plan cycle = err (validation "plan dependency cycle")
plan_of plan out_of_fuel = err (value_error "RecursionError")

-- `digest_of` is `canonical_digest` of the assessment's id, the version and the steps.
unfoldable pub create_plan :
    (String → ℕ → List PlanStep → String)
    → String
    → String
    → ℕ
    → List PlanStep
    → Result ExecutionPlan
create_plan digest_of plan_id assessment_id version steps = do
  raise_if (ltb version 1) (validation "plan version must be positive")
  raise_if (not (distinct (keys steps))) (validation "plan step keys must be unique")
  raise_if (not (known_dependencies steps)) (validation "plan dependency does not exist")
  let plan : ExecutionPlan = record {
    id = plan_id;
    assessment_id = assessment_id;
    version = version;
    steps = steps;
    digest = digest_of assessment_id version steps;
  }
  plan_of plan (search_cycle steps)
