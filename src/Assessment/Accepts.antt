-- ===== src/Assessment/Accepts.antt =====
-- Which plans `ExecutionPlan.create` accepts.
use sec_opent.Prelude.{
  ℕ, ◌≤◌, true, false, String, List, distinct, string_eq, ◌≡◌, ◌↔◌, refl, arith, ltb,
}
use sec_opent.Prelude.Raises.{ok, err, validation}
use sec_opent.Assessment.Plan.{
  PlanStep, ExecutionPlan, keys, Search, visited, cycle, out_of_fuel, search_cycle,
  known_dependencies, plan_of, create_plan,
}
use sec_opent.Assessment.Acyclic.{Ranks, search_cycle-Ranks}
use sec_opent.Assessment.Search.{Verdict, search_ends, search_no_cycle}

-- What `create` asks of a plan.
pub record WellFormed (version : ℕ) (steps : List PlanStep) : Type 0 where
  pub version_positive : 1 ≤ version
  pub keys_unique : distinct (keys steps) ≡ true
  pub dependencies_known : known_dependencies steps ≡ true
  pub ranked : (rank : String → ℕ) × Ranks steps rank

abbrev made :
    (String → ℕ → List PlanStep → String) → String → String → ℕ → List PlanStep → ExecutionPlan
made digest_of plan_id assessment_id version steps = record {
  id = plan_id;
  assessment_id = assessment_id;
  version = version;
  steps = steps;
  digest = digest_of assessment_id version steps;
}

-- A search that neither finds a cycle nor runs out of depth has visited the plan.
search_visits :
    (r : Search) → Verdict Unit ⊥ r → Verdict ⊥ Unit r → (seen : List String) × (r ≡ visited seen)
search_visits (visited seen) a b = (seen, refl)
search_visits cycle a b = absurd b
search_visits out_of_fuel a b = absurd a

search_fails :
    (r : Search) → Verdict Unit ⊥ r → ((seen : List String) → r ≡ visited seen → ⊥) → r ≡ cycle
search_fails (visited seen) a n = absurd (n seen refl)
search_fails cycle a n = refl
search_fails out_of_fuel a n = absurd a

plan_of-inv :
    (plan p : ExecutionPlan) (r : Search)
    → plan_of p r ≡ ok plan
    → (seen : List String) × (r ≡ visited seen)
plan_of-inv plan p (visited seen) h = (seen, refl)
plan_of-inv plan p cycle h = absurd (cc)
plan_of-inv plan p out_of_fuel h = absurd (cc)

module _ (digest_of : String → ℕ → List PlanStep → String) (plan_id assessment_id : String)
    (version : ℕ) (steps : List PlanStep) where
  create_plan-WellFormed :
      (plan : ExecutionPlan)
      → create_plan digest_of plan_id assessment_id version steps ≡ ok plan
      → WellFormed version steps
  unfolding create_plan
  create_plan-WellFormed plan h =
      let p = made digest_of plan_id assessment_id version steps in
      let k : (1 ≤ version)
          × (distinct (keys steps) ≡ true)
          × (known_dependencies steps ≡ true)
          × (plan_of p (search_cycle steps) ≡ ok plan) =
        ground arith in
      let (seen, e) = plan_of-inv plan p (search_cycle steps) k.3 in
      record {
        version_positive = k.0;
        keys_unique = k.1;
        dependencies_known = k.2;
        ranked = search_cycle-Ranks steps seen e;
      }

  WellFormed-create_plan :
      WellFormed version steps
      → create_plan digest_of plan_id assessment_id version steps
        ≡ ok (made digest_of plan_id assessment_id version steps)
  unfolding create_plan
  WellFormed-create_plan w =
      let (rank, ranks) = w.ranked in
      let (seen, e) =
        search_visits (search_cycle steps) (search_ends steps w.dependencies_known)
          (search_no_cycle steps rank ranks w.dependencies_known) in
      let v : ltb version 1 ≡ false = ground (arith, w.version_positive) in
      rw (v, w.keys_unique, w.dependencies_known, e)

  -- `ExecutionPlan.create` makes a plan exactly if the version is positive, the step keys are unique,
  -- every dependency is a step of the plan, and the steps have a rank that falls along every
  -- dependency (so that they form no cycle).
  pub create_plan_iff :
      ((plan : ExecutionPlan) × (create_plan digest_of plan_id assessment_id version steps
          ≡ ok plan))
      ↔ WellFormed version steps
  create_plan_iff = (
    λ h. create_plan-WellFormed h.0 h.1,
    λ w. (made digest_of plan_id assessment_id version steps, WellFormed-create_plan w),
  )

  -- A plan with unique keys and known dependencies that has no rank is turned down as a cycle: the
  -- search never runs out of its depth.
  pub create_plan_cycle :
      1 ≤ version
      → distinct (keys steps) ≡ true
      → known_dependencies steps ≡ true
      → ¬ ((rank : String → ℕ) × Ranks steps rank)
      → create_plan digest_of plan_id assessment_id version steps
        ≡ err (validation "plan dependency cycle")
  unfolding create_plan
  create_plan_cycle v u k n =
      let e =
        search_fails (search_cycle steps) (search_ends steps k)
          (λ seen e. n (search_cycle-Ranks steps seen e)) in
      let v' : ltb version 1 ≡ false = ground arith in rw (v', u, k, e)
