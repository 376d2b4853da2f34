-- ===== src/Tests/Lifecycle.antt =====
-- Plans and the life of an assessment at concrete inputs.
use sec_opent.Prelude.{◌≡◌, ◌↔◌, refl, some, none, List, [], ◌∷◌, arith}
use sec_opent.Prelude.Dict.{lookup}
use sec_opent.Prelude.Text.{codes}
use sec_opent.Prelude.Raises.{ok, err, validation}
use sec_opent.Risk.{RiskClass, ExecutionMode}
use sec_opent.Assessment.{
  AssessmentStatus, ControlState, PlanStep, ExecutionPlan, Approval, Assessment, create_plan,
}
use sec_opent.Assessment.Accepts.{WellFormed, create_plan_iff, create_plan_cycle}
use sec_opent.Grants.{granted}
use sec_opent.Service.{Store, Env, approve, start, reject}
use sec_opent.Service.Calls.{
  create_call, attach_call, approve_call, reject_call, run_call, perform, empty_store, Reachable,
  init, next,
}
use sec_opent.Service.Backed.{Backing}
use sec_opent.Service.Invariant.{Reachable-Backing}
use sec_opent.Service.Terminal.{terminal_stays}
use sec_opent.Tests.Data.{scope, scan, probe, steps}

create_plan_iff_example :
    ((plan : ExecutionPlan) × (create_plan (λ a v s. "digest") "plan" "a1" 1 steps ≡ ok plan))
    ↔ WellFormed 1 steps
create_plan_iff_example = create_plan_iff (λ a v s. "digest") "plan" "a1" 1 steps

-- The plan of that example is accepted.
accepted_plan :
    create_plan (λ a v s. "digest") "plan" "a1" 1 steps
    ≡ ok (record {
      id = "plan";
      assessment_id = "a1";
      version = 1;
      steps = steps;
      digest = "digest";
    })
unfolding create_plan sec_opent.Assessment.known_dependencies sec_opent.Assessment.search_cycle
accepted_plan = refl

abbrev circular : List PlanStep
circular = (record scan { dependencies = "probe" ∷ [] }) ∷ probe ∷ []

create_plan_cycle_example :
    create_plan (λ a v s. "digest") "plan" "a1" 1 circular
    ≡ err (validation "plan dependency cycle")
unfolding sec_opent.Assessment.known_dependencies
create_plan_cycle_example =
    create_plan_cycle (λ a v s. "digest") "plan" "a1" 1 circular (omega arith) refl refl
      (λ (rank, falls).
        omega (arith, falls "scan" "probe" refl refl, falls "probe" "scan" refl refl))

abbrev env : Env
env = record {
  scope_repo = some (λ id. some scope);
  authorize = some (λ id s st. ok granted);
  plan_digest = λ a v s. "digest";
  approval_digest = λ a. "approval";
  strip = λ t. t;
  concat = λ a b. b;
}

abbrev request : Approval
request = record {
  id = "ap1";
  assessment_id = "";
  plan_digest = "";
  scope_digest = "sha256:scope";
  mode = ExecutionMode.approval;
  approved_risks = RiskClass.low ∷ [];
  approved_capabilities = [];
  approved_by = "alice";
  digest = "";
}

abbrev planned : Store
planned =
    perform env (attach_call "p1" "a1" steps)
      (perform env (create_call "a1" "project" "scope" ExecutionMode.approval) empty_store)

abbrev approved : Store
approved = perform env (approve_call "a1" request "human" none) planned

abbrev rejected : Store
rejected = perform env (reject_call "a1" (codes "no") "human") planned

abbrev in_status : AssessmentStatus → Assessment
in_status status = record {
  id = "a1";
  project_id = "project";
  scope_snapshot_id = "scope";
  mode = ExecutionMode.approval;
  status = status;
  active_plan_id = some "p1";
  approval_id = none;
  control = ControlState.idle;
}

abbrev approved_assessment : Assessment
approved_assessment = record (in_status AssessmentStatus.approved) { approval_id = some "ap1" }

planned-Reachable : Reachable env planned
unfolding perform sec_opent.Service.create
planned-Reachable =
    next (next init (create_call "a1" "project" "scope" ExecutionMode.approval) refl refl)
      (attach_call "p1" "a1" steps) refl refl

approved-Reachable : Reachable env approved
unfolding perform sec_opent.Service.attach_plan sec_opent.Service.create create_plan
    sec_opent.Assessment.known_dependencies sec_opent.Assessment.search_cycle
approved-Reachable = next planned-Reachable (approve_call "a1" request "human" none) refl refl

rejected-Reachable : Reachable env rejected
rejected-Reachable = next planned-Reachable (reject_call "a1" (codes "no") "human") tt refl

Reachable-Backing_example : Backing approved approved_assessment
unfolding perform approve sec_opent.Service.gate sec_opent.Service.require_human
    sec_opent.Service.record_approval sec_opent.Service.attach_plan sec_opent.Service.create
    create_plan sec_opent.Assessment.known_dependencies sec_opent.Assessment.search_cycle
    sec_opent.Assessment.create_approval
Reachable-Backing_example =
    Reachable-Backing env approved "a1" approved_assessment approved-Reachable refl refl

terminal_stays_example :
    lookup "a1" (perform env (run_call "a1") rejected).assessments
    ≡ some (in_status AssessmentStatus.rejected)
unfolding perform reject sec_opent.Service.require_human sec_opent.Service.attach_plan
    sec_opent.Service.create create_plan sec_opent.Assessment.known_dependencies
    sec_opent.Assessment.search_cycle
terminal_stays_example =
    terminal_stays env rejected (run_call "a1") "a1" (in_status AssessmentStatus.rejected)
      rejected-Reachable tt refl refl
