-- ===== src/Service.antt =====
-- src/secopent/application/assessments.py: the service that owns the life of an assessment.
pub mod Outcomes
pub mod Writes
pub mod Calls
pub mod Backed
pub mod Invariant
pub mod Guards
pub mod Terminal
use sec_opent.Prelude.{
  ℕ, Bool, true, false, not, ◌&&◌, ◌||◌, Option, none, some, String, List, [], ◌∷◌, if◌then◌else◌,
  string_eq, ◌==◌,
}
use sec_opent.Prelude.Text.{Text, is_empty, is_blank, codes}
use sec_opent.Prelude.Dict.{Dict, lookup, insert}
use sec_opent.Prelude.Raises.{
  Error, Result, ok, err, validation, permission, lookup_failed, or_raise,
}
use sec_opent.Prelude.Action.{Action, ◌>>=◌, ◌>>◌, lift, raise_if, require, modify, pure}
use sec_opent.Risk.{RiskClass, ExecutionMode}
use sec_opent.Scope.{ScopeSnapshot, null}
use sec_opent.Assessment.{
  AssessmentStatus, ControlState, assert_transition, PlanStep, ExecutionPlan, create_plan, Approval,
  create_approval, Assessment, create_assessment, start_assessment, is_missing,
}
use sec_opent.Grants.{GrantDecision}

-- The assessment repository: rows by id. `add` merges, `save_plan` and `save_approval` insert.
pub record Store : Type 0 where
  pub assessments : Dict Assessment
  pub plans : Dict ExecutionPlan
  pub approvals : Dict Approval

-- What the service is built with. `authorize` is `GrantService.authorize` at the present time.
pub record Env : Type 0 where
  pub scope_repo : Option (String → Option ScopeSnapshot)
  pub authorize : Option (String → ScopeSnapshot → List PlanStep → Result GrantDecision)
  pub plan_digest : String → ℕ → List PlanStep → String
  pub approval_digest : Approval → String
  pub strip : Text → Text
  pub concat : String → String → String

abbrev pub Method : Type 0 → Type 0
Method A = Action Store A

unfoldable pub save : Assessment → Method Assessment
save a = do modify (λ s. record s { assessments = insert a.id a s.assessments }); pure a

-- `self._repo.get(id)`, or LookupError.
unfoldable pub find : String → Method Assessment
find id = require (λ s. lookup id s.assessments) (lookup_failed "assessment ")

unfoldable pub require_human : String → Result (Unit {0})
require_human role =
    if role == "agent"
    then err (permission "agents cannot approve or reject assessments (human-only action)")
    else if not (role == "human")
    then err (permission "unknown actor role: ")
    else ok tt

-- `create` with the id that it draws.
unfoldable pub create : String → String → String → ExecutionMode → Method Assessment
unfolding save create_assessment
create fresh_id project_id scope_snapshot_id mode = do
  a ← lift (create_assessment fresh_id project_id scope_snapshot_id mode)
  save a

module _ (env : Env) where
  unfoldable pub attach_plan : String → String → List PlanStep → Method Assessment
  unfolding find save assert_transition
  attach_plan fresh_id assessment_id steps = do
    a ← find assessment_id
    lift (assert_transition a.status AssessmentStatus.awaiting_approval)
    plan ← lift (create_plan env.plan_digest fresh_id assessment_id 1 steps)
    modify (λ s. record s { plans = insert plan.id plan s.plans })
    save (record a { status = AssessmentStatus.awaiting_approval; active_plan_id = some plan.id })

  -- The steps of the active plan, or none: `tuple(plan.steps) if plan is not None else ()`.
  abbrev pub active_steps : Store → Assessment → List PlanStep
  active_steps s a = if is_missing a.active_plan_id then [] else elim (a.active_plan_id) [
    | none ↦ []
    | some plan_id ↦ elim (lookup plan_id s.plans) [ none ↦ [] | some plan ↦ plan.steps ]
  ]

  -- `_authorize_via_grant`
  unfoldable pub authorize_via_grant : String → String → Method (Unit {0})
  unfolding find
  authorize_via_grant grant_id assessment_id = do
    gate ← lift (or_raise env.authorize (permission "grant service not configured"))
    scopes ←
        lift (
          or_raise env.scope_repo (permission "scope repository not configured for grant approval"))
    a ← find assessment_id
    scope ← lift (or_raise (scopes a.scope_snapshot_id) (validation "assessment scope not found"))
    decision ← λ s. (gate grant_id scope (active_steps s a), s)
    raise_if (not decision.allowed) (permission "grant denied: ")

  -- The first lines of `approve` and `start`: an agent needs a grant, anyone else must be human.
  unfoldable pub gate : Option String → String → String → Method (Unit {0})
  gate none role assessment_id = lift (require_human role)
  gate (some grant_id) role assessment_id = authorize_via_grant grant_id assessment_id

  -- Under a grant the recorded approver is the grant.
  abbrev pub approver : Option String → String → String
  approver none approved_by = approved_by
  approver (some grant_id) approved_by = env.concat "grant:" grant_id

  -- What `approve` does behind its gate. `request` holds the id that is drawn and the caller's data.
  unfoldable pub record_approval : String → Approval → Method Approval
  unfolding find save assert_transition
  record_approval assessment_id request = do
    a ← find assessment_id
    plan_id ← lift (or_raise a.active_plan_id (validation "assessment has no plan to approve"))
    lift (assert_transition a.status AssessmentStatus.approved)
    plan ← require (λ s. lookup plan_id s.plans) (lookup_failed "active plan not found")
    granted ← lift (
        create_approval env.approval_digest (record request {
          assessment_id = assessment_id;
          plan_digest = plan.digest;
          mode = a.mode;
        }))
    modify (λ s. record s { approvals = insert granted.id granted s.approvals })
    save (record a { status = AssessmentStatus.approved; approval_id = some granted.id })
    pure granted

  unfoldable pub approve : String → Approval → String → Option String → Method Approval
  approve assessment_id request role grant_id = do
    gate grant_id role assessment_id
    record_approval assessment_id
        (record request { approved_by = approver grant_id request.approved_by })

  unfoldable pub reject : String → Text → String → Method Assessment
  unfolding find save assert_transition
  reject assessment_id reason role = do
    lift (require_human role)
    a ← find assessment_id
    lift (assert_transition a.status AssessmentStatus.rejected)
    raise_if (null (env.strip reason)) (validation "rejection reason must be non-empty")
    save (record a { status = AssessmentStatus.rejected })

  -- What `start` does behind its gate.
  unfoldable pub enqueue : String → Method Assessment
  unfolding find save assert_transition
  enqueue assessment_id = do
    a ← find assessment_id
    lift (assert_transition a.status AssessmentStatus.queued)
    plan_id ← lift (or_raise a.active_plan_id (validation "assessment has no plan to execute"))
    raise_if (is_empty plan_id) (validation "assessment has no plan to execute")
    raise_if (is_missing a.approval_id) (validation "assessment has no approval")
    updated ← lift (start_assessment a plan_id a.approval_id)
    save updated

  unfoldable pub start : String → String → Option String → Method Assessment
  start assessment_id role grant_id = do gate grant_id role assessment_id; enqueue assessment_id

-- `replace(a, status=target)` behind `assert_transition`, and the same with a control signal.
unfoldable pub move_to : AssessmentStatus → String → Method Assessment
unfolding find save assert_transition
move_to target assessment_id = do
  a ← find assessment_id
  lift (assert_transition a.status target)
  save (record a { status = target })

unfoldable pub signal_to : AssessmentStatus → ControlState → String → Method Assessment
unfolding find save assert_transition
signal_to target signal assessment_id = do
  a ← find assessment_id
  lift (assert_transition a.status target)
  save (record a { status = target; control = signal })

unfoldable pub mark_running : String → Method Assessment
mark_running = move_to AssessmentStatus.running

unfoldable pub complete : String → Method Assessment
complete = move_to AssessmentStatus.completed

unfoldable pub fail : String → Method Assessment
fail = move_to AssessmentStatus.failed

unfoldable pub pause : String → Method Assessment
pause = signal_to AssessmentStatus.paused ControlState.pause_requested

unfoldable pub resume : String → Method Assessment
resume = signal_to AssessmentStatus.running ControlState.resume_requested

unfoldable pub cancel : String → Method Assessment
cancel = signal_to AssessmentStatus.cancelled ControlState.cancel_requested
