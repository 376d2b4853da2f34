-- ===== src/Execution/Assess.antt =====
-- src/secopent/application/execution.py: `execute_assessment` and `resume_assessment`.
use sec_opent.Prelude.{Bool, true, false, not, Option, none, some, String, [], ◌∷◌, if◌then◌else◌}
use sec_opent.Prelude.Dict.{Dict, lookup}
use sec_opent.Prelude.Raises.{Result, ok, err, execution_state, or_raise}
use sec_opent.Prelude.Action.{◌>>=◌, ◌>>◌, lift, require, pure}
use sec_opent.Scope.{ScopeSnapshot}
use sec_opent.Assessment.{ExecutionPlan}
use sec_opent.Service.{mark_running}
use sec_opent.Audit.{Value}
use sec_opent.Permits.{ExecutionPermit}
use sec_opent.Orchestrator.{Gate, go_on, paused, cancelled}
use sec_opent.Execution.{Env, Method, on_store, audit_record, fail_run, formatted}
use sec_opent.Execution.Permit.{issue_permit, verify_permit, record_nonce}
use sec_opent.Execution.Targets.{check_plan_scope}
use sec_opent.Execution.Gate.{drain}
use sec_opent.Execution.Finish.{handle_cancelled, finalize_execution}

-- The plan and the scope of a run, or ExecutionStateError.
unfoldable pub load_plan : Env → String → Method (ExecutionPlan × ScopeSnapshot)
load_plan env id = do
  a ← require (λ w. lookup id w.store.assessments) (execution_state "assessment missing: ")
  plan_id ← lift (or_raise a.active_plan_id (execution_state "no active plan: "))
  plan ← require (λ w. lookup plan_id w.store.plans) (execution_state "plan not found: ")
  scope ←
      lift
        (or_raise (env.scopes a.scope_snapshot_id) (execution_state "scope snapshot not found: "))
  pure (plan, scope)

abbrev pub nonce_payload : Option ExecutionPermit → Dict Value
nonce_payload none = []
nonce_payload (some permit) = ("permit_nonce", Value.text permit.nonce) ∷ []

-- `nft_scope_enforcer.apply_scope`, whose failure is noted and no more.
unfoldable pub note_nft : Env → String → Result (Unit {0}) → Method (Unit {0})
note_nft env id (ok u) = pure tt
note_nft env id (err e) =
    audit_record env "egress.hardening_unavailable" id (formatted ("reason" ∷ []))

unfoldable pub apply_nft : Env → String → Method (Unit {0})
apply_nft env id = elim (env.nft) [ none ↦ pure tt | some r ↦ note_nft env id r ]

-- What a run does with the answer of its drain.
unfoldable pub conclude : Env → String → Gate → Method (Unit {0})
conclude env id cancelled = handle_cancelled env id
conclude env id paused = audit_record env "assessment.paused" id (formatted ("actual" ∷ []))
conclude env id go_on = finalize_execution env id

-- The scan: the jobs are drained with the runner that the factory makes.
unfoldable pub scan : Env → String → ExecutionPlan → ScopeSnapshot → Method (Unit {0})
scan env id plan scope = do
  runner ← lift (env.runner scope)
  status ← drain env id plan runner
  conclude env id status

-- From the scope check on.
unfoldable pub checked_scan :
    Env → String → ExecutionPlan → ScopeSnapshot → Bool → Method (Unit {0})
checked_scan env id plan scope permit_valid = do
  fits ← check_plan_scope env id plan.steps scope permit_valid
  if not fits then pure tt else do apply_nft env id; scan env id plan scope

-- From the permit on.
unfoldable pub permitted_scan : Env → String → ExecutionPlan → ScopeSnapshot → Method (Unit {0})
permitted_scan env id plan scope = do
  permit ← issue_permit env id scope.digest plan.digest
  valid ← verify_permit env id permit
  if not valid then pure tt else do
    record_nonce env id permit
    audit_record env "assessment.started" id (nonce_payload permit)
    checked_scan env id plan scope true

abbrev pub is_stopped : Env → Bool
is_stopped env = elim (env.stop) [ none ↦ false | some triggered ↦ triggered ]

unfoldable pub stopped : Env → String → Method (Unit {0})
stopped env id = do
  fail_run id
  audit_record env "assessment.blocked.emergency_stop" id (formatted ("reason" ∷ []))

-- The body of the `try` of `execute_assessment`.
unfoldable pub attempt : Env → String → Method (Unit {0})
attempt env id = do
  on_store (mark_running id)
  if is_stopped env
      then stopped env id
      else do loaded ← load_plan env id; permitted_scan env id loaded.0 loaded.1

-- Its `except`: the failure of `service.fail` is suppressed, that of the audit is not.
unfoldable pub failed : Env → String → Method (Unit {0})
failed env id w =
    audit_record env "assessment.failed" id (formatted ("reason" ∷ [])) (fail_run id w).1

unfoldable pub execute_assessment : Env → String → Method (Unit {0})
execute_assessment env id w =
    let (r, w') = attempt env id w in elim r [ ok u ↦ (ok tt, w') | err e ↦ failed env id w' ]

-- What a resumed run does with the answer of its drain.
unfoldable pub conclude_resumed : Env → String → Gate → Method (Unit {0})
conclude_resumed env id cancelled = handle_cancelled env id
conclude_resumed env id paused = audit_record env "assessment.paused" id (formatted ("actual" ∷ []))
conclude_resumed env id go_on = do
  audit_record env "assessment.resumed" id (formatted ("actual" ∷ []))
  finalize_execution env id

-- No permit, no scope check and no emergency stop; what is raised goes to the caller.
unfoldable pub resume_assessment : Env → String → Method (Unit {0})
resume_assessment env id = do
  loaded ← load_plan env id
  runner ← lift (env.runner loaded.1)
  status ← drain env id loaded.0 runner
  conclude_resumed env id status
