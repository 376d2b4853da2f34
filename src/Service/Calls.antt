-- ===== src/Service/Calls.antt =====
-- Any calls of the service in any order, on a store that starts empty.
use sec_opent.Prelude.{Option, none, String, List, [], ◌≡◌}
use sec_opent.Prelude.Dict.{lookup}
use sec_opent.Prelude.Text.{Text}
use sec_opent.Risk.{ExecutionMode}
use sec_opent.Assessment.{PlanStep, Approval}
use sec_opent.Service.{
  Store, Env, create, attach_plan, approve, reject, start, mark_running, complete, fail, pause,
  resume, cancel,
}

pub data Call : Type 0 where
  create_call : String → String → String → ExecutionMode → Call
  attach_call : String → String → List PlanStep → Call
  approve_call : String → Approval → String → Option String → Call
  reject_call : String → Text → String → Call
  start_call : String → String → Option String → Call
  run_call complete_call fail_call pause_call resume_call cancel_call : String → Call

-- What a call leaves in the store.
unfoldable pub perform : Env → Call → Store → Store
perform env (create_call fresh project scope mode) s = (create fresh project scope mode s).1
perform env (attach_call fresh id steps) s = (attach_plan env fresh id steps s).1
perform env (approve_call id request role grant_id) s = (approve env id request role grant_id s).1
perform env (reject_call id reason role) s = (reject env id reason role s).1
perform env (start_call id role grant_id) s = (start env id role grant_id s).1
perform env (run_call id) s = (mark_running id s).1
perform env (complete_call id) s = (complete id s).1
perform env (fail_call id) s = (fail id s).1
perform env (pause_call id) s = (pause id s).1
perform env (resume_call id) s = (resume id s).1
perform env (cancel_call id) s = (cancel id s).1

-- The ids that `uuid4` draws are new.
abbrev pub DrawsNew : Call → Store → Type 0
DrawsNew (create_call fresh project scope mode) s = lookup fresh s.assessments ≡ none
DrawsNew (attach_call fresh id steps) s = lookup fresh s.plans ≡ none
DrawsNew (approve_call id request role grant_id) s = lookup request.id s.approvals ≡ none
DrawsNew c s = Unit

abbrev pub empty_store : Store
empty_store = record { assessments = []; plans = []; approvals = [] }

pub data Reachable (env : Env) : Store → Type 0 where
  init : Reachable env empty_store
  next :
      {s t : Store}
      → Reachable env s
      → (c : Call) → DrawsNew c s
      → t ≡ perform env c s
      → Reachable env t
