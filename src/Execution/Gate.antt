-- ===== src/Execution/Gate.antt =====
-- src/secopent/application/execution.py: `_make_control_gate`, and the drain of a plan's jobs under it.
use sec_opent.Prelude.{ℕ, zero, suc, none, some, String, []}
use sec_opent.Prelude.Dict.{Dict, lookup, insert}
use sec_opent.Assessment.{ControlState, PlanStep, ExecutionPlan, Assessment}
use sec_opent.Service.{Store}
use sec_opent.Orchestrator.{
  Ran, Gate, go_on, paused, cancelled, Machine, Setup, dispatch, run_to_completion,
}
use sec_opent.Execution.{Env, Method}

-- The signal is cleared when it is read.
abbrev pub consumed : Assessment → Store → Store
consumed a s = record s {
  assessments = insert a.id (record a { control = ControlState.idle }) s.assessments;
}

abbrev pub answer_to : ControlState → Gate
answer_to ControlState.idle = go_on
answer_to ControlState.pause_requested = paused
answer_to ControlState.resume_requested = go_on
answer_to ControlState.cancel_requested = cancelled

abbrev pub after_signal : ControlState → Assessment → Store → Store
after_signal ControlState.idle a s = s
after_signal ControlState.pause_requested a s = consumed a s
after_signal ControlState.resume_requested a s = consumed a s
after_signal ControlState.cancel_requested a s = consumed a s

-- The gate that `_make_control_gate` returns.
unfoldable pub control_gate : String → Store → Gate × Store
control_gate id s = elim (lookup id s.assessments) [
  | none ↦ (cancelled, s)
  | some current ↦ (answer_to current.control, after_signal current.control current s)
]

-- The repository before and after the gate is asked for the n-th time, other threads' writes included.
module _ (env : Env) (id : String) (s : Store) where
  unfoldable pub store_before : ℕ → Store
  store_before zero = env.meanwhile 0 s
  store_before (suc n) = env.meanwhile (suc n) (control_gate id (store_before n)).1

  unfoldable pub store_after : ℕ → Store
  store_after zero = s
  store_after (suc n) = (control_gate id (store_before n)).1

  abbrev pub gate_at : ℕ → Gate
  gate_at n = (control_gate id (store_before n)).0

-- The orchestrator of a run: its jobs come from the store of jobs, its steps from the dispatch.
abbrev pub setup_of : Env → String → Store → Dict PlanStep → (ℕ → PlanStep → Ran) → Setup
setup_of env id s steps runner = record {
  ttl = env.lease_ttl;
  owner = "system";
  now = env.now;
  steps = steps;
  runner = runner;
  gate = gate_at env id s;
}

-- `orchestrator.dispatch(plan)` and `run_to_completion`, from a gate that was not asked yet. The
-- repository is left as the last question of the gate left it.
unfoldable pub drain : Env → String → ExecutionPlan → (ℕ → PlanStep → Ran) → Method Gate
drain env id plan runner w =
    let (jobs, steps) =
      dispatch env.job_id (env.job_key plan.digest) plan.steps (w.machine.jobs, []) in
    let start : Machine = record { jobs = jobs; ran = w.machine.ran; asked = 0 } in
    let (r, m) = run_to_completion (setup_of env id w.store steps runner) env.rounds start in
    (r, record w { machine = m; store = store_after env id w.store m.asked })
