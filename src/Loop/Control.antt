-- ===== src/Loop/Control.antt =====
-- src/secopent/application/reasoning_loop/orchestrator.py and pause_control.py,
-- infrastructure/reasoning_loop/loop_approval.py: the operations on stored loops.
use sec_opent.Prelude.{
  ℕ, Bool, true, false, not, none, some, String, List, [], ◌∷◌, length, elem, if◌then◌else◌, ◌==◌,
  string_eq,
}
use sec_opent.Prelude.Dict.{Dict, lookup, insert}
use sec_opent.Prelude.Raises.{domain}
use sec_opent.Prelude.Action.{Action, ◌>>=◌, ◌>>◌, raise_if, require, modify, pure}
use sec_opent.Loop.{
  LoopPhase, phase_eq, default_budget, LoopState, default_policy, evaluate_termination, LoopStep,
  apply, GateVerdict, passed, denied, budget_check,
}

-- An audit record; its payload is left out.
pub record Entry : Type 0 where
  pub actor : String
  pub action : String
  pub resource_id : String

-- The state and step repositories and the audit trail, the last record first.
pub record Loops : Type 0 where
  pub states : Dict LoopState
  pub steps : List (String × LoopStep)
  pub audit : List Entry

abbrev pub Method : Type 0 → Type 0
Method A = Action Loops A

abbrev pub save : LoopState → Method (Unit {0})
save s = modify (λ l. record l { states = insert s.loop_id s l.states })

abbrev pub record_event : String → String → String → Method (Unit {0})
record_event actor action id = modify (λ l. record l {
  audit = (record { actor = actor; action = action; resource_id = id }) ∷ l.audit;
})

abbrev pub add_step : String → LoopStep → Method (Unit {0})
add_step id step = modify (λ l. record l { steps = (id, step) ∷ l.steps })

abbrev pub terminal_phases : List LoopPhase
terminal_phases =
    LoopPhase.finished ∷ LoopPhase.budget_exhausted ∷ LoopPhase.policy_blocked ∷ LoopPhase.converged
    ∷ LoopPhase.emergency_stopped ∷ []

abbrev pub non_auto_step_phases : List LoopPhase
non_auto_step_phases = LoopPhase.on_hold ∷ LoopPhase.catalog_floor_done ∷ []

unfoldable pub create_loop : String → String → String → List String → ℕ → Method LoopState
create_loop loop_id assessment_id policy_snapshot required now =
    let state : LoopState = record {
      loop_id = loop_id;
      assessment_id = assessment_id;
      phase = LoopPhase.initializing;
      policy_snapshot = policy_snapshot;
      budget = default_budget;
      context_hash = "0000000000000000000000000000000000000000000000000000000000000000";
      catalog_required_remaining = required;
      catalog_required_executed = [];
      consecutive_no_signal = 0;
      consecutive_policy_rejected = 0;
      started_at = now;
      last_step_at = none;
      pause_attempts = 0;
      paused_at = none;
      resumed_at = none;
    } in
    do save state; record_event "reasoning_loop" "loop.created" loop_id; pure state

-- What the proposer, the schema, policy and permit gates and the oracle answer in a step: `none`
-- for a proposer without an output, and the id of the permit.
pub record Answers : Type 0 where
  pub proposes : Bool
  pub schema_verdict : GateVerdict
  pub policy_verdict : GateVerdict
  pub permit_verdict : GateVerdict
  pub permit_id : String
  pub oracle_progressed : Bool

-- `_placeholder_step` and the steps of `_mock_execute` and `_execute_oracle_step`.
abbrev pub placeholder_step : Bool → Bool → LoopStep
placeholder_step schema_passed policy_passed = record {
  propose_tokens_used = 0;
  schema_check_passed = schema_passed;
  policy_allowed = policy_passed;
  permit_id = none;
  observation_signals = [];
  catalog_class_matched = [];
  oracle_progressed = false;
}

abbrev pub mock_step_tokens : ℕ
mock_step_tokens = 100

abbrev pub executed_step : Answers → LoopStep
executed_step a = record {
  propose_tokens_used = mock_step_tokens;
  schema_check_passed = true;
  policy_allowed = true;
  permit_id = some a.permit_id;
  observation_signals = [];
  catalog_class_matched = [];
  oracle_progressed = a.oracle_progressed;
}

-- The end that every path of `run_step` shares: feedback, the next phase, the write, and the audit
-- record of a loop that ended.
unfoldable pub advance : LoopState → LoopStep → Bool → ℕ → Method LoopPhase
advance state step policy_passed now =
    let applied = apply state step policy_passed (length step.observation_signals) now in
    let next = evaluate_termination applied default_policy in
    do
      save (record applied { phase = next })
      (if elem next terminal_phases
          then record_event "reasoning_loop" "loop.terminated" state.loop_id
          else pure tt)
      pure next

unfoldable pub record_backend_unavailable : LoopState → ℕ → Method LoopPhase
unfolding advance
record_backend_unavailable state now = do
  record_event "reasoning_loop" "loop.backend_unavailable" state.loop_id
  advance state (placeholder_step false true) true now

unfoldable pub record_gate_rejected : LoopState → String → ℕ → Method LoopPhase
unfolding advance
record_gate_rejected state gate_name now = do
  record_event "reasoning_loop" "loop.gate_rejected" state.loop_id
  advance state (placeholder_step (not (gate_name == "schema")) (gate_name == "permit"))
      (not (gate_name == "policy")) now

unfoldable pub execute_step : LoopState → Answers → ℕ → Method LoopPhase
unfolding advance
execute_step state a now = do
  add_step state.loop_id (executed_step a)
  record_event "reasoning_loop" "loop.step_proposed" state.loop_id
  record_event "reasoning_loop" "loop.step_executed" state.loop_id
  advance state (executed_step a) true now

-- The gates in their order, each with its verdict.
unfoldable pub at_permit : GateVerdict → LoopState → Answers → ℕ → Method LoopPhase
at_permit (denied code) state a now = record_gate_rejected state "permit" now
at_permit passed state a now = execute_step state a now

unfoldable pub at_policy : GateVerdict → LoopState → Answers → ℕ → Method LoopPhase
at_policy (denied code) state a now = record_gate_rejected state "policy" now
at_policy passed state a now = at_permit a.permit_verdict state a now

unfoldable pub at_schema : GateVerdict → LoopState → Answers → ℕ → Method LoopPhase
at_schema (denied code) state a now = record_gate_rejected state "schema" now
at_schema passed state a now = at_policy a.policy_verdict state a now

unfoldable pub at_proposal : Bool → LoopState → Answers → ℕ → Method LoopPhase
at_proposal false state a now = record_backend_unavailable state now
at_proposal true state a now = at_schema a.schema_verdict state a now

unfoldable pub at_budget : GateVerdict → LoopState → Answers → ℕ → Method LoopPhase
at_budget (denied code) state a now = record_gate_rejected state "budget" now
at_budget passed state a now = at_proposal a.proposes state a now

-- `with_budget_gate` when the loop is composed with one.
unfoldable pub through_gates : Bool → LoopState → Answers → ℕ → Method LoopPhase
through_gates with_budget_gate state a now =
    at_budget (if with_budget_gate then budget_check state.budget mock_step_tokens else passed)
      state a now

unfoldable pub run_step : Bool → String → Answers → ℕ → Method LoopPhase
run_step with_budget_gate loop_id a now = do
  state ← require (λ l. lookup loop_id l.states) (domain "loop_id not found")
  raise_if (elem state.phase terminal_phases) (domain "loop_id already terminal in phase ")
  (if elem state.phase non_auto_step_phases
      then pure state.phase
      else through_gates with_budget_gate state a now)
