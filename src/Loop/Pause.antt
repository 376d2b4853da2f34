-- ===== src/Loop/Pause.antt =====
-- src/secopent/application/reasoning_loop/pause_control.py, the human operations of orchestrator.py,
-- and infrastructure/reasoning_loop/loop_approval.py.
use sec_opent.Prelude.{
  ℕ, suc, ◌+◌, ◌-◌, ◌/◌, Bool, true, ◌||◌, Option, none, some, String, List, [], ◌∷◌, elem,
  if◌then◌else◌, leb, ◌==◌, string_eq,
}
use sec_opent.Prelude.Int.{ℤ, pos, negsuc}
use sec_opent.Prelude.Text.{is_empty}
use sec_opent.Prelude.Dict.{lookup}
use sec_opent.Prelude.Raises.{
  ok, err, approval_rejected, approval_required, pause_budget, domain, lookup_failed,
}
use sec_opent.Prelude.Action.{◌>>=◌, ◌>>◌, raise_if, require, pure}
use sec_opent.Loop.{
  LoopPhase, phase_eq, LoopBudget, LoopState, LoopTerminationPolicy, pause_budget_exceeded,
}
use sec_opent.Loop.Control.{Method, save, record_event}

-- `_TERMINAL_PHASES` and `_RESUME_BLOCKED_PHASES` of pause_control.py.
abbrev pub dead_phases : List LoopPhase
dead_phases =
    LoopPhase.budget_exhausted ∷ LoopPhase.policy_blocked ∷ LoopPhase.emergency_stopped
    ∷ LoopPhase.finished ∷ []

-- `max(0, wall_seconds_used - credit)`
abbrev pub credited : ℕ → ℤ → ℕ
credited used (pos c) = used - c
credited used (negsuc c) = used + suc c

unfoldable pub credit_budget : LoopBudget → ℤ → LoopBudget
credit_budget b credit = record b { wall_seconds_used = credited b.wall_seconds_used credit }

-- `floor((now - paused_at).total_seconds())`, in exact arithmetic; 0 without a pause.
abbrev pub wall_credit : Option ℕ → ℕ → ℤ
wall_credit none now = pos 0
wall_credit (some paused_at) now =
    if leb paused_at now
    then pos ((now - paused_at) / 1000000)
    else negsuc ((paused_at - now - 1) / 1000000)

abbrev pub absent : Option String → Bool
absent none = true
absent (some s) = is_empty s

-- `validate_loop_approval_params`, all that `SignedLoopApproval` checks.
unfoldable pub require_resume_approval : String → Option String → Option String → Method (Unit {0})
require_resume_approval actor_role approved_by signature = do
  raise_if (actor_role == "agent")
      (approval_rejected "pause/resume is human-only (403): agents are rejected")
  raise_if (absent approved_by || absent signature)
      (approval_required "a human approval requires approved_by and signature")

unfoldable pub pause : String → String → String → ℕ → Method LoopState
pause loop_id actor actor_role now = do
  raise_if (actor_role == "agent")
      (approval_rejected "pause is human-only (403): agents are rejected")
  state ← require (λ l. lookup loop_id l.states) (lookup_failed "no loop state for ")
  (if state.phase == LoopPhase.on_hold
      then pure state
      else let paused : LoopState = record state {
        phase = LoopPhase.on_hold;
        paused_at = some now;
      } in
        do
          raise_if (elem state.phase dead_phases) (domain "cannot pause a dead loop: phase=")
          save paused
          record_event actor "loop.paused" loop_id
          pure paused)

unfoldable pub resume :
    LoopTerminationPolicy
    → String
    → String
    → String
    → Option String
    → Option String
    → ℕ
    → Method LoopState
unfolding require_resume_approval
resume policy loop_id actor actor_role approved_by signature now = do
  raise_if (actor_role == "agent")
      (approval_rejected "resume is human-only (403): agents are rejected")
  state ← require (λ l. lookup loop_id l.states) (lookup_failed "no loop state for ")
  raise_if (elem state.phase dead_phases) (domain "cannot resume a stopped loop: phase=")
  raise_if (pause_budget_exceeded policy (state.pause_attempts + 1))
      (pause_budget "loop exceeds max_pauses=")
  require_resume_approval actor_role approved_by signature
  let resumed : LoopState = record state {
    phase = LoopPhase.resumed;
    pause_attempts = state.pause_attempts + 1;
    paused_at = none;
    resumed_at = some now;
    budget = credit_budget state.budget (wall_credit state.paused_at now);
  } in
      do save resumed; record_event actor "loop.resumed" loop_id; pure resumed

unfoldable pub emergency_stop : String → String → ℕ → Method LoopState
emergency_stop loop_id actor now = do
  state ← require (λ l. lookup loop_id l.states) (domain "loop_id not found")
  (if state.phase == LoopPhase.emergency_stopped
      then pure state
      else let stopped : LoopState = record state {
        phase = LoopPhase.emergency_stopped;
        last_step_at = some now;
      } in
        do save stopped; record_event actor "loop.terminated" loop_id; pure stopped)

unfoldable pub force_pause_budget_termination : String → String → ℕ → Method LoopState
force_pause_budget_termination loop_id actor now = do
  state ← require (λ l. lookup loop_id l.states) (domain "loop_id not found")
  let blocked : LoopState = record state {
    phase = LoopPhase.policy_blocked;
    last_step_at = some now;
  } in
      do save blocked; record_event actor "loop.terminated" loop_id; pure blocked

-- `resume_loop`, with `except PauseBudgetExceeded`.
unfoldable pub resume_loop :
    LoopTerminationPolicy
    → String
    → String
    → String
    → Option String
    → Option String
    → ℕ
    → Method LoopState
resume_loop policy loop_id actor actor_role approved_by signature now l =
    let (r, l') = resume policy loop_id actor actor_role approved_by signature now l in
    elim r [
      | ok s ↦ (ok s, l')
      | err (pause_budget t) ↦ force_pause_budget_termination loop_id actor now l'
      | err e ↦ (err e, l')
    ]
