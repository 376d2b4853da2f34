-- ===== src/Loop.antt =====
-- src/secopent/domain/reasoning_loop/models.py and policies.py,
-- application/reasoning_loop/feedback.py and budget_gate.py: the state of a reasoning loop, its
-- budget, and when it ends.
pub mod Control
pub mod Pause
pub mod Floor
pub mod Steps
pub mod Bounded
pub mod Humans
use sec_opent.Prelude.{
  ℕ, suc, ◌+◌, ◌-◌, Bool, true, false, not, ◌&&◌, ◌||◌, Option, none, some, String, List, [], ◌∷◌,
  ◌++◌, length, elem, select, if◌then◌else◌, ltb, leb, nat_beq, Eq, ◌==◌, string_eq, ◌≡◌, ◌↔◌,
  arith,
}

pub data LoopPhase : Type 0 where
  initializing running converged catalog_floor_done on_hold resumed : LoopPhase
  budget_exhausted policy_blocked emergency_stopped finished : LoopPhase

abbrev pub phase_code : LoopPhase → ℕ
phase_code LoopPhase.initializing = 0
phase_code LoopPhase.running = 1
phase_code LoopPhase.converged = 2
phase_code LoopPhase.catalog_floor_done = 3
phase_code LoopPhase.on_hold = 4
phase_code LoopPhase.resumed = 5
phase_code LoopPhase.budget_exhausted = 6
phase_code LoopPhase.policy_blocked = 7
phase_code LoopPhase.emergency_stopped = 8
phase_code LoopPhase.finished = 9

pub phase_code_iff : (a b : LoopPhase) → (nat_beq (phase_code a) (phase_code b) ≡ true) ↔ (a ≡ b)
phase_code_iff a b = (λ h. ground arith, λ h. ground arith)

instance abbrev pub phase_eq : Eq LoopPhase
phase_eq = record { beq = λ a b. nat_beq (phase_code a) (phase_code b); beq_iff = phase_code_iff }

pub record LoopBudget : Type 0 where
  pub max_steps : ℕ
  pub max_total_tokens : ℕ
  pub max_wall_seconds : ℕ
  pub steps_used : ℕ
  pub tokens_used : ℕ
  pub wall_seconds_used : ℕ

abbrev pub default_budget : LoopBudget
default_budget = record {
  max_steps = 50;
  max_total_tokens = 200000;
  max_wall_seconds = 1800;
  steps_used = 0;
  tokens_used = 0;
  wall_seconds_used = 0;
}

unfoldable pub consume : ℕ → ℕ → ℕ → LoopBudget → LoopBudget
consume steps tokens wall_seconds b = record b {
  steps_used = b.steps_used + steps;
  tokens_used = b.tokens_used + tokens;
  wall_seconds_used = b.wall_seconds_used + wall_seconds;
}

unfoldable pub exhausted : LoopBudget → Bool
exhausted b =
    leb b.max_steps b.steps_used
    || leb b.max_total_tokens b.tokens_used
    || leb b.max_wall_seconds b.wall_seconds_used

-- Times are microseconds since the epoch; the sets of catalog classes are lists.
pub record LoopState : Type 0 where
  pub loop_id : String
  pub assessment_id : String
  pub phase : LoopPhase
  pub policy_snapshot : String
  pub budget : LoopBudget
  pub context_hash : String
  pub catalog_required_remaining : List String
  pub catalog_required_executed : List String
  pub consecutive_no_signal : ℕ
  pub consecutive_policy_rejected : ℕ
  pub started_at : ℕ
  pub last_step_at : Option ℕ
  pub pause_attempts : ℕ
  pub paused_at : Option ℕ
  pub resumed_at : Option ℕ

pub record LoopTerminationPolicy : Type 0 where
  pub max_steps : ℕ
  pub max_wall_clock_seconds : ℕ
  pub max_total_tokens : ℕ
  pub no_signal_streak_to_converge : ℕ
  pub policy_rejected_streak_to_stop : ℕ
  pub require_min_confirmed : ℕ
  pub max_pauses : ℕ

abbrev pub default_policy : LoopTerminationPolicy
default_policy = record {
  max_steps = 50;
  max_wall_clock_seconds = 1800;
  max_total_tokens = 200000;
  no_signal_streak_to_converge = 5;
  policy_rejected_streak_to_stop = 3;
  require_min_confirmed = 0;
  max_pauses = 3;
}

abbrev pub pause_budget_exceeded : LoopTerminationPolicy → ℕ → Bool
pause_budget_exceeded p attempts = leb p.max_pauses attempts

unfoldable pub evaluate_termination : LoopState → LoopTerminationPolicy → LoopPhase
evaluate_termination s p =
    if s.phase == LoopPhase.emergency_stopped
    then LoopPhase.emergency_stopped
    else if s.phase == LoopPhase.on_hold
    then LoopPhase.on_hold
    else if exhausted s.budget
    then LoopPhase.budget_exhausted
    else if leb p.policy_rejected_streak_to_stop s.consecutive_policy_rejected
    then LoopPhase.policy_blocked
    else if leb p.no_signal_streak_to_converge s.consecutive_no_signal
    then LoopPhase.converged
    else LoopPhase.running

-- What the other code reads of a LoopStep.
pub record LoopStep : Type 0 where
  pub propose_tokens_used : ℕ
  pub schema_check_passed : Bool
  pub policy_allowed : Bool
  pub permit_id : Option String
  pub observation_signals : List String
  pub catalog_class_matched : List String
  pub oracle_progressed : Bool

-- `xs - ys` and `xs | ys`.
abbrev pub minus : List String → List String → List String
minus xs ys = select (λ x. not (elem x ys)) xs

abbrev pub union : List String → List String → List String
union xs ys = xs ++ minus ys xs

unfoldable pub apply : LoopState → LoopStep → Bool → ℕ → ℕ → LoopState
apply current step policy_decision_passed signal_count now = record current {
  budget = consume 1 step.propose_tokens_used 0 current.budget;
  catalog_required_remaining = minus current.catalog_required_remaining step.catalog_class_matched;
  catalog_required_executed = union current.catalog_required_executed step.catalog_class_matched;
  consecutive_no_signal = if ltb 0 signal_count then 0 else current.consecutive_no_signal + 1;
  consecutive_policy_rejected =
      if policy_decision_passed then 0 else current.consecutive_policy_rejected + 1;
  last_step_at = some now;
}

-- The verdict of a gate; the deny code is the reason kept.
pub data GateVerdict : Type 0 where
  passed : GateVerdict
  denied : String → GateVerdict

abbrev pub step_token_limit : ℕ
step_token_limit = 8000

-- `BudgetGateImpl.check` on the budget that `budget_now` gives.
unfoldable pub budget_check : LoopBudget → ℕ → GateVerdict
budget_check budget proposed_tokens =
    if ltb step_token_limit proposed_tokens
    then denied "BUDGET_STEP_TOKEN_LIMIT"
    else if exhausted (consume 0 proposed_tokens 0 budget)
    then denied "BUDGET_EXHAUSTED"
    else passed
