-- ===== src/Loop/Steps.antt =====
-- src/secopent/application/reasoning_loop/orchestrator.py: what one call of `run_step` does.
use sec_opent.Prelude.{
  ℕ, ◌+◌, ◌<◌, Bool, true, false, not, ◌&&◌, some, String, elem, length, if◌then◌else◌, string_eq,
  ◌≡◌, ◌⊎◌, inl, inr, refl, arith, Bool-cases,
}
use sec_opent.Prelude.Dict.{lookup, lookup-insert_self}
use sec_opent.Prelude.Raises.{Result}
use sec_opent.Loop.{
  LoopPhase, phase_eq, LoopState, LoopStep, exhausted, consume, apply, evaluate_termination,
  default_policy, budget_check, GateVerdict, passed, denied,
}
use sec_opent.Loop.Control.{
  Loops, Answers, advance, run_step, through_gates, at_budget, at_proposal, at_schema, at_policy,
  at_permit, record_backend_unavailable, record_gate_rejected, execute_step, terminal_phases,
  non_auto_step_phases, mock_step_tokens,
}

-- A loop that `run_step` still advances.
abbrev pub is_live : LoopPhase → Bool
is_live p = not (elem p terminal_phases) && not (elem p non_auto_step_phases)

abbrev pub is_passed : GateVerdict → Bool
is_passed passed = true
is_passed (denied code) = false

-- What a step that was made leaves: one step more, the nominal tokens more only if it may spend, and
-- a live phase only with budget left.
pub record Stepped (s : LoopState) (spends : Bool) (s' : LoopState) : Type 0 where
  pub one_step : s'.budget.steps_used ≡ s.budget.steps_used + 1
  pub same_max : s'.budget.max_steps ≡ s.budget.max_steps
  pub same_max_tokens : s'.budget.max_total_tokens ≡ s.budget.max_total_tokens
  pub same_id : s'.loop_id ≡ s.loop_id
  pub live_left : is_live s'.phase ≡ true → s'.budget.steps_used < s'.budget.max_steps
  pub tokens :
      (s'.budget.tokens_used ≡ s.budget.tokens_used)
      ⊎ ((s'.budget.tokens_used ≡ s.budget.tokens_used + mock_step_tokens) × (spends ≡ true))

-- The next phase is live only while the budget lasts.
pub evaluate-live :
    (s : LoopState)
    → is_live (evaluate_termination s default_policy) ≡ true
    → exhausted s.budget ≡ false
unfolding evaluate_termination
evaluate-live s h = ground arith

pub exhausted-left :
    (s : LoopState) → exhausted s.budget ≡ false → s.budget.steps_used < s.budget.max_steps
unfolding exhausted
exhausted-left s h = ground arith

pub advance-Stepped :
    (s : LoopState) (step : LoopStep) (ok_policy : Bool) (now : ℕ) (l : Loops) (spends : Bool)
    → (step.propose_tokens_used ≡ 0)
      ⊎ ((step.propose_tokens_used ≡ mock_step_tokens) × (spends ≡ true))
    → (s' : LoopState) × (lookup s.loop_id (advance s step ok_policy now l).1.states ≡ some s')
      × Stepped s spends s'
unfolding advance apply consume
advance-Stepped s step ok_policy now l spends h =
    let applied = apply s step ok_policy (length step.observation_signals) now in
    let next = evaluate_termination applied default_policy in
    let s' : LoopState = record applied { phase = next } in
    (
      s',
      elim (Bool-cases (elem next terminal_phases)) [
        | inl e ↦ rw e (lookup-insert_self s.loop_id s' l.states)
        | inr e ↦ rw e (lookup-insert_self s.loop_id s' l.states)
      ],
      record {
        one_step = refl;
        same_max = refl;
        same_max_tokens = refl;
        same_id = refl;
        live_left = λ e. exhausted-left applied (evaluate-live applied e);
        tokens = ground arith;
      },
    )

-- A result that comes from one call of `advance` with a step of that many tokens at most.
pub record Advances (s : LoopState) (now : ℕ) (spends : Bool) (r : Result LoopPhase × Loops)
    : Type 0 where
  pub step : LoopStep
  pub allowed : Bool
  pub before : Loops
  pub is_advance : r ≡ advance s step allowed now before
  pub spent :
      (step.propose_tokens_used ≡ 0)
      ⊎ ((step.propose_tokens_used ≡ mock_step_tokens) × (spends ≡ true))

module _ (s : LoopState) (a : Answers) (now : ℕ) (l : Loops) where
  pub rejected-Advances :
      (b : Bool) (gate : String) → Advances s now b (record_gate_rejected s gate now l)
  unfolding record_gate_rejected
  rejected-Advances b gate = record {
    step = _;
    allowed = _;
    before = _;
    is_advance = refl;
    spent = inl refl;
  }

  pub at_permit-Advances : (v : GateVerdict) → Advances s now true (at_permit v s a now l)
  unfolding at_permit execute_step
  at_permit-Advances (denied code) = rejected-Advances true "permit"
  at_permit-Advances passed = record {
    step = _;
    allowed = _;
    before = _;
    is_advance = refl;
    spent = inr (refl, refl);
  }

  pub at_policy-Advances : (v : GateVerdict) → Advances s now true (at_policy v s a now l)
  unfolding at_policy
  at_policy-Advances (denied code) = rejected-Advances true "policy"
  at_policy-Advances passed = at_permit-Advances a.permit_verdict

  pub at_schema-Advances : (v : GateVerdict) → Advances s now true (at_schema v s a now l)
  unfolding at_schema
  at_schema-Advances (denied code) = rejected-Advances true "schema"
  at_schema-Advances passed = at_policy-Advances a.policy_verdict

  pub at_proposal-Advances : (p : Bool) → Advances s now true (at_proposal p s a now l)
  unfolding at_proposal record_backend_unavailable
  at_proposal-Advances false = record {
    step = _;
    allowed = _;
    before = _;
    is_advance = refl;
    spent = inl refl;
  }
  at_proposal-Advances true = at_schema-Advances a.schema_verdict

  -- Tokens are spent only when the budget gate passed.
  pub at_budget-Advances : (v : GateVerdict) → Advances s now (is_passed v) (at_budget v s a now l)
  unfolding at_budget
  at_budget-Advances (denied code) = rejected-Advances false "budget"
  at_budget-Advances passed = at_proposal-Advances a.proposes

-- The verdict of the budget gate on a step.
abbrev pub budget_verdict : Bool → LoopState → GateVerdict
budget_verdict b s = if b then budget_check s.budget mock_step_tokens else passed

pub Advances-Stepped :
    (s : LoopState) (now : ℕ) (b : Bool) (r : Result LoopPhase × Loops)
    → Advances s now b r
    → (s' : LoopState) × (lookup s.loop_id r.1.states ≡ some s') × Stepped s b s'
Advances-Stepped s now b r h =
    let (s', e, st) = advance-Stepped s h.step h.allowed now h.before b h.spent in
    (s', rw h.is_advance e, st)

-- A call of `run_step` on a stored loop changes nothing if the loop is not live, and else makes one
-- step.
pub run_step-Stepped :
    (b : Bool) (id : String) (a : Answers) (now : ℕ) (l : Loops) (s : LoopState)
    → lookup id l.states ≡ some s
    → s.loop_id ≡ id
    → ((is_live s.phase ≡ false) × ((run_step b id a now l).1 ≡ l))
      ⊎ ((s' : LoopState) × (is_live s.phase ≡ true)
          × (lookup id (run_step b id a now l).1.states ≡ some s')
          × Stepped s (is_passed (budget_verdict b s)) s')
unfolding run_step through_gates
run_step-Stepped b id a now l s found same = elim (Bool-cases (elem s.phase terminal_phases)) [
  | inl t ↦ inl (ground arith, ground arith)
  | inr t ↦ elim (Bool-cases (elem s.phase non_auto_step_phases)) [
    | inl u ↦ inl (ground arith, ground arith)
    | inr u ↦
        let v = budget_verdict b s in
        let (s', e, st) = Advances-Stepped s now (is_passed v) _ (at_budget-Advances s a now l v) in
        inr (s', ground arith, ground (arith, e, same), st)
  ]
]
