-- ===== src/Loop/Bounded.antt =====
-- src/secopent/application/reasoning_loop/orchestrator.py: a loop stepped again and again.
use sec_opent.Prelude.{
  ℕ, zero, suc, ◌+◌, ◌≤◌, ◌<◌, Bool, true, false, some, String, ◌≡◌, ◌∙◌, inl, inr, arith,
}
use sec_opent.Prelude.Dict.{lookup}
use sec_opent.Loop.{LoopState, exhausted, consume, budget_check}
use sec_opent.Loop.Control.{Loops, Answers, run_step}
use sec_opent.Loop.Steps.{is_live, is_passed, budget_verdict, Stepped, run_step-Stepped}

-- `n` calls of `run_step`, whatever the gates answer and the clock shows; an exception of a call is
-- caught by its caller.
unfoldable pub drive : Bool → String → (ℕ → Answers) → (ℕ → ℕ) → ℕ → Loops → Loops
drive b id answers clock zero l = l
drive b id answers clock (suc n) l =
    drive b id answers clock n (run_step b id (answers n) (clock n) l).1

module _ (b : Bool) (id : String) (answers : ℕ → Answers) (clock : ℕ → ℕ) where
  pub drive-stops :
      (n : ℕ) (l : Loops) (s : LoopState)
      → lookup id l.states ≡ some s
      → s.loop_id ≡ id
      → (is_live s.phase ≡ true
          → (s.budget.steps_used < s.budget.max_steps)
            × (s.budget.max_steps ≤ s.budget.steps_used + n))
      → (s' : LoopState) × (lookup id (drive b id answers clock n l).states ≡ some s')
        × (is_live s'.phase ≡ false)
  unfolding drive
  drive-stops zero l s found same h = (s, found, ground arith)
  drive-stops (suc n) l s found same h =
      elim (run_step-Stepped b id (answers n) (clock n) l s found same) [
        | inl (dead, unchanged) ↦ drive-stops n _ s (rw unchanged found) same (λ e. ground arith)
        | inr (s', live, e, st) ↦
            drive-stops n _ s' e (st.same_id ∙ same)
              (λ x. (st.live_left x, omega (arith, (h live).1, st.one_step, st.same_max)))
      ]

-- A stored loop, stepped at least once and as often as its budget has steps left, is stored in a
-- phase that is not stepped any more, whatever the proposer and the gates answer.
pub drive_ends :
    (b : Bool) (id : String) (answers : ℕ → Answers) (clock : ℕ → ℕ) (n : ℕ) (l : Loops)
    (s : LoopState)
    → lookup id l.states ≡ some s
    → s.loop_id ≡ id
    → s.budget.max_steps ≤ s.budget.steps_used + suc n
    → (s' : LoopState) × (lookup id (drive b id answers clock (suc n) l).states ≡ some s')
      × (is_live s'.phase ≡ false)
unfolding drive
drive_ends b id answers clock n l s found same h =
    elim (run_step-Stepped b id (answers n) (clock n) l s found same) [
      | inl (dead, unchanged) ↦
          drive-stops b id answers clock n _ s (rw unchanged found) same (λ e. ground arith)
      | inr (s', live, e, st) ↦
          drive-stops b id answers clock n _ s' e (st.same_id ∙ same)
            (λ x. (st.live_left x, omega (arith, h, st.one_step, st.same_max)))
    ]

pub Stepped-within :
    (s s' : LoopState)
    → Stepped s (is_passed (budget_verdict true s)) s'
    → s.budget.tokens_used ≤ s.budget.max_total_tokens
    → s'.budget.tokens_used ≤ s'.budget.max_total_tokens
unfolding budget_check exhausted consume
Stepped-within s s' st h = elim st.tokens [
  | inl e ↦ omega (arith, e, st.same_max_tokens)
  | inr (e, p) ↦ ground (arith, e, p, st.same_max_tokens)
]

-- A loop that is composed with the budget gate and starts within its token budget stays within it,
-- however often it is stepped.
pub drive_within_tokens :
    (id : String) (answers : ℕ → Answers) (clock : ℕ → ℕ) (n : ℕ) (l : Loops) (s : LoopState)
    → lookup id l.states ≡ some s
    → s.loop_id ≡ id
    → s.budget.tokens_used ≤ s.budget.max_total_tokens
    → (s' : LoopState) × (lookup id (drive true id answers clock n l).states ≡ some s')
      × (s'.budget.tokens_used ≤ s'.budget.max_total_tokens)
unfolding drive
drive_within_tokens id answers clock zero l s found same h = (s, found, h)
drive_within_tokens id answers clock (suc n) l s found same h =
    elim (run_step-Stepped true id (answers n) (clock n) l s found same) [
      | inl (dead, unchanged) ↦
          drive_within_tokens id answers clock n _ s (rw unchanged found) same h
      | inr (s', live, e, st) ↦
          drive_within_tokens id answers clock n _ s' e (st.same_id ∙ same)
            (Stepped-within s s' st h)
    ]
