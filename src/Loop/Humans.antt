-- ===== src/Loop/Humans.antt =====
-- src/secopent/application/reasoning_loop/pause_control.py and the human operations of
-- orchestrator.py: who may pause and resume, how often, and which loops stay dead.
use sec_opent.Prelude.{
  ℕ, ◌+◌, ◌-◌, ◌/◌, ◌≤◌, ◌<◌, ◌⊎◌, ap, sym, subst, dec_lt, true, false, Option, none, some, String,
  elem, ◌==◌, string_eq, ◌≡◌, inl, inr, refl, arith, Bool-cases, Option-cases,
}
use sec_opent.Prelude.Dict.{lookup, insert, lookup-insert_self}
use sec_opent.Prelude.Raises.{Error, ok, err, approval_rejected, domain}
use sec_opent.Loop.{LoopPhase, phase_eq, LoopState, LoopTerminationPolicy}
use sec_opent.Loop.Control.{Loops}
use sec_opent.Loop.Steps.{is_live}
use sec_opent.Loop.Pause.{
  dead_phases, absent, pause, resume, require_resume_approval, credit_budget, wall_credit, credited,
  resume_loop, force_pause_budget_termination,
}

-- The state that a granted resume saves.
abbrev resumed_state : LoopState → ℕ → LoopState
resumed_state s now = record s {
  phase = LoopPhase.resumed;
  pause_attempts = s.pause_attempts + 1;
  paused_at = none;
  resumed_at = some now;
  budget = credit_budget s.budget (wall_credit s.paused_at now);
}

-- The wall time that a pause gives back to the budget: nothing without a pause; the full seconds since
-- the pause, down to 0; and if the clock ran back, time is added instead.
abbrev pub Credits : Option ℕ → ℕ → ℕ → ℕ → Type 0
Credits paused_at now before after =
    ((paused_at ≡ none) × (after ≡ before))
    ⊎ ((t : ℕ) × (paused_at ≡ some t)
        × ((t ≤ now) × (after ≡ before - (now - t) / 1000000) ⊎ (now < t) × (before < after)))

credit-Credits :
    (paused_at : Option ℕ) (now used : ℕ)
    → Credits paused_at now used (credited used (wall_credit paused_at now))
credit-Credits none now used = inl (refl, omega arith)
credit-Credits (some t) now used = inr (
  t,
  refl,
  elim (dec_lt now t) [ yes h ↦ inr (h, ground arith) | no h ↦ inl (omega arith, ground arith) ],
)

-- A resume that returns was asked for by a human with a name and a signature, on a stored loop that
-- is not dead; it is the one after at most `max_pauses - 2` others. The loop that is then stored is the
-- one returned: RESUMED, with one attempt more, no pause left, and a budget of which only the wall time
-- has changed, by the credit of the pause.
pub resume-granted :
    (policy : LoopTerminationPolicy) (id actor role : String)
    (approved_by signature : Option String) (now : ℕ) (l : Loops) (r : LoopState)
    → (resume policy id actor role approved_by signature now l).0 ≡ ok r
    → (s : LoopState) × (lookup id l.states ≡ some s)
      × ((role == "agent") ≡ false)
      × (absent approved_by ≡ false)
      × (absent signature ≡ false)
      × (elem s.phase dead_phases ≡ false)
      × (r.phase ≡ LoopPhase.resumed)
      × (r.pause_attempts ≡ s.pause_attempts + 1)
      × (r.pause_attempts < policy.max_pauses)
      × (r.paused_at ≡ none)
      × (r.loop_id ≡ s.loop_id)
      × (lookup s.loop_id (resume policy id actor role approved_by signature now l).1.states
          ≡ some r)
      × (r.budget ≡ record s.budget { wall_seconds_used = r.budget.wall_seconds_used })
      × Credits s.paused_at now s.budget.wall_seconds_used r.budget.wall_seconds_used
unfolding resume require_resume_approval credit_budget
resume-granted policy id actor role approved_by signature now l r h =
    elim (Option-cases (lookup id l.states)) [
      | inl n ↦ absurd (ground arith)
      | inr (s, found) ↦
          let resumed = resumed_state s now in
          let same : resumed ≡ r = ground arith in
          let kept = lookup-insert_self s.loop_id resumed l.states in
          (
            s,
            found,
            ground arith,
            ground arith,
            ground arith,
            ground arith,
            ground arith,
            ground arith,
            ground arith,
            ground arith,
            ap LoopState.loop_id (sym same),
            ground (arith, kept),
            subst
                (λ x. x.budget ≡ record s.budget { wall_seconds_used = x.budget.wall_seconds_used })
                same refl,
            subst
                (λ x. Credits s.paused_at now s.budget.wall_seconds_used x.budget.wall_seconds_used)
                same (credit-Credits s.paused_at now s.budget.wall_seconds_used),
          )
    ]

-- An agent is refused a pause and a resume, and nothing is written.
pub agent-refused :
    (policy : LoopTerminationPolicy) (id actor : String) (approved_by signature : Option String)
    (now : ℕ) (l : Loops)
    → ((e : Error) × (pause id actor "agent" now l ≡ (err e, l)))
      × ((e : Error) × (resume_loop policy id actor "agent" approved_by signature now l
            ≡ (err e, l)))
unfolding pause resume resume_loop
agent-refused policy id actor approved_by signature now l = ((_, refl), (_, refl))

-- A loop whose budget is exhausted, that policy blocked, or that was stopped or completed can be
-- neither paused nor resumed, and the attempt writes nothing.
pub dead-refused :
    (policy : LoopTerminationPolicy) (id actor role : String)
    (approved_by signature : Option String) (now : ℕ) (l : Loops) (s : LoopState)
    → lookup id l.states ≡ some s
    → elem s.phase dead_phases ≡ true
    → ((e : Error) × (pause id actor role now l ≡ (err e, l)))
      × ((e : Error) × (resume_loop policy id actor role approved_by signature now l ≡ (err e, l)))
unfolding pause resume resume_loop
dead-refused policy id actor role approved_by signature now l s found dead =
    elim (Bool-cases (role == "agent")) [
      | inl a ↦ (
        (approval_rejected "pause is human-only (403): agents are rejected", ground arith),
        (approval_rejected "resume is human-only (403): agents are rejected", ground arith),
      )
      | inr a ↦ (
        (domain "cannot pause a dead loop: phase=", ground arith),
        (domain "cannot resume a stopped loop: phase=", ground arith),
      )
    ]

-- A human's resume of a loop that is not dead and has used up its pauses ends the loop: it is
-- stored as POLICY_BLOCKED, whatever was signed.
pub resume_loop_over_budget :
    (policy : LoopTerminationPolicy) (id actor role : String)
    (approved_by signature : Option String) (now : ℕ) (l : Loops) (s : LoopState)
    → lookup id l.states ≡ some s
    → s.loop_id ≡ id
    → (role == "agent") ≡ false
    → elem s.phase dead_phases ≡ false
    → policy.max_pauses ≤ s.pause_attempts + 1
    → (s' : LoopState) × (lookup id
          (resume_loop policy id actor role approved_by signature now l).1.states
        ≡ some s')
      × (s'.phase ≡ LoopPhase.policy_blocked)
unfolding resume resume_loop force_pause_budget_termination
resume_loop_over_budget policy id actor role approved_by signature now l s found same human alive
      h =
    let s' : LoopState = record s { phase = LoopPhase.policy_blocked; last_step_at = some now } in
    (s', ground (arith, lookup-insert_self id s' l.states), refl)

-- A loop that has converged, which the stepping treats as ended, is live again after a human pauses
-- it and resumes it with a signature, while pauses are left.
pub converged_revives :
    (policy : LoopTerminationPolicy) (id actor role : String)
    (approved_by signature : Option String) (t now : ℕ) (l : Loops) (s : LoopState)
    → lookup id l.states ≡ some s
    → s.loop_id ≡ id
    → s.phase ≡ LoopPhase.converged
    → (role == "agent") ≡ false
    → absent approved_by ≡ false
    → absent signature ≡ false
    → s.pause_attempts + 1 < policy.max_pauses
    → (s' : LoopState) × (lookup id
          (resume policy id actor role approved_by signature now
            (pause id actor role t l).1).1.states
        ≡ some s')
      × (is_live s'.phase ≡ true)
unfolding pause resume require_resume_approval
converged_revives policy id actor role approved_by signature t now l s found same conv human by sig
      h =
    let p : LoopState = record s { phase = LoopPhase.on_hold; paused_at = some t } in
    let s' : LoopState = record p {
      phase = LoopPhase.resumed;
      pause_attempts = s.pause_attempts + 1;
      paused_at = none;
      resumed_at = some now;
      budget = credit_budget s.budget (wall_credit (some t) now);
    } in
    let held = lookup-insert_self id p l.states in
    (s', ground (arith, held, lookup-insert_self id s' (insert id p l.states)), refl)
