-- ===== src/Tests/Loops.antt =====
-- Reasoning loops at concrete inputs.
use sec_opent.Prelude.{
  true, false, ◌≡◌, ◌<◌, ◌≤◌, ◌+◌, refl, some, none, ℕ, String, [], ◌∷◌, arith, elem, ◌==◌,
  string_eq,
}
use sec_opent.Prelude.Dict.{lookup}
use sec_opent.Loop.{
  LoopPhase, phase_eq, LoopBudget, LoopState, LoopStep, default_policy, passed, apply,
}
use sec_opent.Loop.Control.{Loops, Answers}
use sec_opent.Loop.Pause.{pause, resume, resume_loop, absent, dead_phases}
use sec_opent.Loop.Steps.{is_live}
use sec_opent.Loop.Bounded.{drive, drive_ends, drive_within_tokens}
use sec_opent.Loop.Humans.{Credits, resume-granted, converged_revives}

abbrev budget : LoopBudget
budget = record {
  max_steps = 2;
  max_total_tokens = 1000;
  max_wall_seconds = 60;
  steps_used = 0;
  tokens_used = 0;
  wall_seconds_used = 0;
}

abbrev in_phase : LoopPhase → LoopState
in_phase phase = record {
  loop_id = "loop";
  assessment_id = "a1";
  phase = phase;
  policy_snapshot = "policy";
  budget = budget;
  context_hash = "hash";
  catalog_required_remaining = "A01" ∷ "A03" ∷ [];
  catalog_required_executed = [];
  consecutive_no_signal = 0;
  consecutive_policy_rejected = 0;
  started_at = 0;
  last_step_at = none;
  pause_attempts = 0;
  paused_at = none;
  resumed_at = none;
}

abbrev loops : LoopPhase → Loops
loops phase = record { states = ("loop", in_phase phase) ∷ []; steps = []; audit = [] }

abbrev answers : ℕ → Answers
answers n = record {
  proposes = true;
  schema_verdict = passed;
  policy_verdict = passed;
  permit_verdict = passed;
  permit_id = "permit";
  oracle_progressed = false;
}

drive_ends_example :
    (s : LoopState) × (lookup "loop"
        (drive false "loop" answers (λ n. n) 2 (loops LoopPhase.initializing)).states
      ≡ some s)
    × (is_live s.phase ≡ false)
drive_ends_example =
    drive_ends false "loop" answers (λ n. n) 1 (loops LoopPhase.initializing)
      (in_phase LoopPhase.initializing) refl refl (omega arith)

drive_within_tokens_example :
    (s : LoopState) × (lookup "loop"
        (drive true "loop" answers (λ n. n) 4 (loops LoopPhase.initializing)).states
      ≡ some s)
    × (s.budget.tokens_used ≤ s.budget.max_total_tokens)
drive_within_tokens_example =
    drive_within_tokens "loop" answers (λ n. n) 4 (loops LoopPhase.initializing)
      (in_phase LoopPhase.initializing) refl refl (omega arith)

abbrev human : String
human = "human"

abbrev held : Loops
held = (pause "loop" "alice" "human" 5 (loops LoopPhase.running)).1

abbrev resumed : LoopState
resumed = record (in_phase LoopPhase.resumed) { pause_attempts = 1; resumed_at = some 9 }

resume-granted_example :
    (s : LoopState) × (lookup "loop" held.states ≡ some s)
    × ((human == "agent") ≡ false)
    × (absent (some "alice") ≡ false)
    × (absent (some "signature") ≡ false)
    × (elem s.phase dead_phases ≡ false)
    × (resumed.phase ≡ LoopPhase.resumed)
    × (resumed.pause_attempts ≡ s.pause_attempts + 1)
    × (resumed.pause_attempts < 3)
    × (resumed.paused_at ≡ none)
    × (resumed.loop_id ≡ s.loop_id)
    × (lookup s.loop_id
          (resume default_policy "loop" "alice" "human"
            (some "alice")
            (some "signature")
            9
            held).1.states
        ≡ some resumed)
    × (resumed.budget ≡ record s.budget { wall_seconds_used = resumed.budget.wall_seconds_used })
    × Credits s.paused_at 9 s.budget.wall_seconds_used resumed.budget.wall_seconds_used
unfolding resume pause sec_opent.Loop.Pause.credit_budget
resume-granted_example =
    resume-granted default_policy "loop" "alice" "human" (some "alice") (some "signature") 9 held
      resumed refl

converged_revives_example :
    (s : LoopState) × (lookup "loop"
        (resume default_policy "loop" "alice" "human"
          (some "alice")
          (some "signature")
          9
          (pause "loop" "alice" "human" 5 (loops LoopPhase.converged)).1).1.states
      ≡ some s)
    × (is_live s.phase ≡ true)
converged_revives_example =
    converged_revives default_policy "loop" "alice" "human" (some "alice") (some "signature") 5 9
      (loops LoopPhase.converged) (in_phase LoopPhase.converged) refl refl refl refl refl refl
      (omega arith)

abbrev matching_step : LoopStep
matching_step = record {
  propose_tokens_used = 100;
  schema_check_passed = true;
  policy_allowed = true;
  permit_id = some "permit";
  observation_signals = "signal" ∷ [];
  catalog_class_matched = "A03" ∷ [];
  oracle_progressed = true;
}
