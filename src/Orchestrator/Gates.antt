-- ===== src/Orchestrator/Gates.antt =====
-- The step gate of src/secopent/application/orchestrator.py: a pause or a cancel issues no new work.
use sec_opent.Prelude.{ℕ, suc, ◌+◌, none, some, List, [], ◌∷◌, ◌≡◌, ◌≢◌, refl, ap, arith, ◌∙◌}
use sec_opent.Prelude.Raises.{Result, ok, err, step_paused, step_cancelled}
use sec_opent.Assessment.{PlanStep}
use sec_opent.Jobs.{Job, leaseable}
use sec_opent.Orchestrator.{
  Gate, go_on, paused, cancelled, Machine, Setup, check_gate, run_targets, round_end, targets_of,
  execute_ready, run_to_completion, resolve_dependencies,
}

-- What a run answers when the gate stops it.
abbrev stopping : Gate → Result (List Job)
stopping go_on = ok []
stopping paused = err step_paused
stopping cancelled = err step_cancelled

-- The end of a round: a round that was not left resolves dependencies.
abbrev after_round : Result (List Job) → Machine → Result (List Job) × Machine
after_round r n = elim r [
  | err e ↦ (err e, n)
  | ok done ↦ (ok done, record n { jobs = resolve_dependencies n.jobs })
]

module _ (env : Setup) where
  stopped-run_targets :
      (g : Gate) (job : Job) (step : PlanStep) (ts : List (Job × PlanStep)) (m : Machine)
      → env.gate m.asked ≡ g
      → g ≢ go_on
      → run_targets env ((job, step) ∷ ts) m ≡ (stopping g, record m { asked = m.asked + 1 })
  unfolding run_targets check_gate
  stopped-run_targets g job step ts m e n = ground arith

  -- How a round's result becomes the round's, and the run's.
  execute_ready-of :
      (m n : Machine) (ts : List (Job × PlanStep)) (r : Result (List Job))
      → targets_of env.steps (leaseable env.now m.jobs) ≡ ts
      → run_targets env ts m ≡ (r, n)
      → execute_ready env m ≡ after_round r n
  unfolding execute_ready
  execute_ready-of m n ts r e h =
      ap (λ l. after_round (run_targets env l m).0 (run_targets env l m).1) e
      ∙ ap (λ x. after_round x.0 x.1) h

  run_to_completion-of :
      (rounds : ℕ) (m n : Machine) (r : Result (List Job)) (end : Result Gate)
      → execute_ready env m ≡ (r, n)
      → round_end env r ≡ some end
      → run_to_completion env (suc rounds) m ≡ (end, n)
  unfolding run_to_completion
  run_to_completion-of rounds m n r end h q =
      ap
        (λ x. elim (round_end env x.0) [
          | some end ↦ (end, x.1)
          | none ↦ run_to_completion env rounds x.1
        ])
        h
      ∙ rw q refl

  stopping-end : (g : Gate) → g ≢ go_on → round_end env (stopping g) ≡ some (ok g)
  stopping-end g n = ground arith

  after_stopping :
      (g : Gate) (n : Machine) → g ≢ go_on → after_round (stopping g) n ≡ (stopping g, n)
  after_stopping g n h = ground arith

  -- If the gate answers a pause or a cancel before the first job of a round, the run ends with that
  -- answer: no job is leased, no runner called, and no job changed.
  pub gate_stops :
      (g : Gate) (t : Job × PlanStep) (ts : List (Job × PlanStep)) (rounds : ℕ) (m : Machine)
      → targets_of env.steps (leaseable env.now m.jobs) ≡ t ∷ ts
      → env.gate m.asked ≡ g
      → g ≢ go_on
      → run_to_completion env (suc rounds) m ≡ (ok g, record m { asked = m.asked + 1 })
  gate_stops g t ts rounds m e k n =
      let m2 : Machine = record m { asked = m.asked + 1 } in
      run_to_completion-of rounds m m2 (stopping g) (ok g)
        (execute_ready-of m m2 (t ∷ ts) (stopping g) e (stopped-run_targets g t.0 t.1 ts m k n)
          ∙ after_stopping g m2 n)
        (stopping-end g n)

  -- If no leaseable job has a known step, the run ends as completed after the dependencies were
  -- resolved once, and neither gate nor runner was called.
  pub nothing_to_do :
      (rounds : ℕ) (m : Machine)
      → targets_of env.steps (leaseable env.now m.jobs) ≡ []
      → run_to_completion env (suc rounds) m
        ≡ (ok go_on, record m { jobs = resolve_dependencies m.jobs })
  unfolding run_targets
  nothing_to_do rounds m e =
      run_to_completion-of rounds m _ (ok []) (ok go_on) (execute_ready-of m m [] (ok []) e refl)
        refl
