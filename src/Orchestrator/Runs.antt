-- ===== src/Orchestrator/Runs.antt =====
-- src/secopent/application/orchestrator.py: a run of the orchestrator, as a sequence of steps on the
-- job store.
use sec_opent.Prelude.{
  ℕ, true, zero, suc, ◌+◌, none, some, String, List, [], ◌∷◌, string_eq, ◌≡◌, refl, arith, sym,
  subst, Option-cases, Bool-cases, inl, inr,
}
use sec_opent.Prelude.Dict.{lookup, insert}
use sec_opent.Prelude.Raises.{Result, ok, err, step_paused, step_cancelled}
use sec_opent.Prelude.Action.{Action, ◌>>=◌, pure}
use sec_opent.Assessment.{PlanStep}
use sec_opent.Jobs.{Job, job_status_eq, can_lease, leaseable}
use sec_opent.Orchestrator.{
  Ran, produced, failed_with, raised, Gate, go_on, paused, cancelled, resolve_dependencies, Machine,
  Setup, check_gate, execute_on, run_targets, targets_of, execute_ready, run_to_completion,
  round_end,
}
use sec_opent.Orchestrator.Keyed.{IsKeyed}
use sec_opent.Orchestrator.Execute.{attempted, answer_of, execute_outcome, execute-missing}
use sec_opent.Orchestrator.Counts.{attempts, attempts-insert, attempts-resolve_dependencies}
use sec_opent.Jobs.Leases.{leased_job, lease_outcome, lease_missing}
use sec_opent.Orchestrator.Steps.{
  Steps, stay, tried, Steps-trans, Ends, ended, crashed, Ends-trans, Ends-IsKeyed,
  attempted-attempt, resolve_dependencies-Steps,
}

-- From one machine to the next: the store changes by steps, at the end of which the runner may raise if the
-- call raised, and the runner was called as often as attempts were counted.
abbrev Counted : Machine → Machine → Type 0
Counted m n = n.ran + attempts m.jobs ≡ m.ran + attempts n.jobs

abbrev Leads : {A : Type 0} → Machine → Result A → Machine → Type 0
Leads m (ok a) n = Steps m.jobs n.jobs × Counted m n
Leads m (err e) n = Ends m.jobs n.jobs × Counted m n

Leads-trans :
    {A : Type 0} (m n o : Machine) (r : Result A)
    → Steps m.jobs n.jobs
    → Counted m n
    → Leads n r o
    → Leads m r o
Leads-trans m n o (ok a) p c q = let d = q.1 in (Steps-trans p q.0, omega (arith, c, d))
Leads-trans m n o (err e) p c q = let d = q.1 in (Ends-trans p q.0, omega (arith, c, d))

Leads-Ends :
    {A : Type 0} (m n : Machine) (r : Result A) → Leads m r n → Ends m.jobs n.jobs × Counted m n
Leads-Ends m n (ok a) p = (ended _ _ p.0, p.1)
Leads-Ends m n (err e) p = p

-- What a chain of calls leaves follows from what each call leaves.
abbrev bound : {A B : Type 0} → (A → Action Machine B) → Result A → Machine → Result B × Machine
bound f r y = elim r [ ok a ↦ f a y | err e ↦ (err e, y) ]

bound-Leads :
    {A B : Type 0} (f : A → Action Machine B) (m : Machine) (r : Result A) (y : Machine)
    → Leads m r y
    → ((a : A) → Leads y (f a y).0 (f a y).1)
    → Leads m (bound f r y).0 (bound f r y).1
bound-Leads f m (ok a) y p q = Leads-trans m y (f a y).1 (f a y).0 p.0 p.1 (q a)
bound-Leads f m (err e) y p q = p

>>=-Leads :
    {A B : Type 0} (m : Action Machine A) (f : A → Action Machine B) (x : Machine)
    → Leads x (m x).0 (m x).1
    → ((a : A) → Leads (m x).1 (f a (m x).1).0 (f a (m x).1).1)
    → Leads x ((m >>= f) x).0 ((m >>= f) x).1
>>=-Leads m f x p q = bound-Leads f x (m x).0 (m x).1 p q

module _ (env : Setup) where
  check_gate-Leads : (m : Machine) → Leads m (check_gate env m).0 (check_gate env m).1
  unfolding check_gate
  check_gate-Leads m = go (env.gate m.asked)
    where
      go :
          (g : Gate)
          → let after = elim g as (λ _. Result (Unit {0}) × Machine) [
            | go_on ↦ (ok tt, record m { asked = m.asked + 1 })
            | paused ↦ (err step_paused, record m { asked = m.asked + 1 })
            | cancelled ↦ (err step_cancelled, record m { asked = m.asked + 1 })
          ] in
            Leads m after.0 after.1
      go go_on = (stay m.jobs, refl)
      go paused = (ended _ _ (stay m.jobs), refl)
      go cancelled = (ended _ _ (stay m.jobs), refl)

  check_gate-jobs : (m : Machine) → (check_gate env m).1.jobs ≡ m.jobs
  unfolding check_gate
  check_gate-jobs m = ground arith

  -- One attempt, by what the runner answers.
  attempt-Leads :
      (id : String) (run : Ran) (j : Job) (m : Machine)
      → lookup id m.jobs ≡ some j
      → can_lease env.now j ≡ true
      → let l = leased_job env.ttl env.owner env.now j in
        Leads m
          (answer_of run l)
          (record m { jobs = insert id (attempted run l) m.jobs; ran = m.ran + 1 })
  attempt-Leads id run j m e c =
      let l = leased_job env.ttl env.owner env.now j in
      let counted = attempts-insert id j (attempted run l) m.jobs e in
      let once = attempted-attempt run l in go run (omega (arith, counted, once))
    where
      go :
          (run : Ran)
          → (let l = leased_job env.ttl env.owner env.now j in
              (m.ran + 1) + attempts m.jobs ≡ m.ran + attempts (insert id (attempted run l) m.jobs))
          → let l = leased_job env.ttl env.owner env.now j in
            Leads m
              (answer_of run l)
              (record m { jobs = insert id (attempted run l) m.jobs; ran = m.ran + 1 })
      go (raised n) h =
          (crashed _ m.jobs _ env.ttl env.owner env.now id j (stay m.jobs) e c refl, h)
      go (produced d) h =
          (tried _ _ env.ttl env.owner env.now id (produced d) j e c refl (stay _), h)
      go (failed_with f) h =
          (tried _ _ env.ttl env.owner env.now id (failed_with f) j e c refl (stay _), h)

  execute_on-Leads :
      (job : Job) (step : PlanStep) (m : Machine)
      → IsKeyed m.jobs
      → Leads m (execute_on env job step m).0 (execute_on env job step m).1
  unfolding execute_on
  execute_on-Leads job step m w = elim (Option-cases (lookup job.id m.jobs)) [
    | inl n ↦
        rw
          (
            execute-missing env.ttl env.owner env.now job (env.runner m.ran step) m.jobs n,
            lease_missing env.ttl job.id env.owner env.now m.jobs n,
          )
          (ended _ _ (stay m.jobs), refl)
    | inr (j, e) ↦ elim (Bool-cases (can_lease env.now j)) [
      | inl t ↦
          rw
            (
              execute_outcome env.ttl env.owner env.now job (env.runner m.ran step) m.jobs j w e,
              lease_outcome env.ttl job.id env.owner env.now m.jobs j e,
              t,
            )
            (attempt-Leads job.id (env.runner m.ran step) j m e t)
      | inr f ↦
          rw
            (
              execute_outcome env.ttl env.owner env.now job (env.runner m.ran step) m.jobs j w e,
              lease_outcome env.ttl job.id env.owner env.now m.jobs j e,
              f,
            )
            (ended _ _ (stay m.jobs), refl)
    ]
  ]

  run_targets-Leads :
      (ts : List (Job × PlanStep)) (m : Machine)
      → IsKeyed m.jobs
      → Leads m (run_targets env ts m).0 (run_targets env ts m).1
  unfolding run_targets
  run_targets-Leads [] m w = (stay m.jobs, refl)
  run_targets-Leads ((job, step) ∷ ts) m w =
      let k3 : Job → List Job → Action Machine (List Job) = λ done dones. pure (done ∷ dones) in
      let k2 : Job → Action Machine (List Job) = λ done. run_targets env ts >>= k3 done in
      let k1 : Unit {0} → Action Machine (List Job) = λ u. execute_on env job step >>= k2 in
      >>=-Leads (check_gate env) k1 m (check_gate-Leads m) (λ u.
        let n = (check_gate env m).1 in
        let v = subst IsKeyed (sym (check_gate-jobs m)) w in
        let l = (execute_on env job step n).1 in
        let p = execute_on-Leads job step n v in
        >>=-Leads (execute_on env job step) k2 n p (λ done.
          >>=-Leads (run_targets env ts) (k3 done) l
            (run_targets-Leads ts l (Ends-IsKeyed (Leads-Ends n l _ p).0 v))
            (λ dones. (stay _, refl))))

  execute_ready-Leads :
      (m : Machine) → IsKeyed m.jobs → Leads m (execute_ready env m).0 (execute_ready env m).1
  unfolding execute_ready
  execute_ready-Leads m w =
      let p = run_targets-Leads (targets_of env.steps (leaseable env.now m.jobs)) m w in
      go _ _ p (Ends-IsKeyed (Leads-Ends m _ _ p).0 w)
    where
      go :
          (r : Result (List Job)) (n : Machine)
          → Leads m r n
          → IsKeyed n.jobs
          → let after = elim r as (λ _. Result (List Job) × Machine) [
            | err e ↦ (err e, n)
            | ok done ↦ (ok done, record n { jobs = resolve_dependencies n.jobs })
          ] in
            Leads m after.0 after.1
      go (err e) n p v = p
      go (ok done) n p v =
          let c = p.1 in
          let d = attempts-resolve_dependencies n.jobs v in
          (Steps-trans p.0 (resolve_dependencies-Steps n.jobs v), omega (arith, c, d))

  -- A run to completion takes such steps only, and calls the runner as often as attempts are counted.
  pub run_to_completion-Ends :
      (rounds : ℕ) (m : Machine)
      → IsKeyed m.jobs
      → let n = (run_to_completion env rounds m).1 in
        Ends m.jobs n.jobs × (n.ran + attempts m.jobs ≡ m.ran + attempts n.jobs)
  unfolding run_to_completion
  run_to_completion-Ends zero m w = (ended _ _ (stay m.jobs), refl)
  run_to_completion-Ends (suc rounds) m w =
      let p = execute_ready-Leads m w in
      let n = (execute_ready env m).1 in
      go (execute_ready env m).0 n p
        (run_to_completion-Ends rounds n (Ends-IsKeyed (Leads-Ends m _ _ p).0 w))
    where
      go :
          (r : Result (List Job)) (n : Machine)
          → Leads m r n
          → (let o = (run_to_completion env rounds n).1 in Ends n.jobs o.jobs × Counted n o)
          → let o =
              (elim (round_end env r) as (λ _. Result Gate × Machine) [
                | some end ↦ (end, n)
                | none ↦ run_to_completion env rounds n
              ]).1 in
            Ends m.jobs o.jobs × Counted m o
      go (ok []) n p q = Leads-Ends {A = List Job} m n (ok []) p
      go (ok (j ∷ js)) n p q =
          let c = p.1 in let d = q.1 in (Ends-trans p.0 q.0, omega (arith, c, d))
      go (err step_paused) n p q = p
      go (err step_cancelled) n p q = p
      go (err e) n p q = p
