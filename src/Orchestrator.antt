-- ===== src/Orchestrator.antt =====
-- src/secopent/application/orchestrator.py: a plan dispatched into jobs and drained round by round.
-- One worker runs the jobs of a round in turn (`max_workers <= 1`).
pub mod Keyed
pub mod Execute
pub mod Steps
pub mod Counts
pub mod Runs
pub mod Dispatched
pub mod Attempts
pub mod Settled
pub mod Ordering
pub mod Resolve
pub mod Gates
use sec_opent.Prelude.{
  ℕ, zero, suc, ◌+◌, Bool, ◌&&◌, Option, none, some, String, List, [], ◌∷◌, subset, if◌then◌else◌,
  ltb, string_eq, ◌==◌,
}
use sec_opent.Prelude.Dict.{Dict, lookup, insert, values}
use sec_opent.Prelude.Raises.{Result, ok, err, step_paused, step_cancelled, other_error}
use sec_opent.Assessment.{PlanStep}
use sec_opent.Jobs.{
  Job, JobStatus, job_status_eq, FailureClass, is_retryable, is_policy, JobStore, Method, add,
  lease, complete, fail, requeue, mark_ready, leaseable,
}
use sec_opent.Prelude.Action.{◌>>=◌, ◌>>◌, pure, lift}

-- What `runner.run(step)` does: a digest, StepFailure, or any other exception, by a number.
pub data Ran : Type 0 where
  produced : String → Ran
  failed_with : FailureClass → Ran
  raised : ℕ → Ran

-- What the step gate answers; `go_on` is `None`.
pub data Gate : Type 0 where
  go_on paused cancelled : Gate

-- A job of a step waits if the step depends on others.
abbrev pub starting : List String → JobStatus
starting [] = JobStatus.ready
starting (d ∷ ds) = JobStatus.blocked

-- `id_of` and `key_of` build `f"job:{step.key}"` and `f"{plan.digest}:{step.key}"`.
abbrev pub new_job : (String → String) → (String → String) → PlanStep → Job
new_job id_of key_of step = record {
  id = id_of step.key;
  plan_step_key = step.key;
  idempotency_key = key_of step.key;
  status = starting step.dependencies;
  attempt = 0;
  max_attempts = 3;
  lease_owner = none;
  lease_expires_at = none;
  result_digest = "";
  failure_class = none;
  dependencies = step.dependencies;
}

-- The jobs and `_steps` after `dispatch`.
unfoldable pub dispatch :
    (String → String)
    → (String → String)
    → List PlanStep
    → JobStore × Dict PlanStep
    → JobStore × Dict PlanStep
dispatch id_of key_of [] (jobs, steps) = (jobs, steps)
dispatch id_of key_of (step ∷ rest) (jobs, steps) =
    dispatch id_of key_of rest
      ((add (new_job id_of key_of step) jobs).1, insert step.key step steps)

unfoldable pub handle_failure : Job → FailureClass → Method Job
handle_failure job failure =
    if is_policy failure
    then fail job.id failure
    else if is_retryable failure && ltb job.attempt job.max_attempts
    then requeue job.id
    else fail job.id failure

-- The rest of `_execute` once the job is leased, where `run` is the runner's answer. An exception that is
-- no StepFailure leaves the job leased.
abbrev pub answered : String → Ran → Job → Method Job
answered id (produced digest) leased = complete id digest
answered id (failed_with failure) leased = handle_failure leased failure
answered id (raised n) leased = lift (err (other_error n))

-- `_execute`
unfoldable pub execute : ℕ → String → ℕ → Job → Ran → Method Job
execute ttl owner now job run = do leased ← lease ttl job.id owner now; answered job.id run leased

-- `_resolve_dependencies`: the keys that have succeeded, and each blocked job that they free.
abbrev pub succeeded_keys : List Job → List String
succeeded_keys [] = []
succeeded_keys (j ∷ js) =
    let rest = succeeded_keys js in
    if j.status == JobStatus.succeeded then j.plan_step_key ∷ rest else rest

abbrev pub is_freed : List String → Job → Bool
is_freed succeeded j = j.status == JobStatus.blocked && subset j.dependencies succeeded

unfoldable pub free_jobs : List String → List Job → JobStore → JobStore
free_jobs succeeded [] s = s
free_jobs succeeded (j ∷ js) s =
    free_jobs succeeded js (if is_freed succeeded j then (mark_ready j.id s).1 else s)

unfoldable pub resolve_dependencies : JobStore → JobStore
resolve_dependencies s = free_jobs (succeeded_keys (values s)) (values s) s

-- The job store, and how often the runner and the gate were called.
pub record Machine : Type 0 where
  pub jobs : JobStore
  pub ran : ℕ
  pub asked : ℕ

-- What the process is built with. The runner and the gate may answer differently at each call.
pub record Setup : Type 0 where
  pub ttl : ℕ
  pub owner : String
  pub now : ℕ
  pub steps : Dict PlanStep
  pub runner : ℕ → PlanStep → Ran
  pub gate : ℕ → Gate

-- The leaseable jobs whose step is known.
abbrev pub targets_of : Dict PlanStep → List Job → List (Job × PlanStep)
targets_of steps [] = []
targets_of steps (j ∷ js) =
    let rest = targets_of steps js in
    elim (lookup j.plan_step_key steps) [ none ↦ rest | some step ↦ (j, step) ∷ rest ]

abbrev pub ran_after : Result Job → ℕ → ℕ
ran_after (ok l) n = n + 1
ran_after (err e) n = n

module _ (env : Setup) where
  -- `_check_gate`
  unfoldable pub check_gate : Machine → Result (Unit {0}) × Machine
  check_gate m = elim (env.gate m.asked) [
    | go_on ↦ (ok tt, record m { asked = m.asked + 1 })
    | paused ↦ (err step_paused, record m { asked = m.asked + 1 })
    | cancelled ↦ (err step_cancelled, record m { asked = m.asked + 1 })
  ]

  -- One job on the machine. A job that cannot be leased is not run.
  unfoldable pub execute_on : Job → PlanStep → Machine → Result Job × Machine
  execute_on job step m =
      let (leased, held) = lease env.ttl job.id env.owner env.now m.jobs in
      let (done, jobs') = execute env.ttl env.owner env.now job (env.runner m.ran step) m.jobs in
      (done, record m { jobs = jobs'; ran = ran_after leased m.ran })

  -- The loop over the targets of a round; a raise leaves it.
  unfoldable pub run_targets : List (Job × PlanStep) → Machine → Result (List Job) × Machine
  run_targets [] = pure []
  run_targets ((job, step) ∷ rest) =
      let later = run_targets rest in
      do check_gate; done ← execute_on job step; dones ← later; pure (done ∷ dones)

  unfoldable pub execute_ready : Machine → Result (List Job) × Machine
  execute_ready m =
      let (r, m') = run_targets (targets_of env.steps (leaseable env.now m.jobs)) m in
      elim r [
        | err e ↦ (err e, m')
        | ok done ↦ (ok done, record m' { jobs = resolve_dependencies m'.jobs })
      ]

  -- How a round ends the run, if it does; other exceptions go through.
  abbrev pub round_end : Result (List Job) → Option (Result Gate)
  round_end (ok []) = some (ok go_on)
  round_end (ok (j ∷ js)) = none
  round_end (err step_paused) = some (ok paused)
  round_end (err step_cancelled) = some (ok cancelled)
  round_end (err e) = some (err e)

  unfoldable pub run_to_completion : ℕ → Machine → Result Gate × Machine
  run_to_completion zero m = (ok go_on, m)
  run_to_completion (suc rounds) m =
      let (r, m') = execute_ready m in
      elim (round_end r) [ some end ↦ (end, m') | none ↦ run_to_completion rounds m' ]
