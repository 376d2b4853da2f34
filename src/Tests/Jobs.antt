-- ===== src/Tests/Jobs.antt =====
-- Jobs and the orchestrator at concrete inputs.
use sec_opent.Prelude.{
  true, ◌+◌, ◌*◌, All, length, ◌≡◌, ◌≤◌, inl, refl, none, some, ◌⊎◌, [], ◌∷◌, String, arith, subset,
  if◌then◌else◌, ◌==◌, string_eq,
}
use sec_opent.Prelude.Dict.{lookup, values}
use sec_opent.Prelude.Raises.{err, job_lease}
use sec_opent.Jobs.{
  Job, JobStatus, JobStore, FailureClass, lease, leaseable, can_lease, is_loop_job, add, change,
}
use sec_opent.Jobs.Leases.{lease_excludes, leased_job}
use sec_opent.Orchestrator.{
  Ran, produced, failed_with, Gate, go_on, paused, Setup, Machine, dispatch, execute,
  run_to_completion, resolve_dependencies, succeeded_keys,
}
use sec_opent.Orchestrator.Execute.{attempted}
use sec_opent.Orchestrator.Counts.{attempts}
use sec_opent.Orchestrator.Attempts.{attempts_bounded}
use sec_opent.Orchestrator.Ordering.{dependencies_first}
use sec_opent.Orchestrator.Resolve.{IsFree, lookup-resolve_dependencies}
use sec_opent.Tests.Data.{scan, probe, steps}

-- The jobs of the steps, as they are dispatched.
abbrev scan_job : Job
scan_job = record {
  id = "job:scan";
  plan_step_key = "scan";
  idempotency_key = "digest:scan";
  status = JobStatus.ready;
  attempt = 0;
  max_attempts = 3;
  lease_owner = none;
  lease_expires_at = none;
  result_digest = "";
  failure_class = none;
  dependencies = [];
}

abbrev probe_job : Job
probe_job = record {
  id = "job:probe";
  plan_step_key = "probe";
  idempotency_key = "digest:probe";
  status = JobStatus.blocked;
  attempt = 0;
  max_attempts = 3;
  lease_owner = none;
  lease_expires_at = none;
  result_digest = "";
  failure_class = none;
  dependencies = "scan" ∷ [];
}

abbrev jobs : JobStore
jobs = ("job:scan", scan_job) ∷ ("job:probe", probe_job) ∷ []

lease_excludes_example :
    lease 30 "job:scan" "w2" 110 (lease 30 "job:scan" "w1" 100 jobs).1
    ≡ (err (job_lease "cannot lease job in status "), (lease 30 "job:scan" "w1" 100 jobs).1)
unfolding lease
lease_excludes_example =
    lease_excludes 30 "job:scan" "w1" "w2" 100 110 jobs {job = leased_job 30 "w1" 100 scan_job} refl
      (omega arith)

abbrev id_of : String → String
id_of k = if k == "scan" then "job:scan" else "job:probe"

abbrev key_of : String → String
key_of k = if k == "scan" then "digest:scan" else "digest:probe"

abbrev setup : Setup
setup = record {
  ttl = 30;
  owner = "w";
  now = 100;
  steps = ("scan", scan) ∷ ("probe", probe) ∷ [];
  runner = λ n step. produced "result";
  gate = λ n. go_on;
}

abbrev machine : JobStore → Machine
machine s = record { jobs = s; ran = 0; asked = 0 }

abbrev done : Job → Job
done j = attempted (produced "result") (leased_job 30 "w" 100 j)

dependencies_first_example :
    subset ("scan" ∷ []) (succeeded_keys (values (run_to_completion setup 5 (machine jobs)).1.jobs))
    ≡ true
unfolding dispatch add run_to_completion sec_opent.Orchestrator.execute_ready
    sec_opent.Orchestrator.run_targets leaseable sec_opent.Orchestrator.check_gate
    sec_opent.Orchestrator.execute_on execute lease sec_opent.Jobs.complete resolve_dependencies
    sec_opent.Orchestrator.free_jobs sec_opent.Jobs.mark_ready
dependencies_first_example =
    dependencies_first id_of key_of steps setup 5 (machine jobs) "job:probe" (done probe_job) refl
      refl (inl (omega arith))

attempts_bounded_example :
    (let n = (run_to_completion setup 5 (machine jobs)).1 in
      (n.ran ≡ 0 + attempts n.jobs)
      × All (λ j. (j.attempt ≤ j.max_attempts) × (j.max_attempts ≡ 3)) (values n.jobs)
      × (n.ran ≤ 0 + 3 * length steps))
unfolding dispatch add
attempts_bounded_example = attempts_bounded id_of key_of steps setup 5 (machine jobs) refl

abbrev half_done : JobStore
half_done = ("job:scan", done scan_job) ∷ ("job:probe", probe_job) ∷ []

lookup-resolve_dependencies_example :
    ((lookup "job:probe" half_done ≡ none)
      × (lookup "job:probe" (resolve_dependencies half_done) ≡ none))
    ⊎ ((j : Job) × (lookup "job:probe" half_done ≡ some j)
        × ((IsFree half_done j
              × (lookup "job:probe" (resolve_dependencies half_done)
                  ≡ some (record j { status = JobStatus.ready })))
            ⊎ ((IsFree half_done j → ⊥)
                × (lookup "job:probe" (resolve_dependencies half_done) ≡ some j))))
lookup-resolve_dependencies_example =
    lookup-resolve_dependencies "job:probe" half_done (refl, refl, (refl, refl, tt))

abbrev pausing : Setup
pausing = record setup { gate = λ n. paused }
