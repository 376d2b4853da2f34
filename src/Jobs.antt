-- ===== src/Jobs.antt =====
-- src/secopent/domain/jobs/models.py and application/jobs.py: jobs, their leases, and the in-memory
-- store.
pub mod Leases
use sec_opent.Prelude.{
  ℕ, ◌+◌, Bool, true, false, not, ◌&&◌, ◌||◌, Option, none, some, String, List, [], ◌∷◌, ◌++◌, elem,
  select, any, if◌then◌else◌, leb, string_eq, ◌==◌, Eq, nat_beq, ◌≡◌, ◌↔◌, arith,
}
use sec_opent.Prelude.Text.{starts_with}
use sec_opent.Prelude.Dict.{Dict, lookup, insert, values}
use sec_opent.Prelude.Raises.{Error, Result, ok, err, job_not_found, job_lease}
use sec_opent.Prelude.Action.{Action, ◌>>=◌, ◌>>◌, raise_if, require, modify, pure}

pub data JobStatus : Type 0 where
  pending blocked ready leased running succeeded failed skipped policy_denied : JobStatus

abbrev pub job_code : JobStatus → ℕ
job_code JobStatus.pending = 0
job_code JobStatus.blocked = 1
job_code JobStatus.ready = 2
job_code JobStatus.leased = 3
job_code JobStatus.running = 4
job_code JobStatus.succeeded = 5
job_code JobStatus.failed = 6
job_code JobStatus.skipped = 7
job_code JobStatus.policy_denied = 8

pub job_code_iff : (a b : JobStatus) → (nat_beq (job_code a) (job_code b) ≡ true) ↔ (a ≡ b)
job_code_iff a b = (λ h. ground arith, λ h. ground arith)

instance abbrev pub job_status_eq : Eq JobStatus
job_status_eq = record { beq = λ a b. nat_beq (job_code a) (job_code b); beq_iff = job_code_iff }

pub data FailureClass : Type 0 where
  input_invalid out_of_scope not_approved worker_unavailable timeout parse_failed : FailureClass

-- `failure_class in RETRYABLE_FAILURES` and `failure_class in POLICY_FAILURES`.
abbrev pub is_retryable : FailureClass → Bool
is_retryable FailureClass.worker_unavailable = true
is_retryable FailureClass.timeout = true
is_retryable f = false

abbrev pub is_policy : FailureClass → Bool
is_policy FailureClass.out_of_scope = true
is_policy FailureClass.not_approved = true
is_policy f = false

-- Times are microseconds since the epoch; `failure_class` is `none` for the empty text.
pub record Job : Type 0 where
  pub id : String
  pub plan_step_key : String
  pub idempotency_key : String
  pub status : JobStatus
  pub attempt : ℕ
  pub max_attempts : ℕ
  pub lease_owner : Option String
  pub lease_expires_at : Option ℕ
  pub result_digest : String
  pub failure_class : Option FailureClass
  pub dependencies : List String

-- `MemoryJobStore._jobs`.
abbrev pub JobStore : Type 0
JobStore = Dict Job

abbrev pub Method : Type 0 → Type 0
Method A = Action JobStore A

abbrev pub same_key : String → List Job → Option Job
same_key key [] = none
same_key key (j ∷ js) = if j.idempotency_key == key then some j else same_key key js

unfoldable pub add : Job → Method Job
add job s = elim (same_key job.idempotency_key (values s)) [
  | some existing ↦ (ok existing, s)
  | none ↦ (ok job, insert job.id job s)
]

-- `_require`, then `replace` with the changes, then the write under the same id.
unfoldable pub change : String → (Job → Job) → Method Job
change id f = do
  job ← require (lookup id) (job_not_found "job not found: ")
  modify (insert id (f job))
  pure (f job)

unfoldable pub mark_ready : String → Method Job
unfolding change
mark_ready id = change id (λ j. record j { status = JobStatus.ready })

-- A lease that has run out by `now`.
abbrev pub expired : Option ℕ → ℕ → Bool
expired none now = false
expired (some t) now = leb t now

abbrev pub is_stale : Job → ℕ → Bool
is_stale j now = j.status == JobStatus.leased && expired j.lease_expires_at now

unfoldable pub lease : ℕ → String → String → ℕ → Method Job
unfolding change
lease ttl id owner now = do
  job ← require (lookup id) (job_not_found "job not found: ")
  raise_if (not (job.status == JobStatus.ready) && not (is_stale job now))
      (job_lease "cannot lease job in status ")
  change id (λ j. record j {
    status = JobStatus.leased;
    lease_owner = some owner;
    lease_expires_at = some (now + ttl);
    attempt = job.attempt + 1;
  })

abbrev pub owned_by : Option String → String → Bool
owned_by none owner = false
owned_by (some o) owner = o == owner

unfoldable pub renew : ℕ → String → String → ℕ → Method Job
unfolding change
renew ttl id owner now = do
  job ← require (lookup id) (job_not_found "job not found: ")
  raise_if (not (owned_by job.lease_owner owner)) (job_lease "only the lease owner may renew")
  change id (λ j. record j { lease_expires_at = some (now + ttl) })

unfoldable pub complete : String → String → Method Job
unfolding change
complete id digest =
    change id (λ j. record j { status = JobStatus.succeeded; result_digest = digest })

unfoldable pub fail : String → FailureClass → Method Job
unfolding change
fail id failure = change id (λ j. record j {
  status = if is_policy failure then JobStatus.policy_denied else JobStatus.failed;
  failure_class = some failure;
})

unfoldable pub requeue : String → Method Job
unfolding change
requeue id = change id (λ j. record j {
  status = JobStatus.ready;
  lease_owner = none;
  lease_expires_at = none;
  failure_class = none;
})

unfoldable pub skip : String → Method Job
unfolding change
skip id =
    change id
      (λ j. record j { status = JobStatus.skipped; lease_owner = none; lease_expires_at = none })

abbrev pub can_lease : ℕ → Job → Bool
can_lease now j = j.status == JobStatus.ready || is_stale j now

abbrev pub is_loop_job : Job → Bool
is_loop_job j = starts_with j.plan_step_key "loop:"

-- The loop over the jobs with its two lists.
abbrev split_jobs : ℕ → List Job → List Job × List Job
split_jobs now [] = ([], [])
split_jobs now (j ∷ js) =
    let rest = split_jobs now js in
    if can_lease now j
    then if is_loop_job j then (j ∷ rest.0, rest.1) else (rest.0, j ∷ rest.1)
    else rest

unfoldable pub leaseable : ℕ → JobStore → List Job
leaseable now s = let (loop_jobs, ordinary) = split_jobs now (values s) in loop_jobs ++ ordinary
