-- ===== src/Orchestrator/Execute.antt =====
-- `Orchestrator._execute` and `_handle_failure` of src/secopent/application/orchestrator.py: what one
-- attempt at a job leaves.
use sec_opent.Prelude.{
  ℕ, ◌&&◌, none, some, String, if◌then◌else◌, ltb, string_eq, ◌≡◌, refl, ap, arith, ◌∙◌, Bool-cases,
  inl, inr,
}
use sec_opent.Prelude.Dict.{lookup, insert, lookup-insert_self}
use sec_opent.Prelude.Raises.{Result, ok, err, other_error, job_not_found, job_lease}
use sec_opent.Prelude.Action.{>>=-ok, >>=-err}
use sec_opent.Jobs.{
  Job, JobStatus, JobStore, FailureClass, is_policy, is_retryable, can_lease, change, complete,
  fail, requeue, lease,
}
use sec_opent.Jobs.Leases.{leased_job, lease_outcome, lease_missing}
use sec_opent.Orchestrator.{Ran, produced, failed_with, raised, answered, execute, handle_failure}
use sec_opent.Orchestrator.Keyed.{IsKeyed, lookup-IsKeyed, insert-insert}

-- The job after an attempt that the runner answered with `run`: done; or ready again after a transient
-- failure with attempts left; or failed, or denied, for good.
abbrev pub settled_by : FailureClass → Job → Job
settled_by f l = record l {
  status = if is_policy f then JobStatus.policy_denied else JobStatus.failed;
  failure_class = some f;
}

abbrev pub retried : Job → Job
retried l = record l {
  status = JobStatus.ready;
  lease_owner = none;
  lease_expires_at = none;
  failure_class = none;
}

abbrev pub attempted : Ran → Job → Job
attempted (raised n) l = l
attempted (produced digest) l = record l { status = JobStatus.succeeded; result_digest = digest }
attempted (failed_with f) l =
    if is_policy f
    then settled_by f l
    else if is_retryable f && ltb l.attempt l.max_attempts
    then retried l
    else settled_by f l

-- What `_execute` answers.
abbrev pub answer_of : Ran → Job → Result Job
answer_of (raised n) l = err (other_error n)
answer_of run l = ok (attempted run l)

pub change-stored :
    (id : String) (f : Job → Job) (s : JobStore) (j : Job)
    → lookup id s ≡ some j
    → change id f s ≡ (ok (f j), insert id (f j) s)
unfolding change
change-stored id f s j e = ground arith

module _ (id : String) (s : JobStore) (l : Job) where
  change-insert : (f : Job → Job) → change id f (insert id l s) ≡ (ok (f l), insert id (f l) s)
  change-insert f =
      change-stored id f _ l (lookup-insert_self id l s)
      ∙ ap (λ t. (ok (f l), t)) (insert-insert id l (f l) s)

  complete-insert :
      (d : String)
      → complete id d (insert id l s)
        ≡ (ok (attempted (produced d) l), insert id (attempted (produced d) l) s)
  unfolding complete
  complete-insert d = change-insert _

  fail-insert :
      (f : FailureClass)
      → fail id f (insert id l s) ≡ (ok (settled_by f l), insert id (settled_by f l) s)
  unfolding fail
  fail-insert f = change-insert _

  requeue-insert : requeue id (insert id l s) ≡ (ok (retried l), insert id (retried l) s)
  unfolding requeue
  requeue-insert = change-insert _

  handle_failure-insert :
      (f : FailureClass)
      → l.id ≡ id
      → handle_failure l f (insert id l s)
        ≡ (ok (attempted (failed_with f) l), insert id (attempted (failed_with f) l) s)
  unfolding handle_failure
  handle_failure-insert f e = ground (arith, fail-insert f, requeue-insert)

-- One attempt at a stored job: refused without a change unless the job is ready or its lease ran out,
-- and otherwise counted and ended as the runner's answer says: an exception other than
-- StepFailure leaves it leased and is raised.
pub execute_outcome :
    (ttl : ℕ) (owner : String) (now : ℕ) (job : Job) (run : Ran) (s : JobStore) (j : Job)
    → IsKeyed s
    → lookup job.id s ≡ some j
    → execute ttl owner now job run s ≡ (
        let after = attempted run (leased_job ttl owner now j) in
        if can_lease now j
        then (answer_of run (leased_job ttl owner now j), insert job.id after s)
        else (err (job_lease "cannot lease job in status "), s))
unfolding execute
execute_outcome ttl owner now job run s j w e =
    let l = leased_job ttl owner now j in
    elim (Bool-cases (can_lease now j)) [
      | inl t ↦
          let h : lease ttl job.id owner now s ≡ (ok l, insert job.id l s) =
            rw (lease_outcome ttl job.id owner now s j e, t) refl in
          rw t (>>=-ok (lease ttl job.id owner now) (answered job.id run) h ∙ after_lease run)
      | inr f ↦
          let h : lease ttl job.id owner now s
              ≡ (err (job_lease "cannot lease job in status "), s) =
            rw (lease_outcome ttl job.id owner now s j e, f) refl in
          rw f (>>=-err (lease ttl job.id owner now) (answered job.id run) h)
    ]
  where
    after_lease :
        (run : Ran)
        → let l = leased_job ttl owner now j in
          answered job.id run l (insert job.id l s)
          ≡ (answer_of run l, insert job.id (attempted run l) s)
    after_lease (raised n) = refl
    after_lease (produced d) = complete-insert job.id s (leased_job ttl owner now j) d
    after_lease (failed_with f) =
        handle_failure-insert job.id s (leased_job ttl owner now j) f
          (lookup-IsKeyed job.id s j w e)

pub execute-missing :
    (ttl : ℕ) (owner : String) (now : ℕ) (job : Job) (run : Ran) (s : JobStore)
    → lookup job.id s ≡ none
    → execute ttl owner now job run s ≡ (err (job_not_found "job not found: "), s)
unfolding execute
execute-missing ttl owner now job run s n =
    >>=-err (lease ttl job.id owner now) (answered job.id run)
      (lease_missing ttl job.id owner now s n)
