-- ===== src/Jobs/Leases.antt =====
-- Leases exclude one another, attempts count them, and `leaseable` lists what `lease` takes.
use sec_opent.Prelude.{
  ℕ, ◌+◌, ◌<◌, true, false, not, ◌&&◌, none, some, String, List, [], ◌∷◌, ◌++◌, select,
  if◌then◌else◌, string_eq, ◌≡◌, inl, inr, refl, ap, ◌∙◌, arith, Option-cases, Bool-cases,
}
use sec_opent.Prelude.Dict.{lookup, insert, lookup-insert_self, values}
use sec_opent.Prelude.Raises.{ok, err, job_lease, job_not_found}
use text.Mathlib.TextEquality.{eq_iff}
use sec_opent.Jobs.{
  Job, JobStatus, JobStore, job_status_eq, add, lease, leaseable, can_lease, split_jobs,
  is_loop_job, same_key,
}

-- The job that a lease leaves in the store.
abbrev pub leased_job : ℕ → String → ℕ → Job → Job
leased_job ttl owner now j = record j {
  status = JobStatus.leased;
  lease_owner = some owner;
  lease_expires_at = some (now + ttl);
  attempt = j.attempt + 1;
}

module _ (ttl : ℕ) (id owner : String) (now : ℕ) (s : JobStore) (j : Job)
    (stored : lookup id s ≡ some j) where
  -- A stored job is leased exactly if it is ready or its lease has run out: it then has the new owner
  -- and expiry and one attempt more; otherwise the lease is refused and the store stays.
  pub lease_outcome : lease ttl id owner now s ≡ (
      if can_lease now j
      then (ok (leased_job ttl owner now j), insert id (leased_job ttl owner now j) s)
      else (err (job_lease "cannot lease job in status "), s))
  unfolding lease
  lease_outcome = ground arith

pub lease_missing :
    (ttl : ℕ) (id owner : String) (now : ℕ) (s : JobStore)
    → lookup id s ≡ none
    → lease ttl id owner now s ≡ (err (job_not_found "job not found: "), s)
unfolding lease
lease_missing ttl id owner now s n = ground arith

-- What a successful lease has written.
leased-inv :
    (ttl : ℕ) (id owner : String) (now : ℕ) (s : JobStore) {job : Job}
    → (lease ttl id owner now s).0 ≡ ok job
    → (j : Job) × (lookup id s ≡ some j)
      × (can_lease now j ≡ true)
      × ((lease ttl id owner now s).1 ≡ insert id (leased_job ttl owner now j) s)
leased-inv ttl id owner now s h = elim (Option-cases (lookup id s)) [
  | inl n ↦ absurd (ground (arith, lease_missing ttl id owner now s n))
  | inr (j, e) ↦ elim (Bool-cases (can_lease now j)) [
    | inl free ↦ (j, e, free, ground (arith, lease_outcome ttl id owner now s j e))
    | inr held ↦ absurd (ground (arith, lease_outcome ttl id owner now s j e))
  ]
]

-- Two workers cannot hold one job: after a successful lease every further lease of that job, by
-- anyone, is refused and changes nothing as long as the time to live has not passed.
pub lease_excludes :
    (ttl : ℕ) (id owner other : String) (now later : ℕ) (s : JobStore) {job : Job}
    → (lease ttl id owner now s).0 ≡ ok job
    → later < now + ttl
    → lease ttl id other later (lease ttl id owner now s).1
      ≡ (err (job_lease "cannot lease job in status "), (lease ttl id owner now s).1)
lease_excludes ttl id owner other now later s h l =
    let (j, e, free, w) = leased-inv ttl id owner now s h in
    let k = leased_job ttl owner now j in
    let held : can_lease later k ≡ false = ground arith in
    rw w (
      lease_outcome ttl id other later (insert id k s) k (lookup-insert_self id k s)
      ∙ ground (arith, held))

split_jobs-select :
    (now : ℕ) (js : List Job)
    → split_jobs now js ≡ (
      select (λ j. can_lease now j && is_loop_job j) js,
      select (λ j. can_lease now j && not (is_loop_job j)) js,
    )
split_jobs-select now [] = refl
split_jobs-select now (j ∷ js) = elim (Bool-cases (can_lease now j)) [
  | inr held ↦ rw held (split_jobs-select now js)
  | inl free ↦ elim (Bool-cases (is_loop_job j)) [
    | inl looped ↦ rw (free, looped, split_jobs-select now js)
    | inr plain ↦ rw (free, plain, split_jobs-select now js)
  ]
]

-- `leaseable` lists the jobs that `lease` takes at that time and no others, each as often as it is
-- stored: first those of reasoning loops, then the rest, each group in the order of the store.
pub leaseable-select :
    (now : ℕ) (s : JobStore)
    → leaseable now s
      ≡ select (λ j. can_lease now j && is_loop_job j) (values s)
        ++ select (λ j. can_lease now j && not (is_loop_job j)) (values s)
unfolding leaseable
leaseable-select now s = ap (λ p. p.0 ++ p.1) (split_jobs-select now (values s))

same_key-insert :
    (key : String) (job : Job) (s : JobStore)
    → job.idempotency_key ≡ key
    → same_key key (values s) ≡ none
    → same_key key (values (insert job.id job s)) ≡ some job
same_key-insert key job [] e n = ground (arith, eq_iff job.idempotency_key key)
same_key-insert key job ((k, j) ∷ s) e n =
    ground (arith, same_key-insert key job s, eq_iff job.idempotency_key key, eq_iff k job.id)

-- Dispatching twice stores once: after one `add`, adding any job with the same idempotency key
-- returns the job that is stored and leaves the store as it is.
pub add_idempotent :
    (job again : Job) (s : JobStore)
    → again.idempotency_key ≡ job.idempotency_key
    → add again (add job s).1 ≡ ((add job s).0, (add job s).1)
unfolding add
add_idempotent job again s e = elim (Option-cases (same_key job.idempotency_key (values s))) [
  | inr (j, f) ↦ ground arith
  | inl n ↦ ground (arith, same_key-insert job.idempotency_key job s refl n)
]
