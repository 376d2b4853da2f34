-- ===== src/Orchestrator/Ordering.antt =====
-- src/secopent/application/orchestrator.py: no job is attempted before all that it depends on has
-- succeeded.
use sec_opent.Prelude.{
  ℕ, ◌<◌, Bool, true, false, ◌&&◌, ◌||◌, some, String, List, [], ◌∷◌, all, elem, subset, ◌==◌,
  string_eq, nat_eq, ◌≡◌, ◌≢◌, refl, ap, sym, subst, arith, ◌⊎◌, inl, inr,
}
use sec_opent.Prelude.Dict.{lookup, insert, values, all-insert, lookup-all}
use sec_opent.Assessment.{PlanStep}
use sec_opent.Jobs.{Job, JobStatus, JobStore, job_status_eq, can_lease}
use sec_opent.Jobs.Leases.{leased_job}
use sec_opent.Orchestrator.{
  Ran, dispatch, is_freed, succeeded_keys, Machine, Setup, run_to_completion,
}
use sec_opent.Orchestrator.Keyed.{IsKeyed}
use sec_opent.Orchestrator.Execute.{attempted}
use sec_opent.Orchestrator.Dispatched.{dispatch-IsKeyed, dispatch-all}
use sec_opent.Orchestrator.Steps.{Steps, stay, tried, freed, Ends, ended, crashed, ready_job}
use sec_opent.Orchestrator.Runs.{run_to_completion-Ends}

-- A job waits untried, or its dependencies are among `succeeded`.
abbrev ordered : List String → Job → Bool
ordered succeeded j =
    j.status == JobStatus.blocked && j.attempt == 0 || subset j.dependencies succeeded

subset_mono :
    (ks l m : List String)
    → ((k : String) → elem k l ≡ true → elem k m ≡ true)
    → subset ks l ≡ true
    → subset ks m ≡ true
subset_mono [] l m h a = refl
subset_mono (k ∷ ks) l m h a = ground (arith, h k, subset_mono ks l m h)

ordered_mono :
    (l m : List String)
    → ((k : String) → elem k l ≡ true → elem k m ≡ true)
    → (js : List Job) → all (ordered l) js ≡ true
    → all (ordered m) js ≡ true
ordered_mono l m h [] a = refl
ordered_mono l m h (j ∷ js) a =
    ground (arith, subset_mono j.dependencies l m h, ordered_mono l m h js)

-- A write over a job that had not succeeded loses no key of a success.
succeeded_keys-insert :
    (id k : String) (s : JobStore) (j x : Job)
    → lookup id s ≡ some j
    → (j.status == JobStatus.succeeded) ≡ false
    → elem k (succeeded_keys (values s)) ≡ true
    → elem k (succeeded_keys (values (insert id x s))) ≡ true
succeeded_keys-insert id k [] j x e n m = absurd (cc)
succeeded_keys-insert id k ((i, y) ∷ s) j x e n m =
    ground (arith, succeeded_keys-insert id k s j x, ap Job.status)

leased-ordered :
    (l : List String) (run : Ran) (ttl : ℕ) (owner : String) (now : ℕ) (j : Job)
    → can_lease now j ≡ true
    → ordered l j ≡ true
    → ordered l (attempted run (leased_job ttl owner now j)) ≡ true
leased-ordered l (Ran.raised n) ttl owner now j c o = ground arith
leased-ordered l (Ran.produced d) ttl owner now j c o = ground arith
leased-ordered l (Ran.failed_with f) ttl owner now j c o = ground arith

ready-ordered : (l : List String) (j : Job) → is_freed l j ≡ true → ordered l (ready_job j) ≡ true
ready-ordered l j f = ground arith

Steps-ordered :
    {s t : JobStore}
    → Steps s t
    → all (ordered (succeeded_keys (values s))) (values s) ≡ true
    → all (ordered (succeeded_keys (values t))) (values t) ≡ true
Steps-ordered (stay s) a = a
Steps-ordered (tried s t ttl owner now id run j e c r p) a =
    let x = attempted run (leased_job ttl owner now j) in
    let l = succeeded_keys (values s) in
    Steps-ordered p (
      ordered_mono l _ (λ k. succeeded_keys-insert id k s j x e (ground arith))
        (values (insert id x s))
        (all-insert (ordered l) id x s
          (leased-ordered l run ttl owner now j c (lookup-all (ordered l) id j s e a)) a))
Steps-ordered (freed s t id j e f p) a =
    let l = succeeded_keys (values s) in
    Steps-ordered p (
      ordered_mono l _ (λ k. succeeded_keys-insert id k s j (ready_job j) e (ground arith))
        (values (insert id (ready_job j) s))
        (all-insert (ordered l) id (ready_job j) s (ready-ordered l j f) a))

Ends-ordered :
    {s t : JobStore}
    → Ends s t
    → all (ordered (succeeded_keys (values s))) (values s) ≡ true
    → all (ordered (succeeded_keys (values t))) (values t) ≡ true
Ends-ordered (ended s t p) a = Steps-ordered p a
Ends-ordered (crashed s u t ttl owner now id j p e c q) a =
    let x = leased_job ttl owner now j in
    let l = succeeded_keys (values u) in
    let b = Steps-ordered p a in
    subst (λ y. all (ordered (succeeded_keys (values y))) (values y) ≡ true) (sym q)
      (ordered_mono l _ (λ k. succeeded_keys-insert id k u j x e (ground arith))
        (values (insert id x u))
        (all-insert (ordered l) id x u
          (leased-ordered l (Ran.raised 0) ttl owner now j c (lookup-all (ordered l) id j u e b))
          b))

-- In a run of a dispatched plan, a job that has been attempted, or that no longer waits, depends only
-- on steps that have succeeded.
pub dependencies_first :
    (id_of key_of : String → String) (plan : List PlanStep) (env : Setup) (rounds : ℕ) (m : Machine)
    (id : String) (j : Job)
    → m.jobs ≡ (dispatch id_of key_of plan ([], [])).0
    → lookup id (run_to_completion env rounds m).1.jobs ≡ some j
    → (0 < j.attempt) ⊎ (j.status ≢ JobStatus.blocked)
    → subset j.dependencies (succeeded_keys (values (run_to_completion env rounds m).1.jobs)) ≡ true
dependencies_first id_of key_of plan env rounds m id j d e h =
    let w : IsKeyed m.jobs = rw d (dispatch-IsKeyed id_of key_of plan [] [] tt) in
    let l = succeeded_keys (values (dispatch id_of key_of plan ([], [])).0) in
    let a : all (ordered (succeeded_keys (values m.jobs))) (values m.jobs) ≡ true =
      rw d (dispatch-all id_of key_of (ordered l) (λ step. ground arith) plan [] [] refl) in
    let b =
      lookup-all (ordered _) id j _ e (Ends-ordered (run_to_completion-Ends env rounds m w).0 a) in
    elim h [
      | inl n ↦ ground arith
      | inr n ↦ ground (arith, job_status_eq.beq_iff j.status JobStatus.blocked)
    ]
