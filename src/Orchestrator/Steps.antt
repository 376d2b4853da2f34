-- ===== src/Orchestrator/Steps.antt =====
-- src/secopent/application/orchestrator.py: every run of the orchestrator is a sequence of two kinds
-- of steps on the job store.
use sec_opent.Prelude.{
  ℕ, Bool, true, false, none, some, String, List, [], ◌∷◌, any, ◌==◌, string_eq, ◌≡◌, refl, ap,
  arith, sym, ◌∙◌, subst, Bool-cases, inl, inr,
}
use package.text.Mathlib.TextEquality.{eq_iff}
use sec_opent.Prelude.Dict.{lookup, insert, values, lookup-insert}
use sec_opent.Jobs.{Job, JobStatus, JobStore, job_status_eq, can_lease, mark_ready}
use sec_opent.Jobs.Leases.{leased_job}
use sec_opent.Orchestrator.{Ran, succeeded_keys, is_freed, free_jobs, resolve_dependencies}
use sec_opent.Orchestrator.Keyed.{IsKeyed, lookup-IsKeyed, insert-IsKeyed}
use sec_opent.Orchestrator.Execute.{attempted, change-stored}

abbrev pub ready_job : Job → Job
ready_job j = record j { status = JobStatus.ready }

-- The runner raised something that is no StepFailure.
abbrev pub is_raised : Ran → Bool
is_raised (Ran.raised n) = true
is_raised run = false

-- A job that can be leased is attempted once without a raise, and a blocked job whose dependencies all succeeded is
-- made ready.
pub data Steps : JobStore → JobStore → Type 0 where
  stay : (s : JobStore) → Steps s s
  tried :
      (s t : JobStore) (ttl : ℕ) (owner : String) (now : ℕ) (id : String) (run : Ran) (j : Job)
      → lookup id s ≡ some j
      → can_lease now j ≡ true
      → is_raised run ≡ false
      → Steps (insert id (attempted run (leased_job ttl owner now j)) s) t
      → Steps s t
  freed :
      (s t : JobStore) (id : String) (j : Job)
      → lookup id s ≡ some j
      → is_freed (succeeded_keys (values s)) j ≡ true
      → Steps (insert id (ready_job j) s) t
      → Steps s t

pub Steps-trans : {s t u : JobStore} → Steps s t → Steps t u → Steps s u
Steps-trans (stay s) q = q
Steps-trans (tried s t ttl owner now id run j e c r p) q =
    tried s _ ttl owner now id run j e c r (Steps-trans p q)
Steps-trans (freed s t id j e c p) q = freed s _ id j e c (Steps-trans p q)

-- An attempt changes the status, the attempt count and what goes with them.
pub attempted-id : (run : Ran) (l : Job) → (attempted run l).id ≡ l.id
attempted-id (Ran.raised n) l = refl
attempted-id (Ran.produced d) l = refl
attempted-id (Ran.failed_with f) l = ground arith

pub attempted-attempt : (run : Ran) (l : Job) → (attempted run l).attempt ≡ l.attempt
attempted-attempt (Ran.raised n) l = refl
attempted-attempt (Ran.produced d) l = refl
attempted-attempt (Ran.failed_with f) l = ground arith

pub Steps-IsKeyed : {s t : JobStore} → Steps s t → IsKeyed s → IsKeyed t
Steps-IsKeyed (stay s) w = w
Steps-IsKeyed (tried s t ttl owner now id run j e c r p) w =
    let a = attempted run (leased_job ttl owner now j) in
    Steps-IsKeyed p (
      subst (λ k. IsKeyed (insert k a s)) (attempted-id run _ ∙ lookup-IsKeyed id s j w e)
        (insert-IsKeyed a s w))
Steps-IsKeyed (freed s t id j e c p) w = Steps-IsKeyed p (
    subst (λ k. IsKeyed (insert k (ready_job j) s)) (lookup-IsKeyed id s j w e)
      (insert-IsKeyed (ready_job j) s w))

-- How a run of steps may end: as it stands, or in an attempt at which the runner raised.
pub data Ends : JobStore → JobStore → Type 0 where
  ended : (s t : JobStore) → Steps s t → Ends s t
  crashed :
      (s u t : JobStore) (ttl : ℕ) (owner : String) (now : ℕ) (id : String) (j : Job)
      → Steps s u
      → lookup id u ≡ some j
      → can_lease now j ≡ true
      → t ≡ insert id (leased_job ttl owner now j) u
      → Ends s t

pub Ends-trans : {s t u : JobStore} → Steps s t → Ends t u → Ends s u
Ends-trans p (ended s t q) = ended _ t (Steps-trans p q)
Ends-trans p (crashed s u t ttl owner now id j q e c h) =
    crashed _ u t ttl owner now id j (Steps-trans p q) e c h

pub Ends-IsKeyed : {s t : JobStore} → Ends s t → IsKeyed s → IsKeyed t
Ends-IsKeyed (ended s t p) w = Steps-IsKeyed p w
Ends-IsKeyed (crashed s u t ttl owner now id j p e c h) w =
    let l = leased_job ttl owner now j in
    let v = Steps-IsKeyed p w in
    subst IsKeyed (sym h)
      (subst (λ k. IsKeyed (insert k l u)) (lookup-IsKeyed id u j v e) (insert-IsKeyed l u v))

-- The jobs of a list are stored as they are, each under its id and once.
abbrev pub Snapshot : List Job → JobStore → Type 0
Snapshot [] s = Unit
Snapshot (j ∷ js) s =
    (lookup j.id s ≡ some j) × (any (λ i. i.id == j.id) js ≡ false) × Snapshot js s

pub insert-Snapshot :
    (k : String) (x : Job) (js : List Job) (s : JobStore)
    → any (λ i. i.id == k) js ≡ false
    → Snapshot js s
    → Snapshot js (insert k x s)
insert-Snapshot k x [] s n h = tt
insert-Snapshot k x (j ∷ js) s n h = (
  ground (arith, lookup-insert k j.id x s, eq_iff k j.id, eq_iff j.id k, h.0),
  h.1,
  insert-Snapshot k x js s (ground arith) h.2,
)

cons-Snapshot :
    (k : String) (x : Job) (js : List Job) (s : JobStore)
    → any (λ i. i.id == k) js ≡ false
    → Snapshot js s
    → Snapshot js ((k, x) ∷ s)
cons-Snapshot k x [] s n h = tt
cons-Snapshot k x (j ∷ js) s n h = (
  ground (arith, eq_iff k j.id, eq_iff j.id k, h.0),
  h.1,
  cons-Snapshot k x js s (ground arith) h.2,
)

missing-any :
    (k : String) (s : JobStore)
    → IsKeyed s
    → lookup k s ≡ none
    → any (λ i. i.id == k) (values s) ≡ false
missing-any k [] w n = refl
missing-any k ((i, x) ∷ s) w n = ground (arith, w.0, missing-any k s w.2, eq_iff i k)

pub values-Snapshot : (s : JobStore) → IsKeyed s → Snapshot (values s) s
values-Snapshot [] w = tt
values-Snapshot ((k, j) ∷ s) w =
    let m = missing-any k s w.2 w.1 in
    (
      ground (arith, eq_iff k j.id, w.0),
      subst (λ i. any (λ x. x.id == i) (values s) ≡ false) (sym w.0) m,
      cons-Snapshot k j (values s) s m (values-Snapshot s w.2),
    )

freed-blocked :
    (succeeded : List String) (j : Job) → is_freed succeeded j ≡ true → j.status ≡ JobStatus.blocked
freed-blocked succeeded j h = ground (arith, job_status_eq.beq_iff j.status JobStatus.blocked)

succeeded_keys-ready :
    (id : String) (s : JobStore) (j : Job)
    → lookup id s ≡ some j
    → j.status ≡ JobStatus.blocked
    → succeeded_keys (values (insert id (ready_job j) s)) ≡ succeeded_keys (values s)
succeeded_keys-ready id [] j e b = absurd (cc)
succeeded_keys-ready id ((i, x) ∷ s) j e b =
    ground (arith, succeeded_keys-ready id s j, ap Job.status)

free_jobs-Steps :
    (succeeded : List String) (js : List Job) (s : JobStore)
    → succeeded ≡ succeeded_keys (values s)
    → Snapshot js s
    → Steps s (free_jobs succeeded js s)
unfolding free_jobs mark_ready
free_jobs-Steps succeeded [] s k h = stay s
free_jobs-Steps succeeded (j ∷ js) s k h = elim (Bool-cases (is_freed succeeded j)) [
  | inr f ↦ rw f (free_jobs-Steps succeeded js s k h.2)
  | inl t ↦
      rw (t, change-stored j.id ready_job s j h.0)
        (freed s _ j.id j h.0 (subst (λ l. is_freed l j ≡ true) k t) (
          free_jobs-Steps succeeded js (insert j.id (ready_job j) s)
            (k ∙ sym (succeeded_keys-ready j.id s j h.0 (freed-blocked succeeded j t)))
            (insert-Snapshot j.id (ready_job j) js s h.1 h.2)))
]

pub resolve_dependencies-Steps : (s : JobStore) → IsKeyed s → Steps s (resolve_dependencies s)
unfolding resolve_dependencies
resolve_dependencies-Steps s w =
    free_jobs-Steps (succeeded_keys (values s)) (values s) s refl (values-Snapshot s w)
