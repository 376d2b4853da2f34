-- ===== src/Orchestrator/Resolve.antt =====
-- `Orchestrator._resolve_dependencies` of src/secopent/application/orchestrator.py against its
-- meaning, job by job.
use sec_opent.Prelude.{
  Option, none, some, String, List, [], ◌∷◌, true, any, elem, subset, All, Exists, Option-cases,
  ◌↔◌, ◌⊎◌, sym, is_some, if◌then◌else◌, ◌==◌, string_eq, ◌≡◌, refl, arith, ◌∙◌, Bool-cases, inl,
  inr,
}
use package.text.Mathlib.TextEquality.{eq_iff}
use sec_opent.Prelude.Dict.{lookup, insert, values, lookup-insert}
use sec_opent.Jobs.{Job, JobStatus, job_status_eq, JobStore, mark_ready}
use sec_opent.Orchestrator.{succeeded_keys, is_freed, free_jobs, resolve_dependencies}
use sec_opent.Orchestrator.Keyed.{IsKeyed}
use sec_opent.Orchestrator.Execute.{change-stored}
use sec_opent.Orchestrator.Steps.{Snapshot, insert-Snapshot, values-Snapshot, ready_job}

-- A blocked job whose dependencies all succeeded, made ready; any other as it is.
abbrev resolved : List String → Option Job → Option Job
resolved succeeded none = none
resolved succeeded (some j) = some (if is_freed succeeded j then ready_job j else j)

lookup-insert_same :
    (k i : String) (x : Job) (js : List Job) (s : JobStore)
    → lookup i (insert k x s) ≡ (if k == i then some x else lookup i s)
lookup-insert_same k i x js s = lookup-insert k i x s

lookup-free_jobs :
    (succeeded : List String) (i : String) (js : List Job) (s : JobStore)
    → Snapshot js s
    → lookup i (free_jobs succeeded js s)
      ≡ (if any (λ x. x.id == i) js then resolved succeeded (lookup i s) else lookup i s)
unfolding free_jobs mark_ready
lookup-free_jobs succeeded i [] s h = refl
lookup-free_jobs succeeded i (j ∷ js) s h = elim (Bool-cases (is_freed succeeded j)) [
  | inr f ↦ rw f (lookup-free_jobs succeeded i js s h.2 ∙ ground (arith, h.0, h.1, eq_iff j.id i))
  | inl t ↦
      rw (t, change-stored j.id ready_job s j h.0)
        (lookup-free_jobs succeeded i js (insert j.id (ready_job j) s)
            (insert-Snapshot j.id (ready_job j) js s h.1 h.2)
          ∙ ground (arith, h.0, h.1, eq_iff j.id i, lookup-insert j.id i (ready_job j) s))
]

any-values :
    (i : String) (s : JobStore) → IsKeyed s → any (λ x. x.id == i) (values s) ≡ is_some (lookup i s)
any-values i [] w = refl
any-values i ((k, j) ∷ s) w = ground (arith, w.0, any-values i s w.2, eq_iff k i)

resolved-lookup :
    (i : String) (s : JobStore)
    → IsKeyed s
    → lookup i (resolve_dependencies s) ≡ resolved (succeeded_keys (values s)) (lookup i s)
unfolding resolve_dependencies
resolved-lookup i s w =
    lookup-free_jobs (succeeded_keys (values s)) i (values s) s (values-Snapshot s w)
    ∙ ground (arith, any-values i s w)

-- Some job of the step with this key has succeeded.
abbrev pub HasSucceeded : JobStore → String → Type 0
HasSucceeded s key =
    Exists (λ x. (x.status ≡ JobStatus.succeeded) × (x.plan_step_key ≡ key)) (values s)

succeeded_keys-Exists :
    (key : String) (js : List Job)
    → (elem key (succeeded_keys js) ≡ true)
      ↔ Exists (λ x. (x.status ≡ JobStatus.succeeded) × (x.plan_step_key ≡ key)) js
succeeded_keys-Exists key [] = (λ h. absurd (cc h), λ h. absurd h)
succeeded_keys-Exists key (j ∷ js) =
    let (there, back) = succeeded_keys-Exists key js in
    let done = job_status_eq.beq_iff j.status JobStatus.succeeded in
    let same = eq_iff key j.plan_step_key in
    elim (Bool-cases (j.status == JobStatus.succeeded)) [
      | inr f ↦ (
        λ h. inr (there (ground (arith, h, f))),
        λ h. elim h [ inl (d, k) ↦ absurd (cc (done.1 d, f)) | inr r ↦ ground (arith, f, back r) ],
      )
      | inl t ↦ (
        λ h. elim (Bool-cases (key == j.plan_step_key)) [
          | inl k ↦ inl (done.0 t, sym (same.0 k))
          | inr n ↦ inr (there (ground (arith, h, t, n)))
        ],
        λ h. elim h [
          | inl (d, k) ↦ ground (arith, t, same.1 (sym k))
          | inr r ↦ ground (arith, t, back r)
        ],
      )
    ]

-- A job waits for nothing more: it is blocked, and each of its dependencies has succeeded.
abbrev pub IsFree : JobStore → Job → Type 0
IsFree s j = (j.status ≡ JobStatus.blocked) × All (HasSucceeded s) j.dependencies

subset-All :
    (s : JobStore) (ks : List String)
    → (subset ks (succeeded_keys (values s)) ≡ true) ↔ All (HasSucceeded s) ks
subset-All s [] = (λ h. tt, λ h. refl)
subset-All s (k ∷ ks) =
    let (there, back) = subset-All s ks in
    let (found, kept) = succeeded_keys-Exists k (values s) in
    (
      λ h. (found (ground (arith, h)), there (ground (arith, h))),
      λ h. ground (arith, kept h.0, back h.1),
    )

is_freed_iff :
    (s : JobStore) (j : Job) → (is_freed (succeeded_keys (values s)) j ≡ true) ↔ IsFree s j
is_freed_iff s j =
    let blocked = job_status_eq.beq_iff j.status JobStatus.blocked in
    let (there, back) = subset-All s j.dependencies in
    (
      λ h. (blocked.0 (ground (arith, h)), there (ground (arith, h))),
      λ h. ground (arith, blocked.1 h.0, back h.1),
    )

-- Resolving dependencies makes a stored job ready if it is blocked and each key that it depends on is that
-- of a succeeded job, leaves every other job as it is, and adds none.
pub lookup-resolve_dependencies :
    (i : String) (s : JobStore)
    → IsKeyed s
    → ((lookup i s ≡ none) × (lookup i (resolve_dependencies s) ≡ none))
      ⊎ ((j : Job) × (lookup i s ≡ some j)
          × ((IsFree s j
                × (lookup i (resolve_dependencies s)
                    ≡ some (record j { status = JobStatus.ready })))
              ⊎ ((IsFree s j → ⊥) × (lookup i (resolve_dependencies s) ≡ some j))))
lookup-resolve_dependencies i s w =
    let after = resolved-lookup i s w in
    elim (Option-cases (lookup i s)) [
      | inl n ↦ inl (n, ground (arith, after, n))
      | inr (j, e) ↦ inr (
        j,
        e,
        elim (Bool-cases (is_freed (succeeded_keys (values s)) j)) [
          | inl t ↦ inl ((is_freed_iff s j).0 t, ground (arith, after, e, t))
          | inr f ↦ inr (λ k. cc ((is_freed_iff s j).1 k, f), ground (arith, after, e, f))
        ],
      )
    ]
