-- ===== src/Orchestrator/Dispatched.antt =====
-- src/secopent/application/orchestrator.py: what dispatching a plan puts into the store.
use sec_opent.Prelude.{
  ◌+◌, length, ◌≤◌, Bool, true, String, List, [], ◌∷◌, all, string_eq, nat_eq, ◌≡◌, arith,
  Option-cases, inl, inr,
}
use sec_opent.Prelude.Dict.{Dict, insert, values, all-insert}
use sec_opent.Assessment.{PlanStep}
use sec_opent.Jobs.{Job, JobStore, job_status_eq, add, same_key}
use sec_opent.Orchestrator.{new_job, dispatch}
use sec_opent.Orchestrator.Keyed.{IsKeyed, insert-IsKeyed}

-- What dispatching makes: new jobs under their ids, beside those that were there.
add-IsKeyed : (job : Job) (s : JobStore) → IsKeyed s → IsKeyed (add job s).1
unfolding add
add-IsKeyed job s w = elim (Option-cases (same_key job.idempotency_key (values s))) [
  | inl n ↦ rw (n, add) (insert-IsKeyed job s w)
  | inr (j, e) ↦ rw (e, add) w
]

add-all :
    (p : Job → Bool) (job : Job) (s : JobStore)
    → p job ≡ true
    → all p (values s) ≡ true
    → all p (values (add job s).1) ≡ true
unfolding add
add-all p job s h a = elim (Option-cases (same_key job.idempotency_key (values s))) [
  | inl n ↦ rw (n, add) (all-insert p job.id job s h a)
  | inr (j, e) ↦ rw (e, add) a
]

module _ (id_of key_of : String → String) where
  pub dispatch-IsKeyed :
      (steps : List PlanStep) (s : JobStore) (known : Dict PlanStep)
      → IsKeyed s
      → IsKeyed (dispatch id_of key_of steps (s, known)).0
  unfolding dispatch
  dispatch-IsKeyed [] s known w = w
  dispatch-IsKeyed (step ∷ rest) s known w =
      dispatch-IsKeyed rest _ (insert step.key step known)
        (add-IsKeyed (new_job id_of key_of step) s w)

  pub dispatch-all :
      (p : Job → Bool)
      → ((step : PlanStep) → p (new_job id_of key_of step) ≡ true)
      → (steps : List PlanStep) (s : JobStore) (known : Dict PlanStep) → all p (values s) ≡ true
      → all p (values (dispatch id_of key_of steps (s, known)).0) ≡ true
  unfolding dispatch
  dispatch-all p new [] s known a = a
  dispatch-all p new (step ∷ rest) s known a =
      dispatch-all p new rest _ (insert step.key step known)
        (add-all p (new_job id_of key_of step) s (new step) a)

insert-length : (id : String) (x : Job) (s : JobStore) → length (insert id x s) ≤ length s + 1
insert-length id x [] = omega arith
insert-length id x ((i, y) ∷ s) = ground (arith, insert-length id x s)

add-length : (job : Job) (s : JobStore) → length (add job s).1 ≤ length s + 1
unfolding add
add-length job s = elim (Option-cases (same_key job.idempotency_key (values s))) [
  | inl n ↦ rw (n, add) (insert-length job.id job s)
  | inr (j, e) ↦ rw (e, add) (omega arith)
]

pub dispatch-length :
    (id_of key_of : String → String) (steps : List PlanStep) (s : JobStore) (known : Dict PlanStep)
    → length (dispatch id_of key_of steps (s, known)).0 ≤ length s + length steps
unfolding dispatch
dispatch-length id_of key_of [] s known = omega arith
dispatch-length id_of key_of (step ∷ rest) s known =
    let one = add-length (new_job id_of key_of step) s in
    let more =
      dispatch-length id_of key_of rest (add (new_job id_of key_of step) s).1
        (insert step.key step known) in
    omega (arith, one, more)
