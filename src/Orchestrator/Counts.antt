-- ===== src/Orchestrator/Counts.antt =====
-- src/secopent/application/orchestrator.py: how many attempts all jobs of a store have been counted for.
use sec_opent.Prelude.{
  ℕ, ◌+◌, some, String, List, [], ◌∷◌, length, ◌==◌, string_eq, ◌≡◌, refl, arith, ◌∙◌, Bool-cases,
  inl, inr,
}
use sec_opent.Prelude.Dict.{lookup, insert, values}
use sec_opent.Jobs.{Job, JobStore, mark_ready}
use sec_opent.Orchestrator.{is_freed, succeeded_keys, free_jobs, resolve_dependencies}
use sec_opent.Orchestrator.Keyed.{IsKeyed}
use sec_opent.Orchestrator.Execute.{change-stored}
use sec_opent.Orchestrator.Steps.{Snapshot, insert-Snapshot, values-Snapshot, ready_job}

abbrev pub attempts : JobStore → ℕ
attempts [] = 0
attempts ((k, j) ∷ s) = j.attempt + attempts s

pub attempts-insert :
    (id : String) (j x : Job) (s : JobStore)
    → lookup id s ≡ some j
    → attempts (insert id x s) + j.attempt ≡ attempts s + x.attempt
attempts-insert id j x [] e = absurd (cc e)
attempts-insert id j x ((i, y) ∷ s) e = elim (Bool-cases (i == id)) [
  | inl t ↦ let same : y ≡ j = ground (arith, t, e) in rw (t, same) (omega arith)
  | inr f ↦ let rest = attempts-insert id j x s (ground (arith, f, e)) in rw f (omega (arith, rest))
]

pub length-insert :
    (id : String) (j x : Job) (s : JobStore)
    → lookup id s ≡ some j
    → length (insert id x s) ≡ length s
length-insert id j x [] e = absurd (cc e)
length-insert id j x ((i, y) ∷ s) e = elim (Bool-cases (i == id)) [
  | inl t ↦ rw t refl
  | inr f ↦ let rest = length-insert id j x s (ground (arith, f, e)) in rw f (omega (arith, rest))
]

attempts-free_jobs :
    (succeeded : List String) (js : List Job) (s : JobStore)
    → Snapshot js s
    → attempts (free_jobs succeeded js s) ≡ attempts s
unfolding free_jobs mark_ready
attempts-free_jobs succeeded [] s h = refl
attempts-free_jobs succeeded (j ∷ js) s h = elim (Bool-cases (is_freed succeeded j)) [
  | inr f ↦ rw f (attempts-free_jobs succeeded js s h.2)
  | inl t ↦
      let same = attempts-insert j.id j (ready_job j) s h.0 in
      rw (t, change-stored j.id ready_job s j h.0)
        (attempts-free_jobs succeeded js (insert j.id (ready_job j) s)
            (insert-Snapshot j.id (ready_job j) js s h.1 h.2)
          ∙ omega (arith, same))
]

-- Freeing jobs counts no attempt.
pub attempts-resolve_dependencies :
    (s : JobStore) → IsKeyed s → attempts (resolve_dependencies s) ≡ attempts s
unfolding resolve_dependencies
attempts-resolve_dependencies s w =
    attempts-free_jobs (succeeded_keys (values s)) (values s) s (values-Snapshot s w)
