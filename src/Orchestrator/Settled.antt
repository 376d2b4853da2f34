-- ===== src/Orchestrator/Settled.antt =====
-- src/secopent/application/orchestrator.py: what is never attempted again.
use sec_opent.Prelude.{
  ℕ, subst, Bool, true, false, some, String, List, string_eq, nat_eq, ◌≡◌, ◌≢◌, ap, arith, sym, ◌∙◌,
}
use package.text.Mathlib.TextEquality.{eq_iff}
use sec_opent.Prelude.Dict.{lookup, insert, values, lookup-insert}
use sec_opent.Jobs.{Job, JobStatus, JobStore, job_status_eq, can_lease}
use sec_opent.Jobs.Leases.{leased_job}
use sec_opent.Orchestrator.{is_freed, succeeded_keys, Machine, Setup, run_to_completion}
use sec_opent.Orchestrator.Keyed.{IsKeyed}
use sec_opent.Orchestrator.Steps.{Steps, stay, tried, freed, Ends, ended, crashed}
use sec_opent.Orchestrator.Runs.{run_to_completion-Ends}

-- A job that is done or given up: it succeeded, failed, was skipped, or was denied by policy.
abbrev pub is_settled : JobStatus → Bool
is_settled JobStatus.succeeded = true
is_settled JobStatus.failed = true
is_settled JobStatus.skipped = true
is_settled JobStatus.policy_denied = true
is_settled x = false

settled-can_lease : (x : Job) (now : ℕ) → is_settled x.status ≡ true → can_lease now x ≡ false
settled-can_lease x now h = ground arith

settled-is_freed :
    (x : Job) (succeeded : List String) → is_settled x.status ≡ true → is_freed succeeded x ≡ false
settled-is_freed x succeeded h = ground arith

lookup-insert_kept :
    (i id : String) (j x y : Job) (s : JobStore)
    → lookup i s ≡ some j
    → lookup id s ≡ some x
    → j ≢ x
    → lookup id (insert i y s) ≡ some x
lookup-insert_kept i id j x y s e k n = ground (arith, lookup-insert i id y s, eq_iff i id)

Steps-settled :
    {s t : JobStore} (id : String) (x : Job)
    → is_settled x.status ≡ true
    → Steps s t
    → lookup id s ≡ some x
    → lookup id t ≡ some x
Steps-settled id x h (stay s) k = k
Steps-settled id x h (tried s t ttl owner now i run j e c r p) k =
    let n : j ≢ x = λ q. cc (sym c ∙ ap (can_lease now) q ∙ settled-can_lease x now h) in
    Steps-settled id x h p (lookup-insert_kept i id j x _ s e k n)
Steps-settled id x h (freed s t i j e f p) k =
    let n : j ≢ x =
      λ q. cc (sym f ∙ ap (is_freed (succeeded_keys (values s))) q ∙ settled-is_freed x _ h) in
    Steps-settled id x h p (lookup-insert_kept i id j x _ s e k n)

Ends-settled :
    {s t : JobStore} (id : String) (x : Job)
    → is_settled x.status ≡ true
    → Ends s t
    → lookup id s ≡ some x
    → lookup id t ≡ some x
Ends-settled id x h (ended s t p) k = Steps-settled id x h p k
Ends-settled id x h (crashed s u t ttl owner now i j p e c q) k =
    let n : j ≢ x = λ q. cc (sym c ∙ ap (can_lease now) q ∙ settled-can_lease x now h) in
    subst (λ y. lookup id y ≡ some x) (sym q)
      (lookup-insert_kept i id j x (leased_job ttl owner now j) u e (Steps-settled id x h p k) n)

-- A job that succeeded, failed, was skipped or was denied by policy stays exactly as it is, however
-- many rounds are run: it is never attempted again.
pub settled_stays :
    (env : Setup) (rounds : ℕ) (m : Machine) (id : String) (j : Job)
    → IsKeyed m.jobs
    → lookup id m.jobs ≡ some j
    → is_settled j.status ≡ true
    → lookup id (run_to_completion env rounds m).1.jobs ≡ some j
settled_stays env rounds m id j w e h =
    Ends-settled id j h (run_to_completion-Ends env rounds m w).0 e
