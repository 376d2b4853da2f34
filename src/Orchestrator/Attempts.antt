-- ===== src/Orchestrator/Attempts.antt =====
-- src/secopent/application/orchestrator.py: how often jobs are attempted and the runner is called.
use sec_opent.Prelude.{
  ℕ, ◌+◌, ◌*◌, length, subst, All, ◌≤◌, Bool, true, false, not, ◌&&◌, ◌||◌, String, List, [], ◌∷◌,
  all, if◌then◌else◌, ◌==◌, string_eq, nat_eq, ltb, leb, ◌≡◌, refl, ap, arith, sym, ◌∙◌,
}
use sec_opent.Prelude.Dict.{values, all-insert, lookup-all}
use sec_opent.Assessment.{PlanStep}
use sec_opent.Jobs.{Job, JobStatus, JobStore, job_status_eq, can_lease}
use sec_opent.Jobs.Leases.{leased_job}
use sec_opent.Orchestrator.{Ran, dispatch, is_freed, Machine, Setup, run_to_completion}
use sec_opent.Orchestrator.Keyed.{IsKeyed}
use sec_opent.Orchestrator.Execute.{attempted}
use sec_opent.Orchestrator.Steps.{
  Steps, stay, tried, freed, Ends, ended, crashed, is_raised, ready_job,
}
use sec_opent.Orchestrator.Runs.{run_to_completion-Ends}
use sec_opent.Orchestrator.Counts.{attempts, length-insert}
use sec_opent.Orchestrator.Dispatched.{dispatch-IsKeyed, dispatch-all, dispatch-length}

-- A job may have three attempts. One that waits has attempts left; no other has more attempts than it may
-- have, and none is held.
abbrev within : Job → Bool
within j =
    j.max_attempts == 3
    && (if j.status == JobStatus.ready || j.status == JobStatus.blocked
        then ltb j.attempt j.max_attempts
        else leb j.attempt j.max_attempts && not (j.status == JobStatus.leased))

within-attempted :
    (run : Ran) (ttl : ℕ) (owner : String) (now : ℕ) (j : Job)
    → within j ≡ true
    → can_lease now j ≡ true
    → is_raised run ≡ false
    → within (attempted run (leased_job ttl owner now j)) ≡ true
within-attempted (Ran.raised n) ttl owner now j h c r = absurd (cc r)
within-attempted (Ran.produced d) ttl owner now j h c r = ground arith
within-attempted (Ran.failed_with f) ttl owner now j h c r = ground arith

within-ready :
    (succeeded : List String) (j : Job)
    → within j ≡ true
    → is_freed succeeded j ≡ true
    → within (ready_job j) ≡ true
within-ready succeeded j h f = ground arith

Steps-within :
    {s t : JobStore} → Steps s t → all within (values s) ≡ true → all within (values t) ≡ true
Steps-within (stay s) a = a
Steps-within (tried s t ttl owner now id run j e c r p) a = Steps-within p (
    all-insert within id _ s
      (within-attempted run ttl owner now j (lookup-all within id j s e a) c r) a)
Steps-within (freed s t id j e f p) a =
    Steps-within p
      (all-insert within id (ready_job j) s (within-ready _ j (lookup-all within id j s e a) f) a)

-- A job that is held at the end has had no more attempts than it may have either.
abbrev limited : Job → Bool
limited j = leb j.attempt j.max_attempts && j.max_attempts == 3

within-limited : (js : List Job) → all within js ≡ true → all limited js ≡ true
within-limited [] a = refl
within-limited (j ∷ js) a = ground (arith, within-limited js)

Ends-limited :
    {s t : JobStore} → Ends s t → all within (values s) ≡ true → all limited (values t) ≡ true
Ends-limited (ended s t p) a = within-limited (values t) (Steps-within p a)
Ends-limited (crashed s u t ttl owner now id j p e c h) a =
    let b = Steps-within p a in
    let w = lookup-all within id j u e b in
    subst (λ x. all limited (values x) ≡ true) (sym h)
      (all-insert limited id (leased_job ttl owner now j) u (ground arith)
        (within-limited (values u) b))

Steps-length : {s t : JobStore} → Steps s t → length t ≡ length s
Steps-length (stay s) = refl
Steps-length (tried s t ttl owner now id run j e c r p) =
    Steps-length p ∙ length-insert id j (attempted run (leased_job ttl owner now j)) s e
Steps-length (freed s t id j e f p) = Steps-length p ∙ length-insert id j (ready_job j) s e

Ends-length : {s t : JobStore} → Ends s t → length t ≡ length s
Ends-length (ended s t p) = Steps-length p
Ends-length (crashed s u t ttl owner now id j p e c h) =
    ap length h ∙ length-insert id j (leased_job ttl owner now j) u e ∙ Steps-length p

attempts-limited : (s : JobStore) → all limited (values s) ≡ true → attempts s ≤ 3 * length s
attempts-limited [] a = omega arith
attempts-limited ((k, j) ∷ s) a =
    let here : j.attempt ≤ 3 = ground arith in
    let rest = attempts-limited s (ground arith) in omega (arith, here, rest)

abbrev untried : Job → Bool
untried j = j.attempt == 0

attempts-untried : (s : JobStore) → all untried (values s) ≡ true → attempts s ≡ 0
attempts-untried [] a = refl
attempts-untried ((k, j) ∷ s) a =
    let here : j.attempt ≡ 0 = ground arith in
    let rest = attempts-untried s (ground arith) in omega (arith, here, rest)

limited-All :
    (js : List Job)
    → all limited js ≡ true
    → All (λ j. (j.attempt ≤ j.max_attempts) × (j.max_attempts ≡ 3)) js
limited-All [] a = tt
limited-All (j ∷ js) a = ((ground arith, ground arith), limited-All js (ground arith))

-- However the runner and the gate answer and however many rounds are run over a dispatched plan, the runner
-- is called exactly as often as attempts are counted on the jobs, no job counts more than the three it may
-- have, and so the runner is called at most three times for each step of the plan.
pub attempts_bounded :
    (id_of key_of : String → String) (plan : List PlanStep) (env : Setup) (rounds : ℕ) (m : Machine)
    → m.jobs ≡ (dispatch id_of key_of plan ([], [])).0
    → (let n = (run_to_completion env rounds m).1 in
        (n.ran ≡ m.ran + attempts n.jobs)
        × All (λ j. (j.attempt ≤ j.max_attempts) × (j.max_attempts ≡ 3)) (values n.jobs)
        × (n.ran ≤ m.ran + 3 * length plan))
attempts_bounded id_of key_of plan env rounds m d =
    let w : IsKeyed m.jobs = rw d (dispatch-IsKeyed id_of key_of plan [] [] tt) in
    let a : all within (values m.jobs) ≡ true =
      rw d (dispatch-all id_of key_of within (λ step. ground arith) plan [] [] refl) in
    let u : all untried (values m.jobs) ≡ true =
      rw d (dispatch-all id_of key_of untried (λ step. refl) plan [] [] refl) in
    let few = dispatch-length id_of key_of plan [] [] in
    let fits : length m.jobs ≤ length plan = rw d (omega (arith, few)) in
    let (p, counted) = run_to_completion-Ends env rounds m w in
    let n = (run_to_completion env rounds m).1 in
    let none_yet = attempts-untried m.jobs u in
    let same = Ends-length p in
    let b = Ends-limited p a in
    let total = attempts-limited n.jobs b in
    (
      omega (arith, counted, none_yet),
      limited-All (values n.jobs) b,
      omega (arith, counted, none_yet, same, total, fits),
    )
