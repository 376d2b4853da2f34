-- ===== src/Execution/Finish.antt =====
-- src/secopent/application/execution.py: `_handle_cancelled` and `_finalize_execution`.
use sec_opent.Prelude.{
  Bool, true, false, not, ◌&&◌, ◌||◌, none, some, String, List, [], ◌∷◌, ◌++◌, any, if◌then◌else◌,
  ◌==◌,
}
use sec_opent.Prelude.Dict.{values}
use sec_opent.Prelude.Raises.{ok, err}
use sec_opent.Prelude.Action.{◌>>◌, modify, pure}
use sec_opent.Service.{complete}
use sec_opent.Jobs.{Job, JobStatus, job_status_eq, JobStore, skip}
use sec_opent.Execution.{World, Env, Method, on_store, audit_record, fail_run, formatted}

abbrev pub is_unfinished : JobStatus → Bool
is_unfinished status =
    status == JobStatus.ready
    || status == JobStatus.blocked
    || status == JobStatus.pending
    || status == JobStatus.leased

-- The loop over `jobs.all()`.
unfoldable pub skip_unfinished : List Job → JobStore → JobStore
skip_unfinished [] s = s
skip_unfinished (j ∷ js) s =
    skip_unfinished js (if is_unfinished j.status then (skip j.id s).1 else s)

-- The terminator's failure is noted and no more.
unfoldable pub terminate_containers : Env → String → Method (Unit {0})
terminate_containers env id = elim (env.terminate) [
  | none ↦ pure tt
  | some (ok n) ↦ pure tt
  | some (err e) ↦
      audit_record env "assessment.cancel.termination_failed" id (formatted ("reason" ∷ []))
]

unfoldable pub handle_cancelled : Env → String → Method (Unit {0})
handle_cancelled env id = do
  modify (λ w. record w {
    machine = record (w.machine) { jobs = skip_unfinished (values w.machine.jobs) w.machine.jobs };
  })
  terminate_containers env id
  audit_record env "assessment.cancelled" id (formatted ("actual" ∷ "terminated_containers" ∷ []))

abbrev pub has_succeeded : List Job → Bool
has_succeeded jobs = any (λ j. j.status == JobStatus.succeeded) jobs

abbrev pub no_findings : List String → Bool
no_findings [] = true
no_findings (f ∷ fs) = false

-- The oracle's pass, with its failure caught.
unfoldable pub verify_batch : Env → String → List String → Method (Unit {0})
verify_batch env id [] = pure tt
verify_batch env id (f ∷ fs) = elim (env.verify_findings) [
  | none ↦ pure tt
  | some verify ↦ elim (verify (f ∷ fs)) [
    | ok u ↦
        audit_record env "oracle.batch_verified" id
          (formatted ("confirmed" ∷ "refuted" ∷ "inconclusive" ∷ "skipped" ∷ "failed" ∷ []))
    | err e ↦ audit_record env "oracle.batch_failed" id (formatted ("reason" ∷ []))
  ]
]

-- Behind the test for an empty execution.
unfoldable pub complete_run : Env → String → List String → Method (Unit {0})
complete_run env id findings = do
  modify (λ w. record w { findings = findings ++ w.findings })
  verify_batch env id findings
  on_store (complete id)
  audit_record env "assessment.completed" id
      (formatted ("findings" ∷ "coverage_rate" ∷ "uncovered_classes" ∷ "no_observations" ∷ []))

-- A run in which no step succeeded and that found nothing.
unfoldable pub fail_empty : Env → String → Method (Unit {0})
fail_empty env id = do
  fail_run id
  audit_record env "assessment.completed.empty_execution" id
      (formatted ("coverage_rate" ∷ "reason" ∷ []))

abbrev pub is_empty_run : Env → World → Bool
is_empty_run env w =
    no_findings (env.findings_of w.machine) && not (has_succeeded (values w.machine.jobs))

unfoldable pub finalize_execution : Env → String → Method (Unit {0})
finalize_execution env id w =
    if is_empty_run env w
    then fail_empty env id w
    else complete_run env id (env.findings_of w.machine) w
