-- ===== src/Execution/Blocked.antt =====
-- src/secopent/application/execution.py with application/emergency_stop.py: the emergency stop at the
-- start of a run and at its resumption.
use sec_opent.Prelude.{
  true, none, some, String, [], ◌∷◌, ◌≡◌, inl, inr, refl, sym, ap, ◌∙◌, subst, arith,
}
use sec_opent.Prelude.Dict.{lookup, lookup-insert_self}
use sec_opent.Prelude.Raises.{ok, Result-cases}
use sec_opent.Prelude.Action.{◌>>◌, >>=-ok, >>=-err}
use sec_opent.Assessment.{AssessmentStatus, Assessment}
use sec_opent.Service.{Store, move_to, mark_running, fail}
use sec_opent.Execution.{
  World, Env, Method, on_store, chain_record, audit_record, fail_run, formatted,
}
use sec_opent.Execution.Still.{with_state}
use sec_opent.Execution.Authorized.{executed-machine}
use sec_opent.Execution.Still.{stopped-Still}
use sec_opent.Execution.Gate.{drain, store_before, store_after}
use sec_opent.Execution.Finish.{
  handle_cancelled, terminate_containers, finalize_execution, complete_run, fail_empty,
  verify_batch,
}
use sec_opent.Execution.Assess.{
  load_plan, is_stopped, stopped, attempt, failed, execute_assessment, conclude_resumed,
  resume_assessment,
}

-- The assessment is stored under its id, in this status.
abbrev pub InStatus : String → Assessment → AssessmentStatus → Store → Type 0
InStatus id a status s = lookup id s.assessments ≡ some (record a { status = status })

module _ (id : String) (a : Assessment) (i : a.id ≡ id) where
  mark_running-InStatus :
      (s : Store)
      → InStatus id a AssessmentStatus.queued s
      → ((mark_running id s).0 ≡ ok (record a { status = AssessmentStatus.running }))
        × InStatus id a AssessmentStatus.running (mark_running id s).1
  unfolding mark_running move_to
  mark_running-InStatus s h = (
    ground (arith, h),
    ground (
      arith,
      h,
      i,
      lookup-insert_self id (record a { status = AssessmentStatus.running }) s.assessments,
    ),
  )

  fail-InStatus :
      (s : Store)
      → InStatus id a AssessmentStatus.running s
      → InStatus id a AssessmentStatus.failed (fail id s).1
  unfolding fail move_to
  fail-InStatus s h = ground (
    arith,
    h,
    i,
    lookup-insert_self id (record a { status = AssessmentStatus.failed }) s.assessments,
  )

  fail-again :
      (s : Store)
      → InStatus id a AssessmentStatus.failed s
      → InStatus id a AssessmentStatus.failed (fail id s).1
  unfolding fail move_to
  fail-again s h = ground (arith, h)

audit_record-store :
    (env : Env) (action id : String) (payload : _) (w : World)
    → (audit_record env action id payload w).1.store ≡ w.store
unfolding audit_record chain_record
audit_record-store env action id payload w = ground arith

abbrev stop_action : String
stop_action = "assessment.blocked.emergency_stop"

then_kept :
    {A B : Type 0} (m : Method A) (n : Method B) (w : World)
    → ((v : World) → (n v).1.store ≡ v.store)
    → ((m >> n) w).1.store ≡ (m w).1.store
then_kept m n w k = elim (Result-cases (m w).0) [
  | inl (x, e) ↦ ap (λ r. r.1.store) (>>=-ok m (λ y. n) (with_state m w e)) ∙ k (m w).1
  | inr (x, e) ↦ ap (λ r. r.1.store) (>>=-err m (λ y. n) (with_state m w e))
]

module _ (env : Env) (id : String) (a : Assessment) (i : a.id ≡ id) where
  stopped-InStatus :
      (w : World)
      → InStatus id a AssessmentStatus.running w.store
      → InStatus id a AssessmentStatus.failed (stopped env id w).1.store
  unfolding stopped fail_run on_store
  stopped-InStatus w h =
      subst (λ s. InStatus id a AssessmentStatus.failed s)
        (sym (
          then_kept (fail_run id) (audit_record env stop_action id (formatted ("reason" ∷ []))) w
            (λ v. audit_record-store env stop_action id (formatted ("reason" ∷ [])) v)))
        (fail-InStatus id a i w.store h)

  -- With the stop triggered a run that could be marked does nothing else.
  attempt-stopped :
      (w : World)
      → is_stopped env ≡ true
      → InStatus id a AssessmentStatus.queued w.store
      → attempt env id w ≡ stopped env id (on_store (mark_running id) w).1
  unfolding attempt on_store
  attempt-stopped w t h = ground (arith, t, (mark_running-InStatus id a i w.store h).0)

  failed-InStatus :
      (w : World)
      → InStatus id a AssessmentStatus.failed w.store
      → InStatus id a AssessmentStatus.failed (failed env id w).1.store
  unfolding failed fail_run on_store
  failed-InStatus w h =
      subst (λ s. InStatus id a AssessmentStatus.failed s)
        (sym (audit_record-store env "assessment.failed" id _ (fail_run id w).1))
        (fail-again id a i w.store h)

  executed-InStatus :
      (w : World)
      → InStatus id a AssessmentStatus.failed (attempt env id w).1.store
      → InStatus id a AssessmentStatus.failed (execute_assessment env id w).1.store
  unfolding execute_assessment
  executed-InStatus w h = elim (Result-cases (attempt env id w).0) [
    | inl (u, e) ↦ rw (e, execute_assessment) h
    | inr (x, e) ↦ rw (e, execute_assessment) (failed-InStatus (attempt env id w).1 h)
  ]

  stopped-machine :
      (w : World)
      → is_stopped env ≡ true
      → InStatus id a AssessmentStatus.queued w.store
      → (attempt env id w).1.machine ≡ w.machine
  unfolding on_store
  stopped-machine w t h =
      ap (λ r. r.1.machine) (attempt-stopped w t h)
      ∙ (stopped-Still env id (on_store (mark_running id) w).1).at

-- Once the emergency stop was triggered, executing a queued assessment touches no job, calls no runner and
-- leaves the assessment FAILED. A resumption does not ask for the stop: whatever it says, and whichever
-- signer, verifier, scope enforcer and egress guard are wired, the resumed run does the same.
pub stop_at_start_only :
    (env : Env) (id : String) (a : Assessment) (w v : World)
    → a.id ≡ id
    → is_stopped env ≡ true
    → InStatus id a AssessmentStatus.queued w.store
    → ((execute_assessment env id w).1.machine ≡ w.machine)
      × InStatus id a AssessmentStatus.failed (execute_assessment env id w).1.store
      × (resume_assessment env id v
          ≡ resume_assessment
              (record env {
                stop = none;
                signer = none;
                verifier = none;
                enforcer = none;
                egress = none;
              })
              id
              v)
unfolding on_store resume_assessment load_plan drain store_after store_before conclude_resumed
    handle_cancelled terminate_containers audit_record chain_record finalize_execution complete_run
    fail_empty verify_batch
stop_at_start_only env id a w v i t h =
    let u = (on_store (mark_running id) w).1 in
    let x = stopped-InStatus env id a i u (mark_running-InStatus id a i w.store h).1 in
    (
      executed-machine env id w (stopped-machine env id a i w t h),
      executed-InStatus env id a i w (
          subst (λ r. InStatus id a AssessmentStatus.failed r.1.store)
            (sym (attempt-stopped env id a i w t h)) x),
      refl,
    )
