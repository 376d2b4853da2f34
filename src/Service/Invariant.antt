-- ===== src/Service/Invariant.antt =====
-- The invariant of the store holds after any calls of the service.
use sec_opent.Prelude.{
  true, Option, none, some, String, List, ◌≡◌, ◌≢◌, inl, inr, refl, sym, ◌∙◌, subst, arith,
}
use sec_opent.Prelude.Dict.{lookup, insert, lookup-insert_new, lookup-insert_self}
use sec_opent.Assessment.{AssessmentStatus, ControlState, PlanStep, Approval, Assessment}
use sec_opent.Prelude.Action.{◌>>◌}
use sec_opent.Prelude.Raises.{Result, ok, err}
use sec_opent.Service.{
  Store, Env, Method, create, attach_plan, record_approval, approve, reject, enqueue, start,
  mark_running, complete, fail, pause, resume, cancel, gate, approver, move_to, signal_to,
}
use sec_opent.Service.Outcomes.{move_to-Moves, signal_to-Moves, reject-Moves, enqueue-Moves}
use sec_opent.Service.Writes.{create_draft, attach_plan_writes, record_approval_writes, gate_pure}
use sec_opent.Service.Calls.{
  Call, create_call, attach_call, approve_call, reject_call, start_call, run_call, complete_call,
  fail_call, pause_call, resume_call, cancel_call, perform, DrawsNew, Reachable, init, next,
}
use sec_opent.Service.Backed.{
  Sound, Keeps, Backing, after_approval, same_store, saved-Sound, Moves-Sound,
}

module _ (env : Env) where
  create-Sound :
      (fresh project scope : String) (mode : _) (s : Store)
      → Sound s
      → Sound (create fresh project scope mode s).1
  create-Sound fresh project scope mode s h = elim (create_draft fresh project scope mode s) [
    | inl r ↦ subst Sound (sym r.1) h
    | inr (a, d, i, e) ↦
        subst Sound (sym e) (saved-Sound s s a h (same_store s) refl (λ l. absurd (cc)))
  ]

  attach-Sound :
      (fresh id : String) (steps : List PlanStep) (s : Store)
      → lookup fresh s.plans ≡ none
      → Sound s
      → Sound (attach_plan env fresh id steps s).1
  attach-Sound fresh id steps s new h = elim (attach_plan_writes env fresh id steps s) [
    | inl r ↦ subst Sound (sym r.1) h
    | inr w ↦
        let t : Store = record s { plans = insert w.plan.id w.plan s.plans } in
        let k : Keeps s t = record {
          plans = λ j p e.
              lookup-insert_new w.plan.id j w.plan p s.plans
                (subst (λ x. lookup x s.plans ≡ none) (sym w.drawn) new) e;
          approvals = λ j p e. e;
        } in
        subst Sound (sym w.written)
          (saved-Sound s t w.after h k refl (λ l. absurd (ground (arith, w.status))))
  ]

  record_approval-Sound :
      (id : String) (request : Approval) (s : Store)
      → lookup request.id s.approvals ≡ none
      → Sound s
      → Sound (record_approval env id request s).1
  record_approval-Sound id request s new h = elim (record_approval_writes env id request s) [
    | inl r ↦ subst Sound (sym r.1) h
    | inr w ↦
        let t : Store = record s { approvals = insert w.approval.id w.approval s.approvals } in
        let k : Keeps s t = record {
          plans = λ j p e. e;
          approvals = λ j p e.
              lookup-insert_new w.approval.id j w.approval p s.approvals
                (subst (λ x. lookup x s.approvals ≡ none) (sym w.drawn) new) e;
        } in
        let b : Backing t w.after = record {
          plan_id = w.plan_id;
          plan = w.plan;
          approval_id = w.approval.id;
          approval = w.approval;
          plan_ref = w.plan_ref;
          plan_stored = w.plan_stored;
          approval_ref = w.approval_ref;
          approval_stored = lookup-insert_self w.approval.id w.approval s.approvals;
          digest = w.digest;
          subject = w.subject ∙ sym (w.same_id ∙ h.keyed id w.before w.stored);
        } in
        subst Sound (sym w.written) (saved-Sound s t w.after h k refl (λ l. b))
  ]

  -- A method behind a gate that passes runs on the same store; one that fails leaves it.
  gated-Sound :
      {A : Type 0} (m : Method A) (grant_id : Option String) (role id : String) (s : Store)
      → Sound s
      → (Sound (m s).1)
      → Sound ((gate env grant_id role id >> m) s).1
  gated-Sound {A} m grant_id role id s h k =
      go (gate env grant_id role id s) (gate_pure env grant_id role id s)
    where
      go :
          (r : Result (Unit {0}) × Store)
          → r.1 ≡ s
          → Sound
              (let x : Result A × Store = elim (r.0) [ ok u ↦ m r.1 | err e ↦ (err e, r.1) ] in x).1
      go (ok u, t) e = subst (λ z. Sound (m z).1) (sym e) k
      go (err x, t) e = subst Sound (sym e) h

  move_to-Sound :
      (target : AssessmentStatus) (id : String) (s : Store)
      → target ≢ AssessmentStatus.approved
      → Sound s
      → Sound (move_to target id s).1
  move_to-Sound target id s n h =
      Moves-Sound (move_to target id) s id target n (move_to-Moves target id s) h

  signal_to-Sound :
      (target : AssessmentStatus) (signal : ControlState) (id : String) (s : Store)
      → target ≢ AssessmentStatus.approved
      → Sound s
      → Sound (signal_to target signal id s).1
  signal_to-Sound target signal id s n h =
      Moves-Sound (signal_to target signal id) s id target n (signal_to-Moves target signal id s) h

  perform-Sound : (c : Call) (s : Store) → DrawsNew c s → Sound s → Sound (perform env c s)
  unfolding perform mark_running complete fail pause resume cancel approve start
  perform-Sound (create_call fresh project scope mode) s n h =
      create-Sound fresh project scope mode s h
  perform-Sound (attach_call fresh id steps) s n h = attach-Sound fresh id steps s n h
  perform-Sound (approve_call id request role grant_id) s n h =
      let r : Approval = record request {
        approved_by = approver env grant_id request.approved_by;
      } in
      gated-Sound (record_approval env id r) grant_id role id s h (record_approval-Sound id r s n h)
  perform-Sound (reject_call id reason role) s n h =
      Moves-Sound (reject env id reason role) s id AssessmentStatus.rejected (λ e. cc)
        (reject-Moves env id reason role s) h
  perform-Sound (start_call id role grant_id) s n h =
      gated-Sound (enqueue env id) grant_id role id s h (
        Moves-Sound (enqueue env id) s id AssessmentStatus.queued (λ e. cc) (enqueue-Moves env id s)
          h)
  perform-Sound (run_call id) s n h = move_to-Sound AssessmentStatus.running id s (λ e. cc) h
  perform-Sound (complete_call id) s n h = move_to-Sound AssessmentStatus.completed id s (λ e. cc) h
  perform-Sound (fail_call id) s n h = move_to-Sound AssessmentStatus.failed id s (λ e. cc) h
  perform-Sound (pause_call id) s n h =
      signal_to-Sound AssessmentStatus.paused ControlState.pause_requested id s (λ e. cc) h
  perform-Sound (resume_call id) s n h =
      signal_to-Sound AssessmentStatus.running ControlState.resume_requested id s (λ e. cc) h
  perform-Sound (cancel_call id) s n h =
      signal_to-Sound AssessmentStatus.cancelled ControlState.cancel_requested id s (λ e. cc) h

  pub Reachable-Sound : {s : Store} → Reachable env s → Sound s
  Reachable-Sound init = record { keyed = λ k a e. absurd (cc); backed = λ k a e l. absurd (cc) }
  Reachable-Sound (next {s = s} r c n e) =
      subst Sound (sym e) (perform-Sound c s n (Reachable-Sound r))

  -- After any calls of the service, on a store that began empty and with new ids drawn, each
  -- assessment in a status after approval (approved, queued, running, paused, completed, partial,
  -- failed, cancelled) has a stored approval for it, whose plan digest is that of its stored active
  -- plan.
  pub Reachable-Backing :
      (s : Store) (k : String) (a : Assessment)
      → Reachable env s
      → lookup k s.assessments ≡ some a
      → after_approval a.status ≡ true
      → Backing s a
  Reachable-Backing s k a r e l = (Reachable-Sound r).backed k a e l
