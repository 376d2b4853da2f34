-- ===== src/Service/Terminal.antt =====
-- An assessment that has ended stays as it is, whatever is called.
use sec_opent.Prelude.{
  Bool, true, false, Option, none, some, String, List, elem, ◌≡◌, inl, inr, sym, ap, ◌∙◌, subst,
  arith, string_eq, ◌==◌, Bool-cases,
}
use text.Mathlib.TextEquality.{eq_iff}
use sec_opent.Prelude.Dict.{lookup, insert, lookup-insert}
use sec_opent.Prelude.Raises.{Result, ok, err}
use sec_opent.Prelude.Action.{◌>>◌}
use sec_opent.Risk.{ExecutionMode}
use sec_opent.Assessment.{
  AssessmentStatus, allowed_transitions, status_eq, PlanStep, Approval, Assessment,
}
use sec_opent.Service.{
  Store, Env, Method, create, attach_plan, record_approval, approve, reject, enqueue, start,
  mark_running, complete, fail, pause, resume, cancel, gate, approver,
}
use sec_opent.Service.Outcomes.{Moves, move_to-Moves, signal_to-Moves, reject-Moves, enqueue-Moves}
use sec_opent.Service.Writes.{create_draft, attach_plan_writes, record_approval_writes, gate_pure}
use sec_opent.Service.Calls.{
  Call, create_call, attach_call, approve_call, reject_call, start_call, run_call, complete_call,
  fail_call, pause_call, resume_call, cancel_call, perform, DrawsNew, Reachable,
}
use sec_opent.Service.Backed.{Sound}
use sec_opent.Service.Invariant.{Reachable-Sound}

-- No transition leads out of these.
abbrev pub is_terminal : AssessmentStatus → Bool
is_terminal AssessmentStatus.rejected = true
is_terminal AssessmentStatus.completed = true
is_terminal AssessmentStatus.partial = true
is_terminal AssessmentStatus.failed = true
is_terminal AssessmentStatus.cancelled = true
is_terminal s = false

no_way_out :
    (a b : AssessmentStatus) → is_terminal a ≡ true → elem b (allowed_transitions a) ≡ false
no_way_out a b h = ground arith

-- A row that a call leaves alone.
abbrev Stays : String → Assessment → Store → Store → Type 0
Stays k a s t = lookup k s.assessments ≡ some a → lookup k t.assessments ≡ some a

module _ (k : String) (a : Assessment) (ended : is_terminal a.status ≡ true) where
  saved-Stays :
      (s t : Store) (id : String) (x b : Assessment)
      → Sound s
      → lookup id s.assessments ≡ some x
      → (target : AssessmentStatus) → elem target (allowed_transitions x.status) ≡ true
      → b.id ≡ x.id
      → t.assessments ≡ insert b.id b s.assessments
      → Stays k a s t
  saved-Stays s t id x b h e target legal i w l = elim (Bool-cases (b.id == k)) [
    | inr other ↦ rw w (ground (arith, lookup-insert b.id k b s.assessments))
    | inl same ↦
        let p : id ≡ k = sym (h.keyed id x e) ∙ sym i ∙ (eq_iff b.id k).0 same in
        let q : some x ≡ some a = sym e ∙ ap (λ z. lookup z s.assessments) p ∙ l in
        absurd (ground (arith, no_way_out a.status target ended))
  ]

  Moves-Stays :
      (m : Method Assessment) (s : Store) (id : String) (target : AssessmentStatus)
      → Sound s
      → Moves m s id target
      → Stays k a s (m s).1
  Moves-Stays m s id target h (inl r) l = subst (λ z. lookup k z.assessments ≡ some a) (sym r.1) l
  Moves-Stays m s id target h (inr (x, b, v, e)) l =
      saved-Stays s (m s).1 id x b h v.stored target v.legal v.same_id (ap (λ z. z.1.assessments) e)
        l

  create-Stays :
      (fresh project scope : String) (mode : ExecutionMode) (s : Store)
      → lookup fresh s.assessments ≡ none
      → Stays k a s (create fresh project scope mode s).1
  create-Stays fresh project scope mode s n l = elim (create_draft fresh project scope mode s) [
    | inl r ↦ subst (λ z. lookup k z.assessments ≡ some a) (sym r.1) l
    | inr (b, d, i, e) ↦ elim (Bool-cases (b.id == k)) [
      | inl same ↦
          let p : fresh ≡ k = sym i ∙ (eq_iff b.id k).0 same in
          let q : none ≡ some a = sym n ∙ ap (λ z. lookup z s.assessments) p ∙ l in absurd (cc)
      | inr other ↦ rw e (ground (arith, lookup-insert b.id k b s.assessments))
    ]
  ]

  module _ (env : Env) where
    attach-Stays :
        (fresh id : String) (steps : List PlanStep) (s : Store)
        → Sound s
        → Stays k a s (attach_plan env fresh id steps s).1
    attach-Stays fresh id steps s h l = elim (attach_plan_writes env fresh id steps s) [
      | inl r ↦ subst (λ z. lookup k z.assessments ≡ some a) (sym r.1) l
      | inr w ↦
          saved-Stays s (attach_plan env fresh id steps s).1 id w.before w.after h w.stored
            AssessmentStatus.awaiting_approval w.legal w.same_id (ap Store.assessments w.written) l
    ]

    record_approval-Stays :
        (id : String) (request : Approval) (s : Store)
        → Sound s
        → Stays k a s (record_approval env id request s).1
    record_approval-Stays id request s h l = elim (record_approval_writes env id request s) [
      | inl r ↦ subst (λ z. lookup k z.assessments ≡ some a) (sym r.1) l
      | inr w ↦
          saved-Stays s (record_approval env id request s).1 id w.before w.after h w.stored
            AssessmentStatus.approved w.legal w.same_id (ap Store.assessments w.written) l
    ]

    gated-Stays :
        {A : Type 0} (m : Method A) (grant_id : Option String) (role id : String) (s : Store)
        → Stays k a s (m s).1
        → Stays k a s ((gate env grant_id role id >> m) s).1
    gated-Stays {A} m grant_id role id s h l =
        go (gate env grant_id role id s) (gate_pure env grant_id role id s)
      where
        go :
            (r : Result (Unit {0}) × Store)
            → r.1 ≡ s
            → lookup k
                (let x : Result A × Store = elim (r.0) [ ok u ↦ m r.1 | err e ↦ (err e, r.1) ] in
                  x).1.assessments
              ≡ some a
        go (ok u, t) e = subst (λ z. lookup k (m z).1.assessments ≡ some a) (sym e) (h l)
        go (err x, t) e = subst (λ z. lookup k z.assessments ≡ some a) (sym e) l

    perform-Stays : (c : Call) (s : Store) → DrawsNew c s → Sound s → Stays k a s (perform env c s)
    unfolding perform mark_running complete fail pause resume cancel approve start
    perform-Stays (create_call fresh project scope mode) s n h =
        create-Stays fresh project scope mode s n
    perform-Stays (attach_call fresh id steps) s n h = attach-Stays fresh id steps s h
    perform-Stays (approve_call id request role grant_id) s n h =
        let r : Approval = record request {
          approved_by = approver env grant_id request.approved_by;
        } in
        gated-Stays (record_approval env id r) grant_id role id s (record_approval-Stays id r s h)
    perform-Stays (reject_call id reason role) s n h =
        Moves-Stays (reject env id reason role) s id _ h (reject-Moves env id reason role s)
    perform-Stays (start_call id role grant_id) s n h =
        gated-Stays (enqueue env id) grant_id role id s
          (Moves-Stays (enqueue env id) s id _ h (enqueue-Moves env id s))
    perform-Stays (run_call id) s n h =
        Moves-Stays (mark_running id) s id _ h (move_to-Moves _ id s)
    perform-Stays (complete_call id) s n h =
        Moves-Stays (complete id) s id _ h (move_to-Moves _ id s)
    perform-Stays (fail_call id) s n h = Moves-Stays (fail id) s id _ h (move_to-Moves _ id s)
    perform-Stays (pause_call id) s n h = Moves-Stays (pause id) s id _ h (signal_to-Moves _ _ id s)
    perform-Stays (resume_call id) s n h =
        Moves-Stays (resume id) s id _ h (signal_to-Moves _ _ id s)
    perform-Stays (cancel_call id) s n h =
        Moves-Stays (cancel id) s id _ h (signal_to-Moves _ _ id s)

-- In a store that calls of the service have made, an assessment that is rejected, completed, partial,
-- failed or cancelled is left exactly as it is by every further call that draws new ids.
pub terminal_stays :
    (env : Env) (s : Store) (c : Call) (k : String) (a : Assessment)
    → Reachable env s
    → DrawsNew c s
    → lookup k s.assessments ≡ some a
    → is_terminal a.status ≡ true
    → lookup k (perform env c s).assessments ≡ some a
terminal_stays env s c k a r n l t = perform-Stays k a t env c s n (Reachable-Sound env r) l
