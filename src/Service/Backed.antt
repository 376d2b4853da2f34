-- ===== src/Service/Backed.antt =====
-- No assessment is approved, queued, run or ended without a stored approval of its very plan.
use sec_opent.Prelude.{
  Bool, true, false, some, String, elem, ◌≡◌, ◌≢◌, inl, inr, refl, sym, ap, ◌∙◌, subst, arith,
  string_eq,
}
use sec_opent.Prelude.Dict.{lookup, lookup-insert_cases}
use sec_opent.Assessment.{
  AssessmentStatus, status_eq, allowed_transitions, ExecutionPlan, Approval, Assessment,
}
use sec_opent.Service.{Store, Method}
use sec_opent.Service.Outcomes.{Moves, saved}

-- The statuses that come after an approval.
abbrev pub after_approval : AssessmentStatus → Bool
after_approval AssessmentStatus.draft = false
after_approval AssessmentStatus.planned = false
after_approval AssessmentStatus.awaiting_approval = false
after_approval AssessmentStatus.rejected = false
after_approval s = true

-- The approval and the plan of an assessment, as the store holds them.
pub record Backing (s : Store) (a : Assessment) : Type 0 where
  pub plan_id : String
  pub plan : ExecutionPlan
  pub approval_id : String
  pub approval : Approval
  pub plan_ref : a.active_plan_id ≡ some plan_id
  pub plan_stored : lookup plan_id s.plans ≡ some plan
  pub approval_ref : a.approval_id ≡ some approval_id
  pub approval_stored : lookup approval_id s.approvals ≡ some approval
  pub digest : approval.plan_digest ≡ plan.digest
  pub subject : approval.assessment_id ≡ a.id

pub record Sound (s : Store) : Type 0 where
  pub keyed : (k : String) (a : Assessment) → lookup k s.assessments ≡ some a → a.id ≡ k
  pub backed :
      (k : String) (a : Assessment)
      → lookup k s.assessments ≡ some a
      → after_approval a.status ≡ true
      → Backing s a

-- A later store that keeps every plan and every approval.
pub record Keeps (s t : Store) : Type 0 where
  pub plans :
      (k : String) (p : ExecutionPlan) → lookup k s.plans ≡ some p → lookup k t.plans ≡ some p
  pub approvals :
      (k : String) (p : Approval) → lookup k s.approvals ≡ some p → lookup k t.approvals ≡ some p

Backing-kept :
    (s t : Store) (a b : Assessment)
    → Keeps s t
    → b.id ≡ a.id
    → b.active_plan_id ≡ a.active_plan_id
    → b.approval_id ≡ a.approval_id
    → Backing s a
    → Backing t b
Backing-kept s t a b k i p q h = record {
  plan_id = h.plan_id;
  plan = h.plan;
  approval_id = h.approval_id;
  approval = h.approval;
  plan_ref = p ∙ h.plan_ref;
  plan_stored = k.plans h.plan_id h.plan h.plan_stored;
  approval_ref = q ∙ h.approval_ref;
  approval_stored = k.approvals h.approval_id h.approval h.approval_stored;
  digest = h.digest;
  subject = h.subject ∙ sym i;
}

-- Saving one assessment that is backed, in a store that keeps the rest.
pub saved-Sound :
    (s t : Store) (b : Assessment)
    → Sound s
    → Keeps s t
    → t.assessments ≡ s.assessments
    → (after_approval b.status ≡ true → Backing t b)
    → Sound (saved b t)
saved-Sound s t b h k same back = record { keyed = keyed_after; backed = backed_after }
  where
    keyed_after :
        (j : String) (a : Assessment) → lookup j (saved b t).assessments ≡ some a → a.id ≡ j
    keyed_after j a e = elim (lookup-insert_cases b.id j b a t.assessments e) [
      | inl (p, q) ↦ ap Assessment.id (sym q) ∙ p
      | inr old ↦ h.keyed j a (rw same at old)
    ]

    backed_after :
        (j : String) (a : Assessment)
        → lookup j (saved b t).assessments ≡ some a
        → after_approval a.status ≡ true
        → Backing (saved b t) a
    backed_after j a e l = elim (lookup-insert_cases b.id j b a t.assessments e) [
      | inl (p, q) ↦
          let here : Keeps t (saved b t) = record { plans = λ x y z. z; approvals = λ x y z. z } in
          subst (Backing (saved b t)) q (
            Backing-kept t (saved b t) b b here refl refl refl
              (back (subst (λ z. after_approval z.status ≡ true) (sym q) l)))
      | inr old ↦
          let on : Keeps s (saved b t) = record { plans = k.plans; approvals = k.approvals } in
          Backing-kept s (saved b t) a a on refl refl refl (h.backed j a (rw same at old) l)
    ]

-- The statuses after an approval are entered by an approval alone.
after_approval-step :
    (a b : AssessmentStatus)
    → elem b (allowed_transitions a) ≡ true
    → b ≢ AssessmentStatus.approved
    → after_approval b ≡ true
    → after_approval a ≡ true
after_approval-step a b h n l = ground arith

pub same_store : (s : Store) → Keeps s s
same_store s = record { plans = λ k p e. e; approvals = λ k p e. e }

pub Moves-Sound :
    (m : Method Assessment) (s : Store) (id : String) (target : AssessmentStatus)
    → target ≢ AssessmentStatus.approved
    → Moves m s id target
    → Sound s
    → Sound (m s).1
Moves-Sound m s id target n (inl r) h = subst Sound (sym r.1) h
Moves-Sound m s id target n (inr (a, b, moved, e)) h = subst Sound (sym (ap (λ x. x.1) e)) (
    saved-Sound s s b h (same_store s) refl (λ l.
      Backing-kept s s a b (same_store s) moved.same_id moved.same_plan moved.same_approval (
        h.backed id a moved.stored
          (after_approval-step a.status target moved.legal n (rw moved.status at l)))))
