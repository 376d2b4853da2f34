-- ===== src/Service/Writes.antt =====
-- How `create`, `attach_plan`, `approve` and `start` end: the methods that write a plan or an
-- approval, or that pass a gate first.
use sec_opent.Prelude.{
  ◌||◌, true, Option, none, some, String, List, elem, ◌≡◌, ◌⊎◌, inl, inr, refl, arith, Option-cases,
  Bool-cases, string_eq,
}
use sec_opent.Prelude.Dict.{lookup, insert}
use sec_opent.Prelude.Text.{is_empty}
use sec_opent.Prelude.Raises.{ok, Result-cases}
use sec_opent.Risk.{ExecutionMode}
use sec_opent.Assessment.{
  AssessmentStatus, status_eq, allowed_transitions, ControlState, PlanStep, ExecutionPlan,
  create_plan, Approval, create_approval, Assessment,
}
use sec_opent.Service.{Store, Env, create, attach_plan, gate, authorize_via_grant, record_approval}
use sec_opent.Service.Outcomes.{Raised, saved}

pub create_draft :
    (id project scope : String) (mode : ExecutionMode) (s : Store)
    → Raised (create id project scope mode) s
      ⊎ ((a : Assessment) × (a.status ≡ AssessmentStatus.draft)
          × (a.id ≡ id)
          × ((create id project scope mode s).1 ≡ saved a s))
unfolding create
create_draft id project scope mode s =
    elim (Bool-cases (is_empty id || is_empty project || is_empty scope)) [
      | inl missing ↦ inl (ground arith, ground arith)
      | inr fine ↦ inr (
        record {
          id = id;
          project_id = project;
          scope_snapshot_id = scope;
          mode = mode;
          status = AssessmentStatus.draft;
          active_plan_id = none;
          approval_id = none;
          control = ControlState.idle;
        },
        refl,
        refl,
        ground arith,
      )
    ]

module _ (env : Env) where
  -- The plan is stored, and the assessment waits for its approval.
  pub record Planned (fresh_id id : String) (s s' : Store) : Type 0 where
    pub before : Assessment
    pub after : Assessment
    pub plan : ExecutionPlan
    pub stored : lookup id s.assessments ≡ some before
    pub same_id : after.id ≡ before.id
    pub legal : elem AssessmentStatus.awaiting_approval (allowed_transitions before.status) ≡ true
    pub status : after.status ≡ AssessmentStatus.awaiting_approval
    pub written : s' ≡ saved after (record s { plans = insert plan.id plan s.plans })
    pub drawn : plan.id ≡ fresh_id

  created_id :
      (digest_of : String → _ → List PlanStep → String) (plan_id id : String)
      (steps : List PlanStep) (plan : ExecutionPlan)
      → create_plan digest_of plan_id id 1 steps ≡ ok plan
      → plan.id ≡ plan_id
  unfolding create_plan
  created_id digest_of plan_id id steps plan h = ground arith

  pub attach_plan_writes :
      (fresh_id id : String) (steps : List PlanStep) (s : Store)
      → Raised (attach_plan env fresh_id id steps) s
        ⊎ Planned fresh_id id s (attach_plan env fresh_id id steps s).1
  unfolding attach_plan
  attach_plan_writes fresh_id id steps s = elim (Option-cases (lookup id s.assessments)) [
    | inl missing ↦ inl (ground arith, ground arith)
    | inr (a, e) ↦
        elim (Bool-cases (elem AssessmentStatus.awaiting_approval (allowed_transitions a.status))) [
          | inr illegal ↦ inl (ground arith, ground arith)
          | inl legal ↦ elim (Result-cases (create_plan env.plan_digest fresh_id id 1 steps)) [
            | inr (x, r) ↦ inl (ground arith, ground arith)
            | inl (plan, p) ↦ inr (record {
              before = a;
              after = record a {
                status = AssessmentStatus.awaiting_approval;
                active_plan_id = some plan.id;
              };
              plan = plan;
              stored = e;
              same_id = refl;
              legal = legal;
              status = refl;
              written = ground arith;
              drawn = created_id env.plan_digest fresh_id id steps plan p;
            })
          ]
        ]
  ]

  -- The approval is stored with the digest of the active plan, and the assessment is approved.
  pub record Approved (fresh_id id : String) (s s' : Store) : Type 0 where
    pub before : Assessment
    pub after : Assessment
    pub plan_id : String
    pub plan : ExecutionPlan
    pub approval : Approval
    pub stored : lookup id s.assessments ≡ some before
    pub same_id : after.id ≡ before.id
    pub legal : elem AssessmentStatus.approved (allowed_transitions before.status) ≡ true
    pub plan_ref : after.active_plan_id ≡ some plan_id
    pub plan_stored : lookup plan_id s.plans ≡ some plan
    pub approval_ref : after.approval_id ≡ some approval.id
    pub digest : approval.plan_digest ≡ plan.digest
    pub subject : approval.assessment_id ≡ id
    pub written :
        s' ≡ saved after (record s { approvals = insert approval.id approval s.approvals })
    pub drawn : approval.id ≡ fresh_id

  -- The approval that is recorded for an assessment and its plan.
  abbrev granted_of : String → Approval → Assessment → ExecutionPlan → Approval
  granted_of id request a plan =
      let d : Approval = record request {
        assessment_id = id;
        plan_digest = plan.digest;
        mode = a.mode;
      } in
      record d { digest = env.approval_digest d }

  pub record_approval_writes :
      (id : String) (request : Approval) (s : Store)
      → Raised (record_approval env id request) s
        ⊎ Approved request.id id s (record_approval env id request s).1
  unfolding record_approval create_approval
  record_approval_writes id request s = elim (Option-cases (lookup id s.assessments)) [
    | inl missing ↦ inl (ground arith, ground arith)
    | inr (a, e) ↦ elim (Option-cases a.active_plan_id) [
      | inl none_active ↦ inl (ground arith, ground arith)
      | inr (plan_id, q) ↦
          elim (Bool-cases (elem AssessmentStatus.approved (allowed_transitions a.status))) [
            | inr illegal ↦ inl (ground arith, ground arith)
            | inl legal ↦ elim (Option-cases (lookup plan_id s.plans)) [
              | inl no_plan ↦ inl (ground arith, ground arith)
              | inr (plan, p) ↦
                  elim (Bool-cases (is_empty plan.digest || is_empty request.scope_digest)) [
                    | inl unbound ↦ inl (ground arith, ground arith)
                    | inr bound ↦
                        let g = granted_of id request a plan in
                        inr (record {
                          before = a;
                          after = record a {
                            status = AssessmentStatus.approved;
                            approval_id = some g.id;
                          };
                          plan_id = plan_id;
                          plan = plan;
                          approval = g;
                          stored = e;
                          same_id = refl;
                          legal = legal;
                          plan_ref = q;
                          plan_stored = p;
                          approval_ref = refl;
                          digest = refl;
                          subject = refl;
                          written = ground arith;
                          drawn = refl;
                        })
                  ]
            ]
          ]
    ]
  ]

  -- The gate writes nothing.
  pub gate_pure :
      (grant_id : Option String) (role id : String) (s : Store)
      → (gate env grant_id role id s).1 ≡ s
  unfolding gate authorize_via_grant
  gate_pure grant_id role id s = ground arith
