-- ===== src/Execution/Authorized.antt =====
-- src/secopent/application/execution.py: what was checked before a run called its runner.
use sec_opent.Prelude.{
  Bool, true, false, not, Option, some, String, List, [], ◌∷◌, All, elem, string_eq, if◌then◌else◌,
  Option-cases, ◌≡◌, ◌≢◌, ◌⊎◌, inl, inr, ap, ◌∙◌, subst, arith,
}
use sec_opent.Prelude.Dict.{lookup}
use sec_opent.Prelude.Raises.{Error, ok, err, Result-cases}
use sec_opent.Prelude.Action.{◌>>◌, pure}
use sec_opent.Scope.{ScopeSnapshot}
use sec_opent.Assessment.{ExecutionPlan, Assessment}
use sec_opent.Service.{Store, mark_running}
use sec_opent.Audit.{permit_nonces}
use sec_opent.Permits.{PermitKeys, ExecutionPermit, check_permit, issue}
use sec_opent.Permits.Replay.{verify_iff}
use sec_opent.Execution.{World, Env, Method, on_store, audit_record, fail_run, formatted}
use sec_opent.Execution.Permit.{
  new_permit, issue_permit, used_nonces, settle, verdict, verify_permit, record_nonce,
}
use sec_opent.Execution.Targets.{check_plan_scope, targets_of}
use sec_opent.Execution.Destinations.{StepFits, EntryFits, targets_of-fit}
use sec_opent.Execution.Still.{
  Still, pure-Still, on_store-Still, stopped-Still, issue_permit-Still, verify_permit-Still,
  record_nonce-Still, load_plan-Still, audit_record-Still, fail_run-Still,
}
use sec_opent.Execution.Cleared.{
  returned->>, Guarded, still, held, Guarded->>=, Guarded->>, Guarded-if, TargetAllowed,
  check_targets-Still, check_targets-TargetAllowed,
}
use sec_opent.Execution.Assess.{
  load_plan, nonce_payload, apply_nft, scan, checked_scan, permitted_scan, is_stopped, attempt,
  failed, execute_assessment,
}

-- The plan and the scope that the repositories hold for the assessment.
pub record Loaded (env : Env) (id : String) (s : Store) (plan : ExecutionPlan)
    (scope : ScopeSnapshot) : Type 0 where
  pub assessment : Assessment
  pub plan_id : String
  pub stored : lookup id s.assessments ≡ some assessment
  pub active : assessment.active_plan_id ≡ some plan_id
  pub planned : lookup plan_id s.plans ≡ some plan
  pub scoped : env.scopes assessment.scope_snapshot_id ≡ some scope

-- With a signer and a verifier wired, the verifier's key accepts the signature, and the nonce is not
-- among those of the signed chain, if there is one.
abbrev pub PermitFresh : Env → String → String → String → List String → Type 0
PermitFresh env id scope_digest plan_digest used =
    (signs checks : PermitKeys)
    → env.signer ≡ some signs
    → env.verifier ≡ some checks
    → let content = (new_permit env id scope_digest plan_digest).content in
      (checks.check content (signs.sign content) ≡ true) × (elem env.fresh_nonce used ≡ false)

pub record Authorized (env : Env) (id : String) (w : World) : Type 0 where
  pub plan : ExecutionPlan
  pub scope : ScopeSnapshot
  pub not_stopped : is_stopped env ≡ false
  pub marked : (a : Assessment) × ((mark_running id w.store).0 ≡ ok a)
  pub loaded : Loaded env id (mark_running id w.store).1 plan scope
  pub permit : PermitFresh env id scope.digest plan.digest (used_nonces env w)
  pub steps_allowed : All (StepFits (TargetAllowed env scope)) plan.steps
  pub entries_allowed : All (EntryFits (TargetAllowed env scope)) scope.include

load_plan-same : (env : Env) (id : String) (w : World) → (load_plan env id w).1 ≡ w
unfolding load_plan
load_plan-same env id w = ground arith

load_plan-Loaded :
    (env : Env) (id : String) (w : World) (p : ExecutionPlan × ScopeSnapshot)
    → (load_plan env id w).0 ≡ ok p
    → Loaded env id w.store p.0 p.1
unfolding load_plan
load_plan-Loaded env id w p h = elim (Option-cases (lookup id w.store.assessments)) [
  | inl n ↦ absurd (ground (arith, h, n))
  | inr (a, e) ↦ elim (Option-cases a.active_plan_id) [
    | inl n ↦ absurd (ground (arith, h, e, n))
    | inr (plan_id, f) ↦ elim (Option-cases (lookup plan_id w.store.plans)) [
      | inl n ↦ absurd (ground (arith, h, e, f, n))
      | inr (plan, g) ↦ elim (Option-cases (env.scopes a.scope_snapshot_id)) [
        | inl n ↦ absurd (ground (arith, h, e, f, g, n))
        | inr (scope, k) ↦ record {
          assessment = a;
          plan_id = plan_id;
          stored = e;
          active = f;
          planned = ground (arith, h, e, f, g, k);
          scoped = ground (arith, h, e, f, g, k);
        }
      ]
    ]
  ]
]

issue_permit-chain :
    (env : Env) (id sd pd : String) (w : World) → (issue_permit env id sd pd w).1.chain ≡ w.chain
unfolding issue_permit
issue_permit-chain env id sd pd w = ground arith

check_permit-same : (p q : ExecutionPermit) → check_permit p ≡ ok q → q ≡ p
unfolding check_permit
check_permit-same p q h = ground (arith, h)

issue_permit-issued :
    (env : Env) (id sd pd : String) (w : World) (p : Option ExecutionPermit) (signs : PermitKeys)
    → env.signer ≡ some signs
    → (issue_permit env id sd pd w).0 ≡ ok p
    → p ≡ some (issue signs (new_permit env id sd pd))
unfolding issue_permit
issue_permit-issued env id sd pd w p signs s h =
    elim (Result-cases (check_permit (new_permit env id sd pd))) [
      | inr (e, c) ↦ absurd (ground (arith, h, s, c))
      | inl (q, c) ↦
          let same : q ≡ new_permit env id sd pd = check_permit-same _ q c in
          ground (arith, h, s, c, same)
    ]

settle-err :
    (env : Env) (id : String) (p : ExecutionPermit) (e : Error) (w : World)
    → (settle env id p (err e) w).0 ≢ ok true
unfolding settle
settle-err env id p e w h =
    let noted =
      audit_record env "assessment.blocked.permit_invalid" id (formatted ("reason" ∷ [])) in
    let no : Method Bool = pure false in
    let a = returned->> (fail_run id) (noted >> no) w h in
    let b = returned->> noted no (fail_run id w).1 a in cc b

verify_permit-verified :
    (env : Env) (id : String) (p : ExecutionPermit) (w : World) (checks : PermitKeys)
    → env.verifier ≡ some checks
    → (verify_permit env id (some p) w).0 ≡ ok true
    → verdict env checks p w ≡ ok tt
unfolding verify_permit
verify_permit-verified env id p w checks v h =
    let k : (settle env id p (verdict env checks p w) w).0 ≡ ok true = ground (arith, h, v) in
    elim (Result-cases (verdict env checks p w)) [
      | inl (tt, e) ↦ e
      | inr (x, e) ↦
          absurd (settle-err env id p x w (subst (λ r. (settle env id p r w).0 ≡ ok true) e k))
    ]

used_nonces-chain :
    (env : Env) (v w : World) → v.chain ≡ w.chain → used_nonces env v ≡ used_nonces env w
used_nonces-chain env v w h = ap (λ c. if env.has_chain then permit_nonces env.audit c else []) h

module _ (env : Env) (id : String) (plan : ExecutionPlan) (scope : ScopeSnapshot) where
  abbrev AllAllowed : Type 0
  AllAllowed = All (TargetAllowed env scope) (targets_of plan.steps scope)

  check_plan_scope-Still : (w : World) → Still (check_plan_scope env id plan.steps scope true) w
  unfolding check_plan_scope
  check_plan_scope-Still w = check_targets-Still env id scope (targets_of plan.steps scope) w

  check_plan_scope-allowed :
      (w : World) → (check_plan_scope env id plan.steps scope true w).0 ≡ ok true → AllAllowed
  unfolding check_plan_scope
  check_plan_scope-allowed w h =
      check_targets-TargetAllowed env id scope (targets_of plan.steps scope) w h

  checked_scan-Guarded :
      {C : Type 0} (w : World)
      → (AllAllowed → C)
      → Guarded C (checked_scan env id plan scope true) w
  unfolding checked_scan
  checked_scan-Guarded w c =
      Guarded->>= (check_plan_scope env id plan.steps scope true) _ w (check_plan_scope-Still w)
        (λ fits h.
          Guarded-if (not fits) (pure tt) (apply_nft env id >> scan env id plan scope) _
            (λ n. still (pure-Still tt _))
            (λ n. held (c (check_plan_scope-allowed w (h ∙ ap (λ b. ok b) (ground (arith, n)))))))

  permit-fresh :
      (w : World) (permit : Option ExecutionPermit)
      → (issue_permit env id scope.digest plan.digest w).0 ≡ ok permit
      → (verify_permit env id permit (issue_permit env id scope.digest plan.digest w).1).0 ≡ ok true
      → PermitFresh env id scope.digest plan.digest (used_nonces env w)
  unfolding issue
  permit-fresh w permit i v signs checks s k =
      let v2 = (issue_permit env id scope.digest plan.digest w).1 in
      let p = issue signs (new_permit env id scope.digest plan.digest) in
      let e = issue_permit-issued env id scope.digest plan.digest w permit signs s i in
      let ok_true = subst (λ q. (verify_permit env id q v2).0 ≡ ok true) e v in
      let passed = verify_permit-verified env id p v2 checks k ok_true in
      let same =
        used_nonces-chain env v2 w (issue_permit-chain env id scope.digest plan.digest w) in
      let (signed, unexpired, unused, worker) =
        (verify_iff checks p env.now (used_nonces env v2) (some "adapter-executor")).0 passed in
      (signed, subst (λ l. elem env.fresh_nonce l ≡ false) same unused)

  permitted_scan-Guarded :
      {C : Type 0} (w : World)
      → (PermitFresh env id scope.digest plan.digest (used_nonces env w) → AllAllowed → C)
      → Guarded C (permitted_scan env id plan scope) w
  unfolding permitted_scan
  permitted_scan-Guarded w c =
      Guarded->>= (issue_permit env id scope.digest plan.digest) _ w
        (issue_permit-Still env id scope.digest plan.digest w)
        (λ permit i.
          Guarded->>= (verify_permit env id permit) _ _ (verify_permit-Still env id permit _)
            (λ valid v.
              Guarded-if (not valid) (pure tt) _ _ (λ n. still (pure-Still tt _))
                (λ n.
                  let fresh = permit-fresh w permit i (v ∙ ap (λ b. ok b) (ground (arith, n))) in
                  Guarded->> (record_nonce env id permit) _ _ (record_nonce-Still env id permit _) (
                    Guarded->> (audit_record env "assessment.started" id (nonce_payload permit)) _ _
                      (audit_record-Still env _ id _ _) (checked_scan-Guarded _ (c fresh))))))

module _ (env : Env) (id : String) where
  attempt-Guarded : (w : World) → Guarded (Authorized env id w) (attempt env id) w
  unfolding attempt on_store
  attempt-Guarded w =
      let v = (on_store (mark_running id) w).1 in
      Guarded->>= (on_store (mark_running id)) _ w (on_store-Still (mark_running id) w) (λ a m.
        Guarded-if (is_stopped env) _ _ v (λ t. still (stopped-Still env id v))
          (λ n. Guarded->>= (load_plan env id) _ v (load_plan-Still env id v) (λ p l.
            permitted_scan-Guarded env id p.0 p.1 (load_plan env id v).1 (λ f t.
              let (allowed, entries) = targets_of-fit (TargetAllowed env p.1) p.0.steps p.1 t in
              record {
                plan = p.0;
                scope = p.1;
                not_stopped = n;
                marked = (a, m);
                loaded = load_plan-Loaded env id v p l;
                permit =
                    subst (λ u. PermitFresh env id p.1.digest p.0.digest (used_nonces env u))
                      (load_plan-same env id v) f;
                steps_allowed = allowed;
                entries_allowed = entries;
              }))))

  failed-machine : (w : World) → (failed env id w).1.machine ≡ w.machine
  unfolding failed
  failed-machine w =
      (audit_record-Still env "assessment.failed" id _ (fail_run id w).1).at
      ∙ (fail_run-Still id w).at

  pub executed-machine :
      (w : World)
      → (attempt env id w).1.machine ≡ w.machine
      → (execute_assessment env id w).1.machine ≡ w.machine
  unfolding execute_assessment
  executed-machine w h = elim (Result-cases (attempt env id w).0) [
    | inl (u, e) ↦ rw (e, execute_assessment) h
    | inr (x, e) ↦ rw (e, execute_assessment) (failed-machine (attempt env id w).1 ∙ h)
  ]

  guarded-cases :
      {C : Type 0} (w : World)
      → Guarded C (attempt env id) w
      → ((execute_assessment env id w).1.machine ≡ w.machine) ⊎ C
  guarded-cases w (still s) = inl (executed-machine w s.at)
  guarded-cases w (held c) = inr c

  -- Executing an assessment leaves its jobs and the count of the runner's calls as they are, unless all of
  -- this holds: the emergency stop was not triggered, the assessment was marked as running, its active plan
  -- and its scope are those of the repositories, with a signer and a verifier wired the permit's signature
  -- is accepted and its nonce is none of the signed chain, and each target that a step names and each entry of
  -- the scope that is no network is allowed by the egress guard and by the scope enforcer, where they are wired.
  pub execute_assessment-Authorized :
      (w : World) → ((execute_assessment env id w).1.machine ≡ w.machine) ⊎ Authorized env id w
  execute_assessment-Authorized w = guarded-cases w (attempt-Guarded w)
