-- ===== src/Service/Guards.antt =====
-- Who may approve, reject and start, and which assessments no call can change any more.
use sec_opent.Prelude.{
  true, false, Option, none, some, String, List, ◌≡◌, ◌⊎◌, inl, inr, refl, arith, string_eq, ◌==◌,
  Option-cases,
}
use sec_opent.Prelude.Dict.{lookup}
use sec_opent.Prelude.Text.{Text}
use sec_opent.Prelude.Raises.{Result, ok, err, Result-cases}
use sec_opent.Scope.{ScopeSnapshot}
use sec_opent.Grants.{GrantDecision}
use sec_opent.Assessment.{status_eq, PlanStep, Approval, Assessment}
use sec_opent.Prelude.Action.{◌>>◌}
use sec_opent.Service.{
  Store, Env, Method, record_approval, approve, reject, enqueue, start, approver, gate,
  active_steps, require_human, authorize_via_grant,
}
use sec_opent.Service.Outcomes.{Raised, is_err}

module _ (env : Env) (role id : String) (s : Store) where
  -- Without a grant, a caller whose role is not "human" can neither approve nor start nor reject: the
  -- call raises AssessmentPermissionError and the store stays as it is.
  pub not_human-refused :
      (request : Approval) (reason : Text)
      → (role == "human") ≡ false
      → Raised (approve env id request role none) s
        × Raised (start env id role none) s
        × Raised (reject env id reason role) s
  unfolding approve start reject gate require_human
  not_human-refused request reason h =
      ((ground arith, ground arith), (ground arith, ground arith), (ground arith, ground arith))

  -- What a grant has granted for an assessment at the time of the call.
  pub record Granted (grant_id : String) : Type 0 where
    pub assessment : Assessment
    pub scopes : String → Option ScopeSnapshot
    pub scope : ScopeSnapshot
    pub authorize : String → ScopeSnapshot → List PlanStep → Result GrantDecision
    pub decision : GrantDecision
    pub configured : env.authorize ≡ some authorize
    pub stored : lookup id s.assessments ≡ some assessment
    pub scope_repo : env.scope_repo ≡ some scopes
    pub scope_stored : scopes assessment.scope_snapshot_id ≡ some scope
    pub decided : authorize grant_id scope (active_steps env s assessment) ≡ ok decision
    pub allowed : decision.allowed ≡ true

  authorize_via_grant-Granted :
      (grant_id : String)
      → is_err (authorize_via_grant env grant_id id s).0 ≡ false
      → Granted grant_id
  unfolding authorize_via_grant
  authorize_via_grant-Granted grant_id h = elim (Option-cases env.authorize) [
    | inl n ↦ absurd (ground arith)
    | inr (f, q) ↦ elim (Option-cases env.scope_repo) [
      | inl n ↦ absurd (ground arith)
      | inr (scopes, r) ↦ elim (Option-cases (lookup id s.assessments)) [
        | inl n ↦ absurd (ground arith)
        | inr (a, e) ↦ elim (Option-cases (scopes a.scope_snapshot_id)) [
          | inl n ↦ absurd (ground arith)
          | inr (scope, t) ↦ elim (Result-cases (f grant_id scope (active_steps env s a))) [
            | inr (x, n) ↦ absurd (ground arith)
            | inl (d, g) ↦ record {
              assessment = a;
              scopes = scopes;
              scope = scope;
              authorize = f;
              decision = d;
              configured = q;
              scope_repo = r;
              stored = e;
              scope_stored = t;
              decided = g;
              allowed = ground arith;
            }
          ]
        ]
      ]
    ]
  ]

  gated_ok :
      {A : Type 0} (m : Method A) (grant_id : Option String)
      → is_err ((gate env grant_id role id >> m) s).0 ≡ false
      → is_err (gate env grant_id role id s).0 ≡ false
  gated_ok {A} m grant_id h = go (gate env grant_id role id s) h
    where
      go :
          (r : Result (Unit {0}) × Store)
          → is_err
              (let x : Result A × Store = elim (r.0) [ ok u ↦ m r.1 | err e ↦ (err e, r.1) ] in x).0
            ≡ false
          → is_err r.0 ≡ false
      go (ok u, t) e = refl
      go (err x, t) e = e

  -- A start or an approval under a grant succeeds only if the grant service allows, at that moment,
  -- the scope of the stored assessment and the steps of its active plan.
  pub under_grant-Granted :
      (grant_id : String) (request : Approval)
      → (is_err (start env id role (some grant_id) s).0 ≡ false)
        ⊎ (is_err (approve env id request role (some grant_id) s).0 ≡ false)
      → Granted grant_id
  unfolding start approve gate
  under_grant-Granted grant_id request (inl h) =
      authorize_via_grant-Granted grant_id (gated_ok (enqueue env id) (some grant_id) h)
  under_grant-Granted grant_id request (inr h) =
      let r : Approval = record request {
        approved_by = approver env (some grant_id) request.approved_by;
      } in
      authorize_via_grant-Granted grant_id (gated_ok (record_approval env id r) (some grant_id) h)
