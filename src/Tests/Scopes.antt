-- ===== src/Tests/Scopes.antt =====
-- Scope, policy and grants at concrete inputs.
use sec_opent.Prelude.{true, ◌≡◌, ◌↔◌, refl, some, List, [], ◌∷◌}
use sec_opent.Prelude.Int.{pos}
use sec_opent.Prelude.Dict.{lookup}
use sec_opent.Prelude.Text.{Text, codes}
use sec_opent.Prelude.Raises.{ok}
use sec_opent.Risk.{RiskClass, risk_eq}
use sec_opent.Policy.{ActionRequest, allow, evaluate, in_scope, decide_approved}
use sec_opent.Policy.Decides.{IsPermitted, evaluate_allows_iff}
use sec_opent.Scope.{host_matches, target_matches}
use sec_opent.Enforcer.{
  EnforcementContext, check, check_host, check_resolved, check_port, check_context, recheck,
  resolve, split_target, is_blocked_ip,
}
use sec_opent.Enforcer.Chain.{Cleared, check-Cleared}
use sec_opent.Grants.{EngagementGrant, Grants, GrantStatus, granted, denied, authorize, revoke}
use sec_opent.Grants.Authority.{Authorizes, authorize_iff}
use sec_opent.Grants.Lifecycle.{revoked-authorizes_nothing}
use sec_opent.Tests.Data.{page, net, scope, steps}

abbrev context : EnforcementContext
context = record {
  risk = RiskClass.low;
  approved_risks = RiskClass.low ∷ [];
  approved = true;
  budget_remaining = pos 5;
  now_hour = 12;
  time_window = some (pos 9, pos 17);
  permit_valid = true;
}

abbrev no_dns : Text → List Text
no_dns t = []

abbrev target : Text
target = codes "10.0.0.5:443"

check-Cleared_example : (h : Text) × (port : _) × Cleared net no_dns scope context target h port
unfolding check split_target check_host sec_opent.Scope.excludes_host sec_opent.Scope.matches_any
    sec_opent.Scope.includes_host target_matches check_resolved resolve recheck is_blocked_ip
    sec_opent.Scope.includes_ip sec_opent.Scope.normalize_ip_or_network check_port
    sec_opent.Scope.includes_port check_context
check-Cleared_example = check-Cleared net no_dns scope context target refl

abbrev request : ActionRequest
request = record { target = page; port = pos 443; risk = RiskClass.active; capability = "scan" }

evaluate_allows_iff_example :
    (evaluate net request scope (RiskClass.active ∷ []) ("scan" ∷ []) ≡ ok allow)
    ↔ IsPermitted net request scope (RiskClass.active ∷ []) ("scan" ∷ [])
evaluate_allows_iff_example =
    evaluate_allows_iff net request scope (RiskClass.active ∷ []) ("scan" ∷ [])

-- The request of that example is allowed.
allowed_request : evaluate net request scope (RiskClass.active ∷ []) ("scan" ∷ []) ≡ ok allow
unfolding evaluate in_scope sec_opent.Scope.includes_port sec_opent.Scope.includes_url
    sec_opent.Scope.normalize_url target_matches decide_approved
allowed_request = refl

abbrev grant : EngagementGrant
grant = record {
  id = "grant";
  project_id = "project";
  name = codes "pentest";
  scope = scope;
  risk_caps = RiskClass.low ∷ [];
  valid_from = 10;
  valid_to = 20;
  created_by = "human";
  created_at = 5;
  status = GrantStatus.active;
  digest = "";
}

abbrev grants : Grants
grants = ("grant", grant) ∷ []

authorize_iff_example :
    (authorize net grants "grant" scope steps 15 ≡ ok granted)
    ↔ ((g : EngagementGrant) × (lookup "grant" grants ≡ some g) × Authorizes net g scope steps 15)
authorize_iff_example = authorize_iff net grants "grant" scope steps 15

-- The grant of that example authorizes.
authorized_now : authorize net grants "grant" scope steps 15 ≡ ok granted
unfolding authorize sec_opent.Grants.is_active_at sec_opent.Grants.covers_scope
    sec_opent.Grants.matches_boundary sec_opent.Scope.includes_url sec_opent.Scope.normalize_url
    sec_opent.Scope.includes_ip sec_opent.Scope.normalize_ip_or_network sec_opent.Scope.matches_any
    target_matches sec_opent.Grants.covers_risks
authorized_now = refl

revoked-authorizes_nothing_example :
    authorize net (revoke "grant" "human" grants).1 "grant" scope steps 15
    ≡ ok (denied "GRANT_INACTIVE")
revoked-authorizes_nothing_example =
    revoked-authorizes_nothing net grants "grant" grant scope steps 15 refl refl
