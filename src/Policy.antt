-- ===== src/Policy.antt =====
-- src/secopent/domain/policy: requests and the policy engine.
pub mod Fits
pub mod Decides
use sec_opent.Prelude.{
  Bool, true, false, not, ◌&&◌, ◌||◌, String, List, [], ◌∷◌, elem, string_eq, if◌then◌else◌,
}
use sec_opent.Prelude.Int.{ℤ}
use sec_opent.Prelude.Text.{Text}
use sec_opent.Prelude.Raises.{Result, ok, err, ◌>>=◌}
use sec_opent.Risk.{RiskClass, risk_eq, PolicyDecision}
use sec_opent.Scope.{NetLib, ScopeSnapshot, includes_port, includes_url}

pub record ActionRequest : Type 0 where
  pub target : Text
  pub port : ℤ
  pub risk : RiskClass
  pub capability : String

abbrev pub deny : String → PolicyDecision
deny reason = record { allowed = false; reason = reason }

abbrev pub allow : PolicyDecision
allow = record { allowed = true; reason = "ALLOWED" }

-- The tests of `evaluate` that follow the scope's answer.
unfoldable pub decide_approved : ActionRequest → List RiskClass → List String → PolicyDecision
decide_approved request approved_risks approved_capabilities =
    if not (elem request.risk approved_risks)
    then deny "RISK_NOT_APPROVED"
    else if elem request.risk (RiskClass.active ∷ RiskClass.intrusive ∷ [])
        && not (elem request.capability approved_capabilities)
    then deny "CAPABILITY_NOT_APPROVED"
    else allow

module _ (net : NetLib) where
  -- `scope.includes_port(port) and scope.includes_url(target)`: the URL is read only if the port fits.
  unfoldable pub in_scope : ActionRequest → ScopeSnapshot → Result Bool
  in_scope request scope = do
    port_fits ← includes_port scope request.port
    if port_fits then includes_url net scope request.target else ok false

  unfoldable pub evaluate :
      ActionRequest → ScopeSnapshot → List RiskClass → List String → Result PolicyDecision
  evaluate request scope approved_risks approved_capabilities =
      if elem request.risk (RiskClass.destructive ∷ [])
      then ok (deny "DESTRUCTIVE_ACTION_DENIED")
      else do
        fits ← in_scope request scope
        ok (
            if fits
            then decide_approved request approved_risks approved_capabilities
            else deny "SCOPE_DENIED")
