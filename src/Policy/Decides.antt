-- ===== src/Policy/Decides.antt =====
-- When the policy engine allows a request.
use sec_opent.Prelude.{
  Bool, true, false, ◌≡◌, ◌≢◌, ◌↔◌, String, List, elem, string_eq, arith, sym, refl, Bool-cases,
  inl, inr,
}
use sec_opent.Prelude.Raises.{ok, ok->>=}
use sec_opent.Risk.{RiskClass, risk_eq}
use sec_opent.Scope.{NetLib, ScopeSnapshot, includes_port}
use sec_opent.Policy.Fits.{PortFits, UrlFits, includes_port_iff, includes_url_iff}
use sec_opent.Policy.{ActionRequest, evaluate, in_scope, decide_approved, allow}

-- Whether the risk of a request asks for a named capability.
abbrev pub needs_capability : RiskClass → Bool
needs_capability RiskClass.active = true
needs_capability RiskClass.intrusive = true
needs_capability r = false

-- What an allowed request satisfies.
pub record IsPermitted (net : NetLib) (q : ActionRequest) (s : ScopeSnapshot)
    (risks : List RiskClass) (caps : List String) : Type 0 where
  pub not_destructive : q.risk ≢ RiskClass.destructive
  pub port_fits : PortFits s q.port
  pub url_fits : UrlFits net s q.target
  pub risk_approved : elem q.risk risks ≡ true
  pub capability_approved : needs_capability q.risk ≡ true → elem q.capability caps ≡ true

module _ (net : NetLib) (q : ActionRequest) (s : ScopeSnapshot) (risks : List RiskClass)
    (caps : List String) where
  -- The scope's part of the engine, by port and by URL.
  in_scope_iff : (in_scope net q s ≡ ok true) ↔ (PortFits s q.port × UrlFits net s q.target)
  unfolding in_scope
  in_scope_iff =
      let port = includes_port_iff s q.port in
      let url = includes_url_iff net s q.target in
      (
        λ h.
            let (b, k, e) = ok->>= (includes_port s q.port) _ (sym h) in
            elim (Bool-cases b) [
              | inl t ↦ (port.0 (cc (e, t)), url.0 (ground (arith, k, t)))
              | inr f ↦ absurd (ground (arith, k, f))
            ],
        λ (p, u). rw (port.1 p, url.1 u) refl,
      )

  evaluate-IsPermitted : evaluate net q s risks caps ≡ ok allow → IsPermitted net q s risks caps
  unfolding evaluate decide_approved
  evaluate-IsPermitted h =
      let fits : in_scope net q s ≡ ok true = ground arith in
      record {
        not_destructive = ground arith;
        port_fits = (in_scope_iff.0 fits).0;
        url_fits = (in_scope_iff.0 fits).1;
        risk_approved = ground arith;
        capability_approved = ground arith;
      }

  IsPermitted-evaluate : IsPermitted net q s risks caps → evaluate net q s risks caps ≡ ok allow
  unfolding evaluate decide_approved
  IsPermitted-evaluate p =
      let fits = in_scope_iff.1 (p.port_fits, p.url_fits) in
      let d = p.not_destructive in
      let r = p.risk_approved in let c = p.capability_approved in ground (arith, fits, d, r, c)

  -- The engine allows a request exactly if it is not destructive, its port is between 1 and 65535 and
  -- named by the scope, its target is a URL that no exclude rule fits and an include rule fits, its risk is
  -- approved, and, when that risk is active or intrusive, its capability is approved.
  pub evaluate_allows_iff :
      (evaluate net q s risks caps ≡ ok allow) ↔ IsPermitted net q s risks caps
  evaluate_allows_iff = (evaluate-IsPermitted, IsPermitted-evaluate)
