-- ===== src/Enforcer/Chain.antt =====
-- What the chain guarantees of a target that it lets through.
use sec_opent.Prelude.{
  true, false, Option, none, some, List, [], ◌∷◌, All, elem, ◌≡◌, ◌≢◌, refl, sym, ap, arith,
}
use sec_opent.Prelude.Int.{ℤ, pos, leb_ℤ}
use sec_opent.Prelude.Text.{Text}
use sec_opent.Prelude.Raises.{ok, ok->>=}
use sec_opent.Risk.{RiskClass, risk_eq, PolicyDecision}
use sec_opent.Scope.{
  NetLib, ScopeSnapshot, null, includes_port, includes_ip, excludes_host, includes_host,
}
use sec_opent.Policy.{allow}
use sec_opent.Enforcer.{
  EnforcementContext, outside_window, check_context, check_port, split_target, is_blocked_ip,
  resolve, recheck, check_resolved, check_host, check,
}

-- What the context of an allowed check satisfies.
pub record ContextAllows (c : EnforcementContext) : Type 0 where
  pub in_window : outside_window c ≡ false
  pub not_destructive : c.risk ≢ RiskClass.destructive
  pub risk_approved : elem c.risk c.approved_risks ≡ true
  pub approved : c.approved ≡ true
  pub budget_left : leb_ℤ c.budget_remaining (pos 0) ≡ false
  pub permit_valid : c.permit_valid ≡ true

check_context-allows : (c : EnforcementContext) → check_context c ≡ allow → ContextAllows c
unfolding check_context
check_context-allows c h = ground arith

allows-check_context : (c : EnforcementContext) → ContextAllows c → check_context c ≡ allow
unfolding check_context
allows-check_context c h = ground arith

abbrev pub PortAllowed : ScopeSnapshot → Option ℤ → Type 0
PortAllowed scope none = Unit
PortAllowed scope (some port) = includes_port scope port ≡ ok true

module _ (net : NetLib) (scope : ScopeSnapshot) where
  abbrev pub SafeAddress : Text → Type 0
  SafeAddress ip = (is_blocked_ip net ip ≡ ok false) × (includes_ip net scope ip ≡ ok true)

module _ (net : NetLib) (dns : Text → List Text) (scope : ScopeSnapshot)
    (c : EnforcementContext) where
  -- What a target satisfies that was split into a host and a port and let through.
  pub record Cleared (target host : Text) (port : Option ℤ) : Type 0 where
    pub split : split_target net target ≡ ok (host, port)
    pub named : null host ≡ false
    pub not_excluded : excludes_host net scope host ≡ ok false
    pub included : includes_host net scope host ≡ ok true
    pub resolves : resolve net dns scope c host ≢ []
    pub safe : All (SafeAddress net scope) (resolve net dns scope c host)
    pub port_allowed : PortAllowed scope port
    pub context : ContextAllows c

  recheck-safe :
      (ips : List Text) → recheck net dns scope c ips ≡ ok none → All (SafeAddress net scope) ips
  unfolding recheck
  recheck-safe [] h = tt
  recheck-safe (ip ∷ ips) h = ground (arith, recheck-safe ips)

  safe-recheck :
      (ips : List Text) → All (SafeAddress net scope) ips → recheck net dns scope c ips ≡ ok none
  unfolding recheck
  safe-recheck [] h = refl
  safe-recheck (ip ∷ ips) h = ground (arith, safe-recheck ips)

  -- No address that the check of step 5 refuses is answered by an allowed decision.
  recheck_denies :
      (ips : List Text) (d : PolicyDecision)
      → recheck net dns scope c ips ≡ ok (some d)
      → d.allowed ≡ false
  unfolding recheck
  recheck_denies [] d h = cc
  recheck_denies (ip ∷ ips) d h = ground (arith, recheck_denies ips d)

  check_port-allows :
      (port : Option ℤ)
      → check_port scope c port ≡ ok allow
      → PortAllowed scope port × ContextAllows c
  unfolding check_port
  check_port-allows none h = (tt, check_context-allows c (ground arith))
  check_port-allows (some p) h = ground (arith, check_context-allows c)

  allows-check_port :
      (port : Option ℤ)
      → PortAllowed scope port
      → ContextAllows c
      → check_port scope c port ≡ ok allow
  unfolding check_port
  allows-check_port none h k = ap ok (allows-check_context c k)
  allows-check_port (some p) h k = rw (h, allows-check_context c k)

  check_resolved-allows :
      (port : Option ℤ) (ips : List Text)
      → check_resolved net dns scope c port ips ≡ ok allow
      → (ips ≢ []) × (recheck net dns scope c ips ≡ ok none) × (check_port scope c port ≡ ok allow)
  unfolding check_resolved
  check_resolved-allows port [] h = cc
  check_resolved-allows port (ip ∷ ips) h = ground (arith, recheck_denies (ip ∷ ips) allow)

  check_host-allows :
      (host : Text) (port : Option ℤ)
      → check_host net dns scope c host port ≡ ok allow
      → (excludes_host net scope host ≡ ok false)
        × (includes_host net scope host ≡ ok true)
        × (check_resolved net dns scope c port (resolve net dns scope c host) ≡ ok allow)
  unfolding check_host
  check_host-allows host port h = ground arith

  -- A target is let through only if it names a host that no exclude rule fits and an include rule
  -- fits, that resolves to at least one address, each in scope and none of a blocked kind, with a
  -- port in scope if it has one, in the time window, at an approved and not destructive risk, with
  -- an approval, budget left and a valid permit.
  pub check-Cleared :
      (target : Text)
      → check net dns scope c target ≡ ok allow
      → (host : Text) × (port : Option ℤ) × Cleared target host port
  unfolding check
  check-Cleared target h =
      let (s, k, e) = ok->>= (split_target net target) _ (sym h) in
      let j : (null s.0 ≡ false) × (check_host net dns scope c s.0 s.1 ≡ ok allow) = ground arith in
      let a = check_host-allows s.0 s.1 j.1 in
      let b = check_resolved-allows s.1 (resolve net dns scope c s.0) a.2 in
      let d = check_port-allows s.1 b.2 in
      (
        s.0,
        s.1,
        record {
          split = e;
          named = j.0;
          not_excluded = a.0;
          included = a.1;
          resolves = b.0;
          safe = recheck-safe _ b.1;
          port_allowed = d.0;
          context = d.1;
        },
      )

  -- Every target that satisfies those conditions is let through.
  pub Cleared-check :
      (target host : Text) (port : Option ℤ)
      → Cleared target host port
      → check net dns scope c target ≡ ok allow
  unfolding check check_host check_resolved
  Cleared-check target host port k =
      rw (k.split, k.named, k.not_excluded, k.included)
        (go (resolve net dns scope c host) k.resolves k.safe)
    where
      go :
          (ips : List Text)
          → ips ≢ []
          → All (SafeAddress net scope) ips
          → check_resolved net dns scope c port ips ≡ ok allow
      go [] n s = absurd (n refl)
      go (ip ∷ ips) n s =
          rw (safe-recheck (ip ∷ ips) s) (allows-check_port port k.port_allowed k.context)
