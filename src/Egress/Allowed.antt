-- ===== src/Egress/Allowed.antt =====
-- src/secopent/infrastructure/egress/egress_guard.py: which connections are let through.
use sec_opent.Prelude.{
  true, false, Option, none, some, List, [], ◌∷◌, All, ◌≡◌, ◌≢◌, ◌↔◌, refl, sym, arith,
}
use sec_opent.Prelude.Int.{ℤ}
use sec_opent.Prelude.Text.{Text}
use sec_opent.Prelude.Raises.{ok, ok->>=}
use sec_opent.Policy.{allow}
use sec_opent.Scope.{NetLib, ScopeSnapshot, null, includes_ip}
use sec_opent.Enforcer.{split_target}
use sec_opent.Enforcer.Chain.{PortAllowed}
use sec_opent.Egress.{
  EgressGuard, is_blocked_destination, resolved, check_port, check_addresses, check_resolved,
  check_host, check,
}

module _ (net : NetLib) (guard : EgressGuard) (scope : ScopeSnapshot) where
  -- The address is in no blocked network, and in scope.
  abbrev pub Reachable : Text → Type 0
  Reachable ip =
      (is_blocked_destination net guard ip ≡ false) × (includes_ip net scope ip ≡ ok true)

  -- What a connection satisfies that is let through.
  pub record Open (target host : Text) (port : Option ℤ) : Type 0 where
    pub split : split_target net target ≡ ok (host, port)
    pub named : null host ≡ false
    pub resolves : resolved net guard host ≢ []
    pub reachable : All Reachable (resolved net guard host)
    pub port_allowed : PortAllowed scope port

  check_port_iff :
      (port : Option ℤ) → (check_port net guard scope port ≡ ok allow) ↔ PortAllowed scope port
  unfolding check_port
  check_port_iff none = (λ h. tt, λ h. refl)
  check_port_iff (some p) = (λ h. ground arith, λ h. ground (arith, h))

  check_addresses_step :
      (port : Option ℤ) (ip : Text) (ips : List Text)
      → (check_addresses net guard scope port (ip ∷ ips) ≡ ok allow)
        ↔ (Reachable ip × (check_addresses net guard scope port ips ≡ ok allow))
  unfolding check_addresses
  check_addresses_step port ip ips = (
    λ h. ((ground (arith, h), ground (arith, h)), ground (arith, h)),
    λ h. ground (arith, h.0.0, h.0.1, h.1),
  )

  check_addresses_iff :
      (port : Option ℤ) (ips : List Text)
      → (check_addresses net guard scope port ips ≡ ok allow)
        ↔ (All Reachable ips × PortAllowed scope port)
  check_addresses_iff port [] =
      unfold check_addresses in
      (λ h. (tt, (check_port_iff port).0 h), λ h. (check_port_iff port).1 h.1)
  check_addresses_iff port (ip ∷ ips) =
      let (f, g) = check_addresses_iff port ips in
      let (s, t) = check_addresses_step port ip ips in
      (λ h. let (r, k) = s h in let (a, p) = f k in ((r, a), p), λ h. t (h.0.0, g (h.0.1, h.1)))

  check_resolved_iff :
      (port : Option ℤ) (ips : List Text)
      → (check_resolved net guard scope port ips ≡ ok allow)
        ↔ ((ips ≢ []) × All Reachable ips × PortAllowed scope port)
  unfolding check_resolved
  check_resolved_iff port [] = (λ h. absurd (ground (arith, h)), λ h. absurd (h.0 refl))
  check_resolved_iff port (ip ∷ ips) =
      let (f, g) = check_addresses_iff port (ip ∷ ips) in
      (λ h. let (a, p) = f h in (λ e. absurd (cc e), a, p), λ h. g (h.1, h.2))

  check_host_iff :
      (host : Text) (port : Option ℤ)
      → (check_host net guard scope host port ≡ ok allow) ↔ (
          (null host ≡ false)
          × (check_resolved net guard scope port (resolved net guard host) ≡ ok allow))
  unfolding check_host
  check_host_iff host port =
      (λ h. (ground (arith, h), ground (arith, h)), λ h. ground (arith, h.0, h.1))

  -- The guard lets a target through exactly if it splits into a named host and a port, the host resolves,
  -- each address it resolves to is in no blocked network and in scope, and the port, if there is one, is
  -- allowed.
  pub check_iff :
      (target : Text)
      → (check net guard scope target ≡ ok allow)
        ↔ ((host : Text) × (port : Option ℤ) × Open target host port)
  unfolding check
  check_iff target = (
    λ h.
        let (p, k, m) = ok->>= (split_target net target) _ (sym h) in
        let (named, r) = (check_host_iff p.0 p.1).0 k in
        let (some_ip, reachable, port) = (check_resolved_iff p.1 (resolved net guard p.0)).0 r in
        (
          p.0,
          p.1,
          record {
            split = m;
            named = named;
            resolves = some_ip;
            reachable = reachable;
            port_allowed = port;
          },
        ),
    λ (host, port, o). rw o.split (
        (check_host_iff host port).1 (
          o.named,
          (check_resolved_iff port (resolved net guard host)).1
              (o.resolves, o.reachable, o.port_allowed),
        )),
  )
