-- ===== src/Egress.antt =====
-- src/secopent/infrastructure/egress/egress_guard.py: the last check before a connection is opened.
-- `_split_target` has the text of the scope enforcer's, which is used for it.
pub mod Allowed
use sec_opent.Prelude.{
  Bool, true, false, not, Option, none, some, List, [], ◌∷◌, any, if◌then◌else◌,
}
use sec_opent.Prelude.Int.{ℤ}
use sec_opent.Prelude.Text.{Text}
use sec_opent.Prelude.Raises.{Result, ok, err, ◌>>=◌}
use sec_opent.Risk.{PolicyDecision}
use sec_opent.Policy.{deny, allow}
use sec_opent.Scope.{NetLib, Network, Address, ScopeSnapshot, null, includes_ip, includes_port}
use sec_opent.Enforcer.{split_target}

-- `EgressGuard`, with the networks that its constructor parses.
pub record EgressGuard : Type 0 where
  pub dns : Text → List Text
  pub blocked : List Network

module _ (net : NetLib) (guard : EgressGuard) where
  -- An address that does not parse counts as blocked.
  unfoldable pub is_blocked_destination : Text → Bool
  is_blocked_destination ip = elim (net.ip_address ip) [
    | none ↦ true
    | some addr ↦ any (λ n. n.contains addr) guard.blocked
  ]

  abbrev pub resolved : Text → List Text
  resolved host = elim (net.ip_address host) [ some a ↦ host ∷ [] | none ↦ guard.dns host ]

  module _ (scope : ScopeSnapshot) where
    -- The end of `check`.
    unfoldable pub check_port : Option ℤ → Result PolicyDecision
    check_port none = ok allow
    check_port (some port) = do
      fits ← includes_port scope port
      ok (if fits then allow else deny "PORT_NOT_ALLOWED")

    -- The loop over the resolved addresses, with what follows it.
    unfoldable pub check_addresses : Option ℤ → List Text → Result PolicyDecision
    check_addresses port [] = check_port port
    check_addresses port (ip ∷ ips) =
        let rest = check_addresses port ips in
        if is_blocked_destination ip then ok (deny "BLOCKED_DESTINATION") else do
          inside ← includes_ip net scope ip
          if not inside then ok (deny "OUT_OF_SCOPE") else rest

    unfoldable pub check_resolved : Option ℤ → List Text → Result PolicyDecision
    check_resolved port [] = ok (deny "DNS_RESOLUTION_FAILED")
    check_resolved port (ip ∷ ips) = check_addresses port (ip ∷ ips)

    unfoldable pub check_host : Text → Option ℤ → Result PolicyDecision
    check_host host port =
        if null host then ok (deny "INVALID_TARGET") else check_resolved port (resolved host)

    unfoldable pub check : Text → Result PolicyDecision
    check target = do split ← split_target net target; check_host split.0 split.1
