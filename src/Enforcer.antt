-- ===== src/Enforcer.antt =====
-- src/secopent/application/scope_enforcer.py: the ten-step chain that runs before a target is
-- touched. The source's one method is cut at its numbered comments.
pub mod Chain
use sec_opent.Prelude.{
  ℕ, Bool, true, false, not, ◌&&◌, ◌||◌, Option, none, some, String, List, [], ◌∷◌, elem, nat_eq,
  if◌then◌else◌, nat_beq,
}
use sec_opent.Prelude.Int.{ℤ, pos, leb_ℤ, ltb_ℤ, int_beq}
use sec_opent.Prelude.Text.{Text, codes, list_beq}
use sec_opent.Prelude.Raises.{Result, ok, err, value_error, ◌>>=◌, or_raise}
use sec_opent.Risk.{RiskClass, risk_eq, PolicyDecision}
use sec_opent.Scope.{
  NetLib, Address, SplitUrl, ScopeSnapshot, null, is_http_rule, host_or_empty, includes_port,
  includes_ip, excludes_host, includes_host,
}
use sec_opent.Policy.{deny, allow}

-- `now` is read by its hour only.
pub record EnforcementContext : Type 0 where
  pub risk : RiskClass
  pub approved_risks : List RiskClass
  pub approved : Bool
  pub budget_remaining : ℤ
  pub now_hour : ℕ
  pub time_window : Option (ℤ × ℤ)
  pub permit_valid : Bool

-- `s.rpartition(c)`, where `none` says that the separator is missing.
abbrev pub rpartition : ℕ → Text → Option (Text × Text)
rpartition c [] = none
rpartition c (x ∷ xs) = elim (rpartition c xs) [
  | some (a, b) ↦ some (x ∷ a, b)
  | none ↦ if nat_beq x c then some ([], xs) else none
]

-- `parsed.port or (443 if ... else 80)`: a port 0 counts as none.
abbrev pub default_port : Text → ℤ
default_port scheme = if list_beq scheme (codes "https") then pos 443 else pos 80

abbrev pub port_or_default : Text → Option ℤ → ℤ
port_or_default scheme none = default_port scheme
port_or_default scheme (some p) = if int_beq p (pos 0) then default_port scheme else p

-- Steps 7 to 10, which read the context alone.
abbrev pub outside_window : EnforcementContext → Bool
outside_window c = elim (c.time_window) [
  | none ↦ false
  | some (start, end) ↦ not (leb_ℤ start (pos c.now_hour) && ltb_ℤ (pos c.now_hour) end)
]

unfoldable pub check_context : EnforcementContext → PolicyDecision
check_context c =
    if outside_window c
    then deny "OUTSIDE_TIME_WINDOW"
    else if elem c.risk (RiskClass.destructive ∷ [])
    then deny "DESTRUCTIVE_DENIED"
    else if not (elem c.risk c.approved_risks)
    then deny "RISK_NOT_APPROVED"
    else if not c.approved
    then deny "NOT_APPROVED"
    else if leb_ℤ c.budget_remaining (pos 0)
    then deny "BUDGET_EXHAUSTED"
    else if not c.permit_valid
    then deny "PERMIT_INVALID"
    else allow

-- Step 6.
unfoldable pub check_port : ScopeSnapshot → EnforcementContext → Option ℤ → Result PolicyDecision
check_port scope c none = ok (check_context c)
check_port scope c (some port) = do
  fits ← includes_port scope port
  ok (if fits then check_context c else deny "PORT_NOT_ALLOWED")

module _ (net : NetLib) where
  unfoldable pub split_target : Text → Result (Text × Option ℤ)
  split_target target =
      if is_http_rule target
      then (do
        parsed ← net.urlsplit target
        port ← parsed.port
        ok (host_or_empty parsed, some (port_or_default parsed.scheme port)))
      else elim (rpartition b':' target) [
        | none ↦ ok (target, none)
        | some (host, port_str) ↦ elim (net.parse_int port_str) [
          | some port ↦ ok (host, some port)
          | none ↦ ok (target, none)
        ]
      ]

  unfoldable pub is_blocked_ip : Text → Result Bool
  is_blocked_ip ip = do
    addr ←
        or_raise (net.ip_address ip) (value_error "does not appear to be an IPv4 or IPv6 address")
    ok (addr.is_loopback || addr.is_link_local || addr.is_unspecified || addr.is_multicast)

  module _ (dns : Text → List Text) (scope : ScopeSnapshot) (c : EnforcementContext) where
    -- Step 4: an address resolves to itself.
    unfoldable pub resolve : Text → List Text
    resolve host = elim (net.ip_address host) [ some a ↦ host ∷ [] | none ↦ dns host ]

    -- Step 5: the verdict of the first address that fails.
    unfoldable pub recheck : List Text → Result (Option PolicyDecision)
    recheck [] = ok none
    recheck (ip ∷ ips) =
        let rest = recheck ips in
        do
          blocked ← is_blocked_ip ip
          if blocked then ok (some (deny "REBINDING_BLOCKED")) else do
            inside ← includes_ip net scope ip
            if not inside then ok (some (deny "RESOLVED_IP_OUT_OF_SCOPE")) else rest

    -- Steps 4 to 10.
    unfoldable pub check_resolved : Option ℤ → List Text → Result PolicyDecision
    check_resolved port [] = ok (deny "DNS_RESOLUTION_FAILED")
    check_resolved port (ip ∷ ips) = do
      verdict ← recheck (ip ∷ ips)
      elim verdict [ some d ↦ ok d | none ↦ check_port scope c port ]

    -- Steps 2 to 10, for a host that was split off.
    unfoldable pub check_host : Text → Option ℤ → Result PolicyDecision
    check_host host port = do
      excluded ← excludes_host net scope host
      if excluded then ok (deny "EXPLICIT_DENY") else do
        included ← includes_host net scope host
        if not included then ok (deny "NOT_INCLUDED") else check_resolved port (resolve host)

    unfoldable pub check : Text → Result PolicyDecision
    check target = do
      split ← split_target target
      if null split.0 then ok (deny "INVALID_TARGET") else check_host split.0 split.1
