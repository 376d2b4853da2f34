-- ===== src/Scope/Snapshot.antt =====
-- src/secopent/domain/scope/models.py: limits, and the snapshot with its matchers.
use sec_opent.Prelude.{
  ℕ, Bool, true, false, not, ◌&&◌, ◌||◌, none, some, List, [], ◌++◌, if◌then◌else◌, elem, nat_eq,
  String,
}
use sec_opent.Prelude.Text.{Text, codes, is_prefix, is_suffix, list_beq, drop_codes, text_eq}
use sec_opent.Prelude.Int.{ℤ, pos, leb_ℤ, int_eq}
use sec_opent.Prelude.Raises.{Result, ok, err, validation, ◌>>=◌, ◌>>◌, raise_if, any_or_raise}
use sec_opent.Scope.Net.{NetLib, SplitUrl, Network}
use sec_opent.Scope.Normalize.{
  null, normalize_domain, normalize_ip_or_network, normalize_url, normalize_port,
  normalize_cloud_account,
}

-- `requests_per_second` is a float that is only compared with 0: it is kept in thousandths.
pub record ScopeLimits : Type 0 where
  pub requests_per_second : ℤ
  pub concurrency : ℤ
  pub max_requests : ℤ

-- `ScopeLimits.__post_init__`
unfoldable pub make_limits : ℤ → ℤ → ℤ → Result ScopeLimits
make_limits rate concurrency max_requests =
    if leb_ℤ rate (pos 0) || leb_ℤ concurrency (pos 0) || leb_ℤ max_requests (pos 0)
    then err (validation "scope limits must be positive")
    else ok (record {
      requests_per_second = rate;
      concurrency = concurrency;
      max_requests = max_requests;
    })

pub record ScopeSnapshot : Type 0 where
  pub id : String
  pub project_id : String
  pub include : List Text
  pub exclude : List Text
  pub ports : List ℤ
  pub limits : ScopeLimits
  pub approved_by : String
  pub approved_at : ℕ
  pub digest : String
  pub cloud_accounts : List Text

unfoldable pub domain_matches : Text → Text → Bool
domain_matches rule domain =
    if is_prefix (codes "*.") rule
    then (let suffix = drop_codes 2 rule in
        is_suffix (codes "." ++ suffix) domain && not (list_beq domain suffix))
    else list_beq domain rule

abbrev pub is_http_rule : Text → Bool
is_http_rule rule = is_prefix (codes "http://") rule || is_prefix (codes "https://") rule

-- `urlsplit(value).hostname or ""`
abbrev pub host_or_empty : SplitUrl → Text
host_or_empty u = elim (u.hostname) [ none ↦ [] | some h ↦ h ]

module _ (net : NetLib) where
  -- `ipaddress.ip_address(value) in network`, where a bad address is no member.
  abbrev pub in_network : Network → Text → Bool
  in_network network value = elim (net.ip_address value) [
    | none ↦ false
    | some address ↦ network.contains address
  ]

  unfoldable pub host_matches : Text → Text → Bool
  unfolding domain_matches
  host_matches rule_host value_host =
      if domain_matches rule_host value_host then true else elim (net.ip_network rule_host) [
        | none ↦ false
        | some network ↦ in_network network value_host
      ]

  -- The branch of `_target_matches` for an HTTP rule.
  http_rule_matches : Text → Text → Result Bool
  unfolding host_matches
  http_rule_matches rule value = do
    parsed ← net.urlsplit rule
    let rule_host = host_or_empty parsed
    value_host ← value_host_of rule_host value
    ok (if null rule_host || null value_host then false else host_matches rule_host value_host)
    where
      value_host_of : Text → Text → Result Text
      value_host_of rule_host v =
          if null rule_host || not (is_http_rule v)
          then ok v
          else (do u ← net.urlsplit v; ok (host_or_empty u))

  unfoldable pub target_matches : Text → Text → Result Bool
  unfolding http_rule_matches domain_matches
  target_matches rule value =
      if is_http_rule rule then http_rule_matches rule value else elim (net.ip_network rule) [
        | none ↦ do domain ← normalize_domain net value; ok (domain_matches rule domain)
        | some network ↦ ok (in_network network value)
      ]

  unfoldable pub matches_any : Text → List Text → Result Bool
  matches_any host rules = any_or_raise (λ rule. target_matches rule host) rules

  -- `not any(exclude) and any(include)`: the include rules are read only if no exclude rule fits.
  abbrev pub deny_first : Result Bool → Result Bool → Result Bool
  deny_first excluded included = elim excluded [
    | ok true ↦ ok false
    | ok false ↦ included
    | err e ↦ err e
  ]

  module _ (s : ScopeSnapshot) where
    unfoldable pub includes_host : Text → Result Bool
    includes_host host = deny_first (matches_any host s.exclude) (matches_any host s.include)

    unfoldable pub excludes_host : Text → Result Bool
    excludes_host host = matches_any host s.exclude

    unfoldable pub includes_ip : Text → Result Bool
    includes_ip value = do
      normalized ← normalize_ip_or_network net value
      raise_if (elem b'/' normalized) (validation "target must be a single IP")
      deny_first (matches_any normalized s.exclude) (matches_any normalized s.include)

    unfoldable pub includes_domain : Text → Result Bool
    includes_domain value = do
      normalized ← normalize_domain net value
      deny_first (matches_any normalized s.exclude) (matches_any normalized s.include)

    -- The local `matches` of `includes_url`.
    unfoldable pub url_rule_matches : Text → Text → Text → Result Bool
    url_rule_matches normalized host rule =
        if is_http_rule rule then ok (is_prefix rule normalized) else target_matches rule host

    unfoldable pub includes_url : Text → Result Bool
    unfolding url_rule_matches
    includes_url value = do
      normalized ← normalize_url net value
      parsed ← net.urlsplit normalized
      let host = host_or_empty parsed
      deny_first (any_or_raise (url_rule_matches normalized host) s.exclude)
          (any_or_raise (url_rule_matches normalized host) s.include)

    -- A rule that is no cloud account is passed over.
    abbrev same_account : Text → Text → Result Bool
    same_account normalized rule = elim (normalize_cloud_account net rule) [
      | ok account ↦ ok (list_beq account normalized)
      | err e ↦ ok false
    ]

    unfoldable pub includes_cloud_account : Text → Result Bool
    includes_cloud_account value = do
      normalized ← normalize_cloud_account net value
      deny_first (any_or_raise (same_account normalized) s.exclude)
          (ok (elem normalized s.cloud_accounts))

unfoldable pub includes_port : ScopeSnapshot → ℤ → Result Bool
unfolding normalize_port
includes_port s value = do port ← normalize_port value; ok (elem port s.ports)
