-- ===== src/Scope/Normalize.antt =====
-- src/secopent/domain/scope/normalize.py: canonical forms of domains, addresses, URLs, ports and
-- cloud accounts.
use sec_opent.Prelude.{
  ℕ, Bool, true, false, not, ◌&&◌, ◌||◌, Option, none, some, List, [], ◌∷◌, ◌++◌, nat_beq,
  if◌then◌else◌, any, elem, nat_eq, select,
}
use sec_opent.Prelude.Text.{Text, codes, is_prefix, is_suffix, list_beq, drop_codes, text_eq}
use sec_opent.Prelude.Int.{ℤ, pos, leb_ℤ, int_beq}
use sec_opent.Prelude.Raises.{Result, ok, err, validation, ◌>>=◌, ◌>>◌, raise_if, or_raise}
use sec_opent.Scope.Net.{NetLib}

abbrev pub null : Text → Bool
null [] = true
null (c ∷ cs) = false

-- `s.rstrip(c)` and `s.lstrip(c)` of one character.
abbrev pub rstrip : ℕ → Text → Text
rstrip c [] = []
rstrip c (x ∷ xs) = let rest = rstrip c xs in if nat_beq x c && null rest then [] else x ∷ rest

abbrev pub lstrip : ℕ → Text → Text
lstrip c [] = []
lstrip c (x ∷ xs) = let rest = lstrip c xs in if nat_beq x c then rest else x ∷ xs

-- `s.split(c)`
abbrev pub split_on : ℕ → Text → List Text
split_on c [] = [] ∷ []
split_on c (x ∷ xs) =
    let rest = split_on c xs in
    if nat_beq x c
    then [] ∷ rest
    else elim rest [ [] ↦ (x ∷ []) ∷ [] | label ∷ labels ↦ (x ∷ label) ∷ labels ]

-- `s.partition(c)`, where `none` says that the separator is missing.
abbrev pub partition : ℕ → Text → Option (Text × Text)
partition c [] = none
partition c (x ∷ xs) =
    let rest = partition c xs in
    if nat_beq x c then some ([], xs) else elim rest [ none ↦ none | some (a, b) ↦ some (x ∷ a, b) ]

-- `s.replace(c, "")`
abbrev pub remove : ℕ → Text → Text
remove c xs = select (λ x. not (nat_beq x c)) xs

module _ (net : NetLib) where
  -- `encoded = raw.encode("idna")...`, with its checks.
  encode_labels : Text → Result Text
  encode_labels raw = do
    encoded ← or_raise (net.idna raw) (validation "invalid domain")
    raise_if (null encoded || any null (split_on b'.' encoded)) (validation "invalid domain")
    ok encoded

  unfoldable pub normalize_domain : Text → Result Text
  unfolding encode_labels
  normalize_domain value =
      let domain = net.lower (rstrip b'.' (net.strip value)) in
      let wildcard = is_prefix (codes "*.") domain in
      do
        encoded ← encode_labels (if wildcard then drop_codes 2 domain else domain)
        ok (if wildcard then codes "*." ++ encoded else encoded)

  unfoldable pub normalize_ip_or_network : Text → Result Text
  normalize_ip_or_network value =
      if elem b'/' value
      then elim (net.ip_network (net.strip value)) [
        | none ↦ err (validation "invalid IP or CIDR")
        | some network ↦ ok network.text
      ]
      else elim (net.ip_address (net.strip value)) [
        | none ↦ err (validation "invalid IP or CIDR")
        | some address ↦ ok address.text
      ]

  abbrev pub is_http : Text → Bool
  is_http scheme = list_beq scheme (codes "http") || list_beq scheme (codes "https")

  -- The default port of the scheme is dropped.
  abbrev kept_port : Text → Option ℤ → Option ℤ
  kept_port scheme none = none
  kept_port scheme (some p) =
      if int_beq p (if list_beq scheme (codes "https") then pos 443 else pos 80)
      then none
      else some p

  abbrev netloc_of : Text → Option ℤ → Text
  netloc_of host none = host
  netloc_of host (some p) = host ++ (codes ":" ++ net.str_int p)

  abbrev clean_path : Text → Text
  clean_path raw =
      let path = net.normpath (b'/' ∷ lstrip b'/' raw) in
      if is_suffix (codes "/") raw && not (is_suffix (codes "/") path)
      then path ++ codes "/"
      else path

  unfoldable pub normalize_url : Text → Result Text
  unfolding normalize_domain
  normalize_url value = do
    parsed ← net.urlsplit (net.strip value)
    let scheme = net.lower parsed.scheme
    hostname ← or_raise parsed.hostname (validation "URL must use http or https")
    raise_if (not (is_http scheme) || null hostname) (validation "URL must use http or https")
    host ← normalize_domain hostname
    port ← parsed.port
    ok (
        net.urlunsplit scheme (netloc_of host (kept_port scheme port)) (clean_path parsed.path)
          parsed.query)

  unfoldable pub normalize_cloud_account : Text → Result Text
  normalize_cloud_account value = do
    parts ←
        or_raise (partition b':' (net.strip value))
          (validation "cloud account must be provider:account_id")
    let provider = net.lower (net.strip parts.0)
    let account = net.strip parts.1
    raise_if (null provider || null account)
        (validation "cloud account provider and id must be non-empty")
    raise_if (not (net.is_alnum (remove b'_' (remove b'-' provider))))
        (validation "invalid cloud provider")
    ok (provider ++ (codes ":" ++ account))

-- `bool` is no ℤ here, so only the range is left to test.
unfoldable pub normalize_port : ℤ → Result ℤ
normalize_port value =
    if leb_ℤ (pos 1) value && leb_ℤ value (pos 65535)
    then ok value
    else err (validation "port must be between 1 and 65535")
