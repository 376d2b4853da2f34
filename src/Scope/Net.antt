-- ===== src/Scope/Net.antt =====
-- What the scope code calls of Python's library (ipaddress, urllib.parse, posixpath, str methods
-- over all of Unicode): an argument of every definition that uses it.
use sec_opent.Prelude.{Bool, Option}
use sec_opent.Prelude.Text.{Text}
use sec_opent.Prelude.Int.{ℤ}
use sec_opent.Prelude.Raises.{Result}

-- An `ipaddress.ip_address` value: its `str()` and the flags that are read.
pub record Address : Type 0 where
  pub text : Text
  pub is_loopback : Bool
  pub is_link_local : Bool
  pub is_unspecified : Bool
  pub is_multicast : Bool

-- An `ipaddress.ip_network` value: its `str()` and the test `address in network`.
pub record Network : Type 0 where
  pub text : Text
  pub contains : Address → Bool

-- The parts of a `urlsplit` result. `port` raises ValueError on a bad port.
pub record SplitUrl : Type 0 where
  pub scheme : Text
  pub hostname : Option Text
  pub port : Result (Option ℤ)
  pub path : Text
  pub query : Text

pub record NetLib : Type 0 where
  -- `None` stands for the ValueError that callers catch.
  pub ip_address : Text → Option Address
  pub ip_network : Text → Option Network
  pub urlsplit : Text → Result SplitUrl
  -- `urlunsplit` of scheme, netloc, path and query, with no fragment.
  pub urlunsplit : Text → Text → Text → Text → Text
  pub normpath : Text → Text
  pub strip : Text → Text
  pub lower : Text → Text
  pub is_alnum : Text → Bool
  -- `s.encode("idna").decode("ascii")`; `None` for UnicodeError.
  pub idna : Text → Option Text
  pub str_int : ℤ → Text
  -- `int(s)`; `None` for ValueError.
  pub parse_int : Text → Option ℤ
