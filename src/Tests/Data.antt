-- ===== src/Tests/Data.antt =====
-- The inputs of the tests: a host, a scope around it, and a small plan.
use sec_opent.Prelude.{true, false, none, some, List, [], ◌∷◌, ◌++◌, if◌then◌else◌, ◌==◌}
use sec_opent.Prelude.Int.{pos}
use sec_opent.Prelude.Text.{Text, codes, text_eq}
use sec_opent.Prelude.Raises.{ok}
use sec_opent.Risk.{RiskClass}
use sec_opent.Scope.{NetLib, Address, Network, SplitUrl, ScopeSnapshot}
use sec_opent.Assessment.{PlanStep}

abbrev pub host : Text
host = codes "10.0.0.5"

abbrev pub page : Text
page = codes "http://10.0.0.5/"

abbrev pub address : Address
address = record {
  text = host;
  is_loopback = false;
  is_link_local = false;
  is_unspecified = false;
  is_multicast = false;
}

abbrev pub network : Network
network = record { text = codes "10.0.0.5/32"; contains = λ a. a.text == host }

abbrev pub split_page : SplitUrl
split_page = record {
  scheme = codes "http";
  hostname = some host;
  port = ok none;
  path = codes "/";
  query = [];
}

abbrev pub split_other : SplitUrl
split_other = record { scheme = []; hostname = none; port = ok none; path = []; query = [] }

abbrev pub net : NetLib
net = record {
  ip_address = λ t. if t == host then some address else none;
  ip_network = λ t. if t == host then some network else none;
  urlsplit = λ t. if t == page then ok split_page else ok split_other;
  urlunsplit = λ scheme netloc path query. scheme ++ (codes "://" ++ (netloc ++ path));
  normpath = λ t. t;
  strip = λ t. t;
  lower = λ t. t;
  is_alnum = λ t. true;
  idna = λ t. some t;
  str_int = λ n. codes "8080";
  parse_int = λ t. if t == codes "443" then some (pos 443) else none;
}

abbrev pub scope : ScopeSnapshot
scope = record {
  id = "scope";
  project_id = "project";
  include = host ∷ [];
  exclude = [];
  ports = pos 443 ∷ [];
  limits = record { requests_per_second = pos 1000; concurrency = pos 1; max_requests = pos 9 };
  approved_by = "human";
  approved_at = 0;
  digest = "sha256:scope";
  cloud_accounts = [];
}

abbrev pub scan : PlanStep
scan = record {
  key = "scan";
  runner = "nmap";
  risk = RiskClass.low;
  parameters = [];
  dependencies = [];
}

abbrev pub probe : PlanStep
probe = record {
  key = "probe";
  runner = "nuclei";
  risk = RiskClass.low;
  parameters = [];
  dependencies = "scan" ∷ [];
}

abbrev pub steps : List PlanStep
steps = scan ∷ probe ∷ []
