-- ===== src/Oracle/Registry.antt =====
-- src/secopent/domain/verification/registry.py: the curated methods.
use sec_opent.Prelude.{ℕ, Bool, true, false, List, [], ◌∷◌, ◌≡◌, refl, some}
use sec_opent.Prelude.Raises.{ok}
use sec_opent.Oracle.{VulnType, VerificationMethod, RetryStrategy, check_method, method_for}

-- A method with the defaults of the dataclass.
abbrev pub method : VulnType → ℕ → ℕ → Bool → Bool → VerificationMethod
method v n window echo diff = record {
  vuln_type = v;
  default_n = n;
  retry_strategy = RetryStrategy.cross_worker;
  crosses_workers = true;
  server_error_threshold = 2;
  oob_window_seconds = window;
  echo_enabled = echo;
  diff_semantic = diff;
}

abbrev pub default_registry : List VerificationMethod
default_registry =
    method VulnType.sqli 5 0 false false
    ∷ method VulnType.rce 3 0 false false
    ∷ method VulnType.ssrf 3 30 false false
    ∷ method VulnType.xxe 3 30 false false
    ∷ method VulnType.xss 3 0 true false
    ∷ method VulnType.deserialization 3 30 false false
    ∷ method VulnType.file_read 3 0 false false
    ∷ method VulnType.auth_bypass 3 0 false true
    ∷ method VulnType.path_traversal 3 0 false false
    ∷ method VulnType.idor 3 0 false true
    ∷ method VulnType.param_tampering 3 0 false false
    ∷ method VulnType.mfa_bypass 3 0 false true
    ∷ method VulnType.weak_credentials 3 0 false false
    ∷ method VulnType.privilege_escalation 3 0 false true
    ∷ []

-- Every vulnerability class has a method in the default registry, and that method passes the
-- checks of its constructor.
pub default_registry_curates :
    (v : VulnType)
    → (m : VerificationMethod) × (method_for default_registry v ≡ some m) × (check_method m ≡ ok m)
unfolding check_method
default_registry_curates VulnType.sqli = (_, refl, refl)
default_registry_curates VulnType.rce = (_, refl, refl)
default_registry_curates VulnType.ssrf = (_, refl, refl)
default_registry_curates VulnType.xxe = (_, refl, refl)
default_registry_curates VulnType.xss = (_, refl, refl)
default_registry_curates VulnType.deserialization = (_, refl, refl)
default_registry_curates VulnType.file_read = (_, refl, refl)
default_registry_curates VulnType.auth_bypass = (_, refl, refl)
default_registry_curates VulnType.path_traversal = (_, refl, refl)
default_registry_curates VulnType.idor = (_, refl, refl)
default_registry_curates VulnType.param_tampering = (_, refl, refl)
default_registry_curates VulnType.mfa_bypass = (_, refl, refl)
default_registry_curates VulnType.weak_credentials = (_, refl, refl)
default_registry_curates VulnType.privilege_escalation = (_, refl, refl)
