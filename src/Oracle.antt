-- ===== src/Oracle.antt =====
-- src/secopent/domain/verification/models.py and registry.py, and application/oracle.py:
-- candidates reproduced N times, and the rule that decides.
pub mod Decision
pub mod Verdicts
pub mod Registry
use sec_opent.Prelude.{
  ℕ, zero, suc, ◌+◌, Bool, true, false, not, ◌&&◌, ◌||◌, Option, none, some, String, List, [], ◌∷◌,
  if◌then◌else◌, ltb, leb, nat_beq, Eq, ◌==◌, ◌≡◌, ◌↔◌, arith, is_some,
}
use sec_opent.Prelude.Text.{is_empty}
use sec_opent.Prelude.Raises.{Result, ok, err, ◌>>=◌, ◌>>◌, raise_if, or_raise, validation}

pub data VulnType : Type 0 where
  sqli rce ssrf xxe xss deserialization file_read auth_bypass path_traversal idor : VulnType
  param_tampering mfa_bypass weak_credentials privilege_escalation : VulnType

abbrev pub vuln_code : VulnType → ℕ
vuln_code VulnType.sqli = 0
vuln_code VulnType.rce = 1
vuln_code VulnType.ssrf = 2
vuln_code VulnType.xxe = 3
vuln_code VulnType.xss = 4
vuln_code VulnType.deserialization = 5
vuln_code VulnType.file_read = 6
vuln_code VulnType.auth_bypass = 7
vuln_code VulnType.path_traversal = 8
vuln_code VulnType.idor = 9
vuln_code VulnType.param_tampering = 10
vuln_code VulnType.mfa_bypass = 11
vuln_code VulnType.weak_credentials = 12
vuln_code VulnType.privilege_escalation = 13

pub vuln_code_iff : (a b : VulnType) → (nat_beq (vuln_code a) (vuln_code b) ≡ true) ↔ (a ≡ b)
vuln_code_iff a b = (λ h. ground arith, λ h. ground arith)

instance abbrev pub vuln_type_eq : Eq VulnType
vuln_type_eq = record { beq = λ a b. nat_beq (vuln_code a) (vuln_code b); beq_iff = vuln_code_iff }

pub data RetryStrategy : Type 0 where
  cross_worker same_worker : RetryStrategy

pub data VerificationStatus : Type 0 where
  pending confirmed refuted inconclusive : VerificationStatus

pub data ReproductionStatus : Type 0 where
  success failure server_error : ReproductionStatus

-- `cross_worker` of the method is `crosses_workers` here.
pub record VerificationMethod : Type 0 where
  pub vuln_type : VulnType
  pub default_n : ℕ
  pub retry_strategy : RetryStrategy
  pub crosses_workers : Bool
  pub server_error_threshold : ℕ
  pub oob_window_seconds : ℕ
  pub echo_enabled : Bool
  pub diff_semantic : Bool

-- `__post_init__`; a window below 0 is no natural number.
unfoldable pub check_method : VerificationMethod → Result VerificationMethod
check_method m = do
  raise_if (ltb m.default_n 1) (validation "VerificationMethod.default_n must be >= 1")
  raise_if (ltb m.server_error_threshold 1)
      (validation "VerificationMethod.server_error_threshold must be >= 1")
  raise_if (m.echo_enabled && m.diff_semantic)
      (validation "VerificationMethod cannot be both echo_enabled and diff_semantic")
  ok m

-- The optional differential payload is left out: no operation here reads it.
pub record CandidateFinding : Type 0 where
  pub id : String
  pub observation_id : String
  pub vuln_type : VulnType
  pub target : String
  pub status : VerificationStatus

pub record ConfirmedFinding : Type 0 where
  pub candidate_id : String
  pub vuln_type : VulnType
  pub evidence_ids : List String
  pub verified_at : ℕ
  pub successes : ℕ
  pub attempts : ℕ

unfoldable pub check_confirmed : ConfirmedFinding → Result ConfirmedFinding
check_confirmed f = do
  raise_if (is_empty f.candidate_id) (validation "ConfirmedFinding.candidate_id must be non-empty")
  raise_if (ltb f.successes 1) (validation "ConfirmedFinding.successes must be >= 1")
  raise_if (ltb f.attempts f.successes)
      (validation "ConfirmedFinding.attempts must be >= successes")
  ok f

-- The reason of the result is left out: it formats the other fields.
pub record VerificationResult : Type 0 where
  pub status : VerificationStatus
  pub successes : ℕ
  pub attempts : ℕ

unfoldable pub check_result : VerificationResult → Result VerificationResult
check_result r = do
  raise_if (ltb r.attempts r.successes)
      (validation "VerificationResult.successes cannot exceed attempts")
  ok r

unfoldable pub decide_outcome : VerificationMethod → ℕ → ℕ → ℕ → VerificationStatus
decide_outcome method successes attempts inconclusive_count =
    if leb method.default_n successes
    then VerificationStatus.confirmed
    else if leb method.default_n attempts
    then (if leb method.server_error_threshold inconclusive_count
        then VerificationStatus.inconclusive
        else VerificationStatus.refuted)
    else VerificationStatus.pending

-- The registry, in the order of its methods.
abbrev pub method_for : List VerificationMethod → VulnType → Option VerificationMethod
method_for [] v = none
method_for (m ∷ ms) v = if m.vuln_type == v then some m else method_for ms v

-- `__init__`: the loop, with the methods kept so far.
abbrev pub build :
    List VerificationMethod → List VerificationMethod → Result (List VerificationMethod)
build kept [] = ok kept
build kept (m ∷ ms) =
    let rest = build (m ∷ kept) ms in
    if is_some (method_for kept m.vuln_type)
    then err (validation "duplicate verification method for vuln_type=")
    else rest

unfoldable pub require_method : List VerificationMethod → VulnType → Result VerificationMethod
require_method ms v =
    or_raise (method_for ms v) (validation "no verification method curated for vuln_type=")

-- `successes`, `inconclusive` and `attempts` of the loop.
pub record Tally : Type 0 where
  pub successes : ℕ
  pub inconclusive : ℕ
  pub attempts : ℕ

abbrev pub count : ReproductionStatus → Tally → Tally
count ReproductionStatus.success t = record t {
  successes = t.successes + 1;
  attempts = t.attempts + 1;
}
count ReproductionStatus.server_error t = record t {
  inconclusive = t.inconclusive + 1;
  attempts = t.attempts + 1;
}
count ReproductionStatus.failure t = record t { attempts = t.attempts + 1 }

-- `n` more rounds; the verifier's answer may differ from attempt to attempt.
unfoldable pub reproduce_all : (ℕ → ReproductionStatus) → ℕ → Tally → Tally
reproduce_all reproduce zero t = t
reproduce_all reproduce (suc n) t = reproduce_all reproduce n (count (reproduce t.attempts) t)

abbrev pub no_tally : Tally
no_tally = record { successes = 0; inconclusive = 0; attempts = 0 }

-- `reproduce` gets the candidate, the method and which attempt it is.
unfoldable pub verify :
    List VerificationMethod
    → (CandidateFinding → VerificationMethod → ℕ → ReproductionStatus)
    → CandidateFinding
    → Result VerificationResult
unfolding require_method
verify registry reproduce candidate = do
  method ← require_method registry candidate.vuln_type
  let t = reproduce_all (reproduce candidate method) method.default_n no_tally in
      check_result (record {
        status = decide_outcome method t.successes t.attempts t.inconclusive;
        successes = t.successes;
        attempts = t.attempts;
      })

abbrev pub is_confirmed : VerificationStatus → Bool
is_confirmed VerificationStatus.confirmed = true
is_confirmed s = false

unfoldable pub confirm :
    CandidateFinding → VerificationResult → List String → ℕ → Result ConfirmedFinding
unfolding check_confirmed
confirm candidate result evidence_ids verified_at = do
  raise_if (not (is_confirmed result.status))
      (validation "only a CONFIRMED oracle result can become a ConfirmedFinding (got ")
  check_confirmed (record {
    candidate_id = candidate.id;
    vuln_type = candidate.vuln_type;
    evidence_ids = evidence_ids;
    verified_at = verified_at;
    successes = result.successes;
    attempts = result.attempts;
  })
