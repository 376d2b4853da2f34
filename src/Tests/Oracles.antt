-- ===== src/Tests/Oracles.antt =====
-- The oracle at concrete inputs.
use sec_opent.Prelude.{true, false, ◌≡◌, ◌≢◌, ◌<◌, ◌≤◌, ◌↔◌, refl, none, ℕ, zero, suc, [], ◌∷◌}
use sec_opent.Oracle.{
  VulnType, RetryStrategy, VerificationMethod, VerificationStatus, VerificationResult,
  ReproductionStatus, CandidateFinding, ConfirmedFinding, method_for, verify, confirm, check_method,
}
use sec_opent.Oracle.Verdicts.{Expectation, AssertionResult}
use sec_opent.Oracle.Decision.{
  Reproduced, total, succeeds, breaks, verify_refutes_iff, confirm-Reproduced,
}

abbrev method : VerificationMethod
method = record {
  vuln_type = VulnType.sqli;
  default_n = 3;
  retry_strategy = RetryStrategy.same_worker;
  crosses_workers = false;
  server_error_threshold = 2;
  oob_window_seconds = 0;
  echo_enabled = true;
  diff_semantic = false;
}

abbrev candidate : CandidateFinding
candidate = record {
  id = "c1";
  observation_id = "o1";
  vuln_type = VulnType.sqli;
  target = "10.0.0.5";
  status = VerificationStatus.pending;
}

abbrev always : CandidateFinding → VerificationMethod → ℕ → ReproductionStatus
always c m n = ReproductionStatus.success

-- The first attempt ends in a server error, the others fail.
abbrev flaky : CandidateFinding → VerificationMethod → ℕ → ReproductionStatus
flaky c m zero = ReproductionStatus.server_error
flaky c m (suc n) = ReproductionStatus.failure

abbrev refuted : VerificationResult
refuted = record { status = VerificationStatus.refuted; successes = 0; attempts = 3 }

verify_refutes_iff_example :
    ((VerificationStatus.refuted ≡ VerificationStatus.refuted) ↔ (
      (total succeeds (flaky candidate method) 0 3 < 3)
      × (total breaks (flaky candidate method) 0 3 < 2)))
    × (VerificationStatus.refuted ≢ VerificationStatus.pending)
unfolding verify sec_opent.Oracle.check_result sec_opent.Oracle.reproduce_all
    sec_opent.Oracle.decide_outcome
verify_refutes_iff_example =
    verify_refutes_iff (method ∷ []) flaky candidate method refuted refl refl

abbrev confirmed : VerificationResult
confirmed = record { status = VerificationStatus.confirmed; successes = 3; attempts = 3 }

abbrev finding : ConfirmedFinding
finding = record {
  candidate_id = "c1";
  vuln_type = VulnType.sqli;
  evidence_ids = [];
  verified_at = 7;
  successes = 3;
  attempts = 3;
}

confirm-Reproduced_example :
    Reproduced (always candidate method) 3
    × (1 ≤ finding.successes)
    × (finding.successes ≡ finding.attempts)
    × (finding.attempts ≡ 3)
unfolding verify sec_opent.Oracle.check_result sec_opent.Oracle.reproduce_all
    sec_opent.Oracle.decide_outcome confirm
confirm-Reproduced_example =
    confirm-Reproduced (method ∷ []) always candidate method confirmed [] 7 finding refl refl refl

abbrev replayed : AssertionResult
replayed = record {
  expectation = Expectation.single_spend;
  refused = false;
  structure_same = true;
  state_ok = none;
}
