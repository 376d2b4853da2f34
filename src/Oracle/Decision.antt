-- ===== src/Oracle/Decision.antt =====
-- src/secopent/application/oracle.py: what N reproductions decide. The docs of the threshold speak of
-- consecutive server errors and say that none is counted as a refutation; the code counts all of them.
use sec_opent.Prelude.{
  ℕ, zero, suc, ◌+◌, ◌≤◌, ◌<◌, ◌≡◌, ◌≢◌, ◌↔◌, refl, arith, List, String, some, dec_lt,
}
use sec_opent.Prelude.Raises.{ok}
use sec_opent.Oracle.{
  VerificationMethod, VerificationStatus, VerificationResult, ReproductionStatus, CandidateFinding,
  ConfirmedFinding, Tally, count, no_tally, reproduce_all, verify, confirm, check_result,
  check_confirmed, require_method, decide_outcome, method_for,
}

-- The first `n` reproductions all succeed.
unfoldable pub Reproduced : (ℕ → ReproductionStatus) → ℕ → Type 0
Reproduced f n = (i : ℕ) → i < n → f i ≡ ReproductionStatus.success

-- Whether an attempt ended that way, as a number.
abbrev pub succeeds : ReproductionStatus → ℕ
succeeds ReproductionStatus.success = 1
succeeds s = 0

abbrev pub breaks : ReproductionStatus → ℕ
breaks ReproductionStatus.server_error = 1
breaks s = 0

-- A sum over the first `n` attempts from the `k`-th on.
abbrev pub total : (ReproductionStatus → ℕ) → (ℕ → ReproductionStatus) → ℕ → ℕ → ℕ
total weight f k zero = 0
total weight f k (suc n) = weight (f k) + total weight f (suc k) n

pub tally_attempts :
    (f : ℕ → ReproductionStatus) (n : ℕ) (t : Tally)
    → (reproduce_all f n t).attempts ≡ t.attempts + n
unfolding reproduce_all
tally_attempts f zero t = omega arith
tally_attempts f (suc n) t = ground (arith, tally_attempts f n (count (f t.attempts) t))

pub tally_successes :
    (f : ℕ → ReproductionStatus) (n : ℕ) (t : Tally)
    → (reproduce_all f n t).successes ≡ t.successes + total succeeds f t.attempts n
unfolding reproduce_all
tally_successes f zero t = omega arith
tally_successes f (suc n) t = ground (arith, tally_successes f n (count (f t.attempts) t))

pub tally_breaks :
    (f : ℕ → ReproductionStatus) (n : ℕ) (t : Tally)
    → (reproduce_all f n t).inconclusive ≡ t.inconclusive + total breaks f t.attempts n
unfolding reproduce_all
tally_breaks f zero t = omega arith
tally_breaks f (suc n) t = ground (arith, tally_breaks f n (count (f t.attempts) t))

pub total-reaches : (f : ℕ → ReproductionStatus) (k n : ℕ) → total succeeds f k n ≤ n
total-reaches f k zero = omega arith
total-reaches f k (suc n) = ground (arith, total-reaches f (suc k) n)

-- All of a stretch of attempts succeed when their sum is as long as the stretch.
pub total-succeeds :
    (f : ℕ → ReproductionStatus) (k n : ℕ)
    → n ≤ total succeeds f k n
    → (i : ℕ) → k ≤ i
    → i < k + n
    → f i ≡ ReproductionStatus.success
total-succeeds f k zero h i l u = absurd (omega arith)
total-succeeds f k (suc n) h i l u = elim (dec_lt k i) [
  | yes lt ↦ ground (
    arith,
    total-reaches f (suc k) n,
    total-succeeds f (suc k) n (ground (arith, total-reaches f (suc k) n)) i lt (omega arith),
  )
  | no nlt ↦ let same : i ≡ k = omega arith in rw same (ground (arith, total-reaches f (suc k) n))
]

pub succeeds-total :
    (f : ℕ → ReproductionStatus) (k n : ℕ)
    → ((i : ℕ) → k ≤ i → i < k + n → f i ≡ ReproductionStatus.success)
    → total succeeds f k n ≡ n
succeeds-total f k zero h = refl
succeeds-total f k (suc n) h =
    let head = h k (omega arith) (omega arith) in
    let rest = succeeds-total f (suc k) n (λ i l u. h i (omega arith) (omega arith)) in
    rw head (omega (arith, rest))

-- A verification of a candidate whose class has a method always gives a result, and this is
-- CONFIRMED exactly when each of the N reproductions of the method succeeded.
pub verify_confirms_iff :
    (registry : List VerificationMethod)
    (reproduce : CandidateFinding → VerificationMethod → ℕ → ReproductionStatus)
    (candidate : CandidateFinding) (m : VerificationMethod)
    → method_for registry candidate.vuln_type ≡ some m
    → (r : VerificationResult) × (verify registry reproduce candidate ≡ ok r)
      × ((r.status ≡ VerificationStatus.confirmed) ↔ Reproduced (reproduce candidate m) m.default_n)
unfolding verify require_method check_result decide_outcome Reproduced
verify_confirms_iff registry reproduce candidate m found =
    let f = reproduce candidate m in
    let t = reproduce_all f m.default_n no_tally in
    let s : t.successes ≡ total succeeds f 0 m.default_n =
      omega (arith, tally_successes f m.default_n no_tally) in
    let fits : t.successes ≤ t.attempts =
      ground (arith, tally_attempts f m.default_n no_tally, total-reaches f 0 m.default_n) in
    let r : VerificationResult = record {
      status = decide_outcome m t.successes t.attempts t.inconclusive;
      successes = t.successes;
      attempts = t.attempts;
    } in
    (
      r,
      rw found (ground arith),
      (
        λ h i u. total-succeeds f 0 m.default_n (ground arith) i (omega arith) (omega arith),
        λ h. ground (arith, succeeds-total f 0 m.default_n (λ i l u. h i (omega arith))),
      ),
    )

-- A verification is REFUTED exactly when some reproduction did not succeed and the attempts that ended in
-- a server error, consecutive or not, stay below the threshold; it is never left PENDING.
pub verify_refutes_iff :
    (registry : List VerificationMethod)
    (reproduce : CandidateFinding → VerificationMethod → ℕ → ReproductionStatus)
    (candidate : CandidateFinding) (m : VerificationMethod) (r : VerificationResult)
    → method_for registry candidate.vuln_type ≡ some m
    → verify registry reproduce candidate ≡ ok r
    → ((r.status ≡ VerificationStatus.refuted) ↔ (
        (total succeeds (reproduce candidate m) 0 m.default_n < m.default_n)
        × (total breaks (reproduce candidate m) 0 m.default_n < m.server_error_threshold)))
      × (r.status ≢ VerificationStatus.pending)
unfolding verify require_method check_result decide_outcome
verify_refutes_iff registry reproduce candidate m r found h =
    let f = reproduce candidate m in
    let s = tally_successes f m.default_n no_tally in
    let b = tally_breaks f m.default_n no_tally in
    let a = tally_attempts f m.default_n no_tally in
    ((λ e. ground (arith, s, b, a), λ e. ground (arith, s, b, a)), λ e. ground (arith, s, b, a))

-- When a verification of a candidate returned a result and that result is promoted, then each of
-- the N reproductions of the candidate's method succeeded, and N is at least 1.
pub confirm-Reproduced :
    (registry : List VerificationMethod)
    (reproduce : CandidateFinding → VerificationMethod → ℕ → ReproductionStatus)
    (candidate : CandidateFinding) (m : VerificationMethod) (r : VerificationResult)
    (evidence_ids : List String) (verified_at : ℕ) (f : ConfirmedFinding)
    → method_for registry candidate.vuln_type ≡ some m
    → verify registry reproduce candidate ≡ ok r
    → confirm candidate r evidence_ids verified_at ≡ ok f
    → Reproduced (reproduce candidate m) m.default_n
      × (1 ≤ f.successes)
      × (f.successes ≡ f.attempts)
      × (f.attempts ≡ m.default_n)
unfolding confirm check_confirmed verify require_method check_result decide_outcome Reproduced
confirm-Reproduced registry reproduce candidate m r evidence_ids verified_at f found h e =
    let g = reproduce candidate m in
    let s = tally_successes g m.default_n no_tally in
    let a = tally_attempts g m.default_n no_tally in
    let le = total-reaches g 0 m.default_n in
    (
      λ i u.
          total-succeeds g 0 m.default_n (ground (arith, s, a, le)) i (omega arith) (omega arith),
      ground (arith, s, a, le),
      ground (arith, s, a, le),
      ground (arith, s, a, le),
    )
