-- ===== src/Oracle/Verdicts.antt =====
-- src/secopent/domain/verification/diff_semantic.py: what the differential verdict says.
use sec_opent.Prelude.{
  Bool, true, false, not, ◌&&◌, if◌then◌else◌, ◌≡◌, ◌≢◌, ◌↔◌, ◌⊎◌, refl, arith, Option, some, none,
  inl, inr,
}
use sec_opent.Oracle.{ReproductionStatus}

-- A new expectation would fall into its last branch.
pub data Expectation : Type 0 where
  deny single_spend state_reject state_change : Expectation

-- The two responses are left out: the verdict does not read them.
pub record AssertionResult : Type 0 where
  pub expectation : Expectation
  pub refused : Bool
  pub structure_same : Bool
  pub state_ok : Option Bool

abbrev pub is_bad : Option Bool → Bool
is_bad (some false) = true
is_bad o = false

abbrev pub embodied : AssertionResult → ReproductionStatus
embodied r =
    if not r.refused && r.structure_same
    then ReproductionStatus.success
    else if r.refused
    then ReproductionStatus.failure
    else ReproductionStatus.server_error

abbrev pub by_expectation : Expectation → AssertionResult → ReproductionStatus
by_expectation Expectation.deny r = embodied r
by_expectation Expectation.single_spend r =
    if is_bad r.state_ok then ReproductionStatus.failure else embodied r
by_expectation Expectation.state_reject r =
    if not r.refused then ReproductionStatus.success else ReproductionStatus.failure
by_expectation Expectation.state_change r =
    if not r.refused then ReproductionStatus.success else ReproductionStatus.failure

unfoldable pub decide_diff_outcome : AssertionResult → ReproductionStatus
decide_diff_outcome r = by_expectation r.expectation r

-- When the override shows what it must not: the illegal migration went through, or the protected
-- object came back and its state was not read back as bad.
pub data Exposed (r : AssertionResult) : Type 0 where
  migrated :
      (r.expectation ≡ Expectation.state_reject) ⊎ (r.expectation ≡ Expectation.state_change)
      → Exposed r
  returned : r.expectation ≡ Expectation.deny → r.structure_same ≡ true → Exposed r
  spent :
      r.expectation ≡ Expectation.single_spend
      → r.structure_same ≡ true
      → r.state_ok ≢ some false
      → Exposed r

pub Exposed-success :
    (r : AssertionResult)
    → r.refused ≡ false
    → Exposed r
    → decide_diff_outcome r ≡ ReproductionStatus.success
unfolding decide_diff_outcome
Exposed-success r h (migrated (inl e)) = rw e (rw h refl)
Exposed-success r h (migrated (inr e)) = rw e (rw h refl)
Exposed-success r h (returned e s) = rw e (rw h (rw s refl))
Exposed-success r h (spent e s b) = ground arith

pub success-Exposed :
    (e : Expectation) (refused structure_same : Bool) (state_ok : Option Bool)
    → let r : AssertionResult = record {
      expectation = e;
      refused = refused;
      structure_same = structure_same;
      state_ok = state_ok;
    } in
      decide_diff_outcome r ≡ ReproductionStatus.success → (refused ≡ false) × Exposed r
unfolding decide_diff_outcome
success-Exposed Expectation.state_reject false s o h = (refl, migrated (inl refl))
success-Exposed Expectation.state_change false s o h = (refl, migrated (inr refl))
success-Exposed Expectation.deny false true o h = (refl, returned refl refl)
success-Exposed Expectation.single_spend false true none h = (refl, spent refl refl (λ e. cc))
success-Exposed Expectation.single_spend false true (some true) h =
    (refl, spent refl refl (λ e. cc))
success-Exposed e r s o h = absurd (ground arith)

-- A differential reproduction succeeds exactly when the suspect request was not refused and it
-- exposed something: an illegal migration went through, or the protected object was returned,
-- and for a single spend its state was not read back as bad. A refused request is always a failure.
pub decide_diff_outcome_iff :
    (r : AssertionResult)
    → ((decide_diff_outcome r ≡ ReproductionStatus.success) ↔ ((r.refused ≡ false) × Exposed r))
      × ((r.refused ≡ false) ⊎ (decide_diff_outcome r ≡ ReproductionStatus.failure))
unfolding decide_diff_outcome
decide_diff_outcome_iff r = (
  (
    λ h. success-Exposed r.expectation r.refused r.structure_same r.state_ok h,
    λ h. Exposed-success r h.0 h.1,
  ),
  ground arith,
)
