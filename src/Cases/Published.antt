-- ===== src/Cases/Published.antt =====
-- src/secopent/application/cases.py: what was checked of a published case, who brings a case that
-- far, and that a case which passes its gate can be published.
use sec_opent.Prelude.{
  ◌≤◌, Bool, true, false, List, [], ◌∷◌, All, ◌==◌, string_eq, elem, ◌≡◌, refl, arith,
}
use text.Mathlib.TextEquality.{eq_iff}
use sec_opent.Prelude.Text.{Text}
use sec_opent.Prelude.Raises.{ok}
use sec_opent.Risk.{RiskClass, risk_eq}
use sec_opent.Cases.{CaseLib, CaseDefinition, status_code, validate_declared_risk, compute_risk}
use sec_opent.Cases.Service.{
  Registry, Payload, signing_payload, is_model_generated, CaseCall, create_call, validate_call,
  fast_track_call, review_call, sign_call, publish_call, perform, perform_all,
}
use sec_opent.Cases.Reviewed.{
  Holds, Closed, create_draft-Holds, validate-Holds, fast_track-Holds, review-Holds, sign-Holds,
  publish-Holds,
}

-- Beyond DRAFT a case has passed the risk gate, and from SIGNED on it carries the signature of its own
-- payload. No call leads to DISABLED or DEPRECATED.
abbrev pub Sound : CaseLib → (Payload → Text) → CaseDefinition → Type 0
Sound lib signer c =
    (status_code c.status ≤ 4)
    × (1 ≤ status_code c.status → validate_declared_risk lib c ≡ ok tt)
    × (3 ≤ status_code c.status → c.signature ≡ signer (signing_payload c))

module _ (lib : CaseLib) (signer : Payload → Text) where
  Sound-Closed : Closed lib (Sound lib signer)
  unfolding validate_declared_risk compute_risk
  Sound-Closed = record {
    drafts = λ c. (omega arith, λ h. absurd (omega arith), λ h. absurd (omega arith));
    validates = λ c s v. (omega arith, λ h. v, λ h. absurd (omega arith));
    reviews = λ c s v m r. (omega arith, λ h. v, λ h. absurd (omega arith));
  }

  perform-Sound :
      (x : CaseCall) (s : Registry)
      → Holds (Sound lib signer) s
      → Holds (Sound lib signer) (perform lib signer x s)
  unfolding validate_declared_risk compute_risk
  perform-Sound (create_call c) s h = create_draft-Holds lib _ Sound-Closed c s h
  perform-Sound (validate_call id) s h = validate-Holds lib _ Sound-Closed id s h
  perform-Sound (fast_track_call id) s h = fast_track-Holds lib _ Sound-Closed id s h
  perform-Sound (review_call id role) s h =
      review-Holds _ id role s h
        (λ i c p f. (omega arith, λ k. ground (arith, p.1, f), λ k. absurd (omega arith)))
  perform-Sound (sign_call id role) s h =
      sign-Holds _ id role s signer h
        (λ i c p f. (omega arith, λ k. ground (arith, p.1, f), λ k. refl))
  perform-Sound (publish_call id role) s h =
      publish-Holds _ id role s h
        (λ i c p f. (omega arith, λ k. ground (arith, p.1, f), λ k. ground (arith, p.2, f)))

  -- After any calls of the case service, of any roles, every stored case beyond DRAFT has passed the risk
  -- gate as it is stored, and every SIGNED or PUBLISHED one carries the signature of its own payload.
  pub reachable-Sound :
      (xs : List CaseCall) (s : Registry)
      → Holds (Sound lib signer) s
      → Holds (Sound lib signer) (perform_all lib signer xs s)
  unfolding perform_all
  reachable-Sound [] s h = h
  reachable-Sound (x ∷ xs) s h = reachable-Sound xs (perform lib signer x s) (perform-Sound x s h)

abbrev pub by_human : CaseCall → Bool
by_human (create_call c) = false
by_human (validate_call id) = false
by_human (fast_track_call id) = false
by_human (review_call id role) = role == "human"
by_human (sign_call id role) = role == "human"
by_human (publish_call id role) = role == "human"

-- A case that no human has touched: at most REVIEWED, and that only if it is a model's, of a low risk,
-- and passes the gate.
abbrev pub Untouched : CaseLib → CaseDefinition → Type 0
Untouched lib c =
    (status_code c.status ≤ 2)
    × (1 ≤ status_code c.status → validate_declared_risk lib c ≡ ok tt)
    × (2 ≤ status_code c.status
        → (is_model_generated c.origin ≡ true)
          × (elem c.risk (RiskClass.passive ∷ RiskClass.low ∷ []) ≡ true))

module _ (lib : CaseLib) (signer : Payload → Text) where
  Untouched-Closed : Closed lib (Untouched lib)
  unfolding validate_declared_risk compute_risk
  Untouched-Closed = record {
    drafts = λ c. (omega arith, λ h. absurd (omega arith), λ h. absurd (omega arith));
    validates = λ c s v. (omega arith, λ h. v, λ h. absurd (omega arith));
    reviews = λ c s v m r. (omega arith, λ h. v, λ h. (m, r));
  }

  perform-Untouched :
      (x : CaseCall) (s : Registry)
      → by_human x ≡ false
      → Holds (Untouched lib) s
      → Holds (Untouched lib) (perform lib signer x s)
  perform-Untouched (create_call c) s b h = create_draft-Holds lib _ Untouched-Closed c s h
  perform-Untouched (validate_call id) s b h = validate-Holds lib _ Untouched-Closed id s h
  perform-Untouched (fast_track_call id) s b h = fast_track-Holds lib _ Untouched-Closed id s h
  perform-Untouched (review_call id role) s b h =
      review-Holds _ id role s h (λ i c p f. absurd (cc (b, (eq_iff role "human").1 i)))
  perform-Untouched (sign_call id role) s b h =
      sign-Holds _ id role s signer h (λ i c p f. absurd (cc (b, (eq_iff role "human").1 i)))
  perform-Untouched (publish_call id role) s b h =
      publish-Holds _ id role s h (λ i c p f. absurd (cc (b, (eq_iff role "human").1 i)))

  -- Whatever is called with other roles than a human's, no case becomes SIGNED or PUBLISHED, and a case
  -- becomes REVIEWED only if it is model-generated, of Passive or Low risk, and passes the risk gate.
  pub reachable-Untouched :
      (xs : List CaseCall) (s : Registry)
      → All (λ x. by_human x ≡ false) xs
      → Holds (Untouched lib) s
      → Holds (Untouched lib) (perform_all lib signer xs s)
  unfolding perform_all
  reachable-Untouched [] s a h = h
  reachable-Untouched (x ∷ xs) s (b, a) h =
      reachable-Untouched xs (perform lib signer x s) a (perform-Untouched x s b h)
