-- ===== src/Cases/Ladder.antt =====
-- src/secopent/domain/cases/risk.py: the computed risk of a case is the highest of its steps.
use sec_opent.Prelude.{
  ℕ, ◌≤◌, Bool, true, false, none, some, List, [], ◌∷◌, any, All, ltb, Option-cases, Bool-cases,
  ||-right, ◌≡◌, ◌↔◌, ◌⊎◌, inl, inr, refl, sym, ◌∙◌, ap, subst, arith, ltb_iff, nat_beq,
  nat_beq_iff,
}
use sec_opent.Risk.{RiskClass, risk_eq}
use sec_opent.Cases.{
  CaseLib, CaseStep, CaseDefinition, is_denied, step_risk, risk_rank, highest_risk, step_risks,
  compute_risk,
}

-- The step has a risk, and one that is not above `r`.
abbrev pub Within : CaseLib → RiskClass → CaseStep → Type 0
Within lib r s = (q : RiskClass) × (step_risk lib s ≡ some q) × (risk_rank q ≤ risk_rank r)

-- The step has exactly the risk `r`.
abbrev pub is_risk : CaseLib → RiskClass → CaseStep → Bool
is_risk lib r s = elim (step_risk lib s) [
  | none ↦ false
  | some q ↦ nat_beq (risk_rank q) (risk_rank r)
]

-- A bound of the highest is a bound of all.
highest_risk-above :
    (m : ℕ) (top : RiskClass) (rs : List RiskClass)
    → risk_rank (highest_risk top rs) ≤ m
    → (risk_rank top ≤ m) × All (λ r. risk_rank r ≤ m) rs
highest_risk-above m top [] h = (h, tt)
highest_risk-above m top (r ∷ rs) h = elim (Bool-cases (ltb (risk_rank top) (risk_rank r))) [
  | inl e ↦
      let l = (ltb_iff (risk_rank top) (risk_rank r)).0 e in
      let (above, rest) = highest_risk-above m r rs (ground (arith, e, h)) in
      (omega (arith, l, above), (above, rest))
  | inr e ↦
      let (above, rest) = highest_risk-above m top rs (ground (arith, e, h)) in
      (above, (ground (arith, e, above), rest))
]

-- The highest is one of the list.
highest_risk-attained :
    (m : ℕ) (top : RiskClass) (rs : List RiskClass)
    → risk_rank (highest_risk top rs) ≡ m
    → any (λ q. nat_beq (risk_rank q) m) (top ∷ rs) ≡ true
highest_risk-attained m top [] h = ground (arith, h, nat_beq_iff (risk_rank top) m)
highest_risk-attained m top (r ∷ rs) h = elim (Bool-cases (ltb (risk_rank top) (risk_rank r))) [
  | inl e ↦ ||-right _ _ (highest_risk-attained m r rs (ground (arith, e, h)))
  | inr e ↦ ground (arith, e, h, highest_risk-attained m top rs)
]

step_risk-denied :
    (lib : CaseLib) (s : CaseStep) → (step_risk lib s ≡ none) ↔ (is_denied lib s ≡ true)
unfolding step_risk
step_risk-denied lib s = (λ h. ground arith, λ h. ground arith)

step_risks-none :
    (lib : CaseLib) (ss : List CaseStep)
    → (step_risks lib ss ≡ none) ↔ (any (is_denied lib) ss ≡ true)
unfolding step_risks
step_risks-none lib [] = (λ h. cc, λ h. cc)
step_risks-none lib (s ∷ ss) = (
  λ h. ground (arith, step_risk-denied lib s, step_risks-none lib ss),
  λ h. ground (arith, step_risk-denied lib s, step_risks-none lib ss),
)

step_risks-Within :
    (lib : CaseLib) (r : RiskClass) (ss : List CaseStep) (rs : List RiskClass)
    → step_risks lib ss ≡ some rs
    → All (λ q. risk_rank q ≤ risk_rank r) rs
    → All (Within lib r) ss
unfolding step_risks
step_risks-Within lib r [] rs h a = tt
step_risks-Within lib r (s ∷ ss) rs h a = elim (Option-cases (step_risk lib s)) [
  | inl e ↦ absurd (ground arith)
  | inr (q, e) ↦ elim (Option-cases (step_risks lib ss)) [
    | inl f ↦ absurd (ground arith)
    | inr (qs, f) ↦
        let k : rs ≡ q ∷ qs = ground (arith, e, f, h) in
        let b : All (λ q. risk_rank q ≤ risk_rank r) (q ∷ qs) =
          subst (λ l. All (λ q. risk_rank q ≤ risk_rank r) l) k a in
        ((q, e, b.0), step_risks-Within lib r ss qs f b.1)
  ]
]

step_risks-attained :
    (lib : CaseLib) (m : RiskClass) (ss : List CaseStep) (rs : List RiskClass)
    → step_risks lib ss ≡ some rs
    → any (λ q. nat_beq (risk_rank q) (risk_rank m)) rs ≡ any (is_risk lib m) ss
unfolding step_risks
step_risks-attained lib m [] rs h = ground (arith, h)
step_risks-attained lib m (s ∷ ss) rs h = elim (Option-cases (step_risk lib s)) [
  | inl e ↦ absurd (ground arith)
  | inr (q, e) ↦ elim (Option-cases (step_risks lib ss)) [
    | inl f ↦ absurd (ground arith)
    | inr (qs, f) ↦ ground (arith, e, f, h, step_risks-attained lib m ss qs f)
  ]
]

step_risks-empty : (lib : CaseLib) (ss : List CaseStep) → step_risks lib ss ≡ some [] → ss ≡ []
unfolding step_risks
step_risks-empty lib [] e = refl
step_risks-empty lib (s ∷ ss) e = ground arith

compute_risk-some :
    (lib : CaseLib) (c : CaseDefinition) (rs : List RiskClass) (r : RiskClass)
    → step_risks lib c.steps ≡ some rs
    → compute_risk lib c ≡ some r
    → All (Within lib r) c.steps
      × ((c.steps ≡ []) × (r ≡ RiskClass.low) ⊎ (any (is_risk lib r) c.steps ≡ true))
unfolding compute_risk
compute_risk-some lib c [] r e h = (
  step_risks-Within lib r c.steps [] e tt,
  inl (step_risks-empty lib c.steps e, ground (arith, e, h)),
)
compute_risk-some lib c (q ∷ qs) r e h =
    let k : highest_risk q qs ≡ r = ground (arith, e, h) in
    let a : All (λ t. risk_rank t ≤ risk_rank r) (q ∷ qs) =
      highest_risk-above (risk_rank r) q qs (ground (arith, k)) in
    (
      step_risks-Within lib r c.steps (q ∷ qs) e a,
      inr (
          sym (step_risks-attained lib r c.steps (q ∷ qs) e)
          ∙ highest_risk-attained (risk_rank r) q qs (ap risk_rank k)),
    )

compute_risk-none :
    (lib : CaseLib) (c : CaseDefinition)
    → (compute_risk lib c ≡ none) ↔ (step_risks lib c.steps ≡ none)
unfolding compute_risk
compute_risk-none lib c = (λ h. ground arith, λ h. ground arith)

not_denied :
    (lib : CaseLib) (c : CaseDefinition) (rs : List RiskClass)
    → step_risks lib c.steps ≡ some rs
    → any (is_denied lib) c.steps ≡ false
not_denied lib c rs e = elim (Bool-cases (any (is_denied lib) c.steps)) [
  | inl t ↦ absurd (cc (sym ((step_risks-none lib c.steps).1 t) ∙ e))
  | inr f ↦ f
]

-- Either the case has no computed risk, and one of its steps is denied, or it has one, and none is. A risk that is computed
-- is Low if the case has no steps; otherwise it is the risk of one of its steps, and every step has a
-- risk that is not above it.
pub compute_risk-highest :
    (lib : CaseLib) (c : CaseDefinition)
    → ((compute_risk lib c ≡ none) × (any (is_denied lib) c.steps ≡ true))
      ⊎ ((r : RiskClass) × (compute_risk lib c ≡ some r)
          × (any (is_denied lib) c.steps ≡ false)
          × All (Within lib r) c.steps
          × ((c.steps ≡ []) × (r ≡ RiskClass.low) ⊎ (any (is_risk lib r) c.steps ≡ true)))
compute_risk-highest lib c = elim (Option-cases (step_risks lib c.steps)) [
  | inl e ↦ inl ((compute_risk-none lib c).1 e, (step_risks-none lib c.steps).0 e)
  | inr (rs, e) ↦ elim (Option-cases (compute_risk lib c)) [
    | inl n ↦ absurd (cc (sym ((compute_risk-none lib c).0 n) ∙ e))
    | inr (r, h) ↦
        let (within, attained) = compute_risk-some lib c rs r e h in
        inr (r, h, not_denied lib c rs e, within, attained)
  ]
]
