-- ===== src/Execution/Destinations.antt =====
-- src/secopent/application/execution.py, `_check_plan_scope`: what it means for a plan and a scope that
-- every target of the loop is allowed.
use sec_opent.Prelude.{
  true, false, some, String, List, [], ◌∷◌, ◌++◌, All, elem, Bool-cases, Option-cases, ◌≡◌, ◌⊎◌,
  inl, inr, sym, subst, arith, ◌==◌, ||-cases,
}
use sec_opent.Prelude.Text.{Text, text_eq, codes, is_empty}
use sec_opent.Prelude.Dict.{lookup}
use sec_opent.Scope.{ScopeSnapshot}
use sec_opent.Assessment.{PlanStep}
use sec_opent.Execution.Targets.{step_targets, is_cidr, add_included, targets_of}

-- The target that a step names, if it names one.
abbrev pub StepFits : (Text → Type 0) → PlanStep → Type 0
StepFits P step =
    (target : String)
    → lookup "target" step.parameters ≡ some target
    → is_empty target ≡ false
    → P (codes target)

-- An entry of the scope that is a network, or a target.
abbrev pub EntryFits : (Text → Type 0) → Text → Type 0
EntryFits P entry = (is_cidr entry ≡ true) ⊎ P entry

module _ (P : Text → Type 0) where
  All-elem : (t : Text) (ts : List Text) → All P ts → elem t ts ≡ true → P t
  All-elem t [] h m = absurd (cc m)
  All-elem t (x ∷ ts) h m = elim (||-cases (t == x) (elem t ts) m) [
    | inl e ↦ subst P (sym ((text_eq.beq_iff t x).0 e)) h.0
    | inr r ↦ All-elem t ts h.1 r
  ]

  All-front : (xs ys : List Text) → All P (xs ++ ys) → All P xs
  All-front [] ys h = tt
  All-front (x ∷ xs) ys h = (h.0, All-front xs ys h.1)

  All-last : (xs : List Text) (t : Text) → All P (xs ++ (t ∷ [])) → P t
  All-last [] t h = h.0
  All-last (x ∷ xs) t h = All-last xs t h.1

  included-fit :
      (entries targets : List Text)
      → All P (add_included entries targets)
      → All P targets × All (EntryFits P) entries
  unfolding add_included
  included-fit [] targets h = (h, tt)
  included-fit (t ∷ ts) targets h = elim (Bool-cases (is_cidr t)) [
    | inl n ↦
        let (a, b) = included-fit ts targets (subst (All P) (ground (arith, n)) h) in
        (a, (inl n, b))
    | inr n ↦ elim (Bool-cases (elem t targets)) [
      | inl m ↦
          let (a, b) = included-fit ts targets (subst (All P) (ground (arith, n, m)) h) in
          (a, (inr (All-elem t targets a m), b))
      | inr m ↦
          let (a, b) =
            included-fit ts (targets ++ (t ∷ [])) (subst (All P) (ground (arith, n, m)) h) in
          (All-front targets (t ∷ []) a, (inr (All-last targets t a), b))
    ]
  ]

  steps-fit : (steps : List PlanStep) → All P (step_targets steps) → All (StepFits P) steps
  steps-fit [] h = tt
  steps-fit (s ∷ ss) h = elim (Option-cases (lookup "target" s.parameters)) [
    | inl n ↦ (λ t e k. absurd (cc (e, n)), steps-fit ss (subst (All P) (ground (arith, n)) h))
    | inr (x, f) ↦ elim (Bool-cases (is_empty x)) [
      | inl y ↦ (
        λ t e k. absurd (ground (arith, e, f, k, y)),
        steps-fit ss (subst (All P) (ground (arith, f, y)) h),
      )
      | inr y ↦
          let g : All P (codes x ∷ step_targets ss) =
            subst (All P) {y = codes x ∷ step_targets ss} (ground (arith, f, y)) h in
          (λ t e k. subst (λ z. P (codes z)) (ground (arith, e, f)) g.0, steps-fit ss g.1)
    ]
  ]

  pub targets_of-fit :
      (steps : List PlanStep) (scope : ScopeSnapshot)
      → All P (targets_of steps scope)
      → All (StepFits P) steps × All (EntryFits P) scope.include
  targets_of-fit steps scope h =
      let (a, b) = included-fit scope.include (step_targets steps) h in (steps-fit steps a, b)
