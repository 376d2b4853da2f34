-- ===== src/Coverage/Closing.antt =====
-- src/secopent/domain/catalog/report.py and application/coverage.py: when an assessment may close.
use sec_opent.Prelude.{
  true, String, List, [], ◌∷◌, length, elem, All, Exists, leb_iff, ◌==◌, ◌||◌, ||-cases, ||-left,
  ||-right, elem_head, subst, ◌≤◌, string_eq, Bool-cases, ◌≡◌, ◌↔◌, ◌⊎◌, inl, inr, refl, arith,
}
use text.Mathlib.TextEquality.{eq_iff}
use sec_opent.Prelude.Raises.{ok}
use sec_opent.Coverage.{
  RequiredTestClass, Observation, CoverageReport, intersects, class_covered, partition,
  coverage_rate, report_on, compute_coverage, required_for, compute, enforce_gate, AssetType,
  TestCatalog,
}

-- Some text stands in both lists.
abbrev pub Shares : List String → List String → Type 0
Shares xs ys = (x : String) × (elem x xs ≡ true) × (elem x ys ≡ true)

-- An observation has a CWE or an OWASP category of the class.
abbrev pub IsCovered : List Observation → RequiredTestClass → Type 0
IsCovered observations c = Exists (λ o. Shares c.cwe o.cwe ⊎ Shares c.owasp o.owasp) observations

intersects-Shares : (xs ys : List String) → intersects xs ys ≡ true → Shares xs ys
intersects-Shares [] ys h = absurd (cc)
intersects-Shares (x ∷ xs) ys h = elim (||-cases (elem x ys) (intersects xs ys) h) [
  | inl m ↦ (x, elem_head x xs, m)
  | inr t ↦ let (y, a, b) = intersects-Shares xs ys t in (y, ||-right (y == x) _ a, b)
]

Shares-intersects :
    (xs ys : List String) (x : String)
    → elem x xs ≡ true
    → elem x ys ≡ true
    → intersects xs ys ≡ true
Shares-intersects [] ys x a b = absurd (cc)
Shares-intersects (z ∷ xs) ys x a b = elim (||-cases (x == z) (elem x xs) a) [
  | inl e ↦ ||-left _ _ (subst (λ w. elem w ys ≡ true) ((eq_iff x z).0 e) b)
  | inr m ↦ ||-right (elem z ys) _ (Shares-intersects xs ys x m b)
]

class_covered_iff :
    (c : RequiredTestClass) (observations : List Observation)
    → (class_covered c observations ≡ true) ↔ IsCovered observations c
unfolding class_covered
class_covered_iff c [] = (λ h. absurd (cc), λ h. absurd h)
class_covered_iff c (o ∷ observations) =
    let (there, back) = class_covered_iff c observations in
    let by_cwe = intersects c.cwe o.cwe in
    let by_owasp = intersects c.owasp o.owasp in
    (
      λ h. elim (||-cases (by_cwe || by_owasp) _ h) [
        | inr t ↦ inr (there t)
        | inl t ↦ elim (||-cases by_cwe by_owasp t) [
          | inl u ↦ inl (inl (intersects-Shares c.cwe o.cwe u))
          | inr u ↦ inl (inr (intersects-Shares c.owasp o.owasp u))
        ]
      ],
      λ h. elim h [
        | inr t ↦ ||-right (by_cwe || by_owasp) _ (back t)
        | inl (inl (x, a, b)) ↦ ||-left _ _ (||-left _ _ (Shares-intersects c.cwe o.cwe x a b))
        | inl (inr (x, a, b)) ↦
            ||-left _ _ (||-right by_cwe _ (Shares-intersects c.owasp o.owasp x a b))
      ],
    )

partition_clean :
    (required : List RequiredTestClass) (observations : List Observation)
    → ((partition required observations).1 ≡ []) ↔ All (IsCovered observations) required
unfolding partition
partition_clean [] observations = (λ h. tt, λ h. refl)
partition_clean (c ∷ required) observations =
    let (there, back) = partition_clean required observations in
    let (covers, covered) = class_covered_iff c observations in
    elim (Bool-cases (class_covered c observations)) [
      | inl t ↦ (λ h. (covers t, there (ground (arith, t, h))), λ h. ground (arith, t, back h.1))
      | inr f ↦ (λ h. absurd (ground (arith, f, h)), λ h. absurd (cc (covered h.0, f)))
    ]

partition-length :
    (required : List RequiredTestClass) (observations : List Observation)
    → length (partition required observations).0 ≤ length required
unfolding partition
partition-length [] observations = omega arith
partition-length (c ∷ required) observations =
    let shorter = partition-length required observations in
    elim (Bool-cases (class_covered c observations)) [
      | inl t ↦ ground (arith, t, shorter)
      | inr f ↦ ground (arith, f, shorter)
    ]

rate_bounded :
    (required : List RequiredTestClass) (observations : List Observation)
    → let rate = coverage_rate (partition required observations).0 required in rate.0 ≤ rate.1
rate_bounded [] observations = omega arith
rate_bounded (c ∷ required) observations = partition-length (c ∷ required) observations

-- `CoverageService.compute` always returns, with a rate of at most 1, and the gate lets its report through
-- exactly if each class that is required for the asset type shares a CWE or an OWASP category with an
-- observation.
pub enforce_gate-compute :
    (asset_type : AssetType) (observations : List Observation) (catalog : TestCatalog)
    → (r : CoverageReport) × (compute asset_type observations catalog ≡ ok r)
      × (r.coverage_rate.0 ≤ r.coverage_rate.1)
      × ((enforce_gate r ≡ ok tt) ↔ All (IsCovered observations) (required_for catalog asset_type))
unfolding compute compute_coverage enforce_gate
enforce_gate-compute asset_type observations catalog =
    let required = required_for catalog asset_type in
    let bound = rate_bounded required observations in
    let (there, back) = partition_clean required observations in
    (
      report_on asset_type required observations,
      ground (arith, (leb_iff _ _).1 bound),
      bound,
      (λ h. there (ground (arith, h)), λ h. ground (arith, back h)),
    )
