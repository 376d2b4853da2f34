-- ===== src/Grants/Authority.antt =====
-- What a grant can and cannot authorize.
use sec_opent.Prelude.{
  ℕ, ◌≤◌, Bool, true, false, some, String, List, [], ◌∷◌, All, elem, subset, all, ◌≡◌, ◌↔◌, refl,
  arith, string_eq, inl, inr, Option-cases,
}
use sec_opent.Prelude.Dict.{lookup}
use sec_opent.Prelude.Raises.{Result, ok, all_or_raise}
use sec_opent.Prelude.Int.{int_eq}
use sec_opent.Risk.{risk_eq}
use sec_opent.Scope.{NetLib, ScopeSnapshot}
use sec_opent.Assessment.{PlanStep}
use sec_opent.Grants.{
  EngagementGrant, Grants, granted, is_active_at, covers_risks, covers_scope, authorize,
  matches_boundary, is_revoked,
}

-- What a grant that authorizes a scope and a plan satisfies.
pub record Authorizes (net : NetLib) (g : EngagementGrant) (scope : ScopeSnapshot)
    (steps : List PlanStep) (now : ℕ) : Type 0 where
  pub not_revoked : is_revoked g.status ≡ false
  pub started : g.valid_from ≤ now
  pub not_over : now ≤ g.valid_to
  pub ports : subset scope.ports g.scope.ports ≡ true
  pub targets : All (λ t. matches_boundary net g t ≡ ok true) scope.include
  pub risks : all (λ s. elem s.risk g.risk_caps) steps ≡ true

all_or_raise-All :
    {A : Type 0} (p : A → Result Bool) (xs : List A)
    → all_or_raise p xs ≡ ok true
    → All (λ x. p x ≡ ok true) xs
all_or_raise-All p [] h = tt
all_or_raise-All p (x ∷ xs) h = ground (arith, all_or_raise-All p xs)

All-all_or_raise :
    {A : Type 0} (p : A → Result Bool) (xs : List A)
    → All (λ x. p x ≡ ok true) xs
    → all_or_raise p xs ≡ ok true
All-all_or_raise p [] h = refl
All-all_or_raise p (x ∷ xs) h = ground (arith, All-all_or_raise p xs)

-- What `authorize` does once the grant is found.
module _ (net : NetLib) (g : EngagementGrant) (scope : ScopeSnapshot) (steps : List PlanStep)
    (now : ℕ) where
  covers-Authorizes :
      is_active_at g now ≡ true
      → covers_scope net g scope ≡ ok true
      → covers_risks g steps ≡ true
      → Authorizes net g scope steps now
  unfolding is_active_at covers_scope covers_risks
  covers-Authorizes a c r =
      let t : (subset scope.ports g.scope.ports ≡ true)
          × (all_or_raise (matches_boundary net g) scope.include ≡ ok true) =
        ground arith in
      record {
        not_revoked = ground arith;
        started = ground arith;
        not_over = ground arith;
        ports = t.0;
        targets = all_or_raise-All (matches_boundary net g) scope.include t.1;
        risks = r;
      }

  Authorizes-covers :
      Authorizes net g scope steps now
      → (is_active_at g now ≡ true)
        × (covers_scope net g scope ≡ ok true)
        × (covers_risks g steps ≡ true)
  unfolding is_active_at covers_scope covers_risks
  Authorizes-covers a = (
    ground arith,
    rw (a.ports) (All-all_or_raise (matches_boundary net g) scope.include a.targets),
    a.risks,
  )

module _ (net : NetLib) (grants : Grants) (grant_id : String) (scope : ScopeSnapshot)
    (steps : List PlanStep) (now : ℕ) where
  authorize-Authorizes :
      authorize net grants grant_id scope steps now ≡ ok granted
      → (g : EngagementGrant) × (lookup grant_id grants ≡ some g) × Authorizes net g scope steps now
  unfolding authorize
  authorize-Authorizes h = elim (Option-cases (lookup grant_id grants)) [
    | inl e ↦ absurd (ground arith)
    | inr (g, e) ↦
        (g, e, covers-Authorizes net g scope steps now (ground arith) (ground arith) (ground arith))
  ]

  Authorizes-authorize :
      (g : EngagementGrant)
      → lookup grant_id grants ≡ some g
      → Authorizes net g scope steps now
      → authorize net grants grant_id scope steps now ≡ ok granted
  unfolding authorize
  Authorizes-authorize g e a = let c = Authorizes-covers net g scope steps now a in ground arith

  -- `authorize` allows exactly if the grant is stored, is not revoked and in its window, has all the
  -- ports of the scope, matches each of its targets, and covers the risk of each step.
  pub authorize_iff : (authorize net grants grant_id scope steps now ≡ ok granted) ↔ (
      (g : EngagementGrant) × (lookup grant_id grants ≡ some g) × Authorizes net g scope steps now)
  authorize_iff = (authorize-Authorizes, λ r. Authorizes-authorize r.0 r.1 r.2)
