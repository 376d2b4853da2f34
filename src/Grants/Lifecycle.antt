-- ===== src/Grants/Lifecycle.antt =====
-- No sequence of calls of the grant service stores a grant that covers a destructive risk.
use sec_opent.Prelude.{
  ℕ, true, false, not, some, String, List, [], ◌∷◌, elem, all, ◌≡◌, ◌⊎◌, refl, arith, string_eq,
  ◌==◌, leb, inl, inr, Option-cases, Bool-cases, subst, sym,
}
use sec_opent.Prelude.Dict.{lookup, insert, lookup-insert, lookup-insert_self}
use sec_opent.Prelude.Raises.{ok, Result-cases}
use sec_opent.Prelude.Text.{Text}
use sec_opent.Risk.{RiskClass, risk_eq}
use sec_opent.Scope.{NetLib, ScopeSnapshot}
use sec_opent.Assessment.{PlanStep}
use sec_opent.Grants.{
  EngagementGrant, Grants, granted, denied, authorize, create_grant, create_human, revoke_grant,
  revoke, is_active_at,
}
use sec_opent.Grants.Authority.{authorize_iff}

-- The calls that change the stored grants: `create_human` with a candidate, `revoke` with an id.
pub data GrantCall : Type 0 where
  create : EngagementGrant → String → GrantCall
  withdraw : String → String → GrantCall

steps_covered :
    (caps : List RiskClass)
    → elem RiskClass.destructive caps ≡ false
    → (steps : List PlanStep) → all (λ s. elem s.risk caps) steps ≡ true
    → all (λ s. not (elem s.risk (RiskClass.destructive ∷ []))) steps ≡ true
steps_covered caps n [] h = refl
steps_covered caps n (s ∷ ss) h = ground (arith, steps_covered caps n ss)

module _ (strip : Text → Text) (digest_of : EngagementGrant → String) where
  abbrev pub apply_call : GrantCall → Grants → Grants
  apply_call (create g role) grants = (create_human strip digest_of g role grants).1
  apply_call (withdraw grant_id role) grants = (revoke grant_id role grants).1

  abbrev pub apply_calls : List GrantCall → Grants → Grants
  apply_calls [] grants = grants
  apply_calls (c ∷ cs) grants = apply_calls cs (apply_call c grants)

  -- No stored grant covers a destructive risk, and each has a window of positive length.
  abbrev IsLegal : EngagementGrant → Type 0
  IsLegal g =
      (elem RiskClass.destructive g.risk_caps ≡ false) × (leb g.valid_to g.valid_from ≡ false)

  abbrev AllLegal : Grants → Type 0
  AllLegal grants = (k : String) (g : EngagementGrant) → lookup k grants ≡ some g → IsLegal g

  insert-AllLegal :
      (grants : Grants) (k : String) (g : EngagementGrant)
      → AllLegal grants
      → IsLegal g
      → AllLegal (insert k g grants)
  insert-AllLegal grants k g h l j x e = elim (Bool-cases (k == j)) [
    | inl here ↦
        let p : some g ≡ some x = rw (← e, lookup-insert k j g grants, here) in
        let q : g ≡ x = cc in subst IsLegal q l
    | inr there ↦ h j x (rw (lookup-insert k j g grants, there) at e)
  ]

  -- A call leaves the store alone or puts one legal grant in.
  abbrev Changes : Grants → Grants → Type 0
  Changes grants grants' =
      (grants' ≡ grants) ⊎ ((g : EngagementGrant) × IsLegal g × (grants' ≡ insert g.id g grants))

  Changes-AllLegal : (a b : Grants) → Changes a b → AllLegal a → AllLegal b
  Changes-AllLegal a b (inl e) h = subst AllLegal (sym e) h
  Changes-AllLegal a b (inr (g, l, e)) h = subst AllLegal (sym e) (insert-AllLegal a g.id g h l)

  create_grant-IsLegal :
      (g grant : EngagementGrant) → create_grant strip digest_of g ≡ ok grant → IsLegal grant
  unfolding create_grant
  create_grant-IsLegal g grant h = ground arith

  create-Changes :
      (g : EngagementGrant) (role : String) (grants : Grants)
      → Changes grants (apply_call (create g role) grants)
  unfolding create_human
  create-Changes g role grants = elim (Bool-cases (role == "human")) [
    | inr other ↦ inl (ground arith)
    | inl human ↦
        elim (Result-cases (create_grant strip digest_of (record g { created_by = role }))) [
          | inl (grant, e) ↦
              inr
                (grant, create_grant-IsLegal (record g { created_by = role }) grant e, ground arith)
          | inr (e, r) ↦ inl (ground arith)
        ]
  ]

  revoke-Changes :
      (grant_id role : String) (grants : Grants)
      → AllLegal grants
      → Changes grants (apply_call (withdraw grant_id role) grants)
  unfolding revoke
  revoke-Changes grant_id role grants h = elim (Bool-cases (role == "human")) [
    | inr other ↦ inl (ground arith)
    | inl human ↦ elim (Option-cases (lookup grant_id grants)) [
      | inl e ↦ inl (ground arith)
      | inr (g, e) ↦ inr (revoke_grant g, h grant_id g e, ground arith)
    ]
  ]

  apply_calls-AllLegal :
      (calls : List GrantCall) (grants : Grants)
      → AllLegal grants
      → AllLegal (apply_calls calls grants)
  apply_calls-AllLegal [] grants h = h
  apply_calls-AllLegal (create g role ∷ cs) grants h =
      apply_calls-AllLegal cs _ (Changes-AllLegal grants _ (create-Changes g role grants) h)
  apply_calls-AllLegal (withdraw grant_id role ∷ cs) grants h =
      apply_calls-AllLegal cs _
        (Changes-AllLegal grants _ (revoke-Changes grant_id role grants h) h)

  -- After any calls of the grant service, from an empty repository, no grant authorizes a plan that
  -- has a destructive step.
  pub authorize-not_destructive :
      (net : NetLib) (calls : List GrantCall) (grant_id : String) (scope : ScopeSnapshot)
      (steps : List PlanStep) (now : ℕ)
      → authorize net (apply_calls calls []) grant_id scope steps now ≡ ok granted
      → all (λ s. not (elem s.risk (RiskClass.destructive ∷ []))) steps ≡ true
  authorize-not_destructive net calls grant_id scope steps now h =
      let (g, e, a) = (authorize_iff net (apply_calls calls []) grant_id scope steps now).0 h in
      let l = apply_calls-AllLegal calls [] (λ k x p. absurd (cc)) grant_id g e in
      steps_covered g.risk_caps l.0 steps a.risks

stored_inactive :
    (net : NetLib) (grants : Grants) (grant_id : String) (g : EngagementGrant)
    (scope : ScopeSnapshot) (steps : List PlanStep) (now : ℕ)
    → lookup grant_id grants ≡ some g
    → is_active_at g now ≡ false
    → authorize net grants grant_id scope steps now ≡ ok (denied "GRANT_INACTIVE")
unfolding authorize
stored_inactive net grants grant_id g scope steps now e i = ground arith

-- Once a human has revoked a stored grant, it authorizes nothing, whatever its window.
pub revoked-authorizes_nothing :
    (net : NetLib) (grants : Grants) (grant_id : String) (g : EngagementGrant)
    (scope : ScopeSnapshot) (steps : List PlanStep) (now : ℕ)
    → lookup grant_id grants ≡ some g
    → g.id ≡ grant_id
    → authorize net (revoke grant_id "human" grants).1 grant_id scope steps now
      ≡ ok (denied "GRANT_INACTIVE")
unfolding revoke is_active_at
revoked-authorizes_nothing net grants grant_id g scope steps now e i =
    stored_inactive net (revoke grant_id "human" grants).1 grant_id (revoke_grant g) scope steps now
      (ground (arith, lookup-insert_self grant_id (revoke_grant g) grants)) refl
