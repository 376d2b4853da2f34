-- ===== src/Grants.antt =====
-- src/secopent/domain/grants/models.py and application/grants.py: the human-granted boundary under
-- which an agent may approve and start, and the service that keeps the grants.
pub mod Authority
pub mod Lifecycle
use sec_opent.Prelude.{
  ℕ, Bool, true, false, not, ◌&&◌, ◌||◌, Option, none, some, String, List, [], ◌∷◌, elem, subset,
  all, select, if◌then◌else◌, ltb, leb, string_eq, ◌==◌,
}
use sec_opent.Prelude.Text.{Text, codes}
use sec_opent.Prelude.Int.{ℤ, int_eq}
use sec_opent.Prelude.Dict.{Dict, lookup, insert, values}
use sec_opent.Prelude.Raises.{Error, Result, ok, err, validation, permission, grant_not_found}
use sec_opent.Prelude.Raises
use sec_opent.Prelude.Action.{Action, ◌>>=◌, ◌>>◌, lift, raise_if, require, modify, pure}
use sec_opent.Risk.{RiskClass, risk_eq}
use sec_opent.Scope.{NetLib, ScopeSnapshot, null, includes_url, includes_ip, includes_domain}
use sec_opent.Assessment.{PlanStep}

pub data GrantStatus : Type 0 where
  active revoked expired : GrantStatus

-- Times are microseconds since the epoch.
pub record EngagementGrant : Type 0 where
  pub id : String
  pub project_id : String
  pub name : Text
  pub scope : ScopeSnapshot
  pub risk_caps : List RiskClass
  pub valid_from : ℕ
  pub valid_to : ℕ
  pub created_by : String
  pub created_at : ℕ
  pub status : GrantStatus
  pub digest : String

abbrev pub is_revoked : GrantStatus → Bool
is_revoked GrantStatus.revoked = true
is_revoked s = false

-- `EngagementGrant.create`, of a candidate that holds the arguments. `strip` is `str.strip`, and
-- `digest_of` is `canonical_digest` of the fields.
unfoldable pub create_grant :
    (Text → Text) → (EngagementGrant → String) → EngagementGrant → Result EngagementGrant
create_grant strip digest_of g =
    let grant = record g { name = strip g.name; status = GrantStatus.active } in
    if null (strip g.name)
    then err (validation "grant name must be non-empty")
    else if elem RiskClass.destructive g.risk_caps
    then err (validation "destructive risk can never be grant-approved")
    else if leb g.valid_to g.valid_from
    then err (validation "grant window must be positive")
    else ok (record grant { digest = digest_of grant })

unfoldable pub revoke_grant : EngagementGrant → EngagementGrant
revoke_grant g = record g { status = GrantStatus.revoked }

unfoldable pub is_active_at : EngagementGrant → ℕ → Bool
is_active_at g now =
    if is_revoked g.status then false else not (ltb now g.valid_from || ltb g.valid_to now)

unfoldable pub covers_risks : EngagementGrant → List PlanStep → Bool
covers_risks g steps = all (λ s. elem s.risk g.risk_caps) steps

-- `except DomainValidationError`: any other error goes through.
abbrev pub or_else : Result Bool → Result Bool → Result Bool
or_else (ok true) next = ok true
or_else (ok false) next = next
or_else (err (validation m)) next = next
or_else (err e) next = err e

module _ (net : NetLib) where
  unfoldable pub matches_boundary : EngagementGrant → Text → Result Bool
  matches_boundary g target = or_else (includes_url net g.scope target) (
      or_else (includes_ip net g.scope target)
        (or_else (includes_domain net g.scope target) (ok false)))

  unfoldable pub covers_scope : EngagementGrant → ScopeSnapshot → Result Bool
  covers_scope g scope =
      if not (subset scope.ports g.scope.ports)
      then ok false
      else Raises.all_or_raise (matches_boundary g) scope.include

pub record GrantDecision : Type 0 where
  pub allowed : Bool
  pub reason : String

abbrev pub denied : String → GrantDecision
denied reason = record { allowed = false; reason = reason }

abbrev pub granted : GrantDecision
granted = record { allowed = true; reason = "ALLOWED" }

-- The grants of the repository, by id: `add` puts a grant in or replaces it.
abbrev pub Grants : Type 0
Grants = Dict EngagementGrant

abbrev pub require_human : String → Action Grants (Unit {0})
require_human role =
    raise_if (not (role == "human")) (permission "grant creation/revocation is human-only")

unfoldable pub create_human :
    (Text → Text)
    → (EngagementGrant → String)
    → EngagementGrant
    → String
    → Action Grants EngagementGrant
create_human strip digest_of g role = do
  require_human role
  grant ← lift (create_grant strip digest_of (record g { created_by = role }))
  modify (insert grant.id grant)
  pure grant

unfoldable pub revoke : String → String → Action Grants EngagementGrant
unfolding revoke_grant
revoke grant_id role = do
  require_human role
  grant ← require (lookup grant_id) (grant_not_found "grant not found: ")
  modify (insert (revoke_grant grant).id (revoke_grant grant))
  pure (revoke_grant grant)

module _ (net : NetLib) where
  unfoldable pub authorize :
      Grants → String → ScopeSnapshot → List PlanStep → ℕ → Result GrantDecision
  authorize grants grant_id scope steps now = elim (lookup grant_id grants) [
    | none ↦ ok (denied "GRANT_NOT_FOUND")
    | some g ↦
        if not (is_active_at g now)
        then ok (denied "GRANT_INACTIVE")
        else elim (covers_scope net g scope) [
          | err e ↦ err e
          | ok false ↦ ok (denied "GRANT_SCOPE_MISMATCH")
          | ok true ↦
              ok (if covers_risks g steps then granted else denied "GRANT_RISK_NOT_APPROVED")
        ]
  ]

unfoldable pub list_active : Grants → String → ℕ → List EngagementGrant
list_active grants project_id now =
    select (λ g. is_active_at g now) (select (λ g. g.project_id == project_id) (values grants))

unfoldable pub get_active : Grants → String → ℕ → Option EngagementGrant
get_active grants grant_id now = elim (lookup grant_id grants) [
  | none ↦ none
  | some g ↦ if is_active_at g now then some g else none
]
