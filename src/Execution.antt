-- ===== src/Execution.antt =====
-- src/secopent/application/execution.py: one run of an assessment, from its permit to its findings.
-- This file has the state of a run and what it is wired with.
pub mod Permit
pub mod Targets
pub mod Gate
pub mod Finish
pub mod Assess
pub mod Still
pub mod Signals
pub mod Destinations
pub mod Cleared
pub mod Authorized
pub mod Blocked
use sec_opent.Prelude.{
  ℕ, Bool, true, false, Option, none, some, String, List, [], ◌∷◌, if◌then◌else◌,
}
use sec_opent.Prelude.Text.{Text}
use sec_opent.Prelude.Dict.{Dict}
use sec_opent.Prelude.Raises.{Error, Result, ok, err}
use sec_opent.Prelude.Action.{Action}
use sec_opent.Risk.{PolicyDecision}
use sec_opent.Scope.{NetLib, ScopeSnapshot}
use sec_opent.Assessment.{PlanStep, Assessment}
use sec_opent.Service.{Store}
use sec_opent.Service
use sec_opent.Audit.{AuditLib, Chain, Value, record_event}
use sec_opent.Permits.{PermitKeys}
use sec_opent.Safety.{Revoker}
use sec_opent.Orchestrator.{Ran, Machine}

-- The repository of assessments, the signed chain, the permit registry, the actions in the queryable
-- audit log and in the outbox (the latest first), the ids of the stored findings, and the jobs with the
-- number of the runner's calls.
pub record World : Type 0 where
  pub store : Store
  pub chain : Chain
  pub revoker : Revoker
  pub log : List String
  pub outbox : List String
  pub findings : List String
  pub machine : Machine

-- What a run is wired with; what may be missing is an Option or a flag. `stop` is the emergency stop's
-- state when it is read, `enforcer` the resolver of the scope enforcer, `egress` the guard's check, `nft`
-- what `apply_scope` does. `runner` is what the factory makes for a scope. `findings_of` stands for the
-- observations of a run and their correlation, `verify_findings` for the oracle's batch, and `terminate`
-- for the terminator's answer. `meanwhile n` is what other threads do to the repository before the n-th
-- time that the step gate reads it. The time is in microseconds.
pub record Env : Type 0 where
  pub audit : AuditLib
  pub net : NetLib
  pub has_outbox : Bool
  pub has_chain : Bool
  pub has_registry : Bool
  pub stop : Option Bool
  pub signer : Option PermitKeys
  pub verifier : Option PermitKeys
  pub fresh_nonce : String
  pub now : ℕ
  pub hour : ℕ
  pub enforcer : Option (Text → List Text)
  pub egress : Option (Text → ScopeSnapshot → Result PolicyDecision)
  pub nft : Option (Result (Unit {0}))
  pub scopes : String → Option ScopeSnapshot
  pub runner : ScopeSnapshot → Result (ℕ → PlanStep → Ran)
  pub job_id : String → String
  pub job_key : String → String → String
  pub lease_ttl : ℕ
  pub rounds : ℕ
  pub meanwhile : ℕ → Store → Store
  pub findings_of : Machine → List String
  pub verify_findings : Option (List String → Result (Unit {0}))
  pub terminate : Option (Result ℕ)

abbrev pub Method : Type 0 → Type 0
Method A = Action World A

-- A call on the repository alone.
unfoldable pub on_store : {A : Type 0} → Action Store A → Method A
on_store m w = let (r, s) = m w.store in (r, record w { store = s })

-- The event in the signed chain, if there is one.
unfoldable pub chain_record : Env → String → String → Dict Value → Method (Unit {0})
chain_record env action id payload w =
    if env.has_chain
    then (let (r, c) =
          record_event env.audit "system" action "assessment" id payload none env.now w.chain in
        (elim r [ ok s ↦ ok tt | err e ↦ err e ], record w { chain = c }))
    else (ok tt, w)

-- `_audit_record` without a `permit_nonce`, which no caller passes: one row of the outbox, or the
-- queryable log and the signed chain. The log's own write is taken not to raise.
unfoldable pub audit_record : Env → String → String → Dict Value → Method (Unit {0})
audit_record env action id payload w =
    if env.has_outbox
    then (ok tt, record w { outbox = action ∷ w.outbox })
    else chain_record env action id payload (record w { log = action ∷ w.log })

-- `service.fail(assessment_id, reason)`: the reason is not kept.
unfoldable pub fail_run : String → Method Assessment
fail_run id = on_store (Service.fail id)

-- A payload whose values are formatted from others.
abbrev pub formatted : List String → Dict Value
formatted [] = []
formatted (k ∷ ks) = (k, Value.opaque 0) ∷ formatted ks
