-- ===== src/Lib.antt =====
-- SecOpent is a platform for authorized penetration tests: people define what may be tested and
-- approve plans, and software, agents included, runs only what was approved. This library models the
-- core of that program: who may do what, in which order, and what is recorded of it.
--
-- The parts, and the files that model them (paths below src/secopent):
-- - Prelude: texts, dictionaries in insertion order, exceptions as values (`Result`), and methods
--   that read and write a store and may raise (`Action`). What a method wrote before it raised stays.
-- - Risk and Policy: domain/policy/models.py and engine.py, `evaluate`.
-- - Scope: domain/scope/models.py and normalize.py. `Scope.Draft` is `ScopeDraft.freeze`,
--   `Scope.Snapshot` the matchers of `ScopeSnapshot`. Python's ipaddress, urllib.parse, posixpath and
--   Unicode methods are the record `NetLib`, an argument of all that uses them.
-- - Enforcer: application/scope_enforcer.py, `ScopeEnforcer.check`, which every target passes. The
--   method is cut at its numbered comments; the resolver is an argument.
-- - Assessment: domain/assessments: plans (`ExecutionPlan.create` with its search for cycles),
--   approvals and the table of transitions.
-- - Grants: domain/grants/models.py and application/grants.py: the boundary that a human grants and
--   under which an agent may approve and start.
-- - Service: application/assessments.py, the service that owns the life of an assessment. It calls
--   the grants through `Env.authorize`.
-- - Jobs: domain/jobs/models.py and application/jobs.py, the store of leased jobs.
-- - Orchestrator: application/orchestrator.py, which dispatches a plan into jobs and drains them.
--   `Orchestrator.Runs` takes a run apart into a sequence of two kinds of steps on the store, at the end
--   of which the runner may raise.
-- - Oracle: domain/verification and application/oracle.py: N reproductions decide on a candidate.
-- - Loop: domain/reasoning_loop/models.py and policies.py, application/reasoning_loop/feedback.py,
--   budget_gate.py, orchestrator.py and pause_control.py: the state of a reasoning loop, one step of
--   it, and what humans do to it.
-- - Chains: domain/findings/attack_chain.py, chain_templates.py and models.py,
--   application/chain_engine.py: attack chains over confirmed findings.
-- - Audit: domain/audit/models.py and application/audit_chain.py: the signed hash chain. The digest of
--   the canonical JSON, the signer and the text of a number are the record `AuditLib`.
-- - Permits: domain/permits/models.py and infrastructure/permits/permit_signer.py.
-- - Safety: application/emergency_stop.py with infrastructure/safety/permit_revoker.py, and
--   application/canary.py: the kill switch, and tokens that are good once.
-- - Egress: infrastructure/egress/egress_guard.py, `EgressGuard.check`, the last test of a destination.
-- - Updates: application/updates.py and domain/updates/models.py, signed bundles that are staged, verified
--   and activated behind a repository given by its operations.
-- - Coverage: domain/catalog and application/coverage.py, the required test classes and the gate that an
--   assessment closes through.
-- - Execution: application/execution.py, `execute_assessment` and `resume_assessment`, which put the
--   service, the permits, the audit chain, the enforcer, the guard and the orchestrator together. A run
--   acts on a `World`; `Env` says what it is wired with, and what other threads write to the repository
--   between two questions of the step gate.
-- - Cases: domain/cases/models.py and risk.py; `Cases.Service` is application/cases.py, `Cases.Engine`
--   infrastructure/case_engine/ast_evaluator.py over parsed expressions, and `Cases.Interpreter`
--   interpreter.py beside it. Python's values and operators are the record `Python`, an argument.
-- - Tests: each theorem at a concrete input.
--
-- Conventions. Times are microseconds since the epoch, and floats that are only compared are kept in
-- thousandths. Sets are lists. An exception keeps its class and its message up to the first value
-- that is formatted into it. Ids that the source draws are arguments.
--
-- Bounds. The search for cycles in a plan is cut at a depth of the number of its keys, and running out
-- of depth is an answer of its own (`out_of_fuel`), which is shown never to occur where it matters. The
-- rounds of `run_to_completion` are the source's `max_rounds`. All other loops run over a list or a
-- number that the source has.
--
-- Hypotheses. `Honest` of the audit chain says that a hex digest does not begin with "sha256:" and that
-- a signature of the signer is accepted. `NoExpressionErrors` of the case engine
-- says that Python's comparisons, `in` and `len` do not raise the evaluator's own ExpressionError. `Lawful`
-- of the updates says that staging leaves the active pointer alone and that an activation that returns has
-- moved it. `DrawsNew` of the service says that a drawn id is not in use.
--
-- Not modelled: the thread pool of the orchestrator (one worker runs the jobs in turn); locks, since
-- each locked method is one step; the sessions and rows of the database, and failures of a store's
-- `append`; the context builder, the proposer and the gates of a reasoning loop, whose answers are
-- given to a step; notes, reasons and payloads that nothing
-- reads; the commits of a run's session, its coverage figure, and the kernel's rules beyond whether
-- their application failed; Python's limits on recursion and memory; the adapters,
-- the interfaces and the model clients.
pub mod Prelude
pub mod Risk
pub mod Scope
pub mod Policy
pub mod Enforcer
pub mod Assessment
pub mod Grants
pub mod Service
pub mod Jobs
pub mod Orchestrator
pub mod Oracle
pub mod Loop
pub mod Chains
pub mod Audit
pub mod Cases
pub mod Permits
pub mod Safety
pub mod Egress
pub mod Updates
pub mod Coverage
pub mod Execution
mod Tests
