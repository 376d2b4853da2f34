-- ===== src/Execution/Targets.antt =====
-- src/secopent/application/execution.py: `_check_plan_scope`.
use sec_opent.Prelude.{
  Bool, true, false, not, ◌&&◌, none, some, String, List, [], ◌∷◌, ◌++◌, elem, if◌then◌else◌,
  nat_eq,
}
use sec_opent.Prelude.Int.{pos}
use sec_opent.Prelude.Text.{Text, text_eq, codes, is_empty}
use sec_opent.Prelude.Dict.{lookup}
use sec_opent.Prelude.Raises.{Result, ok}
use sec_opent.Prelude.Action.{◌>>=◌, ◌>>◌, lift, pure}
use sec_opent.Risk.{RiskClass, PolicyDecision}
use sec_opent.Policy.{allow}
use sec_opent.Scope.{ScopeSnapshot, is_http_rule}
use sec_opent.Assessment.{PlanStep}
use sec_opent.Enforcer.{EnforcementContext}
use sec_opent.Enforcer
use sec_opent.Execution.{Env, Method, audit_record, fail_run, formatted}

-- The explicit targets of the steps.
abbrev pub step_targets : List PlanStep → List Text
step_targets [] = []
step_targets (s ∷ ss) =
    let rest = step_targets ss in
    elim (lookup "target" s.parameters) [
      | none ↦ rest
      | some target ↦ if is_empty target then rest else codes target ∷ rest
    ]

-- `"/" in target and not target.startswith(("http://", "https://"))`: a network, which is no target.
abbrev pub is_cidr : Text → Bool
is_cidr target = elem b'/' target && not (is_http_rule target)

-- The loop over `scope.include`.
unfoldable pub add_included : List Text → List Text → List Text
add_included [] targets = targets
add_included (t ∷ ts) targets =
    add_included ts
      (if is_cidr t then targets else if elem t targets then targets else targets ++ (t ∷ []))

abbrev pub targets_of : List PlanStep → ScopeSnapshot → List Text
targets_of steps scope = add_included scope.include (step_targets steps)

-- The context of the enforcer: the risk has been approved upstream.
abbrev pub scan_context : Env → Bool → EnforcementContext
scan_context env permit_valid = record {
  risk = RiskClass.passive;
  approved_risks = RiskClass.passive ∷ [];
  approved = true;
  budget_remaining = pos 1;
  now_hour = env.hour;
  time_window = none;
  permit_valid = permit_valid;
}

-- What each of the two checks says of a target; a missing one lets it pass.
abbrev pub egress_check : Env → ScopeSnapshot → Text → Result PolicyDecision
egress_check env scope target = elim (env.egress) [
  | none ↦ ok allow
  | some guard ↦ guard target scope
]

abbrev pub scope_check : Env → ScopeSnapshot → Bool → Text → Result PolicyDecision
scope_check env scope permit_valid target = elim (env.enforcer) [
  | none ↦ ok allow
  | some dns ↦ Enforcer.check env.net dns scope (scan_context env permit_valid) target
]

-- A denied target fails the run, and this is noted.
unfoldable pub block : Env → String → String → Method Bool
block env id action = do
  fail_run id
  audit_record env action id (formatted ("target" ∷ "reason" ∷ []))
  pure false

-- The loop over the targets: the first denial ends it.
unfoldable pub check_targets : Env → String → ScopeSnapshot → Bool → List Text → Method Bool
check_targets env id scope permit_valid [] = pure true
check_targets env id scope permit_valid (target ∷ rest) =
    let later = check_targets env id scope permit_valid rest in
    do
      egress ← lift (egress_check env scope target)
      if not egress.allowed then block env id "assessment.blocked.egress_denied" else do
        decision ← lift (scope_check env scope permit_valid target)
        if decision.allowed then later else block env id "assessment.blocked.scope_violation"

-- `_check_plan_scope`: with neither check wired there is nothing to ask.
unfoldable pub check_plan_scope : Env → String → List PlanStep → ScopeSnapshot → Bool → Method Bool
check_plan_scope env id steps scope permit_valid =
    check_targets env id scope permit_valid (targets_of steps scope)
