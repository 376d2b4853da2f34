-- ===== src/Risk.antt =====
-- src/secopent/domain/policy/models.py: risk classes, execution modes and decisions.
use sec_opent.Prelude.{ℕ, Bool, true, String, Eq, nat_beq, ◌≡◌, ◌↔◌, arith}

pub data RiskClass : Type 0 where
  passive low active intrusive destructive : RiskClass

abbrev pub risk_code : RiskClass → ℕ
risk_code RiskClass.passive = 0
risk_code RiskClass.low = 1
risk_code RiskClass.active = 2
risk_code RiskClass.intrusive = 3
risk_code RiskClass.destructive = 4

pub risk_code_iff : (a b : RiskClass) → (nat_beq (risk_code a) (risk_code b) ≡ true) ↔ (a ≡ b)
risk_code_iff a b = (λ h. ground arith, λ h. ground arith)

instance abbrev pub risk_eq : Eq RiskClass
risk_eq = record { beq = λ a b. nat_beq (risk_code a) (risk_code b); beq_iff = risk_code_iff }

pub data ExecutionMode : Type 0 where
  approval scope_autopilot : ExecutionMode

pub record PolicyDecision : Type 0 where
  pub allowed : Bool
  pub reason : String
