-- ===== src/Assessment/Status.antt =====
-- src/secopent/domain/assessments/models.py and transitions.py: statuses, control signals and the
-- table of legal transitions.
use sec_opent.Prelude.{ℕ, true, not, List, [], ◌∷◌, Eq, nat_beq, elem, ◌≡◌, ◌↔◌, arith}
use sec_opent.Prelude.Raises.{Result, validation, raise_if}

pub data AssessmentStatus : Type 0 where
  draft planned awaiting_approval approved rejected queued running paused completed partial failed
        cancelled :
      AssessmentStatus

pub data ControlState : Type 0 where
  idle pause_requested resume_requested cancel_requested : ControlState

abbrev pub status_code : AssessmentStatus → ℕ
status_code AssessmentStatus.draft = 0
status_code AssessmentStatus.planned = 1
status_code AssessmentStatus.awaiting_approval = 2
status_code AssessmentStatus.approved = 3
status_code AssessmentStatus.rejected = 4
status_code AssessmentStatus.queued = 5
status_code AssessmentStatus.running = 6
status_code AssessmentStatus.paused = 7
status_code AssessmentStatus.completed = 8
status_code AssessmentStatus.partial = 9
status_code AssessmentStatus.failed = 10
status_code AssessmentStatus.cancelled = 11

pub status_code_iff :
    (a b : AssessmentStatus) → (nat_beq (status_code a) (status_code b) ≡ true) ↔ (a ≡ b)
status_code_iff a b = (λ h. ground arith, λ h. ground arith)

instance abbrev pub status_eq : Eq AssessmentStatus
status_eq = record {
  beq = λ a b. nat_beq (status_code a) (status_code b);
  beq_iff = status_code_iff;
}

-- `ALLOWED_TRANSITIONS`
abbrev pub allowed_transitions : AssessmentStatus → List AssessmentStatus
allowed_transitions AssessmentStatus.draft = AssessmentStatus.awaiting_approval ∷ []
allowed_transitions AssessmentStatus.planned = []
allowed_transitions AssessmentStatus.awaiting_approval =
    AssessmentStatus.approved ∷ AssessmentStatus.rejected ∷ AssessmentStatus.awaiting_approval ∷ []
allowed_transitions AssessmentStatus.approved = AssessmentStatus.queued ∷ []
allowed_transitions AssessmentStatus.rejected = []
allowed_transitions AssessmentStatus.queued =
    AssessmentStatus.running ∷ AssessmentStatus.cancelled ∷ []
allowed_transitions AssessmentStatus.running =
    AssessmentStatus.completed ∷ AssessmentStatus.partial ∷ AssessmentStatus.failed
    ∷ AssessmentStatus.paused ∷ AssessmentStatus.cancelled ∷ []
allowed_transitions AssessmentStatus.paused =
    AssessmentStatus.running ∷ AssessmentStatus.cancelled ∷ []
allowed_transitions AssessmentStatus.completed = []
allowed_transitions AssessmentStatus.partial = []
allowed_transitions AssessmentStatus.failed = []
allowed_transitions AssessmentStatus.cancelled = []

unfoldable pub assert_transition : AssessmentStatus → AssessmentStatus → Result (Unit {0})
assert_transition current target =
    raise_if (not (elem target (allowed_transitions current)))
      (validation "illegal assessment transition: ")
