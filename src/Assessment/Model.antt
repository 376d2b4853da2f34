-- ===== src/Assessment/Model.antt =====
-- src/secopent/domain/assessments/models.py: approvals and assessments.
use sec_opent.Prelude.{
  Bool, true, not, ◌||◌, Option, none, some, String, List, [], ◌∷◌, elem, if◌then◌else◌,
}
use sec_opent.Prelude.Text.{is_empty}
use sec_opent.Prelude.Raises.{Result, ok, err, validation, ◌>>◌, raise_if}
use sec_opent.Risk.{RiskClass, ExecutionMode}
use sec_opent.Assessment.Status.{AssessmentStatus, ControlState, status_eq}

pub record Approval : Type 0 where
  pub id : String
  pub assessment_id : String
  pub plan_digest : String
  pub scope_digest : String
  pub mode : ExecutionMode
  pub approved_risks : List RiskClass
  pub approved_capabilities : List String
  pub approved_by : String
  pub digest : String

-- `Approval.create`. `digest_of` is `canonical_digest` of the fields but the id and the digest.
unfoldable pub create_approval : (Approval → String) → Approval → Result Approval
create_approval digest_of a =
    if is_empty a.plan_digest || is_empty a.scope_digest
    then err (validation "approval requires plan and scope digest")
    else ok (record a { digest = digest_of a })

pub record Assessment : Type 0 where
  pub id : String
  pub project_id : String
  pub scope_snapshot_id : String
  pub mode : ExecutionMode
  pub status : AssessmentStatus
  pub active_plan_id : Option String
  pub approval_id : Option String
  pub control : ControlState

-- `Assessment.create`
unfoldable pub create_assessment : String → String → String → ExecutionMode → Result Assessment
create_assessment assessment_id project_id scope_snapshot_id mode =
    if is_empty assessment_id || is_empty project_id || is_empty scope_snapshot_id
    then err (validation "assessment identifiers are required")
    else ok (record {
      id = assessment_id;
      project_id = project_id;
      scope_snapshot_id = scope_snapshot_id;
      mode = mode;
      status = AssessmentStatus.draft;
      active_plan_id = none;
      approval_id = none;
      control = ControlState.idle;
    })

-- `not x` of an `Optional[str]`.
abbrev pub is_missing : Option String → Bool
is_missing none = true
is_missing (some s) = is_empty s

-- `Assessment.start`
unfoldable pub start_assessment : Assessment → String → Option String → Result Assessment
start_assessment a plan_id approval_id = do
  raise_if (is_missing approval_id) (validation "assessment requires approval")
  raise_if (not (elem (a.status) (AssessmentStatus.draft ∷ AssessmentStatus.approved ∷ [])))
      (validation "assessment cannot start from current status")
  ok (record a {
    status = AssessmentStatus.queued;
    active_plan_id = some plan_id;
    approval_id = approval_id;
  })
