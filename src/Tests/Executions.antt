-- ===== src/Tests/Executions.antt =====
-- One run of an assessment at concrete inputs, with everything wired.
use sec_opent.Prelude.{true, false, Option, none, some, [], ◌∷◌, ◌==◌, ◌≡◌, ◌↔◌, ◌⊎◌, refl}
use sec_opent.Prelude.Int.{ℤ}
use sec_opent.Prelude.Text.{Text, codes, text_eq}
use sec_opent.Prelude.Raises.{ok}
use sec_opent.Risk.{ExecutionMode}
use sec_opent.Policy.{allow}
use sec_opent.Assessment.{AssessmentStatus, ControlState, ExecutionPlan, Assessment}
use sec_opent.Service.{Store}
use sec_opent.Audit.{AuditLib, fresh_chain}
use sec_opent.Permits.{PermitKeys}
use sec_opent.Orchestrator.{produced}
use sec_opent.Egress.{EgressGuard, check}
use sec_opent.Egress.Allowed.{Open, check_iff}
use sec_opent.Execution.{World, Env}
use sec_opent.Execution.Authorized.{Authorized, execute_assessment-Authorized}
use sec_opent.Execution.Assess.{execute_assessment, resume_assessment}
use sec_opent.Execution.Blocked.{InStatus, stop_at_start_only}
use sec_opent.Tests.Data.{host, net, scope, steps}

abbrev lib : AuditLib
lib = record {
  hex_digest = λ b. 48 ∷ codes b.id;
  sign = λ h. 1 ∷ h;
  check = λ h s. s == 1 ∷ h;
  event_id = λ n. "evt";
  lower = λ s. s;
  show = λ v. "";
}

abbrev keys : PermitKeys
keys = record { sign = λ c. codes c.nonce; check = λ c s. s == codes c.nonce }

abbrev guard : EgressGuard
guard = record { dns = λ h. []; blocked = [] }

abbrev env : Env
env = record {
  audit = lib;
  net = net;
  has_outbox = false;
  has_chain = true;
  has_registry = true;
  stop = some false;
  signer = some keys;
  verifier = some keys;
  fresh_nonce = "n1";
  now = 10;
  hour = 9;
  enforcer = some (λ h. []);
  egress = some (λ target s. check net guard s target);
  nft = none;
  scopes = λ id. some scope;
  runner = λ s. ok (λ n step. produced "digest");
  job_id = λ k. k;
  job_key = λ d k. k;
  lease_ttl = 60;
  rounds = 9;
  meanwhile = λ n s. s;
  findings_of = λ m. "f1" ∷ [];
  verify_findings = none;
  terminate = none;
}

abbrev queued : Assessment
queued = record {
  id = "a1";
  project_id = "project";
  scope_snapshot_id = "scope";
  mode = ExecutionMode.approval;
  status = AssessmentStatus.queued;
  active_plan_id = some "p1";
  approval_id = some "ap1";
  control = ControlState.pause_requested;
}

abbrev plan : ExecutionPlan
plan = record { id = "p1"; assessment_id = "a1"; version = 1; steps = steps; digest = "digest" }

abbrev store : Store
store = record { assessments = ("a1", queued) ∷ []; plans = ("p1", plan) ∷ []; approvals = [] }

abbrev world : World
world = record {
  store = store;
  chain = fresh_chain none;
  revoker = record { issued = []; revoked = [] };
  log = [];
  outbox = [];
  findings = [];
  machine = record { jobs = []; ran = 0; asked = 0 };
}

execute_assessment-Authorized_example :
    ((execute_assessment env "a1" world).1.machine ≡ world.machine) ⊎ Authorized env "a1" world
execute_assessment-Authorized_example = execute_assessment-Authorized env "a1" world

abbrev stopped_env : Env
stopped_env = record env { stop = some true }

stop_at_start_only_example :
    ((execute_assessment stopped_env "a1" world).1.machine ≡ world.machine)
    × InStatus "a1" queued AssessmentStatus.failed
        (execute_assessment stopped_env "a1" world).1.store
    × (resume_assessment stopped_env "a1" world
        ≡ resume_assessment
            (record env {
              stop = none;
              signer = none;
              verifier = none;
              enforcer = none;
              egress = none;
            })
            "a1"
            world)
stop_at_start_only_example = stop_at_start_only stopped_env "a1" queued world world refl refl refl

check_iff_example :
    (check net guard scope host ≡ ok allow)
    ↔ ((h : Text) × (port : Option ℤ) × Open net guard scope host h port)
check_iff_example = check_iff net guard scope host
