-- ===== src/Execution/Permit.antt =====
-- src/secopent/application/execution.py: `_issue_permit` and `_verify_permit`.
use sec_opent.Prelude.{
  ◌+◌, Bool, true, false, Option, none, some, String, List, [], ◌∷◌, if◌then◌else◌,
}
use sec_opent.Prelude.Int.{pos}
use sec_opent.Prelude.Raises.{Result, ok, err}
use sec_opent.Prelude.Action.{◌>>=◌, ◌>>◌, lift, pure}
use sec_opent.Audit.{permit_nonces, record_permit_nonce}
use sec_opent.Permits.{ExecutionPermit, PermitKeys, check_permit, issue, verify}
use sec_opent.Safety.{Revoker, record_issued, record_used}
use sec_opent.Execution.{World, Env, Method, audit_record, fail_run, formatted}

-- The permit before it is signed: good for 15 minutes.
abbrev pub new_permit : Env → String → String → String → ExecutionPermit
new_permit env id scope_digest plan_digest = record {
  content = record {
    job_id = id;
    worker_id = "adapter-executor";
    scope_digest = scope_digest;
    plan_digest = plan_digest;
    capabilities = [];
    budget = pos 0;
    issued_at = env.now;
    expires_at = env.now + 900000000;
    nonce = env.fresh_nonce;
  };
  signature = [];
}

-- `registry.record_issued` and `registry.record_used`, if there is a registry.
abbrev pub on_registry : Env → (Revoker → Revoker) → Method (Unit {0})
on_registry env f w =
    if env.has_registry then (ok tt, record w { revoker = f w.revoker }) else (ok tt, w)

unfoldable pub issue_permit : Env → String → String → String → Method (Option ExecutionPermit)
issue_permit env id scope_digest plan_digest = elim (env.signer) [
  | none ↦ pure none
  | some keys ↦ do
    permit ← lift (check_permit (new_permit env id scope_digest plan_digest))
    on_registry env (record_issued permit.nonce false)
    pure (some (issue keys permit))
]

abbrev pub used_nonces : Env → World → List String
used_nonces env w = if env.has_chain then permit_nonces env.audit w.chain else []

-- What follows the verifier's answer: the nonce is marked as used, or the run fails and this is noted.
unfoldable pub settle : Env → String → ExecutionPermit → Result (Unit {0}) → Method Bool
settle env id permit (ok u) = do on_registry env (record_used permit.nonce); pure true
settle env id permit (err e) = do
  fail_run id
  audit_record env "assessment.blocked.permit_invalid" id (formatted ("reason" ∷ []))
  pure false

abbrev pub verdict : Env → PermitKeys → ExecutionPermit → World → Result (Unit {0})
verdict env keys permit w = verify keys permit env.now (used_nonces env w) (some "adapter-executor")

-- The answer is whether the run may go on: `False` stands for the source's `None`.
unfoldable pub verify_permit : Env → String → Option ExecutionPermit → Method Bool
verify_permit env id none = pure true
verify_permit env id (some permit) = elim (env.verifier) [
  | none ↦ pure true
  | some keys ↦ λ w. settle env id permit (verdict env keys permit w) w
]

-- The nonce goes into the signed chain, if there is one.
unfoldable pub record_nonce : Env → String → Option ExecutionPermit → Method (Unit {0})
record_nonce env id none w = (ok tt, w)
record_nonce env id (some permit) w =
    if env.has_chain
    then (let (r, c) = record_permit_nonce env.audit "system" id permit.nonce env.now w.chain in
        (elim r [ ok s ↦ ok tt | err e ↦ err e ], record w { chain = c }))
    else (ok tt, w)
