-- ===== src/Permits.antt =====
-- src/secopent/domain/permits/models.py and infrastructure/permits/permit_signer.py: signed,
-- short-lived permits that are used once.
pub mod Replay
use sec_opent.Prelude.{
  ℕ, Bool, true, false, not, ◌||◌, Option, none, some, String, List, elem, if◌then◌else◌, leb, ◌==◌,
  string_eq,
}
use sec_opent.Prelude.Text.{Text, is_empty}
use sec_opent.Prelude.Int.{ℤ, pos, ltb_ℤ}
use sec_opent.Prelude.Raises.{
  Result, ok, err, validation, permit_signature, permit_expired, permit_replayed, permit_worker,
  ◌>>=◌, ◌>>◌, raise_if,
}

-- The fields that `signing_payload` covers: all but the signature. `budget` is a float that is only
-- compared with 0: it is kept in thousandths. Times are microseconds since the epoch.
pub record Content : Type 0 where
  pub job_id : String
  pub worker_id : String
  pub scope_digest : String
  pub plan_digest : String
  pub capabilities : List String
  pub budget : ℤ
  pub issued_at : ℕ
  pub expires_at : ℕ
  pub nonce : String

pub record ExecutionPermit : Type 0 where
  pub content : Content
  pub open content use *
  pub signature : Text

-- `ExecutionPermit.__post_init__`
unfoldable pub check_permit : ExecutionPermit → Result ExecutionPermit
check_permit p = do
  raise_if (is_empty p.job_id) (validation "ExecutionPermit.job_id must be non-empty")
  raise_if (is_empty p.worker_id) (validation "ExecutionPermit.worker_id must be non-empty")
  raise_if (is_empty p.nonce) (validation "ExecutionPermit.nonce must be non-empty")
  raise_if (ltb_ℤ p.budget (pos 0)) (validation "ExecutionPermit.budget must be >= 0")
  raise_if (leb p.expires_at p.issued_at)
      (validation "ExecutionPermit.expires_at must be after issued_at")
  ok p

abbrev pub is_expired : ExecutionPermit → ℕ → Bool
is_expired p now = leb p.expires_at now

-- Ed25519 over the canonical bytes of the content, in hex: `check` answers whether the public key
-- accepts the signature, a bad hex text included.
pub record PermitKeys : Type 0 where
  pub sign : Content → Text
  pub check : Content → Text → Bool

-- `PermitSigner.issue`
unfoldable pub issue : PermitKeys → ExecutionPermit → ExecutionPermit
issue keys p = record p { signature = keys.sign p.content }

abbrev pub is_other_worker : Option String → String → Bool
is_other_worker none worker_id = false
is_other_worker (some expected) worker_id = not (worker_id == expected)

-- `PermitVerifier.verify`
unfoldable pub verify :
    PermitKeys → ExecutionPermit → ℕ → List String → Option String → Result (Unit {0})
verify keys p now used_nonces expected_worker = do
  raise_if (not (keys.check p.content p.signature)) permit_signature
  raise_if (is_expired p now) permit_expired
  raise_if (elem p.nonce used_nonces) permit_replayed
  raise_if (is_other_worker expected_worker p.worker_id) permit_worker
  ok tt
