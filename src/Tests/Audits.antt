-- ===== src/Tests/Audits.antt =====
-- The audit chain and permits at concrete inputs.
use sec_opent.Prelude.{
  true, false, ◌≡◌, ◌≢◌, ◌⊎◌, refl, some, none, List, [], ◌∷◌, if◌then◌else◌, ◌==◌, nat_eq,
}
use sec_opent.Prelude.Int.{pos}
use sec_opent.Prelude.Text.{codes, text_eq, list_beq_iff}
use sec_opent.Prelude.Raises.{ok, validation}
use sec_opent.Audit.{
  AuditLib, Body, AuditEvent, SignedAuditEvent, Chain, Value, genesis_hash, verify, verify_chain,
  bare_events, fresh_chain, redact_pii, record_permit_nonce, permit_nonces, with_nonce,
}
use sec_opent.Audit.Restart.{load}
use sec_opent.Audit.Redaction.{export}
use sec_opent.Audit.Links.{
  Honest, AuditCall, record_call, nonce_call, rotate_call, redact_call, answer, perform_all,
  body_of, signed_of, verify-perform_all,
}
use sec_opent.Audit.Tamper.{Collision, verify_chain_unique}
use sec_opent.Audit.Redaction.{Pointwise, Masks, redact_pii-Masks}
use sec_opent.Audit.Restart.{verify-restart, restart_repeats}
use sec_opent.Permits
use sec_opent.Permits.{ExecutionPermit, PermitKeys}
use sec_opent.Permits.Replay.{replay_refused}

abbrev lib : AuditLib
lib = record {
  hex_digest = λ b. 48 ∷ codes b.id;
  sign = λ h. 1 ∷ h;
  check = λ h s. s == 1 ∷ h;
  event_id = λ n. if n == 1 then "evt-1" else if n == 2 then "evt-2" else "evt-3";
  lower = λ s. s;
  show = λ v. "";
}

honest : Honest lib
honest = record { plain = λ b. refl; signed = λ h. (list_beq_iff h h).1 refl }

abbrev started : AuditCall
started = record_call "alice" "assessment.started" "assessment" "a1" [] none 10

abbrev nameless : AuditCall
nameless = record_call "" "assessment.started" "assessment" "a1" [] none 10

abbrev calls : List AuditCall
calls = started ∷ nameless ∷ nonce_call "worker" "job:scan" "n1" 11 ∷ rotate_call "admin" 12 ∷ []

abbrev empty : Chain
empty = fresh_chain (some [])

verify-perform_all_example : verify lib (perform_all lib calls empty) ≡ true
verify-perform_all_example = verify-perform_all lib honest (some []) calls

abbrev first_event : SignedAuditEvent
first_event =
    signed_of lib (body_of lib "alice" "assessment.started" "assessment" "a1" [] none 10 empty)

verify_chain_unique_example : (first_event.event ∷ [] ≡ first_event.event ∷ []) ⊎ Collision lib
unfolding sec_opent.Audit.verify_from
verify_chain_unique_example =
    verify_chain_unique lib honest (first_event.event ∷ []) (first_event.event ∷ []) refl refl refl
      refl

verify-restart_example :
    ((load (first_event ∷ [])).events ≡ (perform_all lib (started ∷ []) empty).events)
    × ((load (first_event ∷ [])).tail ≡ (perform_all lib (started ∷ []) empty).tail)
    × (verify lib (perform_all lib calls (load (first_event ∷ []))) ≡ true)
unfolding perform_all sec_opent.Audit.Links.perform sec_opent.Audit.record_event
    sec_opent.Audit.create
verify-restart_example = verify-restart lib honest (started ∷ []) calls (first_event ∷ []) refl

abbrev after_failure : Chain
after_failure = record empty { counter = 1 }

abbrev second_event : SignedAuditEvent
second_event =
    signed_of lib
      (body_of lib "alice" "assessment.started" "assessment" "a1" [] none 10 after_failure)

abbrev reloaded : Chain
reloaded = load (second_event ∷ [])

abbrev third_event : SignedAuditEvent
third_event =
    signed_of lib (body_of lib "alice" "assessment.started" "assessment" "a1" [] none 10 reloaded)

restart_repeats_example : third_event.event.body.id ≡ second_event.event.body.id
unfolding sec_opent.Audit.record_event sec_opent.Audit.create load
restart_repeats_example =
    restart_repeats lib nameless started started empty after_failure
      (answer lib started after_failure).1 (answer lib started reloaded).1
      (validation "audit event fields must not be empty") second_event third_event refl refl refl
      refl

redact_pii-Masks_example :
    let after = (redact_pii lib "evt-1" ("name" ∷ []) "dpo" 20 (perform_all lib calls empty)).1 in
    Pointwise (Masks "evt-1" ("name" ∷ [])) (export false after) (export true after)
redact_pii-Masks_example =
    redact_pii-Masks lib "evt-1" ("name" ∷ []) "dpo" 20 (perform_all lib calls empty)

abbrev keys : PermitKeys
keys = record { sign = λ c. 7 ∷ []; check = λ c s. s == 7 ∷ [] }

abbrev permit : ExecutionPermit
permit = record {
  content = record {
    job_id = "job:scan";
    worker_id = "w";
    scope_digest = "sha256:scope";
    plan_digest = "sha256:plan";
    capabilities = [];
    budget = pos 5;
    issued_at = 10;
    expires_at = 100;
    nonce = "n1";
  };
  signature = 7 ∷ [];
}

abbrev nonce_event : SignedAuditEvent
nonce_event = signed_of lib (
    body_of lib "worker" "permit.used" "permit" "job:scan" (("job_id", Value.text "job:scan") ∷ [])
      (some "n1") 11 empty)

replay_refused_example :
    Permits.verify keys permit 30
      (permit_nonces lib
        (perform_all lib calls (record_permit_nonce lib "worker" "job:scan" "n1" 11 empty).1))
      none
    ≢ ok tt
unfolding record_permit_nonce sec_opent.Audit.record_event sec_opent.Audit.create
replay_refused_example =
    replay_refused lib keys permit none 30 "worker" "job:scan" 11 empty nonce_event calls refl

-- Before its nonce was recorded, the permit of that example passes.
first_use : Permits.verify keys permit 30 (permit_nonces lib empty) none ≡ ok tt
unfolding Permits.verify
first_use = refl
