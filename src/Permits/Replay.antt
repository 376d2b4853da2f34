-- ===== src/Permits/Replay.antt =====
-- src/secopent/infrastructure/permits/permit_signer.py with the nonces of
-- application/audit_chain.py: a permit is good once.
use sec_opent.Prelude.{
  ℕ, ◌<◌, true, false, Option, none, some, String, List, [], ◌∷◌, ◌++◌, elem, elem-append,
  string_eq, ◌≡◌, ◌≢◌, ◌↔◌, inl, inr, refl, ap, sym, ◌∙◌, arith, Option-cases, ||-left, ||-right,
  elem_head,
}
use sec_opent.Prelude.Dict.{lookup}
use sec_opent.Prelude.Raises.{ok}
use sec_opent.Audit.{
  AuditLib, Chain, SignedAuditEvent, Value, record_event, record_permit_nonce, rotate, redact_pii,
  nonces_of, permit_nonces, str_value,
}
use sec_opent.Audit.Links.{
  AuditCall, record_call, nonce_call, rotate_call, redact_call, perform, perform_all,
  record_event_outcome,
}
use sec_opent.Permits.{ExecutionPermit, PermitKeys, verify, is_other_worker}

-- A permit passes exactly if its signature fits its content, its time is not over, its nonce was not
-- used, and it is the expected worker's, if one is expected.
pub verify_iff :
    (keys : PermitKeys) (p : ExecutionPermit) (now : ℕ) (used : List String)
    (worker : Option String)
    → (verify keys p now used worker ≡ ok tt) ↔ (
        (keys.check p.content p.signature ≡ true)
        × (now < p.expires_at)
        × (elem p.nonce used ≡ false)
        × (is_other_worker worker p.worker_id ≡ false))
unfolding verify
verify_iff keys p now used worker = (λ h. ground arith, λ h. ground arith)

module _ (lib : AuditLib) where
  nonces_of-append :
      (xs ys : List SignedAuditEvent)
      → nonces_of lib (xs ++ ys) ≡ nonces_of lib xs ++ nonces_of lib ys
  nonces_of-append [] ys = refl
  nonces_of-append (x ∷ xs) ys = elim (Option-cases (lookup "permit_nonce" x.event.body.payload)) [
    | inl n ↦ rw (n, nonces_of) (nonces_of-append xs ys)
    | inr (v, e) ↦ rw (e, nonces_of) (ap (λ l. str_value lib v ∷ l) (nonces_of-append xs ys))
  ]

  -- The nonce is among those of the chain.
  abbrev pub Used : String → Chain → Type 0
  Used nonce c = elem nonce (permit_nonces lib c) ≡ true

  record_event-Used :
      (nonce actor action resource_type resource_id : String) (payload : _) (n : Option String)
      (now : ℕ) (c : Chain)
      → Used nonce c
      → Used nonce (record_event lib actor action resource_type resource_id payload n now c).1
  record_event-Used nonce actor action resource_type resource_id payload n now c h =
      elim (record_event_outcome lib actor action resource_type resource_id payload n now c) [
        | inl (e, o) ↦ rw o h
        | inr o ↦
            rw (o, nonces_of-append c.events _, elem-append nonce (nonces_of lib c.events) _)
              (||-left _ _ h)
      ]

  perform-Used :
      (nonce : String) (x : AuditCall) (c : Chain) → Used nonce c → Used nonce (perform lib x c)
  unfolding perform record_permit_nonce rotate redact_pii
  perform-Used nonce (record_call actor action resource_type resource_id payload n now) c h =
      record_event-Used nonce actor action resource_type resource_id payload n now c h
  perform-Used nonce (nonce_call actor job_id n now) c h =
      record_event-Used nonce actor _ _ job_id _ (some n) now c h
  perform-Used nonce (rotate_call actor now) c h =
      record_event-Used nonce actor _ _ _ _ none now c h
  perform-Used nonce (redact_call id ks actor now) c h =
      record_event-Used nonce actor _ _ id _ none now (record c { redactions = _ }) h

  perform_all-Used :
      (nonce : String) (xs : List AuditCall) (c : Chain)
      → Used nonce c
      → Used nonce (perform_all lib xs c)
  unfolding perform_all
  perform_all-Used nonce [] c h = h
  perform_all-Used nonce (x ∷ xs) c h =
      perform_all-Used nonce xs (perform lib x c) (perform-Used nonce x c h)

  -- A nonce that was recorded is used.
  record_permit_nonce-Used :
      (actor job_id nonce : String) (now : ℕ) (c : Chain) (s : SignedAuditEvent)
      → (record_permit_nonce lib actor job_id nonce now c).0 ≡ ok s
      → Used nonce (record_permit_nonce lib actor job_id nonce now c).1
  unfolding record_permit_nonce
  record_permit_nonce-Used actor job_id nonce now c s h =
      elim (record_event_outcome lib actor "permit.used" "permit" job_id
        (("job_id", Value.text job_id) ∷ []) (some nonce) now c) [
          | inl (e, o) ↦ absurd (cc (sym h ∙ ap (λ r. r.0) o))
          | inr o ↦
              rw (o, nonces_of-append c.events _, elem-append nonce (nonces_of lib c.events) _)
                (||-right _ _ (elem_head nonce []))
        ]

  -- Once a permit's nonce was recorded, no check of that permit against the nonces of the chain passes,
  -- whatever is recorded, rotated or redacted in between.
  pub replay_refused :
      (keys : PermitKeys) (p : ExecutionPermit) (worker : Option String) (later : ℕ)
      (actor job_id : String) (now : ℕ) (c : Chain) (s : SignedAuditEvent) (xs : List AuditCall)
      → (record_permit_nonce lib actor job_id p.nonce now c).0 ≡ ok s
      → let c2 = perform_all lib xs (record_permit_nonce lib actor job_id p.nonce now c).1 in
        verify keys p later (permit_nonces lib c2) worker ≢ ok tt
  replay_refused keys p worker later actor job_id now c s xs h v =
      let u =
        perform_all-Used p.nonce xs _ (record_permit_nonce-Used actor job_id p.nonce now c s h) in
      cc (sym u ∙ ((verify_iff keys p later _ worker).0 v).2)
