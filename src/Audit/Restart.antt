-- ===== src/Audit/Restart.antt =====
-- `_load_from_store` of src/secopent/application/audit_chain.py: what a restart keeps and what it
-- does not.
use sec_opent.Prelude.{
  ℕ, ◌+◌, true, Option, none, some, String, List, [], ◌∷◌, ◌++◌, length, length-append,
  if◌then◌else◌, ◌==◌, string_eq, ◌≡◌, refl, ap, arith, sym, ◌∙◌, subst, inl, inr,
}
use sec_opent.Prelude.Dict.{Dict, lookup, insert}
use sec_opent.Prelude.Raises.{Error, ok, err}
use sec_opent.Audit.{
  AuditLib, SignedAuditEvent, Chain, Value, record_event, record_permit_nonce, rotate, redact_pii,
  verify, fresh_chain, genesis_hash, tail_after,
}
use sec_opent.Audit.Links.{
  Honest, AuditCall, record_call, nonce_call, rotate_call, redact_call, answer, perform,
  perform_all, perform_all-IsLinked, IsLinked, fresh_chain-IsLinked, record_event_outcome,
}

-- The redactions that loaded events record.
abbrev pub redaction_of : Option Value → Option Value → Dict (List String) → Dict (List String)
redaction_of (some (Value.text id)) (some (Value.texts ks)) d = insert id ks d
redaction_of i k d = d

abbrev pub redactions_after : Dict (List String) → List SignedAuditEvent → Dict (List String)
redactions_after d [] = d
redactions_after d (s ∷ ss) =
    let payload = s.event.body.payload in
    redactions_after
      (if s.event.body.action == "gdpr.redacted"
        then redaction_of (lookup "redacted_event_id" payload) (lookup "keys" payload) d
        else d)
      ss

unfoldable pub load : List SignedAuditEvent → Chain
load loaded = record {
  events = loaded;
  tail = tail_after genesis_hash loaded;
  counter = length loaded;
  redactions = redactions_after [] loaded;
  store = some loaded;
}

some-inj : {A : Type 0} {a b : A} → some a ≡ some b → a ≡ b
some-inj h = cc

ok-inj : {A : Type 0} {a b : A} → ok a ≡ ok b → a ≡ b
ok-inj h = cc

module _ (lib : AuditLib) where
  -- What the store holds is what the chain holds.
  abbrev Stored : Chain → Type 0
  Stored c = c.store ≡ some c.events

  record_event-Stored :
      (actor action resource_type resource_id : String) (payload : Dict Value)
      (nonce : Option String) (now : ℕ) (c : Chain)
      → Stored c
      → Stored (record_event lib actor action resource_type resource_id payload nonce now c).1
  record_event-Stored actor action resource_type resource_id payload nonce now c h =
      elim (record_event_outcome lib actor action resource_type resource_id payload nonce now c) [
        | inl (e, o) ↦ rw o h
        | inr o ↦ rw (o, h) refl
      ]

  perform-Stored : (x : AuditCall) (c : Chain) → Stored c → Stored (perform lib x c)
  unfolding perform record_permit_nonce rotate redact_pii
  perform-Stored (record_call actor action resource_type resource_id payload nonce now) c h =
      record_event-Stored actor action resource_type resource_id payload nonce now c h
  perform-Stored (nonce_call actor job_id nonce now) c h =
      record_event-Stored actor _ _ job_id _ (some nonce) now c h
  perform-Stored (rotate_call actor now) c h = record_event-Stored actor _ _ _ _ none now c h
  perform-Stored (redact_call id ks actor now) c h =
      record_event-Stored actor _ _ id _ none now (record c { redactions = _ }) h

  perform_all-Stored : (xs : List AuditCall) (c : Chain) → Stored c → Stored (perform_all lib xs c)
  unfolding perform_all
  perform_all-Stored [] c h = h
  perform_all-Stored (x ∷ xs) c h = perform_all-Stored xs (perform lib x c) (perform-Stored x c h)

  load-IsLinked : (c : Chain) → IsLinked lib c → IsLinked lib (load c.events)
  unfolding load verify
  load-IsLinked c l = record {
    verifies = unfold verify in l.verifies;
    tail_is = refl;
    tail_plain = rw l.tail_is l.tail_plain;
  }

  reload :
      (honest : Honest lib) (ys : List AuditCall) (c : Chain)
      → IsLinked lib c
      → ((load c.events).events ≡ c.events)
        × ((load c.events).tail ≡ c.tail)
        × (verify lib (perform_all lib ys (load c.events)) ≡ true)
  unfolding load
  reload honest ys c l = (
    refl,
    l.tail_is,
    (perform_all-IsLinked lib honest ys (load c.events) (load-IsLinked c l)).verifies,
  )

  -- A chain that is loaded again from what it stored has the same events and tail, and it still
  -- verifies after whatever is recorded next.
  pub verify-restart :
      (honest : Honest lib) (xs ys : List AuditCall) (stored : List SignedAuditEvent)
      → let c = perform_all lib xs (fresh_chain (some [])) in
        c.store ≡ some stored
        → ((load stored).events ≡ c.events)
          × ((load stored).tail ≡ c.tail)
          × (verify lib (perform_all lib ys (load stored)) ≡ true)
  verify-restart honest xs ys stored h =
      let c = perform_all lib xs (fresh_chain (some [])) in
      let l =
        perform_all-IsLinked lib honest xs (fresh_chain (some []))
          (fresh_chain-IsLinked lib (some [])) in
      let q : c.events ≡ stored =
        some-inj (sym (perform_all-Stored xs (fresh_chain (some [])) refl) ∙ h) in
      subst
        (λ es.
          ((load es).events ≡ c.events)
          × ((load es).tail ≡ c.tail)
          × (verify lib (perform_all lib ys (load es)) ≡ true))
        q (reload honest ys c l)

  -- A call that returns gives its event the next number; one that raises uses a number up.
  record_event-ok :
      (actor action resource_type resource_id : String) (payload : Dict Value)
      (nonce : Option String) (now : ℕ) (c d : Chain) (s : SignedAuditEvent)
      → record_event lib actor action resource_type resource_id payload nonce now c ≡ (ok s, d)
      → (s.event.body.id ≡ lib.event_id (c.counter + 1)) × (d.events ≡ c.events ++ (s ∷ []))
  record_event-ok actor action resource_type resource_id payload nonce now c d s h =
      elim (record_event_outcome lib actor action resource_type resource_id payload nonce now c) [
        | inl (e, o) ↦ absurd (cc (ap (λ r. r.0) (sym h ∙ o)))
        | inr o ↦
            let q = ok-inj (ap (λ r. r.0) (sym h ∙ o)) in
            (
              ap (λ t. t.event.body.id) q,
              ap (λ r. r.1.events) (sym h ∙ o) ∙ ap (λ t. c.events ++ (t ∷ [])) (sym q),
            )
      ]

  record_event-err :
      (actor action resource_type resource_id : String) (payload : Dict Value)
      (nonce : Option String) (now : ℕ) (c d : Chain) (e : Error)
      → record_event lib actor action resource_type resource_id payload nonce now c ≡ (err e, d)
      → (d.counter ≡ c.counter + 1) × (d.events ≡ c.events)
  record_event-err actor action resource_type resource_id payload nonce now c d e h =
      elim (record_event_outcome lib actor action resource_type resource_id payload nonce now c) [
        | inl (e', o) ↦ (ap (λ r. r.1.counter) (sym h ∙ o), ap (λ r. r.1.events) (sym h ∙ o))
        | inr o ↦ absurd (cc (ap (λ r. r.0) (sym h ∙ o)))
      ]

  answer-ok :
      (x : AuditCall) (c d : Chain) (s : SignedAuditEvent)
      → answer lib x c ≡ (ok s, d)
      → (s.event.body.id ≡ lib.event_id (c.counter + 1)) × (d.events ≡ c.events ++ (s ∷ []))
  unfolding record_permit_nonce rotate redact_pii
  answer-ok (record_call actor action resource_type resource_id payload nonce now) c d s h =
      record_event-ok actor action resource_type resource_id payload nonce now c d s h
  answer-ok (nonce_call actor job_id nonce now) c d s h =
      record_event-ok actor _ _ job_id _ (some nonce) now c d s h
  answer-ok (rotate_call actor now) c d s h = record_event-ok actor _ _ _ _ none now c d s h
  answer-ok (redact_call id ks actor now) c d s h =
      record_event-ok actor _ _ id _ none now (record c { redactions = _ }) d s h

  answer-err :
      (x : AuditCall) (c d : Chain) (e : Error)
      → answer lib x c ≡ (err e, d)
      → (d.counter ≡ c.counter + 1) × (d.events ≡ c.events)
  unfolding record_permit_nonce rotate redact_pii
  answer-err (record_call actor action resource_type resource_id payload nonce now) c d e h =
      record_event-err actor action resource_type resource_id payload nonce now c d e h
  answer-err (nonce_call actor job_id nonce now) c d e h =
      record_event-err actor _ _ job_id _ (some nonce) now c d e h
  answer-err (rotate_call actor now) c d e h = record_event-err actor _ _ _ _ none now c d e h
  answer-err (redact_call id ks actor now) c d e h =
      record_event-err actor _ _ id _ none now (record c { redactions = _ }) d e h

  -- A number that a failed call used up is not stored: if a chain whose counter is its length has one
  -- failed call and then one that returns, and it is loaded again, the next event has the same id as
  -- the last event before.
  pub restart_repeats :
      (x y z : AuditCall) (c c1 c2 c3 : Chain) (e : Error) (s t : SignedAuditEvent)
      → c.counter ≡ length c.events
      → answer lib x c ≡ (err e, c1)
      → answer lib y c1 ≡ (ok s, c2)
      → answer lib z (load c2.events) ≡ (ok t, c3)
      → t.event.body.id ≡ s.event.body.id
  unfolding load
  restart_repeats x y z c c1 c2 c3 e s t n hx hy hz =
      let failed = answer-err x c c1 e hx in
      let passed = answer-ok y c1 c2 s hy in
      let next = answer-ok z (load c2.events) c3 t hz in
      let m : length c2.events + 1 ≡ c1.counter + 1 = omega (
        arith,
        ap length passed.1,
        length-append c1.events (s ∷ []),
        ap length failed.1,
        failed.0,
      ) in
      next.0 ∙ ap lib.event_id m ∙ sym passed.0
