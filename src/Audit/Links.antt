-- ===== src/Audit/Links.antt =====
-- src/secopent/application/audit_chain.py: whatever is recorded, the chain verifies.
use sec_opent.Prelude.{
  ℕ, ◌+◌, true, false, Option, none, some, String, List, [], ◌∷◌, ◌++◌, all, ◌≡◌, refl, sym, ap,
  ◌∙◌, ◌⊎◌, inl, inr, arith,
}
use sec_opent.Prelude.Text.{Text, text_eq, list_beq_iff, is_prefix}
use sec_opent.Prelude.Dict.{Dict}
use sec_opent.Prelude.Raises.{ok, err, Result-cases}
use sec_opent.Audit.{
  AuditLib, Body, AuditEvent, SignedAuditEvent, Chain, Method, Value, prefix, remove_prefix,
  genesis_hash, full_hash, create, verify_from, bare_events, append_to, with_nonce, record_event,
  record_permit_nonce, rotate, redact_pii, verify, fresh_chain, tail_after,
}

-- A hex digest holds no colon, and a signature by the key is accepted.
pub record Honest (lib : AuditLib) : Type 0 where
  pub plain : (b : Body) → is_prefix prefix (lib.hex_digest b) ≡ false
  pub signed : (h : Text) → lib.check h (lib.sign h) ≡ true

-- The calls that write to a chain.
pub data AuditCall : Type 0 where
  record_call : String → String → String → String → Dict Value → Option String → ℕ → AuditCall
  nonce_call : String → String → String → ℕ → AuditCall
  rotate_call : String → ℕ → AuditCall
  redact_call : String → List String → String → ℕ → AuditCall

tail_after-snoc :
    (p : Text) (ss : List SignedAuditEvent) (s : SignedAuditEvent)
    → tail_after p (ss ++ (s ∷ [])) ≡ remove_prefix s.event.event_hash
tail_after-snoc p [] s = refl
tail_after-snoc p (x ∷ ss) s = tail_after-snoc (remove_prefix x.event.event_hash) ss s

module _ (lib : AuditLib) where
  verify_from-snoc :
      (p : Text) (ss : List SignedAuditEvent) (s : SignedAuditEvent)
      → verify_from lib p (bare_events ss) ≡ true
      → s.event.body.previous_hash ≡ remove_prefix (tail_after p ss)
      → full_hash lib s.event.body ≡ s.event.event_hash
      → verify_from lib p (bare_events (ss ++ (s ∷ []))) ≡ true
  unfolding verify_from
  verify_from-snoc p [] s v h f = rw ((list_beq_iff _ _).1 h, (list_beq_iff _ _).1 f) refl
  verify_from-snoc p (x ∷ ss) s v h f =
      ground (arith, verify_from-snoc (remove_prefix x.event.event_hash) ss s)

  all_signed-snoc :
      (ss : List SignedAuditEvent) (s : SignedAuditEvent)
      → all (λ x. lib.check x.event.event_hash x.signature) ss ≡ true
      → lib.check s.event.event_hash s.signature ≡ true
      → all (λ x. lib.check x.event.event_hash x.signature) (ss ++ (s ∷ [])) ≡ true
  all_signed-snoc [] s a h = rw h
  all_signed-snoc (x ∷ ss) s a h = ground (arith, all_signed-snoc ss s)

  -- The chain verifies, and its tail is the bare hash of its last event.
  pub record IsLinked (c : Chain) : Type 0 where
    pub verifies : verify lib c ≡ true
    pub tail_is : tail_after genesis_hash c.events ≡ c.tail
    pub tail_plain : remove_prefix c.tail ≡ c.tail

  pub fresh_chain-IsLinked : (store : Option (List SignedAuditEvent)) → IsLinked (fresh_chain store)
  unfolding verify verify_from
  fresh_chain-IsLinked store = record { verifies = refl; tail_is = refl; tail_plain = refl }

  -- The event that a successful `create` gives.
  create-inv :
      (b : Body) (e : AuditEvent)
      → create lib b ≡ ok e
      → e ≡ record { body = b; event_hash = full_hash lib b }
  unfolding create
  create-inv b e h = ground arith

  -- The body that `record` hashes.
  abbrev pub body_of :
      String → String → String → String → Dict Value → Option String → ℕ → Chain → Body
  body_of actor action resource_type resource_id payload nonce now c = record {
    id = lib.event_id (c.counter + 1);
    actor = actor;
    action = action;
    resource_type = resource_type;
    resource_id = resource_id;
    payload = with_nonce nonce payload;
    previous_hash = c.tail;
    occurred_at = now;
  }

  abbrev pub signed_of : Body → SignedAuditEvent
  signed_of b = record {
    event = record { body = b; event_hash = full_hash lib b };
    signature = lib.sign (full_hash lib b);
  }

  -- The chain after an event with this body was appended.
  abbrev pub appended : Body → Chain → Chain
  appended b c = record c {
    events = c.events ++ (signed_of b ∷ []);
    tail = lib.hex_digest b;
    counter = c.counter + 1;
    store = append_to c.store (signed_of b);
  }

  -- `record` raises and only counts, or appends one signed event.
  pub record_event_outcome :
      (actor action resource_type resource_id : String) (payload : Dict Value)
      (nonce : Option String) (now : ℕ) (c : Chain)
      → ((e : _) × (record_event lib actor action resource_type resource_id payload nonce now c
            ≡ (err e, record c { counter = c.counter + 1 })))
        ⊎ (record_event lib actor action resource_type resource_id payload nonce now c ≡ (
            let b = body_of actor action resource_type resource_id payload nonce now c in
            (ok (signed_of b), appended b c)))
  unfolding record_event
  record_event_outcome actor action resource_type resource_id payload nonce now c =
      let b = body_of actor action resource_type resource_id payload nonce now c in
      elim (Result-cases (create lib b)) [
        | inr (e, h) ↦ inl (e, rw (h, record_event) refl)
        | inl (e, h) ↦ inr (rw (h ∙ ap ok (create-inv b e h), record_event) refl)
      ]

  -- What a call answers and leaves.
  abbrev pub answer : AuditCall → Method SignedAuditEvent
  answer (record_call actor action resource_type resource_id payload nonce now) =
      record_event lib actor action resource_type resource_id payload nonce now
  answer (nonce_call actor job_id nonce now) = record_permit_nonce lib actor job_id nonce now
  answer (rotate_call actor now) = rotate lib actor now
  answer (redact_call id ks actor now) = redact_pii lib id ks actor now

  unfoldable pub perform : AuditCall → Chain → Chain
  perform x c = (answer x c).1

  unfoldable pub perform_all : List AuditCall → Chain → Chain
  perform_all [] c = c
  perform_all (x ∷ xs) c = perform_all xs (perform x c)

  module _ (honest : Honest lib) where
    appended-IsLinked :
        (b : Body) (c : Chain) → b.previous_hash ≡ c.tail → IsLinked c → IsLinked (appended b c)
    unfolding verify
    appended-IsLinked b c p l =
        let v : (verify_from lib genesis_hash (bare_events c.events) ≡ true)
            × (all (λ x. lib.check x.event.event_hash x.signature) c.events ≡ true) =
          (ground (arith, l.verifies), ground (arith, l.verifies)) in
        record {
          verifies =
              rw
                (
                  verify_from-snoc genesis_hash c.events (signed_of b) v.0
                      (p ∙ sym l.tail_plain ∙ ap remove_prefix (sym l.tail_is)) refl,
                  all_signed-snoc c.events (signed_of b) v.1 (honest.signed (full_hash lib b)),
                )
                refl;
          tail_is = tail_after-snoc genesis_hash c.events (signed_of b);
          tail_plain = rw (honest.plain b) refl;
        }

    record_event-IsLinked :
        (actor action resource_type resource_id : String) (payload : Dict Value)
        (nonce : Option String) (now : ℕ) (c : Chain)
        → IsLinked c
        → IsLinked (record_event lib actor action resource_type resource_id payload nonce now c).1
    record_event-IsLinked actor action resource_type resource_id payload nonce now c l =
        elim (record_event_outcome actor action resource_type resource_id payload nonce now c) [
          | inl (e, h) ↦ rw h (record {
            verifies = unfold verify in l.verifies;
            tail_is = l.tail_is;
            tail_plain = l.tail_plain;
          })
          | inr h ↦ rw h (
              appended-IsLinked (body_of actor action resource_type resource_id payload nonce now c)
                c refl l)
        ]

    perform-IsLinked : (x : AuditCall) (c : Chain) → IsLinked c → IsLinked (perform x c)
    unfolding perform record_permit_nonce rotate redact_pii
    perform-IsLinked (record_call actor action resource_type resource_id payload nonce now) c l =
        record_event-IsLinked actor action resource_type resource_id payload nonce now c l
    perform-IsLinked (nonce_call actor job_id nonce now) c l =
        record_event-IsLinked actor _ _ job_id _ (some nonce) now c l
    perform-IsLinked (rotate_call actor now) c l = record_event-IsLinked actor _ _ _ _ none now c l
    perform-IsLinked (redact_call id ks actor now) c l =
        record_event-IsLinked actor _ _ id _ none now _ (record {
          verifies = unfold verify in l.verifies;
          tail_is = l.tail_is;
          tail_plain = l.tail_plain;
        })

    pub perform_all-IsLinked :
        (xs : List AuditCall) (c : Chain) → IsLinked c → IsLinked (perform_all xs c)
    unfolding perform_all
    perform_all-IsLinked [] c l = l
    perform_all-IsLinked (x ∷ xs) c l =
        perform_all-IsLinked xs (perform x c) (perform-IsLinked x c l)

    -- After any calls that record, note a permit nonce, rotate or redact, some of which may raise, a
    -- chain that began empty verifies: its hashes, its links and its signatures.
    pub verify-perform_all :
        (store : Option (List SignedAuditEvent)) (xs : List AuditCall)
        → verify lib (perform_all xs (fresh_chain store)) ≡ true
    verify-perform_all store xs =
        (perform_all-IsLinked xs (fresh_chain store) (fresh_chain-IsLinked store)).verifies
