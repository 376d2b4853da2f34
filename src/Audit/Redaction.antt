-- ===== src/Audit/Redaction.antt =====
-- The redacted export of src/secopent/application/audit_chain.py.
use sec_opent.Prelude.{
  ℕ, Bool, true, false, Option, none, some, String, List, [], ◌∷◌, elem, if◌then◌else◌, string_eq,
  ◌≡◌, ap, arith, ◌∙◌, inl, inr,
}
use package.text.Mathlib.TextEquality.{eq_iff}
use sec_opent.Prelude.Dict.{Dict, lookup, insert, lookup-insert_self}
use sec_opent.Audit.{AuditLib, AuditEvent, SignedAuditEvent, Chain, Value, bare_events, redact_pii}
use sec_opent.Audit.Links.{record_event_outcome}

-- `export`: the redacted keys of a payload are masked.
abbrev pub mask : List String → Dict Value → Dict Value
mask ks [] = []
mask ks ((k, v) ∷ d) = (k, if elem k ks then Value.text "[REDACTED:gdpr]" else v) ∷ mask ks d

abbrev pub masked : Option (List String) → AuditEvent → AuditEvent
masked none e = e
masked (some ks) e = record e { body = record e.body { payload = mask ks e.body.payload } }

abbrev pub export_redacted : Dict (List String) → List SignedAuditEvent → List AuditEvent
export_redacted redactions [] = []
export_redacted redactions (s ∷ ss) =
    masked (lookup s.event.body.id redactions) s.event ∷ export_redacted redactions ss

unfoldable pub export : Bool → Chain → List AuditEvent
export false c = bare_events c.events
export true c = export_redacted c.redactions c.events

-- A value, if there is one, masked.
abbrev pub hidden : Option Value → Option Value
hidden none = none
hidden (some v) = some (Value.text "[REDACTED:gdpr]")

lookup-mask :
    (k : String) (ks : List String) (d : Dict Value)
    → lookup k (mask ks d) ≡ (if elem k ks then hidden (lookup k d) else lookup k d)
lookup-mask k ks [] = ground arith
lookup-mask k ks ((i, v) ∷ d) = ground (arith, lookup-mask k ks d, eq_iff i k)

-- Two lists of events agree place by place.
abbrev pub Pointwise :
    (AuditEvent → AuditEvent → Type 0) → List AuditEvent → List AuditEvent → Type 0
Pointwise R [] [] = Unit
Pointwise R [] (y ∷ ys) = ⊥
Pointwise R (x ∷ xs) [] = ⊥
Pointwise R (x ∷ xs) (y ∷ ys) = R x y × Pointwise R xs ys

-- The export `x` of the event `e` keeps the hash, and for the event `id` it masks the keys `ks` and
-- no other.
abbrev pub Masks : String → List String → AuditEvent → AuditEvent → Type 0
Masks id ks e x =
    (x.event_hash ≡ e.event_hash)
    × (x.body.id ≡ e.body.id)
    × (e.body.id ≡ id
        → (k : String)
        → lookup k x.body.payload
          ≡ (if elem k ks then hidden (lookup k e.body.payload) else lookup k e.body.payload))

masked-Masks :
    (id : String) (ks : List String) (redactions : Dict (List String)) (e : AuditEvent)
    → lookup id redactions ≡ some ks
    → Masks id ks e (masked (lookup e.body.id redactions) e)
masked-Masks id ks redactions e h =
    (ground arith, ground arith, λ same k. rw (same, h) (lookup-mask k ks e.body.payload))

export_redacted-Masks :
    (id : String) (ks : List String) (redactions : Dict (List String)) (ss : List SignedAuditEvent)
    → lookup id redactions ≡ some ks
    → Pointwise (Masks id ks) (bare_events ss) (export_redacted redactions ss)
export_redacted-Masks id ks redactions [] h = tt
export_redacted-Masks id ks redactions (s ∷ ss) h =
    (masked-Masks id ks redactions s.event h, export_redacted-Masks id ks redactions ss h)

redact_pii-redactions :
    (lib : AuditLib) (id : String) (ks : List String) (actor : String) (now : ℕ) (c : Chain)
    → (redact_pii lib id ks actor now c).1.redactions ≡ insert id ks c.redactions
unfolding redact_pii
redact_pii-redactions lib id ks actor now c =
    elim (record_event_outcome lib actor "gdpr.redacted" "audit_event" id
      (("redacted_event_id", Value.text id) ∷ ("keys", Value.texts ks) ∷ []) none now
      (record c { redactions = insert id ks c.redactions })) [
        | inl (e, h) ↦ ap (λ r. r.1.redactions) h
        | inr h ↦ ap (λ r. r.1.redactions) h
      ]

-- After the keys of an event were redacted, the redacted export has the events of the plain export in
-- their order and with their ids and hashes, and of that event it masks exactly these keys: what an
-- earlier redaction of the same event masked and this one does not name is shown again.
pub redact_pii-Masks :
    (lib : AuditLib) (id : String) (ks : List String) (actor : String) (now : ℕ) (c : Chain)
    → let after = (redact_pii lib id ks actor now c).1 in
      Pointwise (Masks id ks) (export false after) (export true after)
unfolding export
redact_pii-Masks lib id ks actor now c = export_redacted-Masks id ks _ _ (
    ap (lookup id) (redact_pii-redactions lib id ks actor now c)
    ∙ lookup-insert_self id ks c.redactions)
