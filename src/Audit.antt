-- ===== src/Audit.antt =====
-- src/secopent/domain/audit/models.py and application/audit_chain.py: the signed hash chain.
pub mod Links
pub mod Tamper
pub mod Redaction
pub mod Restart
use sec_opent.Prelude.{
  ℕ, ◌+◌, Bool, true, false, not, ◌&&◌, ◌||◌, Option, none, some, String, List, [], ◌∷◌, ◌++◌, all,
  any, elem, length, if◌then◌else◌, ◌==◌, string_eq,
}
use sec_opent.Prelude.Text.{Text, text_eq, codes, is_empty, is_prefix, drop_codes}
use sec_opent.Prelude.Dict.{Dict, lookup, insert}
use sec_opent.Prelude.Raises.{Result, ok, err, validation}
use sec_opent.Prelude.Action.{Action}

-- The values of a payload that the chain itself writes or reads; any other is `opaque`.
pub data Value : Type 0 where
  text : String → Value
  hash : Text → Value
  texts : List String → Value
  opaque : ℕ → Value

-- What is hashed: an event without its `event_hash`.
pub record Body : Type 0 where
  pub id : String
  pub actor : String
  pub action : String
  pub resource_type : String
  pub resource_id : String
  pub payload : Dict Value
  pub previous_hash : Text
  pub occurred_at : ℕ

pub record AuditEvent : Type 0 where
  pub body : Body
  pub event_hash : Text

pub record SignedAuditEvent : Type 0 where
  pub event : AuditEvent
  pub signature : Text

-- What is not the source's own: the hex digest of the canonical JSON (`hashlib.sha256`), the signer,
-- the text `evt-N`, `str.lower`, and `str` of a value that is no text.
pub record AuditLib : Type 0 where
  pub hex_digest : Body → Text
  pub sign : Text → Text
  pub check : Text → Text → Bool
  pub event_id : ℕ → String
  pub lower : String → String
  pub show : Value → String

abbrev pub prefix : Text
prefix = codes "sha256:"

-- `s.removeprefix("sha256:")`
abbrev pub remove_prefix : Text → Text
remove_prefix t = if is_prefix prefix t then drop_codes 7 t else t

abbrev pub genesis_hash : Text
genesis_hash = codes "0000000000000000000000000000000000000000000000000000000000000000"

abbrev pub secret_keys : List String
secret_keys = "password" ∷ "secret" ∷ "token" ∷ "authorization" ∷ "api_key" ∷ "cookie" ∷ []

abbrev pub keys : Dict Value → List String
keys [] = []
keys ((k, v) ∷ d) = k ∷ keys d

module _ (lib : AuditLib) where
  abbrev pub full_hash : Body → Text
  full_hash b = prefix ++ lib.hex_digest b

  -- `AuditEvent.create`, of a body whose time is now.
  unfoldable pub create : Body → Result AuditEvent
  create b =
      if is_empty b.id
        || is_empty b.actor
        || is_empty b.action
        || is_empty b.resource_type
        || is_empty b.resource_id
      then err (validation "audit event fields must not be empty")
      else if any (λ k. elem (lib.lower k) secret_keys) (keys b.payload)
      then err (validation "secret key must not appear in audit payload")
      else ok (record { body = b; event_hash = full_hash b })

  -- The loop of `verify_chain`, from `previous` on.
  unfoldable pub verify_from : Text → List AuditEvent → Bool
  verify_from previous [] = true
  verify_from previous (e ∷ es) =
      let rest = verify_from (remove_prefix e.event_hash) es in
      if not (e.body.previous_hash == remove_prefix previous)
      then false
      else if not (full_hash e.body == e.event_hash)
      then false
      else rest

  abbrev pub verify_chain : List AuditEvent → Bool
  verify_chain events = verify_from genesis_hash events

-- `AuditChain`; `store` is what was appended to the store, if there is one.
pub record Chain : Type 0 where
  pub events : List SignedAuditEvent
  pub tail : Text
  pub counter : ℕ
  pub redactions : Dict (List String)
  pub store : Option (List SignedAuditEvent)

abbrev pub Method : Type 0 → Type 0
Method A = Action Chain A

abbrev pub bare_events : List SignedAuditEvent → List AuditEvent
bare_events [] = []
bare_events (s ∷ ss) = s.event ∷ bare_events ss

abbrev pub append_to :
    Option (List SignedAuditEvent) → SignedAuditEvent → Option (List SignedAuditEvent)
append_to none s = none
append_to (some stored) s = some (stored ++ (s ∷ []))

abbrev pub with_nonce : Option String → Dict Value → Dict Value
with_nonce none payload = payload
with_nonce (some nonce) payload = insert "permit_nonce" (text nonce) payload

module _ (lib : AuditLib) where
  -- The counter goes up before the event is made, and stays up when that raises.
  unfoldable pub record_event :
      String → String → String → String → Dict Value → Option String → ℕ → Method SignedAuditEvent
  record_event actor action resource_type resource_id payload permit_nonce now c =
      let counted : Chain = record c { counter = c.counter + 1 } in
      let body : Body = record {
        id = lib.event_id (c.counter + 1);
        actor = actor;
        action = action;
        resource_type = resource_type;
        resource_id = resource_id;
        payload = with_nonce permit_nonce payload;
        previous_hash = c.tail;
        occurred_at = now;
      } in
      elim (create lib body) [
        | err e ↦ (err e, counted)
        | ok event ↦
            let signed : SignedAuditEvent = record {
              event = event;
              signature = lib.sign event.event_hash;
            } in
            (
              ok signed,
              record counted {
                events = c.events ++ (signed ∷ []);
                tail = remove_prefix event.event_hash;
                store = append_to c.store signed;
              },
            )
      ]

  unfoldable pub record_permit_nonce : String → String → String → ℕ → Method SignedAuditEvent
  record_permit_nonce actor job_id nonce now =
      record_event actor "permit.used" "permit" job_id (("job_id", text job_id) ∷ []) (some nonce)
        now

  unfoldable pub rotate : String → ℕ → Method SignedAuditEvent
  rotate actor now c =
      record_event actor "audit.rotated" "audit_chain" "rotation"
        (("previous_chain_tail_hash", hash c.tail) ∷ []) none now c

  -- `keys` is written in the order of the set's sorted list.
  unfoldable pub redact_pii : String → List String → String → ℕ → Method SignedAuditEvent
  redact_pii event_id keys actor now c =
      record_event actor "gdpr.redacted" "audit_event" event_id
        (("redacted_event_id", text event_id) ∷ ("keys", texts keys) ∷ []) none now
        (record c { redactions = insert event_id keys c.redactions })

  unfoldable pub verify : Chain → Bool
  verify c =
      verify_chain lib (bare_events c.events)
      && all (λ s. lib.check s.event.event_hash s.signature) c.events

-- `str(payload["permit_nonce"])`
abbrev pub str_value : AuditLib → Value → String
str_value lib (text t) = t
str_value lib v = lib.show v

-- `permit_nonces`: the nonces in the payloads of these events.
abbrev pub nonces_of : AuditLib → List SignedAuditEvent → List String
nonces_of lib [] = []
nonces_of lib (s ∷ ss) =
    let rest = nonces_of lib ss in
    elim (lookup "permit_nonce" s.event.body.payload) [
      | none ↦ rest
      | some v ↦ str_value lib v ∷ rest
    ]

abbrev pub permit_nonces : AuditLib → Chain → List String
permit_nonces lib c = nonces_of lib c.events

abbrev pub fresh_chain : Option (List SignedAuditEvent) → Chain
fresh_chain store = record {
  events = [];
  tail = genesis_hash;
  counter = 0;
  redactions = [];
  store = store;
}

-- `_load_from_store`: the tail after the loaded events.
abbrev pub tail_after : Text → List SignedAuditEvent → Text
tail_after tail [] = tail
tail_after tail (s ∷ ss) = tail_after (remove_prefix s.event.event_hash) ss
