-- ===== src/Safety.antt =====
-- src/secopent/application/emergency_stop.py with infrastructure/safety/permit_revoker.py, and
-- application/canary.py: the kill switch, and tokens that are good once.
pub mod Stop
pub mod Canary
use sec_opent.Prelude.{
  ℕ, Bool, true, false, not, Option, none, some, String, List, [], ◌∷◌, ◌++◌, elem, length, is_some,
  if◌then◌else◌, string_eq,
}
use sec_opent.Prelude.Int.{ℤ, pos, negsuc}
use sec_opent.Prelude.Text.{codes, is_infix}
use sec_opent.Prelude.Dict.{Dict, lookup, insert}
use sec_opent.Prelude.Raises.{Error, Result, ok, err, token_not_issued, token_reused}
use sec_opent.Prelude.Action.{Action, ◌>>=◌, ◌>>◌, raise_if, modify, pure}

-- `InMemoryPermitRevoker`: each issued nonce with whether it was used, and the revoked ones.
pub record Revoker : Type 0 where
  pub issued : Dict Bool
  pub revoked : List String

unfoldable pub record_issued : String → Bool → Revoker → Revoker
record_issued nonce used r =
    if elem nonce r.revoked then r else record r { issued = insert nonce used r.issued }

unfoldable pub record_used : String → Revoker → Revoker
record_used nonce r =
    if is_some (lookup nonce r.issued) then record r { issued = insert nonce true r.issued } else r

abbrev pub is_revoked : String → Revoker → Bool
is_revoked nonce r = elem nonce r.revoked

-- The nonces not yet used, and the dictionary once these are popped.
abbrev pub pending : Dict Bool → List String
pending [] = []
pending ((nonce, true) ∷ d) = pending d
pending ((nonce, false) ∷ d) = nonce ∷ pending d

abbrev pub only_used : Dict Bool → Dict Bool
only_used [] = []
only_used ((nonce, true) ∷ d) = (nonce, true) ∷ only_used d
only_used ((nonce, false) ∷ d) = only_used d

unfoldable pub revoke_unused : Revoker → ℕ × Revoker
revoke_unused r = (
  length (pending r.issued),
  record { issued = only_used r.issued; revoked = pending r.issued ++ r.revoked },
)

-- The audit record of a stop; of its payload, what varies.
pub record StopEntry : Type 0 where
  pub actor : String
  pub reason : String
  pub revoked_permits : ℕ
  pub terminated_containers : ℤ

-- `EmergencyStop`, with its revoker and what its audit recorder has written.
pub record Switch : Type 0 where
  pub triggered : Bool
  pub revoker : Revoker
  pub audit : List StopEntry

abbrev pub permits_allowed : Switch → Bool
permits_allowed s = not s.triggered

-- `terminated_containers`: -1 when the terminator raised.
abbrev pub terminated : Result ℕ → ℤ
terminated (ok n) = pos n
terminated (err e) = negsuc 0

-- `trigger`, where `terminate` is what the terminator answers, and the audit recorder raises on the
-- entries that `refuses` names. The report holds what the entry holds.
unfoldable pub trigger :
    Result ℕ → (StopEntry → Option Error) → String → String → Action Switch StopEntry
trigger terminate refuses actor reason s =
    let (count, revoker) = revoke_unused s.revoker in
    let entry : StopEntry = record {
      actor = actor;
      reason = reason;
      revoked_permits = count;
      terminated_containers = terminated terminate;
    } in
    elim (refuses entry) [
      | some e ↦ (err e, record s { triggered = true; revoker = revoker })
      | none ↦ (ok entry, record { triggered = true; revoker = revoker; audit = entry ∷ s.audit })
    ]

-- `CanaryTokenManager`; the audit records are left out, and the recorder is taken not to raise.
pub record Canaries : Type 0 where
  pub issued : List String
  pub consumed : List String

-- The loop that draws until a token is new, over the tokens that are drawn; `none` if all were
-- issued before.
abbrev pub first_new : List String → List String → Option String
first_new issued [] = none
first_new issued (t ∷ ts) = let rest = first_new issued ts in if elem t issued then rest else some t

unfoldable pub generate : List String → Canaries → Option String × Canaries
generate drawn c = elim (first_new c.issued drawn) [
  | none ↦ (none, c)
  | some token ↦ (some token, record c { issued = token ∷ c.issued })
]

unfoldable pub verify_echo : String → String → Action Canaries Bool
verify_echo response token c =
    if not (elem token c.issued)
    then (err token_not_issued, c)
    else if elem token c.consumed
    then (err token_reused, c)
    else (ok (is_infix (codes token) (codes response)), record c { consumed = token ∷ c.consumed })
