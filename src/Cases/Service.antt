-- ===== src/Cases/Service.antt =====
-- src/secopent/application/cases.py: the life of a case, over the in-memory registry.
use sec_opent.Prelude.{
  Bool, true, false, not, String, List, [], ◌∷◌, if◌then◌else◌, string_eq, ◌==◌, elem,
}
use sec_opent.Prelude.Text.{Text}
use sec_opent.Prelude.Dict.{Dict, lookup, insert}
use sec_opent.Prelude.Raises.{
  Result, ok, err, case_not_found, case_permission, case_transition, case_not_model_generated,
}
use sec_opent.Prelude.Raises
use sec_opent.Prelude.Action.{Action, ◌>>=◌, ◌>>◌, lift, raise_if, require, modify, pure}
use sec_opent.Risk.{RiskClass, risk_eq}
use sec_opent.Cases.{CaseLib, CaseStatus, CaseOrigin, CaseDefinition, validate_declared_risk}

-- `InMemoryCaseRegistry`
abbrev pub Registry : Type 0
Registry = Dict CaseDefinition

abbrev pub Method : Type 0 → Type 0
Method A = Action Registry A

-- `put`
unfoldable pub put : CaseDefinition → Method CaseDefinition
put c = do modify (insert c.id c); pure c

-- `_TRANSITIONS`
abbrev pub follows : CaseStatus → CaseStatus → Bool
follows CaseStatus.draft CaseStatus.validated = true
follows CaseStatus.validated CaseStatus.reviewed = true
follows CaseStatus.reviewed CaseStatus.signed = true
follows CaseStatus.signed CaseStatus.published = true
follows from to = false

abbrev pub is_model_generated : CaseOrigin → Bool
is_model_generated CaseOrigin.model_generated = true
is_model_generated o = false

-- The values that `_signing_payload` joins.
pub record Payload : Type 0 where
  pub id : String
  pub version : String
  pub risk : RiskClass
  pub target_type : String
  pub schema : String

abbrev pub signing_payload : CaseDefinition → Payload
signing_payload c = record {
  id = c.id;
  version = c.version;
  risk = c.risk;
  target_type = c.target_type;
  schema = c.schema;
}

unfoldable pub check_transition : CaseDefinition → CaseStatus → Result (Unit {0})
check_transition c to = Raises.raise_if (not (follows c.status to)) case_transition

unfoldable pub require_human : String → Result (Unit {0})
require_human role =
    if role == "agent"
    then err case_permission
    else if not (role == "human")
    then err case_permission
    else ok tt

unfoldable pub transition : CaseDefinition → CaseStatus → Method CaseDefinition
transition c to = do lift (check_transition c to); put (record c { status = to })

unfoldable pub create_draft : CaseDefinition → Method CaseDefinition
create_draft c = put (record c { status = CaseStatus.draft })

unfoldable pub get : String → Method CaseDefinition
get id = require (lookup id) case_not_found

unfoldable pub review : String → String → Method CaseDefinition
review id role = do lift (require_human role); c ← get id; transition c CaseStatus.reviewed

-- The signature is drawn once the transition was found to be allowed.
unfoldable pub sign : (Payload → Text) → String → String → Method CaseDefinition
sign signer id role = do
  lift (require_human role)
  c ← get id
  lift (check_transition c CaseStatus.signed)
  put (record c { status = CaseStatus.signed; signature = signer (signing_payload c) })

unfoldable pub publish : String → String → Method CaseDefinition
publish id role = do lift (require_human role); c ← get id; transition c CaseStatus.published

-- The last lines of `fast_track_model_generated`.
unfoldable pub advance : RiskClass → CaseDefinition → Method CaseDefinition
advance risk validated =
    if elem risk (RiskClass.passive ∷ RiskClass.low ∷ [])
    then transition validated CaseStatus.reviewed
    else pure validated

module _ (lib : CaseLib) where
  unfoldable pub validate : String → Method CaseDefinition
  validate id = do
    c ← get id
    lift (validate_declared_risk lib c)
    transition c CaseStatus.validated

  unfoldable pub fast_track_model_generated : String → Method CaseDefinition
  fast_track_model_generated id = do
    c ← get id
    raise_if (not (is_model_generated c.origin)) case_not_model_generated
    lift (validate_declared_risk lib c)
    validated ← transition c CaseStatus.validated
    advance c.risk validated

-- The calls on the service, each with the role of who calls where the source asks for it.
pub data CaseCall : Type 0 where
  create_call : CaseDefinition → CaseCall
  validate_call fast_track_call : String → CaseCall
  review_call sign_call publish_call : String → String → CaseCall

module _ (lib : CaseLib) (signer : Payload → Text) where
  abbrev pub perform : CaseCall → Registry → Registry
  perform (create_call c) s = (create_draft c s).1
  perform (validate_call id) s = (validate lib id s).1
  perform (fast_track_call id) s = (fast_track_model_generated lib id s).1
  perform (review_call id role) s = (review id role s).1
  perform (sign_call id role) s = (sign signer id role s).1
  perform (publish_call id role) s = (publish id role s).1

  unfoldable pub perform_all : List CaseCall → Registry → Registry
  perform_all [] s = s
  perform_all (x ∷ xs) s = perform_all xs (perform x s)
