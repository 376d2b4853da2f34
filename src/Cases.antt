-- ===== src/Cases.antt =====
-- src/secopent/domain/cases/models.py and risk.py: case definitions and their static risk.
pub mod Ladder
pub mod Service
pub mod Reviewed
pub mod Published
pub mod Progress
pub mod Engine
pub mod Interpreter
use sec_opent.Prelude.{
  ℕ, Bool, true, false, not, ◌&&◌, ◌||◌, Option, none, some, String, List, [], ◌∷◌, any, elem,
  if◌then◌else◌, ltb, nat_beq,
}
use sec_opent.Prelude.Int.{ℤ, pos, int_beq}
use sec_opent.Prelude.Text.{Text, text_eq, codes, is_empty, is_prefix, is_infix}
use sec_opent.Prelude.Dict.{Dict, lookup}
use sec_opent.Prelude.Raises.{
  Result, ok, err, validation, risk_publish_denied, risk_undeclared, raise_if, ◌>>◌,
}
use sec_opent.Risk.{RiskClass, risk_eq}
use sec_opent.Scope.{null}
use sec_opent.Enforcer.{rpartition}

-- A value of a step's spec; `other` is any other object, with its truth value.
pub data SpecValue : Type 0 where
  nothing : SpecValue
  flag : Bool → SpecValue
  number : ℤ → SpecValue
  text : String → SpecValue
  other : Bool → ℕ → SpecValue

-- Python's `str.lower`, `str.upper`, and `str` of a value that is no text.
pub record CaseLib : Type 0 where
  pub lower : Text → Text
  pub upper : Text → Text
  pub show : SpecValue → String

pub data CaseStatus : Type 0 where
  draft validated reviewed signed published disabled deprecated : CaseStatus

abbrev pub status_code : CaseStatus → ℕ
status_code CaseStatus.draft = 0
status_code CaseStatus.validated = 1
status_code CaseStatus.reviewed = 2
status_code CaseStatus.signed = 3
status_code CaseStatus.published = 4
status_code CaseStatus.disabled = 5
status_code CaseStatus.deprecated = 6

pub data CaseOrigin : Type 0 where
  manual model_generated community : CaseOrigin

pub record CaseStep : Type 0 where
  pub id : String
  pub action : Text
  pub spec : Dict SpecValue

pub record CaseAssertion : Type 0 where
  pub id : String
  pub expression : String

-- Preconditions, evidence, the CWE, CVE and OWASP lists, the verification block, the engine version
-- and the YAML text are carried along by the code and left out.
pub record CaseDefinition : Type 0 where
  pub id : String
  pub version : String
  pub author : String
  pub risk : RiskClass
  pub target_type : String
  pub schema : String
  pub steps : List CaseStep
  pub assertions : List CaseAssertion
  pub signature : Text
  pub origin : CaseOrigin
  pub status : CaseStatus

-- The constructors' checks: `CaseStep`, `CaseAssertion` and `CaseDefinition`.
unfoldable pub check_step : CaseStep → Result CaseStep
check_step s = do
  raise_if (is_empty s.id) (validation "CaseStep.id must be non-empty")
  raise_if (null s.action) (validation "CaseStep.action must be non-empty")
  ok s

unfoldable pub check_assertion : CaseAssertion → Result CaseAssertion
check_assertion a = do
  raise_if (is_empty a.id) (validation "CaseAssertion.id must be non-empty")
  raise_if (is_empty a.expression) (validation "CaseAssertion.expression must be non-empty")
  ok a

abbrev pub no_steps : List CaseStep → Bool
no_steps [] = true
no_steps (s ∷ ss) = false

unfoldable pub check_definition : CaseDefinition → Result CaseDefinition
check_definition c = do
  raise_if (is_empty c.id) (validation "CaseDefinition.id must be non-empty")
  raise_if (is_empty c.version) (validation "CaseDefinition.version must be non-empty")
  raise_if (is_empty c.author) (validation "CaseDefinition.author must be non-empty")
  raise_if (is_empty c.target_type) (validation "CaseDefinition.target_type must be non-empty")
  raise_if (is_empty c.schema) (validation "CaseDefinition.schema must be non-empty")
  raise_if (no_steps c.steps) (validation "CaseDefinition.steps must be non-empty")
  ok c

-- The truth value of `spec.get(key)`, and whether it `is True`.
abbrev pub truth : SpecValue → Bool
truth nothing = false
truth (flag b) = b
truth (number n) = not (int_beq n (pos 0))
truth (text t) = not (is_empty t)
truth (other b n) = b

abbrev pub is_set : Dict SpecValue → String → Bool
is_set spec key = elim (lookup key spec) [ none ↦ false | some v ↦ truth v ]

abbrev pub is_true : Option SpecValue → Bool
is_true (some (flag true)) = true
is_true v = false

abbrev pub intrusive_markers : List String
intrusive_markers = "credential" ∷ "upload" ∷ "time_based" ∷ "timing" ∷ []

abbrev pub bound_keys : List String
bound_keys = "limit" ∷ "max" ∷ "cap" ∷ "count" ∷ "window" ∷ []

abbrev pub bounded_verbs : List Text
bounded_verbs = codes "foreach" ∷ codes "retry" ∷ codes "wait" ∷ []

abbrev pub has_bound : Dict SpecValue → Bool
has_bound spec = any (is_set spec) bound_keys

-- `s.rsplit(".", 1)[-1]`
abbrev pub last_part : Text → Text
last_part s = elim (rpartition b'.' s) [ none ↦ s | some (head, tail) ↦ tail ]

module _ (lib : CaseLib) where
  abbrev pub verb_of : Text → Text
  verb_of action = lib.lower (last_part action)

  -- `str(v)`
  abbrev pub str_of : SpecValue → String
  str_of (text t) = t
  str_of v = lib.show v

  -- `str(spec.get(key, default))`
  abbrev pub text_of : Dict SpecValue → String → String → String
  text_of spec key default = elim (lookup key spec) [ none ↦ default | some v ↦ str_of v ]

  -- The four deny patterns of `step_risk`.
  unfoldable pub is_denied : CaseStep → Bool
  is_denied step =
      let verb = verb_of step.action in
      is_infix (codes "shell") (lib.lower step.action)
      || is_true (lookup "shell" step.spec)
      || elem verb (codes "exec" ∷ codes "eval" ∷ codes "import" ∷ [])
      || is_set step.spec "dynamic_import"
      || (elem verb bounded_verbs && not (has_bound step.spec))
      || is_true (lookup "target_out_of_scope" step.spec)

  unfoldable pub is_intrusive : CaseStep → Bool
  is_intrusive step =
      is_prefix (codes "oast") (lib.lower step.action)
      || is_set step.spec "oast"
      || any (is_set step.spec) intrusive_markers

  unfoldable pub is_active : CaseStep → Bool
  is_active step =
      elem (verb_of step.action) (codes "crawl" ∷ codes "scan" ∷ codes "foreach" ∷ [])
      || is_set step.spec "crawl"
      || elem (lib.upper (codes (text_of step.spec "method" "")))
          (codes "POST" ∷ codes "PUT" ∷ codes "DELETE" ∷ codes "PATCH" ∷ [])

  -- `none` says that the step must never be published.
  unfoldable pub step_risk : CaseStep → Option RiskClass
  step_risk step =
      if is_denied step
      then none
      else if is_intrusive step
      then some RiskClass.intrusive
      else if is_active step
      then some RiskClass.active
      else some RiskClass.low

abbrev pub risk_rank : RiskClass → ℕ
risk_rank RiskClass.passive = 0
risk_rank RiskClass.low = 1
risk_rank RiskClass.active = 2
risk_rank RiskClass.intrusive = 3
risk_rank RiskClass.destructive = 4

-- `max(risks, key=risk_rank)` of a list that starts with `top`: the first of the highest.
abbrev pub highest_risk : RiskClass → List RiskClass → RiskClass
highest_risk top [] = top
highest_risk top (r ∷ rs) = highest_risk (if ltb (risk_rank top) (risk_rank r) then r else top) rs

module _ (lib : CaseLib) where
  -- The loop of `compute_risk`, and what follows it.
  unfoldable pub step_risks : List CaseStep → Option (List RiskClass)
  step_risks [] = some []
  step_risks (s ∷ ss) =
      let rest = step_risks ss in
      elim (step_risk lib s) [
        | none ↦ none
        | some r ↦ elim rest [ none ↦ none | some rs ↦ some (r ∷ rs) ]
      ]

  unfoldable pub compute_risk : CaseDefinition → Option RiskClass
  compute_risk c = elim (step_risks c.steps) [
    | none ↦ none
    | some [] ↦ some RiskClass.low
    | some (r ∷ rs) ↦ some (highest_risk r rs)
  ]

  -- `validate_declared_risk`, which `RiskAnalyzer.enforce_publish` calls.
  unfoldable pub validate_declared_risk : CaseDefinition → Result (Unit {0})
  validate_declared_risk c = elim (compute_risk c) [
    | none ↦ err risk_publish_denied
    | some computed ↦
        if ltb (risk_rank c.risk) (risk_rank computed) then err risk_undeclared else ok tt
  ]
