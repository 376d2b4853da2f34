-- ===== src/Prelude/Raises.antt =====
-- Exceptions as values. An exception keeps its class, and its message up to the first value that
-- the source formats into it.
use Prim.Native.Nat.{ℕ}
use Prim.Native.String.{String}
use mathlib.Core.Path.{◌≡◌, refl, sym}
use mathlib.Core.Bool.{Bool, true, false}
use mathlib.Core.Logic.{◌⊎◌, inl, inr}
use mathlib.Core.Option.{Option, none, some}
use mathlib.Core.List.{List, [], ◌∷◌}
use sec_opent.Prelude.Tests.{if◌then◌else◌}

pub data Error : Type 0 where
  -- DomainValidationError, LookupError, ValueError
  validation lookup_failed value_error : String → Error
  -- AssessmentPermissionError, GrantNotFoundError
  permission grant_not_found : String → Error
  -- JobNotFoundError, JobLeaseError
  job_not_found job_lease : String → Error
  -- PermitSignatureInvalid, PermitExpired, PermitReplayed, PermitWorkerMismatch
  permit_signature permit_expired permit_replayed permit_worker : Error
  -- ApprovalRejected, ApprovalRequired, PauseBudgetExceeded, DomainError
  approval_rejected approval_required pause_budget domain : String → Error
  -- StepPaused, StepCancelled
  step_paused step_cancelled : Error
  -- TokenNotIssuedError, TokenReuseError
  token_not_issued token_reused : Error
  -- RiskPublishDenied, RiskUndeclared
  risk_publish_denied risk_undeclared : Error
  -- CaseNotFoundError, CasePermissionError, CaseTransitionError, CaseNotModelGeneratedError
  case_not_found case_permission case_transition case_not_model_generated : Error
  -- InterpreterError; ExpressionError of a construct that is not allowed, and of an operation that
  -- fails; TypeError
  interpreter expression_rejected expression_failed : String → Error
  type_error : Error
  -- ExecutionStateError
  execution_state : String → Error
  -- any other exception, by a number
  other_error : ℕ → Error

pub data Result (A : Type 0) : Type 0 where
  ok : A → Result A
  err : Error → Result A

infixl 5 ◌>>=◌ ◌>>◌
abbrev pub ◌>>=◌ : {A B : Type 0} → Result A → (A → Result B) → Result B
ok a >>= f = f a
err e >>= f = err e

-- `if c: raise e`
abbrev pub raise_if : Bool → Error → Result (Unit {0})
raise_if c e = if c then err e else ok tt

abbrev pub ◌>>◌ : {B : Type 0} → Result (Unit {0}) → Result B → Result B
m >> k = m >>= λ _. k

-- `if x is None: raise e`
abbrev pub or_raise : {A : Type 0} → Option A → Error → Result A
or_raise none e = err e
or_raise (some a) e = ok a

-- `any(p(x) for x in xs)` and `all(p(x) for x in xs)` stop at the first answer or the first raise.
abbrev pub any_or_raise : {A : Type 0} → (A → Result Bool) → List A → Result Bool
any_or_raise p [] = ok false
any_or_raise p (x ∷ xs) =
    let rest = any_or_raise p xs in
    elim (p x) [ ok true ↦ ok true | ok false ↦ rest | err e ↦ err e ]

abbrev pub all_or_raise : {A : Type 0} → (A → Result Bool) → List A → Result Bool
all_or_raise p [] = ok true
all_or_raise p (x ∷ xs) =
    let rest = all_or_raise p xs in
    elim (p x) [ ok true ↦ rest | ok false ↦ ok false | err e ↦ err e ]

-- `[f(x) for x in xs]`
abbrev pub map_or_raise : {A B : Type 0} → (A → Result B) → List A → Result (List B)
map_or_raise f [] = ok []
map_or_raise f (x ∷ xs) =
    let rest = map_or_raise f xs in
    elim (f x) [ ok y ↦ elim rest [ ok ys ↦ ok (y ∷ ys) | err e ↦ err e ] | err e ↦ err e ]

-- Inversion of a successful bind: what the first part returned, and how the rest went on.
pub ok->>= :
    {A B : Type 0} {b : B} (m : Result A) (f : A → Result B)
    → ok b ≡ (m >>= f)
    → (a : A) × (f a ≡ ok b) × (m ≡ ok a)
ok->>= (err e) f h = absurd (cc)
ok->>= (ok a) f h = (a, sym h, refl)

pub Result-cases :
    {A : Type 0} (r : Result A) → ((a : A) × (r ≡ ok a)) ⊎ ((e : Error) × (r ≡ err e))
Result-cases (ok a) = inl (a, refl)
Result-cases (err e) = inr (e, refl)
