-- ===== src/Service/Outcomes.antt =====
-- How each method of the service ends: it raises and leaves the store alone, or it writes one
-- assessment along a legal transition.
use sec_opent.Prelude.{
  ◌&&◌, ◌||◌, Bool, true, false, not, some, String, elem, ◌≡◌, ◌⊎◌, inl, inr, arith, Option-cases,
  Bool-cases,
}
use sec_opent.Prelude.Dict.{lookup, insert}
use sec_opent.Prelude.Text.{Text, is_empty}
use sec_opent.Prelude.Raises.{Result, ok, err, Result-cases}
use sec_opent.Assessment.{
  AssessmentStatus, status_eq, allowed_transitions, ControlState, Assessment, start_assessment,
  is_missing,
}
use sec_opent.Scope.{null}
use sec_opent.Service.{Store, Env, Method, require_human, reject, enqueue, move_to, signal_to}

-- The store after `a` is saved.
abbrev pub saved : Assessment → Store → Store
saved a s = record s { assessments = insert a.id a s.assessments }

abbrev pub is_err : {A : Type 0} → Result A → Bool
is_err (ok a) = false
is_err (err e) = true

module _ {A : Type 0} (m : Method A) (s : Store) where
  -- The method raised before it wrote anything.
  abbrev pub Raised : Type 0
  Raised = (is_err (m s).0 ≡ true) × ((m s).1 ≡ s)

-- An assessment was moved to another status, and kept its id, its plan and its approval.
pub record Moved (s : Store) (id : String) (target : AssessmentStatus) (a b : Assessment)
    : Type 0 where
  pub stored : lookup id s.assessments ≡ some a
  pub legal : elem target (allowed_transitions a.status) ≡ true
  pub status : b.status ≡ target
  pub same_id : b.id ≡ a.id
  pub same_plan : b.active_plan_id ≡ a.active_plan_id
  pub same_approval : b.approval_id ≡ a.approval_id

abbrev pub Moves : Method Assessment → Store → String → AssessmentStatus → Type 0
Moves m s id target =
    Raised m s ⊎ ((a b : Assessment) × Moved s id target a b × (m s ≡ (ok b, saved b s)))

pub move_to-Moves :
    (target : AssessmentStatus) (id : String) (s : Store) → Moves (move_to target id) s id target
unfolding move_to
move_to-Moves target id s = elim (Option-cases (lookup id s.assessments)) [
  | inl missing ↦ inl (ground arith, ground arith)
  | inr (a, e) ↦ elim (Bool-cases (elem target (allowed_transitions a.status))) [
    | inr illegal ↦ inl (ground arith, ground arith)
    | inl legal ↦ inr (a, record a { status = target }, ground arith, ground arith)
  ]
]

pub signal_to-Moves :
    (target : AssessmentStatus) (signal : ControlState) (id : String) (s : Store)
    → Moves (signal_to target signal id) s id target
unfolding signal_to
signal_to-Moves target signal id s = elim (Option-cases (lookup id s.assessments)) [
  | inl missing ↦ inl (ground arith, ground arith)
  | inr (a, e) ↦ elim (Bool-cases (elem target (allowed_transitions a.status))) [
    | inr illegal ↦ inl (ground arith, ground arith)
    | inl legal ↦
        inr (a, record a { status = target; control = signal }, ground arith, ground arith)
  ]
]

module _ (env : Env) where
  pub reject-Moves :
      (id : String) (reason : Text) (role : String) (s : Store)
      → Moves (reject env id reason role) s id AssessmentStatus.rejected
  unfolding reject
  reject-Moves id reason role s = elim (Result-cases (require_human role)) [
    | inr (e, r) ↦ inl (ground arith, ground arith)
    | inl (u, h) ↦ elim (Option-cases (lookup id s.assessments)) [
      | inl missing ↦ inl (ground arith, ground arith)
      | inr (a, e) ↦
          elim (Bool-cases (
            elem AssessmentStatus.rejected (allowed_transitions a.status)
            && not (null (env.strip reason)))) [
              | inr refused ↦ inl (ground arith, ground arith)
              | inl legal ↦
                  inr
                    (a, record a { status = AssessmentStatus.rejected }, ground arith, ground arith)
            ]
    ]
  ]

  enqueue_refused :
      (id : String) (s : Store) (a : Assessment)
      → lookup id s.assessments ≡ some a
      → elem AssessmentStatus.queued (allowed_transitions a.status) ≡ false
      → Raised (enqueue env id) s
  unfolding enqueue
  enqueue_refused id s a e n = (ground arith, ground arith)

  pub enqueue-Moves :
      (id : String) (s : Store) → Moves (enqueue env id) s id AssessmentStatus.queued
  unfolding enqueue start_assessment
  enqueue-Moves id s = elim (Option-cases (lookup id s.assessments)) [
    | inl missing ↦ inl (ground arith, ground arith)
    | inr (a, e) ↦ elim (Bool-cases (elem AssessmentStatus.queued (allowed_transitions a.status))) [
      | inr illegal ↦ inl (enqueue_refused id s a e illegal)
      | inl legal ↦ elim (Option-cases a.active_plan_id) [
        | inl n ↦ inl (ground arith, ground arith)
        | inr (p, q) ↦ elim (Bool-cases (is_empty p || is_missing a.approval_id)) [
          | inl refused ↦ inl (ground arith, ground arith)
          | inr fine ↦ inr (
            a,
            record a { status = AssessmentStatus.queued; active_plan_id = some p },
            ground arith,
            ground arith,
          )
        ]
      ]
    ]
  ]
