-- ===== src/Cases/Reviewed.antt =====
-- src/secopent/application/cases.py: what holds of every stored case, whoever calls.
use sec_opent.Prelude.{
  Bool, true, some, String, [], ◌∷◌, ◌==◌, string_eq, elem, Option-cases, Bool-cases, ◌≡◌, ◌⊎◌, inl,
  inr, sym, subst, arith,
}
use text.Mathlib.TextEquality.{eq_iff}
use sec_opent.Prelude.Text.{Text}
use sec_opent.Prelude.Dict.{lookup, insert, lookup-insert_cases}
use sec_opent.Prelude.Raises.{Error, ok, err, Result-cases, case_permission}
use sec_opent.Risk.{RiskClass, risk_eq}
use sec_opent.Cases.{CaseLib, CaseStatus, CaseDefinition, validate_declared_risk}
use sec_opent.Cases.Service.{
  Registry, Payload, signing_payload, follows, is_model_generated, put, check_transition,
  require_human, transition, create_draft, get, review, sign, publish, validate, advance,
  fast_track_model_generated,
}

-- Every stored case satisfies `P`.
abbrev pub Holds : (CaseDefinition → Type 0) → Registry → Type 0
Holds P s = (k : String) (c : CaseDefinition) → lookup k s ≡ some c → P c

insert-Holds :
    (P : CaseDefinition → Type 0) (c : CaseDefinition) (s : Registry)
    → Holds P s
    → P c
    → Holds P (insert c.id c s)
insert-Holds P c s h p k d e = elim (lookup-insert_cases c.id k c d s e) [
  | inl (i, j) ↦ subst P j p
  | inr f ↦ h k d f
]

module _ (P : CaseDefinition → Type 0) where
  kept-Holds : {t : Registry} (s : Registry) → Holds P s → t ≡ s → Holds P t
  kept-Holds s h e = subst (λ r. Holds P r) (sym e) h

  put-Holds :
      {t : Registry} (c : CaseDefinition) (s : Registry)
      → Holds P s
      → t ≡ insert c.id c s
      → P c
      → Holds P t
  put-Holds c s h e p = subst (λ r. Holds P r) (sym e) (insert-Holds P c s h p)

-- Only a human passes.
require_human-cases :
    (role : String)
    → ((e : Error) × (require_human role ≡ err e))
      ⊎ ((role ≡ "human") × (require_human role ≡ ok tt))
unfolding require_human
require_human-cases role = elim (Bool-cases (role == "agent")) [
  | inl a ↦ inl (case_permission, ground (arith, a))
  | inr a ↦ elim (Bool-cases (role == "human")) [
    | inl h ↦ inr ((eq_iff role "human").0 h, ground (arith, a, h))
    | inr h ↦ inl (case_permission, ground (arith, a, h))
  ]
]

-- Each call that a human makes stores one case, or leaves the registry alone.
module _ (signer : Payload → Text) (id role : String) (s : Registry) where
  sign-outcome :
      ((sign signer id role s).1 ≡ s)
      ⊎ ((c : CaseDefinition) × (role ≡ "human")
          × (lookup id s ≡ some c)
          × (follows c.status CaseStatus.signed ≡ true)
          × ((sign signer id role s).1
              ≡ insert c.id
                  (record c { status = CaseStatus.signed; signature = signer (signing_payload c) })
                  s))
  unfolding sign get check_transition put
  sign-outcome = elim (require_human-cases role) [
    | inl (e, r) ↦ inl (ground (arith, r))
    | inr (i, r) ↦ elim (Option-cases (lookup id s)) [
      | inl n ↦ inl (ground (arith, r, n))
      | inr (c, f) ↦ elim (Bool-cases (follows c.status CaseStatus.signed)) [
        | inl g ↦ inr (c, i, f, g, ground (arith, r, f, g))
        | inr g ↦ inl (ground (arith, r, f, g))
      ]
    ]
  ]

module _ (id role : String) (s : Registry) where
  review-outcome :
      ((review id role s).1 ≡ s)
      ⊎ ((c : CaseDefinition) × (role ≡ "human")
          × (lookup id s ≡ some c)
          × (follows c.status CaseStatus.reviewed ≡ true)
          × ((review id role s).1 ≡ insert c.id (record c { status = CaseStatus.reviewed }) s))
  unfolding review get transition check_transition put
  review-outcome = elim (require_human-cases role) [
    | inl (e, r) ↦ inl (ground (arith, r))
    | inr (i, r) ↦ elim (Option-cases (lookup id s)) [
      | inl n ↦ inl (ground (arith, r, n))
      | inr (c, f) ↦ elim (Bool-cases (follows c.status CaseStatus.reviewed)) [
        | inl g ↦ inr (c, i, f, g, ground (arith, r, f, g))
        | inr g ↦ inl (ground (arith, r, f, g))
      ]
    ]
  ]

  publish-outcome :
      ((publish id role s).1 ≡ s)
      ⊎ ((c : CaseDefinition) × (role ≡ "human")
          × (lookup id s ≡ some c)
          × (follows c.status CaseStatus.published ≡ true)
          × ((publish id role s).1 ≡ insert c.id (record c { status = CaseStatus.published }) s))
  unfolding publish get transition check_transition put
  publish-outcome = elim (require_human-cases role) [
    | inl (e, r) ↦ inl (ground (arith, r))
    | inr (i, r) ↦ elim (Option-cases (lookup id s)) [
      | inl n ↦ inl (ground (arith, r, n))
      | inr (c, f) ↦ elim (Bool-cases (follows c.status CaseStatus.published)) [
        | inl g ↦ inr (c, i, f, g, ground (arith, r, f, g))
        | inr g ↦ inl (ground (arith, r, f, g))
      ]
    ]
  ]

module _ (P : CaseDefinition → Type 0) (id role : String) (s : Registry) where
  pub review-Holds :
      Holds P s
      → (role ≡ "human"
          → (c : CaseDefinition) → P c
          → follows c.status CaseStatus.reviewed ≡ true
          → P (record c { status = CaseStatus.reviewed }))
      → Holds P (review id role s).1
  review-Holds h k = elim (review-outcome id role s) [
    | inl e ↦ kept-Holds P s h e
    | inr (c, i, f, g, e) ↦ put-Holds P _ s h e (k i c (h id c f) g)
  ]

  pub publish-Holds :
      Holds P s
      → (role ≡ "human"
          → (c : CaseDefinition) → P c
          → follows c.status CaseStatus.published ≡ true
          → P (record c { status = CaseStatus.published }))
      → Holds P (publish id role s).1
  publish-Holds h k = elim (publish-outcome id role s) [
    | inl e ↦ kept-Holds P s h e
    | inr (c, i, f, g, e) ↦ put-Holds P _ s h e (k i c (h id c f) g)
  ]

  pub sign-Holds :
      (signer : Payload → Text)
      → Holds P s
      → (role ≡ "human"
          → (c : CaseDefinition) → P c
          → follows c.status CaseStatus.signed ≡ true
          → P (record c { status = CaseStatus.signed; signature = signer (signing_payload c) }))
      → Holds P (sign signer id role s).1
  sign-Holds signer h k = elim (sign-outcome signer id role s) [
    | inl e ↦ kept-Holds P s h e
    | inr (c, i, f, g, e) ↦ put-Holds P _ s h e (k i c (h id c f) g)
  ]

-- The checks of `validate` and of the fast path.
module _ (lib : CaseLib) (id : String) (s : Registry) where
  abbrev Passed : CaseDefinition → Type 0
  Passed c =
      (lookup id s ≡ some c)
      × (validate_declared_risk lib c ≡ ok tt)
      × (follows c.status CaseStatus.validated ≡ true)

  validate-outcome :
      ((validate lib id s).1 ≡ s)
      ⊎ ((c : CaseDefinition) × Passed c
          × ((validate lib id s).1 ≡ insert c.id (record c { status = CaseStatus.validated }) s))
  unfolding validate get transition check_transition put
  validate-outcome = elim (Option-cases (lookup id s)) [
    | inl n ↦ inl (ground (arith, n))
    | inr (c, f) ↦ elim (Result-cases (validate_declared_risk lib c)) [
      | inr (e, v) ↦ inl (ground (arith, f, v))
      | inl (tt, v) ↦ elim (Bool-cases (follows c.status CaseStatus.validated)) [
        | inr g ↦ inl (ground (arith, f, v, g))
        | inl g ↦ inr (c, (f, v, g), ground (arith, f, v, g))
      ]
    ]
  ]

  abbrev is_low : RiskClass → Bool
  is_low r = elem r (RiskClass.passive ∷ RiskClass.low ∷ [])

  abbrev twice : CaseDefinition → Registry
  twice c =
      insert c.id (record c { status = CaseStatus.reviewed })
        (insert c.id (record c { status = CaseStatus.validated }) s)

  fast_track-outcome :
      ((fast_track_model_generated lib id s).1 ≡ s)
      ⊎ ((c : CaseDefinition) × Passed c
          × (is_model_generated c.origin ≡ true)
          × (((fast_track_model_generated lib id s).1
                ≡ insert c.id (record c { status = CaseStatus.validated }) s)
              ⊎ (is_low c.risk ≡ true) × ((fast_track_model_generated lib id s).1 ≡ twice c)))
  unfolding fast_track_model_generated get transition check_transition put advance
  fast_track-outcome = elim (Option-cases (lookup id s)) [
    | inl n ↦ inl (ground (arith, n))
    | inr (c, f) ↦ elim (Bool-cases (is_model_generated c.origin)) [
      | inr o ↦ inl (ground (arith, f, o))
      | inl o ↦ elim (Result-cases (validate_declared_risk lib c)) [
        | inr (e, v) ↦ inl (ground (arith, f, o, v))
        | inl (tt, v) ↦ elim (Bool-cases (follows c.status CaseStatus.validated)) [
          | inr g ↦ inl (ground (arith, f, o, v, g))
          | inl g ↦ elim (Bool-cases (is_low c.risk)) [
            | inr l ↦ inr (c, (f, v, g), o, inl (ground (arith, f, o, v, g, l)))
            | inl l ↦ inr (c, (f, v, g), o, inr (l, ground (arith, f, o, v, g, l)))
          ]
        ]
      ]
    ]
  ]

-- What the calls that ask for no role do to a case: a draft is stored, a draft that passed the gate is
-- validated, and a model's case of a low risk that passed the gate is reviewed.
pub record Closed (lib : CaseLib) (P : CaseDefinition → Type 0) : Type 0 where
  pub drafts : (c : CaseDefinition) → P (record c { status = CaseStatus.draft })
  pub validates :
      (c : CaseDefinition)
      → P c
      → validate_declared_risk lib c ≡ ok tt
      → P (record c { status = CaseStatus.validated })
  pub reviews :
      (c : CaseDefinition)
      → P c
      → validate_declared_risk lib c ≡ ok tt
      → is_model_generated c.origin ≡ true
      → elem c.risk (RiskClass.passive ∷ RiskClass.low ∷ []) ≡ true
      → P (record c { status = CaseStatus.reviewed })

module _ (lib : CaseLib) (P : CaseDefinition → Type 0) (closed : Closed lib P) where
  pub create_draft-Holds :
      (c : CaseDefinition) (s : Registry) → Holds P s → Holds P (create_draft c s).1
  unfolding create_draft put
  create_draft-Holds c s h =
      insert-Holds P (record c { status = CaseStatus.draft }) s h (closed.drafts c)

  pub validate-Holds : (id : String) (s : Registry) → Holds P s → Holds P (validate lib id s).1
  validate-Holds id s h = elim (validate-outcome lib id s) [
    | inl e ↦ kept-Holds P s h e
    | inr (c, (f, v, g), e) ↦ put-Holds P _ s h e (closed.validates c (h id c f) v)
  ]

  pub fast_track-Holds :
      (id : String) (s : Registry) → Holds P s → Holds P (fast_track_model_generated lib id s).1
  fast_track-Holds id s h = elim (fast_track-outcome lib id s) [
    | inl e ↦ kept-Holds P s h e
    | inr (c, (f, v, g), o, inl e) ↦ put-Holds P _ s h e (closed.validates c (h id c f) v)
    | inr (c, (f, v, g), o, inr (l, e)) ↦
        let p = h id c f in
        put-Holds P _ _ (insert-Holds P _ s h (closed.validates c p v)) e (closed.reviews c p v o l)
  ]
