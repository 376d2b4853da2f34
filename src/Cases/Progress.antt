-- ===== src/Cases/Progress.antt =====
-- src/secopent/application/cases.py: a case that passes its risk gate can be published by a human, and
-- one that does not pass it stays a draft.
use sec_opent.Prelude.{some, List, [], ◌∷◌, string_eq, ◌≡◌, ◌⊎◌, inl, inr, arith}
use sec_opent.Prelude.Text.{Text}
use sec_opent.Prelude.Dict.{lookup, lookup-insert_self}
use sec_opent.Prelude.Raises.{Error, ok, err, Result-cases}
use sec_opent.Cases.{CaseLib, CaseStatus, CaseDefinition, validate_declared_risk, compute_risk}
use sec_opent.Cases.Service.{
  CaseCall, Registry, Payload, signing_payload, put, check_transition, require_human, transition,
  create_draft, get, review, sign, publish, validate, create_call, validate_call, review_call,
  sign_call, publish_call, perform_all,
}

-- Each call at a case that is stored under its id, in the status that the call asks for.
module _ (lib : CaseLib) (signer : Payload → Text) (c : CaseDefinition) (s : Registry) where
  draft_stored : lookup c.id (create_draft c s).1 ≡ some (record c { status = CaseStatus.draft })
  unfolding create_draft put
  draft_stored = lookup-insert_self c.id (record c { status = CaseStatus.draft }) s

  validated_stored :
      lookup c.id s ≡ some (record c { status = CaseStatus.draft })
      → validate_declared_risk lib c ≡ ok tt
      → lookup c.id (validate lib c.id s).1 ≡ some (record c { status = CaseStatus.validated })
  unfolding validate get transition check_transition put validate_declared_risk compute_risk
  validated_stored h v =
      ground (arith, h, v, lookup-insert_self c.id (record c { status = CaseStatus.validated }) s)

  refused_stored :
      (e : Error)
      → lookup c.id s ≡ some (record c { status = CaseStatus.draft })
      → validate_declared_risk lib c ≡ err e
      → validate lib c.id s ≡ (err e, s)
  unfolding validate get transition check_transition put validate_declared_risk compute_risk
  refused_stored e h v = ground (arith, h, v)

  reviewed_stored :
      lookup c.id s ≡ some (record c { status = CaseStatus.validated })
      → lookup c.id (review c.id "human" s).1 ≡ some (record c { status = CaseStatus.reviewed })
  unfolding review require_human get transition check_transition put
  reviewed_stored h =
      ground (arith, h, lookup-insert_self c.id (record c { status = CaseStatus.reviewed }) s)

  signed_stored :
      lookup c.id s ≡ some (record c { status = CaseStatus.reviewed })
      → lookup c.id (sign signer c.id "human" s).1
        ≡ some (record c { status = CaseStatus.signed; signature = signer (signing_payload c) })
  unfolding sign require_human get check_transition put
  signed_stored h = ground (
    arith,
    h,
    lookup-insert_self c.id
        (record c { status = CaseStatus.signed; signature = signer (signing_payload c) }) s,
  )

  published_stored :
      lookup c.id s ≡ some (record c { status = CaseStatus.signed })
      → lookup c.id (publish c.id "human" s).1 ≡ some (record c { status = CaseStatus.published })
  unfolding publish require_human get transition check_transition put
  published_stored h =
      ground (arith, h, lookup-insert_self c.id (record c { status = CaseStatus.published }) s)

-- Creation, validation, review, signature and publication by a human.
abbrev pub lifecycle : CaseDefinition → List CaseCall
lifecycle c =
    create_call c
    ∷ validate_call c.id
    ∷ review_call c.id "human"
    ∷ sign_call c.id "human"
    ∷ publish_call c.id "human"
    ∷ []

-- Whatever is stored before, a case whose declared risk passes the gate ends up stored as PUBLISHED, with
-- the signature of its payload and otherwise unchanged, once a human has led it through the calls of the
-- life cycle. If the gate refuses it, validation raises the gate's error and the case stays a draft.
pub lifecycle-publishes :
    (lib : CaseLib) (signer : Payload → Text) (c : CaseDefinition) (s : Registry)
    → ((validate_declared_risk lib c ≡ ok tt)
        × (lookup c.id (perform_all lib signer (lifecycle c) s)
            ≡ some (record c {
              status = CaseStatus.published;
              signature = signer (signing_payload c);
            })))
      ⊎ ((e : Error) × (validate_declared_risk lib c ≡ err e)
          × (validate lib c.id (create_draft c s).1 ≡ (err e, (create_draft c s).1))
          × (lookup c.id (create_draft c s).1 ≡ some (record c { status = CaseStatus.draft })))
unfolding perform_all
lifecycle-publishes lib signer c s =
    let d = draft_stored lib signer c s in
    elim (Result-cases (validate_declared_risk lib c)) [
      | inl (u, v) ↦
          let w = validated_stored lib signer c _ d v in
          let r = reviewed_stored lib signer c _ w in
          let g = signed_stored lib signer c _ r in
          inl (
            v,
            published_stored lib signer (record c { signature = signer (signing_payload c) }) _ g,
          )
      | inr (e, v) ↦ inr (e, v, refused_stored lib signer c _ e d v, d)
    ]
