-- ===== src/Cases/Interpreter/Verdict.antt =====
-- src/secopent/infrastructure/case_engine/interpreter.py: when a run has passed.
use sec_opent.Prelude.{
  Bool, true, false, not, ◌&&◌, ◌||◌, String, List, [], ◌∷◌, all, any, All, ◌==◌, string_eq,
  Bool-cases, &&-true, ◌≡◌, ◌↔◌, inl, inr, refl, sym, ap, subst, ◌∙◌, arith,
}
use text.Mathlib.TextEquality.{eq_iff}
use sec_opent.Prelude.Dict.{Dict, insert, values}
use sec_opent.Prelude.Raises.{Error, ok, err, Result-cases}
use sec_opent.Cases.{CaseAssertion}
use sec_opent.Cases.Interpreter.{Env, Run, InterpreterResult, check, check_all, judge}

-- An assertion of this id stands in the list.
abbrev pub has_id : String → List CaseAssertion → Bool
has_id id assertions = any (λ a. a.id == id) assertions

-- Whether a key stands in the results, once or in more places.
abbrev has_key : String → Dict Bool → Bool
has_key k [] = false
has_key k ((j, b) ∷ d) = j == k || has_key k d

abbrev single : Dict Bool → Bool
single [] = true
single ((k, b) ∷ d) = not (has_key k d) && single d

-- Every result is true that no assertion of the list is going to overwrite.
abbrev kept_true : List CaseAssertion → Dict Bool → Bool
kept_true later [] = true
kept_true later ((k, b) ∷ d) = (has_id k later || b) && kept_true later d

has_key-insert :
    (k j : String) (b : Bool) (d : Dict Bool) → has_key k (insert j b d) ≡ (j == k || has_key k d)
has_key-insert k j b [] = refl
has_key-insert k j b ((i, c) ∷ d) =
    ground (arith, has_key-insert k j b d, eq_iff i j, eq_iff i k, eq_iff j k)

single-insert :
    (j : String) (b : Bool) (d : Dict Bool) → single d ≡ true → single (insert j b d) ≡ true
single-insert j b [] h = refl
single-insert j b ((i, c) ∷ d) h =
    ground (arith, h, single-insert j b d, has_key-insert i j b d, eq_iff i j, eq_iff j i)

kept_true-absent :
    (a : CaseAssertion) (later : List CaseAssertion) (d : Dict Bool)
    → has_key a.id d ≡ false
    → kept_true later d ≡ kept_true (a ∷ later) d
kept_true-absent a later [] h = refl
kept_true-absent a later ((k, b) ∷ d) h =
    ground (arith, h, kept_true-absent a later d, eq_iff a.id k, eq_iff k a.id)

-- A result that is written counts from then on, until it is overwritten.
kept_true-insert :
    (a : CaseAssertion) (later : List CaseAssertion) (b : Bool) (d : Dict Bool)
    → single d ≡ true
    → kept_true later (insert a.id b d) ≡ ((has_id a.id later || b) && kept_true (a ∷ later) d)
kept_true-insert a later b [] h = refl
kept_true-insert a later b ((k, c) ∷ d) h = elim (Bool-cases (k == a.id)) [
  | inl e ↦
      let i = (eq_iff k a.id).0 e in
      let absent : has_key a.id d ≡ false =
        subst (λ t. has_key t d ≡ false) i (ground (arith, h)) in
      rw i (ground (arith, eq_iff a.id a.id, kept_true-absent a later d absent, has_id a.id later))
  | inr e ↦ ground (arith, e, h, kept_true-insert a later b d, eq_iff a.id k, eq_iff k a.id)
]

kept_true-none : (d : Dict Bool) → kept_true [] d ≡ all (λ b. b) (values d)
kept_true-none [] = refl
kept_true-none ((k, b) ∷ d) = ap (λ t. b && t) (kept_true-none d)

module _ {V : Type 0} (env : Env V) (store : Dict V) where
  -- Every assertion holds that no later one of the same id replaces.
  abbrev pub AllHold : List CaseAssertion → Type 0
  AllHold [] = Unit
  AllHold (a ∷ later) = (has_id a.id later ≡ false → check env store a ≡ ok true) × AllHold later

  holds_or_later :
      (a : CaseAssertion) (later : List CaseAssertion) (b : Bool)
      → check env store a ≡ ok b
      → (has_id a.id later ≡ false → check env store a ≡ ok true)
      → (has_id a.id later || b) ≡ true
  holds_or_later a later b c f = elim (Bool-cases (has_id a.id later)) [
    | inl e ↦ rw e refl
    | inr e ↦ ground (arith, e, c, f e)
  ]

  check_all-AllHold :
      (assertions : List CaseAssertion) (d results : Dict Bool)
      → single d ≡ true
      → check_all env store assertions d ≡ ok results
      → (all (λ b. b) (values results) ≡ true)
        ↔ ((kept_true assertions d ≡ true) × AllHold assertions)
  unfolding check_all
  check_all-AllHold [] d results h e =
      let i : d ≡ results = cc e in
      let same : kept_true [] d ≡ all (λ b. b) (values results) =
        kept_true-none d ∙ ap (λ r. all (λ b. b) (values r)) i in
      (λ t. (same ∙ t, tt), λ p. sym same ∙ p.0)
  check_all-AllHold (a ∷ later) d results h e = elim (Result-cases (check env store a)) [
    | inr (x, c) ↦ absurd (ground (arith, e, c))
    | inl (b, c) ↦
        let ih =
          check_all-AllHold later (insert a.id b d) results (single-insert a.id b d h)
            (ground (arith, e, c)) in
        let k = kept_true-insert a later b d h in
        (
          λ t.
              let (p, q) = ih.0 t in
              let (r, u) =
                (&&-true (has_id a.id later || b) (kept_true (a ∷ later) d)).0 (sym k ∙ p) in
              (u, ((λ n. ground (arith, c, n, r)), q)),
          λ p. ih.1 (
            k
                ∙ (&&-true (has_id a.id later || b) (kept_true (a ∷ later) d)).1
                    (holds_or_later a later b c p.1.0, p.0),
            p.1.1,
          ),
        )
  ]

  -- The assertion gives an answer, whichever it is.
  abbrev pub Answers : CaseAssertion → Type 0
  Answers a = (b : Bool) × (check env store a ≡ ok b)

  check_all-returns :
      (assertions : List CaseAssertion) (d : Dict Bool)
      → All Answers assertions
      → (results : Dict Bool) × (check_all env store assertions d ≡ ok results)
  unfolding check_all
  check_all-returns [] d h = (d, refl)
  check_all-returns (a ∷ later) d ((b, c), h) =
      let (results, e) = check_all-returns later (insert a.id b d) h in
      (results, rw (c, check_all) e)

module _ {V : Type 0} (env : Env V) (assertions : List CaseAssertion) (s : Run V) where
  judge-result :
      (results : Dict Bool)
      → check_all env s.store assertions [] ≡ ok results
      → judge env assertions s ≡ (
        ok (record {
          passed = all (λ b. b) (values results);
          assertion_results = results;
          context = s.store;
        }),
        s,
      )
  unfolding judge
  judge-result results e = rw (e, judge) refl

  judge-raised :
      (e : Error)
      → check_all env s.store assertions [] ≡ err e
      → judge env assertions s ≡ (err e, s)
  unfolding judge
  judge-raised e h = rw (h, judge) refl

  -- If every assertion gives an answer, the judgement returns, and the run has passed exactly if every
  -- assertion holds in the store after the steps, but for those that a later assertion of the same id
  -- replaces: such a one may fail unseen.
  pub judge-passed :
      All (Answers env s.store) assertions
      → (r : InterpreterResult V) × ((judge env assertions s).0 ≡ ok r)
        × ((r.passed ≡ true) ↔ AllHold env s.store assertions)
  judge-passed h =
      let (results, c) = check_all-returns env s.store assertions [] h in
      let (f, g) = check_all-AllHold env s.store assertions [] results refl c in
      (_, ap (λ p. p.0) (judge-result results c), (λ t. (f t).1, λ t. g (refl, t)))
