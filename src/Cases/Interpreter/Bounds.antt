-- ===== src/Cases/Interpreter/Bounds.antt =====
-- src/secopent/infrastructure/case_engine/interpreter.py: which requests a run makes.
use sec_opent.Prelude.{
  ℕ, zero, suc, ◌≤◌, Bool, true, false, ◌||◌, Option, none, some, String, List, [], ◌∷◌, All,
  length, if◌then◌else◌, Bool-cases, Option-cases, ◌≡◌, ◌⊎◌, ap, inl, inr, refl, arith,
}
use sec_opent.Prelude.Raises.{Error, Result, ok, err, interpreter, Result-cases}
use sec_opent.Prelude.Text.{is_empty}
use sec_opent.Cases.{text_of, CaseStep, CaseDefinition, compute_risk}
use sec_opent.Cases.Interpreter.{
  Request, Env, Run, InterpreterResult, check_caps, is_http, is_extract, is_control, request_of,
  execute_http, execute_extract_regex, execute_step, execute_steps, source_of, judge, is_none, run,
}

abbrev pub take {ℓ} : {A : Type ℓ} → ℕ → List A → List A
take zero xs = []
take (suc n) [] = []
take (suc n) (x ∷ xs) = x ∷ take n xs

module _ {V : Type 0} (env : Env V) where
  -- The requests of the HTTP steps among these, put before the ones that were made earlier.
  abbrev pub sent_by : List CaseStep → List Request → List Request
  sent_by [] sent = sent
  sent_by (step ∷ rest) sent =
      sent_by rest (if is_http env step then request_of env step ∷ sent else sent)

  -- The step is within its caps and of a kind that the interpreter knows.
  abbrev pub Runnable : CaseStep → Type 0
  Runnable step =
      (check_caps env step ≡ ok tt)
      × ((is_http env step || is_extract env step || is_control env step) ≡ true)

  abbrev no_var : CaseStep → Bool
  no_var step = is_empty (text_of env.lib step.spec "var" "")

  abbrev pattern_of : CaseStep → String
  pattern_of step = text_of env.lib step.spec "pattern" ""

  execute_http-sent :
      (step : CaseStep) (s : Run V)
      → (execute_http env step s).1.sent ≡ request_of env step ∷ s.sent
  unfolding execute_http
  execute_http-sent step s = elim (Result-cases (env.http_request s.count (request_of env step))) [
    | inl (r, e) ↦ rw (e, execute_http) refl
    | inr (x, e) ↦ rw (e, execute_http) refl
  ]

  execute_extract_regex-sent :
      (step : CaseStep) (s : Run V) → (execute_extract_regex env step s).1.sent ≡ s.sent
  unfolding execute_extract_regex
  execute_extract_regex-sent step s = elim (Bool-cases (no_var step)) [
    | inl e ↦ rw e refl
    | inr e ↦ elim (Option-cases (env.match (pattern_of step) (source_of env step s.store))) [
      | inl n ↦ rw (e, n) refl
      | inr (f, m) ↦ rw (e, m) refl
    ]
  ]

  execute_step-sent :
      (step : CaseStep) (s : Run V) → (execute_step env step s).1.sent ≡ sent_by (step ∷ []) s.sent
  unfolding execute_step
  execute_step-sent step s = elim (Bool-cases (is_http env step)) [
    | inl e ↦ rw e (execute_http-sent step s)
    | inr e ↦ elim (Bool-cases (is_extract env step)) [
      | inl f ↦ rw (e, f) (execute_extract_regex-sent step s)
      | inr f ↦ elim (Bool-cases (is_control env step)) [
        | inl g ↦ rw (e, f, g) refl
        | inr g ↦ rw (e, f, g) refl
      ]
    ]
  ]

  execute_step-known :
      (step : CaseStep) (s : Run V) (u : Unit {0})
      → (execute_step env step s).0 ≡ ok u
      → (is_http env step || is_extract env step || is_control env step) ≡ true
  unfolding execute_step
  execute_step-known step s u h = elim (Bool-cases (is_http env step)) [
    | inl e ↦ rw e refl
    | inr e ↦ elim (Bool-cases (is_extract env step)) [
      | inl f ↦ rw (e, f) refl
      | inr f ↦ elim (Bool-cases (is_control env step)) [
        | inl g ↦ rw (e, f, g) refl
        | inr g ↦ absurd (ground (arith, h, e, f, g))
      ]
    ]
  ]

  -- How the steps go: they stop before the first that raises, or after it.
  pub record Sends (steps : List CaseStep) (s t : Run V) : Type 0 where
    pub tried : ℕ
    pub at_most : tried ≤ length steps
    pub requests : t.sent ≡ sent_by (take tried steps) s.sent

  stopped : {steps : List CaseStep} {s t : Run V} → t.sent ≡ s.sent → Sends steps s t
  stopped h = record { tried = 0; at_most = omega arith; requests = h }

  further :
      {step : CaseStep} {rest : List CaseStep} {s t u : Run V}
      → t.sent ≡ sent_by (step ∷ []) s.sent
      → Sends rest t u
      → Sends (step ∷ rest) s u
  further h k = record {
    tried = suc k.tried;
    at_most = omega (arith, k.at_most);
    requests = ground (arith, h, k.requests);
  }

  -- What a run of these steps does, and that it came to the end if it returns.
  pub record Executed (steps : List CaseStep) (s : Run V) (r : Result (Unit {0})) (t : Run V)
      : Type 0 where
    pub sends : Sends steps s t
    pub finished : (u : Unit {0}) → r ≡ ok u → (t.sent ≡ sent_by steps s.sent) × All Runnable steps

  execute_steps-refused :
      (step : CaseStep) (rest : List CaseStep) (s : Run V) (e : Error)
      → check_caps env step ≡ err e
      → execute_steps env (step ∷ rest) s ≡ (err e, s)
  unfolding execute_steps
  execute_steps-refused step rest s e c = ground (arith, c)

  execute_steps-raised :
      (step : CaseStep) (rest : List CaseStep) (s : Run V) (e : Error)
      → check_caps env step ≡ ok tt
      → (execute_step env step s).0 ≡ err e
      → execute_steps env (step ∷ rest) s ≡ (err e, (execute_step env step s).1)
  unfolding execute_steps
  execute_steps-raised step rest s e c h = ground (arith, c, h)

  execute_steps-goes_on :
      (step : CaseStep) (rest : List CaseStep) (s : Run V)
      → check_caps env step ≡ ok tt
      → (execute_step env step s).0 ≡ ok tt
      → execute_steps env (step ∷ rest) s ≡ execute_steps env rest (execute_step env step s).1
  unfolding execute_steps
  execute_steps-goes_on step rest s c h = ground (arith, c, h)

  execute_steps-Executed :
      (steps : List CaseStep) (s : Run V)
      → Executed steps s (execute_steps env steps s).0 (execute_steps env steps s).1
  execute_steps-Executed [] s =
      unfold execute_steps in record { sends = stopped refl; finished = λ u h. (refl, tt) }
  execute_steps-Executed (step ∷ rest) s = elim (Result-cases (check_caps env step)) [
    | inr (e, c) ↦
        rw (execute_steps-refused step rest s e c)
          (record { sends = stopped refl; finished = λ u h. absurd (cc h) })
    | inl (u, c) ↦
        let sent = execute_step-sent step s in
        elim (Result-cases (execute_step env step s).0) [
          | inr (e, h) ↦ rw (execute_steps-raised step rest s e c h) (record {
            sends = further {t = (execute_step env step s).1} sent (stopped refl);
            finished = λ u k. absurd (cc k);
          })
          | inl (v, h) ↦
              let k = execute_steps-Executed rest (execute_step env step s).1 in
              rw (execute_steps-goes_on step rest s c h) (record {
                sends = further sent k.sends;
                finished = λ w e.
                    let (f, g) = k.finished w e in
                    (ground (arith, f, sent), ((c, execute_step-known step s tt h), g));
              })
        ]
  ]

  judge-sent : (assertions : _) (s : Run V) → (judge env assertions s).1 ≡ s
  unfolding judge
  judge-sent assertions s = ground arith

  -- The run of a case that is not denied starts with an empty store.
  abbrev started : Run V → Run V
  started s = record s { store = [] }

  from_start : {steps : List CaseStep} {s t : Run V} → Sends steps (started s) t → Sends steps s t
  from_start k = record { tried = k.tried; at_most = k.at_most; requests = k.requests }

  run-denied :
      (c : CaseDefinition) (s : Run V)
      → is_none env (compute_risk env.lib c) ≡ true
      → run env c s ≡ (err (interpreter "case "), s)
  unfolding run
  run-denied c s h = rw h refl

  run-failed :
      (c : CaseDefinition) (s : Run V) (e : Error)
      → is_none env (compute_risk env.lib c) ≡ false
      → (execute_steps env c.steps (started s)).0 ≡ err e
      → run env c s ≡ (err e, (execute_steps env c.steps (started s)).1)
  unfolding run
  run-failed c s e h k = ground (arith, h, k)

  run-judged :
      (c : CaseDefinition) (s : Run V) (u : Unit {0})
      → is_none env (compute_risk env.lib c) ≡ false
      → (execute_steps env c.steps (started s)).0 ≡ ok u
      → run env c s ≡ judge env c.assertions (execute_steps env c.steps (started s)).1
  unfolding run
  run-judged c s u h k = ground (arith, h, k)

  none-is_none : {A : Type 0} (o : Option A) → o ≡ none → is_none env o ≡ true
  none-is_none none h = refl
  none-is_none (some a) h = absurd (cc)

  -- A run makes the requests of the HTTP steps among its first few steps, in their order, and no others.
  -- Either it returns, and then these are the requests of all its HTTP steps, the case has a computed risk,
  -- and each step was within its caps and of a known kind; or it raises, and then the case has a computed
  -- risk or nothing was done.
  pub run-sends :
      (c : CaseDefinition) (s : Run V)
      → Sends c.steps s (run env c s).1
        × (((e : Error) × ((run env c s).0 ≡ err e)
              × ((is_none env (compute_risk env.lib c) ≡ false) ⊎ ((run env c s).1 ≡ s)))
            ⊎ ((r : InterpreterResult V) × ((run env c s).0 ≡ ok r)
                × ((run env c s).1.sent ≡ sent_by c.steps s.sent)
                × (is_none env (compute_risk env.lib c) ≡ false)
                × All Runnable c.steps))
  run-sends c s =
      let x = execute_steps-Executed c.steps (started s) in
      elim (Bool-cases (is_none env (compute_risk env.lib c))) [
        | inl d ↦ (
          rw (run-denied c s d) (stopped refl),
          inl (_, ap (λ p. p.0) (run-denied c s d), inr (ap (λ p. p.1) (run-denied c s d))),
        )
        | inr d ↦ elim (Result-cases (execute_steps env c.steps (started s)).0) [
          | inr (e, k) ↦ (
            rw (run-failed c s e d k) (from_start x.sends),
            inl (e, ap (λ p. p.0) (run-failed c s e d k), inl d),
          )
          | inl (u, k) ↦
              let t = (execute_steps env c.steps (started s)).1 in
              let (sent, steps) = x.finished u k in
              (
                rw (run-judged c s u d k, judge-sent c.assertions t) (from_start x.sends),
                elim (Result-cases (run env c s).0) [
                  | inl (r, q) ↦
                      inr
                        (r, q, rw (run-judged c s u d k, judge-sent c.assertions t) sent, d, steps)
                  | inr (e, q) ↦ inl (e, q, inl d)
                ],
              )
        ]
      ]
