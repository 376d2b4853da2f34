-- ===== src/Cases/Interpreter.antt =====
-- src/secopent/infrastructure/case_engine/interpreter.py: a case run step by step against an
-- execution context, and its assertions.
pub mod Bounds
pub mod Verdict
use sec_opent.Prelude.{
  ℕ, ◌+◌, Bool, true, false, not, ◌&&◌, ◌||◌, Option, none, some, String, List, [], ◌∷◌, ◌++◌, all,
  elem, if◌then◌else◌, ◌==◌,
}
use sec_opent.Prelude.Int.{ℤ, pos, ltb_ℤ}
use sec_opent.Prelude.Text.{Text, text_eq, codes, is_empty, is_prefix}
use sec_opent.Prelude.Dict.{Dict, lookup, insert, values}
use sec_opent.Prelude.Raises.{
  Error, Result, ok, err, interpreter, expression_rejected, expression_failed,
}
use sec_opent.Prelude.Raises
use sec_opent.Prelude.Action.{Action, ◌>>=◌, ◌>>◌, lift, raise_if, modify, pure}
use sec_opent.Cases.{
  SpecValue, number, CaseLib, CaseStep, CaseAssertion, CaseDefinition, is_set, truth, verb_of,
  str_of, text_of, compute_risk,
}
use sec_opent.Cases.Engine.{Expr, Python, eval}

pub record Request : Type 0 where
  pub method : Text
  pub url : Text

-- `HttpResponse`: the values that the step stores, and the object itself.
pub record HttpResponse (V : Type 0) : Type 0 where
  pub status_code : V
  pub body : V
  pub headers : V
  pub whole : V

-- What the run is built with: Python, `ast.parse` (`none` for a SyntaxError), `re.search` on a pattern
-- and a text (`none` for `re.error`, then whether it matches, and then the first group, if there are
-- groups, and the whole match), and the answer of `http_request` to the n-th request.
pub record Env (V : Type 0) : Type 0 where
  pub lib : CaseLib
  pub py : Python V
  pub parse : String → Option (Expr V)
  pub match : String → Text → Option (Option (Option V × V))
  pub http_request : ℕ → Request → Result (HttpResponse V)

-- The variable store, and the requests so far, the latest first.
pub record Run (V : Type 0) : Type 0 where
  pub store : Dict V
  pub sent : List Request
  pub count : ℕ

pub record InterpreterResult (V : Type 0) : Type 0 where
  pub passed : Bool
  pub assertion_results : Dict Bool
  pub context : Dict V

-- `isinstance(v, int) and v > cap`; a Boolean is an int that exceeds no cap.
abbrev pub exceeds : ℕ → Option SpecValue → Bool
exceeds cap (some (number n)) = ltb_ℤ (pos cap) n
exceeds cap v = false

-- `spec.get(a) or spec.get(b)`
abbrev pub first_set : Dict SpecValue → String → String → Option SpecValue
first_set spec a b = if is_set spec a then lookup a spec else lookup b spec

abbrev pub control_verbs : List Text
control_verbs = codes "foreach" ∷ codes "retry" ∷ codes "wait" ∷ codes "condition" ∷ []

module _ {V : Type 0} (env : Env V) where
  abbrev pub verb : CaseStep → Text
  verb step = verb_of env.lib step.action

  unfoldable pub check_caps : CaseStep → Result (Unit {0})
  check_caps step =
      if verb step == codes "foreach"
      then Raises.raise_if (exceeds 100 (lookup "limit" step.spec)) (interpreter "foreach limit ")
      else if verb step == codes "retry"
      then Raises.raise_if (exceeds 10 (first_set step.spec "limit" "max"))
          (interpreter "retry count ")
      else Raises.raise_if (verb step == codes "wait" && exceeds 300 (lookup "seconds" step.spec))
          (interpreter "wait ")

  abbrev pub is_http : CaseStep → Bool
  is_http step =
      verb step == codes "request" && is_prefix (codes "http") (env.lib.lower step.action)

  abbrev pub is_extract : CaseStep → Bool
  is_extract step =
      verb step == codes "regex" && is_prefix (codes "extract") (env.lib.lower step.action)

  abbrev pub is_control : CaseStep → Bool
  is_control step = elem (verb step) control_verbs

  -- `str(spec.get("url") or "")`, or else the base and the path.
  abbrev pub given_url : Dict SpecValue → String
  given_url spec = elim (lookup "url" spec) [
    | none ↦ ""
    | some v ↦ if truth v then str_of env.lib v else ""
  ]

  abbrev pub url_of : Dict SpecValue → Text
  url_of spec =
      if is_empty (given_url spec)
      then codes (text_of env.lib spec "base_url" "") ++ codes (text_of env.lib spec "path" "")
      else codes (given_url spec)

  abbrev pub request_of : CaseStep → Request
  request_of step = record {
    method = env.lib.upper (codes (text_of env.lib step.spec "method" "GET"));
    url = url_of step.spec;
  }

  abbrev pub stored : String → HttpResponse V → Dict V → Dict V
  stored id response store = insert id response.whole (
      insert "headers" response.headers
        (insert "body" response.body (insert "status_code" response.status_code store)))

  -- The request is made, whatever comes back.
  unfoldable pub execute_http : CaseStep → Action (Run V) (Unit {0})
  execute_http step s =
      let request = request_of step in
      let asked : Run V = record s { sent = request ∷ s.sent; count = s.count + 1 } in
      elim (env.http_request s.count request) [
        | err e ↦ (err e, asked)
        | ok response ↦ (ok tt, record asked { store = stored step.id response s.store })
      ]

  abbrev pub captured : Option (Option V × V) → V
  captured none = env.py.of_text []
  captured (some (none, whole)) = whole
  captured (some (some group, whole)) = group

  abbrev pub source_of : CaseStep → Dict V → Text
  source_of step store = elim (lookup (text_of env.lib step.spec "source" "") store) [
    | none ↦ []
    | some v ↦ env.py.show v
  ]

  unfoldable pub execute_extract_regex : CaseStep → Action (Run V) (Unit {0})
  execute_extract_regex step s =
      let var = text_of env.lib step.spec "var" "" in
      if is_empty var
      then (err (interpreter "extract.regex requires a 'var' to store the capture"), s)
      else elim (env.match (text_of env.lib step.spec "pattern" "") (source_of step s.store)) [
        | none ↦ (err (interpreter "extract.regex invalid pattern: "), s)
        | some found ↦ (ok tt, record s { store = insert var (captured found) s.store })
      ]

  unfoldable pub execute_step : CaseStep → Action (Run V) (Unit {0})
  execute_step step =
      if is_http step
      then execute_http step
      else if is_extract step
      then execute_extract_regex step
      else if is_control step
      then pure tt
      else lift (err (interpreter "unsupported action in this interpreter: "))

  unfoldable pub execute_steps : List CaseStep → Action (Run V) (Unit {0})
  execute_steps [] = pure tt
  execute_steps (step ∷ rest) =
      let later = execute_steps rest in do lift (check_caps step); execute_step step; later

  -- `evaluate_expression`
  unfoldable pub evaluate_expression : String → Dict V → Result V
  evaluate_expression expression ctx = elim (env.parse expression) [
    | none ↦ err (expression_rejected "invalid expression syntax: ")
    | some e ↦ eval env.py ctx e
  ]

  -- `bool(...)`, or `False` on an ExpressionError.
  abbrev pub verdict : Result V → Result Bool
  verdict (ok v) = ok (env.py.truthy v)
  verdict (err (expression_rejected m)) = ok false
  verdict (err (expression_failed m)) = ok false
  verdict (err e) = err e

  abbrev pub check : Dict V → CaseAssertion → Result Bool
  check store a = verdict (evaluate_expression a.expression store)

  unfoldable pub check_all : Dict V → List CaseAssertion → Dict Bool → Result (Dict Bool)
  check_all store [] results = ok results
  check_all store (a ∷ rest) results = elim (check store a) [
    | err e ↦ err e
    | ok b ↦ check_all store rest (insert a.id b results)
  ]

  unfoldable pub judge : List CaseAssertion → Action (Run V) (InterpreterResult V)
  judge assertions s = elim (check_all s.store assertions []) [
    | err e ↦ (err e, s)
    | ok results ↦ (
      ok (record {
        passed = all (λ b. b) (values results);
        assertion_results = results;
        context = s.store;
      }),
      s,
    )
  ]

  abbrev pub is_none : {A : Type 0} → Option A → Bool
  is_none none = true
  is_none (some a) = false

  unfoldable pub run : CaseDefinition → Action (Run V) (InterpreterResult V)
  run c = do
    raise_if (is_none (compute_risk env.lib c)) (interpreter "case ")
    modify (λ s. record s { store = [] })
    execute_steps c.steps
    judge c.assertions
