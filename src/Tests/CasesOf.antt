-- ===== src/Tests/CasesOf.antt =====
-- The properties of cases, at concrete ones: a probe of two steps with one assertion.
use sec_opent.Prelude.{
  ℕ, true, false, none, some, List, [], ◌∷◌, All, any, ◌==◌, nat_eq, if◌then◌else◌, ◌≡◌, ◌↔◌, ◌⊎◌,
  refl, ap, sym,
}
use sec_opent.Prelude.Text.{Text, codes, text_eq}
use sec_opent.Prelude.Dict.{Dict, lookup}
use sec_opent.Prelude.Raises.{Error, ok, err, type_error, value_error}
use sec_opent.Risk.{RiskClass, risk_eq}
use sec_opent.Cases.{
  SpecValue, CaseLib, CaseStatus, CaseOrigin, CaseStep, CaseAssertion, CaseDefinition, is_denied,
  is_intrusive, is_active, step_risk, step_risks, compute_risk, validate_declared_risk,
}
use sec_opent.Cases.Ladder.{Within, is_risk, compute_risk-highest}
use sec_opent.Cases.Service.{
  Registry, Payload, signing_payload, create_call, validate_call, sign_call, CaseCall, create_draft,
  validate, perform_all,
}
use sec_opent.Cases.Reviewed.{Holds}
use sec_opent.Cases.Published.{Sound, reachable-Sound, Untouched, reachable-Untouched}
use sec_opent.Cases.Progress.{lifecycle, lifecycle-publishes}
use sec_opent.Cases.Engine.{
  CompareOp, Expr, constant, name, compare, call, nil, cons, done, next, Python, eval, callee,
  compare_by, apply,
}
use sec_opent.Cases.Engine.Failures.{is_plain, is_expression_error, Fine, eval-Fine}
use sec_opent.Cases.Engine.Visited.{is_allowed, eval-allowed}
use sec_opent.Cases.Interpreter.{
  Env, Run, InterpreterResult, HttpResponse, run, judge, evaluate_expression, is_none,
}
use sec_opent.Cases.Interpreter.Bounds.{Sends, sent_by, Runnable, run-sends}
use sec_opent.Cases.Interpreter.Verdict.{AllHold, Answers, judge-passed}

abbrev lib : CaseLib
lib = record { lower = λ t. t; upper = λ t. t; show = λ v. "" }

abbrev fetch : CaseStep
fetch = record {
  id = "get";
  action = codes "http.request";
  spec = ("url", SpecValue.text "http://10.0.0.5/") ∷ ("method", SpecValue.text "GET") ∷ [];
}

abbrev post : CaseStep
post = record {
  id = "post";
  action = codes "http.request";
  spec = ("url", SpecValue.text "http://10.0.0.5/") ∷ ("method", SpecValue.text "POST") ∷ [];
}

abbrev ok_status : CaseAssertion
ok_status = record { id = "a1"; expression = "status_code == 200" }

abbrev probe : CaseDefinition
probe = record {
  id = "probe";
  version = "1";
  author = "alice";
  risk = RiskClass.active;
  target_type = "web";
  schema = "1";
  steps = fetch ∷ post ∷ [];
  assertions = ok_status ∷ [];
  signature = [];
  origin = CaseOrigin.manual;
  status = CaseStatus.draft;
}

-- The second step writes, so that the case is Active.
probe_risk : compute_risk lib probe ≡ some RiskClass.active
unfolding compute_risk step_risks step_risk is_denied is_intrusive is_active
probe_risk = refl

probe_passes : validate_declared_risk lib probe ≡ ok tt
unfolding validate_declared_risk compute_risk step_risks step_risk is_denied is_intrusive is_active
probe_passes = refl

compute_risk-highest_example :
    ((compute_risk lib probe ≡ none) × (any (is_denied lib) probe.steps ≡ true))
    ⊎ ((r : RiskClass) × (compute_risk lib probe ≡ some r)
        × (any (is_denied lib) probe.steps ≡ false)
        × All (Within lib r) probe.steps
        × ((probe.steps ≡ []) × (r ≡ RiskClass.low) ⊎ (any (is_risk lib r) probe.steps ≡ true)))
compute_risk-highest_example = compute_risk-highest lib probe

abbrev signer : Payload → Text
signer p = codes "signature"

abbrev nothing_stored : Registry
nothing_stored = []

reachable-Sound_example :
    Holds (Sound lib signer) (perform_all lib signer (lifecycle probe) nothing_stored)
reachable-Sound_example =
    reachable-Sound lib signer (lifecycle probe) nothing_stored (λ k c h. absurd (cc h))

-- An agent's calls: the signature is refused.
abbrev agent_calls : List CaseCall
agent_calls = create_call probe ∷ validate_call "probe" ∷ sign_call "probe" "agent" ∷ []

reachable-Untouched_example :
    Holds (Untouched lib) (perform_all lib signer agent_calls nothing_stored)
reachable-Untouched_example =
    reachable-Untouched lib signer agent_calls nothing_stored (refl, (refl, (refl, tt)))
      (λ k c h. absurd (cc h))

lifecycle-publishes_example :
    ((validate_declared_risk lib probe ≡ ok tt)
      × (lookup "probe" (perform_all lib signer (lifecycle probe) nothing_stored)
          ≡ some (record probe {
            status = CaseStatus.published;
            signature = signer (signing_payload probe);
          })))
    ⊎ ((e : Error) × (validate_declared_risk lib probe ≡ err e)
        × (validate lib "probe" (create_draft probe nothing_stored).1
            ≡ (err e, (create_draft probe nothing_stored).1))
        × (lookup "probe" (create_draft probe nothing_stored).1
            ≡ some (record probe { status = CaseStatus.draft })))
lifecycle-publishes_example = lifecycle-publishes lib signer probe nothing_stored

-- Values are numbers; the length, the negation and the membership of one fail.
abbrev python : Python ℕ
python = record {
  truthy = λ n. n == 1;
  of_bool = λ b. if b then 1 else 0;
  of_text = λ t. 0;
  of_list = λ l. 0;
  negate = λ n. err type_error;
  compares = λ op a b. ok (a == b);
  has = λ a b. err (value_error "byte must be in range(0, 256)");
  length = λ n. err type_error;
  is_text = λ n. false;
  show = λ n. [];
  search = λ p t. none;
  to_lower = λ t. t;
  to_upper = λ t. t;
}

abbrev variables : Dict ℕ
variables = ("status_code", 200) ∷ []

-- `equals(status_code, 200) == True`
abbrev assertion : Expr ℕ
assertion =
    compare (call (name "equals") (cons (name "status_code") (cons (constant 200) nil)) false)
      (next CompareOp.eq (constant 1) done)

-- `300 in b'...'`, whose ValueError is let through.
abbrev escaping : Expr ℕ
escaping = compare (constant 300) (next CompareOp.is_in (constant 0) done)

eval-Fine_example : Fine python (eval python variables escaping)
unfolding is_plain
eval-Fine_example =
    eval-Fine python
      (record {
        compares = λ op a b e h. absurd (cc h);
        has = λ a b e h. ap (λ r. elim r [ ok x ↦ false | err x ↦ is_expression_error x ]) (sym h);
        length = λ a e h. ap (λ r. elim r [ ok x ↦ false | err x ↦ is_expression_error x ]) (sym h);
      })
      variables escaping refl

eval-allowed_example : is_allowed variables assertion ≡ true
unfolding eval callee apply compare_by
eval-allowed_example = eval-allowed python variables assertion 1 refl

abbrev response : HttpResponse ℕ
response = record { status_code = 200; body = 7; headers = 8; whole = 9 }

abbrev backend : Env ℕ
backend = record {
  lib = lib;
  py = python;
  parse = λ e. some assertion;
  match = λ p t. some none;
  http_request = λ n r. ok response;
}

abbrev idle : Run ℕ
idle = record { store = variables; sent = []; count = 0 }

run-sends_example :
    Sends backend probe.steps idle (run backend probe idle).1
    × (((e : Error) × ((run backend probe idle).0 ≡ err e)
          × ((is_none backend (compute_risk lib probe) ≡ false)
              ⊎ ((run backend probe idle).1 ≡ idle)))
        ⊎ ((r : InterpreterResult ℕ) × ((run backend probe idle).0 ≡ ok r)
            × ((run backend probe idle).1.sent ≡ sent_by backend probe.steps idle.sent)
            × (is_none backend (compute_risk lib probe) ≡ false)
            × All (Runnable backend) probe.steps))
run-sends_example = run-sends backend probe idle

-- The assertion answers, so that the judgement returns.
status_answers : All (Answers backend variables) (ok_status ∷ [])
unfolding evaluate_expression eval callee apply compare_by
status_answers = ((true, refl), tt)

judge-passed_example :
    (r : InterpreterResult ℕ) × ((judge backend (ok_status ∷ []) idle).0 ≡ ok r)
    × ((r.passed ≡ true) ↔ AllHold backend variables (ok_status ∷ []))
judge-passed_example = judge-passed backend (ok_status ∷ []) idle status_answers
