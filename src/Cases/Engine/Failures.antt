-- ===== src/Cases/Engine/Failures.antt =====
-- src/secopent/infrastructure/case_engine/ast_evaluator.py: how an expression of the whitelist can
-- fail.
use sec_opent.Prelude.{
  Bool, true, false, not, ◌&&◌, Option, none, some, String, List, [], ◌∷◌, if◌then◌else◌, is_some,
  &&-true, Bool-cases, Option-cases, ◌≡◌, ◌≢◌, ◌⊎◌, inl, inr, refl, arith,
}
use sec_opent.Prelude.Dict.{Dict, lookup}
use sec_opent.Prelude.Raises.{
  Error, Result, ok, err, type_error, expression_rejected, expression_failed, or_raise, ◌>>=◌,
}
use sec_opent.Cases.Engine.{
  CompareOp, both, either, negation, minus, other_unary, Expr, Exprs, Comparisons, constant, items,
  name, bool_op, unary_op, compare, call, disallowed, nil, cons, done, next, Python, Function,
  function_of, on_type_error, on_error, apply, compare_by, is_other, call_name, callee, eval,
  eval_all, eval_and, eval_or, eval_compare,
}

-- The call is of a function of the table, by its name and with no keywords.
abbrev pub is_whitelisted : {V : Type 0} → Expr V → Bool → Bool
is_whitelisted f keywords =
    not keywords && (elim (call_name f) [ none ↦ false | some id ↦ is_some (function_of id) ])

-- The static check: only whitelisted syntax, names that are bound, no `-`.
module _ {V : Type 0} (ctx : Dict V) where
  unfoldable mutual
    pub is_plain : Expr V → Bool
    is_plain (constant v) = true
    is_plain (items es) = all_plain es
    is_plain (name id) = is_some (lookup id ctx)
    is_plain (bool_op op es) = all_plain es
    is_plain (unary_op negation e) = is_plain e
    is_plain (unary_op minus e) = false
    is_plain (unary_op other_unary e) = false
    is_plain (compare e cs) = is_plain e && compares_plain cs
    is_plain (call f es keywords) = is_whitelisted f keywords && all_plain es
    is_plain (disallowed kind) = false

    pub all_plain : Exprs V → Bool
    all_plain nil = true
    all_plain (cons e es) = is_plain e && all_plain es

    pub compares_plain : Comparisons V → Bool
    compares_plain done = true
    compares_plain (next op e cs) = not (is_other op) && (is_plain e && compares_plain cs)

-- The whitelist's own error of an operation that fails.
abbrev pub is_operation : Error → Bool
is_operation (expression_failed m) = true
is_operation e = false

-- An ExpressionError, a class of the evaluator that nothing of Python raises.
abbrev pub is_expression_error : Error → Bool
is_expression_error (expression_rejected m) = true
is_expression_error (expression_failed m) = true
is_expression_error e = false

pub record NoExpressionErrors {V : Type 0} (py : Python V) : Type 0 where
  pub compares :
      (op : CompareOp) (a b : V) (e : Error)
      → py.compares op a b ≡ err e
      → is_expression_error e ≡ false
  pub has : (a b : V) (e : Error) → py.has a b ≡ err e → is_expression_error e ≡ false
  pub length : (a : V) (e : Error) → py.length a ≡ err e → is_expression_error e ≡ false

-- What a comparison of two values raised, and no TypeError.
abbrev pub RaisedByComparison : {V : Type 0} → Python V → Error → Type 0
RaisedByComparison {V} py e =
    (e ≢ type_error) × (op : CompareOp) × (a : V) × (b : V) × (compare_by py op a b ≡ err e)

-- The result is a value, an ExpressionError of an operation that fails, or what a comparison raised that
-- is no TypeError.
abbrev pub Fine : {V A : Type 0} → Python V → Result A → Type 0
Fine py (ok a) = Unit
Fine py (err e) = (is_operation e ≡ true) ⊎ RaisedByComparison py e

-- The result is not an ExpressionError of a construct that is refused.
abbrev is_calm : {A : Type 0} → Result A → Bool
is_calm (err (expression_rejected m)) = false
is_calm r = true

calm_of :
    {A : Type 0} (r : Result A)
    → ((e : Error) → r ≡ err e → is_expression_error e ≡ false)
    → is_calm r ≡ true
calm_of (ok a) h = refl
calm_of (err e) h = let k = h e refl in ground (arith, k)

bind-calm :
    {A B : Type 0} (m : Result A) (f : A → Result B)
    → is_calm m ≡ true
    → ((a : A) → is_calm (f a) ≡ true)
    → is_calm (m >>= f) ≡ true
bind-calm (ok a) f h k = k a
bind-calm (err e) f h k = ground (arith, h)

on_type_error-calm :
    {A : Type 0} (m : String) (r : Result A) → is_calm r ≡ true → is_calm (on_type_error m r) ≡ true
on_type_error-calm m (ok a) h = refl
on_type_error-calm m (err e) h = ground (arith, h)

callee-Fine :
    {V : Type 0} (py : Python V) (f : Expr V) (keywords : Bool)
    → is_whitelisted f keywords ≡ true
    → Fine py (callee f keywords)
unfolding callee
callee-Fine py f true h = absurd (cc)
callee-Fine py f false h = elim (Option-cases (call_name f)) [
  | inl n ↦ absurd (ground arith)
  | inr (id, e) ↦ elim (Option-cases (function_of id)) [
    | inl n ↦ absurd (ground arith)
    | inr (g, k) ↦ rw (e, k) tt
  ]
]

module _ {V : Type 0} (py : Python V) where
  bind-Fine :
      {A B : Type 0} (m : Result A) (f : A → Result B)
      → Fine py m
      → ((a : A) → Fine py (f a))
      → Fine py (m >>= f)
  bind-Fine (ok a) f h k = k a
  bind-Fine (err e) f h k = h

  on_error-Fine :
      {A : Type 0} (m : String) (r : Result A) → is_calm r ≡ true → Fine py (on_error m r)
  on_error-Fine m (ok a) h = tt
  on_error-Fine m (err (expression_rejected x)) h = absurd (cc h)
  on_error-Fine m (err e) h = inl refl

  if-Fine :
      {A : Type 0} (b : Bool) (m n : Result A)
      → Fine py m
      → Fine py n
      → Fine py (if b then m else n)
  if-Fine true m n h k = h
  if-Fine false m n h k = k

  or_raise-Fine :
      {A : Type 0} (o : Option A) (e : Error) → is_some o ≡ true → Fine py (or_raise o e)
  or_raise-Fine (some a) e k = tt
  or_raise-Fine none e k = absurd (cc)

  -- A TypeError of a comparison becomes an ExpressionError, and any other exception stays.
  comparison-Fine :
      (m : String) (op : CompareOp) (a b : V) (r : Result Bool)
      → compare_by py op a b ≡ r
      → Fine py (on_type_error m r)
  comparison-Fine m op a b (ok x) k = tt
  comparison-Fine m op a b (err type_error) k = inl refl
  comparison-Fine m op a b (err e) k = inr (ground arith, op, a, b, k)

module _ {V : Type 0} (py : Python V) (h : NoExpressionErrors py) where
  matches-calm :
      (o : Option Bool)
      → is_calm (do
        found ← or_raise o (expression_failed "matches() invalid regex: ")
        ok (py.of_bool found))
        ≡ true
  matches-calm none = refl
  matches-calm (some b) = refl

  apply-calm : (f : Function) (args : List V) → is_calm (apply py f args) ≡ true
  unfolding apply
  apply-calm Function.contains (a ∷ b ∷ []) =
      bind-calm (on_type_error "contains() unsupported operand: " (py.has b a)) _
        (on_type_error-calm _ (py.has b a) (calm_of _ (h.has b a))) (λ found. refl)
  apply-calm Function.len (a ∷ []) = calm_of (py.length a) (h.length a)
  apply-calm Function.matches (a ∷ b ∷ []) = elim (Bool-cases (py.is_text a)) [
    | inl e ↦ rw e (matches-calm (py.search a (py.show b)))
    | inr e ↦ rw e refl
  ]
  apply-calm Function.equals (a ∷ b ∷ []) =
      bind-calm (py.compares CompareOp.eq a b) _ (calm_of _ (h.compares CompareOp.eq a b))
        (λ same. refl)
  apply-calm Function.starts_with (a ∷ b ∷ []) = refl
  apply-calm Function.ends_with (a ∷ b ∷ []) = refl
  apply-calm Function.lower (a ∷ []) = refl
  apply-calm Function.upper (a ∷ []) = refl
  apply-calm f args = refl

  module _ (ctx : Dict V) where
    mutual
      unfolding eval is_plain

      expr-Fine : (e : Expr V) → is_plain ctx e ≡ true → Fine py (eval py ctx e)
      expr-Fine (constant v) k = tt
      expr-Fine (items es) k = bind-Fine py (eval_all py ctx es) _ (eval_all-Fine es k) (λ vs. tt)
      expr-Fine (name id) k = or_raise-Fine py (lookup id ctx) _ k
      expr-Fine (bool_op both es) k = eval_and-Fine _ es k
      expr-Fine (bool_op either es) k = eval_or-Fine _ es k
      expr-Fine (unary_op negation e) k = bind-Fine py (eval py ctx e) _ (expr-Fine e k) (λ v. tt)
      expr-Fine (unary_op minus e) k = absurd (cc k)
      expr-Fine (unary_op other_unary e) k = absurd (cc k)
      expr-Fine (compare e cs) k =
          let (p, q) = (&&-true (is_plain ctx e) (compares_plain ctx cs)).0 k in
          bind-Fine py (eval py ctx e) _ (expr-Fine e p) (λ left. eval_compare-Fine left cs q)
      expr-Fine (call f es keywords) k =
          let (p, q) = (&&-true (is_whitelisted f keywords) (all_plain ctx es)).0 k in
          bind-Fine py (callee f keywords) _ (callee-Fine py f keywords p) (λ g.
            bind-Fine py (eval_all py ctx es) _ (eval_all-Fine es q)
              (λ args. on_error-Fine py _ _ (apply-calm g args)))
      expr-Fine (disallowed kind) k = absurd (cc k)

      eval_all-Fine : (es : Exprs V) → all_plain ctx es ≡ true → Fine py (eval_all py ctx es)
      eval_all-Fine nil k = tt
      eval_all-Fine (cons e es) k =
          let (p, q) = (&&-true (is_plain ctx e) (all_plain ctx es)).0 k in
          bind-Fine py (eval py ctx e) _ (expr-Fine e p)
            (λ v. bind-Fine py (eval_all py ctx es) _ (eval_all-Fine es q) (λ vs. tt))

      eval_and-Fine :
          (v : V) (es : Exprs V) → all_plain ctx es ≡ true → Fine py (eval_and py ctx v es)
      eval_and-Fine v nil k = tt
      eval_and-Fine v (cons e es) k =
          let (p, q) = (&&-true (is_plain ctx e) (all_plain ctx es)).0 k in
          bind-Fine py (eval py ctx e) _ (expr-Fine e p)
            (λ w. if-Fine py (py.truthy w) (eval_and py ctx w es) (ok w) (eval_and-Fine w es q) tt)

      eval_or-Fine :
          (v : V) (es : Exprs V) → all_plain ctx es ≡ true → Fine py (eval_or py ctx v es)
      eval_or-Fine v nil k = tt
      eval_or-Fine v (cons e es) k =
          let (p, q) = (&&-true (is_plain ctx e) (all_plain ctx es)).0 k in
          bind-Fine py (eval py ctx e) _ (expr-Fine e p)
            (λ w. if-Fine py (py.truthy w) (ok w) (eval_or py ctx w es) tt (eval_or-Fine w es q))

      eval_compare-Fine :
          (v : V) (cs : Comparisons V)
          → compares_plain ctx cs ≡ true
          → Fine py (eval_compare py ctx v cs)
      eval_compare-Fine v done k = tt
      eval_compare-Fine v (next op e cs) k =
          let (o, r) =
            (&&-true (not (is_other op)) (is_plain ctx e && compares_plain ctx cs)).0 k in
          let (p, q) = (&&-true (is_plain ctx e) (compares_plain ctx cs)).0 r in
          elim (Bool-cases (is_other op)) [
            | inl t ↦ absurd (ground (arith, o, t))
            | inr t ↦ rw t (
                bind-Fine py (eval py ctx e) _ (expr-Fine e p) (λ w.
                  bind-Fine py (on_type_error _ (compare_by py op v w)) _
                    (comparison-Fine py _ op v w _ refl)
                    (λ holds.
                      if-Fine py holds (eval_compare py ctx w cs) (ok (py.of_bool false))
                        (eval_compare-Fine w cs q) tt)))
          ]

-- Evaluating an expression of the whitelist, whose names are bound and which negates no number, returns a
-- value, or fails with the ExpressionError of an operation, or lets through what a comparison (`in`
-- included) raised that is no TypeError. No other exception leaves the evaluator, whatever the functions
-- raise, and nothing is rejected.
pub eval-Fine :
    {V : Type 0} (py : Python V)
    → NoExpressionErrors py
    → (ctx : Dict V) (e : Expr V) → is_plain ctx e ≡ true
    → Fine py (eval py ctx e)
eval-Fine py h ctx e k = expr-Fine py h ctx e k
