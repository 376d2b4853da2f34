-- ===== src/Cases/Engine/Visited.antt =====
-- src/secopent/infrastructure/case_engine/ast_evaluator.py: what an expression that returns a value
-- was made of.
use sec_opent.Prelude.{
  Bool, true, false, not, ◌&&◌, Option, none, some, List, if◌then◌else◌, is_some, &&-true,
  Option-cases, ◌≡◌, inl, inr, refl, sym, arith,
}
use sec_opent.Prelude.Dict.{Dict, lookup}
use sec_opent.Prelude.Raises.{Error, Result, ok, err, or_raise, ok->>=}
use sec_opent.Cases.Engine.{
  both, either, negation, minus, other_unary, Expr, Exprs, Comparisons, constant, items, name,
  bool_op, unary_op, compare, call, disallowed, nil, cons, done, next, Python, Function,
  function_of, is_other, call_name, callee, eval, eval_all,
}
use sec_opent.Cases.Engine.Failures.{is_whitelisted}

-- The parts that are evaluated in any case: of `and`, `or` and a chain of comparisons, what stands
-- before the first point where the evaluator may stop.
module _ {V : Type 0} (ctx : Dict V) where
  unfoldable mutual
    pub is_allowed : Expr V → Bool
    is_allowed (constant v) = true
    is_allowed (items es) = all_allowed es
    is_allowed (name id) = is_some (lookup id ctx)
    is_allowed (bool_op op es) = first_allowed es
    is_allowed (unary_op negation e) = is_allowed e
    is_allowed (unary_op minus e) = is_allowed e
    is_allowed (unary_op other_unary e) = false
    is_allowed (compare e cs) = is_allowed e && first_compared cs
    is_allowed (call f es keywords) = is_whitelisted f keywords && all_allowed es
    is_allowed (disallowed kind) = false

    pub all_allowed : Exprs V → Bool
    all_allowed nil = true
    all_allowed (cons e es) = is_allowed e && all_allowed es

    pub first_allowed : Exprs V → Bool
    first_allowed nil = true
    first_allowed (cons e es) = is_allowed e

    pub first_compared : Comparisons V → Bool
    first_compared done = true
    first_compared (next op e cs) = not (is_other op) && is_allowed e

callee-whitelisted :
    {V : Type 0} (f : Expr V) (keywords : Bool) (g : Function)
    → callee f keywords ≡ ok g
    → is_whitelisted f keywords ≡ true
unfolding callee
callee-whitelisted f true g h = absurd (cc)
callee-whitelisted f false g h = elim (Option-cases (call_name f)) [
  | inl n ↦ absurd (ground arith)
  | inr (id, e) ↦ elim (Option-cases (function_of id)) [
    | inl n ↦ absurd (ground (arith, h, e, n))
    | inr (k, m) ↦ rw (e, m) refl
  ]
]

or_raise-some :
    {A : Type 0} (o : Option A) (e : Error) (a : A) → or_raise o e ≡ ok a → is_some o ≡ true
or_raise-some none e a h = absurd (cc)
or_raise-some (some b) e a h = refl

guard_passed :
    {A : Type 0} {v : A} (b : Bool) (e : Error) (m : Result A)
    → (if b then err e else m) ≡ ok v
    → (b ≡ false) × (m ≡ ok v)
guard_passed true e m h = absurd (cc)
guard_passed false e m h = (refl, h)

&&-both : (a b : Bool) → a ≡ true → b ≡ true → (a && b) ≡ true
&&-both a b h k = (&&-true a b).1 (h, k)

module _ {V : Type 0} (py : Python V) (ctx : Dict V) where
  mutual
    unfolding eval is_allowed

    expr-allowed : (e : Expr V) (v : V) → eval py ctx e ≡ ok v → is_allowed ctx e ≡ true
    expr-allowed (constant c) v h = refl
    expr-allowed (items es) v h =
        let (vs, k, m) = ok->>= (eval_all py ctx es) _ (sym h) in eval_all-allowed es vs m
    expr-allowed (name id) v h = or_raise-some (lookup id ctx) _ v h
    expr-allowed (bool_op both nil) v h = refl
    expr-allowed (bool_op both (cons e es)) v h =
        let (w, k, m) = ok->>= (eval py ctx e) _ (sym h) in expr-allowed e w m
    expr-allowed (bool_op either nil) v h = refl
    expr-allowed (bool_op either (cons e es)) v h =
        let (w, k, m) = ok->>= (eval py ctx e) _ (sym h) in expr-allowed e w m
    expr-allowed (unary_op negation e) v h =
        let (w, k, m) = ok->>= (eval py ctx e) _ (sym h) in expr-allowed e w m
    expr-allowed (unary_op minus e) v h =
        let (w, k, m) = ok->>= (eval py ctx e) _ (sym h) in expr-allowed e w m
    expr-allowed (unary_op other_unary e) v h = absurd (cc h)
    expr-allowed (compare e done) v h =
        let (w, k, m) = ok->>= (eval py ctx e) _ (sym h) in
        &&-both (is_allowed ctx e) _ (expr-allowed e w m) refl
    expr-allowed (compare e (next op f cs)) v h =
        let (w, k, m) = ok->>= (eval py ctx e) _ (sym h) in
        &&-both (is_allowed ctx e) _ (expr-allowed e w m) (
          let (t, j) = guard_passed (is_other op) _ _ k in
          let (x, l, n) = ok->>= (eval py ctx f) _ (sym j) in
          &&-both (not (is_other op)) _ (rw t refl) (expr-allowed f x n))
    expr-allowed (call f es keywords) v h =
        let (g, k, m) = ok->>= (callee f keywords) _ (sym h) in
        let (vs, l, n) = ok->>= (eval_all py ctx es) _ (sym k) in
        &&-both (is_whitelisted f keywords) _ (callee-whitelisted f keywords g m)
          (eval_all-allowed es vs n)
    expr-allowed (disallowed kind) v h = absurd (cc h)

    eval_all-allowed :
        (es : Exprs V) (vs : List V) → eval_all py ctx es ≡ ok vs → all_allowed ctx es ≡ true
    eval_all-allowed nil vs h = refl
    eval_all-allowed (cons e es) vs h =
        let (w, k, m) = ok->>= (eval py ctx e) _ (sym h) in
        let (ws, l, n) = ok->>= (eval_all py ctx es) _ (sym k) in
        &&-both (is_allowed ctx e) _ (expr-allowed e w m) (eval_all-allowed es ws n)

-- An expression that evaluates to a value has, in all the places that are evaluated in any case, only
-- whitelisted syntax, bound names, and direct calls without keywords of functions of the table.
pub eval-allowed :
    {V : Type 0} (py : Python V) (ctx : Dict V) (e : Expr V) (v : V)
    → eval py ctx e ≡ ok v
    → is_allowed ctx e ≡ true
eval-allowed py ctx e v h = expr-allowed py ctx e v h
