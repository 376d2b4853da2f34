-- ===== src/Cases/Engine.antt =====
-- src/secopent/infrastructure/case_engine/ast_evaluator.py: assertions evaluated over a whitelist of
-- syntax, with no `eval`.
pub mod Visited
pub mod Failures
use sec_opent.Prelude.{
  Bool, true, false, not, Option, none, some, String, List, [], ◌∷◌, if◌then◌else◌, ◌==◌, string_eq,
}
use sec_opent.Prelude.Text.{Text, is_prefix, is_suffix}
use sec_opent.Prelude.Dict.{Dict, lookup}
use sec_opent.Prelude.Raises.{
  Error, Result, ok, err, type_error, expression_rejected, expression_failed, or_raise, ◌>>=◌,
}

-- `other_op` is a comparison that the table `_COMPARE_OPS` does not hold (`is`, `is not`).
pub data CompareOp : Type 0 where
  eq not_eq lt lte gt gte is_in not_in other_op : CompareOp

pub data BoolOp : Type 0 where
  both either : BoolOp

-- `other_unary` is a unary operator other than `not` and `-`.
pub data UnaryOp : Type 0 where
  negation minus other_unary : UnaryOp

-- The nodes of the parsed expression, over the values `V` of its literals. `call` has the function's
-- node, the arguments, and whether there are keywords. `disallowed` is a node of any other class.
mutual
  pub data Expr (V : Type 0) : Type 0 where
    constant : V → Expr V
    items : Exprs V → Expr V
    name : String → Expr V
    bool_op : BoolOp → Exprs V → Expr V
    unary_op : UnaryOp → Expr V → Expr V
    compare : Expr V → Comparisons V → Expr V
    call : Expr V → Exprs V → Bool → Expr V
    disallowed : String → Expr V

  pub data Exprs (V : Type 0) : Type 0 where
    nil : Exprs V
    cons : Expr V → Exprs V → Exprs V

  pub data Comparisons (V : Type 0) : Type 0 where
    done : Comparisons V
    next : CompareOp → Expr V → Comparisons V → Comparisons V

-- `_FUNCTIONS`
pub data Function : Type 0 where
  contains len matches starts_with ends_with equals lower upper : Function

-- Python's objects as the evaluator uses them: `bool(x)`, the making of a Boolean, a text and a list,
-- `-x`, the six comparisons, `a in b`, `len`, `isinstance(x, str)`, `str`, whether `re.search` finds
-- something (`none` for `re.error`), and the case maps.
pub record Python (V : Type 0) : Type 0 where
  pub truthy : V → Bool
  pub of_bool : Bool → V
  pub of_text : Text → V
  pub of_list : List V → V
  pub negate : V → Result V
  pub compares : CompareOp → V → V → Result Bool
  pub has : V → V → Result Bool
  pub length : V → Result V
  pub is_text : V → Bool
  pub show : V → Text
  pub search : V → Text → Option Bool
  pub to_lower : Text → Text
  pub to_upper : Text → Text

abbrev pub function_of : String → Option Function
function_of f =
    if f == "contains"
    then some contains
    else if f == "len"
    then some len
    else if f == "matches"
    then some matches
    else if f == "starts_with"
    then some starts_with
    else if f == "ends_with"
    then some ends_with
    else if f == "equals"
    then some equals
    else if f == "lower"
    then some lower
    else if f == "upper"
    then some upper
    else none

-- `except TypeError: raise ExpressionError(message)`
abbrev pub on_type_error : {A : Type 0} → String → Result A → Result A
on_type_error message (ok a) = ok a
on_type_error message (err type_error) = err (expression_failed message)
on_type_error message (err e) = err e

-- `except ExpressionError: raise`, `except Exception: raise ExpressionError(message)`
abbrev pub on_error : {A : Type 0} → String → Result A → Result A
on_error message (ok a) = ok a
on_error message (err (expression_rejected m)) = err (expression_rejected m)
on_error message (err (expression_failed m)) = err (expression_failed m)
on_error message (err e) = err (expression_failed message)

abbrev pub is_other : CompareOp → Bool
is_other other_op = true
is_other op = false

abbrev pub call_name : {V : Type 0} → Expr V → Option String
call_name (name f) = some f
call_name e = none

-- What `_eval_call` checks before it evaluates the arguments.
unfoldable pub callee : {V : Type 0} → Expr V → Bool → Result Function
callee f true = err (expression_rejected "keyword arguments are not allowed in assertions")
callee f false = do
  id ←
      or_raise (call_name f)
        (expression_rejected "only direct whitelisted function calls are allowed")
  or_raise (function_of id) (expression_rejected "function not allowed in assertions: ")

module _ {V : Type 0} (py : Python V) where
  -- The eight functions; a wrong number of arguments is a TypeError.
  unfoldable pub apply : Function → List V → Result V
  apply contains (haystack ∷ needle ∷ []) = do
    found ← on_type_error "contains() unsupported operand: " (py.has needle haystack)
    ok (py.of_bool found)
  apply len (x ∷ []) = py.length x
  apply matches (pattern ∷ subject ∷ []) =
      if not (py.is_text pattern)
      then err (expression_failed "matches() pattern must be a string")
      else (do
        found ←
            or_raise (py.search pattern (py.show subject))
              (expression_failed "matches() invalid regex: ")
        ok (py.of_bool found))
  apply starts_with (subject ∷ prefix ∷ []) =
      ok (py.of_bool (is_prefix (py.show prefix) (py.show subject)))
  apply ends_with (subject ∷ suffix ∷ []) =
      ok (py.of_bool (is_suffix (py.show suffix) (py.show subject)))
  apply equals (a ∷ b ∷ []) = do same ← py.compares eq a b; ok (py.of_bool same)
  apply lower (x ∷ []) = ok (py.of_text (py.to_lower (py.show x)))
  apply upper (x ∷ []) = ok (py.of_text (py.to_upper (py.show x)))
  apply f args = err type_error

  -- The functions of `_COMPARE_OPS`, behind the test that the table holds the operator.
  unfoldable pub compare_by : CompareOp → V → V → Result Bool
  compare_by is_in a b = py.has a b
  compare_by not_in a b = do found ← py.has a b; ok (not found)
  compare_by op a b = py.compares op a b

  -- `_eval` and its parts. `eval_and` and `eval_or` go on from the value of the operand before.
  module _ (ctx : Dict V) where
    unfoldable mutual
      pub eval : Expr V → Result V
      eval (constant v) = ok v
      eval (items es) = do vs ← eval_all es; ok (py.of_list vs)
      eval (name id) = or_raise (lookup id ctx) (expression_rejected "unknown name in expression: ")
      eval (bool_op both es) = eval_and (py.of_bool true) es
      eval (bool_op either es) = eval_or (py.of_bool false) es
      eval (unary_op negation e) = do v ← eval e; ok (py.of_bool (not (py.truthy v)))
      eval (unary_op minus e) = do v ← eval e; py.negate v
      eval (unary_op other_unary e) = err (expression_rejected "disallowed unary operator")
      eval (compare e cs) = do left ← eval e; eval_compare left cs
      eval (call f es keywords) = do
        function ← callee f keywords
        args ← eval_all es
        on_error "assertion function failed: " (apply function args)
      eval (disallowed kind) = err (expression_rejected "disallowed expression construct: ")

      pub eval_all : Exprs V → Result (List V)
      eval_all nil = ok []
      eval_all (cons e es) = do v ← eval e; vs ← eval_all es; ok (v ∷ vs)

      pub eval_and : V → Exprs V → Result V
      eval_and result nil = ok result
      eval_and result (cons e es) = do
        v ← eval e
        let rest = eval_and v es
        if py.truthy v then rest else ok v

      pub eval_or : V → Exprs V → Result V
      eval_or result nil = ok result
      eval_or result (cons e es) = do
        v ← eval e
        let rest = eval_or v es
        if py.truthy v then ok v else rest

      pub eval_compare : V → Comparisons V → Result V
      eval_compare left done = ok (py.of_bool true)
      eval_compare left (next op e cs) =
          if is_other op then err (expression_rejected "disallowed comparison: ") else (do
            right ← eval e
            holds ← on_type_error "invalid comparison: " (compare_by op left right)
            let rest = eval_compare right cs
            if holds then rest else ok (py.of_bool false))
