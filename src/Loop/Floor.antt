-- ===== src/Loop/Floor.antt =====
-- src/secopent/application/reasoning_loop/feedback.py: the catalog classes that a loop has done and
-- has left.
use sec_opent.Prelude.{
  ℕ, Bool, true, not, ◌&&◌, ◌||◌, String, List, [], ◌∷◌, elem, elem-append, string_eq, ◌≡◌, refl,
  arith,
}
use sec_opent.Loop.{LoopState, LoopStep, minus, union, apply}
use text.Mathlib.TextEquality.{eq_iff}

-- Each required class is either still left or done, and not both.
unfoldable pub Split : List String → LoopState → Type 0
Split required s =
    (c : String)
    → elem c required ≡ true
    → elem c s.catalog_required_remaining ≡ not (elem c s.catalog_required_executed)

pub elem-minus :
    (c : String) (xs ys : List String) → elem c (minus xs ys) ≡ (elem c xs && not (elem c ys))
elem-minus c [] ys = refl
elem-minus c (x ∷ xs) ys = ground (arith, eq_iff c x, elem-minus c xs ys)

pub elem-union :
    (c : String) (xs ys : List String) → elem c (union xs ys) ≡ (elem c xs || elem c ys)
elem-union c xs ys = ground (arith, elem-append c xs (minus ys xs), elem-minus c ys xs)

-- A step with feedback keeps each required catalog class in exactly one of the two sets.
pub apply-Split :
    (required : List String) (s : LoopState) (step : LoopStep) (policy_passed : Bool)
    (signal_count now : ℕ)
    → Split required s
    → Split required (apply s step policy_passed signal_count now)
unfolding apply Split
apply-Split required s step policy_passed signal_count now h c m = ground (
  arith,
  h c m,
  elem-minus c s.catalog_required_remaining step.catalog_class_matched,
  elem-union c s.catalog_required_executed step.catalog_class_matched,
)
