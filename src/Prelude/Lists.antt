-- ===== src/Prelude/Lists.antt =====
-- Lists measured by native numbers, and the Boolean list tests of the source (`any`, `all`, `in`).
use sec_opent.Prelude.Tests.{Eq, ◌==◌, if◌then◌else◌}
use Prim.Native.Nat.{ℕ, suc, ◌+◌}
use mathlib.Core.Path.{◌≡◌, refl}
use mathlib.Core.Logic.{◌⊎◌, inl, inr}
use mathlib.Core.Bool.{Bool, true, false, ◌&&◌, ◌||◌}
use mathlib.Core.List.{List, [], ◌∷◌, ◌++◌}
use native.Mathlib.Omega.{arith}

module _ {ℓ} {A : Type ℓ} where
  abbrev pub length : List A → ℕ
  length [] = 0
  length (x ∷ xs) = suc (length xs)

  -- `any(p(x) for x in xs)` and `all(p(x) for x in xs)`.
  abbrev pub any : (A → Bool) → List A → Bool
  any p [] = false
  any p (x ∷ xs) = p x || any p xs

  abbrev pub all : (A → Bool) → List A → Bool
  all p [] = true
  all p (x ∷ xs) = p x && all p xs

  -- `[x for x in xs if p(x)]`.
  abbrev pub select : (A → Bool) → List A → List A
  select p [] = []
  select p (x ∷ xs) = let rest = select p xs in if p x then x ∷ rest else rest

  abbrev pub All {κ} : (A → Type κ) → List A → Type κ
  All P [] = Unit
  All P (x ∷ xs) = P x × All P xs

  abbrev pub Exists : (A → Type 0) → List A → Type 0
  Exists P [] = ⊥
  Exists P (x ∷ xs) = P x ⊎ Exists P xs

  pub length-append : (xs ys : List A) → length (xs ++ ys) ≡ length xs + length ys
  length-append [] ys = omega arith
  length-append (x ∷ xs) ys = omega (arith, length-append xs ys)

-- `x in xs`, `set(xs) <= set(ys)`, and a list with no repetition.
module _ {ℓ} {A : Type ℓ} ⦃e : Eq A⦄ where
  abbrev pub elem : A → List A → Bool
  elem a [] = false
  elem a (x ∷ xs) = a == x || elem a xs

  abbrev pub subset : List A → List A → Bool
  subset xs ys = all (λ x. elem x ys) xs

  abbrev pub distinct : List A → Bool
  distinct [] = true
  distinct (x ∷ xs) = (if elem x xs then false else true) && distinct xs

  pub elem_head : (a : A) (xs : List A) → elem a (a ∷ xs) ≡ true
  elem_head a xs = rw ((e.beq_iff a a).1 refl)

  pub all-elem :
      (p : A → Bool) (xs : List A) (a : A) → all p xs ≡ true → elem a xs ≡ true → p a ≡ true
  all-elem p [] a h m = absurd (cc)
  all-elem p (x ∷ xs) a h m = ground (arith, e.beq_iff a x, all-elem p xs a)

  pub elem-append : (a : A) (xs ys : List A) → elem a (xs ++ ys) ≡ (elem a xs || elem a ys)
  elem-append a [] ys = refl
  elem-append a (x ∷ xs) ys = ground (arith, elem-append a xs ys)

pub ||-cases : (a b : Bool) → (a || b) ≡ true → (a ≡ true) ⊎ (b ≡ true)
||-cases true b h = inl refl
||-cases false b h = inr h

pub ||-right : (a b : Bool) → b ≡ true → (a || b) ≡ true
||-right true b h = refl
||-right false b h = h

pub ||-left : (a b : Bool) → a ≡ true → (a || b) ≡ true
||-left a b h = rw h

module _ {ℓ} {A : Type ℓ} ⦃e : Eq A⦄ where
  pub all_of :
      (p : A → Bool) (xs : List A) → ((a : A) → elem a xs ≡ true → p a ≡ true) → all p xs ≡ true
  all_of p [] h = refl
  all_of p (x ∷ xs) h = rw (h x (elem_head x xs)) (all_of p xs (λ a m. h a (||-right (a == x) _ m)))
