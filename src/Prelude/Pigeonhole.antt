-- ===== src/Prelude/Pigeonhole.antt =====
-- A list without repetition is no longer than a list that holds all its items.
use sec_opent.Prelude.Tests.{Eq, ◌==◌, if◌then◌else◌, Bool-cases}
use sec_opent.Prelude.Lists.{length, elem, subset, distinct}
use Prim.Native.Nat.{suc, ◌≤◌}
use mathlib.Core.Path.{◌≡◌, refl}
use mathlib.Core.Logic.{inl, inr}
use mathlib.Core.Bool.{true, false}
use mathlib.Core.List.{List, [], ◌∷◌}
use native.Mathlib.Omega.{arith}

module _ {ℓ} {A : Type ℓ} ⦃e : Eq A⦄ where
  abbrev erase : A → List A → List A
  erase a [] = []
  erase a (x ∷ xs) = if a == x then xs else x ∷ erase a xs

  length-erase : (a : A) (xs : List A) → elem a xs ≡ true → length xs ≡ suc (length (erase a xs))
  length-erase a [] h = absurd (cc)
  length-erase a (x ∷ xs) h = ground (arith, length-erase a xs)

  elem-erase :
      (a b : A) (xs : List A) → (a == b) ≡ false → elem b xs ≡ true → elem b (erase a xs) ≡ true
  elem-erase a b [] n h = h
  elem-erase a b (x ∷ xs) n h =
      ground (arith, e.beq_iff a x, e.beq_iff b x, e.beq_iff a b, elem-erase a b xs)

  subset-erase :
      (a : A) (xs ys : List A)
      → elem a xs ≡ false
      → subset xs ys ≡ true
      → subset xs (erase a ys) ≡ true
  subset-erase a [] ys n h = refl
  subset-erase a (x ∷ xs) ys n h = ground (arith, elem-erase a x ys, subset-erase a xs ys)

  pub distinct-length-le :
      (xs ys : List A) → distinct xs ≡ true → subset xs ys ≡ true → length xs ≤ length ys
  distinct-length-le [] ys d s = omega arith
  distinct-length-le (x ∷ xs) ys d s =
      ground (arith, length-erase x ys, subset-erase x xs ys, distinct-length-le xs (erase x ys))

  -- A list as long as one that holds all its items, without repetition, holds all of that one's.
  pub elem_of_full :
      (a : A) (xs ys : List A)
      → distinct xs ≡ true
      → subset xs ys ≡ true
      → length ys ≤ length xs
      → elem a ys ≡ true
      → elem a xs ≡ true
  elem_of_full a xs ys d s h m = elim (Bool-cases (elem a xs)) [
    | inl found ↦ found
    | inr missing ↦ absurd (ground (arith, distinct-length-le (a ∷ xs) ys))
  ]
