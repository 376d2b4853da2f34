-- ===== src/Prelude/Dict.antt =====
-- A Python dict keyed by text, in insertion order.
use Prim.Native.String.{String}
use sec_opent.Prelude.Tests.{◌==◌, string_eq, if◌then◌else◌}
use text.Mathlib.TextEquality.{eq_iff}
use mathlib.Core.Path.{◌≡◌, refl}
use mathlib.Core.Logic.{◌⊎◌}
use mathlib.Core.Option.{Option, none, some}
use sec_opent.Prelude.Lists.{all}
use mathlib.Core.Bool.{Bool, true}
use mathlib.Core.List.{List, [], ◌∷◌}
use native.Mathlib.Omega.{arith}

abbrev pub Dict {ℓ} : Type ℓ → Type ℓ
Dict V = List (String × V)

module _ {ℓ} {V : Type ℓ} where
  -- `d.get(k)`
  abbrev pub lookup : String → Dict V → Option V
  lookup k [] = none
  lookup k ((j, v) ∷ d) = if j == k then some v else lookup k d

  -- `d[k] = v`
  abbrev pub insert : String → V → Dict V → Dict V
  insert k v [] = (k, v) ∷ []
  insert k v ((j, w) ∷ d) = if j == k then (j, v) ∷ d else (j, w) ∷ insert k v d

  -- `d.values()`
  abbrev pub values : Dict V → List V
  values [] = []
  values ((j, v) ∷ d) = v ∷ values d

  pub lookup-insert :
      (k j : String) (v : V) (d : Dict V)
      → lookup j (insert k v d) ≡ (if k == j then some v else lookup j d)
  lookup-insert k j v [] = refl
  lookup-insert k j v ((i, w) ∷ d) =
      ground (arith, eq_iff k j, eq_iff i k, eq_iff i j, lookup-insert k j v d)

  pub lookup-insert_self : (k : String) (v : V) (d : Dict V) → lookup k (insert k v d) ≡ some v
  lookup-insert_self k v d = ground (arith, eq_iff k k, lookup-insert k k v d)

  -- What is found after a write is what was written, or was there before.
  pub lookup-insert_cases :
      (j k : String) (v w : V) (d : Dict V)
      → lookup k (insert j v d) ≡ some w
      → ((j ≡ k) × (v ≡ w)) ⊎ (lookup k d ≡ some w)
  lookup-insert_cases j k v w d e = ground (arith, eq_iff j k, lookup-insert j k v d)

  -- A write under a new key changes nothing that was found before.
  pub lookup-insert_new :
      (k j : String) (v w : V) (d : Dict V)
      → lookup k d ≡ none
      → lookup j d ≡ some w
      → lookup j (insert k v d) ≡ some w
  lookup-insert_new k j v w d n e = ground (arith, eq_iff k j, lookup-insert k j v d)

  pub all-insert :
      (p : V → Bool) (k : String) (v : V) (d : Dict V)
      → p v ≡ true
      → all p (values d) ≡ true
      → all p (values (insert k v d)) ≡ true
  all-insert p k v [] h a = rw h
  all-insert p k v ((i, w) ∷ d) h a = ground (arith, all-insert p k v d)

  pub lookup-all :
      (p : V → Bool) (k : String) (v : V) (d : Dict V)
      → lookup k d ≡ some v
      → all p (values d) ≡ true
      → p v ≡ true
  lookup-all p k v [] e a = absurd (cc)
  lookup-all p k v ((i, w) ∷ d) e a = ground (arith, lookup-all p k v d)
