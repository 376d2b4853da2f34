-- ===== src/Orchestrator/Keyed.antt =====
-- src/secopent/application/jobs.py: a store keeps each job under its own id.
use sec_opent.Prelude.{
  false, none, some, String, [], ◌∷◌, ◌==◌, string_eq, ◌≡◌, refl, ap, arith, sym, Bool-cases, inl,
  inr,
}
use package.text.Mathlib.TextEquality.{eq_iff}
use sec_opent.Prelude.Dict.{lookup, insert, lookup-insert}
use sec_opent.Jobs.{Job, JobStore}

-- Keys do not repeat, and each is the id of its job.
abbrev pub IsKeyed : JobStore → Type 0
IsKeyed [] = Unit
IsKeyed ((k, j) ∷ s) = (j.id ≡ k) × (lookup k s ≡ none) × IsKeyed s

pub lookup-IsKeyed :
    (k : String) (s : JobStore) (j : Job) → IsKeyed s → lookup k s ≡ some j → j.id ≡ k
lookup-IsKeyed k [] j w e = cc
lookup-IsKeyed k ((i, x) ∷ s) j w e = elim (Bool-cases (i == k)) [
  | inl t ↦ ground (arith, eq_iff i k)
  | inr f ↦ lookup-IsKeyed k s j w.2 (ground arith)
]

lookup-insert-none :
    (k i : String) (j : Job) (s : JobStore)
    → (i == k) ≡ false
    → lookup i s ≡ none
    → lookup i (insert k j s) ≡ none
lookup-insert-none k i j s n e = ground (arith, lookup-insert k i j s, eq_iff i k, eq_iff k i)

pub insert-IsKeyed : (j : Job) (s : JobStore) → IsKeyed s → IsKeyed (insert j.id j s)
insert-IsKeyed j [] w = (refl, refl, tt)
insert-IsKeyed j ((i, x) ∷ s) w = elim (Bool-cases (i == j.id)) [
  | inl t ↦ rw t (sym ((eq_iff i j.id).0 t), w.1, w.2)
  | inr f ↦ rw f (w.0, lookup-insert-none j.id i j s f w.1, insert-IsKeyed j s w.2)
]

-- The second write under a key is the one that stays.
pub insert-insert :
    (k : String) (i j : Job) (s : JobStore) → insert k j (insert k i s) ≡ insert k j s
insert-insert k i j [] = rw ((eq_iff k k).1 refl) refl
insert-insert k i j ((l, x) ∷ s) = elim (Bool-cases (l == k)) [
  | inl t ↦ rw (t, t) refl
  | inr f ↦ rw (f, f) (ap (λ r. (l, x) ∷ r) (insert-insert k i j s))
]
