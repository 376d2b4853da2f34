-- ===== src/Prelude/Action.antt =====
-- A method that reads and writes a store and may raise. What was written before a raise stays
-- written.
use mathlib.Core.Path.{◌≡◌, ap}
use mathlib.Core.Bool.{Bool}
use mathlib.Core.Option.{Option}
use sec_opent.Prelude.Raises.{Error, Result, ok, err}
use sec_opent.Prelude.Raises

abbrev pub Action : Type 0 → Type 0 → Type 0
Action S A = S → Result A × S

infixl 5 ◌>>=◌ ◌>>◌
abbrev pub ◌>>=◌ : {S A B : Type 0} → Action S A → (A → Action S B) → Action S B
◌>>=◌ m f s = let (r, s') = m s in elim r [ ok a ↦ f a s' | err e ↦ (err e, s') ]

abbrev pub ◌>>◌ : {S A B : Type 0} → Action S A → Action S B → Action S B
m >> k = m >>= λ _. k

abbrev pub pure : {S A : Type 0} → A → Action S A
pure a s = (ok a, s)

abbrev pub lift : {S A : Type 0} → Result A → Action S A
lift r s = (r, s)

abbrev pub raise_if : {S : Type 0} → Bool → Error → Action S (Unit {0})
raise_if c e s = (Raises.raise_if c e, s)

-- A read that raises when there is nothing.
abbrev pub require : {S A : Type 0} → (S → Option A) → Error → Action S A
require f e s = (Raises.or_raise (f s) e, s)

abbrev pub modify : {S : Type 0} → (S → S) → Action S (Unit {0})
modify f s = (ok tt, f s)

-- A call that returns goes on with its answer and its store; one that raises stops there.
pub >>=-ok :
    {S A B : Type 0} (m : Action S A) (f : A → Action S B) {s t : S} {a : A}
    → m s ≡ (ok a, t)
    → (m >>= f) s ≡ f a t
>>=-ok m f h = ap (λ r. elim r.0 [ ok a ↦ f a r.1 | err e ↦ (err e, r.1) ]) h

pub >>=-err :
    {S A B : Type 0} (m : Action S A) (f : A → Action S B) {s t : S} {e : Error}
    → m s ≡ (err e, t)
    → (m >>= f) s ≡ (err e, t)
>>=-err m f h = ap (λ r. elim r.0 [ ok a ↦ f a r.1 | err e ↦ (err e, r.1) ]) h
