-- ===== src/Assessment/Acyclic.antt =====
-- `ExecutionPlan.create` accepts exactly the plans whose dependencies have a rank, and its search
-- ends within its depth.
use sec_opent.Prelude.{
  ℕ, zero, suc, ◌≤◌, ◌<◌, Bool, true, false, String, List, [], ◌∷◌, elem, subset, length, string_eq,
  if◌then◌else◌, ◌==◌, ◌≡◌, ◌⊎◌, inl, inr, refl, arith, Bool-cases, all-elem, subst, ||-cases,
  ||-left, ||-right, sym, all_of,
}
use text.Mathlib.TextEquality.{eq_iff}
use sec_opent.Assessment.Plan.{
  PlanStep, keys, graph, Search, visited, cycle, out_of_fuel, visit_all, visit, search_cycle,
}

module _ (steps : List PlanStep) where
  -- Each key stands before all that it depends on.
  abbrev Ordered : List String → Type 0
  Ordered [] = Unit
  Ordered (k ∷ ks) = (subset (graph steps k) ks ≡ true) × Ordered ks

  -- Every dependency of a step has a smaller rank than the step.
  abbrev pub Ranks : (String → ℕ) → Type 0
  Ranks rank =
      (k d : String) → elem k (keys steps) ≡ true → elem d (graph steps k) ≡ true → rank d < rank k

abbrev Includes : List String → List String → Type 0
Includes xs ys = (a : String) → elem a xs ≡ true → elem a ys ≡ true

module _ (steps : List PlanStep) where
  -- What a search that ended has done to the set of visited keys.
  abbrev Extends : List String → List String → List String → Type 0
  Extends ks seen seen' = Ordered steps seen' × Includes seen seen' × Includes ks seen'

  abbrev IsSound : (String → List String → Search) → Type 0
  IsSound visit_one =
      (k : String) (seen seen' : List String)
      → visit_one k seen ≡ visited seen'
      → Ordered steps seen
      → Extends (k ∷ []) seen seen'

  Extends-trans :
      (k : String) (ks a b c : List String)
      → Extends (k ∷ []) a b
      → Extends ks b c
      → Extends (k ∷ ks) a c
  Extends-trans k ks a b c x y = (y.0, λ t m. y.1 t (x.1 t m), go)
    where
      go : Includes (k ∷ ks) c
      go t m = elim (||-cases (t == k) (elem t ks) m) [
        | inl here ↦ y.1 t (x.2 t (||-left (t == k) false here))
        | inr there ↦ y.2 t there
      ]

  visit_all-Extends :
      (visit_one : String → List String → Search) (ks seen seen' : List String)
      → IsSound visit_one
      → visit_all visit_one ks seen ≡ visited seen'
      → Ordered steps seen
      → Extends ks seen seen'
  visit_all-Extends f [] seen seen' h e o =
      let p : seen ≡ seen' = cc in
      subst (λ z. Extends [] seen z) p (o, λ a m. m, λ a m. absurd (cc))
  visit_all-Extends f (k ∷ ks) seen seen' h e o =
      go (λ s. visit_all-Extends f ks s seen' h) (f k seen) refl e
    where
      go :
          ((s : List String)
            → visit_all f ks s ≡ visited seen'
            → Ordered steps s
            → Extends ks s seen')
          → (r : Search) → f k seen ≡ r
          → (elim r [ visited s ↦ visit_all f ks s | cycle ↦ cycle | out_of_fuel ↦ out_of_fuel ])
            ≡ visited seen'
          → Extends (k ∷ ks) seen seen'
      go ih (visited s) q t =
          let x = h k seen s q o in Extends-trans k ks seen s seen' x (ih s t x.0)
      go ih cycle q t = absurd (cc)
      go ih out_of_fuel q t = absurd (cc)

  already-Extends :
      (k : String) (seen seen' : List String)
      → elem k seen ≡ true
      → seen ≡ seen'
      → Ordered steps seen
      → Extends (k ∷ []) seen seen'
  already-Extends k seen seen' m p o = subst (Extends (k ∷ []) seen) p (o, λ a n. n, go)
    where
      go : Includes (k ∷ []) seen
      go a n =
          let q : a ≡ k = ground (arith, eq_iff a k) in subst (λ z. elem z seen ≡ true) (sym q) m

  -- The key is put on once all that it depends on is there.
  entered-Extends :
      (k : String) (seen s : List String)
      → Extends (graph steps k) seen s
      → Extends (k ∷ []) seen (k ∷ s)
  entered-Extends k seen s x = (
    (all_of (λ d. elem d s) (graph steps k) x.2, x.0),
    λ a m. ||-right (a == k) (elem a s) (x.1 a m),
    λ a m. ||-left (a == k) (elem a s) (ground arith),
  )

  -- How a call with fuel came to an end.
  entered_inv :
      (k : String) (seen seen' : List String) (a b : Bool) (r : Search)
      → (if a
          then cycle
          else if b
          then visited seen
          else elim r [ visited s ↦ visited (k ∷ s) | cycle ↦ cycle | out_of_fuel ↦ out_of_fuel ])
        ≡ visited seen'
      → ((b ≡ true) × (seen ≡ seen')) ⊎ ((s : List String) × (r ≡ visited s) × (k ∷ s ≡ seen'))
  entered_inv k seen seen' true b r h = absurd (cc)
  entered_inv k seen seen' false true r h = inl (refl, cc)
  entered_inv k seen seen' false false (visited s) h = inr (s, refl, cc)
  entered_inv k seen seen' false false cycle h = absurd (cc)
  entered_inv k seen seen' false false out_of_fuel h = absurd (cc)

  visit-IsSound : (fuel : ℕ) (visiting : List String) → IsSound (visit steps fuel visiting)
  unfolding visit
  visit-IsSound zero visiting k seen seen' e o =
      let h : (elem k seen ≡ true) × (seen ≡ seen') = ground arith in
      already-Extends k seen seen' h.0 h.1 o
  visit-IsSound (suc fuel) visiting k seen seen' e o =
      elim (entered_inv k seen seen' (elem k visiting) (elem k seen) _ e) [
        | inl h ↦ already-Extends k seen seen' h.0 h.1 o
        | inr (s, q, p) ↦ subst (Extends (k ∷ []) seen) p (
            entered-Extends k seen s (
              visit_all-Extends (visit steps fuel (k ∷ visiting)) (graph steps k) seen s
                (visit-IsSound fuel (k ∷ visiting)) q o))
      ]

  -- The rank of a key: how many keys stand from its last place on.
  abbrev rank_in : List String → String → ℕ
  rank_in [] k = 0
  rank_in (x ∷ xs) k =
      let later = rank_in xs k in if elem k xs then later else if k == x then suc (length xs) else 0

  rank_in-le : (xs : List String) (k : String) → rank_in xs k ≤ length xs
  rank_in-le [] k = omega arith
  rank_in-le (x ∷ xs) k = ground (arith, rank_in-le xs k)

  Ordered-closed :
      (xs : List String) (k d : String)
      → Ordered steps xs
      → elem k xs ≡ true
      → elem d (graph steps k) ≡ true
      → elem d xs ≡ true
  Ordered-closed [] k d o m h = absurd (cc)
  Ordered-closed (x ∷ xs) k d o m h = elim (||-cases (k == x) (elem k xs) m) [
    | inl here ↦
        let p : k ≡ x = (eq_iff k x).0 here in
        ||-right (d == x) (elem d xs) (
          all-elem (λ t. elem t xs) (graph steps k) d
            (subst (λ z. subset (graph steps z) xs ≡ true) (sym p) o.0) h)
    | inr there ↦ ||-right (d == x) (elem d xs) (Ordered-closed xs k d o.1 there h)
  ]

  rank_in-lt :
      (xs : List String) (k d : String)
      → Ordered steps xs
      → elem k xs ≡ true
      → elem d (graph steps k) ≡ true
      → rank_in xs d < rank_in xs k
  rank_in-lt [] k d o m h = absurd (cc)
  rank_in-lt (x ∷ xs) k d o m h = elim (Bool-cases (elem k xs)) [
    | inl later ↦
        let c = Ordered-closed xs k d o.1 later h in rw (later, c) (rank_in-lt xs k d o.1 later h)
    | inr last ↦
        let here : (k == x) ≡ true = ground arith in
        let c : elem d xs ≡ true =
          all-elem (λ t. elem t xs) (graph steps k) d
            (subst (λ z. subset (graph steps z) xs ≡ true) (sym ((eq_iff k x).0 here)) o.0) h in
        rw (last, here, c) (omega (arith, rank_in-le xs d))
  ]

  -- A search that ends without a cycle leaves a rank for the keys of the plan.
  pub search_cycle-Ranks :
      (seen : List String)
      → search_cycle steps ≡ visited seen
      → (rank : String → ℕ) × Ranks steps rank
  unfolding search_cycle
  search_cycle-Ranks seen e =
      let x =
        visit_all-Extends (visit steps (length steps) []) (keys steps) [] seen
          (visit-IsSound (length steps) []) e tt in
      (rank_in seen, λ k d m h. rank_in-lt seen k d x.0 (x.2 k m) h)
