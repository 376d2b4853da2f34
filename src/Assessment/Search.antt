-- ===== src/Assessment/Search.antt =====
-- The search for cycles of `ExecutionPlan.create`: it finds no cycle where there is none, and it never
-- runs out of depth.
use sec_opent.Prelude.{
  ℕ, zero, suc, ◌+◌, ◌≤◌, ◌<◌, Bool, true, false, String, List, [], ◌∷◌, elem, subset, distinct,
  length, all, string_eq, if◌then◌else◌, ◌==◌, ◌≡◌, inl, inr, refl, arith, Bool-cases, elem_of_full,
  all-elem, subst, ||-cases, ||-right, sym, ap, &&-true, elem_head,
}
use text.Mathlib.TextEquality.{eq_iff}
use sec_opent.Assessment.Plan.{
  PlanStep, keys, graph, Search, visited, cycle, out_of_fuel, visit_all, visit, search_cycle,
  known_dependencies,
}
use sec_opent.Assessment.Acyclic.{Ranks}

-- The verdict of a search, where `C` tells whether a cycle may be found and `O` whether the depth
-- may run out.
abbrev pub Verdict : Type 0 → Type 0 → Search → Type 0
Verdict C O (visited seen) = Unit
Verdict C O cycle = C
Verdict C O out_of_fuel = O

visit_all-Verdict :
    (C O : Type 0) (visit_one : String → List String → Search) (ks seen : List String)
    → ((k : String) (seen : List String) → elem k ks ≡ true → Verdict C O (visit_one k seen))
    → Verdict C O (visit_all visit_one ks seen)
visit_all-Verdict C O f [] seen h = tt
visit_all-Verdict C O f (k ∷ ks) seen h =
    go (λ s. visit_all-Verdict C O f ks s (λ x t m. h x t (||-right (x == k) (elem x ks) m)))
      (f k seen) (h k seen (elem_head k ks))
  where
    go :
        ((s : List String) → Verdict C O (visit_all f ks s))
        → (r : Search) → Verdict C O r
        → Verdict C O
            (elim r [ visited s ↦ visit_all f ks s | cycle ↦ cycle | out_of_fuel ↦ out_of_fuel ])
    go ih (visited s) v = ih s
    go ih cycle v = v
    go ih out_of_fuel v = v

-- What a call with fuel answers, by the answer of the calls inside it.
entered-Verdict :
    (C O : Type 0) (k : String) (seen : List String) (a b : Bool) (r : Search)
    → (a ≡ true → C)
    → (a ≡ false → Verdict C O r)
    → Verdict C O (
        if a
        then cycle
        else if b
        then visited seen
        else elim r [ visited s ↦ visited (k ∷ s) | cycle ↦ cycle | out_of_fuel ↦ out_of_fuel ])
entered-Verdict C O k seen true b r c h = c refl
entered-Verdict C O k seen false true r c h = tt
entered-Verdict C O k seen false false (visited s) c h = tt
entered-Verdict C O k seen false false cycle c h = h refl
entered-Verdict C O k seen false false out_of_fuel c h = h refl

stopped-Verdict :
    (C O : Type 0) (seen : List String) (a b : Bool)
    → (a ≡ true → C)
    → (a ≡ false → O)
    → Verdict C O (if a then cycle else if b then visited seen else out_of_fuel)
stopped-Verdict C O seen true b c o = c refl
stopped-Verdict C O seen false true c o = tt
stopped-Verdict C O seen false false c o = o refl

module _ (steps : List PlanStep) where
  known-graph :
      (ss : List PlanStep) (k d : String)
      → all (λ s. subset s.dependencies (keys steps)) ss ≡ true
      → elem d (graph ss k) ≡ true
      → elem d (keys steps) ≡ true
  known-graph [] k d a m = absurd (cc)
  known-graph (s ∷ ss) k d a m =
      let split = (&&-true (subset s.dependencies (keys steps)) _).0 a in
      elim (Bool-cases (s.key == k)) [
        | inl here ↦ all-elem (λ t. elem t (keys steps)) s.dependencies d split.0 (rw here at m)
        | inr there ↦ known-graph ss k d split.1 (rw there at m)
      ]

  -- The path from the root while a key is visited with that much fuel.
  record Trail (fuel : ℕ) (visiting : List String) : Type 0 where
    once : distinct visiting ≡ true
    inside : subset visiting (keys steps) ≡ true
    depth : length (keys steps) ≤ fuel + length visiting

  Trail-enter :
      (fuel : ℕ) (visiting : List String) (k : String)
      → elem k (keys steps) ≡ true
      → elem k visiting ≡ false
      → Trail (suc fuel) visiting
      → Trail fuel (k ∷ visiting)
  Trail-enter fuel visiting k m n t = ground (arith, t.depth)

  -- The depth suffices, whatever the plan.
  visit-ends :
      (fuel : ℕ) (visiting : List String) (k : String) (seen : List String)
      → known_dependencies steps ≡ true
      → elem k (keys steps) ≡ true
      → Trail fuel visiting
      → Verdict Unit ⊥ (visit steps fuel visiting k seen)
  unfolding visit known_dependencies
  visit-ends zero visiting k seen known m t =
      stopped-Verdict Unit ⊥ seen (elem k visiting) (elem k seen) (λ h. tt)
        (λ h.
          absurd
            (cc (elem_of_full k visiting (keys steps) t.once t.inside (omega (arith, t.depth)) m)))
  visit-ends (suc fuel) visiting k seen known m t =
      entered-Verdict Unit ⊥ k seen (elem k visiting) (elem k seen) _ (λ h. tt)
        (λ h.
          visit_all-Verdict Unit ⊥ (visit steps fuel (k ∷ visiting)) (graph steps k) seen (λ d s n.
            visit-ends fuel (k ∷ visiting) d s known (known-graph steps k d known n)
              (Trail-enter fuel visiting k m h t)))

  module _ (rank : String → ℕ) (ranks : Ranks steps rank) where
    -- The keys on the path from the root all outrank the key that is visited.
    abbrev Above : List String → String → Type 0
    Above visiting k = (x : String) → elem x visiting ≡ true → rank k < rank x

    Above-step :
        (visiting : List String) (k d : String)
        → elem k (keys steps) ≡ true
        → elem d (graph steps k) ≡ true
        → Above visiting k
        → Above (k ∷ visiting) d
    Above-step visiting k d m n h x e = elim (||-cases (x == k) (elem x visiting) e) [
      | inl here ↦ subst (λ z. rank d < rank z) (sym ((eq_iff x k).0 here)) (ranks k d m n)
      | inr there ↦ omega (arith, h x there, ranks k d m n)
    ]

    -- Where the dependencies have a rank no cycle is found.
    visit-no_cycle :
        (fuel : ℕ) (visiting : List String) (k : String) (seen : List String)
        → known_dependencies steps ≡ true
        → elem k (keys steps) ≡ true
        → Above visiting k
        → Verdict ⊥ Unit (visit steps fuel visiting k seen)
    unfolding visit known_dependencies
    visit-no_cycle zero visiting k seen known m h =
        stopped-Verdict ⊥ Unit seen (elem k visiting) (elem k seen)
          (λ e. absurd (omega (arith, h k e))) (λ e. tt)
    visit-no_cycle (suc fuel) visiting k seen known m h =
        entered-Verdict ⊥ Unit k seen (elem k visiting) (elem k seen) _
          (λ e. absurd (omega (arith, h k e)))
          (λ e.
            visit_all-Verdict ⊥ Unit (visit steps fuel (k ∷ visiting)) (graph steps k) seen
              (λ d s n.
                visit-no_cycle fuel (k ∷ visiting) d s known (known-graph steps k d known n)
                  (Above-step visiting k d m n h)))

  length-keys : (ss : List PlanStep) → length (keys ss) ≡ length ss
  length-keys [] = refl
  length-keys (s ∷ ss) = ap suc (length-keys ss)

  pub search_ends : known_dependencies steps ≡ true → Verdict Unit ⊥ (search_cycle steps)
  unfolding search_cycle
  search_ends known =
      visit_all-Verdict Unit ⊥ (visit steps (length steps) []) (keys steps) [] (λ k s m.
        visit-ends (length steps) [] k s known m
          (record { once = refl; inside = refl; depth = omega (arith, length-keys steps) }))

  pub search_no_cycle :
      (rank : String → ℕ)
      → Ranks steps rank
      → known_dependencies steps ≡ true
      → Verdict ⊥ Unit (search_cycle steps)
  unfolding search_cycle
  search_no_cycle rank ranks known =
      visit_all-Verdict ⊥ Unit (visit steps (length steps) []) (keys steps) []
        (λ k s m. visit-no_cycle rank ranks (length steps) [] k s known m (λ x e. absurd (cc)))
