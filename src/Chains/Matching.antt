-- ===== src/Chains/Matching.antt =====
-- src/secopent/domain/findings/chain_templates.py and attack_chain.py: the greedy matcher against
-- order-preserving embeddings, and the composite severity.
use sec_opent.Prelude.{
  ◌+◌, ◌≤◌, true, false, some, String, List, [], ◌∷◌, if◌then◌else◌, ltb, ◌≡◌, subst, ◌↔◌, ◌⊎◌, inl,
  inr, refl, arith, All, Bool-cases, Option-cases,
}
use sec_opent.Chains.{
  ChainLinkSpec, AttackChainTemplate, fits, next_fit, match_links, match_template, Severity, rank,
  one_up, highest, composite_severity,
}

-- The specs fit findings in the order of both lists.
pub data Embeds : List ChainLinkSpec → List (List String × String) → Type 0 where
  done : {fs : List (List String × String)} → Embeds [] fs
  take :
      {spec : ChainLinkSpec} {specs : List ChainLinkSpec} {cwes : List String} {asset : String}
      {fs : List (List String × String)}
      → fits spec cwes asset ≡ true
      → Embeds specs fs
      → Embeds (spec ∷ specs) ((cwes, asset) ∷ fs)
  skip :
      {specs : List ChainLinkSpec} {f : List String × String} {fs : List (List String × String)}
      → Embeds specs fs
      → Embeds specs (f ∷ fs)

pub Embeds-drop :
    {spec : ChainLinkSpec} {specs : List ChainLinkSpec} {fs : List (List String × String)}
    → Embeds (spec ∷ specs) fs
    → Embeds specs fs
Embeds-drop (take h e) = skip e
Embeds-drop (skip e) = skip (Embeds-drop e)

-- What is embedded after the first fit is embedded in the whole.
pub next_fit-Embeds :
    (spec : ChainLinkSpec) (specs : List ChainLinkSpec) (fs rest : List (List String × String))
    → next_fit spec fs ≡ some rest
    → Embeds specs rest
    → Embeds (spec ∷ specs) fs
next_fit-Embeds spec specs [] rest h e = absurd (cc)
next_fit-Embeds spec specs ((cwes, asset) ∷ fs) rest h e =
    elim (Bool-cases (fits spec cwes asset)) [
      | inl y ↦ take y (subst (λ x. Embeds specs x) (ground (arith, h, y)) e)
      | inr n ↦ skip (next_fit-Embeds spec specs fs rest (ground (arith, h, n)) e)
    ]

pub Embeds-next_fit :
    (spec : ChainLinkSpec) (specs : List ChainLinkSpec) (fs : List (List String × String))
    → Embeds (spec ∷ specs) fs
    → (rest : List (List String × String)) × (next_fit spec fs ≡ some rest) × Embeds specs rest
Embeds-next_fit spec specs [] x = elim x [ ]
Embeds-next_fit spec specs ((cwes, asset) ∷ fs) (take h e) = (fs, rw h refl, e)
Embeds-next_fit spec specs ((cwes, asset) ∷ fs) (skip e) =
    elim (Bool-cases (fits spec cwes asset)) [
      | inl y ↦ (fs, rw y refl, Embeds-drop e)
      | inr n ↦
          let (rest, h, r) = Embeds-next_fit spec specs fs e in (rest, ground (arith, h, n), r)
    ]

pub Embeds-match :
    (specs : List ChainLinkSpec) (fs : List (List String × String))
    → Embeds specs fs
    → match_links specs fs ≡ true
unfolding match_links
Embeds-match [] fs e = refl
Embeds-match (spec ∷ specs) fs e =
    let (rest, h, r) = Embeds-next_fit spec specs fs e in
    ground (arith, h, Embeds-match specs rest r)

pub match-Embeds :
    (specs : List ChainLinkSpec) (fs : List (List String × String))
    → match_links specs fs ≡ true
    → Embeds specs fs
unfolding match_links
match-Embeds [] fs h = done
match-Embeds (spec ∷ specs) fs h = elim (Option-cases (next_fit spec fs)) [
  | inl n ↦ absurd (ground (arith, n, h))
  | inr (rest, e) ↦
      next_fit-Embeds spec specs fs rest e (match-Embeds specs rest (ground (arith, e, h)))
]

-- A template matches exactly when its links can be embedded in the findings in their order: taking
-- the first finding that fits never loses a match.
pub match_template_iff :
    (t : AttackChainTemplate) (findings : List (List String × String))
    → (match_template t findings ≡ true) ↔ Embeds t.links findings
match_template_iff t findings = (match-Embeds t.links findings, Embeds-match t.links findings)

pub highest-above :
    (top : Severity) (xs : List Severity)
    → (rank top ≤ rank (highest top xs)) × All (λ x. rank x ≤ rank (highest top xs)) xs
highest-above top [] = (omega arith, tt)
highest-above top (x ∷ xs) =
    let next = if ltb (rank top) (rank x) then x else top in
    let (up, rest) = highest-above next xs in (ground (arith, up), (ground (arith, up), rest))

pub highest-elem :
    (top : Severity) (xs : List Severity)
    → (P : Severity → Type 0) → P top
    → All P xs
    → P (highest top xs)
highest-elem top [] P h a = h
highest-elem top (x ∷ xs) P h (p, a) = elim (Bool-cases (ltb (rank top) (rank x))) [
  | inl y ↦ rw y (highest-elem x xs P p a)
  | inr n ↦ rw n (highest-elem top xs P h a)
]

-- The composite severity of a chain is at least that of every link, and has every property that the
-- severities of all links have, so that it is one of them; on a critical asset it is one level up,
-- up to CRITICAL.
pub composite_severity_top :
    (x : Severity) (xs : List Severity) (P : Severity → Type 0)
    → All P (x ∷ xs)
    → All (λ y. rank y ≤ rank (composite_severity (x ∷ xs) false)) (x ∷ xs)
      × P (composite_severity (x ∷ xs) false)
      × ((composite_severity (x ∷ xs) false ≡ Severity.critical)
            × (composite_severity (x ∷ xs) true ≡ Severity.critical)
          ⊎ (rank (composite_severity (x ∷ xs) true)
              ≡ rank (composite_severity (x ∷ xs) false) + 1))
unfolding composite_severity
composite_severity_top x xs P a =
    (highest-above x xs, highest-elem x xs P a.0 a.1, one_up-cases (highest x xs))
  where
    one_up-cases :
        (s : Severity)
        → ((s ≡ Severity.critical) × (one_up s ≡ Severity.critical))
          ⊎ (rank (one_up s) ≡ rank s + 1)
    one_up-cases s = ground arith
