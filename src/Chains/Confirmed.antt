-- ===== src/Chains/Confirmed.antt =====
-- src/secopent/application/chain_engine.py: a chain's confirmed links stand on validated findings.
use sec_opent.Prelude.{
  ℕ, suc, Bool, true, false, ◌&&◌, some, String, List, [], ◌∷◌, any, all, ◌==◌, string_eq, ◌≡◌, sym,
  subst, ◌∙◌, ◌↔◌, ◌⊎◌, inl, inr, refl, arith, All, Bool-cases, Option-cases,
}
use text.Mathlib.TextEquality.{eq_iff}
use sec_opent.Chains.{
  Finding, is_validated, ChainLink, ChainLinkSpec, ChainStatus, AttackChain, AttackChainTemplate,
  fits, is_confirmed, bind_link, bind_links, status_of, validated_findings, match_findings,
  hypothesize, hypothesize_from_findings,
}
use sec_opent.Chains.Proposals.{
  ChainProposal, has_id, proposed_links, chain_of_proposal, hypothesize_from_proposals,
}

-- A validated finding of the list has that id.
abbrev pub is_backed : List Finding → String → Bool
is_backed findings id = any (λ f. is_validated f.status && f.id == id) findings

-- Each link of the chain that counts as confirmed stands on a validated finding, and the chain is
-- CONFIRMED exactly when all its links are.
unfoldable pub Honest : List Finding → AttackChain → Type 0
Honest findings chain =
    All (λ l. (is_confirmed l ≡ false) ⊎ (is_backed findings l.confirmed_finding_id ≡ true))
      chain.links
    × ((chain.status ≡ ChainStatus.confirmed) ↔ (all is_confirmed chain.links ≡ true))

pub has_id-validated :
    (findings : List Finding) (id : String)
    → has_id id (validated_findings findings) ≡ is_backed findings id
has_id-validated [] id = refl
has_id-validated (f ∷ fs) id = ground (arith, has_id-validated fs id)

pub bind_link-has_id :
    (spec : ChainLinkSpec) (fs rest : List Finding) (f : Finding)
    → bind_link spec fs ≡ some (f, rest)
    → (has_id f.id fs ≡ true) × ((id : String) → has_id id rest ≡ true → has_id id fs ≡ true)
bind_link-has_id spec [] rest f h = absurd (cc)
bind_link-has_id spec (g ∷ fs) rest f h = elim (Bool-cases (fits spec g.cwe g.asset)) [
  | inl y ↦ (ground (arith, y, h, eq_iff g.id f.id), λ id m. ground (arith, y, h))
  | inr n ↦
      let (p, q) = bind_link-has_id spec fs rest f (ground (arith, n, h)) in
      (ground (arith, p), λ id m. ground (arith, q id m))
]

pub status_of_iff :
    (links : List ChainLink)
    → (status_of links ≡ ChainStatus.confirmed) ↔ (all is_confirmed links ≡ true)
unfolding status_of
status_of_iff links = (λ h. ground arith, λ h. ground arith)

-- The same of any test that holds of the ids of the findings.
abbrev pub Passing : (String → Bool) → List ChainLink → Type 0
Passing q links = All (λ l. (is_confirmed l ≡ false) ⊎ (q l.confirmed_finding_id ≡ true)) links

pub bind_links-Passing :
    (fresh : ℕ → String) (n : ℕ) (specs : List ChainLinkSpec) (fs : List Finding)
    (q : String → Bool)
    → ((id : String) → has_id id fs ≡ true → q id ≡ true)
    → Passing q (bind_links fresh n specs fs)
unfolding bind_links
bind_links-Passing fresh n [] fs q h = tt
bind_links-Passing fresh n (spec ∷ specs) fs q h = elim (Option-cases (bind_link spec fs)) [
  | inl e ↦ rw (e, bind_links) (inl refl, bind_links-Passing fresh (suc n) specs fs q h)
  | inr ((f, rest), e) ↦
      let (own, later) = bind_link-has_id spec fs rest f e in
      rw (e, bind_links)
        (
          inr (h f.id own),
          bind_links-Passing fresh (suc n) specs rest q (λ id m. h id (later id m)),
        )
]

pub proposed_links-Passing :
    (fresh : ℕ → String) (n : ℕ) (ids : List String) (fs : List Finding)
    → Passing (λ id. has_id id fs) (proposed_links fresh n ids fs)
proposed_links-Passing fresh n [] fs = tt
proposed_links-Passing fresh n (id ∷ ids) fs = elim (Bool-cases (has_id id fs)) [
  | inl y ↦ rw y (inr y, proposed_links-Passing fresh (suc n) ids fs)
  | inr y ↦ rw y (inl refl, proposed_links-Passing fresh (suc n) ids fs)
]

-- A chain with these links and the status that the engine gives it.
pub links-Honest :
    (findings : List Finding) (links : List ChainLink) (chain : AttackChain)
    → chain.links ≡ links
    → chain.status ≡ status_of links
    → Passing (λ id. is_backed findings id) links
    → Honest findings chain
unfolding Honest
links-Honest findings links chain e s h = rw e (rw s (h, status_of_iff links))

pub match_findings-Honest :
    (fresh : ℕ → String) (id : String) (t : AttackChainTemplate) (findings : List Finding)
    (chain : AttackChain)
    → match_findings fresh id t (validated_findings findings) ≡ some chain
    → Honest findings chain
unfolding match_findings
match_findings-Honest fresh id t findings chain h =
    links-Honest findings (bind_links fresh 0 t.links (validated_findings findings)) chain
      (ground arith) (ground arith)
      (bind_links-Passing fresh 0 t.links (validated_findings findings) (is_backed findings)
        (λ i m. sym (has_id-validated findings i) ∙ m))

pub chain_of_proposal-Honest :
    (fresh : ℕ → String) (id : String) (p : ChainProposal) (findings : List Finding)
    (chain : AttackChain)
    → chain_of_proposal fresh id p (validated_findings findings) ≡ some chain
    → Honest findings chain
unfolding chain_of_proposal
chain_of_proposal-Honest fresh id p findings chain h =
    links-Honest findings (proposed_links fresh 0 p.finding_ids (validated_findings findings)) chain
      (ground arith) (ground arith)
      (subst (λ q. Passing q (proposed_links fresh 0 p.finding_ids (validated_findings findings)))
        (λ i id. has_id-validated findings id i)
        (proposed_links-Passing fresh 0 p.finding_ids (validated_findings findings)))

-- Every chain that the templates give has confirmed links for validated findings only, and is
-- CONFIRMED exactly when all its links are.
pub hypothesize_from_findings-Honest :
    (fresh : String → ℕ → String) (id_of : String → String) (ts : List AttackChainTemplate)
    (findings : List Finding)
    → All (Honest findings) (hypothesize_from_findings fresh id_of ts findings)
unfolding hypothesize
hypothesize_from_findings-Honest fresh id_of [] findings = tt
hypothesize_from_findings-Honest fresh id_of (t ∷ ts) findings =
    let rest = hypothesize_from_findings-Honest fresh id_of ts findings in
    elim (Option-cases (match_findings (fresh t.id) (id_of t.id) t (validated_findings findings))) [
      | inl e ↦ rw (e, hypothesize) rest
      | inr (chain, e) ↦
          rw (e, hypothesize)
            (match_findings-Honest (fresh t.id) (id_of t.id) t findings chain e, rest)
    ]

-- Every chain that a model or a peer proposes has confirmed links for validated findings only, and
-- is CONFIRMED exactly when all its links are.
pub hypothesize_from_proposals-Honest :
    (fresh : ℕ → ℕ → String) (id_of : ℕ → String) (n : ℕ) (ps : List ChainProposal)
    (findings : List Finding)
    → All (Honest findings) (hypothesize_from_proposals fresh id_of n ps findings)
unfolding hypothesize_from_proposals
hypothesize_from_proposals-Honest fresh id_of n [] findings = tt
hypothesize_from_proposals-Honest fresh id_of n (p ∷ ps) findings =
    let rest = hypothesize_from_proposals-Honest fresh id_of (suc n) ps findings in
    elim (Option-cases (chain_of_proposal (fresh n) (id_of n) p (validated_findings findings))) [
      | inl e ↦ rw (e, hypothesize_from_proposals) rest
      | inr (chain, e) ↦
          rw (e, hypothesize_from_proposals)
            (chain_of_proposal-Honest (fresh n) (id_of n) p findings chain e, rest)
    ]
