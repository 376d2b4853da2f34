-- ===== src/Chains/Proposals.antt =====
-- `hypothesize_from_proposals` of src/secopent/application/chain_engine.py.
use sec_opent.Prelude.{
  ℕ, suc, Bool, true, false, ◌||◌, Option, none, some, String, List, [], ◌∷◌, if◌then◌else◌, ◌==◌,
  string_eq,
}
use sec_opent.Prelude.Text.{starts_with}
use sec_opent.Chains.{
  Finding, ChainLink, AttackChain, confirmed_link, pending_link, status_of, composite_severity,
  confirmed_severities, validated_findings,
}

pub record ChainProposal : Type 0 where
  pub proposer : String
  pub template_hint : String
  pub finding_ids : List String

abbrev pub has_id : String → List Finding → Bool
has_id id [] = false
has_id id (f ∷ fs) = f.id == id || has_id id fs

abbrev pub proposed_links : (ℕ → String) → ℕ → List String → List Finding → List ChainLink
proposed_links fresh n [] findings = []
proposed_links fresh n (id ∷ ids) findings =
    (if has_id id findings then confirmed_link id else pending_link (fresh n))
    ∷ proposed_links fresh (suc n) ids findings

abbrev pub is_short : List ChainLink → Bool
is_short [] = true
is_short (l ∷ []) = true
is_short (l ∷ k ∷ ls) = false

-- One round of `hypothesize_from_proposals`, over the validated findings; `none` for `continue`.
unfoldable pub chain_of_proposal :
    (ℕ → String) → String → ChainProposal → List Finding → Option AttackChain
chain_of_proposal fresh id proposal findings =
    let links = proposed_links fresh 0 proposal.finding_ids findings in
    if is_short links
    then none
    else some (record {
      id = id;
      template_id = proposal.template_hint;
      hypothesis_source =
          if starts_with proposal.proposer "peer:" then "peer_claim" else "llm_proposal";
      links = links;
      status = status_of links;
      severity = composite_severity (confirmed_severities links findings) false;
    })

unfoldable pub hypothesize_from_proposals :
    (ℕ → ℕ → String) → (ℕ → String) → ℕ → List ChainProposal → List Finding → List AttackChain
hypothesize_from_proposals fresh id_of n [] findings = []
hypothesize_from_proposals fresh id_of n (p ∷ ps) findings =
    let rest = hypothesize_from_proposals fresh id_of (suc n) ps findings in
    elim (chain_of_proposal (fresh n) (id_of n) p (validated_findings findings)) [
      | none ↦ rest
      | some chain ↦ chain ∷ rest
    ]
