-- ===== src/Chains.antt =====
-- src/secopent/domain/findings/attack_chain.py, chain_templates.py and models.py, and
-- application/chain_engine.py: attack chains over confirmed findings.
pub mod Matching
pub mod Proposals
pub mod Confirmed
use sec_opent.Prelude.{
  ℕ, suc, ◌+◌, Bool, true, false, not, ◌&&◌, ◌||◌, Option, none, some, String, List, [], ◌∷◌, ◌++◌,
  any, all, elem, select, if◌then◌else◌, ltb, nat_beq, ◌==◌, string_eq,
}
use sec_opent.Prelude.Text.{is_empty, codes, is_infix, starts_with}

pub data Severity : Type 0 where
  info low medium high critical : Severity

-- `_SEVERITY_ORDER.index` and `_SEVERITY_ORDER[index]`.
abbrev pub rank : Severity → ℕ
rank Severity.info = 0
rank Severity.low = 1
rank Severity.medium = 2
rank Severity.high = 3
rank Severity.critical = 4

-- `_SEVERITY_ORDER[min(index + 1, len - 1)]`
abbrev pub one_up : Severity → Severity
one_up Severity.info = Severity.low
one_up Severity.low = Severity.medium
one_up Severity.medium = Severity.high
one_up Severity.high = Severity.critical
one_up Severity.critical = Severity.critical

-- `max(xs, key=_SEVERITY_ORDER.index)` of a list that starts with `top`.
abbrev pub highest : Severity → List Severity → Severity
highest top [] = top
highest top (x ∷ xs) = highest (if ltb (rank top) (rank x) then x else top) xs

unfoldable pub composite_severity : List Severity → Bool → Severity
composite_severity [] asset_critical = Severity.info
composite_severity (x ∷ xs) asset_critical =
    if asset_critical then one_up (highest x xs) else highest x xs

pub data FindingStatus : Type 0 where
  draft candidate validated reported closed false_positive : FindingStatus

abbrev pub is_validated : FindingStatus → Bool
is_validated FindingStatus.validated = true
is_validated s = false

-- What the engine reads of a Finding.
pub record Finding : Type 0 where
  pub id : String
  pub asset : String
  pub severity : Severity
  pub cwe : List String
  pub status : FindingStatus

pub record ChainLinkSpec : Type 0 where
  pub cwe_any : List String
  pub asset_pattern : String

pub record AttackChainTemplate : Type 0 where
  pub id : String
  pub name : String
  pub links : List ChainLinkSpec
  pub tactic : String

-- A CWE in common, and the pattern in the asset.
unfoldable pub fits : ChainLinkSpec → List String → String → Bool
fits spec cwes asset =
    any (λ c. elem c cwes) spec.cwe_any
    && (is_empty spec.asset_pattern || is_infix (codes spec.asset_pattern) (codes asset))

-- The inner loop, from a position on: whether a finding fits, and what comes after the first.
abbrev pub next_fit :
    ChainLinkSpec → List (List String × String) → Option (List (List String × String))
next_fit spec [] = none
next_fit spec ((cwes, asset) ∷ rest) =
    let later = next_fit spec rest in if fits spec cwes asset then some rest else later

unfoldable pub match_links : List ChainLinkSpec → List (List String × String) → Bool
match_links [] findings = true
match_links (spec ∷ specs) findings = elim (next_fit spec findings) [
  | none ↦ false
  | some rest ↦ match_links specs rest
]

abbrev pub match_template : AttackChainTemplate → List (List String × String) → Bool
match_template t findings = match_links t.links findings

pub data ChainStatus : Type 0 where
  hypothesis partially_verified confirmed refuted : ChainStatus

pub record ChainLink : Type 0 where
  pub confirmed_finding_id : String
  pub pending_verification_key : String

abbrev pub is_confirmed : ChainLink → Bool
is_confirmed l = not (is_empty l.confirmed_finding_id)

abbrev pub confirmed_link : String → ChainLink
confirmed_link id = record { confirmed_finding_id = id; pending_verification_key = "" }

abbrev pub pending_link : String → ChainLink
pending_link key = record { confirmed_finding_id = ""; pending_verification_key = key }

-- The notes of the links are left out.
pub record AttackChain : Type 0 where
  pub id : String
  pub template_id : String
  pub hypothesis_source : String
  pub links : List ChainLink
  pub status : ChainStatus
  pub severity : Severity

-- The first finding from a position on that fits, and what comes after it.
abbrev pub bind_link : ChainLinkSpec → List Finding → Option (Finding × List Finding)
bind_link spec [] = none
bind_link spec (f ∷ rest) =
    let later = bind_link spec rest in if fits spec f.cwe f.asset then some (f, rest) else later

-- The loop of `_match_template`; a link that nothing fits leaves the position. `fresh` gives the
-- key of a pending link.
unfoldable pub bind_links : (ℕ → String) → ℕ → List ChainLinkSpec → List Finding → List ChainLink
bind_links fresh n [] findings = []
bind_links fresh n (spec ∷ specs) findings = elim (bind_link spec findings) [
  | none ↦ pending_link (fresh n) ∷ bind_links fresh (suc n) specs findings
  | some (f, rest) ↦ confirmed_link f.id ∷ bind_links fresh (suc n) specs rest
]

abbrev pub first_confirmed : List ChainLink → Bool
first_confirmed [] = false
first_confirmed (l ∷ ls) = is_confirmed l

unfoldable pub status_of : List ChainLink → ChainStatus
status_of links =
    if all is_confirmed links
    then ChainStatus.confirmed
    else if first_confirmed links
    then ChainStatus.partially_verified
    else ChainStatus.hypothesis

-- `{f.id: f for f in findings}[id]`: the last finding with that id.
abbrev pub by_id : String → List Finding → Option Finding
by_id id [] = none
by_id id (f ∷ fs) = elim (by_id id fs) [
  | some g ↦ some g
  | none ↦ if f.id == id then some f else none
]

abbrev pub confirmed_severities : List ChainLink → List Finding → List Severity
confirmed_severities [] findings = []
confirmed_severities (l ∷ ls) findings =
    let rest = confirmed_severities ls findings in
    elim (by_id l.confirmed_finding_id findings) [
      | none ↦ rest
      | some f ↦ if is_confirmed l then f.severity ∷ rest else rest
    ]

-- `_match_template`; the constructor refuses a chain of fewer than two links, which a template
-- never gives.
unfoldable pub match_findings :
    (ℕ → String) → String → AttackChainTemplate → List Finding → Option AttackChain
match_findings fresh id template findings =
    let links = bind_links fresh 0 template.links findings in
    if not (any is_confirmed links)
    then none
    else some (record {
      id = id;
      template_id = template.id;
      hypothesis_source = "template";
      links = links;
      status = status_of links;
      severity = composite_severity (confirmed_severities links findings) false;
    })

abbrev pub validated_findings : List Finding → List Finding
validated_findings findings = select (λ f. is_validated f.status) findings

-- `hypothesize_from_findings`, over the templates.
unfoldable pub hypothesize :
    (String → ℕ → String)
    → (String → String)
    → List AttackChainTemplate
    → List Finding
    → List AttackChain
hypothesize fresh id_of [] findings = []
hypothesize fresh id_of (t ∷ ts) findings =
    let rest = hypothesize fresh id_of ts findings in
    elim (match_findings (fresh t.id) (id_of t.id) t findings) [
      | none ↦ rest
      | some chain ↦ chain ∷ rest
    ]

abbrev pub hypothesize_from_findings :
    (String → ℕ → String)
    → (String → String)
    → List AttackChainTemplate
    → List Finding
    → List AttackChain
hypothesize_from_findings fresh id_of templates findings =
    hypothesize fresh id_of templates (validated_findings findings)
