-- ===== src/Tests/ChainsOf.antt =====
-- Attack chains at concrete inputs.
use sec_opent.Prelude.{true, ◌≡◌, ◌↔◌, All, List, [], ◌∷◌}
use sec_opent.Chains.{
  Severity, Finding, FindingStatus, AttackChainTemplate, match_template, hypothesize_from_findings,
}
use sec_opent.Chains.Proposals.{ChainProposal}
use sec_opent.Chains.Matching.{Embeds, match_template_iff}
use sec_opent.Chains.Confirmed.{Honest, hypothesize_from_findings-Honest}

abbrev template : AttackChainTemplate
template = record {
  id = "t1";
  name = "upload to execution";
  links =
      (record { cwe_any = "CWE-434" ∷ []; asset_pattern = "" })
      ∷ (record { cwe_any = "CWE-94" ∷ "CWE-78" ∷ []; asset_pattern = "api" })
      ∷ [];
  tactic = "execution";
}

abbrev upload : Finding
upload = record {
  id = "f1";
  asset = "web.example";
  severity = Severity.medium;
  cwe = "CWE-434" ∷ [];
  status = FindingStatus.validated;
}

abbrev injection : Finding
injection = record {
  id = "f2";
  asset = "api.example";
  severity = Severity.high;
  cwe = "CWE-78" ∷ [];
  status = FindingStatus.candidate;
}

match_template_iff_example :
    (match_template template ((upload.cwe, upload.asset) ∷ (injection.cwe, injection.asset) ∷ [])
      ≡ true)
    ↔ Embeds template.links ((upload.cwe, upload.asset) ∷ (injection.cwe, injection.asset) ∷ [])
match_template_iff_example =
    match_template_iff template ((upload.cwe, upload.asset) ∷ (injection.cwe, injection.asset) ∷ [])

abbrev severities : List Severity
severities = Severity.medium ∷ Severity.high ∷ []

hypothesize_from_findings-Honest_example : All (Honest (upload ∷ injection ∷ [])) (
    hypothesize_from_findings
      (λ t n. "pending")
      (λ t. "chain")
      (template ∷ [])
      (upload ∷ injection ∷ []))
hypothesize_from_findings-Honest_example =
    hypothesize_from_findings-Honest (λ t n. "pending") (λ t. "chain") (template ∷ [])
      (upload ∷ injection ∷ [])

abbrev proposal : ChainProposal
proposal = record { proposer = "peer:p1"; template_hint = "t1"; finding_ids = "f1" ∷ "f2" ∷ [] }
