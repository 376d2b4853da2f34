-- ===== src/Scope/Draft.antt =====
-- src/secopent/domain/scope/models.py: the draft that a human freezes into a snapshot.
use sec_opent.Prelude.{ℕ, Bool, true, false, ◌||◌, List, [], ◌∷◌, if◌then◌else◌, String, Eq, ◌==◌}
use sec_opent.Prelude.Text.{Text, codes, text_eq, text_ltb}
use sec_opent.Prelude.Int.{ℤ, ltb_ℤ, int_eq}
use sec_opent.Prelude.Raises.{Result, ok, err, validation, ◌>>=◌, ◌>>◌, raise_if, map_or_raise}
use sec_opent.Scope.Net.{NetLib}
use sec_opent.Scope.Normalize.{
  null, normalize_domain, normalize_ip_or_network, normalize_url, normalize_port,
  normalize_cloud_account,
}
use sec_opent.Scope.Snapshot.{ScopeLimits, ScopeSnapshot, is_http_rule}

pub record ScopeDraft : Type 0 where
  pub project_id : String
  pub include : List Text
  pub exclude : List Text
  pub ports : List ℤ
  pub limits : ScopeLimits
  pub cloud_accounts : List Text

-- `tuple(sorted({...}))`: an insertion sort that drops repetitions.
module _ {A : Type 0} ⦃e : Eq A⦄ (lt : A → A → Bool) where
  abbrev pub insert_sorted : A → List A → List A
  insert_sorted a [] = a ∷ []
  insert_sorted a (x ∷ xs) =
      let rest = insert_sorted a xs in
      if a == x then x ∷ xs else if lt a x then a ∷ x ∷ xs else x ∷ rest

  abbrev pub sorted_set : List A → List A
  sorted_set [] = []
  sorted_set (x ∷ xs) = insert_sorted x (sorted_set xs)

module _ (net : NetLib) where
  -- `ScopeDraft.__post_init__`
  unfoldable pub check_draft : ScopeDraft → Result (List ℤ)
  check_draft d = do
    raise_if (null (net.strip (codes d.project_id)) || no_targets d.include)
        (validation "project and include targets are required")
    map_or_raise normalize_port d.ports
    where
      no_targets : List Text → Bool
      no_targets [] = true
      no_targets (t ∷ ts) = false

  unfoldable pub normalize_target : Text → Result Text
  normalize_target value =
      if is_http_rule (net.lower (net.strip value))
      then normalize_url net value
      else elim (normalize_ip_or_network net value) [
        | ok target ↦ ok target
        | err e ↦ normalize_domain net value
      ]

  -- `digest_of` is `canonical_digest` of the snapshot's fields.
  unfoldable pub freeze :
      (ScopeSnapshot → String) → String → String → ℕ → ScopeDraft → Result ScopeSnapshot
  unfolding normalize_target
  freeze digest_of snapshot_id approved_by approved_at d = do
    include ← map_or_raise normalize_target d.include
    exclude ← map_or_raise normalize_target d.exclude
    ports ← map_or_raise normalize_port d.ports
    accounts ← map_or_raise (normalize_cloud_account net) d.cloud_accounts
    let draft = snapshot include exclude ports accounts ""
    ok (record draft { digest = digest_of draft })
    where
      snapshot : List Text → List Text → List ℤ → List Text → String → ScopeSnapshot
      snapshot include exclude ports accounts digest = record {
        id = snapshot_id;
        project_id = d.project_id;
        include = sorted_set text_ltb include;
        exclude = sorted_set text_ltb exclude;
        ports = sorted_set ltb_ℤ ports;
        limits = d.limits;
        approved_by = approved_by;
        approved_at = approved_at;
        digest = digest;
        cloud_accounts = sorted_set text_ltb accounts;
      }
