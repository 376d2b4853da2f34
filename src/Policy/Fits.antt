-- ===== src/Policy/Fits.antt =====
-- src/secopent/domain/scope/models.py: when a port and a URL lie in a scope, said without the code's
-- loops.
use sec_opent.Prelude.{
  Bool, true, false, List, [], ◌∷◌, All, elem, ◌≡◌, ◌↔◌, ◌⊎◌, inl, inr, refl, sym, arith,
  Bool-cases,
}
use sec_opent.Prelude.Int.{ℤ, pos, leb_ℤ, int_eq}
use sec_opent.Prelude.Text.{Text, is_prefix}
use sec_opent.Prelude.Raises.{Result, ok, err, any_or_raise, ok->>=, Result-cases}
use sec_opent.Scope.{
  NetLib, SplitUrl, ScopeSnapshot, normalize_url, normalize_port, is_http_rule, host_or_empty,
  target_matches, deny_first, url_rule_matches, includes_port, includes_url,
}

-- The first element with an answer other than `no` answers `yes`.
abbrev pub First : {A : Type 0} → (Bool → A → Type 0) → List A → Type 0
First P [] = ⊥
First P (x ∷ xs) = P true x ⊎ (P false x × First P xs)

module _ {A : Type 0} (f : A → Result Bool) (P : Bool → A → Type 0)
    (means : (b : Bool) (x : A) → (f x ≡ ok b) ↔ P b x) where
  any_or_raise-All : (xs : List A) → (any_or_raise f xs ≡ ok false) ↔ All (P false) xs
  any_or_raise-All [] = (λ h. tt, λ h. refl)
  any_or_raise-All (x ∷ xs) =
      let (there, back) = any_or_raise-All xs in
      elim (Result-cases (f x)) [
        | inr (e, k) ↦
            (λ h. absurd (ground (arith, h, k)), λ h. absurd (cc (k, (means false x).1 h.0)))
        | inl (b, k) ↦ elim (Bool-cases b) [
          | inl t ↦ (
            λ h. absurd (ground (arith, h, k, t)),
            λ h. absurd (cc (k, t, (means false x).1 h.0)),
          )
          | inr t ↦ (
            λ h. ((means false x).0 (cc (k, t)), there (ground (arith, h, k, t))),
            λ h. ground (arith, k, t, back h.1),
          )
        ]
      ]

  any_or_raise-First : (xs : List A) → (any_or_raise f xs ≡ ok true) ↔ First P xs
  any_or_raise-First [] = (λ h. absurd (cc h), λ h. absurd h)
  any_or_raise-First (x ∷ xs) =
      let (there, back) = any_or_raise-First xs in
      (
        λ h. elim (Result-cases (f x)) [
          | inr (e, k) ↦ absurd (ground (arith, h, k))
          | inl (b, k) ↦ elim (Bool-cases b) [
            | inl t ↦ inl ((means true x).0 (cc (k, t)))
            | inr t ↦ inr ((means false x).0 (cc (k, t)), there (ground (arith, h, k, t)))
          ]
        ],
        λ h. elim h [
          | inl y ↦ ground (arith, (means true x).1 y)
          | inr (n, r) ↦ ground (arith, (means false x).1 n, back r)
        ],
      )

-- The port is one, and the scope names it.
abbrev pub PortFits : ScopeSnapshot → ℤ → Type 0
PortFits s port =
    (leb_ℤ (pos 1) port ≡ true) × (leb_ℤ port (pos 65535) ≡ true) × (elem port s.ports ≡ true)

pub includes_port_iff :
    (s : ScopeSnapshot) (port : ℤ) → (includes_port s port ≡ ok true) ↔ PortFits s port
unfolding includes_port normalize_port
includes_port_iff s port = (λ h. ground arith, λ h. ground arith)

-- Whether a rule fits a normalized URL with this host: an HTTP rule is a prefix of the URL, any other
-- rule matches the host.
abbrev pub RuleFits : NetLib → Text → Text → Bool → Text → Type 0
RuleFits net url host b rule =
    ((is_http_rule rule ≡ true) × (is_prefix rule url ≡ b))
    ⊎ ((is_http_rule rule ≡ false) × (target_matches net rule host ≡ ok b))

-- The target is a URL to which no exclude rule fits and to which an include rule fits.
abbrev pub UrlFits : NetLib → ScopeSnapshot → Text → Type 0
UrlFits net s target =
    (url : Text) × (parts : SplitUrl) × (normalize_url net target ≡ ok url)
    × (net.urlsplit url ≡ ok parts)
    × All (RuleFits net url (host_or_empty parts) false) s.exclude
    × First (RuleFits net url (host_or_empty parts)) s.include

module _ (net : NetLib) (s : ScopeSnapshot) where
  rule_means :
      (url host : Text) (b : Bool) (rule : Text)
      → (url_rule_matches net s url host rule ≡ ok b) ↔ RuleFits net url host b rule
  unfolding url_rule_matches
  rule_means url host b rule = elim (Bool-cases (is_http_rule rule)) [
    | inl t ↦ (λ h. inl (t, ground (arith, h, t)), λ h. ground (arith, h, t))
    | inr f ↦ (λ h. inr (f, ground (arith, h, f)), λ h. ground (arith, h, f))
  ]

  pub includes_url_iff :
      (target : Text) → (includes_url net s target ≡ ok true) ↔ UrlFits net s target
  unfolding includes_url
  includes_url_iff target = (
    λ h.
        let (url, k, e) = ok->>= (normalize_url net target) _ (sym h) in
        let (parts, j, p) = ok->>= (net.urlsplit url) _ (sym k) in
        let host = host_or_empty parts in
        let f = url_rule_matches net s url host in
        let a = any_or_raise-All f (RuleFits net url host) (rule_means url host) s.exclude in
        let b = any_or_raise-First f (RuleFits net url host) (rule_means url host) s.include in
        let (c, d) = denied_first (any_or_raise f s.exclude) (any_or_raise f s.include) j in
        (url, parts, e, p, a.0 c, b.0 d),
    λ (url, parts, e, p, c, d).
        let host = host_or_empty parts in
        let f = url_rule_matches net s url host in
        let a = any_or_raise-All f (RuleFits net url host) (rule_means url host) s.exclude in
        let b = any_or_raise-First f (RuleFits net url host) (rule_means url host) s.include in
        rw (e, p, a.1 c, b.1 d) refl,
  )
    where
      denied_first :
          (x y : Result Bool) → deny_first net x y ≡ ok true → (x ≡ ok false) × (y ≡ ok true)
      denied_first (ok true) y h = absurd (cc h)
      denied_first (ok false) y h = (refl, h)
      denied_first (err e) y h = absurd (cc h)
