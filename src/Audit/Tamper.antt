-- ===== src/Audit/Tamper.antt =====
-- src/secopent/domain/audit/models.py: what `verify_chain` says of two chains that end alike.
use sec_opent.Prelude.{
  true, String, List, [], ◌∷◌, length, ◌==◌, string_eq, ◌≡◌, ◌≢◌, refl, sym, ap, ◌∙◌, ◌⊎◌, inl, inr,
  arith, ℕ_discrete, Bool-cases,
}
use text.Mathlib.TextEquality.{eq_iff}
use sec_opent.Prelude.Text.{Text, text_eq, list_beq_iff}
use sec_opent.Audit.{
  AuditLib, Body, AuditEvent, remove_prefix, genesis_hash, full_hash, verify_from, verify_chain,
}
use sec_opent.Audit.Links.{Honest}

String-discrete : Discrete String
String-discrete a b = elim (Bool-cases (a == b)) [
  | inl e ↦ yes ((eq_iff a b).0 e)
  | inr e ↦ no (λ p. ground (arith, (eq_iff a b).1 p))
]

Body-discrete : Discrete Body
Body-discrete = hlevel (ℕ_discrete, String-discrete)

-- Two bodies with one digest.
pub record Collision (lib : AuditLib) : Type 0 where
  pub first : Body
  pub second : Body
  pub differ : first ≢ second
  pub same : lib.hex_digest first ≡ lib.hex_digest second

-- The bare hash of the last event.
abbrev pub end_hash : Text → List AuditEvent → Text
end_hash previous [] = previous
end_hash previous (e ∷ es) = end_hash (remove_prefix e.event_hash) es

module _ (lib : AuditLib) (honest : Honest lib) where
  -- What a verified chain says of its first event.
  verified_first :
      (p : Text) (e : AuditEvent) (es : List AuditEvent)
      → verify_from lib p (e ∷ es) ≡ true
      → (e.body.previous_hash ≡ remove_prefix p)
        × (e.event_hash ≡ full_hash lib e.body)
        × (verify_from lib (lib.hex_digest e.body) es ≡ true)
  unfolding verify_from
  verified_first p e es v =
      let k : ((e.body.previous_hash == remove_prefix p) ≡ true)
          × ((full_hash lib e.body == e.event_hash) ≡ true)
          × (verify_from lib (remove_prefix e.event_hash) es ≡ true) =
        ground arith in
      let f : full_hash lib e.body ≡ e.event_hash = (list_beq_iff _ _).0 k.1 in
      ((list_beq_iff _ _).0 k.0, sym f, ap (λ h. verify_from lib (remove_prefix h) es) f ∙ k.2)

  plain_digest : (b : Body) → remove_prefix (lib.hex_digest b) ≡ lib.hex_digest b
  plain_digest b = rw (honest.plain b) refl

  -- A verified event is fixed by its body.
  event_of_body :
      (x y : AuditEvent)
      → x.event_hash ≡ full_hash lib x.body
      → y.event_hash ≡ full_hash lib y.body
      → x.body ≡ y.body
      → x ≡ y
  event_of_body x y a b s =
      let h : x.event_hash ≡ y.event_hash = a ∙ ap (full_hash lib) s ∙ sym b in
      λ i. record { body = s i; event_hash = h i }

  same_end :
      (p q : Text) (xs ys : List AuditEvent)
      → verify_from lib p xs ≡ true
      → verify_from lib q ys ≡ true
      → length xs ≡ length ys
      → remove_prefix p ≡ p
      → remove_prefix q ≡ q
      → end_hash p xs ≡ end_hash q ys
      → ((xs ≡ ys) × (p ≡ q)) ⊎ Collision lib
  same_end p q [] [] v w n f g e = inl (refl, e)
  same_end p q [] (y ∷ ys) v w n f g e = absurd (omega arith)
  same_end p q (x ∷ xs) [] v w n f g e = absurd (omega arith)
  same_end p q (x ∷ xs) (y ∷ ys) v w n f g e =
      let a = verified_first p x xs v in
      let b = verified_first q y ys w in
      elim (same_end (lib.hex_digest x.body) (lib.hex_digest y.body) xs ys a.2 b.2 (omega arith)
        (plain_digest x.body) (plain_digest y.body)
        (ap (λ h. end_hash (remove_prefix h) xs) (sym a.1)
          ∙ e
          ∙ ap (λ h. end_hash (remove_prefix h) ys) b.1)) [
            | inr c ↦ inr c
            | inl (rest, digests) ↦ elim (Body-discrete x.body y.body) [
              | no n ↦ inr (record { first = x.body; second = y.body; differ = n; same = digests })
              | yes s ↦ inl (
                cc (event_of_body x y a.1 b.1 s),
                sym f ∙ sym a.0 ∙ ap Body.previous_hash s ∙ b.0 ∙ g,
              )
            ]
          ]

  -- Two chains of one length that both verify and end in the same hash are the same chain, event by
  -- event, unless two different bodies with one digest are at hand.
  pub verify_chain_unique :
      (xs ys : List AuditEvent)
      → verify_chain lib xs ≡ true
      → verify_chain lib ys ≡ true
      → length xs ≡ length ys
      → end_hash genesis_hash xs ≡ end_hash genesis_hash ys
      → (xs ≡ ys) ⊎ Collision lib
  verify_chain_unique xs ys v w n e =
      elim (same_end genesis_hash genesis_hash xs ys v w n refl refl e) [
        | inl s ↦ inl s.0
        | inr c ↦ inr c
      ]
