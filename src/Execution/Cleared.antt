-- ===== src/Execution/Cleared.antt =====
-- src/secopent/application/execution.py: what holds of a run whose jobs were drained.
use sec_opent.Prelude.{
  Bool, true, false, not, String, List, [], ◌∷◌, All, if◌then◌else◌, Bool-cases, ◌≡◌, ◌≢◌, inl, inr,
  refl, sym, ap, ◌∙◌,
}
use sec_opent.Prelude.Text.{Text}
use sec_opent.Prelude.Raises.{Result, ok, Result-cases}
use sec_opent.Prelude.Action.{◌>>=◌, ◌>>◌, lift, pure, >>=-ok, >>=-err}
use sec_opent.Risk.{PolicyDecision}
use sec_opent.Scope.{ScopeSnapshot}
use sec_opent.Execution.{World, Env, Method, audit_record, fail_run, formatted}
use sec_opent.Execution.Targets.{egress_check, scope_check, block, check_targets}
use sec_opent.Execution.Still.{
  Still, Still->>=, Still-err, Still-ok, with_state, pure-Still, lift-Still, block-Still,
}

-- Either nothing was run, or `C` holds.
pub data Guarded (C : Type 0) {A : Type 0} (m : Method A) (w : World) : Type 0 where
  still : Still m w → Guarded C m w
  held : C → Guarded C m w

module _ {C A B : Type 0} (m : Method A) (f : A → Method B) (w : World) (s : Still m w) where
  Guarded-ok : (a : A) → (m w).0 ≡ ok a → Guarded C (f a) (m w).1 → Guarded C (m >>= f) w
  Guarded-ok a h (still x) = still (Still-ok m f w s a h x)
  Guarded-ok a h (held c) = held c

  pub Guarded->>= : ((a : A) → (m w).0 ≡ ok a → Guarded C (f a) (m w).1) → Guarded C (m >>= f) w
  Guarded->>= k = elim (Result-cases (m w).0) [
    | inl (a, h) ↦ Guarded-ok a h (k a h)
    | inr (e, h) ↦ still (Still-err m f w s e h)
  ]

pub Guarded->> :
    {C A B : Type 0} (m : Method A) (n : Method B) (w : World)
    → Still m w
    → Guarded C n (m w).1
    → Guarded C (m >> n) w
Guarded->> m n w s k = Guarded->>= m (λ a. n) w s (λ a h. k)

pub Guarded-if :
    {C A : Type 0} (b : Bool) (m n : Method A) (w : World)
    → (b ≡ true → Guarded C m w)
    → (b ≡ false → Guarded C n w)
    → Guarded C (if b then m else n) w
Guarded-if true m n w h k = h refl
Guarded-if false m n w h k = k refl

pub Still-if :
    {A : Type 0} (b : Bool) (m n : Method A) (w : World)
    → Still m w
    → Still n w
    → Still (if b then m else n) w
Still-if true m n w h k = h
Still-if false m n w h k = k

-- The branch that was taken.
chosen :
    {A : Type 0} {r : Result A} (b : Bool) (m n : Method A) (w : World)
    → b ≡ true
    → ((if b then m else n) w).0 ≡ r
    → (m w).0 ≡ r
chosen true m n w e h = h
chosen false m n w e h = absurd (cc)

other_chosen :
    {A : Type 0} {r : Result A} (b : Bool) (m n : Method A) (w : World)
    → b ≡ false
    → ((if b then m else n) w).0 ≡ r
    → (n w).0 ≡ r
other_chosen true m n w e h = absurd (cc)
other_chosen false m n w e h = h

-- How a block that returned went through its first call.
pub returned->>= :
    {A B : Type 0} {b : B} (m : Method A) (f : A → Method B) (w : World)
    → ((m >>= f) w).0 ≡ ok b
    → (a : A) × ((m w).0 ≡ ok a) × ((f a (m w).1).0 ≡ ok b)
returned->>= m f w h = elim (Result-cases (m w).0) [
  | inl (a, e) ↦ (a, e, sym (ap (λ r. r.0) (>>=-ok m f (with_state m w e))) ∙ h)
  | inr (x, e) ↦ absurd (cc (sym h ∙ ap (λ r. r.0) (>>=-err m f (with_state m w e))))
]

pub returned->> :
    {A B : Type 0} {b : B} (m : Method A) (n : Method B) (w : World)
    → ((m >> n) w).0 ≡ ok b
    → (n (m w).1).0 ≡ ok b
returned->> m n w h = let (a, e, k) = returned->>= m (λ a. n) w h in k

-- The check returned, and it allows.
abbrev pub Allows : Result PolicyDecision → Type 0
Allows r = (d : PolicyDecision) × (r ≡ ok d) × (d.allowed ≡ true)

abbrev pub TargetAllowed : Env → ScopeSnapshot → Text → Type 0
TargetAllowed env scope target =
    Allows (egress_check env scope target) × Allows (scope_check env scope true target)

block-false : (env : Env) (id action : String) (w : World) → (block env id action w).0 ≢ ok true
unfolding block
block-false env id action w h =
    let noted = audit_record env action id (formatted ("target" ∷ "reason" ∷ [])) in
    let no : Method Bool = pure false in
    let a = returned->> (fail_run id) (noted >> no) w h in
    let b = returned->> noted no (fail_run id w).1 a in cc b

module _ (env : Env) (id : String) (scope : ScopeSnapshot) where
  -- One target's turn.
  abbrev decide : Method Bool → PolicyDecision → Method Bool
  decide later d = if d.allowed then later else block env id "assessment.blocked.scope_violation"

  abbrev after_egress : Text → Method Bool → PolicyDecision → Method Bool
  after_egress target later e =
      if not e.allowed
      then block env id "assessment.blocked.egress_denied"
      else (lift (scope_check env scope true target) >>= decide later)

  abbrev turn : Text → Method Bool → Method Bool
  turn target later = lift (egress_check env scope target) >>= after_egress target later

  decided-Still :
      (later : Method Bool) (w : World) (d : PolicyDecision)
      → Still later w
      → Still (if d.allowed then later else block env id "assessment.blocked.scope_violation") w
  decided-Still later w d h = Still-if d.allowed _ _ w h (block-Still env id _ w)

  turn-Still :
      (target : Text) (later : Method Bool) (w : World)
      → Still later w
      → Still (turn target later) w
  turn-Still target later w h =
      Still->>= (lift (egress_check env scope target)) _ w (lift-Still _ w) (λ e.
        Still-if (not e.allowed) _ _ w (block-Still env id _ w) (
          Still->>= (lift (scope_check env scope true target)) _ w (lift-Still _ w)
            (λ d. decided-Still later w d h)))

  turn-true :
      (target : Text) (later : Method Bool) (w : World)
      → (turn target later w).0 ≡ ok true
      → TargetAllowed env scope target × ((later w).0 ≡ ok true)
  turn-true target later w h =
      let (e, i, k) =
        returned->>= (lift (egress_check env scope target)) (after_egress target later) w h in
      elim (Bool-cases e.allowed) [
        | inr f ↦ absurd (
            block-false env id _ w (
              chosen (not e.allowed) (block env id "assessment.blocked.egress_denied")
                (lift (scope_check env scope true target) >>= decide later) w (rw f refl) k))
        | inl t ↦
            let l =
              other_chosen (not e.allowed) (block env id "assessment.blocked.egress_denied")
                (lift (scope_check env scope true target) >>= decide later) w (rw t refl) k in
            let (d, j, n) =
              returned->>= (lift (scope_check env scope true target)) (decide later) w l in
            elim (Bool-cases d.allowed) [
              | inr g ↦ absurd (
                  block-false env id _ w (
                    other_chosen d.allowed later (block env id "assessment.blocked.scope_violation")
                      w g n))
              | inl g ↦ (
                ((e, i, t), (d, j, g)),
                chosen d.allowed later (block env id "assessment.blocked.scope_violation") w g n,
              )
            ]
      ]

  pub check_targets-Still :
      (targets : List Text) (w : World) → Still (check_targets env id scope true targets) w
  unfolding check_targets
  check_targets-Still [] w = pure-Still true w
  check_targets-Still (t ∷ ts) w = turn-Still t _ w (check_targets-Still ts w)

  pub check_targets-TargetAllowed :
      (targets : List Text) (w : World)
      → (check_targets env id scope true targets w).0 ≡ ok true
      → All (TargetAllowed env scope) targets
  unfolding check_targets
  check_targets-TargetAllowed [] w h = tt
  check_targets-TargetAllowed (t ∷ ts) w h =
      let (a, k) = turn-true t (check_targets env id scope true ts) w h in
      (a, check_targets-TargetAllowed ts w k)
