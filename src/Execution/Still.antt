-- ===== src/Execution/Still.antt =====
-- src/secopent/application/execution.py: the parts of a run that leave the jobs and the count of the
-- runner's calls alone.
use sec_opent.Prelude.{
  true, false, Option, none, some, String, ◌∷◌, Bool-cases, ◌≡◌, inl, inr, refl, ap, ◌∙◌,
}
use sec_opent.Prelude.Dict.{lookup}
use sec_opent.Prelude.Raises.{Error, Result, ok, err, Result-cases}
use sec_opent.Permits.{check_permit, issue}
use sec_opent.Safety.{record_issued, record_used}
use sec_opent.Prelude.Raises.{or_raise}
use sec_opent.Prelude.Action.{Action, ◌>>=◌, ◌>>◌, lift, pure, require, >>=-ok, >>=-err}
use sec_opent.Service.{Store}
use sec_opent.Execution.{World, Env, Method, on_store, chain_record, audit_record, fail_run}
use sec_opent.Execution.Permit.{
  issue_permit, verify_permit, record_nonce, on_registry, new_permit, settle, verdict,
}
use sec_opent.Execution.Targets.{block}
use sec_opent.Execution.Assess.{note_nft, load_plan, apply_nft, stopped}

-- The jobs and the count of the runner's calls are as before.
pub record Still {A : Type 0} (m : Method A) (w : World) : Type 0 where
  pub at : (m w).1.machine ≡ w.machine

-- An answer without its state.
abbrev pub with_state :
    {A : Type 0} (m : Method A) (w : World) {r : Result A} → (m w).0 ≡ r → m w ≡ (r, (m w).1)
with_state m w h = λ i. (h i, (m w).1)

module _ {A B : Type 0} (m : Method A) (f : A → Method B) (w : World) (s : Still m w) where
  pub Still-err : (e : Error) → (m w).0 ≡ err e → Still (m >>= f) w
  Still-err e h = record { at = ap (λ r. r.1.machine) (>>=-err m f (with_state m w h)) ∙ s.at }

  pub Still-ok : (a : A) → (m w).0 ≡ ok a → Still (f a) (m w).1 → Still (m >>= f) w
  Still-ok a h x = record {
    at = ap (λ r. r.1.machine) (>>=-ok m f (with_state m w h)) ∙ x.at ∙ s.at;
  }

  pub Still->>= : ((a : A) → Still (f a) (m w).1) → Still (m >>= f) w
  Still->>= k = elim (Result-cases (m w).0) [
    | inl (a, h) ↦ Still-ok a h (k a)
    | inr (e, h) ↦ Still-err e h
  ]

pub Still->> :
    {A B : Type 0} (m : Method A) (n : Method B) (w : World)
    → Still m w
    → Still n (m w).1
    → Still (m >> n) w
Still->> m n w s k = Still->>= m (λ a. n) w s (λ a. k)

pub Still-option :
    {X A : Type 0} (o : Option X) (m : Method A) (f : X → Method A) (w : World)
    → Still m w
    → ((x : X) → Still (f x) w)
    → Still (elim o [ none ↦ m | some x ↦ f x ]) w
Still-option none m f w h k = h
Still-option (some x) m f w h k = k x

pub on_store-Still : {A : Type 0} (m : Action Store A) (w : World) → Still (on_store m) w
unfolding on_store
on_store-Still m w = record { at = refl }

pub lift-Still : {A : Type 0} (r : Result A) (w : World) → Still (lift r) w
lift-Still r w = record { at = refl }

pub chain_record-Still :
    (env : Env) (action id : String) (payload : _) (w : World)
    → Still (chain_record env action id payload) w
unfolding chain_record
chain_record-Still env action id payload w = elim (Bool-cases env.has_chain) [
  | inl e ↦ record { at = rw e refl }
  | inr e ↦ record { at = rw e refl }
]

pub audit_record-Still :
    (env : Env) (action id : String) (payload : _) (w : World)
    → Still (audit_record env action id payload) w
unfolding audit_record chain_record
audit_record-Still env action id payload w = elim (Bool-cases env.has_outbox) [
  | inl e ↦ record { at = rw e refl }
  | inr e ↦
      let x = chain_record-Still env action id payload (record w { log = action ∷ w.log }) in
      record { at = rw e x.at }
]

pub fail_run-Still : (id : String) (w : World) → Still (fail_run id) w
unfolding fail_run
fail_run-Still id w = on_store-Still _ w

pub pure-Still : {A : Type 0} (a : A) (w : World) → Still (pure a) w
pure-Still a w = record { at = refl }

pub block-Still : (env : Env) (id action : String) (w : World) → Still (block env id action) w
unfolding block
block-Still env id action w = Still->> (fail_run id) _ w (fail_run-Still id w) (
    Still->> (audit_record env action id _) _ _ (audit_record-Still env action id _ _)
      (pure-Still false _))

pub stopped-Still : (env : Env) (id : String) (w : World) → Still (stopped env id) w
unfolding stopped
stopped-Still env id w =
    Still->> (fail_run id) _ w (fail_run-Still id w) (audit_record-Still env _ id _ _)

pub on_registry-Still : (env : Env) (f : _) (w : World) → Still (on_registry env f) w
on_registry-Still env f w = elim (Bool-cases env.has_registry) [
  | inl e ↦ record { at = rw e refl }
  | inr e ↦ record { at = rw e refl }
]

pub issue_permit-Still :
    (env : Env) (id sd pd : String) (w : World) → Still (issue_permit env id sd pd) w
unfolding issue_permit
issue_permit-Still env id sd pd w = Still-option env.signer _ _ w (pure-Still none w) (λ keys.
    Still->>= (lift (check_permit (new_permit env id sd pd))) _ w (lift-Still _ w) (λ permit.
      Still->> (on_registry env (record_issued permit.nonce false)) _ w (on_registry-Still env _ w)
        (pure-Still (some (issue keys permit)) _)))

pub settle-Still :
    (env : Env) (id : String) (p : _) (r : _) (w : World) → Still (settle env id p r) w
unfolding settle
settle-Still env id p (ok u) w =
    Still->> (on_registry env (record_used p.nonce)) (pure true) w (on_registry-Still env _ w)
      (pure-Still true _)
settle-Still env id p (err e) w =
    Still->> (fail_run id) _ w (fail_run-Still id w) (
      Still->> (audit_record env _ id _) _ _ (audit_record-Still env _ id _ _) (pure-Still false _))

pub verify_permit-Still :
    (env : Env) (id : String) (permit : _) (w : World) → Still (verify_permit env id permit) w
unfolding verify_permit
verify_permit-Still env id none w = pure-Still true w
verify_permit-Still env id (some p) w =
    Still-option env.verifier (pure true) (λ keys v. settle env id p (verdict env keys p v) v) w
      (pure-Still true w)
      (λ keys. record { at = (settle-Still env id p (verdict env keys p w) w).at })

pub record_nonce-Still :
    (env : Env) (id : String) (permit : _) (w : World) → Still (record_nonce env id permit) w
unfolding record_nonce
record_nonce-Still env id none w = record { at = refl }
record_nonce-Still env id (some p) w = elim (Bool-cases env.has_chain) [
  | inl e ↦ record { at = rw e refl }
  | inr e ↦ record { at = rw e refl }
]

pub load_plan-Still : (env : Env) (id : String) (w : World) → Still (load_plan env id) w
unfolding load_plan
load_plan-Still env id w =
    Still->>= (require (λ v. lookup id v.store.assessments) _) _ w (record { at = refl })
      (λ a. Still->>= (lift (or_raise a.active_plan_id _)) _ w (lift-Still _ w) (λ plan_id.
        Still->>= (require (λ v. lookup plan_id v.store.plans) _) _ w (record { at = refl })
          (λ plan.
            Still->>= (lift (or_raise (env.scopes a.scope_snapshot_id) _)) _ w (lift-Still _ w)
              (λ scope. pure-Still _ w))))

pub note_nft-Still : (env : Env) (id : String) (r : _) (w : World) → Still (note_nft env id r) w
unfolding note_nft
note_nft-Still env id (ok u) w = pure-Still tt w
note_nft-Still env id (err e) w = audit_record-Still env _ id _ w

pub apply_nft-Still : (env : Env) (id : String) (w : World) → Still (apply_nft env id) w
unfolding apply_nft
apply_nft-Still env id w =
    Still-option env.nft (pure tt) (note_nft env id) w (pure-Still tt w)
      (λ r. note_nft-Still env id r w)
