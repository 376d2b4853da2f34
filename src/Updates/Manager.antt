-- ===== src/Updates/Manager.antt =====
-- src/secopent/application/updates.py: `UpdateManager`.
use sec_opent.Prelude.{not, Option, none, some, String, ◌∷◌, if◌then◌else◌, ◌==◌, string_eq}
use sec_opent.Prelude.Text.{Text}
use sec_opent.Prelude.Raises.{Error, ok, err, validation, other_error}
use sec_opent.Prelude.Action.{Action, ◌>>=◌, ◌>>◌, lift, pure}
use sec_opent.Updates.{UpdateBundle, Env, World, SyncResult, same_id, obtain}

module _ {S : Type 0} (env : Env S) where
  unfoldable pub on_repo : {A : Type 0} → Action S A → Action (World S) A
  on_repo m w = let (r, s) = m w.state in (r, record w { state = s })

  unfoldable pub note : String → String → Action (World S) (Unit {0})
  note action id w = (ok tt, record w { log = (action, id) ∷ w.log })

  -- A rejection is noted and raised.
  unfoldable pub reject : {A : Type 0} → String → Error → Action (World S) A
  reject id e w = (err e, (note "update.rejected" id w).1)

  -- The `except` of the activation: the old pointer is restored if it was moved.
  unfoldable pub restore : Option String → Action (World S) (Unit {0})
  restore none w = (ok tt, w)
  restore (some previous) w =
      if same_id (env.repo.active w.state) (some previous)
      then (ok tt, w)
      else on_repo (env.repo.activate previous) w

  unfoldable pub recover : String → Option String → Error → Action (World S) (Unit {0})
  recover id previous e w =
      let (r, w') = restore previous w in elim r [ ok u ↦ reject id e w' | err x ↦ (err x, w') ]

  unfoldable pub activate : String → Option String → Action (World S) (Unit {0})
  activate id previous w =
      let (r, w') = on_repo (env.repo.activate id) w in
      elim r [ ok u ↦ (ok tt, w') | err e ↦ recover id previous e w' ]

  -- Steps 4 to 6 of `sync`. The diff goes into the audit payload alone, and
  -- its read of the former bundle is taken not to raise.
  unfoldable pub install : UpdateBundle → Option String → Action (World S) SyncResult
  install b previous = do
    note "update.synced" b.bundle_id
    activate b.bundle_id previous
    note "update.activated" b.bundle_id
    pure (record {
      bundle_id = b.bundle_id;
      version = b.version;
      digest = b.digest;
      previous_bundle_id = previous;
    })

  -- Steps 1 and 2: the signature and the schema, and then the rest.
  unfoldable pub admit : UpdateBundle → Text → Option String → Action (World S) SyncResult
  admit b signature previous =
      if not (env.verify b signature)
      then reject b.bundle_id (validation "signature verification failed for bundle ")
      else if not (b.schema_version == env.expected_schema)
      then reject b.bundle_id (validation "schema version mismatch: bundle=")
      else install b previous

  -- The active pointer is read before the bundle is staged.
  unfoldable pub stage_and_admit : UpdateBundle → Text → Action (World S) SyncResult
  stage_and_admit b signature w =
      (do on_repo (env.repo.stage b signature); admit b signature (env.repo.active w.state)) w

  unfoldable pub sync : String → Option UpdateBundle → Action (World S) SyncResult
  sync source injected = do
    obtained ← lift (obtain env source injected)
    stage_and_admit obtained.0 obtained.1

  -- `rollback` once the repository has answered; nothing restored is a RuntimeError.
  unfoldable pub rolled_back : Option String → Action (World S) String
  rolled_back none = lift (err (other_error 0))
  rolled_back (some id) = do note "update.rolled_back" id; pure id

  unfoldable pub rollback : Action (World S) String
  rollback = do restored ← on_repo env.repo.rollback_to_previous; rolled_back restored
