-- ===== src/Updates/Activation.antt =====
-- src/secopent/application/updates.py: only a verified bundle becomes active.
use sec_opent.Prelude.{
  true, Option, none, some, String, ◌∷◌, ◌==◌, string_eq, Bool-cases, ◌≡◌, ◌≢◌, ◌⊎◌, ◌↔◌, ap, refl,
  inl, inr, ◌∙◌, sym, subst, arith,
}
use text.Mathlib.TextEquality.{eq_iff}
use sec_opent.Prelude.Text.{Text}
use sec_opent.Prelude.Raises.{Error, Result, ok, err, validation, Result-cases}
use sec_opent.Updates.{UpdateBundle, BundleRepository, Env, World, SyncResult, same_id, obtain}
use sec_opent.Updates.Manager.{
  on_repo, note, reject, restore, recover, activate, install, admit, stage_and_admit, sync,
}

-- What the port promises: staging leaves the active pointer alone, also when it raises, and an
-- activation that returns has moved it to the bundle.
pub record Lawful {S : Type 0} (repo : BundleRepository S) : Type 0 where
  pub staged :
      (b : UpdateBundle) (t : Text) (s : S) → repo.active (repo.stage b t s).1 ≡ repo.active s
  pub activated :
      (id : String) (s : S) (u : Unit {0})
      → (repo.activate id s).0 ≡ ok u
      → repo.active (repo.activate id s).1 ≡ some id

module _ {S : Type 0} (env : Env S) (law : Lawful env.repo) where
  abbrev pub active : World S → Option String
  active w = env.repo.active w.state

  same_id_iff : (a : Option String) (p : String) → (same_id a (some p) ≡ true) ↔ (a ≡ some p)
  same_id_iff none p = (λ h. absurd (cc h), λ h. absurd (cc h))
  same_id_iff (some a) p = (λ h. ap some ((eq_iff a p).0 h), λ h. ground (arith, h, eq_iff a p))

  -- The check that a bundle passes.
  abbrev pub Verified : UpdateBundle → Text → Type 0
  Verified b signature = (env.verify b signature ≡ true) × (b.schema_version ≡ env.expected_schema)

  Verified-cases :
      (b : UpdateBundle) (signature : Text) (previous : Option String) (w : World S)
      → ((Verified b signature → ⊥)
          × ((e : Error) × ((admit env b signature previous w).0 ≡ err e))
          × (active (admit env b signature previous w).1 ≡ active w))
        ⊎ (Verified b signature × (admit env b signature previous w ≡ install env b previous w))
  unfolding admit reject note
  Verified-cases b signature previous w = elim (Bool-cases (env.verify b signature)) [
    | inr f ↦ inl (
      λ good. cc (good.0, f),
      (validation "signature verification failed for bundle ", ground (arith, f)),
      ground (arith, f),
    )
    | inl t ↦ elim (Bool-cases (b.schema_version == env.expected_schema)) [
      | inr f ↦ inl (
        λ good. cc ((eq_iff b.schema_version env.expected_schema).1 good.1, f),
        (validation "schema version mismatch: bundle=", ground (arith, t, f)),
        ground (arith, t, f),
      )
      | inl s ↦ inr ((t, (eq_iff b.schema_version env.expected_schema).0 s), ground (arith, t, s))
    ]
  ]

  -- What becomes of the pointer when the activation of a verified bundle raised `e` and left `moved`: the
  -- pointer is as it was, or there was none before and nothing is taken back, and `e` is raised; or the
  -- pointer had moved and restoring it raised in its turn.
  abbrev pub Recovered : Error → S → Option String → Result SyncResult × World S → Type 0
  Recovered e moved previous after =
      ((after.0 ≡ err e)
        × ((active after.1 ≡ previous)
            ⊎ ((previous ≡ none) × (active after.1 ≡ env.repo.active moved))))
      ⊎ ((p : String) × (x : Error) × (previous ≡ some p)
          × (env.repo.active moved ≢ some p)
          × ((env.repo.activate p moved).0 ≡ err x)
          × (after.0 ≡ err x))

  -- How an attempt on a bundle ends, by what the repository and the check of the bundle answer.
  abbrev pub Settled : UpdateBundle → Text → World S → Result SyncResult × World S → Type 0
  Settled b signature w after =
      let staged = env.repo.stage b signature w.state in
      let activated = env.repo.activate b.bundle_id staged.1 in
      ((e : Error) × (staged.0 ≡ err e) × (after.0 ≡ err e) × (active after.1 ≡ active w))
      ⊎ ((staged.0 ≡ ok tt)
          × (((Verified b signature → ⊥)
                × ((e : Error) × (after.0 ≡ err e))
                × (active after.1 ≡ active w))
              ⊎ (Verified b signature
                  × (((activated.0 ≡ ok tt)
                        × (r : SyncResult) × (after.0 ≡ ok r)
                        × (active after.1 ≡ some b.bundle_id)
                        × (r.bundle_id ≡ b.bundle_id)
                        × (r.previous_bundle_id ≡ active w))
                      ⊎ ((e : Error) × (activated.0 ≡ err e)
                          × Recovered e activated.1 (active w) after)))))

  restored :
      (id : String) (previous : Option String) (e : Error) (v : World S)
      → let after = recover env id previous e v in
        ((after.0 ≡ err e)
          × ((active after.1 ≡ previous) ⊎ ((previous ≡ none) × (active after.1 ≡ active v))))
        ⊎ ((p : String) × (x : Error) × (previous ≡ some p)
            × (active v ≢ some p)
            × ((env.repo.activate p v.state).0 ≡ err x)
            × (after.0 ≡ err x))
  unfolding recover restore reject note on_repo
  restored id none e v = inl (refl, inr (refl, refl))
  restored id (some p) e v = elim (Bool-cases (same_id (active v) (some p))) [
    | inl t ↦ inl (ground (arith, t), inl (ground (arith, t, (same_id_iff (active v) p).0 t)))
    | inr f ↦ elim (Result-cases (env.repo.activate p v.state).0) [
      | inl (u, k) ↦
          inl (ground (arith, f, k), inl (ground (arith, f, k, law.activated p v.state u k)))
      | inr (x, k) ↦
          inr (p, x, refl, λ q. cc ((same_id_iff (active v) p).1 q, f), k, ground (arith, f, k))
    ]
  ]

  installed :
      (b : UpdateBundle) (previous : Option String) (v : World S)
      → let activated = env.repo.activate b.bundle_id v.state in
        let after = install env b previous v in
        ((activated.0 ≡ ok tt)
          × (r : SyncResult) × (after.0 ≡ ok r)
          × (active after.1 ≡ some b.bundle_id)
          × (r.bundle_id ≡ b.bundle_id)
          × (r.previous_bundle_id ≡ previous))
        ⊎ ((e : Error) × (activated.0 ≡ err e) × Recovered e activated.1 previous after)
  unfolding install activate note on_repo
  installed b previous v = elim (Result-cases (env.repo.activate b.bundle_id v.state).0) [
    | inl (u, k) ↦ inl (
      k,
      record {
        bundle_id = b.bundle_id;
        version = b.version;
        digest = b.digest;
        previous_bundle_id = previous;
      },
      ground (arith, k),
      ground (arith, k, law.activated b.bundle_id v.state u k),
      refl,
      refl,
    )
    | inr (e, k) ↦
        let n : World S = record v { log = ("update.synced", b.bundle_id) ∷ v.log } in
        let m : World S = record n { state = (env.repo.activate b.bundle_id v.state).1 } in
        inr (
          e,
          k,
          elim (restored b.bundle_id previous e m) [
            | inl (a, c) ↦ inl (
              ground (arith, k, a),
              elim c [
                | inl d ↦ inl (ground (arith, k, a, d))
                | inr (n0, d) ↦ inr (n0, ground (arith, k, a, d))
              ],
            )
            | inr (p, x, q, d, j, a) ↦ inr (p, x, q, d, j, ground (arith, k, a))
          ],
        )
  ]

  staged :
      (b : UpdateBundle) (signature : Text) (w : World S)
      → Settled b signature w (stage_and_admit env b signature w)
  unfolding stage_and_admit on_repo
  staged b signature w =
      let v : World S = record w { state = (env.repo.stage b signature w.state).1 } in
      let same : active v ≡ active w = law.staged b signature w.state in
      elim (Result-cases (env.repo.stage b signature w.state).0) [
        | inr (e, k) ↦ inl (e, k, ground (arith, k), ground (arith, k, same))
        | inl (u, k) ↦ inr (
          k,
          let goes : stage_and_admit env b signature w ≡ admit env b signature (active w) v =
                ground (arith, k) in
              elim (Verified-cases b signature (active w) v) [
                | inl (bad, (e, a), kept) ↦
                    inl (bad, (e, ground (arith, goes, a)), ap (λ r. active r.1) goes ∙ kept ∙ same)
                | inr (good, j) ↦ inr (
                  good,
                  subst
                      (λ r.
                        (((env.repo.activate b.bundle_id v.state).0 ≡ ok tt)
                          × (x : SyncResult) × (r.0 ≡ ok x)
                          × (active r.1 ≡ some b.bundle_id)
                          × (x.bundle_id ≡ b.bundle_id)
                          × (x.previous_bundle_id ≡ active w))
                        ⊎ ((e : Error) × ((env.repo.activate b.bundle_id v.state).0 ≡ err e)
                            × Recovered e (env.repo.activate b.bundle_id v.state).1 (active w) r))
                      (sym (goes ∙ j)) (installed b (active w) v),
                )
              ],
        )
      ]

  -- Over a lawful repository, `sync` of a bundle that was obtained ends in one of these ways. If staging
  -- raises, that error is raised. If the bundle is not verified, an error is raised. In both cases the active
  -- pointer stays. If it is verified and the repository's activation returns, `sync` returns the bundle's id
  -- and the pointer before, and the bundle is active. If the activation raises, `sync` raises the same error,
  -- with the pointer as before, or wherever the repository left it if there was none before; or the pointer
  -- had moved, and restoring it raised another error, which is then raised.
  pub sync-Settled :
      (source : String) (injected : Option UpdateBundle) (w : World S) (b : UpdateBundle)
      (signature : Text)
      → obtain env source injected ≡ ok (b, signature)
      → Settled b signature w (sync env source injected w)
  unfolding sync
  sync-Settled source injected w b signature h =
      subst (Settled b signature w) {x = stage_and_admit env b signature w}
        {y = sync env source injected w} (ground (arith, h)) (staged b signature w)
