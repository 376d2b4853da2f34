-- ===== src/Tests/UpdatesOf.antt =====
-- A sync of a signed bundle at concrete inputs.
use sec_opent.Prelude.{Option, none, some, String, [], ◌∷◌, ◌==◌, refl}
use sec_opent.Prelude.Text.{codes, text_eq}
use sec_opent.Prelude.Raises.{ok}
use sec_opent.Updates.{
  UpdateBundle, BundleRepository, Env, World, create_bundle, fetch_bundle, obtain,
}
use sec_opent.Updates.Manager.{sync}
use sec_opent.Updates.Activation.{Lawful, Settled, sync-Settled}

-- A repository that keeps the pointer and the one before it.
abbrev repository : BundleRepository (Option String × Option String)
repository = record {
  stage = λ b t s. (ok tt, s);
  activate = λ id s. (ok tt, (some id, s.0));
  active = λ s. s.0;
  rollback_to_previous = λ s. (ok s.1, (s.1, none));
}

repository-Lawful : Lawful repository
repository-Lawful = record { staged = λ b t s. refl; activated = λ id s u h. refl }

abbrev bundle : UpdateBundle
bundle = record {
  bundle_id = "b2";
  version = "2";
  schema_version = "1";
  payload = ("cases", codes "c") ∷ [];
  digest = codes "b2";
}

abbrev env : Env (Option String × Option String)
env = record {
  repo = repository;
  verify = λ b s. s == codes "signed";
  fetch = λ source. ok (codes "{}", codes "signed");
  parse = λ bytes. some (some "b2", some "2", some "1", ("cases", codes "c") ∷ []);
  digest_of = λ id version schema payload. codes id;
  expected_schema = "1";
}

abbrev world : World (Option String × Option String)
world = record { state = (some "b1", none); log = [] }

sync-Settled_example :
    Settled env repository-Lawful bundle (codes "signed") world (sync env "source" none world)
unfolding obtain fetch_bundle create_bundle
sync-Settled_example =
    sync-Settled env repository-Lawful "source" none world bundle (codes "signed") refl
