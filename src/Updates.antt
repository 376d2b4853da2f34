-- ===== src/Updates.antt =====
-- src/secopent/domain/updates/models.py and application/updates.py: update bundles, staged, verified
-- and activated behind a repository that is given by its operations.
pub mod Manager
pub mod Activation
use sec_opent.Prelude.{
  Bool, true, false, ◌||◌, Option, none, some, String, List, if◌then◌else◌, ◌==◌, string_eq,
}
use sec_opent.Prelude.Text.{Text, is_empty}
use sec_opent.Prelude.Dict.{Dict}
use sec_opent.Prelude.Raises.{Error, Result, ok, err, validation, lookup_failed, or_raise, ◌>>=◌}
use sec_opent.Prelude.Action.{Action}

-- The values of a payload are kept as texts.
pub record UpdateBundle : Type 0 where
  pub bundle_id : String
  pub version : String
  pub schema_version : String
  pub payload : Dict Text
  pub digest : Text

-- `UpdateBundle.create`, with the digest of the fields.
unfoldable pub create_bundle :
    (String → String → String → Dict Text → Text)
    → String
    → String
    → String
    → Dict Text
    → Result UpdateBundle
create_bundle digest_of bundle_id version schema_version payload =
    if is_empty bundle_id || is_empty version || is_empty schema_version
    then err (validation "bundle_id, version, schema_version must not be empty")
    else ok (record {
      bundle_id = bundle_id;
      version = version;
      schema_version = schema_version;
      payload = payload;
      digest = digest_of bundle_id version schema_version payload;
    })

-- The port `BundleRepository` over a state `S`; each operation may raise.
pub record BundleRepository (S : Type 0) : Type 0 where
  pub stage : UpdateBundle → Text → Action S (Unit {0})
  pub activate : String → Action S (Unit {0})
  pub active : S → Option String
  pub rollback_to_previous : Action S (Option String)

-- What the manager is built with: the repository, the Ed25519 check of a bundle and a signature under
-- the public key, the bytes and the signature that a source gives, and the keys of the JSON document
-- in these bytes, each `none` when it is missing (`none` at all when they are no JSON).
pub record Env (S : Type 0) : Type 0 where
  pub repo : BundleRepository S
  pub verify : UpdateBundle → Text → Bool
  pub fetch : String → Result (Text × Text)
  pub parse : Text → Option (Option String × Option String × Option String × Dict Text)
  pub digest_of : String → String → String → Dict Text → Text
  pub expected_schema : String

-- The repository, and the actions that the audit service has recorded with their bundles, the latest
-- first. The audit service is taken not to raise.
pub record World (S : Type 0) : Type 0 where
  pub state : S
  pub log : List (String × String)

pub record SyncResult : Type 0 where
  pub bundle_id : String
  pub version : String
  pub digest : Text
  pub previous_bundle_id : Option String

abbrev pub same_id : Option String → Option String → Bool
same_id none none = true
same_id none (some b) = false
same_id (some a) none = false
same_id (some a) (some b) = a == b

module _ {S : Type 0} (env : Env S) where
  -- `_fetch`
  unfoldable pub fetch_bundle : String → Result (UpdateBundle × Text)
  fetch_bundle source = do
    fetched ← env.fetch source
    doc ← or_raise (env.parse fetched.0) (validation "bundle bytes are not valid JSON: ")
    bundle_id ← or_raise doc.0 (lookup_failed "bundle_id")
    version ← or_raise doc.1 (lookup_failed "version")
    schema_version ← or_raise doc.2 (lookup_failed "schema_version")
    bundle ← create_bundle env.digest_of bundle_id version schema_version doc.3
    ok (bundle, fetched.1)

  -- The bundle, injected or fetched, with the signature that the source gives.
  unfoldable pub obtain : String → Option UpdateBundle → Result (UpdateBundle × Text)
  obtain source none = fetch_bundle source
  obtain source (some bundle) = do fetched ← env.fetch source; ok (bundle, fetched.1)
