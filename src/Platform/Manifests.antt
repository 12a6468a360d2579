-- ===== src/Platform/Manifests.antt =====
-- container/platform/lib/contracts.mjs and artifact-contracts.mjs: the manifests of a release, of a
-- Bootstrap and of an Environment.
use dsh_docker.Prelude.{ℕ, List, [], ◌∷◌, ◌++◌, map, Option, none, some, Bool, false}
use dsh_docker.Prelude.Tests.{if◌then◌else◌}
use dsh_docker.Prelude.Lists.{any}
use dsh_docker.Prelude.Text.{Text, text_eq, starts_with, codes}
use dsh_docker.Prelude.Result.{Result, ok, err, ◌>>=◌, ◌>>◌, guard, traverse}
use dsh_docker.Platform.Contracts.{TrustError, invalid, is_sha256, is_version}
use dsh_docker.Platform.Values.{
  Value, Fields, get_field, plain_object, exact_keys, positive_safe_integer, string_with, is_number,
  list_of, all_distinct,
}
use dsh_docker.Platform.Node.{Node, iso_timestamp, parse_json_document}
use dsh_docker.Platform.Artifacts.{
  Descriptor, is_low_identifier, is_manifest_type, is_filled, parse_artifact_list,
}

pub record Manifest : Type 0 where
  pub manifest_type : Text
  pub version : Text
  pub keyring_generation : ℕ
  pub target_sequence : ℕ
  pub issued_at : Text
  pub artifacts : List Descriptor

pub record Resource : Type 0 where
  pub id : Text
  pub sha256 : Text

pub record BootstrapManifest : Type 0 where
  pub common : Manifest
  pub entrypoint : Text

pub record EnvironmentManifest : Type 0 where
  pub common : Manifest
  pub components : List Resource
  pub patches : List Resource
  pub system_plugins : List Resource

abbrev pub common_keys : List Text
common_keys =
    codes "artifacts"
    ∷ codes "issuedAt"
    ∷ codes "keyringGeneration"
    ∷ codes "manifestType"
    ∷ codes "schema"
    ∷ codes "targetSequence"
    ∷ codes "version"
    ∷ []

abbrev pub bootstrap_keys : List Text
bootstrap_keys = codes "bootstrapApi" ∷ codes "entrypoint" ∷ []

abbrev pub environment_keys : List Text
environment_keys =
    codes "bootstrapApi" ∷ codes "components" ∷ codes "patches" ∷ codes "systemPlugins" ∷ []

-- `object.manifestType === text`
abbrev pub is_string : Text → Value → Bool
unfolding text_eq
is_string t (Value.string u) = text_eq u t
is_string t _ = false

unfoldable pub specific_keys : Value → List Text
specific_keys v =
    if is_string (codes "bootstrap") v
    then bootstrap_keys
    else if is_string (codes "environment") v
    then environment_keys
    else []

-- `manifest.artifacts.find(candidate => candidate.sha256 === reference.sha256)`
unfoldable pub find_artifact : List Descriptor → Text → Option Descriptor
unfolding text_eq
find_artifact [] sha256 = none
find_artifact (a ∷ rest) sha256 =
    let found = find_artifact rest sha256 in if text_eq a.sha256 sha256 then some a else found

unfoldable pub artifact_for_reference : Manifest → Resource → Result TrustError Descriptor
unfolding find_artifact
artifact_for_reference manifest reference =
    elim (find_artifact manifest.artifacts reference.sha256) [
      | none ↦ err (invalid reference.id)
      | some a ↦ ok a
    ]

unfoldable pub ordered_reference : List Descriptor → Value → Result TrustError Resource
unfolding plain_object exact_keys get_field string_with is_sha256 is_low_identifier text_eq
ordered_reference artifacts entry = do
  object ← plain_object entry (codes "reference")
  exact_keys object (codes "id" ∷ codes "sha256" ∷ []) (codes "reference")
  sha256 ← string_with is_sha256 (get_field object (codes "sha256")) (codes "sha256")
  guard (any (λ (a : Descriptor). text_eq a.sha256 sha256) artifacts) (invalid (codes "missing"))
  id ← string_with is_low_identifier (get_field object (codes "id")) (codes "id")
  ok (record { id = id; sha256 = sha256 })

unfoldable pub ordered_references :
    Value → List Descriptor → Text → Result TrustError (List Resource)
unfolding list_of ordered_reference all_distinct
ordered_references value artifacts label = do
  entries ← list_of value label
  result ← traverse (ordered_reference artifacts) entries
  guard (all_distinct (map (λ (r : Resource). r.id) result)) (invalid label)
  ok result

abbrev pub is_absolute : Text → Bool
unfolding starts_with
is_absolute t = starts_with t (codes "/")

module _ (node : Node) where
  unfoldable pub parse_release_manifest : Text → Result TrustError Manifest
  unfolding parse_json_document exact_keys specific_keys get_field is_number string_with
      is_manifest_type positive_safe_integer iso_timestamp parse_artifact_list
  parse_release_manifest bytes = do
    object ← parse_json_document node bytes (codes "release manifest")
    exact_keys object (common_keys ++ specific_keys (get_field object (codes "manifestType")))
        (codes "release manifest")
    guard (is_number 1 (get_field object (codes "schema"))) (invalid (codes "schema"))
    manifest_type ←
        string_with is_manifest_type (get_field object (codes "manifestType"))
          (codes "manifestType")
    version ← string_with is_filled (get_field object (codes "version")) (codes "version")
    keyring_generation ←
        positive_safe_integer (get_field object (codes "keyringGeneration"))
          (codes "keyringGeneration")
    target_sequence ←
        positive_safe_integer (get_field object (codes "targetSequence")) (codes "targetSequence")
    issued_at ← iso_timestamp node (get_field object (codes "issuedAt")) (codes "issuedAt")
    artifacts ← parse_artifact_list node (get_field object (codes "artifacts")) (codes "artifacts")
    ok (record {
      manifest_type = manifest_type;
      version = version;
      keyring_generation = keyring_generation;
      target_sequence = target_sequence;
      issued_at = issued_at;
      artifacts = artifacts;
    })

  -- The document too, of which further fields are read.
  unfoldable pub parse_common_manifest : Text → Text → Result TrustError (Fields × Manifest)
  unfolding parse_json_document get_field is_number string_with is_version text_eq
      positive_safe_integer iso_timestamp parse_artifact_list
  parse_common_manifest bytes expected = do
    object ← parse_json_document node bytes expected
    guard (is_number 1 (get_field object (codes "schema"))) (invalid (codes "schema"))
    guard (is_string expected (get_field object (codes "manifestType")))
        (invalid (codes "manifestType"))
    version ← string_with is_version (get_field object (codes "version")) (codes "version")
    keyring_generation ←
        positive_safe_integer (get_field object (codes "keyringGeneration"))
          (codes "keyringGeneration")
    target_sequence ←
        positive_safe_integer (get_field object (codes "targetSequence")) (codes "targetSequence")
    issued_at ← iso_timestamp node (get_field object (codes "issuedAt")) (codes "issuedAt")
    artifacts ← parse_artifact_list node (get_field object (codes "artifacts")) (codes "artifacts")
    ok (
      object,
      record {
        manifest_type = expected;
        version = version;
        keyring_generation = keyring_generation;
        target_sequence = target_sequence;
        issued_at = issued_at;
        artifacts = artifacts;
      },
    )

  unfoldable pub parse_bootstrap_manifest : Text → Result TrustError BootstrapManifest
  unfolding parse_common_manifest exact_keys get_field is_number string_with
  parse_bootstrap_manifest bytes = do
    (object, common) ← parse_common_manifest bytes (codes "bootstrap")
    exact_keys object (common_keys ++ bootstrap_keys) (codes "bootstrap manifest")
    guard (is_number 1 (get_field object (codes "bootstrapApi"))) (invalid (codes "bootstrapApi"))
    entrypoint ←
        string_with is_absolute (get_field object (codes "entrypoint")) (codes "entrypoint")
    ok (record { common = common; entrypoint = entrypoint })

  unfoldable pub parse_environment_manifest : Text → Result TrustError EnvironmentManifest
  unfolding parse_common_manifest exact_keys get_field is_number ordered_references
  parse_environment_manifest bytes = do
    (object, common) ← parse_common_manifest bytes (codes "environment")
    exact_keys object (common_keys ++ environment_keys) (codes "environment manifest")
    guard (is_number 1 (get_field object (codes "bootstrapApi"))) (invalid (codes "bootstrapApi"))
    components ←
        ordered_references (get_field object (codes "components")) common.artifacts
          (codes "components")
    patches ←
        ordered_references (get_field object (codes "patches")) common.artifacts (codes "patches")
    system_plugins ←
        ordered_references (get_field object (codes "systemPlugins")) common.artifacts
          (codes "systemPlugins")
    ok (record {
      common = common;
      components = components;
      patches = patches;
      system_plugins = system_plugins;
    })
