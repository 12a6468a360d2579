-- ===== src/Platform/Stable.antt =====
-- container/platform/lib/contracts.mjs: the release target, `parseStable`.
use dsh_docker.Prelude.{
  ℕ, List, [], ◌∷◌, map, Option, none, some, Bool, true, false, ◌&&◌, ◌||◌, not,
}
use dsh_docker.Prelude.Tests.{leb, ◌==◌}
use dsh_docker.Prelude.Lists.{length}
use dsh_docker.Prelude.Text.{Text, text_eq, starts_with, codes}
use dsh_docker.Prelude.Result.{Result, ok, ◌>>=◌, ◌>>◌, guard, traverse}
use dsh_docker.Platform.Contracts.{
  TrustError, invalid, all_chars, is_alphanumeric, is_version, after,
}
use dsh_docker.Platform.Values.{
  Value, get_field, plain_object, exact_keys, positive_safe_integer, string_with, is_number,
  list_of, all_distinct, includes,
}
use dsh_docker.Platform.Node.{Node, iso_timestamp, parse_json_document}
use dsh_docker.Platform.Artifacts.{Descriptor, is_low_identifier, parse_artifact_list}

pub record Reference : Type 0 where
  pub version : Text
  pub manifest_artifact_id : Text
  pub signature_artifact_id : Text

pub record DshReference : Type 0 where
  pub version : Text
  pub integrity : Text

-- A key that never expires has no end.
pub record RegistryKey : Type 0 where
  pub key_id : Text
  pub public_key : Text
  pub expires : Option Text

pub record Policy : Type 0 where
  pub registry : Text
  pub package_name : Text
  pub keys : List RegistryKey

pub record Stable : Type 0 where
  pub keyring_generation : ℕ
  pub target_sequence : ℕ
  pub issued_at : Text
  pub artifacts : List Descriptor
  pub bootstrap : Reference
  pub environment : Reference
  pub dsh : DshReference
  pub policy : Policy

unfoldable pub exact_reference : Value → Result TrustError Reference
unfolding plain_object exact_keys get_field string_with is_low_identifier is_version text_eq
exact_reference value = do
  object ← plain_object value (codes "reference")
  exact_keys object
      (codes "manifestArtifactId" ∷ codes "signatureArtifactId" ∷ codes "version" ∷ [])
      (codes "reference")
  manifest ←
      string_with is_low_identifier (get_field object (codes "manifestArtifactId"))
        (codes "manifestArtifactId")
  signature ←
      string_with is_low_identifier (get_field object (codes "signatureArtifactId"))
        (codes "signatureArtifactId")
  guard (not (text_eq manifest signature)) (invalid (codes "must differ"))
  version ← string_with is_version (get_field object (codes "version")) (codes "version")
  ok (record {
    version = version;
    manifest_artifact_id = manifest;
    signature_artifact_id = signature;
  })

abbrev pub is_base64_char : ℕ → Bool
is_base64_char c = is_alphanumeric c || (c == b'+' || c == b'/')

-- `[A-Za-z0-9+/]*={0,2}` after at least one character of the alphabet.
unfoldable pub base64_tail : Text → Bool
base64_tail [] = true
base64_tail (c ∷ cs) =
    let rest = base64_tail cs in
    (is_base64_char c && rest)
    || (c == b'=' && (length cs == 0 || (length cs == 1 && all_chars (λ d. d == b'=') cs)))

unfoldable pub is_base64_text : Text → Bool
unfolding base64_tail
is_base64_text [] = false
is_base64_text (c ∷ cs) = is_base64_char c && base64_tail cs

-- `/^sha512-[A-Za-z0-9+/]+={0,2}$/`
unfoldable pub is_integrity : Text → Bool
unfolding starts_with is_base64_text
is_integrity t = starts_with t (codes "sha512-") && is_base64_text (after 7 t)

-- `/^SHA256:[A-Za-z0-9+/]{43}$/`
unfoldable pub is_registry_key_id : Text → Bool
unfolding starts_with
is_registry_key_id t =
    starts_with t (codes "SHA256:") && (all_chars is_base64_char (after 7 t) && length t == 50)

unfoldable pub dsh_reference : Value → Result TrustError DshReference
unfolding plain_object exact_keys get_field string_with is_integrity is_version
dsh_reference value = do
  object ← plain_object value (codes "stable.desired.dsh")
  exact_keys object (codes "integrity" ∷ codes "version" ∷ []) (codes "stable.desired.dsh")
  integrity ← string_with is_integrity (get_field object (codes "integrity")) (codes "integrity")
  version ← string_with is_version (get_field object (codes "version")) (codes "version")
  ok (record { version = version; integrity = integrity })

abbrev pub official_registry : Text
official_registry = codes "https://registry.npmjs.org/"

abbrev pub official_package : Text
official_package = codes "@deepseek-ai/dsh"

module _ (node : Node) where
  abbrev pub expires_of : Value → Result TrustError (Option Text)
  unfolding iso_timestamp
  expires_of Value.null = ok none
  expires_of v = iso_timestamp node v (codes "expires") >>= λ t. ok (some t)

  unfoldable pub registry_key : Value → Result TrustError RegistryKey
  unfolding plain_object exact_keys get_field string_with text_eq is_registry_key_id is_base64_text
  registry_key value = do
    object ← plain_object value (codes "key")
    exact_keys object (codes "algorithm" ∷ codes "expires" ∷ codes "keyId" ∷ codes "publicKey" ∷ [])
        (codes "key")
    algorithm ←
        string_with (text_eq (codes "ECDSA-P256-SHA256")) (get_field object (codes "algorithm"))
          (codes "algorithm")
    key_id ← string_with is_registry_key_id (get_field object (codes "keyId")) (codes "keyId")
    public_key ←
        string_with is_base64_text (get_field object (codes "publicKey")) (codes "publicKey")
    expires ← expires_of (get_field object (codes "expires"))
    ok (record { key_id = key_id; public_key = public_key; expires = expires })

  unfoldable pub parse_official_dsh_policy : Value → Result TrustError Policy
  unfolding plain_object exact_keys get_field string_with text_eq list_of registry_key all_distinct
  parse_official_dsh_policy value = do
    object ← plain_object value (codes "policy")
    exact_keys object (codes "keys" ∷ codes "packageName" ∷ codes "registry" ∷ []) (codes "policy")
    registry ←
        string_with (text_eq official_registry) (get_field object (codes "registry"))
          (codes "registry")
    package_name ←
        string_with (text_eq official_package) (get_field object (codes "packageName"))
          (codes "packageName")
    entries ← list_of (get_field object (codes "keys")) (codes "keys")
    guard (leb 1 (length entries)) (invalid (codes "keys"))
    keys ← traverse registry_key entries
    guard (all_distinct (map (λ (k : RegistryKey). k.key_id) keys)) (invalid (codes "keys"))
    ok (record { registry = registry; package_name = package_name; keys = keys })

  abbrev pub names_artifacts : Reference → List Text → Bool
  unfolding includes
  names_artifacts r ids =
      includes ids r.manifest_artifact_id && includes ids r.signature_artifact_id

  unfoldable pub parse_stable : Text → Result TrustError Stable
  unfolding parse_json_document plain_object exact_keys get_field is_number parse_artifact_list
      exact_reference dsh_reference positive_safe_integer iso_timestamp parse_official_dsh_policy
  parse_stable bytes = do
    object ← parse_json_document node bytes (codes "stable")
    exact_keys object
        (codes "artifacts"
          ∷ codes "desired"
          ∷ codes "issuedAt"
          ∷ codes "keyringGeneration"
          ∷ codes "officialDshPolicy"
          ∷ codes "schema"
          ∷ codes "targetSequence"
          ∷ codes "updateApi"
          ∷ [])
        (codes "stable")
    guard (is_number 1 (get_field object (codes "schema"))) (invalid (codes "stable.schema"))
    guard (is_number 1 (get_field object (codes "updateApi"))) (invalid (codes "stable.updateApi"))
    desired ← plain_object (get_field object (codes "desired")) (codes "stable.desired")
    exact_keys desired (codes "bootstrap" ∷ codes "dsh" ∷ codes "environment" ∷ [])
        (codes "stable.desired")
    artifacts ← parse_artifact_list node (get_field object (codes "artifacts")) (codes "artifacts")
    bootstrap ← exact_reference (get_field desired (codes "bootstrap"))
    environment ← exact_reference (get_field desired (codes "environment"))
    dsh ← dsh_reference (get_field desired (codes "dsh"))
    let ids = map (λ (a : Descriptor). a.id) artifacts
    guard (names_artifacts bootstrap ids && names_artifacts environment ids)
        (invalid (codes "missing"))
    keyring_generation ←
        positive_safe_integer (get_field object (codes "keyringGeneration"))
          (codes "stable.keyringGeneration")
    target_sequence ←
        positive_safe_integer (get_field object (codes "targetSequence"))
          (codes "stable.targetSequence")
    issued_at ← iso_timestamp node (get_field object (codes "issuedAt")) (codes "stable.issuedAt")
    policy ← parse_official_dsh_policy (get_field object (codes "officialDshPolicy"))
    ok (record {
      keyring_generation = keyring_generation;
      target_sequence = target_sequence;
      issued_at = issued_at;
      artifacts = artifacts;
      bootstrap = bootstrap;
      environment = environment;
      dsh = dsh;
      policy = policy;
    })
