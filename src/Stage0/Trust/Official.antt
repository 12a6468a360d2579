-- ===== src/Stage0/Trust/Official.antt =====
-- container/platform/stage0/lib/official-dsh.mjs: candidates of the official package and the
-- registry's signatures on them. The URL of a package is that of official-dsh-contracts.mjs, as text,
-- which the versions that parse leave as it is.
use dsh_docker.Prelude.{ℕ, List, [], ◌∷◌, ◌++◌, Option, none, some, Bool, true, false}
use dsh_docker.Prelude.Tests.{leb, if◌then◌else◌}
use dsh_docker.Prelude.Lists.{length}
use dsh_docker.Prelude.Text.{Text, text_eq, codes}
use dsh_docker.Prelude.Result.{Result, ok, err, ◌>>=◌, ◌>>◌, guard, traverse}
use dsh_docker.Platform.Contracts.{TrustError, invalid, conflict}
use dsh_docker.Platform.Versions.{parse_semver}
use dsh_docker.Platform.Values.{
  Value, Fields, get_field, plain_object, exact_keys, string_with, is_number, list_of,
}
use dsh_docker.Platform.Node.{Node, KeyType}
use dsh_docker.Platform.Stable.{
  RegistryKey, Policy, is_integrity, official_package, official_registry,
}

pub record RegistrySignature : Type 0 where
  pub keyid : Text
  pub sig : Text

-- The URL is compared later, and kept as it is.
pub record Candidate : Type 0 where
  pub version : Text
  pub integrity : Text
  pub tarball : Value
  pub signatures : List RegistrySignature

abbrev any_text : Text → Bool
any_text t = true

unfoldable pub registry_signature : Value → Result TrustError RegistrySignature
unfolding plain_object exact_keys get_field string_with
registry_signature value = do
  object ← plain_object value (codes "signature")
  exact_keys object (codes "keyid" ∷ codes "sig" ∷ []) (codes "signature")
  keyid ← string_with any_text (get_field object (codes "keyid")) (codes "signature")
  sig ← string_with any_text (get_field object (codes "sig")) (codes "signature")
  ok (record { keyid = keyid; sig = sig })

-- `compareDshVersions(version, version)`, which throws unless the version parses.
abbrev pub is_dsh_version : Text → Bool
unfolding parse_semver
is_dsh_version t = elim (parse_semver t) [ ok v ↦ true | err e ↦ false ]

unfoldable pub parse_candidate : Value → Result TrustError Candidate
unfolding plain_object exact_keys get_field is_number string_with text_eq is_integrity list_of
    registry_signature
parse_candidate value = do
  object ← plain_object value (codes "candidate")
  exact_keys object (codes "dist" ∷ codes "name" ∷ codes "schema" ∷ codes "version" ∷ [])
      (codes "candidate")
  guard (is_number 1 (get_field object (codes "schema"))) (invalid (codes "schema"))
  name ← string_with (text_eq official_package) (get_field object (codes "name")) (codes "name")
  version ← string_with is_dsh_version (get_field object (codes "version")) (codes "version")
  dist ← plain_object (get_field object (codes "dist")) (codes "dist")
  exact_keys dist (codes "integrity" ∷ codes "signatures" ∷ codes "tarball" ∷ []) (codes "dist")
  integrity ← string_with is_integrity (get_field dist (codes "integrity")) (codes "integrity")
  entries ← list_of (get_field dist (codes "signatures")) (codes "signatures")
  guard (leb 1 (length entries)) (invalid (codes "signatures"))
  signatures ← traverse registry_signature entries
  ok (record {
    version = version;
    integrity = integrity;
    tarball = get_field dist (codes "tarball");
    signatures = signatures;
  })

-- `{ schema, name, version, dist }`
unfoldable pub candidate_object : Value → Value → Value → Value → Value
candidate_object schema name version dist = Value.object (
    Fields.field (codes "schema") schema (
      Fields.field (codes "name") name (
        Fields.field (codes "version") version
          (Fields.field (codes "dist") dist Fields.no_fields))))

-- `value?.name`
abbrev optional_field : Value → Text → Value
unfolding get_field
optional_field (Value.object fs) name = get_field fs name
optional_field _ name = Value.undefined

unfoldable pub candidate_from_packument : Value → Text → Result TrustError Candidate
unfolding plain_object get_field candidate_object parse_candidate optional_field
candidate_from_packument value requested = do
  guard (is_dsh_version requested) (invalid (codes "version"))
  packument ← plain_object value (codes "packument")
  versions ← plain_object (get_field packument (codes "versions")) (codes "versions")
  selected ← plain_object (get_field versions requested) requested
  let dist = get_field selected (codes "dist")
  parse_candidate (
      candidate_object (Value.integer 1) (get_field selected (codes "name"))
        (get_field selected (codes "version"))
        (Value.object (
          Fields.field (codes "integrity") (optional_field dist (codes "integrity")) (
            Fields.field (codes "tarball") (optional_field dist (codes "tarball")) (
              Fields.field (codes "signatures") (optional_field dist (codes "signatures"))
                Fields.no_fields)))))

-- `officialDshTarballUrl(version).href`
unfoldable pub tarball_url : Text → Text
tarball_url version =
    official_registry ++ (official_package ++ (codes "/-/dsh-" ++ (version ++ codes ".tgz")))

unfoldable pub signed_message : Candidate → Text
signed_message c = official_package ++ (codes "@" ++ (c.version ++ (codes ":" ++ c.integrity)))

-- `policy.keys.find(entry => entry.keyId === keyid)`
unfoldable pub find_key : List RegistryKey → Text → Option RegistryKey
unfolding text_eq
find_key [] keyid = none
find_key (k ∷ ks) keyid =
    let rest = find_key ks keyid in if text_eq k.key_id keyid then some k else rest

abbrev is_tarball : Candidate → Bool
unfolding text_eq tarball_url
is_tarball c = elim c.tarball [ Value.string t ↦ text_eq t (tarball_url c.version) | _ ↦ false ]

module _ (node : Node) (now : ℕ) where
  abbrev expired : RegistryKey → Bool
  expired k = elim k.expires [ none ↦ false | some t ↦ node.is_past t now ]

  -- What the loop does with one signature: no answer goes on to the next.
  unfoldable pub try_signature :
      List RegistryKey → Text → RegistrySignature → Result TrustError (Option Text)
  unfolding find_key
  try_signature ks message s = elim (find_key ks s.keyid) [
    | none ↦ ok none
    | some k ↦ if expired k then ok none else elim (node.key_type (node.from_base64 k.public_key)) [
      | some KeyType.p256 ↦
          if node.verify_sha256 message (node.from_base64 k.public_key) (node.from_base64 s.sig)
          then ok (some k.key_id)
          else ok none
      | _ ↦ err (invalid (codes "registry key"))
    ]
  ]

  unfoldable pub signer : List RegistryKey → Text → List RegistrySignature → Result TrustError Text
  unfolding try_signature
  signer ks message [] = err (conflict (codes "TRUST_UNKNOWN_KEY"))
  signer ks message (s ∷ ss) =
      let rest = signer ks message ss in
      try_signature ks message s >>= λ o. elim o [ some id ↦ ok id | none ↦ rest ]

  -- The identifier of the key that signed.
  unfoldable pub verify_candidate : Candidate → Text → Policy → Result TrustError Text
  unfolding text_eq is_tarball signed_message signer
  verify_candidate c requested policy = do
    guard (text_eq policy.registry official_registry) (invalid (codes "registry"))
    guard (text_eq c.version requested) (invalid (codes "version"))
    guard (text_eq official_package policy.package_name) (invalid (codes "policy"))
    guard (is_tarball c) (invalid (codes "tarball"))
    signer policy.keys (signed_message c) c.signatures
