-- ===== src/Stage0/Trust/Signature.antt =====
-- container/platform/stage0/lib/signature.mjs: detached Ed25519 signatures.
use dsh_docker.Prelude.{[], ◌∷◌, some, ◌&&◌}
use dsh_docker.Prelude.Tests.{leb}
use dsh_docker.Prelude.Lists.{length}
use dsh_docker.Prelude.Text.{Text, text_eq, codes}
use dsh_docker.Prelude.Result.{Result, ok, err, ◌>>=◌, ◌>>◌, guard}
use dsh_docker.Platform.Contracts.{TrustError, invalid, conflict, is_sha256}
use dsh_docker.Platform.Values.{Value, get_field, plain_object, exact_keys, string_with, is_number}
use dsh_docker.Platform.Node.{Node, KeyType}
use dsh_docker.Platform.Artifacts.{is_filled}

pub record Signature : Type 0 where
  pub key_id : Text
  pub signature : Text

module _ (node : Node) where
  unfoldable pub canonical_base64 : Value → Text → Result TrustError Text
  unfolding string_with text_eq
  canonical_base64 value label = do
    t ← string_with is_filled value label
    let bytes = node.from_base64 t
    guard (leb 1 (length bytes) && text_eq (node.to_base64 bytes) t) (invalid label)
    ok bytes

  -- The SPKI document of the key.
  unfoldable pub public_key_from_base64 : Value → Result TrustError Text
  unfolding canonical_base64
  public_key_from_base64 value = do
    der ← canonical_base64 value (codes "public key")
    elim (node.key_type der) [
      | some KeyType.ed25519 ↦ ok der
      | _ ↦ err (invalid (codes "public key"))
    ]

  unfoldable pub release_key_id : Value → Result TrustError Text
  unfolding public_key_from_base64
  release_key_id public_key = do der ← public_key_from_base64 public_key; ok (node.sha256 der)

  unfoldable pub parse_signature : Value → Result TrustError Signature
  unfolding plain_object exact_keys get_field is_number string_with text_eq is_sha256
      canonical_base64
  parse_signature value = do
    object ← plain_object value (codes "signature")
    exact_keys object (codes "algorithm" ∷ codes "keyId" ∷ codes "schema" ∷ codes "signature" ∷ [])
        (codes "signature")
    guard (is_number 1 (get_field object (codes "schema"))) (invalid (codes "schema"))
    algorithm ←
        string_with (text_eq (codes "Ed25519")) (get_field object (codes "algorithm"))
          (codes "algorithm")
    key_id ← string_with is_sha256 (get_field object (codes "keyId")) (codes "keyId")
    bytes ← canonical_base64 (get_field object (codes "signature")) (codes "signature")
    ok (record { key_id = key_id; signature = bytes })

  -- The identifier of the key that signed.
  unfoldable pub verify_detached : Text → Value → Text → Result TrustError Text
  unfolding parse_signature public_key_from_base64 text_eq
  verify_detached document signature_value public_key = do
    s ← parse_signature signature_value
    der ← public_key_from_base64 (Value.string public_key)
    guard (text_eq s.key_id (node.sha256 der)) (conflict (codes "TRUST_UNKNOWN_KEY"))
    guard (node.verify document der s.signature) (conflict (codes "TRUST_BAD_SIGNATURE"))
    ok s.key_id
