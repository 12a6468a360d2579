-- ===== src/Stage0/Trust/Keyring.antt =====
-- container/platform/stage0/lib/keyring.mjs: the keyring and what may follow it.
use dsh_docker.Prelude.{ℕ, List, [], ◌∷◌, Bool, true, ◌&&◌, ◌||◌, not}
use dsh_docker.Prelude.Tests.{ltb}
use dsh_docker.Prelude.Text.{Text, text_eq, codes}
use dsh_docker.Prelude.Result.{Result, ok, ◌>>=◌, ◌>>◌, guard, traverse}
use dsh_docker.Platform.Contracts.{TrustError, invalid, conflict, is_sha256}
use dsh_docker.Platform.Values.{
  Value, get_field, plain_object, exact_keys, positive_safe_integer, string_with, is_number,
  list_of, includes, all_distinct, sort, texts_eq,
}
use dsh_docker.Platform.Node.{Node, iso_timestamp, parse_json_document}
use dsh_docker.Stage0.Trust.Signature.{release_key_id, verify_detached}

pub record ReleaseKey : Type 0 where
  pub key_id : Text
  pub public_key : Text

pub record Keyring : Type 0 where
  pub generation : ℕ
  pub issued_at : Text
  pub current : ReleaseKey
  pub next : ReleaseKey
  pub revoked : List Text

abbrev pub keyring_keys : List Text
keyring_keys =
    codes "current"
    ∷ codes "generation"
    ∷ codes "issuedAt"
    ∷ codes "next"
    ∷ codes "revokedKeyIds"
    ∷ codes "schema"
    ∷ []

unfoldable pub parse_revoked : List Value → Result TrustError (List Text)
unfolding string_with is_sha256
parse_revoked entries =
    traverse (λ v. string_with is_sha256 v (codes "keyring.revokedKeyIds")) entries

-- The tests of the revoked keys, and the keyring.
unfoldable pub with_revoked :
    ℕ → Text → ReleaseKey → ReleaseKey → List Text → Result TrustError Keyring
unfolding all_distinct sort texts_eq includes
with_revoked generation issued_at current next revoked = do
  guard (all_distinct revoked) (invalid (codes "duplicates"))
  guard (texts_eq (sort revoked) revoked) (invalid (codes "sorted"))
  guard (not (includes revoked current.key_id || includes revoked next.key_id))
      (invalid (codes "must not be revoked"))
  ok (record {
    generation = generation;
    issued_at = issued_at;
    current = current;
    next = next;
    revoked = revoked;
  })

module _ (node : Node) where
  unfoldable pub parse_release_key : Value → Text → Result TrustError ReleaseKey
  unfolding plain_object exact_keys get_field string_with text_eq release_key_id
  parse_release_key value label = do
    object ← plain_object value label
    exact_keys object (codes "algorithm" ∷ codes "keyId" ∷ codes "publicKey" ∷ []) label
    algorithm ← string_with (text_eq (codes "Ed25519")) (get_field object (codes "algorithm")) label
    public_key ← string_with (λ t. true) (get_field object (codes "publicKey")) label
    key_id ← release_key_id node (Value.string public_key)
    named ← string_with (text_eq key_id) (get_field object (codes "keyId")) label
    ok (record { key_id = key_id; public_key = public_key })

  unfoldable pub parse_keyring : Text → Result TrustError Keyring
  unfolding parse_json_document exact_keys get_field is_number positive_safe_integer iso_timestamp
      parse_release_key list_of parse_revoked text_eq with_revoked
  parse_keyring bytes = do
    object ← parse_json_document node bytes (codes "keyring")
    exact_keys object keyring_keys (codes "keyring")
    guard (is_number 1 (get_field object (codes "schema"))) (invalid (codes "keyring.schema"))
    generation ←
        positive_safe_integer (get_field object (codes "generation")) (codes "keyring.generation")
    issued_at ← iso_timestamp node (get_field object (codes "issuedAt")) (codes "keyring.issuedAt")
    current ← parse_release_key (get_field object (codes "current")) (codes "keyring.current")
    next ← parse_release_key (get_field object (codes "next")) (codes "keyring.next")
    guard (not (text_eq current.key_id next.key_id)) (invalid (codes "must differ"))
    entries ← list_of (get_field object (codes "revokedKeyIds")) (codes "keyring.revokedKeyIds")
    revoked ← parse_revoked entries
    with_revoked generation issued_at current next revoked

  unfoldable pub verify_recovery_keyring : Text → Value → Text → Result TrustError Keyring
  unfolding verify_detached parse_keyring
  verify_recovery_keyring bytes signature recovery_public_key = do
    id ← verify_detached node bytes signature recovery_public_key
    parse_keyring bytes

unfoldable pub all_revoked : List Text → List Text → Bool
unfolding includes
all_revoked [] later = true
all_revoked (id ∷ ids) later = includes later id && all_revoked ids later

-- An active key of before is active still, or revoked.
unfoldable pub accounted : Keyring → Text → Bool
unfolding includes text_eq
accounted later id =
    (text_eq id later.current.key_id || text_eq id later.next.key_id) || includes later.revoked id

unfoldable pub validate_keyring_transition : Keyring → Keyring → Result TrustError Keyring
unfolding all_revoked accounted includes
validate_keyring_transition previous later = do
  guard (ltb previous.generation later.generation) (conflict (codes "TRUST_ROLLBACK"))
  guard (all_revoked previous.revoked later.revoked) (invalid (codes "removed"))
  guard (accounted later previous.current.key_id && accounted later previous.next.key_id)
      (invalid (codes "revoke"))
  guard
      (not (includes previous.revoked later.current.key_id)
        && not (includes previous.revoked later.next.key_id))
      (invalid (codes "reactivate"))
  ok later
