-- ===== src/Platform/Node.antt =====
-- What the code of container/platform calls of Node.js: JSON, dates, URLs, base64 and cryptography.
use dsh_docker.Prelude.{ℕ, Option, none, some, Bool}
use dsh_docker.Prelude.Text.{Text}
use dsh_docker.Prelude.Result.{Result, err}
use dsh_docker.Platform.Contracts.{TrustError, invalid}
use dsh_docker.Platform.Values.{Value, Fields, plain_object, string_with}

pub record Url : Type 0 where
  pub protocol : Text
  pub username : Text
  pub password : Text
  pub href : Text

pub data KeyType : Type 0 where
  ed25519 : KeyType
  p256 : KeyType
  other_key : KeyType

pub record Node : Type 0 where
  -- `JSON.parse`, `none` where it throws
  pub parse_json : Text → Option Value
  -- a date whose `toISOString` is the text again
  pub is_iso : Text → Bool
  -- `new Date(text) <= now`
  pub is_past : Text → ℕ → Bool
  -- `new URL(value)`, `none` where it throws
  pub parse_url : Value → Option Url
  pub from_base64 : Text → Text
  pub to_base64 : Text → Text
  -- `createPublicKey` of an SPKI document, `none` where it throws
  pub key_type : Text → Option KeyType
  pub sha256 : Text → Text
  -- `verify(null, document, key, signature)`, and that with SHA-256
  pub verify : Text → Text → Text → Bool
  pub verify_sha256 : Text → Text → Text → Bool

module _ (node : Node) where
  unfoldable pub iso_timestamp : Value → Text → Result TrustError Text
  unfolding string_with
  iso_timestamp v label = string_with node.is_iso v label

  unfoldable pub parse_json_document : Text → Text → Result TrustError Fields
  unfolding plain_object
  parse_json_document bytes label = elim (node.parse_json bytes) [
    | none ↦ err (invalid label)
    | some v ↦ plain_object v label
  ]
