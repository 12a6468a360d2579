-- ===== src/Platform/Artifacts.antt =====
-- container/platform/lib/artifact-contracts.mjs: the artifacts that a signed document lists.
use dsh_docker.Prelude.{ℕ, List, [], ◌∷◌, map, none, some, Bool, true, false, ◌&&◌, ◌||◌}
use dsh_docker.Prelude.Tests.{leb, ◌==◌}
use dsh_docker.Prelude.Lists.{length}
use dsh_docker.Prelude.Text.{Text, text_eq, codes}
use dsh_docker.Prelude.Result.{Result, ok, err, ◌>>=◌, ◌>>◌, guard, traverse}
use dsh_docker.Platform.Contracts.{TrustError, invalid, within, all_chars, is_sha256}
use dsh_docker.Platform.Values.{
  Value, get_field, plain_object, exact_keys, safe_integer, string_with, list_of, all_distinct,
}
use dsh_docker.Platform.Node.{Node}

pub record Descriptor : Type 0 where
  pub id : Text
  pub media_type : Text
  pub sha256 : Text
  pub size : ℕ
  pub url : Text

abbrev is_low : ℕ → Bool
is_low c = within b'a' b'z' c || within b'0' b'9' c

-- `/^[a-z0-9][a-z0-9._-]{0,127}$/`
unfoldable pub is_low_identifier : Text → Bool
is_low_identifier [] = false
is_low_identifier (c ∷ cs) =
    is_low c
    && (all_chars (λ d. is_low d || (d == b'.' || (d == b'_' || d == b'-'))) cs
        && leb (length cs) 127)

-- `/^[\x21-\x7e]{1,127}$/`
unfoldable pub is_media_type : Text → Bool
is_media_type t = all_chars (within 33 126) t && (leb 1 (length t) && leb (length t) 127)

-- `/^[a-z][a-z0-9-]{0,63}$/`
unfoldable pub is_manifest_type : Text → Bool
is_manifest_type [] = false
is_manifest_type (c ∷ cs) =
    within b'a' b'z' c && (all_chars (λ d. is_low d || d == b'-') cs && leb (length cs) 63)

abbrev pub is_filled : Text → Bool
is_filled [] = false
is_filled (c ∷ cs) = true

module _ (node : Node) where
  unfoldable pub https_url : Value → Result TrustError Text
  unfolding text_eq
  https_url v = elim (node.parse_url v) [
    | none ↦ err (invalid (codes "url"))
    | some u ↦
        guard
          (text_eq u.protocol (codes "https:") && (text_eq u.username [] && text_eq u.password []))
          (invalid (codes "url"))
        >> ok u.href
  ]

  unfoldable pub parse_artifact_descriptor : Value → Result TrustError Descriptor
  unfolding plain_object exact_keys get_field string_with safe_integer is_low_identifier
      is_media_type is_sha256 https_url
  parse_artifact_descriptor value = do
    object ← plain_object value (codes "artifact")
    exact_keys object
        (codes "id" ∷ codes "mediaType" ∷ codes "sha256" ∷ codes "size" ∷ codes "url" ∷ [])
        (codes "artifact")
    id ← string_with is_low_identifier (get_field object (codes "id")) (codes "id")
    media_type ←
        string_with is_media_type (get_field object (codes "mediaType")) (codes "mediaType")
    sha256 ← string_with is_sha256 (get_field object (codes "sha256")) (codes "sha256")
    size ← safe_integer (get_field object (codes "size")) (codes "size")
    url ← https_url (get_field object (codes "url"))
    ok (record { id = id; media_type = media_type; sha256 = sha256; size = size; url = url })

  unfoldable pub parse_artifact_list : Value → Text → Result TrustError (List Descriptor)
  unfolding list_of parse_artifact_descriptor all_distinct
  parse_artifact_list value label = do
    entries ← list_of value label
    artifacts ← traverse parse_artifact_descriptor entries
    guard (all_distinct (map (λ (a : Descriptor). a.id) artifacts)) (invalid label)
    ok artifacts
