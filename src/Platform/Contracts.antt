-- ===== src/Platform/Contracts.antt =====
-- container/platform/lib/deployment-contracts.mjs: Bootstrap Records and slots. A document is taken
-- with its fields in place and of their types, so what is left of the parsers are the tests of the
-- values. SHA-256 of the canonical JSON text of a record is the parameter `content_hash`.
use dsh_docker.Prelude.{
  ℕ, zero, suc, ◌^◌, [], ◌∷◌, ◌++◌, Option, none, some, Bool, true, false, ◌&&◌, ◌||◌, not,
}
use dsh_docker.Prelude.Tests.{leb, ltb, ◌==◌}
use dsh_docker.Prelude.Lists.{length}
use dsh_docker.Prelude.Text.{Text, text_eq, starts_with, codes}
use dsh_docker.Prelude.Result.{Result, ok, err, ◌>>=◌, ◌>>◌, guard}

abbrev pub within : ℕ → ℕ → ℕ → Bool
within low high c = leb low c && leb c high

abbrev pub all_chars : (ℕ → Bool) → Text → Bool
all_chars p [] = true
all_chars p (c ∷ cs) = p c && all_chars p cs

abbrev pub is_alphanumeric : ℕ → Bool
is_alphanumeric c = within b'A' b'Z' c || (within b'a' b'z' c || within b'0' b'9' c)

abbrev pub is_name_char : ℕ → Bool
is_name_char c = is_alphanumeric c || (c == b'.' || (c == b'_' || c == b'-'))

abbrev pub is_hex : ℕ → Bool
is_hex c = within b'a' b'f' c || within b'0' b'9' c

-- `IDENTIFIER`
unfoldable pub is_identifier : Text → Bool
is_identifier [] = false
is_identifier (c ∷ cs) = is_alphanumeric c && (all_chars is_name_char cs && leb (length cs) 127)

-- `SHA256`
unfoldable pub is_sha256 : Text → Bool
is_sha256 t = length t == 64 && all_chars is_hex t

abbrev pub after : ℕ → Text → Text
after zero t = t
after (suc n) [] = []
after (suc n) (c ∷ cs) = after n cs

-- `IMAGE_BUILD_ID`
unfoldable pub is_build_id : Text → Bool
unfolding starts_with is_sha256
is_build_id t = starts_with t (codes "sha256:") && is_sha256 (after 7 t)

-- `version`: neither NUL nor a slash of either kind.
unfoldable pub is_version : Text → Bool
is_version [] = false
is_version (c ∷ cs) =
    leb (length (c ∷ cs)) 128 && all_chars (λ d. not (d == 0 || (d == b'/' || d == b'\\'))) (c ∷ cs)

-- `Number.isSafeInteger`
abbrev pub is_safe : ℕ → Bool
is_safe n = ltb n (2 ^ 53)

pub data Kind : Type 0 where
  bootstrap : Kind
  environment : Kind
  pristine : Kind
  runtime : Kind
  system_plugins : Kind

-- An image's storage names its build.
pub data Storage : Type 0 where
  image : Text → Storage
  stored : Storage

pub record Artifact : Type 0 where
  pub storage : Storage
  pub kind : Kind
  pub id : Text
  pub sha256 : Text

pub record Content : Type 0 where
  pub version : Text
  pub target_sequence : ℕ
  pub artifact : Artifact

pub record BootstrapRecord : Type 0 where
  pub id : Text
  pub content : Content

pub record Slots : Type 0 where
  pub generation : ℕ
  pub current : Option Text
  pub previous : Option Text

pub data TrustError : Type 0 where
  invalid : Text → TrustError
  conflict : Text → TrustError
  missing : Text → TrustError

unfoldable pub parse_artifact : Artifact → Result TrustError Artifact
unfolding is_build_id is_identifier is_sha256
parse_artifact a =
    guard
      (elim a.storage [ image build ↦ is_build_id build | stored ↦ true ]
        && (is_identifier a.id && is_sha256 a.sha256))
      (invalid (codes "artifact"))
    >> ok a

abbrev pub record_prefix : Text
record_prefix = codes "bootstrap-record"

module _ (content_hash : Content → Text) where
  unfoldable pub derive_record_id : Text → Content → Text
  derive_record_id prefix c = prefix ++ (b'-' ∷ content_hash c)

  unfoldable pub parse_bootstrap_record : BootstrapRecord → Result TrustError BootstrapRecord
  unfolding parse_artifact derive_record_id is_version text_eq
  parse_bootstrap_record r = do
    guard (is_version r.content.version) (invalid (codes "version"))
    guard (is_safe r.content.target_sequence) (invalid (codes "targetSequence"))
    a ← parse_artifact r.content.artifact
    guard (text_eq r.id (derive_record_id record_prefix r.content)) (invalid (codes "id"))
    ok r

-- `parseId`
unfoldable pub parse_id : Option Text → Text → Result TrustError (Unit {0})
unfolding is_identifier
parse_id none field = ok tt
parse_id (some entry) field = guard (is_identifier entry) (invalid field)

unfoldable pub has_prefix : Text → Option Text → Bool
unfolding starts_with
has_prefix prefix none = true
has_prefix prefix (some id) = starts_with id (prefix ++ (b'-' ∷ []))

unfoldable pub differs : Option Text → Text → Bool
unfolding text_eq
differs none c = true
differs (some p) c = not (text_eq c p)

unfoldable pub parse_slots : Slots → Text → Result TrustError Slots
unfolding parse_id has_prefix differs
parse_slots s prefix = do
  a ← parse_id s.current (codes "current")
  b ← parse_id s.previous (codes "previous")
  elim s.current [
    | none ↦ err (invalid (codes "current"))
    | some c ↦ do
      guard (has_prefix prefix (some c) && has_prefix prefix s.previous)
          (invalid (codes "Record ID"))
      guard (differs s.previous c) (invalid (codes "current and previous"))
      guard (leb 1 s.generation && is_safe s.generation) (invalid (codes "generation"))
      ok s
  ]
