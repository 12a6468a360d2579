-- ===== src/Platform/Deployments.antt =====
-- container/platform/lib/deployment-contracts.mjs: Deployment Records. A document is taken with its
-- fields in place and of their types. SHA-256 of the canonical JSON text of a record is the parameter
-- `content_hash`.
use dsh_docker.Prelude.{ℕ, List, [], ◌∷◌, ◌++◌, Option, none, some, Bool, true, false, ◌&&◌, not}
use dsh_docker.Prelude.Tests.{◌==◌}
use dsh_docker.Prelude.Text.{Text, text_eq, codes}
use dsh_docker.Prelude.Result.{Result, ok, ◌>>=◌, ◌>>◌, guard}
use dsh_docker.Platform.Contracts.{
  TrustError, invalid, Kind, Storage, Artifact, all_chars, is_safe, is_version, is_identifier,
  parse_artifact,
}
use dsh_docker.Platform.Values.{all_distinct}

pub data Authority : Type 0 where
  stable : Authority
  experimental : Authority
  development : Authority

pub record DeploymentContent : Type 0 where
  pub authority : Authority
  pub target_sequence : ℕ
  pub dsh_version : Text
  pub environment_version : Text
  pub environment : Artifact
  pub pristine : Artifact
  pub runtime : Artifact
  pub system_plugins : Artifact
  pub receipt_tokens : List Text
  pub snapshot_id : Option Text

pub record DeploymentRecord : Type 0 where
  pub id : Text
  pub content : DeploymentContent

abbrev pub deployment_prefix : Text
deployment_prefix = codes "deployment-record"

-- A development has the sequence 0, and nothing else has it.
unfoldable pub authority_fits : Authority → ℕ → Bool
authority_fits development sequence = sequence == 0
authority_fits _ sequence = not (sequence == 0)

abbrev pub is_token : Text → Bool
is_token [] = false
is_token (c ∷ cs) = all_chars (λ d. not (d == 0)) (c ∷ cs)

unfoldable pub all_tokens : List Text → Bool
all_tokens [] = true
all_tokens (t ∷ ts) = is_token t && all_tokens ts

unfoldable pub snapshot_fits : Option Text → Bool
unfolding is_identifier
snapshot_fits none = true
snapshot_fits (some id) = is_identifier id

unfoldable pub kinds_fit : Kind → Kind → Kind → Kind → Bool
kinds_fit Kind.environment Kind.pristine Kind.runtime Kind.system_plugins = true
kinds_fit _ _ _ _ = false

unfoldable pub image_ids : List Artifact → List Text
image_ids [] = []
image_ids (a ∷ rest) =
    let ids = image_ids rest in elim a.storage [ Storage.image b ↦ b ∷ ids | Storage.stored ↦ ids ]

-- `new Set(imageIds).size <= 1`
unfoldable pub all_same : List Text → Bool
unfolding text_eq
all_same [] = true
all_same (t ∷ []) = true
all_same (t ∷ u ∷ us) = text_eq t u && all_same (u ∷ us)

unfoldable pub parse_content : DeploymentContent → Result TrustError DeploymentContent
unfolding authority_fits is_version parse_artifact all_tokens all_distinct snapshot_fits kinds_fit
    image_ids all_same
parse_content c = do
  guard (is_safe c.target_sequence) (invalid (codes "targetSequence"))
  guard (authority_fits c.authority c.target_sequence) (invalid (codes "authority"))
  guard (is_version c.dsh_version) (invalid (codes "dshVersion"))
  guard (is_version c.environment_version) (invalid (codes "environmentVersion"))
  environment ← parse_artifact c.environment
  pristine ← parse_artifact c.pristine
  runtime ← parse_artifact c.runtime
  system_plugins ← parse_artifact c.system_plugins
  guard (all_tokens c.receipt_tokens && all_distinct c.receipt_tokens)
      (invalid (codes "receiptTokens"))
  guard (snapshot_fits c.snapshot_id) (invalid (codes "snapshotId"))
  guard (kinds_fit environment.kind pristine.kind runtime.kind system_plugins.kind)
      (invalid (codes "kind"))
  guard (all_same (image_ids (environment ∷ pristine ∷ runtime ∷ system_plugins ∷ [])))
      (invalid (codes "imageBuildId"))
  ok c

module _ (content_hash : DeploymentContent → Text) where
  unfoldable pub parse_deployment_record : DeploymentRecord → Result TrustError DeploymentRecord
  unfolding parse_content text_eq
  parse_deployment_record r = do
    c ← parse_content r.content
    guard (text_eq r.id (deployment_prefix ++ (b'-' ∷ content_hash c))) (invalid (codes "id"))
    ok r
