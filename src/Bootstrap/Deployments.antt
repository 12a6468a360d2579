-- ===== src/Bootstrap/Deployments.antt =====
-- container/platform/bootstrap/lib/deployments.mjs: the Records and slots of `DeploymentManager`, the
-- assets that a Record is resolved to, and the start of an image. What the manager reads of the
-- image's inventory and of the trees on the disk is the parameter `host`, and SHA-256 of a canonical
-- JSON text its field `content_hash`. Where links or
-- renames of a selection fail is its field `link_fault`. The queue of `exclusive` makes each
-- operation one step.
use Prim.Native.Nat.{Ordering}
use dsh_docker.Prelude.{
  ◌≡◌, ap, ◌+◌, List, [], ◌∷◌, Option, none, some, Bool, true, false, ◌&&◌, not,
}
use dsh_docker.Prelude.Tests.{◌==◌, if◌then◌else◌}
use dsh_docker.Prelude.Text.{Text, text_eq, codes}
use dsh_docker.Prelude.Map.{Map, get, put}
use dsh_docker.Prelude.Result.{Result, ok, err, ◌>>=◌, ◌>>◌, guard, ok-injective}
use dsh_docker.Platform.Contracts.{TrustError, invalid, Kind, Storage, Artifact, Slots, parse_slots}
use dsh_docker.Platform.Versions.{compare_semantic_versions}
use dsh_docker.Platform.Deployments.{
  Authority, stable, experimental, development, DeploymentContent, DeploymentRecord,
  deployment_prefix, parse_deployment_record,
}
use dsh_docker.Stage0.Slots.Disk.{same_storage, same_kind}

-- `selectedRecordId`, and the Record that the link `deploymentView` leads to; the link of the
-- system plugins leads through it.
pub record DeploymentDisk : Type 0 where
  pub records : Map DeploymentRecord
  pub slots : Option Slots
  pub selected : Option Text
  pub view : Option Text

-- Where the file system refuses a selection: before `deploymentView` is renamed, or behind that and
-- before the view of the system plugins is.
pub data LinkFault : Type 0 where
  before_view : LinkFault
  behind_view : LinkFault

pub record Host : Type 0 where
  pub content_hash : DeploymentContent → Text
  pub image_build : Text
  pub inventory : Kind → Option Artifact
  pub is_directory : Artifact → Bool
  pub hash_tree : Artifact → Text
  pub hash_tree_content : Artifact → Text
  pub link_fault : DeploymentDisk → Text → Option LinkFault

pub data DeploymentError : Type 0 where
  trust : TrustError → DeploymentError
  resolution : Text → DeploymentError
  link : Text → DeploymentError

abbrev pub refused : Text → DeploymentError
refused t = trust (invalid t)

unfoldable pub trusted : {A : Type 0} → Result TrustError A → Result DeploymentError A
trusted (ok a) = ok a
trusted (err e) = err (trust e)

pub trusted-ok : {A : Type 0} (r : Result TrustError A) (a : A) → trusted r ≡ ok a → r ≡ ok a
unfolding trusted
trusted-ok (ok b) a h = ap ok (ok-injective b a h)
trusted-ok (err e) a h = absurd cc

unfoldable pub assets_of : DeploymentContent → List Artifact
assets_of c = c.environment ∷ c.pristine ∷ c.runtime ∷ c.system_plugins ∷ []

unfoldable pub every : (Artifact → Bool) → List Artifact → Bool
every p [] = true
every p (a ∷ rest) = p a && every p rest

abbrev pub other_build : Text → Artifact → Bool
unfolding text_eq
other_build build a = elim a.storage [
  | Storage.image b ↦ not (text_eq b build)
  | Storage.stored ↦ false
]

unfoldable pub same_deployment : DeploymentContent → DeploymentContent → Bool
unfolding text_eq
same_deployment left right =
    (text_eq left.dsh_version right.dsh_version
      && text_eq left.environment_version right.environment_version)
    && ((text_eq left.environment.sha256 right.environment.sha256
          && text_eq left.pristine.sha256 right.pristine.sha256)
        && (text_eq left.runtime.sha256 right.runtime.sha256
            && text_eq left.system_plugins.sha256 right.system_plugins.sha256))

-- `compareDshVersions(left, right) >= 0`
unfoldable pub caught_up : Text → Text → Result DeploymentError Bool
unfolding compare_semantic_versions trusted
caught_up left right = trusted (compare_semantic_versions left right) >>= λ o.
    ok (elim o [ Ordering.lt ↦ false | _ ↦ true ])

-- `state`
unfoldable pub slots_of : DeploymentDisk → Result DeploymentError Slots
unfolding parse_slots trusted
slots_of d = elim d.slots [
  | none ↦ ok (record { generation = 0; current = none; previous = none })
  | some s ↦ trusted (parse_slots s deployment_prefix)
]

abbrev pub next_slots : Text → Option Text → Slots → Slots
unfolding text_eq
next_slots current previous s = record {
  generation = s.generation + 1;
  current = some current;
  previous = elim previous [ none ↦ none | some p ↦ if text_eq current p then none else some p ];
}

unfoldable pub commit_slots :
    Text → Option Text → DeploymentDisk → Result DeploymentError (Slots × DeploymentDisk)
unfolding slots_of parse_slots trusted
commit_slots current previous d = do
  s ← slots_of d
  t ← trusted (parse_slots (next_slots current previous s) deployment_prefix)
  ok (t, record d { slots = some t })

-- `existing.equals(bytes)` compares canonical JSON texts, which have the fields in one order, so it
-- holds where each field is the same.
unfoldable pub same_artifact : Artifact → Artifact → Bool
unfolding same_storage text_eq
same_artifact a b =
    (same_storage a.storage b.storage && same_kind a.kind b.kind)
    && (text_eq a.id b.id && text_eq a.sha256 b.sha256)

unfoldable pub authority_name : Authority → Text
authority_name stable = codes "stable"
authority_name experimental = codes "experimental"
authority_name development = codes "development"

unfoldable pub same_texts : List Text → List Text → Bool
unfolding text_eq
same_texts [] [] = true
same_texts (t ∷ ts) (u ∷ us) = text_eq t u && same_texts ts us
same_texts _ _ = false

abbrev pub optional_text : Option Text → List Text
optional_text none = []
optional_text (some t) = t ∷ []

unfoldable pub same_deployment_record : DeploymentRecord → DeploymentRecord → Bool
unfolding same_texts same_artifact authority_name
same_deployment_record a b =
    (same_texts
        (a.id
          ∷ authority_name a.content.authority
          ∷ a.content.dsh_version
          ∷ a.content.environment_version
          ∷ optional_text a.content.snapshot_id)
        (b.id
          ∷ authority_name b.content.authority
          ∷ b.content.dsh_version
          ∷ b.content.environment_version
          ∷ optional_text b.content.snapshot_id)
      && (a.content.target_sequence == b.content.target_sequence
          && same_texts a.content.receipt_tokens b.content.receipt_tokens))
    && ((same_artifact a.content.environment b.content.environment
          && same_artifact a.content.pristine b.content.pristine)
        && (same_artifact a.content.runtime b.content.runtime
            && same_artifact a.content.system_plugins b.content.system_plugins))

-- Of a Record that was parsed.
unfoldable pub create_record :
    DeploymentDisk → DeploymentRecord → Result DeploymentError DeploymentDisk
unfolding get put same_deployment_record
create_record d r = elim (get r.id d.records) [
  | none ↦ ok (record d { records = put r.id r d.records })
  | some existing ↦
      guard (same_deployment_record existing r) (refused (codes "conflicting content")) >> ok d
]

-- `select`, once the Record has resolved.
unfoldable pub link_view :
    DeploymentDisk → Text → Option LinkFault → DeploymentDisk × Result DeploymentError (Unit {0})
link_view d id (some before_view) = (d, err (link id))
link_view d id (some behind_view) = (record d { view = some id }, err (link id))
link_view d id none = (record d { view = some id; selected = some id }, ok tt)

module _ (host : Host) where
  unfoldable pub write_deployment :
      DeploymentDisk → DeploymentRecord → Result DeploymentError DeploymentDisk
  unfolding parse_deployment_record trusted create_record
  write_deployment d value = do
    r ← trusted (parse_deployment_record host.content_hash value)
    create_record d r

  unfoldable pub read_deployment : DeploymentDisk → Text → Result DeploymentError DeploymentRecord
  unfolding get parse_deployment_record trusted
  read_deployment d id = elim (get id d.records) [
    | none ↦ err (refused (codes "record"))
    | some r ↦ trusted (parse_deployment_record host.content_hash r)
  ]

  -- `imageAsset`
  unfoldable pub image_asset : Text → Artifact → Result DeploymentError (Unit {0})
  unfolding text_eq
  image_asset build a = do
    guard (text_eq build host.image_build) (refused (codes "a different image"))
    elim (host.inventory a.kind) [
      | none ↦ err (refused (codes "inventory"))
      | some expected ↦
          guard (text_eq a.id expected.id && text_eq a.sha256 expected.sha256)
            (refused (codes "inventory"))
    ]

  unfoldable pub resolve_reference : Artifact → Result DeploymentError Artifact
  unfolding image_asset text_eq
  resolve_reference a = elim a.storage [
    | Storage.image build ↦
        image_asset build a >> guard (host.is_directory a) (refused (codes "directory")) >> ok a
    | Storage.stored ↦
        guard (host.is_directory a) (refused (codes "directory"))
        >> guard (text_eq (host.hash_tree a) a.sha256) (refused (codes "content hash"))
        >> ok a
  ]

  unfoldable pub resolve_deployment :
      DeploymentDisk → Text → Result DeploymentError DeploymentRecord
  unfolding read_deployment resolve_reference
  resolve_deployment d id = do
    r ← read_deployment d id
    environment ← resolve_reference r.content.environment
    pristine ← resolve_reference r.content.pristine
    runtime ← resolve_reference r.content.runtime
    system_plugins ← resolve_reference r.content.system_plugins
    ok r

  unfoldable pub select : DeploymentDisk → Text → DeploymentDisk × Result DeploymentError (Unit {0})
  unfolding resolve_deployment link_view
  select d id = elim (resolve_deployment d id) [
    | err e ↦ (d, err e)
    | ok r ↦ link_view d id (host.link_fault d id)
  ]

  unfoldable pub available_in_current_image : DeploymentContent → Bool
  unfolding every assets_of
  available_in_current_image c = every (λ a. not (other_build host.image_build a)) (assets_of c)

  unfoldable pub image_record_from_another_image : DeploymentContent → Bool
  unfolding every assets_of
  image_record_from_another_image c = every (other_build host.image_build) (assets_of c)

  unfoldable pub same_image_deployment :
      DeploymentContent → DeploymentContent → Result DeploymentError Bool
  unfolding same_deployment resolve_reference text_eq
  same_image_deployment current image =
      if same_deployment current image
      then ok true
      else if not (
          (text_eq current.dsh_version image.dsh_version
            && text_eq current.environment_version image.environment_version)
          && (text_eq current.pristine.sha256 image.pristine.sha256
              && (text_eq current.runtime.sha256 image.runtime.sha256
                  && text_eq current.system_plugins.sha256 image.system_plugins.sha256)))
      then ok false
      else (do
        left ← resolve_reference current.environment
        right ← resolve_reference image.environment
        ok (text_eq (host.hash_tree_content left) (host.hash_tree_content right)))
