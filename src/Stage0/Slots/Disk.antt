-- ===== src/Stage0/Slots/Disk.antt =====
-- slots.mjs: what `BootstrapManager` keeps on disk, its records and its slots. A write is durable and
-- whole, as atomic.mjs makes it. What was written is read as it was written, and parsed again.
use dsh_docker.Prelude.{◌+◌, Option, none, some, Bool, true, false, ◌&&◌}
use dsh_docker.Prelude.Tests.{◌==◌, if◌then◌else◌}
use dsh_docker.Prelude.Text.{Text, text_eq}
use dsh_docker.Prelude.Map.{Map, get, put}
use dsh_docker.Prelude.Result.{Result, ok, err}
use dsh_docker.Platform.Contracts.{
  Kind, bootstrap, environment, pristine, runtime, system_plugins, Storage, image, stored, Content,
  BootstrapRecord, Slots, TrustError, conflict, missing, record_prefix, parse_bootstrap_record,
  parse_slots,
}

-- The next part of an operation, unless the one before it has thrown.
abbrev pub and_then {ℓ κ μ} :
    {D : Type ℓ} {A : Type κ} {B : Type μ}
    → D × Result TrustError A
    → (D → A → D × Result TrustError B)
    → D × Result TrustError B
and_then (d, err e) f = (d, err e)
and_then (d, ok a) f = f d a

-- A directory entry of the Store: only a real directory is resolved or collected.
pub record Asset : Type 0 where
  pub is_directory : Bool
  pub tree_hash : Text

-- `has_records`: the directory of the records is there.
pub record Disk : Type 0 where
  pub has_records : Bool
  pub records : Map BootstrapRecord
  pub slots : Option Slots
  pub store : Map Asset

pub data Authority : Type 0 where
  stable : Authority
  experimental : Authority
  development : Authority

-- What is read of the image inventory, and the directories of the image.
pub record Inventory : Type 0 where
  pub authority : Authority
  pub image_build_id : Text
  pub bootstrap_id : Text
  pub bootstrap_sha256 : Text
  pub seeds : Map Asset

abbrev pub same_kind : Kind → Kind → Bool
same_kind bootstrap bootstrap = true
same_kind environment environment = true
same_kind pristine pristine = true
same_kind runtime runtime = true
same_kind system_plugins system_plugins = true
same_kind _ _ = false

unfoldable pub same_storage : Storage → Storage → Bool
unfolding text_eq
same_storage (image a) (image b) = text_eq a b
same_storage stored stored = true
same_storage _ _ = false

-- `existing.equals(bytes)`, of the canonical texts of two records.
unfoldable pub same_record : BootstrapRecord → BootstrapRecord → Bool
unfolding text_eq same_storage
same_record a b =
    text_eq a.id b.id
    && (text_eq a.content.version b.content.version
        && (a.content.target_sequence == b.content.target_sequence
            && (same_storage a.content.artifact.storage b.content.artifact.storage
                && (same_kind a.content.artifact.kind b.content.artifact.kind
                    && (text_eq a.content.artifact.id b.content.artifact.id
                        && text_eq a.content.artifact.sha256 b.content.artifact.sha256)))))

abbrev pub no_slots : Slots
no_slots = record { generation = 0; current = none; previous = none }

unfoldable pub state : Disk → Result TrustError Slots
unfolding parse_slots
state d = elim d.slots [ none ↦ ok no_slots | some s ↦ parse_slots s record_prefix ]

-- `if (current === previous) previous = null`
unfoldable pub other_than : Text → Option Text → Option Text
unfolding text_eq
other_than current none = none
other_than current (some p) = if text_eq current p then none else some p

unfoldable pub commit : Disk → Text → Option Text → Disk × Result TrustError Slots
unfolding state other_than parse_slots
commit d current previous = elim (state d) [
  | err e ↦ (d, err e)
  | ok s ↦
      elim (parse_slots
        (record {
          generation = s.generation + 1;
          current = some current;
          previous = other_than current previous;
        })
        record_prefix) [
          | err e ↦ (d, err e)
          | ok slots ↦ (record d { slots = some slots }, ok slots)
        ]
]

module _ (content_hash : Content → Text) where
  unfoldable pub read_record : Disk → Text → Result TrustError BootstrapRecord
  unfolding parse_bootstrap_record
  read_record d id = elim (get id d.records) [
    | none ↦ err (missing id)
    | some r ↦ parse_bootstrap_record content_hash r
  ]

  unfoldable pub write_record : Disk → BootstrapRecord → Disk × Result TrustError BootstrapRecord
  unfolding parse_bootstrap_record same_record
  write_record d value = elim (parse_bootstrap_record content_hash value) [
    | err e ↦ (d, err e)
    | ok r ↦ elim (get r.id d.records) [
      | none ↦ (record d { has_records = true; records = put r.id r d.records }, ok r)
      | some existing ↦ if same_record existing r then (d, ok r) else (d, err (conflict r.id))
    ]
  ]
