-- ===== src/Stage0/Slots/Tests.antt =====
-- Concrete runs of slots.mjs, with a hash of content that repeats the target's sequence.
use dsh_docker.Prelude.Tests.{Bool-cases}
use dsh_docker.Prelude.{
  inl, inr, ap, sym, ◌∙◌, ℕ, ◌≡◌, ◌≤◌, ◌+◌, refl, [], ◌∷◌, ◌++◌, some, true, false, arith,
}
use dsh_docker.Prelude.Lists.{replicate}
use dsh_docker.Prelude.Text.{Text, text_eq, text_eq_sound, codes, starts_with}
use dsh_docker.Prelude.Map.{Map, get, put, delete, retain}
use dsh_docker.Prelude.Result.{ok, err}
use dsh_docker.Platform.Contracts.{
  bootstrap, image, Content, BootstrapRecord, Slots, missing, parse_artifact,
  parse_bootstrap_record, is_build_id, is_identifier, is_sha256, is_version, derive_record_id,
  parse_slots, parse_id, has_prefix, differs,
}
use dsh_docker.Stage0.Slots.Disk.{
  Disk, Inventory, stable, state, commit, other_than, read_record, write_record, same_record,
  same_storage,
}
use dsh_docker.Stage0.Slots.Operations.{
  reconcile_image, reconcile_written, choose, other_image, rollback, resolve_record, stage_written,
  is_current,
}
use dsh_docker.Stage0.Slots.Collection.{is_retained, collect_garbage, remove_records, parse_records}
use dsh_docker.Stage0.Slots.Soundness.{IsSound, Follows}
use dsh_docker.Stage0.Slots.Laws.{
  here, onward, going_back, collection, Reach-Follows, reconcile_image_current,
}
use dsh_docker.Stage0.Slots.Recovery.{rollback_lem, rollback_twice}
use dsh_docker.Stage0.Slots.Collecting.{
  resolve_record-collect_garbage, stage_written-collect_garbage,
}

abbrev pub content_hash : Content → Text
content_hash c = replicate 64 (b'0' + c.target_sequence)

abbrev pub build : Text
build = codes "sha256:" ++ replicate 64 b'b'

abbrev pub content : ℕ → Content
content n = record {
  version = codes "1.0.0";
  target_sequence = n;
  artifact = record {
    storage = image build;
    kind = bootstrap;
    id = codes "bootstrap";
    sha256 = replicate 64 b'a';
  };
}

abbrev pub id_of : ℕ → Text
id_of n = codes "bootstrap-record-" ++ replicate 64 (b'0' + n)

abbrev pub entry : ℕ → BootstrapRecord
entry n = record { id = id_of n; content = content n }

abbrev pub inventory : Inventory
inventory = record {
  authority = stable;
  image_build_id = build;
  bootstrap_id = codes "bootstrap";
  bootstrap_sha256 = replicate 64 b'a';
  seeds = (codes "bootstrap", record { is_directory = true; tree_hash = replicate 64 b'a' }) ∷ [];
}

abbrev pub slots : Slots
slots = record { generation = 2; current = some (id_of 2); previous = some (id_of 1) }

abbrev pub disk : Disk
disk = record {
  has_records = true;
  records = (id_of 1, entry 1) ∷ (id_of 2, entry 2) ∷ [];
  slots = some slots;
  store = [];
}

-- With a record more, which no slot names.
abbrev staged_disk : Disk
staged_disk = record disk {
  records = (id_of 1, entry 1) ∷ (id_of 2, entry 2) ∷ (id_of 3, entry 3) ∷ [];
}

abbrev moved_slots : Slots
moved_slots = record { generation = 3; current = some (id_of 3); previous = some (id_of 2) }

abbrev moved_disk : Disk
moved_disk = record staged_disk { slots = some moved_slots }

-- Each entry of a list of records stands under its identifier.
abbrev pub AllKeyed : Map BootstrapRecord → Type 0
AllKeyed [] = Unit {0}
AllKeyed ((k, r) ∷ m) = (r.id ≡ k) × AllKeyed m

pub AllKeyed-get :
    (m : Map BootstrapRecord) (id : Text) (r : BootstrapRecord)
    → AllKeyed m
    → get id m ≡ some r
    → r.id ≡ id
unfolding get
AllKeyed-get [] id r h e = cc
AllKeyed-get ((k, q) ∷ m) id r h e = elim (Bool-cases (text_eq k id)) [
  | inl same ↦
      let equal : q ≡ r = ground arith in
      sym (ap (λ (x : BootstrapRecord). x.id) equal) ∙ h.0 ∙ text_eq_sound k id same
  | inr other ↦ AllKeyed-get m id r h.1 (ground arith)
]

unfoldable pub sound : IsSound content_hash disk
unfolding state parse_slots parse_id has_prefix differs is_identifier starts_with text_eq
    read_record get parse_bootstrap_record parse_artifact is_build_id is_sha256 is_version
    derive_record_id
sound = record {
  slots = slots;
  parsed = refl;
  current = (entry 2, refl);
  previous = (entry 1, refl);
  keyed = λ id r e. AllKeyed-get disk.records id r (refl, (refl, tt)) e;
}

staged_sound : IsSound content_hash staged_disk
unfolding state parse_slots parse_id has_prefix differs is_identifier starts_with text_eq
    read_record get parse_bootstrap_record parse_artifact is_build_id is_sha256 is_version
    derive_record_id
staged_sound = record {
  slots = slots;
  parsed = refl;
  current = (entry 2, refl);
  previous = (entry 1, refl);
  keyed = λ id r e. AllKeyed-get staged_disk.records id r (refl, (refl, (refl, tt))) e;
}

reconciles : reconcile_image content_hash inventory disk (entry 3) ≡ (moved_disk, ok moved_slots)
unfolding reconcile_image write_record put reconcile_written commit other_than choose other_image
    same_record same_storage state parse_slots parse_id has_prefix differs is_identifier starts_with
    text_eq read_record get parse_bootstrap_record parse_artifact is_build_id is_sha256 is_version
    derive_record_id
reconciles = refl

Reach-Follows_example :
    Follows content_hash disk (collect_garbage content_hash (rollback content_hash disk).0).0 sound
Reach-Follows_example =
    Reach-Follows content_hash inventory
      (onward (onward (here disk) (going_back disk)) (collection (rollback content_hash disk).0))
      sound

reconcile_image_current_example :
    (id : Text) × (r : BootstrapRecord) × (state moved_disk ≡ ok moved_slots)
    × (moved_slots.current ≡ some id)
    × (read_record content_hash moved_disk id ≡ ok r)
    × (3 ≤ r.content.target_sequence)
reconcile_image_current_example =
    reconcile_image_current content_hash inventory disk moved_disk (entry 3) moved_slots sound
      reconciles

rollback_lem_example : rollback content_hash disk ≡ (
  record disk {
    slots = some (record { generation = 3; current = some (id_of 1); previous = some (id_of 2) });
  },
  ok (record { generation = 3; current = some (id_of 1); previous = some (id_of 2) }),
)
unfolding sound
rollback_lem_example =
    rollback_lem content_hash disk sound (id_of 2) (id_of 1) refl refl (omega arith)

rollback_twice_example :
    (rollback content_hash (rollback content_hash disk).0).1 ≡ ok (record slots { generation = 4 })
unfolding sound
rollback_twice_example =
    rollback_twice content_hash disk sound (id_of 2) (id_of 1) refl refl (omega arith)

resolve_record-collect_garbage_example :
    resolve_record content_hash inventory (collect_garbage content_hash disk).0 (id_of 2)
    ≡ resolve_record content_hash inventory disk (id_of 2)
unfolding is_retained is_current text_eq sound
resolve_record-collect_garbage_example =
    resolve_record-collect_garbage content_hash inventory disk sound (id_of 2) refl

collects : (collect_garbage content_hash staged_disk).1 ≡ ok ([], id_of 3 ∷ [])
unfolding collect_garbage remove_records parse_records is_retained is_current state parse_slots
    parse_id has_prefix differs is_identifier starts_with text_eq read_record get
    parse_bootstrap_record parse_artifact is_build_id is_sha256 is_version derive_record_id
collects = refl

stages :
    stage_written content_hash (collect_garbage content_hash staged_disk).0 (entry 3)
    ≡ (record disk { slots = some moved_slots }, ok (entry 3, true, false))
unfolding stage_written delete retain commit other_than collect_garbage remove_records parse_records
    is_retained is_current state parse_slots parse_id has_prefix differs is_identifier starts_with
    text_eq read_record get parse_bootstrap_record parse_artifact is_build_id is_sha256 is_version
    derive_record_id
stages = refl

stage_written-collect_garbage_example :
    (t : Slots) × (state (record disk { slots = some moved_slots }) ≡ ok t)
    × (t.current ≡ some (id_of 3))
    × (read_record content_hash (record disk { slots = some moved_slots }) (id_of 3)
        ≡ err (missing (id_of 3)))
unfolding get text_eq is_retained is_current staged_sound
stage_written-collect_garbage_example =
    stage_written-collect_garbage content_hash staged_disk
      (record disk { slots = some moved_slots }) staged_sound (entry 3) false ([], id_of 3 ∷ [])
      refl refl refl collects stages
