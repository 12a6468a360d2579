-- ===== src/Stage0/Slots/Operations.antt =====
-- slots.mjs: the operations of `BootstrapManager`, one at a time as its queue runs them. The reading
-- of an archive by tar is not modelled: `install_archive` starts with the directory that it leaves.
use dsh_docker.Prelude.{ℕ, ◌++◌, Option, none, some, Bool, true, false, ◌&&◌, ◌||◌, not}
use dsh_docker.Prelude.Tests.{ltb, ◌==◌, if◌then◌else◌}
use dsh_docker.Prelude.Text.{Text, text_eq, codes}
use dsh_docker.Prelude.Map.{get, put}
use dsh_docker.Prelude.Result.{Result, ok, err, ◌>>=◌, ◌>>◌, guard}
use dsh_docker.Platform.Contracts.{
  bootstrap, Storage, image, stored, Artifact, Content, BootstrapRecord, Slots, TrustError,
  conflict, missing, record_prefix, derive_record_id,
}
use dsh_docker.Stage0.Slots.Disk.{
  Asset, Disk, Authority, development, Inventory, state, commit, read_record, write_record,
  and_then,
}

abbrev is_development : Authority → Bool
is_development development = true
is_development _ = false

abbrev in_image : Storage → Bool
in_image (image _) = true
in_image stored = false

unfoldable pub other_image : Storage → Text → Bool
unfolding text_eq
other_image (image build) own = not (text_eq build own)
other_image stored own = false

-- What `reconcileImage` does once the current record is read: keep the slots, or move to the image
-- with the previous slot that it is given, or give up.
pub data Choice : Type 0 where
  keep : Choice
  move_alone : Choice
  move_over : Choice
  refuse : Choice

unfoldable pub choose : Inventory → BootstrapRecord → BootstrapRecord → Choice
unfolding other_image text_eq
choose i img current =
    if is_development i.authority
      && (img.content.target_sequence == 0
          && (in_image img.content.artifact.storage && not (text_eq current.id img.id)))
    then move_alone
    else if ltb img.content.target_sequence current.content.target_sequence
    then (if other_image current.content.artifact.storage i.image_build_id then move_over else keep)
    else if ltb current.content.target_sequence img.content.target_sequence
    then move_over
    else if not (text_eq current.content.version img.content.version)
        || not (text_eq current.content.artifact.sha256 img.content.artifact.sha256)
    then refuse
    else if text_eq current.id img.id
    then keep
    else move_over

unfoldable pub is_current : Option Text → Text → Bool
unfolding text_eq
is_current none id = false
is_current (some c) id = text_eq c id

-- The directory of a record, by its place and its name.
unfoldable pub place_of : Inventory → Disk → Artifact → Result TrustError (Option Asset)
unfolding text_eq
place_of i d reference = elim reference.storage [
  | image build ↦ do
    guard (text_eq build i.image_build_id) (conflict build)
    guard (text_eq reference.id i.bootstrap_id && text_eq reference.sha256 i.bootstrap_sha256)
        (missing reference.id)
    ok (get reference.id i.seeds)
  | stored ↦ ok (get reference.id d.store)
]

module _ (content_hash : Content → Text) where
  -- Behind the writing of the record.
  unfoldable pub reconcile_written :
      Inventory → Disk → BootstrapRecord → Disk × Result TrustError Slots
  unfolding state read_record choose commit
  reconcile_written i d img = elim (state d) [
    | err e ↦ (d, err e)
    | ok s ↦ elim s.current [
      | none ↦ commit d img.id none
      | some id ↦ elim (read_record content_hash d id) [
        | err e ↦ (d, err e)
        | ok current ↦ elim (choose i img current) [
          | keep ↦ (d, ok s)
          | move_alone ↦ commit d img.id none
          | move_over ↦ commit d img.id (some id)
          | refuse ↦ (d, err (conflict img.id))
        ]
      ]
    ]
  ]

  unfoldable pub reconcile_image :
      Inventory → Disk → BootstrapRecord → Disk × Result TrustError Slots
  unfolding write_record reconcile_written
  reconcile_image i d r = and_then (write_record content_hash d r) (reconcile_written i)

  unfoldable pub promote : Disk → Text → Disk × Result TrustError Slots
  unfolding read_record state commit is_current
  promote d id = elim (read_record content_hash d id) [
    | err e ↦ (d, err e)
    | ok _ ↦ elim (state d) [
      | err e ↦ (d, err e)
      | ok s ↦ if is_current s.current id then (d, ok s) else commit d id s.current
    ]
  ]

  unfoldable pub rollback : Disk → Disk × Result TrustError Slots
  unfolding read_record state commit
  rollback d = elim (state d) [
    | err e ↦ (d, err e)
    | ok s ↦ elim s.previous [
      | none ↦ (d, err (missing (codes "previous")))
      | some p ↦ elim (read_record content_hash d p) [
        | err e ↦ (d, err e)
        | ok _ ↦ commit d p s.current
      ]
    ]
  ]

  unfoldable pub resolve_record :
      Inventory → Disk → Text → Result TrustError (BootstrapRecord × Asset)
  unfolding read_record text_eq place_of
  resolve_record i d id = do
    r ← read_record content_hash d id
    let reference = r.content.artifact
    place ← place_of i d reference
    elim place [
      | none ↦ err (missing reference.id)
      | some asset ↦ do
        guard asset.is_directory (conflict reference.id)
        guard (text_eq asset.tree_hash reference.sha256) (conflict reference.id)
        ok (r, asset)
    ]

  unfoldable pub current_bootstrap : Inventory → Disk → Result TrustError (BootstrapRecord × Asset)
  unfolding state resolve_record
  current_bootstrap i d = do
    s ← state d
    elim s.current [ none ↦ err (missing (codes "current")) | some id ↦ resolve_record i d id ]

  abbrev pub stored_content : Text → ℕ → Text → Content
  stored_content version sequence hash = record {
    version = version;
    target_sequence = sequence;
    artifact = record {
      storage = stored;
      kind = bootstrap;
      id = codes "bootstrap-" ++ hash;
      sha256 = hash;
    };
  }

  unfoldable pub record_document : Content → BootstrapRecord
  unfolding derive_record_id
  record_document c = record { id = derive_record_id content_hash record_prefix c; content = c }

  -- `rename` takes the directory, of the given hash, to its name, unless it is there already. The
  -- Store is taken to hold no empty directory, which `rename` would replace.
  unfoldable pub install_archive : Disk → Text → Text → ℕ → Disk × Result TrustError BootstrapRecord
  unfolding write_record text_eq record_document
  install_archive d hash version sequence =
      let id = codes "bootstrap-" ++ hash in
      let r = record_document (stored_content version sequence hash) in
      elim (get id d.store) [
        | none ↦
            write_record content_hash
              (record d {
                store = put id (record { is_directory = true; tree_hash = hash }) d.store;
              })
              r
        | some a ↦
            if a.is_directory && text_eq a.tree_hash hash
            then write_record content_hash d r
            else (d, err (conflict id))
      ]

  -- The record, `recordChanged` and `restartRequired`.
  unfoldable pub stage_written :
      Disk → BootstrapRecord → Disk × Result TrustError (BootstrapRecord × Bool × Bool)
  unfolding state read_record commit text_eq
  stage_written d r = elim (state d) [
    | err e ↦ (d, err e)
    | ok s ↦ elim s.current [
      | none ↦ (d, err (missing (codes "current")))
      | some id ↦ elim (read_record content_hash d id) [
        | err e ↦ (d, err e)
        | ok current ↦
            let changed = not (text_eq current.id r.id) in
            let restart =
              not (text_eq current.content.version r.content.version)
              || not (text_eq current.content.artifact.sha256 r.content.artifact.sha256) in
            let (d', c) = commit d r.id (some id) in
            if changed
            then (d', elim c [ err e ↦ err e | ok _ ↦ ok (r, changed, restart) ])
            else (d, ok (r, changed, restart))
      ]
    ]
  ]

  unfoldable pub stage_archive :
      Disk → Text → Text → ℕ → Disk × Result TrustError (BootstrapRecord × Bool × Bool)
  unfolding install_archive stage_written
  stage_archive d hash version sequence =
      and_then (install_archive d hash version sequence) stage_written
