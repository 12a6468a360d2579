-- ===== src/Stage0/Slots/Laws.antt =====
-- The sequences of operations of slots.mjs, and what single operations promise.
use mathlib.Core.Path.{subst}
use dsh_docker.Prelude.{ℕ, ◌≤◌, ◌≡◌, refl, inl, inr, Option, none, some, arith}
use dsh_docker.Prelude.Tests.{Option-cases}
use dsh_docker.Prelude.Text.{Text, text_eq_refl}
use dsh_docker.Prelude.Result.{Result, ok, err}
use dsh_docker.Platform.Contracts.{Content, BootstrapRecord, Slots, TrustError}
use dsh_docker.Stage0.Slots.Disk.{Disk, Inventory, state, commit, read_record}
use dsh_docker.Stage0.Slots.Operations.{
  keep, choose, reconcile_written, reconcile_image, promote, rollback, install_archive,
  stage_archive,
}
use dsh_docker.Stage0.Slots.Collection.{collect_garbage}
use dsh_docker.Stage0.Slots.Soundness.{IsSound, Follows, Follows-refl, Follows-trans, commit-cases}
use dsh_docker.Stage0.Slots.Writing.{write_record-cases, write_record-written, Follows-Written}
use dsh_docker.Stage0.Slots.Steps.{
  Choice-cases, slot_record, Follows-reconcile_image, Follows-promote, Follows-rollback,
  Follows-install_archive, Follows-stage_archive,
}
use dsh_docker.Stage0.Slots.Reach.{Follows-collect_garbage}

module _ (content_hash : Content → Text) (i : Inventory) where
  -- One operation, not interrupted.
  pub data Step : Disk → Disk → Type 0 where
    reconcile : (d : Disk) (v : BootstrapRecord) → Step d (reconcile_image content_hash i d v).0
    promotion : (d : Disk) (id : Text) → Step d (promote content_hash d id).0
    going_back : (d : Disk) → Step d (rollback content_hash d).0
    installation :
        (d : Disk) (hash version : Text) (sequence : ℕ)
        → Step d (install_archive content_hash d hash version sequence).0
    staging :
        (d : Disk) (hash version : Text) (sequence : ℕ)
        → Step d (stage_archive content_hash d hash version sequence).0
    collection : (d : Disk) → Step d (collect_garbage content_hash d).0

  pub data Reach : Disk → Disk → Type 0 where
    here : (d : Disk) → Reach d d
    onward : {d d' d'' : Disk} → Reach d d' → Step d' d'' → Reach d d''

  Follows-Step :
      {d d' : Disk} → Step d d' → (h : IsSound content_hash d) → Follows content_hash d d' h
  Follows-Step (reconcile d v) h = Follows-reconcile_image content_hash i d v h
  Follows-Step (promotion d id) h = Follows-promote content_hash d id h
  Follows-Step (going_back d) h = Follows-rollback content_hash d h
  Follows-Step (installation d hash version sequence) h =
      Follows-install_archive content_hash d hash version sequence h
  Follows-Step (staging d hash version sequence) h =
      Follows-stage_archive content_hash d hash version sequence h
  Follows-Step (collection d) h = Follows-collect_garbage content_hash d h

  -- However whole operations follow each other, from a sound disk each disk that is reached is
  -- sound: its slots parse, each slot is empty or names a record that can be read, and every
  -- record lies under its identifier; and the generation of the slots is no lower than it was.
  pub Reach-Follows :
      {d d' : Disk} → Reach d d' → (h : IsSound content_hash d) → Follows content_hash d d' h
  Reach-Follows (here d) h = Follows-refl content_hash d h
  Reach-Follows (onward {d} {d'} {d''} r s) h =
      let f = Reach-Follows r h in Follows-trans content_hash d d' d'' h f (Follows-Step s f.sound)

  choose_self : (v : BootstrapRecord) → choose i v v ≡ keep
  unfolding choose
  choose_self v = ground (
    arith,
    text_eq_refl v.id,
    text_eq_refl v.content.version,
    text_eq_refl v.content.artifact.sha256,
  )

  pub choose-keep :
      (v r : BootstrapRecord)
      → choose i v r ≡ keep
      → v.content.target_sequence ≤ r.content.target_sequence
  unfolding choose
  choose-keep v r h = ground arith

  -- The slots are what reconciling the image would choose again.
  record Settled (d : Disk) (v : BootstrapRecord) (s : Slots) : Type 0 where
    pub parsed : state d ≡ ok s
    pub id : Text
    pub current : BootstrapRecord
    pub named : s.current ≡ some id
    pub known : read_record content_hash d id ≡ ok current
    pub chosen : choose i v current ≡ keep
    pub there : read_record content_hash d v.id ≡ ok v

  -- An outcome that is an error, or settled slots.
  abbrev Settles : BootstrapRecord → Disk × Result TrustError Slots → Type 0
  Settles v (d, err e) = Unit {0}
  Settles v (d, ok s) = Settled d v s

  Settles-commit :
      (d : Disk) (v : BootstrapRecord) (previous : Option Text) (s : Slots)
      → state d ≡ ok s
      → read_record content_hash d v.id ≡ ok v
      → Settles v (commit d v.id previous)
  unfolding read_record
  Settles-commit d v previous s h there = elim (commit-cases d v.id previous s h) [
    | inl (e, bad) ↦ rw bad tt
    | inr (changed, parsed) ↦ rw changed (record {
      parsed = parsed;
      id = v.id;
      current = v;
      named = refl;
      known = there;
      chosen = choose_self v;
      there = there;
    })
  ]

  Settles-chosen :
      (d : Disk) (v current : BootstrapRecord) (id : Text) (s : Slots)
      → state d ≡ ok s
      → s.current ≡ some id
      → read_record content_hash d id ≡ ok current
      → read_record content_hash d v.id ≡ ok v
      → Settles v (reconcile_written content_hash i d v)
  unfolding reconcile_written
  Settles-chosen d v current id s h e known there = elim (Choice-cases (choose i v current)) [
    | inl kept ↦
        rw (h, e, known, kept, reconcile_written)
          (record {
            parsed = h;
            id = id;
            current = current;
            named = e;
            known = known;
            chosen = kept;
            there = there;
          })
    | inr (inl alone) ↦
        rw (h, e, known, alone, reconcile_written) (Settles-commit d v none s h there)
    | inr (inr (inl over)) ↦
        rw (h, e, known, over, reconcile_written) (Settles-commit d v (some id) s h there)
    | inr (inr (inr refused)) ↦ rw (h, e, known, refused, reconcile_written) tt
  ]

  Settles-reconcile_written :
      (d : Disk) (v : BootstrapRecord)
      → IsSound content_hash d
      → read_record content_hash d v.id ≡ ok v
      → Settles v (reconcile_written content_hash i d v)
  unfolding reconcile_written
  Settles-reconcile_written d v h there = elim (Option-cases h.slots.current) [
    | inl empty ↦
        rw (h.parsed, empty, reconcile_written) (Settles-commit d v none h.slots h.parsed there)
    | inr (id, e) ↦
        let (current, known) = slot_record content_hash d h.slots.current id e h.current in
        Settles-chosen d v current id h.slots h.parsed e known there
  ]

  Settles-reconcile_image :
      (d : Disk) (v : BootstrapRecord)
      → IsSound content_hash d
      → Settles v (reconcile_image content_hash i d v)
  unfolding reconcile_image
  Settles-reconcile_image d v h = elim (write_record-cases content_hash d v) [
    | inl (e, bad) ↦ rw (bad, reconcile_image) tt
    | inr (d', good, w) ↦
        rw (good, reconcile_image)
          (Settles-reconcile_written d' v (Follows-Written content_hash d d' v h w).sound w.there)
  ]

  settled :
      (d d' : Disk) (v : BootstrapRecord) (s : Slots)
      → IsSound content_hash d
      → reconcile_image content_hash i d v ≡ (d', ok s)
      → Settled d' v s
  settled d d' v s h e = subst (Settles v) e (Settles-reconcile_image d v h)

  -- Reconciling the same image once more changes nothing and gives the same slots, if the first
  -- time succeeded on a sound disk.
  pub reconcile_image_idempotent :
      (d d' : Disk) (v : BootstrapRecord) (s : Slots)
      → IsSound content_hash d
      → reconcile_image content_hash i d v ≡ (d', ok s)
      → reconcile_image content_hash i d' v ≡ (d', ok s)
  unfolding reconcile_image reconcile_written
  reconcile_image_idempotent d d' v s h e =
      let z = settled d d' v s h e in
      let parsed = z.parsed in
      let named = z.named in
      let known = z.known in
      let chosen = z.chosen in
      rw (write_record-written content_hash d' v z.there, reconcile_image) (ground arith)

  -- After an image was reconciled on a sound disk, the slots that are answered are those that are
  -- read back from the disk, and the current one names a record that can be read and whose target
  -- sequence is not below the image's.
  pub reconcile_image_current :
      (d d' : Disk) (v : BootstrapRecord) (s : Slots)
      → IsSound content_hash d
      → reconcile_image content_hash i d v ≡ (d', ok s)
      → (id : Text) × (r : BootstrapRecord) × (state d' ≡ ok s)
        × (s.current ≡ some id)
        × (read_record content_hash d' id ≡ ok r)
        × (v.content.target_sequence ≤ r.content.target_sequence)
  reconcile_image_current d d' v s h e =
      let z = settled d d' v s h e in
      (z.id, z.current, z.parsed, z.named, z.known, choose-keep v z.current z.chosen)
