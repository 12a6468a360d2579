-- ===== src/Stage0/Slots/Steps.antt =====
-- The operations of slots.mjs as steps, and what holds of every disk they reach.
use mathlib.Core.Path.{subst}
use dsh_docker.Prelude.{ℕ, ◌≡◌, refl, ◌⊎◌, inl, inr, ◌++◌, Option, none, some, true, ◌&&◌, arith}
use dsh_docker.Prelude.Tests.{Bool-cases, Option-cases}
use dsh_docker.Prelude.Text.{Text, text_eq, codes}
use dsh_docker.Prelude.Map.{Map, get, put}
use dsh_docker.Prelude.Result.{ok, err, Result-cases}
use dsh_docker.Platform.Contracts.{Content, BootstrapRecord, TrustError, conflict}
use dsh_docker.Stage0.Slots.Disk.{Asset, Disk, Inventory, state, read_record, write_record}
use dsh_docker.Stage0.Slots.Operations.{
  Choice, keep, move_alone, move_over, refuse, choose, reconcile_written, reconcile_image,
  is_current, promote, rollback, stored_content, record_document, install_archive, stage_written,
  stage_archive,
}
use dsh_docker.Stage0.Slots.Soundness.{
  Readable, IsSound, Follows, Follows-refl, Follows-trans, Follows-commit,
}
use dsh_docker.Stage0.Slots.Writing.{write_record-cases, Follows-Written}

pub Choice-cases : (c : Choice) → (c ≡ keep) ⊎ ((c ≡ move_alone) ⊎ ((c ≡ move_over) ⊎ (c ≡ refuse)))
Choice-cases keep = inl refl
Choice-cases move_alone = inr (inl refl)
Choice-cases move_over = inr (inr (inl refl))
Choice-cases refuse = inr (inr (inr refl))

module _ (content_hash : Content → Text) where
  -- The record of a slot that is not empty.
  pub slot_record :
      (d : Disk) (o : Option Text) (id : Text)
      → o ≡ some id
      → Readable content_hash d o
      → Readable content_hash d (some id)
  slot_record d o id e r = subst (Readable content_hash d) e r

  Follows-chosen :
      (i : Inventory) (d : Disk) (img current : BootstrapRecord) (id : Text)
      (h : IsSound content_hash d)
      → h.slots.current ≡ some id
      → Readable content_hash d (some img.id)
      → read_record content_hash d id ≡ ok current
      → Follows content_hash d (reconcile_written content_hash i d img).0 h
  unfolding reconcile_written
  Follows-chosen i d img current id h e r known = elim (Choice-cases (choose i img current)) [
    | inl kept ↦ rw (h.parsed, e, known, kept, reconcile_written) (Follows-refl content_hash d h)
    | inr (inl alone) ↦
        rw (h.parsed, e, known, alone, reconcile_written)
          (Follows-commit content_hash d img.id none h r tt)
    | inr (inr (inl over)) ↦
        rw (h.parsed, e, known, over, reconcile_written)
          (Follows-commit content_hash d img.id (some id) h r (current, known))
    | inr (inr (inr refused)) ↦
        rw (h.parsed, e, known, refused, reconcile_written) (Follows-refl content_hash d h)
  ]

  Follows-reconcile_written :
      (i : Inventory) (d : Disk) (img : BootstrapRecord) (h : IsSound content_hash d)
      → Readable content_hash d (some img.id)
      → Follows content_hash d (reconcile_written content_hash i d img).0 h
  unfolding reconcile_written
  Follows-reconcile_written i d img h r = elim (Option-cases h.slots.current) [
    | inl empty ↦
        rw (h.parsed, empty, reconcile_written) (Follows-commit content_hash d img.id none h r tt)
    | inr (id, e) ↦
        let (current, known) = slot_record d h.slots.current id e h.current in
        Follows-chosen i d img current id h e r known
  ]

  pub Follows-reconcile_image :
      (i : Inventory) (d : Disk) (v : BootstrapRecord) (h : IsSound content_hash d)
      → Follows content_hash d (reconcile_image content_hash i d v).0 h
  unfolding reconcile_image
  Follows-reconcile_image i d v h = elim (write_record-cases content_hash d v) [
    | inl (e, bad) ↦ rw (bad, reconcile_image) (Follows-refl content_hash d h)
    | inr (d', good, w) ↦
        let f = Follows-Written content_hash d d' v h w in
        rw (good, reconcile_image)
          (Follows-trans content_hash d d' (reconcile_written content_hash i d' v).0 h f
            (Follows-reconcile_written i d' v f.sound (v, w.there)))
  ]

  pub Follows-promote :
      (d : Disk) (id : Text) (h : IsSound content_hash d)
      → Follows content_hash d (promote content_hash d id).0 h
  unfolding promote
  Follows-promote d id h = elim (Result-cases (read_record content_hash d id)) [
    | inl (e, bad) ↦ rw (bad, promote) (Follows-refl content_hash d h)
    | inr (r, known) ↦ elim (Bool-cases (is_current h.slots.current id)) [
      | inl same ↦ rw (known, h.parsed, same, promote) (Follows-refl content_hash d h)
      | inr other ↦
          rw (known, h.parsed, other, promote)
            (Follows-commit content_hash d id h.slots.current h (r, known) h.current)
    ]
  ]

  pub Follows-rollback :
      (d : Disk) (h : IsSound content_hash d) → Follows content_hash d (rollback content_hash d).0 h
  unfolding rollback
  Follows-rollback d h = elim (Option-cases h.slots.previous) [
    | inl empty ↦ rw (h.parsed, empty, rollback) (Follows-refl content_hash d h)
    | inr (p, e) ↦
        let (r, known) = slot_record d h.slots.previous p e h.previous in
        rw (h.parsed, e, known, rollback)
          (Follows-commit content_hash d p h.slots.current h (r, known) h.current)
  ]

  Follows-stage_written :
      (d : Disk) (v : BootstrapRecord) (h : IsSound content_hash d)
      → Readable content_hash d (some v.id)
      → Follows content_hash d (stage_written content_hash d v).0 h
  unfolding stage_written
  Follows-stage_written d v h r = elim (Option-cases h.slots.current) [
    | inl empty ↦ rw (h.parsed, empty, stage_written) (Follows-refl content_hash d h)
    | inr (id, e) ↦
        let (current, known) = slot_record d h.slots.current id e h.current in
        elim (Bool-cases (text_eq current.id v.id)) [
          | inl same ↦ rw (h.parsed, e, known, same, stage_written) (Follows-refl content_hash d h)
          | inr changed ↦
              rw (h.parsed, e, known, changed, stage_written)
                (Follows-commit content_hash d v.id (some id) h r (current, known))
        ]
  ]

  Readable-store :
      (d : Disk) (m : Map Asset) (o : Option Text)
      → Readable content_hash d o
      → Readable content_hash (record d { store = m }) o
  unfolding read_record
  Readable-store d m none h = tt
  Readable-store d m (some id) h = h

  -- Another Store is no matter to the slots.
  Follows-store :
      (d : Disk) (m : Map Asset) (h : IsSound content_hash d)
      → Follows content_hash d (record d { store = m }) h
  unfolding state
  Follows-store d m h = record {
    sound = record {
      slots = h.slots;
      parsed = h.parsed;
      current = Readable-store d m h.slots.current h.current;
      previous = Readable-store d m h.slots.previous h.previous;
      keyed = h.keyed;
    };
    later = omega arith;
  }

  -- What an installation gives back is what it has written.
  Installed : Disk → Text → Text → ℕ → Type 0
  Installed d hash version sequence =
      let v = record_document content_hash (stored_content content_hash version sequence hash) in
      (h : IsSound content_hash d)
      → ((d' : Disk) × (e : TrustError) × (install_archive content_hash d hash version sequence
            ≡ (d', err e))
          × Follows content_hash d d' h)
        ⊎ ((d' : Disk) × (install_archive content_hash d hash version sequence ≡ (d', ok v))
            × (read_record content_hash d' v.id ≡ ok v)
            × Follows content_hash d d' h)

  installs_over :
      (d : Disk) (v : BootstrapRecord) (h : IsSound content_hash d)
      → ((d' : Disk) × (e : TrustError) × (write_record content_hash d v ≡ (d', err e))
          × Follows content_hash d d' h)
        ⊎ ((d' : Disk) × (write_record content_hash d v ≡ (d', ok v))
            × (read_record content_hash d' v.id ≡ ok v)
            × Follows content_hash d d' h)
  installs_over d v h = elim (write_record-cases content_hash d v) [
    | inl (e, bad) ↦ inl (d, e, bad, Follows-refl content_hash d h)
    | inr (d', good, w) ↦ inr (d', good, w.there, Follows-Written content_hash d d' v h w)
  ]

  installs : (d : Disk) (hash version : Text) (sequence : ℕ) → Installed d hash version sequence
  unfolding Installed install_archive
  installs d hash version sequence h =
      let v = record_document content_hash (stored_content content_hash version sequence hash) in
      let id = codes "bootstrap-" ++ hash in
      elim (Option-cases (get id d.store)) [
        | inl missing ↦
            let more = put id (record { is_directory = true; tree_hash = hash }) d.store in
            let f = Follows-store d more h in
            rw (missing, install_archive)
              (elim (installs_over (record d { store = more }) v f.sound) [
                | inl (d', e, bad, g) ↦
                    inl (
                      d',
                      e,
                      bad,
                      Follows-trans content_hash d (record d { store = more }) d' h f g,
                    )
                | inr (d', good, there, g) ↦ inr (
                  d',
                  good,
                  there,
                  Follows-trans content_hash d (record d { store = more }) d' h f g,
                )
              ])
        | inr (a, found) ↦ elim (Bool-cases (a.is_directory && text_eq a.tree_hash hash)) [
          | inl same ↦ rw (found, same, install_archive) (installs_over d v h)
          | inr other ↦
              inl
                (d, conflict id, rw (found, other, install_archive), Follows-refl content_hash d h)
        ]
      ]

  pub Follows-install_archive :
      (d : Disk) (hash version : Text) (sequence : ℕ) (h : IsSound content_hash d)
      → Follows content_hash d (install_archive content_hash d hash version sequence).0 h
  unfolding Installed
  Follows-install_archive d hash version sequence h = elim (installs d hash version sequence h) [
    | inl (d', e, bad, f) ↦ rw bad f
    | inr (d', good, there, f) ↦ rw good f
  ]

  pub Follows-stage_archive :
      (d : Disk) (hash version : Text) (sequence : ℕ) (h : IsSound content_hash d)
      → Follows content_hash d (stage_archive content_hash d hash version sequence).0 h
  unfolding Installed stage_archive
  Follows-stage_archive d hash version sequence h = elim (installs d hash version sequence h) [
    | inl (d', e, bad, f) ↦ rw (bad, stage_archive) f
    | inr (d', good, there, f) ↦
        let v = record_document content_hash (stored_content content_hash version sequence hash) in
        rw (good, stage_archive)
          (Follows-trans content_hash d d' (stage_written content_hash d' v).0 h f
            (Follows-stage_written d' v f.sound (v, there)))
  ]
