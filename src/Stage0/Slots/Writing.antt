-- ===== src/Stage0/Slots/Writing.antt =====
-- What `writeRecord` of slots.mjs leaves.
use dsh_docker.Prelude.{◌≡◌, refl, sym, ap, ◌∙◌, ◌⊎◌, inl, inr, Option, none, some, true, arith}
use dsh_docker.Prelude.Tests.{Bool-cases, Option-cases}
use dsh_docker.Prelude.Text.{Text, text_eq, text_eq_iff, text_eq_refl, text_eq_sound}
use dsh_docker.Prelude.Map.{get, put, get-put}
use dsh_docker.Prelude.Result.{ok, err, Result-cases}
use dsh_docker.Platform.Contracts.{
  Kind, bootstrap, environment, pristine, runtime, system_plugins, Storage, image, stored, Content,
  BootstrapRecord, TrustError, conflict, parse_artifact, parse_bootstrap_record,
}
use dsh_docker.Stage0.Slots.Disk.{
  Disk, state, read_record, write_record, same_record, same_kind, same_storage,
}
use dsh_docker.Stage0.Slots.Soundness.{Readable, IsKeyed, IsSound, Follows}

same_kind_sound : (a b : Kind) → same_kind a b ≡ true → a ≡ b
same_kind_sound bootstrap bootstrap h = refl
same_kind_sound environment environment h = refl
same_kind_sound pristine pristine h = refl
same_kind_sound runtime runtime h = refl
same_kind_sound system_plugins system_plugins h = refl
same_kind_sound _ _ h = cc

same_storage_sound : (a b : Storage) → same_storage a b ≡ true → a ≡ b
unfolding same_storage
same_storage_sound (image a) (image b) h = ap image (text_eq_sound a b h)
same_storage_sound stored stored h = refl
same_storage_sound (image a) stored h = cc
same_storage_sound stored (image b) h = cc

same_kind_refl : (a : Kind) → same_kind a a ≡ true
same_kind_refl bootstrap = refl
same_kind_refl environment = refl
same_kind_refl pristine = refl
same_kind_refl runtime = refl
same_kind_refl system_plugins = refl

same_storage_refl : (a : Storage) → same_storage a a ≡ true
unfolding same_storage
same_storage_refl (image a) = text_eq_refl a
same_storage_refl stored = refl

pub same_record_refl : (a : BootstrapRecord) → same_record a a ≡ true
unfolding same_record
same_record_refl a = ground (
  arith,
  text_eq_refl a.id,
  text_eq_refl a.content.version,
  same_storage_refl a.content.artifact.storage,
  same_kind_refl a.content.artifact.kind,
  text_eq_refl a.content.artifact.id,
  text_eq_refl a.content.artifact.sha256,
)

pub same_record_sound : (a b : BootstrapRecord) → same_record a b ≡ true → a ≡ b
unfolding same_record
same_record_sound a b h =
    let ids : a.id ≡ b.id = text_eq_sound a.id b.id (ground arith) in
    let versions = text_eq_sound a.content.version b.content.version (ground arith) in
    let sequences : a.content.target_sequence ≡ b.content.target_sequence = ground arith in
    let x = a.content.artifact in
    let y = b.content.artifact in
    let storages = same_storage_sound x.storage y.storage (ground arith) in
    let kinds = same_kind_sound x.kind y.kind (ground arith) in
    let names = text_eq_sound x.id y.id (ground arith) in
    let hashes = text_eq_sound x.sha256 y.sha256 (ground arith) in
    λ i. record {
      id = ids i;
      content = record {
        version = versions i;
        target_sequence = sequences i;
        artifact = record { storage = storages i; kind = kinds i; id = names i; sha256 = hashes i };
      };
    }

module _ (content_hash : Content → Text) where
  pub parse_bootstrap_record-ok :
      (r t : BootstrapRecord) → parse_bootstrap_record content_hash r ≡ ok t → r ≡ t
  unfolding parse_bootstrap_record
  parse_bootstrap_record-ok r t h = elim (Result-cases (parse_artifact r.content.artifact)) [
    | inl (e, bad) ↦ ground arith
    | inr (a, good) ↦ ground arith
  ]

  -- The record is there, each other record is as it was, and so are the slots.
  pub record Written (d d' : Disk) (v : BootstrapRecord) : Type 0 where
    pub there : read_record content_hash d' v.id ≡ ok v
    pub others :
        (id : Text) (r : BootstrapRecord)
        → read_record content_hash d id ≡ ok r
        → read_record content_hash d' id ≡ ok r
    pub slots : state d' ≡ state d
    pub keyed : IsKeyed content_hash d → IsKeyed content_hash d'

  others_kept :
      (d : Disk) (v : BootstrapRecord) (id : Text) (r : BootstrapRecord)
      → get v.id d.records ≡ none
      → read_record content_hash d id ≡ ok r
      → read_record content_hash
          (record d { has_records = true; records = put v.id v d.records })
          id
        ≡ ok r
  unfolding read_record
  others_kept d v id r missing h = elim (Bool-cases (text_eq v.id id)) [
    | inl same ↦
        let gone : get id d.records ≡ none = rw (sym (text_eq_sound v.id id same)) missing in
        cc (rw (gone, read_record) at h)
    | inr other ↦ rw (get-put v.id id v d.records, other, read_record) h
  ]

  IsKeyed-put :
      (d : Disk) (v : BootstrapRecord)
      → IsKeyed content_hash d
      → IsKeyed content_hash (record d { has_records = true; records = put v.id v d.records })
  IsKeyed-put d v k id r h =
      ground (arith, get-put v.id id v d.records, text_eq_iff v.id id, k id r)

  pub write_record-cases :
      (d : Disk) (v : BootstrapRecord)
      → ((e : TrustError) × (write_record content_hash d v ≡ (d, err e)))
        ⊎ ((d' : Disk) × (write_record content_hash d v ≡ (d', ok v)) × Written d d' v)
  unfolding write_record read_record state
  write_record-cases d v = elim (Result-cases (parse_bootstrap_record content_hash v)) [
    | inl (e, bad) ↦ inl (e, rw (bad, write_record))
    | inr (t, parsed) ↦
        let good : parse_bootstrap_record content_hash v ≡ ok v =
          parsed ∙ ap ok (sym (parse_bootstrap_record-ok v t parsed)) in
        elim (Option-cases (get v.id d.records)) [
          | inl missing ↦
              let d' = record d { has_records = true; records = put v.id v d.records } in
              inr (
                d',
                rw (good, missing, write_record),
                record {
                  there = rw (get-put v.id v.id v d.records, text_eq_refl v.id, read_record) good;
                  others = λ id r h. others_kept d v id r missing h;
                  slots = refl;
                  keyed = λ k. IsKeyed-put d v k;
                },
              )
          | inr (existing, found) ↦ elim (Bool-cases (same_record existing v)) [
            | inl same ↦
                let equal = same_record_sound existing v same in
                inr (
                  d,
                  rw (good, found, same, write_record),
                  record {
                    there = rw (found, equal, read_record) good;
                    others = λ id r h. h;
                    slots = refl;
                    keyed = λ k. k;
                  },
                )
            | inr differs ↦ inl (conflict v.id, rw (good, found, differs, write_record))
          ]
        ]
  ]

  Readable-Written :
      (d d' : Disk) (v : BootstrapRecord) (o : Option Text)
      → Written d d' v
      → Readable content_hash d o
      → Readable content_hash d' o
  Readable-Written d d' v none w h = tt
  Readable-Written d d' v (some id) w (r, h) = (r, w.others id r h)

  pub Follows-Written :
      (d d' : Disk) (v : BootstrapRecord) (s : IsSound content_hash d)
      → Written d d' v
      → Follows content_hash d d' s
  Follows-Written d d' v s w = record {
    sound = record {
      slots = s.slots;
      parsed = w.slots ∙ s.parsed;
      current = Readable-Written d d' v s.slots.current w s.current;
      previous = Readable-Written d d' v s.slots.previous w s.previous;
      keyed = w.keyed s.keyed;
    };
    later = omega arith;
  }

  pub write_record-written :
      (d : Disk) (v : BootstrapRecord)
      → read_record content_hash d v.id ≡ ok v
      → write_record content_hash d v ≡ (d, ok v)
  unfolding write_record read_record
  write_record-written d v h = elim (Option-cases (get v.id d.records)) [
    | inl missing ↦ cc (rw (missing, read_record) at h)
    | inr (existing, found) ↦
        let parsed : parse_bootstrap_record content_hash existing ≡ ok v =
          rw (found, read_record) at h in
        let same = parse_bootstrap_record-ok existing v parsed in
        let good : parse_bootstrap_record content_hash v ≡ ok v =
          ap (parse_bootstrap_record content_hash) (sym same) ∙ parsed in
        rw (good, found, same, same_record_refl v, write_record)
  ]

  pub read_record-get :
      (d : Disk) (id : Text) (r : BootstrapRecord)
      → read_record content_hash d id ≡ ok r
      → get id d.records ≡ some r
  unfolding read_record
  read_record-get d id r h = elim (Option-cases (get id d.records)) [
    | inl missing ↦ cc (rw (missing, read_record) at h)
    | inr (existing, found) ↦
        let parsed : parse_bootstrap_record content_hash existing ≡ ok r =
          rw (found, read_record) at h in
        found ∙ ap some (parse_bootstrap_record-ok existing r parsed)
  ]
