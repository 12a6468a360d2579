-- ===== src/Stage0/Slots/Reach.antt =====
-- What `collectGarbage` of slots.mjs leaves, and what holds however the operations follow each other.
use dsh_docker.Prelude.{
  ◌≡◌, refl, sym, ◌∙◌, ◌⊎◌, inl, inr, [], ◌∷◌, Option, none, some, true, not, arith,
}
use dsh_docker.Prelude.Tests.{Bool-cases, Option-cases}
use dsh_docker.Prelude.Text.{Text, text_eq, text_eq_refl, text_eq_sound}
use dsh_docker.Prelude.Map.{Map, get, delete, get-delete, retain, retain-get, retain-none}
use dsh_docker.Prelude.Result.{ok, Result-cases}
use dsh_docker.Platform.Contracts.{Content, BootstrapRecord, Slots, stored}
use dsh_docker.Stage0.Slots.Disk.{Asset, Disk, state, read_record}
use dsh_docker.Stage0.Slots.Operations.{is_current}
use dsh_docker.Stage0.Slots.Collection.{
  is_retained, keeps_asset, remove_records, parse_records, collectable, collect_garbage,
}
use dsh_docker.Stage0.Slots.Soundness.{Readable, IsSound, Follows, Follows-refl}

get-remove_records :
    (s : Slots) (id : Text) (rs m : Map BootstrapRecord)
    → is_retained s id ≡ true
    → get id (remove_records s rs m) ≡ get id m
unfolding remove_records
get-remove_records s id [] m h = refl
get-remove_records s id ((k, r) ∷ rs) m h = elim (Bool-cases (is_retained s r.id)) [
  | inl retained ↦ rw (retained, remove_records) (get-remove_records s id rs m h)
  | inr removed ↦
      rw (removed, remove_records)
        (get-remove_records s id rs (delete r.id m) h
          ∙ ground (arith, get-delete r.id id m, text_eq_sound r.id id))
]

remove_records-sub :
    (s : Slots) (id : Text) (r : BootstrapRecord) (rs m : Map BootstrapRecord)
    → get id (remove_records s rs m) ≡ some r
    → get id m ≡ some r
unfolding remove_records
remove_records-sub s id r [] m h = h
remove_records-sub s id r ((k, q) ∷ rs) m h = elim (Bool-cases (is_retained s q.id)) [
  | inl retained ↦ remove_records-sub s id r rs m (rw (retained, remove_records) at h)
  | inr removed ↦
      let below =
        remove_records-sub s id r rs (delete q.id m) (rw (removed, remove_records) at h) in
      ground (arith, get-delete q.id id m)
]

is_retained-current : (s : Slots) (id : Text) → s.current ≡ some id → is_retained s id ≡ true
unfolding is_retained is_current
is_retained-current s id h = rw (h, is_retained) (ground (arith, text_eq_refl id))

is_retained-previous : (s : Slots) (id : Text) → s.previous ≡ some id → is_retained s id ≡ true
unfolding is_retained is_current
is_retained-previous s id h = rw (h, is_retained) (ground (arith, text_eq_refl id))

keeps_asset-get :
    (s : Slots) (id : Text) (r : BootstrapRecord) (m : Map BootstrapRecord)
    → get id m ≡ some r
    → is_retained s r.id ≡ true
    → r.content.artifact.storage ≡ stored
    → keeps_asset s r.content.artifact.id m ≡ true
unfolding keeps_asset get
keeps_asset-get s id r [] h k e = cc
keeps_asset-get s id r ((j, q) ∷ m) h k e = elim (Bool-cases (text_eq j id)) [
  | inl same ↦
      let equal : q ≡ r = ground arith in rw equal (rw (k, e, text_eq_refl r.content.artifact.id))
  | inr other ↦ ground (arith, keeps_asset-get s id r m)
]

module _ (content_hash : Content → Text) where
  -- What is left of a sound disk when the collection comes to its removals.
  abbrev pub collected : Disk → Slots → Disk
  collected d s = record d {
    records = remove_records s d.records d.records;
    store = retain (λ name a. not (collectable s d.records name a)) d.store;
  }

  pub collect_garbage-cases :
      (d : Disk) (s : Slots)
      → state d ≡ ok s
      → ((collect_garbage content_hash d).0 ≡ d)
        ⊎ ((collect_garbage content_hash d).0 ≡ collected d s)
  unfolding collect_garbage
  collect_garbage-cases d s h = elim (Bool-cases d.has_records) [
    | inr missing ↦ inl (ground arith)
    | inl there ↦ elim (Result-cases (parse_records content_hash d.records)) [
      | inl (e, bad) ↦ inl (ground arith)
      | inr (a, good) ↦ inr (ground arith)
    ]
  ]

  pub read_record-collected :
      (d : Disk) (s : Slots) (id : Text)
      → is_retained s id ≡ true
      → read_record content_hash (collected d s) id ≡ read_record content_hash d id
  unfolding read_record
  read_record-collected d s id h = rw (get-remove_records s id d.records d.records h, read_record)

  Readable-collected :
      (d : Disk) (s : Slots) (o : Option Text)
      → ((id : Text) → o ≡ some id → is_retained s id ≡ true)
      → Readable content_hash d o
      → Readable content_hash (collected d s) o
  Readable-collected d s none k h = tt
  Readable-collected d s (some id) k (r, h) = (r, read_record-collected d s id (k id refl) ∙ h)

  Follows-collected :
      (d : Disk) (h : IsSound content_hash d) → Follows content_hash d (collected d h.slots) h
  unfolding state
  Follows-collected d h =
      let s = h.slots in
      record {
        sound = record {
          slots = s;
          parsed = h.parsed;
          current = Readable-collected d s s.current (λ id e. is_retained-current s id e) h.current;
          previous =
              Readable-collected d s s.previous (λ id e. is_retained-previous s id e) h.previous;
          keyed = λ id r e. h.keyed id r (remove_records-sub s id r d.records d.records e);
        };
        later = omega arith;
      }

  pub Follows-collect_garbage :
      (d : Disk) (h : IsSound content_hash d)
      → Follows content_hash d (collect_garbage content_hash d).0 h
  Follows-collect_garbage d h = elim (collect_garbage-cases d h.slots h.parsed) [
    | inl same ↦ rw same (Follows-refl content_hash d h)
    | inr done ↦ rw done (Follows-collected d h)
  ]

  -- The asset of a retained record is not collected.
  pub asset_kept :
      (d : Disk) (s : Slots) (id : Text) (r : BootstrapRecord)
      → get id d.records ≡ some r
      → r.id ≡ id
      → is_retained s id ≡ true
      → r.content.artifact.storage ≡ stored
      → get r.content.artifact.id (collected d s).store ≡ get r.content.artifact.id d.store
  unfolding collectable
  asset_kept d s id r found named k e =
      let name = r.content.artifact.id in
      let test = λ (n : Text) (a : Asset). not (collectable s d.records n a) in
      let keeps = keeps_asset-get s id r d.records found (rw named k) e in
      elim (Option-cases (get name d.store)) [
        | inl missing ↦ retain-none test name d.store missing ∙ sym missing
        | inr (a, there) ↦
            retain-get test name a d.store there (rw keeps (ground arith)) ∙ sym there
      ]
