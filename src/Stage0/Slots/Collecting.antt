-- ===== src/Stage0/Slots/Collecting.antt =====
-- What a collection of slots.mjs keeps, and what it does beside another operation.
use mathlib.Core.Path.{subst}
use dsh_docker.Prelude.{
  ◌+◌, ◌≡◌, refl, ◌∙◌, ◌⊎◌, inl, inr, List, [], ◌∷◌, none, some, Bool, true, false, arith,
}
use dsh_docker.Prelude.Tests.{Bool-cases, Option-cases}
use dsh_docker.Prelude.Text.{Text, text_eq, text_eq_refl}
use dsh_docker.Prelude.Map.{Map, get, delete, get-delete}
use dsh_docker.Prelude.Result.{ok, err, Result-cases}
use dsh_docker.Platform.Contracts.{Content, BootstrapRecord, Slots, missing, image, stored, Storage}
use dsh_docker.Stage0.Slots.Disk.{Disk, Inventory, state, other_than, read_record}
use dsh_docker.Stage0.Slots.Operations.{resolve_record, place_of, stage_written}
use dsh_docker.Stage0.Slots.Collection.{is_retained, remove_records, collect_garbage, parse_records}
use dsh_docker.Stage0.Slots.Soundness.{IsSound, commit-cases}
use dsh_docker.Stage0.Slots.Writing.{read_record-get}
use dsh_docker.Stage0.Slots.Reach.{
  collected, collect_garbage-cases, read_record-collected, asset_kept,
}

Storage-cases : (s : Storage) → ((build : Text) × (s ≡ image build)) ⊎ (s ≡ stored)
Storage-cases (image build) = inl (build, refl)
Storage-cases stored = inr refl

-- What stands under the identifier of a record that is not retained is removed.
remove_records-none :
    (s : Slots) (id : Text) (rs m : Map BootstrapRecord)
    → get id m ≡ none
    → get id (remove_records s rs m) ≡ none
unfolding remove_records
remove_records-none s id [] m h = h
remove_records-none s id ((k, q) ∷ rs) m h = elim (Bool-cases (is_retained s q.id)) [
  | inl retained ↦ rw (retained, remove_records) (remove_records-none s id rs m h)
  | inr removed ↦
      rw (removed, remove_records)
        (remove_records-none s id rs (delete q.id m) (ground (arith, get-delete q.id id m)))
]

get-removed :
    (s : Slots) (id : Text) (rs m : Map BootstrapRecord) (r : BootstrapRecord)
    → get id rs ≡ some r
    → r.id ≡ id
    → is_retained s id ≡ false
    → get id (remove_records s rs m) ≡ none
unfolding get remove_records
get-removed s id [] m r found named loose = cc
get-removed s id ((k, q) ∷ rs) m r found named loose = elim (Bool-cases (text_eq k id)) [
  | inl hit ↦
      let equal : q ≡ r = ground arith in
      let gone : is_retained s q.id ≡ false = rw (equal, named) loose in
      let out : get id (delete q.id m) ≡ none =
        get-delete q.id id m ∙ rw (equal, named) (ground (arith, text_eq_refl id)) in
      rw (gone, remove_records) (remove_records-none s id rs (delete q.id m) out)
  | inr miss ↦
      let below = λ (n : Map BootstrapRecord). get-removed s id rs n r (ground arith) named loose in
      below _
]

module _ (content_hash : Content → Text) where
  place_of-collected :
      (i : Inventory) (d : Disk) (s : Slots) (id : Text) (r : BootstrapRecord)
      → get id d.records ≡ some r
      → r.id ≡ id
      → is_retained s id ≡ true
      → place_of i (collected content_hash d s) r.content.artifact ≡ place_of i d r.content.artifact
  unfolding place_of
  place_of-collected i d s id r found named k = elim (Storage-cases r.content.artifact.storage) [
    | inl (build, e) ↦ rw (e, place_of)
    | inr e ↦ rw (e, asset_kept content_hash d s id r found named k e, place_of)
  ]

  resolve_record-collected :
      (i : Inventory) (d : Disk) (h : IsSound content_hash d) (id : Text)
      → is_retained h.slots id ≡ true
      → resolve_record content_hash i (collected content_hash d h.slots) id
        ≡ resolve_record content_hash i d id
  unfolding resolve_record
  resolve_record-collected i d h id k =
      let s = h.slots in
      let same = read_record-collected content_hash d s id k in
      elim (Result-cases (read_record content_hash d id)) [
        | inl (e, bad) ↦ rw (same, bad, resolve_record)
        | inr (r, known) ↦
            let found = read_record-get content_hash d id r known in
            rw (
              same,
              known,
              place_of-collected i d s id r found (h.keyed id r found) k,
              resolve_record,
            )
      ]

  -- On a sound disk a collection does not change what the identifier of either slot resolves to.
  pub resolve_record-collect_garbage :
      (i : Inventory) (d : Disk) (h : IsSound content_hash d) (id : Text)
      → is_retained h.slots id ≡ true
      → resolve_record content_hash i (collect_garbage content_hash d).0 id
        ≡ resolve_record content_hash i d id
  resolve_record-collect_garbage i d h id k =
      elim (collect_garbage-cases content_hash d h.slots h.parsed) [
        | inl same ↦ rw same
        | inr done ↦ rw done (resolve_record-collected i d h id k)
      ]

  collect_garbage-ok :
      (d : Disk) (s : Slots) (x : List Text × List Text)
      → state d ≡ ok s
      → d.has_records ≡ true
      → (collect_garbage content_hash d).1 ≡ ok x
      → (collect_garbage content_hash d).0 ≡ collected content_hash d s
  unfolding collect_garbage
  collect_garbage-ok d s x h full done =
      elim (Result-cases (parse_records content_hash d.records)) [
        | inl (e, bad) ↦ ground arith
        | inr (a, good) ↦ ground arith
      ]

  -- `stageArchive` commits to a record that is no longer there.
  stage_written-missing :
      (d d' : Disk) (v : BootstrapRecord) (s : Slots) (restart : Bool)
      → state d ≡ ok s
      → get v.id d.records ≡ none
      → stage_written content_hash d v ≡ (d', ok (v, true, restart))
      → (t : Slots) × (state d' ≡ ok t)
        × (t.current ≡ some v.id)
        × (read_record content_hash d' v.id ≡ err (missing v.id))
  unfolding stage_written read_record
  stage_written-missing d d' v s restart h gone staged = elim (Option-cases s.current) [
    | inl empty ↦ ground arith
    | inr (id, e) ↦ elim (Result-cases (read_record content_hash d id)) [
      | inl (x, bad) ↦ ground arith
      | inr (r, known) ↦ elim (Bool-cases (text_eq r.id v.id)) [
        | inl same ↦ ground arith
        | inr other ↦ elim (commit-cases d v.id (some id) s h) [
          | inl (x, bad) ↦ ground arith
          | inr (changed, parsed) ↦
              let w : Slots = record {
                generation = s.generation + 1;
                current = some v.id;
                previous = other_than v.id (some id);
              } in
              let moved : Disk = record d { slots = some w } in
              let result : moved ≡ d' = ground arith in
              (
                w,
                subst (λ (x : Disk). state x ≡ ok w) result parsed,
                refl,
                subst (λ (x : Disk). read_record content_hash x v.id ≡ err (missing v.id)) result
                    (rw (gone, read_record)),
              )
        ]
      ]
    ]
  ]

  -- If a collection succeeds after an installation wrote a record that no slot names, and before
  -- its commit, a commit that then succeeds makes a record current that is missing.
  pub stage_written-collect_garbage :
      (d d' : Disk) (h : IsSound content_hash d) (v : BootstrapRecord) (restart : Bool)
      (x : List Text × List Text)
      → d.has_records ≡ true
      → get v.id d.records ≡ some v
      → is_retained h.slots v.id ≡ false
      → (collect_garbage content_hash d).1 ≡ ok x
      → stage_written content_hash (collect_garbage content_hash d).0 v
        ≡ (d', ok (v, true, restart))
      → (t : Slots) × (state d' ≡ ok t)
        × (t.current ≡ some v.id)
        × (read_record content_hash d' v.id ≡ err (missing v.id))
  unfolding state
  stage_written-collect_garbage d d' h v restart x full there loose done staged =
      let s = h.slots in
      let same = collect_garbage-ok d s x h.parsed full done in
      stage_written-missing (collected content_hash d s) d' v s restart h.parsed
        (get-removed s v.id d.records d.records v there refl loose) (rw same at staged)
