-- ===== src/Stage0/Slots/Collection.antt =====
-- slots.mjs: `collectGarbage`.
use dsh_docker.Prelude.{List, [], ◌∷◌, Bool, true, false, ◌&&◌, ◌||◌, not}
use dsh_docker.Prelude.Tests.{ltb, ◌==◌, if◌then◌else◌}
use dsh_docker.Prelude.Text.{Text, text_eq, codes, starts_with}
use dsh_docker.Prelude.Map.{Map, retain, delete}
use dsh_docker.Prelude.Result.{Result, ok, err, ◌>>=◌}
use dsh_docker.Platform.Contracts.{
  Storage, image, stored, Content, BootstrapRecord, Slots, TrustError, parse_bootstrap_record,
}
use dsh_docker.Stage0.Slots.Disk.{Asset, Disk, state}
use dsh_docker.Stage0.Slots.Operations.{is_current}

abbrev is_stored : Storage → Bool
is_stored stored = true
is_stored (image _) = false

-- `retainedRecords.has(id)`
unfoldable pub is_retained : Slots → Text → Bool
unfolding is_current
is_retained s id = is_current s.current id || is_current s.previous id

-- `retainedAssets.has(name)`, after the loop over the records.
unfoldable pub keeps_asset : Slots → Text → Map BootstrapRecord → Bool
unfolding is_retained text_eq
keeps_asset s name [] = false
keeps_asset s name ((_, r) ∷ m) =
    (is_retained s r.id
      && (is_stored r.content.artifact.storage && text_eq r.content.artifact.id name))
    || keeps_asset s name m

-- The removal of each record that is not retained, at the place that its identifier names.
unfoldable pub remove_records :
    Slots → Map BootstrapRecord → Map BootstrapRecord → Map BootstrapRecord
unfolding is_retained
remove_records s [] m = m
remove_records s ((_, r) ∷ rs) m =
    remove_records s rs (if is_retained s r.id then m else delete r.id m)

-- `left < right` on strings.
unfoldable pub text_ltb : Text → Text → Bool
text_ltb a [] = false
text_ltb [] (y ∷ ys) = true
text_ltb (x ∷ xs) (y ∷ ys) = ltb x y || ((x == y) && text_ltb xs ys)

unfoldable pub insert_text : Text → List Text → List Text
unfolding text_ltb
insert_text t [] = t ∷ []
insert_text t (u ∷ us) =
    let rest = insert_text t us in if text_ltb u t then u ∷ rest else t ∷ u ∷ us

-- `names.sort()`
unfoldable pub sort_texts : List Text → List Text
unfolding insert_text
sort_texts [] = []
sort_texts (t ∷ ts) = insert_text t (sort_texts ts)

unfoldable pub collectable : Slots → Map BootstrapRecord → Text → Asset → Bool
unfolding keeps_asset starts_with
collectable s records name a =
    not (starts_with name (codes ".")) && (not (keeps_asset s name records) && a.is_directory)

unfoldable pub removed_assets : Slots → Map BootstrapRecord → Map Asset → List Text
unfolding collectable
removed_assets s records [] = []
removed_assets s records ((name, a) ∷ m) =
    let rest = removed_assets s records m in
    if collectable s records name a then name ∷ rest else rest

unfoldable pub removed_records : Slots → Map BootstrapRecord → List Text
unfolding is_retained
removed_records s [] = []
removed_records s ((_, r) ∷ rs) =
    let rest = removed_records s rs in if is_retained s r.id then rest else r.id ∷ rest

module _ (content_hash : Content → Text) where
  -- Every record is parsed before anything is removed.
  unfoldable pub parse_records : Map BootstrapRecord → Result TrustError (Unit {0})
  unfolding parse_bootstrap_record
  parse_records [] = ok tt
  parse_records ((_, r) ∷ m) = do _ ← parse_bootstrap_record content_hash r; parse_records m

  -- The assets and the records that are removed.
  unfoldable pub collect_garbage : Disk → Disk × Result TrustError (List Text × List Text)
  unfolding state parse_records collectable remove_records sort_texts removed_assets removed_records
  collect_garbage d = elim (state d) [
    | err e ↦ (d, err e)
    | ok s ↦ if not d.has_records then (d, ok ([], [])) else elim (parse_records d.records) [
      | err e ↦ (d, err e)
      | ok _ ↦ (
        record d {
          records = remove_records s d.records d.records;
          store = retain (λ name a. not (collectable s d.records name a)) d.store;
        },
        ok (
          sort_texts (removed_assets s d.records d.store),
          sort_texts (removed_records s d.records),
        ),
      )
    ]
  ]
