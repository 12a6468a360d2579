-- ===== src/Bootstrap/ImageStart.antt =====
-- The trial of an image of deployments.mjs, from its preparation to its acceptance.
use dsh_docker.Prelude.{◌≡◌, refl, ◌∙◌, inl, inr, Option, none, some, Bool, true, false, ◌||◌}
use dsh_docker.Prelude.Tests.{if◌then◌else◌, Bool-cases, Option-cases}
use dsh_docker.Prelude.Text.{Text, text_eq}
use dsh_docker.Prelude.Result.{Result, ok, err, Result-cases}
use dsh_docker.Platform.Contracts.{Slots}
use dsh_docker.Platform.Deployments.{DeploymentRecord}
use dsh_docker.Bootstrap.Deployments.{
  Host, DeploymentDisk, DeploymentError, select, LinkFault, before_view, behind_view, link_view,
  slots_of, resolve_deployment, read_deployment,
}
use dsh_docker.Bootstrap.Images.{
  ImageChoice, ImagePlan, replace_by, is_refresh_action, go_back, choose_image, try_choice,
  try_first, prepare_written,
}

-- A deployment resolves, is selected and is what the view shows, and the slots and Records stand.
pub record IsSelected (host : Host) (d d' : DeploymentDisk) (target : Text) : Type 0 where
  pub slots_stay : d'.slots ≡ d.slots
  pub records_stay : d'.records ≡ d.records
  pub is_selected : d'.selected ≡ some target
  pub in_view : d'.view ≡ some target
  pub resolved : (r : DeploymentRecord) × (resolve_deployment host d' target ≡ ok r)

-- A selection failed: the view may be another one.
pub record IsLeft (d d' : DeploymentDisk) : Type 0 where
  pub slots_stay : d'.slots ≡ d.slots
  pub records_stay : d'.records ≡ d.records
  pub selection_stays : d'.selected ≡ d.selected

-- The deployment to go back to is the one that the slots call current.
abbrev pub IsFallback : Host → DeploymentDisk → Option Text → Type 0
IsFallback host d none = Unit {0}
IsFallback host d (some f) =
    (s : Slots) × (id : Text) × (current : DeploymentRecord) × (slots_of d ≡ ok s)
    × (s.current ≡ some id)
    × (read_deployment host d id ≡ ok current)
    × (current.id ≡ f)

-- How a preparation may end, on the disk with the image's Record.
pub data IsPrepared (host : Host) (d : DeploymentDisk)
    : DeploymentDisk × Result DeploymentError ImagePlan → Type 0 where
  planned :
      (d' : DeploymentDisk) (p : ImagePlan)
      → IsSelected host d d' p.choice.target
      → IsFallback host d p.fallback
      → IsPrepared host d (d', ok p)
  failed : (d' : DeploymentDisk) (e : DeploymentError) → IsLeft d d' → IsPrepared host d (d', err e)

IsLeft-refl : (d : DeploymentDisk) → IsLeft d d
IsLeft-refl d = record { slots_stay = refl; records_stay = refl; selection_stays = refl }

IsLeft-trans : (d e f : DeploymentDisk) → IsLeft d e → IsLeft e f → IsLeft d f
IsLeft-trans d e f a b = record {
  slots_stay = b.slots_stay ∙ a.slots_stay;
  records_stay = b.records_stay ∙ a.records_stay;
  selection_stays = b.selection_stays ∙ a.selection_stays;
}

link_view-ok :
    (d : DeploymentDisk) (id : Text) (fault : Option LinkFault) (x : Unit {0})
    → (link_view d id fault).1 ≡ ok x
    → (link_view d id fault).0 ≡ record d { view = some id; selected = some id }
unfolding link_view
link_view-ok d id none x h = refl
link_view-ok d id (some before_view) x h = absurd cc
link_view-ok d id (some behind_view) x h = absurd cc

link_view-err :
    (d : DeploymentDisk) (id : Text) (fault : Option LinkFault) (e : DeploymentError)
    → (link_view d id fault).1 ≡ err e
    → IsLeft d (link_view d id fault).0
unfolding link_view
link_view-err d id none e h = absurd cc
link_view-err d id (some before_view) e h = IsLeft-refl d
link_view-err d id (some behind_view) e h = record {
  slots_stay = refl;
  records_stay = refl;
  selection_stays = refl;
}

module _ (host : Host) where
  pub select-IsSelected :
      (d : DeploymentDisk) (id : Text) (x : Unit {0})
      → (select host d id).1 ≡ ok x
      → IsSelected host d (select host d id).0 id
  unfolding select resolve_deployment read_deployment
  select-IsSelected d id x h = elim (Result-cases (resolve_deployment host d id)) [
    | inl (e, q) ↦ let k = rw (q, select) at h in absurd cc
    | inr (r, q) ↦
        let done = link_view-ok d id (host.link_fault d id) x (rw (q, select) at h) in
        rw (q, select, done)
          (record {
            slots_stay = refl;
            records_stay = refl;
            is_selected = refl;
            in_view = refl;
            resolved = (r, q);
          })
  ]

  select-IsLeft :
      (d : DeploymentDisk) (id : Text) (e : DeploymentError)
      → (select host d id).1 ≡ err e
      → IsLeft d (select host d id).0
  unfolding select
  select-IsLeft d id e h = elim (Result-cases (resolve_deployment host d id)) [
    | inl (x, q) ↦ rw (q, select) (IsLeft-refl d)
    | inr (r, q) ↦
        rw (q, select) (link_view-err d id (host.link_fault d id) e (rw (q, select) at h))
  ]

  IsSelected-behind :
      (d d' d'' : DeploymentDisk) (id : Text)
      → IsLeft d d'
      → IsSelected host d' d'' id
      → IsSelected host d d'' id
  IsSelected-behind d d' d'' id left s = record {
    slots_stay = s.slots_stay ∙ left.slots_stay;
    records_stay = s.records_stay ∙ left.records_stay;
    is_selected = s.is_selected;
    in_view = s.in_view;
    resolved = s.resolved;
  }

  go_back-IsPrepared :
      (d d' : DeploymentDisk) (s : Slots) (current : Text) (c : ImageChoice) (e : DeploymentError)
      → IsLeft d d'
      → IsPrepared host d (go_back host d' s current c e)
  unfolding go_back
  go_back-IsPrepared d d' s current c e left = elim (Result-cases (select host d' current).1) [
    | inr (x, h) ↦
        rw (h, go_back)
          (planned _ _ (IsSelected-behind d d' _ current left (select-IsSelected d' current x h))
            tt)
    | inl (f, h) ↦
        rw (h, go_back) (failed _ _ (IsLeft-trans d d' _ left (select-IsLeft d' current f h)))
  ]

  IsFallback-if :
      (d : DeploymentDisk) (b : Bool) (id : Text)
      → IsFallback host d (some id)
      → IsFallback host d (if b then none else some id)
  IsFallback-if d true id h = tt
  IsFallback-if d false id h = h

  try_choice-IsPrepared :
      (d : DeploymentDisk) (s : Slots) (current : Text) (c : ImageChoice)
      → IsFallback host d (some current)
      → IsPrepared host d (try_choice host d s current c)
  unfolding try_choice
  try_choice-IsPrepared d s current c back = elim (Result-cases (select host d c.target).1) [
    | inr (x, h) ↦
        rw (h, try_choice)
          (planned _ _ (select-IsSelected d c.target x h)
            (IsFallback-if d (text_eq c.target current || is_refresh_action c.action) current back))
    | inl (e, h) ↦
        let left = select-IsLeft d c.target e h in
        elim (Bool-cases (text_eq c.target current)) [
          | inl same ↦ rw (h, same, try_choice) (failed _ _ left)
          | inr other ↦
              rw (h, other, try_choice)
                (go_back-IsPrepared d (select host d c.target).0 s current c e left)
        ]
  ]

  try_first-IsPrepared :
      (d : DeploymentDisk) (image : DeploymentRecord) → IsPrepared host d (try_first host d image)
  unfolding try_first replace_by
  try_first-IsPrepared d image = elim (Result-cases (select host d image.id).1) [
    | inr (x, h) ↦ rw (h, try_first) (planned _ _ (select-IsSelected d image.id x h) tt)
    | inl (e, h) ↦ rw (h, try_first) (failed _ _ (select-IsLeft d image.id e h))
  ]

  pub prepare_written-IsPrepared :
      (d : DeploymentDisk) (image : DeploymentRecord)
      → IsPrepared host d (prepare_written host d image)
  unfolding prepare_written
  prepare_written-IsPrepared d image = elim (Result-cases (slots_of d)) [
    | inl (e, h) ↦ rw (h, prepare_written) (failed _ _ (IsLeft-refl d))
    | inr (s, h) ↦ elim (Option-cases s.current) [
      | inl k ↦ rw (h, k, prepare_written) (try_first-IsPrepared d image)
      | inr (id, k) ↦ elim (Result-cases (read_deployment host d id)) [
        | inl (e, l) ↦ rw (h, k, l, prepare_written) (failed _ _ (IsLeft-refl d))
        | inr (current, l) ↦ elim (Result-cases (choose_image host current image)) [
          | inl (e, m) ↦ rw (h, k, l, m, prepare_written) (failed _ _ (IsLeft-refl d))
          | inr (c, m) ↦
              rw (h, k, l, m, prepare_written)
                (try_choice-IsPrepared d s current.id c (s, id, current, h, k, l, refl))
        ]
      ]
    ]
  ]
